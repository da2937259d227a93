-- ===== src/Codec.antt =====
-- zccp_msg.h and the object of zccp_msg.c: message kinds with their numbers, and the struct.
-- The children hold the functions of zccp_msg.c.
pub mod Wire
pub mod Encode
pub mod Decode
pub mod Access
pub mod Headers
pub mod Dup
pub mod Socket
pub mod Steps
pub mod Wires
pub mod Print
mod Tests
use zccp.Base.{ℕ, ◌<◌, ◌≡◌, refl, Option, none, some, List, ◌==◌, if◌then◌else◌, arith}
use zccp.Czmq.{Str, Frame}

-- The constants ZCCP_MSG_HELLO to ZCCP_MSG_INVALID.
pub data Kind : Type 0 where
  hello hello_ok subscribe subscribe_ok publish direct : Kind
  deliver goodbye goodbye_ok ping ping_ok invalid : Kind

unfoldable pub code : Kind → ℕ
code hello = 1
code hello_ok = 2
code subscribe = 3
code subscribe_ok = 4
code publish = 5
code direct = 6
code deliver = 7
code goodbye = 8
code goodbye_ok = 9
code ping = 10
code ping_ok = 11
code invalid = 12

-- The case of `switch (self->id)` that a number selects; `none` is its default.
unfoldable pub kind_of : ℕ → Option Kind
kind_of id =
    if id == 1
    then some hello
    else if id == 2
    then some hello_ok
    else if id == 3
    then some subscribe
    else if id == 4
    then some subscribe_ok
    else if id == 5
    then some publish
    else if id == 6
    then some direct
    else if id == 7
    then some deliver
    else if id == 8
    then some goodbye
    else if id == 9
    then some goodbye_ok
    else if id == 10
    then some ping
    else if id == 11
    then some ping_ok
    else if id == 12
    then some invalid
    else none

pub kind_of-code : (k : Kind) → kind_of (code k) ≡ some k
unfolding kind_of code
kind_of-code hello = refl
kind_of-code hello_ok = refl
kind_of-code subscribe = refl
kind_of-code subscribe_ok = refl
kind_of-code publish = refl
kind_of-code direct = refl
kind_of-code deliver = refl
kind_of-code goodbye = refl
kind_of-code goodbye_ok = refl
kind_of-code ping = refl
kind_of-code ping_ok = refl
kind_of-code invalid = refl

pub code-lt : (k : Kind) → code k < 256
unfolding code
code-lt hello = omega arith
code-lt _ = omega arith

pub code-kind_of : (n : ℕ) (k : Kind) → kind_of n ≡ some k → n ≡ code k
unfolding kind_of code
code-kind_of n k h = ground arith

-- struct _zccp_msg_t over the type of its hash tables; NULL is `none`. The needle and the ceiling
-- are arguments of the functions that read or write a frame.
pub record ZccpMsg (Hash : Type 0) : Type 0 where
  pub routing_id : Option Frame
  pub id : ℕ
  pub identifier : Option Str
  pub headers : Option Hash
  pub headers_bytes : ℕ
  pub expression : Option Str
  pub address : Option Str
  pub content : Option (List Frame)
  pub sender : Option Str

-- zccp_msg_new: a cleared object with its number.
unfoldable pub zccp_msg_new : (Hash : Type 0) → ℕ → ZccpMsg Hash
zccp_msg_new Hash id = record {
  routing_id = none;
  id = id;
  identifier = none;
  headers = none;
  headers_bytes = 0;
  expression = none;
  address = none;
  content = none;
  sender = none;
}
