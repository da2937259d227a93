-- ===== src/Codec/Decode.antt =====
-- zccp_msg_decode of zccp_msg.c: signature, number, the fields of that message, then the frames
-- that are left as the content.
pub mod RoundTrip
pub mod Complete
pub mod Content
pub mod Full
pub mod Numbers
pub mod Lookup
pub mod Overlong
pub mod Grammar
use zccp.Base.{ℕ, zero, suc, List, [], ◌∷◌, Option, none, some, ◌==◌, if◌then◌else◌}
use zccp.Czmq.{Frame, Czmq}
use zccp.Codec.{
  Kind, hello, hello_ok, subscribe, subscribe_ok, publish, direct, deliver, goodbye, goodbye_ok,
  ping, ping_ok, invalid, kind_of, ZccpMsg, zccp_msg_new,
}
use zccp.Codec.Wire.Get.{
  Reader, ◌>>=◌, got, get_number1, get_number2, get_number4, get_string, get_longstr,
}
use zccp.Codec.Encode.{signature}

abbrev malformed : {A : Type 0} → Reader A
malformed bs = none

module _ (C : Czmq) where
  open C use {Hash, zhash_new, zhash_insert}

  -- `while (hash_size--)`: the value of a name that occurs before is dropped by zhash_insert.
  unfoldable pub get_items : ℕ → Hash → Reader Hash
  get_items zero t = got t
  get_items (suc hash_size) t = do
    key ← get_string
    value ← get_longstr
    get_items hash_size (zhash_insert t key value)

  unfoldable pub get_headers : Reader Hash
  get_headers = do hash_size ← get_number4; get_items hash_size zhash_new

  -- The cases of the switch, on the new object and the frames behind the data frame.
  unfoldable pub get_fields : Kind → ZccpMsg Hash → List Frame → Reader (ZccpMsg Hash)
  get_fields hello m msg = do
    identifier ← get_string
    headers ← get_headers
    got (record m { identifier = some identifier; headers = some headers })
  get_fields hello_ok m msg = do headers ← get_headers; got (record m { headers = some headers })
  get_fields subscribe m msg = do
    expression ← get_string
    headers ← get_headers
    got (record m { expression = some expression; headers = some headers })
  get_fields subscribe_ok m msg = got m
  get_fields publish m msg = do
    address ← get_string
    headers ← get_headers
    got (record m { address = some address; headers = some headers; content = some msg })
  get_fields direct m msg = do
    address ← get_string
    headers ← get_headers
    got (record m { address = some address; headers = some headers; content = some msg })
  get_fields deliver m msg = do
    sender ← get_string
    address ← get_string
    headers ← get_headers
    got (record m {
      sender = some sender;
      address = some address;
      headers = some headers;
      content = some msg;
    })
  get_fields goodbye m msg = got m
  get_fields goodbye_ok m msg = do headers ← get_headers; got (record m { headers = some headers })
  get_fields ping m msg = got m
  get_fields ping_ok m msg = got m
  get_fields invalid m msg = got m

  -- `switch (self->id)`.
  unfoldable pub get_command : ℕ → Option Kind → List Frame → Reader (ZccpMsg Hash)
  get_command id none msg = malformed
  get_command id (some k) msg = get_fields k (zccp_msg_new Hash id) msg

  -- The data frame: an invalid signature jumps to `empty`, which returns NULL like `malformed`.
  unfoldable pub get_frame : List Frame → Reader (ZccpMsg Hash)
  get_frame msg = do
    sig ← get_number2
    if sig == signature then (do id ← get_number1; get_command id (kind_of id) msg) else malformed

  -- NULL is `none`, on both sides. Octets of the data frame behind the fields are not looked at.
  unfoldable pub zccp_msg_decode : Option (List Frame) → Option (ZccpMsg Hash)
  zccp_msg_decode none = none
  zccp_msg_decode (some []) = none
  zccp_msg_decode (some (frame ∷ msg)) = elim (get_frame msg frame) [
    | none ↦ none
    | some (m, rest) ↦ some m
  ]
