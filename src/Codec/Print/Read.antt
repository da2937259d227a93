-- ===== src/Codec/Print/Read.antt =====
-- A reader of what zccp_msg_print writes.
use zccp.Base.{
  Bool, true, false, ◌==◌, List, [], ◌∷◌, ◌++◌, Option, none, some, if◌then◌else◌, streq,
}
use zccp.Czmq.{Str, codes}
use zccp.Codec.{
  Kind, hello, hello_ok, subscribe, subscribe_ok, publish, direct, deliver, goodbye, goodbye_ok,
  ping, ping_ok, invalid,
}

infixl 1 ◌>>=◌
abbrev pub ◌>>=◌ : {A B : Type 0} → Option A → (A → Option B) → Option B
none >>= f = none
some a >>= f = f a

-- What is behind a prefix.
abbrev pub behind : Str → Str → Option Str
behind [] s = some s
behind (c ∷ p) [] = none
behind (c ∷ p) (d ∷ s) = if c == d then behind p s else none

-- All but the last character.
abbrev pub but_last : Str → Str
but_last [] = []
but_last (c ∷ []) = []
but_last (c ∷ d ∷ s) = c ∷ but_last (d ∷ s)

-- A value: nothing is NULL, a text stands in quotes.
abbrev pub read_value : Str → Option Str
read_value [] = none
read_value (quote ∷ s) = some (but_last s)

abbrev pub read_text : Str → Str → Option (Option Str)
read_text name line = elim (behind (name ++ codes "=") line) [
  | none ↦ none
  | some value ↦ some (read_value value)
]

-- The lines that begin with eight spaces.
abbrev pub read_items : List Str → List Str
read_items [] = []
read_items (line ∷ lines) = elim (behind (codes "        ") line) [
  | none ↦ []
  | some rest ↦ line ∷ read_items lines
]

-- The lines behind "headers=": NULL, or those of the items.
abbrev pub read_headers : List Str → Option (List Str)
read_headers [] = some []
read_headers (line ∷ lines) =
    let items = read_items (line ∷ lines) in
    if streq line (codes "(NULL)") then none else some items

-- What the lines say of a message.
pub record Printed : Type 0 where
  pub kind : Kind
  pub texts : List (Option Str)
  pub headers : Option (List Str)

-- The names of a message's string fields, and whether headers follow them.
abbrev pub layout : Kind → List Str × Bool
layout hello = (codes "    identifier" ∷ [], true)
layout hello_ok = ([], true)
layout subscribe = (codes "    expression" ∷ [], true)
layout publish = (codes "    address" ∷ [], true)
layout direct = (codes "    address" ∷ [], true)
layout deliver = (codes "    sender" ∷ codes "    address" ∷ [], true)
layout goodbye_ok = ([], true)
layout _ = ([], false)

abbrev pub kind_at : Str → Option Kind
kind_at line =
    if streq line (codes "ZCCP_MSG_HELLO:")
    then some hello
    else if streq line (codes "ZCCP_MSG_HELLO_OK:")
    then some hello_ok
    else if streq line (codes "ZCCP_MSG_SUBSCRIBE:")
    then some subscribe
    else if streq line (codes "ZCCP_MSG_SUBSCRIBE_OK:")
    then some subscribe_ok
    else if streq line (codes "ZCCP_MSG_PUBLISH:")
    then some publish
    else if streq line (codes "ZCCP_MSG_DIRECT:")
    then some direct
    else if streq line (codes "ZCCP_MSG_DELIVER:")
    then some deliver
    else if streq line (codes "ZCCP_MSG_GOODBYE:")
    then some goodbye
    else if streq line (codes "ZCCP_MSG_GOODBYE_OK:")
    then some goodbye_ok
    else if streq line (codes "ZCCP_MSG_PING:")
    then some ping
    else if streq line (codes "ZCCP_MSG_PING_OK:")
    then some ping_ok
    else if streq line (codes "ZCCP_MSG_INVALID:")
    then some invalid
    else none

-- The strings under the names, and the lines behind them.
abbrev pub read_texts : List Str → List Str → Option (List (Option Str) × List Str)
read_texts [] lines = some ([], lines)
read_texts (name ∷ names) [] = none
read_texts (name ∷ names) (line ∷ lines) = do
  text ← read_text name line
  (texts, rest) ← read_texts names lines
  some (text ∷ texts, rest)

abbrev pub read_rest : Bool → List Str → Option (Option (List Str))
read_rest false lines = some none
read_rest true [] = none
read_rest true (line ∷ lines) =
    let headers = read_headers lines in
    if streq line (codes "    headers=") then some headers else none

abbrev pub read_print : List Str → Option Printed
read_print [] = none
read_print (line ∷ lines) = do
  k ← kind_at line
  (texts, rest) ← read_texts (layout k).0 lines
  headers ← read_rest (layout k).1 rest
  some (record { kind = k; texts = texts; headers = headers })
