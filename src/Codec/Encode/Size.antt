-- ===== src/Codec/Encode/Size.antt =====
-- The two passes of zccp_msg_encode agree: the frame has the size of what is written into it.
use zccp.Base.{
  ℕ, ◌+◌, ◌≡◌, refl, ap, subst, List, [], ◌∷◌, ◌++◌, append-nil, Option, none, some, length,
  length-append, drop_all, arith,
}
use zccp.Czmq.{Str, Frame, Czmq}
use zccp.Codec.{
  Kind, hello, hello_ok, subscribe, subscribe_ok, publish, direct, deliver, goodbye, goodbye_ok,
  ping, ping_ok, invalid, kind_of, code-kind_of, code, ZccpMsg,
}
use zccp.Codec.Wire.Put.{
  Writes, ◌>>◌, number1, number2, number4, put_number1, put_octets-Writes, nothing-Writes,
  then-Writes, string-Writes, longstr-Writes,
}
use zccp.Codec.Encode.{
  signature, string_size, put_string?, items_bytes, put_items, dictionary_bytes, headers_bytes,
  put_headers, frame_size, put_fields, put_frame, encode_frame, content_frames, zccp_msg_encode,
}

-- What stands for a field in a frame, in the words of zccp_msg.bnf.
abbrev pub text : Option Str → Str
text none = []
text (some s) = s

abbrev pub string : Str → List ℕ
string s = number1 (length s) ++ s

abbrev pub longstr : Str → List ℕ
longstr s = number4 (length s) ++ s

unfoldable pub pairs : List (Str × Str) → List ℕ
pairs [] = []
pairs ((k, v) ∷ items) = string k ++ (longstr v ++ pairs items)

string?-Writes : (s : Option Str) → Writes (put_string? s) (string (text s))
unfolding put_string?
string?-Writes none = put_octets-Writes (0 ∷ [])
string?-Writes (some s) = string-Writes s

items-Writes : (items : List (Str × Str)) → Writes (put_items items) (pairs items)
unfolding put_items pairs
items-Writes [] = nothing-Writes
items-Writes ((k, v) ∷ items) =
    then-Writes (string k) (longstr v ++ pairs items) (string-Writes k)
      (then-Writes (longstr v) (pairs items) (longstr-Writes v) (items-Writes items))

length-pairs : (items : List (Str × Str)) → length (pairs items) ≡ items_bytes items
unfolding pairs items_bytes
length-pairs [] = refl
length-pairs ((k, v) ∷ items) = omega (
  arith,
  length-append (string k) (longstr v ++ pairs items),
  length-append (longstr v) (pairs items),
  length-pairs items,
)

length-text : (s : Option Str) → 1 + length (text s) ≡ string_size s
unfolding string_size
length-text none = refl
length-text (some s) = refl

module _ (C : Czmq) where
  open C use {Hash, zhash_items, zhash_size, size-items, zframe_new, length-zframe_new}

  -- The items of a dictionary; NULL counts as the empty one.
  unfoldable pub items : Option Hash → List (Str × Str)
  items none = []
  items (some t) = zhash_items t

  unfoldable pub dictionary : Option Hash → List ℕ
  dictionary t = number4 (length (items t)) ++ pairs (items t)

  -- The fields of each message, as zccp_msg.bnf lists them.
  unfoldable pub fields : Kind → ZccpMsg Hash → List ℕ
  fields hello m = string (text m.identifier) ++ dictionary m.headers
  fields hello_ok m = dictionary m.headers
  fields subscribe m = string (text m.expression) ++ dictionary m.headers
  fields subscribe_ok m = []
  fields publish m = string (text m.address) ++ dictionary m.headers
  fields direct m = string (text m.address) ++ dictionary m.headers
  fields deliver m = string (text m.sender) ++ (string (text m.address) ++ dictionary m.headers)
  fields goodbye m = []
  fields goodbye_ok m = dictionary m.headers
  fields ping m = []
  fields ping_ok m = []
  fields invalid m = []

  -- A whole data frame.
  unfoldable pub octets : Kind → ZccpMsg Hash → Frame
  octets k m = number2 signature ++ (number1 (code k) ++ fields k m)

  headers-Writes : (t : Option Hash) → Writes (put_headers C t) (dictionary t)
  unfolding put_headers dictionary items pairs
  headers-Writes none = put_octets-Writes (0 ∷ 0 ∷ 0 ∷ 0 ∷ [])
  headers-Writes (some t) = rw (← size-items t) (
      then-Writes (number4 (zhash_size t)) (pairs (zhash_items t)) (put_octets-Writes _)
        (items-Writes (zhash_items t)))

  string_headers-Writes :
      (s : Option Str) (t : Option Hash)
      → Writes (put_string? s >> put_headers C t) (string (text s) ++ dictionary t)
  string_headers-Writes s t =
      then-Writes (string (text s)) (dictionary t) (string?-Writes s) (headers-Writes t)

  fields-Writes : (k : Kind) (m : ZccpMsg Hash) → Writes (put_fields C k m) (fields k m)
  unfolding put_fields fields
  fields-Writes hello m = string_headers-Writes m.identifier m.headers
  fields-Writes hello_ok m = headers-Writes m.headers
  fields-Writes subscribe m = string_headers-Writes m.expression m.headers
  fields-Writes subscribe_ok m = nothing-Writes
  fields-Writes publish m = string_headers-Writes m.address m.headers
  fields-Writes direct m = string_headers-Writes m.address m.headers
  fields-Writes deliver m =
      then-Writes (string (text m.sender)) (string (text m.address) ++ dictionary m.headers)
        (string?-Writes m.sender) (string_headers-Writes m.address m.headers)
  fields-Writes goodbye m = nothing-Writes
  fields-Writes goodbye_ok m = headers-Writes m.headers
  fields-Writes ping m = nothing-Writes
  fields-Writes ping_ok m = nothing-Writes
  fields-Writes invalid m = nothing-Writes

  -- The size of the dictionary was not left over from another one.
  abbrev pub IsFresh : ZccpMsg Hash → Type 0
  IsFresh m = m.headers ≡ none → m.headers_bytes ≡ 0

  length-dictionary :
      (t : Option Hash) (old : ℕ)
      → (t ≡ none → old ≡ 0)
      → length (dictionary t) ≡ 4 + dictionary_bytes C t old
  unfolding dictionary items dictionary_bytes pairs
  length-dictionary none old h = omega (arith, h refl)
  length-dictionary (some t) old h = omega (arith, length-pairs (zhash_items t))

  string-dictionary_size :
      (s : Option Str) (t : Option Hash)
      → length (string (text s) ++ dictionary t) ≡ string_size s + length (dictionary t)
  string-dictionary_size s t =
      omega (arith, length-append (string (text s)) (dictionary t), length-text s)

  length-octets : (k : Kind) (m : ZccpMsg Hash) → IsFresh m → length (octets k m) ≡ frame_size C k m
  unfolding octets fields frame_size headers_bytes
  length-octets hello m h = omega (
    arith,
    string-dictionary_size m.identifier m.headers,
    length-dictionary m.headers m.headers_bytes h,
  )
  length-octets subscribe m h = omega (
    arith,
    string-dictionary_size m.expression m.headers,
    length-dictionary m.headers m.headers_bytes h,
  )
  length-octets deliver m h = omega (
    arith,
    length-append (string (text m.sender)) (string (text m.address) ++ dictionary m.headers),
    length-text m.sender,
    string-dictionary_size m.address m.headers,
    length-dictionary m.headers m.headers_bytes h,
  )
  length-octets hello_ok m h = omega (arith, length-dictionary m.headers m.headers_bytes h)
  length-octets goodbye_ok m h = omega (arith, length-dictionary m.headers m.headers_bytes h)
  length-octets publish m h = omega (
    arith,
    string-dictionary_size m.address m.headers,
    length-dictionary m.headers m.headers_bytes h,
  )
  length-octets direct m h = omega (
    arith,
    string-dictionary_size m.address m.headers,
    length-dictionary m.headers m.headers_bytes h,
  )
  length-octets _ m h = refl

  frame-Writes :
      (k : Kind) (m : ZccpMsg Hash) → m.id ≡ code k → Writes (put_frame C k m) (octets k m)
  unfolding put_frame octets
  frame-Writes k m e =
      let number : Writes (put_number1 m.id) (number1 (code k)) =
        subst (λ n. Writes (put_number1 m.id) (number1 n)) e (put_octets-Writes _) in
      then-Writes (number2 signature) (number1 (code k) ++ fields k m) (put_octets-Writes _)
        (then-Writes (number1 (code k)) (fields k m) number (fields-Writes k m))

  -- The writes fill the new frame and do not pass its end.
  pub encode_frame-octets :
      (k : Kind) (m : ZccpMsg Hash)
      → m.id ≡ code k
      → IsFresh m
      → encode_frame C k m ≡ some (octets k m)
  unfolding encode_frame
  encode_frame-octets k m e h =
      let size = length-octets k m h in
      let room = length-zframe_new (frame_size C k m) in
      rw
        (
          frame-Writes k m e (record { written = []; ahead = zframe_new (frame_size C k m) })
              (omega arith),
          encode_frame,
        )
        (rw (drop_all (length (octets k m)) (zframe_new (frame_size C k m)) (omega arith))
          (ap some (append-nil (octets k m))))

  -- A message with a valid number is encoded, whatever its fields are and whatever a new frame
  -- holds: the data frame is filled exactly by the signature, the number and the fields, with no
  -- write behind its end, and the content's frames follow.
  pub zccp_msg_encode-octets :
      (m : ZccpMsg Hash) (k : Kind)
      → kind_of m.id ≡ some k
      → IsFresh m
      → zccp_msg_encode C m ≡ some (octets k m ∷ content_frames C k m)
  unfolding zccp_msg_encode
  zccp_msg_encode-octets m k e h =
      rw (e, encode_frame-octets k m (code-kind_of m.id k e) h, zccp_msg_encode)
