-- ===== src/Codec/Decode/RoundTrip.antt =====
-- What zccp_msg_encode writes, zccp_msg_decode reads back.
use zccp.Base.{
  ℕ, ◌^◌, ◌<◌, ◌≡◌, refl, sym, subst, ◌∙◌, List, [], ◌∷◌, ◌++◌, append-nil, Option, none, some,
  length, All, arith, streq, streq→eq, Bool-cases, inl, inr,
}
use zccp.Czmq.{Str, Frame, Czmq, keep_old, find_item}
use zccp.Codec.{
  Kind, hello, hello_ok, subscribe, subscribe_ok, publish, direct, deliver, goodbye, goodbye_ok,
  ping, ping_ok, invalid, kind_of, kind_of-code, code, code-lt, ZccpMsg, zccp_msg_new,
}
use zccp.Codec.Wire.Put.{number1, number2, number4}
use zccp.Codec.Wire.Get.{
  get_number1, get_number2, get_number4, get_string, get_longstr, ◌>>=◌, got, Reads, IsText,
  bind-Reads, last-Reads, number1-Reads, number2-Reads, number4-Reads, string-Reads, longstr-Reads,
}
use zccp.Codec.Encode.{signature, content_frames, message_field, zccp_msg_encode}
use zccp.Codec.Encode.Size.{
  text, string, longstr, pairs, items, dictionary, fields, octets, IsFresh, zccp_msg_encode-octets,
}
use zccp.Codec.Decode.{get_items, get_headers, get_fields, get_command, get_frame, zccp_msg_decode}

-- A C string that fits its 1-byte length.
abbrev pub IsString : Str → Type 0
IsString s = IsText s × (length s < 256)

-- A header fits the lengths of its name and its value.
abbrev pub IsHeader : Str × Str → Type 0
IsHeader (k, v) = IsString k × IsText v × (length v < 2 ^ 32)

abbrev pub IsDictionary : List (Str × Str) → Type 0
IsDictionary xs = All IsHeader xs × (length xs < 2 ^ 32)

module _ (C : Czmq) where
  open C use {
    Hash, zhash_items, zhash_new, zhash_insert, zhash_lookup, lookup-insert, lookup-new,
    lookup-items,
  }

  -- A table filled by zhash_insert, one header after the other.
  unfoldable pub insert_all : Hash → List (Str × Str) → Hash
  insert_all t [] = t
  insert_all t ((k, v) ∷ xs) = insert_all (zhash_insert t k v) xs

  get_items-Reads :
      (xs : List (Str × Str)) (t : Hash)
      → All IsHeader xs
      → Reads (get_items C (length xs) t) (pairs xs) (insert_all t xs)
  unfolding get_items pairs insert_all
  get_items-Reads [] t h = record { reads = λ rest. refl }
  get_items-Reads ((k, v) ∷ xs) t ((hk, hv, hl), hs) =
      bind-Reads get_string _ (string k) (longstr v ++ pairs xs) (string-Reads k hk.0 hk.1) (
        bind-Reads get_longstr _ (longstr v) (pairs xs) (longstr-Reads v hv hl)
          (get_items-Reads xs (zhash_insert t k v) hs))

  -- The headers that arrive.
  abbrev pub refill : Option Hash → Hash
  refill t = insert_all zhash_new (items C t)

  get_headers-Reads :
      (t : Option Hash)
      → IsDictionary (items C t)
      → Reads (get_headers C) (dictionary C t) (refill t)
  unfolding get_headers dictionary
  get_headers-Reads t h =
      bind-Reads get_number4 _ (number4 (length (items C t))) (pairs (items C t))
        (number4-Reads _ h.1) (get_items-Reads (items C t) zhash_new h.0)

  -- The fields of a message fit their lengths on the wire.
  abbrev pub Fits : Kind → ZccpMsg Hash → Type 0
  Fits hello m = IsString (text m.identifier) × IsDictionary (items C m.headers)
  Fits hello_ok m = IsDictionary (items C m.headers)
  Fits subscribe m = IsString (text m.expression) × IsDictionary (items C m.headers)
  Fits subscribe_ok m = Unit
  Fits publish m = IsString (text m.address) × IsDictionary (items C m.headers)
  Fits direct m = IsString (text m.address) × IsDictionary (items C m.headers)
  Fits deliver m =
      IsString (text m.sender) × IsString (text m.address) × IsDictionary (items C m.headers)
  Fits goodbye m = Unit
  Fits goodbye_ok m = IsDictionary (items C m.headers)
  Fits ping m = Unit
  Fits ping_ok m = Unit
  Fits invalid m = Unit

  -- What arrives of a message: its own fields, with NULL read as empty, and nothing else.
  unfoldable pub received : Kind → ZccpMsg Hash → ZccpMsg Hash
  received k m = arrives k (zccp_msg_new Hash (code k))
    where
      arrives : Kind → ZccpMsg Hash → ZccpMsg Hash
      arrives hello new = record new {
        identifier = some (text m.identifier);
        headers = some (refill m.headers);
      }
      arrives hello_ok new = record new { headers = some (refill m.headers) }
      arrives subscribe new = record new {
        expression = some (text m.expression);
        headers = some (refill m.headers);
      }
      arrives subscribe_ok new = new
      arrives publish new = record new {
        address = some (text m.address);
        headers = some (refill m.headers);
        content = some (message_field C m);
      }
      arrives direct new = record new {
        address = some (text m.address);
        headers = some (refill m.headers);
        content = some (message_field C m);
      }
      arrives deliver new = record new {
        sender = some (text m.sender);
        address = some (text m.address);
        headers = some (refill m.headers);
        content = some (message_field C m);
      }
      arrives goodbye new = new
      arrives goodbye_ok new = record new { headers = some (refill m.headers) }
      arrives ping new = new
      arrives ping_ok new = new
      arrives invalid new = new

  string_headers-Reads :
      (s : Option Str) (t : Option Hash) (g : Str → Hash → ZccpMsg Hash)
      → IsString (text s)
      → IsDictionary (items C t)
      → Reads
          (λ bs. (get_string >>= λ x. get_headers C >>= λ y. got (g x y)) bs)
          (string (text s) ++ dictionary C t)
          (g (text s) (refill t))
  string_headers-Reads s t g hs ht =
      bind-Reads get_string _ (string (text s)) (dictionary C t) (string-Reads (text s) hs.0 hs.1)
        (last-Reads (get_headers C) (g (text s)) (dictionary C t) (get_headers-Reads t ht))

  fields-Reads :
      (k : Kind) (m : ZccpMsg Hash)
      → Fits k m
      → Reads
          (get_fields C k (zccp_msg_new Hash (code k)) (content_frames C k m))
          (fields C k m)
          (received k m)
  unfolding get_fields fields received content_frames
  fields-Reads hello m (hs, ht) = string_headers-Reads m.identifier m.headers _ hs ht
  fields-Reads hello_ok m ht =
      last-Reads (get_headers C) _ (dictionary C m.headers) (get_headers-Reads m.headers ht)
  fields-Reads subscribe m (hs, ht) = string_headers-Reads m.expression m.headers _ hs ht
  fields-Reads subscribe_ok m h = record { reads = λ rest. refl }
  fields-Reads publish m (hs, ht) = string_headers-Reads m.address m.headers _ hs ht
  fields-Reads direct m (hs, ht) = string_headers-Reads m.address m.headers _ hs ht
  fields-Reads deliver m (hs, ha, ht) =
      bind-Reads get_string _ (string (text m.sender))
        (string (text m.address) ++ dictionary C m.headers) (string-Reads (text m.sender) hs.0 hs.1)
        (string_headers-Reads m.address m.headers _ ha ht)
  fields-Reads goodbye m h = record { reads = λ rest. refl }
  fields-Reads goodbye_ok m ht =
      last-Reads (get_headers C) _ (dictionary C m.headers) (get_headers-Reads m.headers ht)
  fields-Reads ping m h = record { reads = λ rest. refl }
  fields-Reads ping_ok m h = record { reads = λ rest. refl }
  fields-Reads invalid m h = record { reads = λ rest. refl }

  command-Reads :
      (k : Kind) (m : ZccpMsg Hash)
      → Fits k m
      → Reads
          (get_command C (code k) (kind_of (code k)) (content_frames C k m))
          (fields C k m)
          (received k m)
  unfolding get_command
  command-Reads k m h = rw (kind_of-code k, get_command) (fields-Reads k m h)

  frame-Reads :
      (k : Kind) (m : ZccpMsg Hash)
      → Fits k m
      → Reads (get_frame C (content_frames C k m)) (octets C k m) (received k m)
  unfolding get_frame octets
  frame-Reads k m h =
      bind-Reads get_number2 _ (number2 signature) (number1 (code k) ++ fields C k m)
        (number2-Reads signature (omega arith))
        (bind-Reads get_number1 _ (number1 (code k)) (fields C k m)
          (number1-Reads (code k) (code-lt k)) (command-Reads k m h))

  -- Octets behind the fields change nothing.
  decode-octets :
      (k : Kind) (m : ZccpMsg Hash) (rest : List ℕ)
      → Fits k m
      → zccp_msg_decode C (some ((octets C k m ++ rest) ∷ content_frames C k m))
        ≡ some (received k m)
  unfolding zccp_msg_decode
  decode-octets k m rest h = rw ((frame-Reads k m h).reads rest, zccp_msg_decode)

  pub decode-frames :
      (k : Kind) (m : ZccpMsg Hash)
      → Fits k m
      → zccp_msg_decode C (some (octets C k m ∷ content_frames C k m)) ≡ some (received k m)
  decode-frames k m h =
      subst (λ f. zccp_msg_decode C (some (f ∷ content_frames C k m)) ≡ some (received k m))
        (append-nil (octets C k m)) (decode-octets k m [] h)

  -- Every message whose number is valid and whose fields fit is encoded, and decoding what was
  -- encoded gives a message with the same number and the same fields: NULL strings and
  -- dictionaries come back empty, a NULL content as one empty frame.
  pub decode-encode :
      (m : ZccpMsg Hash) (k : Kind)
      → kind_of m.id ≡ some k
      → IsFresh C m
      → Fits k m
      → (frames : List Frame) × (zccp_msg_encode C m ≡ some frames)
        × (zccp_msg_decode C (some frames) ≡ some (received k m))
  decode-encode m k e fresh h = (
    octets C k m ∷ content_frames C k m,
    zccp_msg_encode-octets C m k e fresh,
    decode-frames k m h,
  )

  or_else : Option Str → Option Str → Option Str
  or_else none b = b
  or_else (some a) b = some a

  or_else-none : (a : Option Str) → a ≡ or_else a none
  unfolding or_else
  or_else-none none = refl
  or_else-none (some a) = refl

  or_else-keep_old :
      (a : Option Str) (v : Str) (b : Option Str) → or_else (keep_old a v) b ≡ or_else a (some v)
  unfolding or_else
  or_else-keep_old none v b = refl
  or_else-keep_old (some a) v b = refl

  lookup-insert_all :
      (t : Hash) (xs : List (Str × Str)) (k : Str)
      → zhash_lookup (insert_all t xs) k ≡ or_else (zhash_lookup t k) (find_item k xs)
  unfolding insert_all or_else find_item
  lookup-insert_all t [] k = or_else-none (zhash_lookup t k)
  lookup-insert_all t ((j, v) ∷ xs) k =
      lookup-insert_all (zhash_insert t j v) xs k ∙ elim (Bool-cases (streq j k)) [
        | inl e ↦
            rw (lookup-insert t j v k, e, streq→eq j k e)
              (or_else-keep_old (zhash_lookup t k) v (find_item k xs))
        | inr e ↦ rw (lookup-insert t j v k, e)
      ]

  -- Every header arrives with its value, and no header is made up: looking a name up in the
  -- received dictionary gives what it gives in the one that was sent.
  pub lookup-refill : (t : Hash) (k : Str) → zhash_lookup (refill (some t)) k ≡ zhash_lookup t k
  unfolding items or_else
  lookup-refill t k =
      lookup-insert_all zhash_new (zhash_items t) k
      ∙ rw (lookup-new k, or_else) (sym (lookup-items t k))
