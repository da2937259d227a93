-- ===== src/Codec/Decode/Content.antt =====
-- The content that zccp_msg_decode takes over: the frames behind the data frame. A message without
-- any is malformed for those who read its first frame, and zccp_msg_decode accepts it.
use zccp.Base.{
  ℕ, ◌≡◌, refl, sym, ap, subst, ◌∙◌, List, ◌∷◌, ◌++◌, Option, none, some, ◌==◌, inl, inr,
  Bool-cases, arith,
}
use zccp.Czmq.{Frame, Czmq}
use zccp.Codec.{
  Kind, hello, hello_ok, subscribe, publish, direct, deliver, goodbye_ok, kind_of, code, code-lt,
  ZccpMsg, zccp_msg_new,
}
use zccp.Codec.Wire.Put.{number1}
use zccp.Codec.Wire.Get.{◌>>=◌, get_number1, get_number2, get_string, number1-Reads, number2-Reads}
use zccp.Codec.Encode.{signature}
use zccp.Codec.Encode.Size.{octets, fields}
use zccp.Codec.Decode.{get_fields, get_command, get_frame, zccp_msg_decode}
use zccp.Codec.Decode.Complete.{
  Holds, Gives, then-Gives, headers-Gives, string_headers-Gives, Holds-mono, same_kind, same_msg,
}

module _ (C : Czmq) where
  open C use {Hash}

  -- The frames behind the data frame are the content of a PUBLISH and of a DELIVER.
  abbrev Carries : List Frame → Kind → ZccpMsg Hash → Type 0
  Carries msg publish m = m.content ≡ some msg
  Carries msg deliver m = m.content ≡ some msg
  Carries msg _ m = Unit

  abbrev pub CarriesAny : List Frame → ZccpMsg Hash → Type 0
  CarriesAny msg m = (k : Kind) → kind_of m.id ≡ some k → Carries msg k m

  abbrev Numbered : List Frame → ℕ → Kind → ZccpMsg Hash → Type 0
  Numbered msg id k m = (m.id ≡ id) × Carries msg k m

  get_fields-Carries :
      (k : Kind) (m : ZccpMsg Hash) (msg : List Frame)
      → Gives (Numbered msg m.id k) (get_fields C k m msg)
  unfolding get_fields
  get_fields-Carries hello m msg =
      string_headers-Gives C (Numbered msg m.id hello)
        (λ i t. record m { identifier = some i; headers = some t }) (λ i t. (refl, tt))
  get_fields-Carries subscribe m msg =
      string_headers-Gives C (Numbered msg m.id subscribe)
        (λ i t. record m { expression = some i; headers = some t }) (λ i t. (refl, tt))
  get_fields-Carries publish m msg =
      string_headers-Gives C (Numbered msg m.id publish)
        (λ i t. record m { address = some i; headers = some t; content = some msg })
        (λ i t. (refl, refl))
  get_fields-Carries direct m msg =
      string_headers-Gives C (Numbered msg m.id direct)
        (λ i t. record m { address = some i; headers = some t; content = some msg })
        (λ i t. (refl, tt))
  get_fields-Carries deliver m msg = then-Gives (Numbered msg m.id deliver) get_string _ (λ s.
      string_headers-Gives C (Numbered msg m.id deliver)
        (λ i t. record m {
          sender = some s;
          address = some i;
          headers = some t;
          content = some msg;
        })
        (λ i t. (refl, refl)))
  get_fields-Carries hello_ok m msg =
      headers-Gives C (Numbered msg m.id hello_ok) (λ t. record m { headers = some t })
        (λ t. (refl, tt))
  get_fields-Carries goodbye_ok m msg =
      headers-Gives C (Numbered msg m.id goodbye_ok) (λ t. record m { headers = some t })
        (λ t. (refl, tt))
  get_fields-Carries _ m msg = λ bs. (refl, tt)

  carries :
      (msg : List Frame) (id : ℕ) (k : Kind) (m : ZccpMsg Hash)
      → kind_of id ≡ some k
      → Numbered msg id k m
      → (m.id ≡ id) × CarriesAny msg m
  carries msg id k m e (n, h) = (
    n,
    λ j ej. subst (λ x. Carries msg x m) (same_kind C k j (sym e ∙ ap kind_of (sym n) ∙ ej)) h,
  )

  get_command-Carries :
      (id : ℕ) (o : Option Kind) (msg : List Frame)
      → kind_of id ≡ o
      → Gives (λ m. (m.id ≡ id) × CarriesAny msg m) (get_command C id o msg)
  unfolding get_command zccp_msg_new
  get_command-Carries id none msg e = λ bs. tt
  get_command-Carries id (some k) msg e = λ bs.
      Holds-mono C (Numbered msg id k) (λ m. (m.id ≡ id) × CarriesAny msg m)
        (get_fields C k (zccp_msg_new Hash id) msg bs) (λ m h. carries msg id k m e h)
        (get_fields-Carries k (zccp_msg_new Hash id) msg bs)

  get_frame-Carries : (msg : List Frame) → Gives (CarriesAny msg) (get_frame C msg)
  unfolding get_frame
  get_frame-Carries msg = then-Gives (CarriesAny msg) get_number2 _ (λ sig.
      elim (Bool-cases (sig == signature)) [
        | inl e ↦ rw e (
            then-Gives (CarriesAny msg) get_number1 _ (λ id bs.
              Holds-mono C (λ m. (m.id ≡ id) × CarriesAny msg m) (CarriesAny msg)
                (get_command C id (kind_of id) msg bs) (λ m h. h.1)
                (get_command-Carries id (kind_of id) msg refl bs)))
        | inr e ↦ rw e (λ bs. tt)
      ])

  first-Holds :
      (P : ZccpMsg Hash → Type 0) (x : Option (ZccpMsg Hash × List ℕ)) (m : ZccpMsg Hash)
      → Holds P x
      → elim x [ none ↦ none | some (a, rest) ↦ some a ] ≡ some m
      → P m
  first-Holds P none m h e = cc
  first-Holds P (some (a, rest)) m h e = subst P (same_msg C a m e) h

  pub decode-CarriesAny :
      (frame : Frame) (msg : List Frame) (m : ZccpMsg Hash)
      → zccp_msg_decode C (some (frame ∷ msg)) ≡ some m
      → CarriesAny msg m
  unfolding zccp_msg_decode
  decode-CarriesAny frame msg m e =
      first-Holds (CarriesAny msg) (get_frame C msg frame) m (get_frame-Carries msg frame) e

  get_frame-octets :
      (k : Kind) (x : ZccpMsg Hash) (msg : List Frame)
      → get_frame C msg (octets C k x)
        ≡ get_command C (code k) (kind_of (code k)) msg (fields C k x)
  unfolding get_frame octets
  get_frame-octets k x msg =
      rw
        (
          (number2-Reads signature (omega arith)).reads (number1 (code k) ++ fields C k x),
          ◌>>=◌,
          (number1-Reads (code k) (code-lt k)).reads (fields C k x),
        )
        refl

  -- Whatever a data frame of the encoder is decoded to, it has the encoded number.
  pub decode-number :
      (k : Kind) (x : ZccpMsg Hash) (msg : List Frame) (m : ZccpMsg Hash)
      → zccp_msg_decode C (some (octets C k x ∷ msg)) ≡ some m
      → m.id ≡ code k
  unfolding zccp_msg_decode
  decode-number k x msg m e =
      (first-Holds (λ m. (m.id ≡ code k) × CarriesAny msg m)
        (get_command C (code k) (kind_of (code k)) msg (fields C k x)) m
        (get_command-Carries (code k) (kind_of (code k)) msg refl (fields C k x))
        (ap (λ o. elim o [ none ↦ none | some (a, rest) ↦ some a ]) (sym (get_frame-octets k x msg))
          ∙ e)).0
