-- ===== src/Codec/Decode/Full.antt =====
-- What zccp_msg_decode gives as the content of a PUBLISH or a DELIVER that was encoded: contents of a
-- sort stay of that sort.
use zccp.Base.{◌≡◌, ◌≢◌, refl, sym, ap, subst, ◌∙◌, List, [], ◌∷◌, Option, none, some}
use zccp.Czmq.{Frame, Czmq}
use zccp.Codec.{
  Kind, hello, hello_ok, subscribe, subscribe_ok, publish, direct, deliver, goodbye, goodbye_ok,
  ping, ping_ok, invalid, kind_of, kind_of-code, code, ZccpMsg,
}
use zccp.Codec.Encode.{content_frames, message_field}
use zccp.Codec.Encode.Size.{octets}
use zccp.Codec.Decode.{zccp_msg_decode}
use zccp.Codec.Decode.Content.{decode-CarriesAny, decode-number}

-- The content, if there is any, is one of these.
abbrev pub Only : (List Frame → Type 0) → Option (List Frame) → Type 0
Only Q o = (fs : List Frame) → o ≡ some fs → Q fs

module _ (C : Czmq) where
  open C use {Hash}

  other_kind : (k j : Kind) (m : ZccpMsg Hash) → m.id ≡ code k → kind_of m.id ≡ some j → k ≡ j
  other_kind k j m n e = same (sym (kind_of-code k) ∙ ap kind_of (sym n) ∙ e)
    where
      same : some k ≡ some j → k ≡ j
      same e = cc

  field-Only :
      (Q : List Frame → Type 0) (x : ZccpMsg Hash)
      → Q ([] ∷ [])
      → Only Q x.content
      → Q (message_field C x)
  unfolding message_field
  field-Only Q x empty only = go x.content only
    where
      go : (o : Option (List Frame)) → Only Q o → Q (message_field C (record x { content = o }))
      go none h = empty
      go (some fs) h = h fs refl

  module _ (Q : List Frame → Type 0) where
    -- The content of a PUBLISH or a DELIVER.
    abbrev pub HasBody : ZccpMsg Hash → Type 0
    HasBody m =
        (kind_of m.id ≡ some publish → Only Q m.content)
        × (kind_of m.id ≡ some deliver → Only Q m.content)

    -- What comes of these frames has such a body, if anything comes of them.
    pub record IsFull (frames : List Frame) : Type 0 where
      pub full : (m : ZccpMsg Hash) → zccp_msg_decode C (some frames) ≡ some m → HasBody m

    carried_Only :
        (m : ZccpMsg Hash) (msg : List Frame) → m.content ≡ some msg → Q msg → Only Q m.content
    carried_Only m msg e h fs k = subst Q (same (sym e ∙ k)) h
      where
        same : {fs : List Frame} → some msg ≡ some fs → msg ≡ fs
        same e = cc

    pub tail-IsFull : (frame : Frame) (msg : List Frame) → Q msg → IsFull (frame ∷ msg)
    tail-IsFull frame msg h = record {
      full = λ m e.
          let carried = decode-CarriesAny C frame msg m e in
          (
            λ k. carried_Only m msg (carried publish k) h,
            λ k. carried_Only m msg (carried deliver k) h,
          );
    }

    kind-IsFull :
        (k : Kind) (x : ZccpMsg Hash) (msg : List Frame)
        → k ≢ publish
        → k ≢ deliver
        → IsFull (octets C k x ∷ msg)
    kind-IsFull k x msg np nd = record {
      full = λ m e.
          let n = decode-number C k x msg m e in
          (
            λ h. absurd (np (other_kind k publish m n h)),
            λ h. absurd (nd (other_kind k deliver m n h)),
          );
    }

    -- What the encoder makes of a message.
    pub encoded-IsFull :
        (k : Kind) (x : ZccpMsg Hash)
        → Q ([] ∷ [])
        → Only Q x.content
        → IsFull (octets C k x ∷ content_frames C k x)
    unfolding content_frames
    encoded-IsFull publish x empty only =
        tail-IsFull (octets C publish x) (message_field C x) (field-Only Q x empty only)
    encoded-IsFull deliver x empty only =
        tail-IsFull (octets C deliver x) (message_field C x) (field-Only Q x empty only)
    encoded-IsFull hello x empty only = kind-IsFull hello x [] (λ e. cc) (λ e. cc)
    encoded-IsFull hello_ok x empty only = kind-IsFull hello_ok x [] (λ e. cc) (λ e. cc)
    encoded-IsFull subscribe x empty only = kind-IsFull subscribe x [] (λ e. cc) (λ e. cc)
    encoded-IsFull subscribe_ok x empty only = kind-IsFull subscribe_ok x [] (λ e. cc) (λ e. cc)
    encoded-IsFull direct x empty only =
        kind-IsFull direct x (message_field C x) (λ e. cc) (λ e. cc)
    encoded-IsFull goodbye x empty only = kind-IsFull goodbye x [] (λ e. cc) (λ e. cc)
    encoded-IsFull goodbye_ok x empty only = kind-IsFull goodbye_ok x [] (λ e. cc) (λ e. cc)
    encoded-IsFull ping x empty only = kind-IsFull ping x [] (λ e. cc) (λ e. cc)
    encoded-IsFull ping_ok x empty only = kind-IsFull ping_ok x [] (λ e. cc) (λ e. cc)
    encoded-IsFull invalid x empty only = kind-IsFull invalid x [] (λ e. cc) (λ e. cc)
