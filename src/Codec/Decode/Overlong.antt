-- ===== src/Codec/Decode/Overlong.antt =====
-- What zccp_msg_decode makes of a SUBSCRIBE whose expression is so long that its length octet is 0.
use zccp.Base.{
  ℕ, zero, suc, ◌+◌, ◌*◌, ◌^◌, ◌%◌, ◌<◌, ◌≤◌, ◌≢◌, ◌≡◌, refl, List, [], ◌∷◌, ◌++◌, Option, none,
  some, length, length-append, length-drop, Option-cases, inl, inr, arith,
}
use zccp.Czmq.{Str, Czmq}
use zccp.Codec.{subscribe, code, kind_of, ZccpMsg}
use zccp.Codec.Wire.Get.{
  Reader, ◌>>=◌, IsText, get_number1, get_number2, get_number4, get_octets, get_string, get_longstr,
}
use zccp.Codec.Encode.Size.{dictionary, items, pairs, octets, fields}
use zccp.Codec.Decode.{get_items, get_headers, get_fields, get_command, get_frame, zccp_msg_decode}

get_octets-le :
    (n : ℕ) (bs : List ℕ) (s : Str) (rest : List ℕ)
    → get_octets n bs ≡ some (s, rest)
    → length rest ≤ length bs
unfolding get_octets
get_octets-le n bs s rest e = ground (arith, length-drop n bs)

get_string-le :
    (bs : List ℕ) (s : Str) (rest : List ℕ)
    → get_string bs ≡ some (s, rest)
    → 1 + length rest ≤ length bs
unfolding get_string get_number1
get_string-le [] s rest e = cc
get_string-le (n ∷ bs) s rest e = omega (arith, get_octets-le n bs s rest e)

get_string-zero : (bs : List ℕ) → get_string (0 ∷ bs) ≡ some ([], bs)
unfolding get_string get_number1 get_octets
get_string-zero bs = ground arith

get_longstr-le :
    (bs : List ℕ) (s : Str) (rest : List ℕ)
    → get_longstr bs ≡ some (s, rest)
    → 4 + length rest ≤ length bs
unfolding get_longstr get_number4
get_longstr-le [] s rest e = cc
get_longstr-le (a ∷ []) s rest e = cc
get_longstr-le (a ∷ b ∷ []) s rest e = cc
get_longstr-le (a ∷ b ∷ c ∷ []) s rest e = cc
get_longstr-le (a ∷ b ∷ c ∷ d ∷ bs) s rest e =
    omega (arith, get_octets-le (a * 2 ^ 24 + b * 2 ^ 16 + c * 2 ^ 8 + d) bs s rest e)

-- What a successful chain of two readers read.
bind-some :
    {A B : Type 0} (m : Reader A) (f : A → Reader B) (bs : List ℕ) (r : B × List ℕ)
    → (m >>= f) bs ≡ some r
    → (a : A) × (rest : List ℕ) × (m bs ≡ some (a, rest)) × (f a rest ≡ some r)
bind-some {A} {B} m f bs r e = go (m bs) refl e
  where
    go :
        (o : Option (A × List ℕ))
        → m bs ≡ o
        → (elim o as (λ x. Option (B × List ℕ)) [ none ↦ none | some (a, rest) ↦ f a rest ])
          ≡ some r
        → (a : A) × (rest : List ℕ) × (m bs ≡ some (a, rest)) × (f a rest ≡ some r)
    go none h k = cc
    go (some (a, rest)) h k = (a, rest, h, k)

module _ (C : Czmq) where
  open C use {Hash, zhash_new, zhash_insert}

  -- Each item takes five octets at least.
  get_items-le :
      (n : ℕ) (t : Hash) (bs : List ℕ) (r : Hash × List ℕ)
      → get_items C n t bs ≡ some r
      → 5 * n ≤ length bs
  unfolding get_items
  get_items-le zero t bs r e = omega arith
  get_items-le (suc n) t bs r e =
      let (key, bs1, e1, k1) = bind-some get_string _ bs r e in
      let (value, bs2, e2, k2) = bind-some get_longstr _ bs1 r k1 in
      omega (
        arith,
        get_string-le bs key bs1 e1,
        get_longstr-le bs1 value bs2 e2,
        get_items-le n (zhash_insert t key value) bs2 r k2,
      )

  -- Four characters are read as the number of headers, which is too large for what follows.
  get_headers-none :
      (a b c d : ℕ) (bs : List ℕ)
      → a ≢ 0
      → length bs < 5 * 2 ^ 24
      → get_headers C (a ∷ b ∷ c ∷ d ∷ bs) ≡ none
  unfolding get_headers get_number4
  get_headers-none a b c d bs h k = elim (Option-cases (get_headers C (a ∷ b ∷ c ∷ d ∷ bs))) [
    | inl bad ↦ bad
    | inr (r, good) ↦ absurd (
        omega (
          arith,
          get_items-le (a * 2 ^ 24 + b * 2 ^ 16 + c * 2 ^ 8 + d) zhash_new bs r good,
          positive a h,
        ))
  ]
    where
      positive : (a : ℕ) → a ≢ 0 → 1 ≤ a
      positive a h = omega (arith, h)

  -- The frame, from its octets.
  frame-none :
      (n a b c d : ℕ) (bs : List ℕ)
      → n ≡ 0
      → a ≢ 0
      → length bs < 5 * 2 ^ 24
      → zccp_msg_decode C (some ((0xAA ∷ 0xAA ∷ 3 ∷ n ∷ a ∷ b ∷ c ∷ d ∷ bs) ∷ [])) ≡ none
  unfolding zccp_msg_decode get_frame get_command get_fields get_number1 get_number2 kind_of
  frame-none n a b c d bs e h k =
      rw
        (
          e,
          zccp_msg_decode,
          ◌>>=◌,
          get_string-zero (a ∷ b ∷ c ∷ d ∷ bs),
          get_headers-none a b c d bs h k,
        )
        refl

  pub overlong-none :
      (m : ZccpMsg Hash) (x : Str)
      → m.expression ≡ some x
      → m.headers ≡ none
      → IsText x
      → length x % 256 ≡ 0
      → 256 ≤ length x
      → length x < 2 ^ 26
      → zccp_msg_decode C (some (octets C subscribe m ∷ [])) ≡ none
  unfolding octets fields code items dictionary pairs
  overlong-none m [] e f h r k l = absurd (omega arith)
  overlong-none m (a ∷ []) e f h r k l = absurd (omega arith)
  overlong-none m (a ∷ b ∷ []) e f h r k l = absurd (omega arith)
  overlong-none m (a ∷ b ∷ c ∷ []) e f h r k l = absurd (omega arith)
  overlong-none m (a ∷ b ∷ c ∷ d ∷ xs) e f h r k l =
      rw (e, f)
        (frame-none (length (a ∷ b ∷ c ∷ d ∷ xs) % 256) a b c d (xs ++ dictionary C none) r h.0
          (omega (arith, length-append xs (dictionary C none))))
