-- ===== src/Codec/Decode/Grammar/Readers.antt =====
-- The GET_* macros read just what the rules for numbers and strings describe.
use zccp.Base.{
  ℕ, ◌+◌, ◌*◌, ◌^◌, ◌≤◌, ◌≡◌, refl, sym, ap, subst, ◌∙◌, true, false, List, [], ◌∷◌, ◌++◌,
  append_assoc, Option, none, some, length, take, drop, length-append, leb, le→leb, take-drop,
  length-take, Bool-cases, inl, inr, arith,
}
use zccp.Czmq.{Str}
use zccp.Codec.Wire.Get.{
  take-append, drop-append_self, Reader, ◌>>=◌, got, c_string, get_number1, get_number2,
  get_number4, get_octets, get_string, get_longstr,
}
use zccp.Codec.Decode.Grammar.{Rule, Then, Yields, Number1, Number2, Number4, Text, String, Longstr}

pub same_read : {A : Type 0} (a b : A) (r s : List ℕ) → got a r ≡ got b s → (a ≡ b) × (r ≡ s)
same_read a b r s e = (cc, cc)

-- The reader takes off just what the rule describes.
pub record Exact {A : Type 0} (m : Reader A) (G : Rule A) : Type 0 where
  pub sound :
      (bs : List ℕ) (a : A) (rest : List ℕ)
      → m bs ≡ some (a, rest)
      → (xs : List ℕ) × (bs ≡ xs ++ rest) × G xs a
  pub complete : (xs rest : List ℕ) (a : A) → G xs a → m (xs ++ rest) ≡ some (a, rest)

pub got-Exact : {A : Type 0} (a : A) → Exact (got a) (Yields a)
got-Exact {A} a = record { sound = sound; complete = complete }
  where
    sound :
        (bs : List ℕ) (b : A) (rest : List ℕ)
        → got a bs ≡ got b rest
        → (xs : List ℕ) × (bs ≡ xs ++ rest) × Yields a xs b
    sound bs b rest e = let (same, left) = same_read a b bs rest e in ([], left, (refl, sym same))

    complete : (xs rest : List ℕ) (b : A) → Yields a xs b → got a (xs ++ rest) ≡ got b rest
    complete xs rest b (e, same) = rw (e, same) refl

pub bind-Exact :
    {A B : Type 0} (m : Reader A) (f : A → Reader B) (G : Rule A) (H : A → Rule B)
    → Exact m G
    → ((a : A) → Exact (f a) (H a))
    → Exact (m >>= f) (Then G H)
bind-Exact {A} {B} m f G H em ef = record { sound = sound; complete = complete }
  where
    found :
        (bs : List ℕ) (b : B) (rest : List ℕ) (o : Option (A × List ℕ))
        → m bs ≡ o
        → (elim o as (λ x. Option (B × List ℕ)) [ none ↦ none | some (a, more) ↦ f a more ])
          ≡ some (b, rest)
        → (xs : List ℕ) × (bs ≡ xs ++ rest) × Then G H xs b
    found bs b rest none h e = cc
    found bs b rest (some (a, more)) h e =
        let (xs, split, g) = em.sound bs a more h in
        let (ys, split', k) = (ef a).sound more b rest e in
        (
          xs ++ ys,
          split ∙ ap (λ l. xs ++ l) split' ∙ sym (append_assoc xs ys rest),
          (a, xs, ys, refl, g, k),
        )

    sound :
        (bs : List ℕ) (b : B) (rest : List ℕ)
        → (m >>= f) bs ≡ some (b, rest)
        → (xs : List ℕ) × (bs ≡ xs ++ rest) × Then G H xs b
    sound bs b rest e = found bs b rest (m bs) refl e

    complete : (xs rest : List ℕ) (b : B) → Then G H xs b → (m >>= f) (xs ++ rest) ≡ some (b, rest)
    complete xs rest b (a, ys, zs, split, g, k) =
        rw (split, append_assoc ys zs rest, ◌>>=◌, em.complete ys (zs ++ rest) a g)
          ((ef a).complete zs rest b k)

pub number1-Exact : Exact get_number1 Number1
unfolding get_number1
number1-Exact = record { sound = sound; complete = λ xs rest n e. rw e }
  where
    sound :
        (bs : List ℕ) (n : ℕ) (rest : List ℕ)
        → get_number1 bs ≡ some (n, rest)
        → (xs : List ℕ) × (bs ≡ xs ++ rest) × (xs ≡ n ∷ [])
    sound [] n rest e = cc
    sound (a ∷ bs) n rest e =
        let (same, left) = same_read a n bs rest e in (n ∷ [], rw (same, left) refl, refl)

pub number2-Exact : Exact get_number2 Number2
unfolding get_number2
number2-Exact = record { sound = sound; complete = λ xs rest n (a, b, e, v). rw (e, v) refl }
  where
    sound :
        (bs : List ℕ) (n : ℕ) (rest : List ℕ)
        → get_number2 bs ≡ some (n, rest)
        → (xs : List ℕ) × (bs ≡ xs ++ rest) × Number2 xs n
    sound [] n rest e = cc
    sound (a ∷ []) n rest e = cc
    sound (a ∷ b ∷ bs) n rest e =
        let (same, left) = same_read (a * 2 ^ 8 + b) n bs rest e in
        (a ∷ b ∷ [], rw left refl, (a, b, refl, sym same))

pub number4-Exact : Exact get_number4 Number4
unfolding get_number4
number4-Exact = record { sound = sound; complete = λ xs rest n (a, b, c, d, e, v). rw (e, v) refl }
  where
    sound :
        (bs : List ℕ) (n : ℕ) (rest : List ℕ)
        → get_number4 bs ≡ some (n, rest)
        → (xs : List ℕ) × (bs ≡ xs ++ rest) × Number4 xs n
    sound [] n rest e = cc
    sound (a ∷ []) n rest e = cc
    sound (a ∷ b ∷ []) n rest e = cc
    sound (a ∷ b ∷ c ∷ []) n rest e = cc
    sound (a ∷ b ∷ c ∷ d ∷ bs) n rest e =
        let (same, left) = same_read (a * 2 ^ 24 + b * 2 ^ 16 + c * 2 ^ 8 + d) n bs rest e in
        (a ∷ b ∷ c ∷ d ∷ [], rw left refl, (a, b, c, d, refl, sym same))

leb-cases : (m n : ℕ) → (leb m n ≡ true → m ≤ n)
leb-cases m n h = ground arith

octets-fits :
    (n : ℕ) (bs : List ℕ)
    → leb n (length bs) ≡ true
    → get_octets n bs ≡ got (c_string (take n bs)) (drop n bs)
unfolding get_octets
octets-fits n bs h = rw h refl

octets-short : (n : ℕ) (bs : List ℕ) → leb n (length bs) ≡ false → get_octets n bs ≡ none
unfolding get_octets
octets-short n bs h = rw h refl

octets-Exact : (n : ℕ) → Exact (get_octets n) (Text n)
unfolding get_octets
octets-Exact n = record { sound = sound; complete = complete }
  where
    sound :
        (bs : List ℕ) (s : Str) (rest : List ℕ)
        → get_octets n bs ≡ some (s, rest)
        → (xs : List ℕ) × (bs ≡ xs ++ rest) × Text n xs s
    sound bs s rest e = elim (Bool-cases (leb n (length bs))) [
      | inl fits ↦
          let (same, left) =
            same_read (c_string (take n bs)) s (drop n bs) rest (sym (octets-fits n bs fits) ∙ e) in
          (
            take n bs,
            sym (take-drop n bs) ∙ ap (λ l. take n bs ++ l) left,
            (length-take n bs (leb-cases n (length bs) fits), sym same),
          )
      | inr short ↦ cc (octets-short n bs short, e)
    ]

    complete :
        (xs rest : List ℕ) (s : Str) → Text n xs s → get_octets n (xs ++ rest) ≡ some (s, rest)
    complete xs rest s (l, v) =
        subst (λ k. get_octets k (xs ++ rest) ≡ some (s, rest)) l
          (octets-fits (length xs) (xs ++ rest)
              (le→leb (length xs) (length (xs ++ rest)) (omega (arith, length-append xs rest)))
            ∙ rw (take-append xs rest, drop-append_self xs rest, v) refl)

pub string-Exact : Exact get_string String
unfolding get_string
string-Exact = bind-Exact get_number1 get_octets Number1 Text number1-Exact octets-Exact

pub longstr-Exact : Exact get_longstr Longstr
unfolding get_longstr
longstr-Exact = bind-Exact get_number4 get_octets Number4 Text number4-Exact octets-Exact
