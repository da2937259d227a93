-- ===== src/Server/Subscriptions.antt =====
-- Well-formedness of the subscriptions under store and drop_client of Patterns.antt.
use zccp.Base.{
  ◌≡◌, ◌≢◌, refl, ap, ◌∙◌, inl, inr, false, none, List, [], ◌∷◌, ◌++◌, ◌==◌, streq, All, arith,
  Bool-cases,
}
use zccp.Czmq.{Str, Czmq}
use zccp.Server.{Pattern, Ptr, update}
use zccp.Server.Patterns.{contains, remove, s_pattern_new, add_client, store, drop_client}
use zccp.Server.Invariant.{Distinct, Without, Memory, Subscribed, IsPattern}

contains-cons :
    (p q : Ptr) (qs : List Ptr)
    → contains p (q ∷ qs) ≡ false
    → ((q == p) ≡ false) × (contains p qs ≡ false)
unfolding contains
contains-cons p q qs h = ground arith

contains→Without : (p : Ptr) (qs : List Ptr) → contains p qs ≡ false → Without p qs
contains→Without p [] h = tt
contains→Without p (q ∷ qs) h =
    let (e, hs) = contains-cons p q qs h in ((λ same. ground arith), contains→Without p qs hs)

remove-All {ℓ} : (P : Ptr → Type ℓ) (p : Ptr) (qs : List Ptr) → All P qs → All P (remove p qs)
unfolding remove
remove-All P p [] h = tt
remove-All P p (q ∷ qs) (h, hs) = elim (Bool-cases (q == p)) [
  | inl e ↦ rw e hs
  | inr e ↦ rw e (h, remove-All P p qs hs)
]

contains-remove :
    (p r : Ptr) (qs : List Ptr) → contains r qs ≡ false → contains r (remove p qs) ≡ false
unfolding remove contains
contains-remove p r [] h = refl
contains-remove p r (q ∷ qs) h =
    let (e, hs) = contains-cons r q qs h in
    elim (Bool-cases (q == p)) [
      | inl same ↦ rw same hs
      | inr other ↦ rw (other, e, contains-remove p r qs hs)
    ]

remove-Distinct : (p : Ptr) (qs : List Ptr) → Distinct qs → Distinct (remove p qs)
unfolding remove
remove-Distinct p [] d = tt
remove-Distinct p (q ∷ qs) (n, d) = elim (Bool-cases (q == p)) [
  | inl e ↦ rw e d
  | inr e ↦ rw e (contains-remove p q qs n, remove-Distinct p qs d)
]

-- Where no pointer stands twice, removing the first one removes it.
remove-Without : (p : Ptr) (qs : List Ptr) → Distinct qs → Without p (remove p qs)
unfolding remove
remove-Without p [] d = tt
remove-Without p (q ∷ qs) (n, d) = elim (Bool-cases (q == p)) [
  | inl e ↦ rw e (contains→Without p qs (ap (λ r. contains r qs) (ground arith) ∙ n))
  | inr e ↦ rw e ((λ same. ground arith), remove-Without p qs d)
]

contains-append :
    (r p : Ptr) (qs : List Ptr)
    → contains r qs ≡ false
    → (p == r) ≡ false
    → contains r (qs ++ p ∷ []) ≡ false
unfolding contains
contains-append r p [] h e = rw e
contains-append r p (q ∷ qs) h e =
    let (f, hs) = contains-cons r q qs h in rw (f, contains-append r p qs hs e)

append-Distinct :
    (p : Ptr) (qs : List Ptr) → contains p qs ≡ false → Distinct qs → Distinct (qs ++ p ∷ [])
unfolding contains
append-Distinct p [] h d = (refl, tt)
append-Distinct p (q ∷ qs) h (n, d) =
    let (f, hs) = contains-cons p q qs h in
    (contains-append q p qs n (ground arith), append-Distinct p qs hs d)

append-All {ℓ} :
    (P : Ptr → Type ℓ) (p : Ptr) (qs : List Ptr) → All P qs → P p → All P (qs ++ p ∷ [])
append-All P p [] h x = (x, tt)
append-All P p (q ∷ qs) (h, hs) x = (h, append-All P p qs hs x)

module _ (C : Czmq) where
  open C use {Hash}

  add_client-IsPattern :
      (m : Memory C) (p : Ptr) (x : Pattern)
      → Subscribed C m p
      → IsPattern C m x
      → IsPattern C m (add_client p x)
  unfolding add_client
  add_client-IsPattern m p x h (a, d) = elim (Bool-cases (contains p x.clients)) [
    | inl e ↦ rw e (a, d)
    | inr e ↦ rw e (append-All (Subscribed C m) p x.clients a h, append-Distinct p x.clients e d)
  ]

  -- A subscription of a connected client keeps the patterns well formed.
  pub store-IsPattern :
      (m : Memory C) (p : Ptr) (expression : Str) (xs : List Pattern)
      → Subscribed C m p
      → All (IsPattern C m) xs
      → All (IsPattern C m) (store p expression xs)
  unfolding store s_pattern_new contains
  store-IsPattern m p expression [] h a = (((h, tt), (refl, tt)), tt)
  store-IsPattern m p expression (x ∷ xs) h (a, rest) =
      elim (Bool-cases (streq x.expression expression)) [
        | inl e ↦ rw e (add_client-IsPattern m p x h a, rest)
        | inr e ↦ rw e (a, store-IsPattern m p expression xs h rest)
      ]

  Subscribed-free :
      (m : Memory C) (p q : Ptr) → q ≢ p → Subscribed C m q → Subscribed C (update m p none) q
  Subscribed-free m p q ne (c, e, st) = (c, ground arith, st)

  free-All :
      (m : Memory C) (p : Ptr) (qs : List Ptr)
      → Without p qs
      → All (Subscribed C m) qs
      → All (Subscribed C (update m p none)) qs
  free-All m p [] w h = tt
  free-All m p (q ∷ qs) (w, ws) (h, hs) = (Subscribed-free m p q w h, free-All m p qs ws hs)

  -- Once a client's subscriptions are dropped, its object can go: no pattern leads to it.
  pub drop_client-IsPattern :
      (m : Memory C) (p : Ptr) (xs : List Pattern)
      → All (IsPattern C m) xs
      → All (IsPattern C (update m p none)) (drop_client p xs)
  unfolding drop_client
  drop_client-IsPattern m p [] h = tt
  drop_client-IsPattern m p (x ∷ xs) ((a, d), hs) = (
    (
      free-All m p (remove p x.clients) (remove-Without p x.clients d)
          (remove-All (Subscribed C m) p x.clients a),
      remove-Distinct p x.clients d,
    ),
    drop_client-IsPattern m p xs hs,
  )
