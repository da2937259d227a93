-- ===== src/Server/Subscribers.antt =====
-- Who is subscribed to what: the list of patterns as a relation between expressions and clients,
-- and the operations on patterns as operations on that relation.
use zccp.Base.{
  ◌≡◌, refl, ap, ◌∙◌, inl, inr, Bool, true, false, List, [], ◌∷◌, ◌++◌, ◌==◌, ◌||◌, ◌&&◌, not,
  streq, streq→eq, All, arith, Bool-cases,
}
use zccp.Czmq.{Str}
use zccp.Server.{Pattern, Ptr}
use zccp.Server.Patterns.{contains, remove, s_pattern_new, add_client, store, drop_client}
use zccp.Server.Invariant.{Distinct}

-- Is the client subscribed under the expression?
unfoldable pub is_subscribed : Str → Ptr → List Pattern → Bool
is_subscribed expression p [] = false
is_subscribed expression p (x ∷ xs) =
    (streq x.expression expression && contains p x.clients) || is_subscribed expression p xs

contains-append :
    (p q : Ptr) (qs : List Ptr) → contains p (qs ++ q ∷ []) ≡ ((q == p) || contains p qs)
unfolding contains
contains-append p q [] = refl
contains-append p q (r ∷ qs) = ground (arith, contains-append p q qs)

contains_same : (p q : Ptr) (qs : List Ptr) → (q == p) ≡ true → contains p qs ≡ contains q qs
contains_same p q qs e = ap (λ r. contains r qs) (ground arith)

contains-add_client :
    (p q : Ptr) (x : Pattern)
    → contains p (add_client q x).clients ≡ ((q == p) || contains p x.clients)
unfolding add_client
contains-add_client p q x = elim (Bool-cases (contains q x.clients)) [
  | inl h ↦ rw h (elim (Bool-cases (q == p)) [
    | inl same ↦ rw same (contains_same p q x.clients same ∙ h)
    | inr other ↦ rw other
  ])
  | inr h ↦ rw h (contains-append p q x.clients)
]

expression-add_client : (q : Ptr) (x : Pattern) → (add_client q x).expression ≡ x.expression
unfolding add_client
expression-add_client q x = elim (Bool-cases (contains q x.clients)) [ inl h ↦ rw h | inr h ↦ rw h ]

or_swap : (a b c d : Bool) → ((a && (b || c)) || d) ≡ ((a && b) || ((a && c) || d))
or_swap true true c d = refl
or_swap true false c d = refl
or_swap false b c d = refl

or_unit : (a b : Bool) → ((a && (b || false)) || false) ≡ ((a && b) || false)
or_unit true true = refl
or_unit true false = refl
or_unit false b = refl

or_move : (a b c : Bool) → (a || (b || c)) ≡ (b || (a || c))
or_move true true c = refl
or_move true false c = refl
or_move false b c = refl

-- After store_new_subscription the client is subscribed under the expression, and otherwise the
-- same clients are subscribed under the same expressions as before.
pub is_subscribed-store :
    (expression new : Str) (p self : Ptr) (xs : List Pattern)
    → is_subscribed expression p (store self new xs)
      ≡ ((streq new expression && (self == p)) || is_subscribed expression p xs)
unfolding is_subscribed store s_pattern_new contains
is_subscribed-store expression new p self [] = or_unit (streq new expression) (self == p)
is_subscribed-store expression new p self (x ∷ xs) = elim (Bool-cases (streq x.expression new)) [
  | inl e ↦
      rw (e, expression-add_client self x, contains-add_client p self x)
        (or_swap (streq x.expression expression) (self == p) (contains p x.clients)
            (is_subscribed expression p xs)
          ∙ ap
              (λ t.
                (streq t expression && (self == p))
                || ((streq x.expression expression && contains p x.clients)
                    || is_subscribed expression p xs))
              (streq→eq x.expression new e))
  | inr e ↦
      rw (e, is_subscribed-store expression new p self xs)
        (or_move (streq x.expression expression && contains p x.clients)
          (streq new expression && (self == p)) (is_subscribed expression p xs))
]

contains-remove :
    (p q : Ptr) (qs : List Ptr)
    → Distinct qs
    → contains p (remove q qs) ≡ (not (q == p) && contains p qs)
unfolding contains remove
contains-remove p q [] d = ground arith
contains-remove p q (r ∷ qs) (n, d) = elim (Bool-cases (r == q)) [
  | inl e ↦ rw e (removed e)
  | inr e ↦ rw (e, contains-remove p q qs d) (kept e)
]
  where
    removed : (r == q) ≡ true → contains p qs ≡ (not (q == p) && ((r == p) || contains p qs))
    removed e = elim (Bool-cases (q == p)) [
      | inl f ↦ rw f (contains_same p r qs (ground arith) ∙ n)
      | inr f ↦ let g : (r == p) ≡ false = ground arith in rw (f, g)
    ]

    kept :
        (r == q) ≡ false
        → ((r == p) || (not (q == p) && contains p qs))
          ≡ (not (q == p) && ((r == p) || contains p qs))
    kept e = elim (Bool-cases (q == p)) [
      | inl f ↦ let g : (r == p) ≡ false = ground arith in rw (f, g)
      | inr f ↦ rw f
    ]

and_or : (a b c d : Bool) → ((a && (b && c)) || (b && d)) ≡ (b && ((a && c) || d))
and_or true true c d = refl
and_or true false c d = refl
and_or false b c d = refl

-- After client_terminate the client is not subscribed any more, and the others are as before,
-- where no pattern lists a client twice.
pub is_subscribed-drop_client :
    (expression : Str) (p self : Ptr) (xs : List Pattern)
    → All (λ x. Distinct x.clients) xs
    → is_subscribed expression p (drop_client self xs)
      ≡ (not (self == p) && is_subscribed expression p xs)
unfolding is_subscribed drop_client
is_subscribed-drop_client expression p self [] d = ground arith
is_subscribed-drop_client expression p self (x ∷ xs) (d, ds) =
    rw (contains-remove p self x.clients d, is_subscribed-drop_client expression p self xs ds)
      (and_or (streq x.expression expression) (not (self == p)) (contains p x.clients)
        (is_subscribed expression p xs))
