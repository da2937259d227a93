-- ===== src/Server/Loops.antt =====
-- The loops of forward_to_subscribers on a broker in its invariant.
use zccp.Base.{
  ℕ, suc, ◌≡◌, refl, sym, ap, subst, ◌∙◌, inl, inr, List, [], ◌∷◌, ◌++◌, append-nil, some, ◌==◌,
  All, Bool-cases,
}
use zccp.Czmq.{Str, Frame, Czmq}
use zccp.Server.{forward_event, Pattern, Ptr, Client, Server, ok, ◌>>=◌, update}
use zccp.Server.Actions.{write, forward_clients, forward_pattern, forward_patterns}
use zccp.Server.Engine.{s_client_execute}
use zccp.Server.Invariant.{
  Safe, IsSafe, Memory, Subscribed, IsPattern, write-Safe, Subscribed-write, All-mono,
  patterns_mono,
}
use zccp.Server.Forward.{IsDelivery, served, served-IsIdle, execute-forward}
use mathlib.Core.Option
use zccp.Server.Publish.{
  others, recipients, routing_id?, serve, serve_all, routing_of, deliveries, forwarded,
  forwarded-append,
}

module _ (C : Czmq) where
  open C use {Hash, zrex_matches}

  -- What the loops need of the clients on a list.
  abbrev AreSubscribed : Memory C → List Ptr → Type 0
  AreSubscribed m qs = All (Subscribed C m) qs

  serve-some :
      (m : Memory C) (q : Ptr) (c : Client Hash)
      → m q ≡ some c
      → update m q (some (served C c)) ≡ serve C q m
  unfolding serve
  serve-some m q c e = ap (λ x. update m q (Option.map (served C) x)) (sym e)

  Subscribed-serve :
      (m : Memory C) (q r : Ptr)
      → Subscribed C m q
      → Subscribed C m r
      → Subscribed C (serve C q m) r
  Subscribed-serve m q r (c, e, st) h =
      subst (λ n. Subscribed C n r) (serve-some m q c e)
        (Subscribed-write C m q c (served C c) e (λ x. x) r h)

  serve-Safe :
      (s : Server Hash) (q : Ptr)
      → IsSafe C s
      → Subscribed C s.memory q
      → Safe C s.headers s.timers s.next_timer s.patterns s.clients (serve C q s.memory) s.next_ptr
  unfolding write
  serve-Safe s q safe (c, e, st) =
      subst (λ n. Safe C s.headers s.timers s.next_timer s.patterns s.clients n s.next_ptr)
        (serve-some s.memory q c e)
        (write-Safe C q c (served C c) s safe e (served-IsIdle C c (safe.idle q c e)) refl refl
          (λ x. x))

  -- Serving subscribers keeps the state safe, and keeps every subscriber.
  pub serve_all-Safe :
      (qs : List Ptr) (s : Server Hash)
      → IsSafe C s
      → AreSubscribed s.memory qs
      → Safe C s.headers s.timers s.next_timer s.patterns s.clients
          (serve_all C qs s.memory)
          s.next_ptr
  unfolding serve_all
  serve_all-Safe [] s safe h = safe
  serve_all-Safe (q ∷ qs) s safe (h, hs) =
      serve_all-Safe qs (record s { memory = serve C q s.memory }) (serve-Safe s q safe h)
        (All-mono C (λ r. Subscribed-serve s.memory q r h) qs hs)

  Subscribed-serve_all :
      (qs : List Ptr) (m : Memory C) (r : Ptr)
      → AreSubscribed m qs
      → Subscribed C m r
      → Subscribed C (serve_all C qs m) r
  unfolding serve_all
  Subscribed-serve_all [] m r h x = x
  Subscribed-serve_all (q ∷ qs) m r (h, hs) x =
      Subscribed-serve_all qs (serve C q m) r (All-mono C (λ y. Subscribed-serve m q y h) qs hs)
        (Subscribed-serve m q r h x)

  forward_one :
      (fuel : ℕ) (q : Ptr) (s : Server Hash) (frames : List Frame)
      → IsSafe C s
      → Subscribed C s.memory q
      → IsDelivery C s frames
      → s_client_execute C (suc (suc fuel)) q forward_event s ≡ ok (forwarded C frames (q ∷ []) s)
  unfolding serve_all serve deliveries routing_of routing_id? write
  forward_one fuel q s frames safe (c, m, st) d =
      execute-forward C fuel q c s frames m (safe.idle q c m) st d
      ∙ ap
          (λ x. ok (record s {
            memory = update s.memory q (Option.map (served C) x);
            sent = s.sent ++ (routing_id? C x ∷ frames) ∷ [];
          }))
          (sym m)

  forwarded-nil : (frames : List Frame) (s : Server Hash) → s ≡ forwarded C frames [] s
  unfolding serve_all deliveries
  forwarded-nil frames s = ap (λ x. record s { sent = x }) (sym (append-nil s.sent))

  forward_clients-forwarded :
      (fuel : ℕ) (self : Ptr) (qs : List Ptr) (s : Server Hash) (frames : List Frame)
      → IsSafe C s
      → AreSubscribed s.memory qs
      → IsDelivery C s frames
      → forward_clients C (λ q. s_client_execute C (suc (suc fuel)) q forward_event) self qs s
        ≡ ok (forwarded C frames (others self qs) s)
  unfolding forward_clients others
  forward_clients-forwarded fuel self [] s frames safe h d = ap ok (forwarded-nil frames s)
  forward_clients-forwarded fuel self (q ∷ qs) s frames safe (h, hs) d =
      elim (Bool-cases (q == self)) [
        | inl e ↦ rw e (forward_clients-forwarded fuel self qs s frames safe hs d)
        | inr e ↦
            rw (e, forward_one fuel q s frames safe h d, ◌>>=◌)
              (forward_clients-forwarded fuel self qs (forwarded C frames (q ∷ []) s) frames
                  (served_state (q ∷ []) (h, tt)) (AreSubscribed-serve qs hs) d
                ∙ ap ok (forwarded-append C frames (q ∷ []) (others self qs) s))
      ]
    where
      served_state :
          (rs : List Ptr)
          → AreSubscribed s.memory rs
          → Safe C s.headers s.timers s.next_timer s.patterns s.clients
              (serve_all C rs s.memory)
              s.next_ptr
      served_state rs hr = serve_all-Safe rs s safe hr

      AreSubscribed-serve :
          (rs : List Ptr)
          → AreSubscribed s.memory rs
          → AreSubscribed (serve_all C (q ∷ []) s.memory) rs
      AreSubscribed-serve rs hr =
          All-mono C (λ r. Subscribed-serve_all (q ∷ []) s.memory r (h, tt)) rs hr

  AreSubscribed-others :
      (m : Memory C) (self : Ptr) (qs : List Ptr)
      → AreSubscribed m qs
      → AreSubscribed m (others self qs)
  unfolding others
  AreSubscribed-others m self [] h = tt
  AreSubscribed-others m self (q ∷ qs) (h, hs) = elim (Bool-cases (q == self)) [
    | inl e ↦ rw e (AreSubscribed-others m self qs hs)
    | inr e ↦ rw e (h, AreSubscribed-others m self qs hs)
  ]

  patterns-serve_all :
      (qs : List Ptr) (m : Memory C) (xs : List Pattern)
      → AreSubscribed m qs
      → All (IsPattern C m) xs
      → All (IsPattern C (serve_all C qs m)) xs
  patterns-serve_all qs m xs hq hx =
      patterns_mono C m (serve_all C qs m) (λ r. Subscribed-serve_all qs m r hq) xs hx

  pub forward_patterns-forwarded :
      (fuel : ℕ) (self : Ptr) (a : Str) (xs : List Pattern) (s : Server Hash) (frames : List Frame)
      → IsSafe C s
      → All (IsPattern C s.memory) xs
      → IsDelivery C s frames
      → forward_patterns C
          (λ q. s_client_execute C (suc (suc fuel)) q forward_event)
          self
          (some a)
          xs
          s
        ≡ ok (forwarded C frames (recipients C self a xs) s)
  unfolding forward_patterns forward_pattern recipients
  forward_patterns-forwarded fuel self a [] s frames safe h d = ap ok (forwarded-nil frames s)
  forward_patterns-forwarded fuel self a (x ∷ xs) s frames safe ((hq, _), hs) d =
      elim (Bool-cases (zrex_matches x.expression a)) [
        | inr e ↦ rw e (forward_patterns-forwarded fuel self a xs s frames safe hs d)
        | inl e ↦
            rw (e, forward_clients-forwarded fuel self x.clients s frames safe hq d, ◌>>=◌)
              (forward_patterns-forwarded fuel self a xs
                  (forwarded C frames (others self x.clients) s) frames
                  (serve_all-Safe (others self x.clients) s safe subscribed)
                  (patterns-serve_all (others self x.clients) s.memory xs subscribed hs) d
                ∙ ap ok
                    (forwarded-append C frames (others self x.clients) (recipients C self a xs) s))
      ]
    where
      subscribed : AreSubscribed s.memory (others self x.clients)
      subscribed = AreSubscribed-others s.memory self x.clients hq

  append-Subscribed :
      (m : Memory C) (qs rs : List Ptr)
      → AreSubscribed m qs
      → AreSubscribed m rs
      → AreSubscribed m (qs ++ rs)
  append-Subscribed m [] rs h k = k
  append-Subscribed m (q ∷ qs) rs (h, hs) k = (h, append-Subscribed m qs rs hs k)

  pub recipients-Subscribed :
      (m : Memory C) (self : Ptr) (a : Str) (xs : List Pattern)
      → All (IsPattern C m) xs
      → AreSubscribed m (recipients C self a xs)
  unfolding recipients
  recipients-Subscribed m self a [] h = tt
  recipients-Subscribed m self a (x ∷ xs) ((hq, _), hs) =
      elim (Bool-cases (zrex_matches x.expression a)) [
        | inl e ↦ rw e (
            append-Subscribed m (others self x.clients) (recipients C self a xs)
              (AreSubscribed-others m self x.clients hq) (recipients-Subscribed m self a xs hs))
        | inr e ↦ rw e (recipients-Subscribed m self a xs hs)
      ]
