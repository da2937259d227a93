-- ===== src/Server/Leave.antt =====
-- The end of a client: s_client_destroy, called through zhash_delete.
use zccp.Base.{
  All, List, [], ◌∷◌, ◌==◌, ℕ, ◌≡◌, ◌≢◌, sym, ap, ◌∙◌, inl, inr, Option, none, some, streq,
  streq→eq, streq_iff, if◌then◌else◌, arith, Bool-cases,
}
use zccp.Czmq.{Str, Czmq}
use zccp.Server.{Timer, Ptr, Client, Server, ok, ◌>>=◌, update, update_key}
use zccp.Server.Actions.{end_timer, write, end_timer_if_set, s_client_destroy, delete_client}
use zccp.Server.Patterns.{drop_client}
use zccp.Server.Invariant.{IsTimer, Memory, All-mono, IsSafe, update-cases}
use zccp.Server.Subscriptions.{drop_client-IsPattern}
use zccp.Server.Memory.{read-write, update_twice, update_other}

update-none :
    {A : Type 0} (m : ℕ → Option A) (p q : ℕ) (a : A)
    → update m p none q ≡ some a
    → (p ≢ q) × (m q ≡ some a)
update-none m p q a e = elim (update-cases m p q none (some a) e) [
  | inl (_, h) ↦ absurd (ground arith)
  | inr h ↦ h
]

update_key-none :
    (m : Str → Option Ptr) (k j : Str) (q : Ptr)
    → update_key m k none j ≡ some q
    → (k ≢ j) × (m j ≡ some q)
update_key-none m k j q e = elim (Bool-cases (streq k j)) [
  | inl same ↦ cc
  | inr other ↦
      ((λ h. ground (arith, streq_iff k j)), sym (ap (λ b. if b then none else m j) other) ∙ e)
]

pub update_key-other :
    (m : Str → Option Ptr) (k j : Str) (a : Option Ptr) → k ≢ j → update_key m k a j ≡ m j
update_key-other m k j a ne = elim (Bool-cases (streq k j)) [
  | inl same ↦ absurd (ne (streq→eq k j same))
  | inr other ↦ rw other
]

same_ptr : (p q : Ptr) → some p ≡ some q → p ≡ q
same_ptr p q e = cc

end_timer-All {ℓ} :
    (P : Timer → Type ℓ) (id : ℕ) (ts : List Timer) → All P ts → All P (end_timer id ts)
unfolding end_timer
end_timer-All P id [] h = tt
end_timer-All P id (t ∷ ts) (h, hs) = elim (Bool-cases (t.timer_id == id)) [
  | inl e ↦ rw e (end_timer-All P id ts hs)
  | inr e ↦ rw e (h, end_timer-All P id ts hs)
]

end_timer_if_set-All {ℓ} :
    (P : Timer → Type ℓ) (id : ℕ) (ts : List Timer) → All P ts → All P (end_timer_if_set id ts)
unfolding end_timer_if_set
end_timer_if_set-All P id ts h = elim (Bool-cases (id == 0)) [
  | inl e ↦ rw e h
  | inr e ↦ rw e (end_timer-All P id ts h)
]

module _ (C : Czmq) where
  open C use {Hash}

  -- The broker without a client.
  abbrev pub without : Ptr → Client Hash → Server Hash → Server Hash
  without p c s = record s {
    timers = end_timer_if_set c.expiry_timer (end_timer_if_set c.wakeup_timer s.timers);
    patterns = drop_client p s.patterns;
    memory = update s.memory p none;
    clients = update_key s.clients c.hashkey none;
  }

  -- Deleting a client that is in the table under its key.
  pub delete_client-write :
      (p : Ptr) (c : Client Hash) (s : Server Hash)
      → s.clients c.hashkey ≡ some p
      → delete_client C c.hashkey (write C p c s) ≡ ok (without p c s)
  unfolding delete_client s_client_destroy write
  delete_client-write p c s e =
      rw
        (
          delete_client,
          e,
          s_client_destroy,
          read-write C p c (record s { clients = update_key s.clients c.hashkey none }),
          ◌>>=◌,
        )
        (ap (λ m. ok (record (without p c s) { memory = m }))
          (update_twice s.memory p (some c) none))

  -- The timer of another client.
  abbrev pub IsOther : Memory C → Ptr → Timer → Type 0
  IsOther m p t = IsTimer C m t × (t.client ≢ p)

  free-IsTimer :
      (m : Memory C) (p : Ptr) (t : Timer) → IsOther m p t → IsTimer C (update m p none) t
  free-IsTimer m p t ((x, hx, hid, ne), other) =
      (x, update_other m p t.client none (λ e. other (sym e)) ∙ hx, hid, ne)

  end_timer-others :
      (m : Memory C) (p : Ptr) (c : Client Hash)
      → m p ≡ some c
      → (ts : List Timer) → All (IsTimer C m) ts
      → All (IsOther m p) (end_timer c.expiry_timer ts)
  unfolding end_timer
  end_timer-others m p c e [] h = tt
  end_timer-others m p c e (t ∷ ts) ((x, hx, hid, ne), hs) =
      elim (Bool-cases (t.timer_id == c.expiry_timer)) [
        | inl same ↦ rw same (end_timer-others m p c e ts hs)
        | inr other ↦ rw other (
          ((x, hx, hid, ne), λ there. ground (arith, hx, e, there, hid)),
          end_timer-others m p c e ts hs,
        )
      ]

  unset-others :
      (m : Memory C) (p : Ptr) (c : Client Hash)
      → m p ≡ some c
      → c.expiry_timer ≡ 0
      → (ts : List Timer) → All (IsTimer C m) ts
      → All (IsOther m p) ts
  unset-others m p c e z [] h = tt
  unset-others m p c e z (t ∷ ts) ((x, hx, hid, ne), hs) =
      (((x, hx, hid, ne), λ there. ground (arith, hx, e, there, hid)), unset-others m p c e z ts hs)

  -- Once a client's expiry timer is ended, every timer is another client's.
  pub others_timed :
      (m : Memory C) (p : Ptr) (c : Client Hash)
      → m p ≡ some c
      → (ts : List Timer) → All (IsTimer C m) ts
      → All (IsOther m p) (end_timer_if_set c.expiry_timer ts)
  unfolding end_timer_if_set
  others_timed m p c e ts h = elim (Bool-cases (c.expiry_timer == 0)) [
    | inl z ↦ rw z (unset-others m p c e (ground arith) ts h)
    | inr n ↦ rw n (end_timer-others m p c e ts h)
  ]

  -- Nothing leads to a client that was deleted.
  pub without-Safe :
      (p : Ptr) (c : Client Hash) (w : ℕ) (s : Server Hash)
      → IsSafe C s
      → s.memory p ≡ some c
      → IsSafe C (without p (record c { wakeup_timer = w }) s)
  without-Safe p c w s safe m = record {
    idle = λ q x h. safe.idle q x ((update-none s.memory p q x h).1);
    owned = λ q x h.
        let (ne, e) = update-none s.memory p q x h in
        update_key-other s.clients c.hashkey x.hashkey none
          (λ k. ne (same_ptr p q (sym (safe.owned p c m) ∙ ap s.clients k ∙ safe.owned q x e)))
        ∙ safe.owned q x e;
    live = λ k q h.
        let (ne, e) = update_key-none s.clients c.hashkey k q h in
        let (x, hx, hk) = safe.live k q e in
        (x, update_other s.memory p q none (λ same. ne (ground (arith, m, hx, hk))) ∙ hx, hk);
    unused = λ q h. ground (arith, safe.unused q h);
    subscribed = drop_client-IsPattern C s.memory p s.patterns safe.subscribed;
    no_headers = safe.no_headers;
    timed =
        All-mono C (free-IsTimer s.memory p)
          (end_timer_if_set c.expiry_timer (end_timer_if_set w s.timers))
          (others_timed s.memory p c m (end_timer_if_set w s.timers)
            (end_timer_if_set-All (IsTimer C s.memory) w s.timers safe.timed));
    counting = safe.counting;
  }
