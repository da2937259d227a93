-- ===== src/Server/Invariant.antt =====
-- Well-formedness of the broker's state: which pointers are live, and what the engine relies on
-- between two events.
use zccp.Base.{
  ℕ, ◌≤◌, ◌≡◌, ◌≢◌, subst, ◌⊎◌, inl, inr, false, List, [], ◌∷◌, Option, none, some, ◌==◌, All,
  arith, Bool-cases,
}
use zccp.Czmq.{Str, Czmq}
use zccp.Server.{connected_state, Ptr, Pattern, Client, Server, Timer, update}
use zccp.Server.Actions.{new_reply, write}
use zccp.Server.Patterns.{contains}

-- None of the pointers is the one.
abbrev pub Without : Ptr → List Ptr → Type 0
Without p qs = All (λ q. q ≢ p) qs

-- No pointer stands in the list twice.
abbrev pub Distinct : List Ptr → Type 0
Distinct [] = Unit
Distinct (q ∷ qs) = (contains q qs ≡ false) × Distinct qs

pub update-cases :
    {A : Type 0} (m : ℕ → Option A) (p q : ℕ) (a b : Option A)
    → update m p a q ≡ b
    → ((p ≡ q) × (a ≡ b)) ⊎ ((p ≢ q) × (m q ≡ b))
update-cases m p q a b e = ground arith

module _ (C : Czmq) where
  open C use {Hash, zframe_strhex}

  -- A client between two events: no request waits, the reply is new, no alarm is set, and a
  -- client that is connected has told its identifier.
  pub record IsIdle (c : Client Hash) : Type 0 where
    pub emptied : c.mailbox ≡ []
    pub fresh_reply : c.reply ≡ new_reply C c.routing_id
    pub no_alarm : c.wakeup_timer ≡ 0
    pub keyed : c.hashkey ≡ zframe_strhex c.routing_id
    pub identified : c.state ≡ connected_state → (i : Str) × (c.identifier ≡ some i)

  abbrev pub Memory : Type 0
  Memory = Ptr → Option (Client Hash)

  -- The pointer leads to a live client that is connected.
  abbrev pub Subscribed : Memory → Ptr → Type 0
  Subscribed m q = (c : Client Hash) × (m q ≡ some c) × (c.state ≡ connected_state)

  abbrev pub IsPattern : Memory → Pattern → Type 0
  IsPattern m x = All (Subscribed m) x.clients × Distinct x.clients

  -- The timer is the expiry timer of a live client.
  abbrev pub IsTimer : Memory → Timer → Type 0
  IsTimer m t =
      (c : Client Hash) × (m t.client ≡ some c) × (c.expiry_timer ≡ t.timer_id) × (t.timer_id ≢ 0)

  -- Every live client is idle and in the table under its key; every entry of the table is live;
  -- the addresses not given out are free; every subscriber is live and connected, and stands in a
  -- pattern once; no headers are noted down; every timer is the
  -- expiry timer of a live client.
  pub record Safe (headers : Option Hash) (timers : List Timer) (next_timer : ℕ)
      (patterns : List Pattern) (clients : Str → Option Ptr) (m : Memory) (next_ptr : Ptr)
      : Type 0 where
    pub idle : (p : Ptr) (c : Client Hash) → m p ≡ some c → IsIdle c
    pub owned : (p : Ptr) (c : Client Hash) → m p ≡ some c → clients c.hashkey ≡ some p
    pub live :
        (k : Str) (p : Ptr)
        → clients k ≡ some p
        → (c : Client Hash) × (m p ≡ some c) × (c.hashkey ≡ k)
    pub unused : (p : Ptr) → next_ptr ≤ p → m p ≡ none
    pub subscribed : All (IsPattern m) patterns
    pub no_headers : headers ≡ none
    pub timed : All (IsTimer m) timers
    pub counting : next_timer ≢ 0

  abbrev pub IsSafe : Server Hash → Type 0
  IsSafe s = Safe s.headers s.timers s.next_timer s.patterns s.clients s.memory s.next_ptr

  -- Rewriting a live client keeps the subscriptions, if it stays connected.
  pub Subscribed-write :
      (m : Memory) (p : Ptr) (c d : Client Hash)
      → m p ≡ some c
      → (c.state ≡ connected_state → d.state ≡ connected_state)
      → (q : Ptr) → Subscribed m q
      → Subscribed (update m p (some d)) q
  Subscribed-write m p c d e keep q (x, hx, hs) = elim (Bool-cases (p == q)) [
    | inl same ↦ (d, rw same, keep (ground arith))
    | inr other ↦ (x, rw other hx, hs)
  ]

  live-write :
      (p : Ptr) (c d : Client Hash) (m : Memory)
      → m p ≡ some c
      → d.hashkey ≡ c.hashkey
      → (k : Str) (q : Ptr) → (x : Client Hash) × (m q ≡ some x) × (x.hashkey ≡ k)
      → (x : Client Hash) × (update m p (some d) q ≡ some x) × (x.hashkey ≡ k)
  live-write p c d m e key k q (x, hx, hk) = elim (Bool-cases (p == q)) [
    | inl same ↦ (d, rw same, ground arith)
    | inr other ↦ (x, rw other hx, hk)
  ]

  pub All-mono {ℓ} :
      {A : Type 0} {P Q : A → Type ℓ} → ((a : A) → P a → Q a) → (xs : List A) → All P xs → All Q xs
  All-mono f [] h = h
  All-mono f (x ∷ xs) (h, hs) = (f x h, All-mono f xs hs)

  pub patterns_mono :
      (m n : Memory)
      → ((q : Ptr) → Subscribed m q → Subscribed n q)
      → (xs : List Pattern) → All (IsPattern m) xs
      → All (IsPattern n) xs
  patterns_mono m n f xs h = All-mono (λ x (a, d). (All-mono f x.clients a, d)) xs h

  IsTimer-write :
      (m : Memory) (p : Ptr) (c d : Client Hash)
      → m p ≡ some c
      → d.expiry_timer ≡ c.expiry_timer
      → (t : Timer) → IsTimer m t
      → IsTimer (update m p (some d)) t
  IsTimer-write m p c d e same t (x, hx, hid, ne) = elim (Bool-cases (p == t.client)) [
    | inl there ↦ (d, rw there, ground arith, ne)
    | inr other ↦ (x, rw other hx, hid, ne)
  ]

  -- Rewriting a live client, with new timers.
  pub write-Safe_timed :
      (p : Ptr) (c d : Client Hash) (s : Server Hash) (timers : List Timer) (next_timer : ℕ)
      → IsSafe s
      → s.memory p ≡ some c
      → IsIdle d
      → d.hashkey ≡ c.hashkey
      → (c.state ≡ connected_state → d.state ≡ connected_state)
      → All (IsTimer (update s.memory p (some d))) timers
      → next_timer ≢ 0
      → Safe s.headers timers next_timer s.patterns s.clients
          (update s.memory p (some d))
          s.next_ptr
  write-Safe_timed p c d s timers next_timer safe e good key keep ht hn = record {
    idle = λ q x h. elim (update-cases s.memory p q (some d) (some x) h) [
      | inl (_, same) ↦ subst IsIdle (ground arith) good
      | inr (_, old) ↦ safe.idle q x old
    ];
    owned = λ q x h. elim (update-cases s.memory p q (some d) (some x) h) [
      | inl (there, same) ↦ ground (arith, safe.owned p c e, key)
      | inr (_, old) ↦ safe.owned q x old
    ];
    live = λ k q h. live-write p c d s.memory e key k q (safe.live k q h);
    unused = λ q h. ground (arith, safe.unused q h);
    subscribed =
        patterns_mono s.memory (update s.memory p (some d)) (Subscribed-write s.memory p c d e keep)
          s.patterns safe.subscribed;
    no_headers = safe.no_headers;
    timed = ht;
    counting = hn;
  }

  pub write-Safe :
      (p : Ptr) (c d : Client Hash) (s : Server Hash)
      → IsSafe s
      → s.memory p ≡ some c
      → IsIdle d
      → d.hashkey ≡ c.hashkey
      → d.expiry_timer ≡ c.expiry_timer
      → (c.state ≡ connected_state → d.state ≡ connected_state)
      → IsSafe (write C p d s)
  unfolding write
  write-Safe p c d s safe e good key same keep =
      write-Safe_timed p c d s s.timers s.next_timer safe e good key keep
        (All-mono (IsTimer-write s.memory p c d e same) s.timers safe.timed) safe.counting
