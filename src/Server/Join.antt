-- ===== src/Server/Join.antt =====
-- find_client: the client of a routing id, in the table or new.
use zccp.Base.{
  ℕ, ◌+◌, ◌%◌, ◌^◌, ◌≡◌, ◌≢◌, ◌⊎◌, refl, ap, subst, ◌∙◌, inl, inr, Option, none, some, streq,
  streq→eq, streq_refl, streq_iff, arith, Bool-cases, Option-cases,
}
use zccp.Czmq.{Str, Frame, Czmq}
use zccp.Server.{Timer, start_state, connected_state, Ptr, Client, Server, update, update_key}
use zccp.Server.Actions.{write}
use zccp.Server.Reactor.{new_client, s_client_new, find_client}
use zccp.Server.Invariant.{
  IsTimer, All-mono, IsSafe, IsIdle, Subscribed, patterns_mono, update-cases,
}
use zccp.Server.Memory.{update_self, update_other}
use zccp.Server.Leave.{update_key-other}

pub same_client : {A : Type 0} (c d : A) → some c ≡ some d → c ≡ d
same_client c d e = cc

update_key-cases :
    (m : Str → Option Ptr) (k j : Str) (a : Option Ptr) (q : Ptr)
    → update_key m k a j ≡ some q
    → ((k ≡ j) × (a ≡ some q)) ⊎ ((k ≢ j) × (m j ≡ some q))
update_key-cases m k j a q e = elim (Bool-cases (streq k j)) [
  | inl same ↦ inl (streq→eq k j same, ground arith)
  | inr other ↦ inr ((λ h. ground (arith, streq_iff k j)), ground arith)
]

module _ (C : Czmq) where
  open C use {Hash, zframe_strhex}

  pub new_client-IsIdle : (rid : Frame) (n : ℕ) → IsIdle C (new_client C rid n)
  unfolding new_client
  new_client-IsIdle rid n = record {
    emptied = refl;
    fresh_reply = refl;
    no_alarm = refl;
    keyed = refl;
    identified = λ h. absurd (not_connected h);
  }
    where
      not_connected : start_state ≡ connected_state → ⊥
      not_connected h = cc

  -- The broker with a new client.
  abbrev pub added : Frame → Server Hash → Server Hash
  added rid s = record s {
    client_id = (s.client_id + 1) % 2 ^ 32;
    next_ptr = s.next_ptr + 1;
    memory = update s.memory s.next_ptr (some (new_client C rid s.client_id));
    clients = update_key s.clients (zframe_strhex rid) (some s.next_ptr);
  }

  pub find_client-old :
      (rid : Frame) (s : Server Hash) (p : Ptr)
      → s.clients (zframe_strhex rid) ≡ some p
      → find_client C rid s ≡ (p, s)
  unfolding find_client
  find_client-old rid s p e = rw (find_client, e)

  pub find_client-new :
      (rid : Frame) (s : Server Hash)
      → s.clients (zframe_strhex rid) ≡ none
      → find_client C rid s ≡ (s.next_ptr, added rid s)
  unfolding find_client s_client_new write
  find_client-new rid s e = rw (find_client, e)

  -- A pointer to a live client is not the next free address.
  live_ne_next :
      (s : Server Hash) (q : Ptr) (x : Client Hash)
      → IsSafe C s
      → s.memory q ≡ some x
      → s.next_ptr ≢ q
  live_ne_next s q x safe h same = ground (arith, safe.unused q, h)

  Subscribed-added :
      (rid : Frame) (s : Server Hash)
      → IsSafe C s
      → (q : Ptr) → Subscribed C s.memory q
      → Subscribed C (added rid s).memory q
  Subscribed-added rid s safe q (x, h, st) =
      (x, update_other s.memory s.next_ptr q _ (live_ne_next s q x safe h) ∙ h, st)

  IsTimer-added :
      (rid : Frame) (s : Server Hash)
      → IsSafe C s
      → (t : Timer) → IsTimer C s.memory t
      → IsTimer C (added rid s).memory t
  IsTimer-added rid s safe t (x, h, hid, ne) = (
    x,
    update_other s.memory s.next_ptr t.client _ (live_ne_next s t.client x safe h) ∙ h,
    hid,
    ne,
  )

  added-owned :
      (rid : Frame) (s : Server Hash) (q : Ptr) (x : Client Hash)
      → s.clients (zframe_strhex rid) ≡ none
      → s.clients x.hashkey ≡ some q
      → (added rid s).clients x.hashkey ≡ some q
  added-owned rid s q x free h =
      update_key-other s.clients (zframe_strhex rid) x.hashkey (some s.next_ptr)
        (λ k. ground (arith, free, h, k))
      ∙ h

  pub added-Safe :
      (rid : Frame) (s : Server Hash)
      → IsSafe C s
      → s.clients (zframe_strhex rid) ≡ none
      → IsSafe C (added rid s)
  unfolding new_client
  added-Safe rid s safe free = record {
    idle = λ q x h.
        elim (update-cases s.memory s.next_ptr q (some (new_client C rid s.client_id)) (some x) h) [
          | inl (_, same) ↦
              subst (IsIdle C) (same_client _ x same) (new_client-IsIdle rid s.client_id)
          | inr (_, old) ↦ safe.idle q x old
        ];
    owned = λ q x h.
        elim (update-cases s.memory s.next_ptr q (some (new_client C rid s.client_id)) (some x) h) [
          | inl (there, same) ↦
              subst (λ y. (added rid s).clients y.hashkey ≡ some q) (same_client _ x same)
                (rw (streq_refl (zframe_strhex rid)) (ap some there))
          | inr (_, old) ↦ added-owned rid s q x free (safe.owned q x old)
        ];
    live = λ k q h. elim (update_key-cases s.clients (zframe_strhex rid) k (some s.next_ptr) q h) [
      | inl (key, there) ↦ (new_client C rid s.client_id, ground arith, key)
      | inr (_, old) ↦
          let (x, hx, hk) = safe.live k q old in
          (x, update_other s.memory s.next_ptr q _ (live_ne_next s q x safe hx) ∙ hx, hk)
    ];
    unused = λ q h. ground (arith, safe.unused q);
    subscribed =
        patterns_mono C s.memory (added rid s).memory (Subscribed-added rid s safe) s.patterns
          safe.subscribed;
    no_headers = safe.no_headers;
    timed = All-mono C (IsTimer-added rid s safe) s.timers safe.timed;
    counting = safe.counting;
  }

  -- The client of a routing id is live, and the broker is well formed.
  pub find_client-Safe :
      (rid : Frame) (s : Server Hash)
      → IsSafe C s
      → (p : Ptr) × (c : Client Hash) × (t : Server Hash) × (find_client C rid s ≡ (p, t))
        × IsSafe C t
        × (t.memory p ≡ some c)
  find_client-Safe rid s safe = elim (Option-cases (s.clients (zframe_strhex rid))) [
    | inl free ↦ (
      s.next_ptr,
      new_client C rid s.client_id,
      added rid s,
      find_client-new rid s free,
      added-Safe rid s safe free,
      update_self s.memory s.next_ptr (some (new_client C rid s.client_id)),
    )
    | inr (p, e) ↦
        let (c, m, _) = safe.live (zframe_strhex rid) p e in
        (p, c, s, find_client-old rid s p e, safe, m)
  ]
