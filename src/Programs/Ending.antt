-- ===== src/Programs/Ending.antt =====
-- How the receive loop of zccp_sh ends: it neither reads a string that is not there nor runs longer
-- than there are replies.
use zccp.Base.{
  ℕ, suc, zero, ◌≡◌, ◌<◌, ◌≤◌, refl, ap, ◌∙◌, Bool, true, false, List, [], ◌∷◌, Option, none, some,
  if◌then◌else◌, length, streq, arith,
}
use zccp.Czmq.{Str, codes, Czmq}
use zccp.Client.Method.{recv_s}
use zccp.Client.Api.{
  Arrival, reply, interrupted, Api, Outcome, returns, waits, Filter, delivery, match_filter, load,
  load_next, accept_from, s_accept_reply, content_of, zccp_client_sender, zccp_client_address,
  zccp_client_recv,
}
use zccp.Programs.Shell.{
  Ending, returned, waiting, crashed, exhausted, after_line, content_line, print_content, show,
}
use zccp.Programs.Reading.{turn, show-turn}

-- The run returned, or waits.
abbrev pub is_proper : Ending → Bool
is_proper (returned lines commands) = true
is_proper (waiting lines) = true
is_proper _ = false

pub is_proper-after_line : (line : Str) (e : Ending) → is_proper (after_line line e) ≡ is_proper e
unfolding after_line
is_proper-after_line line (returned lines commands) = refl
is_proper-after_line line (waiting lines) = refl
is_proper-after_line line (crashed lines) = refl
is_proper-after_line line (exhausted lines) = refl

module _ (C : Czmq) where
  -- What was received has a sender and an address, and left fewer arrivals.
  abbrev Brings : ℕ → Outcome (Option Str × Api) → Type 0
  Brings n waits = Unit
  Brings n (returns (none, after)) = Unit
  Brings n (returns (some content, after)) =
      (sender : Str) × (address : Str) × (after.sender ≡ some sender)
      × (after.address ≡ some address)
      × (length after.arrivals < n)

  Brings-mono : (m n : ℕ) (o : Outcome (Option Str × Api)) → m ≤ n → Brings m o → Brings n o
  Brings-mono m n waits h b = tt
  Brings-mono m n (returns (none, after)) h b = tt
  Brings-mono m n (returns (some content, after)) h (s, a, es, ea, k) = (s, a, es, ea, omega arith)

  loaded-Brings :
      (api : Api) (parts : List Str) (rest : List Arrival) (n : ℕ)
      → length rest < n
      → Brings n (content_of C (load_next C delivery parts api rest))
  unfolding load_next load recv_s content_of
  loaded-Brings api [] [] n h = tt
  loaded-Brings api [] (interrupted ∷ rest) n h = tt
  loaded-Brings api [] (reply (name, []) ∷ rest) n h = tt
  loaded-Brings api [] (reply (name, a ∷ []) ∷ rest) n h = tt
  loaded-Brings api [] (reply (name, a ∷ c ∷ parts) ∷ rest) n h = (name, a, refl, refl, omega arith)
  loaded-Brings api (s ∷ []) rest n h = tt
  loaded-Brings api (s ∷ a ∷ []) rest n h = tt
  loaded-Brings api (s ∷ a ∷ c ∷ parts) rest n h = (s, a, refl, refl, h)

  accepted-Brings :
      (api : Api) (xs : List Arrival)
      → Brings (length xs) (content_of C (accept_from C (delivery ∷ []) api xs))
  unfolding accept_from content_of match_filter
  accepted-Brings api [] = tt
  accepted-Brings api (interrupted ∷ rest) = tt
  accepted-Brings api (reply (name, parts) ∷ rest) =
      go (accepted-Brings api rest) (streq name (codes "MESSAGE"))
    where
      go :
          Brings (length rest) (content_of C (accept_from C (delivery ∷ []) api rest))
          → (b : Bool)
          → Brings (suc (length rest)) (
              content_of C
                (elim (if◌then◌else◌ {A = Option (Filter × List Str)} b
                  (some (delivery, parts))
                  none) [
                    | none ↦ accept_from C (delivery ∷ []) api rest
                    | some (f, left) ↦ load_next C f left api rest
                  ]))
      go later true = loaded-Brings api parts rest (suc (length rest)) (omega arith)
      go later false = Brings-mono (length rest) (suc (length rest)) _ (omega arith) later

  print_content-some :
      (content s a : Str) (sender address : Option Str)
      → sender ≡ some s
      → address ≡ some a
      → print_content content sender address ≡ some (content_line content s a)
  unfolding print_content
  print_content-some content s a sender address es ea = rw (es, ea) refl

  pub show-proper :
      (fuel : ℕ) (api : Api) → length api.arrivals < fuel → is_proper (show C fuel api) ≡ true
  unfolding zccp_client_recv s_accept_reply zccp_client_sender zccp_client_address print_content
  show-proper zero api h = absurd (omega arith)
  show-proper (suc fuel) api h =
      ap is_proper (show-turn C fuel api _ refl)
      ∙ proper (show-proper fuel) (zccp_client_recv C api) (accepted-Brings api api.arrivals)
    where
      proper :
          ((after : Api) → length after.arrivals < fuel → is_proper (show C fuel after) ≡ true)
          → (o : Outcome (Option Str × Api)) → Brings (length api.arrivals) o
          → is_proper (turn C fuel o) ≡ true
      proper later waits b = refl
      proper later (returns (none, after)) b = refl
      proper later (returns (some content, after)) (s, a, es, ea, k) =
          ap
            (λ (line : Option Str).
              is_proper
                (elim line [ none ↦ crashed [] | some text ↦ after_line text (show C fuel after) ]))
            (print_content-some content s a after.sender after.address es ea)
          ∙ is_proper-after_line (content_line content s a) (show C fuel after)
          ∙ later after (omega arith)
