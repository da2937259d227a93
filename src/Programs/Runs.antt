-- ===== src/Programs/Runs.antt =====
-- Whole runs of zccp_sh and of zccpd.
use zccp.Base.{
  ℕ, suc, pos, ℤ, ◌≡◌, ◌<◌, ◌≤◌, refl, ap, ◌∙◌, is_nonzero, Bool, true, false, List, [], ◌∷◌, ◌++◌,
  map, Option, none, some, All, if◌then◌else◌, length, arith,
}
use zccp.Czmq.{Str, codes, Czmq}
use zccp.Client.{Command}
use zccp.Client.Api.{
  Arrival, reply, interrupted, Api, Outcome, returns, waits, Filter, match_filter, load_next,
  accept_from, s_accept_reply, status_of, send_command, zccp_client_new, zccp_client_verbose,
  zccp_client_connect, zccp_client_subscribe, zccp_client_publish,
}
use zccp.Client.Replies.{
  IsForeign, waiting_for, zccp_client_connect-success, zccp_client_subscribe-success,
}
use zccp.Programs.Shell.{
  returned, waiting, after_line, endpoint, show, talk, connected, run, checked, zccp_sh,
}
use zccp.Programs.Reading.{IsNotice, lines_of, print_all, stop_arrivals, ending_of, show-lines}
use zccp.Programs.Ending.{is_proper, is_proper-after_line, show-proper}

module _ (C : Czmq) where
  open C use {print_int}

  -- At most so many arrivals are left.
  abbrev Leaves : ℕ → Outcome (ℤ × Api) → Type 0
  Leaves n waits = Unit
  Leaves n (returns (rc, after)) = length after.arrivals ≤ n

  loaded-Leaves :
      (f : Filter) (api : Api) (parts : List Str) (rest : List Arrival) (n : ℕ)
      → length rest ≤ n
      → Leaves n (load_next C f parts api rest)
  unfolding load_next
  loaded-Leaves f api (part ∷ parts) rest n h = h
  loaded-Leaves f api [] [] n h = tt
  loaded-Leaves f api [] (interrupted ∷ rest) n h = omega arith
  loaded-Leaves f api [] (reply (name, parts) ∷ rest) n h = omega arith

  Leaves-mono : (m n : ℕ) (o : Outcome (ℤ × Api)) → m ≤ n → Leaves m o → Leaves n o
  Leaves-mono m n waits h k = tt
  Leaves-mono m n (returns (rc, after)) h k = omega arith

  accepted-Leaves :
      (fs : List Filter) (api : Api) (xs : List Arrival)
      → Leaves (length xs) (accept_from C fs api xs)
  unfolding accept_from
  accepted-Leaves fs api [] = tt
  accepted-Leaves fs api (interrupted ∷ rest) = omega arith
  accepted-Leaves fs api (reply (name, parts) ∷ rest) =
      go (accepted-Leaves fs api rest) (match_filter fs name parts)
    where
      go :
          Leaves (length rest) (accept_from C fs api rest)
          → (o : Option (Filter × List Str))
          → Leaves (suc (length rest)) (elim o [
            | none ↦ accept_from C fs api rest
            | some (f, left) ↦ load_next C f left api rest
          ])
      go later none = Leaves-mono (length rest) (suc (length rest)) _ (omega arith) later
      go later (some (f, left)) = loaded-Leaves f api left rest (suc (length rest)) (omega arith)

  status-Leaves : (n : ℕ) (o : Outcome (ℤ × Api)) → Leaves n o → Leaves n (status_of C o)
  unfolding status_of
  status-Leaves n waits h = tt
  status-Leaves n (returns (rc, after)) h = h

  show_after-proper :
      (fuel n : ℕ) (o : Outcome (ℤ × Api))
      → Leaves n o
      → n < fuel
      → is_proper (elim o [ waits ↦ waiting [] | returns (status, after) ↦ show C fuel after ])
        ≡ true
  show_after-proper fuel n waits h k = refl
  show_after-proper fuel n (returns (status, after)) h k = show-proper C fuel after (omega arith)

  talk-proper :
      (fuel : ℕ) (args : List Str) (api : Api)
      → length api.arrivals < fuel
      → is_proper (talk C fuel args api) ≡ true
  unfolding talk zccp_client_subscribe s_accept_reply send_command
  talk-proper fuel [] api h = refl
  talk-proper fuel (pattern_ ∷ []) api h =
      show_after-proper fuel (length api.arrivals) _
        (status-Leaves (length api.arrivals) _ (accepted-Leaves waiting_for _ api.arrivals)) h
  talk-proper fuel (address ∷ body ∷ []) api h = refl
  talk-proper fuel (address ∷ body ∷ other ∷ args) api h = refl

  connected-proper :
      (fuel n : ℕ) (args : List Str) (o : Outcome (ℤ × Api))
      → Leaves n o
      → n < fuel
      → is_proper (connected C fuel args o) ≡ true
  unfolding connected
  connected-proper fuel n args waits h k = refl
  connected-proper fuel n args (returns (status, api)) h k = go (is_nonzero status)
    where
      go :
          (b : Bool)
          → is_proper (if b then returned [] api.commands else talk C fuel args api) ≡ true
      go true = refl
      go false = talk-proper fuel args api (omega arith)

  checked-proper :
      (fuel : ℕ) (argv : List Str) (arrivals : List Arrival)
      → length arrivals < fuel
      → is_proper (checked C fuel argv arrivals) ≡ true
  unfolding checked run zccp_client_new zccp_client_verbose zccp_client_connect s_accept_reply
      send_command
  checked-proper fuel [] arrivals h = refl
  checked-proper fuel (program ∷ []) arrivals h = refl
  checked-proper fuel (program ∷ arg ∷ args) arrivals h =
      connected-proper fuel (length arrivals) (arg ∷ args) _
        (status-Leaves (length arrivals) _ (accepted-Leaves waiting_for _ arrivals)) h

  -- Whatever the arguments are and whatever comes from the actor, zccp_sh returns or waits for a
  -- reply: it never gives printf a NULL for a string, and its loop turns at most once more than there
  -- are replies and interrupts.
  pub zccp_sh_ends :
      (decimal : ℕ → Str) (fuel : ℕ) (argv : List Str) (arrivals : List Arrival)
      → length arrivals < fuel
      → is_proper (zccp_sh C decimal fuel argv arrivals) ≡ true
  unfolding zccp_sh
  zccp_sh_ends decimal fuel argv arrivals h =
      is_proper-after_line (codes "ARGS:" ++ (decimal (length argv) ++ codes "\n"))
        (checked C fuel argv arrivals)
      ∙ checked-proper fuel argv arrivals h

  talk-subscribe :
      (fuel : ℕ) (expression : Str) (api : Api) (before notices : List Command) (status : ℤ)
      (stop : Option (List Arrival))
      → All (IsForeign waiting_for) before
      → All IsNotice notices
      → length notices < fuel
      → api.arrivals
        ≡ map reply before
          ++ reply (codes "SUCCESS", print_int status ∷ [])
            ∷ (map reply notices ++ stop_arrivals stop)
      → talk C fuel (expression ∷ []) api
        ≡ print_all
            (lines_of notices)
            (ending_of stop (api.commands ++ (codes "SUBSCRIBE", expression ∷ []) ∷ []))
  unfolding talk
  talk-subscribe fuel expression api before notices status stop hb hn k e =
      let tail = map reply notices ++ stop_arrivals stop in
      let asked : Api = record api {
        status = status;
        commands = api.commands ++ (codes "SUBSCRIBE", expression ∷ []) ∷ [];
        arrivals = tail;
      } in
      ap
        (λ (o : Outcome (ℤ × Api)). elim o [
          | waits ↦ waiting []
          | returns (rc, after) ↦ show C fuel after
        ])
        (zccp_client_subscribe-success C expression api before status tail hb e)
      ∙ show-lines C fuel asked notices stop hn k refl

  -- The arguments are a pattern: if the actor answers CONNECT with the status 0, and then the
  -- SUBSCRIBE, zccp_sh prints a line for every MESSAGE that comes after the answer to the SUBSCRIBE,
  -- in their order, until it is interrupted or nothing comes any more. If it returns, it has sent
  -- VERBOSE, CONNECT to the endpoint and SUBSCRIBE with the pattern.
  pub zccp_sh-subscribe :
      (decimal : ℕ → Str) (fuel : ℕ) (program expression : Str)
      (early before notices : List Command) (status : ℤ) (stop : Option (List Arrival))
      → All (IsForeign waiting_for) early
      → All (IsForeign waiting_for) before
      → All IsNotice notices
      → length notices < fuel
      → zccp_sh C decimal fuel (program ∷ expression ∷ []) (
          map reply early
          ++ reply (codes "SUCCESS", print_int (pos 0) ∷ [])
            ∷ (map reply before
                ++ reply (codes "SUCCESS", print_int status ∷ [])
                  ∷ (map reply notices ++ stop_arrivals stop)))
        ≡ print_all ((codes "ARGS:" ++ (decimal 2 ++ codes "\n")) ∷ lines_of notices) (
            ending_of stop (
              (codes "VERBOSE", [])
              ∷ (codes "CONNECT", endpoint ∷ print_int (pos 1000) ∷ [])
              ∷ (codes "SUBSCRIBE", expression ∷ [])
              ∷ []))
  unfolding zccp_sh checked run connected talk zccp_client_new zccp_client_verbose send_command
  zccp_sh-subscribe decimal fuel program expression early before notices status stop he hb hn k =
      let tail = map reply notices ++ stop_arrivals stop in
      let rest = map reply before ++ reply (codes "SUCCESS", print_int status ∷ []) ∷ tail in
      let arrivals = map reply early ++ reply (codes "SUCCESS", print_int (pos 0) ∷ []) ∷ rest in
      let fresh : Api = zccp_client_verbose C (zccp_client_new arrivals) in
      let joined : Api = record fresh {
        status = pos 0;
        commands = fresh.commands ++ (codes "CONNECT", endpoint ∷ print_int (pos 1000) ∷ []) ∷ [];
        arrivals = rest;
      } in
      let args_line = codes "ARGS:" ++ (decimal 2 ++ codes "\n") in
      ap (λ o. after_line args_line (connected C fuel (expression ∷ []) o))
        (zccp_client_connect-success C endpoint (pos 1000) fresh early (pos 0) rest he refl)
      ∙ ap (after_line args_line)
          (talk-subscribe fuel expression joined before notices status stop hb hn k refl)

  -- The arguments are an address and a body: if the actor answers CONNECT with the status 0,
  -- zccp_sh returns having sent VERBOSE, CONNECT to the endpoint and PUBLISH of the body to the
  -- address, and printed nothing but the number of its arguments.
  pub zccp_sh-publish :
      (decimal : ℕ → Str) (fuel : ℕ) (program address body : Str) (early : List Command)
      (rest : List Arrival)
      → All (IsForeign waiting_for) early
      → zccp_sh C decimal fuel
          (program ∷ address ∷ body ∷ [])
          (map reply early ++ reply (codes "SUCCESS", print_int (pos 0) ∷ []) ∷ rest)
        ≡ returned ((codes "ARGS:" ++ (decimal 3 ++ codes "\n")) ∷ []) (
            (codes "VERBOSE", [])
            ∷ (codes "CONNECT", endpoint ∷ print_int (pos 1000) ∷ [])
            ∷ (codes "PUBLISH", address ∷ body ∷ [])
            ∷ [])
  unfolding zccp_sh checked run connected talk zccp_client_new zccp_client_verbose send_command
      zccp_client_publish after_line
  zccp_sh-publish decimal fuel program address body early rest he =
      let arrivals = map reply early ++ reply (codes "SUCCESS", print_int (pos 0) ∷ []) ∷ rest in
      ap
        (λ o.
          after_line (codes "ARGS:" ++ (decimal 3 ++ codes "\n"))
            (connected C fuel (address ∷ body ∷ []) o))
        (zccp_client_connect-success C endpoint (pos 1000)
          (zccp_client_verbose C (zccp_client_new arrivals)) early (pos 0) rest he refl)
