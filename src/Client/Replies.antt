-- ===== src/Client/Replies.antt =====
-- Which reply a call of the class interface takes, and what becomes of the others.
use zccp.Base.{ℤ, pos, ◌≡◌, refl, ap, ◌∙◌, false, List, [], ◌∷◌, ◌++◌, map, none, some, All, streq}
use zccp.Czmq.{Str, Czmq}
use zccp.Client.{Command}
use zccp.Client.Actions.{codes}
use zccp.Client.Method.{recv_s, recv_i}
use zccp.Client.Api.{
  Arrival, reply, Api, Filter, success, failure, delivery, name_of, returns, waits, match_filter,
  send_command, load, load_next, accept_from, s_accept_reply, status_of, zccp_client_connect,
  zccp_client_subscribe, zccp_client_recv, content_of,
}

-- The reply's name is none of the filters'.
abbrev pub IsForeign : List Filter → Command → Type 0
IsForeign fs (name, parts) = All (λ f. streq name (name_of f) ≡ false) fs

match_filter-none :
    (fs : List Filter) (name : Str) (parts : List Str)
    → All (λ f. streq name (name_of f) ≡ false) fs
    → match_filter fs name parts ≡ none
unfolding match_filter
match_filter-none [] name parts h = refl
match_filter-none (f ∷ fs) name parts (h, hs) = rw h (match_filter-none fs name [] hs)

-- What the caller waits for.
abbrev pub waiting_for : List Filter
waiting_for = success ∷ failure ∷ []

module _ (C : Czmq) where
  open C use {atoi, print_int, atoi-print_int}

  pub accept_from-foreign :
      (fs : List Filter) (api : Api) (before : List Command) (rest : List Arrival)
      → All (IsForeign fs) before
      → accept_from C fs api (map reply before ++ rest) ≡ accept_from C fs api rest
  unfolding accept_from
  accept_from-foreign fs api [] rest h = refl
  accept_from-foreign fs api ((name, parts) ∷ before) rest (h, hs) =
      rw (match_filter-none fs name parts h, accept_from)
        (accept_from-foreign fs api before rest hs)

  -- zccp_client_recv returns the content of the first MESSAGE, with its sender and address, and
  -- discards the replies before it.
  pub zccp_client_recv-first :
      (api : Api) (before : List Command) (sender address content : Str) (rest : List Arrival)
      → All (IsForeign (delivery ∷ [])) before
      → api.arrivals
        ≡ map reply before ++ reply (codes "MESSAGE", sender ∷ address ∷ content ∷ []) ∷ rest
      → zccp_client_recv C api
        ≡ returns (
          some content,
          record api {
            sender = some sender;
            address = some address;
            content = some content;
            arrivals = rest;
          },
        )
  unfolding zccp_client_recv s_accept_reply accept_from match_filter load_next load recv_s
      content_of
  zccp_client_recv-first api before sender address content rest h e =
      ap (λ x. content_of C (accept_from C (delivery ∷ []) api x)) e
      ∙ ap (content_of C) (accept_from-foreign (delivery ∷ []) api before _ h)

  accept-success :
      (api : Api) (before : List Command) (status : ℤ) (rest : List Arrival)
      → All (IsForeign waiting_for) before
      → accept_from C waiting_for api
          (map reply before ++ reply (codes "SUCCESS", print_int status ∷ []) ∷ rest)
        ≡ returns (pos 0, record api { status = status; arrivals = rest })
  unfolding accept_from match_filter load_next load recv_i
  accept-success api before status rest h =
      accept_from-foreign waiting_for api before _ h
      ∙ ap (λ n. returns (pos 0, record api { status = n; arrivals = rest }))
          (atoi-print_int status)

  -- zccp_client_subscribe returns the status of the first SUCCESS that comes before any FAILURE; the
  -- replies before it, also every MESSAGE, are discarded.
  pub zccp_client_subscribe-success :
      (expression : Str) (api : Api) (before : List Command) (status : ℤ) (rest : List Arrival)
      → All (IsForeign waiting_for) before
      → api.arrivals ≡ map reply before ++ reply (codes "SUCCESS", print_int status ∷ []) ∷ rest
      → zccp_client_subscribe C expression api
        ≡ returns (
          status,
          record api {
            status = status;
            commands = api.commands ++ (codes "SUBSCRIBE", expression ∷ []) ∷ [];
            arrivals = rest;
          },
        )
  unfolding zccp_client_subscribe s_accept_reply status_of send_command
  zccp_client_subscribe-success expression api before status rest h e =
      let asked : Api = record api {
        commands = api.commands ++ (codes "SUBSCRIBE", expression ∷ []) ∷ [];
      } in
      ap (λ x. status_of C (accept_from C waiting_for asked x)) e
      ∙ ap (status_of C) (accept-success asked before status rest h)

  pub zccp_client_connect-success :
      (endpoint : Str) (timeout : ℤ) (api : Api) (before : List Command) (status : ℤ)
      (rest : List Arrival)
      → All (IsForeign waiting_for) before
      → api.arrivals ≡ map reply before ++ reply (codes "SUCCESS", print_int status ∷ []) ∷ rest
      → zccp_client_connect C endpoint timeout api
        ≡ returns (
          status,
          record api {
            status = status;
            commands = api.commands ++ (codes "CONNECT", endpoint ∷ print_int timeout ∷ []) ∷ [];
            arrivals = rest;
          },
        )
  unfolding zccp_client_connect s_accept_reply status_of send_command
  zccp_client_connect-success endpoint timeout api before status rest h e =
      let asked : Api = record api {
        commands = api.commands ++ (codes "CONNECT", endpoint ∷ print_int timeout ∷ []) ∷ [];
      } in
      ap (λ x. status_of C (accept_from C waiting_for asked x)) e
      ∙ ap (status_of C) (accept-success asked before status rest h)

  -- A FAILURE is lost: the filter SUCCESS, which is tried first, discards its status and reason, and
  -- zccp_client_connect then waits for one more message.
  pub zccp_client_connect-failure :
      (endpoint : Str) (timeout : ℤ) (api : Api) (before : List Command) (parts : List Str)
      → All (IsForeign waiting_for) before
      → api.arrivals ≡ map reply before ++ reply (codes "FAILURE", parts) ∷ []
      → zccp_client_connect C endpoint timeout api ≡ waits
  unfolding zccp_client_connect s_accept_reply status_of send_command accept_from match_filter
      load_next
  zccp_client_connect-failure endpoint timeout api before parts h e =
      let asked : Api = record api {
        commands = api.commands ++ (codes "CONNECT", endpoint ∷ print_int timeout ∷ []) ∷ [];
      } in
      ap (λ x. status_of C (accept_from C waiting_for asked x)) e
      ∙ ap (status_of C) (accept_from-foreign waiting_for asked before _ h)
