-- ===== src/Programs/Reading.antt =====
-- What the receive loop of zccp_sh prints.
use zccp.Base.{
  ℕ, suc, zero, ◌≡◌, ◌<◌, refl, ap, sym, ◌∙◌, subst, false, inl, inr, List, [], ◌∷◌, ◌++◌, map,
  Option, none, some, All, if◌then◌else◌, length, streq, streq→eq, Bool-cases, arith,
}
use zccp.Czmq.{Str, codes, Czmq}
use zccp.Client.{Command}
use zccp.Client.Api.{
  Arrival, reply, interrupted, Api, Outcome, returns, waits, delivery, accept_from, s_accept_reply,
  content_of, zccp_client_sender, zccp_client_address, zccp_client_recv,
}
use zccp.Client.Replies.{IsForeign, accept_from-foreign, zccp_client_recv-first}
use zccp.Programs.Shell.{
  Ending, returned, waiting, crashed, after_line, content_line, print_content, show,
}

-- A reply that the loop prints, and its text.
abbrev pub line_of : Command → Option Str
line_of (name, sender ∷ address ∷ content ∷ parts) =
    if streq name (codes "MESSAGE") then some (content_line content sender address) else none
line_of (name, parts) = none

-- The replies are MESSAGEs with their three parts, or have another name.
abbrev pub IsNotice : Command → Type 0
IsNotice (name, parts) =
    name ≡ codes "MESSAGE"
    → (sender : Str) × (address : Str) × (content : Str) × (parts ≡ sender ∷ address ∷ content ∷ [])

abbrev pub lines_of : List Command → List Str
lines_of [] = []
lines_of (c ∷ cs) = elim (line_of c) [ none ↦ lines_of cs | some line ↦ line ∷ lines_of cs ]

abbrev pub print_all : List Str → Ending → Ending
print_all [] e = e
print_all (line ∷ lines) e = after_line line (print_all lines e)

-- Where the next MESSAGE is.
data NextLine (cs : List Command) : Type 0 where
  none_left : All (IsForeign (delivery ∷ [])) cs → lines_of cs ≡ [] → NextLine cs
  next_line :
      (before : List Command) (sender address content : Str) (rest : List Command)
      → cs ≡ before ++ (codes "MESSAGE", sender ∷ address ∷ content ∷ []) ∷ rest
      → All (IsForeign (delivery ∷ [])) before
      → lines_of cs ≡ content_line content sender address ∷ lines_of rest
      → length rest < length cs
      → All IsNotice rest
      → NextLine cs

lines_of-foreign :
    (name : Str) (parts : List Str) (cs : List Command)
    → streq name (codes "MESSAGE") ≡ false
    → lines_of ((name, parts) ∷ cs) ≡ lines_of cs
lines_of-foreign name (s ∷ a ∷ c ∷ parts) cs h = rw (lines_of, line_of, h) refl
lines_of-foreign name [] cs h = refl
lines_of-foreign name (s ∷ []) cs h = refl
lines_of-foreign name (s ∷ a ∷ []) cs h = refl

past :
    (name : Str) (parts : List Str) (cs : List Command)
    → streq name (codes "MESSAGE") ≡ false
    → NextLine cs
    → NextLine ((name, parts) ∷ cs)
past name parts cs e (none_left foreign empty) =
    none_left ((e, tt), foreign) (lines_of-foreign name parts cs e ∙ empty)
past name parts cs e (next_line before s a c rest eq foreign lines shorter h) =
    next_line ((name, parts) ∷ before) s a c rest (ap (◌∷◌ (name, parts)) eq) ((e, tt), foreign)
      (lines_of-foreign name parts cs e ∙ lines) (omega (arith, shorter)) h

here :
    (name : Str) (parts : List Str) (s a c : Str) (cs : List Command)
    → name ≡ codes "MESSAGE"
    → parts ≡ s ∷ a ∷ c ∷ []
    → All IsNotice cs
    → NextLine ((name, parts) ∷ cs)
here name parts s a c cs en ep h =
    subst (λ n. NextLine ((n, parts) ∷ cs)) (sym en)
      (subst (λ p. NextLine ((codes "MESSAGE", p) ∷ cs)) (sym ep)
        (next_line [] s a c cs refl tt refl (omega arith) h))

next : (cs : List Command) → All IsNotice cs → NextLine cs
next [] h = none_left tt refl
next ((name, parts) ∷ cs) (h, hs) = elim (Bool-cases (streq name (codes "MESSAGE"))) [
  | inl e ↦ here_notice h (streq→eq name (codes "MESSAGE") e)
  | inr e ↦ past name parts cs e (next cs hs)
]
  where
    here_notice : IsNotice (name, parts) → name ≡ codes "MESSAGE" → NextLine ((name, parts) ∷ cs)
    here_notice n en = let (s, a, c, ep) = n en in here name parts s a c cs en ep hs

-- Behind the replies nothing comes, or an interrupt.
abbrev pub stop_arrivals : Option (List Arrival) → List Arrival
stop_arrivals none = []
stop_arrivals (some rest) = interrupted ∷ rest

abbrev pub ending_of : Option (List Arrival) → List Command → Ending
ending_of none commands = waiting []
ending_of (some rest) commands = returned [] commands

split_arrivals :
    (before : List Command) (c : Command) (rest : List Command) (tail : List Arrival)
    → map reply (before ++ c ∷ rest) ++ tail
      ≡ map reply before ++ (reply c ∷ (map reply rest ++ tail))
split_arrivals [] c rest tail = refl
split_arrivals (b ∷ before) c rest tail = ap (◌∷◌ (reply b)) (split_arrivals before c rest tail)

module _ (C : Czmq) where
  recv-none_left :
      (api : Api) (cs : List Command) (stop : Option (List Arrival))
      → All (IsForeign (delivery ∷ [])) cs
      → api.arrivals ≡ map reply cs ++ stop_arrivals stop
      → zccp_client_recv C api
        ≡ elim stop [ none ↦ waits | some rest ↦ returns (none, record api { arrivals = rest }) ]
  unfolding zccp_client_recv s_accept_reply accept_from content_of
  recv-none_left api cs stop h e =
      ap (λ x. content_of C (accept_from C (delivery ∷ []) api x)) e
      ∙ ap (content_of C) (accept_from-foreign C (delivery ∷ []) api cs (stop_arrivals stop) h)
      ∙ last stop
    where
      last :
          (stop : Option (List Arrival))
          → content_of C (accept_from C (delivery ∷ []) api (stop_arrivals stop)) ≡ elim stop [
            | none ↦ waits
            | some rest ↦ returns (none, record api { arrivals = rest })
          ]
      last none = refl
      last (some rest) = refl

  -- A turn of the loop, from what was received.
  abbrev pub turn : ℕ → Outcome (Option Str × Api) → Ending
  turn fuel o = elim o [
    | waits ↦ waiting []
    | returns (none, client) ↦ returned [] client.commands
    | returns (some content, client) ↦
        elim (print_content content (zccp_client_sender client) (zccp_client_address client)) [
          | none ↦ crashed []
          | some line ↦ after_line line (show C fuel client)
        ]
  ]

  pub show-turn :
      (fuel : ℕ) (api : Api) (o : Outcome (Option Str × Api))
      → zccp_client_recv C api ≡ o
      → show C (suc fuel) api ≡ turn fuel o
  unfolding show
  show-turn fuel api o e = ap (turn fuel) e

  -- The loop prints a line for every MESSAGE, in the order in which they come, until it is
  -- interrupted or nothing comes any more.
  pub show-lines :
      (fuel : ℕ) (api : Api) (cs : List Command) (stop : Option (List Arrival))
      → All IsNotice cs
      → length cs < fuel
      → api.arrivals ≡ map reply cs ++ stop_arrivals stop
      → show C fuel api ≡ print_all (lines_of cs) (ending_of stop api.commands)
  unfolding zccp_client_sender zccp_client_address print_content
  show-lines zero api cs stop h k e = absurd (omega arith)
  show-lines (suc fuel) api cs stop h k e = elim (next cs h) [
    | none_left foreign empty ↦
        show-turn fuel api _ (recv-none_left api cs stop foreign e)
        ∙ stopped stop
        ∙ ap (λ ls. print_all ls (ending_of stop api.commands)) (sym empty)
    | next_line before s a c rest eq foreign lines shorter hs ↦
        show-turn fuel api _ (
          zccp_client_recv-first C api before s a c (map reply rest ++ stop_arrivals stop) foreign (
            e
            ∙ ap (λ x. map reply x ++ stop_arrivals stop) eq
            ∙ split_arrivals before _ rest (stop_arrivals stop)))
        ∙ ap (after_line (content_line c s a)) (
            show-lines fuel
              (record api {
                sender = some s;
                address = some a;
                content = some c;
                arrivals = map reply rest ++ stop_arrivals stop;
              })
              rest stop hs (omega arith) refl)
        ∙ ap (λ ls. print_all ls (ending_of stop api.commands)) (sym lines)
  ]
    where
      stopped :
          (stop : Option (List Arrival))
          → turn fuel (elim stop [
            | none ↦ waits
            | some rest ↦ returns (none, record api { arrivals = rest })
          ])
            ≡ ending_of stop api.commands
      stopped none = refl
      stopped (some rest) = refl
