-- ===== src/Server/Publish.antt =====
-- Who gets a published message, how often, and what becomes of the broker's state.
use zccp.Base.{
  ◌≡◌, refl, sym, ap, ◌∙◌, inl, inr, List, [], ◌∷◌, ◌++◌, map, append_assoc, Option, none, some,
  ◌==◌, if◌then◌else◌, arith, Bool-cases,
}
use zccp.Czmq.{Str, Frame, Czmq}
use zccp.Server.{Pattern, Ptr, Client, Server, update}
use zccp.Server.Invariant.{Memory}
use zccp.Server.Forward.{served}
use mathlib.Core.Path.{fun_ext}
use mathlib.Core.List.{map-append}
use mathlib.Core.Option

-- The pointers of a list but one.
unfoldable pub others : Ptr → List Ptr → List Ptr
others self [] = []
others self (q ∷ qs) = if q == self then others self qs else q ∷ others self qs

module _ (C : Czmq) where
  open C use {Hash, zrex_matches}

  -- The subscribers of the patterns that match the address, the publisher left out. A client
  -- stands there once for each of its patterns that match.
  unfoldable pub recipients : Ptr → Str → List Pattern → List Ptr
  recipients self address [] = []
  recipients self address (x ∷ xs) =
      if zrex_matches x.expression address
      then others self x.clients ++ recipients self address xs
      else recipients self address xs

  -- The memory after one client was served, and after a list of clients was.
  unfoldable pub serve : Ptr → Memory C → Memory C
  serve q m = update m q (Option.map (served C) (m q))

  unfoldable pub serve_all : List Ptr → Memory C → Memory C
  serve_all [] m = m
  serve_all (q ∷ qs) m = serve_all qs (serve q m)

  unfoldable pub routing_id? : Option (Client Hash) → Frame
  routing_id? none = []
  routing_id? (some c) = c.routing_id

  unfoldable pub routing_of : Memory C → Ptr → Frame
  unfolding routing_id?
  routing_of m q = routing_id? (m q)

  -- The messages to the clients of a list, in order.
  unfoldable pub deliveries : List Frame → Memory C → List Ptr → List (List Frame)
  deliveries frames m qs = map (λ q. routing_of m q ∷ frames) qs

  routing_id?-served :
      (x : Option (Client Hash)) → routing_id? (Option.map (served C) x) ≡ routing_id? x
  unfolding routing_id?
  routing_id?-served none = refl
  routing_id?-served (some c) = refl

  pub routing_of-serve : (m : Memory C) (q : Ptr) → routing_of (serve q m) ≡ routing_of m
  unfolding routing_of serve
  routing_of-serve m q = fun_ext (λ r. elim (Bool-cases (q == r)) [
    | inl same ↦ rw same (routing_id?-served (m q) ∙ ap (λ x. routing_id? (m x)) (ground arith))
    | inr other ↦ rw other
  ])

  routing_of-serve_all : (qs : List Ptr) (m : Memory C) → routing_of (serve_all qs m) ≡ routing_of m
  unfolding serve_all
  routing_of-serve_all [] m = refl
  routing_of-serve_all (q ∷ qs) m = routing_of-serve_all qs (serve q m) ∙ routing_of-serve m q

  pub serve_all-append :
      (qs rs : List Ptr) (m : Memory C) → serve_all rs (serve_all qs m) ≡ serve_all (qs ++ rs) m
  unfolding serve_all
  serve_all-append [] rs m = refl
  serve_all-append (q ∷ qs) rs m = serve_all-append qs rs (serve q m)

  pub deliveries-append :
      (frames : List Frame) (m : Memory C) (qs rs : List Ptr)
      → deliveries frames m qs ++ deliveries frames (serve_all qs m) rs
        ≡ deliveries frames m (qs ++ rs)
  unfolding deliveries
  deliveries-append frames m qs rs =
      ap (λ f. map (λ q. routing_of m q ∷ frames) qs ++ map (λ q. f q ∷ frames) rs)
        (routing_of-serve_all qs m)
      ∙ sym (map-append (λ q. routing_of m q ∷ frames) qs rs)

  abbrev pub forwarded : List Frame → List Ptr → Server Hash → Server Hash
  forwarded frames qs s = record s {
    memory = serve_all qs s.memory;
    sent = s.sent ++ deliveries frames s.memory qs;
  }

  pub forwarded-append :
      (frames : List Frame) (qs rs : List Ptr) (s : Server Hash)
      → forwarded frames rs (forwarded frames qs s) ≡ forwarded frames (qs ++ rs) s
  forwarded-append frames qs rs s = λ i. record s {
    memory = serve_all-append qs rs s.memory i;
    sent =
        (append_assoc s.sent (deliveries frames s.memory qs)
              (deliveries frames (serve_all qs s.memory) rs)
            ∙ ap (λ x. s.sent ++ x) (deliveries-append frames s.memory qs rs))
          i;
  }
