-- ===== src/Codec/Print/RoundTrip.antt =====
-- What zccp_msg_print writes is read back to the message's kind, its strings and its headers' lines.
use zccp.Base.{
  ℕ, ◌≡◌, refl, ap, Bool, true, false, List, [], ◌∷◌, ◌++◌, Option, none, some, append-nil, subst,
  arith,
}
use zccp.Czmq.{Str, codes, Frame, Czmq}
use zccp.Codec.{
  Kind, hello, hello_ok, subscribe, subscribe_ok, publish, direct, deliver, goodbye, goodbye_ok,
  ping, ping_ok, invalid, kind_of, ZccpMsg,
}
use zccp.Codec.Print.{
  text_line, item_lines, headers_lines, content_lines, print_lines, print_case, zccp_msg_print,
}
use zccp.Codec.Print.Read.{
  ◌>>=◌, behind, but_last, read_value, read_text, read_items, read_headers, layout, read_rest,
  read_print,
}

behind-append : (p : Str) (c : ℕ) (s : Str) → behind (p ++ c ∷ []) (p ++ c ∷ s) ≡ some s
behind-append [] c s = ground arith
behind-append (b ∷ p) c s = ground (arith, behind-append p c s)

but_last-append : (s : Str) (c : ℕ) → but_last (s ++ c ∷ []) ≡ s
but_last-append [] c = refl
but_last-append (a ∷ []) c = refl
but_last-append (a ∷ b ∷ s) c = ap (◌∷◌ a) (but_last-append (b ∷ s) c)

read_value-quoted : (s : Str) → read_value (b'\'' ∷ (s ++ b'\'' ∷ [])) ≡ some s
read_value-quoted s = ap some (but_last-append s b'\'')

pub read_text-line : (name : Str) (v : Option Str) → read_text name (text_line name v) ≡ some v
unfolding text_line
read_text-line name none = rw (read_text, behind-append name b'=' [])
read_text-line name (some s) =
    rw (read_text, behind-append name b'=' (b'\'' ∷ (s ++ b'\'' ∷ [])))
      (ap some (read_value-quoted s))

read_items-lines :
    (items : List (Str × Str)) (rest : List Str)
    → read_items rest ≡ []
    → read_items (item_lines items ++ rest) ≡ item_lines items
unfolding item_lines
read_items-lines [] rest h = h
read_items-lines ((key, item) ∷ items) rest h =
    ap (◌∷◌ (codes "        " ++ (key ++ (codes "=" ++ item)))) (read_items-lines items rest h)

-- The lines that can stand behind the headers.
abbrev IsTail : List Str → Type 0
IsTail lines = (read_items lines ≡ []) × (read_headers lines ≡ some [])

read_headers-items :
    (items : List (Str × Str)) (lines : List Str)
    → IsTail lines
    → read_headers (item_lines items ++ lines) ≡ some (item_lines items)
unfolding item_lines
read_headers-items [] lines h = h.1
read_headers-items ((key, item) ∷ items) lines h =
    ap (λ x. some ((codes "        " ++ (key ++ (codes "=" ++ item))) ∷ x))
      (read_items-lines items lines h.0)

module _ (C : Czmq) where
  open C use {Hash, zhash_items, zmsg_print}

  abbrev pub texts_of : Kind → ZccpMsg Hash → List (Option Str)
  texts_of hello m = m.identifier ∷ []
  texts_of subscribe m = m.expression ∷ []
  texts_of publish m = m.address ∷ []
  texts_of direct m = m.address ∷ []
  texts_of deliver m = m.sender ∷ m.address ∷ []
  texts_of _ m = []

  abbrev pub headers_in : Bool → Option Hash → Option (List Str)
  headers_in false headers = none
  headers_in true none = none
  headers_in true (some headers) = some (item_lines (zhash_items headers))

  read_rest-lines :
      (headers : Option Hash) (lines : List Str)
      → IsTail lines
      → read_rest true (headers_lines C headers ++ lines) ≡ some (headers_in true headers)
  unfolding headers_lines
  read_rest-lines none lines h = refl
  read_rest-lines (some headers) lines h =
      ap some (read_headers-items (zhash_items headers) lines h)

  content-IsTail : (content : Option (List Frame)) → IsTail (content_lines C content)
  unfolding content_lines
  content-IsTail none = (refl, refl)
  content-IsTail (some content) = (refl, refl)

  read_headers-last :
      (headers : Option Hash)
      → read_rest true (headers_lines C headers) ≡ some (headers_in true headers)
  read_headers-last headers =
      subst (λ lines. read_rest true lines ≡ some (headers_in true headers))
        (append-nil (headers_lines C headers)) (read_rest-lines headers [] (refl, refl))

  read_headers-content :
      (headers : Option Hash) (content : Option (List Frame))
      → read_rest true (headers_lines C headers ++ content_lines C content)
        ≡ some (headers_in true headers)
  read_headers-content headers content =
      read_rest-lines headers (content_lines C content) (content-IsTail content)

  -- Reading what was printed of a message with a kind's number gives the kind, every string field
  -- of the kind, with NULL told from the empty string, and whether there is a table of headers, with
  -- the lines of its items.
  pub read_print-print :
      (k : Kind) (m : ZccpMsg Hash)
      → kind_of m.id ≡ some k
      → read_print (zccp_msg_print C m)
        ≡ some
            (record { kind = k; texts = texts_of k m; headers = headers_in (layout k).1 m.headers })
  unfolding zccp_msg_print print_case print_lines
  read_print-print k m e = rw e (cases k)
    where
      cases :
          (k : Kind)
          → read_print (print_lines C k m)
            ≡ some (record {
              kind = k;
              texts = texts_of k m;
              headers = headers_in (layout k).1 m.headers;
            })
      cases hello =
          rw
            (
              read_text-line (codes "    identifier") m.identifier,
              ◌>>=◌,
              read_headers-last m.headers,
            )
            refl
      cases hello_ok = rw (read_headers-last m.headers, ◌>>=◌) refl
      cases subscribe =
          rw
            (
              read_text-line (codes "    expression") m.expression,
              ◌>>=◌,
              read_headers-last m.headers,
            )
            refl
      cases publish =
          rw
            (
              read_text-line (codes "    address") m.address,
              ◌>>=◌,
              read_headers-content m.headers m.content,
            )
            refl
      cases direct =
          rw
            (
              read_text-line (codes "    address") m.address,
              ◌>>=◌,
              read_headers-content m.headers m.content,
            )
            refl
      cases deliver =
          rw
            (
              read_text-line (codes "    sender") m.sender,
              read_text-line (codes "    address") m.address,
              ◌>>=◌,
              read_headers-content m.headers m.content,
            )
            refl
      cases goodbye_ok = rw (read_headers-last m.headers, ◌>>=◌) refl
      cases subscribe_ok = refl
      cases goodbye = refl
      cases ping = refl
      cases ping_ok = refl
      cases invalid = refl
