-- ===== src/Czmq.antt =====
-- What the code relies on of CZMQ, whose sources are not in the repository: hash tables (zhash),
-- new frames (zframe), formatted text (zsys_vprintf), numbers in text
-- (atoi), sockets (zsock_connect), regular expressions (zrex).
-- A multipart message (zmsg) is the list of its frames, a frame the list of its octets, and a list
-- (zlist) the list of its items. A C string is the list of its characters, without the final 0.
pub mod Simple
use Prim.Native.Char.{code as char_code}
use Prim.Native.String.{String}
use zccp.Base.{
  ℤ, ℕ, ◌≢◌, ◌≡◌, Bool, List, [], ◌∷◌, Option, none, some, length, All, streq, if◌then◌else◌,
}

abbrev pub Str : Type 0
Str = List ℕ

-- A string constant of the source.
abbrev pub codes : String → Str
codes String.[] = []
codes (String.◌∷◌ c s) = char_code c ∷ codes s

abbrev pub Frame : Type 0
Frame = List ℕ

-- The first item with the key, in a traversal.
unfoldable pub find_item : Str → List (Str × Str) → Option Str
find_item k [] = none
find_item k ((j, v) ∷ items) = if streq j k then some v else find_item k items

-- The value that stays when an item is inserted: the old one, if there is one.
abbrev pub keep_old : Option Str → Str → Option Str
keep_old none v = some v
keep_old (some old) v = some old

-- A table of headers. `zhash_items` is what `zhash_first` and `zhash_next` visit, in their order,
-- of which nothing is assumed: every item is visited once, under `zhash_cursor` as its key.
pub record Czmq : Type 1 where
  pub Hash : Type 0
  pub zhash_new : Hash
  pub zhash_insert : Hash → Str → Str → Hash
  pub zhash_update : Hash → Str → Str → Hash
  pub zhash_lookup : Hash → Str → Option Str
  pub zhash_size : Hash → ℕ
  pub zhash_dup : Hash → Hash
  pub zhash_items : Hash → List (Str × Str)
  pub lookup-new : (k : Str) → zhash_lookup zhash_new k ≡ none
  pub lookup-insert :
      (t : Hash) (k v j : Str)
      → zhash_lookup (zhash_insert t k v) j
        ≡ (if streq k j then keep_old (zhash_lookup t k) v else zhash_lookup t j)
  pub lookup-update :
      (t : Hash) (k v j : Str)
      → zhash_lookup (zhash_update t k v) j ≡ (if streq k j then some v else zhash_lookup t j)
  pub lookup-dup : (t : Hash) (k : Str) → zhash_lookup (zhash_dup t) k ≡ zhash_lookup t k
  pub lookup-items : (t : Hash) (k : Str) → zhash_lookup t k ≡ find_item k (zhash_items t)
  pub size-items : (t : Hash) → zhash_size t ≡ length (zhash_items t)
  -- A new frame has the size that is asked for; what it holds is not known.
  pub zframe_new : ℕ → Frame
  pub length-zframe_new : (n : ℕ) → length (zframe_new n) ≡ n
  -- The printed form of a frame's octets, which tells frames apart.
  pub zframe_strhex : Frame → Str
  pub strhex_injective : (f g : Frame) → zframe_strhex f ≡ zframe_strhex g → f ≡ g
  -- A format with no arguments behind it. Text without `%` is printed as it stands.
  pub zsys_vprintf : Str → Str
  pub vprintf_plain : (s : Str) → All (λ c. c ≢ b'%') s → zsys_vprintf s ≡ s
  -- Is the endpoint one that a socket can be connected to? zsock_connect returns 0 for it.
  pub zsock_connect : Str → Bool
  -- A number as a frame of a picture message, and back.
  pub print_int : ℤ → Str
  pub atoi : Str → ℤ
  pub atoi-print_int : (n : ℤ) → atoi (print_int n) ≡ n
  -- atol of the C library.
  pub atol : Str → ℤ
  -- Does the text match the regular expression?
  pub zrex_matches : Str → Str → Bool
  -- The lines that a multipart message is dumped in.
  pub zmsg_print : List Frame → List Str
