-- ===== src/Czmq/Simple.antt =====
-- A CZMQ that meets what Czmq.antt asks for: tables are lists of items, a new frame holds sevens, a
-- frame prints as its octets, a format as itself, and an expression matches the texts that begin
-- with it. The examples run on it.
use zccp.Base.{
  ℤ, pos, negsuc, ◌≡◌, refl, Bool, true, false, ◌&&◌, ◌==◌, List, [], ◌∷◌, none, some,
  if◌then◌else◌, streq, streq_iff, length, length-replicate, replicate, arith,
}
use zccp.Czmq.{Czmq, Str, find_item, keep_old}

abbrev insert : List (Str × Str) → Str → Str → List (Str × Str)
insert [] k v = (k, v) ∷ []
insert ((j, w) ∷ t) k v = if streq j k then (j, w) ∷ t else (j, w) ∷ insert t k v

abbrev update : List (Str × Str) → Str → Str → List (Str × Str)
update [] k v = (k, v) ∷ []
update ((j, w) ∷ t) k v = if streq j k then (j, v) ∷ t else (j, w) ∷ update t k v

abbrev starts_with : Str → Str → Bool
starts_with [] text = true
starts_with (c ∷ s) [] = false
starts_with (c ∷ s) (d ∷ text) = (c == d) && starts_with s text

pub find_item-insert :
    (t : List (Str × Str)) (k v j : Str)
    → find_item j (insert t k v) ≡ (if streq k j then keep_old (find_item k t) v else find_item j t)
unfolding find_item
find_item-insert [] k v j = ground arith
find_item-insert ((i, w) ∷ t) k v j =
    ground (arith, streq_iff i k, streq_iff i j, streq_iff k j, find_item-insert t k v j)

pub find_item-update :
    (t : List (Str × Str)) (k v j : Str)
    → find_item j (update t k v) ≡ (if streq k j then some v else find_item j t)
unfolding find_item
find_item-update [] k v j = ground arith
find_item-update ((i, w) ∷ t) k v j =
    ground (arith, streq_iff i k, streq_iff i j, streq_iff k j, find_item-update t k v j)

pub find_item-nil : (k : Str) → find_item k [] ≡ none
unfolding find_item
find_item-nil k = refl

abbrev pub print_int : ℤ → Str
print_int (pos n) = n ∷ []
print_int (negsuc n) = b'-' ∷ n ∷ []

abbrev pub atoi : Str → ℤ
atoi [] = pos 0
atoi (n ∷ []) = pos n
atoi (m ∷ n ∷ s) = negsuc n

pub atoi-print_int : (n : ℤ) → atoi (print_int n) ≡ n
atoi-print_int (pos n) = refl
atoi-print_int (negsuc n) = refl

abbrev pub simple : Czmq
simple = record {
  Hash = List (Str × Str);
  zhash_new = [];
  zhash_insert = insert;
  zhash_update = update;
  zhash_lookup = λ t k. find_item k t;
  zhash_size = λ t. length t;
  zhash_dup = λ t. t;
  zhash_items = λ t. t;
  lookup-new = find_item-nil;
  lookup-insert = find_item-insert;
  lookup-update = find_item-update;
  lookup-dup = λ t k. refl;
  lookup-items = λ t k. refl;
  size-items = λ t. refl;
  zframe_new = λ n. replicate n 7;
  length-zframe_new = λ n. length-replicate n 7;
  zframe_strhex = λ f. f;
  strhex_injective = λ f g e. e;
  zsys_vprintf = λ s. s;
  vprintf_plain = λ s h. refl;
  zsock_connect = λ endpoint. true;
  print_int = print_int;
  atoi = atoi;
  atoi-print_int = atoi-print_int;
  atol = atoi;
  zrex_matches = starts_with;
  zmsg_print = λ msg. msg;
}
