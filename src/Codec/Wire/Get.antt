-- ===== src/Codec/Wire/Get.antt =====
-- The GET_* macros, on the octets from the needle to the ceiling.
use zccp.Base.{
  ℕ, ◌+◌, ◌*◌, ◌^◌, ◌<◌, ◌≢◌, ◌≡◌, refl, ap, List, [], ◌∷◌, ◌++◌, append_assoc, Option, none, some,
  leb, le→leb, ◌==◌, if◌then◌else◌, length, All, take, drop, length-append, arith,
}
use zccp.Czmq.{Str}
use zccp.Codec.Wire.Put.{number1, number2, number4}

-- `none` is the jump to `malformed`.
abbrev pub Reader : Type 0 → Type 0
Reader A = List ℕ → Option (A × List ℕ)

infixl 5 ◌>>=◌
abbrev pub ◌>>=◌ : {A B : Type 0} → Reader A → (A → Reader B) → Reader B
◌>>=◌ m f bs = elim (m bs) [ none ↦ none | some (a, rest) ↦ f a rest ]

abbrev pub got : {A : Type 0} → A → Reader A
got a bs = some (a, bs)

unfoldable pub get_number1 : Reader ℕ
get_number1 (a ∷ bs) = some (a, bs)
get_number1 _ = none

unfoldable pub get_number2 : Reader ℕ
get_number2 (a ∷ b ∷ bs) = some (a * 2 ^ 8 + b, bs)
get_number2 _ = none

unfoldable pub get_number4 : Reader ℕ
get_number4 (a ∷ b ∷ c ∷ d ∷ bs) = some (a * 2 ^ 24 + b * 2 ^ 16 + c * 2 ^ 8 + d, bs)
get_number4 _ = none

-- The C string in a block of octets ends at its first 0.
abbrev pub c_string : List ℕ → Str
c_string [] = []
c_string (c ∷ s) = if c == 0 then [] else c ∷ c_string s

-- The block of `string_size` octets of GET_STRING and GET_LONGSTR, copied and ended by a 0.
unfoldable pub get_octets : ℕ → Reader Str
get_octets size bs =
    if leb size (length bs) then some (c_string (take size bs), drop size bs) else none

unfoldable pub get_string : Reader Str
get_string = do size ← get_number1; get_octets size

unfoldable pub get_longstr : Reader Str
get_longstr = do size ← get_number4; get_octets size

-- Reading back what was written, whatever follows.
get-number1 : (n : ℕ) (rest : List ℕ) → n < 256 → get_number1 (number1 n ++ rest) ≡ some (n, rest)
unfolding get_number1
get-number1 n rest h = ground arith

get-number2 :
    (n : ℕ) (rest : List ℕ) → n < 2 ^ 16 → get_number2 (number2 n ++ rest) ≡ some (n, rest)
unfolding get_number2
get-number2 n rest h = ground arith

get-number4 :
    (n : ℕ) (rest : List ℕ) → n < 2 ^ 32 → get_number4 (number4 n ++ rest) ≡ some (n, rest)
unfolding get_number4
get-number4 n rest h = ground arith

-- A string that C can hold.
abbrev pub IsText : Str → Type 0
IsText s = All (λ c. c ≢ 0) s

pub c_string_self : (s : Str) → IsText s → c_string s ≡ s
c_string_self [] h = refl
c_string_self (c ∷ s) h = ground (arith, c_string_self s)

pub take-append : (s rest : List ℕ) → take (length s) (s ++ rest) ≡ s
take-append [] rest = refl
take-append (x ∷ s) rest = ap (◌∷◌ x) (take-append s rest)

pub drop-append_self : (s rest : List ℕ) → drop (length s) (s ++ rest) ≡ rest
drop-append_self [] rest = refl
drop-append_self (x ∷ s) rest = drop-append_self s rest

get-octets : (s rest : List ℕ) → IsText s → get_octets (length s) (s ++ rest) ≡ some (s, rest)
unfolding get_octets
get-octets s rest h =
    rw (le→leb (length s) (length (s ++ rest)) (omega (arith, length-append s rest)))
      (rw (take-append s rest, drop-append_self s rest, c_string_self s h))

-- The reader takes these octets off and yields the value, whatever follows them.
pub record Reads {A : Type 0} (m : Reader A) (bs : List ℕ) (a : A) : Type 0 where
  pub reads : (rest : List ℕ) → m (bs ++ rest) ≡ some (a, rest)

pub bind-Reads :
    {A B : Type 0} (m : Reader A) (f : A → Reader B) (bs cs : List ℕ) {a : A} {b : B}
    → Reads m bs a
    → Reads (f a) cs b
    → Reads (λ x. (m >>= f) x) (bs ++ cs) b
bind-Reads m f bs cs {a} {b} hm hf = record { reads = both }
  where
    both : (rest : List ℕ) → (m >>= f) ((bs ++ cs) ++ rest) ≡ some (b, rest)
    both rest = rw (append_assoc bs cs rest, hm.reads (cs ++ rest), ◌>>=◌) (hf.reads rest)

-- The last read of a block, whose value goes into the result.
pub last-Reads :
    {A B : Type 0} (m : Reader A) (g : A → B) (bs : List ℕ) {a : A}
    → Reads m bs a
    → Reads (m >>= λ x. got (g x)) bs (g a)
last-Reads m g bs hm = record { reads = λ rest. rw (hm.reads rest, ◌>>=◌) }

pub number1-Reads : (n : ℕ) → n < 256 → Reads get_number1 (number1 n) n
number1-Reads n h = record { reads = λ rest. get-number1 n rest h }

pub number2-Reads : (n : ℕ) → n < 2 ^ 16 → Reads get_number2 (number2 n) n
number2-Reads n h = record { reads = λ rest. get-number2 n rest h }

pub number4-Reads : (n : ℕ) → n < 2 ^ 32 → Reads get_number4 (number4 n) n
number4-Reads n h = record { reads = λ rest. get-number4 n rest h }

octets-Reads : (s : Str) → IsText s → Reads (get_octets (length s)) s s
octets-Reads s h = record { reads = λ rest. get-octets s rest h }

pub string-Reads :
    (s : Str) → IsText s → length s < 256 → Reads get_string (number1 (length s) ++ s) s
unfolding get_string
string-Reads s h k =
    bind-Reads get_number1 get_octets (number1 (length s)) s (number1-Reads (length s) k)
      (octets-Reads s h)

pub longstr-Reads :
    (s : Str) → IsText s → length s < 2 ^ 32 → Reads get_longstr (number4 (length s) ++ s) s
unfolding get_longstr
longstr-Reads s h k =
    bind-Reads get_number4 get_octets (number4 (length s)) s (number4-Reads (length s) k)
      (octets-Reads s h)
