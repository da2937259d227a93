-- ===== src/Codec/Wire/Put.antt =====
-- The PUT_* macros, and what each of them adds to a frame.
use zccp.Base.{
  ℕ, ◌/◌, ◌%◌, ◌^◌, ◌≤◌, ◌≡◌, sym, ap, ◌∙◌, List, [], ◌∷◌, ◌++◌, append_assoc, append-nil, Option,
  none, some, leb, le→leb, if◌then◌else◌, length, length-append, drop, length-drop, drop-append,
  arith,
}
use zccp.Czmq.{Str}

-- A frame that is being written: the octets before the needle, and those from the needle on.
pub record Buffer : Type 0 where
  pub written : List ℕ
  pub ahead : List ℕ

-- A piece of code that writes. `none`: it wrote behind the end of the frame.
abbrev pub Writer : Type 0
Writer = Buffer → Option Buffer

infixl 5 ◌>>◌
abbrev pub ◌>>◌ : Writer → Writer → Writer
◌>>◌ p q b = elim (p b) [ none ↦ none | some c ↦ q c ]

abbrev pub nothing : Writer
nothing b = some b

-- PUT_OCTETS, the `memcpy` of the string macros and the assignments of the number macros.
unfoldable pub put_octets : List ℕ → Writer
put_octets bs b =
    if leb (length bs) (length b.ahead)
    then some (record { written = b.written ++ bs; ahead = drop (length bs) b.ahead })
    else none

-- A number is cut down to the octets that are written.
abbrev pub number1 : ℕ → List ℕ
number1 n = n % 256 ∷ []

abbrev pub number2 : ℕ → List ℕ
number2 n = n / 256 % 256 ∷ n % 256 ∷ []

abbrev pub number4 : ℕ → List ℕ
number4 n = n / 2 ^ 24 % 256 ∷ n / 2 ^ 16 % 256 ∷ n / 2 ^ 8 % 256 ∷ n % 256 ∷ []

abbrev pub put_number1 : ℕ → Writer
put_number1 n = put_octets (number1 n)

abbrev pub put_number2 : ℕ → Writer
put_number2 n = put_octets (number2 n)

abbrev pub put_number4 : ℕ → Writer
put_number4 n = put_octets (number4 n)

abbrev pub put_string : Str → Writer
put_string host = do put_number1 (length host); put_octets host

abbrev pub put_longstr : Str → Writer
put_longstr host = do put_number4 (length host); put_octets host

-- The writer adds these octets, wherever there is room for them.
abbrev pub Writes : Writer → List ℕ → Type 0
Writes w bs =
    (b : Buffer)
    → length bs ≤ length b.ahead
    → w b ≡ some (record { written = b.written ++ bs; ahead = drop (length bs) b.ahead })

pub put_octets-Writes : (bs : List ℕ) → Writes (put_octets bs) bs
unfolding put_octets
put_octets-Writes bs b h = rw (le→leb _ _ h)

pub nothing-Writes : Writes nothing []
nothing-Writes b h =
    ap (λ w. some (record { written = w; ahead = b.ahead })) (sym (append-nil b.written))

-- The buffer after some octets.
abbrev advance : List ℕ → Buffer → Buffer
advance bs b = record { written = b.written ++ bs; ahead = drop (length bs) b.ahead }

advance-append : (bs cs : List ℕ) (b : Buffer) → advance cs (advance bs b) ≡ advance (bs ++ cs) b
advance-append bs cs b = ground (arith, append_assoc b.written bs cs, drop-append bs cs b.ahead)

pub then-Writes :
    {p q : Writer} (bs cs : List ℕ) → Writes p bs → Writes q cs → Writes (p >> q) (bs ++ cs)
then-Writes {p} {q} bs cs hp hq b h =
    rw (hp b (omega (arith, length-append bs cs)), ◌>>◌)
      (hq (advance bs b) (omega (arith, length-append bs cs, length-drop (length bs) b.ahead))
        ∙ ap some (advance-append bs cs b))

pub string-Writes : (s : Str) → Writes (put_string s) (number1 (length s) ++ s)
string-Writes s = then-Writes (number1 (length s)) s (put_octets-Writes _) (put_octets-Writes s)

pub longstr-Writes : (s : Str) → Writes (put_longstr s) (number4 (length s) ++ s)
longstr-Writes s = then-Writes (number4 (length s)) s (put_octets-Writes _) (put_octets-Writes s)
