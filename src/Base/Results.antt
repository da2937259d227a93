-- ===== src/Base/Results.antt =====
-- Outcomes of code that can fail, and code that changes a state.
use mathlib.Core.Option.{Option, none, some}

-- What a piece of the code comes to. `fault`: it read through a NULL or a dangling
-- pointer, or failed an assertion. `stuck` is no outcome of the code: the fuel ran out.
pub data Result {ℓ} (A : Type ℓ) : Type ℓ where
  ok : A → Result A
  fault stuck : Result A

infixl 5 ◌>>=◌
abbrev pub ◌>>=◌ {ℓ κ} : {A : Type ℓ} {B : Type κ} → Result A → (A → Result B) → Result B
ok a >>= f = f a
fault >>= f = fault
stuck >>= f = stuck

abbrev pub or_fault {ℓ} : {A : Type ℓ} → Option A → Result A
or_fault none = fault
or_fault (some a) = ok a

-- Two pieces of code in turn, and the empty one.
infixl 5 ◌>>◌
abbrev pub ◌>>◌ : {S : Type 0} → (S → Result S) → (S → Result S) → S → Result S
◌>>◌ a b s = a s >>= b

abbrev pub skip : {S : Type 0} → S → Result S
skip s = ok s
