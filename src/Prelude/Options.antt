-- ===== src/Prelude/Options.antt =====
-- `do` blocks over `Option`: a match that fails ends the block.
use mathlib.Core.Option.{Option, none, some}
use mathlib.Core.Bool.{Bool, true, false}

infixl 5 ◌>>=◌ ◌>>◌
abbrev pub ◌>>=◌ {ℓ κ} : {A : Type ℓ} {B : Type κ} → Option A → (A → Option B) → Option B
none >>= f = none
some a >>= f = f a

abbrev pub ◌>>◌ {ℓ} : {B : Type ℓ} → Option (Unit {0}) → Option B → Option B
m >> k = m >>= λ _. k

-- The block goes on only if the test holds.
abbrev pub guard : Bool → Option (Unit {0})
guard true = some tt
guard false = none
