-- ===== src/Prelude/Endings.antt =====
-- How a run of a program ends.
use Prim.Native.Nat.{ℕ}

-- A run ends by a result, by `exit`, or by an access through NULL or to a block that was freed.
pub data Outcome {ℓ} (A : Type ℓ) : Type ℓ where
  done : A → Outcome A
  exits : ℕ → Outcome A
  fault : Outcome A

infixl 5 ◌>>=◌
abbrev pub ◌>>=◌ {ℓ κ} : {A : Type ℓ} {B : Type κ} → Outcome A → (A → Outcome B) → Outcome B
done a >>= f = f a
exits n >>= f = exits n
fault >>= f = fault
