-- ===== src/Disk/Run.antt =====
-- The outcome of a call of the C code.
-- `err` is its -1 or false. `fault` stands for what C leaves undefined, a division by zero or an
-- access outside an array. `out_of_fuel` is a loop that had not ended when the rounds given to it
-- were used up.
pub data Outcome {ℓ} (A : Type ℓ) : Type ℓ where
  ok : A → Outcome A
  err : Outcome A
  fault : Outcome A
  out_of_fuel : Outcome A
