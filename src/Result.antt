-- ===== src/Result.antt =====
-- The errors of errors.go that the model returns, and results.
use garland.Base.{◌≡◌}

-- `panic` is a nil dereference, and `out_of_fuel` is the model's own.
pub data Error : Type 0 where
  invalid_position not_a_leaf cold_storage_failure invalid_decoration_key : Error
  fork_not_found revision_not_found internal : Error
  transaction_pending no_transaction transaction_poisoned : Error
  panic out_of_fuel : Error

pub data Result {ℓ} (A : Type ℓ) : Type ℓ where
  ok : A → Result A
  err : Error → Result A

infixl 5 ◌>>=◌
abbrev pub ◌>>=◌ {ℓ κ} : {A : Type ℓ} {B : Type κ} → Result A → (A → Result B) → Result B
ok a >>= f = f a
err e >>= f = err e

pub ok_inj {ℓ} : {A : Type ℓ} {a b : A} → ok a ≡ ok b → a ≡ b
ok_inj h = cc
