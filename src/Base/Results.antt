-- ===== src/Base/Results.antt =====
-- What a Python function returns or raises.
use Prim.Native.Nat.{ℕ}
use Prim.Native.String.{String}

-- The exceptions that the modelled code raises. `api_error` is `raise_api_error(status, message)`,
-- `integrity_error` what the database raises when a constraint does not hold.
pub data Error : Type 0 where
  value_error key_error type_error integrity_error : String → Error
  api_error : ℕ → String → Error

-- `err` holds what was raised.
pub data Result {ℓ} (X : Type ℓ) : Type ℓ where
  err : (raised : Error) → Result X
  ok : (value : X) → Result X

-- Going on with the value, unless there is an exception.
abbrev pub and_then {ℓ κ} : {X : Type ℓ} {Y : Type κ} → (X → Result Y) → Result X → Result Y
and_then next (err raised) = err raised
and_then next (ok value) = next value
