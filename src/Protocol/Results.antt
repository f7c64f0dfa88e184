-- ===== src/Protocol/Results.antt =====
-- What the functions of tools/protocol/src return or throw.
use Prim.Native.String.{String}

-- The errors, without their wording. `out_of_fuel` belongs to the model only.
pub data Error : Type 0 where
  file_not_found : String → Error
  parse_failed : String → Error
  already_defined : String → Error
  unknown_type : String → String → Error
  undefined_type : String → Error
  out_of_fuel : Error

pub data Result {ℓ} (A : Type ℓ) : Type ℓ where
  ok : A → Result A
  err : Error → Result A

infixl 5 ◌>>=◌
abbrev pub ◌>>=◌ {ℓ κ} : {A : Type ℓ} {B : Type κ} → Result A → (A → Result B) → Result B
ok a >>= f = f a
err e >>= f = err e

-- Both outcomes of a call: a value of which `P` holds, or an error of which `Q` holds.
abbrev pub Ends {ℓ} : {A : Type ℓ} → (A → Type 0) → (Error → Type 0) → Result A → Type 0
Ends P Q (ok a) = P a
Ends P Q (err e) = Q e
