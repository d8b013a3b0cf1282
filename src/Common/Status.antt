-- ===== src/Common/Status.antt =====
-- NTSTATUS values that the modelled code returns, and results that carry one.
use mathlib.Core.Path.{◌≡◌, refl}
use mathlib.Core.Bool.{Bool, true, false}
use mathlib.Core.Logic.{◌⊎◌, inl, inr}

-- The failures, under the names of their STATUS_ constants.
pub data Status : Type 0 where
  invalid_parameter invalid_device_state buffer_too_small : Status
  invalid_network_response more_processing_required : Status
  integer_overflow insufficient_resources not_supported : Status

-- A call that returns STATUS_SUCCESS with its out parameters, or a failure.
pub data Result {ℓ} (A : Type ℓ) : Type ℓ where
  ok : A → Result A
  err : Status → Result A

-- What a `do` block strings together: a call that fails ends the block with its status.
infixl 5 ◌>>=◌ ◌>>◌
abbrev pub ◌>>=◌ {ℓ ℓ'} : {In : Type ℓ} {Out : Type ℓ'} → Result In → (In → Result Out) → Result Out
ok found >>= next = next found
err status >>= next = err status

abbrev pub ◌>>◌ {ℓ} : {Out : Type ℓ} → Result (Unit {0}) → Result Out → Result Out
test >> next = test >>= λ _. next

-- `if (!test) return status;`
abbrev pub require : Bool → Status → Result (Unit {0})
require true e = ok tt
require false e = err e

-- `if (test) return status;`
abbrev pub refuse : Bool → Status → Result (Unit {0})
refuse true e = err e
refuse false e = ok tt

pub Result-cases {ℓ} :
    {A : Type ℓ} (r : Result A) → ((a : A) × (r ≡ ok a)) ⊎ ((e : Status) × (r ≡ err e))
Result-cases (ok a) = inl (a, refl)
Result-cases (err e) = inr (e, refl)

pub bind-eq-ok {ℓ ℓ'} :
    {In : Type ℓ} {Out : Type ℓ'} (call : Result In) (next : In → Result Out) {out : Out}
    → (call >>= next) ≡ ok out
    → (found : In) × (call ≡ ok found) × (next found ≡ ok out)
bind-eq-ok (ok found) next e = (found, refl, e)
bind-eq-ok (err status) next e = cc
