-- ===== src/Relay/Policy.antt =====
-- packages/types/src/transfer-policy.ts and services/relayer/src/validation/transferPolicy.ts.
use ancore.Common.{
  ◌*◌, ◌/◌, ◌%◌, ◌^◌, ◌==◌, ℕ, zero, suc, ◌+◌, ◌≤◌, ◌<◌, Bool, true, false, Option, none, some, [],
  ◌∷◌, Text, pos, negsuc, ltb, if◌then◌else◌, get_or, trim, codes, ◌≡◌, refl, ap, arith, ◌⊎◌, ◌↔◌,
}
use ancore.Relay.Types.{
  Number, finite, not_finite, TransferPolicy, TransferRequest, Message, amount_not_positive,
  invalid_daily_total, within_limits, exceeds_daily_limit, exceeds_step_up, RelayError,
  policy_denied,
}

pub data TransferPolicyAction : Type 0 where
  allow step_up block : TransferPolicyAction

pub record TransferPolicyResult : Type 0 where
  pub action : TransferPolicyAction
  pub message : Message

abbrev pub default_asset_code : Text
default_asset_code = codes "XLM"

-- `assetCode.trim() || DEFAULT_POLICY_ASSET_CODE`
unfoldable pub unit_of : Option Text → Text
unit_of asset_code = elim (trim (get_or asset_code default_asset_code)) [
  | [] ↦ default_asset_code
  | c ∷ s ↦ c ∷ s
]

-- The exponent from `e` on under which a number has 53 binary digits at most.
unfoldable exponent : ℕ → ℕ → ℕ → ℕ
exponent zero e n = e
exponent (suc fuel) e n = elim (ltb n (2 ^ 53 * 2 ^ e)) [
  | true ↦ e
  | false ↦ exponent fuel (e + 1) n
]

-- The multiple of a unit that is nearest, and of two such the even one.
unfoldable nearest : ℕ → ℕ → ℕ
nearest u n =
    let q = n / u in
    let r = n % u in
    if ltb (2 * r) u
    then q * u
    else if ltb u (2 * r)
    then (q + 1) * u
    else if q % 2 == 0
    then q * u
    else (q + 1) * u

-- `+` on the doubles of JavaScript: the sum, rounded to 53 binary digits. Finite doubles are below
-- 2 ^ 2098 of the least unit, so that 2100 exponents are enough; a sum that overflows is above any limit.
unfoldable pub double_sum : ℕ → ℕ → ℕ
unfolding exponent nearest
double_sum a b = nearest (2 ^ exponent 2100 0 (a + b)) (a + b)

-- The tests on the limits, for an amount and a total that have passed the first two.
unfoldable pub check_limits : ℕ → ℕ → TransferPolicy → Text → TransferPolicyResult
check_limits amount today policy unit =
    if ltb policy.daily_limit (double_sum today amount)
    then record { action = block; message = exceeds_daily_limit policy.daily_limit unit }
    else if ltb policy.step_up_threshold amount
    then record { action = step_up; message = exceeds_step_up policy.step_up_threshold unit }
    else record { action = allow; message = within_limits }

abbrev bad_amount : TransferPolicyResult
bad_amount = record { action = block; message = amount_not_positive }

abbrev bad_total : TransferPolicyResult
bad_total = record { action = block; message = invalid_daily_total }

unfoldable pub check_total : ℕ → Number → TransferPolicy → Text → TransferPolicyResult
unfolding check_limits
check_total amount not_finite policy unit = bad_total
check_total amount (finite (negsuc n)) policy unit = bad_total
check_total amount (finite (pos today)) policy unit = check_limits amount today policy unit

unfoldable pub validate_transfer_policy :
    Number → Number → TransferPolicy → Option Text → TransferPolicyResult
unfolding check_total
validate_transfer_policy not_finite today policy asset_code = bad_amount
validate_transfer_policy (finite (negsuc n)) today policy asset_code = bad_amount
validate_transfer_policy (finite (pos zero)) today policy asset_code = bad_amount
validate_transfer_policy (finite (pos (suc n))) today policy asset_code =
    check_total (suc n) today policy (unit_of asset_code)

pub record TransferValidationResult : Type 0 where
  pub valid : Bool
  pub error : Option RelayError
  pub requires_step_up : Bool

abbrev denied : Message → RelayError
denied message = record { code = policy_denied; message = message }

abbrev pub valid_transfer : TransferValidationResult
valid_transfer = record { valid = true; error = none; requires_step_up = false }

unfoldable pub apply_action : TransferPolicyResult → Bool → TransferValidationResult
apply_action result confirmed = elim result.action [
  | block ↦ record { valid = false; error = some (denied result.message); requires_step_up = false }
  | step_up ↦
      if confirmed
      then valid_transfer
      else record { valid = false; error = some (denied result.message); requires_step_up = true }
  | allow ↦ valid_transfer
]

unfoldable pub validate_transfer_policy_constraints : TransferRequest → TransferValidationResult
unfolding apply_action validate_transfer_policy
validate_transfer_policy_constraints context =
    apply_action
      (validate_transfer_policy context.amount context.today_total context.policy
        context.asset_code)
      context.step_up_confirmed

-- What the policy is meant to let through: a positive amount, on a total that is not negative, with
-- which the day stays within its limit, and which is confirmed where it is above the threshold.
pub record Permitted (r : TransferRequest) (amount today : ℕ) : Type 0 where
  pub amount_is : r.amount ≡ finite (pos amount)
  pub total_is : r.today_total ≡ finite (pos today)
  pub positive : 0 < amount
  pub within : double_sum today amount ≤ r.policy.daily_limit
  pub confirmed : (amount ≤ r.policy.step_up_threshold) ⊎ (r.step_up_confirmed ≡ true)

Permitted-cases :
    (r : TransferRequest) (amount today : Number)
    → r.amount ≡ amount
    → r.today_total ≡ today
    → (validate_transfer_policy_constraints r).valid ≡ true
    → (a : ℕ) × (t : ℕ) × Permitted r a t
unfolding validate_transfer_policy_constraints
Permitted-cases r not_finite t e f h = absurd (ground arith)
Permitted-cases r (finite (negsuc n)) t e f h = absurd (ground arith)
Permitted-cases r (finite (pos zero)) t e f h = absurd (ground arith)
Permitted-cases r (finite (pos (suc n))) not_finite e f h = absurd (ground arith)
Permitted-cases r (finite (pos (suc n))) (finite (negsuc t)) e f h = absurd (ground arith)
Permitted-cases r (finite (pos (suc n))) (finite (pos t)) e f h = (suc n, t, ground arith)

-- A transfer that the code finds valid is permitted.
pub valid-Permitted :
    (r : TransferRequest)
    → (validate_transfer_policy_constraints r).valid ≡ true
    → (amount : ℕ) × (today : ℕ) × Permitted r amount today
valid-Permitted r h = Permitted-cases r r.amount r.today_total refl refl h

-- A permitted transfer is found valid, and asks for no further confirmation.
pub Permitted-valid :
    (r : TransferRequest) (amount today : ℕ)
    → Permitted r amount today
    → validate_transfer_policy_constraints r ≡ valid_transfer
unfolding validate_transfer_policy_constraints
Permitted-valid r amount today p = ground arith

-- A transfer is found valid exactly if its amount and the total of today are permitted, where the two
-- are added as doubles.
pub valid-Permitted_iff :
    (r : TransferRequest)
    → ((validate_transfer_policy_constraints r).valid ≡ true)
      ↔ ((amount : ℕ) × (today : ℕ) × Permitted r amount today)
valid-Permitted_iff r = (valid-Permitted r, λ p. ap (λ x. x.valid) (Permitted-valid r p.0 p.1 p.2))

apply_action-step_up :
    (result : TransferPolicyResult) (confirmed : Bool)
    → ((apply_action result confirmed).requires_step_up ≡ true) ↔ (
        ((apply_action result confirmed).valid ≡ false) × ((apply_action result true).valid ≡ true))
unfolding apply_action
apply_action-step_up result confirmed = ground arith

-- A transfer is asked to be confirmed exactly where it is refused and the same transfer, confirmed,
-- is valid.
pub step_up_iff :
    (r : TransferRequest)
    → ((validate_transfer_policy_constraints r).requires_step_up ≡ true) ↔ (
        ((validate_transfer_policy_constraints r).valid ≡ false)
        × ((validate_transfer_policy_constraints (record r { step_up_confirmed = true })).valid
            ≡ true))
unfolding validate_transfer_policy_constraints
step_up_iff r =
    apply_action-step_up (validate_transfer_policy r.amount r.today_total r.policy r.asset_code)
      r.step_up_confirmed
