-- ===== src/Models/Enums.antt =====
-- The enums of src/models/, their equality and their wire values.
use flyrank_capstone_meterin.Prelude.{
  String, ◌≡◌, refl, ◌↔◌, Bool, true, false, Option, none, some, arith, str_eq, if◌then◌else◌,
}

pub data UsageType : Type 0 where
  api_call input_tokens cached_input_tokens output_tokens reasoning_tokens : UsageType

pub data PlanTier : Type 0 where
  free pro : PlanTier

pub data SubscriptionStatus : Type 0 where
  active past_due canceled incomplete trialing : SubscriptionStatus

unfoldable pub same_type : UsageType → UsageType → Bool
same_type api_call api_call = true
same_type input_tokens input_tokens = true
same_type cached_input_tokens cached_input_tokens = true
same_type output_tokens output_tokens = true
same_type reasoning_tokens reasoning_tokens = true
same_type _ _ = false

unfoldable pub same_status : SubscriptionStatus → SubscriptionStatus → Bool
same_status active active = true
same_status past_due past_due = true
same_status canceled canceled = true
same_status incomplete incomplete = true
same_status trialing trialing = true
same_status _ _ = false

unfoldable pub same_tier : PlanTier → PlanTier → Bool
same_tier free free = true
same_tier pro pro = true
same_tier _ _ = false

-- `usage_type.value`
unfoldable pub type_value : UsageType → String
type_value api_call = "api_call"
type_value input_tokens = "input_tokens"
type_value cached_input_tokens = "cached_input_tokens"
type_value output_tokens = "output_tokens"
type_value reasoning_tokens = "reasoning_tokens"

-- `UsageType(value)`, which raises ValueError for any other text.
unfoldable pub type_of_value : String → Option UsageType
type_of_value v =
    if str_eq v "api_call"
    then some api_call
    else if str_eq v "input_tokens"
    then some input_tokens
    else if str_eq v "cached_input_tokens"
    then some cached_input_tokens
    else if str_eq v "output_tokens"
    then some output_tokens
    else if str_eq v "reasoning_tokens"
    then some reasoning_tokens
    else none

-- `SubscriptionStatus(value)`, which raises ValueError for any other text.
unfoldable pub status_of_value : String → Option SubscriptionStatus
status_of_value v =
    if str_eq v "active"
    then some active
    else if str_eq v "past_due"
    then some past_due
    else if str_eq v "canceled"
    then some canceled
    else if str_eq v "incomplete"
    then some incomplete
    else if str_eq v "trialing"
    then some trialing
    else none

-- `plan_id.value`
unfoldable pub tier_value : PlanTier → String
tier_value free = "FREE"
tier_value pro = "PRO"

-- The text of a usage type is read back as that type.
pub type_of_value-type_value : (t : UsageType) → type_of_value (type_value t) ≡ some t
unfolding type_of_value type_value
type_of_value-type_value api_call = refl
type_of_value-type_value _ = refl

pub same_type_iff : (a b : UsageType) → (same_type a b ≡ true) ↔ (a ≡ b)
unfolding same_type
same_type_iff a b = (λ h. ground arith, λ h. ground arith)

pub same_tier_iff : (a b : PlanTier) → (same_tier a b ≡ true) ↔ (a ≡ b)
unfolding same_tier
same_tier_iff a b = (λ h. ground arith, λ h. ground arith)
