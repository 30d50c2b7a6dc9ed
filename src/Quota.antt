-- ===== src/Quota.antt =====
-- src/services/quota_service.py: the quota check of one usage type, and the overview of all.
pub mod Laws
pub mod Orders
pub mod Overview
use flyrank_capstone_meterin.Prelude.{
  ℕ, ◌+◌, ◌-◌, String, Bool, true, false, not, Option, none, some, List, [], ◌∷◌, ltb,
  if◌then◌else◌,
}
use flyrank_capstone_meterin.Result.{Result, ok, err}
use flyrank_capstone_meterin.Exec.{pure, raise, gets, ◌>>=◌, ◌>>◌}
use flyrank_capstone_meterin.Errors.{payment_required}
use flyrank_capstone_meterin.Clock.{DateTime, start_of_month}
use flyrank_capstone_meterin.Models.{
  Plan, Subscription, SubscriptionStatus, active, past_due, canceled, incomplete, trialing,
  UsageType, api_call, same_type, type_value,
}
use flyrank_capstone_meterin.World.{World, App, Moment}
use flyrank_capstone_meterin.Usage.{get_monthly_usage, get_monthly_usage_breakdown}
use flyrank_capstone_meterin.Subscriptions.{get_active_by_tenant, get_plan}

pub record QuotaInfo : Type 0 where
  pub usage_type : String
  pub used : ℕ
  pub limit : ℕ
  pub requested : ℕ
  pub remaining : ℕ
  pub will_exceed : Bool

-- `if not subscription: raise …`
require_subscription : Option Subscription → App Subscription
require_subscription none = raise (payment_required "No active subscription found")
require_subscription (some s) = pure s

-- The ladder of `check_quota` on the status; the enum has no sixth case for its last `else`.
require_status : SubscriptionStatus → App (Unit {0})
require_status active = pure tt
require_status past_due = raise (payment_required "Subscription past due - payment required")
require_status canceled = raise (payment_required "Subscription canceled")
require_status trialing = pure tt
require_status incomplete = pure tt

require_plan : Option Plan → App Plan
require_plan none = raise (payment_required "Plan not found")
require_plan (some p) = pure p

unfoldable pub limit_of : UsageType → Plan → ℕ
unfolding same_type
limit_of usage_type plan =
    if same_type usage_type api_call then plan.api_call_quota else plan.ai_token_quota

-- `max(0, a - b)` is the subtraction that stops at 0.
unfoldable pub check_quota : Moment → ℕ → UsageType → ℕ → App (Bool × QuotaInfo)
unfolding require_subscription require_status require_plan get_active_by_tenant get_plan
check_quota m tenant_id usage_type requested_quantity = do
  found ← get_active_by_tenant tenant_id
  subscription ← require_subscription found
  require_status subscription.status
  found_plan ← get_plan subscription.plan_id
  plan ← require_plan found_plan
  let limit = limit_of usage_type plan
  current_used ← gets (get_monthly_usage tenant_id usage_type (start_of_month m.now))
  let will_exceed = ltb limit (current_used + requested_quantity)
  pure (
    not will_exceed,
    record {
      usage_type = type_value usage_type;
      used = current_used;
      limit = limit;
      requested = requested_quantity;
      remaining = limit - current_used;
      will_exceed = will_exceed;
    },
  )

-- The dict of `get_all_quotas`, or its "error".
pub record Quotas : Type 0 where
  pub plan : String
  pub api_calls_used : ℕ
  pub api_calls_limit : ℕ
  pub api_calls_remaining : ℕ
  pub ai_tokens_used : ℕ
  pub ai_tokens_limit : ℕ
  pub ai_tokens_remaining : ℕ
  pub breakdown : List (UsageType × ℕ)

pub data AllQuotas : Type 0 where
  error : String → AllQuotas
  quotas : Quotas → AllQuotas

-- `usage_breakdown.get(key, 0)`
unfoldable pub get_or_zero : UsageType → List (UsageType × ℕ) → ℕ
get_or_zero key [] = 0
get_or_zero key ((k, value) ∷ rest) = if same_type k key then value else get_or_zero key rest

-- `{key: value … if key != UsageType.API_CALL}`
unfoldable pub without_api_calls : List (UsageType × ℕ) → List (UsageType × ℕ)
without_api_calls [] = []
without_api_calls ((k, value) ∷ rest) =
    let others = without_api_calls rest in
    if same_type k api_call then others else (k, value) ∷ others

unfoldable pub sum_values : List (UsageType × ℕ) → ℕ
sum_values [] = 0
sum_values ((k, value) ∷ rest) = value + sum_values rest

unfoldable pub overview : Plan → List (UsageType × ℕ) → Quotas
unfolding get_or_zero without_api_calls sum_values
overview plan usage_breakdown = record {
  plan = plan.name;
  api_calls_used = get_or_zero api_call usage_breakdown;
  api_calls_limit = plan.api_call_quota;
  api_calls_remaining = plan.api_call_quota - get_or_zero api_call usage_breakdown;
  ai_tokens_used = sum_values (without_api_calls usage_breakdown);
  ai_tokens_limit = plan.ai_token_quota;
  ai_tokens_remaining = plan.ai_token_quota - sum_values (without_api_calls usage_breakdown);
  breakdown = without_api_calls usage_breakdown;
}

unfoldable pub quotas_on_plan : Moment → ℕ → Option Plan → App AllQuotas
unfolding overview
quotas_on_plan m tenant_id none w = (ok (error "Plan not found"), w)
quotas_on_plan m tenant_id (some plan) w = (
  ok (quotas (overview plan (get_monthly_usage_breakdown tenant_id (start_of_month m.now) w))),
  w,
)

unfoldable pub quotas_of_subscription : Moment → ℕ → Option Subscription → App AllQuotas
unfolding quotas_on_plan get_plan
quotas_of_subscription m tenant_id none = pure (error "No active subscription")
quotas_of_subscription m tenant_id (some subscription) = do
  plan ← get_plan subscription.plan_id
  quotas_on_plan m tenant_id plan

unfoldable pub get_all_quotas : Moment → ℕ → App AllQuotas
unfolding get_active_by_tenant quotas_of_subscription
get_all_quotas m tenant_id = do
  subscription ← get_active_by_tenant tenant_id
  quotas_of_subscription m tenant_id subscription
