-- ===== src/Quota/Orders.antt =====
-- The order of the rows of a table is not seen by src/services/quota_service.py.
use flyrank_capstone_meterin.Prelude.{ℕ, ap, Option, none, some, select-Permᴰ}
use flyrank_capstone_meterin.Clock.{start_of_month}
use flyrank_capstone_meterin.Models.{
  Plan, PlanTier, Subscription, SubscriptionStatus, active, past_due, canceled, incomplete,
  trialing, UsageType,
}
use flyrank_capstone_meterin.Result.{ok}
use flyrank_capstone_meterin.Exec.{gets}
use flyrank_capstone_meterin.World.{World, Moment}
use flyrank_capstone_meterin.World.Orders.{Reorders, scalar-Permᴰ}
use flyrank_capstone_meterin.World.Reads.{Alike, Alike-gets, Alike-reads, alike_rules}
use flyrank_capstone_meterin.Usage.{get_monthly_usage}
use flyrank_capstone_meterin.Usage.Orders.{usage_same, breakdown_same}
use flyrank_capstone_meterin.Subscriptions.{get_active_by_tenant, get_plan}
use flyrank_capstone_meterin.Quota.{
  require_subscription, require_status, require_plan, check_quota, get_all_quotas, quotas, overview,
  quotas_of_subscription, quotas_on_plan,
}

module _ (m : Moment) (t : ℕ) (w w' : World) (same : Reorders w w') where
  active-Alike : Alike w w' (get_active_by_tenant t)
  unfolding get_active_by_tenant
  active-Alike = Alike-reads _ (scalar-Permᴰ (select-Permᴰ _ same.subscriptions))

  plan-Alike : (tier : PlanTier) → Alike w w' (get_plan tier)
  unfolding get_plan
  plan-Alike tier = Alike-reads _ (scalar-Permᴰ (select-Permᴰ _ same.plans))

  require_subscription-Alike : (s : Option Subscription) → Alike w w' (require_subscription s)
  unfolding require_subscription
  require_subscription-Alike none = search alike_rules
  require_subscription-Alike (some s) = search alike_rules

  require_status-Alike : (s : SubscriptionStatus) → Alike w w' (require_status s)
  unfolding require_status
  require_status-Alike active = search alike_rules
  require_status-Alike past_due = search alike_rules
  require_status-Alike canceled = search alike_rules
  require_status-Alike incomplete = search alike_rules
  require_status-Alike trialing = search alike_rules

  require_plan-Alike : (p : Option Plan) → Alike w w' (require_plan p)
  unfolding require_plan
  require_plan-Alike none = search alike_rules
  require_plan-Alike (some p) = search alike_rules

  usage-Alike : (u : UsageType) → Alike w w' (gets (get_monthly_usage t u (start_of_month m.now)))
  usage-Alike u = Alike-gets _ (usage_same t w w' same u (start_of_month m.now))

  pub check_quota-Alike : (u : UsageType) (q : ℕ) → Alike w w' (check_quota m t u q)
  unfolding check_quota
  check_quota-Alike u q =
      search
        (
          alike_rules, active-Alike, plan-Alike, require_subscription-Alike, require_status-Alike,
          require_plan-Alike, usage-Alike,
        )
        depth 16

  on_plan-Alike : (p : Option Plan) → Alike w w' (quotas_on_plan m t p)
  unfolding quotas_on_plan
  on_plan-Alike none = search alike_rules
  on_plan-Alike (some p) =
      Alike-reads _
        (ap (λ b. ok (quotas (overview p b))) (breakdown_same t w w' same (start_of_month m.now)))

  of_subscription-Alike : (s : Option Subscription) → Alike w w' (quotas_of_subscription m t s)
  unfolding quotas_of_subscription
  of_subscription-Alike none = search alike_rules
  of_subscription-Alike (some s) = search (alike_rules, plan-Alike, on_plan-Alike)

  pub get_all_quotas-Alike : Alike w w' (get_all_quotas m t)
  unfolding get_all_quotas
  get_all_quotas-Alike = search (alike_rules, active-Alike, of_subscription-Alike)
