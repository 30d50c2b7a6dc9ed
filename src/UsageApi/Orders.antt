-- ===== src/UsageApi/Orders.antt =====
-- The order of the rows of a table is not seen by GET /usage (src/api/v1/usage.py).
use flyrank_capstone_meterin.Prelude.{ℕ, ◌≡◌, ap}
use flyrank_capstone_meterin.Exec.{gets}
use flyrank_capstone_meterin.Clock.{DateTime}
use flyrank_capstone_meterin.Models.{UsageType}
use flyrank_capstone_meterin.Cost.{PricingConfig}
use flyrank_capstone_meterin.World.{World, Moment}
use flyrank_capstone_meterin.World.Orders.{Reorders}
use flyrank_capstone_meterin.World.Reads.{Alike, Alike-bind, Alike-gets, alike_rules, same_answer}
use flyrank_capstone_meterin.Usage.{get_monthly_cost, get_monthly_usage_breakdown}
use flyrank_capstone_meterin.Usage.Orders.{cost_same, breakdown_same}
use flyrank_capstone_meterin.Quota.{AllQuotas, error, quotas, check_quota, get_all_quotas}
use flyrank_capstone_meterin.Quota.Orders.{check_quota-Alike, get_all_quotas-Alike}
use flyrank_capstone_meterin.UsageApi.{compute_usage, quotas_or_404}

module _ (pricing : PricingConfig) (m : Moment) (t : ℕ) (w w' : World) (same : Reorders w w') where
  quotas_or_404-Alike : (a : AllQuotas) → Alike w w' (quotas_or_404 a)
  unfolding quotas_or_404
  quotas_or_404-Alike (error message) = search alike_rules
  quotas_or_404-Alike (quotas q) = search alike_rules

  total-Alike : (start : DateTime) → Alike w w' (gets (get_monthly_cost t start))
  total-Alike start = Alike-gets _ (cost_same t w w' same start)

  breakdown-Alike : (start : DateTime) → Alike w w' (gets (get_monthly_usage_breakdown t start))
  breakdown-Alike start = Alike-gets _ (breakdown_same t w w' same start)

  compute_usage-Alike : Alike w w' (compute_usage pricing m t)
  unfolding compute_usage
  compute_usage-Alike =
      Alike-bind _ _ (get_all_quotas-Alike m t w w' same)
        (search (alike_rules, quotas_or_404-Alike, total-Alike, breakdown-Alike) depth 16)

  -- Two states whose tables of plans, subscriptions and usage events have the same rows, each in an
  -- order of its own, are the same to the reads: the quota check of every type and quantity, the
  -- overview of all quotas and the usage report answer the same, errors included, and none of them
  -- changes anything.
  pub row_order_unseen :
      (u : UsageType) (q : ℕ)
      → ((check_quota m t u q w).0 ≡ (check_quota m t u q w').0)
        × ((get_all_quotas m t w).0 ≡ (get_all_quotas m t w').0)
        × ((compute_usage pricing m t w).0 ≡ (compute_usage pricing m t w').0)
        × ((check_quota m t u q w).1 ≡ w)
        × ((get_all_quotas m t w).1 ≡ w)
        × ((compute_usage pricing m t w).1 ≡ w)
  row_order_unseen u q =
      let check = check_quota-Alike m t w w' same u q in
      let all = get_all_quotas-Alike m t w w' same in
      let report = compute_usage-Alike in
      (
        same_answer _ check,
        same_answer _ all,
        same_answer _ report,
        ap (λ r. r.1) check.here,
        ap (λ r. r.1) all.here,
        ap (λ r. r.1) report.here,
      )
