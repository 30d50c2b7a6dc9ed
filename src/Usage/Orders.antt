-- ===== src/Usage/Orders.antt =====
-- The sums of src/repositories/usage_repo.py do not depend on the order of the rows.
use flyrank_capstone_meterin.Prelude.{
  ℕ, ◌≡◌, refl, List, [], ◌∷◌, ◌&&◌, exists-Permᴰ, sum_where-Permᴰ,
}
use flyrank_capstone_meterin.Clock.{DateTime}
use flyrank_capstone_meterin.Models.{UsageEvent, UsageType, same_type}
use flyrank_capstone_meterin.World.{World}
use flyrank_capstone_meterin.World.Orders.{Reorders}
use flyrank_capstone_meterin.Usage.{
  in_month, get_monthly_usage, get_monthly_cost, group_by_type, get_monthly_usage_breakdown,
}

module _ (t : ℕ) (w w' : World) (same : Reorders w w') where
  pub usage_same :
      (u : UsageType) (start : DateTime)
      → get_monthly_usage t u start w ≡ get_monthly_usage t u start w'
  unfolding get_monthly_usage
  usage_same u start = sum_where-Permᴰ _ _ same.usage_events

  pub cost_same : (start : DateTime) → get_monthly_cost t start w ≡ get_monthly_cost t start w'
  unfolding get_monthly_cost
  cost_same start = sum_where-Permᴰ _ _ same.usage_events

  groups_same :
      (types : List UsageType) (start : DateTime)
      → group_by_type types t start w ≡ group_by_type types t start w'
  unfolding group_by_type
  groups_same [] start = refl
  groups_same (u ∷ types) start =
      let present =
        exists-Permᴰ (λ (e : UsageEvent). same_type e.usage_type u && in_month t start e)
          same.usage_events in
      rw (present, usage_same u start, groups_same types start) refl

  pub breakdown_same :
      (start : DateTime)
      → get_monthly_usage_breakdown t start w ≡ get_monthly_usage_breakdown t start w'
  unfolding get_monthly_usage_breakdown
  breakdown_same start = groups_same _ start
