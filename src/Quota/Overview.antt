-- ===== src/Quota/Overview.antt =====
-- The overview of `get_all_quotas` against the events, and against the check of one type
-- (src/services/quota_service.py, src/repositories/usage_repo.py).
use flyrank_capstone_meterin.Prelude.{
  ℕ, ◌+◌, ◌≤◌, ◌≡◌, refl, ap, ◌∙◌, Bool, true, false, ◌&&◌, ◌||◌, List, [], ◌∷◌, arith, le→leb,
  if◌then◌else◌, exists, sum_where-none,
}
use flyrank_capstone_meterin.Result.{ok}
use flyrank_capstone_meterin.Clock.{DateTime, start_of_month}
use flyrank_capstone_meterin.Models.{
  Plan, Subscription, UsageType, api_call, input_tokens, cached_input_tokens, output_tokens,
  reasoning_tokens, same_type, same_type_iff,
}
use flyrank_capstone_meterin.World.{World, Moment, scalar_one_or_none}
use flyrank_capstone_meterin.Usage.{
  all_types, in_month, get_monthly_usage, group_by_type, get_monthly_usage_breakdown,
}
use flyrank_capstone_meterin.Quota.{
  Quotas, quotas, check_quota, limit_of, get_or_zero, without_api_calls, sum_values, overview,
  get_all_quotas,
}
use flyrank_capstone_meterin.Quota.Laws.{Entitled, month_info, check_quota_lem}

abbrev lists : UsageType → List UsageType → Bool
lists u [] = false
lists u (k ∷ types) = same_type k u || lists u types

module _ (t : ℕ) (start : DateTime) (w : World) where
  -- The test by which the rows of one type are grouped.
  abbrev has_row : UsageType → Bool
  has_row u = exists (λ e. same_type e.usage_type u && in_month t start e) w.db.usage_events

  usage_zero : (u : UsageType) → has_row u ≡ false → get_monthly_usage t u start w ≡ 0
  unfolding get_monthly_usage
  usage_zero u h =
      sum_where-none (λ e. same_type e.usage_type u && in_month t start e) (λ e. e.quantity)
        w.db.usage_events h

  get_or_zero-group_by_type :
      (u : UsageType) (types : List UsageType)
      → get_or_zero u (group_by_type types t start w)
        ≡ (if lists u types then get_monthly_usage t u start w else 0)
  unfolding get_or_zero group_by_type
  get_or_zero-group_by_type u [] = refl
  get_or_zero-group_by_type u (k ∷ types) =
      ground (arith, (same_type_iff k u).0, usage_zero k, get_or_zero-group_by_type u types)

  sum_tokens :
      (k : UsageType) (types : List UsageType)
      → sum_values (without_api_calls (group_by_type (k ∷ types) t start w))
        ≡ (if same_type k api_call then 0 else get_monthly_usage t k start w)
          + sum_values (without_api_calls (group_by_type types t start w))
  unfolding sum_values without_api_calls group_by_type
  sum_tokens k types = ground (arith, usage_zero k)

  sum_tokens_nil : sum_values (without_api_calls (group_by_type [] t start w)) ≡ 0
  unfolding sum_values without_api_calls group_by_type
  sum_tokens_nil = refl

  -- The types other than API calls, one after the other.
  sum_tokens_all :
      sum_values (without_api_calls (group_by_type all_types t start w))
      ≡ get_monthly_usage t input_tokens start w
        + get_monthly_usage t cached_input_tokens start w
        + get_monthly_usage t output_tokens start w
        + get_monthly_usage t reasoning_tokens start w
  unfolding same_type
  sum_tokens_all =
      rw (sum_tokens, sum_tokens, sum_tokens, sum_tokens, sum_tokens, sum_tokens_nil) (omega arith)

lists_all : (u : UsageType) → lists u all_types ≡ true
unfolding same_type
lists_all api_call = refl
lists_all _ = refl

-- Reading a type from the breakdown, with 0 for a type that has no row, gives the month's usage of
-- that type, and the types other than API calls sum up to the usage of the four token types.
pub breakdown_exact :
    (t : ℕ) (start : DateTime) (w : World) (u : UsageType)
    → let breakdown = get_monthly_usage_breakdown t start w in
      (get_or_zero u breakdown ≡ get_monthly_usage t u start w)
      × (sum_values (without_api_calls breakdown)
          ≡ get_monthly_usage t input_tokens start w
            + get_monthly_usage t cached_input_tokens start w
            + get_monthly_usage t output_tokens start w
            + get_monthly_usage t reasoning_tokens start w)
unfolding get_monthly_usage_breakdown
breakdown_exact t start w u =
    (rw (get_or_zero-group_by_type t start w u all_types, lists_all u), sum_tokens_all t start w)

-- For an entitled tenant the overview is that of its plan, over the month's breakdown, and nothing
-- changes.
pub get_all_quotas_lem :
    (m : Moment) (t : ℕ) (w : World) {s : Subscription} {p : Plan}
    → Entitled t w s p
    → get_all_quotas m t w
      ≡ (ok (quotas (overview p (get_monthly_usage_breakdown t (start_of_month m.now) w))), w)
unfolding get_all_quotas scalar_one_or_none
get_all_quotas_lem m t w e = rw (e.subscription) (rw (e.plan))

-- The AI-token limit is applied to each token type by itself: while the usage of one token type and
-- the quantity stay within the plan's AI-token quota, the check allows the request, also when the
-- overview of the same moment reports that all token types together have used up that quota.
pub check_quota_ignores_other_types :
    (m : Moment) (t : ℕ) (u : UsageType) (q : ℕ) (w : World) {s : Subscription} {p : Plan}
    → Entitled t w s p
    → same_type u api_call ≡ false
    → let start = start_of_month m.now in
      get_monthly_usage t u start w + q ≤ p.ai_token_quota
      → p.ai_token_quota
        ≤ get_monthly_usage t input_tokens start w
          + get_monthly_usage t cached_input_tokens start w
          + get_monthly_usage t output_tokens start w
          + get_monthly_usage t reasoning_tokens start w
      → (ov : Quotas) × ((get_all_quotas m t w).0 ≡ ok (quotas ov))
        × (ov.ai_tokens_remaining ≡ 0)
        × ((check_quota m t u q w).0 ≡ ok (true, month_info m t u q w p))
unfolding limit_of
check_quota_ignores_other_types m t u q w {s} {p} e token fits full = (
  overview p (get_monthly_usage_breakdown t (start_of_month m.now) w),
  ap (λ x. x.0) (get_all_quotas_lem m t w e),
  unfold overview in rw ((breakdown_exact t (start_of_month m.now) w u).1) (omega arith),
  ap (λ x. x.0) (check_quota_lem m t u q w e) ∙ rw (token, le→leb _ _ fits),
)
