-- ===== src/Usage.antt =====
-- src/repositories/usage_repo.py: the usage events.
pub mod Laws
pub mod Orders
use flyrank_capstone_meterin.Prelude.{
  ℕ, ◌+◌, String, Bool, true, false, ◌&&◌, Option, none, some, List, [], ◌∷◌, ◌++◌, ◌==◌, str_eq,
  if◌then◌else◌, select, exists, sum_where,
}
use flyrank_capstone_meterin.Result.{Result, ok, err}
use flyrank_capstone_meterin.Exec.{◌>>=◌}
use flyrank_capstone_meterin.Errors.{integrity_error, tenant_exists}
use flyrank_capstone_meterin.Clock.{DateTime, is_at_most}
use flyrank_capstone_meterin.Models.{
  Tenant, UsageEvent, UsageType, api_call, input_tokens, cached_input_tokens, output_tokens,
  reasoning_tokens, same_type,
}
use flyrank_capstone_meterin.World.{World, App, set_db, scalar_one_or_none}

-- The columns of `uq_tenant_idempotency_usage_type`.
unfoldable pub has_key : ℕ → String → UsageType → UsageEvent → Bool
has_key tenant_id idempotency_key usage_type e =
    e.tenant_id == tenant_id
    && (str_eq e.idempotency_key idempotency_key && same_type e.usage_type usage_type)

abbrev pub clashes : UsageEvent → UsageEvent → Bool
clashes e = has_key e.tenant_id e.idempotency_key e.usage_type

-- INSERT … ON CONFLICT DO NOTHING RETURNING: the row, or nothing where its key is taken. The
-- tenant is a foreign key.
unfoldable pub insert_usage : UsageEvent → App (Option UsageEvent)
insert_usage row w =
    if exists (clashes row) w.db.usage_events
    then (ok none, w)
    else if exists (λ (t : Tenant). t.id == row.tenant_id) w.db.tenants
    then (ok (some row), set_db (record w.db { usage_events = w.db.usage_events ++ row ∷ [] }) w)
    else (err (integrity_error tenant_exists), w)

or_existing : UsageEvent → Option UsageEvent → App (Option UsageEvent)
or_existing row (some event) w = (ok (some event), w)
or_existing row none w = (scalar_one_or_none (select (clashes row) w.db.usage_events), w)

-- `row` holds the arguments, the new id and the creation time.
unfoldable pub record_usage : UsageEvent → App (Option UsageEvent)
unfolding insert_usage or_existing
record_usage row = do event ← insert_usage row; or_existing row event

unfoldable pub in_month : ℕ → DateTime → UsageEvent → Bool
in_month tenant_id start_of_month e =
    e.tenant_id == tenant_id && is_at_most start_of_month e.created_at

unfoldable pub get_monthly_usage : ℕ → UsageType → DateTime → World → ℕ
get_monthly_usage tenant_id usage_type start_of_month w =
    sum_where (λ e. same_type e.usage_type usage_type && in_month tenant_id start_of_month e)
      (λ e. e.quantity) w.db.usage_events

abbrev pub all_types : List UsageType
all_types = api_call ∷ input_tokens ∷ cached_input_tokens ∷ output_tokens ∷ reasoning_tokens ∷ []

-- GROUP BY usage_type: a type has a row where it has an event. The order of the rows, which SQL
-- leaves open, is that of the enum.
unfoldable pub group_by_type : List UsageType → ℕ → DateTime → World → List (UsageType × ℕ)
group_by_type [] tenant_id start w = []
group_by_type (t ∷ types) tenant_id start w =
    let rest = group_by_type types tenant_id start w in
    if exists (λ e. same_type e.usage_type t && in_month tenant_id start e) w.db.usage_events
    then (t, get_monthly_usage tenant_id t start w) ∷ rest
    else rest

unfoldable pub get_monthly_usage_breakdown : ℕ → DateTime → World → List (UsageType × ℕ)
get_monthly_usage_breakdown = group_by_type all_types

unfoldable pub get_monthly_cost : ℕ → DateTime → World → ℕ
get_monthly_cost tenant_id start_of_month w =
    sum_where (in_month tenant_id start_of_month) (λ e. e.cost_microunits) w.db.usage_events
