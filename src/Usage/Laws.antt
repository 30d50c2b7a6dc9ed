-- ===== src/Usage/Laws.antt =====
-- Inserting usage events, and the monthly sums after it (src/repositories/usage_repo.py).
use flyrank_capstone_meterin.Prelude.{
  ℕ, ◌+◌, String, ◌≡◌, refl, ap, ◌∙◌, true, false, ◌&&◌, inl, inr, some, List, [], ◌∷◌, ◌++◌, arith,
  ◌==◌, eq_iff, if◌then◌else◌, Bool-cases, select, exists, select-none, exists_of_select,
  select-append, exists-append, sum_where-append,
}
use flyrank_capstone_meterin.Result.{ok, err}
use flyrank_capstone_meterin.Errors.{integrity_error, tenant_exists}
use flyrank_capstone_meterin.Clock.{DateTime}
use flyrank_capstone_meterin.Models.{Tenant, UsageEvent, UsageType, same_type, same_type_iff}
use flyrank_capstone_meterin.World.{World, set_db, scalar_one_or_none}
use flyrank_capstone_meterin.Usage.{
  has_key, clashes, record_usage, in_month, get_monthly_usage, get_monthly_cost,
}

-- No two events share tenant, idempotency key and usage type.
abbrev pub IsKeyed : List UsageEvent → Type 0
IsKeyed [] = Unit
IsKeyed (e ∷ es) = (exists (clashes e) es ≡ false) × IsKeyed es

pub has_key_parts :
    (t : ℕ) (k : String) (u : UsageType) (e : UsageEvent)
    → has_key t k u e ≡ true
    → (e.tenant_id ≡ t) × (e.idempotency_key ≡ k) × (e.usage_type ≡ u)
unfolding has_key
has_key_parts t k u e h =
    ground (arith, eq_iff e.idempotency_key k, (same_type_iff e.usage_type u).0)

pub has_key_self : (e : UsageEvent) → clashes e e ≡ true
unfolding has_key
has_key_self e =
    ground (
      arith,
      eq_iff e.idempotency_key e.idempotency_key,
      (same_type_iff e.usage_type e.usage_type).1,
    )

clashes_symm : (a b : UsageEvent) → clashes a b ≡ clashes b a
unfolding has_key
clashes_symm a b = ground (
  arith,
  eq_iff a.idempotency_key b.idempotency_key,
  eq_iff b.idempotency_key a.idempotency_key,
  (same_type_iff a.usage_type b.usage_type).0,
  (same_type_iff a.usage_type b.usage_type).1,
  (same_type_iff b.usage_type a.usage_type).0,
  (same_type_iff b.usage_type a.usage_type).1,
)

-- A test by the key of an event that has it is a test by the event.
has_key-exists :
    (t : ℕ) (k : String) (u : UsageType) (e : UsageEvent) (es : List UsageEvent)
    → has_key t k u e ≡ true
    → exists (clashes e) es ≡ false
    → exists (has_key t k u) es ≡ false
has_key-exists t k u e es h p =
    let (same_tenant, same_key, same_use) = has_key_parts t k u e h in
    rw (← same_tenant, ← same_key, ← same_use) p

-- A taken key selects one event.
pub select-has_key :
    (t : ℕ) (k : String) (u : UsageType) (es : List UsageEvent)
    → IsKeyed es
    → exists (has_key t k u) es ≡ true
    → (e : UsageEvent) × (select (has_key t k u) es ≡ e ∷ []) × (has_key t k u e ≡ true)
unfolding exists select
select-has_key t k u [] h p = cc
select-has_key t k u (e ∷ es) h p = elim (Bool-cases (has_key t k u e)) [
  | inl here ↦ (
    e,
    rw here (
        ap (λ rest. e ∷ rest)
          (select-none (has_key t k u) es (has_key-exists t k u e es here h.0))),
    here,
  )
  | inr there ↦ rw there (select-has_key t k u es h.1 (rw there at p))
]

-- A new key: the row is appended and returned, if its tenant exists.
pub record_usage_new :
    (row : UsageEvent) (w : World)
    → exists (clashes row) w.db.usage_events ≡ false
    → record_usage row w ≡ (
        if exists (λ (t : Tenant). t.id == row.tenant_id) w.db.tenants
        then (
          ok (some row),
          set_db (record w.db { usage_events = w.db.usage_events ++ row ∷ [] }) w,
        )
        else (err (integrity_error tenant_exists), w))
unfolding record_usage
record_usage_new row w h = rw h (ground arith)

-- A taken key: the event that has it is returned, and nothing is written.
pub record_usage_taken :
    (row : UsageEvent) (w : World)
    → IsKeyed w.db.usage_events
    → exists (clashes row) w.db.usage_events ≡ true
    → (e : UsageEvent) × (record_usage row w ≡ (ok (some e), w)) × (clashes row e ≡ true)
unfolding record_usage scalar_one_or_none
record_usage_taken row w keyed h =
    let (e, one, same) =
      select-has_key row.tenant_id row.idempotency_key row.usage_type w.db.usage_events keyed h in
    (e, rw h (rw (one, scalar_one_or_none)), same)

pub IsKeyed-append :
    (es : List UsageEvent) (row : UsageEvent)
    → IsKeyed es
    → exists (clashes row) es ≡ false
    → IsKeyed (es ++ row ∷ [])
unfolding exists
IsKeyed-append [] row h p = (refl, tt)
IsKeyed-append (e ∷ es) row h p = (
  ground (arith, exists-append (clashes e) es row, clashes_symm row e),
  IsKeyed-append es row h.1 (ground arith),
)

-- Recording keeps the unique key, whether it inserts, finds the event, or raises.
pub record_usage-IsKeyed :
    (row : UsageEvent) (w : World)
    → IsKeyed w.db.usage_events
    → IsKeyed (record_usage row w).1.db.usage_events
record_usage-IsKeyed row w keyed = elim (Bool-cases (exists (clashes row) w.db.usage_events)) [
  | inl taken ↦ let (e, run, same) = record_usage_taken row w keyed taken in rw run keyed
  | inr new ↦
      rw (record_usage_new row w new)
        (ground (arith, IsKeyed-append w.db.usage_events row keyed new))
]

-- The one event that is selected is returned.
record_usage_selected :
    (row e : UsageEvent) (w : World)
    → select (clashes row) w.db.usage_events ≡ e ∷ []
    → record_usage row w ≡ (ok (some e), w)
unfolding record_usage scalar_one_or_none
record_usage_selected row e w one =
    let (same, taken) = exists_of_select (clashes row) w.db.usage_events one in
    rw taken (rw (one, scalar_one_or_none))

clashes_key :
    (row again : UsageEvent) (es : List UsageEvent)
    → clashes row again ≡ true
    → select (clashes again) es ≡ select (clashes row) es
clashes_key row again es h =
    let (same_tenant, same_key, same_use) =
      has_key_parts row.tenant_id row.idempotency_key row.usage_type again h in
    rw (same_tenant, same_key, same_use)

select_appended :
    (row : UsageEvent) (es : List UsageEvent)
    → exists (clashes row) es ≡ false
    → select (clashes row) (es ++ row ∷ []) ≡ row ∷ []
unfolding select
select_appended row es new = rw (select-append, select-none (clashes row) es new, has_key_self row)

-- For a known tenant and a table without duplicate keys: recording again under the same tenant,
-- idempotency key and usage type, with whatever quantity and cost, returns the event that the first
-- call returned, and changes nothing.
pub record_usage_idempotent :
    (row again : UsageEvent) (w : World)
    → IsKeyed w.db.usage_events
    → exists (λ (t : Tenant). t.id == row.tenant_id) w.db.tenants ≡ true
    → clashes row again ≡ true
    → let (r, w') = record_usage row w in record_usage again w' ≡ (r, w')
record_usage_idempotent row again w keyed known h =
    elim (Bool-cases (exists (clashes row) w.db.usage_events)) [
      | inl taken ↦
          let (e, one, same) =
            select-has_key row.tenant_id row.idempotency_key row.usage_type w.db.usage_events keyed
              taken in
          rw (record_usage_selected row e w one)
            (record_usage_selected again e w (clashes_key row again w.db.usage_events h ∙ one))
      | inr new ↦
          rw (record_usage_new row w new, known)
            (record_usage_selected again row
              (set_db (record w.db { usage_events = w.db.usage_events ++ row ∷ [] }) w)
              (clashes_key row again (w.db.usage_events ++ row ∷ []) h
                ∙ select_appended row w.db.usage_events new))
    ]

-- Under a new key of a known tenant, each monthly sum of a tenant and type grows by the quantity if
-- the event is of that tenant and type and was created since the start, and else stays.
pub usage-record_usage :
    (row : UsageEvent) (w : World) (t : ℕ) (u : UsageType) (start : DateTime)
    → exists (clashes row) w.db.usage_events ≡ false
    → exists (λ (a : Tenant). a.id == row.tenant_id) w.db.tenants ≡ true
    → get_monthly_usage t u start (record_usage row w).1
      ≡ get_monthly_usage t u start w
        + (if same_type row.usage_type u && in_month t start row then row.quantity else 0)
unfolding get_monthly_usage
usage-record_usage row w t u start new known =
    rw (record_usage_new row w new, known) (rw sum_where-append)

pub cost-record_usage :
    (row : UsageEvent) (w : World) (t : ℕ) (start : DateTime)
    → exists (clashes row) w.db.usage_events ≡ false
    → exists (λ (a : Tenant). a.id == row.tenant_id) w.db.tenants ≡ true
    → get_monthly_cost t start (record_usage row w).1
      ≡ get_monthly_cost t start w + (if in_month t start row then row.cost_microunits else 0)
unfolding get_monthly_cost
cost-record_usage row w t start new known =
    rw (record_usage_new row w new, known) (rw sum_where-append)
