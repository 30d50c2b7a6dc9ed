-- ===== src/Meter/Safety.antt =====
-- No double counting, and the quota as an invariant of recording (src/services/meter_service.py).
use native.Mathlib.Nat.{le_trans}
use flyrank_capstone_meterin.Prelude.{
  ℕ, ◌+◌, ◌≤◌, ◌≡◌, refl, ap, ◌∙◌, ◌⊎◌, inl, inr, Bool, true, ◌&&◌, List, [], ◌∷◌, arith, leb,
  if◌then◌else◌, Bool-cases, exists, leb→le, sum_where-append,
}
use flyrank_capstone_meterin.Result.{Result-cases}
use flyrank_capstone_meterin.Clock.{DateTime, start_of_month}
use flyrank_capstone_meterin.Models.{
  Plan, Subscription, UsageEvent, UsageType, same_type, same_type_iff,
}
use flyrank_capstone_meterin.World.{World, Moment}
use flyrank_capstone_meterin.Cost.Laws.{calculate_cases}
use flyrank_capstone_meterin.Usage.{clashes, record_usage, get_monthly_usage, in_month}
use flyrank_capstone_meterin.Usage.Laws.{IsKeyed, record_usage_taken}
use flyrank_capstone_meterin.Quota.{check_quota, limit_of}
use flyrank_capstone_meterin.Quota.Laws.{Entitled}
use flyrank_capstone_meterin.Meter.{Env, MeterCall, store_event, record_once, record_event}
use flyrank_capstone_meterin.Meter.Laws.{
  priced_event, store_event_lem, store_event_unpriced, report_keeps, record_usage_or,
  check_quota_reads, record_once_ok, record_event-record_once, record_event_exceeded,
}

-- A recording leaves the world alone, or it has passed the quota check and done the insert.
pub record_event_or :
    (env : Env) (m : Moment) (id : ℕ) (call : MeterCall) (w : World)
    → ((record_event env m id call w).1 ≡ w)
      ⊎ ((record_event env m id call w).1 ≡ (record_usage (priced_event env m id call) w).1)
record_event_or env m id call w =
    elim (Result-cases (check_quota m call.tenant_id call.usage_type call.qty w).0) [
      | inl ((allowed, info), p) ↦ elim (Bool-cases allowed) [
        | inl yes_ ↦
            let run =
              record_event-record_once env m id call w
              ∙ record_once_ok env m id call w (allowed, info) p
              ∙ ap (λ b. store_event env m id call (b, info) w) yes_ in
            elim (calculate_cases env.pricing call.usage_type call.qty) [
              | inl priced ↦ inr (
                  rw (run, store_event_lem env m id call info w priced)
                    (report_keeps call info _ _))
              | inr (e, unpriced) ↦
                  inl (rw (run, store_event_unpriced env m id call info w e unpriced) refl)
            ]
        | inr no_ ↦ inl (
            rw
              (
                record_event-record_once env m id call w,
                record_once_ok env m id call w (allowed, info) p,
                no_,
              )
              (unfold store_event in refl))
      ]
      | inr (e, p) ↦ inl (
          rw (record_event-record_once env m id call w) (
            unfold record_once in
            rw p (check_quota_reads m call.tenant_id call.usage_type call.qty w)))
    ]

-- If the tenant's key is taken for this usage type, then recording writes nothing, whether it
-- answers with the event that is there or refuses: no event is counted twice.
pub record_event_taken :
    (env : Env) (m : Moment) (id : ℕ) (call : MeterCall) (w : World)
    → IsKeyed w.db.usage_events
    → exists (clashes (priced_event env m id call)) w.db.usage_events ≡ true
    → (record_event env m id call w).1 ≡ w
record_event_taken env m id call w keyed taken = elim (record_event_or env m id call w) [
  | inl same ↦ same
  | inr stored ↦
      let (e, found, key) = record_usage_taken (priced_event env m id call) w keyed taken in
      stored ∙ ap (λ x. x.1) found
]

-- An insert adds at most the row's quantity to a monthly sum, and only where the row belongs to it.
usage-record_usage_le :
    (row : UsageEvent) (w : World) (t : ℕ) (u : UsageType) (start : DateTime)
    → get_monthly_usage t u start (record_usage row w).1
      ≤ get_monthly_usage t u start w
        + (if same_type row.usage_type u && in_month t start row then row.quantity else 0)
usage-record_usage_le row w t u start = elim (record_usage_or row w) [
  | inl same ↦ rw same (omega arith)
  | inr stored ↦ rw stored (unfold get_monthly_usage in rw sum_where-append (omega arith))
]

-- Recording changes neither the subscriptions nor the plans.
record_event-Entitled :
    (env : Env) (m : Moment) (id : ℕ) (call : MeterCall) (w : World) (t : ℕ) (s : Subscription)
    (p : Plan)
    → Entitled t w s p
    → Entitled t (record_event env m id call w).1 s p
record_event-Entitled env m id call w t s p e = elim (record_event_or env m id call w) [
  | inl same ↦ rw same e
  | inr stored ↦ elim (record_usage_or (priced_event env m id call) w) [
    | inl same ↦ rw (stored, same) e
    | inr inserted ↦
        rw (stored, inserted)
          (record { subscription = e.subscription; metered = e.metered; plan = e.plan })
  ]
]

if_le : (b : Bool) (n : ℕ) → (if b then n else 0) ≤ n
if_le b n = ground arith

-- The sum that the call itself is checked against stays within the limit.
record_event_within_self :
    (env : Env) (m : Moment) (id : ℕ) (call : MeterCall) (w : World) (s : Subscription) (p : Plan)
    → Entitled call.tenant_id w s p
    → get_monthly_usage call.tenant_id call.usage_type (start_of_month m.now) w
      ≤ limit_of call.usage_type p
    → get_monthly_usage call.tenant_id call.usage_type
        (start_of_month m.now)
        (record_event env m id call w).1
      ≤ limit_of call.usage_type p
record_event_within_self env m id call w s p e h =
    let t = call.tenant_id in
    let u = call.usage_type in
    let start = start_of_month m.now in
    let row = priced_event env m id call in
    elim (Bool-cases (leb (get_monthly_usage t u start w + call.qty) (limit_of u p))) [
      | inl fits ↦ elim (record_event_or env m id call w) [
        | inl same ↦ rw same h
        | inr stored ↦ rw stored (
            omega (
              arith,
              leb→le _ _ fits,
              usage-record_usage_le row w t u start,
              if_le (same_type row.usage_type u && in_month t start row) row.quantity,
            ))
      ]
      | inr over ↦ rw (record_event_exceeded env m id call w e (ground arith)) h
    ]

counted_parts :
    (row : UsageEvent) (t : ℕ) (u : UsageType) (start : DateTime)
    → same_type row.usage_type u && in_month t start row ≡ true
    → (row.usage_type ≡ u) × (row.tenant_id ≡ t)
unfolding in_month
counted_parts row t u start h = ground (arith, (same_type_iff row.usage_type u).0)

-- Whatever is recorded at `m`: if a tenant's usage of a type since the start of that month is within
-- the limit of the tenant's plan before, then it is within the limit after.
pub record_event_within :
    (env : Env) (m : Moment) (id : ℕ) (call : MeterCall) (w : World) (t : ℕ) (u : UsageType)
    (s : Subscription) (p : Plan)
    → Entitled t w s p
    → get_monthly_usage t u (start_of_month m.now) w ≤ limit_of u p
    → get_monthly_usage t u (start_of_month m.now) (record_event env m id call w).1 ≤ limit_of u p
record_event_within env m id call w t u s p e h =
    let start = start_of_month m.now in
    let row = priced_event env m id call in
    elim (Bool-cases (same_type call.usage_type u && in_month t start row)) [
      | inl own ↦
          let (same_use, same_tenant) = counted_parts row t u start own in
          rw (← same_use, ← same_tenant)
            (record_event_within_self env m id call w s p (rw (← same_tenant) at e)
              (rw (← same_use, ← same_tenant) at h))
      | inr other ↦ elim (record_event_or env m id call w) [
        | inl same ↦ rw same h
        | inr stored ↦
            rw stored (le_trans (rw other at (usage-record_usage_le row w t u start)) (omega arith))
      ]
    ]

-- Calls that are handled one after the other, each with its moment and its fresh id.
abbrev pub record_all : Env → List (Moment × ℕ × MeterCall) → World → World
record_all env [] w = w
record_all env ((m, id, call) ∷ rest) w = record_all env rest (record_event env m id call w).1

-- The calls all happen in the month that begins at `start`.
abbrev pub AllIn : DateTime → List (Moment × ℕ × MeterCall) → Type 0
AllIn start [] = Unit
AllIn start ((m, id, call) ∷ rest) = (start_of_month m.now ≡ start) × AllIn start rest

-- Any calls of any tenants, handled one after the other within one month, leave a tenant's usage of
-- a type within the limit of its plan, if it was within it at first.
pub record_all_within :
    (env : Env) (calls : List (Moment × ℕ × MeterCall)) (start : DateTime) (w : World) (t : ℕ)
    (u : UsageType) (s : Subscription) (p : Plan)
    → AllIn start calls
    → Entitled t w s p
    → get_monthly_usage t u start w ≤ limit_of u p
    → get_monthly_usage t u start (record_all env calls w) ≤ limit_of u p
record_all_within env [] start w t u s p same e h = h
record_all_within env ((m, id, call) ∷ rest) start w t u s p (now, same) e h =
    record_all_within env rest start (record_event env m id call w).1 t u s p same
      (record_event-Entitled env m id call w t s p e)
      (rw now at (record_event_within env m id call w t u s p e (rw (← now) at h)))
