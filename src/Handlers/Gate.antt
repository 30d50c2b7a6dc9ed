-- ===== src/Handlers/Gate.antt =====
-- Subscriptions that Stripe events turn on and off, as the quota check sees them
-- (src/api/v1/webhook.py, src/services/quota_service.py).
use flyrank_capstone_meterin.Prelude.{
  ℕ, String, ◌≡◌, refl, ap, ◌∙◌, true, false, ◌&&◌, some, [], ◌∷◌, arith, ◌==◌, select, exists,
  update_where, exists-overwrite, select-overwrite, exists_of_select,
}
use flyrank_capstone_meterin.Result.{ok, err}
use flyrank_capstone_meterin.Errors.{payment_required}
use flyrank_capstone_meterin.Models.{
  Tenant, Plan, Subscription, UsageType, active, past_due, same_tier,
}
use flyrank_capstone_meterin.World.{World, Moment, set_db, cached_delete, scalar_one_or_none}
use flyrank_capstone_meterin.Tenants.{get_tenant}
use flyrank_capstone_meterin.Subscriptions.{
  is_metered, has_stripe_id, matches_stripe_id, get_by_stripe_id, has_plan, update,
}
use flyrank_capstone_meterin.Quota.{check_quota}
use flyrank_capstone_meterin.Quota.Laws.{Entitled, check_quota_refuses}
use flyrank_capstone_meterin.Stripe.{StripeSubscription, StripeEnv}
use flyrank_capstone_meterin.Handlers.Checkout.{truthy, invalidate_subscription_cache}
use flyrank_capstone_meterin.Handlers.Payment.{
  write_status, then_read_tenant, succeeded_for, failed_for, handle_payment_succeeded,
  handle_payment_failed,
}
use flyrank_capstone_meterin.Handlers.Lifecycle.{
  deleted_row, deleted_for, handle_subscription_deleted,
}

-- `s` is the one subscription of tenant `t`, the one under Stripe's id `id` and the one under its own
-- id; its plan is `p`, and the tenant is there once.
pub record Owns (t : ℕ) (id : String) (w : World) (s : Subscription) (p : Plan) : Type 0 where
  pub of_tenant : select (λ (a : Subscription). a.tenant_id == t) w.db.subscriptions ≡ s ∷ []
  pub of_stripe : select (has_stripe_id id) w.db.subscriptions ≡ s ∷ []
  pub of_id : select (λ (a : Subscription). a.id == s.id) w.db.subscriptions ≡ s ∷ []
  pub of_plan : select (λ (a : Plan). same_tier a.id s.plan_id) w.db.plans ≡ p ∷ []
  pub one_tenant : (a : Tenant) × (select (λ (b : Tenant). b.id == t) w.db.tenants ≡ a ∷ [])

module _ {t : ℕ} {id : String} {w : World} {s : Subscription} {p : Plan}
    (owns : Owns t id w s p) where
  owner : s.tenant_id ≡ t
  owner = ground (
    arith,
    exists_of_select (λ (a : Subscription). a.tenant_id == t) w.db.subscriptions owns.of_tenant,
  )

  plan_there : has_plan s.plan_id w.db ≡ true
  unfolding has_plan
  plan_there = (exists_of_select (λ (a : Plan). same_tier a.id s.plan_id) w.db.plans owns.of_plan).1

  -- The subscription's row replaced by `row`, which keeps its ids and its plan.
  abbrev replaced : Subscription → World
  replaced row =
      set_db
        (record w.db {
          subscriptions =
              update_where (λ (a : Subscription). a.id == row.id) (λ _. row) w.db.subscriptions;
        })
        w

  replaced_blocks :
      (row : Subscription)
      → row.id ≡ s.id
      → is_metered row.status ≡ false
      → exists
          (λ (a : Subscription). a.tenant_id == t && is_metered a.status)
          (replaced row).db.subscriptions
        ≡ false
  replaced_blocks row same off =
      exists-overwrite (λ (a : Subscription). a.tenant_id == t && is_metered a.status)
        (λ (a : Subscription). a.tenant_id == t) (λ (a : Subscription). a.id == row.id)
        (λ a h. ground arith) row w.db.subscriptions s (ground arith) (ground arith) owns.of_tenant

  replaced_entitles :
      (row : Subscription)
      → row.id ≡ s.id
      → row.tenant_id ≡ s.tenant_id
      → row.plan_id ≡ s.plan_id
      → is_metered row.status ≡ true
      → Entitled t (replaced row) row p
  replaced_entitles row same same_tenant same_plan on = record {
    subscription =
        select-overwrite (λ (a : Subscription). a.tenant_id == t && is_metered a.status)
          (λ (a : Subscription). a.tenant_id == t) (λ (a : Subscription). a.id == row.id)
          (λ a h. ground arith) row w.db.subscriptions s (ground (arith, owner))
          (rw same owns.of_id) owns.of_tenant;
    metered = on;
    plan = rw same_plan owns.of_plan;
  }

  -- Writing the row with the Stripe environment's cache entry dropped.
  abbrev dropped : StripeEnv → Moment → Subscription → World
  dropped env m row = (invalidate_subscription_cache env m row.tenant_id (replaced row)).1

  db-dropped :
      (env : StripeEnv) (m : Moment) (row : Subscription)
      → (dropped env m row).db ≡ (replaced row).db
  unfolding invalidate_subscription_cache cached_delete
  db-dropped env m row = refl

  failed_run :
      (env : StripeEnv) (m : Moment)
      → truthy (some id) ≡ some id
      → handle_payment_failed env m (record { subscription = some id }) w
        ≡ (ok tt, dropped env m (record s { status = past_due }))
  unfolding handle_payment_failed failed_for get_by_stripe_id matches_stripe_id scalar_one_or_none
      write_status update invalidate_subscription_cache cached_delete
  failed_run env m real = rw (real, owns.of_stripe, plan_there) refl

  deleted_run :
      (env : StripeEnv) (m : Moment) (sub : StripeSubscription)
      → sub.id ≡ id
      → handle_subscription_deleted env m sub w ≡ (ok tt, dropped env m (deleted_row m sub s))
  unfolding handle_subscription_deleted deleted_for get_by_stripe_id matches_stripe_id
      scalar_one_or_none update invalidate_subscription_cache cached_delete
  deleted_run env m sub same = rw (same, owns.of_stripe, plan_there) refl

  succeeded_run :
      (env : StripeEnv) (m : Moment)
      → truthy (some id) ≡ some id
      → handle_payment_succeeded env m (record { subscription = some id }) w
        ≡ (ok tt, dropped env m (record s { status = active }))
  unfolding handle_payment_succeeded succeeded_for get_by_stripe_id matches_stripe_id
      scalar_one_or_none write_status then_read_tenant get_tenant update
      invalidate_subscription_cache cached_delete
  succeeded_run env m real =
      let (a, one) = owns.one_tenant in rw (real, owns.of_stripe, plan_there, owner, one) refl

  refused_after :
      (env : StripeEnv) (m m' : Moment) (row : Subscription) (u : UsageType) (q : ℕ)
      → row.id ≡ s.id
      → is_metered row.status ≡ false
      → check_quota m' t u q (dropped env m row)
        ≡ (err (payment_required "No active subscription found"), dropped env m row)
  refused_after env m m' row u q same off = check_quota_refuses m' t u q (dropped env m row) (
      ap
        (λ d.
          exists (λ (a : Subscription). a.tenant_id == t && is_metered a.status) d.subscriptions)
        (db-dropped env m row)
      ∙ replaced_blocks row same off)

  -- After `invoice.payment_failed` for the only subscription of a tenant, and also after
  -- `customer.subscription.deleted`, both of which return, the quota check refuses that tenant at
  -- every later moment, for every type and quantity.
  pub unpaid_refused :
      (env : StripeEnv) (m m' : Moment) (sub : StripeSubscription) (u : UsageType) (q : ℕ)
      → truthy (some id) ≡ some id
      → sub.id ≡ id
      → let (r, failed) = handle_payment_failed env m (record { subscription = some id }) w in
        let (r', deleted) = handle_subscription_deleted env m sub w in
        (r ≡ ok tt)
        × (r' ≡ ok tt)
        × ((check_quota m' t u q failed).0 ≡ err (payment_required "No active subscription found"))
        × ((check_quota m' t u q deleted).0 ≡ err (payment_required "No active subscription found"))
  unfolding is_metered
  unpaid_refused env m m' sub u q real same =
      rw (failed_run env m real, deleted_run env m sub same)
        (
          refl,
          refl,
          ap (λ x. x.0) (refused_after env m m' (record s { status = past_due }) u q refl refl),
          ap (λ x. x.0) (refused_after env m m' (deleted_row m sub s) u q refl refl),
        )

  -- After `invoice.payment_succeeded` for the only subscription of a tenant, whatever its status was,
  -- the handler has returned and the tenant is entitled by that subscription, now active, to the same
  -- plan.
  pub paid-Entitled :
      (env : StripeEnv) (m : Moment)
      → truthy (some id) ≡ some id
      → let (r, paid) = handle_payment_succeeded env m (record { subscription = some id }) w in
        (r ≡ ok tt) × Entitled t paid (record s { status = active }) p
  unfolding is_metered
  paid-Entitled env m real =
      let row = record s { status = active } in
      let e = replaced_entitles row refl refl refl refl in
      let same = db-dropped env m row in
      rw (succeeded_run env m real) (
        refl,
        record {
          subscription =
              ap
                (λ d.
                  select (λ (a : Subscription). a.tenant_id == t && is_metered a.status)
                    d.subscriptions)
                same
              ∙ e.subscription;
          metered = e.metered;
          plan = ap (λ d. select (λ (a : Plan). same_tier a.id row.plan_id) d.plans) same ∙ e.plan;
        },
      )
