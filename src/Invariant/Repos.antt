-- ===== src/Invariant/Repos.antt =====
-- Each operation of src/repositories/ on sound tables.
use flyrank_capstone_meterin.Prelude.{
  ℕ, String, Bool, true, Option, none, some, List, [], ◌∷◌, ◌++◌, ◌≡◌, refl, inl, inr, ◌==◌, exists,
  exists-append, select, Bool-cases,
}
use flyrank_capstone_meterin.Exec.{continue, ◌>>=◌}
use flyrank_capstone_meterin.Clock.{DateTime}
use flyrank_capstone_meterin.Models.{Subscription, Tenant}
use flyrank_capstone_meterin.World.{Db, World, App, commit, scalar_one_or_none}
use flyrank_capstone_meterin.Subscriptions.{
  has_tenant, has_plan, has_stripe_id, matches_stripe_id, get_by_stripe_id, stripe_id_taken,
  insert_subscription, create, update, overwrite, overwrite_by_stripe_id, upsert_by,
  upsert_from_stripe,
}
use flyrank_capstone_meterin.Tenants.{
  customer_taken, get_tenant, create_tenant, is_processed, mark_processed,
}
use flyrank_capstone_meterin.Invariant.{keys_of, Sound}
use flyrank_capstone_meterin.Invariant.Writes.{
  IsFresh, Sound-update, Sound-overwrite, Sound-insert, Sound-tenants,
}
use flyrank_capstone_meterin.Invariant.Triple.{Triple}

-- Sound tables in which an id for a subscription is new.
abbrev pub Ready : ℕ → Db → Type 0
Ready n d = Sound d × IsFresh n d

module _ {P : Db → Type 0} where
  pub get_tenant-Triple : (t : ℕ) → Triple P P (get_tenant t)
  unfolding get_tenant
  get_tenant-Triple t = record { at = λ w h hc. (h, hc) }

  pub get_by_stripe_id-Triple : (id : Option String) → Triple P P (get_by_stripe_id id)
  unfolding get_by_stripe_id
  get_by_stripe_id-Triple id = record { at = λ w h hc. (h, hc) }

  pub is_processed-Triple : (id : String) → Triple P P (is_processed id)
  unfolding is_processed
  is_processed-Triple id = record { at = λ w h hc. (h, hc) }

pub insert-Triple : (row : Subscription) → Triple (Ready row.id) Sound (insert_subscription row)
unfolding insert_subscription
insert-Triple row = record {
  at = λ w (s, fresh) hc.
      elim (Bool-cases
        (exists (λ (a : Subscription). a.tenant_id == row.tenant_id) w.db.subscriptions)) [
          | inl t ↦ rw t (s, hc)
          | inr t ↦
              elim (Bool-cases (stripe_id_taken row.stripe_subscription_id w.db.subscriptions)) [
                | inl i ↦ rw (t, i) (s, hc)
                | inr i ↦ elim (Bool-cases (has_tenant row.tenant_id w.db)) [
                  | inr k ↦ rw (t, i, k) (s, hc)
                  | inl k ↦ elim (Bool-cases (has_plan row.plan_id w.db)) [
                    | inr p ↦ rw (t, i, k, p) (s, hc)
                    | inl p ↦ rw (t, i, k, p) (Sound-insert w.db row s fresh t i k p, hc)
                  ]
                ]
              ]
        ];
}

pub create-Triple :
    (n : ℕ) (t : Option ℕ) (row : ℕ → Subscription)
    → ((t : ℕ) → (row t).id ≡ n)
    → Triple (Ready n) Sound (create t row)
unfolding create
create-Triple n none row same = record { at = λ w h hc. (h.0, hc) }
create-Triple n (some t) row same = record {
  at = λ w h hc. (insert-Triple (row t)).at w (rw (same t) h) hc;
}

overwrite-Triple :
    (id : String) (row : Subscription) → Triple Sound Sound (overwrite_by_stripe_id id row)
unfolding overwrite_by_stripe_id
overwrite-Triple id row = record {
  at = λ w s hc. elim (Bool-cases (has_plan row.plan_id w.db)) [
    | inr p ↦ rw p (s, hc)
    | inl p ↦
        rw p (Sound-overwrite w.db (has_stripe_id id) (overwrite row) s (λ x. refl) (λ x. p), hc)
  ];
}

pub upsert-Triple : (row : Subscription) → Triple (Ready row.id) Sound (upsert_from_stripe row)
unfolding upsert_from_stripe upsert_by
upsert-Triple row = by_id row.stripe_subscription_id
  where
    by_id : (id : Option String) → Triple (Ready row.id) Sound (upsert_by id row)
    by_id none = insert-Triple row
    by_id (some id) = record {
      at = λ w h hc. elim (Bool-cases (exists (has_stripe_id id) w.db.subscriptions)) [
        | inl there ↦ rw there ((overwrite-Triple id row).at w h.0 hc)
        | inr new ↦ rw new ((insert-Triple row).at w h hc)
      ];
    }

-- A row written back after it has been read.
pub update-Triple :
    (p : Subscription → Bool) (old row : Subscription) (rest : List Subscription)
    → keys_of row ≡ keys_of old
    → Triple (λ d. Sound d × (select p d.subscriptions ≡ old ∷ rest)) Sound (update row)
unfolding update
update-Triple p old row rest same = record {
  at = λ w (s, read) hc. elim (Bool-cases (has_plan row.plan_id w.db)) [
    | inr k ↦ rw k (s, hc)
    | inl k ↦ rw k (Sound-update w.db p old row rest s read same k, hc)
  ];
}

-- Reading a subscription by Stripe's id, with what is done when there is none, and when there is one.
pub read-Triple :
    {B : Type 0} {P : Db → Type 0} (id : Option String) (f : Option Subscription → App B)
    → ((d : Db) → P d → Sound d)
    → Triple P Sound (f none)
    → ((s : Subscription)
        → Triple
            (λ d. P d × (select (matches_stripe_id id) d.subscriptions ≡ s ∷ []))
            Sound
            (f (some s)))
    → Triple P Sound (get_by_stripe_id id >>= f)
unfolding get_by_stripe_id scalar_one_or_none
read-Triple {P = P} id f sound without with_ = record {
  at = λ w h hc. by_rows w h hc (select (matches_stripe_id id) w.db.subscriptions) refl;
}
  where
    by_rows :
        (w : World)
        → P w.db
        → Sound w.committed
        → (rows : List Subscription) → select (matches_stripe_id id) w.db.subscriptions ≡ rows
        → Sound (continue (scalar_one_or_none rows) f w).1.db
          × Sound (continue (scalar_one_or_none rows) f w).1.committed
    by_rows w h hc [] e = without.at w h hc
    by_rows w h hc (s ∷ []) e = (with_ s).at w (h, e) hc
    by_rows w h hc (s ∷ t ∷ rest) e = (sound w.db h, hc)

create_tenant-Sound :
    (d : Db) (t : Tenant) → Sound d → Sound (record d { tenants = d.tenants ++ t ∷ [] })
unfolding has_tenant
create_tenant-Sound d t s = Sound-tenants d (d.tenants ++ t ∷ []) s grows
  where
    grows :
        (i : ℕ)
        → has_tenant i d ≡ true
        → has_tenant i (record d { tenants = d.tenants ++ t ∷ [] }) ≡ true
    grows i h = rw (exists-append, h) refl

pub create_tenant-Triple :
    (n id : ℕ) (now : DateTime) (name : String) (email : Option String) (hash : String)
    (customer : Option String)
    → Triple (Ready n) (Ready n) (create_tenant id now name email hash customer)
unfolding create_tenant customer_taken
create_tenant-Triple n id now name none hash customer = record { at = λ w h hc. (h, hc) }
create_tenant-Triple n id now name (some email) hash customer = record {
  at = λ w h hc. elim (Bool-cases (customer_taken customer w.db.tenants)) [
    | inl taken ↦ rw taken (h, hc)
    | inr free ↦ rw free ((create_tenant-Sound w.db _ h.0, h.1), hc)
  ];
}

pub mark_processed-Triple : (id type : String) → Triple Sound Sound (mark_processed id type)
unfolding mark_processed commit has_tenant has_plan
mark_processed-Triple id type = record { at = λ w s hc. (marked w.db s, marked w.db s) }
  where
    marked :
        (d : Db)
        → Sound d
        → Sound (record d {
          stripe_events = d.stripe_events ++ record { event_id = id; event_type = type } ∷ [];
        })
    marked d s = record {
      usage_keyed = s.usage_keyed;
      usage_tenants = s.usage_tenants;
      distinct = s.distinct;
      tenants = s.tenants;
      plans = s.plans;
    }
