-- ===== src/Invariant.antt =====
-- What holds of the tables of src/models/ at the end of every request: the unique columns and the
-- foreign keys.
pub mod Keys
pub mod Writes
pub mod Triple
pub mod Repos
pub mod Events
pub mod Webhooks
pub mod Endpoints
pub mod Accounts
pub mod Requests
pub mod Reach
use flyrank_capstone_meterin.Prelude.{
  ℕ, String, Bool, true, false, ◌||◌, Option, none, some, List, [], ◌∷◌, map, ◌≡◌, ◌==◌, str_eq,
  exists,
}
use flyrank_capstone_meterin.Models.{Subscription, UsageEvent}
use flyrank_capstone_meterin.World.{Db}
use flyrank_capstone_meterin.Usage.Laws.{IsKeyed}
use flyrank_capstone_meterin.Subscriptions.{has_tenant, has_plan}

-- The columns of a subscription that no other may share: the id, the tenant and Stripe's id.
abbrev pub Keys : Type 0
Keys = ℕ × ℕ × Option String

abbrev pub keys_of : Subscription → Keys
keys_of s = (s.id, s.tenant_id, s.stripe_subscription_id)

unfoldable pub same_text : Option String → Option String → Bool
same_text (some a) (some b) = str_eq a b
same_text _ _ = false

abbrev pub share : Keys → Keys → Bool
share (id, tenant, stripe) (id', tenant', stripe') =
    id == id' || (tenant == tenant' || same_text stripe stripe')

abbrev pub IsDistinct : List Keys → Type 0
IsDistinct [] = Unit
IsDistinct (k ∷ ks) = (exists (share k) ks ≡ false) × IsDistinct ks

abbrev pub AllOf : {A : Type 0} → (A → Bool) → List A → Type 0
AllOf p [] = Unit
AllOf p (x ∷ xs) = (p x ≡ true) × AllOf p xs

pub record Sound (d : Db) : Type 0 where
  pub usage_keyed : IsKeyed d.usage_events
  pub usage_tenants : AllOf (λ (e : UsageEvent). has_tenant e.tenant_id d) d.usage_events
  pub distinct : IsDistinct (map keys_of d.subscriptions)
  pub tenants : AllOf (λ (k : Keys). has_tenant k.1 d) (map keys_of d.subscriptions)
  pub plans : AllOf (λ (s : Subscription). has_plan s.plan_id d) d.subscriptions
