-- ===== src/MeterRequest/Laws.antt =====
-- Which bodies POST /meter accepts (src/schemas/meter.py), and what an accepted one can cost.
use flyrank_capstone_meterin.Prelude.{
  ℕ, ◌*◌, ◌^◌, ◌≤◌, ◌<◌, ◌≡◌, refl, ap, ◌∙◌, ◌↔◌, inl, inr, true, Option, none, some, List, [], ◌∷◌,
  arith, Bool-cases,
}
use flyrank_capstone_meterin.Result.{ok}
use flyrank_capstone_meterin.Money.{ℤ, pos, negsuc, to_ℕ}
use flyrank_capstone_meterin.Models.{UsageType, api_call, type_value}
use flyrank_capstone_meterin.Cost.{PricingConfig, calculate}
use flyrank_capstone_meterin.Cost.Laws.{price_of, rounded_cost, calculate-ok}
use flyrank_capstone_meterin.Retry.{codes, lower}
use flyrank_capstone_meterin.Usage.{all_types}
use flyrank_capstone_meterin.MeterRequest.{
  MeterBody, max_quantity, same_codes, find_type, validate_usage_type, validate_quantity,
  validate_body, meter_request,
}

same_codes_sound : (a b : List ℕ) → same_codes a b ≡ true → a ≡ b
unfolding same_codes
same_codes_sound [] [] h = refl
same_codes_sound (a ∷ as_) (b ∷ bs) h = ground (arith, same_codes_sound as_ bs)
same_codes_sound [] (b ∷ bs) h = cc
same_codes_sound (a ∷ as_) [] h = cc

find_type_sound :
    (text : List ℕ) (ts : List UsageType) (u : UsageType)
    → find_type text ts ≡ some u
    → text ≡ codes (type_value u)
unfolding find_type
find_type_sound text [] u h = cc
find_type_sound text (t ∷ ts) u h = elim (Bool-cases (same_codes text (codes (type_value t)))) [
  | inl yes_ ↦
      let same : t ≡ u = cc (rw yes_ at h) in
      same_codes_sound text (codes (type_value t)) yes_ ∙ ap (λ x. codes (type_value x)) same
  | inr no_ ↦ find_type_sound text ts u (rw no_ at h)
]

find_type_complete : (u : UsageType) → find_type (codes (type_value u)) all_types ≡ some u
unfolding find_type same_codes type_value
find_type_complete api_call = refl
find_type_complete _ = refl

validate_body_ok :
    (t : Option UsageType) (q : Option ℕ) (u : UsageType) (n : ℕ)
    → validate_body t q ≡ ok (u, n)
    → (t ≡ some u) × (q ≡ some n)
unfolding validate_body
validate_body_ok (some t) (some q) u n h = (cc, cc)
validate_body_ok (some t) none u n h = absurd (cc h)
validate_body_ok none q u n h = absurd (cc h)

validate_quantity_iff :
    (q : ℤ) (n : ℕ) → (validate_quantity q ≡ some n) ↔ (q ≡ pos n) × (1 ≤ n) × (n ≤ max_quantity)
unfolding validate_quantity
validate_quantity_iff (negsuc m) n = (λ h. cc, λ h. cc)
validate_quantity_iff (pos m) n = (λ h. ground arith, λ h. ground arith)

-- A body is accepted as a type and a quantity exactly when its text in lower case, by all of Unicode,
-- is the type's value, and its quantity is that number, from 1 to ten millions.
pub meter_request_accepts :
    (body : MeterBody) (u : UsageType) (n : ℕ)
    → (meter_request body ≡ ok (u, n))
      ↔ (lower (codes body.usage_type) ≡ codes (type_value u))
        × (body.qty ≡ pos n)
        × (1 ≤ n)
        × (n ≤ 10000000)
unfolding meter_request validate_usage_type
meter_request_accepts body u n = (
  λ h.
      let (t, q) =
        validate_body_ok (validate_usage_type body.usage_type) (validate_quantity body.qty) u n h in
      let (number, least, most) = (validate_quantity_iff body.qty n).0 q in
      (find_type_sound (lower (codes body.usage_type)) all_types u t, number, least, most),
  λ (spelled, number, least, most).
      unfold validate_body in
      rw (spelled, find_type_complete u, (validate_quantity_iff body.qty n).1 (number, least, most))
        refl,
)

product_le : (n m p q : ℕ) → n ≤ m → p ≤ q → n * p ≤ m * q
product_le n m p q h k = grind arith

-- With a price of a thousand units of at most 922,337,203,685,477 microunits, the cost of every
-- accepted request fits a signed 64-bit integer, as the column `cost_microunits` is.
pub accepted_cost_fits :
    (pricing : PricingConfig) (body : MeterBody) (u : UsageType) (n cost : ℕ)
    → meter_request body ≡ ok (u, n)
    → calculate pricing u n ≡ ok cost
    → to_ℕ (price_of pricing u) ≤ 922337203685477
    → cost < 2 ^ 63
accepted_cost_fits pricing body u n cost accepted priced cheap =
    let (spelled, number, least, most) = (meter_request_accepts body u n).0 accepted in
    let bound : n * to_ℕ (price_of pricing u) ≤ 10000000 * 922337203685477 =
      product_le n 10000000 (to_ℕ (price_of pricing u)) 922337203685477 most cheap in
    let same : rounded_cost pricing u n ≡ cost =
      cc (calculate-ok pricing u n (omega (arith, bound)), priced) in
    omega (arith, same, bound)
