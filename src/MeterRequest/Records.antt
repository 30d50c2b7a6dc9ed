-- ===== src/MeterRequest/Records.antt =====
-- What a request to POST /meter can commit (src/api/v1/meter.py, src/services/meter_service.py).
use flyrank_capstone_meterin.Prelude.{
  ℕ, ◌≤◌, ◌≡◌, refl, ◌∙◌, ◌⊎◌, inl, inr, Option, none, some, List, [], ◌∷◌, ◌++◌,
}
use flyrank_capstone_meterin.Result.{ok, Result-cases}
use flyrank_capstone_meterin.Exec.{◌>>=◌}
use flyrank_capstone_meterin.Models.{UsageEvent}
use flyrank_capstone_meterin.Payloads.{Cached}
use flyrank_capstone_meterin.World.{World, App, Moment, commit, rollback}
use flyrank_capstone_meterin.World.Scope.{Keeps, Keeps-lift, keeps_rules}
use flyrank_capstone_meterin.World.Session.{get_db_ok, get_db_err}
use flyrank_capstone_meterin.Auth.{AuthEnv}
use flyrank_capstone_meterin.Meter.{Env, MeterCall}
use flyrank_capstone_meterin.Meter.Laws.{priced_event, record_usage_or}
use flyrank_capstone_meterin.Meter.Safety.{record_event_or}
use flyrank_capstone_meterin.MeterApi.{try_record, record_and_store, answer_from, handle_meter}
use flyrank_capstone_meterin.MeterRequest.{
  MeterBody, MeterHeaders, max_quantity, meter_request, call_of, meter_body, request_meter,
}
use flyrank_capstone_meterin.MeterRequest.Laws.{meter_request_accepts}
use flyrank_capstone_meterin.Auth.Scope.{
  cached_get-Keeps, cached_set-Keeps, get_current_tenant-Keeps,
}

-- A new event of an accepted quantity.
pub record Accepted (e : UsageEvent) : Type 0 where
  pub least : 1 ≤ e.quantity
  pub most : e.quantity ≤ max_quantity

-- The usage events are those of before, or one accepted event more.
abbrev pub IsGrown : List UsageEvent → List UsageEvent → Type 0
IsGrown before after = (after ≡ before) ⊎ (e : UsageEvent) × (after ≡ before ++ e ∷ []) × Accepted e

IsGrown-from : (a b c : List UsageEvent) → a ≡ b → IsGrown a c → IsGrown b c
IsGrown-from a b c h g = rw⁻¹ h g

record Adds {A : Type 0} (m : App A) : Type 0 where
  at :
      (w : World)
      → ((m w).1.committed ≡ w.committed) × IsGrown w.db.usage_events (m w).1.db.usage_events

Keeps-Adds : {A : Type 0} (m : App A) → Keeps m → Adds m
Keeps-Adds m k = record { at = λ w. ((k.at w).committed, inl (k.at w).usage_events) }

module _ {A B : Type 0} (m : App A) (f : A → App B) where
  -- Only what returns goes on.
  Keeps-then : Keeps m → ((a : A) (w : World) → (m w).0 ≡ ok a → Adds (f a)) → Adds (m >>= f)
  Keeps-then k then_ = record {
    at = λ w. elim (Result-cases (m w).0) [
      | inl (a, p) ↦ rw p (
        ((then_ a w p).at (m w).1).0 ∙ (k.at w).committed,
        IsGrown-from _ _ _ (k.at w).usage_events ((then_ a w p).at (m w).1).1,
      )
      | inr (e, p) ↦ rw p ((k.at w).committed, inl (k.at w).usage_events)
    ];
  }

  Adds-then : Adds m → ((a : A) → Keeps (f a)) → Adds (m >>= f)
  Adds-then k then_ = record {
    at = λ w. elim (Result-cases (m w).0) [
      | inl (a, p) ↦ rw p (
        ((then_ a).at (m w).1).committed ∙ (k.at w).0,
        rw ((then_ a).at (m w).1).usage_events (k.at w).1,
      )
      | inr (e, p) ↦ rw p (k.at w)
    ];
  }

module _ (env : Env) (auth : AuthEnv) (m : Moment) (id : ℕ) where
  record_event-Adds :
      (call : MeterCall) → Accepted (priced_event env m id call) → Adds (try_record env m id call)
  unfolding try_record
  record_event-Adds call accepted = record {
    at = λ w. elim (record_event_or env m id call w) [
      | inl same ↦ rw same (refl, inl refl)
      | inr stored ↦ elim (record_usage_or (priced_event env m id call) w) [
        | inl same ↦ rw (stored, same) (refl, inl refl)
        | inr inserted ↦
            rw (stored, inserted) (refl, inr (priced_event env m id call, refl, accepted))
      ]
    ];
  }

  answer_from-Adds :
      (call : MeterCall) (found : Option Cached)
      → Accepted (priced_event env m id call)
      → Adds (answer_from env auth.uuid_text m id call found)
  unfolding answer_from record_and_store
  answer_from-Adds call (some c) accepted = Keeps-Adds _ (Keeps-lift _)
  answer_from-Adds call none accepted =
      Adds-then _ _ (record_event-Adds call accepted) (λ a. search (keeps_rules, cached_set-Keeps))

  handle_meter-Adds :
      (call : MeterCall)
      → Accepted (priced_event env m id call)
      → Adds (handle_meter env auth.uuid_text m id call)
  unfolding handle_meter
  handle_meter-Adds call accepted =
      Keeps-then _ _ (cached_get-Keeps m _) (λ found w p. answer_from-Adds call found accepted)

  meter_body-Adds : (h : MeterHeaders) (body : MeterBody) → Adds (meter_body env auth m id h body)
  unfolding meter_body
  meter_body-Adds h body =
      Keeps-then _ _ (get_current_tenant-Keeps auth m h.x_tenant_id h.x_api_key) (λ l w p.
        Keeps-then _ _ (Keeps-lift (meter_request body)) (λ valid v accepted.
          let (spelled, number, least, most) =
            (meter_request_accepts body valid.0 valid.1).0 accepted in
          handle_meter-Adds (call_of h l valid) (record { least = least; most = most })))

  -- Whatever a request to POST /meter holds, and whether it returns or fails, the committed usage
  -- events are those of before, or one more with a quantity from 1 to ten millions.
  pub request_meter_grows :
      (h : MeterHeaders) (body : MeterBody) (w : World)
      → IsGrown w.committed.usage_events
          (request_meter env auth m id h body w).1.committed.usage_events
  unfolding request_meter
  request_meter_grows h body w =
      let (committed, grown) = (meter_body-Adds h body).at (rollback w) in
      elim (Result-cases (request_meter env auth m id h body w).0) [
        | inl (a, p) ↦
            let (result, final) = get_db_ok (meter_body env auth m id h body) w a p in
            rw final (unfold commit rollback in grown)
        | inr (e, p) ↦
            let (result, final) = get_db_err (meter_body env auth m id h body) w e p in
            rw final (unfold commit rollback in rw committed (inl refl))
      ]
