-- ===== src/Webhook/Delivery.antt =====
-- Redelivered and failed Stripe events (src/api/v1/webhook.py, src/repositories/stripe_event_repo.py).
use mathlib.Core.Path.{fun_ext}
use flyrank_capstone_meterin.Prelude.{
  String, ◌≡◌, refl, ap, ◌∙◌, ◌⊎◌, inl, inr, true, false, Option, none, some, List, [], ◌∷◌, ◌++◌,
  arith, str_eq, eq_refl, select, select-append,
}
use flyrank_capstone_meterin.Result.{ok, err, Result-cases}
use flyrank_capstone_meterin.Errors.{Exn}
use flyrank_capstone_meterin.Models.{ProcessedStripeEvent}
use flyrank_capstone_meterin.World.{World, Moment, get_db, commit, rollback, scalar_one_or_none}
use flyrank_capstone_meterin.World.Session.{get_db_ok, get_db_err}
use flyrank_capstone_meterin.Tenants.{is_processed, of_found, mark_processed}
use flyrank_capstone_meterin.Stripe.{Event, StripeEnv}
use flyrank_capstone_meterin.Handlers.Checkout.{truthy}
use flyrank_capstone_meterin.Webhook.{
  Reply, already_processed, success, process_stripe_event, process_and_mark, or_failed, try_process,
  verify_signature_or_raise, unless_processed, handle_event, with_signature, stripe_webhook,
}
use flyrank_capstone_meterin.Webhook.Laws.{process_stripe_event-Keeps}

-- The marks of an event.
abbrev pub marks : String → World → List ProcessedStripeEvent
marks id w = select (λ (e : ProcessedStripeEvent). str_eq e.event_id id) w.db.stripe_events

abbrev pub mark_of : Event → ProcessedStripeEvent
mark_of event = record { event_id = event.id; event_type = event.type }

is_processed-false : (id : String) (w : World) → (is_processed id w).0 ≡ ok false → marks id w ≡ []
unfolding is_processed of_found scalar_one_or_none
is_processed-false id w h = ground arith

is_processed_reads : (id : String) (w : World) → (is_processed id w).1 ≡ w
unfolding is_processed
is_processed_reads id w = refl

-- An event has no mark, has one, or the lookup fails.
seen_cases :
    (id : String) (w : World)
    → ((is_processed id w).0 ≡ ok false)
      ⊎ ((is_processed id w).0 ≡ ok true)
      ⊎ ((e : Exn) × ((is_processed id w).0 ≡ err e))
seen_cases id w = elim (Result-cases (is_processed id w).0) [
  | inl (true, p) ↦ inr (inl p)
  | inl (false, p) ↦ inl p
  | inr (e, p) ↦ inr (inr (e, p))
]

module _ (env : StripeEnv) (m : Moment) (event : Event) where
  -- What processing and marking leaves, by how it ends.
  process_and_mark_ok :
      (w : World) (r : Reply)
      → (process_and_mark env m event w).0 ≡ ok r
      → let w' = (process_and_mark env m event w).1 in
        (w'.committed ≡ w'.db) × (w'.db.stripe_events ≡ w.db.stripe_events ++ mark_of event ∷ [])
  unfolding process_and_mark mark_processed commit
  process_and_mark_ok w r h = elim (Result-cases (process_stripe_event env m event w).0) [
    | inl (a, p) ↦ rw p (
      refl,
      ap (λ l. l ++ mark_of event ∷ [])
          ((process_stripe_event-Keeps env m event).at w).stripe_events,
    )
    | inr (e, p) ↦ absurd (cc (rw p at h))
  ]

  process_and_mark_err :
      (w : World) (e : Exn)
      → (process_and_mark env m event w).0 ≡ err e
      → (process_and_mark env m event w).1.committed ≡ w.committed
  unfolding process_and_mark mark_processed commit
  process_and_mark_err w e h = elim (Result-cases (process_stripe_event env m event w).0) [
    | inl (a, p) ↦ absurd (cc (rw p at h))
    | inr (e', p) ↦ rw p (((process_stripe_event-Keeps env m event).at w).committed)
  ]

  -- What `handle_event` does, by what it finds of earlier deliveries.
  handle_event_new :
      (w : World)
      → (is_processed event.id w).0 ≡ ok false
      → handle_event env m event w ≡ try_process env m event w
  unfolding handle_event unless_processed
  handle_event_new w p = rw (p, is_processed_reads event.id w)

  handle_event_old :
      (w : World)
      → (is_processed event.id w).0 ≡ ok true
      → handle_event env m event w ≡ (ok already_processed, w)
  unfolding handle_event unless_processed
  handle_event_old w p = rw (p, is_processed_reads event.id w)

  handle_event_error :
      (w : World) (e : Exn)
      → (is_processed event.id w).0 ≡ err e
      → handle_event env m event w ≡ (err e, w)
  unfolding handle_event
  handle_event_error w e p = rw (p, is_processed_reads event.id w)

  try_process_success :
      (w : World)
      → (try_process env m event w).0 ≡ ok success
      → marks event.id w ≡ []
      → let w' = (try_process env m event w).1 in
        (w'.committed ≡ w'.db) × (marks event.id w' ≡ mark_of event ∷ [])
  unfolding try_process or_failed select
  try_process_success w h unmarked = elim (Result-cases (process_and_mark env m event w).0) [
    | inl (r, p) ↦
        let (same, marked) = process_and_mark_ok w r p in
        (same, rw (marked, select-append, unmarked, eq_refl event.id))
    | inr (e, p) ↦ absurd (cc (rw p at h))
  ]

  try_process_err :
      (w : World) (e : Exn)
      → (try_process env m event w).0 ≡ err e
      → (try_process env m event w).1.committed ≡ w.committed
  unfolding try_process or_failed
  try_process_err w e h = elim (Result-cases (process_and_mark env m event w).0) [
    | inl (r, p) ↦ absurd (cc (rw p at h))
    | inr (e', p) ↦ process_and_mark_err w e' p
  ]

  handle_event_success :
      (w : World)
      → (handle_event env m event w).0 ≡ ok success
      → let w' = (handle_event env m event w).1 in
        (w'.committed ≡ w'.db) × (marks event.id w' ≡ mark_of event ∷ [])
  handle_event_success w h = elim (seen_cases event.id w) [
    | inl new ↦ rw (handle_event_new w new) (
        try_process_success w (rw (handle_event_new w new) at h)
          (is_processed-false event.id w new))
    | inr (inl old) ↦ absurd (cc (rw (handle_event_old w old) at h))
    | inr (inr (e, p)) ↦ absurd (cc (rw (handle_event_error w e p) at h))
  ]

  handle_event_err :
      (w : World) (e : Exn)
      → (handle_event env m event w).0 ≡ err e
      → (handle_event env m event w).1.committed ≡ w.committed
  handle_event_err w e h = elim (seen_cases event.id w) [
    | inl new ↦ rw (handle_event_new w new) (try_process_err w e (rw (handle_event_new w new) at h))
    | inr (inl old) ↦ rw (handle_event_old w old)
    | inr (inr (e', p)) ↦ rw (handle_event_error w e' p)
  ]

  -- An event with one mark is answered as already processed, and nothing is changed.
  handle_event_seen :
      (w : World) (mark : ProcessedStripeEvent)
      → marks event.id w ≡ mark ∷ []
      → handle_event env m event w ≡ (ok already_processed, w)
  unfolding handle_event is_processed of_found scalar_one_or_none unless_processed
  handle_event_seen w mark one = rw one

-- The event of a request with a signature that verifies.
with_signature_lem :
    (env : StripeEnv) (m : Moment) (payload : String) (sig : String) (event : Event) (w : World)
    → verify_signature_or_raise env m payload sig ≡ ok event
    → with_signature env m payload (some sig) w ≡ handle_event env m event w
unfolding with_signature
with_signature_lem env m payload sig event w p = rw p

stripe_webhook_lem :
    (env : StripeEnv) (m : Moment) (payload : String) (sig : String) (event : Event) (w : World)
    → verify_signature_or_raise env m payload sig ≡ ok event
    → truthy (some sig) ≡ some sig
    → stripe_webhook env m payload (some sig) w ≡ get_db (handle_event env m event) w
unfolding stripe_webhook
stripe_webhook_lem env m payload sig event w verified signed = rw signed (
    ap (λ body. get_db body w) (fun_ext λ v. with_signature_lem env m payload sig event v verified))

with_signature_err :
    (env : StripeEnv) (m : Moment) (payload : String) (sig : Option String) (w : World) (e : Exn)
    → (with_signature env m payload sig w).0 ≡ err e
    → (with_signature env m payload sig w).1.committed ≡ w.committed
unfolding with_signature
with_signature_err env m payload none w e h = refl
with_signature_err env m payload (some sig) w e h =
    elim (Result-cases (verify_signature_or_raise env m payload sig)) [
      | inl (event, p) ↦ rw p (handle_event_err env m event w e (rw p at h))
      | inr (e', p) ↦ rw p
    ]

-- An event that was processed with success and is delivered again, at any moment and in any request
-- whose signature verifies at that moment to an event with the same id, is answered as already
-- processed, and neither the database nor Redis is changed.
pub webhook_redelivered :
    (env : StripeEnv) (m m' : Moment) (payload payload' : String) (sig sig' : String)
    (event event' : Event) (w : World)
    → verify_signature_or_raise env m payload sig ≡ ok event
    → truthy (some sig) ≡ some sig
    → (stripe_webhook env m payload (some sig) w).0 ≡ ok success
    → verify_signature_or_raise env m' payload' sig' ≡ ok event'
    → truthy (some sig') ≡ some sig'
    → event'.id ≡ event.id
    → let (_, w') = stripe_webhook env m payload (some sig) w in
      let (answer, w'') = stripe_webhook env m' payload' (some sig') w' in
      (answer ≡ ok already_processed)
      × (w''.db ≡ w'.db)
      × (w''.committed ≡ w'.committed)
      × (w''.redis ≡ w'.redis)
unfolding commit rollback
webhook_redelivered env m m' payload payload' sig sig' event event' w verified signed h again
      signed' same_id =
    let run = stripe_webhook_lem env m payload sig event w verified signed in
    let (result, final) = get_db_ok (handle_event env m event) w success (rw run at h) in
    let (same, marked) = handle_event_success env m event (rollback w) result in
    let x = (handle_event env m event (rollback w)).1 in
    let marked' : marks event'.id (rollback (commit x)) ≡ mark_of event ∷ [] = rw same_id marked in
    rw (run, final, stripe_webhook_lem env m' payload' sig' event' (commit x) again signed')
      (unfold get_db in
        rw (handle_event_seen env m' event' (rollback (commit x)) (mark_of event) marked')
          (refl, refl, refl, refl))

-- A delivery that ends in an exception leaves the database as it was, both what is committed and what
-- the session shows.
pub webhook_failed :
    (env : StripeEnv) (m : Moment) (payload : String) (sig_header : Option String) (w : World)
    (e : Exn)
    → (stripe_webhook env m payload sig_header w).0 ≡ err e
    → let w' = (stripe_webhook env m payload sig_header w).1 in
      (w'.db ≡ w.committed) × (w'.committed ≡ w.committed)
unfolding rollback stripe_webhook
webhook_failed env m payload sig_header w e h =
    let (result, final) = get_db_err (with_signature env m payload (truthy sig_header)) w e h in
    let kept = with_signature_err env m payload (truthy sig_header) (rollback w) e result in
    (ap (λ x. x.db) final ∙ kept, ap (λ x. x.committed) final ∙ kept)
