-- ===== src/Seed/Laws.antt =====
-- How many events src/seed.py inserts, and what they sum up to.
use flyrank_capstone_meterin.Prelude.{
  ℕ, zero, suc, ◌+◌, ◌*◌, ◌%◌, ◌≤◌, ◌<◌, ◌≡◌, ◌≢◌, refl, ◌∙◌, inl, inr, Bool, true, false, not,
  ◌&&◌, String, List, [], ◌∷◌, arith, ◌==◌, str_eq, eq_iff, if◌then◌else◌, Bool-cases, exists,
  sum_where, exists-append, sum_where-append, sum_where-none,
}
use flyrank_capstone_meterin.Result.{ok}
use flyrank_capstone_meterin.Migrations.Schema.{Table}
use flyrank_capstone_meterin.Seed.{
  RawEvent, RawTables, SeedEnv, same_key, insert_event, insert_range, insert_batches, api_event,
  token_event, token_type, seed, api_calls_to_insert, token_batches, tokens_per_batch,
  free_api_quota, free_token_quota, has_columns, execute, insert_account, insert_api_calls,
  insert_tokens, commit_after, plan_columns, tenant_columns, subscription_columns, event_columns,
  seed_plans, seed_tenant, seed_subscription,
}
use flyrank_capstone_meterin.Seed.Keys.{
  IsNumbering, api_key_apart, token_key_batch, token_key_apart,
}

-- Rows of different keys, none of which is in the table, are all inserted.
module _ (row : ℕ → RawEvent) where
  -- A row that differs from all of a range in its key is in the table as before.
  pub range_others :
      (n : ℕ) (e : RawEvent) (rows : List RawEvent)
      → ((i : ℕ) → i < n → same_key e (row i) ≡ false)
      → exists (same_key e) (insert_range n row rows) ≡ exists (same_key e) rows
  unfolding insert_range insert_event
  range_others zero e rows apart = refl
  range_others (suc n) e rows apart =
      let before = range_others n e rows λ i h. apart i (omega arith) in
      let last = apart n (omega arith) in
      ground (arith, exists-append (same_key e) (insert_range n row rows) (row n))

  -- A sum over the table grows by what each row of the range adds.
  pub range_sum :
      (p : RawEvent → Bool) (f : RawEvent → ℕ) (c n : ℕ) (rows : List RawEvent)
      → ((i : ℕ) → (if p (row i) then f (row i) else 0) ≡ c)
      → ((i j : ℕ) → j < i → same_key (row i) (row j) ≡ false)
      → ((i : ℕ) → exists (same_key (row i)) rows ≡ false)
      → sum_where p f (insert_range n row rows) ≡ sum_where p f rows + n * c
  unfolding insert_range insert_event
  range_sum p f c zero rows each apart fresh = omega arith
  range_sum p f c (suc n) rows each apart fresh =
      let before = range_sum p f c n rows each apart fresh in
      let new = range_others n (row n) rows (λ j h. apart n j h) ∙ fresh n in
      rw (new, sum_where-append, before, each n) (omega arith)

-- Rows of different keys.
keys_differ : (a b : RawEvent) → b.idempotency_key ≢ a.idempotency_key → same_key a b ≡ false
unfolding same_key
keys_differ a b apart = ground (arith, eq_iff b.idempotency_key a.idempotency_key)

-- No batch is of API calls.
token_type_apart :
    (b : ℕ)
    → (str_eq "api_call" (token_type b) ≡ false) × (str_eq (token_type b) "api_call" ≡ false)
unfolding token_type
token_type_apart b = elim (Bool-cases (b % 4 == 0)) [
  | inl zeroth ↦ rw zeroth (refl, refl)
  | inr after ↦ elim (Bool-cases (b % 4 == 1)) [
    | inl first ↦ rw (after, first) (refl, refl)
    | inr other ↦ elim (Bool-cases (b % 4 == 2)) [
      | inl second ↦ rw (after, other, second) (refl, refl)
      | inr third ↦ rw (after, other, third) (refl, refl)
    ]
  ]
]

module _ (env : SeedEnv) (numbering : IsNumbering env.str) where
  api_apart : (i j : ℕ) → j < i → same_key (api_event env i) (api_event env j) ≡ false
  api_apart i j h =
      keys_differ _ _ λ same. let e = api_key_apart env numbering j i same in omega arith

  token_apart : (b i j : ℕ) → j < i → same_key (token_event env b i) (token_event env b j) ≡ false
  token_apart b i j h =
      keys_differ _ _ λ same. let e = token_key_apart env numbering b j i same in omega arith

  batch_apart : (b c i j : ℕ) → c < b → same_key (token_event env b i) (token_event env c j) ≡ false
  batch_apart b c i j h =
      keys_differ _ _ λ same. let e = token_key_batch env numbering c b j i same in omega arith

  -- The types differ, so that no token event has the key of an API call.
  token_api_apart : (b i j : ℕ) → same_key (token_event env b i) (api_event env j) ≡ false
  unfolding same_key
  token_api_apart b i j = let other = token_type_apart b in rw other.0 (ground arith)

  -- A row of a later batch is not among those of the earlier ones.
  batches_others :
      (per n b i : ℕ) (rows : List RawEvent)
      → n ≤ b
      → exists (same_key (token_event env b i)) (insert_batches env per n rows)
        ≡ exists (same_key (token_event env b i)) rows
  unfolding insert_batches
  batches_others per zero b i rows h = refl
  batches_others per (suc n) b i rows h =
      range_others (token_event env n) per (token_event env b i) (insert_batches env per n rows)
        (λ j _. batch_apart b n i j (omega arith))
      ∙ batches_others per n b i rows (omega arith)

  batches_sum :
      (p : RawEvent → Bool) (f : RawEvent → ℕ) (c per n : ℕ) (rows : List RawEvent)
      → ((b i : ℕ) → (if p (token_event env b i) then f (token_event env b i) else 0) ≡ c)
      → ((b i : ℕ) → exists (same_key (token_event env b i)) rows ≡ false)
      → sum_where p f (insert_batches env per n rows) ≡ sum_where p f rows + n * (per * c)
  unfolding insert_batches
  batches_sum p f c per zero rows each fresh = omega arith
  batches_sum p f c per (suc n) rows each fresh =
      range_sum (token_event env n) p f c per (insert_batches env per n rows) (each n)
        (token_apart n) (λ i. batches_others per n n i rows (omega arith) ∙ fresh n i)
      ∙ rw (batches_sum p f c per n rows each fresh) (omega arith)

-- What no row passes, no row passes with a further test.
exists_weaker :
    (p q : RawEvent → Bool) (rows : List RawEvent)
    → ((e : RawEvent) → p e ≡ true → q e ≡ true)
    → exists q rows ≡ false
    → exists p rows ≡ false
unfolding exists
exists_weaker p q [] weaker h = refl
exists_weaker p q (e ∷ rows) weaker h = ground (arith, weaker e, exists_weaker p q rows weaker)

module _ (env : SeedEnv) where
  abbrev pub is_seeded_event : RawEvent → Bool
  is_seeded_event e = e.tenant_id == env.tenant_id

  abbrev pub is_api_call : RawEvent → Bool
  is_api_call e = is_seeded_event e && str_eq e.usage_type "api_call"

  abbrev pub is_token : RawEvent → Bool
  is_token e = is_seeded_event e && not (str_eq e.usage_type "api_call")

  same_key_tenant :
      (e x : RawEvent)
      → e.tenant_id ≡ env.tenant_id
      → same_key e x ≡ true
      → is_seeded_event x ≡ true
  unfolding same_key
  same_key_tenant e x same h = ground arith

-- The schema has every column that the script names.
abbrev pub HasColumns : List Table → Type 0
HasColumns schema =
    (has_columns "plans" plan_columns schema ≡ true)
    × (has_columns "tenants" tenant_columns schema ≡ true)
    × (has_columns "subscriptions" subscription_columns schema ≡ true)
    × (has_columns "usage_events" event_columns schema ≡ true)

-- The tables after the script.
abbrev seeded : SeedEnv → RawTables → RawTables
seeded env t = record {
  plans = seed_plans t.plans;
  tenants = seed_tenant env t.tenants;
  subscriptions = seed_subscription env t.subscriptions;
  usage_events =
      insert_batches env tokens_per_batch token_batches
        (insert_range api_calls_to_insert (api_event env) t.usage_events);
}

execute_ok :
    (schema : List Table) (table : String) (columns : List String)
    → has_columns table columns schema ≡ true
    → (change : RawTables → RawTables) (t : RawTables)
    → execute schema table columns change t ≡ ok (change t)
unfolding execute
execute_ok schema table columns has change t = rw has refl

seed-seeded :
    (env : SeedEnv) (schema : List Table) (t : RawTables)
    → HasColumns schema
    → seed env schema t ≡ (ok tt, seeded env t)
unfolding seed commit_after insert_account insert_api_calls insert_tokens
seed-seeded env schema t has =
    let (plans, tenants, subscriptions, events) = has in
    rw
      (
        execute_ok schema "plans" plan_columns plans,
        execute_ok schema "tenants" tenant_columns tenants,
        execute_ok schema "subscriptions" subscription_columns subscriptions,
        execute_ok schema "usage_events" event_columns events,
        execute_ok schema "usage_events" event_columns events,
      )
      refl

module _ (env : SeedEnv) (numbering : IsNumbering env.str) (t : RawTables)
    (fresh : exists (is_seeded_event env) t.usage_events ≡ false) where
  fresh_key :
      (e : RawEvent) → e.tenant_id ≡ env.tenant_id → exists (same_key e) t.usage_events ≡ false
  fresh_key e same =
      exists_weaker (same_key e) (is_seeded_event env) t.usage_events
        (λ x h. same_key_tenant env e x same h) fresh

  -- A sum over the events of the tenant, each of which adds the same in each of the two loops.
  seeded_sum :
      (p : RawEvent → Bool) (f : RawEvent → ℕ) (a c : ℕ)
      → ((e : RawEvent) → p e ≡ true → is_seeded_event env e ≡ true)
      → ((i : ℕ) → (if p (api_event env i) then f (api_event env i) else 0) ≡ a)
      → ((b i : ℕ) → (if p (token_event env b i) then f (token_event env b i) else 0) ≡ c)
      → sum_where p f (seeded env t).usage_events
        ≡ api_calls_to_insert * a + token_batches * (tokens_per_batch * c)
  seeded_sum p f a c seeded each_api each_token =
      let api =
        range_sum (api_event env) p f a api_calls_to_insert t.usage_events each_api
          (api_apart env numbering) (λ i. fresh_key (api_event env i) refl) in
      let tokens =
        batches_sum env numbering p f c tokens_per_batch token_batches
          (insert_range api_calls_to_insert (api_event env) t.usage_events) each_token
          (λ b i.
            range_others (api_event env) api_calls_to_insert (token_event env b i) t.usage_events
              (λ j _. token_api_apart env numbering b i j)
            ∙ fresh_key (token_event env b i) refl) in
      let empty =
        sum_where-none p f t.usage_events
          (exists_weaker p (is_seeded_event env) t.usage_events seeded fresh) in
      tokens ∙ rw (api, empty) (omega arith)

  -- Where the schema has the columns that the script names, the text of a number says which number
  -- it is, and no event is of the new tenant: the script succeeds and leaves 504,989 events of it.
  -- Its API calls are one below the quota of its plan; its tokens are 49,999,000, beyond the quota of
  -- 500,000.
  pub seed_totals :
      (schema : List Table)
      → HasColumns schema
      → let (r, t') = seed env schema t in
        (r ≡ ok tt)
        × (sum_where (is_seeded_event env) (λ _. 1) t'.usage_events ≡ 504989)
        × (sum_where (is_api_call env) (λ e. e.quantity) t'.usage_events + 1 ≡ free_api_quota)
        × (sum_where (is_token env) (λ e. e.quantity) t'.usage_events ≡ 49999000)
        × (free_token_quota < sum_where (is_token env) (λ e. e.quantity) t'.usage_events)
  seed_totals schema has =
      let all =
        seeded_sum (is_seeded_event env) (λ _. 1) 1 1 (λ e h. h) (λ i. ground arith)
          (λ b i. ground arith) in
      let api =
        seeded_sum (is_api_call env) (λ e. e.quantity) 1 0 (λ e h. ground arith) (λ i. ground arith)
          (λ b i. rw (token_type_apart b).1 (ground arith)) in
      let tokens =
        seeded_sum (is_token env) (λ e. e.quantity) 0 100 (λ e h. ground arith) (λ i. ground arith)
          (λ b i. rw (token_type_apart b).1 (ground arith)) in
      rw (seed-seeded env schema t has) (refl, all, rw api refl, tokens, rw tokens (omega arith))
