-- ===== src/Migrations/Undo.antt =====
-- Undoing the operations of src/alembic/versions that create: dropping what was created, in the
-- opposite order.
use flyrank_capstone_meterin.Prelude.{
  String, ◌≡◌, refl, ap, sym, ◌∙◌, inl, inr, Bool, true, false, not, List, [], ◌∷◌, ◌++◌, arith,
  eq_refl, eq_iff, Bool-cases, select, exists,
}
use flyrank_capstone_meterin.Result.{ok, Result-cases}
use flyrank_capstone_meterin.Migrations.Schema.{
  TableConstraint, primary_key, foreign_key, unique, Table, Index, Schema, Operation, create_table,
  create_index, drop_index, drop_table, is_named, index_named, is_on, is_taken, references,
  refers_to, is_dangling, lacks_columns, apply, apply_all,
}

pub data Creation : Type 0 where
  table : Table → Creation
  index : Index → Creation

abbrev pub make : Creation → Operation
make (table t) = create_table t
make (index i) = create_index i

abbrev pub undo : Creation → Operation
undo (table t) = drop_table t.name
undo (index i) = drop_index i.name i.table

abbrev pub makes : List Creation → List Operation
makes [] = []
makes (c ∷ cs) = make c ∷ makes cs

abbrev pub undoes : List Creation → List Operation
undoes [] = []
undoes (c ∷ cs) = undoes cs ++ undo c ∷ []

-- What a table or an index refers to is there: of a name that is not a table's, neither a foreign
-- key nor an index speaks.
abbrev pub IsClosed : Schema → Type 0
IsClosed s =
    (name : String)
    → exists (is_named name) s.tables ≡ false
    → (exists (references name) s.tables ≡ false) × (exists (is_on name) s.indexes ≡ false)

-- Where no row passes the test, dropping those that do drops none.
select-not :
    {A : Type 0} (p : A → Bool) (xs : List A)
    → exists p xs ≡ false
    → select (λ x. not (p x)) xs ≡ xs
unfolding select exists
select-not p [] h = refl
select-not p (x ∷ xs) h = ground (arith, select-not p xs)

-- A constraint that does not dangle does not refer to a table that is not there.
target_absent :
    (name : String) (tables : List Table) (cs : List TableConstraint)
    → exists (is_dangling tables) cs ≡ false
    → exists (is_named name) tables ≡ false
    → exists (refers_to name) cs ≡ false
unfolding exists is_dangling refers_to
target_absent name tables [] h absent = refl
target_absent name tables (foreign_key columns target others ondelete ∷ cs) h absent =
    ground (arith, eq_iff target name, target_absent name tables cs)
target_absent name tables (primary_key columns ∷ cs) h absent =
    target_absent name tables cs h absent
target_absent name tables (unique columns constraint ∷ cs) h absent =
    target_absent name tables cs h absent

-- The table of an index that lacks no column is there.
on_absent :
    (i : Index) (tables : List Table)
    → lacks_columns i tables ≡ false
    → exists (is_named i.table) tables ≡ true
unfolding exists lacks_columns
on_absent i [] h = cc
on_absent i (t ∷ rest) h = ground (arith, on_absent i rest)

-- A name that neither a table nor an index has.
pub taken_parts :
    (name : String) (s : Schema)
    → is_taken name s ≡ false
    → (exists (is_named name) s.tables ≡ false) × (exists (index_named name) s.indexes ≡ false)
taken_parts name s h = ground arith

table-IsClosed :
    (t : Table) (s : Schema)
    → IsClosed s
    → exists (is_dangling (t ∷ s.tables)) t.constraints ≡ false
    → IsClosed (record s { tables = t ∷ s.tables })
table-IsClosed t s closed whole name absent =
    let (tables, indexes) = closed name (unfold exists in ground arith) in
    let own = target_absent name (t ∷ s.tables) t.constraints whole absent in
    (unfold exists in ground arith, indexes)

index-IsClosed :
    (i : Index) (s : Schema)
    → IsClosed s
    → lacks_columns i s.tables ≡ false
    → IsClosed (record s { indexes = i ∷ s.indexes })
index-IsClosed i s closed whole name absent =
    let (tables, indexes) = closed name absent in
    let there = on_absent i s.tables whole in
    (tables, unfold exists in ground (arith, eq_iff i.table name))

-- Dropping the table that was just created gives back the schema.
drop_created :
    (t : Table) (s : Schema)
    → IsClosed s
    → is_taken t.name s ≡ false
    → apply (drop_table t.name) (record s { tables = t ∷ s.tables }) ≡ (ok tt, s)
drop_created t s closed free =
    let (absent, _) = taken_parts t.name s free in
    let (tables, indexes) = closed t.name absent in
    unfold apply in
    unfold exists in
    unfold select in
    rw (
      eq_refl t.name,
      select-not (is_named t.name) s.tables absent,
      tables,
      select-not (is_on t.name) s.indexes indexes,
    )

drop_indexed :
    (i : Index) (s : Schema)
    → is_taken i.name s ≡ false
    → apply (drop_index i.name i.table) (record s { indexes = i ∷ s.indexes }) ≡ (ok tt, s)
drop_indexed i s free =
    let (_, absent) = taken_parts i.name s free in
    unfold apply in
    unfold exists in
    unfold select in rw (eq_refl i.name, select-not (index_named i.name) s.indexes absent)

-- A creation that is done keeps the schema closed, and undoing it gives the schema back.
undone :
    (c : Creation) (s : Schema)
    → IsClosed s
    → (apply (make c) s).0 ≡ ok tt
    → let s' = (apply (make c) s).1 in IsClosed s' × (apply (undo c) s' ≡ (ok tt, s))
unfolding apply
undone (table t) s closed h = elim (Bool-cases (is_taken t.name s)) [
  | inl taken ↦ absurd (cc (rw taken at h))
  | inr free ↦ elim (Bool-cases (exists (is_dangling (t ∷ s.tables)) t.constraints)) [
    | inl dangling ↦ absurd (cc (rw (free, dangling) at h))
    | inr whole ↦ rw (free, whole) (table-IsClosed t s closed whole, drop_created t s closed free)
  ]
]
undone (index i) s closed h = elim (Bool-cases (is_taken i.name s)) [
  | inl taken ↦ absurd (cc (rw taken at h))
  | inr free ↦ elim (Bool-cases (lacks_columns i s.tables)) [
    | inl lacks ↦ absurd (cc (rw (free, lacks) at h))
    | inr whole ↦ rw (free, whole) (index-IsClosed i s closed whole, drop_indexed i s free)
  ]
]

-- An operation that is done is followed by the others.
pub then_others :
    (o : Operation) (os : List Operation) (s : Schema)
    → (apply o s).0 ≡ ok tt
    → apply_all (o ∷ os) s ≡ apply_all os (apply o s).1
unfolding apply_all
then_others o os s h = rw h refl

first_done :
    (o : Operation) (os : List Operation) (s : Schema)
    → (apply_all (o ∷ os) s).0 ≡ ok tt
    → (apply o s).0 ≡ ok tt
first_done o os s h = elim (Result-cases (apply o s).0) [
  | inl (tt, p) ↦ p
  | inr (e, p) ↦ absurd (unfold apply_all in cc (rw p at h))
]

apply_all-append :
    (os more : List Operation) (s s' : Schema)
    → apply_all os s ≡ (ok tt, s')
    → apply_all (os ++ more) s ≡ apply_all more s'
apply_all-append [] more s s' h = unfold apply_all in ap (λ r. apply_all more r.1) h
apply_all-append (o ∷ os) more s s' h =
    let done = first_done o os s (ap (λ r. r.0) h) in
    then_others o (os ++ more) s done
    ∙ apply_all-append os more (apply o s).1 s' (sym (then_others o os s done) ∙ h)

-- Creations that are all done in a closed schema are all undone, and the schema is as before.
pub all_undone :
    (cs : List Creation) (s : Schema)
    → IsClosed s
    → (apply_all (makes cs) s).0 ≡ ok tt
    → apply_all (undoes cs) (apply_all (makes cs) s).1 ≡ (ok tt, s)
all_undone [] s closed h = unfold apply_all in refl
all_undone (c ∷ cs) s closed h =
    let done = first_done (make c) (makes cs) s h in
    let (closed', back) = undone c s closed done in
    let same = then_others (make c) (makes cs) s done in
    let rest = all_undone cs (apply (make c) s).1 closed' (ap (λ r. r.0) (sym same) ∙ h) in
    ap (λ r. apply_all (undoes (c ∷ cs)) r.1) same
    ∙ apply_all-append (undoes cs) (undo c ∷ []) (apply_all (makes cs) (apply (make c) s).1).1
        (apply (make c) s).1 rest
    ∙ then_others (undo c) [] (apply (make c) s).1 (ap (λ r. r.0) back)
    ∙ (unfold apply_all in ap (λ r. (ok tt, r.1)) back)
