-- ===== src/Migrations/Ready.antt =====
-- When the operations of src/alembic/versions that create all succeed: each finds what it refers to
-- among those before it, and no name is in use.
use flyrank_capstone_meterin.Prelude.{
  String, ◌≡◌, refl, ap, ◌∙◌, Bool, true, false, not, ◌&&◌, List, [], ◌∷◌, ◌++◌, arith, exists, map,
}
use flyrank_capstone_meterin.Result.{ok}
use flyrank_capstone_meterin.Migrations.Schema.{
  TableConstraint, primary_key, foreign_key, unique, Table, Index, Schema, is_named, index_named,
  is_taken, is_dangling, lacks_columns, apply, apply_all,
}
use flyrank_capstone_meterin.Migrations.Undo.{
  Creation, table, index, make, makes, taken_parts, then_others,
}

abbrev pub name_of : Creation → String
name_of (table t) = t.name
name_of (index i) = i.name

abbrev pub with_creation : Creation → Schema → Schema
with_creation (table t) s = record s { tables = t ∷ s.tables }
with_creation (index i) s = record s { indexes = i ∷ s.indexes }

-- A creation finds what it needs in what was made before.
abbrev pub is_ready : Schema → Creation → Bool
is_ready made (table t) =
    not (is_taken t.name made) && not (exists (is_dangling (t ∷ made.tables)) t.constraints)
is_ready made (index i) = not (is_taken i.name made) && not (lacks_columns i made.tables)

abbrev pub are_ready : Schema → List Creation → Bool
are_ready made [] = true
are_ready made (c ∷ cs) = is_ready made c && are_ready (with_creation c made) cs

-- None of the names is in use.
abbrev pub AreFree : List String → Schema → Type 0
AreFree names s = exists (λ name. is_taken name s) names ≡ false

-- The first of the names is free, and so are the others.
free_parts :
    (name : String) (names : List String) (s : Schema)
    → AreFree (name ∷ names) s
    → (is_taken name s ≡ false) × AreFree names s
unfolding exists
free_parts name names s h = ground arith

-- What a list of creations adds to what was made.
abbrev pub built : List Creation → Schema → Schema
built [] made = made
built (c ∷ cs) made = built cs (with_creation c made)

abbrev pub over : Schema → Schema → Schema
over made s = record { tables = made.tables ++ s.tables; indexes = made.indexes ++ s.indexes }

module _ {A : Type 0} (p : A → Bool) where
  exists_front : (xs ys : List A) → exists p xs ≡ true → exists p (xs ++ ys) ≡ true
  unfolding exists
  exists_front [] ys h = cc
  exists_front (x ∷ xs) ys h = ground (arith, exists_front xs ys)

  exists_neither :
      (xs ys : List A) → exists p xs ≡ false → exists p ys ≡ false → exists p (xs ++ ys) ≡ false
  unfolding exists
  exists_neither [] ys h k = k
  exists_neither (x ∷ xs) ys h k = ground (arith, exists_neither xs ys)

taken_neither :
    (name : String) (made s : Schema)
    → is_taken name made ≡ false
    → is_taken name s ≡ false
    → is_taken name (over made s) ≡ false
taken_neither name made s h k =
    let (a, b) = taken_parts name made h in
    let (c, d) = taken_parts name s k in
    rw (
      exists_neither (is_named name) made.tables s.tables a c,
      exists_neither (index_named name) made.indexes s.indexes b d,
    )

dangling_front :
    (tables more : List Table) (cs : List TableConstraint)
    → exists (is_dangling tables) cs ≡ false
    → exists (is_dangling (tables ++ more)) cs ≡ false
unfolding exists is_dangling
dangling_front tables more [] h = refl
dangling_front tables more (foreign_key columns target others ondelete ∷ cs) h =
    ground (arith, exists_front (is_named target) tables more, dangling_front tables more cs)
dangling_front tables more (primary_key columns ∷ cs) h = dangling_front tables more cs h
dangling_front tables more (unique columns constraint ∷ cs) h = dangling_front tables more cs h

lacks_front :
    (i : Index) (tables more : List Table)
    → lacks_columns i tables ≡ false
    → lacks_columns i (tables ++ more) ≡ false
unfolding lacks_columns
lacks_front i [] more h = cc
lacks_front i (t ∷ rest) more h = ground (arith, lacks_front i rest more)

ready_done :
    (c : Creation) (made s : Schema)
    → is_ready made c ≡ true
    → is_taken (name_of c) s ≡ false
    → apply (make c) (over made s) ≡ (ok tt, over (with_creation c made) s)
unfolding apply
ready_done (table t) made s h free =
    let new = taken_neither t.name made s (ground arith) free in
    let whole = dangling_front (t ∷ made.tables) s.tables t.constraints (ground arith) in
    rw (new, whole) refl
ready_done (index i) made s h free =
    let new = taken_neither i.name made s (ground arith) free in
    let whole = lacks_front i made.tables s.tables (ground arith) in rw (new, whole) refl

-- Creations that are ready, under names that are free, are all done.
pub all_done :
    (cs : List Creation) (made s : Schema)
    → are_ready made cs ≡ true
    → AreFree (map name_of cs) s
    → apply_all (makes cs) (over made s) ≡ (ok tt, over (built cs made) s)
all_done [] made s h free = unfold apply_all in refl
all_done (c ∷ cs) made s h free =
    let (first, others) = free_parts (name_of c) (map name_of cs) s free in
    let step = ready_done c made s (ground arith) first in
    then_others (make c) (makes cs) (over made s) (ap (λ r. r.0) step)
    ∙ ap (λ r. apply_all (makes cs) r.1) step
    ∙ all_done cs (with_creation c made) s (ground arith) others
