-- ===== src/Mapping/Registry/History/Laws.antt =====
-- Sequences of calls, the constraints of the table, and what is assigned.
use db_sanitizer.Base.{◌≡◌, refl, Option, none, some, List, [], ◌∷◌, arith, inl, inr, ap, sym, ◌∙◌}
use mathlib.Core.Path.{subst}
use db_sanitizer.Base.Text.{Text, text_eq_instance}
use db_sanitizer.Errors.{ok, Result-cases}
use db_sanitizer.Exec.{transaction}
use db_sanitizer.Mapping.Tables.{RunMetadata, GenerationStats, MappingRecord, select_key}
use db_sanitizer.Mapping.Registry.{
  lookup, Registry, empty, found, initialize, initialize_from, insert_source_key,
  insert_source_keys, validate_key, record_generation_stats,
}
use db_sanitizer.Mapping.Registry.Keys.{
  insert_source_keys-IsConsistent, insert_all-found, found-insert_or_ignore,
}
use db_sanitizer.Mapping.Registry.Invariant.{IsConsistent, insert_or_ignore-IsConsistent}
use db_sanitizer.Mapping.Registry.OneToOne.{select_key-one_to_one}
use db_sanitizer.Mapping.Registry.Assign.Outcome.{lookup-valid}
use db_sanitizer.Mapping.Registry.Assign.Stable.{assign_replacements-found}
use db_sanitizer.Mapping.Registry.Assign.Keeps.{IsValid, assign_replacements-IsValid}
use db_sanitizer.Mapping.Registry.Accumulator.{Column, add}
use db_sanitizer.Mapping.Registry.History.{
  Call, initialize_run, insert_key, insert_keys, assign, record_stats, add_work, after, after_all,
}

-- The calls that leave the table `mappings` alone.
initialize_from-mappings :
    (m : RunMetadata) (rows : List RunMetadata) (r : Registry)
    → (initialize_from m rows r).1.mappings ≡ r.mappings
unfolding initialize_from transaction
initialize_from-mappings m [] r = refl
initialize_from-mappings m (row ∷ rows) r = ground arith

pub initialize-mappings :
    (m : RunMetadata) (r : Registry) → (initialize m r).1.mappings ≡ r.mappings
unfolding initialize transaction
initialize-mappings m r = ground (arith, initialize_from-mappings m r.run_meta r)

record_generation_stats-mappings :
    (stats : GenerationStats) (r : Registry)
    → (record_generation_stats stats r).1.mappings ≡ r.mappings
unfolding record_generation_stats transaction
record_generation_stats-mappings stats r = refl

pub add-mappings :
    (g : Text) (c : Column) (values : List Text) (r : Registry)
    → (add g c values r).1.mappings ≡ r.mappings
unfolding add transaction
add-mappings g c [] r = refl
add-mappings g c (v ∷ values) r = ground arith

insert_source_key-IsValid :
    (g h : Text) (r : Registry) → IsValid r → IsValid (insert_source_key g h r).1
unfolding insert_source_key transaction
insert_source_key-IsValid g h r v = elim (Result-cases (validate_key g h)) [
  | inl (done, e) ↦ rw e (insert_or_ignore-IsConsistent g h r.mappings v)
  | inr (f, e) ↦ rw e v
]

after-IsValid : (c : Call) (r : Registry) → IsValid r → IsValid (after c r)
unfolding after
after-IsValid (initialize_run m) r v = subst IsConsistent (sym (initialize-mappings m r)) v
after-IsValid (insert_key g h) r v = insert_source_key-IsValid g h r v
after-IsValid (insert_keys g hs) r v = insert_source_keys-IsConsistent g hs r v
after-IsValid (assign g batch flag) r v = assign_replacements-IsValid g batch flag r v
after-IsValid (record_stats stats) r v =
    subst IsConsistent (sym (record_generation_stats-mappings stats r)) v
after-IsValid (add_work g column values) r v =
    subst IsConsistent (sym (add-mappings g column values r)) v

-- Whatever calls are made of a registry, failing ones included, the constraints of the table hold
-- afterwards if they held before.
pub after_all-IsValid : (calls : List Call) (r : Registry) → IsValid r → IsValid (after_all calls r)
unfolding after_all
after_all-IsValid [] r v = v
after_all-IsValid (c ∷ calls) r v = after_all-IsValid calls (after c r) (after-IsValid c r v)

insert_source_keys-found :
    (g : Text) (keys : List Text) (r : Registry) (j k : Text)
    → found (select_key j k (insert_source_keys g keys r).1.mappings)
      ≡ found (select_key j k r.mappings)
unfolding insert_source_keys transaction
insert_source_keys-found g keys r j k = ground (arith, insert_all-found g j k keys r)

insert_source_key-found :
    (g h : Text) (r : Registry) (j k : Text)
    → found (select_key j k (insert_source_key g h r).1.mappings)
      ≡ found (select_key j k r.mappings)
unfolding insert_source_key transaction
insert_source_key-found g h r j k = ground (arith, found-insert_or_ignore g h j k r.mappings)

after-found :
    (c : Call) (r : Registry) (j k x : Text)
    → found (select_key j k r.mappings) ≡ some x
    → found (select_key j k (after c r).mappings) ≡ some x
unfolding after
after-found (initialize_run m) r j k x h =
    ap (λ rows. found (select_key j k rows)) (initialize-mappings m r) ∙ h
after-found (insert_key g s) r j k x h = insert_source_key-found g s r j k ∙ h
after-found (insert_keys g hs) r j k x h = insert_source_keys-found g hs r j k ∙ h
after-found (assign g batch flag) r j k x h = assign_replacements-found g batch flag r j k x h
after-found (record_stats stats) r j k x h =
    ap (λ rows. found (select_key j k rows)) (record_generation_stats-mappings stats r) ∙ h
after-found (add_work g column values) r j k x h =
    ap (λ rows. found (select_key j k rows)) (add-mappings g column values r) ∙ h

after_all-found :
    (calls : List Call) (r : Registry) (j k x : Text)
    → found (select_key j k r.mappings) ≡ some x
    → found (select_key j k (after_all calls r).mappings) ≡ some x
unfolding after_all
after_all-found [] r j k x h = h
after_all-found (c ∷ calls) r j k x h =
    after_all-found calls (after c r) j k x (after-found c r j k x h)

found-row :
    (o : Option MappingRecord) (x : Text)
    → found o ≡ some x
    → (row : MappingRecord) × (o ≡ some row) × (row.replacement ≡ some x)
found-row none x h = cc
found-row (some row) x h = (row, refl, h)

lookup-found :
    (g h x : Text) (r : Registry)
    → (lookup g h r).0 ≡ ok (some x)
    → (validate_key g h ≡ ok tt) × (found (select_key g h r.mappings) ≡ some x)
unfolding lookup
lookup-found g h x r e = (ground arith, ground arith)

-- A source key that has a replacement keeps it through any sequence of calls, failing ones
-- included: a later `lookup` returns the same text.
pub lookup_stable :
    (calls : List Call) (r : Registry) (g h x : Text)
    → (lookup g h r).0 ≡ ok (some x)
    → (lookup g h (after_all calls r)).0 ≡ ok (some x)
lookup_stable calls r g h x e =
    let (v, f) = lookup-found g h x r e in
    ap (λ p. p.0) (lookup-valid g h (after_all calls r) v) ∙ ap ok (after_all-found calls r g h x f)

-- From an empty registry no sequence of calls gives two source keys of a group one replacement.
pub lookup_injective :
    (calls : List Call) (g h k x : Text)
    → (lookup g h (after_all calls empty)).0 ≡ ok (some x)
    → (lookup g k (after_all calls empty)).0 ≡ ok (some x)
    → h ≡ k
lookup_injective calls g h k x eh ek =
    let r = after_all calls empty in
    let (vh, fh) = lookup-found g h x r eh in
    let (vk, fk) = lookup-found g k x r ek in
    let (a, ea, ra) = found-row (select_key g h r.mappings) x fh in
    let (b, eb, rb) = found-row (select_key g k r.mappings) x fk in
    select_key-one_to_one g h k x r.mappings a b (after_all-IsValid calls empty tt) ea eb ra rb
