-- ===== src/Greenmask/Mapper/Cache.antt =====
-- The entries and the size of the mapper's cache.
use db_sanitizer.Base.{
  suc, ◌≡◌, ◌≤◌, ◌<◌, refl, none, some, [], ◌∷◌, All, length, leb, arith, Bool-cases, Option-cases,
  inl, inr,
}
use mathlib.Core.Path.{subst}
use db_sanitizer.Base.Dict.{Dict, insert}
use db_sanitizer.Base.Dict as Dicts
use db_sanitizer.Base.Eq.{Eq, pair_eq}
use db_sanitizer.Base.Text.{Text, text_eq_instance}
use db_sanitizer.Errors.{ok, Result-cases}
use db_sanitizer.Mapping.Registry.{Registry, lookup}
use db_sanitizer.Greenmask.Mapper.{JsonlMapper, max_cache_entries, make_room, find_replacement}
use db_sanitizer.Greenmask.Mapper.Plain.{plain_find}

-- Properties of the entries of a dict.
module _ {K V : Type 0} ⦃e : Eq K⦄ (P : K × V → Type 0) where
  All-lookup : (k : K) (v : V) (d : Dict K V) → All P d → Dicts.lookup k d ≡ some v → P (k, v)
  unfolding Dicts.lookup
  All-lookup k v [] h q = cc
  All-lookup k v ((j, w) ∷ d) h q = elim (Bool-cases (e.beq j k)) [
    | inl same ↦ (let p : (j, w) ≡ (k, v) = ground (arith, e.beq_iff j k) in subst P p h.0)
    | inr other ↦ All-lookup k v d h.1 (ground arith)
  ]

  All-insert : (k : K) (v : V) (d : Dict K V) → All P d → P (k, v) → All P (insert k v d)
  unfolding insert
  All-insert k v [] h p = (p, tt)
  All-insert k v ((j, w) ∷ d) h p = elim (Bool-cases (e.beq j k)) [
    | inl same ↦
        (let q : (k, v) ≡ (j, v) = ground (arith, e.beq_iff j k) in rw same (subst P q p, h.1))
    | inr other ↦ rw other (h.0, All-insert k v d h.1 p)
  ]

module _ {K V : Type 0} ⦃e : Eq K⦄ where
  pub insert-same : (k : K) (v : V) (d : Dict K V) → Dicts.lookup k d ≡ some v → insert k v d ≡ d
  unfolding Dicts.lookup insert
  insert-same k v [] h = cc
  insert-same k v ((j, w) ∷ d) h = ground (arith, insert-same k v d)

  length-insert : (k : K) (v : V) (d : Dict K V) → length (insert k v d) ≤ suc (length d)
  unfolding insert
  length-insert k v [] = omega arith
  length-insert k v ((j, w) ∷ d) = ground (arith, length-insert k v d)

-- Every entry of the cache is what the registry answers.
abbrev pub IsCoherent : Registry → Dict (Text × Text) Text → Type 0
IsCoherent r = All (λ entry. (lookup entry.0.0 entry.0.1 r).0 ≡ ok (some entry.1))

-- Beside coherence, the bound on the size.
abbrev pub IsSound : JsonlMapper → Type 0
IsSound m = IsCoherent m.registry m.cache × (length m.cache ≤ max_cache_entries)

make_room-IsCoherent :
    (r : Registry) (cache : Dict (Text × Text) Text)
    → IsCoherent r cache
    → IsCoherent r (make_room cache)
unfolding make_room
make_room-IsCoherent r [] h = h
make_room-IsCoherent r (entry ∷ cache) h =
    elim (Bool-cases (leb max_cache_entries (length (entry ∷ cache)))) [
      | inl full ↦ rw full h.1
      | inr room ↦ rw room h
    ]

length-make_room :
    (cache : Dict (Text × Text) Text)
    → length cache ≤ max_cache_entries
    → length (make_room cache) < max_cache_entries
unfolding make_room
length-make_room [] h = omega arith
length-make_room (entry ∷ cache) h = ground arith

-- The mapper after a call: the same but for its cache, which is still sound.
abbrev pub Kept : JsonlMapper → JsonlMapper → Type 0
Kept m m' =
    IsSound m' × (m'.registry ≡ m.registry) × (m'.groups ≡ m.groups) × (m'.columns ≡ m.columns)

store-IsSound :
    (g d x : Text) (m : JsonlMapper)
    → IsSound m
    → (lookup g d m.registry).0 ≡ ok (some x)
    → IsSound (record m { cache = insert (g, d) x (make_room m.cache) })
store-IsSound g d x m s h =
    let sized = length-insert (g, d) x (make_room m.cache) in
    let room = length-make_room m.cache s.1 in
    (
      All-insert (λ entry. (lookup entry.0.0 entry.0.1 m.registry).0 ≡ ok (some entry.1)) (g, d) x
          (make_room m.cache) (make_room-IsCoherent m.registry m.cache s.0) h,
      omega (arith, sized, room),
    )

pub find_replacement-Kept :
    (g d : Text) (m : JsonlMapper) → IsSound m → Kept m (find_replacement g d m).1
unfolding find_replacement
find_replacement-Kept g d m s = elim (Option-cases (Dicts.lookup (g, d) m.cache)) [
  | inr (x, hit) ↦
      (let q : m ≡ (find_replacement g d m).1 = ground arith in
        subst (Kept m) q (s, refl, refl, refl))
  | inl miss ↦ elim (Result-cases (lookup g d m.registry).0) [
    | inr (f, h) ↦
        (let q : m ≡ (find_replacement g d m).1 = ground arith in
          subst (Kept m) q (s, refl, refl, refl))
    | inl (none, h) ↦
        (let q : m ≡ (find_replacement g d m).1 = ground arith in
          subst (Kept m) q (s, refl, refl, refl))
    | inl (some x, h) ↦
        (let stored : JsonlMapper = record m { cache = insert (g, d) x (make_room m.cache) } in
          let q : stored ≡ (find_replacement g d m).1 = ground arith in
          subst (Kept m) q (store-IsSound g d x m s h, refl, refl, refl))
  ]
]

pub find_replacement-plain :
    (g d : Text) (m : JsonlMapper)
    → IsSound m
    → (find_replacement g d m).0 ≡ plain_find m.registry g d
unfolding find_replacement
find_replacement-plain g d m s = elim (Option-cases (Dicts.lookup (g, d) m.cache)) [
  | inr (x, hit) ↦
      (let known : (lookup g d m.registry).0 ≡ ok (some x) =
          All-lookup (λ entry. (lookup entry.0.0 entry.0.1 m.registry).0 ≡ ok (some entry.1)) (g, d)
            x m.cache s.0 hit in
        ground arith)
  | inl miss ↦ ground arith
]
