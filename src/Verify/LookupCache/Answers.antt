-- ===== src/Verify/LookupCache/Answers.antt =====
-- The answers of `_ReplacementLookupCache`, and its limit.
use db_sanitizer.Base.{
  ℕ, suc, ◌≡◌, ◌≤◌, refl, Option, some, [], ◌∷◌, ◌++◌, All, All-append, length, length-append, leb,
  arith, Bool-cases, Option-cases, inl, inr, ap, ◌∙◌,
}
use mathlib.Core.Path.{subst}
use db_sanitizer.Base.Dict.{Dict, erase}
use db_sanitizer.Base.Dict as Dicts
use db_sanitizer.Base.Text.{Text, text_eq, text_eq_iff, text_eq_instance}
use db_sanitizer.Errors.{ok, Result-cases}
use db_sanitizer.Mapping.Registry.{Registry, lookup}
use db_sanitizer.Verify.LookupCache.{ReplacementLookupCache, drop_oldest, cached_lookup}

-- Every entry is what the registry answers.
abbrev pub AllAnswered : Registry → Text → Dict Text (Option Text) → Type 0
AllAnswered r g = All (λ entry. (lookup g entry.0 r).0 ≡ ok entry.1)

abbrev pub IsFaithful : ReplacementLookupCache → Type 0
IsFaithful c =
    AllAnswered c.registry c.group_id c.values × (length c.values ≤ c.limit) × (1 ≤ c.limit)

AllAnswered-lookup :
    (r : Registry) (g k : Text) (v : Option Text) (values : Dict Text (Option Text))
    → AllAnswered r g values
    → Dicts.lookup k values ≡ some v
    → (lookup g k r).0 ≡ ok v
unfolding Dicts.lookup
AllAnswered-lookup r g k v [] h q = cc
AllAnswered-lookup r g k v ((j, w) ∷ values) h q = elim (Bool-cases (text_eq j k)) [
  | inl same ↦
      (let p : j ≡ k = ground (arith, text_eq_iff j k) in
        let value : w ≡ v = ground arith in
        subst (λ x. (lookup g x r).0 ≡ ok v) p (h.0 ∙ ap ok value))
  | inr other ↦ AllAnswered-lookup r g k v values h.1 (ground arith)
]

AllAnswered-erase :
    (r : Registry) (g k : Text) (values : Dict Text (Option Text))
    → AllAnswered r g values
    → AllAnswered r g (erase k values)
unfolding erase
AllAnswered-erase r g k [] h = tt
AllAnswered-erase r g k ((j, w) ∷ values) h = elim (Bool-cases (text_eq j k)) [
  | inl same ↦ rw same h.1
  | inr other ↦ rw other (h.0, AllAnswered-erase r g k values h.1)
]

-- A hit takes one entry out.
length-erase :
    (k : Text) (v : Option Text) (values : Dict Text (Option Text))
    → Dicts.lookup k values ≡ some v
    → suc (length (erase k values)) ≡ length values
unfolding Dicts.lookup erase
length-erase k v [] h = cc
length-erase k v ((j, w) ∷ values) h = ground (arith, length-erase k v values)

AllAnswered-drop_oldest :
    (r : Registry) (g : Text) (limit : ℕ) (values : Dict Text (Option Text))
    → AllAnswered r g values
    → AllAnswered r g (drop_oldest limit values)
unfolding drop_oldest
AllAnswered-drop_oldest r g limit [] h = tt
AllAnswered-drop_oldest r g limit (entry ∷ values) h =
    elim (Bool-cases (leb limit (length (entry ∷ values)))) [
      | inl full ↦ rw full h.1
      | inr room ↦ rw room h
    ]

length-drop_oldest :
    (limit : ℕ) (values : Dict Text (Option Text))
    → 1 ≤ limit
    → length values ≤ limit
    → suc (length (drop_oldest limit values)) ≤ limit
unfolding drop_oldest
length-drop_oldest limit [] l h = omega arith
length-drop_oldest limit (entry ∷ values) l h = ground arith

-- The cache after a call: the same but for its entries, which are still faithful.
abbrev pub Follows : ReplacementLookupCache → ReplacementLookupCache → Type 0
Follows c c' = IsFaithful c' × (c'.registry ≡ c.registry) × (c'.group_id ≡ c.group_id)

refresh-IsFaithful :
    (k : Text) (v : Option Text) (c : ReplacementLookupCache)
    → IsFaithful c
    → Dicts.lookup k c.values ≡ some v
    → IsFaithful (record c { values = erase k c.values ++ ((k, v) ∷ []) })
refresh-IsFaithful k v c f h =
    let answered = AllAnswered-lookup c.registry c.group_id k v c.values f.0 h in
    let shorter = length-erase k v c.values h in
    let sized = length-append (erase k c.values) ((k, v) ∷ []) in
    (
      All-append (λ entry. (lookup c.group_id entry.0 c.registry).0 ≡ ok entry.1) (erase k c.values)
          ((k, v) ∷ []) (AllAnswered-erase c.registry c.group_id k c.values f.0) (answered, tt),
      ground (arith, sized, shorter, f.1),
      f.2,
    )

store-IsFaithful :
    (k : Text) (v : Option Text) (c : ReplacementLookupCache)
    → IsFaithful c
    → (lookup c.group_id k c.registry).0 ≡ ok v
    → IsFaithful (record c { values = drop_oldest c.limit c.values ++ ((k, v) ∷ []) })
store-IsFaithful k v c f h =
    let room = length-drop_oldest c.limit c.values f.2 f.1 in
    let sized = length-append (drop_oldest c.limit c.values) ((k, v) ∷ []) in
    (
      All-append (λ entry. (lookup c.group_id entry.0 c.registry).0 ≡ ok entry.1)
          (drop_oldest c.limit c.values) ((k, v) ∷ [])
          (AllAnswered-drop_oldest c.registry c.group_id c.limit c.values f.0) (h, tt),
      ground (arith, sized, room),
      f.2,
    )

-- From a cache whose entries are the registry's answers, and which is within a limit of at least
-- one, a lookup answers as the registry does, errors included, and leaves such a cache over the
-- same registry and group.
pub cached_lookup_answers :
    (k : Text) (c : ReplacementLookupCache)
    → IsFaithful c
    → ((cached_lookup k c).0 ≡ (lookup c.group_id k c.registry).0) × Follows c (cached_lookup k c).1
unfolding cached_lookup
cached_lookup_answers k c f = elim (Option-cases (Dicts.lookup k c.values)) [
  | inr (v, hit) ↦
      (let q : record c { values = erase k c.values ++ ((k, v) ∷ []) } ≡ (cached_lookup k c).1 =
          ground arith in
        let answered = AllAnswered-lookup c.registry c.group_id k v c.values f.0 hit in
        (ground arith, subst (Follows c) q (refresh-IsFaithful k v c f hit, refl, refl)))
  | inl miss ↦ elim (Result-cases (lookup c.group_id k c.registry).0) [
    | inr (e, h) ↦
        (let q : c ≡ (cached_lookup k c).1 = ground arith in
          (ground arith, subst (Follows c) q (f, refl, refl)))
    | inl (v, h) ↦
        (let q : record c { values = drop_oldest c.limit c.values ++ ((k, v) ∷ []) }
              ≡ (cached_lookup k c).1 =
            ground arith in
          (ground arith, subst (Follows c) q (store-IsFaithful k v c f h, refl, refl)))
  ]
]
