-- ===== src/Verify/SchemaColumns/Equal.antt =====
-- The verdict of `check_schema_columns_types`.
use db_sanitizer.Base.{
  ℕ, ◌≡◌, ◌↔◌, refl, sym, ap, ◌∙◌, Bool, true, false, not, ◌&&◌, Option, none, some, List, [], ◌∷◌,
  map, all, all-count, all-eq, count_zero, count_zero-all, count, arith, is_some, inl, inr,
  Bool-cases,
}
use db_sanitizer.Base.Dict.{Dict, lookup}
use db_sanitizer.Base.Eq.{pair_eq, pair_beq_iff}
use db_sanitizer.Base.Text.{text_eq, text_eq_iff, text_eq_instance}
use db_sanitizer.Mapping.Normalization.{Unicode}
use db_sanitizer.Policy.Models.{Key}
use db_sanitizer.Policy.Schema.{SchemaSnapshot}
use db_sanitizer.Verify.Checks.{is_pass}
use db_sanitizer.Verify.SchemaColumns.{
  TypeInfo, same_length, in_both, types_of, check_schema_columns_types,
}

same_length_iff : (a b : Option ℕ) → (same_length a b ≡ true) ↔ (a ≡ b)
same_length_iff a b = ground arith

-- Both dicts say the same of a key.
same_entry : Option TypeInfo → Option TypeInfo → Bool
same_entry none none = true
same_entry (some (t, m)) (some (s, n)) = text_eq t s && same_length m n
same_entry _ _ = false

same_entry_iff : (a b : Option TypeInfo) → (same_entry a b ≡ true) ↔ (a ≡ b)
unfolding same_entry
same_entry_iff none none = ground arith
same_entry_iff none (some v) = ground arith
same_entry_iff (some v) none = ground arith
same_entry_iff (some (t, m)) (some (s, n)) = ground (arith, text_eq_iff t s, same_length_iff m n)

abbrev Types : Type 0
Types = Dict Key TypeInfo

abbrev keys_of : Types → List Key
keys_of d = map (λ entry. entry.0) d

-- The entry of every key of a list is the same on both sides.
-- A key that has an entry is listed.
lookup-listed :
    (test : Key → Bool) (k : Key) (d : Types)
    → all test (keys_of d) ≡ true
    → is_some (lookup k d) ≡ true
    → test k ≡ true
unfolding lookup
lookup-listed test k [] h m = cc
lookup-listed test k ((j, v) ∷ d) h m = elim (Bool-cases (pair_eq.beq j k)) [
  | inl same ↦ ap test (sym ((pair_beq_iff j k).0 same)) ∙ (ground arith)
  | inr other ↦ lookup-listed test k d (ground arith) (ground arith)
]

-- A key that is listed has an entry, also behind another entry.
listed-cons :
    (j : Key) (v : TypeInfo) (d : Types) (keys : List Key)
    → all (λ k. is_some (lookup k d)) keys ≡ true
    → all (λ k. is_some (lookup k ((j, v) ∷ d))) keys ≡ true
unfolding lookup
listed-cons j v d [] h = refl
listed-cons j v d (k ∷ keys) h = ground (arith, listed-cons j v d keys)

listed : (d : Types) → all (λ k. is_some (lookup k d)) (keys_of d) ≡ true
unfolding lookup
listed [] = refl
listed ((j, v) ∷ d) =
    ground (arith, (pair_beq_iff j j).1 refl, listed-cons j v d (keys_of d) (listed d))

abbrev types_differ : Types → Types → Key → Bool
types_differ a b k = in_both (λ v w. not (text_eq v.0 w.0)) (lookup k a) (lookup k b)

abbrev lengths_differ : Types → Types → Key → Bool
lengths_differ a b k = in_both (λ v w. not (same_length v.1 w.1)) (lookup k a) (lookup k b)

-- The four counts of the check.
record IsClean (a b : Types) : Type 0 where
  missing : count (λ k. not (is_some (lookup k b))) (keys_of a) ≡ 0
  extra : count (λ k. not (is_some (lookup k a))) (keys_of b) ≡ 0
  types : count (types_differ a b) (keys_of a) ≡ 0
  lengths : count (lengths_differ a b) (keys_of a) ≡ 0

none_of :
    (test : Key → Bool) (k : Key) (d : Types)
    → count test (keys_of d) ≡ 0
    → is_some (lookup k d) ≡ true
    → test k ≡ false
none_of test k d h m =
    let passes = lookup-listed (λ j. not (test j)) k d (count_zero-all test (keys_of d) h) m in
    ground (arith, passes)

same_entry_of :
    (v w : Option TypeInfo)
    → is_some v ≡ true
    → is_some w ≡ true
    → in_both (λ x y. not (text_eq x.0 y.0)) v w ≡ false
    → in_both (λ x y. not (same_length x.1 y.1)) v w ≡ false
    → same_entry v w ≡ true
unfolding same_entry
same_entry_of v w h k t l = ground arith

IsClean-same : (a b : Types) → IsClean a b → (k : Key) → lookup k a ≡ lookup k b
IsClean-same a b c k = elim (Bool-cases (is_some (lookup k a))) [
  | inl here ↦
      (let there = none_of (λ j. not (is_some (lookup j b))) k a c.missing here in
        (same_entry_iff (lookup k a) (lookup k b)).0 (
          same_entry_of (lookup k a) (lookup k b) here (ground (arith, there))
            (none_of (types_differ a b) k a c.types here)
            (none_of (lengths_differ a b) k a c.lengths here)))
  | inr gone ↦ elim (Bool-cases (is_some (lookup k b))) [
    | inl there ↦
        (let back = none_of (λ j. not (is_some (lookup j a))) k b c.extra there in
          absurd (ground (arith, back)))
    | inr absent ↦ ground arith
  ]
]

none_missing :
    (a b : Types)
    → ((k : Key) → lookup k a ≡ lookup k b)
    → count (λ k. not (is_some (lookup k b))) (keys_of a) ≡ 0
none_missing a b h =
    let present : Types → Key → Bool = λ d k. is_some (lookup k d) in
    let same = all-eq (present b) (present a) (λ k. ap is_some (sym (h k))) (keys_of a) in
    ground (arith, all-count (present b) (keys_of a), same, listed a)

in_both_self :
    (test : TypeInfo → TypeInfo → Bool) (o : Option TypeInfo)
    → ((v : TypeInfo) → test v v ≡ false)
    → in_both test o o ≡ false
in_both_self test none h = refl
in_both_self test (some v) h = h v

in_both-same :
    (test : TypeInfo → TypeInfo → Bool) (a b : Types)
    → ((v : TypeInfo) → test v v ≡ false)
    → ((k : Key) → lookup k a ≡ lookup k b)
    → (k : Key) → in_both test (lookup k a) (lookup k b) ≡ false
in_both-same test a b t h k =
    ap (in_both test (lookup k a)) (sym (h k)) ∙ in_both_self test (lookup k a) t

same-IsClean : (a b : Types) → ((k : Key) → lookup k a ≡ lookup k b) → IsClean a b
same-IsClean a b h = record {
  missing = none_missing a b h;
  extra = none_missing b a (λ k. sym (h k));
  types =
      count_zero (types_differ a b)
        (in_both-same (λ v w. not (text_eq v.0 w.0)) a b
          (λ v. ground (arith, (text_eq_iff v.0 v.0).1 refl)) h)
        (keys_of a);
  lengths =
      count_zero (lengths_differ a b)
        (in_both-same (λ v w. not (same_length v.1 w.1)) a b
          (λ v. ground (arith, (same_length_iff v.1 v.1).1 refl)) h)
        (keys_of a);
}

-- The check of the columns passes exactly when every column key has the same entry in both
-- snapshots: none in either, or the same type, up to case and spaces, and the same limit of length.
pub check_schema_columns_types_iff :
    (u : Unicode) (source_snapshot target_snapshot : SchemaSnapshot)
    → (is_pass (check_schema_columns_types u source_snapshot target_snapshot) ≡ true)
      ↔ ((k : Key) → lookup k (types_of u source_snapshot) ≡ lookup k (types_of u target_snapshot))
unfolding check_schema_columns_types
check_schema_columns_types_iff u source_snapshot target_snapshot =
    let a = types_of u source_snapshot in
    let b = types_of u target_snapshot in
    (
      (λ h. IsClean-same a b (record {
        missing = ground arith;
        extra = ground arith;
        types = ground arith;
        lengths = ground arith;
      })),
      (λ h. let c = same-IsClean a b h in ground (arith, c.missing, c.extra, c.types, c.lengths)),
    )
