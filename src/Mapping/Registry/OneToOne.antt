-- ===== src/Mapping/Registry/OneToOne.antt =====
-- The constraints of the table `mappings`, and the replacements of two keys.
use db_sanitizer.Base.{◌≡◌, some, List, [], ◌∷◌, arith, Bool-cases, inl, inr}
use mathlib.Core.Path.{subst}
use db_sanitizer.Base.Text.{Text, text_eq_iff}
use db_sanitizer.Mapping.Tables.{MappingRecord, is_key, select_key}
use db_sanitizer.Mapping.Registry.Rows.{All-select_key, select_key-is_key}
use db_sanitizer.Mapping.Registry.Invariant.{Apart, IsConsistent}

-- Two rows of one group that are apart do not hold one replacement.
Apart-replacements :
    (g r : Text) (a b : MappingRecord)
    → a.group_id ≡ g
    → b.group_id ≡ g
    → a.replacement ≡ some r
    → b.replacement ≡ some r
    → Apart a b
    → ⊥
Apart-replacements g r a b ga gb ra rb apart =
    ground (arith, text_eq_iff a.group_id b.group_id, text_eq_iff r r)

-- In a group, two source keys never have one replacement.
pub select_key-one_to_one :
    (g h k r : Text) (rows : List MappingRecord) (a b : MappingRecord)
    → IsConsistent rows
    → select_key g h rows ≡ some a
    → select_key g k rows ≡ some b
    → a.replacement ≡ some r
    → b.replacement ≡ some r
    → h ≡ k
unfolding select_key
select_key-one_to_one g h k r [] a b c ea eb ra rb = cc
select_key-one_to_one g h k r (row ∷ rows) a b c ea eb ra rb =
    let ka = select_key-is_key g h (row ∷ rows) a ea in
    let kb = select_key-is_key g k (row ∷ rows) b eb in
    elim (Bool-cases (is_key g h row)) [
      | inl this ↦ elim (Bool-cases (is_key g k row)) [
        | inl that ↦ cc (ka.1, kb.1, this, that, ea, eb)
        | inr later ↦
            (let q : row ≡ a = ground arith in
              absurd (
                Apart-replacements g r a b ka.0 kb.0 ra rb (
                  subst (λ x. Apart x b) q
                    (All-select_key (Apart row) g k rows b c.1 (ground arith)))))
      ]
      | inr later ↦ elim (Bool-cases (is_key g k row)) [
        | inl that ↦
            (let q : row ≡ b = ground arith in
              absurd (
                Apart-replacements g r b a kb.0 ka.0 rb ra (
                  subst (λ x. Apart x a) q
                    (All-select_key (Apart row) g h rows a c.1 (ground arith)))))
        | inr both ↦ select_key-one_to_one g h k r rows a b c.2 (ground arith) (ground arith) ra rb
      ]
    ]
