-- ===== src/Graph/Agent/Rounds.antt =====
-- The loop of the node `generate_replacements_agent` over the groups.
use db_sanitizer.Base.{
  ℕ, ◌+◌, ◌≡◌, ◌≤◌, refl, true, some, [], ◌∷◌, All, length, count-le-length, is_some, arith,
  Option-cases, inl, inr,
}
use mathlib.Core.Path.{subst}
use db_sanitizer.Base.Text.{Text}
use db_sanitizer.Errors.{Result, ok, err}
use db_sanitizer.Llm.Generator.{Setup, Generator}
use db_sanitizer.Llm.Generator.Batches.{generate_group}
use db_sanitizer.Llm.Generator.Complete.{generate_group_ends, generate_group_complete}
use db_sanitizer.Llm.Generator.Falls.{generate_group-falls}
use db_sanitizer.Llm.Generator.Group.{pending_count}
use db_sanitizer.Mapping.Registry.Assign.Keeps.{IsValid}
use db_sanitizer.Mapping.Tables.{is_pending}
use db_sanitizer.Policy.Models.{Groups}
use db_sanitizer.Graph.Agent.{generate_groups}

module _ (e : Setup) (duration : Text → ℕ) where
  -- Every group has its rounds.
  pub generate_groups_ends :
      (groups : Groups) (g : Generator)
      → IsValid g.registry
      → is_some (generate_groups e duration groups g) ≡ true
  unfolding generate_groups
  generate_groups_ends [] g v = refl
  generate_groups_ends ((group_id, group) ∷ groups) g v =
      let fuel = length g.registry.mappings + 1 in
      let run = generate_group e group_id group fuel (duration group_id) g in
      let few = count-le-length (is_pending group_id) g.registry.mappings in
      let ends =
        generate_group_ends e group_id group fuel (duration group_id) g v (omega (arith, few)) in
      elim (Option-cases run) [
        | inl p ↦ absurd (ground arith)
        | inr ((err f, g'), p) ↦ ground arith
        | inr ((ok n, g'), p) ↦
            (let (none_left, counted, valid) =
                generate_group_complete e group_id group fuel (duration group_id) g n g' v p in
              ground (arith, generate_groups_ends groups g' valid))
      ]

  generate_groups-falls :
      (h : Text) (n : ℕ) (groups : Groups) (g : Generator) (result : Result (Unit {0}))
      (g' : Generator)
      → pending_count h g ≤ n
      → generate_groups e duration groups g ≡ some (result, g')
      → pending_count h g' ≤ n
  unfolding generate_groups
  generate_groups-falls h n [] g result g' k run = ground arith
  generate_groups-falls h n ((group_id, group) ∷ groups) g result g' k run =
      let fuel = length g.registry.mappings + 1 in
      elim (Option-cases (generate_group e group_id group fuel (duration group_id) g)) [
        | inl p ↦ absurd (ground arith)
        | inr ((err f, end), p) ↦
            (let q : end ≡ g' = ground arith in
              subst (λ c. pending_count h c ≤ n) q
                (generate_group-falls h e group_id group n fuel (duration group_id) g (err f) end k
                  p))
        | inr ((ok m, end), p) ↦
            generate_groups-falls h n groups end result g'
              (generate_group-falls h e group_id group n fuel (duration group_id) g (ok m) end k p)
              (ground arith)
      ]

  -- No group has a key without replacement left.
  pub generate_groups_complete :
      (groups : Groups) (g g' : Generator)
      → IsValid g.registry
      → generate_groups e duration groups g ≡ some (ok tt, g')
      → All (λ entry. pending_count entry.0 g' ≡ 0) groups × IsValid g'.registry
  unfolding generate_groups
  generate_groups_complete [] g g' v run =
      let q : g ≡ g' = ground arith in (tt, subst (λ c. IsValid c.registry) q v)
  generate_groups_complete ((group_id, group) ∷ groups) g g' v run =
      let fuel = length g.registry.mappings + 1 in
      elim (Option-cases (generate_group e group_id group fuel (duration group_id) g)) [
        | inl p ↦ absurd (ground arith)
        | inr ((err f, end), p) ↦ absurd (ground arith)
        | inr ((ok n, end), p) ↦
            (let (none_left, counted, valid) =
                generate_group_complete e group_id group fuel (duration group_id) g n end v p in
              let rest : generate_groups e duration groups end ≡ some (ok tt, g') = ground arith in
              let stays =
                generate_groups-falls group_id 0 groups end (ok tt) g' (omega (arith, none_left))
                  rest in
              let (others, valid') = generate_groups_complete groups end g' valid rest in
              ((omega (arith, stays), others), valid'))
      ]
