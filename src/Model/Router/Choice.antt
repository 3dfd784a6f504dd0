-- ===== src/Model/Router/Choice.antt =====
-- Which profiles of the registry are eligible in src/kernel/model-router.ts.
use Prim.Native.String.{String}
use uads.Common.{
  ◌≡◌, refl, sym, ◌∙◌, Bool, true, false, not, List, [], ◌∷◌, some, arith, contains, string_eq, All,
  All-Memᴰ, All-map, All-both, All-filter, All-of_filter, All_of_Memᴰ, Memᴰ, Bool-cases,
  Option-cases, inl, inr, ◌==◌, map, filter,
}
use uads.Common.Int.{ℤ}
use uads.Common.Sort.{All-sort_by, All-of_sort_by}
use uads.Model.Types.{ModelProfile, ModelRejection, ModelRoutingRequirements, ModelRoutingInput}
use uads.Model.Router.Reject.{profile_rejection}
use uads.Model.Router.Adequate.{IsAdequate, profile_rejection-none_iff}
use uads.Model.Router.Plan.{RoutingEnv, rejections_of, current_requirements}
use uads.Model.Router.Route.{candidates, rejections, eligible}

abbrev rejected_ids : List ModelRejection → List String
rejected_ids = map (λ r. r.profile_id)

-- A rejection names its profile.
rejection_id :
    (p : ModelProfile) (input : ModelRoutingInput) (r : ModelRoutingRequirements)
    (x : ModelRejection)
    → profile_rejection p input r ≡ some x
    → x.profile_id ≡ p.profile_id
unfolding profile_rejection
rejection_id p input r x h = ground arith

module _ (input : ModelRoutingInput) (r : ModelRoutingRequirements) where
  -- Where no rejection has an id, every candidate with that id is adequate, and the other way round.
  IsAdequate-of_no_rejection :
      (ps : List ModelProfile) (id : String)
      → contains (rejected_ids (rejections_of input r ps)) id ≡ false
      → All (λ p. p.profile_id ≡ id → IsAdequate input r p) ps
  unfolding rejections_of contains
  IsAdequate-of_no_rejection [] id h = tt
  IsAdequate-of_no_rejection (p ∷ ps) id h = elim (Option-cases (profile_rejection p input r)) [
    | inl passed ↦ (
      λ e. (profile_rejection-none_iff input r p).0 passed,
      IsAdequate-of_no_rejection ps id (ground arith),
    )
    | inr (x, failed) ↦ (
      λ e.
          absurd
            (ground (arith, rejection_id p input r x failed, string_eq.beq_iff x.profile_id id)),
      IsAdequate-of_no_rejection ps id (ground arith),
    )
  ]

  no_rejection_of_adequate :
      (ps : List ModelProfile) (id : String)
      → All (λ p. p.profile_id ≡ id → IsAdequate input r p) ps
      → contains (rejected_ids (rejections_of input r ps)) id ≡ false
  unfolding rejections_of contains
  no_rejection_of_adequate [] id h = refl
  no_rejection_of_adequate (p ∷ ps) id h = elim (Option-cases (profile_rejection p input r)) [
    | inl passed ↦ ground (arith, no_rejection_of_adequate ps id h.1)
    | inr (x, failed) ↦ elim (Bool-cases (x.profile_id == id)) [
      | inl same ↦
          let named : p.profile_id ≡ id =
            sym (rejection_id p input r x failed) ∙ (string_eq.beq_iff x.profile_id id).0 same in
          let passed = (profile_rejection-none_iff input r p).1 (h.0 named) in cc
      | inr other ↦ ground (arith, no_rejection_of_adequate ps id h.1)
    ]
  ]

module _ (env : RoutingEnv) (input : ModelRoutingInput) where
  abbrev is_kept : ModelProfile → Bool
  is_kept p = not (contains (rejected_ids (rejections env input)) p.profile_id)

  abbrev cmp_id : ModelProfile → ModelProfile → ℤ
  cmp_id a b = env.locale_compare a.profile_id b.profile_id

  candidates-Memᴰ : All (λ p. Memᴰ p input.registry.profiles) (candidates env input)
  unfolding candidates
  candidates-Memᴰ =
      All-sort_by cmp_id (λ p. Memᴰ p input.registry.profiles) input.registry.profiles
        (All-Memᴰ input.registry.profiles)

  abbrev IsFit : ModelProfile → Type 0
  IsFit p = Memᴰ p input.registry.profiles × IsAdequate input (current_requirements input) p

  IsFit-of_kept :
      (p : ModelProfile)
      → (Memᴰ p input.registry.profiles × Memᴰ p (candidates env input)) × (is_kept p ≡ true)
      → IsFit p
  unfolding rejections
  IsFit-of_kept p h =
      let adequate =
        IsAdequate-of_no_rejection input (current_requirements input) (candidates env input)
          p.profile_id (ground (arith, h.1)) in
      (
        h.0.0,
        All_of_Memᴰ
            (λ q. q.profile_id ≡ p.profile_id → IsAdequate input (current_requirements input) q)
            adequate h.0.1 refl,
      )

  -- Every eligible profile is registered and adequate.
  pub eligible-IsFit : All IsFit (eligible env input)
  unfolding eligible
  eligible-IsFit =
      let listed =
        All-both (λ p. Memᴰ p input.registry.profiles) (λ p. Memᴰ p (candidates env input))
          (candidates env input) candidates-Memᴰ (All-Memᴰ (candidates env input)) in
      let kept =
        All-filter (λ p. Memᴰ p input.registry.profiles × Memᴰ p (candidates env input)) is_kept
          (candidates env input) listed in
      All-sort_by _ IsFit _ (All-map (filter is_kept (candidates env input)) IsFit-of_kept kept)

  -- The other way round: an adequate profile is eligible, if every profile that shares its id is
  -- adequate; so what holds of all eligible profiles holds of it.
  pub fit_of_eligible :
      (P : ModelProfile → Type 0) (p : ModelProfile)
      → Memᴰ p input.registry.profiles
      → All
          (λ q. q.profile_id ≡ p.profile_id → IsAdequate input (current_requirements input) q)
          input.registry.profiles
      → All P (eligible env input)
      → P p
  unfolding eligible candidates rejections
  fit_of_eligible P p listed unique h =
      let r = current_requirements input in
      let sorted =
        All-sort_by cmp_id (λ q. q.profile_id ≡ p.profile_id → IsAdequate input r q)
          input.registry.profiles unique in
      let clear = no_rejection_of_adequate input r (candidates env input) p.profile_id sorted in
      let kept = All-of_filter P is_kept (candidates env input) (All-of_sort_by _ P _ h) in
      let all = All-of_sort_by cmp_id (λ q. is_kept q ≡ true → P q) input.registry.profiles kept in
      All_of_Memᴰ (λ q. is_kept q ≡ true → P q) all listed (rw clear)
