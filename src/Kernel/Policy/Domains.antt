-- ===== src/Kernel/Policy/Domains.antt =====
-- src/kernel/domains.ts and `selectDomains` of src/kernel/policy.ts.
use Prim.Native.String.{String}
use uads.Common.{
  suc, ◌≡◌, refl, inl, inr, true, false, ◌&&◌, List, [], ◌∷◌, ◌++◌, map, arith, any, contains,
  dedupe, dedupe_from, contains-append, dedupe_from_cong, contains-dedupe_from, sym, ap, ◌∙◌, ◌==◌,
  string_eq, eqb, length, if◌then◌else◌, Bool-cases, ◌&◌,
}
use mathlib.Core.List.{append-nil, append_assoc}
use uads.Kernel.Types.{NormalizedIntake}

abbrev pub domain_ids : List String
domain_ids =
    "general" ∷ "requirements" ∷ "architecture" ∷ "frontend" ∷ "backend" ∷ "api" ∷ "database"
    ∷ "saas" ∷ "mobile" ∷ "cloud-devops" ∷ "security" ∷ "quality" ∷ "performance" ∷ "reliability"
    ∷ "data-ai" ∷ "web3" ∷ "smart-contracts" ∷ "wallets" ∷ "finance-economics" ∷ "tokenomics"
    ∷ "mathematics-simulation" ∷ "game-systems" ∷ "rust" ∷ "kernel-runtime" ∷ "contracts"
    ∷ "event-driven-systems" ∷ "state-recovery" ∷ "offline-first" ∷ "testing" ∷ "certification"
    ∷ "documentation" ∷ "release" ∷ []

pub record Domain : Type 0 where
  pub id : String
  pub reason : String

-- `add` of the source: nothing where the id is there already.
unfoldable pub add_domain : List Domain → String → String → List Domain
add_domain selected id reason =
    if any (λ item. item.id == id) selected
    then selected
    else selected ++ record { id = id; reason = reason } ∷ []

unfoldable pub signal_reason : String → String
signal_reason signal =
    if contains domain_ids signal
    then "intake domain signal: " & signal
    else "unlisted domain signal: " & signal

unfoldable pub add_signals : List Domain → List String → List Domain
add_signals selected [] = selected
add_signals selected (signal ∷ signals) =
    add_signals (add_domain selected signal (signal_reason signal)) signals

unfoldable pub select_domains : NormalizedIntake → List Domain
select_domains intake =
    let selected = add_signals [] intake.domain_signals in
    let filled =
      if eqb (length selected) 0
      then add_domain selected "general" "no stronger domain signal; default general"
      else selected in
    if contains intake.domain_signals "documentation" && eqb (length filled) 1
    then add_domain filled "documentation" "documentation-only request"
    else filled

-- The ids that are selected, in order.
abbrev pub ids : List Domain → List String
ids = map (λ d. d.id)

any-ids :
    (selected : List Domain) (id : String)
    → any (λ item. item.id == id) selected ≡ contains (ids selected) id
unfolding any contains
any-ids [] id = refl
any-ids (d ∷ ds) id = rw (any-ids ds id)

ids-append :
    (ds : List Domain) (id reason : String)
    → ids (ds ++ record { id = id; reason = reason } ∷ []) ≡ ids ds ++ id ∷ []
ids-append [] id reason = refl
ids-append (d ∷ ds) id reason = rw (ids-append ds id reason)

ids-add_domain :
    (selected : List Domain) (id reason : String)
    → ids (add_domain selected id reason)
      ≡ (if contains (ids selected) id then ids selected else ids selected ++ id ∷ [])
unfolding add_domain
ids-add_domain selected id reason =
    rw (any-ids selected id) (elim (Bool-cases (contains (ids selected) id)) [
      | inl old ↦ rw old
      | inr new ↦ rw new (ids-append selected id reason)
    ])

-- Adding to the end of the ids or to the front is the same for membership.
contains_moved :
    (known : List String) (s a : String) → contains (known ++ s ∷ []) a ≡ contains (s ∷ known) a
unfolding contains
contains_moved known s a = rw (contains-append known (s ∷ []) a) (ground arith)

ids-add_signals :
    (selected : List Domain) (signals : List String)
    → ids (add_signals selected signals) ≡ ids selected ++ dedupe_from (ids selected) signals
unfolding add_signals dedupe_from
ids-add_signals selected [] = sym (append-nil _)
ids-add_signals selected (s ∷ signals) =
    let added = ids-add_domain selected s (signal_reason s) in
    let later = ids-add_signals (add_domain selected s (signal_reason s)) signals in
    elim (Bool-cases (contains (ids selected) s)) [
      | inl old ↦ rw old (rw (added, old) at later)
      | inr new ↦ rw new ((rw (added, new) at later) ∙ regroup new)
    ]
  where
    regroup :
        contains (ids selected) s ≡ false
        → (ids selected ++ s ∷ []) ++ dedupe_from (ids selected ++ s ∷ []) signals
          ≡ ids selected ++ s ∷ dedupe_from (s ∷ ids selected) signals
    regroup new =
        append_assoc (ids selected) (s ∷ []) _
        ∙ ap (λ t. ids selected ++ s ∷ t)
            (dedupe_from_cong (ids selected ++ s ∷ []) (s ∷ ids selected) signals
              (contains_moved (ids selected) s))

length-ids : (ds : List Domain) → length (ids ds) ≡ length ds
length-ids [] = refl
length-ids (d ∷ ds) = ap suc (length-ids ds)

-- The source's last step, for documentation, finds the id there already.
documentation_kept :
    (selected : List Domain) (signals : List String) (reason : String)
    → ids selected ≡ dedupe signals
    → contains signals "documentation" ≡ true
    → ids (add_domain selected "documentation" reason) ≡ ids selected
unfolding contains
documentation_kept selected signals reason same named =
    let found : contains (ids selected) "documentation" ≡ true =
      rw (same, contains-dedupe_from [] signals "documentation") named in
    rw (ids-add_domain selected "documentation" reason, found)

select_from :
    (intake : NormalizedIntake) (selected : List Domain) (s : String) (rest : List String)
    → intake.domain_signals ≡ s ∷ rest
    → add_signals [] (s ∷ rest) ≡ selected
    → ids selected ≡ dedupe (s ∷ rest)
    → ids (select_domains intake) ≡ dedupe (s ∷ rest)
unfolding select_domains dedupe_from contains
select_from intake [] s rest e g h = cc
select_from intake (d ∷ ds) s rest e g h =
    let kept = documentation_kept (d ∷ ds) (s ∷ rest) "documentation-only request" h in
    rw (e, g) (ground (arith, h, kept))

abbrev pub expected_ids : List String → List String
expected_ids [] = "general" ∷ []
expected_ids (s ∷ rest) = dedupe (s ∷ rest)

-- The selected ids are the intake's domain signals, each once and in their order, or `general`
-- alone where there are none. The last step of the source, for documentation, adds nothing.
pub ids-select_domains :
    (intake : NormalizedIntake) → ids (select_domains intake) ≡ expected_ids intake.domain_signals
ids-select_domains intake = go intake.domain_signals refl
  where
    go :
        (signals : List String)
        → intake.domain_signals ≡ signals
        → ids (select_domains intake) ≡ expected_ids signals
    go [] e = unfold select_domains add_signals add_domain any contains in rw e
    go (s ∷ rest) e =
        select_from intake (add_signals [] (s ∷ rest)) s rest e refl (ids-add_signals [] (s ∷ rest))
