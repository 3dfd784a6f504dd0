-- ===== src/Kernel/Policy.antt =====
-- src/kernel/policy.ts and src/kernel/domains.ts: how an intake is classified by scope and risk,
-- and which domains, context radius, capability class and token budget follow.
pub mod Tiers
pub mod Domains
pub mod Risk
pub mod Scope
use Prim.Native.String.{String}
use uads.Common.{
  ℕ, ◌+◌, Bool, true, false, not, ◌&&◌, ◌||◌, List, [], ◌∷◌, ◌++◌, Option, map, any, contains, ◌==◌,
  ltb, leb, if◌then◌else◌, length, to_lower_case, includes, join_words, ◌&◌, string_eq,
}
use uads.Kernel.Ids.{includes_any, unique}
use uads.Kernel.Types.{
  ScopeClass, trivial, local, cross_cutting, architectural, RiskLevel, low, medium, high,
  ContextRadius, c1, c2, c3, c4, CapabilityClass, economy, balanced, strong, NormalizedIntake,
  RepositorySignals, scope_eq,
}

pub record ScopeDecision : Type 0 where
  pub scope_class : ScopeClass
  pub reasons : List String
  pub included : List String
  pub out_of_scope : List String
  pub recommendations : List String

abbrev is_empty {ℓ} : {A : Type ℓ} → List A → Bool
is_empty [] = true
is_empty (x ∷ xs) = false

-- `signals.length === 1 && signals[0] === "documentation"`
abbrev is_documentation : List String → Bool
is_documentation (s ∷ []) = s == "documentation"
is_documentation _ = false

-- The chain of tests that settles the class and its reason. Where no test passes the class stays
-- `local` with no reason.
unfoldable pub scope_class_of : NormalizedIntake → ScopeClass × List String
scope_class_of intake =
    let signals = intake.domain_signals in
    let text =
      to_lower_case
        (intake.objective & " " & join_words signals & " " & join_words intake.risk_signals) in
    if includes_any text ("typo" ∷ "wording" ∷ "spelling" ∷ "readme" ∷ [])
      || is_documentation signals
    then (trivial, "documentation/wording change" ∷ [])
    else if includes_any text ("button color" ∷ "primary button" ∷ "css" ∷ "stylesheet" ∷ [])
        && is_empty intake.risk_signals
    then (trivial, "isolated presentation change" ∷ [])
    else if includes_any text (
          "architecture" ∷ "auth architecture" ∷ "storage model" ∷ "change the public contract"
          ∷ "public api contract" ∷ [])
        || contains signals "kernel-runtime"
        || contains signals "state-recovery" && contains signals "offline-first"
    then (architectural, "public contract, kernel/runtime, or core architecture is in play" ∷ [])
    else if leb 3 (length signals)
        || contains signals "database"
        || contains intake.risk_signals "database-migration"
        || contains signals "api" && contains signals "security"
        || contains signals "smart-contracts"
    then (cross_cutting, "change spans more than one module or contract surface" ∷ [])
    else if leb (length intake.affected_areas) 1 && leb (length signals) 2
    then (local, "isolated module or component" ∷ [])
    else (local, [])

unfoldable pub classify_scope_size : NormalizedIntake → ScopeDecision
unfolding scope_class_of
classify_scope_size intake =
    let (scope_class, reasons) = scope_class_of intake in
    record {
      scope_class = scope_class;
      reasons = reasons;
      included = if is_empty intake.in_scope then intake.objective ∷ [] else intake.in_scope;
      out_of_scope = unique (
          intake.out_of_scope
          ++ "unrelated architecture refactors" ∷ "unrelated Web3/tokenomics work"
            ∷ "unrelated marketplace or dashboard features" ∷ []);
      recommendations =
          if scope_class == trivial
          then []
          else "Record focused tests as IMPORTANT if not already requested" ∷ [];
    }

abbrev sensitive : List String
sensitive =
    "security" ∷ "authentication" ∷ "web3" ∷ "smart-contracts" ∷ "finance-economics" ∷ "payments"
    ∷ "tokenomics" ∷ "database" ∷ "destructive" ∷ "destructive-data" ∷ []

unfoldable pub is_sensitive_item : String → Bool
is_sensitive_item item = contains sensitive item || includes item "auth" || includes item "contract"

-- What the intake is connected to: its signals and its affected areas in lower case.
abbrev connected : NormalizedIntake → List String
connected intake =
    intake.domain_signals
    ++ (intake.risk_signals
        ++ (intake.destructive_signals ++ map to_lower_case intake.affected_areas))

unfoldable pub sensitive_uncertainty : NormalizedIntake → Bool
unfolding is_sensitive_item
sensitive_uncertainty intake =
    if is_empty intake.uncertainties then false else any is_sensitive_item (connected intake)

abbrev column : List String
column = "remove a production column" ∷ []

-- `reasons.push(text)` under a test.
abbrev note : Bool → String → List String
note true text = text ∷ []
note false text = []

unfoldable pub classify_risk : NormalizedIntake → RepositorySignals → RiskLevel × List String
classify_risk intake signals_of_map =
    let has =
      contains (intake.risk_signals ++ (intake.destructive_signals ++ intake.domain_signals)) in
    let text = to_lower_case intake.objective in
    let touches_contracts =
      has "web3" || has "smart-contracts" || includes_any text ("defi" ∷ "withdrawal path" ∷ []) in
    let touches_migrations =
      has "database-migration" || has "database" || includes_any text column in
    let stored = signals_of_map.migrations || signals_of_map.database in
    if touches_contracts
    then (
      RiskLevel.critical,
      "funds/smart-contract path"
          ∷ note signals_of_map.web3 "repository map corroborates smart-contract surface",
    )
    else if has "destructive" || has "destructive-data" || includes_any text column
    then (
      RiskLevel.critical,
      "destructive data or production mutation"
          ∷ note stored "repository map corroborates database/migration presence",
    )
    else if has "financial-calculation" || has "tokenomics" || has "payments"
    then (
      high,
      "financial/economic correctness"
          ∷ note (has "authentication") "authenticated access to financial data",
    )
    else if has "database-migration"
    then (
      high,
      "schema/data migration"
          ∷ note stored "repository map corroborates migration/database presence",
    )
    else if has "kernel-runtime"
        || has "state-recovery"
        || has "offline-first"
        || has "certification"
        || has "event-driven-systems" && has "contracts"
    then (high, "foundational runtime, recovery, offline, contract, or certification surface" ∷ [])
    else if has "authentication" || has "public-api" || has "infrastructure"
    then (medium, "auth, public contract, or infrastructure signal" ∷ [])
    else if has "performance-hot-path"
    then (medium, "latency-sensitive path" ∷ [])
    else if sensitive_uncertainty intake
    then (medium, "material uncertainty in a sensitive affected area" ∷ [])
    else if touches_migrations && stored && has "database"
    then (high, "repository map corroborates migration/database presence" ∷ [])
    else (low, "no high-risk structured signals in intake" ∷ [])
