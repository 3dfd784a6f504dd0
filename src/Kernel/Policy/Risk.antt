-- ===== src/Kernel/Policy/Risk.antt =====
-- What the risk classifier of src/kernel/policy.ts promises, and where an uncertainty lowers it.
use Prim.Native.String.{String}
use uads.Common.{
  ◌≡◌, ◌↔◌, refl, Bool, true, false, ◌||◌, List, [], ◌∷◌, ◌++◌, map, arith, contains, any,
  contains-append, to_lower_case, string_eq, Bool-cases, inl, inr, ◌==◌,
}
use text.Mathlib.TextEquality.{eq_iff}
use uads.Kernel.Ids.{includes_any}
use uads.Kernel.Types.{RiskLevel, low, medium, high, NormalizedIntake, RepositorySignals}
use uads.Kernel.Policy.{is_sensitive_item, sensitive_uncertainty, classify_risk}

-- The signals that the classifier looks among.
abbrev pub signals : NormalizedIntake → List String
signals intake = intake.risk_signals ++ (intake.destructive_signals ++ intake.domain_signals)

abbrev pub is_critical : NormalizedIntake → Bool
is_critical intake =
    let has = contains (signals intake) in
    has "web3"
    || has "smart-contracts"
    || has "destructive"
    || has "destructive-data"
    || includes_any (to_lower_case intake.objective) ("defi" ∷ "withdrawal path" ∷ [])
    || includes_any (to_lower_case intake.objective) ("remove a production column" ∷ [])

-- A task is CRITICAL exactly when it carries a contract or a destructive signal or names such work
-- in its objective, whatever the repository map shows.
pub classify_risk-critical_iff :
    (intake : NormalizedIntake) (repository : RepositorySignals)
    → ((classify_risk intake repository).0 ≡ RiskLevel.critical) ↔ (is_critical intake ≡ true)
unfolding classify_risk
classify_risk-critical_iff intake repository = ground arith

-- The repository map decides the level of no task but one with the signal `database`.
pub classify_risk_other_map :
    (intake : NormalizedIntake) (here there : RepositorySignals)
    → contains (signals intake) "database" ≡ false
    → (classify_risk intake here).0 ≡ (classify_risk intake there).0
unfolding classify_risk
classify_risk_other_map intake here there h = ground arith

any-append :
    (xs ys : List String)
    → any is_sensitive_item (xs ++ ys) ≡ (any is_sensitive_item xs || any is_sensitive_item ys)
unfolding any
any-append [] ys = refl
any-append (x ∷ xs) ys = rw (any-append xs ys) (ground arith)

database_sensitive :
    (xs : List String) → contains xs "database" ≡ true → any is_sensitive_item xs ≡ true
unfolding any contains
database_sensitive (x ∷ xs) h = elim (Bool-cases (x == "database")) [
  | inl same ↦ rw ((eq_iff x "database").0 same) (unfold is_sensitive_item contains in refl)
  | inr other ↦ ground (arith, database_sensitive xs)
]
database_sensitive [] h = cc

connected_sensitive :
    (d r x area : List String)
    → contains (r ++ (x ++ d)) "database" ≡ true
    → any is_sensitive_item (d ++ (r ++ (x ++ area))) ≡ true
connected_sensitive d r x area h = ground (
  arith,
  any-append d (r ++ (x ++ area)),
  any-append r (x ++ area),
  any-append x area,
  database_sensitive d,
  database_sensitive r,
  database_sensitive x,
  contains-append r (x ++ d) "database",
  contains-append x d "database",
)

abbrev pub no_map : RepositorySignals
no_map = record { web3 = false; migrations = false; database = false }

-- A task whose signals leave it LOW and which only the repository map raises to HIGH is MEDIUM as
-- soon as its intake names any uncertainty: an uncertainty lowers the level of such a task.
pub uncertainty_lowers :
    (intake : NormalizedIntake) (repository : RepositorySignals) (u : String) (us : List String)
    → (classify_risk intake no_map).0 ≡ low
    → (classify_risk intake repository).0 ≡ high
    → (classify_risk (record intake { uncertainties = u ∷ us }) repository).0 ≡ medium
unfolding classify_risk sensitive_uncertainty
uncertainty_lowers intake repository u us h k = ground (
  arith,
  connected_sensitive intake.domain_signals intake.risk_signals intake.destructive_signals
      (map to_lower_case intake.affected_areas),
)
