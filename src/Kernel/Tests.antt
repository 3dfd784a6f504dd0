-- ===== src/Kernel/Tests.antt =====
-- Intakes for the tests of the classifiers, and their theorems at them.
use uads.Common.{
  ◌≡◌, ◌↔◌, refl, true, false, [], ◌∷◌, contains, string_eq, any, filter, dedupe_from, includes,
  to_lower_case, join_words,
}
use uads.Kernel.Ids.{includes_any}
use uads.Kernel.Types.{
  NormalizedIntake, RepositorySignals, RiskLevel, low, medium, high, host_structured, local,
  cross_cutting,
}
use uads.Kernel.Policy.{
  scope_class_of, classify_scope_size, classify_risk, sensitive_uncertainty, is_sensitive_item,
}
use uads.Kernel.Policy.Domains.{ids, select_domains, ids-select_domains}
use uads.Kernel.Policy.Risk.{is_critical, no_map, classify_risk-critical_iff, uncertainty_lowers}

abbrev intake : NormalizedIntake
intake = record {
  objective = "Tidy the storage helper";
  constraints = [];
  requested_artifacts = [];
  in_scope = [];
  out_of_scope = [];
  acceptance_criteria = [];
  domain_signals = "database" ∷ "backend" ∷ "database" ∷ [];
  risk_signals = [];
  destructive_signals = [];
  affected_areas = [];
  uncertainties = [];
  approved_boundaries = [];
  classifier = host_structured;
}

abbrev local_intake : NormalizedIntake
local_intake = record intake { domain_signals = "backend" ∷ [] }

abbrev with_database : RepositorySignals
with_database = record { web3 = false; migrations = true; database = true }

-- What the runs compute with.
reads : Unit {0}
unfolding scope_class_of classify_scope_size classify_risk sensitive_uncertainty is_sensitive_item
    includes_any any filter dedupe_from contains includes to_lower_case join_words
reads = tt

levels :
    ((classify_risk intake no_map).0 ≡ low)
    × ((classify_risk intake with_database).0 ≡ high)
    × ((classify_scope_size intake).scope_class ≡ cross_cutting)
    × ((classify_scope_size local_intake).scope_class ≡ local)
unfolding reads
levels = (refl, refl, refl, refl)

classify_risk-critical_iff_example :
    ((classify_risk intake no_map).0 ≡ RiskLevel.critical) ↔ (is_critical intake ≡ true)
classify_risk-critical_iff_example = classify_risk-critical_iff intake no_map

uncertainty_lowers_example :
    (classify_risk (record intake { uncertainties = "which table?" ∷ [] }) with_database).0 ≡ medium
uncertainty_lowers_example =
    uncertainty_lowers intake with_database "which table?" [] levels.0 levels.1

ids-select_domains_example : ids (select_domains intake) ≡ "database" ∷ "backend" ∷ []
unfolding dedupe_from contains
ids-select_domains_example = ids-select_domains intake
