-- ===== src/Catalog/Match.antt =====
-- `matchCatalog`, on the entries that are configured.
use crisismode.Base.{
  String, true, false, not, Option, none, some, List, [], ◌∷◌, ◌++◌, map, filter, template, join,
  is_empty, if◌then◌else◌,
}
use crisismode.Base.Numbers.{Numbers}
use crisismode.Types.{RiskLevel, RecoveryPlan}
use crisismode.Risk.{risk_exceeds}
use crisismode.Validator.Checks.{risk_name}
use crisismode.Catalog.Entry.{CatalogEntry, CatalogMatchInput, CatalogMatchResult, Library}
use crisismode.Catalog.Criteria.{failures, detail, evaluate_entry}

-- `configureCatalogSource`, `clearCatalogSource` and `getCatalogEntry`, on the configured entries
unfoldable pub configure_catalog_source : List CatalogEntry → List CatalogEntry → List CatalogEntry
configure_catalog_source entries configured = entries

unfoldable pub clear_catalog_source : List CatalogEntry → List CatalogEntry
clear_catalog_source configured = []

unfoldable pub get_catalog_entry : List CatalogEntry → Option CatalogEntry
get_catalog_entry [] = none
get_catalog_entry (e ∷ es) = some e

unfoldable pub covered_levels_for : CatalogEntry → List RiskLevel
covered_levels_for entry =
    filter (λ level. not (risk_exceeds level entry.match_criteria.max_risk_level))
      entry.satisfies_approval_for

unfoldable pub unmatched : List String → CatalogMatchResult
unmatched details = record {
  matched = false;
  catalog_entry = none;
  covered_risk_levels = [];
  match_details = details;
}

unfoldable pub levels_text : List RiskLevel → String
levels_text [] = "no"
levels_text (l ∷ ls) = join ", " (map risk_name (l ∷ ls))

unfoldable pub matched_by : CatalogEntry → List String → CatalogMatchResult
unfolding covered_levels_for levels_text
matched_by entry details = record {
  matched = true;
  catalog_entry = some entry;
  covered_risk_levels = covered_levels_for entry;
  match_details =
      details
      ++ template (
          "Catalog '"
          ∷ entry.catalog_id
          ∷ "' matched; covers "
          ∷ levels_text (covered_levels_for entry)
          ∷ " risk levels."
          ∷ [])
        ∷ [];
}

module _ {N : Type 0} (numbers : Numbers N) (library : Library N) (plan : RecoveryPlan)
    (input : CatalogMatchInput N) where
  -- The loop over the entries, with the details so far
  unfoldable pub match_from : List String → List CatalogEntry → CatalogMatchResult
  unfolding matched_by unmatched detail evaluate_entry
  match_from details [] = unmatched details
  match_from details (e ∷ es) =
      let notes = evaluate_entry numbers library e plan input in
      let details' = details ++ map (detail e.catalog_id) notes in
      let rest = match_from details' es in
      if is_empty (failures notes) then matched_by e details' else rest

  unfoldable pub match_catalog : List CatalogEntry → CatalogMatchResult
  unfolding match_from unmatched
  match_catalog [] = unmatched (
      "No pre-authorized catalog source is configured; every approval must be granted by a human."
      ∷ [])
  match_catalog (e ∷ es) = match_from [] (e ∷ es)
