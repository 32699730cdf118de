-- ===== src/Tests/Networks.antt =====
-- The validation of a small network.
use aowis_server_epanet.Base.{ℕ, ◌≡◌, ◌≢◌, ◌↔◌, ◌⊎◌, true, none, [], ◌∷◌}
use aowis_server_epanet.Model.Enums.{StatusEntityType, WaterQualityAnalysisType}
use aowis_server_epanet.Validation.Support.{validate_reference, contains_uuid, node_uuids}
use aowis_server_epanet.Validation.Support.References.{validate_reference_iff}
use aowis_server_epanet.Validation.Identity.{validate_identities}
use aowis_server_epanet.Validation.Identity.Exact.{
  named_nodes, named_links, named_patterns, named_curves, checked_uuids, HaveUuids, HaveIds,
  validate_identities_iff,
}
use aowis_server_epanet.Validation.Topology.{
  validate_topology, enabled_junction_uuids, enabled_valves, illegal_valve_pair,
}
use aowis_server_epanet.Validation.Topology.Conflicts.{Conflict, illegal_valve_pair_iff}
use aowis_server_epanet.Validation.Topology.Exact.{Pairs, considered, validate_topology_iff}
use aowis_server_epanet.Validation.Whole.{
  QualityOptions, OtherChecks, enabled_network, validate_network, validate_quality_run,
}
use aowis_server_epanet.Validation.Whole.Exact.{
  Tolerable, validate_network_iff, validate_quality_run_iff,
}
use aowis_server_epanet.Model.Status.{null_uuid}
use aowis_server_epanet.Tests.Samples.{
  sample_externals, whole_doubles, sample_network, sample_valve,
}

reference_example :
    ((validate_reference (1 ∷ 2 ∷ []) (1 ∷ []) 2 StatusEntityType.node "N" 9 "node" true).success
      ≡ true)
    ↔ (((2 ≡ null_uuid) × (true ≡ true))
        ⊎ ((2 ≢ null_uuid)
            × (contains_uuid (1 ∷ 2 ∷ []) 2 ≡ true)
            × (contains_uuid (1 ∷ []) 2 ≡ true)))
reference_example =
    validate_reference_iff (1 ∷ 2 ∷ []) (1 ∷ []) 2 StatusEntityType.node "N" 9 "node" true

identities_example : (validate_identities sample_network ≡ []) ↔ (
    HaveUuids (checked_uuids sample_network)
    × HaveIds (named_nodes sample_network)
    × HaveIds (named_links sample_network)
    × HaveIds (named_patterns sample_network)
    × HaveIds (named_curves sample_network)
    × HaveIds sample_network.controls_simple
    × HaveIds sample_network.controls_rules)
identities_example = validate_identities_iff sample_network

topology_example :
    (validate_topology sample_network ≡ [])
    ↔ Pairs
        (λ v w. ¬ Conflict v w)
        (considered (enabled_junction_uuids sample_network) (enabled_valves sample_network))
topology_example = validate_topology_iff sample_network

valve_pair_example :
    (illegal_valve_pair (sample_valve "V1" 4) (sample_valve "V2" 5) ≡ none)
    ↔ (¬ Conflict (sample_valve "V1" 4) (sample_valve "V2" 5))
valve_pair_example = illegal_valve_pair_iff (sample_valve "V1" 4) (sample_valve "V2" 5)

abbrev no_other_checks : OtherChecks ℕ
no_other_checks = record {
  validate_references = λ n. [];
  validate_numerics = λ n. [];
  validate_multi_species = λ n. [];
}

network_example : ((validate_network sample_network no_other_checks).1 ≡ []) ↔ (
    HaveUuids (checked_uuids sample_network)
    × HaveIds (named_nodes sample_network)
    × HaveIds (named_links sample_network)
    × HaveIds (named_patterns sample_network)
    × HaveIds (named_curves sample_network)
    × HaveIds sample_network.controls_simple
    × HaveIds sample_network.controls_rules
    × Pairs
        (λ v w. ¬ Conflict v w)
        (considered (enabled_junction_uuids sample_network) (enabled_valves sample_network))
    × (no_other_checks.validate_references sample_network ≡ [])
    × (no_other_checks.validate_numerics sample_network ≡ [])
    × (no_other_checks.validate_multi_species sample_network ≡ []))
network_example = validate_network_iff sample_network no_other_checks

abbrev one : ℕ
one = 1

abbrev pub trace_options : QualityOptions ℕ
trace_options = record {
  analysis = WaterQualityAnalysisType.source_trace;
  chemical_name = "";
  trace_node_uuid = 1;
  chemical_tolerance_mg_per_l = 1;
  water_age_tolerance_h = 1;
  source_trace_tolerance_percent = 1;
  relative_diffusivity = 1;
}

quality_options_example : ((validate_quality_run sample_network trace_options).1 ≡ []) ↔ (
    (trace_options.analysis ≡ WaterQualityAnalysisType.source_trace
      → (1 ≢ null_uuid)
        × (contains_uuid (node_uuids sample_network) 1 ≡ true)
        × (contains_uuid (node_uuids (enabled_network sample_network)) 1 ≡ true))
    × Tolerable one
    × Tolerable one
    × Tolerable one
    × Tolerable one
    × (trace_options.analysis ≡ WaterQualityAnalysisType.chemical
        → sample_externals.trimmed "" ≢ ""))
quality_options_example = validate_quality_run_iff sample_network trace_options
