-- ===== src/Tests/Demands.antt =====
-- The demand projection on a pipe between two junctions.
use aowis_server_epanet.Base.{ℕ, ◌≡◌, refl, true, false, some, [], ◌∷◌, arith}
use aowis_server_epanet.Model.Status.{Status}
use aowis_server_epanet.StatusHelpers.{make_epanet_success}
use aowis_server_epanet.Validation.Whole.{OtherChecks}
use aowis_server_epanet.Preparer.{remove_disabled_report_selections}
use aowis_server_epanet.Preparer.Selections.{LeftOf, remove_disabled_report_selections_lem}
use aowis_server_epanet.Preparer.Prepared.{Prepared}
use aowis_server_epanet.Model.Network.{
  Network, Demand, DemandPoint, PatternMode, PatternMode-discrete, ReportSelection,
  ReportSelectionMode, AttachmentType, AllocationMode,
}
use aowis_server_epanet.Projection.{
  build_demand_projection, project_points, project_point, project_attached, project_on_found,
  project_on_pipe, append_scaled_demands, append_demands, index_of, contains, modify, pipe_by_uuid,
  enabled_indices,
}
use aowis_server_epanet.Projection.Aggregation.{
  aggregate_projected_demands, compact_junctions, compact_junction, merge_demands, merge_demand,
  demand_projection_key_matches, original_count,
}
use aowis_server_epanet.Projection.Sums.{DistinctKeys, sum_of, merge_demands-sums}
use aowis_server_epanet.Projection.Shares.{received}
use aowis_server_epanet.Projection.Outcome.{Projected, build_demand_projection-Projected}
use aowis_server_epanet.Tests.Samples.{
  sample_externals, whole_doubles, sample_network, sample_junction,
}

abbrev base_demand : ℕ → Demand ℕ
base_demand base = record {
  category_name = "household";
  pattern_mode = PatternMode.constant;
  pattern_uuid = 0;
  base_demand_m3_per_h = base;
}

abbrev house : ℕ → DemandPoint ℕ
house base = record {
  id = "H";
  uuid = 20;
  enabled = true;
  demands = base_demand base ∷ [];
  attachment = record {
    type = AttachmentType.pipe;
    junction_uuid = 0;
    pipe_uuid = 30;
    pipe_position = 0;
    pipe_allocation_mode = AllocationMode.interpolate_by_position;
    pipe_assigned_junction_uuid = 0;
  };
}

abbrev street : Network ℕ
street = record sample_network {
  links_pipes =
      record { id = "P"; uuid = 30; enabled = true; node_uuid_from = 1; node_uuid_to = 2 } ∷ [];
  demand_points = house 3 ∷ house 4 ∷ [];
}

projects : (build_demand_projection street).0.success ≡ true
unfolding build_demand_projection project_points project_point project_attached project_on_found
    project_on_pipe append_scaled_demands append_demands index_of contains modify pipe_by_uuid
    enabled_indices aggregate_projected_demands compact_junctions compact_junction merge_demands
    merge_demand demand_projection_key_matches original_count PatternMode-discrete
projects = refl

merges : merge_demands [] (base_demand 3 ∷ base_demand 4 ∷ []) ≡ some (base_demand 7 ∷ [])
unfolding merge_demands merge_demand demand_projection_key_matches PatternMode-discrete
merges = refl

projection_example :
    let projected = (build_demand_projection street).1 in
    Projected
      (received street street.demand_points)
      street.nodes_junctions
      projected.nodes_junctions
    × (projected
        ≡ record street { nodes_junctions = projected.nodes_junctions; demand_points = [] })
projection_example =
    build_demand_projection-Projected street (((λ e. absurd (omega arith)), tt), (tt, tt)) projects

merge_example :
    DistinctKeys (base_demand 7 ∷ [])
    × (sum_of (base_demand 0) (base_demand 7 ∷ [])
        ≡ sum_of (base_demand 0) (base_demand 3 ∷ base_demand 4 ∷ []))
merge_example =
    merge_demands-sums (base_demand 0) (base_demand 3 ∷ base_demand 4 ∷ []) (base_demand 7 ∷ [])
      merges

-- The street without the valves, and with a selected junction that is disabled.
abbrev plain_street : Network ℕ
plain_street = record street {
  nodes_junctions =
      sample_junction "J1" 1
      ∷ sample_junction "J2" 2
      ∷ record (sample_junction "J3" 11) { enabled = false }
      ∷ [];
  links_valves = [];
  selection_nodes = record { mode = ReportSelectionMode.selected; uuids = 11 ∷ [] };
}

abbrev no_other_checks : OtherChecks ℕ
no_other_checks = record {
  validate_references = λ n. [];
  validate_numerics = λ n. [];
  validate_multi_species = λ n. [];
}

abbrev as_is : Network ℕ → Status × Network ℕ
as_is network = (make_epanet_success, network)

abbrev two_selected : ReportSelection
two_selected = record { mode = ReportSelectionMode.selected; uuids = 1 ∷ 11 ∷ [] }

selection_example :
    LeftOf two_selected
      (1 ∷ 2 ∷ 11 ∷ [])
      (1 ∷ 2 ∷ [])
      (remove_disabled_report_selections two_selected (1 ∷ 2 ∷ 11 ∷ []) (1 ∷ 2 ∷ []))
selection_example =
    remove_disabled_report_selections_lem two_selected (1 ∷ 2 ∷ 11 ∷ []) (1 ∷ 2 ∷ [])
