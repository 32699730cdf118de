-- ===== src/Preparer.antt =====
-- src/lib/internal/epanet_network_preparer.cpp: the network that the solver gets: validated, without
-- disabled entities, with the demand points on the junctions.
pub mod Prepared
pub mod Selections
use aowis_server_epanet.Base.{not, ◌||◌, none, List, [], ◌∷◌, ◌++◌, if◌then◌else◌, same, is_empty}
use aowis_server_epanet.Model.Status.{Uuid, Status, Externals}
use aowis_server_epanet.Model.Doubles.{Doubles}
use aowis_server_epanet.Model.Network.{
  Network, Junction, Node, Pipe, Pump, Valve, DemandPoint, ReportSelection, ReportSelectionMode,
  ReportSelectionMode-discrete,
}
use aowis_server_epanet.StatusHelpers.{make_epanet_success}
use aowis_server_epanet.Validation.Support.{contains_uuid, enabled_entities, node_uuids, link_uuids}
use aowis_server_epanet.Validation.Whole.{OtherChecks, validate_network}
use aowis_server_epanet.Projection.{build_demand_projection}

-- The selected UUIDs that are kept: the loop of removeDisabledReportSelections.
unfoldable pub retained_uuids : List Uuid → List Uuid → List Uuid → List Uuid
retained_uuids all_uuids enabled_uuids [] = []
retained_uuids all_uuids enabled_uuids (uuid ∷ uuids) =
    let rest = retained_uuids all_uuids enabled_uuids uuids in
    if not (contains_uuid all_uuids uuid) || contains_uuid enabled_uuids uuid
    then uuid ∷ rest
    else rest

-- removeDisabledReportSelections
unfoldable pub remove_disabled_report_selections :
    ReportSelection → List Uuid → List Uuid → ReportSelection
remove_disabled_report_selections selection all_uuids enabled_uuids =
    let retained = retained_uuids all_uuids enabled_uuids selection.uuids in
    if not (same ReportSelectionMode-discrete selection.mode ReportSelectionMode.selected)
    then selection
    else record selection {
      uuids = retained;
      mode = if is_empty retained then ReportSelectionMode.none else selection.mode;
    }

module _ {D : Type 0} where
  -- The network without its disabled entities.
  abbrev pub without_disabled : Network D → Network D
  without_disabled n = record n {
    nodes_junctions = enabled_entities (λ (e : Junction D). e.enabled) n.nodes_junctions;
    nodes_reservoirs = enabled_entities (λ (e : Node). e.enabled) n.nodes_reservoirs;
    nodes_tanks = enabled_entities (λ (e : Node). e.enabled) n.nodes_tanks;
    demand_points = enabled_entities (λ (e : DemandPoint D). e.enabled) n.demand_points;
    links_pipes = enabled_entities (λ (e : Pipe). e.enabled) n.links_pipes;
    links_pumps = enabled_entities (λ (e : Pump D). e.enabled) n.links_pumps;
    links_valves = enabled_entities (λ (e : Valve). e.enabled) n.links_valves;
  }

  -- The report selections without the entities that are there and disabled.
  abbrev pub report_enabled : Network D → Network D → Network D
  report_enabled source prepared = record prepared {
    selection_nodes =
        remove_disabled_report_selections prepared.selection_nodes (node_uuids source)
          (node_uuids prepared);
    selection_links =
        remove_disabled_report_selections prepared.selection_links (link_uuids source)
          (link_uuids prepared);
  }

  -- prepareEpanetNetwork: the status, `*validation_failures` and `prepared`. `resolve` is
  -- resolveMaterialLibraryRoughness, and `default` is `prepared` before the call.
  unfoldable pub prepare_epanet_network :
      ⦃ext : Externals⦄ ⦃ops : Doubles D⦄
      → OtherChecks D
      → (Network D → Status × Network D)
      → Network D
      → Network D
      → Status × List Status × Network D
  prepare_epanet_network checks resolve default source =
      let (resolution, resolved) = resolve source in
      let (validation, failures) = validate_network resolved checks in
      let (projection, projected) = build_demand_projection (without_disabled resolved) in
      let (again, projected_failures) = validate_network projected checks in
      if not resolution.success
      then (resolution, resolution ∷ [], default)
      else if not validation.success
      then (validation, failures, default)
      else if not projection.success
      then (projection, failures ++ projection ∷ [], projected)
      else if not again.success
      then (again, failures ++ projected_failures, projected)
      else (make_epanet_success, failures, report_enabled source projected)
