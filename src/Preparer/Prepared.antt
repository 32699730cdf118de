-- ===== src/Preparer/Prepared.antt =====
-- The network that a successful preparation gives: prepareEpanetNetwork in
-- src/lib/internal/epanet_network_preparer.cpp.
use aowis_server_epanet.Base.{◌≡◌, true, List, [], All}
use aowis_server_epanet.Model.Status.{Status, Externals}
use aowis_server_epanet.Model.Doubles.{Doubles}
use aowis_server_epanet.Model.Network.{Network, Junction}
use aowis_server_epanet.Validation.Support.{node_uuids, link_uuids}
use aowis_server_epanet.Validation.Whole.{OtherChecks, validate_network}
use aowis_server_epanet.Projection.Shares.{received}
use aowis_server_epanet.Projection.Outcome.{Projected}
use aowis_server_epanet.Preparer.Selections.{LeftOf}
use aowis_server_epanet.Preparer.{without_disabled}

-- The network that is validated again: enabled entities, given junctions, no demand points.
module _ {D : Type 0} where
  abbrev pub solver_network : Network D → List (Junction D) → Network D
  solver_network resolved js = record (without_disabled resolved) {
    nodes_junctions = js;
    demand_points = [];
  }

module _ {D : Type 0} ⦃ext : Externals⦄ ⦃ops : Doubles D⦄ (checks : OtherChecks D) where
  -- What the prepared network is, from the source and its resolved copy.
  pub record Prepared (source resolved prepared : Network D) : Type 0 where
    pub accepted : (validate_network resolved checks).0.success ≡ true
    pub enabled : All (λ (j : Junction D). j.enabled ≡ true) prepared.nodes_junctions
    pub projected :
        let network = without_disabled resolved in
        Projected
          (received network network.demand_points)
          network.nodes_junctions
          prepared.nodes_junctions
    pub accepted_again :
        (validate_network (solver_network resolved prepared.nodes_junctions) checks).0.success
        ≡ true
    -- Of the selected UUIDs those are left that the source does not have or that are enabled.
    pub nodes_selected :
        LeftOf resolved.selection_nodes
          (node_uuids source)
          (node_uuids prepared)
          prepared.selection_nodes
    pub links_selected :
        LeftOf resolved.selection_links
          (link_uuids source)
          (link_uuids prepared)
          prepared.selection_links
    pub otherwise : prepared ≡ record (solver_network resolved prepared.nodes_junctions) {
      selection_nodes = prepared.selection_nodes;
      selection_links = prepared.selection_links;
    }
