-- ===== src/Validation/Identity.antt =====
-- src/lib/internal/epanet_network_validator_identity.cpp and `collectIdentityFailures` of
-- epanet_network_validator_support.cpp: every entity of the six namespaces
-- has an ID and a UUID of its own. The code does not visit the demand points.
pub mod Fresh
pub mod Runs
pub mod Exact
use Prim.Native.String.{◌++◌ as append}
use aowis_server_epanet.Base.{
  ℕ, zero, suc, ◌+◌, ◌-◌, ◌*◌, ◌/◌, ◌%◌, ◌≤◌, ◌<◌, min, max, String, ◌≡◌, refl, sym, ap, ◌∙◌, subst,
  ◌≢◌, ◌↔◌, ◌⊎◌, inl, inr, Bool, true, false, not, ◌&&◌, ◌||◌, Option, none, some, List, [], ◌∷◌,
  ◌++◌, map, append_assoc, append-nil, arith, eq_iff, ltb, leb, ◌==◌, str_eq, if◌then◌else◌, ==_iff,
  Bool-cases, Option-cases, decided, same, decided_iff, same_iff, length, take, drop, length-append,
  All, All-append, get_elem?, any, any-append, ℤ, pos, negsuc, pos_part, neg_part, ltb_ℤ, eqb_ℤ,
}
use aowis_server_epanet.Model.Enums.{StatusOperation, StatusEntityType}
use aowis_server_epanet.Model.Status.{Uuid, null_uuid, Status, Externals}
use aowis_server_epanet.Model.Network.{
  Network, Junction, Node, Pipe, Pump, Valve, TimePattern, Named,
}
use aowis_server_epanet.Validation.Support.{contains_uuid, contains_id, validation_status}

-- The failures so far and the two sets that `collectIdentityFailures` takes by reference: the UUIDs
-- of the model, and the IDs of one namespace.
pub record Collected : Type 0 where
  pub failures : List Status
  pub all_uuids : List Uuid
  pub ids : List String

-- failures.append(status)
abbrev fail : Collected → Status → Collected
fail s status = record s { failures = s.failures ++ status ∷ [] }

module _ ⦃ext : Externals⦄ (namespace_name : String) (entity_type : StatusEntityType)
    (entity_name : String) (id : String) (uuid : Uuid) where
  abbrev identity_failure : String → List String → Status
  identity_failure message details =
      validation_status StatusOperation.resolve_entity entity_type id uuid message details

  require_uuid : Collected → Collected
  require_uuid s =
      if uuid == null_uuid
      then fail s (identity_failure (append entity_name " has no UUID") [])
      else s

  require_id : Collected → Collected
  require_id s =
      if str_eq id "" then fail s (identity_failure (append entity_name " has no ID") []) else s

  collect_uuid : Collected → Collected
  collect_uuid s =
      if not (uuid == null_uuid)
      then (if contains_uuid s.all_uuids uuid
          then fail s (
              identity_failure (append entity_name " UUID is duplicated across the hydraulic model")
                (append "Duplicate UUID: " (ext.uuid_text uuid) ∷ []))
          else record s { all_uuids = uuid ∷ s.all_uuids })
      else s

  collect_id : Collected → Collected
  collect_id s =
      if not (str_eq id "")
      then (if contains_id s.ids id
          then fail s (
              identity_failure
                (append entity_name
                  (append " ID is duplicated in the EPANET " (append namespace_name " namespace")))
                (append "Duplicate ID: " id ∷ []))
          else record s { ids = id ∷ s.ids })
      else s

  -- collectIdentityFailures
  unfoldable pub collect_identity_failures : Collected → Collected
  unfolding require_uuid require_id collect_uuid collect_id
  collect_identity_failures s = collect_id (collect_uuid (require_id (require_uuid s)))

module _ ⦃ext : Externals⦄ where
  -- One loop of validateIdentities: over the entities of one kind.
  unfoldable pub collect_entities :
      String → StatusEntityType → String → List Named → Collected → Collected
  unfolding collect_identity_failures
  collect_entities namespace_name entity_type entity_name [] s = s
  collect_entities namespace_name entity_type entity_name (e ∷ es) s =
      collect_entities namespace_name entity_type entity_name es
        (collect_identity_failures namespace_name entity_type entity_name e.id e.uuid s)

-- A namespace begins with an empty set of IDs.
abbrev pub new_namespace : Collected → Collected
new_namespace s = record s { ids = [] }

abbrev pub nothing_collected : Collected
nothing_collected = record { failures = []; all_uuids = []; ids = [] }

abbrev pub of_junction : {D : Type 0} → Junction D → Named
of_junction e = record { id = e.id; uuid = e.uuid }

abbrev pub of_node : Node → Named
of_node e = record { id = e.id; uuid = e.uuid }

abbrev pub of_pipe : Pipe → Named
of_pipe e = record { id = e.id; uuid = e.uuid }

abbrev pub of_pump : {D : Type 0} → Pump D → Named
of_pump e = record { id = e.id; uuid = e.uuid }

abbrev pub of_valve : Valve → Named
of_valve e = record { id = e.id; uuid = e.uuid }

abbrev pub of_pattern : {D : Type 0} → TimePattern D → Named
of_pattern e = record { id = e.id; uuid = e.uuid }

module _ ⦃ext : Externals⦄ {D : Type 0} (network : Network D) where
  -- The loops of validateIdentities, namespace by namespace.
  unfoldable pub collect_nodes : Collected → Collected
  collect_nodes s =
      collect_entities "node" StatusEntityType.tank "Tank" (map of_node network.nodes_tanks) (
        collect_entities "node" StatusEntityType.reservoir "Reservoir"
          (map of_node network.nodes_reservoirs)
          (collect_entities "node" StatusEntityType.junction "Junction"
            (map of_junction network.nodes_junctions) s))

  unfoldable pub collect_links : Collected → Collected
  collect_links s =
      collect_entities "link" StatusEntityType.valve "Valve" (map of_valve network.links_valves) (
        collect_entities "link" StatusEntityType.pump "Pump" (map of_pump network.links_pumps) (
          collect_entities "link" StatusEntityType.pipe "Pipe" (map of_pipe network.links_pipes) s))

  unfoldable pub collect_patterns : Collected → Collected
  collect_patterns =
      collect_entities "pattern" StatusEntityType.pattern "Time pattern"
        (map of_pattern network.patterns_time)

  abbrev collect_curve_kind : String → List Named → Collected → Collected
  collect_curve_kind = collect_entities "curve" StatusEntityType.curve

  unfoldable pub collect_curves : Collected → Collected
  collect_curves s = collect_curve_kind "Generic curve" network.curves_generic (
      collect_curve_kind "Valve characteristic curve" network.curves_valve_characteristic (
        collect_curve_kind "Valve head-loss curve" network.curves_valve_headloss (
          collect_curve_kind "Pump efficiency curve" network.curves_pump_efficiency (
            collect_curve_kind "Pump head curve" network.curves_pump_head
              (collect_curve_kind "Tank volume curve" network.curves_tank_volume s)))))

  unfoldable pub collect_controls : Collected → Collected
  collect_controls =
      collect_entities "simple-control" StatusEntityType.control "Simple control"
        network.controls_simple

  unfoldable pub collect_rules : Collected → Collected
  collect_rules =
      collect_entities "rule" StatusEntityType.rule "Control rule" network.controls_rules

  -- validateIdentities
  unfoldable pub validate_identities : List Status
  unfolding collect_nodes collect_links collect_patterns collect_curves collect_controls
      collect_rules
  validate_identities =
      let nodes = collect_nodes nothing_collected in
      let links = collect_links (new_namespace nodes) in
      let patterns = collect_patterns (new_namespace links) in
      let curves = collect_curves (new_namespace patterns) in
      let controls = collect_controls (new_namespace curves) in
      (collect_rules (new_namespace controls)).failures
