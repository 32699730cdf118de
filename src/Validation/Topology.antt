-- ===== src/Validation/Topology.antt =====
-- src/lib/internal/epanet_network_validator_topology.cpp: pairs of regulating valves that EPANET
-- refuses. The two reference parameters that a test writes when it hits are its `some` result.
pub mod Conflicts
pub mod Exact
use Prim.Native.String.{◌++◌ as append}
use aowis_server_epanet.Base.{
  ℕ, zero, suc, ◌+◌, ◌-◌, ◌*◌, ◌/◌, ◌%◌, ◌≤◌, ◌<◌, min, max, String, ◌≡◌, refl, sym, ap, ◌∙◌, subst,
  ◌≢◌, ◌↔◌, ◌⊎◌, inl, inr, Bool, true, false, not, ◌&&◌, ◌||◌, Option, none, some, List, [], ◌∷◌,
  ◌++◌, map, append_assoc, append-nil, arith, eq_iff, ltb, leb, ◌==◌, str_eq, if◌then◌else◌, ==_iff,
  Bool-cases, Option-cases, decided, same, decided_iff, same_iff, length, take, drop, length-append,
  All, All-append, get_elem?, any, any-append, ℤ, pos, negsuc, pos_part, neg_part, ltb_ℤ, eqb_ℤ,
}
use aowis_server_epanet.Model.Enums.{StatusOperation, StatusEntityType}
use aowis_server_epanet.Model.Status.{Uuid, Status, Externals}
use aowis_server_epanet.Model.Network.{
  Network, Junction, Node, Valve, ValveType, ValveType-discrete,
}
use aowis_server_epanet.Validation.Support.{
  contains_uuid, enabled_entities, entity_uuids, validation_status,
}

-- valveTypeName
abbrev valve_type_name : ValveType → String
valve_type_name ValveType.prv = "PRV"
valve_type_name ValveType.psv = "PSV"
valve_type_name ValveType.pbv = "PBV"
valve_type_name ValveType.fcv = "FCV"
valve_type_name ValveType.tcv = "TCV"
valve_type_name ValveType.pcv = "PCV"
valve_type_name ValveType.gpv = "GPV"

-- A `QHash<QUuid, QString>`: the latest insertion first.
abbrev Ids : Type 0
Ids = List (Uuid × String)

abbrev insert_ids : {E : Type 0} → (E → Uuid × String) → List E → Ids → Ids
insert_ids entry [] ids = ids
insert_ids entry (e ∷ es) ids = insert_ids entry es (entry e ∷ ids)

-- QHash::value with a default.
abbrev id_of : Ids → Uuid → String → String
id_of [] uuid default = default
id_of ((u, id) ∷ ids) uuid default = if u == uuid then id else id_of ids uuid default

-- nodeIds
abbrev pub node_ids : {D : Type 0} → Network D → Ids
node_ids {D} network =
    insert_ids (λ (e : Node). (e.uuid, e.id)) network.nodes_tanks
      (insert_ids (λ (e : Node). (e.uuid, e.id)) network.nodes_reservoirs
        (insert_ids (λ (e : Junction D). (e.uuid, e.id)) network.nodes_junctions []))

abbrev is_type : Valve → ValveType → Bool
is_type valve type = same ValveType-discrete valve.type type

-- illegalPrvPair
unfoldable pub illegal_prv_pair : Valve → Valve → Option (Uuid × String)
illegal_prv_pair first second =
    if not (is_type first ValveType.prv) || not (is_type second ValveType.prv)
    then none
    else if first.node_uuid_to == second.node_uuid_to
    then some (first.node_uuid_to, "two PRVs cannot control the same downstream junction")
    else if first.node_uuid_to == second.node_uuid_from
    then some (first.node_uuid_to, "two PRVs cannot be connected in series")
    else if first.node_uuid_from == second.node_uuid_to
    then some (first.node_uuid_from, "two PRVs cannot be connected in series")
    else none

-- illegalPsvPair
unfoldable pub illegal_psv_pair : Valve → Valve → Option (Uuid × String)
illegal_psv_pair first second =
    if not (is_type first ValveType.psv) || not (is_type second ValveType.psv)
    then none
    else if first.node_uuid_from == second.node_uuid_from
    then some (first.node_uuid_from, "two PSVs cannot control the same upstream junction")
    else if first.node_uuid_to == second.node_uuid_from
    then some (first.node_uuid_to, "two PSVs cannot be connected in series")
    else if first.node_uuid_from == second.node_uuid_to
    then some (first.node_uuid_from, "two PSVs cannot be connected in series")
    else none

-- The common end of the three tests on valves of two types: the first ends where the second begins.
abbrev in_series : Valve → Valve → String → Option (Uuid × String)
in_series upstream downstream reason =
    if not (upstream.node_uuid_to == downstream.node_uuid_from)
    then none
    else some (upstream.node_uuid_to, reason)

-- The choice of pointers by the types of the pair, and then that test.
abbrev ordered_pair : ValveType → ValveType → String → Valve → Valve → Option (Uuid × String)
ordered_pair upstream downstream reason first second =
    if is_type first upstream && is_type second downstream
    then in_series first second reason
    else if is_type first downstream && is_type second upstream
    then in_series second first reason
    else none

-- illegalPrvPsvPair
unfoldable pub illegal_prv_psv_pair : Valve → Valve → Option (Uuid × String)
illegal_prv_psv_pair =
    ordered_pair ValveType.prv ValveType.psv
      "a PSV cannot use the controlled downstream junction of a PRV as its upstream junction"

-- illegalPrvFcvPair
unfoldable pub illegal_prv_fcv_pair : Valve → Valve → Option (Uuid × String)
illegal_prv_fcv_pair =
    ordered_pair ValveType.prv ValveType.fcv "a PRV cannot control the upstream junction of an FCV"

-- illegalFcvPsvPair
unfoldable pub illegal_fcv_psv_pair : Valve → Valve → Option (Uuid × String)
illegal_fcv_psv_pair =
    ordered_pair ValveType.fcv ValveType.psv
      "a PSV cannot use the downstream junction of an FCV as its upstream junction"

-- `||` of two tests that write their answer when they hit.
abbrev or_else : Option (Uuid × String) → Option (Uuid × String) → Option (Uuid × String)
or_else (some hit) rest = some hit
or_else none rest = rest

-- illegalValvePair
unfoldable pub illegal_valve_pair : Valve → Valve → Option (Uuid × String)
unfolding illegal_prv_pair illegal_psv_pair illegal_prv_psv_pair illegal_prv_fcv_pair
    illegal_fcv_psv_pair
illegal_valve_pair first second = or_else (illegal_prv_pair first second) (
    or_else (illegal_psv_pair first second) (
      or_else (illegal_prv_psv_pair first second)
        (or_else (illegal_prv_fcv_pair first second) (illegal_fcv_psv_pair first second))))

-- Both ends of the valve are among the enabled junctions.
abbrev pub between_junctions : List Uuid → Valve → Bool
between_junctions junctions valve = not (
    not (contains_uuid junctions valve.node_uuid_from)
    || not (contains_uuid junctions valve.node_uuid_to))

module _ ⦃ext : Externals⦄ (ids : Ids) where
  abbrev named_node : Uuid → String
  named_node uuid = id_of ids uuid (ext.uuid_text uuid)

  -- endpointDescription
  abbrev endpoint_description : Valve → String
  endpoint_description valve = append valve.id (
      append " (" (
        append (valve_type_name valve.type) (
          append "): start=" (
            append (named_node valve.node_uuid_from)
              (append ", end=" (named_node valve.node_uuid_to))))))

  -- The status of one refused pair.
  pub conflict_status : Valve → Valve → Uuid → String → Status
  conflict_status first second junction_uuid reason =
      validation_status StatusOperation.set_entity_metadata StatusEntityType.valve second.id
        second.uuid
        (append "EPANET cannot represent valve '" (
          append second.id (
            append "' (" (
              append (valve_type_name second.type) (
                append ") together with valve '" (
                  append first.id (
                    append "' (" (
                      append (valve_type_name first.type) (
                        append ") at junction '"
                          (append (named_node junction_uuid) (append "': " reason)))))))))))
        ("EPANET restriction: Error 220 (illegal valve connection to another valve)"
          ∷ append "Valve 1: " (endpoint_description first)
          ∷ append "Valve 2: " (endpoint_description second)
          ∷ append "Conflicting junction: " (named_node junction_uuid)
          ∷ append "Reason: " reason
          ∷ "Revise the topology so these regulating valves do not impose incompatible constraints on the same junction."
          ∷ [])

  module _ (junctions : List Uuid) where
    -- The inner loop: `first` against the valves behind it.
    pub check_against : Valve → List Valve → List Status → List Status
    unfolding illegal_valve_pair
    check_against first [] failures = failures
    check_against first (second ∷ rest) failures = check_against first rest (
        if not (between_junctions junctions second)
        then failures
        else elim (illegal_valve_pair first second) [
          | none ↦ failures
          | some (junction_uuid, reason) ↦
              failures ++ conflict_status first second junction_uuid reason ∷ []
        ])

    -- The outer loop.
    pub check_valves : List Valve → List Status → List Status
    unfolding check_against
    check_valves [] failures = failures
    check_valves (first ∷ rest) failures = check_valves rest (
        if not (between_junctions junctions first)
        then failures
        else check_against first rest failures)

module _ ⦃ext : Externals⦄ {D : Type 0} (network : Network D) where
  abbrev pub enabled_junction_uuids : List Uuid
  enabled_junction_uuids =
      entity_uuids (λ (e : Junction D). e.uuid)
        (enabled_entities (λ (e : Junction D). e.enabled) network.nodes_junctions)

  abbrev pub enabled_valves : List Valve
  enabled_valves = enabled_entities (λ (e : Valve). e.enabled) network.links_valves

  -- validateTopology
  unfoldable pub validate_topology : List Status
  unfolding check_valves conflict_status
  validate_topology = check_valves (node_ids network) enabled_junction_uuids enabled_valves []
