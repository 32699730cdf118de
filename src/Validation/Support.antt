-- ===== src/Validation/Support.antt =====
-- src/lib/internal/epanet_network_validator_support.{h,cpp}: UUID sets, statuses of failed checks,
-- and the checks of a reference. A `QSet` is a list that is asked for membership.
pub mod References
use Prim.Native.String.{◌++◌ as append}
use aowis_server_epanet.Base.{
  ℕ, zero, suc, ◌+◌, ◌-◌, ◌*◌, ◌/◌, ◌%◌, ◌≤◌, ◌<◌, min, max, String, ◌≡◌, refl, sym, ap, ◌∙◌, subst,
  ◌≢◌, ◌↔◌, ◌⊎◌, inl, inr, Bool, true, false, not, ◌&&◌, ◌||◌, Option, none, some, List, [], ◌∷◌,
  ◌++◌, map, append_assoc, append-nil, arith, eq_iff, ltb, leb, ◌==◌, str_eq, if◌then◌else◌, ==_iff,
  Bool-cases, Option-cases, decided, same, decided_iff, same_iff, length, take, drop, length-append,
  All, All-append, get_elem?, any, any-append, ℤ, pos, negsuc, pos_part, neg_part, ltb_ℤ, eqb_ℤ,
}
use aowis_server_epanet.Model.Enums.{StatusStage, StatusOperation, StatusEntityType}
use aowis_server_epanet.Model.Status.{Uuid, null_uuid, Status, Externals}
use aowis_server_epanet.Model.Network.{Network, Junction, Node, Pipe, Pump, Valve}
use aowis_server_epanet.StatusHelpers.{make_epanet_status, make_epanet_success}

-- QSet<QUuid>::contains, QSet<QString>::contains
abbrev pub contains_uuid : List Uuid → Uuid → Bool
contains_uuid set uuid = any (λ u. u == uuid) set

abbrev pub contains_id : List String → String → Bool
contains_id set id = any (λ s. str_eq s id) set

module _ {Entity : Type 0} where
  -- enabledEntities, with the entity's `metadata.enabled` as a function
  unfoldable pub enabled_entities : (Entity → Bool) → List Entity → List Entity
  enabled_entities enabled [] = []
  enabled_entities enabled (entity ∷ entities) =
      let rest = enabled_entities enabled entities in if enabled entity then entity ∷ rest else rest

  -- entityUuids
  abbrev pub entity_uuids : (Entity → Uuid) → List Entity → List Uuid
  entity_uuids uuid entities = map uuid entities

module _ {D : Type 0} where
  -- nodeUuids
  abbrev pub node_uuids : Network D → List Uuid
  node_uuids network =
      entity_uuids (λ (e : Junction D). e.uuid) network.nodes_junctions
      ++ (entity_uuids (λ (e : Node). e.uuid) network.nodes_reservoirs
          ++ entity_uuids (λ (e : Node). e.uuid) network.nodes_tanks)

  -- linkUuids
  abbrev pub link_uuids : Network D → List Uuid
  link_uuids network =
      entity_uuids (λ (e : Pipe). e.uuid) network.links_pipes
      ++ (entity_uuids (λ (e : Pump D). e.uuid) network.links_pumps
          ++ entity_uuids (λ (e : Valve). e.uuid) network.links_valves)

module _ ⦃ext : Externals⦄ where
  -- validationStatus
  unfoldable pub validation_status :
      StatusOperation → StatusEntityType → String → Uuid → String → List String → Status
  unfolding make_epanet_status
  validation_status operation entity_type entity_id entity_uuid message details =
      record (make_epanet_status StatusStage.build_network operation entity_type entity_id
        entity_uuid message) { details = details }

  abbrev referenced : Uuid → List String
  referenced uuid = append "Referenced UUID: " (ext.uuid_text uuid) ∷ []

  abbrev unresolved : StatusEntityType → String → Uuid → String → List String → Status
  unresolved = validation_status StatusOperation.resolve_entity

  -- validateReference
  unfoldable pub validate_reference :
      List Uuid → List Uuid → Uuid → StatusEntityType → String → Uuid → String → Bool → Status
  unfolding make_epanet_success
  validate_reference all_uuids enabled_uuids target_uuid entity_type entity_id entity_uuid
        relationship allow_null =
      if target_uuid == null_uuid
      then (if allow_null
          then make_epanet_success
          else unresolved entity_type entity_id entity_uuid
              (append entity_id (append " has no " (append relationship " UUID"))) [])
      else if not (contains_uuid all_uuids target_uuid)
      then unresolved entity_type entity_id entity_uuid
          (append entity_id (append " references a missing " relationship)) (referenced target_uuid)
      else if not (contains_uuid enabled_uuids target_uuid)
      then unresolved entity_type entity_id entity_uuid
          (append entity_id (append " references a disabled " relationship))
          (referenced target_uuid)
      else make_epanet_success

  -- validatePatternReference
  unfoldable pub validate_pattern_reference :
      List Uuid → Uuid → StatusEntityType → String → Uuid → String → Bool → Status
  unfolding make_epanet_success
  validate_pattern_reference pattern_uuids pattern_uuid entity_type entity_id entity_uuid
        relationship allow_null =
      if pattern_uuid == null_uuid
      then (if allow_null
          then make_epanet_success
          else unresolved entity_type entity_id entity_uuid
              (append entity_id (append " has no " (append relationship " UUID"))) [])
      else if contains_uuid pattern_uuids pattern_uuid
      then make_epanet_success
      else unresolved entity_type entity_id entity_uuid
          (append entity_id (append " references a missing " relationship))
          (referenced pattern_uuid)

  -- validateCurveReference
  unfoldable pub validate_curve_reference :
      List Uuid → Uuid → StatusEntityType → String → Uuid → String → Bool → Status
  unfolding make_epanet_success
  validate_curve_reference curve_uuids curve_uuid entity_type entity_id entity_uuid relationship
        allow_null =
      if curve_uuid == null_uuid
      then (if allow_null
          then make_epanet_success
          else unresolved entity_type entity_id entity_uuid
              (append entity_id (append " has no " (append relationship " UUID"))) [])
      else if contains_uuid curve_uuids curve_uuid
      then make_epanet_success
      else unresolved entity_type entity_id entity_uuid
          (append entity_id (append " references a missing " relationship)) (referenced curve_uuid)

-- appendValidationFailure
unfoldable pub append_validation_failure : List Status → Status → List Status
append_validation_failure failures status =
    if not status.success then failures ++ status ∷ [] else failures

-- appendValidationFailures
unfoldable pub append_validation_failures : List Status → List Status → List Status
append_validation_failures failures additional_failures = failures ++ additional_failures
