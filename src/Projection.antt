-- ===== src/Projection.antt =====
-- src/lib/internal/hydraulic_node_demand_projection.cpp: the demands of the demand points, scaled and
-- put on the junctions that they are attached to.
pub mod Aggregation
pub mod Received
pub mod Shares
pub mod Points
pub mod Outcome
pub mod Sums
use Prim.Native.String.{◌++◌}
use mathlib.Core.List
use aowis_server_epanet.Base.{
  ℕ, zero, suc, ◌+◌, ◌-◌, ◌*◌, ◌/◌, ◌%◌, ◌^◌, ◌≤◌, ◌<◌, min, max, String, ◌≡◌, refl, sym, ap, ◌∙◌,
  subst, ◌≢◌, ◌↔◌, ◌⊎◌, inl, inr, Bool, true, false, not, ◌&&◌, ◌||◌, Option, none, some, List, [],
  ◌∷◌, map, append_assoc, append-nil, arith, eq_iff, ltb, leb, ◌==◌, str_eq, if◌then◌else◌, ==_iff,
  Bool-cases, Option-cases, decided, same, decided_iff, same_iff, length, take, drop, length-append,
  All, All-append, get_elem?, is_empty, update_last, any, any-append, ℤ, pos, negsuc, pos_part,
  neg_part, ltb_ℤ, eqb_ℤ,
}
use aowis_server_epanet.Model.Enums.{StatusStage, StatusOperation, StatusEntityType}
use aowis_server_epanet.Model.Status.{Uuid, Status, Externals, null_uuid}
use aowis_server_epanet.Model.Doubles.{Doubles, ◌⊖◌, ◌⊗◌, nought}
use aowis_server_epanet.Model.Network.{
  Network, Junction, Pipe, Demand, DemandPoint, AttachmentType, AllocationMode,
}
use aowis_server_epanet.Projection.Aggregation.{aggregate_projected_demands}

-- QHash<QUuid, qsizetype>: the last insertion comes first, so that it overwrites.
abbrev pub Indices : Type 0
Indices = List (Uuid × ℕ)

unfoldable pub index_of : Indices → Uuid → Option ℕ
index_of [] uuid = none
index_of ((key, i) ∷ indices) uuid = if key == uuid then some i else index_of indices uuid

unfoldable pub contains : Indices → Uuid → Bool
contains [] uuid = false
contains ((key, i) ∷ indices) uuid = key == uuid || contains indices uuid

-- `list[i] = f(list[i])`; an index out of range is the caller's error and changes nothing.
unfoldable pub modify {ℓ} : {A : Type ℓ} → ℕ → (A → A) → List A → List A
modify i f [] = []
modify zero f (x ∷ xs) = f x ∷ xs
modify (suc i) f (x ∷ xs) = x ∷ modify i f xs

-- pipeByUuid
unfoldable pub pipe_by_uuid : List Pipe → Uuid → Option Pipe
pipe_by_uuid [] uuid = none
pipe_by_uuid (pipe ∷ pipes) uuid = if pipe.uuid == uuid then some pipe else pipe_by_uuid pipes uuid

-- successStatus
abbrev pub success_status : ⦃ext : Externals⦄ → Status
success_status ⦃ext⦄ = record ext.default_status { success = true }

module _ {D : Type 0} where
  -- The hash of the enabled junctions; `i` is the index of the first one.
  unfoldable pub enabled_indices : ℕ → List (Junction D) → Indices → Indices
  enabled_indices i [] indices = indices
  enabled_indices i (junction ∷ junctions) indices =
      enabled_indices (suc i) junctions
        (if junction.enabled then (junction.uuid, i) ∷ indices else indices)

  abbrev pub append_demand : Demand D → Junction D → Junction D
  append_demand demand junction = record junction {
    demands = List.◌++◌ junction.demands (demand ∷ []);
  }

module _ {D : Type 0} ⦃ext : Externals⦄ where
  -- demandPointFailure
  unfoldable pub demand_point_failure :
      DemandPoint D → StatusOperation → String → List String → Status
  demand_point_failure point operation message details = record ext.default_status {
    success = false;
    stage = StatusStage.build_network;
    operation = operation;
    entity = record { type = StatusEntityType.demand_point; id = point.id; uuid = point.uuid };
    message = message;
    details = details;
  }

  module _ ⦃ops : Doubles D⦄ where
    -- The loop of appendScaledDemands, from the demand `demand_index` on.
    unfoldable pub append_demands :
        DemandPoint D → ℕ → D → ℕ → List (Demand D) → Network D → Status × Network D
    append_demands point junction_index fraction demand_index [] projected =
        (success_status, projected)
    append_demands point junction_index fraction demand_index (demand ∷ demands) projected =
        let scaled = record demand {
          base_demand_m3_per_h = demand.base_demand_m3_per_h ⊗ fraction;
        } in
        let rest =
          append_demands point junction_index fraction (suc demand_index) demands
            (record projected {
              nodes_junctions =
                  modify junction_index (append_demand scaled) projected.nodes_junctions;
            }) in
        if not (ops.is_finite demand.base_demand_m3_per_h)
        then (
          demand_point_failure point StatusOperation.add_demand
              "Demand point contains an invalid hydraulic demand"
              (("demands["
                  ++ ext.number_text (pos demand_index)
                  ++ "].base_demand_m3_per_h must be finite")
                ∷ []),
          projected,
        )
        else if not (ops.is_finite scaled.base_demand_m3_per_h)
        then (
          demand_point_failure point StatusOperation.add_demand
              "Demand point attachment overflows the projected junction demand" [],
          projected,
        )
        else rest

    -- appendScaledDemands
    unfoldable pub append_scaled_demands :
        DemandPoint D → Network D → Indices → Uuid → D → Status × Network D
    append_scaled_demands point projected indices junction_uuid fraction =
        if not (ops.is_finite fraction) || ops.lt fraction nought || ops.lt (ops.of_ℕ 1) fraction
        then (
          demand_point_failure point StatusOperation.add_demand
              "Demand point contains an invalid derived allocation fraction" [],
          projected,
        )
        else if ops.eq fraction nought
        then (success_status, projected)
        else elim (index_of indices junction_uuid) [
          | none ↦ (
            demand_point_failure point StatusOperation.resolve_entity
                "Demand point attachment does not resolve to an enabled hydraulic junction"
                (("junction_uuid: " ++ ext.uuid_text junction_uuid) ∷ []),
            projected,
          )
          | some junction_index ↦
              append_demands point junction_index fraction 0 point.demands projected
        ]

    -- A demand point on a pipe that is found and enabled, for each allocation mode.
    unfoldable pub project_on_pipe :
        Indices → DemandPoint D → Pipe → Network D → AllocationMode → Status × Network D
    project_on_pipe indices point pipe projected AllocationMode.assigned_junction =
        let assigned = point.attachment.pipe_assigned_junction_uuid in
        if assigned == null_uuid
        then (
          demand_point_failure point StatusOperation.resolve_entity
              "Assigned-junction pipe demand point requires an assigned junction"
              (("pipe_uuid: " ++ ext.uuid_text pipe.uuid) ∷ []),
          projected,
        )
        else if not (assigned == pipe.node_uuid_from) && not (assigned == pipe.node_uuid_to)
        then (
          demand_point_failure point StatusOperation.resolve_entity
              "Assigned-junction pipe demand point must reference one of the attached pipe endpoints"
              (("pipe_uuid: " ++ ext.uuid_text pipe.uuid)
                ∷ ("assigned_junction_uuid: " ++ ext.uuid_text assigned)
                ∷ []),
          projected,
        )
        else append_scaled_demands point projected indices assigned (ops.of_ℕ 1)
    project_on_pipe indices point pipe projected AllocationMode.interpolate_by_position =
        let position = point.attachment.pipe_position in
        let moved =
          append_scaled_demands point projected indices pipe.node_uuid_from
            (ops.of_ℕ 1 ⊖ position) in
        if not (contains indices pipe.node_uuid_from) || not (contains indices pipe.node_uuid_to)
        then (
          demand_point_failure point StatusOperation.resolve_entity
              "Position-interpolated pipe demand point requires both pipe endpoints to be enabled junctions"
              (("pipe_uuid: " ++ ext.uuid_text pipe.uuid) ∷ []),
          projected,
        )
        else if not moved.0.success
        then moved
        else append_scaled_demands point moved.1 indices pipe.node_uuid_to position

    -- The pipe of a demand point, when pipeByUuid finds one.
    unfoldable pub project_on_found :
        Indices → DemandPoint D → Network D → Option Pipe → Status × Network D
    project_on_found indices point projected none = (
      demand_point_failure point StatusOperation.resolve_entity
          "Demand point pipe attachment does not reference an enabled hydraulic pipe"
          (("pipe_uuid: " ++ ext.uuid_text point.attachment.pipe_uuid) ∷ []),
      projected,
    )
    project_on_found indices point projected (some pipe) =
        if not pipe.enabled
        then (
          demand_point_failure point StatusOperation.resolve_entity
              "Demand point pipe attachment does not reference an enabled hydraulic pipe"
              (("pipe_uuid: " ++ ext.uuid_text point.attachment.pipe_uuid) ∷ []),
          projected,
        )
        else project_on_pipe indices point pipe projected point.attachment.pipe_allocation_mode

    -- An enabled demand point with demands, for each attachment.
    unfoldable pub project_attached :
        Network D → Indices → DemandPoint D → Network D → AttachmentType → Status × Network D
    project_attached source indices point projected AttachmentType.none = (
      demand_point_failure point StatusOperation.resolve_entity
          "Enabled demand point with hydraulic demands requires a network attachment" [],
      projected,
    )
    project_attached source indices point projected AttachmentType.junction =
        append_scaled_demands point projected indices point.attachment.junction_uuid (ops.of_ℕ 1)
    project_attached source indices point projected AttachmentType.pipe =
        let position = point.attachment.pipe_position in
        if not (ops.is_finite position) || ops.lt position nought || ops.lt (ops.of_ℕ 1) position
        then (
          demand_point_failure point StatusOperation.resolve_entity
              "Demand point pipe attachment position must be between 0 and 1" [],
          projected,
        )
        else project_on_found indices point projected
            (pipe_by_uuid source.links_pipes point.attachment.pipe_uuid)

    -- The body of the loop over the demand points.
    unfoldable pub project_point :
        Network D → Indices → DemandPoint D → Network D → Status × Network D
    project_point source indices point projected =
        if not point.enabled || is_empty point.demands
        then (success_status, projected)
        else project_attached source indices point projected point.attachment.type

    -- The loop over the demand points.
    unfoldable pub project_points :
        Network D → Indices → List (DemandPoint D) → Network D → Status × Network D
    project_points source indices [] projected = (success_status, projected)
    project_points source indices (point ∷ points) projected =
        let (status, next) = project_point source indices point projected in
        let rest = project_points source indices points next in
        if not status.success then (status, next) else rest

    -- buildHydraulicNodeDemandProjection: the status and `projected`
    unfoldable pub build_demand_projection : Network D → Status × Network D
    build_demand_projection source =
        let indices = enabled_indices 0 source.nodes_junctions [] in
        let (status, projected) = project_points source indices source.demand_points source in
        let (aggregation_status, aggregated) = aggregate_projected_demands source projected in
        if not status.success
        then (status, projected)
        else if not aggregation_status.success
        then (aggregation_status, aggregated)
        else (success_status, record aggregated { demand_points = [] })
