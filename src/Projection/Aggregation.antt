-- ===== src/Projection/Aggregation.antt =====
-- aggregateProjectedDemands: added demands of the same category and pattern become one demand.
use mathlib.Core.Option
use aowis_server_epanet.Base.{
  ℕ, ◌+◌, Bool, true, false, not, ◌||◌, Option, none, some, List, [], ◌∷◌, ◌++◌, leb, ◌==◌, str_eq,
  if◌then◌else◌, same, length, take, drop,
}
use aowis_server_epanet.Model.Enums.{StatusStage, StatusOperation, StatusEntityType}
use aowis_server_epanet.Model.Status.{Uuid, Status, Externals}
use aowis_server_epanet.Model.Doubles.{Doubles, ◌⊕◌}
use aowis_server_epanet.Model.Network.{Network, Junction, Demand, PatternMode, PatternMode-discrete}

-- demandProjectionKeyMatches
unfoldable pub demand_projection_key_matches : {D : Type 0} → Demand D → Demand D → Bool
demand_projection_key_matches left right =
    if not (str_eq left.category_name right.category_name)
      || not (same PatternMode-discrete left.pattern_mode right.pattern_mode)
    then false
    else if same PatternMode-discrete left.pattern_mode PatternMode.constant
    then true
    else left.pattern_uuid == right.pattern_uuid

abbrev pub aggregation_failure : {D : Type 0} → ⦃ext : Externals⦄ → Junction D → Status
aggregation_failure ⦃ext⦄ junction = record ext.default_status {
  success = false;
  stage = StatusStage.build_network;
  operation = StatusOperation.add_demand;
  entity = record { type = StatusEntityType.junction; id = junction.id; uuid = junction.uuid };
  message = "Projected demand aggregation overflowed a junction demand";
}

-- `original_demand_counts.value(…)` of the hash that the junctions are inserted into in order
unfoldable pub original_count : {D : Type 0} → List (Junction D) → Uuid → ℕ → ℕ
original_count [] uuid otherwise = otherwise
original_count (junction ∷ junctions) uuid otherwise =
    original_count junctions uuid
      (if junction.uuid == uuid then length junction.demands else otherwise)

module _ {D : Type 0} ⦃ops : Doubles D⦄ where
  -- The loop over `compacted`, from its added demands on: the candidate is added to the first one with
  -- its key, or appended; `none` means that the sum is not finite.
  unfoldable pub merge_demand : Demand D → List (Demand D) → Option (List (Demand D))
  merge_demand candidate [] = some (candidate ∷ [])
  merge_demand candidate (aggregate ∷ compacted) =
      let sum = aggregate.base_demand_m3_per_h ⊕ candidate.base_demand_m3_per_h in
      let rest = Option.map (λ ds. aggregate ∷ ds) (merge_demand candidate compacted) in
      if not (demand_projection_key_matches aggregate candidate)
      then rest
      else if not (ops.is_finite sum)
      then none
      else some (record aggregate { base_demand_m3_per_h = sum } ∷ compacted)

  -- The loop over the candidates.
  unfoldable pub merge_demands : List (Demand D) → List (Demand D) → Option (List (Demand D))
  merge_demands compacted [] = some compacted
  merge_demands compacted (candidate ∷ candidates) = elim (merge_demand candidate compacted) [
    | none ↦ none
    | some merged ↦ merge_demands merged candidates
  ]

  -- The body of the loop over the junctions.
  unfoldable pub compact_junction : List (Junction D) → Junction D → Option (Junction D)
  compact_junction originals junction =
      let count = original_count originals junction.uuid (length junction.demands) in
      if leb (length junction.demands) (count + 1)
      then some junction
      else Option.map
          (λ merged. record junction { demands = take count junction.demands ++ merged })
          (merge_demands [] (drop count junction.demands))

  -- The loop over the junctions; those before a failure are written.
  unfoldable pub compact_junctions :
      ⦃ext : Externals⦄ → List (Junction D) → List (Junction D) → Status × List (Junction D)
  compact_junctions ⦃ext⦄ originals [] = (record ext.default_status { success = true }, [])
  compact_junctions originals (junction ∷ junctions) =
      let (status, rest) = compact_junctions originals junctions in
      elim (compact_junction originals junction) [
        | none ↦ (aggregation_failure junction, junction ∷ junctions)
        | some compacted ↦ (status, compacted ∷ rest)
      ]

  -- aggregateProjectedDemands: the status and `projected`
  unfoldable pub aggregate_projected_demands :
      ⦃ext : Externals⦄ → Network D → Network D → Status × Network D
  aggregate_projected_demands source projected =
      let (status, junctions) =
        compact_junctions source.nodes_junctions projected.nodes_junctions in
      (status, record projected { nodes_junctions = junctions })
