-- ===== src/Validation/Whole.antt =====
-- src/lib/internal/epanet_network_validator.cpp: the validation of a whole network, and of the options
-- of a quality run.
pub mod Exact
use aowis_server_epanet.Base.{
  ℕ, zero, suc, ◌+◌, ◌-◌, ◌*◌, ◌/◌, ◌%◌, ◌^◌, ◌≤◌, ◌<◌, min, max, String, ◌≡◌, refl, sym, ap, ◌∙◌,
  subst, ◌≢◌, ◌↔◌, ◌⊎◌, inl, inr, Bool, true, false, not, ◌&&◌, ◌||◌, Option, none, some, List, [],
  ◌∷◌, ◌++◌, map, append_assoc, append-nil, arith, eq_iff, ltb, leb, ◌==◌, str_eq, if◌then◌else◌,
  ==_iff, Bool-cases, Option-cases, decided, same, decided_iff, same_iff, length, take, drop,
  length-append, All, All-append, get_elem?, is_empty, update_last, any, any-append, ℤ, pos, negsuc,
  pos_part, neg_part, ltb_ℤ, eqb_ℤ,
}
use aowis_server_epanet.Model.Enums.{
  StatusStage, StatusOperation, StatusEntityType, WaterQualityAnalysisType,
  WaterQualityAnalysisType-discrete,
}
use aowis_server_epanet.Model.Status.{Uuid, Status, Externals}
use aowis_server_epanet.Model.Doubles.{Doubles}
use aowis_server_epanet.Model.Network.{Network, Junction, Node}
use aowis_server_epanet.StatusHelpers.{make_epanet_status, make_epanet_success}
use aowis_server_epanet.Validation.Support.{
  enabled_entities, node_uuids, validate_reference, append_validation_failure,
  append_validation_failures,
}
use aowis_server_epanet.Validation.Numbers.{validate_finite_non_negative}
use aowis_server_epanet.Validation.Identity.{validate_identities}
use aowis_server_epanet.Validation.Topology.{validate_topology}

-- WaterQualitySolverOptions
pub record QualityOptions (D : Type 0) : Type 0 where
  pub analysis : WaterQualityAnalysisType
  pub chemical_name : String
  pub trace_node_uuid : Uuid
  pub chemical_tolerance_mg_per_l : D
  pub water_age_tolerance_h : D
  pub source_trace_tolerance_percent : D
  pub relative_diffusivity : D

-- The parts of the validator that the composition calls.
pub record OtherChecks (D : Type 0) : Type 0 where
  pub validate_references : Network D → List Status
  pub validate_numerics : Network D → List Status
  pub validate_multi_species : Network D → List Status

-- qualityRunValidationStatus
unfoldable pub quality_run_validation_status : Status → Status
quality_run_validation_status status =
    if not status.success then record status { stage = StatusStage.configure_options } else status

-- `failures.isEmpty() ? makeEpanetSuccess() : failures.first()`, and the list
unfoldable pub first_failure : ⦃ext : Externals⦄ → List Status → Status × List Status
first_failure [] = (make_epanet_success, [])
first_failure (failure ∷ failures) = (failure, failure ∷ failures)

module _ ⦃ext : Externals⦄ {D : Type 0} (network : Network D) where
  abbrev pub enabled_network : Network D
  enabled_network = record network {
    nodes_junctions = enabled_entities (λ (e : Junction D). e.enabled) network.nodes_junctions;
    nodes_reservoirs = enabled_entities (λ (e : Node). e.enabled) network.nodes_reservoirs;
    nodes_tanks = enabled_entities (λ (e : Node). e.enabled) network.nodes_tanks;
  }

  abbrev pub trace_status : QualityOptions D → Status
  trace_status options =
      validate_reference (node_uuids network) (node_uuids enabled_network) options.trace_node_uuid
        StatusEntityType.quality_solver network.id network.uuid "source-trace node" false

  -- validateQualityRunReferences
  unfoldable pub validate_quality_run_references : QualityOptions D → List Status
  unfolding append_validation_failure
  validate_quality_run_references options =
      if not (
        same WaterQualityAnalysisType-discrete options.analysis
          WaterQualityAnalysisType.source_trace)
      then []
      else append_validation_failure [] (quality_run_validation_status (trace_status options))

  module _ ⦃ops : Doubles D⦄ where
    abbrev pub tolerance : D → String → Status
    tolerance value field_name = quality_run_validation_status (
        validate_finite_non_negative value StatusEntityType.quality_solver network.id network.uuid
          field_name)

    -- validateQualityRunNumerics
    unfoldable pub validate_quality_run_numerics : QualityOptions D → List Status
    validate_quality_run_numerics options =
        let checked =
          append_validation_failure
            (append_validation_failure
              (append_validation_failure
                (append_validation_failure [] (
                  tolerance options.chemical_tolerance_mg_per_l
                    "quality_run.chemical_tolerance_mg_per_l"))
                (tolerance options.water_age_tolerance_h "quality_run.water_age_tolerance_h"))
              (tolerance options.source_trace_tolerance_percent
                "quality_run.source_trace_tolerance_percent"))
            (tolerance options.relative_diffusivity "quality_run.relative_diffusivity") in
        if same WaterQualityAnalysisType-discrete options.analysis WaterQualityAnalysisType.chemical
          && str_eq (ext.trimmed options.chemical_name) ""
        then checked
          ++ make_epanet_status StatusStage.configure_options StatusOperation.configure_quality
              StatusEntityType.quality_solver network.id network.uuid
              "Chemical water-quality analysis requires a chemical name"
            ∷ []
        else checked

    -- validateQualityRun: the status and `*validation_failures`
    unfoldable pub validate_quality_run : QualityOptions D → Status × List Status
    validate_quality_run options = first_failure (
        append_validation_failures (validate_quality_run_references options)
          (validate_quality_run_numerics options))

  -- validateNetwork: the status and `*validation_failures`
  unfoldable pub validate_network : OtherChecks D → Status × List Status
  validate_network checks = first_failure (
      append_validation_failures
        (append_validation_failures
          (append_validation_failures
            (append_validation_failures (validate_identities network)
              (checks.validate_references network))
            (validate_topology network))
          (checks.validate_numerics network))
        (checks.validate_multi_species network))
