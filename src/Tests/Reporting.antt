-- ===== src/Tests/Reporting.antt =====
-- Status codes, diagnostics and result validity at concrete inputs.
use aowis_server_epanet.Base.{
  ℕ, ◌≡◌, ◌≢◌, ◌↔◌, true, false, not, ◌&&◌, ◌||◌, [], ◌∷◌, arith, pos, eqb_ℤ,
}
use aowis_server_epanet.Model.Enums.{
  StatusStage, StatusOperation, StatusEntityType, DiagnosticSeverity, WaterQualityAnalysisType,
}
use aowis_server_epanet.Model.Status.{null_uuid}
use aowis_server_epanet.Model.Timelines.{HydraulicValidity, QualityValidity}
use aowis_server_epanet.Project.{Project}
use aowis_server_epanet.StatusHelpers.{
  is_epanet_warning_code, is_epanet_error_code, process_epanet_return_code,
}
use aowis_server_epanet.StatusHelpers.Codes.{code_classes, process_epanet_return_code_lem}
use aowis_server_epanet.Diagnostics.{
  epanet_diagnostics_equivalent, append_epanet_diagnostic_if_unique, append_epanet_diagnostics,
  append_since, checkpoint,
}
use aowis_server_epanet.Diagnostics.Unique.{
  key, has, Distinct, equivalent_iff, append_if_unique-Distinct, has-append_if_unique,
}
use aowis_server_epanet.Diagnostics.Ranges.{
  append_since-append, append_epanet_diagnostics-Distinct, has-append_epanet_diagnostics,
  append_epanet_diagnostics_twice,
}
use aowis_server_epanet.Finalizer.{
  finalize_epanet_hydraulic_result_validity, finalize_epanet_quality_result_validity,
}
use aowis_server_epanet.Finalizer.Validity.{
  Harmless, finalize_hydraulic_validity, finalize_quality_validity,
}
use aowis_server_epanet.Tests.Samples.{
  blank_status, unstable, late, sample_externals, sample_timeline, quality_timeline, sample_result,
  sample_project,
}

code_classes_example :
    (eqb_ℤ (pos 6) (pos 0)
      ≡ (not (is_epanet_warning_code (pos 6)) && not (is_epanet_error_code (pos 6))))
    × ((is_epanet_warning_code (pos 6) && is_epanet_error_code (pos 6)) ≡ false)
code_classes_example = code_classes (pos 6)

abbrev empty_project : Project ℕ
empty_project = sample_project 0

process_example :
    let processed =
      process_epanet_return_code empty_project
        (pos 6)
        StatusStage.run_hydraulics
        StatusOperation.run_hydraulics
        "EN_runH"
        StatusEntityType.hydraulic_solver
        ""
        null_uuid
        "failed" in
    (processed.0 ≡ record blank_status { success = true; backend_name = "EPANET" })
    × (processed.1.diagnostics_collected
        ≡ record {
          severity = DiagnosticSeverity.warning;
          stage = StatusStage.run_hydraulics;
          operation = StatusOperation.run_hydraulics;
          property = 0;
          entity = record { type = StatusEntityType.hydraulic_solver; id = ""; uuid = null_uuid };
          message = "failed";
          details = [];
          backend_name = "EPANET";
          backend_error_code = pos 6;
          backend_operation = "EN_runH";
          message_backend = "toolkit text";
        }
          ∷ [])
    × (processed.1.native ≡ 0)
    × (processed.1.created ≡ true)
    × (processed.1.input_open ≡ true)
process_example =
    process_epanet_return_code_lem empty_project (pos 6) StatusStage.run_hydraulics
      StatusOperation.run_hydraulics "EN_runH" StatusEntityType.hydraulic_solver "" null_uuid
      "failed"

equivalent_example :
    (epanet_diagnostics_equivalent unstable
        (record unstable { severity = DiagnosticSeverity.warning })
      ≡ true)
    ↔ (key unstable ≡ key (record unstable { severity = DiagnosticSeverity.warning }))
equivalent_example =
    equivalent_iff unstable (record unstable { severity = DiagnosticSeverity.warning })

two_kept : Distinct (unstable ∷ late ∷ [])
unfolding epanet_diagnostics_equivalent
two_kept = (ground arith, (ground arith, tt))

append_if_unique_example : Distinct (append_epanet_diagnostic_if_unique (unstable ∷ late ∷ []) late)
append_if_unique_example = append_if_unique-Distinct (unstable ∷ late ∷ []) late two_kept

has_example :
    has (append_epanet_diagnostic_if_unique (unstable ∷ []) late) unstable
    ≡ (has (unstable ∷ []) unstable || epanet_diagnostics_equivalent late unstable)
has_example = has-append_if_unique (unstable ∷ []) late unstable

since_example :
    append_since (checkpoint (unstable ∷ [])) [] (unstable ∷ late ∷ [])
    ≡ append_epanet_diagnostics [] (late ∷ [])
since_example = append_since-append [] (unstable ∷ []) (late ∷ [])

append_diagnostics_example : Distinct (append_epanet_diagnostics (unstable ∷ late ∷ []) (late ∷ []))
append_diagnostics_example =
    append_epanet_diagnostics-Distinct (unstable ∷ late ∷ []) (late ∷ []) two_kept

has_diagnostics_example :
    has (append_epanet_diagnostics (unstable ∷ []) (late ∷ [])) late
    ≡ (has (unstable ∷ []) late || has (late ∷ []) late)
has_diagnostics_example = has-append_epanet_diagnostics (unstable ∷ []) (late ∷ []) late

twice_example :
    append_epanet_diagnostics
      (append_epanet_diagnostics (unstable ∷ []) (late ∷ late ∷ []))
      (late ∷ late ∷ [])
    ≡ append_epanet_diagnostics (unstable ∷ []) (late ∷ late ∷ [])
twice_example = append_epanet_diagnostics_twice (unstable ∷ []) (late ∷ late ∷ [])

hydraulic_validity_example :
    let t = sample_timeline (sample_result ∷ []) (late ∷ []) in
    let v = (finalize_epanet_hydraulic_result_validity t).validity in
    ((v ≡ HydraulicValidity.valid) ↔ ((t.results ≢ []) × Harmless t.diagnostics))
    × ((v ≡ HydraulicValidity.partial) ↔ ((t.results ≢ []) × ¬ Harmless t.diagnostics))
    × ((v ≡ HydraulicValidity.invalid) ↔ (t.results ≡ []))
hydraulic_validity_example =
    finalize_hydraulic_validity (sample_timeline (sample_result ∷ []) (late ∷ []))

quality_validity_example :
    let t = quality_timeline (1 ∷ []) in
    let v = (finalize_epanet_quality_result_validity t).validity in
    let ran = t.analysis ≢ WaterQualityAnalysisType.none in
    ((v ≡ QualityValidity.not_run) ↔ (t.analysis ≡ WaterQualityAnalysisType.none))
    × ((v ≡ QualityValidity.valid) ↔ (ran × (t.results ≢ []) × Harmless t.diagnostics))
    × ((v ≡ QualityValidity.partial) ↔ (ran × (t.results ≢ []) × ¬ Harmless t.diagnostics))
    × ((v ≡ QualityValidity.invalid) ↔ (ran × (t.results ≡ [])))
quality_validity_example = finalize_quality_validity (quality_timeline (1 ∷ []))
