-- ===== src/Runner/Inp.antt =====
-- EpanetRunner::retrieveInp: the input file of a request with at most one quality run.
use aowis_server_epanet.Base.{
  String, not, none, some, List, [], ◌∷◌, map, ltb, if◌then◌else◌, length,
}
use aowis_server_epanet.Model.Enums.{
  StatusStage, StatusOperation, StatusEntityType, DiagnosticSeverity,
}
use aowis_server_epanet.Model.Status.{Status, Externals}
use aowis_server_epanet.Model.Doubles.{Doubles}
use aowis_server_epanet.Model.Run.{EpanetRunRequest}
use aowis_server_epanet.StatusHelpers.{make_epanet_status}
use aowis_server_epanet.Diagnostics.{epanet_diagnostic_from_status_as}
use aowis_server_epanet.Executor.Report.{report_lines_of}
use aowis_server_epanet.Validation.Whole.{QualityOptions, validate_quality_run}
use aowis_server_epanet.Runner.{RunnerBackend}
use aowis_server_epanet.Runner.Prepared.{
  PreparedProject, append_diagnostics, default_prepared, prepare,
}

-- src/include/aowis/epanet/epanet_result_inp.h
pub record EpanetResultInp : Type 0 where
  pub inp_text : String
  pub status : Status
  pub report_lines : List String

module _ {W D R O V : Type 0} ⦃ext : Externals⦄ (b : RunnerBackend W D R O V) where
  -- finishInp
  unfoldable pub finish_inp : String → Status → PreparedProject W D → EpanetResultInp
  finish_inp inp_text status p = record {
    inp_text = inp_text;
    status = status;
    report_lines = report_lines_of (b.executor p.prepared_network) p.project;
  }

  module _ ⦃ops : Doubles D⦄ where
    -- validateAndConfigureQualityForInp
    unfoldable pub validate_and_configure_quality_for_inp :
        PreparedProject W D → QualityOptions D → Status × PreparedProject W D
    validate_and_configure_quality_for_inp p options =
        let (status, failures) = validate_quality_run p.prepared_network options in
        let reported = append_diagnostics p.project (
          map (λ failure. epanet_diagnostic_from_status_as failure DiagnosticSeverity.error)
            failures) in
        let (configured, project) =
          (b.executor p.prepared_network).configure_quality_run options reported in
        if not status.success
        then (status, record p { project = reported })
        else (configured, record p { project = project })

    abbrev first_or_default : List (QualityOptions D) → QualityOptions D
    first_or_default [] = b.default_quality_options
    first_or_default (options ∷ more) = options

    -- From the hydraulic configuration on.
    unfoldable pub configure_inp : EpanetRunRequest D O → PreparedProject W D → EpanetResultInp
    configure_inp request p =
        let e = b.executor p.prepared_network in
        let (hydraulic, project) = e.configure_hydraulic_run p.project in
        let p1 = record p { project = project } in
        let (quality, p2) =
          validate_and_configure_quality_for_inp p1 (first_or_default request.quality_runs) in
        let (report, project') = e.hydraulic.configure_report p2.project in
        let p3 = record p2 { project = project' } in
        let (status, text, project'') = e.retrieve_inp_text p3.project in
        if not hydraulic.success
        then finish_inp "" hydraulic p1
        else if not quality.success
        then finish_inp "" quality p2
        else if not report.success
        then finish_inp "" report p3
        else finish_inp text status (record p3 { project = project'' })

    -- EpanetRunner::retrieveInp
    unfoldable pub retrieve_inp : EpanetRunRequest D O → W → EpanetResultInp
    retrieve_inp request w =
        let p = default_prepared b w in
        let refused =
          λ (operation : StatusOperation) (entity : StatusEntityType) (message : String).
            finish_inp ""
              (make_epanet_status StatusStage.configure_options operation entity request.network.id
                request.network.uuid message)
              p in
        let (status, prepared) = prepare b request.network p in
        elim request.multi_species_run [
          | some options ↦
              refused StatusOperation.configure_multi_species StatusEntityType.multi_species_solver
                "A multi-species (MSX) run cannot be represented in a single EPANET INP file; retrieveInp() does not support multi_species_run"
          | none ↦
              if ltb 1 (length request.quality_runs)
              then refused StatusOperation.configure_quality StatusEntityType.quality_solver
                  "An EPANET INP file can contain only one water-quality analysis configuration"
              else if not status.success
              then finish_inp "" status prepared
              else configure_inp request prepared
        ]
