-- ===== src/Executor.antt =====
-- src/lib/internal/epanet_multi_quality_run_executor.{h,cpp}: hydraulics once, then one quality run
-- after the other on the same hydraulic solution. Here are the final state of a run, and what the
-- executor works with.
pub mod Save
pub mod Report
pub mod Round
pub mod Run
pub mod Settled
pub mod Laws
pub mod Rounds
pub mod Outcome
pub mod Artifact
pub mod Verdict
use aowis_server_epanet.Base.{
  ℕ, zero, suc, ◌+◌, ◌-◌, ◌*◌, ◌/◌, ◌%◌, ◌^◌, ◌≤◌, ◌<◌, min, max, String, ◌≡◌, refl, sym, ap, ◌∙◌,
  subst, ◌≢◌, ◌↔◌, ◌⊎◌, inl, inr, Bool, true, false, not, ◌&&◌, ◌||◌, Option, none, some, List, [],
  ◌∷◌, ◌++◌, map, append_assoc, append-nil, arith, eq_iff, ltb, leb, ◌==◌, str_eq, if◌then◌else◌,
  ==_iff, Bool-cases, Option-cases, decided, same, decided_iff, same_iff, length, take, drop,
  length-append, All, All-append, get_elem?, is_empty, update_last, any, any-append, ℤ, pos, negsuc,
  pos_part, neg_part, ltb_ℤ, eqb_ℤ,
}
use aowis_server_epanet.Model.Enums.{
  DiagnosticSeverity, DiagnosticSeverity-discrete, WaterQualityAnalysisType,
  WaterQualityAnalysisType-discrete,
}
use aowis_server_epanet.Model.Status.{Status, Diagnostic, Externals}
use aowis_server_epanet.Model.Timelines.{HydraulicTimeline, QualityTimeline}
use aowis_server_epanet.Model.Run.{
  EpanetRunState, EpanetRunState-discrete, EpanetQualityResult, EpanetResultRun,
}
use aowis_server_epanet.Project.{Project}
use aowis_server_epanet.StatusHelpers.{make_epanet_success}
use aowis_server_epanet.Diagnostics.{
  epanet_diagnostic_from_status, append_epanet_diagnostic_if_unique,
}
use aowis_server_epanet.ReportCollector.{ReportCollector}
use aowis_server_epanet.Hydraulics.{HydraulicBackend}
use aowis_server_epanet.Quality.{QualityBackend}
use aowis_server_epanet.Validation.Whole.{QualityOptions}

-- The Toolkit's functions, the files, and the collaborators of the adapter. `W` is the native state
-- together with the files and the report collector, which the Toolkit's callback writes.
pub record ExecutorBackend (W D R : Type 0) : Type 0 where
  pub hydraulic : HydraulicBackend W D
  -- The solver's calls with a reader for the analysis.
  pub quality : WaterQualityAnalysisType → QualityBackend W R
  -- The cancellation function, if there is one; it is handed on to the solvers.
  pub cancellation : Option (W → Bool × W)
  -- configureEpanetHydraulicRun, configureEpanetQualityRun
  pub configure_hydraulic_run : Project W → Status × Project W
  pub configure_quality_run : QualityOptions D → Project W → Status × Project W
  -- EN_saveH, EN_savehydfile and EN_report
  pub save_h : W → ℤ × W
  pub save_hyd_file : String → W → ℤ × W
  pub report : W → ℤ × W
  -- QTemporaryDir: the path of a new directory when it is valid, a path inside it, and its removal
  pub make_directory : W → Option String × W
  pub path_inside : String → String → String
  pub remove_directory : String → W → W
  -- QFileInfo::exists and isFile
  pub is_file : String → W → Bool
  -- retrieveEpanetInpText
  pub retrieve_inp_text : Project W → Status × String × Project W
  pub collector : W → ReportCollector
  pub set_collector : ReportCollector → W → W

-- hasDiagnosticSeverity
abbrev pub has_diagnostic_severity : List Diagnostic → DiagnosticSeverity → Bool
has_diagnostic_severity diagnostics severity =
    any (λ (d : Diagnostic). same DiagnosticSeverity-discrete d.severity severity) diagnostics

-- hasErrorDiagnostic
unfoldable pub has_error_diagnostic : List Diagnostic → Bool
has_error_diagnostic diagnostics =
    has_diagnostic_severity diagnostics DiagnosticSeverity.error
    || has_diagnostic_severity diagnostics DiagnosticSeverity.fatal

-- hasWarningDiagnostic
unfoldable pub has_warning_diagnostic : List Diagnostic → Bool
has_warning_diagnostic diagnostics = has_diagnostic_severity diagnostics DiagnosticSeverity.warning

-- completedHydraulicState
unfoldable pub completed_hydraulic_state : {H : Type 0} → HydraulicTimeline H → EpanetRunState
completed_hydraulic_state timeline =
    if not timeline.status.success || has_error_diagnostic timeline.diagnostics
    then EpanetRunState.error
    else if has_warning_diagnostic timeline.diagnostics
    then EpanetRunState.warning
    else EpanetRunState.success

-- completedQualityState
unfoldable pub completed_quality_state : {Q : Type 0} → QualityTimeline Q → EpanetRunState
completed_quality_state timeline =
    if same WaterQualityAnalysisType-discrete timeline.analysis WaterQualityAnalysisType.none
    then EpanetRunState.skipped
    else if not timeline.status.success || has_error_diagnostic timeline.diagnostics
    then EpanetRunState.error
    else if has_warning_diagnostic timeline.diagnostics
    then EpanetRunState.warning
    else EpanetRunState.success

abbrev pub is_state : EpanetRunState → EpanetRunState → Bool
is_state a b = same EpanetRunState-discrete a b

module _ {D R : Type 0} where
  -- markPendingQualityRuns
  unfoldable pub mark_pending :
      EpanetRunState → List (EpanetQualityResult D R) → List (EpanetQualityResult D R)
  mark_pending state [] = []
  mark_pending state (q ∷ qs) =
      (if is_state q.state EpanetRunState.pending then record q { state = state } else q)
      ∷ mark_pending state qs

  abbrev pub some_state : EpanetRunState → List (EpanetQualityResult D R) → Bool
  some_state state qs = any (λ (q : EpanetQualityResult D R). is_state q.state state) qs

module _ {D R M : Type 0} where
  -- recordFailureStatus
  unfoldable pub record_failure_status :
      ⦃ext : Externals⦄ → EpanetResultRun D R M → Status → EpanetResultRun D R M
  record_failure_status result status = if status.success then result else record result {
    status = if result.status.success then status else result.status;
    diagnostics =
        append_epanet_diagnostic_if_unique result.diagnostics
          (epanet_diagnostic_from_status status);
  }

  abbrev pub mark_pending_quality_runs :
      EpanetResultRun D R M → EpanetRunState → EpanetResultRun D R M
  mark_pending_quality_runs result state = record result {
    quality_results = mark_pending state result.quality_results;
  }

  -- finalizeRunState, where `lines` are the report collector's
  unfoldable pub finalize_run_state :
      ⦃ext : Externals⦄ → List String → EpanetResultRun D R M → EpanetResultRun D R M
  finalize_run_state lines result =
      let reported = record result {
        report_lines = if is_empty result.report_lines then lines else result.report_lines;
      } in
      let completed = completed_hydraulic_state result.result_timeline in
      let has_warning =
        has_warning_diagnostic result.diagnostics
        || is_state completed EpanetRunState.warning
        || some_state EpanetRunState.warning result.quality_results in
      let has_error =
        has_error_diagnostic result.diagnostics
        || is_state completed EpanetRunState.error
        || some_state EpanetRunState.error result.quality_results in
      if result.cancelled
      then mark_pending_quality_runs (record reported { state = EpanetRunState.cancelled })
          EpanetRunState.cancelled
      else record reported {
        state =
            if has_error
            then EpanetRunState.error
            else if has_warning
            then EpanetRunState.warning
            else EpanetRunState.success;
        status =
            if str_eq result.status.backend_name "" then make_epanet_success else result.status;
      }
