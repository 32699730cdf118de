-- ===== src/Executor/Round.antt =====
-- One round of the executor's loop over the quality runs: it goes on to the next run, or the executor
-- returns because of a cancellation.
use aowis_server_epanet.Base.{
  ℕ, Bool, true, false, not, Option, none, some, List, [], ◌∷◌, if◌then◌else◌, same,
}
use aowis_server_epanet.Model.Enums.{WaterQualityAnalysisType, WaterQualityAnalysisType-discrete}
use aowis_server_epanet.Model.Status.{Status, Diagnostic, Externals}
use aowis_server_epanet.Model.Timelines.{QualityValidity}
use aowis_server_epanet.Model.Doubles.{Doubles}
use aowis_server_epanet.Model.Network.{Network}
use aowis_server_epanet.Model.Run.{EpanetRunState, EpanetQualityResult, EpanetResultRun}
use aowis_server_epanet.Project.{Project}
use aowis_server_epanet.StatusHelpers.{make_epanet_success}
use aowis_server_epanet.Diagnostics.{
  epanet_diagnostic_from_status, append_epanet_diagnostic_if_unique, append_epanet_diagnostics,
  checkpoint, append_since,
}
use aowis_server_epanet.Finalizer.{
  finalize_epanet_quality_result_validity, mark_epanet_quality_result_cancelled,
}
use aowis_server_epanet.Quality
use aowis_server_epanet.Quality.{QualityBackend, QualityResult, QualityState}
use aowis_server_epanet.ReportCollector.{restart_from_header}
use aowis_server_epanet.Validation.Whole.{validate_quality_run}
use aowis_server_epanet.Loop.{Flow, proceed, leave}
use aowis_server_epanet.Executor.{ExecutorBackend, completed_quality_state, record_failure_status}
use aowis_server_epanet.Executor.Report.{report_lines_of, generate_report}

module _ {W D R : Type 0} (b : ExecutorBackend W D R) where
  -- cancellationRequested
  unfoldable pub cancellation_requested : Project W → Bool × Project W
  cancellation_requested p = elim b.cancellation [
    | none ↦ (false, p)
    | some poll ↦ (let (asked, w) = poll p.native in (asked, record p { native = w }))
  ]

  -- `cancelled || cancellationRequested(…)`
  unfoldable pub or_requested : Bool → Project W → Bool × Project W
  or_requested cancelled p = if cancelled then (true, p) else cancellation_requested p

  -- `reportCollector().restartFromHeader()`
  abbrev pub restart_collector : Project W → Project W
  restart_collector p = record p {
    native = b.set_collector (restart_from_header (b.collector p.native)) p.native;
  }

  -- The quality solver for an analysis, with the executor's cancellation function.
  abbrev pub quality_solver : WaterQualityAnalysisType → QualityBackend W R
  quality_solver analysis = record (b.quality analysis) { cancellation = b.cancellation }

-- The prepared project's part that changes, and the result, whose quality results are elsewhere while
-- the loop runs.
pub record RoundState (W D R M : Type 0) : Type 0 where
  pub project : Project W
  pub result : EpanetResultRun D R M

-- What a round hands on: the entry that it wrote, and the state.
abbrev pub Round : Type 0 → Type 0 → Type 0 → Type 0 → Type 0
Round W D R M = Flow (EpanetQualityResult D R × RoundState W D R M)

-- Each failure's diagnostic, unless there is an equivalent one.
abbrev pub append_failures : ⦃ext : Externals⦄ → List Diagnostic → List Status → List Diagnostic
append_failures diagnostics [] = diagnostics
append_failures diagnostics (failure ∷ failures) =
    append_failures
      (append_epanet_diagnostic_if_unique diagnostics (epanet_diagnostic_from_status failure))
      failures

module _ {W D R M : Type 0} ⦃ops : Doubles D⦄ ⦃ext : Externals⦄ (b : ExecutorBackend W D R)
    (network : Network D) where
  -- A run that its validation or its configuration refuses: `continue`.
  unfoldable pub refuse :
      Status
      → EpanetQualityResult D R
      → RoundState W D R M
      → EpanetQualityResult D R × RoundState W D R M
  refuse status q s =
      let timeline =
        finalize_epanet_quality_result_validity (record q.result_timeline { status = status }) in
      (
        record q {
          result_timeline = timeline;
          report_lines = report_lines_of b s.project;
          state = EpanetRunState.error;
        },
        record s {
          result =
              record_failure_status
                (record s.result {
                  diagnostics = append_epanet_diagnostics s.result.diagnostics timeline.diagnostics;
                })
                status;
        },
      )

  -- A run that is cancelled while it runs.
  unfoldable pub cancel_run :
      EpanetQualityResult D R → RoundState W D R M → EpanetQualityResult D R × RoundState W D R M
  cancel_run q s =
      let timeline = mark_epanet_quality_result_cancelled q.result_timeline in
      (
        record q {
          result_timeline = timeline;
          report_lines = report_lines_of b s.project;
          state = EpanetRunState.cancelled;
        },
        record s {
          result = record s.result {
            diagnostics = append_epanet_diagnostics s.result.diagnostics timeline.diagnostics;
            cancelled = true;
          };
        },
      )

  -- What follows a run that was not cancelled; `status` is the solver's.
  unfoldable pub complete_run :
      Status
      → EpanetQualityResult D R
      → RoundState W D R M
      → EpanetQualityResult D R × RoundState W D R M
  complete_run status q s =
      let finalized = finalize_epanet_quality_result_validity q.result_timeline in
      let (report_status, lines, diagnostics, project) =
        generate_report b s.project finalized.diagnostics in
      let timeline = finalize_epanet_quality_result_validity (record finalized {
        diagnostics = diagnostics;
        status = if report_status.success then finalized.status else report_status;
      }) in
      let reported = record_failure_status s.result report_status in
      let gathered = record reported {
        diagnostics = append_epanet_diagnostics reported.diagnostics timeline.diagnostics;
      } in
      (
        record q {
          result_timeline = timeline;
          report_lines = lines;
          state = completed_quality_state timeline;
        },
        record s { project = project; result = record_failure_status gathered status },
      )

  -- What follows the solver's return; `cancelled` is its out parameter.
  unfoldable pub after_solver :
      Status → Bool → EpanetQualityResult D R → RoundState W D R M → Round W D R M
  after_solver status cancelled q s =
      let failed =
        if status.success
        then q.result_timeline.diagnostics
        else append_epanet_diagnostic_if_unique q.result_timeline.diagnostics
            (epanet_diagnostic_from_status status) in
      let q' = record q {
        result_timeline = record q.result_timeline { diagnostics = failed; status = status };
      } in
      let (stop, project) = or_requested b cancelled s.project in
      let s' = record s { project = project } in
      if stop then leave (cancel_run q' s') else proceed (complete_run status q' s')

  -- configureEpanetQualityRun and the solver.
  unfoldable pub solve_quality :
      ℕ → EpanetQualityResult D R → RoundState W D R M → Option (Round W D R M)
  solve_quality fuel q s =
      let seen = checkpoint s.project.diagnostics_collected in
      let (status, project) = b.configure_quality_run q.options s.project in
      let since = append_since seen q.result_timeline.diagnostics project.diagnostics_collected in
      let configured = record q {
        result_timeline = record q.result_timeline { diagnostics = since };
      } in
      let failed = record configured {
        result_timeline = record q.result_timeline {
          diagnostics =
              append_epanet_diagnostic_if_unique since (epanet_diagnostic_from_status status);
        };
      } in
      let s' = record s { project = project } in
      if not status.success
      then some (proceed (refuse status failed s'))
      else elim (Quality.run (quality_solver b q.options.analysis) network.duration_s fuel project
          configured.result_timeline) [
            | none ↦ none
            | some (solved, t) ↦ some (
                after_solver solved t.cancelled
                  (record configured {
                    result_timeline = record t.timeline {
                      diagnostics =
                          append_since seen t.timeline.diagnostics t.project.diagnostics_collected;
                    };
                  })
                  (record s { project = t.project }))
          ]

  -- From the validation of the options on.
  unfoldable pub start_quality :
      ℕ → EpanetQualityResult D R → RoundState W D R M → Option (Round W D R M)
  start_quality fuel q s =
      let s' = record s { project = restart_collector b s.project } in
      let running = record q { state = EpanetRunState.running } in
      let (status, failures) = validate_quality_run network q.options in
      let failed = record running {
        result_timeline = record q.result_timeline {
          diagnostics = append_failures q.result_timeline.diagnostics failures;
        };
      } in
      if not status.success
      then some (proceed (refuse status failed s'))
      else solve_quality fuel running s'

  -- The body of the loop.
  unfoldable pub quality_round :
      ℕ → EpanetQualityResult D R → RoundState W D R M → Option (Round W D R M)
  quality_round fuel q s =
      let skipped = record q {
        result_timeline = record q.result_timeline {
          status = make_epanet_success;
          validity = QualityValidity.not_run;
        };
        state = EpanetRunState.skipped;
      } in
      let (asked, project) = cancellation_requested b s.project in
      let s' = record s { project = project } in
      if same WaterQualityAnalysisType-discrete q.options.analysis WaterQualityAnalysisType.none
      then some (proceed (skipped, s))
      else if asked
      then some (leave (q, record s' { result = record s.result { cancelled = true } }))
      else start_quality fuel q s'
