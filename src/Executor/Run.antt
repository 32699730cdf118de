-- ===== src/Executor/Run.antt =====
-- EpanetMultiQualityRunExecutor::run.
use aowis_server_epanet.Base.{
  ℕ, Bool, true, not, Option, none, some, List, [], ◌∷◌, ◌++◌, if◌then◌else◌,
}
use aowis_server_epanet.Model.Status.{Status, Externals}
use aowis_server_epanet.Model.Timelines.{HydraulicTimeline}
use aowis_server_epanet.Model.Doubles.{Doubles}
use aowis_server_epanet.Model.Network.{Network}
use aowis_server_epanet.Model.Results.{HydraulicResult}
use aowis_server_epanet.Model.Run.{EpanetRunState, EpanetQualityResult, EpanetResultRun}
use aowis_server_epanet.Project.{Project}
use aowis_server_epanet.StatusHelpers.{make_epanet_success}
use aowis_server_epanet.Diagnostics.{
  epanet_diagnostic_from_status, append_epanet_diagnostic_if_unique, append_epanet_diagnostics,
  checkpoint, append_since,
}
use aowis_server_epanet.Finalizer.{
  finalize_epanet_hydraulic_result_validity, mark_epanet_hydraulic_result_cancelled,
}
use aowis_server_epanet.Hydraulics
use aowis_server_epanet.Hydraulics.{HydraulicBackend}
use aowis_server_epanet.Loop.{proceed, leave}
use aowis_server_epanet.Executor.{
  ExecutorBackend, record_failure_status, mark_pending_quality_runs, finalize_run_state,
}
use aowis_server_epanet.Executor.Save.{Saved, clear, save_hydraulics}
use aowis_server_epanet.Executor.Report.{report_lines_of, generate_report}
use aowis_server_epanet.Executor.Round.{
  RoundState, cancellation_requested, or_requested, quality_round,
}

-- The executor with its prepared project, and the result that it works on.
pub record ExecutorState (W D R M : Type 0) : Type 0 where
  pub saved : Saved W
  pub result : EpanetResultRun D R M

-- The hydraulic solver with the executor's cancellation function.
abbrev pub hydraulic_solver : {W D R : Type 0} → ExecutorBackend W D R → HydraulicBackend W D
hydraulic_solver b = record b.hydraulic { cancellation = b.cancellation }

module _ {W D R M : Type 0} ⦃ops : Doubles D⦄ ⦃ext : Externals⦄ (b : ExecutorBackend W D R)
    (network : Network D) where
  abbrev with_project : ExecutorState W D R M → Project W → ExecutorState W D R M
  with_project e p = record e { saved = record e.saved { project = p } }

  abbrev with_timeline :
      ExecutorState W D R M → HydraulicTimeline (HydraulicResult D) → ExecutorState W D R M
  with_timeline e timeline = record e { result = record e.result { result_timeline = timeline } }

  -- `finalizeRunState(result, …); return result;`
  unfoldable pub finish : ExecutorState W D R M → ExecutorState W D R M
  finish e = record e { result = finalize_run_state (report_lines_of b e.saved.project) e.result }

  -- The end of a run whose hydraulics have failed.
  unfoldable pub fail_hydraulics : Status → ExecutorState W D R M → ExecutorState W D R M
  fail_hydraulics status e =
      let timeline = finalize_epanet_hydraulic_result_validity (record e.result.result_timeline {
        status = status;
        diagnostics =
            append_epanet_diagnostic_if_unique e.result.result_timeline.diagnostics
              (epanet_diagnostic_from_status status);
      }) in
      let gathered = record e.result {
        result_timeline = timeline;
        diagnostics = append_epanet_diagnostics e.result.diagnostics timeline.diagnostics;
      } in
      finish (record e {
        result =
            mark_pending_quality_runs (record_failure_status gathered status)
              EpanetRunState.skipped;
      })

  -- The end of a run that is cancelled before its quality runs.
  unfoldable pub cancel_hydraulics : Status → ExecutorState W D R M → ExecutorState W D R M
  cancel_hydraulics status e =
      let timeline =
        mark_epanet_hydraulic_result_cancelled
          (record e.result.result_timeline { status = status }) in
      finish (record e {
        result = record e.result {
          result_timeline = timeline;
          diagnostics = append_epanet_diagnostics e.result.diagnostics timeline.diagnostics;
          cancelled = true;
        };
      })

  -- The end of a loop that went through all quality runs.
  unfoldable pub finish_all :
      ExecutorState W D R M
      → List (EpanetQualityResult D R)
      → RoundState W D R M
      → ExecutorState W D R M
  finish_all e entries s = finish (record (with_project e s.project) {
    result = record s.result {
      quality_results = entries;
      diagnostics = append_epanet_diagnostics s.result.diagnostics s.project.diagnostics_collected;
    };
  })

  -- The loop: the entries that are done, and those that are left.
  unfoldable pub quality_loop :
      ℕ
      → ExecutorState W D R M
      → List (EpanetQualityResult D R)
      → List (EpanetQualityResult D R)
      → RoundState W D R M
      → Option (ExecutorState W D R M)
  quality_loop fuel e done [] s = some (finish_all e done s)
  quality_loop fuel e done (q ∷ rest) s = elim (quality_round b network fuel q s) [
    | none ↦ none
    | some (proceed (q', s')) ↦ quality_loop fuel e (done ++ q' ∷ []) rest s'
    | some (leave (q', s')) ↦ some (
        finish (record (with_project e s'.project) {
          result = record s'.result { quality_results = done ++ q' ∷ rest };
        }))
  ]

  -- From the successful end of hydraulics on: their report, and the quality runs.
  unfoldable pub run_qualities : ℕ → ExecutorState W D R M → Option (ExecutorState W D R M)
  run_qualities fuel e =
      let timeline =
        finalize_epanet_hydraulic_result_validity
          (record e.result.result_timeline { status = make_epanet_success }) in
      let (status, lines, diagnostics, project) =
        generate_report b e.saved.project timeline.diagnostics in
      let reported = finalize_epanet_hydraulic_result_validity (record timeline {
        diagnostics = diagnostics;
        status = if status.success then timeline.status else status;
      }) in
      let recorded =
        record_failure_status (record e.result { report_lines = lines; result_timeline = reported })
          status in
      let gathered = record recorded {
        diagnostics = append_epanet_diagnostics recorded.diagnostics reported.diagnostics;
      } in
      quality_loop fuel e [] e.result.quality_results
        (record { project = project; result = gathered })

  abbrev since : ℕ → ExecutorState W D R M → Project W → ExecutorState W D R M
  since seen e p = with_timeline (with_project e p) (record e.result.result_timeline {
    diagnostics =
        append_since (record { index = seen }) e.result.result_timeline.diagnostics
          p.diagnostics_collected;
  })

  -- saveHydraulics and what follows; `seen` is the checkpoint at the start of the run.
  unfoldable pub save_and_go_on :
      Bool → ℕ → ℕ → ExecutorState W D R M → Option (ExecutorState W D R M)
  save_and_go_on persist_hydraulic_file seen fuel e =
      let (status, saved) = save_hydraulics b persist_hydraulic_file e.saved in
      let t = since seen (record e { saved = saved }) saved.project in
      let (asked, project) = cancellation_requested b saved.project in
      let t' = with_project t project in
      if asked
      then some (cancel_hydraulics status t')
      else if not status.success
      then some (fail_hydraulics status t')
      else run_qualities fuel t'

  -- The hydraulic solver and what follows.
  unfoldable pub solve_hydraulics :
      Bool → ℕ → ℕ → ExecutorState W D R M → Option (ExecutorState W D R M)
  solve_hydraulics persist_hydraulic_file seen fuel e =
      elim (Hydraulics.run (hydraulic_solver b) network fuel e.saved.project
        e.result.result_timeline) [
          | none ↦ none
          | some (status, t) ↦
              let solved = since seen (with_timeline e t.timeline) t.project in
              let (stop, project) = or_requested b t.cancelled t.project in
              let solved' = with_project solved project in
              if stop
              then some (cancel_hydraulics status solved')
              else if not status.success
              then some (fail_hydraulics status solved')
              else save_and_go_on persist_hydraulic_file seen fuel solved'
        ]

  -- The members cleared, and the result marked as running.
  abbrev pub begin : ExecutorState W D R M → ExecutorState W D R M
  begin e = record {
    saved = clear b e.saved;
    result = record e.result { state = EpanetRunState.running };
  }

  -- EpanetMultiQualityRunExecutor::run; `fuel` bounds the rounds of each solver, and `none` means that
  -- one of them ran out.
  unfoldable pub run : Bool → ℕ → ExecutorState W D R M → Option (ExecutorState W D R M)
  run persist_hydraulic_file fuel e =
      let e' = begin e in
      let seen = (checkpoint e'.saved.project.diagnostics_collected).index in
      let (status, project) = b.configure_hydraulic_run e'.saved.project in
      let configured = since seen e' project in
      if not status.success
      then some (fail_hydraulics status configured)
      else solve_hydraulics persist_hydraulic_file seen fuel configured
