-- ===== src/Runner/Early.antt =====
-- The result that EpanetRunner::run starts from, and those that it returns early.
use aowis_server_epanet.Base.{
  ℕ, String, Bool, true, false, not, none, some, List, [], map, if◌then◌else◌,
}
use aowis_server_epanet.Model.Status.{Status, Externals}
use aowis_server_epanet.Model.Network.{Network}
use aowis_server_epanet.Model.Run.{
  EpanetRunState, EpanetResultRun, EpanetMultiSpeciesResult, EpanetRunRequest,
}
use aowis_server_epanet.StatusHelpers.{make_epanet_success}
use aowis_server_epanet.Diagnostics.{
  epanet_diagnostic_from_status, append_epanet_diagnostic_if_unique, append_epanet_diagnostics,
  append_epanet_report_diagnostics,
}
use aowis_server_epanet.Finalizer.{finalize_epanet_hydraulic_result_validity}
use aowis_server_epanet.Validation.Whole.{QualityOptions}
use aowis_server_epanet.Executor.{ExecutorBackend, is_state, mark_pending_quality_runs}
use aowis_server_epanet.Executor.Report.{report_lines_of}
use aowis_server_epanet.Runner.{RunnerBackend}
use aowis_server_epanet.Runner.Text.{finalize_report_text}
use aowis_server_epanet.Runner.Prepared.{PreparedProject}

-- The result of a run with a multi-species result in it.
abbrev pub RunResult : Type 0 → Type 0 → Type 0 → Type 0 → Type 0
RunResult D R O V = EpanetResultRun D R (EpanetMultiSpeciesResult O V)

module _ {D R O V : Type 0} where
  -- markPendingMultiSpeciesRun
  unfoldable pub mark_pending_multi_species_run :
      RunResult D R O V → EpanetRunState → RunResult D R O V
  mark_pending_multi_species_run result state = elim result.multi_species_result [
    | none ↦ result
    | some m ↦
        if is_state m.state EpanetRunState.pending
        then record result { multi_species_result = some (record m { state = state }) }
        else result
  ]

module _ {W D R O V : Type 0} ⦃ext : Externals⦄ (b : RunnerBackend W D R O V) where
  -- initializeRunResult
  unfoldable pub initialize_run_result : EpanetRunRequest D O → ℕ → RunResult D R O V
  initialize_run_result request simulation_start_utc = record {
    result_timeline = record b.default_hydraulic_timeline {
      simulation_start_utc = simulation_start_utc;
    };
    quality_results =
        map
          (λ (options : QualityOptions D). record {
            options = options;
            result_timeline = record b.default_quality_timeline {
              analysis = options.analysis;
              simulation_start_utc = simulation_start_utc;
            };
            report_lines = [];
            report_text = "";
            state = EpanetRunState.pending;
          })
          request.quality_runs;
    multi_species_result = none;
    status = make_epanet_success;
    diagnostics = [];
    report_lines = [];
    report_text = "";
    state = EpanetRunState.pending;
    cancelled = false;
  }

  -- The lines that the report collector holds, and the executor's backend, with the runner's
  -- cancellation function.
  abbrev pub executor_backend : Network D → ExecutorBackend W D R
  executor_backend network = record (b.executor network) { cancellation = b.cancellation }

  abbrev pub collected_lines : PreparedProject W D → List String
  collected_lines p = report_lines_of (b.executor p.prepared_network) p.project

  -- cancellationRequested
  unfoldable pub cancellation_requested : PreparedProject W D → Bool × PreparedProject W D
  cancellation_requested p = elim b.cancellation [
    | none ↦ (false, p)
    | some poll ↦
        (let (asked, w) = poll p.project.native in
          (asked, record p { project = record p.project { native = w } }))
  ]

  -- cancelledRun
  unfoldable pub cancelled_run :
      RunResult D R O V → PreparedProject W D → Network D → RunResult D R O V
  cancelled_run result p network =
      let marked =
        mark_pending_multi_species_run
          (mark_pending_quality_runs
            (record result { cancelled = true; state = EpanetRunState.cancelled })
            EpanetRunState.cancelled)
          EpanetRunState.cancelled in
      finalize_report_text
        (record marked {
          diagnostics =
              append_epanet_diagnostics marked.diagnostics p.project.diagnostics_collected;
          report_lines = collected_lines p;
        })
        network

  -- failedRun, before the marking
  unfoldable pub failed_result :
      RunResult D R O V → Status → PreparedProject W D → RunResult D R O V
  failed_result result status p =
      let lines = collected_lines p in
      let gathered =
        append_epanet_diagnostics result.result_timeline.diagnostics
          p.project.diagnostics_collected in
      let failed =
        if not status.success
        then append_epanet_diagnostic_if_unique gathered (epanet_diagnostic_from_status status)
        else gathered in
      let timeline = finalize_epanet_hydraulic_result_validity (record result.result_timeline {
        status = status;
        diagnostics = append_epanet_report_diagnostics failed lines;
      }) in
      record result {
        status = status;
        state = EpanetRunState.error;
        result_timeline = timeline;
        report_lines = lines;
        diagnostics = append_epanet_diagnostics result.diagnostics timeline.diagnostics;
      }

  -- failedRun
  unfoldable pub failed_run :
      RunResult D R O V → Status → PreparedProject W D → Network D → RunResult D R O V
  failed_run result status p network =
      finalize_report_text
        (mark_pending_multi_species_run
          (mark_pending_quality_runs (failed_result result status p) EpanetRunState.skipped)
          EpanetRunState.skipped)
        network
