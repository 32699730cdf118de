-- ===== src/Runner/Run.antt =====
-- EpanetRunner::run.
use aowis_server_epanet.Base.{ℕ, Bool, true, false, not, ◌||◌, Option, none, some, if◌then◌else◌}
use aowis_server_epanet.Model.Status.{Status, Externals}
use aowis_server_epanet.Model.Doubles.{Doubles}
use aowis_server_epanet.Model.Run.{EpanetRunState, EpanetMultiSpeciesResult, EpanetRunRequest}
use aowis_server_epanet.Diagnostics.{
  epanet_diagnostic_from_status, append_epanet_diagnostic_if_unique, append_epanet_diagnostics,
}
use aowis_server_epanet.Executor.Save.{has_hydraulic_file, Saved}
use aowis_server_epanet.Executor.Run
use aowis_server_epanet.Executor.Run.{ExecutorState}
use aowis_server_epanet.Runner.{RunnerBackend}
use aowis_server_epanet.Runner.Text.{finalize_report_text}
use aowis_server_epanet.Runner.Prepared.{PreparedProject, default_prepared, prepare}
use aowis_server_epanet.Runner.Early.{
  RunResult, mark_pending_multi_species_run, initialize_run_result, executor_backend,
  cancellation_requested, cancelled_run, failed_run,
}

abbrev pub is_some : {A : Type 0} → Option A → Bool
is_some none = false
is_some (some x) = true

module _ {W D R O V : Type 0} ⦃ops : Doubles D⦄ ⦃ext : Externals⦄ (b : RunnerBackend W D R O V)
    (request : EpanetRunRequest D O) where
  -- What follows msx_project.run; `stop` is its cancellation or the function's.
  unfoldable pub settle_multi_species :
      Status → Bool → EpanetMultiSpeciesResult O V → RunResult D R O V → RunResult D R O V
  settle_multi_species status stop m result =
      let gathered = append_epanet_diagnostics result.diagnostics m.result_timeline.diagnostics in
      if stop
      then record result {
        multi_species_result = some (record m { state = EpanetRunState.cancelled });
        diagnostics = gathered;
        cancelled = true;
        state = EpanetRunState.cancelled;
      }
      else if not status.success
      then record result {
        multi_species_result = some (record m { state = EpanetRunState.error });
        status = if result.status.success then status else result.status;
        diagnostics =
            append_epanet_diagnostic_if_unique gathered (epanet_diagnostic_from_status status);
        state = EpanetRunState.error;
      }
      else record result {
        multi_species_result = some (record m { state = EpanetRunState.success });
        diagnostics = gathered;
      }

  -- The multi-species run on the hydraulic file.
  unfoldable pub run_multi_species :
      O
      → ℕ
      → PreparedProject W D
      → Saved W
      → EpanetMultiSpeciesResult O V
      → RunResult D R O V
      → RunResult D R O V
  run_multi_species options start p saved m result =
      let (status, timeline, cancelled, w) =
        b.msx_run request.network options saved.hydraulic_inp_text saved.hydraulic_file_path
          m.result_timeline p.project.native in
      let asked =
        cancellation_requested b (record p { project = record p.project { native = w } }) in
      settle_multi_species status (cancelled || asked.0)
        (record m { result_timeline = record timeline { simulation_start_utc = start } }) result

  -- What follows the executor: the multi-species result, where there is one.
  unfoldable pub continue_multi_species :
      ℕ
      → PreparedProject W D
      → Saved W
      → RunResult D R O V
      → Option O
      → Option (EpanetMultiSpeciesResult O V)
      → RunResult D R O V
  continue_multi_species start p saved result none m = result
  continue_multi_species start p saved result (some options) none = result
  continue_multi_species start p saved result (some options) (some m) =
      if result.cancelled
      then mark_pending_multi_species_run result EpanetRunState.cancelled
      else if not result.result_timeline.status.success
          || not (has_hydraulic_file (executor_backend b p.prepared_network) saved)
      then mark_pending_multi_species_run result EpanetRunState.skipped
      else run_multi_species options start p saved m result

  -- A new executor, and the result that it is given.
  abbrev pub executor_start :
      PreparedProject W D → RunResult D R O V → ExecutorState W D R (EpanetMultiSpeciesResult O V)
  executor_start p result = record {
    saved = record {
      project = p.project;
      directory = none;
      hydraulic_file_path = "";
      hydraulic_inp_text = "";
    };
    result = record result {
      diagnostics = append_epanet_diagnostics result.diagnostics p.project.diagnostics_collected;
    };
  }

  -- The executor's run and what follows it.
  unfoldable pub execute :
      ℕ → ℕ → PreparedProject W D → RunResult D R O V → Option (RunResult D R O V)
  execute fuel start p result =
      elim (Run.run (executor_backend b p.prepared_network) p.prepared_network
        (is_some request.multi_species_run) fuel (executor_start p result)) [
          | none ↦ none
          | some e ↦ some (
              finalize_report_text
                (continue_multi_species start (record p { project = e.saved.project }) e.saved
                  e.result request.multi_species_run e.result.multi_species_result)
                request.network)
        ]

  -- From the preparation of the project on.
  unfoldable pub prepare_and_execute :
      ℕ → ℕ → PreparedProject W D → RunResult D R O V → Option (RunResult D R O V)
  prepare_and_execute fuel start p result =
      let (status, prepared) = prepare b request.network p in
      let (asked, p') = cancellation_requested b prepared in
      if asked
      then some (cancelled_run b result p' request.network)
      else if not status.success
      then some (failed_run b result status p' request.network)
      else execute fuel start p' result

  -- From the validation of the multi-species run on.
  unfoldable pub validate_and_prepare :
      ℕ → ℕ → PreparedProject W D → RunResult D R O V → Option O → Option (RunResult D R O V)
  validate_and_prepare fuel start p result none = prepare_and_execute fuel start p result
  validate_and_prepare fuel start p result (some options) =
      let started = record result {
        multi_species_result = some (record {
          options = options;
          result_timeline = record b.default_multi_species_timeline {
            simulation_start_utc = start;
          };
          state = EpanetRunState.pending;
        });
      } in
      let status = b.validate_multi_species request.network options in
      if not status.success
      then some (failed_run b started status p request.network)
      else prepare_and_execute fuel start p started

  -- EpanetRunner::run with a cancellation function; `fuel` bounds the rounds of each solver.
  unfoldable pub run : ℕ → W → Option (RunResult D R O V)
  run fuel w =
      let (start, w') = b.now w in
      let result = initialize_run_result b request start in
      let (asked, p) = cancellation_requested b (default_prepared b w') in
      if asked
      then some (cancelled_run b result p request.network)
      else validate_and_prepare fuel start p result request.multi_species_run
