-- ===== src/Tests/Execution.antt =====
-- The executor and the runner on the small Toolkits, with one quality run and a multi-species run.
use aowis_server_epanet.Base.{
  ℕ, ◌≤◌, String, ◌≡◌, refl, ◌↔◌, true, false, none, some, List, [], ◌∷◌, ◌++◌, arith, str_eq,
  if◌then◌else◌, take, pos,
}
use aowis_server_epanet.Model.Enums.{WaterQualityAnalysisType}
use aowis_server_epanet.Model.Status.{Status}
use aowis_server_epanet.Model.Run.{
  EpanetRunState, EpanetQualityResult, EpanetResultRun, EpanetRunRequest,
}
use aowis_server_epanet.Hydraulics.Phases.{Phase}
use aowis_server_epanet.Validation.Whole.{QualityOptions}
use aowis_server_epanet.Executor.{ExecutorBackend, finalize_run_state}
use aowis_server_epanet.Executor.Run
use aowis_server_epanet.Executor.Run.{ExecutorState}
use aowis_server_epanet.Executor.Save.{Saved, save_hydraulics}
use aowis_server_epanet.Executor.Laws.{ExecutorLaws}
use aowis_server_epanet.Executor.Settled.{Ended}
use aowis_server_epanet.Executor.Outcome.{executor_run-Ended}
use aowis_server_epanet.Executor.Artifact.{Outcome, save_hydraulics-Kept}
use aowis_server_epanet.Executor.Verdict.{Wrong, Doubtful, finalize_run_state-verdict}
use aowis_server_epanet.Runner.{RunnerBackend}
use aowis_server_epanet.Runner.Run as Runs
use aowis_server_epanet.Runner.Early.{RunResult}
use aowis_server_epanet.Runner.Ended.{RunEnded}
use aowis_server_epanet.Runner.Outcome.{RunnerLaws, runner_run-RunEnded}
use aowis_server_epanet.Runner.Text.{
  shared_report_prefix_size, quality_run_status_text, quality_section_body,
}
use aowis_server_epanet.Runner.Prefix.{shared_report_prefix_size_iff, quality_section_body-restored}
use aowis_server_epanet.Tests.Solver.{sample_backend, sample-Protocol, sample-Clock}
use aowis_server_epanet.Tests.WaterQuality.{sample_toolkit, sample-QualityLaws, empty_timeline}
use aowis_server_epanet.Tests.Samples.{
  sample_externals, whole_doubles, sample_network, sample_project, sample_timeline, blank_status,
  blank_diagnostic, unstable,
}

abbrev accepted : Status
accepted = record blank_status { success = true }

abbrev sample_executor : ExecutorBackend (Phase × ℕ) ℕ ℕ
sample_executor = record {
  hydraulic = sample_backend;
  quality = λ analysis. sample_toolkit;
  cancellation = some (λ w. (false, w));
  configure_hydraulic_run = λ p. (accepted, p);
  configure_quality_run = λ options p. (accepted, record p { native = (Phase.closed, 0) });
  save_h = λ w. (pos 0, w);
  save_hyd_file = λ path w. (pos 0, w);
  report = λ w. (pos 0, w);
  make_directory = λ w. (some "/tmp/h", w);
  path_inside = λ directory name. "/tmp/h/hydraulics.hyd";
  remove_directory = λ path w. w;
  is_file = λ path w. true;
  retrieve_inp_text = λ p. (accepted, "[TITLE]", p);
  collector = λ w. record { report_header_lines = []; report_lines = "header" ∷ [] };
  set_collector = λ c w. w;
}

sample-ExecutorLaws : ExecutorLaws sample_executor (λ w. w.0) (λ w. w.0) 2
sample-ExecutorLaws = record {
  protocol = sample-Protocol;
  clock = sample-Clock;
  quality_laws = λ analysis. sample-QualityLaws;
  remove_keeps = λ path w. refl;
  configure_keeps = λ p. refl;
  configured_closed = λ options p e. refl;
}

abbrev age_options : QualityOptions ℕ
age_options = record {
  analysis = WaterQualityAnalysisType.water_age;
  chemical_name = "";
  trace_node_uuid = 0;
  chemical_tolerance_mg_per_l = 1;
  water_age_tolerance_h = 1;
  source_trace_tolerance_percent = 1;
  relative_diffusivity = 1;
}

abbrev age_result : EpanetQualityResult ℕ ℕ
age_result = record {
  options = age_options;
  result_timeline = empty_timeline;
  report_lines = "header" ∷ "age" ∷ [];
  report_text = "";
  state = EpanetRunState.pending;
}

abbrev new_result : EpanetResultRun ℕ ℕ ℕ
new_result = record {
  result_timeline = sample_timeline [] [];
  quality_results = age_result ∷ [];
  multi_species_result = some 7;
  status = accepted;
  diagnostics = unstable ∷ [];
  report_lines = [];
  report_text = "";
  state = EpanetRunState.pending;
  cancelled = false;
}

abbrev nothing_saved : Saved (Phase × ℕ)
nothing_saved = record {
  project = sample_project (Phase.closed, 0);
  directory = none;
  hydraulic_file_path = "";
  hydraulic_inp_text = "";
}

abbrev new_executor : ExecutorState (Phase × ℕ) ℕ ℕ ℕ
new_executor = record { saved = nothing_saved; result = new_result }

executor_example :
    (e : ExecutorState (Phase × ℕ) ℕ ℕ ℕ) × (Run.run sample_executor sample_network true 4
        new_executor
      ≡ some e)
    × Ended (age_options ∷ []) (some 7) e.result
executor_example =
    executor_run-Ended sample-ExecutorLaws sample_network true 4 new_executor (omega arith) refl
      refl (((λ e. absurd (ground arith)), refl), tt)

verdict_example :
    let state = (finalize_run_state [] new_result).state in
    ((state ≡ EpanetRunState.error) ↔ Wrong new_result)
    × ((state ≡ EpanetRunState.warning) ↔ ((¬ Wrong new_result) × Doubtful new_result))
    × ((state ≡ EpanetRunState.success) ↔ ((¬ Wrong new_result) × (¬ Doubtful new_result)))
verdict_example = finalize_run_state-verdict [] new_result refl

save_example :
    Outcome sample_executor true nothing_saved (save_hydraulics sample_executor true nothing_saved)
save_example = save_hydraulics-Kept sample_executor true nothing_saved (refl, refl, refl)

abbrev flow_report : List String
flow_report = "header" ∷ "flow" ∷ []

abbrev age_report : List String
age_report = "header" ∷ "age" ∷ []

prefix_example :
    (take 1 flow_report ≡ take 1 age_report)
    ↔ (1 ≤ shared_report_prefix_size flow_report age_report)
prefix_example = shared_report_prefix_size_iff 1 flow_report age_report (omega arith) (omega arith)

section_example :
    (own : List String) × (notes : List String) × (quality_section_body ("header" ∷ []) age_result
      ≡ own ++ notes)
    × (notes ≡ (
        if str_eq (quality_run_status_text age_result) ""
        then []
        else quality_run_status_text age_result ∷ []))
    × (take (shared_report_prefix_size ("header" ∷ []) age_result.report_lines) ("header" ∷ [])
          ++ own
        ≡ age_result.report_lines)
section_example = quality_section_body-restored ("header" ∷ []) age_result

abbrev sample_runner : RunnerBackend (Phase × ℕ) ℕ ℕ ℕ ℕ
sample_runner = record {
  executor = λ network. sample_executor;
  project = record {
    create_project = λ w. (pos 0, true, w);
    open_file = λ path w. (pos 0, w);
    close_file = λ w. w;
    delete_project = λ w. w;
  };
  cancellation = some (λ w. (false, w));
  now = λ w. (0, w);
  prepare_network = λ network. (accepted, [], network);
  advisories = λ network. blank_diagnostic ∷ [];
  initialize_project = λ network p. (accepted, p);
  build = λ network p. (accepted, record p { native = (Phase.closed, 0) });
  validate_multi_species = λ network options. accepted;
  msx_run = λ network options text path timeline w. (accepted, timeline, false, w);
  default_hydraulic_timeline = sample_timeline [] [];
  default_quality_timeline = empty_timeline;
  default_multi_species_timeline = record {
    simulation_start_utc = 0;
    diagnostics = [];
    values = 0;
  };
  default_network = sample_network;
  default_quality_options = age_options;
}

abbrev sample_request : EpanetRunRequest ℕ ℕ
sample_request = record {
  network = sample_network;
  quality_runs = age_options ∷ [];
  multi_species_run = some 5;
}

sample-RunnerLaws : RunnerLaws sample_runner sample_network (λ w. w.0) (λ w. w.0) 2
sample-RunnerLaws = record {
  executor_laws = sample-ExecutorLaws;
  built_closed = λ p e. refl;
  no_hydraulic_results = refl;
  no_quality_results = refl;
}

runner_example :
    (r : RunResult ℕ ℕ ℕ ℕ) × (Runs.run sample_runner sample_request 4 (Phase.closed, 0) ≡ some r)
    × RunEnded (age_options ∷ []) (some 5) r
runner_example =
    runner_run-RunEnded sample_runner sample_request sample-RunnerLaws 4 (Phase.closed, 0)
      (omega arith)
