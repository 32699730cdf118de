-- ===== src/Tests/WaterQuality.antt =====
-- The quality solver on a small Toolkit, whose clock runs from 0 to 2 in steps of one second.
use aowis_server_epanet.Base.{
  ℕ, ◌+◌, ◌-◌, min, ◌≡◌, refl, sym, ap, ◌⊎◌, true, false, some, [], map, arith, pos,
}
use aowis_server_epanet.Model.Status.{Status}
use aowis_server_epanet.Model.Enums.{WaterQualityAnalysisType}
use aowis_server_epanet.Model.Timelines.{QualityTimeline, QualityValidity}
use aowis_server_epanet.StatusHelpers.{is_epanet_error_code}
use aowis_server_epanet.Quality.{QualityBackend, QualityState, QualityResult, run}
use aowis_server_epanet.Quality.Stages.{QualityLaws, time}
use aowis_server_epanet.Quality.Failures.{quality_run-Accounted}
use aowis_server_epanet.Quality.Outcome.{Concluded, quality_run-ends}
use aowis_server_epanet.Hydraulics.Phases.{Phase}
use aowis_server_epanet.Hydraulics.Times.{Rising, AllBelow}
use aowis_server_epanet.Tests.Solver.{asked_phase}
use aowis_server_epanet.Tests.Samples.{sample_externals, sample_project, blank_status}

abbrev pub sample_toolkit : QualityBackend (Phase × ℕ) ℕ
sample_toolkit = record {
  open_q = λ w. (pos 0, (Phase.opened, w.1));
  init_q = λ w. (pos 0, w);
  run_q = λ t w. (pos 0, pos (min w.1 2), w);
  next_q = λ t w. (pos 0, pos 0, w);
  step_q = λ t w. (pos 0, pos (2 - w.1), (w.0, w.1 + 1));
  close_q = λ w. (pos 0, (Phase.closed, w.1));
  cancellation = some (λ w. (false, w));
  read = λ r p. (record blank_status { success = true }, r, p);
  default_result = record { time_elapsed_s = 0; status = blank_status; values = 0 };
}

zero_passes : ¬ (is_epanet_error_code (pos 0) ≡ true)
unfolding is_epanet_error_code
zero_passes e = ground arith

pub sample-QualityLaws : QualityLaws sample_toolkit (λ w. w.0) 2
sample-QualityLaws = record {
  open_accepted = λ w h e. refl;
  open_failed = λ w h e. absurd (zero_passes e);
  init_keeps = λ w h. h;
  run_keeps = λ t w h. h;
  next_keeps = λ t w h. h;
  step_keeps = λ t w h. h;
  close_closes = λ w h. refl;
  poll_keeps = λ poll w e. sym (ap (asked_phase w) e);
  read_keeps = λ r p. refl;
  run_bounded = λ t w h. ground arith;
  read_time = λ r p. refl;
}

abbrev pub empty_timeline : QualityTimeline (QualityResult ℕ)
empty_timeline = record {
  simulation_start_utc = 0;
  analysis = WaterQualityAnalysisType.water_age;
  status = blank_status;
  validity = QualityValidity.not_run;
  results = [];
  diagnostics = [];
}

quality_run_example :
    (r : Status × QualityState (Phase × ℕ) ℕ) × (run sample_toolkit 2 4
        (sample_project (Phase.closed, 0))
        empty_timeline
      ≡ some r)
    × (r.1.project.native.0 ≡ Phase.closed)
    × Rising 0 (map time r.1.timeline.results)
    × AllBelow 3 (map time r.1.timeline.results)
    × Concluded r
quality_run_example =
    quality_run-ends sample-QualityLaws 2 4 (sample_project (Phase.closed, 0)) empty_timeline
      (omega arith) refl refl

quality_failures_example :
    (r : Status × QualityState (Phase × ℕ) ℕ) × (run sample_toolkit 2 4
        (sample_project (Phase.closed, 0))
        empty_timeline
      ≡ some r)
    × (r.0.success ≡ true
        → (r.1.cancelled ≡ true) ⊎ (r.1.timeline.diagnostics ≡ empty_timeline.diagnostics))
quality_failures_example =
    quality_run-Accounted sample-QualityLaws 2 4 (sample_project (Phase.closed, 0)) empty_timeline
      (omega arith) refl refl
