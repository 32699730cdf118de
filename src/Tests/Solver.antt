-- ===== src/Tests/Solver.antt =====
-- The hydraulic solver on a small Toolkit, whose clock runs from 0 to 2 in steps of one second.
use aowis_server_epanet.Base.{
  ℕ, ◌+◌, ◌/◌, ◌%◌, ◌^◌, min, ◌≡◌, refl, sym, ap, Bool, true, false, Option, none, some, List, [],
  ◌∷◌, ◌++◌, map, arith, ltb, if◌then◌else◌, get_elem?, pos,
}
use aowis_server_epanet.Model.Results.{PumpEnergyUsage, PumpResult}
use aowis_server_epanet.Model.Doubles.{◌⊕◌, ◌⊗◌}
use aowis_server_epanet.Model.Status.{Status}
use aowis_server_epanet.StatusHelpers.{is_epanet_error_code}
use aowis_server_epanet.Hydraulics.{HydraulicBackend, HydraulicState, run}
use aowis_server_epanet.Hydraulics.Energy.{
  new_pump_accumulator, pattern_factor, accumulate_pump, accumulate_pumps, store_pump_energy_usage,
}
use aowis_server_epanet.Hydraulics.Energy.Usage.{
  runs, costs, pattern_factor-found, accumulate_pumps-at, store_pump_energy_usage_lem,
}
use aowis_server_epanet.Hydraulics.Frame.{time}
use aowis_server_epanet.Hydraulics.Phases.{Phase, Protocol}
use aowis_server_epanet.Hydraulics.Ends.{Clock}
use aowis_server_epanet.Hydraulics.Times.{Rising, AllBelow}
use aowis_server_epanet.Hydraulics.Outcome.{run-ends}
use aowis_server_epanet.Tests.Samples.{
  sample_externals, whole_doubles, sample_network, sample_pump, other_pattern, price_pattern,
  sample_result, sample_usage, sample_project, sample_timeline, blank_status,
}

abbrev pub sample_backend : HydraulicBackend (Phase × ℕ) ℕ
sample_backend = record {
  open_h = λ w. (pos 0, (Phase.opened, w.1));
  init_h = λ w. (pos 0, w);
  run_h = λ t w. (pos 0, pos (min w.1 2), w);
  next_h = λ t w. (pos 0, (if ltb w.1 2 then pos 1 else pos 0), (w.0, w.1 + 1));
  close_h = λ w. (pos 0, (Phase.closed, w.1));
  cancellation = some (λ w. (false, w));
  configure_report = λ p. (record blank_status { success = true }, p);
  read = λ r p. (record blank_status { success = true }, r, p);
  default_result = sample_result;
  default_usage = sample_usage;
}

zero_accepted : ¬ (is_epanet_error_code (pos 0) ≡ true)
unfolding is_epanet_error_code
zero_accepted e = ground arith

abbrev pub asked_phase : Phase × ℕ → Option (Phase × ℕ → Bool × (Phase × ℕ)) → Phase
asked_phase w none = w.0
asked_phase w (some poll) = (poll w).1.0

pub sample-Protocol : Protocol sample_backend (λ w. w.0)
sample-Protocol = record {
  open_accepted = λ w h e. refl;
  open_failed = λ w h e. absurd (zero_accepted e);
  init_keeps = λ w h. h;
  run_keeps = λ t w h. h;
  next_keeps = λ t w h. h;
  close_closes = λ w h. refl;
  poll_keeps = λ poll w e. sym (ap (asked_phase w) e);
  report_keeps = λ p. refl;
  read_keeps = λ r p. refl;
}

pub sample-Clock : Clock sample_backend 2
sample-Clock = record { run_bounded = λ t w h. ground arith; read_time = λ r p. refl }

run_example :
    (r : Status × HydraulicState (Phase × ℕ) ℕ) × (run sample_backend sample_network 4
        (sample_project (Phase.closed, 0))
        (sample_timeline [] [])
      ≡ some r)
    × (r.1.project.native.0 ≡ Phase.closed)
    × Rising 0 (map time r.1.timeline.results)
    × AllBelow 3 (map time r.1.timeline.results)
run_example =
    run-ends sample_network sample-Clock sample-Protocol 4 (sample_project (Phase.closed, 0))
      (sample_timeline [] []) (omega arith) refl refl

pattern_example :
    get_elem? (3 ∷ 5 ∷ []) ((7 + 0) % 2 ^ 64 / 1 % 2) ≡ some (pattern_factor sample_network 8 7)
pattern_example =
    pattern_factor-found sample_network 8 7 (other_pattern ∷ []) [] price_pattern refl (refl, tt)
      refl (omega arith) (omega arith)

abbrev pump_at_work : PumpResult ℕ
pump_at_work = record { efficiency_percent = 50; power_kw = 3; flow_m3_per_h = 2 }

accumulate_example :
    get_elem?
      (accumulate_pumps sample_network 7 1 sample_result.links_pumps
        (sample_pump ∷ [])
        (new_pump_accumulator ∷ [])
        0).0
      0
    ≡ some (
        if runs pump_at_work
        then accumulate_pump sample_network sample_pump pump_at_work 7 1 new_pump_accumulator
        else new_pump_accumulator)
accumulate_example =
    accumulate_pumps-at sample_network 7 1 sample_result.links_pumps (sample_pump ∷ [])
      (new_pump_accumulator ∷ []) 0 0 pump_at_work sample_pump new_pump_accumulator refl refl refl

usage_example :
    let stored =
      store_pump_energy_usage sample_network sample_usage
        (new_pump_accumulator ∷ [])
        (record { peak_power_kw = 3 })
        sample_result in
    (added : List (PumpEnergyUsage ℕ)) × (stored.links_pump_energy_usage ≡ [] ++ added)
    × (map (λ (u : PumpEnergyUsage ℕ). u.pump_uuid) added ≡ 6 ∷ [])
    × (stored.energy_usage.energy_cost_per_day ≡ costs 0 added)
    × (stored.energy_usage.total_cost_per_day ≡ costs 0 added ⊕ 3 ⊗ 4)
usage_example =
    store_pump_energy_usage_lem sample_network sample_usage (new_pump_accumulator ∷ [])
      (record { peak_power_kw = 3 }) sample_result refl
