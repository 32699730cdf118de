-- ===== src/Hydraulics.antt =====
-- src/lib/internal/epanet_hydraulic_solver.cpp: one hydraulic run, from EN_openH to EN_closeH.
-- The state is what the function and the objects that it refers to hold: the project, the timeline,
-- the first failure and the variables of the loop. A stage of the loop's body goes on with a state
-- or breaks with one; `W` is the native Toolkit together with the world that decides cancellation.
pub mod Energy
pub mod FlowBalance
pub mod Rules
pub mod Frame
pub mod Phases
pub mod Times
pub mod Ends
pub mod Outcome
use Prim.Native.String.{◌++◌ as append}
use mathlib.Core.Option
use aowis_server_epanet.Base.{
  ℕ, zero, suc, ◌+◌, ◌-◌, ◌*◌, ◌/◌, ◌%◌, ◌^◌, ◌≤◌, ◌<◌, min, max, String, ◌≡◌, refl, sym, ap, ◌∙◌,
  subst, ◌≢◌, ◌↔◌, ◌⊎◌, inl, inr, Bool, true, false, not, ◌&&◌, ◌||◌, Option, none, some, List, [],
  ◌∷◌, ◌++◌, map, append_assoc, append-nil, arith, eq_iff, ltb, leb, ◌==◌, str_eq, if◌then◌else◌,
  ==_iff, Bool-cases, Option-cases, decided, same, decided_iff, same_iff, length, take, drop,
  length-append, All, All-append, get_elem?, is_empty, update_last, any, any-append, ℤ, pos, negsuc,
  pos_part, neg_part, ltb_ℤ, eqb_ℤ,
}
use aowis_server_epanet.Model.Enums.{
  StatusStage, StatusOperation, StatusEntityType, DiagnosticSeverity,
}
use aowis_server_epanet.Model.Status.{null_uuid, Status, Externals}
use aowis_server_epanet.Model.Timelines.{HydraulicTimeline}
use aowis_server_epanet.Model.Doubles.{Doubles, ◌⊘◌, nought}
use aowis_server_epanet.Model.Network.{Network}
use aowis_server_epanet.Model.Results.{EventType, EventNext, HydraulicResult, PumpEnergyUsage}
use aowis_server_epanet.Project.{Project, append_diagnostic}
use aowis_server_epanet.StatusHelpers.{
  make_epanet_status, make_epanet_success, process_epanet_return_code,
}
use aowis_server_epanet.Diagnostics.{epanet_diagnostic_from_status_as}
use aowis_server_epanet.Loop.{Flow, proceed, leave, ◌>>=◌, repeat}
use Energy.{
  PumpEnergyAccumulator, SystemEnergyAccumulator, new_pump_accumulator, accumulate_pump_energy,
  store_pump_energy_usage,
}
use FlowBalance.{
  FlowBalanceAccumulator, new_flow_accumulator, accumulate_flow_balance, store_flow_balance,
}

-- What the solver calls: the Toolkit's functions, each with its return code and the native state
-- after it, and two collaborators of the adapter.
pub record HydraulicBackend (W D : Type 0) : Type 0 where
  pub open_h : W → ℤ × W
  -- EN_initH with EN_SAVE_AND_INIT
  pub init_h : W → ℤ × W
  -- EN_runH and EN_nextH are given the variable that they may write, and return its value.
  pub run_h : ℤ → W → ℤ × ℤ × W
  pub next_h : ℤ → W → ℤ × ℤ × W
  pub close_h : W → ℤ × W
  -- The cancellation function, if there is one.
  pub cancellation : Option (W → Bool × W)
  -- configureEpanetReport
  pub configure_report : Project W → Status × Project W
  -- EpanetResultReader::read, which fills a result
  pub read : HydraulicResult D → Project W → Status × HydraulicResult D × Project W
  -- A default-constructed result and usage entry.
  pub default_result : HydraulicResult D
  pub default_usage : PumpEnergyUsage D

pub record HydraulicState (W D : Type 0) : Type 0 where
  pub project : Project W
  pub timeline : HydraulicTimeline (HydraulicResult D)
  pub first_failure : Status
  pub cancelled : Bool
  pub current_time_s : ℤ
  pub previous_time_s : ℤ
  pub next_step_s : ℤ
  pub pump_energy : List (PumpEnergyAccumulator D)
  pub system_energy : SystemEnergyAccumulator D
  pub flow_balance : FlowBalanceAccumulator D
  -- The variables of one round.
  pub result_available : Bool
  pub result : HydraulicResult D

module _ ⦃ext : Externals⦄ where
  abbrev pub solver_status : StatusOperation → String → Status
  solver_status operation message =
      make_epanet_status StatusStage.run_hydraulics operation StatusEntityType.hydraulic_solver ""
        null_uuid message

  abbrev pub second_detail : String → ℤ → String
  second_detail label time = append label (append (ext.number_text time) " s")

-- canAdvanceAfterRunError
unfoldable pub can_advance_after_run_error : ℤ → Bool
can_advance_after_run_error error_code = eqb_ℤ error_code (pos 110)

module _ {W D : Type 0} where
  -- The native call's effect on the project.
  abbrev pub with_native : HydraulicState W D → W → HydraulicState W D
  with_native s w = record s { project = record s.project { native = w } }

  module _ ⦃ext : Externals⦄ where
    -- collectHydraulicFailure; a negative `simulation_time_s` adds no detail.
    unfoldable pub collect_hydraulic_failure :
        HydraulicState W D → Status → DiagnosticSeverity → ℤ → HydraulicState W D
    unfolding epanet_diagnostic_from_status_as
    collect_hydraulic_failure s status severity simulation_time_s =
        let timed =
          if not (ltb_ℤ simulation_time_s (pos 0))
          then record status {
            details =
                status.details
                ++ append "Simulation time: " (append (ext.number_text simulation_time_s) " s")
                  ∷ [];
          }
          else status in
        if status.success then s else record s {
          project = append_diagnostic s.project (epanet_diagnostic_from_status_as timed severity);
          first_failure = if s.first_failure.success then timed else s.first_failure;
        }

    -- processEpanetReturnCode for a call of the hydraulic solver.
    abbrev pub process :
        HydraulicState W D
        → ℤ
        → StatusStage
        → StatusOperation
        → String
        → String
        → Status × HydraulicState W D
    process s error stage operation call message =
        let (status, project) =
          process_epanet_return_code s.project error stage operation call
            StatusEntityType.hydraulic_solver "" null_uuid message in
        (status, record s { project = project })

  module _ ⦃ops : Doubles D⦄ (b : HydraulicBackend W D) (network : Network D) where
    -- cancellationRequested
    unfoldable pub cancellation_requested : HydraulicState W D → Bool × HydraulicState W D
    cancellation_requested s = elim b.cancellation [
      | none ↦ (false, s)
      | some poll ↦ (let (asked, w) = poll s.project.native in (asked, with_native s w))
    ]

    -- if (cancellationRequested(…)) { cancelled = true; break; }
    pub check_cancelled : HydraulicState W D → Flow (HydraulicState W D)
    check_cancelled s =
        let (asked, s') = cancellation_requested s in
        if asked then leave (record s' { cancelled = true }) else proceed s'

    module _ ⦃ext : Externals⦄ where
      -- The call of EN_runH.
      pub call_run : HydraulicState W D → ℤ × HydraulicState W D
      call_run s =
          let (error, time, w) = b.run_h s.current_time_s s.project.native in
          (error, record (with_native s w) { current_time_s = time; result_available = true })

      -- What a return code other than 0 of EN_runH leads to.
      pub handle_run_error : ℤ → HydraulicState W D → Flow (HydraulicState W D)
      handle_run_error error s =
          let (status, s') =
            process s error StatusStage.run_hydraulics StatusOperation.run_hydraulics "EN_runH"
              "EPANET hydraulic analysis returned a diagnostic" in
          let can_advance = can_advance_after_run_error error in
          let failed =
            record (collect_hydraulic_failure s' status
              (if can_advance then DiagnosticSeverity.error else DiagnosticSeverity.fatal)
              s'.current_time_s) { result_available = false } in
          if eqb_ℤ error (pos 0)
          then proceed s
          else if status.success
          then proceed s'
          else if can_advance
          then proceed failed
          else leave failed

      -- The two tests of the elapsed time, and `previous_time_s = current_time_s`.
      pub check_time : HydraulicState W D → Flow (HydraulicState W D)
      check_time s =
          let stuck =
            record (solver_status StatusOperation.run_hydraulics
              "EPANET hydraulic simulation time did not advance") {
                details =
                    ext.default_status.details
                    ++ second_detail "Previous simulation time: " s.previous_time_s
                      ∷ second_detail "Current simulation time: " s.current_time_s
                      ∷ [];
              } in
          if ltb_ℤ s.current_time_s (pos 0)
          then leave (
              collect_hydraulic_failure s
                (solver_status StatusOperation.run_hydraulics
                  "EPANET returned a negative elapsed simulation time")
                DiagnosticSeverity.fatal (negsuc 0))
          else if not (ltb_ℤ s.previous_time_s (pos 0))
              && not (ltb_ℤ s.previous_time_s s.current_time_s)
          then leave (collect_hydraulic_failure s stuck DiagnosticSeverity.fatal (negsuc 0))
          else proceed (record s { previous_time_s = s.current_time_s })

      -- The new result: read and appended, or not available.
      pub read_result : HydraulicState W D → HydraulicState W D
      read_result s =
          let blank = record b.default_result { time_elapsed_s = pos_part s.current_time_s } in
          let (status, result, project) = b.read blank s.project in
          let s' = record s { project = project } in
          let priced = record result {
            energy_usage = record result.energy_usage {
              currency_iso4217 = network.options_energy.currency_iso4217;
            };
          } in
          if not s.result_available
          then record s { result = b.default_result }
          else if not status.success
          then record (collect_hydraulic_failure s' status DiagnosticSeverity.error
              s.current_time_s) { result_available = false; result = result }
          else record s' {
            result = priced;
            timeline = record s.timeline { results = s.timeline.results ++ priced ∷ [] };
          }

      -- The call of EN_nextH.
      pub call_next : HydraulicState W D → ℤ × HydraulicState W D
      call_next s =
          let (error, step, w) = b.next_h s.next_step_s s.project.native in
          (error, record (with_native s w) { next_step_s = step })

      -- What a return code other than 0 of EN_nextH leads to.
      pub handle_next_error : ℤ → HydraulicState W D → Flow (HydraulicState W D)
      handle_next_error error s =
          let (status, s') =
            process s error StatusStage.run_hydraulics StatusOperation.advance_hydraulics "EN_nextH"
              "EPANET hydraulic timestep advance returned a diagnostic" in
          if eqb_ℤ error (pos 0)
          then proceed s
          else if not status.success
          then leave
              (collect_hydraulic_failure s' status DiagnosticSeverity.fatal s'.current_time_s)
          else proceed s'

      pub advance : HydraulicState W D → Flow (HydraulicState W D)
      advance s = let (error, s') = call_next s in handle_next_error error s'

      -- The test of the timestep.
      pub check_step : HydraulicState W D → Flow (HydraulicState W D)
      check_step s =
          let negative =
            record (solver_status StatusOperation.advance_hydraulics
              "EPANET returned a negative hydraulic timestep") {
                details =
                    ext.default_status.details
                    ++ second_detail "Hydraulic timestep: " s.next_step_s ∷ [];
              } in
          if ltb_ℤ s.next_step_s (pos 0)
          then leave
              (collect_hydraulic_failure s negative DiagnosticSeverity.fatal s.current_time_s)
          else proceed s

    -- The next event, as the step that was made shows it.
    pub next_event : EventNext → ℕ → EventNext
    next_event event actual_step_s =
        if not (actual_step_s == event.time_until_event_s)
        then record {
          type = EventType.hydraulic_step;
          tank_id = "";
          tank_uuid = null_uuid;
          control_id = "";
          control_uuid = null_uuid;
          time_until_event_s = actual_step_s;
        }
        else record event { time_until_event_s = actual_step_s }

    pub store_event : HydraulicState W D → HydraulicState W D
    store_event s =
        let event = next_event s.result.event_next (pos_part s.next_step_s) in
        if s.result_available && not (is_empty s.timeline.results)
        then record s {
          result = record s.result { event_next = event };
          timeline = record s.timeline {
            results =
                update_last (λ (r : HydraulicResult D). record r { event_next = event })
                  s.timeline.results;
          };
        }
        else s

    -- accumulatePumpEnergy and accumulateFlowBalance over an interval.
    pub add_interval : D → D → HydraulicState W D → HydraulicState W D
    add_interval hours seconds s =
        let (pumps, system) =
          accumulate_pump_energy network s.result hours (s.pump_energy, s.system_energy) in
        record s {
          pump_energy = pumps;
          system_energy = system;
          flow_balance = accumulate_flow_balance s.result seconds s.flow_balance;
        }

    pub accumulate : HydraulicState W D → HydraulicState W D
    accumulate s =
        if s.result_available && ltb_ℤ (pos 0) s.next_step_s
        then add_interval (ops.of_ℕ (pos_part s.next_step_s) ⊘ ops.of_ℕ 3600)
            (ops.of_ℕ (pos_part s.next_step_s)) s
        else if s.result_available && network.duration_s == 0
        then add_interval (ops.of_ℕ 1) (ops.of_ℕ 1) s
        else s

    -- if (next_step_s <= 0) break;
    pub stop_at_end : HydraulicState W D → Flow (HydraulicState W D)
    stop_at_end s = if not (ltb_ℤ (pos 0) s.next_step_s) then leave s else proceed s

    module _ ⦃ext : Externals⦄ where
      -- EN_runH with the cancellation test behind it.
      pub run_once : HydraulicState W D → Flow (HydraulicState W D)
      run_once s = let (error, s') = call_run s in check_cancelled s' >>= handle_run_error error

      -- The body of the loop.
      pub round : HydraulicState W D → Flow (HydraulicState W D)
      round s =
          check_cancelled s
          >>= run_once
          >>= check_time
          >>= (λ s. check_cancelled (read_result s))
          >>= advance
          >>= check_step
          >>= (λ s. check_cancelled (accumulate (store_event s)))
          >>= stop_at_end

      -- EN_closeH after the loop.
      pub close : HydraulicState W D → HydraulicState W D
      close s =
          let (error, w) = b.close_h s.project.native in
          let (status, s') =
            process (with_native s w) error StatusStage.close_hydraulics
              StatusOperation.close_hydraulics "EN_closeH" "Failed to close EPANET hydraulics" in
          if eqb_ℤ error (pos 0)
          then with_native s w
          else collect_hydraulic_failure s' status DiagnosticSeverity.error s'.current_time_s

      -- The sums of the run, stored in its last result.
      pub store_totals : HydraulicState W D → HydraulicState W D
      store_totals s =
          if not s.cancelled && not (is_empty s.timeline.results)
          then record s {
            timeline = record s.timeline {
              results =
                  update_last
                    (λ (r : HydraulicResult D). store_flow_balance s.flow_balance (
                      store_pump_energy_usage network b.default_usage s.pump_energy s.system_energy
                        r))
                    s.timeline.results;
            };
          }
          else s

      -- The status that `run` returns.
      pub outcome : HydraulicState W D → Status
      outcome s =
          if s.cancelled
          then make_epanet_success
          else if not s.first_failure.success
          then s.first_failure
          else make_epanet_success

      -- What follows the loop.
      pub finish : HydraulicState W D → Status × HydraulicState W D
      finish s = (outcome (store_totals (close s)), store_totals (close s))

      -- The loop, unless cancellation is asked for before it, and what follows it.
      pub solve : ℕ → HydraulicState W D → Option (Status × HydraulicState W D)
      solve fuel s =
          let (asked, s') = cancellation_requested s in
          if asked
          then some (finish (record s' { cancelled = true }))
          else Option.map finish (repeat round fuel s')

      -- EN_closeH after EN_initH has failed.
      pub close_after_failure : HydraulicState W D → HydraulicState W D
      close_after_failure s =
          let (error, w) = b.close_h s.project.native in
          let (status, s') =
            process (with_native s w) error StatusStage.close_hydraulics
              StatusOperation.close_hydraulics "EN_closeH"
              "Failed to close EPANET hydraulics after initialization failure" in
          if eqb_ℤ error (pos 0)
          then with_native s w
          else collect_hydraulic_failure s' status DiagnosticSeverity.error (negsuc 0)

      -- EN_initH, and then the loop.
      pub init : ℕ → HydraulicState W D → Option (Status × HydraulicState W D)
      init fuel s =
          let (error, w) = b.init_h s.project.native in
          let (status, s') =
            process (with_native s w) error StatusStage.run_hydraulics
              StatusOperation.initialize_hydraulics "EN_initH"
              "Failed to initialize EPANET hydraulics" in
          let failed =
            close_after_failure
              (collect_hydraulic_failure s' status DiagnosticSeverity.fatal (negsuc 0)) in
          if eqb_ℤ error (pos 0)
          then solve fuel (with_native s w)
          else if not status.success
          then some (failed.first_failure, failed)
          else solve fuel s'

      -- EN_openH, and then the rest.
      pub open_solver : ℕ → HydraulicState W D → Option (Status × HydraulicState W D)
      open_solver fuel s =
          let (error, w) = b.open_h s.project.native in
          let (status, s') =
            process (with_native s w) error StatusStage.run_hydraulics
              StatusOperation.open_hydraulics "EN_openH" "Failed to open EPANET hydraulics" in
          let failed = collect_hydraulic_failure s' status DiagnosticSeverity.fatal (negsuc 0) in
          if eqb_ℤ error (pos 0)
          then init fuel (with_native s w)
          else if not status.success
          then some (failed.first_failure, failed)
          else init fuel s'

      -- The function's variables at its start.
      abbrev pub start : Project W → HydraulicTimeline (HydraulicResult D) → HydraulicState W D
      start project timeline = record {
        project = project;
        timeline = timeline;
        first_failure = make_epanet_success;
        cancelled = false;
        current_time_s = pos 0;
        previous_time_s = negsuc 0;
        next_step_s = pos 0;
        pump_energy = map (λ _. new_pump_accumulator) network.links_pumps;
        system_energy = record { peak_power_kw = nought };
        flow_balance = new_flow_accumulator;
        result_available = true;
        result = b.default_result;
      }

      -- EpanetHydraulicSolver::run: the returned status, and the state with `timeline`, `cancelled`
      -- and the project. `none` means that the fuel of the loop ran out.
      unfoldable pub run :
          ℕ
          → Project W
          → HydraulicTimeline (HydraulicResult D)
          → Option (Status × HydraulicState W D)
      run fuel project timeline =
          let (asked, s) = cancellation_requested (start project timeline) in
          let (status, p) = b.configure_report s.project in
          let configured = record s { project = p } in
          let (asked_again, t) = cancellation_requested configured in
          if asked
          then some (make_epanet_success, record s { cancelled = true })
          else if not status.success
          then some (status, configured)
          else if asked_again
          then some (make_epanet_success, record t { cancelled = true })
          else open_solver fuel t
