-- ===== src/Quality.antt =====
-- src/lib/internal/epanet_quality_solver.cpp: one water-quality run, from EN_openQ to EN_closeQ.
-- The state is what the function and the objects that it refers to hold; failures go to the
-- timeline, warnings of the Toolkit to the project.
pub mod Stages
pub mod Rounds
pub mod Outcome
pub mod Failures
use Prim.Native.String.{◌++◌ as append}
use mathlib.Core.Option
use aowis_server_epanet.Base.{
  ℕ, zero, suc, ◌+◌, ◌-◌, ◌*◌, ◌/◌, ◌%◌, ◌^◌, ◌≤◌, ◌<◌, min, max, String, ◌≡◌, refl, sym, ap, ◌∙◌,
  subst, ◌≢◌, ◌↔◌, ◌⊎◌, inl, inr, Bool, true, false, not, ◌&&◌, ◌||◌, Option, none, some, List, [],
  ◌∷◌, ◌++◌, map, append_assoc, append-nil, arith, eq_iff, ltb, leb, ◌==◌, str_eq, if◌then◌else◌,
  ==_iff, Bool-cases, Option-cases, decided, same, decided_iff, same_iff, length, take, drop,
  length-append, All, All-append, get_elem?, is_empty, update_last, any, any-append, ℤ, pos, negsuc,
  pos_part, neg_part, ltb_ℤ, eqb_ℤ,
}
use aowis_server_epanet.Model.Enums.{
  StatusStage, StatusOperation, StatusEntityType, DiagnosticSeverity,
}
use aowis_server_epanet.Model.Status.{null_uuid, Status, Externals}
use aowis_server_epanet.Model.Timelines.{QualityTimeline}
use aowis_server_epanet.Project.{Project}
use aowis_server_epanet.StatusHelpers.{
  make_epanet_status, make_epanet_success, process_epanet_return_code,
}
use aowis_server_epanet.Diagnostics.{epanet_diagnostic_from_status_as}
use aowis_server_epanet.Loop.{Flow, proceed, leave, ◌>>=◌, repeat}

-- `WaterQualitySimulationResult`: what the solver writes; the rest is the reader's.
pub record QualityResult (R : Type 0) : Type 0 where
  pub time_elapsed_s : ℕ
  pub status : Status
  pub values : R

-- The Toolkit's functions, each with its return code and the native state after it, and the
-- collaborators of the adapter.
pub record QualityBackend (W R : Type 0) : Type 0 where
  pub open_q : W → ℤ × W
  -- EN_initQ with EN_SAVE
  pub init_q : W → ℤ × W
  -- EN_runQ, EN_nextQ and EN_stepQ are given the variable that they may write, and return its value.
  pub run_q : ℤ → W → ℤ × ℤ × W
  pub next_q : ℤ → W → ℤ × ℤ × W
  pub step_q : ℤ → W → ℤ × ℤ × W
  pub close_q : W → ℤ × W
  -- The cancellation function, if there is one.
  pub cancellation : Option (W → Bool × W)
  -- EpanetQualityResultReader::read, which fills a result
  pub read : QualityResult R → Project W → Status × QualityResult R × Project W
  -- A default-constructed result.
  pub default_result : QualityResult R

pub record QualityState (W R : Type 0) : Type 0 where
  pub project : Project W
  pub timeline : QualityTimeline (QualityResult R)
  pub first_failure : Status
  pub cancelled : Bool
  pub current_time_s : ℤ
  pub previous_time_s : ℤ
  pub time_left_s : ℤ

module _ ⦃ext : Externals⦄ where
  abbrev pub solver_status : StatusOperation → String → Status
  solver_status operation message =
      make_epanet_status StatusStage.run_quality operation StatusEntityType.quality_solver ""
        null_uuid message

  abbrev pub second_detail : String → ℤ → String
  second_detail label time = append label (append (ext.number_text time) " s")

module _ {W R : Type 0} where
  -- The native call's effect on the project.
  abbrev pub with_native : QualityState W R → W → QualityState W R
  with_native s w = record s { project = record s.project { native = w } }

  module _ ⦃ext : Externals⦄ where
    -- collectQualityFailure; a negative `simulation_time_s` adds no detail.
    unfoldable pub collect_quality_failure :
        QualityState W R → Status → DiagnosticSeverity → ℤ → QualityState W R
    collect_quality_failure s status severity simulation_time_s =
        let timed =
          if not (ltb_ℤ simulation_time_s (pos 0))
          then record status {
            details = status.details ++ second_detail "Simulation time: " simulation_time_s ∷ [];
          }
          else status in
        if status.success then s else record s {
          timeline = record s.timeline {
            diagnostics =
                s.timeline.diagnostics ++ epanet_diagnostic_from_status_as timed severity ∷ [];
          };
          first_failure = if s.first_failure.success then timed else s.first_failure;
        }

    -- processEpanetReturnCode for a call of the quality solver.
    abbrev pub process :
        QualityState W R
        → ℤ
        → StatusStage
        → StatusOperation
        → String
        → String
        → Status × QualityState W R
    process s error stage operation call message =
        let (status, project) =
          process_epanet_return_code s.project error stage operation call
            StatusEntityType.quality_solver "" null_uuid message in
        (status, record s { project = project })

    -- The shape of most calls: nothing for 0, otherwise the return code is processed, and a failure
    -- is collected and breaks.
    abbrev pub or_break :
        QualityState W R → ℤ → StatusOperation → String → String → Flow (QualityState W R)
    or_break s error operation call message =
        let (status, s') = process s error StatusStage.run_quality operation call message in
        if eqb_ℤ error (pos 0)
        then proceed s
        else if not status.success
        then leave (collect_quality_failure s' status DiagnosticSeverity.fatal s'.current_time_s)
        else proceed s'

  module _ (b : QualityBackend W R) where
    -- cancellationRequested
    unfoldable pub cancellation_requested : QualityState W R → Bool × QualityState W R
    cancellation_requested s = elim b.cancellation [
      | none ↦ (false, s)
      | some poll ↦ (let (asked, w) = poll s.project.native in (asked, with_native s w))
    ]

    -- if (cancellationRequested(…)) { cancelled = true; break; }
    pub check_cancelled : QualityState W R → Flow (QualityState W R)
    check_cancelled s =
        let (asked, s') = cancellation_requested s in
        if asked then leave (record s' { cancelled = true }) else proceed s'

    module _ ⦃ext : Externals⦄ where
      -- EN_runQ, the cancellation test behind it, and what a return code other than 0 leads to.
      pub run_once : QualityState W R → Flow (QualityState W R)
      run_once s =
          let (error, time, w) = b.run_q s.current_time_s s.project.native in
          check_cancelled (record (with_native s w) { current_time_s = time }) >>= (λ t.
            or_break t error StatusOperation.run_quality "EN_runQ"
              "EPANET water-quality analysis returned a diagnostic")

      -- The two tests of the time, and `previous_time_s = current_time_s`.
      pub check_time : QualityState W R → Flow (QualityState W R)
      check_time s =
          let stuck =
            record (solver_status StatusOperation.run_quality
              "EPANET water-quality simulation time did not advance") {
                details =
                    ext.default_status.details
                    ++ second_detail "Previous simulation time: " s.previous_time_s
                      ∷ second_detail "Current simulation time: " s.current_time_s
                      ∷ [];
              } in
          if ltb_ℤ s.current_time_s (pos 0)
          then leave (
              collect_quality_failure s
                (solver_status StatusOperation.run_quality
                  "EPANET returned a negative water-quality simulation time")
                DiagnosticSeverity.fatal (negsuc 0))
          else if not (ltb_ℤ s.previous_time_s (pos 0))
              && not (ltb_ℤ s.previous_time_s s.current_time_s)
          then leave (collect_quality_failure s stuck DiagnosticSeverity.fatal (negsuc 0))
          else proceed (record s { previous_time_s = s.current_time_s })

      -- The new result, appended when it could be read.
      pub read_result : QualityState W R → QualityState W R
      read_result s =
          let blank = record b.default_result { time_elapsed_s = pos_part s.current_time_s } in
          let (status, result, project) = b.read blank s.project in
          let s' = record s { project = project } in
          if not status.success
          then collect_quality_failure s' status DiagnosticSeverity.error s.current_time_s
          else record s' {
            timeline = record s.timeline {
              results = s.timeline.results ++ record result { status = make_epanet_success } ∷ [];
            };
          }

      -- EN_nextQ of a steady state, behind which the loop is left.
      pub finish_steady : QualityState W R → QualityState W R
      finish_steady s =
          let (error, step, w) = b.next_q (pos 0) s.project.native in
          let (status, s') =
            process (with_native s w) error StatusStage.run_quality StatusOperation.step_quality
              "EN_nextQ" "Failed to finalize steady-state EPANET water-quality analysis" in
          if eqb_ℤ error (pos 0)
          then with_native s w
          else collect_quality_failure s' status DiagnosticSeverity.fatal s'.current_time_s

      pub check_steady : ℕ → QualityState W R → Flow (QualityState W R)
      check_steady duration_s s = if duration_s == 0 then leave (finish_steady s) else proceed s

      -- EN_stepQ.
      pub advance : QualityState W R → Flow (QualityState W R)
      advance s =
          let (error, left, w) = b.step_q s.time_left_s s.project.native in
          or_break (record (with_native s w) { time_left_s = left }) error
            StatusOperation.step_quality "EN_stepQ"
            "Failed to advance EPANET water-quality timestep"

      -- The tests of the time that is left.
      pub check_left : QualityState W R → Flow (QualityState W R)
      check_left s =
          let negative =
            record (solver_status StatusOperation.step_quality
              "EPANET returned a negative remaining water-quality simulation time") {
                details =
                    ext.default_status.details ++ second_detail "Time left: " s.time_left_s ∷ [];
              } in
          if ltb_ℤ s.time_left_s (pos 0)
          then leave (collect_quality_failure s negative DiagnosticSeverity.fatal s.current_time_s)
          else if not (ltb_ℤ (pos 0) s.time_left_s)
          then leave s
          else proceed s

      -- The body of the loop.
      pub round : ℕ → QualityState W R → Flow (QualityState W R)
      round duration_s s =
          check_cancelled s
          >>= run_once
          >>= check_time
          >>= (λ t. check_cancelled (read_result t))
          >>= check_steady duration_s
          >>= advance
          >>= check_left

      -- EN_closeQ after the loop.
      pub close : QualityState W R → QualityState W R
      close s =
          let (error, w) = b.close_q s.project.native in
          let (status, s') =
            process (with_native s w) error StatusStage.close_quality StatusOperation.close_quality
              "EN_closeQ" "Failed to close EPANET water-quality analysis" in
          if eqb_ℤ error (pos 0)
          then with_native s w
          else collect_quality_failure s' status DiagnosticSeverity.error s'.current_time_s

      -- `timeline.status = …; return timeline.status;`
      pub conclude : QualityState W R → Status × QualityState W R
      conclude s =
          let status =
            if s.cancelled
            then make_epanet_success
            else if s.first_failure.success
            then make_epanet_success
            else s.first_failure in
          (status, record s { timeline = record s.timeline { status = status } })

      -- The loop and what follows it.
      pub solve : ℕ → ℕ → QualityState W R → Option (Status × QualityState W R)
      solve duration_s fuel s =
          Option.map (λ t. conclude (close t)) (repeat (round duration_s) fuel s)

      -- `timeline.status = first_failure; return first_failure;`
      abbrev pub give_up : QualityState W R → Status × QualityState W R
      give_up s =
          (s.first_failure, record s { timeline = record s.timeline { status = s.first_failure } })

      -- EN_closeQ after EN_initQ has failed.
      pub close_after_failure : QualityState W R → QualityState W R
      close_after_failure s =
          let (error, w) = b.close_q s.project.native in
          let (status, s') =
            process (with_native s w) error StatusStage.close_quality StatusOperation.close_quality
              "EN_closeQ"
              "Failed to close EPANET water-quality analysis after initialization failure" in
          if eqb_ℤ error (pos 0)
          then with_native s w
          else collect_quality_failure s' status DiagnosticSeverity.error (negsuc 0)

      -- EN_initQ, and then the loop.
      pub init : ℕ → ℕ → QualityState W R → Option (Status × QualityState W R)
      init duration_s fuel s =
          let (error, w) = b.init_q s.project.native in
          let (status, s') =
            process (with_native s w) error StatusStage.run_quality
              StatusOperation.initialize_quality "EN_initQ"
              "Failed to initialize EPANET water-quality analysis" in
          if eqb_ℤ error (pos 0)
          then solve duration_s fuel (with_native s w)
          else if not status.success
          then some (
              give_up (
                close_after_failure
                  (collect_quality_failure s' status DiagnosticSeverity.fatal (negsuc 0))))
          else solve duration_s fuel s'

      -- EN_openQ, and then the rest.
      pub open_solver : ℕ → ℕ → QualityState W R → Option (Status × QualityState W R)
      open_solver duration_s fuel s =
          let (error, w) = b.open_q s.project.native in
          let (status, s') =
            process (with_native s w) error StatusStage.run_quality StatusOperation.open_quality
              "EN_openQ" "Failed to open EPANET water-quality analysis" in
          if eqb_ℤ error (pos 0)
          then init duration_s fuel (with_native s w)
          else if not status.success
          then some
              (give_up (collect_quality_failure s' status DiagnosticSeverity.fatal (negsuc 0)))
          else init duration_s fuel s'

      -- The function's variables at its start.
      abbrev pub start : Project W → QualityTimeline (QualityResult R) → QualityState W R
      start project timeline = record {
        project = project;
        timeline = timeline;
        first_failure = make_epanet_success;
        cancelled = false;
        current_time_s = pos 0;
        previous_time_s = negsuc 0;
        time_left_s = pos 0;
      }

      -- EpanetQualitySolver::run for a network of `duration_s`: the returned status, and the state
      -- with `timeline`, `cancelled` and the project. `none` means that the loop's fuel ran out.
      unfoldable pub run :
          ℕ → ℕ → Project W → QualityTimeline (QualityResult R) → Option (Status × QualityState W R)
      run duration_s fuel project timeline =
          let (asked, s) = cancellation_requested (start project timeline) in
          if asked
          then some (make_epanet_success, record s { cancelled = true })
          else open_solver duration_s fuel s
