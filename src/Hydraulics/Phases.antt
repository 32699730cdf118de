-- ===== src/Hydraulics/Phases.antt =====
-- The order of the solver's calls of the Toolkit: hydraulics are opened, used and closed.
use aowis_server_epanet.Base.{
  ℕ, ◌≡◌, refl, ap, ◌∙◌, subst, inl, inr, Bool, true, false, not, some, arith, Bool-cases,
  Option-cases, ℤ, pos, negsuc, eqb_ℤ,
}
use aowis_server_epanet.Model.Enums.{
  StatusStage, StatusOperation, StatusEntityType, DiagnosticSeverity,
}
use aowis_server_epanet.Model.Status.{Externals, null_uuid}
use aowis_server_epanet.Model.Timelines.{HydraulicTimeline}
use aowis_server_epanet.Model.Doubles.{Doubles}
use aowis_server_epanet.Model.Network.{Network}
use aowis_server_epanet.Model.Results.{HydraulicResult}
use aowis_server_epanet.Project.{Project}
use aowis_server_epanet.StatusHelpers.{is_epanet_error_code}
use aowis_server_epanet.StatusHelpers.Codes.{zero_code, process-success}
use aowis_server_epanet.Loop.{repeat, OnFlow, OnSome, bind-OnFlow, OnFlow-map}
use aowis_server_epanet.Hydraulics.{
  process, with_native, HydraulicBackend, HydraulicState, collect_hydraulic_failure,
  cancellation_requested, check_cancelled, call_run, handle_run_error, run_once, check_time,
  read_result, call_next, handle_next_error, advance, check_step, accumulate, store_event,
  stop_at_end, round, close, finish, solve, close_after_failure, init, open_solver, run, start,
}
use aowis_server_epanet.Hydraulics.Frame.{
  report-Same, close-Same, close_after_failure-Same, store_totals-Same, Same, collect-Same,
  process-Same, handle_run_error-Same, handle_next_error-Same, accumulate-Same, store_event-Same,
  check_step-Same,
}
use aowis_server_epanet.Hydraulics.Rules.{RoundKeeps, loop-OnSome}

pub data Phase : Type 0 where
  closed opened : Phase

-- The documented protocol of the Toolkit's hydraulic solver, told by the phase of a native state:
-- EN_openH opens a closed solver unless it fails, the calls between need an open one and leave it
-- open, and EN_closeH closes an open one. Nothing is said of calls in the wrong phase. The
-- cancellation function and the adapter's own collaborators do not change the phase.
pub record Protocol {W D : Type 0} (b : HydraulicBackend W D) (phase : W → Phase) : Type 0 where
  pub open_accepted :
      (w : W)
      → phase w ≡ Phase.closed
      → is_epanet_error_code (b.open_h w).0 ≡ false
      → phase (b.open_h w).1 ≡ Phase.opened
  pub open_failed :
      (w : W)
      → phase w ≡ Phase.closed
      → is_epanet_error_code (b.open_h w).0 ≡ true
      → phase (b.open_h w).1 ≡ Phase.closed
  pub init_keeps : (w : W) → phase w ≡ Phase.opened → phase (b.init_h w).1 ≡ Phase.opened
  pub run_keeps : (t : ℤ) (w : W) → phase w ≡ Phase.opened → phase (b.run_h t w).2 ≡ Phase.opened
  pub next_keeps : (t : ℤ) (w : W) → phase w ≡ Phase.opened → phase (b.next_h t w).2 ≡ Phase.opened
  pub close_closes : (w : W) → phase w ≡ Phase.opened → phase (b.close_h w).1 ≡ Phase.closed
  pub poll_keeps :
      (poll : W → Bool × W) (w : W) → b.cancellation ≡ some poll → phase (poll w).1 ≡ phase w
  pub report_keeps : (p : Project W) → phase (b.configure_report p).1.native ≡ phase p.native
  pub read_keeps :
      (r : HydraulicResult D) (p : Project W) → phase (b.read r p).2.native ≡ phase p.native

module _ {W D : Type 0} ⦃ops : Doubles D⦄ {b : HydraulicBackend W D} (network : Network D)
    ⦃ext : Externals⦄ {phase : W → Phase} (law : Protocol b phase) where
  abbrev IsOpen : HydraulicState W D → Type 0
  IsOpen s = phase s.project.native ≡ Phase.opened

  requested-phase :
      (s : HydraulicState W D)
      → phase (cancellation_requested b network s).1.project.native ≡ phase s.project.native
  unfolding cancellation_requested
  requested-phase s = elim (Option-cases b.cancellation) [
    | inl e ↦ rw (e, cancellation_requested) refl
    | inr (poll, e) ↦ rw (e, cancellation_requested) (law.poll_keeps poll s.project.native e)
  ]

  check-IsOpen :
      (s : HydraulicState W D) → IsOpen s → OnFlow IsOpen IsOpen (check_cancelled b network s)
  unfolding check_cancelled
  check-IsOpen s h = ground (arith, requested-phase s)

  run-IsOpen : (s : HydraulicState W D) → IsOpen s → OnFlow IsOpen IsOpen (run_once b network s)
  unfolding run_once call_run
  run-IsOpen s h =
      let (error, time, w) = b.run_h s.current_time_s s.project.native in
      let called : HydraulicState W D = (call_run b network s).1 in
      bind-OnFlow IsOpen IsOpen IsOpen (check_cancelled b network called)
        (handle_run_error b network error)
        (check-IsOpen called (law.run_keeps s.current_time_s s.project.native h))
        (λ t k.
          OnFlow-map (Same t) IsOpen (handle_run_error b network error t)
            (handle_run_error-Same b network error t) (λ u e. ap phase (e.0) ∙ k))

  time-IsOpen : (s : HydraulicState W D) → IsOpen s → OnFlow IsOpen IsOpen (check_time b network s)
  unfolding check_time
  time-IsOpen s h = grind (arith, collect-Same)

  read-IsOpen : (s : HydraulicState W D) → IsOpen s → IsOpen (read_result b network s)
  unfolding read_result
  read-IsOpen s h = grind (arith, collect-Same, law.read_keeps)

  advance-IsOpen : (s : HydraulicState W D) → IsOpen s → OnFlow IsOpen IsOpen (advance b network s)
  unfolding advance call_next
  advance-IsOpen s h =
      let (error, step, w) = b.next_h s.next_step_s s.project.native in
      let called : HydraulicState W D = (call_next b network s).1 in
      OnFlow-map (Same called) IsOpen (handle_next_error b network error called)
        (handle_next_error-Same b network error called)
        (λ u e. ap phase (e.0) ∙ law.next_keeps s.next_step_s s.project.native h)

  step-IsOpen : (s : HydraulicState W D) → IsOpen s → OnFlow IsOpen IsOpen (check_step b network s)
  step-IsOpen s h =
      OnFlow-map (Same s) IsOpen (check_step b network s) (check_step-Same b network s)
        (λ u e. ap phase (e.0) ∙ h)

  sums-native :
      (s : HydraulicState W D)
      → (accumulate b network (store_event b network s)).project.native ≡ s.project.native
  sums-native s =
      (accumulate-Same b network (store_event b network s)).0.0
      ∙ ap (λ (p : Project W). p.native) (store_event-Same b network s).0

  end-IsOpen : (s : HydraulicState W D) → IsOpen s → OnFlow IsOpen IsOpen (stop_at_end b network s)
  unfolding stop_at_end
  end-IsOpen s h = ground arith

  IsOpen-RoundKeeps : RoundKeeps b network IsOpen IsOpen IsOpen IsOpen IsOpen IsOpen
  IsOpen-RoundKeeps = record {
    at_check = check-IsOpen;
    at_run = run-IsOpen;
    at_time = time-IsOpen;
    at_read = λ s h. check-IsOpen _ (read-IsOpen s h);
    at_advance = advance-IsOpen;
    at_step = step-IsOpen;
    at_sums = λ s h. check-IsOpen _ (ap phase (sums-native s) ∙ h);
    at_end = end-IsOpen;
  }

  abbrev IsClosed : HydraulicState W D → Type 0
  IsClosed s = phase s.project.native ≡ Phase.closed

  close-IsClosed : (s : HydraulicState W D) → IsOpen s → IsClosed (close b network s)
  close-IsClosed s h = ap phase (close-Same b network s).0 ∙ law.close_closes s.project.native h

  close_after_failure-IsClosed :
      (s : HydraulicState W D) → IsOpen s → IsClosed (close_after_failure b network s)
  close_after_failure-IsClosed s h =
      ap phase (close_after_failure-Same b network s).0 ∙ law.close_closes s.project.native h

  finish-IsClosed : (s : HydraulicState W D) → IsOpen s → IsClosed (finish b network s).1
  unfolding finish
  finish-IsClosed s h =
      ap (λ (p : Project W). phase p.native) (store_totals-Same b network (close b network s)).0
      ∙ close-IsClosed s h

  solve-IsClosed :
      (fuel : ℕ) (s : HydraulicState W D)
      → IsOpen s
      → OnSome (λ r. IsClosed r.1) (solve b network fuel s)
  unfolding solve
  solve-IsClosed fuel s h = elim (Bool-cases (cancellation_requested b network s).0) [
    | inl e ↦ rw e (finish-IsClosed _ (requested-phase s ∙ h))
    | inr e ↦
        rw e
          (elim (Option-cases
            (repeat (round b network) fuel (cancellation_requested b network s).1)) [
              | inl f ↦ rw f tt
              | inr (t, f) ↦ rw f (
                  finish-IsClosed t (
                    subst (λ r. OnSome IsOpen r) f
                      (loop-OnSome b network IsOpen-RoundKeeps fuel _ (requested-phase s ∙ h))))
            ])
  ]

  init-IsClosed :
      (fuel : ℕ) (s : HydraulicState W D)
      → IsOpen s
      → OnSome (λ r. IsClosed r.1) (init b network fuel s)
  unfolding init
  init-IsClosed fuel s h =
      let (error, w) = b.init_h s.project.native in
      let called : HydraulicState W D = with_native s w in
      let (status, s') =
        process called error StatusStage.run_hydraulics StatusOperation.initialize_hydraulics
          "EN_initH" "Failed to initialize EPANET hydraulics" in
      let still_open : phase w ≡ Phase.opened = law.init_keeps s.project.native h in
      elim (Bool-cases (eqb_ℤ error (pos 0))) [
        | inl e ↦ rw e (solve-IsClosed fuel called still_open)
        | inr e ↦ rw e (elim (Bool-cases (not status.success)) [
          | inl f ↦ rw f (
              close_after_failure-IsClosed
                (collect_hydraulic_failure s' status DiagnosticSeverity.fatal (negsuc 0))
                (ap phase
                    (report-Same called error StatusStage.run_hydraulics
                      StatusOperation.initialize_hydraulics "EN_initH"
                      "Failed to initialize EPANET hydraulics" DiagnosticSeverity.fatal
                      (negsuc 0)).0
                  ∙ still_open))
          | inr f ↦ rw f (
              solve-IsClosed fuel s' (
                ap phase
                  (process-Same called error StatusStage.run_hydraulics
                    StatusOperation.initialize_hydraulics "EN_initH"
                    "Failed to initialize EPANET hydraulics").0
                ∙ still_open))
        ])
      ]

  open-IsClosed :
      (fuel : ℕ) (s : HydraulicState W D)
      → IsClosed s
      → OnSome (λ r. IsClosed r.1) (open_solver b network fuel s)
  unfolding open_solver
  open-IsClosed fuel s h =
      let (error, w) = b.open_h s.project.native in
      let called : HydraulicState W D = with_native s w in
      let (status, s') =
        process called error StatusStage.run_hydraulics StatusOperation.open_hydraulics "EN_openH"
          "Failed to open EPANET hydraulics" in
      let ok =
        process-success called.project error StatusStage.run_hydraulics
          StatusOperation.open_hydraulics "EN_openH" StatusEntityType.hydraulic_solver "" null_uuid
          "Failed to open EPANET hydraulics" in
      elim (Bool-cases (eqb_ℤ error (pos 0))) [
        | inl e ↦
            rw e
              (init-IsClosed fuel called (law.open_accepted s.project.native h (zero_code error e)))
        | inr e ↦ rw e (elim (Bool-cases (not status.success)) [
          | inl f ↦ rw f (
              ap phase
                (report-Same called error StatusStage.run_hydraulics StatusOperation.open_hydraulics
                  "EN_openH" "Failed to open EPANET hydraulics" DiagnosticSeverity.fatal
                  (negsuc 0)).0
              ∙ law.open_failed s.project.native h (ground (arith, ok)))
          | inr f ↦ rw f (
              init-IsClosed fuel s' (
                ap phase
                  (process-Same called error StatusStage.run_hydraulics
                    StatusOperation.open_hydraulics "EN_openH" "Failed to open EPANET hydraulics").0
                ∙ law.open_accepted s.project.native h (ground (arith, ok))))
        ])
      ]

  pub run-IsClosed :
      (fuel : ℕ) (project : Project W) (timeline : HydraulicTimeline (HydraulicResult D))
      → phase project.native ≡ Phase.closed
      → OnSome (λ r. IsClosed r.1) (run b network fuel project timeline)
  unfolding run
  run-IsClosed fuel project timeline h =
      let s : HydraulicState W D = start b network project timeline in
      let asked = cancellation_requested b network s in
      let configured : HydraulicState W D = record asked.1 {
        project = (b.configure_report asked.1.project).1;
      } in
      let again = cancellation_requested b network configured in
      let before : IsClosed asked.1 = requested-phase s ∙ h in
      let after : IsClosed again.1 =
        requested-phase configured ∙ law.report_keeps asked.1.project ∙ before in
      elim (Bool-cases asked.0) [
        | inl e ↦ rw e before
        | inr e ↦ rw e (elim (Bool-cases (not (b.configure_report asked.1.project).0.success)) [
          | inl f ↦ rw f (law.report_keeps asked.1.project ∙ before)
          | inr f ↦ rw f (elim (Bool-cases again.0) [
            | inl g ↦ rw g after
            | inr g ↦ rw g (open-IsClosed fuel again.1 after)
          ])
        ])
      ]
