-- ===== src/Quality/Failures.antt =====
-- What a successful quality run means: no failure was collected on the way.
use aowis_server_epanet.Base.{
  ℕ, suc, ◌<◌, String, ◌≡◌, refl, subst, ◌⊎◌, inl, inr, true, not, ◌&&◌, some, List, [], arith,
  ◌==◌, Bool-cases, Option-cases, ℤ, pos, negsuc, pos_part, ltb_ℤ, eqb_ℤ,
}
use aowis_server_epanet.Model.Enums.{StatusStage, StatusOperation, DiagnosticSeverity}
use aowis_server_epanet.Model.Status.{Status, Diagnostic, Externals}
use aowis_server_epanet.Model.Timelines.{QualityTimeline}
use aowis_server_epanet.Project.{Project}
use aowis_server_epanet.Loop.{repeat, OnFlow, OnSome, bind-OnFlow, repeat-OnSome}
use aowis_server_epanet.Hydraulics.Phases.{Phase}
use aowis_server_epanet.Quality.Stages.{QualityLaws}
use aowis_server_epanet.Quality.Outcome.{quality_run-ends}
use aowis_server_epanet.Quality.{
  QualityBackend, QualityState, QualityResult, with_native, collect_quality_failure, process,
  or_break, cancellation_requested, check_cancelled, run_once, check_time, read_result,
  finish_steady, check_steady, advance, check_left, round, close, conclude, solve,
  close_after_failure, init, open_solver, start, run,
}

module _ {W R : Type 0} ⦃ext : Externals⦄ (b : QualityBackend W R) (old : List Diagnostic) where
  -- As long as there is no first failure, the timeline's diagnostics are the old ones.
  abbrev Quiet : QualityState W R → Type 0
  Quiet s = s.first_failure.success ≡ true → s.timeline.diagnostics ≡ old

  collect-Quiet :
      (s : QualityState W R) (status : Status) (severity : DiagnosticSeverity) (at : ℤ)
      → Quiet s
      → Quiet (collect_quality_failure s status severity at)
  unfolding collect_quality_failure
  collect-Quiet s status severity at h = ground arith

  requested-Quiet : (s : QualityState W R) → Quiet s → Quiet (cancellation_requested b s).1
  unfolding cancellation_requested
  requested-Quiet s h = elim (Option-cases b.cancellation) [
    | inl e ↦ rw (e, cancellation_requested) h
    | inr (poll, e) ↦ rw (e, cancellation_requested) h
  ]

  check-Quiet : (s : QualityState W R) → Quiet s → OnFlow Quiet Quiet (check_cancelled b s)
  unfolding check_cancelled
  check-Quiet s h = elim (Bool-cases (cancellation_requested b s).0) [
    | inl e ↦ rw e (requested-Quiet s h)
    | inr e ↦ rw e (requested-Quiet s h)
  ]

  or_break-Quiet :
      (s : QualityState W R) (error : ℤ) (operation : StatusOperation) (call message : String)
      → Quiet s
      → OnFlow Quiet Quiet (or_break s error operation call message)
  or_break-Quiet s error operation call message h =
      let r = process s error StatusStage.run_quality operation call message in
      elim (Bool-cases (eqb_ℤ error (pos 0))) [
        | inl e ↦ rw e h
        | inr e ↦ rw e (elim (Bool-cases (not r.0.success)) [
          | inl f ↦ rw f (collect-Quiet r.1 r.0 DiagnosticSeverity.fatal r.1.current_time_s h)
          | inr f ↦ rw f h
        ])
      ]

  run-Quiet : (s : QualityState W R) → Quiet s → OnFlow Quiet Quiet (run_once b s)
  unfolding run_once
  run-Quiet s h =
      let r = b.run_q s.current_time_s s.project.native in
      let called : QualityState W R = record (with_native s r.2) { current_time_s = r.1 } in
      bind-OnFlow Quiet Quiet Quiet (check_cancelled b called) _ (check-Quiet called h) (λ t k.
        or_break-Quiet t r.0 StatusOperation.run_quality "EN_runQ"
          "EPANET water-quality analysis returned a diagnostic" k)

  time-Quiet : (s : QualityState W R) → Quiet s → OnFlow Quiet Quiet (check_time b s)
  unfolding check_time
  time-Quiet s h = elim (Bool-cases (ltb_ℤ s.current_time_s (pos 0))) [
    | inl e ↦ rw e (collect-Quiet s _ _ _ h)
    | inr e ↦
        rw e
          (elim (Bool-cases (
            not (ltb_ℤ s.previous_time_s (pos 0))
            && not (ltb_ℤ s.previous_time_s s.current_time_s))) [
              | inl f ↦ rw f (collect-Quiet s _ _ _ h)
              | inr f ↦ rw f h
            ])
  ]

  read-Quiet : (s : QualityState W R) → Quiet s → Quiet (read_result b s)
  unfolding read_result
  read-Quiet s h =
      let blank : QualityResult R = record b.default_result {
        time_elapsed_s = pos_part s.current_time_s;
      } in
      let got = b.read blank s.project in
      let s' : QualityState W R = record s { project = got.2 } in
      elim (Bool-cases (not got.0.success)) [
        | inl f ↦ rw f (collect-Quiet s' got.0 DiagnosticSeverity.error s.current_time_s h)
        | inr f ↦ rw f h
      ]

  steady-Quiet :
      (duration_s : ℕ) (s : QualityState W R)
      → Quiet s
      → OnFlow Quiet Quiet (check_steady b duration_s s)
  unfolding check_steady finish_steady
  steady-Quiet duration_s s h =
      let step = b.next_q (pos 0) s.project.native in
      let called : QualityState W R = with_native s step.2 in
      let r =
        process called step.0 StatusStage.run_quality StatusOperation.step_quality "EN_nextQ"
          "Failed to finalize steady-state EPANET water-quality analysis" in
      elim (Bool-cases (duration_s == 0)) [
        | inl e ↦ rw e (elim (Bool-cases (eqb_ℤ step.0 (pos 0))) [
          | inl f ↦ rw f h
          | inr f ↦ rw f (collect-Quiet r.1 r.0 DiagnosticSeverity.fatal r.1.current_time_s h)
        ])
        | inr e ↦ rw e h
      ]

  advance-Quiet : (s : QualityState W R) → Quiet s → OnFlow Quiet Quiet (advance b s)
  unfolding advance
  advance-Quiet s h =
      let r = b.step_q s.time_left_s s.project.native in
      or_break-Quiet (record (with_native s r.2) { time_left_s = r.1 }) r.0
        StatusOperation.step_quality "EN_stepQ" "Failed to advance EPANET water-quality timestep" h

  left-Quiet : (s : QualityState W R) → Quiet s → OnFlow Quiet Quiet (check_left b s)
  unfolding check_left
  left-Quiet s h = elim (Bool-cases (ltb_ℤ s.time_left_s (pos 0))) [
    | inl e ↦ rw e (collect-Quiet s _ _ _ h)
    | inr e ↦
        rw e (elim (Bool-cases (not (ltb_ℤ (pos 0) s.time_left_s))) [
          | inl f ↦ rw f h
          | inr f ↦ rw f h
        ])
  ]

  round-Quiet :
      (duration_s : ℕ) (s : QualityState W R) → Quiet s → OnFlow Quiet Quiet (round b duration_s s)
  unfolding round
  round-Quiet duration_s s h =
      bind-OnFlow Quiet Quiet Quiet _ _
        (bind-OnFlow Quiet Quiet Quiet _ _
          (bind-OnFlow Quiet Quiet Quiet _ _
            (bind-OnFlow Quiet Quiet Quiet _ _
              (bind-OnFlow Quiet Quiet Quiet _ _
                (bind-OnFlow Quiet Quiet Quiet _ _ (check-Quiet s h) run-Quiet) time-Quiet)
              (λ t k. check-Quiet (read_result b t) (read-Quiet t k)))
            (steady-Quiet duration_s))
          advance-Quiet)
        left-Quiet

  close-Quiet : (s : QualityState W R) → Quiet s → Quiet (close b s)
  unfolding close
  close-Quiet s h =
      let step = b.close_q s.project.native in
      let called : QualityState W R = with_native s step.1 in
      let r =
        process called step.0 StatusStage.close_quality StatusOperation.close_quality "EN_closeQ"
          "Failed to close EPANET water-quality analysis" in
      elim (Bool-cases (eqb_ℤ step.0 (pos 0))) [
        | inl e ↦ rw e h
        | inr e ↦ rw e (collect-Quiet r.1 r.0 DiagnosticSeverity.error s.current_time_s h)
      ]

  close_after_failure-Quiet : (s : QualityState W R) → Quiet s → Quiet (close_after_failure b s)
  unfolding close_after_failure
  close_after_failure-Quiet s h =
      let step = b.close_q s.project.native in
      let called : QualityState W R = with_native s step.1 in
      let r =
        process called step.0 StatusStage.close_quality StatusOperation.close_quality "EN_closeQ"
          "Failed to close EPANET water-quality analysis after initialization failure" in
      elim (Bool-cases (eqb_ℤ step.0 (pos 0))) [
        | inl e ↦ rw e h
        | inr e ↦ rw e (collect-Quiet r.1 r.0 DiagnosticSeverity.error (negsuc 0) h)
      ]

  -- A successful status that does not stand for a cancelled run stands for one without failures.
  abbrev pub Accounted : Status × QualityState W R → Type 0
  Accounted r = r.0.success ≡ true → (r.1.cancelled ≡ true) ⊎ (r.1.timeline.diagnostics ≡ old)

  conclude-Accounted : (s : QualityState W R) → Quiet s → Accounted (conclude b s)
  unfolding conclude
  conclude-Accounted s h = elim (Bool-cases s.cancelled) [
    | inl e ↦ (λ k. inl e)
    | inr e ↦ rw e (elim (Bool-cases s.first_failure.success) [
      | inl f ↦ (λ k. inr (h f))
      | inr f ↦ rw f (λ k. cc)
    ])
  ]

  solve-Accounted :
      (duration_s fuel : ℕ) (s : QualityState W R)
      → Quiet s
      → OnSome Accounted (solve b duration_s fuel s)
  unfolding solve
  solve-Accounted duration_s fuel s h = elim (Option-cases (repeat (round b duration_s) fuel s)) [
    | inl f ↦ rw f tt
    | inr (t, f) ↦ rw f (
        conclude-Accounted (close b t) (
          close-Quiet t (
            subst (OnSome Quiet) f
              (repeat-OnSome Quiet Quiet (round b duration_s) (round-Quiet duration_s) fuel s h))))
  ]

  init-Accounted :
      (duration_s fuel : ℕ) (s : QualityState W R)
      → Quiet s
      → OnSome Accounted (init b duration_s fuel s)
  unfolding init
  init-Accounted duration_s fuel s h =
      let (error, w) = b.init_q s.project.native in
      let called : QualityState W R = with_native s w in
      let r =
        process called error StatusStage.run_quality StatusOperation.initialize_quality "EN_initQ"
          "Failed to initialize EPANET water-quality analysis" in
      let failed = collect_quality_failure r.1 r.0 DiagnosticSeverity.fatal (negsuc 0) in
      elim (Bool-cases (eqb_ℤ error (pos 0))) [
        | inl e ↦ rw e (solve-Accounted duration_s fuel called h)
        | inr e ↦ rw e (elim (Bool-cases (not r.0.success)) [
          | inl f ↦ rw f (λ k. inr (
              close_after_failure-Quiet failed
                (collect-Quiet r.1 r.0 DiagnosticSeverity.fatal (negsuc 0) h) k))
          | inr f ↦ rw f (solve-Accounted duration_s fuel r.1 h)
        ])
      ]

  open-Accounted :
      (duration_s fuel : ℕ) (s : QualityState W R)
      → Quiet s
      → OnSome Accounted (open_solver b duration_s fuel s)
  unfolding open_solver
  open-Accounted duration_s fuel s h =
      let (error, w) = b.open_q s.project.native in
      let called : QualityState W R = with_native s w in
      let r =
        process called error StatusStage.run_quality StatusOperation.open_quality "EN_openQ"
          "Failed to open EPANET water-quality analysis" in
      elim (Bool-cases (eqb_ℤ error (pos 0))) [
        | inl e ↦ rw e (init-Accounted duration_s fuel called h)
        | inr e ↦ rw e (elim (Bool-cases (not r.0.success)) [
          | inl f ↦ rw f (λ k. inr (collect-Quiet r.1 r.0 DiagnosticSeverity.fatal (negsuc 0) h k))
          | inr f ↦ rw f (init-Accounted duration_s fuel r.1 h)
        ])
      ]

run-Accounted :
    {W R : Type 0}
    → ⦃ext : Externals⦄
    → (b : QualityBackend W R) (duration_s fuel : ℕ) (project : Project W)
      (timeline : QualityTimeline (QualityResult R))
    → OnSome (Accounted b timeline.diagnostics) (run b duration_s fuel project timeline)
unfolding run
run-Accounted b duration_s fuel project timeline =
    let s = start b project timeline in
    let quiet = requested-Quiet b timeline.diagnostics s (λ k. refl) in
    elim (Bool-cases (cancellation_requested b s).0) [
      | inl e ↦ rw e (λ k. inl refl)
      | inr e ↦ rw e (
          open-Accounted b timeline.diagnostics duration_s fuel (cancellation_requested b s).1
            quiet)
    ]

-- With a Toolkit that keeps the laws and fuel for more than `last + 1` rounds, a quality run that
-- starts with quality closed and no results returns, and when it returns success without being
-- cancelled, it has added no failure to the timeline's diagnostics.
pub quality_run-Accounted :
    {W R : Type 0}
    → ⦃ext : Externals⦄ → {b : QualityBackend W R} {phase : W → Phase} {last : ℕ}
    → QualityLaws b phase last
    → (duration_s fuel : ℕ) (project : Project W) (timeline : QualityTimeline (QualityResult R))
    → suc last < fuel
    → phase project.native ≡ Phase.closed
    → timeline.results ≡ []
    → (r : Status × QualityState W R) × (run b duration_s fuel project timeline ≡ some r)
      × (r.0.success ≡ true
          → (r.1.cancelled ≡ true) ⊎ (r.1.timeline.diagnostics ≡ timeline.diagnostics))
quality_run-Accounted {b = b} law duration_s fuel project timeline enough closed none_yet =
    let ended = quality_run-ends law duration_s fuel project timeline enough closed none_yet in
    (
      ended.0,
      ended.1,
      subst (OnSome (Accounted b timeline.diagnostics)) ended.1
          (run-Accounted b duration_s fuel project timeline),
    )
