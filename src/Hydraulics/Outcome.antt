-- ===== src/Hydraulics/Outcome.antt =====
-- The whole run: it returns, its results are in order, and hydraulics are closed behind it.
use aowis_server_epanet.Base.{
  ℕ, suc, ◌<◌, String, ◌≡◌, refl, sym, ap, ◌∙◌, subst, inl, inr, not, Option, some, List, [], map,
  arith, Bool-cases, ℤ, pos, negsuc, eqb_ℤ,
}
use aowis_server_epanet.Model.Enums.{StatusStage, StatusOperation, DiagnosticSeverity}
use aowis_server_epanet.Model.Status.{Status, Externals}
use aowis_server_epanet.Model.Timelines.{HydraulicTimeline}
use aowis_server_epanet.Model.Doubles.{Doubles}
use aowis_server_epanet.Model.Network.{Network}
use aowis_server_epanet.Model.Results.{HydraulicResult}
use aowis_server_epanet.Project.{Project}
use aowis_server_epanet.Loop.{OnSome}
use aowis_server_epanet.Hydraulics.{
  HydraulicBackend, HydraulicState, collect_hydraulic_failure, cancellation_requested, close,
  finish, solve, close_after_failure, init, open_solver, run, start, process, with_native,
}
use aowis_server_epanet.Hydraulics.Frame.{
  report-Same, close-Same, close_after_failure-Same, store_totals-Same, process-Same, time,
}
use aowis_server_epanet.Hydraulics.Ends.{
  Clock, Seen, seen, SameSeen, InTime, Done, Same-seen, requested-seen, loop-ends,
}
use aowis_server_epanet.Hydraulics.Phases.{Phase, Protocol, run-IsClosed}
use aowis_server_epanet.Hydraulics.Times.{Rising, AllBelow, visited}

module _ {W D : Type 0} ⦃ops : Doubles D⦄ {b : HydraulicBackend W D} (network : Network D)
    ⦃ext : Externals⦄ {last : ℕ} (law : Clock b last) where
  -- Before the loop of a run whose timeline starts without results.
  abbrev Fresh : HydraulicState W D → Type 0
  Fresh s = seen network law s ≡ (pos 0, negsuc 0, [])

  abbrev Returns : Option (Status × HydraulicState W D) → Type 0
  Returns m =
      (r : Status × HydraulicState W D) × (m ≡ some r) × Done network law (seen network law r.1)

  Fresh-Done : (s : HydraulicState W D) → Fresh s → Done network law (seen network law s)
  Fresh-Done s h = subst (Done network law) (sym h) (tt, tt)

  Fresh-InTime : (s : HydraulicState W D) → Fresh s → InTime network law (seen network law s)
  Fresh-InTime s h = subst (InTime network law) (sym h) (ground arith, omega arith, tt, tt)

  Fresh-visited : (s : HydraulicState W D) → Fresh s → visited s.previous_time_s ≡ 0
  Fresh-visited s h = ap (λ (v : Seen network law). visited v.1) h

  close-seen : (s : HydraulicState W D) → SameSeen network law s (close b network s)
  close-seen s =
      Same-seen network law (with_native s (b.close_h s.project.native).1) (close b network s)
        (close-Same b network s)

  finish-Done :
      (s : HydraulicState W D)
      → Done network law (seen network law s)
      → Done network law (seen network law (finish b network s).1)
  unfolding finish
  finish-Done s h =
      subst (λ ts. Rising 0 ts × AllBelow (suc last) ts)
        (sym (
          (store_totals-Same b network (close b network s)).2
          ∙ ap (λ (v : Seen network law). v.2) (close-seen s)))
        h

  solve-Returns :
      (fuel : ℕ) (s : HydraulicState W D)
      → suc last < fuel
      → Fresh s
      → Returns (solve b network fuel s)
  unfolding solve
  solve-Returns fuel s enough h =
      let s' = (cancellation_requested b network s).1 in
      let fresh : Fresh s' = requested-seen network law s ∙ h in
      elim (Bool-cases (cancellation_requested b network s).0) [
        | inl e ↦ rw e (_, refl, finish-Done _ (Fresh-Done s' fresh))
        | inr e ↦ rw e (
            let (t, found, done) =
              loop-ends network law fuel s' (Fresh-InTime s' fresh)
                (omega (arith, Fresh-visited s' fresh)) in
            rw found (finish b network t, refl, finish-Done t done))
      ]

  -- Where the run stops before the loop.
  early : (status : Status) (s : HydraulicState W D) → Fresh s → Returns (some (status, s))
  early status s h = ((status, s), refl, Fresh-Done s h)

  report-Fresh :
      (s : HydraulicState W D) (error : ℤ) (stage : StatusStage) (operation : StatusOperation)
      (call message : String)
      → Fresh s
      → let r = process s error stage operation call message in
        Fresh r.1 × Fresh (collect_hydraulic_failure r.1 r.0 DiagnosticSeverity.fatal (negsuc 0))
  report-Fresh s error stage operation call message h =
      let r = process s error stage operation call message in
      (
        Same-seen network law s r.1 (process-Same s error stage operation call message) ∙ h,
        Same-seen network law s
              (collect_hydraulic_failure r.1 r.0 DiagnosticSeverity.fatal (negsuc 0))
              (report-Same s error stage operation call message DiagnosticSeverity.fatal (negsuc 0))
            ∙ h,
      )

  init-Returns :
      (fuel : ℕ) (s : HydraulicState W D)
      → suc last < fuel
      → Fresh s
      → Returns (init b network fuel s)
  unfolding init
  init-Returns fuel s enough h =
      let (error, w) = b.init_h s.project.native in
      let called : HydraulicState W D = with_native s w in
      let r =
        process called error StatusStage.run_hydraulics StatusOperation.initialize_hydraulics
          "EN_initH" "Failed to initialize EPANET hydraulics" in
      let failed = collect_hydraulic_failure r.1 r.0 DiagnosticSeverity.fatal (negsuc 0) in
      let fresh =
        report-Fresh called error StatusStage.run_hydraulics StatusOperation.initialize_hydraulics
          "EN_initH" "Failed to initialize EPANET hydraulics" h in
      elim (Bool-cases (eqb_ℤ error (pos 0))) [
        | inl e ↦ rw e (solve-Returns fuel called enough h)
        | inr e ↦ rw e (elim (Bool-cases (not r.0.success)) [
          | inl f ↦ rw f (
              early _ (close_after_failure b network failed) (
                Same-seen network law (with_native failed (b.close_h failed.project.native).1)
                  (close_after_failure b network failed) (close_after_failure-Same b network failed)
                ∙ fresh.1))
          | inr f ↦ rw f (solve-Returns fuel r.1 enough fresh.0)
        ])
      ]

  open-Returns :
      (fuel : ℕ) (s : HydraulicState W D)
      → suc last < fuel
      → Fresh s
      → Returns (open_solver b network fuel s)
  unfolding open_solver
  open-Returns fuel s enough h =
      let (error, w) = b.open_h s.project.native in
      let called : HydraulicState W D = with_native s w in
      let r =
        process called error StatusStage.run_hydraulics StatusOperation.open_hydraulics "EN_openH"
          "Failed to open EPANET hydraulics" in
      let fresh =
        report-Fresh called error StatusStage.run_hydraulics StatusOperation.open_hydraulics
          "EN_openH" "Failed to open EPANET hydraulics" h in
      elim (Bool-cases (eqb_ℤ error (pos 0))) [
        | inl e ↦ rw e (init-Returns fuel called enough h)
        | inr e ↦ rw e (elim (Bool-cases (not r.0.success)) [
          | inl f ↦ rw f (
              early _ (collect_hydraulic_failure r.1 r.0 DiagnosticSeverity.fatal (negsuc 0))
                fresh.1)
          | inr f ↦ rw f (init-Returns fuel r.1 enough fresh.0)
        ])
      ]

  run-Returns :
      (fuel : ℕ) (project : Project W) (timeline : HydraulicTimeline (HydraulicResult D))
      → suc last < fuel
      → timeline.results ≡ []
      → Returns (run b network fuel project timeline)
  unfolding run
  run-Returns fuel project timeline enough h =
      let s : HydraulicState W D = start b network project timeline in
      let asked = cancellation_requested b network s in
      let configured : HydraulicState W D = record asked.1 {
        project = (b.configure_report asked.1.project).1;
      } in
      let again = cancellation_requested b network configured in
      let before : Fresh asked.1 =
        requested-seen network law s
        ∙ ap (λ (rs : List (HydraulicResult D)). (pos 0, negsuc 0, map time rs)) h in
      let after : Fresh again.1 = requested-seen network law configured ∙ before in
      elim (Bool-cases asked.0) [
        | inl e ↦ rw e (early _ _ before)
        | inr e ↦ rw e (elim (Bool-cases (not (b.configure_report asked.1.project).0.success)) [
          | inl f ↦ rw f (early _ configured before)
          | inr f ↦ rw f (elim (Bool-cases again.0) [
            | inl g ↦ rw g (early _ _ after)
            | inr g ↦ rw g (open-Returns fuel again.1 enough after)
          ])
        ])
      ]

  -- With a Toolkit that keeps the documented order of calls and whose times never exceed `last`, a
  -- reader that keeps the elapsed time, and fuel for more than `last + 1` rounds, a run that starts
  -- with hydraulics closed and no results returns; hydraulics are closed when it does,
  -- and the elapsed times of its results strictly increase and are at most `last`.
  pub run-ends :
      {phase : W → Phase}
      → Protocol b phase
      → (fuel : ℕ) (project : Project W) (timeline : HydraulicTimeline (HydraulicResult D))
      → suc last < fuel
      → phase project.native ≡ Phase.closed
      → timeline.results ≡ []
      → (r : Status × HydraulicState W D) × (run b network fuel project timeline ≡ some r)
        × (phase r.1.project.native ≡ Phase.closed)
        × Rising 0 (map time r.1.timeline.results)
        × AllBelow (suc last) (map time r.1.timeline.results)
  run-ends {phase} protocol fuel project timeline enough closed fresh =
      let (r, found, done) = run-Returns fuel project timeline enough fresh in
      (
        r,
        found,
        subst
            (OnSome (λ (q : Status × HydraulicState W D). phase q.1.project.native ≡ Phase.closed))
            found (run-IsClosed network protocol fuel project timeline closed),
        done.0,
        done.1,
      )
