-- ===== src/Quality/Outcome.antt =====
-- The whole quality run: it returns, its results are in order, quality is closed behind it, and the
-- timeline has the status that is returned.
use aowis_server_epanet.Base.{
  ℕ, suc, ◌<◌, ◌≡◌, refl, sym, ap, ◌∙◌, subst, ◌⊎◌, inl, inr, true, false, not, Option, some, List,
  [], map, arith, Bool-cases, pos, negsuc, eqb_ℤ,
}
use aowis_server_epanet.Model.Enums.{
  StatusStage, StatusOperation, StatusEntityType, DiagnosticSeverity,
}
use aowis_server_epanet.Model.Status.{Status, Externals, null_uuid}
use aowis_server_epanet.Model.Timelines.{QualityTimeline}
use aowis_server_epanet.Project.{Project}
use aowis_server_epanet.StatusHelpers.{is_epanet_error_code}
use aowis_server_epanet.StatusHelpers.Codes.{zero_code, process-success}
use aowis_server_epanet.Hydraulics.Phases.{Phase}
use aowis_server_epanet.Hydraulics.Times.{Rising, AllBelow, visited}
use aowis_server_epanet.Quality.{
  QualityBackend, QualityState, QualityResult, with_native, collect_quality_failure, process,
  cancellation_requested, close, conclude, solve, give_up, close_after_failure, init, open_solver,
  start, run,
}
use aowis_server_epanet.Quality.Stages.{
  time, QualityLaws, Seen, seen, process-seen, report-seen, requested-seen,
}
use aowis_server_epanet.Quality.Rounds.{InTime, Done, loop-ends}

-- The status in the timeline is the returned one, or the run was cancelled.
abbrev pub Concluded : {W R : Type 0} → Status × QualityState W R → Type 0
Concluded r = (r.1.cancelled ≡ true) ⊎ (r.1.timeline.status ≡ r.0)

module _ {W R : Type 0} ⦃ext : Externals⦄ {b : QualityBackend W R} {phase : W → Phase} {last : ℕ}
    (law : QualityLaws b phase last) where
  abbrev see : QualityState W R → Seen
  see s = seen law s

  -- Before the loop of a run whose timeline starts without results.
  abbrev Fresh : Phase → QualityState W R → Type 0
  Fresh p s = see s ≡ (p, pos 0, negsuc 0, [])

  -- What is seen when a run has ended.
  abbrev Ended : Seen → Type 0
  Ended v = (v.0 ≡ Phase.closed) × Rising 0 v.3 × AllBelow (suc last) v.3

  abbrev Returns : Option (Status × QualityState W R) → Type 0
  Returns m = (r : Status × QualityState W R) × (m ≡ some r) × Ended (see r.1) × Concluded r

  Fresh-Ended : (s : QualityState W R) → Fresh Phase.closed s → Ended (see s)
  Fresh-Ended s h = subst Ended (sym h) (refl, tt, tt)

  Fresh-InTime : (s : QualityState W R) → Fresh Phase.opened s → InTime law (see s)
  Fresh-InTime s h = subst (InTime law) (sym h) (refl, ground arith, omega arith, tt, tt)

  close-Ended : (s : QualityState W R) → Done law (see s) → Ended (see (close b s))
  unfolding close
  close-Ended s h =
      let r = b.close_q s.project.native in
      let called : QualityState W R = with_native s r.1 in
      let ended : Ended (see called) = (law.close_closes s.project.native h.0, h.1, h.2) in
      elim (Bool-cases (eqb_ℤ r.0 (pos 0))) [
        | inl e ↦ rw e ended
        | inr e ↦ rw e (
            subst Ended
              (sym (
                report-seen law called r.0 StatusStage.close_quality StatusOperation.close_quality
                  "EN_closeQ" "Failed to close EPANET water-quality analysis"
                  DiagnosticSeverity.error s.current_time_s))
              ended)
      ]

  solve-Returns :
      (duration_s fuel : ℕ) (s : QualityState W R)
      → suc last < fuel
      → Fresh Phase.opened s
      → Returns (solve b duration_s fuel s)
  unfolding solve conclude
  solve-Returns duration_s fuel s enough h =
      let start_at : visited s.previous_time_s ≡ 0 = ap (λ (v : Seen). visited v.2) h in
      let (t, found, done) =
        loop-ends law duration_s fuel s (Fresh-InTime s h) (omega (arith, start_at)) in
      rw found (conclude b (close b t), refl, close-Ended t done, inr refl)

  close_after_failure-Fresh :
      (s : QualityState W R) → Fresh Phase.opened s → Fresh Phase.closed (close_after_failure b s)
  unfolding close_after_failure
  close_after_failure-Fresh s h =
      let r = b.close_q s.project.native in
      let called : QualityState W R = with_native s r.1 in
      let was_open : phase s.project.native ≡ Phase.opened = ap (λ (v : Seen). v.0) h in
      let closed : Fresh Phase.closed called =
        ap (λ p. (p, s.current_time_s, s.previous_time_s, map time s.timeline.results))
          (law.close_closes s.project.native was_open)
        ∙ ap (λ (v : Seen). (Phase.closed, v.1, v.2, v.3)) h in
      elim (Bool-cases (eqb_ℤ r.0 (pos 0))) [
        | inl e ↦ rw e closed
        | inr e ↦ rw e (
            report-seen law called r.0 StatusStage.close_quality StatusOperation.close_quality
              "EN_closeQ"
              "Failed to close EPANET water-quality analysis after initialization failure"
              DiagnosticSeverity.error (negsuc 0)
            ∙ closed)
      ]

  -- A native call that leaves the phase `q`, from a fresh state.
  called-Fresh :
      (p q : Phase) (s : QualityState W R) (w : W)
      → Fresh p s
      → phase w ≡ q
      → Fresh q (with_native s w)
  called-Fresh p q s w h e =
      ap (λ c. (c, s.current_time_s, s.previous_time_s, map time s.timeline.results)) e
      ∙ ap (λ (v : Seen). (q, v.1, v.2, v.3)) h

  init-Returns :
      (duration_s fuel : ℕ) (s : QualityState W R)
      → suc last < fuel
      → Fresh Phase.opened s
      → Returns (init b duration_s fuel s)
  unfolding init
  init-Returns duration_s fuel s enough h =
      let (error, w) = b.init_q s.project.native in
      let called : QualityState W R = with_native s w in
      let fresh =
        called-Fresh Phase.opened Phase.opened s w h
          (law.init_keeps s.project.native (ap (λ (v : Seen). v.0) h)) in
      let r =
        process called error StatusStage.run_quality StatusOperation.initialize_quality "EN_initQ"
          "Failed to initialize EPANET water-quality analysis" in
      let failed = collect_quality_failure r.1 r.0 DiagnosticSeverity.fatal (negsuc 0) in
      elim (Bool-cases (eqb_ℤ error (pos 0))) [
        | inl e ↦ rw e (solve-Returns duration_s fuel called enough fresh)
        | inr e ↦ rw e (elim (Bool-cases (not r.0.success)) [
          | inl f ↦ rw f (
            give_up b (close_after_failure b failed),
            refl,
            Fresh-Ended (close_after_failure b failed) (
                close_after_failure-Fresh failed (
                  report-seen law called error StatusStage.run_quality
                    StatusOperation.initialize_quality "EN_initQ"
                    "Failed to initialize EPANET water-quality analysis" DiagnosticSeverity.fatal
                    (negsuc 0)
                  ∙ fresh)),
            inr refl,
          )
          | inr f ↦ rw f (
              solve-Returns duration_s fuel r.1 enough (
                process-seen law called error StatusStage.run_quality
                  StatusOperation.initialize_quality "EN_initQ"
                  "Failed to initialize EPANET water-quality analysis"
                ∙ fresh))
        ])
      ]

  open-Returns :
      (duration_s fuel : ℕ) (s : QualityState W R)
      → suc last < fuel
      → Fresh Phase.closed s
      → Returns (open_solver b duration_s fuel s)
  unfolding open_solver
  open-Returns duration_s fuel s enough h =
      let (error, w) = b.open_q s.project.native in
      let was : phase s.project.native ≡ Phase.closed = ap (λ (v : Seen). v.0) h in
      let called : QualityState W R = with_native s w in
      let r =
        process called error StatusStage.run_quality StatusOperation.open_quality "EN_openQ"
          "Failed to open EPANET water-quality analysis" in
      let ok =
        process-success called.project error StatusStage.run_quality StatusOperation.open_quality
          "EN_openQ" StatusEntityType.quality_solver "" null_uuid
          "Failed to open EPANET water-quality analysis" in
      let failed = collect_quality_failure r.1 r.0 DiagnosticSeverity.fatal (negsuc 0) in
      let accepted = λ (e : is_epanet_error_code error ≡ false).
        called-Fresh Phase.closed Phase.opened s w h (law.open_accepted s.project.native was e) in
      elim (Bool-cases (eqb_ℤ error (pos 0))) [
        | inl e ↦ rw e (init-Returns duration_s fuel called enough (accepted (zero_code error e)))
        | inr e ↦ rw e (elim (Bool-cases (not r.0.success)) [
          | inl f ↦ rw f (
            give_up b failed,
            refl,
            Fresh-Ended failed (
                report-seen law called error StatusStage.run_quality StatusOperation.open_quality
                  "EN_openQ" "Failed to open EPANET water-quality analysis" DiagnosticSeverity.fatal
                  (negsuc 0)
                ∙ called-Fresh Phase.closed Phase.closed s w h
                    (law.open_failed s.project.native was (ground (arith, ok)))),
            inr refl,
          )
          | inr f ↦ rw f (
              init-Returns duration_s fuel r.1 enough (
                process-seen law called error StatusStage.run_quality StatusOperation.open_quality
                  "EN_openQ" "Failed to open EPANET water-quality analysis"
                ∙ accepted (ground (arith, ok))))
        ])
      ]

  -- With a Toolkit that keeps the laws and fuel for more than `last + 1` rounds, a quality run that
  -- starts with quality closed and no results returns; quality is closed when it does, the elapsed
  -- times of its results strictly increase and are at most `last`, and unless it was cancelled its
  -- timeline has the status that is returned.
  pub quality_run-ends :
      (duration_s fuel : ℕ) (project : Project W) (timeline : QualityTimeline (QualityResult R))
      → suc last < fuel
      → phase project.native ≡ Phase.closed
      → timeline.results ≡ []
      → (r : Status × QualityState W R) × (run b duration_s fuel project timeline ≡ some r)
        × (phase r.1.project.native ≡ Phase.closed)
        × Rising 0 (map time r.1.timeline.results)
        × AllBelow (suc last) (map time r.1.timeline.results)
        × Concluded r
  unfolding run
  quality_run-ends duration_s fuel project timeline enough closed none_yet =
      let s : QualityState W R = start b project timeline in
      let asked = cancellation_requested b s in
      let fresh : Fresh Phase.closed asked.1 =
        requested-seen law s
        ∙ (ap (λ p. (p, pos 0, negsuc 0, map time timeline.results)) closed
            ∙ ap (λ (rs : List (QualityResult R)). (Phase.closed, pos 0, negsuc 0, map time rs))
                none_yet) in
      elim (Bool-cases asked.0) [
        | inl e ↦ rw e (
            let ended = Fresh-Ended asked.1 fresh in (_, refl, ended.0, ended.1, ended.2, inl refl))
        | inr e ↦ rw e (
            let (r, found, ended, concluded) = open-Returns duration_s fuel asked.1 enough fresh in
            (r, found, ended.0, ended.1, ended.2, concluded))
      ]
