-- ===== src/Executor/Rounds.antt =====
-- A round of the quality loop returns, settles its entry when the loop goes on, and stops the loop only
-- for a cancellation.
use aowis_server_epanet.Base.{
  ℕ, suc, ◌<◌, ◌≡◌, refl, ◌∙◌, inl, inr, Bool, true, not, Option, some, [], arith, Bool-cases, same,
}
use aowis_server_epanet.Model.Enums.{WaterQualityAnalysisType, WaterQualityAnalysisType-discrete}
use aowis_server_epanet.Model.Status.{Status, Externals}
use aowis_server_epanet.Model.Doubles.{Doubles}
use aowis_server_epanet.Model.Network.{Network}
use aowis_server_epanet.Model.Run.{EpanetQualityResult}
use aowis_server_epanet.Diagnostics.{checkpoint, append_since}
use aowis_server_epanet.Quality.Outcome.{quality_run-ends}
use aowis_server_epanet.Hydraulics.Phases.{Phase}
use aowis_server_epanet.Validation.Whole.{QualityOptions, validate_quality_run}
use aowis_server_epanet.Loop.{proceed, OnFlow, if_both}
use aowis_server_epanet.Executor.{ExecutorBackend}
use aowis_server_epanet.Executor.Round.{
  RoundState, Round, cancellation_requested, or_requested, refuse, cancel_run, complete_run,
  after_solver, solve_quality, start_quality, quality_round,
}
use aowis_server_epanet.Executor.Laws.{ExecutorLaws}
use aowis_server_epanet.Executor.Settled.{
  Settled, Idle, completed_quality_state-Settled, record_failure_status-keeps,
}

module _ {W D R M : Type 0} ⦃ops : Doubles D⦄ ⦃ext : Externals⦄ {b : ExecutorBackend W D R}
    {hydraulics quality : W → Phase} {last : ℕ} (law : ExecutorLaws b hydraulics quality last)
    (network : Network D) where
  -- What a round that works on an entry with the options `o`, in a result that is cancelled or not and has
  -- the multi-species result `m`,
  -- hands on.
  abbrev pub Handed : QualityOptions D → Bool → Option M → Round W D R M → Type 0
  Handed o cancelled m r =
      OnFlow
        (λ (t : EpanetQualityResult D R × RoundState W D R M).
          Settled t.0.state
          × (t.0.options ≡ o)
          × (t.1.result.cancelled ≡ cancelled)
          × (t.1.result.multi_species_result ≡ m))
        (λ (t : EpanetQualityResult D R × RoundState W D R M).
          Idle t.0
          × (t.0.options ≡ o)
          × (t.1.result.cancelled ≡ true)
          × (t.1.result.multi_species_result ≡ m))
        r

  abbrev pub Hands : QualityOptions D → Bool → Option M → Option (Round W D R M) → Type 0
  Hands o cancelled m n = (r : Round W D R M) × (n ≡ some r) × Handed o cancelled m r

  refuse-Handed :
      (status : Status) (q : EpanetQualityResult D R) (s : RoundState W D R M)
      → Handed q.options s.result.cancelled s.result.multi_species_result
          (proceed (refuse b network status q s))
  unfolding refuse
  refuse-Handed status q s =
      let keeps = record_failure_status-keeps _ status in (ground arith, refl, keeps.0, keeps.3)

  complete_run-Handed :
      (status : Status) (q : EpanetQualityResult D R) (s : RoundState W D R M)
      → Handed q.options s.result.cancelled s.result.multi_species_result
          (proceed (complete_run b network status q s))
  unfolding complete_run
  complete_run-Handed status q s =
      let keeps = record_failure_status-keeps _ status in
      let before = record_failure_status-keeps s.result _ in
      (completed_quality_state-Settled _, refl, keeps.0 ∙ before.0, keeps.3 ∙ before.3)

  after_solver-Handed :
      (status : Status) (cancelled : Bool) (q : EpanetQualityResult D R) (s : RoundState W D R M)
      → Handed q.options s.result.cancelled s.result.multi_species_result
          (after_solver b network status cancelled q s)
  unfolding after_solver cancel_run
  after_solver-Handed status cancelled q s =
      elim (Bool-cases (or_requested b cancelled s.project).0) [
        | inl e ↦ rw e (ground arith, refl, refl, refl)
        | inr e ↦ rw e (complete_run-Handed status _ _)
      ]

  solve_quality-Hands :
      (fuel : ℕ) (q : EpanetQualityResult D R) (s : RoundState W D R M)
      → suc last < fuel
      → q.result_timeline.results ≡ []
      → Hands q.options s.result.cancelled s.result.multi_species_result
          (solve_quality b network fuel q s)
  unfolding solve_quality
  solve_quality-Hands fuel q s enough fresh =
      let (status, project) = b.configure_quality_run q.options s.project in
      if_both (Hands q.options s.result.cancelled s.result.multi_species_result)
        (not status.success) (λ e. (_, refl, refuse-Handed status _ _))
        (λ e.
          let since =
            append_since (checkpoint s.project.diagnostics_collected) q.result_timeline.diagnostics
              project.diagnostics_collected in
          let (r, found, _, _, _, _) =
            quality_run-ends (law.quality_laws q.options.analysis) network.duration_s fuel project
              (record q.result_timeline { diagnostics = since }) enough
              (law.configured_closed q.options s.project (ground (arith, e))) fresh in
          rw found (_, refl, after_solver-Handed r.0 r.1.cancelled _ _))

  start_quality-Hands :
      (fuel : ℕ) (q : EpanetQualityResult D R) (s : RoundState W D R M)
      → suc last < fuel
      → q.result_timeline.results ≡ []
      → Hands q.options s.result.cancelled s.result.multi_species_result
          (start_quality b network fuel q s)
  unfolding start_quality
  start_quality-Hands fuel q s enough fresh =
      let (status, failures) = validate_quality_run network q.options in
      if_both (Hands q.options s.result.cancelled s.result.multi_species_result)
        (not status.success) (λ e. (_, refl, refuse-Handed status _ _))
        (λ e. solve_quality-Hands fuel _ _ enough fresh)

  pub quality_round-Hands :
      (fuel : ℕ) (q : EpanetQualityResult D R) (s : RoundState W D R M)
      → suc last < fuel
      → q.result_timeline.results ≡ []
      → Idle q
      → Hands q.options s.result.cancelled s.result.multi_species_result
          (quality_round b network fuel q s)
  unfolding quality_round
  quality_round-Hands fuel q s enough fresh idle =
      let none_asked =
        same WaterQualityAnalysisType-discrete q.options.analysis WaterQualityAnalysisType.none in
      elim (Bool-cases none_asked) [
        | inl e ↦ rw e (_, refl, (ground arith, refl, refl, refl))
        | inr e ↦ rw e (elim (Bool-cases (cancellation_requested b s.project).0) [
          | inl f ↦ rw f (_, refl, (idle, refl, refl, refl))
          | inr f ↦ rw f (start_quality-Hands fuel q _ enough fresh)
        ])
      ]
