-- ===== src/Executor/Settled.antt =====
-- No run is left pending or running: what the executor's returns leave in the result.
use aowis_server_epanet.Base.{
  String, ◌≡◌, refl, ap, ◌≢◌, ◌↔◌, ◌⊎◌, inl, inr, true, Option, List, [], ◌∷◌, map, arith,
  Bool-cases, same_iff, All,
}
use aowis_server_epanet.Model.Status.{Status, Externals}
use aowis_server_epanet.Model.Timelines.{QualityTimeline}
use aowis_server_epanet.Model.Run.{
  EpanetRunState, EpanetRunState-discrete, EpanetQualityResult, EpanetResultRun,
}
use aowis_server_epanet.Validation.Whole.{QualityOptions}
use aowis_server_epanet.Executor.{
  completed_quality_state, record_failure_status, mark_pending, is_state, finalize_run_state,
}

abbrev pub Settled : EpanetRunState → Type 0
Settled state = (state ≢ EpanetRunState.pending) × (state ≢ EpanetRunState.running)

abbrev pub Idle : {D R : Type 0} → EpanetQualityResult D R → Type 0
Idle q = q.state ≢ EpanetRunState.running

abbrev pub AllSettled : {D R : Type 0} → List (EpanetQualityResult D R) → Type 0
AllSettled qs = All (λ q. Settled q.state) qs

abbrev pub options_of : {D R : Type 0} → List (EpanetQualityResult D R) → List (QualityOptions D)
options_of qs = map (λ q. q.options) qs

pub completed_quality_state-Settled :
    {Q : Type 0} (timeline : QualityTimeline Q) → Settled (completed_quality_state timeline)
unfolding completed_quality_state
completed_quality_state-Settled timeline = ground arith

module _ {D R : Type 0} where
  pub AllSettled-Idle : (qs : List (EpanetQualityResult D R)) → AllSettled qs → All Idle qs
  AllSettled-Idle [] h = tt
  AllSettled-Idle (q ∷ qs) h = (h.0.1, AllSettled-Idle qs h.1)

  pub mark_pending-AllSettled :
      (state : EpanetRunState) (qs : List (EpanetQualityResult D R))
      → Settled state
      → All Idle qs
      → AllSettled (mark_pending state qs)
  unfolding mark_pending
  mark_pending-AllSettled state [] h idle = tt
  mark_pending-AllSettled state (q ∷ qs) h idle =
      let pending = same_iff EpanetRunState-discrete q.state EpanetRunState.pending in
      (
        elim (Bool-cases (is_state q.state EpanetRunState.pending)) [
          | inl e ↦ rw e h
          | inr e ↦ rw e ((λ p. cc (e, pending.1 p)), idle.0)
        ],
        mark_pending-AllSettled state qs h idle.1,
      )

  pub options-mark_pending :
      (state : EpanetRunState) (qs : List (EpanetQualityResult D R))
      → options_of (mark_pending state qs) ≡ options_of qs
  unfolding mark_pending
  options-mark_pending state [] = refl
  options-mark_pending state (q ∷ qs) =
      elim (Bool-cases (is_state q.state EpanetRunState.pending)) [
        | inl e ↦ rw e (ap (◌∷◌ q.options) (options-mark_pending state qs))
        | inr e ↦ rw e (ap (◌∷◌ q.options) (options-mark_pending state qs))
      ]

module _ ⦃ext : Externals⦄ {D R M : Type 0} where
  -- What recording a failure leaves alone.
  pub record_failure_status-keeps :
      (result : EpanetResultRun D R M) (status : Status)
      → let r = record_failure_status result status in
        (r.cancelled ≡ result.cancelled)
        × (r.quality_results ≡ result.quality_results)
        × (r.result_timeline ≡ result.result_timeline)
        × (r.multi_species_result ≡ result.multi_species_result)
  unfolding record_failure_status
  record_failure_status-keeps result status = elim (Bool-cases status.success) [
    | inl e ↦ rw e (refl, refl, refl, refl)
    | inr e ↦ rw e (refl, refl, refl, refl)
  ]

  -- A result that was returned for runs with the options `os`, and for the multi-species result `m`,
  -- which the executor does not touch.
  pub record Ended (os : List (QualityOptions D)) (m : Option M) (r : EpanetResultRun D R M)
      : Type 0 where
    pub settled : Settled r.state
    pub qualities_settled : AllSettled r.quality_results
    pub options_kept : options_of r.quality_results ≡ os
    pub multi_species_kept : r.multi_species_result ≡ m
    pub cancelled_iff : (r.state ≡ EpanetRunState.cancelled) ↔ (r.cancelled ≡ true)

  pub finalize_run_state-Ended :
      (lines : List String) (result : EpanetResultRun D R M)
      → All Idle result.quality_results
      → (result.cancelled ≡ true) ⊎ AllSettled result.quality_results
      → Ended
          (options_of result.quality_results)
          result.multi_species_result
          (finalize_run_state lines result)
  unfolding finalize_run_state
  finalize_run_state-Ended lines result idle done = elim (Bool-cases result.cancelled) [
    | inl e ↦ rw e (record {
      settled = ground arith;
      qualities_settled =
          mark_pending-AllSettled EpanetRunState.cancelled result.quality_results (ground arith)
            idle;
      options_kept = options-mark_pending EpanetRunState.cancelled result.quality_results;
      multi_species_kept = refl;
      cancelled_iff = (λ h. refl, λ h. refl);
    })
    | inr e ↦ rw e (record {
      settled = ground arith;
      qualities_settled = elim done [ inl c ↦ absurd (cc (e, c)) | inr h ↦ h ];
      options_kept = refl;
      multi_species_kept = refl;
      cancelled_iff = (λ h. absurd (ground arith), λ h. absurd (cc h));
    })
  ]
