-- ===== src/Runner/Ended.antt =====
-- What every result of the runner satisfies, and how marking and the report text keep it.
use aowis_server_epanet.Base.{
  ◌≡◌, refl, ap, ◌∙◌, ◌≢◌, ◌↔◌, ◌⊎◌, inl, inr, true, Option, none, some, List, [], ◌∷◌, map,
  Option-cases, same_iff,
}
use aowis_server_epanet.Model.Status.{Externals}
use aowis_server_epanet.Model.Network.{Network}
use aowis_server_epanet.Model.Run.{
  EpanetRunState, EpanetRunState-discrete, EpanetQualityResult, EpanetMultiSpeciesResult,
}
use aowis_server_epanet.Validation.Whole.{QualityOptions}
use aowis_server_epanet.Loop.{if_both}
use aowis_server_epanet.Executor.{is_state}
use aowis_server_epanet.Executor.Settled.{Settled, AllSettled, options_of}
use aowis_server_epanet.Runner.Text.{join, finalize_report_text}
use aowis_server_epanet.Runner.Early.{RunResult, mark_pending_multi_species_run}

-- The multi-species result of a request for `o`: it has the request's options, and its state
-- satisfies `P`.
abbrev pub HasSpecies :
    {O V : Type 0} → (EpanetRunState → Type 0) → O → Option (EpanetMultiSpeciesResult O V) → Type 0
HasSpecies P o found =
    (m : EpanetMultiSpeciesResult _ _) × (found ≡ some m) × (m.options ≡ o) × P m.state

module _ {D R O V : Type 0} where
  -- A run that did not ask for a multi-species run has none; one that did has its result, unless it was
  -- cancelled before.
  abbrev pub Species : Option O → RunResult D R O V → Type 0
  Species none r = r.multi_species_result ≡ none
  Species (some o) r =
      HasSpecies Settled o r.multi_species_result
      ⊎ ((r.multi_species_result ≡ none) × (r.cancelled ≡ true))

  -- A result that the runner returns.
  pub record RunEnded (os : List (QualityOptions D)) (o : Option O) (r : RunResult D R O V)
      : Type 0 where
    pub settled : Settled r.state
    pub qualities_settled : AllSettled r.quality_results
    pub options_kept : options_of r.quality_results ≡ os
    pub species : Species o r
    pub cancelled_iff : (r.state ≡ EpanetRunState.cancelled) ↔ (r.cancelled ≡ true)

  -- Marking writes the multi-species result only.
  pub mark_pending_multi_species_run-keeps :
      (result : RunResult D R O V) (state : EpanetRunState)
      → let r = mark_pending_multi_species_run result state in
        (r.state ≡ result.state)
        × (r.cancelled ≡ result.cancelled)
        × (r.quality_results ≡ result.quality_results)
  unfolding mark_pending_multi_species_run
  mark_pending_multi_species_run-keeps result state =
      elim (Option-cases result.multi_species_result) [
        | inl e ↦ rw (mark_pending_multi_species_run, e) (refl, refl, refl)
        | inr (m, e) ↦
            rw (mark_pending_multi_species_run, e)
              (if_both
                (λ (r : RunResult D R O V).
                  (r.state ≡ result.state)
                  × (r.cancelled ≡ result.cancelled)
                  × (r.quality_results ≡ result.quality_results))
                (is_state m.state EpanetRunState.pending) (λ f. (refl, refl, refl))
                (λ f. (refl, refl, refl)))
      ]

  pub mark_pending_multi_species_run-none :
      (result : RunResult D R O V) (state : EpanetRunState)
      → result.multi_species_result ≡ none
      → (mark_pending_multi_species_run result state).multi_species_result ≡ none
  unfolding mark_pending_multi_species_run
  mark_pending_multi_species_run-none result state e = rw (mark_pending_multi_species_run, e) e

  pub mark_pending_multi_species_run-HasSpecies :
      (o : O) (result : RunResult D R O V) (state : EpanetRunState)
      → Settled state
      → HasSpecies (λ s. s ≢ EpanetRunState.running) o result.multi_species_result
      → HasSpecies Settled o (mark_pending_multi_species_run result state).multi_species_result
  unfolding mark_pending_multi_species_run
  mark_pending_multi_species_run-HasSpecies o result state h (m, e, same_options, idle) =
      let pending = same_iff EpanetRunState-discrete m.state EpanetRunState.pending in
      rw (mark_pending_multi_species_run, e)
        (if_both (λ (r : RunResult D R O V). HasSpecies Settled o r.multi_species_result)
          (is_state m.state EpanetRunState.pending)
          (λ f. (record m { state = state }, refl, same_options, h))
          (λ f. (m, e, same_options, ((λ g. cc (f, pending.1 g)), idle))))

module _ {D R : Type 0} where
  abbrev worded : List (EpanetQualityResult D R) → List (EpanetQualityResult D R)
  worded qs =
      map (λ (q : EpanetQualityResult D R). record q { report_text = join "\n" q.report_lines }) qs

  worded-AllSettled : (qs : List (EpanetQualityResult D R)) → AllSettled qs → AllSettled (worded qs)
  worded-AllSettled [] h = tt
  worded-AllSettled (q ∷ qs) h = (h.0, worded-AllSettled qs h.1)

  options-worded : (qs : List (EpanetQualityResult D R)) → options_of (worded qs) ≡ options_of qs
  options-worded [] = refl
  options-worded (q ∷ qs) = ap (◌∷◌ q.options) (options-worded qs)

  module _ ⦃ext : Externals⦄ {O V : Type 0} where
    text-Species :
        (o : Option O) (r : RunResult D R O V) (network : Network D)
        → Species o r
        → Species o (finalize_report_text r network)
    unfolding finalize_report_text
    text-Species none r network h = h
    text-Species (some o) r network h = h

    -- The report text changes nothing else.
    pub finalize_report_text-RunEnded :
        (os : List (QualityOptions D)) (o : Option O) (r : RunResult D R O V) (network : Network D)
        → RunEnded os o r
        → RunEnded os o (finalize_report_text r network)
    unfolding finalize_report_text
    finalize_report_text-RunEnded os o r network ended = record {
      settled = ended.settled;
      qualities_settled = worded-AllSettled r.quality_results ended.qualities_settled;
      options_kept = options-worded r.quality_results ∙ ended.options_kept;
      species = text-Species o r network ended.species;
      cancelled_iff = ended.cancelled_iff;
    }
