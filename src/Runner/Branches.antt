-- ===== src/Runner/Branches.antt =====
-- The results that the runner returns early, and the multi-species part of the others.
use aowis_server_epanet.Base.{
  ℕ, ◌≡◌, refl, sym, ap, ◌∙◌, subst, ◌≢◌, ◌↔◌, ◌⊎◌, inl, inr, Bool, true, false, not, ◌||◌, Option,
  none, some, List, [], arith, All,
}
use aowis_server_epanet.Model.Status.{Status, Externals}
use aowis_server_epanet.Model.Doubles.{Doubles}
use aowis_server_epanet.Model.Network.{Network}
use aowis_server_epanet.Model.Run.{EpanetRunState, EpanetMultiSpeciesResult, EpanetRunRequest}
use aowis_server_epanet.Validation.Whole.{QualityOptions}
use aowis_server_epanet.Loop.{if_both}
use aowis_server_epanet.Executor.{mark_pending_quality_runs}
use aowis_server_epanet.Executor.Save.{Saved, has_hydraulic_file}
use aowis_server_epanet.Executor.Settled.{
  Settled, Idle, AllSettled, options_of, mark_pending-AllSettled, options-mark_pending, Ended,
}
use aowis_server_epanet.Executor.Outcome.{Prepared, Prepared-Idle}
use aowis_server_epanet.Runner.{RunnerBackend}
use aowis_server_epanet.Runner.Text.{finalize_report_text}
use aowis_server_epanet.Runner.Prepared.{PreparedProject}
use aowis_server_epanet.Runner.Early.{
  RunResult, mark_pending_multi_species_run, executor_backend, cancelled_run, failed_result,
  failed_run,
}
use aowis_server_epanet.Runner.Run.{settle_multi_species, run_multi_species, continue_multi_species}
use aowis_server_epanet.Runner.Ended.{
  HasSpecies, Species, RunEnded, mark_pending_multi_species_run-keeps,
  mark_pending_multi_species_run-none, mark_pending_multi_species_run-HasSpecies,
  finalize_report_text-RunEnded,
}

-- Before the executor: the multi-species result of a request that asks for one waits.
abbrev pub Waiting : {O V : Type 0} → Option O → Option (EpanetMultiSpeciesResult O V) → Type 0
Waiting none found = found ≡ none
Waiting (some o) found = HasSpecies (λ s. s ≢ EpanetRunState.running) o found

module _ {O V : Type 0} where
  abbrev options_or : O → Option (EpanetMultiSpeciesResult O V) → O
  options_or o none = o
  options_or o (some m) = m.options

module _ {D R O V : Type 0} where
  same-Species :
      (o : Option O) (r t : RunResult D R O V)
      → r.multi_species_result ≡ t.multi_species_result
      → r.cancelled ≡ t.cancelled
      → Species o r
      → Species o t
  same-Species none r t e f h = sym e ∙ h
  same-Species (some o) r t e f (inl h) = inl (subst (HasSpecies Settled o) e h)
  same-Species (some o) r t e f (inr h) = inr (sym e ∙ h.0, sym f ∙ h.1)

  mark-Species :
      (o : Option O) (r : RunResult D R O V) (state : EpanetRunState)
      → Settled state
      → Waiting o r.multi_species_result
      → Species o (mark_pending_multi_species_run r state)
  mark-Species none r state h waiting = mark_pending_multi_species_run-none r state waiting
  mark-Species (some o) r state h waiting =
      inl (mark_pending_multi_species_run-HasSpecies o r state h waiting)

  none-Species :
      (o : Option O) (r : RunResult D R O V) (state : EpanetRunState)
      → r.multi_species_result ≡ none
      → r.cancelled ≡ true
      → Species o (mark_pending_multi_species_run r state)
  none-Species none r state e c = mark_pending_multi_species_run-none r state e
  none-Species (some o) r state e c = inr (
    mark_pending_multi_species_run-none r state e,
    (mark_pending_multi_species_run-keeps r state).1 ∙ c,
  )

  -- Marking everything that is pending, and the report text, end a result whose runs have not
  -- started.
  marked-RunEnded :
      ⦃ext : Externals⦄ (os : List (QualityOptions D)) (o : Option O) (r t : RunResult D R O V)
      (state : EpanetRunState) (network : Network D)
      → let m = mark_pending_multi_species_run (mark_pending_quality_runs r state) state in
        Settled state
        → Settled r.state
        → All Idle r.quality_results
        → options_of r.quality_results ≡ os
        → (r.state ≡ EpanetRunState.cancelled) ↔ (r.cancelled ≡ true)
        → Species o m
        → t.state ≡ m.state
        → t.cancelled ≡ m.cancelled
        → t.quality_results ≡ m.quality_results
        → t.multi_species_result ≡ m.multi_species_result
        → RunEnded os o (finalize_report_text t network)
  marked-RunEnded os o r t state network h settled idle kept verdict species e f g k =
      let m = mark_pending_multi_species_run (mark_pending_quality_runs r state) state in
      let keeps = mark_pending_multi_species_run-keeps (mark_pending_quality_runs r state) state in
      finalize_report_text-RunEnded os o t network (record {
        settled = subst Settled (sym (e ∙ keeps.0)) settled;
        qualities_settled =
            subst AllSettled (sym (g ∙ keeps.2))
              (mark_pending-AllSettled state r.quality_results h idle);
        options_kept =
            ap options_of (g ∙ keeps.2) ∙ (options-mark_pending state r.quality_results ∙ kept);
        species = same-Species o m t (sym k) (sym f) species;
        cancelled_iff = (
          (λ c. f ∙ (keeps.1 ∙ verdict.0 (sym (e ∙ keeps.0) ∙ c))),
          (λ c. e ∙ (keeps.0 ∙ verdict.1 (sym (f ∙ keeps.1) ∙ c))),
        );
      })

module _ {W D R O V : Type 0} ⦃ops : Doubles D⦄ ⦃ext : Externals⦄ (b : RunnerBackend W D R O V)
    (request : EpanetRunRequest D O) where
  -- Before the executor: nothing has started, and the multi-species result is as it should be.
  pub record Started (r : RunResult D R O V) : Type 0 where
    pub prepared : All Prepared r.quality_results
    pub options_kept : options_of r.quality_results ≡ request.quality_runs
    pub not_cancelled : r.cancelled ≡ false
    pub no_results : r.result_timeline.results ≡ []

  pub cancelled_run-RunEnded :
      (r : RunResult D R O V) (p : PreparedProject W D)
      → Started r
      → (Waiting request.multi_species_run r.multi_species_result) ⊎ (r.multi_species_result ≡ none)
      → RunEnded request.quality_runs request.multi_species_run
          (cancelled_run b r p request.network)
  unfolding cancelled_run
  cancelled_run-RunEnded r p started species =
      let t = record r { cancelled = true; state = EpanetRunState.cancelled } in
      marked-RunEnded request.quality_runs request.multi_species_run t _ EpanetRunState.cancelled
        request.network (ground arith) (ground arith)
        (Prepared-Idle r.quality_results started.prepared) started.options_kept
        ((λ e. refl), (λ e. refl))
        (elim species [
          | inl h ↦
              mark-Species request.multi_species_run
                (mark_pending_quality_runs t EpanetRunState.cancelled) EpanetRunState.cancelled
                (ground arith) h
          | inr h ↦
              none-Species request.multi_species_run
                (mark_pending_quality_runs t EpanetRunState.cancelled) EpanetRunState.cancelled h
                refl
        ])
        refl refl refl refl

  pub failed_run-RunEnded :
      (r : RunResult D R O V) (status : Status) (p : PreparedProject W D)
      → Started r
      → Waiting request.multi_species_run r.multi_species_result
      → RunEnded request.quality_runs request.multi_species_run
          (failed_run b r status p request.network)
  unfolding failed_run failed_result
  failed_run-RunEnded r status p started waiting =
      let clean = started.not_cancelled in
      marked-RunEnded request.quality_runs request.multi_species_run (failed_result b r status p) _
        EpanetRunState.skipped request.network (ground arith) (ground arith)
        (Prepared-Idle r.quality_results started.prepared) started.options_kept
        ((λ e. absurd (ground arith)), (λ e. absurd (cc (e, clean))))
        (mark-Species request.multi_species_run _ EpanetRunState.skipped (ground arith) waiting)
        refl refl refl refl

  settle_multi_species-RunEnded :
      (os : List (QualityOptions D)) (found : Option (EpanetMultiSpeciesResult O V)) (o : O)
      (status : Status) (stop : Bool) (m : EpanetMultiSpeciesResult O V)
      (result : RunResult D R O V)
      → Ended os found result
      → result.cancelled ≡ false
      → m.options ≡ o
      → RunEnded os (some o) (settle_multi_species b request status stop m result)
  unfolding settle_multi_species
  settle_multi_species-RunEnded os found o status stop m result ended clean same_options =
      if_both (RunEnded os (some o)) stop
        (λ e. record {
          settled = ground arith;
          qualities_settled = ended.qualities_settled;
          options_kept = ended.options_kept;
          species = inl (_, refl, same_options, ground arith);
          cancelled_iff = ((λ c. refl), (λ c. refl));
        })
        (λ e.
          if_both (RunEnded os (some o)) (not status.success)
            (λ f. record {
              settled = ground arith;
              qualities_settled = ended.qualities_settled;
              options_kept = ended.options_kept;
              species = inl (_, refl, same_options, ground arith);
              cancelled_iff = ((λ c. absurd (ground arith)), (λ c. absurd (cc (c, clean))));
            })
            (λ f. record {
              settled = ended.settled;
              qualities_settled = ended.qualities_settled;
              options_kept = ended.options_kept;
              species = inl (_, refl, same_options, ground arith);
              cancelled_iff = ended.cancelled_iff;
            }))

  skipped_species-RunEnded :
      {found : Option (EpanetMultiSpeciesResult O V)} (os : List (QualityOptions D)) (o : O)
      (result : RunResult D R O V) (state : EpanetRunState)
      → Settled state
      → Ended os found result
      → HasSpecies (λ s. s ≢ EpanetRunState.running) o result.multi_species_result
      → RunEnded os (some o) (mark_pending_multi_species_run result state)
  skipped_species-RunEnded os o result state h ended species =
      let keeps = mark_pending_multi_species_run-keeps result state in
      record {
        settled = subst Settled (sym keeps.0) ended.settled;
        qualities_settled = subst AllSettled (sym keeps.2) ended.qualities_settled;
        options_kept = ap options_of keeps.2 ∙ ended.options_kept;
        species = inl (mark_pending_multi_species_run-HasSpecies o result state h species);
        cancelled_iff = (
          (λ c. keeps.1 ∙ ended.cancelled_iff.0 (sym keeps.0 ∙ c)),
          (λ c. keeps.0 ∙ ended.cancelled_iff.1 (sym keeps.1 ∙ c)),
        );
      }

  pub continue_multi_species-RunEnded :
      (start : ℕ) (p : PreparedProject W D) (saved : Saved W) (result : RunResult D R O V)
      (os : List (QualityOptions D)) (wanted : Option O)
      (found : Option (EpanetMultiSpeciesResult O V))
      → Waiting wanted found
      → Ended os found result
      → RunEnded os wanted (continue_multi_species b request start p saved result wanted found)
  unfolding continue_multi_species run_multi_species
  continue_multi_species-RunEnded start p saved result os none found waiting ended = record {
    settled = ended.settled;
    qualities_settled = ended.qualities_settled;
    options_kept = ended.options_kept;
    species = ended.multi_species_kept ∙ waiting;
    cancelled_iff = ended.cancelled_iff;
  }
  continue_multi_species-RunEnded start p saved result os (some o) none waiting ended =
      absurd (cc waiting.1)
  continue_multi_species-RunEnded start p saved result os (some o) (some m) waiting ended =
      let found : HasSpecies (λ s. s ≢ EpanetRunState.running) o result.multi_species_result =
        subst (HasSpecies (λ s. s ≢ EpanetRunState.running) o) (sym ended.multi_species_kept)
          waiting in
      let same_options : m.options ≡ o =
        ap (λ (x : Option (EpanetMultiSpeciesResult O V)). options_or m.options x) waiting.1
        ∙ waiting.2 in
      if_both (RunEnded os (some o)) result.cancelled
        (λ e.
          skipped_species-RunEnded os o result EpanetRunState.cancelled (ground arith) ended found)
        (λ e.
          if_both (RunEnded os (some o))
            (not result.result_timeline.status.success
              || not (has_hydraulic_file (executor_backend b p.prepared_network) saved))
            (λ f.
              skipped_species-RunEnded os o result EpanetRunState.skipped (ground arith) ended
                found)
            (λ f. settle_multi_species-RunEnded os _ o _ _ _ result ended e same_options))
