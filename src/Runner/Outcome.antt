-- ===== src/Runner/Outcome.antt =====
-- The whole of EpanetRunner::run: it returns, and leaves nothing pending or running.
use aowis_server_epanet.Base.{
  ℕ, suc, ◌<◌, ◌≡◌, refl, sym, ap, ◌∙◌, subst, inl, inr, true, not, Option, none, some, List, [],
  ◌∷◌, arith, Option-cases, All,
}
use aowis_server_epanet.Model.Status.{Status, Externals}
use aowis_server_epanet.Model.Doubles.{Doubles}
use aowis_server_epanet.Model.Network.{Network}
use aowis_server_epanet.Model.Run.{EpanetRunState, EpanetMultiSpeciesResult, EpanetRunRequest}
use aowis_server_epanet.Project.{Project}
use aowis_server_epanet.Project.Lifecycle.{create}
use aowis_server_epanet.Validation.Whole.{QualityOptions}
use aowis_server_epanet.Loop.{if_both}
use aowis_server_epanet.Hydraulics.Phases.{Phase}
use aowis_server_epanet.Executor.Laws.{ExecutorLaws}
use aowis_server_epanet.Executor.Settled.{options_of, Ended}
use aowis_server_epanet.Executor.Outcome.{Prepared, executor_run-Ended}
use aowis_server_epanet.Runner.{RunnerBackend}
use aowis_server_epanet.Runner.Prepared.{
  PreparedProject, default_prepared, create_and_build, prepare,
}
use aowis_server_epanet.Runner.Early.{
  RunResult, initialize_run_result, executor_backend, cancellation_requested,
}
use aowis_server_epanet.Runner.Run
use aowis_server_epanet.Runner.Run.{
  is_some, executor_start, continue_multi_species, execute, prepare_and_execute,
  validate_and_prepare,
}
use aowis_server_epanet.Runner.Branches.{
  Waiting, Started, cancelled_run-RunEnded, failed_run-RunEnded, continue_multi_species-RunEnded,
}
use aowis_server_epanet.Runner.Ended.{RunEnded, finalize_report_text-RunEnded}

-- What a successful preparation relies on: the build opens no solver; default-constructed timelines have
-- no results.
pub record RunnerLaws {W D R O V : Type 0} ⦃ext : Externals⦄ (b : RunnerBackend W D R O V)
    (network : Network D) (hydraulics quality : W → Phase) (last : ℕ) : Type 0 where
  pub executor_laws : ExecutorLaws (executor_backend b network) hydraulics quality last
  pub built_closed :
      (p : Project W)
      → (b.build network p).0.success ≡ true
      → hydraulics (b.build network p).1.native ≡ Phase.closed
  pub no_hydraulic_results : b.default_hydraulic_timeline.results ≡ []
  pub no_quality_results : b.default_quality_timeline.results ≡ []

module _ {W D R O V : Type 0} ⦃ops : Doubles D⦄ ⦃ext : Externals⦄ (b : RunnerBackend W D R O V)
    (request : EpanetRunRequest D O) {hydraulics quality : W → Phase} {last : ℕ}
    (law : RunnerLaws b (b.prepare_network request.network).2 hydraulics quality last) where
  -- A return whose result has ended.
  abbrev Returns : Option (RunResult D R O V) → Type 0
  Returns m =
      (r : RunResult D R O V) × (m ≡ some r)
      × RunEnded request.quality_runs request.multi_species_run r

  -- A prepared project that the executor can start from.
  abbrev Ready : PreparedProject W D → Type 0
  Ready p =
      (p.prepared_network ≡ (b.prepare_network request.network).2)
      × (hydraulics p.project.native ≡ Phase.closed)

  prepare-Ready :
      (p : PreparedProject W D)
      → (prepare b request.network p).0.success ≡ true
      → Ready (prepare b request.network p).1
  unfolding prepare create_and_build
  prepare-Ready p =
      let network = (b.prepare_network request.network).2 in
      let ready : Status × PreparedProject W D → Type 0 = λ r. r.0.success ≡ true → Ready r.1 in
      let (created, q) = create b.project _ in
      let (initialized, r) = b.initialize_project network q in
      if_both ready (not (b.prepare_network request.network).0.success) (λ e f. absurd (cc (e, f)))
        (λ e.
          if_both ready (not created.success) (λ f g. absurd (cc (f, g)))
            (λ f.
              if_both ready (not initialized.success) (λ g h. absurd (cc (g, h)))
                (λ g h. (refl, law.built_closed r h))))

  requested-Ready : (p : PreparedProject W D) → Ready p → Ready (cancellation_requested b p).1
  unfolding cancellation_requested
  requested-Ready p ready = elim (Option-cases b.cancellation) [
    | inl e ↦ rw e ready
    | inr (poll, e) ↦
        rw e (ready.0, law.executor_laws.protocol.poll_keeps poll p.project.native e ∙ ready.1)
  ]

  execute-Returns :
      (fuel start : ℕ) (p : PreparedProject W D) (r : RunResult D R O V)
      → suc last < fuel
      → Ready p
      → Started b request r
      → Waiting request.multi_species_run r.multi_species_result
      → Returns (execute b request fuel start p r)
  unfolding execute
  execute-Returns fuel start p r enough ready started waiting =
      let laws =
        subst (λ n. ExecutorLaws (executor_backend b n) hydraulics quality last) (sym ready.0)
          law.executor_laws in
      let (e, found, ended) =
        executor_run-Ended laws p.prepared_network (is_some request.multi_species_run) fuel
          (executor_start b request p r) enough ready.1 started.no_results started.prepared in
      let kept =
        subst (λ os. Ended os r.multi_species_result e.result) started.options_kept ended in
      rw (execute, found)
        (
          _,
          refl,
          finalize_report_text-RunEnded request.quality_runs request.multi_species_run _
              request.network
              (continue_multi_species-RunEnded b request start _ e.saved e.result
                request.quality_runs request.multi_species_run e.result.multi_species_result
                (subst (Waiting request.multi_species_run) (sym ended.multi_species_kept) waiting)
                (subst (λ m. Ended request.quality_runs m e.result) (sym ended.multi_species_kept)
                  kept)),
        )

  prepare_and_execute-Returns :
      (fuel start : ℕ) (p : PreparedProject W D) (r : RunResult D R O V)
      → suc last < fuel
      → Started b request r
      → Waiting request.multi_species_run r.multi_species_result
      → Returns (prepare_and_execute b request fuel start p r)
  unfolding prepare_and_execute
  prepare_and_execute-Returns fuel start p r enough started waiting =
      let (status, prepared) = prepare b request.network p in
      let (asked, p') = cancellation_requested b prepared in
      if_both Returns asked
        (λ e. (_, refl, cancelled_run-RunEnded b request r p' started (inl waiting)))
        (λ e.
          if_both Returns (not status.success)
            (λ f. (_, refl, failed_run-RunEnded b request r status p' started waiting))
            (λ f.
              execute-Returns fuel start p' r enough
                (requested-Ready prepared (prepare-Ready p (ground (arith, f)))) started waiting))

  validate_and_prepare-Returns :
      (fuel start : ℕ) (p : PreparedProject W D) (r : RunResult D R O V) (wanted : Option O)
      → suc last < fuel
      → Started b request r
      → r.multi_species_result ≡ none
      → request.multi_species_run ≡ wanted
      → Returns (validate_and_prepare b request fuel start p r wanted)
  unfolding validate_and_prepare
  validate_and_prepare-Returns fuel start p r none enough started fresh e =
      prepare_and_execute-Returns fuel start p r enough started
        (subst (λ o. Waiting o r.multi_species_result) (sym e) fresh)
  validate_and_prepare-Returns fuel start p r (some options) enough started fresh e =
      let m : EpanetMultiSpeciesResult O V = record {
        options = options;
        result_timeline = record b.default_multi_species_timeline { simulation_start_utc = start };
        state = EpanetRunState.pending;
      } in
      let t = record r { multi_species_result = some m } in
      let started' : Started b request t = record {
        prepared = started.prepared;
        options_kept = started.options_kept;
        not_cancelled = started.not_cancelled;
        no_results = started.no_results;
      } in
      let waiting : Waiting request.multi_species_run (some m) =
        subst (λ o. Waiting o (some m)) (sym e) (m, refl, refl, ground arith) in
      if_both Returns (not (b.validate_multi_species request.network options).success)
        (λ f. (_, refl, failed_run-RunEnded b request t _ p started' waiting))
        (λ f. prepare_and_execute-Returns fuel start p t enough started' waiting)

  initial-Prepared :
      (start : ℕ) (os : List (QualityOptions D))
      → let qs =
          (initialize_run_result b (record request { quality_runs = os }) start).quality_results in
        All Prepared qs × (options_of qs ≡ os)
  unfolding initialize_run_result
  initial-Prepared start [] = (tt, refl)
  initial-Prepared start (o ∷ os) =
      let (prepared, kept) = initial-Prepared start os in
      (((ground arith, law.no_quality_results), prepared), ap (◌∷◌ o) kept)

  -- With collaborators that keep the laws and fuel for more than `last + 1` rounds of each solver, a
  -- request is answered. In the answer the run and each of its quality runs are neither pending nor
  -- running; the quality results have the options of the request, in its order; there is a settled
  -- multi-species result with the request's options exactly when the request asks for one, unless the
  -- run was cancelled before; and the state is `cancelled` exactly when the result says so.
  pub runner_run-RunEnded :
      (fuel : ℕ) (w : W)
      → suc last < fuel
      → (r : RunResult D R O V) × (Run.run b request fuel w ≡ some r)
        × RunEnded request.quality_runs request.multi_species_run r
  unfolding Run.run initialize_run_result
  runner_run-RunEnded fuel w enough =
      let (start, w') = b.now w in
      let r = initialize_run_result b request start in
      let (asked, p) = cancellation_requested b (default_prepared b w') in
      let (prepared, kept) = initial-Prepared start request.quality_runs in
      let started : Started b request r = record {
        prepared = prepared;
        options_kept = kept;
        not_cancelled = refl;
        no_results = law.no_hydraulic_results;
      } in
      if_both Returns asked
        (λ e. (_, refl, cancelled_run-RunEnded b request r p started (inr refl)))
        (λ e.
          validate_and_prepare-Returns fuel start p r request.multi_species_run enough started refl
            refl)
