-- ===== src/Executor/Outcome.antt =====
-- The whole of the executor's run: it returns, and leaves no quality run pending or running.
use aowis_server_epanet.Base.{
  ℕ, suc, ◌<◌, ◌≡◌, refl, sym, ap, ◌∙◌, subst, ◌⊎◌, inl, inr, Bool, true, not, Option, some, List,
  [], ◌∷◌, ◌++◌, append_assoc, append-nil, arith, Option-cases, same, All, All-append,
}
use mathlib.Core.List
use aowis_server_epanet.Model.Status.{Status, Externals}
use aowis_server_epanet.Model.Doubles.{Doubles}
use aowis_server_epanet.Model.Network.{Network}
use aowis_server_epanet.Model.Run.{EpanetRunState, EpanetQualityResult}
use aowis_server_epanet.Hydraulics.Outcome.{run-ends}
use aowis_server_epanet.Hydraulics.Phases.{Phase}
use aowis_server_epanet.Loop.{proceed, leave, if_both}
use aowis_server_epanet.Validation.Whole.{QualityOptions}
use aowis_server_epanet.Executor.{ExecutorBackend}
use aowis_server_epanet.Executor.Save.{Saved, reset_directory, clear, save_hydraulics}
use aowis_server_epanet.Executor.Report.{report_lines_of}
use aowis_server_epanet.Executor.Round.{
  RoundState, cancellation_requested, or_requested, quality_round,
}
use aowis_server_epanet.Executor.Run
use aowis_server_epanet.Executor.Run.{
  ExecutorState, finish, fail_hydraulics, cancel_hydraulics, finish_all, quality_loop,
  run_qualities, save_and_go_on, solve_hydraulics,
}
use aowis_server_epanet.Executor.Laws.{ExecutorLaws}
use aowis_server_epanet.Executor.Settled.{
  Settled, Idle, AllSettled, options_of, AllSettled-Idle, mark_pending-AllSettled,
  options-mark_pending, record_failure_status-keeps, Ended, finalize_run_state-Ended,
}
use aowis_server_epanet.Executor.Rounds.{Hands, quality_round-Hands}

-- A quality result before its run: not running, and without results.
abbrev pub Prepared : {D R : Type 0} → EpanetQualityResult D R → Type 0
Prepared q = Idle q × (q.result_timeline.results ≡ [])

pub Prepared-Idle :
    {D R : Type 0} (qs : List (EpanetQualityResult D R)) → All Prepared qs → All Idle qs
Prepared-Idle [] h = tt
Prepared-Idle (q ∷ qs) h = (h.0.0, Prepared-Idle qs h.1)

skipped-Settled : Settled EpanetRunState.skipped
skipped-Settled = ground arith

module _ {W D R : Type 0} {b : ExecutorBackend W D R} {hydraulics quality : W → Phase} {last : ℕ}
    (law : ExecutorLaws b hydraulics quality last) where
  clear_keeps : (s : Saved W) → hydraulics (clear b s).project.native ≡ hydraulics s.project.native
  unfolding clear reset_directory
  clear_keeps s = elim (Option-cases s.directory) [
    | inl e ↦ rw e refl
    | inr (path, e) ↦ rw e (law.remove_keeps path s.project.native)
  ]

module _ {W D R M : Type 0} ⦃ops : Doubles D⦄ ⦃ext : Externals⦄ {b : ExecutorBackend W D R}
    {hydraulics quality : W → Phase} {last : ℕ} (law : ExecutorLaws b hydraulics quality last)
    (network : Network D) where
  -- A return whose result has ended for runs with the options `os`, and the multi-species result
  -- `m`.
  abbrev Ends : List (QualityOptions D) → Option M → Option (ExecutorState W D R M) → Type 0
  Ends os m n = (e : ExecutorState W D R M) × (n ≡ some e) × Ended os m e.result

  finish-Ended :
      (os : List (QualityOptions D)) (m : Option M) (e : ExecutorState W D R M)
      → options_of e.result.quality_results ≡ os
      → e.result.multi_species_result ≡ m
      → All Idle e.result.quality_results
      → (e.result.cancelled ≡ true) ⊎ AllSettled e.result.quality_results
      → Ended os m (finish b network e).result
  unfolding finish
  finish-Ended os m e kept same idle done =
      subst (λ o. Ended o m (finish b network e).result) kept
        (subst (λ n. Ended (options_of e.result.quality_results) n (finish b network e).result) same
          (finalize_run_state-Ended (report_lines_of b e.saved.project) e.result idle done))

  fail_hydraulics-Ended :
      (status : Status) (e : ExecutorState W D R M)
      → All Idle e.result.quality_results
      → Ended
          (options_of e.result.quality_results)
          e.result.multi_species_result
          (fail_hydraulics b network status e).result
  unfolding fail_hydraulics
  fail_hydraulics-Ended status e idle =
      let kept = record_failure_status-keeps _ status in
      let keeps = kept.1 in
      let marked =
        mark_pending-AllSettled EpanetRunState.skipped _ skipped-Settled
          (subst (All Idle) (sym keeps) idle) in
      finish-Ended _ _ _ (options-mark_pending EpanetRunState.skipped _ ∙ ap options_of keeps)
        kept.3 (AllSettled-Idle _ marked) (inr marked)

  quality_loop-Ends :
      (fuel : ℕ) (os : List (QualityOptions D)) (m : Option M) (e : ExecutorState W D R M)
      (done rest : List (EpanetQualityResult D R)) (s : RoundState W D R M)
      → s.result.multi_species_result ≡ m
      → suc last < fuel
      → AllSettled done
      → All Prepared rest
      → options_of done ++ options_of rest ≡ os
      → Ends os m (quality_loop b network fuel e done rest s)
  unfolding quality_loop finish_all
  quality_loop-Ends fuel os m e done [] s same enough settled h kept = (
    _,
    refl,
    finish-Ended os m _ (sym (append-nil _) ∙ kept) same (AllSettled-Idle done settled)
        (inr settled),
  )
  quality_loop-Ends fuel os m e done (q ∷ rest) s same enough settled h kept =
      go (quality_round-Hands law network fuel q s enough h.0.1 h.0.0)
        (λ q' s' ended same_options same'.
          quality_loop-Ends fuel os m e (done ++ q' ∷ []) rest s' (same' ∙ same) enough
            (All-append (λ p. Settled p.state) done (q' ∷ []) settled (ended, tt)) h.1
            (options_done q' same_options))
    where
      swapped :
          (q' : EpanetQualityResult D R)
          → q'.options ≡ q.options
          → options_of done ++ q'.options ∷ options_of rest ≡ os
      swapped q' same_options = ap (λ o. options_of done ++ o ∷ options_of rest) same_options ∙ kept

      options_done :
          (q' : EpanetQualityResult D R)
          → q'.options ≡ q.options
          → options_of (done ++ q' ∷ []) ++ options_of rest ≡ os
      options_done q' same_options =
          ap (λ o. o ++ options_of rest) (List.map-append (λ p. p.options) done (q' ∷ []))
          ∙ append_assoc (options_of done) (q'.options ∷ []) (options_of rest)
          ∙ swapped q' same_options

      go :
          Hands law network q.options s.result.cancelled s.result.multi_species_result
            (quality_round b network fuel q s)
          → ((q' : EpanetQualityResult D R) (s' : RoundState W D R M)
              → Settled q'.state
              → q'.options ≡ q.options
              → s'.result.multi_species_result ≡ s.result.multi_species_result
              → Ends os m (quality_loop b network fuel e (done ++ q' ∷ []) rest s'))
          → Ends os m (quality_loop b network fuel e done (q ∷ rest) s)
      go (proceed (q', s'), found, h') rest_ends =
          rw (quality_loop, found) (rest_ends q' s' h'.0 h'.1 h'.3)
      go (leave (q', s'), found, h') rest_ends =
          rw (quality_loop, found)
            (
              _,
              refl,
              finish-Ended os m _
                  (List.map-append (λ p. p.options) done (q' ∷ rest) ∙ swapped q' h'.1)
                  (h'.3 ∙ same)
                  (All-append Idle done (q' ∷ rest) (AllSettled-Idle done settled)
                    (h'.0, Prepared-Idle rest h.1))
                  (inl h'.2),
            )

  run_qualities-Ends :
      (fuel : ℕ) (e : ExecutorState W D R M)
      → suc last < fuel
      → All Prepared e.result.quality_results
      → Ends
          (options_of e.result.quality_results)
          e.result.multi_species_result
          (run_qualities b network fuel e)
  unfolding run_qualities
  run_qualities-Ends fuel e enough h =
      quality_loop-Ends fuel (options_of e.result.quality_results) e.result.multi_species_result e
        [] e.result.quality_results _ (record_failure_status-keeps _ _).3 enough tt h refl

  cancel_hydraulics-Ended :
      (status : Status) (e : ExecutorState W D R M)
      → All Idle e.result.quality_results
      → Ended
          (options_of e.result.quality_results)
          e.result.multi_species_result
          (cancel_hydraulics b network status e).result
  unfolding cancel_hydraulics
  cancel_hydraulics-Ended status e idle = finish-Ended _ _ _ refl refl idle (inl refl)

  save_and_go_on-Ends :
      (persist_hydraulic_file : Bool) (seen fuel : ℕ) (e : ExecutorState W D R M)
      → suc last < fuel
      → All Prepared e.result.quality_results
      → Ends
          (options_of e.result.quality_results)
          e.result.multi_species_result
          (save_and_go_on b network persist_hydraulic_file seen fuel e)
  unfolding save_and_go_on
  save_and_go_on-Ends persist_hydraulic_file seen fuel e enough h =
      let (status, saved) = save_hydraulics b persist_hydraulic_file e.saved in
      let idle = Prepared-Idle e.result.quality_results h in
      let ends = Ends (options_of e.result.quality_results) e.result.multi_species_result in
      if_both ends (cancellation_requested b saved.project).0
        (λ asked. (_, refl, cancel_hydraulics-Ended status _ idle))
        (λ asked.
          if_both ends (not status.success)
            (λ failed. (_, refl, fail_hydraulics-Ended status _ idle))
            (λ saved. run_qualities-Ends fuel _ enough h))

  solve_hydraulics-Ends :
      (persist_hydraulic_file : Bool) (seen fuel : ℕ) (e : ExecutorState W D R M)
      → suc last < fuel
      → hydraulics e.saved.project.native ≡ Phase.closed
      → e.result.result_timeline.results ≡ []
      → All Prepared e.result.quality_results
      → Ends
          (options_of e.result.quality_results)
          e.result.multi_species_result
          (solve_hydraulics b network persist_hydraulic_file seen fuel e)
  unfolding solve_hydraulics
  solve_hydraulics-Ends persist_hydraulic_file seen fuel e enough closed fresh h =
      let idle = Prepared-Idle e.result.quality_results h in
      let ends = Ends (options_of e.result.quality_results) e.result.multi_species_result in
      let ((status, t), found, _, _, _) =
        run-ends network law.clock law.protocol fuel e.saved.project e.result.result_timeline enough
          closed fresh in
      rw (solve_hydraulics, found)
        (if_both ends (or_requested b t.cancelled t.project).0
          (λ stop. (_, refl, cancel_hydraulics-Ended status _ idle))
          (λ stop.
            if_both ends (not status.success)
              (λ failed. (_, refl, fail_hydraulics-Ended status _ idle))
              (λ solved. save_and_go_on-Ends persist_hydraulic_file seen fuel _ enough h)))

  -- With a Toolkit that keeps the laws and fuel for more than `last + 1` rounds of each solver, a run
  -- that starts with hydraulics closed, no hydraulic results, and quality results that neither run nor
  -- hold results, returns. No quality result is then pending or running, nor is the whole result; each
  -- quality result has the options that stood at its place; the multi-species result is the one it
  -- started with; and the state is `cancelled` exactly when
  -- the result is marked as cancelled.
  pub executor_run-Ended :
      (persist_hydraulic_file : Bool) (fuel : ℕ) (e : ExecutorState W D R M)
      → suc last < fuel
      → hydraulics e.saved.project.native ≡ Phase.closed
      → e.result.result_timeline.results ≡ []
      → All Prepared e.result.quality_results
      → (e' : ExecutorState W D R M) × (Run.run b network persist_hydraulic_file fuel e ≡ some e')
        × Ended (options_of e.result.quality_results) e.result.multi_species_result e'.result
  unfolding Run.run
  executor_run-Ended persist_hydraulic_file fuel e enough closed fresh h =
      let idle = Prepared-Idle e.result.quality_results h in
      let p = (clear b e.saved).project in
      let closed' = law.configure_keeps p ∙ (clear_keeps law e.saved ∙ closed) in
      if_both (Ends (options_of e.result.quality_results) e.result.multi_species_result)
        (not (b.configure_hydraulic_run p).0.success)
        (λ failed. (_, refl, fail_hydraulics-Ended _ _ idle))
        (λ configured. solve_hydraulics-Ends persist_hydraulic_file _ fuel _ enough closed' fresh h)
