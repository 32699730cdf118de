-- ===== src/Manager/Ordered.antt =====
-- The signals of a simulation come in order and once each, as long as no shutdown begins.
use aowis_server_epanet.Base.{
  ◌≡◌, refl, sym, ap, ◌∙◌, subst, ◌≢◌, ◌⊎◌, inl, inr, true, false, [], ◌∷◌, ◌++◌, append_assoc,
  append-nil, Option-cases, length, All,
}
use aowis_server_epanet.Loop.{if_both}
use aowis_server_epanet.Model.Status.{Uuid}
use aowis_server_epanet.Projection.Received.{NoRepeat}
use aowis_server_epanet.Manager.{
  Task, registered, waiting, starting, running, finished, Signal, queued, started, completed,
  Manager, find, register, queue_task, cancel, cancel_all, start_task, finish_task, post_completed,
  deliver,
}
use aowis_server_epanet.Manager.Steps.{
  ids_of, Step, registers, queues, cancels, cancels_all, sets_workers, takes, starts, finishes,
  posts, delivers, shuts_down, drops, ends,
}
use aowis_server_epanet.Manager.Registered.{AtStage, Sound}
use aowis_server_epanet.Manager.Safety.{moves-Sound}
use aowis_server_epanet.Manager.Shutdown.{shutdown_kept}
use aowis_server_epanet.Manager.Signals.{
  about, about-append, stage_of, Reported, all_signals, Claims, about_other, about_own,
  about_emitted, about_posted, empty_parts, stage_of-other, stage_of-own, by_id, restaged-Claims,
  removed-Claims,
}

module _ {Q R : Type 0} where
  -- QUuid::createUuid gives a UUID that no earlier simulation had.
  abbrev pub NewId : {m n : Manager Q R} → Step m n → Type 0
  NewId (registers m id request new) = about id (all_signals m) ≡ []
  NewId _ = Unit

  -- The steps of the threads from a new manager on, with UUIDs that are new.
  pub data History : Manager Q R → Type 0 where
    created :
        (m : Manager Q R)
        → m.tasks ≡ []
        → m.cancellation_flags ≡ []
        → m.posted ≡ []
        → m.signals ≡ []
        → History m
    goes_on : {m n : Manager Q R} → History m → (s : Step m n) → NewId s → History n

  -- The signals of every simulation are those of its task's stage, unless a shutdown began.
  abbrev InOrder : Manager Q R → Type 0
  InOrder m = (m.shutting_down ≡ true) ⊎ Claims m.tasks (all_signals m)

  register-Claims :
      (m : Manager Q R) (id : Uuid) (request : Q)
      → All (λ v. id ≢ v) (ids_of m.tasks)
      → about id (all_signals m) ≡ []
      → Claims m.tasks (all_signals m)
      → Claims (register id request m).tasks (all_signals (register id request m))
  unfolding register
  register-Claims m id request new unused claims =
      let task : Task Q = record {
        simulation_id = id;
        request = request;
        cancellation_flag = length m.flags;
      } in
      let alone = append-nil m.tasks in
      by_id id
        (λ k.
          Reported k (stage_of k (m.tasks ++ (task, registered) ∷ [])) (about k (all_signals m)))
        (subst (λ st. Reported id st (about id (all_signals m)))
          (sym (
            stage_of-own m.tasks [] task registered
              (subst (λ es. All (λ v. id ≢ v) (ids_of es)) (sym alone) new)))
          unused)
        (λ k other.
          subst (λ st. Reported k st (about k (all_signals m)))
            (sym (stage_of-other k m.tasks [] task registered other ∙ ap (stage_of k) alone))
            (claims k))

  queued_own :
      (m : Manager Q R) (id : Uuid)
      → about id (all_signals m) ≡ []
      → about id ((m.signals ++ queued id ∷ []) ++ m.posted) ≡ queued id ∷ []
  queued_own m id none_yet =
      let signal : Signal R = queued id in
      let parts =
        empty_parts (about id m.signals) (about id m.posted)
          (sym (about-append id m.signals m.posted) ∙ none_yet) in
      about_emitted id m.signals m.posted signal
      ∙ (ap (λ es. es ++ (about id (signal ∷ []) ++ about id m.posted)) parts.0
          ∙ (ap (λ es. es ++ about id m.posted) (about_own signal)
              ∙ ap (λ es. signal ∷ es) parts.1))

  -- A posted signal, where the task goes on or is gone.
  posted_other :
      (m : Manager Q R) (signal : Signal R) (k : Uuid)
      → about k (signal ∷ []) ≡ []
      → about k (m.signals ++ (m.posted ++ signal ∷ [])) ≡ about k (all_signals m)
  posted_other m signal k e =
      about_posted k m.signals m.posted signal
      ∙ (ap (λ es. about k (all_signals m) ++ es) e ∙ append-nil _)

  moves-InOrder :
      (m n : Manager Q R) (s : Step m n)
      → NewId s
      → Sound m
      → Claims m.tasks (all_signals m)
      → InOrder n
  unfolding queue_task cancel cancel_all start_task finish_task post_completed deliver
  moves-InOrder m _ (registers _ id request new) unused sound h =
      inr (register-Claims m id request new unused h)
  moves-InOrder m _ (queues _ before after task e) unused sound h =
      let id = task.simulation_id in
      let signal : Signal R = queued id in
      inr (
        restaged-Claims before after task registered (subst NoRepeat (ap ids_of e) sound.0)
          (all_signals m) ((m.signals ++ signal ∷ []) ++ m.posted)
          (λ k other.
            about_emitted k m.signals m.posted signal
            ∙ (ap (λ es. about k m.signals ++ (es ++ about k m.posted)) (about_other k signal other)
                ∙ sym (about-append k m.signals m.posted)))
          (subst (λ es. Claims es (all_signals m)) e h) waiting (queued_own m id))
  moves-InOrder m _ (cancels _ id) unused sound h =
      elim (Option-cases (find m.cancellation_flags id)) [
        | inl e ↦ rw (cancel, e) (inr h)
        | inr (flag, e) ↦ rw (cancel, e) (inr h)
      ]
  moves-InOrder m _ (cancels_all _) unused sound h = inr h
  moves-InOrder m _ (sets_workers _ count) unused sound h = inr h
  moves-InOrder m _ (takes _ before after task e free) unused sound h = inr (
      restaged-Claims before after task waiting (subst NoRepeat (ap ids_of e) sound.0)
        (all_signals m) (all_signals m) (λ k other. refl)
        (subst (λ es. Claims es (all_signals m)) e h) starting (λ same. same))
  moves-InOrder m _ (starts _ before after task e) unused sound h =
      let id = task.simulation_id in
      let signal : Signal R = started id in
      if_both InOrder m.shutting_down (λ f. inl f)
        (λ f. inr (
          restaged-Claims before after task starting (subst NoRepeat (ap ids_of e) sound.0)
            (all_signals m) (m.signals ++ (m.posted ++ signal ∷ []))
            (λ k other. posted_other m signal k (about_other k signal other))
            (subst (λ es. Claims es (all_signals m)) e h) running
            (λ so_far.
              about_posted id m.signals m.posted signal
              ∙ (ap (λ es. es ++ about id (signal ∷ [])) so_far
                  ∙ ap (λ es. queued id ∷ es) (about_own signal)))))
  moves-InOrder m _ (finishes _ before after task result e) unused sound h = inr (
      restaged-Claims before after task running (subst NoRepeat (ap ids_of e) sound.0)
        (all_signals m) (all_signals m) (λ k other. refl)
        (subst (λ es. Claims es (all_signals m)) e h) (finished result) (λ same. same))
  moves-InOrder m _ (posts _ before after task result e) unused sound h =
      let id = task.simulation_id in
      let signal : Signal R = completed id result in
      inr (
        removed-Claims before after task (finished result) (subst NoRepeat (ap ids_of e) sound.0)
          (all_signals m) (m.signals ++ (m.posted ++ signal ∷ []))
          (λ k other. posted_other m signal k (about_other k signal other))
          (subst (λ es. Claims es (all_signals m)) e h)
          (λ so_far. inr (
            result,
            about_posted id m.signals m.posted signal
                ∙ (ap (λ es. es ++ about id (signal ∷ [])) so_far
                    ∙ ap (λ es. queued id ∷ started id ∷ es) (about_own signal)),
          )))
  moves-InOrder m _ (delivers _ signal rest e) unused sound h =
      if_both (λ signals. (m.shutting_down ≡ true) ⊎ Claims m.tasks (signals ++ rest))
        m.shutting_down (λ f. inl f)
        (λ f. inr (
          subst (Claims m.tasks)
            (ap (λ es. m.signals ++ es) e ∙ sym (append_assoc m.signals (signal ∷ []) rest)) h))
  moves-InOrder m _ (shuts_down _) unused sound h = inl refl
  moves-InOrder m _ (drops _ before after task e stop) unused sound h = inl stop
  moves-InOrder m _ (ends _ e stop) unused sound h = inl stop

  new-Claims :
      (m : Manager Q R)
      → m.tasks ≡ []
      → m.posted ≡ []
      → m.signals ≡ []
      → Claims m.tasks (all_signals m)
  unfolding about stage_of
  new-Claims m e p s =
      subst (λ es. Claims es (all_signals m)) (sym e)
        (subst (λ ss. Claims {Q = Q} [] (ss ++ m.posted)) (sym s)
          (subst (λ ps. Claims {Q = Q} [] ([] ++ ps)) (sym p) (λ k. inl refl)))

  reached-InOrder : (m : Manager Q R) → History m → Sound m × InOrder m
  reached-InOrder m (created _ e _ p s) = (
    (subst NoRepeat (ap ids_of (sym e)) tt, subst (All (AtStage m)) (sym e) tt),
    inr (new-Claims m e p s),
  )
  reached-InOrder n (goes_on {m} h s unused) =
      let (sound, order) = reached-InOrder m h in
      (
        moves-Sound m n s sound,
        elim order [
          | inl stop ↦ inl (shutdown_kept m n s stop)
          | inr claims ↦ moves-InOrder m n s unused sound claims
        ],
      )

  -- In every state that the threads reach from a new manager, in any order of their steps, where the
  -- UUIDs of the simulations are new and no shutdown has begun, the signals of a simulation that were
  -- emitted or wait for the manager's thread are those of the stage of its task: none before it is
  -- queued; queued, from then on; queued and started while the runner works and until its result is
  -- posted. A simulation with no task has queued, started and completed with a result, in this order
  -- and once each, or it has no signal.
  pub signals-InOrder :
      (m : Manager Q R) (id : Uuid)
      → History m
      → m.shutting_down ≡ false
      → Reported id (stage_of id m.tasks) (about id (all_signals m))
  signals-InOrder m id history going = elim ((reached-InOrder m history).1) [
    | inl stop ↦ absurd (cc (stop, going))
    | inr claims ↦ claims id
  ]
