-- ===== src/Manager/Entries.antt =====
-- The hash of cancellation flags while the manager is not shutting down: src/lib/
-- epanet_simulation_manager.cpp, `submit`, `removeSimulation` and `activeSimulationCount`.
use aowis_server_epanet.Base.{
  ℕ, suc, ◌+◌, ◌≡◌, refl, sym, ap, ◌∙◌, subst, ◌≢◌, ◌⊎◌, inl, inr, true, false, List, [], ◌∷◌, ◌++◌,
  append_assoc, append-nil, arith, ==_iff, Option-cases, length, length-append, All,
}
use aowis_server_epanet.Loop.{if_both}
use aowis_server_epanet.Model.Status.{Uuid}
use aowis_server_epanet.Projection.Received.{NoRepeat}
use aowis_server_epanet.Manager.{
  Task, Stage, registered, waiting, starting, running, finished, Manager, find, remove, register,
  queue_task, cancel, cancel_all, start_task, finish_task, post_completed, deliver,
  active_simulation_count,
}
use aowis_server_epanet.Manager.Steps.{
  ids_of, Step, registers, queues, cancels, cancels_all, sets_workers, takes, starts, finishes,
  posts, delivers, shuts_down, drops, ends, Reachable, fresh, next,
}
use aowis_server_epanet.Manager.Registered.{Sound, without-NoRepeat}
use aowis_server_epanet.Manager.Safety.{reached-Sound}
use aowis_server_epanet.Manager.Shutdown.{shutdown_kept}

remove-append :
    (xs ys : List (Uuid × ℕ)) (id : Uuid) → remove (xs ++ ys) id ≡ remove xs id ++ remove ys id
unfolding remove
remove-append [] ys id = refl
remove-append ((key, flag) ∷ xs) ys id = ground (arith, remove-append xs ys id)

module _ {Q R : Type 0} where
  -- What the hash holds for a task: nothing once its run is over.
  abbrev pub entry_of : Task Q → Stage R → List (Uuid × ℕ)
  entry_of task (finished result) = []
  entry_of task registered = (task.simulation_id, task.cancellation_flag) ∷ []
  entry_of task waiting = (task.simulation_id, task.cancellation_flag) ∷ []
  entry_of task starting = (task.simulation_id, task.cancellation_flag) ∷ []
  entry_of task running = (task.simulation_id, task.cancellation_flag) ∷ []

  -- One entry for each task whose run is not over, the newest first.
  abbrev pub entries_of : List (Task Q × Stage R) → List (Uuid × ℕ)
  entries_of [] = []
  entries_of ((task, stage) ∷ tasks) = entries_of tasks ++ entry_of task stage

  -- How many tasks have a run that is not over.
  abbrev pub unfinished : List (Task Q × Stage R) → ℕ
  unfinished [] = 0
  unfinished ((task, finished result) ∷ tasks) = unfinished tasks
  unfinished ((task, registered) ∷ tasks) = suc (unfinished tasks)
  unfinished ((task, waiting) ∷ tasks) = suc (unfinished tasks)
  unfinished ((task, starting) ∷ tasks) = suc (unfinished tasks)
  unfinished ((task, running) ∷ tasks) = suc (unfinished tasks)

  length-entries_of :
      (tasks : List (Task Q × Stage R)) → length (entries_of tasks) ≡ unfinished tasks
  length-entries_of [] = refl
  length-entries_of ((task, stage) ∷ tasks) =
      length-append (entries_of tasks) (entry_of task stage)
      ∙ counted (length-entries_of tasks) stage
    where
      counted :
          length (entries_of tasks) ≡ unfinished tasks
          → (s : Stage R)
          → length (entries_of tasks) + length (entry_of task s) ≡ unfinished ((task, s) ∷ tasks)
      counted rest (finished result) = omega (arith, rest)
      counted rest registered = omega (arith, rest)
      counted rest waiting = omega (arith, rest)
      counted rest starting = omega (arith, rest)
      counted rest running = omega (arith, rest)

  entries_of-append :
      (xs ys : List (Task Q × Stage R)) → entries_of (xs ++ ys) ≡ entries_of ys ++ entries_of xs
  entries_of-append [] ys = sym (append-nil (entries_of ys))
  entries_of-append ((task, stage) ∷ xs) ys =
      ap (λ es. es ++ entry_of task stage) (entries_of-append xs ys)
      ∙ append_assoc (entries_of ys) (entries_of xs) (entry_of task stage)

  remove-entry_of :
      (task : Task Q) (stage : Stage R) (id : Uuid)
      → id ≢ task.simulation_id
      → remove (entry_of task stage) id ≡ entry_of task stage
  unfolding remove
  remove-entry_of task (finished result) id other = refl
  remove-entry_of task registered id other = ground (arith, ==_iff task.simulation_id id, other)
  remove-entry_of task waiting id other = ground (arith, ==_iff task.simulation_id id, other)
  remove-entry_of task starting id other = ground (arith, ==_iff task.simulation_id id, other)
  remove-entry_of task running id other = ground (arith, ==_iff task.simulation_id id, other)

  -- A removal leaves the entries of the other tasks.
  remove-entries_of :
      (tasks : List (Task Q × Stage R)) (id : Uuid)
      → All (λ v. id ≢ v) (ids_of tasks)
      → remove (entries_of tasks) id ≡ entries_of tasks
  unfolding remove
  remove-entries_of [] id h = refl
  remove-entries_of ((task, stage) ∷ tasks) id h =
      remove-append (entries_of tasks) (entry_of task stage) id
      ∙ (ap (λ es. es ++ remove (entry_of task stage) id) (remove-entries_of tasks id h.1)
          ∙ ap (λ es. entries_of tasks ++ es) (remove-entry_of task stage id h.0))

  remove_own :
      (task : Task Q) (stage : Stage R) → remove (entry_of task stage) task.simulation_id ≡ []
  unfolding remove
  remove_own task (finished result) = refl
  remove_own task registered = ground (arith, ==_iff task.simulation_id task.simulation_id)
  remove_own task waiting = ground (arith, ==_iff task.simulation_id task.simulation_id)
  remove_own task starting = ground (arith, ==_iff task.simulation_id task.simulation_id)
  remove_own task running = ground (arith, ==_iff task.simulation_id task.simulation_id)

  -- An entry in the middle.
  entries_of-middle :
      (before after : List (Task Q × Stage R)) (task : Task Q) (s : Stage R)
      → entries_of (before ++ (task, s) ∷ after)
        ≡ entries_of after ++ (entry_of task s ++ entries_of before)
  entries_of-middle before after task s =
      entries_of-append before ((task, s) ∷ after)
      ∙ append_assoc (entries_of after) (entry_of task s) (entries_of before)

  -- Removing the simulation of a task removes exactly its entry.
  remove-entries_of-middle :
      (before after : List (Task Q × Stage R)) (task : Task Q) (s : Stage R)
      → NoRepeat (ids_of (before ++ (task, s) ∷ after))
      → remove (entries_of (before ++ (task, s) ∷ after)) task.simulation_id
        ≡ entries_of (before ++ after)
  remove-entries_of-middle before after task s ids =
      let id = task.simulation_id in
      let others = (without-NoRepeat before after (task, s) ids).1 in
      let whole = remove-entries_of (before ++ after) id others in
      let split = entries_of-append before after in
      ap (λ es. remove es id) (entries_of-middle before after task s)
      ∙ (remove-append (entries_of after) (entry_of task s ++ entries_of before) id
          ∙ (ap (λ es. remove (entries_of after) id ++ es)
                (remove-append (entry_of task s) (entries_of before) id
                  ∙ ap (λ es. es ++ remove (entries_of before) id) (remove_own task s))
              ∙ (sym (remove-append (entries_of after) (entries_of before) id)
                  ∙ (ap (λ es. remove es id) (sym split) ∙ whole))))

  -- The hash holds exactly the entries of the tasks, unless a shutdown began.
  abbrev Exact : Manager Q R → Type 0
  Exact m = (m.shutting_down ≡ true) ⊎ (m.cancellation_flags ≡ entries_of m.tasks)

  -- A task at another stage whose entry is the same.
  restaged-entries :
      (m : Manager Q R) (before after : List (Task Q × Stage R)) (task : Task Q) (s t : Stage R)
      → m.tasks ≡ before ++ (task, s) ∷ after
      → m.cancellation_flags ≡ entries_of m.tasks
      → entry_of task s ≡ entry_of task t
      → m.cancellation_flags ≡ entries_of (before ++ (task, t) ∷ after)
  restaged-entries m before after task s t e h same =
      h
      ∙ (ap entries_of e
          ∙ (entries_of-middle before after task s
              ∙ (ap (λ es. entries_of after ++ (es ++ entries_of before)) same
                  ∙ sym (entries_of-middle before after task t))))

  moves-Exact :
      (m n : Manager Q R) → Step m n → Sound m → m.cancellation_flags ≡ entries_of m.tasks → Exact n
  unfolding register queue_task cancel cancel_all start_task finish_task post_completed deliver
  moves-Exact m _ (registers _ id request new) sound h = inr (
      ap (◌∷◌ (id, length m.flags)) (ap (λ es. remove es id) h ∙ remove-entries_of m.tasks id new)
      ∙ sym (entries_of-append m.tasks _))
  moves-Exact m _ (queues _ before after task e) sound h =
      inr (restaged-entries m before after task registered waiting e h refl)
  moves-Exact m _ (cancels _ id) sound h = elim (Option-cases (find m.cancellation_flags id)) [
    | inl e ↦ rw (cancel, e) (inr h)
    | inr (flag, e) ↦ rw (cancel, e) (inr h)
  ]
  moves-Exact m _ (cancels_all _) sound h = inr h
  moves-Exact m _ (sets_workers _ count) sound h = inr h
  moves-Exact m _ (takes _ before after task e free) sound h =
      inr (restaged-entries m before after task waiting starting e h refl)
  moves-Exact m _ (starts _ before after task e) sound h =
      if_both Exact m.shutting_down (λ f. inl f)
        (λ f. inr (restaged-entries m before after task starting running e h refl))
  moves-Exact m _ (finishes _ before after task result e) sound h =
      let ids = subst NoRepeat (ap ids_of e) sound.0 in
      inr (
        ap (λ es. remove es task.simulation_id) (h ∙ ap entries_of e)
        ∙ (remove-entries_of-middle before after task running ids
            ∙ (entries_of-append before after
                ∙ sym (entries_of-middle before after task (finished result)))))
  moves-Exact m _ (posts _ before after task result e) sound h = inr (
      h
      ∙ (ap entries_of e
          ∙ (entries_of-middle before after task (finished result)
              ∙ sym (entries_of-append before after))))
  moves-Exact m _ (delivers _ signal rest e) sound h = inr h
  moves-Exact m _ (shuts_down _) sound h = inl refl
  moves-Exact m _ (drops _ before after task e stop) sound h = inl stop
  moves-Exact m _ (ends _ e stop) sound h = inl stop

  reached-Exact : (m : Manager Q R) → Reachable m → Exact m
  reached-Exact m (fresh _ e f) = inr (f ∙ ap entries_of (sym e))
  reached-Exact n (next {m} r s) = elim (reached-Exact m r) [
    | inl stop ↦ inl (shutdown_kept m n s stop)
    | inr h ↦ moves-Exact m n s (reached-Sound m r) h
  ]

  -- In every state that the steps of the threads reach, in any order, before a shutdown begins, the hash
  -- of flags has exactly one entry for each task whose run is not over, the newest first, with the
  -- task's UUID and flag, and the number of active simulations is the number of these tasks.
  pub threads-Entries :
      (m : Manager Q R)
      → Reachable m
      → m.shutting_down ≡ false
      → (m.cancellation_flags ≡ entries_of m.tasks)
        × (active_simulation_count m ≡ unfinished m.tasks)
  threads-Entries m reached going = elim (reached-Exact m reached) [
    | inl stop ↦ absurd (cc (stop, going))
    | inr h ↦ (h, ap length h ∙ length-entries_of m.tasks)
  ]
