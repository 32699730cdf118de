-- ===== src/Manager/Steps.antt =====
-- The steps of the manager's threads, in any order, and the states that they reach.
use aowis_server_epanet.Base.{ℕ, suc, ◌<◌, ◌≡◌, ◌≢◌, true, List, [], ◌∷◌, ◌++◌, map, All, ℤ}
use aowis_server_epanet.Model.Status.{Uuid}
use aowis_server_epanet.Manager.{
  Task, Stage, registered, waiting, starting, running, finished, Signal, Manager, register,
  queue_task, cancel, cancel_all, set_max_worker_count, start_task, finish_task, post_completed,
  deliver,
}

module _ {Q R : Type 0} where
  abbrev pub ids_of : List (Task Q × Stage R) → List Uuid
  ids_of entries = map (λ (e : Task Q × Stage R). e.0.simulation_id) entries

  -- QThreadPool counts the tasks that its threads work on.
  abbrev pub busy : List (Task Q × Stage R) → ℕ
  busy [] = 0
  busy ((task, registered) ∷ entries) = busy entries
  busy ((task, waiting) ∷ entries) = busy entries
  busy ((task, starting) ∷ entries) = suc (busy entries)
  busy ((task, running) ∷ entries) = suc (busy entries)
  busy ((task, finished result) ∷ entries) = suc (busy entries)

  pub data Step : Manager Q R → Manager Q R → Type 0 where
    -- QUuid::createUuid gives a UUID that no task has.
    registers :
        (m : Manager Q R) (id : Uuid) (request : Q)
        → All (λ v. id ≢ v) (ids_of m.tasks)
        → Step m (register id request m)
    queues :
        (m : Manager Q R) (before after : List (Task Q × Stage R)) (task : Task Q)
        → m.tasks ≡ before ++ (task, registered) ∷ after
        → Step m (queue_task before task after m)
    cancels : (m : Manager Q R) (id : Uuid) → Step m (cancel id m).1
    cancels_all : (m : Manager Q R) → Step m (cancel_all m)
    sets_workers : (m : Manager Q R) (count : ℤ) → Step m (set_max_worker_count count m)
    -- A free thread takes a task.
    takes :
        (m : Manager Q R) (before after : List (Task Q × Stage R)) (task : Task Q)
        → m.tasks ≡ before ++ (task, waiting) ∷ after
        → busy m.tasks < m.max_thread_count
        → Step m (record m { tasks = before ++ (task, starting) ∷ after })
    starts :
        (m : Manager Q R) (before after : List (Task Q × Stage R)) (task : Task Q)
        → m.tasks ≡ before ++ (task, starting) ∷ after
        → Step m (start_task before task after m)
    finishes :
        (m : Manager Q R) (before after : List (Task Q × Stage R)) (task : Task Q) (result : R)
        → m.tasks ≡ before ++ (task, running) ∷ after
        → Step m (finish_task before task result after m)
    posts :
        (m : Manager Q R) (before after : List (Task Q × Stage R)) (task : Task Q) (result : R)
        → m.tasks ≡ before ++ (task, finished result) ∷ after
        → Step m (post_completed before task result after m)
    delivers :
        (m : Manager Q R) (signal : Signal R) (rest : List (Signal R))
        → m.posted ≡ signal ∷ rest
        → Step m (deliver signal rest m)
    -- The destructor's `shutting_down.store(true)`.
    shuts_down : (m : Manager Q R) → Step m (record m { shutting_down = true })
    -- QThreadPool::clear, for one task of the queue, and the end of the destructor.
    drops :
        (m : Manager Q R) (before after : List (Task Q × Stage R)) (task : Task Q)
        → m.tasks ≡ before ++ (task, waiting) ∷ after
        → m.shutting_down ≡ true
        → Step m (record m { tasks = before ++ after })
    ends :
        (m : Manager Q R)
        → m.tasks ≡ []
        → m.shutting_down ≡ true
        → Step m (record m { cancellation_flags = [] })

  -- The states of a manager that starts with nothing submitted.
  pub data Reachable : Manager Q R → Type 0 where
    fresh : (m : Manager Q R) → m.tasks ≡ [] → m.cancellation_flags ≡ [] → Reachable m
    next : {m n : Manager Q R} → Reachable m → Step m n → Reachable n
