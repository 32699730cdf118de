-- ===== src/Manager.antt =====
-- src/lib/epanet_simulation_manager.cpp: simulations on a thread pool, each with a cancellation flag.
-- Every function is one step of a thread: what the mutex guards, one atomic load or store, or one call
-- of the thread pool or of the event loop. A test of the shutdown flag and what it decides are one step,
-- since no other thread's step in between changes what that does.
pub mod Steps
pub mod Registered
pub mod Safety
pub mod Cancellation
pub mod Flags
pub mod Shutdown
pub mod Entries
pub mod Signals
pub mod Ordered
use aowis_server_epanet.Base.{
  ℕ, zero, suc, ◌+◌, ◌-◌, ◌*◌, ◌/◌, ◌%◌, ◌^◌, ◌≤◌, ◌<◌, min, max, String, ◌≡◌, refl, sym, ap, ◌∙◌,
  subst, ◌≢◌, ◌↔◌, ◌⊎◌, inl, inr, Bool, true, false, not, ◌&&◌, ◌||◌, Option, none, some, List, [],
  ◌∷◌, ◌++◌, map, append_assoc, append-nil, arith, eq_iff, ltb, leb, ◌==◌, str_eq, if◌then◌else◌,
  ==_iff, Bool-cases, Option-cases, decided, same, decided_iff, same_iff, length, take, drop,
  length-append, All, All-append, get_elem?, is_empty, update_last, any, any-append, ℤ, pos, negsuc,
  pos_part, neg_part, ltb_ℤ, eqb_ℤ,
}
use aowis_server_epanet.Model.Status.{Uuid}

-- A task holds a shared pointer to its flag, which is a place in the store of flags.
pub record Task (Q : Type 0) : Type 0 where
  pub simulation_id : Uuid
  pub request : Q
  pub cancellation_flag : ℕ

-- Where a task is: registered by submit, in the pool's queue, at its entry, in the runner, or after its
-- removal, with the runner's result.
pub data Stage (R : Type 0) : Type 0 where
  registered waiting starting running : Stage R
  finished : R → Stage R

-- signalSimulationQueued, signalSimulationStarted and signalSimulationCompleted
pub data Signal (R : Type 0) : Type 0 where
  queued started : Uuid → Signal R
  completed : Uuid → R → Signal R

pub record Manager (Q R : Type 0) : Type 0 where
  -- QHash<QUuid, std::shared_ptr<std::atomic_bool>>, and the flags that are pointed to
  pub cancellation_flags : List (Uuid × ℕ)
  pub flags : List Bool
  -- the tasks that exist
  pub tasks : List (Task Q × Stage R)
  pub shutting_down : Bool
  -- the calls that are queued for the manager's thread, and the signals that were emitted
  pub posted : List (Signal R)
  pub signals : List (Signal R)
  pub max_thread_count : ℕ

-- QHash::constFind, remove and insert
unfoldable pub find : List (Uuid × ℕ) → Uuid → Option ℕ
find [] id = none
find ((key, flag) ∷ entries) id = if key == id then some flag else find entries id

unfoldable pub remove : List (Uuid × ℕ) → Uuid → List (Uuid × ℕ)
remove [] id = []
remove ((key, flag) ∷ entries) id =
    if key == id then remove entries id else (key, flag) ∷ remove entries id

abbrev pub insert : List (Uuid × ℕ) → Uuid → ℕ → List (Uuid × ℕ)
insert entries id flag = (id, flag) ∷ remove entries id

-- `flag->store(true)` and `flag->load()`; a pointer is never null.
unfoldable pub store_true : List Bool → ℕ → List Bool
store_true [] flag = []
store_true (value ∷ values) zero = true ∷ values
store_true (value ∷ values) (suc flag) = value ∷ store_true values flag

unfoldable pub load : List Bool → ℕ → Bool
load [] flag = false
load (value ∷ values) zero = value
load (value ∷ values) (suc flag) = load values flag

unfoldable pub store_all : List Bool → List (Uuid × ℕ) → List Bool
store_all values [] = values
store_all values ((key, flag) ∷ entries) = store_all (store_true values flag) entries

module _ {Q R : Type 0} where
  -- EpanetSimulationManager::submit up to the registration, with the UUID that QUuid::createUuid gives
  unfoldable pub register : Uuid → Q → Manager Q R → Manager Q R
  register simulation_id request m =
      let task : Task Q = record {
        simulation_id = simulation_id;
        request = request;
        cancellation_flag = length m.flags;
      } in
      record m {
        flags = m.flags ++ false ∷ [];
        cancellation_flags = insert m.cancellation_flags simulation_id (length m.flags);
        tasks = m.tasks ++ (task, registered) ∷ [];
      }

  -- The rest of submit: the signal, and the task's way into the pool
  unfoldable pub queue_task :
      List (Task Q × Stage R) → Task Q → List (Task Q × Stage R) → Manager Q R → Manager Q R
  queue_task before task after m = record m {
    signals = m.signals ++ queued task.simulation_id ∷ [];
    tasks = before ++ (task, waiting) ∷ after;
  }

  -- EpanetSimulationManager::cancel
  unfoldable pub cancel : Uuid → Manager Q R → Bool × Manager Q R
  cancel simulation_id m = elim (find m.cancellation_flags simulation_id) [
    | none ↦ (false, m)
    | some flag ↦ (true, record m { flags = store_true m.flags flag })
  ]

  -- EpanetSimulationManager::cancelAll
  unfoldable pub cancel_all : Manager Q R → Manager Q R
  cancel_all m = record m { flags = store_all m.flags m.cancellation_flags }

  -- EpanetSimulationManager::setMaxWorkerCount
  abbrev pub set_max_worker_count : ℤ → Manager Q R → Manager Q R
  set_max_worker_count count m = record m { max_thread_count = max 1 (pos_part count) }

  -- EpanetSimulationManager::activeSimulationCount
  abbrev pub active_simulation_count : Manager Q R → ℕ
  active_simulation_count m = length m.cancellation_flags

  -- EpanetSimulationManager::removeSimulation
  abbrev pub remove_simulation : Uuid → Manager Q R → Manager Q R
  remove_simulation simulation_id m = record m {
    cancellation_flags = remove m.cancellation_flags simulation_id;
  }

  -- The cancellation function that the runner polls.
  abbrev pub poll : Task Q → Manager Q R → Bool
  poll task m = m.shutting_down || load m.flags task.cancellation_flag

  -- The entry of a task at `before ++ (task, starting) ∷ after`.
  unfoldable pub start_task :
      List (Task Q × Stage R) → Task Q → List (Task Q × Stage R) → Manager Q R → Manager Q R
  start_task before task after m =
      if m.shutting_down
      then record (remove_simulation task.simulation_id m) { tasks = before ++ after }
      else record m {
        posted = m.posted ++ started task.simulation_id ∷ [];
        tasks = before ++ (task, running) ∷ after;
      }

  -- The runner's return with a result, and the removal that follows it.
  unfoldable pub finish_task :
      List (Task Q × Stage R) → Task Q → R → List (Task Q × Stage R) → Manager Q R → Manager Q R
  finish_task before task result after m = record (remove_simulation task.simulation_id m) {
    tasks = before ++ (task, finished result) ∷ after;
  }

  -- The posted completion.
  unfoldable pub post_completed :
      List (Task Q × Stage R) → Task Q → R → List (Task Q × Stage R) → Manager Q R → Manager Q R
  post_completed before task result after m = record m {
    posted = m.posted ++ completed task.simulation_id result ∷ [];
    tasks = before ++ after;
  }

  -- A queued call in the manager's thread.
  unfoldable pub deliver : Signal R → List (Signal R) → Manager Q R → Manager Q R
  deliver signal rest m = record m {
    posted = rest;
    signals = if m.shutting_down then m.signals else m.signals ++ signal ∷ [];
  }
