-- ===== src/Manager/Cancellation.antt =====
-- The cancellation of a live simulation is seen by its task in every later state.
use aowis_server_epanet.Base.{
  ℕ, zero, suc, ◌<◌, ◌≡◌, refl, subst, inl, inr, Bool, true, false, ◌||◌, List, [], ◌∷◌, ◌++◌,
  arith, Option-cases, length, All,
}
use aowis_server_epanet.Loop.{if_both}
use aowis_server_epanet.Model.Status.{Uuid}
use aowis_server_epanet.Manager.{
  Task, Stage, registered, waiting, starting, running, finished, Manager, find, store_true, load,
  store_all, register, queue_task, cancel, cancel_all, start_task, finish_task, post_completed,
  deliver, poll,
}
use aowis_server_epanet.Manager.Steps.{
  Step, registers, queues, cancels, cancels_all, sets_workers, takes, starts, finishes, posts,
  delivers, shuts_down, drops, ends, Reachable,
}
use aowis_server_epanet.Manager.Registered.{Registered, AtStage, without-All}
use aowis_server_epanet.Manager.Safety.{reached-Sound}

load-stored :
    (values : List Bool) (flag : ℕ)
    → flag < length values
    → load (store_true values flag) flag ≡ true
unfolding load store_true
load-stored [] flag h = absurd (omega (arith, h))
load-stored (value ∷ values) zero h = refl
load-stored (value ∷ values) (suc flag) h = load-stored values flag (omega (arith, h))

-- Stores of `true` elsewhere, and new flags, keep a flag that is set.
load-store_true :
    (values : List Bool) (flag other : ℕ)
    → load values flag ≡ true
    → load (store_true values other) flag ≡ true
unfolding load store_true
load-store_true [] flag other h = h
load-store_true (value ∷ values) zero zero h = refl
load-store_true (value ∷ values) zero (suc other) h = h
load-store_true (value ∷ values) (suc flag) zero h = h
load-store_true (value ∷ values) (suc flag) (suc other) h = load-store_true values flag other h

load-store_all :
    (entries : List (Uuid × ℕ)) (values : List Bool) (flag : ℕ)
    → load values flag ≡ true
    → load (store_all values entries) flag ≡ true
unfolding store_all
load-store_all [] values flag h = h
load-store_all ((key, other) ∷ entries) values flag h =
    load-store_all entries (store_true values other) flag (load-store_true values flag other h)

load-append :
    (values more : List Bool) (flag : ℕ)
    → load values flag ≡ true
    → load (values ++ more) flag ≡ true
unfolding load
load-append [] more flag h = absurd (cc h)
load-append (value ∷ values) more zero h = h
load-append (value ∷ values) more (suc flag) h = load-append values more flag h

-- A task whose simulation is not removed.
abbrev pub Live : {R : Type 0} → Stage R → Type 0
Live registered = Unit
Live waiting = Unit
Live starting = Unit
Live running = Unit
Live (finished result) = ⊥

or_true : (a b : Bool) → b ≡ true → (a || b) ≡ true
or_true true b h = refl
or_true false b h = h

module _ {Q R : Type 0} where
  -- Steps of the threads, one after the other.
  pub data Later : Manager Q R → Manager Q R → Type 0 where
    now : (m : Manager Q R) → Later m m
    after_step : {m n o : Manager Q R} → Step m n → Later n o → Later m o

  living-Registered :
      (m : Manager Q R) (task : Task Q) (stage : Stage R)
      → Live stage
      → AtStage m (task, stage)
      → Registered m task
  living-Registered m task registered l h = h
  living-Registered m task waiting l h = h
  living-Registered m task starting l h = h
  living-Registered m task running l h = h
  living-Registered m task (finished result) l h = absurd l

  -- A store that keeps set flags keeps the answer of the function.
  poll_kept_by_stores :
      (m : Manager Q R) (task : Task Q) (values : List Bool)
      → (load m.flags task.cancellation_flag ≡ true → load values task.cancellation_flag ≡ true)
      → poll task m ≡ true
      → poll task (record m { flags = values }) ≡ true
  poll_kept_by_stores m task values keep h = ground (arith, keep, h)

  poll_kept_once :
      (task : Task Q) (m n : Manager Q R) → Step m n → poll task m ≡ true → poll task n ≡ true
  unfolding register queue_task post_completed deliver cancel_all cancel start_task finish_task
  poll_kept_once task m _ (registers _ id request new) h =
      poll_kept_by_stores m task _ (load-append m.flags (false ∷ []) task.cancellation_flag) h
  poll_kept_once task m _ (queues _ before after t e) h = h
  poll_kept_once task m _ (cancels _ id) h = elim (Option-cases (find m.cancellation_flags id)) [
    | inl e ↦ rw (cancel, e) h
    | inr (flag, e) ↦
        rw (cancel, e)
          (poll_kept_by_stores m task _ (load-store_true m.flags task.cancellation_flag flag) h)
  ]
  poll_kept_once task m _ (cancels_all _) h =
      poll_kept_by_stores m task _
        (load-store_all m.cancellation_flags m.flags task.cancellation_flag) h
  poll_kept_once task m _ (sets_workers _ count) h = h
  poll_kept_once task m _ (takes _ before after t e free) h = h
  poll_kept_once task m _ (starts _ before after t e) h =
      if_both (λ (n : Manager Q R). poll task n ≡ true) m.shutting_down (λ f. h) (λ f. h)
  poll_kept_once task m _ (finishes _ before after t result e) h = h
  poll_kept_once task m _ (posts _ before after t result e) h = h
  poll_kept_once task m _ (delivers _ signal rest e) h = h
  poll_kept_once task m _ (shuts_down _) h = refl
  poll_kept_once task m _ (drops _ before after t e stop) h = h
  poll_kept_once task m _ (ends _ e stop) h = h

  poll_kept_on :
      (task : Task Q) (m n : Manager Q R) → Later m n → poll task m ≡ true → poll task n ≡ true
  poll_kept_on task m _ (now _) h = h
  poll_kept_on task m o (after_step {n} s l) h =
      poll_kept_on task n o l (poll_kept_once task m n s h)

  -- In a state that the threads reach, cancelling a simulation that is not yet removed succeeds, and in
  -- every later state, whatever the other threads do, the function that its runner polls answers that
  -- the run is cancelled.
  pub cancel-seen :
      (m n : Manager Q R) (before after : List (Task Q × Stage R)) (task : Task Q) (stage : Stage R)
      → Reachable m
      → m.tasks ≡ before ++ (task, stage) ∷ after
      → Live stage
      → Later (cancel task.simulation_id m).1 n
      → ((cancel task.simulation_id m).0 ≡ true) × (poll task n ≡ true)
  unfolding cancel
  cancel-seen m n before after task stage reached e live later =
      let found =
        living-Registered m task stage live
          (without-All m before after (task, stage)
            (subst (All (AtStage m)) e (reached-Sound m reached).1)).0 in
      let cancelled : poll task (cancel task.simulation_id m).1 ≡ true =
        rw (cancel, found.0)
          (or_true m.shutting_down _ (load-stored m.flags task.cancellation_flag found.1)) in
      (rw (cancel, found.0) refl, poll_kept_on task _ n later cancelled)
