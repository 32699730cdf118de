-- ===== src/Manager/Safety.antt =====
-- A simulation can be cancelled as long as it lives, and its cancellation is seen from then on.
use aowis_server_epanet.Base.{
  ◌≡◌, refl, sym, ap, ◌∙◌, subst, ◌≢◌, inl, inr, true, false, List, [], ◌∷◌, ◌++◌, arith, ◌==◌,
  ==_iff, Option-cases, length, length-append, All, All-append,
}
use aowis_server_epanet.Loop.{if_both}
use aowis_server_epanet.Model.Status.{Uuid}
use aowis_server_epanet.Projection.Received.{NoRepeat}
use aowis_server_epanet.Manager.{
  Task, Stage, registered, waiting, starting, running, finished, Manager, find, store_true,
  register, queue_task, cancel, cancel_all, start_task, finish_task, post_completed, deliver,
  remove_simulation,
}
use aowis_server_epanet.Manager.Steps.{
  ids_of, Step, registers, queues, cancels, cancels_all, sets_workers, takes, starts, finishes,
  posts, delivers, shuts_down, drops, ends, Reachable, fresh, next,
}
use aowis_server_epanet.Manager.Flags.{OwnFlags, reached-OwnFlags}
use aowis_server_epanet.Manager.Registered.{
  AtStage, Sound, find-remove, length-store_true, length-store_all, AtStage-map, restage-Sound,
  without-Sound, without-All, without-NoRepeat, removed-All, removed-Sound, finished-Sound,
  stored-Sound,
}

module _ {Q R : Type 0} where
  appended-NoRepeat :
      (entries : List (Task Q × Stage R)) (x : Task Q × Stage R)
      → NoRepeat (ids_of entries)
      → All (λ v. x.0.simulation_id ≢ v) (ids_of entries)
      → NoRepeat (ids_of (entries ++ x ∷ []))
  appended-NoRepeat [] x h new = (tt, tt)
  appended-NoRepeat (e ∷ entries) x h new = (go entries h.0, appended-NoRepeat entries x h.1 new.1)
    where
      go :
          (es : List (Task Q × Stage R))
          → All (λ v. e.0.simulation_id ≢ v) (ids_of es)
          → All (λ v. e.0.simulation_id ≢ v) (ids_of (es ++ x ∷ []))
      go [] h = ((λ q. new.0 (sym q)), tt)
      go (f ∷ es) h = (h.0, go es h.1)

  register-Sound :
      (m : Manager Q R) (id : Uuid) (request : Q)
      → All (λ v. id ≢ v) (ids_of m.tasks)
      → Sound m
      → Sound (register id request m)
  unfolding register find
  register-Sound m id request new sound =
      let task : Task Q = record {
        simulation_id = id;
        request = request;
        cancellation_flag = length m.flags;
      } in
      let n = register id request m in
      let longer = length-append m.flags (false ∷ []) in
      let here : (id == id) ≡ true = (==_iff id id).1 refl in
      (
        appended-NoRepeat m.tasks (task, registered) sound.0 new,
        All-append (AtStage n) m.tasks ((task, registered) ∷ [])
            (AtStage-map (λ v. id ≢ v) m n
              (λ t other h.
                let there : (id == t.simulation_id) ≡ false =
                  grind (arith, ==_iff id t.simulation_id, other) in
                (
                  rw there (find-remove m.cancellation_flags id t.simulation_id other ∙ h.0),
                  omega (arith, longer, h.1),
                ))
              m.tasks new sound.1)
            ((rw here refl, omega (arith, longer)), tt),
      )

  cancel-Sound : (m : Manager Q R) (id : Uuid) → Sound m → Sound (cancel id m).1
  unfolding cancel
  cancel-Sound m id sound = elim (Option-cases (find m.cancellation_flags id)) [
    | inl e ↦ rw (cancel, e) sound
    | inr (flag, e) ↦
        rw (cancel, e)
          (stored-Sound m (store_true m.flags flag) (length-store_true m.flags flag) sound)
  ]

  start-Sound :
      (m : Manager Q R) (before after : List (Task Q × Stage R)) (task : Task Q)
      → m.tasks ≡ before ++ (task, starting) ∷ after
      → Sound m
      → Sound (start_task before task after m)
  unfolding start_task
  start-Sound m before after task e sound =
      if_both Sound m.shutting_down (λ f. removed-Sound m before after (task, starting) e sound)
        (λ f. restage-Sound m before after task starting running e (λ h. h) sound)

  finish-Sound :
      (m : Manager Q R) (before after : List (Task Q × Stage R)) (task : Task Q) (result : R)
      → m.tasks ≡ before ++ (task, running) ∷ after
      → Sound m
      → Sound (finish_task before task result after m)
  unfolding finish_task
  finish-Sound m before after task result e sound =
      let ids = subst NoRepeat (ap ids_of e) sound.0 in
      let (_, others) = without-NoRepeat before after (task, running) ids in
      finished-Sound (remove_simulation task.simulation_id m) before after task running result ids (
        removed-All m task.simulation_id (before ++ after) others
          (without-All m before after (task, running) (subst (All (AtStage m)) e sound.1)).1)

  pub moves-Sound : (m n : Manager Q R) → Step m n → Sound m → Sound n
  unfolding queue_task post_completed deliver cancel_all
  moves-Sound m _ (registers _ id request new) sound = register-Sound m id request new sound
  moves-Sound m _ (queues _ before after task e) sound =
      restage-Sound m before after task registered waiting e (λ h. h) sound
  moves-Sound m _ (cancels _ id) sound = cancel-Sound m id sound
  moves-Sound m _ (cancels_all _) sound =
      stored-Sound m _ (length-store_all m.flags m.cancellation_flags) sound
  moves-Sound m _ (sets_workers _ count) sound = sound
  moves-Sound m _ (takes _ before after task e free) sound =
      restage-Sound m before after task waiting starting e (λ h. h) sound
  moves-Sound m _ (starts _ before after task e) sound = start-Sound m before after task e sound
  moves-Sound m _ (finishes _ before after task result e) sound =
      finish-Sound m before after task result e sound
  moves-Sound m _ (posts _ before after task result e) sound =
      without-Sound m before after (task, finished result) e sound
  moves-Sound m _ (delivers _ signal rest e) sound = sound
  moves-Sound m _ (shuts_down _) sound = sound
  moves-Sound m _ (drops _ before after task e stop) sound =
      without-Sound m before after (task, waiting) e sound
  moves-Sound m _ (ends _ e stop) sound =
      (sound.0, subst (All (AtStage (record m { cancellation_flags = [] }))) (sym e) tt)

  pub reached-Sound : (m : Manager Q R) → Reachable m → Sound m
  reached-Sound m (fresh _ e _) =
      (subst NoRepeat (ap ids_of (sym e)) tt, subst (All (AtStage m)) (sym e) tt)
  reached-Sound n (next {m} r s) = moves-Sound m n s (reached-Sound m r)

  -- In every state that the threads' steps reach, in any order, the tasks have distinct UUIDs, every
  -- task whose simulation is not yet removed is registered under its UUID with its flag, and every task
  -- has a flag that exists and that no other task has.
  pub threads-Sound : (m : Manager Q R) → Reachable m → Sound m × OwnFlags m
  threads-Sound m reached = (reached-Sound m reached, reached-OwnFlags m reached)
