-- ===== src/Manager/Shutdown.antt =====
-- The flag `shutting_down` of src/lib/epanet_simulation_manager.cpp is set once, by the destructor.
use aowis_server_epanet.Base.{◌≡◌, refl, true, inl, inr, Option-cases}
use aowis_server_epanet.Loop.{if_both}
use aowis_server_epanet.Manager.{
  Manager, find, register, queue_task, cancel, cancel_all, start_task, finish_task, post_completed,
  deliver,
}
use aowis_server_epanet.Manager.Steps.{
  Step, registers, queues, cancels, cancels_all, sets_workers, takes, starts, finishes, posts,
  delivers, shuts_down, drops, ends,
}

module _ {Q R : Type 0} where
  -- A shutdown is for ever.
  pub shutdown_kept :
      (m n : Manager Q R) → Step m n → m.shutting_down ≡ true → n.shutting_down ≡ true
  unfolding register queue_task cancel cancel_all start_task finish_task post_completed deliver
  shutdown_kept m _ (registers _ id request new) h = h
  shutdown_kept m _ (queues _ before after task e) h = h
  shutdown_kept m _ (cancels _ id) h = elim (Option-cases (find m.cancellation_flags id)) [
    | inl e ↦ rw (cancel, e) h
    | inr (flag, e) ↦ rw (cancel, e) h
  ]
  shutdown_kept m _ (cancels_all _) h = h
  shutdown_kept m _ (sets_workers _ count) h = h
  shutdown_kept m _ (takes _ before after task e free) h = h
  shutdown_kept m _ (starts _ before after task e) h =
      if_both (λ (n : Manager Q R). n.shutting_down ≡ true) m.shutting_down (λ f. h) (λ f. h)
  shutdown_kept m _ (finishes _ before after task result e) h = h
  shutdown_kept m _ (posts _ before after task result e) h = h
  shutdown_kept m _ (delivers _ signal rest e) h = h
  shutdown_kept m _ (shuts_down _) h = refl
  shutdown_kept m _ (drops _ before after task e stop) h = h
  shutdown_kept m _ (ends _ e stop) h = h
