-- ===== src/Manager/Flags.antt =====
-- No two tasks share a cancellation flag: `submit` in src/lib/epanet_simulation_manager.cpp makes a new
-- one for each simulation.
use aowis_server_epanet.Base.{
  ℕ, ◌+◌, ◌<◌, ◌≡◌, refl, sym, ap, subst, ◌≢◌, inl, inr, false, List, [], ◌∷◌, ◌++◌, map, arith,
  Option-cases, length, length-append, All, All-append,
}
use aowis_server_epanet.Loop.{if_both}
use aowis_server_epanet.Projection.Received.{NoRepeat}
use aowis_server_epanet.Manager.{
  Task, Stage, registered, waiting, starting, running, finished, Manager, find, register,
  queue_task, cancel, cancel_all, start_task, finish_task, post_completed, deliver,
}
use aowis_server_epanet.Manager.Steps.{
  Step, registers, queues, cancels, cancels_all, sets_workers, takes, starts, finishes, posts,
  delivers, shuts_down, drops, ends, Reachable, fresh, next,
}
use aowis_server_epanet.Manager.Registered.{length-store_true, length-store_all}

-- A list of numbers below a bound, without repetition.
abbrev Places : ℕ → List ℕ → Type 0
Places n xs = NoRepeat xs × All (λ f. f < n) xs

All-without : (P : ℕ → Type 0) (xs ys : List ℕ) (y : ℕ) → All P (xs ++ y ∷ ys) → All P (xs ++ ys)
All-without P [] ys y h = h.1
All-without P (x ∷ xs) ys y h = (h.0, All-without P xs ys y h.1)

Places-without : (n : ℕ) (xs ys : List ℕ) (y : ℕ) → Places n (xs ++ y ∷ ys) → Places n (xs ++ ys)
Places-without n [] ys y h = (h.0.1, h.1.1)
Places-without n (x ∷ xs) ys y h =
    let rest = Places-without n xs ys y (h.0.1, h.1.1) in
    ((All-without (λ v. x ≢ v) xs ys y h.0.0, rest.0), (h.1.0, rest.1))

-- The place behind the last one is new.
Places-grown : (n : ℕ) (xs : List ℕ) → Places n xs → Places (n + 1) (xs ++ n ∷ [])
Places-grown n [] h = ((tt, tt), (omega arith, tt))
Places-grown n (x ∷ xs) h =
    let rest = Places-grown n xs (h.0.1, h.1.1) in
    let below = h.1.0 in
    (
      (All-append (λ v. x ≢ v) xs (n ∷ []) h.0.0 ((λ e. absurd (omega arith)), tt), rest.0),
      (omega arith, rest.1),
    )

module _ {Q R : Type 0} where
  abbrev pub flags_of : List (Task Q × Stage R) → List ℕ
  flags_of entries = map (λ (e : Task Q × Stage R). e.0.cancellation_flag) entries

  flags_of-append :
      (xs ys : List (Task Q × Stage R)) → flags_of (xs ++ ys) ≡ flags_of xs ++ flags_of ys
  flags_of-append [] ys = refl
  flags_of-append (x ∷ xs) ys = ap (◌∷◌ x.0.cancellation_flag) (flags_of-append xs ys)

  -- Every task has a flag that exists and that no other task has.
  abbrev pub OwnFlags : Manager Q R → Type 0
  OwnFlags m = Places (length m.flags) (flags_of m.tasks)

  module _ (m : Manager Q R) (before after : List (Task Q × Stage R)) (task : Task Q) (s : Stage R)
      (e : m.tasks ≡ before ++ (task, s) ∷ after) (own : OwnFlags m) where
    placed : Places (length m.flags) (flags_of before ++ task.cancellation_flag ∷ flags_of after)
    placed =
        subst (Places (length m.flags)) (flags_of-append before ((task, s) ∷ after))
          (subst (λ es. Places (length m.flags) (flags_of es)) e own)

    restaged-Places :
        (t : Stage R) → Places (length m.flags) (flags_of (before ++ (task, t) ∷ after))
    restaged-Places t =
        subst (Places (length m.flags)) (sym (flags_of-append before ((task, t) ∷ after))) placed

    without-Places : Places (length m.flags) (flags_of (before ++ after))
    without-Places = subst (Places (length m.flags)) (sym (flags_of-append before after)) (
        Places-without (length m.flags) (flags_of before) (flags_of after) task.cancellation_flag
          placed)

  moves-OwnFlags : (m n : Manager Q R) → Step m n → OwnFlags m → OwnFlags n
  unfolding register queue_task cancel cancel_all start_task finish_task post_completed deliver
  moves-OwnFlags m _ (registers _ id request new) own =
      let task : Task Q = record {
        simulation_id = id;
        request = request;
        cancellation_flag = length m.flags;
      } in
      let added : List (Task Q × Stage R) = (task, registered) ∷ [] in
      let grown = Places-grown (length m.flags) (flags_of m.tasks) own in
      subst (λ k. Places k (flags_of (m.tasks ++ added))) (sym (length-append m.flags (false ∷ [])))
        (subst (Places (length m.flags + 1)) (sym (flags_of-append m.tasks added)) grown)
  moves-OwnFlags m _ (queues _ before after task e) own =
      restaged-Places m before after task registered e own waiting
  moves-OwnFlags m _ (cancels _ id) own = elim (Option-cases (find m.cancellation_flags id)) [
    | inl e ↦ rw (cancel, e) own
    | inr (flag, e) ↦
        rw (cancel, e)
          (subst (λ k. Places k (flags_of m.tasks)) (sym (length-store_true m.flags flag)) own)
  ]
  moves-OwnFlags m _ (cancels_all _) own =
      subst (λ k. Places k (flags_of m.tasks)) (sym (length-store_all m.flags m.cancellation_flags))
        own
  moves-OwnFlags m _ (sets_workers _ count) own = own
  moves-OwnFlags m _ (takes _ before after task e free) own =
      restaged-Places m before after task waiting e own starting
  moves-OwnFlags m _ (starts _ before after task e) own =
      if_both OwnFlags m.shutting_down (λ f. without-Places m before after task starting e own)
        (λ f. restaged-Places m before after task starting e own running)
  moves-OwnFlags m _ (finishes _ before after task result e) own =
      restaged-Places m before after task running e own (finished result)
  moves-OwnFlags m _ (posts _ before after task result e) own =
      without-Places m before after task (finished result) e own
  moves-OwnFlags m _ (delivers _ signal rest e) own = own
  moves-OwnFlags m _ (shuts_down _) own = own
  moves-OwnFlags m _ (drops _ before after task e stop) own =
      without-Places m before after task waiting e own
  moves-OwnFlags m _ (ends _ e stop) own = own

  pub reached-OwnFlags : (m : Manager Q R) → Reachable m → OwnFlags m
  reached-OwnFlags m (fresh _ e _) =
      subst (λ es. Places (length m.flags) (flags_of es)) (sym e) (tt, tt)
  reached-OwnFlags n (next {m} r s) = moves-OwnFlags m n s (reached-OwnFlags m r)
