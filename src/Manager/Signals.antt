-- ===== src/Manager/Signals.antt =====
-- The order of a simulation's signals: `submit` of src/lib/epanet_simulation_manager.cpp emits the first
-- and queues the other two for the manager's thread.
use aowis_server_epanet.Base.{
  ◌≡◌, refl, sym, ap, ◌∙◌, subst, ◌≢◌, ◌⊎◌, inl, inr, Option, none, some, List, [], ◌∷◌, ◌++◌,
  append_assoc, arith, ◌==◌, if◌then◌else◌, ==_iff, Bool-cases, All,
}
use aowis_server_epanet.Model.Status.{Uuid}
use aowis_server_epanet.Projection.Received.{NoRepeat}
use aowis_server_epanet.Manager.{
  Task, Stage, registered, waiting, starting, running, finished, Signal, queued, started, completed,
  Manager,
}
use aowis_server_epanet.Manager.Steps.{ids_of}
use aowis_server_epanet.Manager.Registered.{without-NoRepeat}

-- What holds of one simulation and of the others holds of all.
pub by_id : (id : Uuid) (P : Uuid → Type 0) → P id → ((k : Uuid) → id ≢ k → P k) → (k : Uuid) → P k
by_id id P here there k = elim (Bool-cases (id == k)) [
  | inl e ↦ subst P ((==_iff id k).0 e) here
  | inr e ↦ there k (λ p. cc (e, (==_iff id k).1 p))
]

module _ {R : Type 0} where
  abbrev pub simulation_of : Signal R → Uuid
  simulation_of (queued id) = id
  simulation_of (started id) = id
  simulation_of (completed id result) = id

  -- The signals of one simulation.
  unfoldable pub about : Uuid → List (Signal R) → List (Signal R)
  about id [] = []
  about id (signal ∷ signals) =
      let rest = about id signals in if simulation_of signal == id then signal ∷ rest else rest

  -- The signals so far of a simulation with a task, or with none: then all three were made, or none.
  abbrev pub Reported : Uuid → Option (Stage R) → List (Signal R) → Type 0
  Reported id none signals =
      (signals ≡ [])
      ⊎ ((result : R) × (signals ≡ queued id ∷ started id ∷ completed id result ∷ []))
  Reported id (some registered) signals = signals ≡ []
  Reported id (some waiting) signals = signals ≡ queued id ∷ []
  Reported id (some starting) signals = signals ≡ queued id ∷ []
  Reported id (some running) signals = signals ≡ queued id ∷ started id ∷ []
  Reported id (some (finished result)) signals = signals ≡ queued id ∷ started id ∷ []

  pub about-append :
      (id : Uuid) (xs ys : List (Signal R)) → about id (xs ++ ys) ≡ about id xs ++ about id ys
  unfolding about
  about-append id [] ys = refl
  about-append id (x ∷ xs) ys = ground (arith, about-append id xs ys)

  pub about_other :
      (id : Uuid) (signal : Signal R) → simulation_of signal ≢ id → about id (signal ∷ []) ≡ []
  unfolding about
  about_other id signal other = ground (arith, ==_iff (simulation_of signal) id, other)

  pub about_own : (signal : Signal R) → about (simulation_of signal) (signal ∷ []) ≡ signal ∷ []
  unfolding about
  about_own signal = ground (arith, ==_iff (simulation_of signal) (simulation_of signal))

  pub about_emitted :
      (id : Uuid) (xs ys : List (Signal R)) (x : Signal R)
      → about id ((xs ++ x ∷ []) ++ ys) ≡ about id xs ++ (about id (x ∷ []) ++ about id ys)
  about_emitted id xs ys x =
      ap (about id) (append_assoc xs (x ∷ []) ys)
      ∙ (about-append id xs ((x ∷ []) ++ ys)
          ∙ ap (λ es. about id xs ++ es) (about-append id (x ∷ []) ys))

  pub about_posted :
      (id : Uuid) (xs ys : List (Signal R)) (x : Signal R)
      → about id (xs ++ (ys ++ x ∷ [])) ≡ about id (xs ++ ys) ++ about id (x ∷ [])
  about_posted id xs ys x =
      ap (about id) (sym (append_assoc xs ys (x ∷ []))) ∙ about-append id (xs ++ ys) (x ∷ [])

  -- Two lists that make the empty one.
  pub empty_parts : (xs ys : List (Signal R)) → (xs ++ ys) ≡ [] → (xs ≡ []) × (ys ≡ [])
  empty_parts [] ys h = (refl, h)
  empty_parts (x ∷ xs) ys h = absurd (cc h)

module _ {Q R : Type 0} where
  -- The stage of a simulation's task, where it has one.
  unfoldable pub stage_of : Uuid → List (Task Q × Stage R) → Option (Stage R)
  stage_of id [] = none
  stage_of id ((task, stage) ∷ tasks) =
      if task.simulation_id == id then some stage else stage_of id tasks

  -- The signals that were emitted and those that are queued for the manager's thread.
  abbrev pub all_signals : Manager Q R → List (Signal R)
  all_signals m = m.signals ++ m.posted

  pub stage_of-absent :
      (id : Uuid) (tasks : List (Task Q × Stage R))
      → All (λ v. id ≢ v) (ids_of tasks)
      → stage_of id tasks ≡ none
  unfolding stage_of
  stage_of-absent id [] h = refl
  stage_of-absent id ((task, stage) ∷ tasks) h =
      ground (arith, ==_iff task.simulation_id id, h.0, stage_of-absent id tasks h.1)

  pub stage_of-other :
      (id : Uuid) (before after : List (Task Q × Stage R)) (task : Task Q) (s : Stage R)
      → task.simulation_id ≢ id
      → stage_of id (before ++ (task, s) ∷ after) ≡ stage_of id (before ++ after)
  unfolding stage_of
  stage_of-other id [] after task s other = ground (arith, ==_iff task.simulation_id id, other)
  stage_of-other id ((t, stage) ∷ before) after task s other =
      ap (λ rest. if t.simulation_id == id then some stage else rest)
        (stage_of-other id before after task s other)

  pub stage_of-own :
      (before after : List (Task Q × Stage R)) (task : Task Q) (s : Stage R)
      → All (λ v. task.simulation_id ≢ v) (ids_of (before ++ after))
      → stage_of task.simulation_id (before ++ (task, s) ∷ after) ≡ some s
  unfolding stage_of
  stage_of-own [] after task s h = ground (arith, ==_iff task.simulation_id task.simulation_id)
  stage_of-own ((t, stage) ∷ before) after task s h =
      ground (
        arith,
        ==_iff t.simulation_id task.simulation_id,
        h.0,
        stage_of-own before after task s h.1,
      )

  -- The signals of every simulation are those of its task's stage.
  abbrev pub Claims : List (Task Q × Stage R) → List (Signal R) → Type 0
  Claims tasks signals = (k : Uuid) → Reported k (stage_of k tasks) (about k signals)

  -- One task changes, and with it at most the signals of its simulation.
  module _ (before after : List (Task Q × Stage R)) (task : Task Q) (s : Stage R)
      (ids : NoRepeat (ids_of (before ++ (task, s) ∷ after))) (old new : List (Signal R))
      (others : (k : Uuid) → task.simulation_id ≢ k → about k new ≡ about k old)
      (claims : Claims (before ++ (task, s) ∷ after) old) where
    abbrev id : Uuid
    id = task.simulation_id

    at_own : Reported id (some s) (about id old)
    at_own =
        subst (λ st. Reported id st (about id old))
          (stage_of-own before after task s (without-NoRepeat before after (task, s) ids).1)
          (claims id)

    at_other : (k : Uuid) → id ≢ k → Reported k (stage_of k (before ++ after)) (about k new)
    at_other k other = subst (Reported k (stage_of k (before ++ after))) (sym (others k other)) (
        subst (λ st. Reported k st (about k old)) (stage_of-other k before after task s other)
          (claims k))

    pub restaged-Claims :
        (t : Stage R)
        → (Reported id (some s) (about id old) → Reported id (some t) (about id new))
        → Claims (before ++ (task, t) ∷ after) new
    restaged-Claims t own =
        by_id id (λ k. Reported k (stage_of k (before ++ (task, t) ∷ after)) (about k new))
          (subst (λ st. Reported id st (about id new))
            (sym (stage_of-own before after task t (without-NoRepeat before after (task, s) ids).1))
            (own at_own))
          (λ k other.
            subst (λ st. Reported k st (about k new))
              (sym (stage_of-other k before after task t other)) (at_other k other))

    pub removed-Claims :
        (Reported id (some s) (about id old) → Reported id none (about id new))
        → Claims (before ++ after) new
    removed-Claims own =
        by_id id (λ k. Reported k (stage_of k (before ++ after)) (about k new))
          (subst (λ st. Reported id st (about id new))
            (sym (
              stage_of-absent id (before ++ after) (without-NoRepeat before after (task, s) ids).1))
            (own at_own))
          at_other
