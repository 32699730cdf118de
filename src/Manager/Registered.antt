-- ===== src/Manager/Registered.antt =====
-- Every live task is registered with its flag, whatever the order of the threads' steps.
use aowis_server_epanet.Base.{
  ℕ, zero, suc, ◌<◌, ◌≡◌, refl, sym, ap, ◌∙◌, subst, ◌≢◌, Bool, false, some, List, [], ◌∷◌, ◌++◌,
  arith, ◌==◌, if◌then◌else◌, ==_iff, length, All,
}
use aowis_server_epanet.Loop.{if_both}
use aowis_server_epanet.Model.Status.{Uuid}
use aowis_server_epanet.Projection.Received.{NoRepeat}
use aowis_server_epanet.Manager.{
  Task, Stage, registered, waiting, starting, running, finished, Manager, find, remove, store_true,
  store_all, remove_simulation,
}
use aowis_server_epanet.Manager.Steps.{ids_of}

pub find-remove :
    (entries : List (Uuid × ℕ)) (id other : Uuid)
    → id ≢ other
    → find (remove entries id) other ≡ find entries other
unfolding find remove
find-remove [] id other h = refl
find-remove ((key, flag) ∷ entries) id other h =
    let rest = find-remove entries id other h in
    let a = ==_iff key id in
    let b = ==_iff key other in
    if_both (λ es. find es other ≡ (if key == other then some flag else find entries other))
      (key == id)
      (λ e.
        let other_key : (key == other) ≡ false = ground (arith, e, a, b, h) in rw other_key rest)
      (λ e. ap (λ f. if key == other then some flag else f) rest)

pub length-store_true :
    (values : List Bool) (flag : ℕ) → length (store_true values flag) ≡ length values
unfolding store_true
length-store_true [] flag = refl
length-store_true (value ∷ values) zero = refl
length-store_true (value ∷ values) (suc flag) = ap suc (length-store_true values flag)

pub length-store_all :
    (values : List Bool) (entries : List (Uuid × ℕ))
    → length (store_all values entries) ≡ length values
unfolding store_all
length-store_all values [] = refl
length-store_all values ((key, flag) ∷ entries) =
    length-store_all (store_true values flag) entries ∙ length-store_true values flag

module _ {Q R : Type 0} where
  -- The task is registered, and its flag exists.
  abbrev pub Registered : Manager Q R → Task Q → Type 0
  Registered m task =
      (find m.cancellation_flags task.simulation_id ≡ some task.cancellation_flag)
      × (task.cancellation_flag < length m.flags)

  -- What holds of a task at its stage.
  abbrev pub AtStage : Manager Q R → Task Q × Stage R → Type 0
  AtStage m (task, registered) = Registered m task
  AtStage m (task, waiting) = Registered m task
  AtStage m (task, starting) = Registered m task
  AtStage m (task, running) = Registered m task
  AtStage m (task, finished result) = Unit

  abbrev pub Sound : Manager Q R → Type 0
  Sound m = NoRepeat (ids_of m.tasks) × All (AtStage m) m.tasks

  -- What the tasks of `entries` that satisfy `P` keep from one state to another.
  pub AtStage-map :
      (P : Uuid → Type 0) (m n : Manager Q R)
      → ((task : Task Q) → P task.simulation_id → Registered m task → Registered n task)
      → (entries : List (Task Q × Stage R)) → All P (ids_of entries)
      → All (AtStage m) entries
      → All (AtStage n) entries
  AtStage-map P m n keep [] p h = tt
  AtStage-map P m n keep ((task, stage) ∷ entries) p h =
      (at stage h.0, AtStage-map P m n keep entries p.1 h.1)
    where
      at : (stage : Stage R) → AtStage m (task, stage) → AtStage n (task, stage)
      at registered g = keep task p.0 g
      at waiting g = keep task p.0 g
      at starting g = keep task p.0 g
      at running g = keep task p.0 g
      at (finished result) g = tt

  pub any_id : (entries : List (Task Q × Stage R)) → All (λ v. v ≡ v) (ids_of entries)
  any_id [] = tt
  any_id (e ∷ entries) = (refl, any_id entries)

  -- An entry with another stage.
  restage-ids :
      (before after : List (Task Q × Stage R)) (task : Task Q) (s t : Stage R)
      → ids_of (before ++ (task, s) ∷ after) ≡ ids_of (before ++ (task, t) ∷ after)
  restage-ids [] after task s t = refl
  restage-ids (e ∷ before) after task s t =
      ap (◌∷◌ e.0.simulation_id) (restage-ids before after task s t)

  restage-All :
      (m : Manager Q R) (before after : List (Task Q × Stage R)) (x y : Task Q × Stage R)
      → (AtStage m x → AtStage m y)
      → All (AtStage m) (before ++ x ∷ after)
      → All (AtStage m) (before ++ y ∷ after)
  restage-All m [] after x y f h = (f h.0, h.1)
  restage-All m (e ∷ before) after x y f h = (h.0, restage-All m before after x y f h.1)

  pub restage-Sound :
      (m : Manager Q R) (before after : List (Task Q × Stage R)) (task : Task Q) (s t : Stage R)
      → m.tasks ≡ before ++ (task, s) ∷ after
      → (AtStage m (task, s) → AtStage m (task, t))
      → Sound m
      → Sound (record m { tasks = before ++ (task, t) ∷ after })
  restage-Sound m before after task s t e f sound = (
    subst NoRepeat (ap ids_of e ∙ restage-ids before after task s t) sound.0,
    restage-All m before after (task, s) (task, t) f (subst (All (AtStage m)) e sound.1),
  )

  -- An entry that is gone.
  pub without-All :
      (m : Manager Q R) (before after : List (Task Q × Stage R)) (x : Task Q × Stage R)
      → All (AtStage m) (before ++ x ∷ after)
      → AtStage m x × All (AtStage m) (before ++ after)
  without-All m [] after x h = (h.0, h.1)
  without-All m (e ∷ before) after x h =
      let rest = without-All m before after x h.1 in (rest.0, (h.0, rest.1))

  without-ids :
      (P : Uuid → Type 0) (before after : List (Task Q × Stage R)) (x : Task Q × Stage R)
      → All P (ids_of (before ++ x ∷ after))
      → P x.0.simulation_id × All P (ids_of (before ++ after))
  without-ids P [] after x h = (h.0, h.1)
  without-ids P (e ∷ before) after x h =
      let rest = without-ids P before after x h.1 in (rest.0, (h.0, rest.1))

  pub without-NoRepeat :
      (before after : List (Task Q × Stage R)) (x : Task Q × Stage R)
      → NoRepeat (ids_of (before ++ x ∷ after))
      → NoRepeat (ids_of (before ++ after))
        × All (λ v. x.0.simulation_id ≢ v) (ids_of (before ++ after))
  without-NoRepeat [] after x h = (h.1, h.0)
  without-NoRepeat (e ∷ before) after x h =
      let rest = without-NoRepeat before after x h.1 in
      let here = without-ids (λ v. e.0.simulation_id ≢ v) before after x h.0 in
      ((here.1, rest.0), ((λ q. here.0 (sym q)), rest.1))

  pub without-Sound :
      (m : Manager Q R) (before after : List (Task Q × Stage R)) (x : Task Q × Stage R)
      → m.tasks ≡ before ++ x ∷ after
      → Sound m
      → Sound (record m { tasks = before ++ after })
  without-Sound m before after x e sound = (
    (without-NoRepeat before after x (subst NoRepeat (ap ids_of e) sound.0)).0,
    (without-All m before after x (subst (All (AtStage m)) e sound.1)).1,
  )

  -- Removing the simulation of `x` leaves the other tasks registered.
  pub removed-All :
      (m : Manager Q R) (id : Uuid) (entries : List (Task Q × Stage R))
      → All (λ v. id ≢ v) (ids_of entries)
      → All (AtStage m) entries
      → All (AtStage (remove_simulation id m)) entries
  removed-All m id entries =
      AtStage-map (λ v. id ≢ v) m (remove_simulation id m)
        (λ task other h. (find-remove m.cancellation_flags id task.simulation_id other ∙ h.0, h.1))
        entries

  pub removed-Sound :
      (m : Manager Q R) (before after : List (Task Q × Stage R)) (x : Task Q × Stage R)
      → m.tasks ≡ before ++ x ∷ after
      → Sound m
      → Sound (record (remove_simulation x.0.simulation_id m) { tasks = before ++ after })
  removed-Sound m before after x e sound =
      let ids = without-NoRepeat before after x (subst NoRepeat (ap ids_of e) sound.0) in
      let (ids_kept, others) = ids in
      (
        ids_kept,
        removed-All m x.0.simulation_id (before ++ after) others
            (without-All m before after x (subst (All (AtStage m)) e sound.1)).1,
      )

  -- A finished task in the place of one.
  pub finished-Sound :
      (n : Manager Q R) (before after : List (Task Q × Stage R)) (task : Task Q) (s : Stage R)
      (result : R)
      → NoRepeat (ids_of (before ++ (task, s) ∷ after))
      → All (AtStage n) (before ++ after)
      → Sound (record n { tasks = before ++ (task, finished result) ∷ after })
  finished-Sound n before after task s result ids h =
      (subst NoRepeat (restage-ids before after task s (finished result)) ids, go before h)
    where
      go :
          (es : List (Task Q × Stage R))
          → All (AtStage n) (es ++ after)
          → All (AtStage n) (es ++ (task, finished result) ∷ after)
      go [] h = (tt, h)
      go (e ∷ es) h = (h.0, go es h.1)

  pub stored-Sound :
      (m : Manager Q R) (values : List Bool)
      → length values ≡ length m.flags
      → Sound m
      → Sound (record m { flags = values })
  stored-Sound m values e sound = (
    sound.0,
    AtStage-map (λ v. v ≡ v) m (record m { flags = values })
        (λ task _ h. (h.0, subst (λ n. task.cancellation_flag < n) (sym e) h.1)) m.tasks
        (any_id m.tasks) sound.1,
  )
