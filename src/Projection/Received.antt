-- ===== src/Projection/Received.antt =====
-- Junctions with added demands, and the writes to the junction of one UUID.

use aowis_server_epanet.Base.{
  ℕ, zero, suc, ◌+◌, ◌≡◌, refl, sym, ap, ◌∙◌, subst, ◌≢◌, inl, inr, true, false, some, List, [],
  ◌∷◌, ◌++◌, map, append_assoc, append-nil, arith, ◌==◌, if◌then◌else◌, ==_iff, Bool-cases, All,
  get_elem?,
}
use aowis_server_epanet.Loop.{if_both}
use aowis_server_epanet.Model.Status.{Uuid}
use aowis_server_epanet.Model.Network.{Junction, Demand}
use aowis_server_epanet.Projection.{Indices, index_of, modify, enabled_indices, append_demand}

-- No two elements are equal.
abbrev pub NoRepeat : List Uuid → Type 0
NoRepeat [] = Unit
NoRepeat (u ∷ us) = All (λ v. u ≢ v) us × NoRepeat us

-- Every entry of the hash holds the place of its UUID.
abbrev pub At : List Uuid → Indices → Type 0
At us indices = All (λ (e : Uuid × ℕ). get_elem? us e.1 ≡ some e.0) indices

pub index_of-At :
    (us : List Uuid) (indices : Indices) (u : Uuid) (i : ℕ)
    → At us indices
    → index_of indices u ≡ some i
    → get_elem? us i ≡ some u
unfolding index_of
index_of-At us [] u i h e = absurd (cc e)
index_of-At us ((key, n) ∷ indices) u i h e = elim (Bool-cases (key == u)) [
  | inl same_key ↦ grind (arith, ==_iff key u)
  | inr other ↦ index_of-At us indices u i h.1 grind (arith)
]

All-get_elem? :
    (P : Uuid → Type 0) (us : List Uuid) (i : ℕ) (u : Uuid)
    → All P us
    → get_elem? us i ≡ some u
    → P u
All-get_elem? P [] i u h e = absurd (cc e)
All-get_elem? P (x ∷ us) zero u h e = subst P (grind (arith, e)) h.0
All-get_elem? P (x ∷ us) (suc i) u h e = All-get_elem? P us i u h.1 e

module _ {D : Type 0} where
  abbrev pub uuids_of : List (Junction D) → List Uuid
  uuids_of js = map (λ j. j.uuid) js

  abbrev pub with_added : List (Demand D) → Junction D → Junction D
  with_added ds j = record j { demands = j.demands ++ ds }

  -- Every junction with the demands that `r` gives to its UUID.
  abbrev pub give : (Uuid → List (Demand D)) → List (Junction D) → List (Junction D)
  give r js = map (λ j. with_added (r j.uuid) j) js

  pub give-cong :
      (r s : Uuid → List (Demand D)) (js : List (Junction D))
      → ((v : Uuid) → r v ≡ s v)
      → give r js ≡ give s js
  give-cong r s [] h = refl
  give-cong r s (j ∷ js) h = rw (h j.uuid, give-cong r s js h) refl

  pub give-uuids :
      (r : Uuid → List (Demand D)) (js : List (Junction D)) → uuids_of (give r js) ≡ uuids_of js
  give-uuids r [] = refl
  give-uuids r (j ∷ js) = ap (◌∷◌ j.uuid) (give-uuids r js)

  pub modify-append_demand :
      (i : ℕ) (d : Demand D) (ds : List (Demand D)) (js : List (Junction D))
      → modify i (with_added ds) (modify i (append_demand d) js) ≡ modify i (with_added (d ∷ ds)) js
  unfolding modify
  modify-append_demand i d ds [] = refl
  modify-append_demand zero d ds (j ∷ js) =
      ap (λ es. record j { demands = es } ∷ js) (append_assoc j.demands (d ∷ []) ds)
  modify-append_demand (suc i) d ds (j ∷ js) = ap (◌∷◌ j) (modify-append_demand i d ds js)

  -- The demands that junction `v` gets where those of `r` are followed by `ds` at `u`.
  abbrev pub also : (Uuid → List (Demand D)) → Uuid → List (Demand D) → Uuid → List (Demand D)
  also r u ds v = r v ++ (if v == u then ds else [])

  with_added-also :
      (r : Uuid → List (Demand D)) (u : Uuid) (ds : List (Demand D)) (j : Junction D)
      → j.uuid ≡ u
      → with_added ds (with_added (r j.uuid) j) ≡ with_added (also r u ds j.uuid) j
  with_added-also r u ds j h =
      let here : (j.uuid == u) ≡ true = (==_iff j.uuid u).1 h in
      rw here (ap (λ es. record j { demands = es }) (append_assoc j.demands (r j.uuid) ds))

  also-other :
      (r : Uuid → List (Demand D)) (u : Uuid) (ds : List (Demand D)) (v : Uuid)
      → v ≢ u
      → r v ≡ also r u ds v
  also-other r u ds v h =
      let there : (v == u) ≡ false = grind (arith, ==_iff v u) in rw there (sym (append-nil (r v)))

  give-other :
      (r : Uuid → List (Demand D)) (u : Uuid) (ds : List (Demand D)) (js : List (Junction D))
      → All (λ v. u ≢ v) (uuids_of js)
      → give r js ≡ give (also r u ds) js
  give-other r u ds [] h = refl
  give-other r u ds (j ∷ js) h =
      ap (λ es. with_added es j ∷ give r js) (also-other r u ds j.uuid (λ e. h.0 (sym e)))
      ∙ ap (◌∷◌ (with_added (also r u ds j.uuid) j)) (give-other r u ds js h.1)

  pub modify-give :
      (i : ℕ) (u : Uuid) (ds : List (Demand D)) (r : Uuid → List (Demand D))
      (js : List (Junction D))
      → NoRepeat (uuids_of js)
      → get_elem? (uuids_of js) i ≡ some u
      → modify i (with_added ds) (give r js) ≡ give (also r u ds) js
  unfolding modify
  modify-give i u ds r [] h e = absurd (cc e)
  modify-give zero u ds r (j ∷ js) h e =
      let here : j.uuid ≡ u = grind (arith, e) in
      ap (λ k. k ∷ give r js) (with_added-also r u ds j here)
      ∙ ap (◌∷◌ (with_added (also r u ds j.uuid) j))
          (give-other r u ds js (subst (λ v. All (λ w. v ≢ w) (uuids_of js)) here h.0))
  modify-give (suc i) u ds r (j ∷ js) h e =
      let there : j.uuid ≢ u = All-get_elem? (λ w. j.uuid ≢ w) (uuids_of js) i u h.0 e in
      ap (λ es. with_added es j ∷ modify i (with_added ds) (give r js))
        (also-other r u ds j.uuid there)
      ∙ ap (◌∷◌ (with_added (also r u ds j.uuid) j)) (modify-give i u ds r js h.1 e)

-- The hash of the enabled junctions holds their places.
enabled_indices-from :
    {D : Type 0} (us : List Uuid) (n : ℕ) (js : List (Junction D)) (indices : Indices)
    → ((i : ℕ) → get_elem? us (n + i) ≡ get_elem? (uuids_of js) i)
    → At us indices
    → At us (enabled_indices n js indices)
unfolding enabled_indices
enabled_indices-from us n [] indices place h = h
enabled_indices-from us n (j ∷ js) indices place h =
    enabled_indices-from us (suc n) js _
      (λ i.
        let next : suc n + i ≡ n + suc i = omega arith in ap (get_elem? us) next ∙ place (suc i))
      (let start : n ≡ n + 0 = omega arith in
        if_both (At us) j.enabled (λ e. (ap (get_elem? us) start ∙ place 0, h)) (λ e. h))

pub enabled_indices-At :
    {D : Type 0} (js : List (Junction D)) → At (uuids_of js) (enabled_indices 0 js [])
enabled_indices-At js =
    enabled_indices-from (uuids_of js) 0 js []
      (λ i. let here : 0 + i ≡ i = omega arith in ap (get_elem? (uuids_of js)) here) tt
