-- ===== src/Projection/Outcome.antt =====
-- The whole projection: what a successful one puts on every junction.

use aowis_server_epanet.Base.{
  ℕ, ◌+◌, ◌≤◌, ◌<◌, ◌≡◌, refl, sym, ap, ◌∙◌, subst, ◌≢◌, ◌⊎◌, inl, inr, true, false, not, Option,
  none, some, List, [], ◌∷◌, ◌++◌, append-nil, arith, leb, ◌==◌, ==_iff, Option-cases, length, take,
  drop, length-append, All,
}
use aowis_server_epanet.Loop.{OnSome, if_both}
use aowis_server_epanet.Model.Status.{Uuid, Status, Externals}
use aowis_server_epanet.Model.Doubles.{Doubles}
use aowis_server_epanet.Model.Network.{Network, Junction, Demand}
use aowis_server_epanet.Projection.{enabled_indices, project_points, build_demand_projection}
use aowis_server_epanet.Projection.Aggregation.{
  merge_demands, original_count, compact_junction, aggregation_failure, compact_junctions,
  aggregate_projected_demands,
}
use aowis_server_epanet.Projection.Received.{
  NoRepeat, uuids_of, with_added, give, enabled_indices-At,
}
use aowis_server_epanet.Projection.Shares.{received}
use aowis_server_epanet.Projection.Points.{OnSuccess, project_points-Given}

module _ {A : Type 0} where
  take-append : (xs ys : List A) → take (length xs) (xs ++ ys) ≡ xs
  take-append [] ys = refl
  take-append (x ∷ xs) ys = ap (◌∷◌ x) (take-append xs ys)

  drop-append : (xs ys : List A) → drop (length xs) (xs ++ ys) ≡ ys
  drop-append [] ys = refl
  drop-append (x ∷ xs) ys = drop-append xs ys

module _ {D : Type 0} where
  give-nothing : (js : List (Junction D)) → give (λ v. []) js ≡ js
  give-nothing [] = refl
  give-nothing (j ∷ js) =
      ap (λ ds. record j { demands = ds } ∷ give (λ v. []) js) (append-nil j.demands)
      ∙ ap (◌∷◌ j) (give-nothing js)

  original_count-other :
      (js : List (Junction D)) (u : Uuid) (n : ℕ)
      → All (λ v. u ≢ v) (uuids_of js)
      → original_count js u n ≡ n
  unfolding original_count
  original_count-other [] u n h = refl
  original_count-other (j ∷ js) u n h =
      let other : (j.uuid == u) ≡ false = grind (arith, ==_iff j.uuid u, h.0) in
      rw other (original_count-other js u n h.1)

  -- The hash holds the number of every junction's own demands.
  abbrev Counted : List (Junction D) → Junction D → Type 0
  Counted originals j = (n : ℕ) → original_count originals j.uuid n ≡ length j.demands

  All-Counted :
      (j : Junction D) (js ks : List (Junction D))
      → All (λ v. j.uuid ≢ v) (uuids_of ks)
      → All (Counted js) ks
      → All (Counted (j ∷ js)) ks
  unfolding original_count
  All-Counted j js [] h counted = tt
  All-Counted j js (k ∷ ks) h counted = ((λ n. counted.0 _), All-Counted j js ks h.1 counted.1)

  originals-Counted : (js : List (Junction D)) → NoRepeat (uuids_of js) → All (Counted js) js
  unfolding original_count
  originals-Counted [] h = tt
  originals-Counted (j ∷ js) h =
      let here : (j.uuid == j.uuid) ≡ true = (==_iff j.uuid j.uuid).1 refl in
      (
        (λ n. rw here (original_count-other js j.uuid (length j.demands) h.0)),
        All-Counted j js js h.0 (originals-Counted js h.1),
      )

module _ {D : Type 0} ⦃ops : Doubles D⦄ where
  -- What becomes of the demands that a junction receives: one is kept as it is, several are merged.
  abbrev pub Compacted : List (Demand D) → List (Demand D) → Type 0
  Compacted received added =
      ((length received ≤ 1) × (added ≡ received))
      ⊎ ((1 < length received) × (merge_demands [] received ≡ some added))

  abbrev pub Kept : List (Demand D) → Junction D → Junction D → Type 0
  Kept rs j k =
      (added : List (Demand D)) × Compacted rs added
      × (k ≡ record j { demands = j.demands ++ added })

  -- Each junction keeps its identity and its own demands, and has the compacted demands of `r` after
  -- them.
  abbrev pub Projected : (Uuid → List (Demand D)) → List (Junction D) → List (Junction D) → Type 0
  Projected r [] [] = Unit
  Projected r (j ∷ js) (k ∷ ks) = Kept (r j.uuid) j k × Projected r js ks
  Projected r [] (k ∷ ks) = ⊥
  Projected r (j ∷ js) [] = ⊥

  compact_junction-Compacted :
      (originals : List (Junction D)) (j : Junction D) (rs : List (Demand D))
      → Counted originals j
      → OnSome (Kept rs j) (compact_junction originals (with_added rs j))
  unfolding compact_junction
  compact_junction-Compacted originals j rs counted =
      let both = length-append j.demands rs in
      rw (counted (length (j.demands ++ rs)), take-append j.demands rs, drop-append j.demands rs)
        (if_both (OnSome (Kept rs j)) (leb (length (j.demands ++ rs)) (length j.demands + 1))
          (λ e. (rs, inl (ground (arith, e, both), refl), refl))
          (λ e.
            let several : 1 < length rs = ground (arith, e, both) in
            elim (Option-cases (merge_demands [] rs)) [
              | inl f ↦ rw f tt
              | inr (merged, f) ↦ rw f (merged, inr (several, f), refl)
            ]))

  compact_junctions-Projected :
      ⦃ext : Externals⦄ (originals js : List (Junction D)) (r : Uuid → List (Demand D))
      → All (Counted originals) js
      → OnSuccess (Projected r js) (compact_junctions originals (give r js))
  unfolding compact_junctions
  compact_junctions-Projected originals [] r h = λ e. tt
  compact_junctions-Projected originals (j ∷ js) r h =
      go (compact_junction originals (with_added (r j.uuid) j))
        (compact_junction-Compacted originals j (r j.uuid) h.0)
        (compact_junctions-Projected originals js r h.1)
    where
      rest : Status × List (Junction D)
      rest = compact_junctions originals (give r js)

      go :
          (m : Option (Junction D))
          → OnSome (Kept (r j.uuid) j) m
          → OnSuccess (Projected r js) rest
          → OnSuccess (Projected r (j ∷ js)) (elim m [
            | none ↦
                (aggregation_failure (with_added (r j.uuid) j), with_added (r j.uuid) j ∷ give r js)
            | some compacted ↦ (rest.0, compacted ∷ rest.1)
          ])
      go none k tail = λ e. absurd (cc e)
      go (some compacted) k tail = λ e. (k, tail e)

  -- Where the junctions of the source have distinct UUIDs, a successful projection is the source
  -- without its demand points, where every junction keeps its own demands, followed by those that it
  -- receives from the demand points: the scaled demands of every share at the junction, in the order
  -- of the demand points, as they are when there is at most one, and merged when there are several.
  pub build_demand_projection-Projected :
      ⦃ext : Externals⦄ (source : Network D)
      → NoRepeat (uuids_of source.nodes_junctions)
      → (build_demand_projection source).0.success ≡ true
      → let projected = (build_demand_projection source).1 in
        Projected
          (received source source.demand_points)
          source.nodes_junctions
          projected.nodes_junctions
        × (projected
            ≡ record source { nodes_junctions = projected.nodes_junctions; demand_points = [] })
  unfolding build_demand_projection aggregate_projected_demands
  build_demand_projection-Projected source apart =
      let js = source.nodes_junctions in
      let gets = received source source.demand_points in
      let good : Network D → Type 0 = λ q.
        Projected gets js q.nodes_junctions
        × (q ≡ record source { nodes_junctions = q.nodes_junctions; demand_points = [] }) in
      let (status, p) =
        project_points source (enabled_indices 0 js []) source.demand_points source in
      let aggregated = compact_junctions js p.nodes_junctions in
      if_both (OnSuccess good) (not status.success) (λ e f. absurd (cc (e, f)))
        (λ e.
          let given : p ≡ record source { nodes_junctions = give gets js } =
            project_points-Given source (enabled_indices 0 js []) (enabled_indices-At js) apart
              source.demand_points source (λ v. [])
              (ap (λ ks. record source { nodes_junctions = ks }) (sym (give-nothing js)))
              (ground (arith, e)) in
          let shape =
            subst (λ ks. OnSuccess (Projected gets js) (compact_junctions js ks))
              (sym (ap (λ (q : Network D). q.nodes_junctions) given))
              (compact_junctions-Projected js js gets (originals-Counted js apart)) in
          if_both (OnSuccess good) (not aggregated.0.success) (λ f g. absurd (cc (f, g)))
            (λ f g. (
              shape (ground (arith, f)),
              ap
                  (λ (q : Network D). record q {
                    nodes_junctions = aggregated.1;
                    demand_points = [];
                  })
                  given,
            )))
