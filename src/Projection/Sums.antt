-- ===== src/Projection/Sums.antt =====
-- What merging the added demands keeps: one demand for each category and pattern, with the sum of the
-- candidates in their order.

use aowis_server_epanet.Base.{
  ◌≡◌, refl, subst, ◌↔◌, ◌⊎◌, inl, inr, true, false, not, Option, none, some, List, [], ◌∷◌, ◌++◌,
  arith, eq_iff, if◌then◌else◌, ==_iff, Bool-cases, same_iff, All,
}
use aowis_server_epanet.Model.Doubles.{Doubles, ◌⊕◌}
use aowis_server_epanet.Model.Network.{Demand, PatternMode, PatternMode-discrete}
use aowis_server_epanet.Loop.{OnSome, OnSome-map, if_both}
use aowis_server_epanet.Projection.Aggregation.{
  demand_projection_key_matches, merge_demand, merge_demands,
}

module _ {D : Type 0} where
  abbrev pub Match : Demand D → Demand D → Type 0
  Match a b = demand_projection_key_matches a b ≡ true

  -- Same category, and both constant or both with the same time pattern.
  key_iff :
      (a b : Demand D)
      → Match a b ↔ (
          (a.category_name ≡ b.category_name)
          × (a.pattern_mode ≡ b.pattern_mode)
          × ((a.pattern_mode ≡ PatternMode.constant) ⊎ (a.pattern_uuid ≡ b.pattern_uuid)))
  unfolding demand_projection_key_matches
  key_iff a b =
      let names = eq_iff a.category_name b.category_name in
      let modes = same_iff PatternMode-discrete a.pattern_mode b.pattern_mode in
      let constants = same_iff PatternMode-discrete a.pattern_mode PatternMode.constant in
      let uuids = ==_iff a.pattern_uuid b.pattern_uuid in
      ground (arith, names, modes, constants, uuids)

  Match-trans : (k a c : Demand D) → Match k a → Match a c → Match k c
  Match-trans k a c h i =
      let ka = key_iff k a in
      let ac = key_iff a c in let kc = key_iff k c in ground (arith, ka, ac, kc)

  Match-common : (k a c : Demand D) → Match k a → Match k c → Match a c
  Match-common k a c h i =
      let ka = key_iff k a in
      let kc = key_iff k c in let ac = key_iff a c in ground (arith, ka, kc, ac)

  Match-left : (k a c : Demand D) → Match a c → Match k c → Match k a
  Match-left k a c h i =
      let ac = key_iff a c in
      let kc = key_iff k c in let ka = key_iff k a in ground (arith, ac, kc, ka)

  unmatched : (a b : Demand D) → ¬ Match a b → demand_projection_key_matches a b ≡ false
  unmatched a b h = ground (arith, h)

  Match-base :
      (k a : Demand D) (base : D)
      → demand_projection_key_matches k (record a { base_demand_m3_per_h = base })
        ≡ demand_projection_key_matches k a
  unfolding demand_projection_key_matches
  Match-base k a base = refl

  base-Match :
      (k a : Demand D) (base : D)
      → demand_projection_key_matches (record a { base_demand_m3_per_h = base }) k
        ≡ demand_projection_key_matches a k
  unfolding demand_projection_key_matches
  base-Match k a base = refl

  -- No two of the demands have the same key.
  abbrev pub DistinctKeys : List (Demand D) → Type 0
  DistinctKeys [] = Unit
  DistinctKeys (a ∷ ds) = All (λ b. ¬ Match a b) ds × DistinctKeys ds

module _ {D : Type 0} ⦃ops : Doubles D⦄ where
  abbrev plus : Option D → D → D
  plus none b = b
  plus (some a) b = a ⊕ b

  -- The sum of the demands with the key of `k`, added in their order; `none` where there is none.
  abbrev pub sum_from : Demand D → Option D → List (Demand D) → Option D
  sum_from k o [] = o
  sum_from k o (d ∷ ds) =
      sum_from k
        (if demand_projection_key_matches k d then some (plus o d.base_demand_m3_per_h) else o) ds

  abbrev pub sum_of : Demand D → List (Demand D) → Option D
  sum_of k ds = sum_from k none ds

  sum_from-unmatched :
      (k : Demand D) (o : Option D) (ds : List (Demand D))
      → All (λ (d : Demand D). ¬ Match k d) ds
      → sum_from k o ds ≡ o
  sum_from-unmatched k o [] h = refl
  sum_from-unmatched k o (d ∷ ds) h = elim (Bool-cases (demand_projection_key_matches k d)) [
    | inl e ↦ absurd (h.0 e)
    | inr e ↦ rw e (sum_from-unmatched k o ds h.1)
  ]

  sum_from-append :
      (k : Demand D) (xs ys : List (Demand D)) (o : Option D)
      → sum_from k o (xs ++ ys) ≡ sum_from k (sum_from k o xs) ys
  sum_from-append k [] ys o = refl
  sum_from-append k (x ∷ xs) ys o = sum_from-append k xs ys _

  -- None of the demands has the key of `x`.
  abbrev Apart : Demand D → List (Demand D) → Type 0
  Apart x ds = All (λ d. ¬ Match x d) ds

  -- Demands apart from one key are apart from every key that matches it.
  Apart-Match : (k a : Demand D) (ds : List (Demand D)) → Match k a → Apart a ds → Apart k ds
  Apart-Match k a [] h apart = tt
  Apart-Match k a (d ∷ ds) h apart =
      ((λ e. apart.0 (Match-common k a d h e)), Apart-Match k a ds h apart.1)

  record Merged (candidate : Demand D) (before after : List (Demand D)) : Type 0 where
    pub distinct : DistinctKeys after
    pub sums : (k : Demand D) → sum_of k after ≡ sum_from k (sum_of k before) (candidate ∷ [])
    pub apart : (x : Demand D) → Apart x before → ¬ Match x candidate → Apart x after

  -- Into the first demand, which has the candidate's key.
  sum-joined :
      (k candidate a : Demand D) (ds : List (Demand D)) (base : D)
      → base ≡ a.base_demand_m3_per_h ⊕ candidate.base_demand_m3_per_h
      → Match a candidate
      → Apart a ds
      → sum_of k (record a { base_demand_m3_per_h = base } ∷ ds)
        ≡ sum_from k (sum_of k (a ∷ ds)) (candidate ∷ [])
  sum-joined k candidate a ds base e same_key apart =
      elim (Bool-cases (demand_projection_key_matches k a)) [
        | inl h ↦
            rw
              (
                Match-base k a base,
                h,
                e,
                sum_from-unmatched k (some a.base_demand_m3_per_h) ds (Apart-Match k a ds h apart),
                sum_from-unmatched k
                    (some (a.base_demand_m3_per_h ⊕ candidate.base_demand_m3_per_h)) ds
                    (Apart-Match k a ds h apart),
                Match-trans k a candidate h same_key,
              )
              refl
        | inr h ↦
            rw
              (
                Match-base k a base,
                h,
                unmatched k candidate (λ i. cc (h, Match-left k a candidate same_key i)),
              )
              refl
      ]

  joined-Merged :
      (candidate a : Demand D) (ds : List (Demand D))
      → DistinctKeys (a ∷ ds)
      → Match a candidate
      → Merged candidate (a ∷ ds) (
          record a {
            base_demand_m3_per_h = a.base_demand_m3_per_h ⊕ candidate.base_demand_m3_per_h;
          }
          ∷ ds)
  unfolding demand_projection_key_matches
  joined-Merged candidate a ds h same_key = record {
    distinct = h;
    sums = λ k. sum-joined k candidate a ds _ refl same_key h.0;
    apart = λ x apart n. apart;
  }

  skipped-Merged :
      (candidate a : Demand D) (ds es : List (Demand D))
      → DistinctKeys (a ∷ ds)
      → ¬ Match a candidate
      → Merged candidate ds es
      → Merged candidate (a ∷ ds) (a ∷ es)
  skipped-Merged candidate a ds es h n m = record {
    distinct = (m.apart a h.0 n, m.distinct);
    sums = λ k. elim (Bool-cases (demand_projection_key_matches k a)) [
      | inl e ↦
          rw
            (
              e,
              sum_from-unmatched k (some a.base_demand_m3_per_h) es
                  (Apart-Match k a es e (m.apart a h.0 n)),
              sum_from-unmatched k (some a.base_demand_m3_per_h) ds (Apart-Match k a ds e h.0),
              unmatched k candidate (λ i. n (Match-common k a candidate e i)),
            )
            refl
      | inr e ↦ rw e (m.sums k)
    ];
    apart = λ x apart i. (apart.0, m.apart x apart.1 i);
  }

  merge_demand-Merged :
      (candidate : Demand D) (before : List (Demand D))
      → DistinctKeys before
      → OnSome (Merged candidate before) (merge_demand candidate before)
  unfolding merge_demand
  merge_demand-Merged candidate [] h = record {
    distinct = (tt, tt);
    sums = λ k. refl;
    apart = λ x a n. (n, tt);
  }
  merge_demand-Merged candidate (a ∷ ds) h =
      let sum = a.base_demand_m3_per_h ⊕ candidate.base_demand_m3_per_h in
      if_both (OnSome (Merged candidate (a ∷ ds))) (not (demand_projection_key_matches a candidate))
        (λ e.
          OnSome-map (Merged candidate ds) (Merged candidate (a ∷ ds)) (merge_demand candidate ds)
            (λ es. a ∷ es) (merge_demand-Merged candidate ds h.1)
            (λ es m. skipped-Merged candidate a ds es h (λ i. cc (e, i)) m))
        (λ e.
          if_both (OnSome (Merged candidate (a ∷ ds))) (not (ops.is_finite sum)) (λ f. tt)
            (λ f. joined-Merged candidate a ds h (ground (arith, e))))

  -- A step of the loop, and the rest of it.
  merge_demands-Merged :
      (k : Demand D) (candidates compacted : List (Demand D))
      → DistinctKeys compacted
      → OnSome
          (λ out. DistinctKeys out × (sum_of k out ≡ sum_from k (sum_of k compacted) candidates))
          (merge_demands compacted candidates)
  unfolding merge_demands
  merge_demands-Merged k [] compacted h = (h, refl)
  merge_demands-Merged k (c ∷ candidates) compacted h =
      go (merge_demand c compacted) (merge_demand-Merged c compacted h)
        (λ merged d. merge_demands-Merged k candidates merged d)
    where
      Good : Option D → List (Demand D) → Type 0
      Good o out = DistinctKeys out × (sum_of k out ≡ sum_from k o candidates)

      go :
          (m : Option (List (Demand D)))
          → OnSome (Merged c compacted) m
          → ((merged : List (Demand D))
              → DistinctKeys merged
              → OnSome (Good (sum_of k merged)) (merge_demands merged candidates))
          → OnSome
              (Good (sum_from k (sum_of k compacted) (c ∷ [])))
              (elim m [ none ↦ none | some merged ↦ merge_demands merged candidates ])
      go none n rest = tt
      go (some merged) n rest =
          subst (λ o. OnSome (Good o) (merge_demands merged candidates)) (n.sums k)
            (rest merged n.distinct)

  -- Merging the added demands of a junction leaves one demand for each category and pattern, and for
  -- every such key the sum of the candidates with it, in their order.
  pub merge_demands-sums :
      (k : Demand D) (candidates out : List (Demand D))
      → merge_demands [] candidates ≡ some out
      → DistinctKeys out × (sum_of k out ≡ sum_of k candidates)
  merge_demands-sums k candidates out e =
      subst (OnSome (λ ds. DistinctKeys ds × (sum_of k ds ≡ sum_of k candidates))) e
        (merge_demands-Merged k candidates [] tt)
