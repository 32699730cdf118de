-- ===== src/Validation/Topology/Exact.antt =====
-- The two nested loops of `validateTopology` find exactly the conflicts among the considered valves.
use aowis_server_epanet.Base.{
  String, ◌≡◌, refl, ◌↔◌, inl, inr, List, [], ◌∷◌, ◌++◌, Bool-cases, Option-cases, All,
}
use aowis_server_epanet.Model.Status.{Uuid, Status, Externals}
use aowis_server_epanet.Model.Network.{Network, Valve}
use aowis_server_epanet.Validation.Support.{enabled_entities}
use aowis_server_epanet.Validation.Topology.{
  between_junctions, illegal_valve_pair, check_against, check_valves, node_ids,
  enabled_junction_uuids, enabled_valves, validate_topology,
}
use aowis_server_epanet.Validation.Topology.Conflicts.{Conflict, illegal_valve_pair_iff}

-- `R` between each element and each one behind it.
abbrev pub Pairs : (Valve → Valve → Type 0) → List Valve → Type 0
Pairs R [] = Unit {0}
Pairs R (v ∷ vs) = All (R v) vs × Pairs R vs

-- The valves that the loops look at: both ends among the junctions.
abbrev pub considered : List Uuid → List Valve → List Valve
considered junctions = enabled_entities (between_junctions junctions)

pub snoc-ne-nil : (fs : List Status) (f : Status) → ¬ (fs ++ f ∷ [] ≡ [])
snoc-ne-nil [] f e = cc
snoc-ne-nil (g ∷ fs) f e = cc

module _ ⦃ext : Externals⦄ (ids : List (Uuid × String)) (junctions : List Uuid) where
  -- One round of the inner loop.
  round_iff :
      (v w : Valve) (fs : List Status)
      → (check_against ids junctions v (w ∷ []) fs ≡ [])
        ↔ ((fs ≡ []) × All (λ u. ¬ Conflict v u) (considered junctions (w ∷ [])))
  unfolding check_against enabled_entities
  round_iff v w fs = elim (Bool-cases (between_junctions junctions w)) [
    | inl e ↦ rw e (elim (Option-cases (illegal_valve_pair v w)) [
      | inl free ↦ rw free (λ h. (h, ((illegal_valve_pair_iff v w).0 free, tt)), λ h. h.0)
      | inr (hit, refused) ↦
          rw refused (
            λ h. absurd (snoc-ne-nil _ _ h),
            λ h. cc (refused, (illegal_valve_pair_iff v w).1 h.1.0),
          )
    ])
    | inr e ↦ rw e (λ h. (h, tt), λ h. h.0)
  ]

  All-considered :
      (P : Valve → Type 0) (w : Valve) (ws : List Valve)
      → (All P (considered junctions (w ∷ [])) × All P (considered junctions ws))
        ↔ All P (considered junctions (w ∷ ws))
  unfolding enabled_entities
  All-considered P w ws = elim (Bool-cases (between_junctions junctions w)) [
    | inl e ↦ rw e (λ h. (h.0.0, h.1), λ h. ((h.0, tt), h.1))
    | inr e ↦ rw e (λ h. h.1, λ h. (tt, h))
  ]

  against_iff :
      (v : Valve) (ws : List Valve) (fs : List Status)
      → (check_against ids junctions v ws fs ≡ [])
        ↔ ((fs ≡ []) × All (λ u. ¬ Conflict v u) (considered junctions ws))
  unfolding check_against
  against_iff v [] fs = unfold enabled_entities in (λ h. (h, tt), λ h. h.0)
  against_iff v (w ∷ ws) fs =
      let one = round_iff v w fs in
      let rest = against_iff v ws (check_against ids junctions v (w ∷ []) fs) in
      let both = All-considered (λ u. ¬ Conflict v u) w ws in
      (
        λ h. let late = rest.0 h in let early = one.0 late.0 in (early.0, both.0 (early.1, late.1)),
        λ h. let parts = both.1 h.1 in rest.1 (one.1 (h.0, parts.0), parts.1),
      )

  valves_iff :
      (vs : List Valve) (fs : List Status)
      → (check_valves ids junctions vs fs ≡ [])
        ↔ ((fs ≡ []) × Pairs (λ v w. ¬ Conflict v w) (considered junctions vs))
  unfolding check_valves enabled_entities
  valves_iff [] fs = (λ h. (h, tt), λ h. h.0)
  valves_iff (v ∷ vs) fs = elim (Bool-cases (between_junctions junctions v)) [
    | inl e ↦ rw e (
        let here = against_iff v vs fs in
        let rest = valves_iff vs (check_against ids junctions v vs fs) in
        (
          λ h. let late = rest.0 h in let early = here.0 late.0 in (early.0, (early.1, late.1)),
          λ h. rest.1 (here.1 (h.0, h.1.0), h.1.1),
        ))
    | inr e ↦ rw e (valves_iff vs fs)
  ]

-- No topology failure is reported exactly when no two of the enabled valves that run between enabled
-- junctions are in conflict.
pub validate_topology_iff :
    ⦃ext : Externals⦄ {D : Type 0} (network : Network D)
    → (validate_topology network ≡ [])
      ↔ Pairs
          (λ v w. ¬ Conflict v w)
          (considered (enabled_junction_uuids network) (enabled_valves network))
unfolding validate_topology
validate_topology_iff network =
    let e =
      valves_iff (node_ids network) (enabled_junction_uuids network) (enabled_valves network) [] in
    (λ h. (e.0 h).1, λ h. e.1 (refl, h))
