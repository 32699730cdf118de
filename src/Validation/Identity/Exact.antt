-- ===== src/Validation/Identity/Exact.antt =====
-- The identity check fails exactly on the networks where an ID or a UUID that it
-- visits is missing or repeats.
use aowis_server_epanet.Base.{
  ◌≡◌, refl, ◌≢◌, ◌↔◌, List, [], ◌++◌, map, eq_iff, ◌==◌, str_eq, ==_iff, All,
}
use aowis_server_epanet.Model.Status.{Uuid, null_uuid, Externals}
use aowis_server_epanet.Model.Network.{Network, Named}
use aowis_server_epanet.Validation.Identity.{
  nothing_collected, of_junction, of_node, of_pipe, of_pump, of_valve, of_pattern, collect_nodes,
  collect_links, collect_curves, validate_identities,
}
use aowis_server_epanet.Validation.Identity.Fresh
use aowis_server_epanet.Validation.Identity.Runs.{
  uuids, ids, FreshIds, Run, Run-append, entities-Run, Chain, Chain-Run,
}

module _ {D : Type 0} where
  abbrev pub named_nodes : Network D → List Named
  named_nodes n =
      map of_junction n.nodes_junctions
      ++ (map of_node n.nodes_reservoirs ++ map of_node n.nodes_tanks)

  abbrev pub named_links : Network D → List Named
  named_links n =
      map of_pipe n.links_pipes ++ (map of_pump n.links_pumps ++ map of_valve n.links_valves)

  abbrev pub named_patterns : Network D → List Named
  named_patterns n = map of_pattern n.patterns_time

  abbrev pub named_curves : Network D → List Named
  named_curves n =
      n.curves_tank_volume
      ++ (n.curves_pump_head
          ++ (n.curves_pump_efficiency
              ++ (n.curves_valve_headloss ++ (n.curves_valve_characteristic ++ n.curves_generic))))

  -- The UUIDs of the entities that the check visits; demand points are not among them.
  abbrev pub checked_uuids : Network D → List Uuid
  checked_uuids n =
      ((((uuids (named_nodes n) ++ uuids (named_links n)) ++ uuids (named_patterns n))
          ++ uuids (named_curves n))
        ++ uuids n.controls_simple)
      ++ uuids n.controls_rules

abbrev pub HaveUuids : List Uuid → Type 0
HaveUuids us = All (λ u. u ≢ null_uuid) us × Fresh.Distinct (λ a b. a == b) ==_iff null_uuid us

-- In one namespace every ID is there and no two are equal.
abbrev pub HaveIds : List Named → Type 0
HaveIds es = All (λ id. id ≢ "") (ids es) × Fresh.Distinct (λ a b. str_eq a b) eq_iff "" (ids es)

FreshIds-iff : (es : List Named) → FreshIds [] (ids es) ↔ HaveIds es
FreshIds-iff es = Fresh.Fresh-nil (λ a b. str_eq a b) eq_iff "" (ids es)

Chain-nil : Chain [] (Unit {0}) nothing_collected
Chain-nil = record { clean = (λ h. (tt, tt), λ h. refl); grown = λ h. refl }

module _ ⦃ext : Externals⦄ {D : Type 0} (n : Network D) where
  nodes-Run : (s : _) → Run s (named_nodes n) (collect_nodes n s)
  unfolding collect_nodes
  nodes-Run s = Run-append (map of_junction n.nodes_junctions) _ (entities-Run _ _ _ _ s) (
      Run-append (map of_node n.nodes_reservoirs) _ (entities-Run _ _ _ _ _)
        (entities-Run _ _ _ _ _))

  links-Run : (s : _) → Run s (named_links n) (collect_links n s)
  unfolding collect_links
  links-Run s =
      Run-append (map of_pipe n.links_pipes) _ (entities-Run _ _ _ _ s)
        (Run-append (map of_pump n.links_pumps) _ (entities-Run _ _ _ _ _) (entities-Run _ _ _ _ _))

  curves-Run : (s : _) → Run s (named_curves n) (collect_curves n s)
  unfolding collect_curves
  curves-Run s = Run-append n.curves_tank_volume _ (entities-Run _ _ _ _ s) (
      Run-append n.curves_pump_head _ (entities-Run _ _ _ _ _) (
        Run-append n.curves_pump_efficiency _ (entities-Run _ _ _ _ _) (
          Run-append n.curves_valve_headloss _ (entities-Run _ _ _ _ _) (
            Run-append n.curves_valve_characteristic _ (entities-Run _ _ _ _ _)
              (entities-Run _ _ _ _ _)))))

  -- No identity failure is reported exactly when the UUIDs of the junctions, reservoirs, tanks, links,
  -- time patterns, curves, simple controls and rules are all set and distinct and, in each of the six
  -- namespaces of these, all IDs are set and distinct. Demand points are in no namespace.
  pub validate_identities_iff : (validate_identities n ≡ []) ↔ (
      HaveUuids (checked_uuids n)
      × HaveIds (named_nodes n)
      × HaveIds (named_links n)
      × HaveIds (named_patterns n)
      × HaveIds (named_curves n)
      × HaveIds n.controls_simple
      × HaveIds n.controls_rules)
  unfolding validate_identities
  validate_identities_iff =
      let c0 = Chain-Run (named_nodes n) Chain-nil (nodes-Run _) in
      let c1 = Chain-Run (named_links n) c0 (links-Run _) in
      let c2 = Chain-Run (named_patterns n) c1 (entities-Run _ _ _ _ _) in
      let c3 = Chain-Run (named_curves n) c2 (curves-Run _) in
      let c4 = Chain-Run n.controls_simple c3 (entities-Run _ _ _ _ _) in
      let c5 = Chain-Run n.controls_rules c4 (entities-Run _ _ _ _ _) in
      let us = Fresh.Fresh-nil (λ a b. a == b) ==_iff null_uuid (checked_uuids n) in
      (
        λ h.
            let (u, ((((((_, a), b), c), d), e), f)) = c5.clean.0 h in
            (
              us.0 u,
              (FreshIds-iff _).0 a,
              (FreshIds-iff _).0 b,
              (FreshIds-iff _).0 c,
              (FreshIds-iff _).0 d,
              (FreshIds-iff _).0 e,
              (FreshIds-iff _).0 f,
            ),
        λ h. c5.clean.1 (
          us.1 h.0,
          (
            (
              (
                (((tt, (FreshIds-iff _).1 h.1), (FreshIds-iff _).1 h.2), (FreshIds-iff _).1 h.3),
                (FreshIds-iff _).1 h.4,
              ),
              (FreshIds-iff _).1 h.5,
            ),
            (FreshIds-iff _).1 h.6,
          ),
        ),
      )
