-- ===== src/Validation/Whole/Exact.antt =====
-- What an accepted network and accepted options of a quality run are.
use aowis_server_epanet.Base.{
  String, ◌≡◌, refl, sym, ◌∙◌, ◌≢◌, ◌↔◌, inl, inr, true, false, not, ◌&&◌, List, [], ◌∷◌, arith,
  eq_iff, str_eq, Bool-cases, same, same_iff,
}
use aowis_server_epanet.Model.Enums.{
  StatusEntityType, WaterQualityAnalysisType, WaterQualityAnalysisType-discrete,
}
use aowis_server_epanet.Model.Status.{null_uuid, Status, Externals}
use aowis_server_epanet.Model.Doubles.{Doubles, nought, le}
use aowis_server_epanet.Model.Network.{Network}
use aowis_server_epanet.StatusHelpers.{make_epanet_status, make_epanet_success}
use aowis_server_epanet.Validation.Support.{
  node_uuids, contains_uuid, validation_status, append_validation_failure,
  append_validation_failures,
}
use aowis_server_epanet.Validation.Support.References.{validate_reference_iff}
use aowis_server_epanet.Validation.Numbers.{invalid_numeric, validate_finite_non_negative}
use aowis_server_epanet.Validation.Identity.Exact.{
  named_nodes, named_links, named_patterns, named_curves, checked_uuids, HaveUuids, HaveIds,
  validate_identities_iff,
}
use aowis_server_epanet.Validation.Identity.{validate_identities}
use aowis_server_epanet.Validation.Topology.{
  validate_topology, enabled_junction_uuids, enabled_valves,
}
use aowis_server_epanet.Validation.Topology.Conflicts.{Conflict}
use aowis_server_epanet.Validation.Topology.Exact.{
  Pairs, considered, snoc-ne-nil, validate_topology_iff,
}
use aowis_server_epanet.Validation.Whole.{
  QualityOptions, OtherChecks, quality_run_validation_status, first_failure, enabled_network,
  trace_status, tolerance, validate_quality_run_references, validate_quality_run_numerics,
  validate_quality_run, validate_network,
}

-- A finite value that is not negative.
abbrev pub Tolerable : {D : Type 0} → ⦃ops : Doubles D⦄ → D → Type 0
Tolerable ⦃ops⦄ value = (ops.is_finite value ≡ true) × (le nought value ≡ true)

append-nil_iff :
    (xs ys : List Status) → (append_validation_failures xs ys ≡ []) ↔ ((xs ≡ []) × (ys ≡ []))
unfolding append_validation_failures
append-nil_iff [] ys = (λ h. (refl, h), λ h. h.1)
append-nil_iff (x ∷ xs) ys = (λ h. cc, λ h. cc)

nil_of_five_iff :
    (a r t n m : List Status)
    → (append_validation_failures
          (append_validation_failures
            (append_validation_failures (append_validation_failures a r) t)
            n)
          m
        ≡ [])
      ↔ ((a ≡ []) × (r ≡ []) × (t ≡ []) × (n ≡ []) × (m ≡ []))
nil_of_five_iff a r t n m =
    let art = append_validation_failures (append_validation_failures a r) t in
    grind (
      arith,
      append-nil_iff a r,
      append-nil_iff (append_validation_failures a r) t,
      append-nil_iff art n,
      append-nil_iff (append_validation_failures art n) m,
    )

append_failure_iff :
    (xs : List Status) (s : Status)
    → (append_validation_failure xs s ≡ []) ↔ ((xs ≡ []) × (s.success ≡ true))
unfolding append_validation_failure
append_failure_iff [] s = ground arith
append_failure_iff (x ∷ xs) s = ground arith

four_iff :
    (a b c d : Status)
    → (append_validation_failure
          (append_validation_failure
            (append_validation_failure (append_validation_failure [] a) b)
            c)
          d
        ≡ [])
      ↔ ((a.success ≡ true) × (b.success ≡ true) × (c.success ≡ true) × (d.success ≡ true))
four_iff a b c d =
    let one = append_validation_failure [] a in
    let two = append_validation_failure one b in
    ground (
      arith,
      append_failure_iff [] a,
      append_failure_iff one b,
      append_failure_iff two c,
      append_failure_iff (append_validation_failure two c) d,
    )

module _ ⦃ext : Externals⦄ where
  failures_kept : (fs : List Status) → (first_failure fs).1 ≡ fs
  unfolding first_failure
  failures_kept [] = refl
  failures_kept (f ∷ fs) = refl

  quality_run_status : (s : Status) → (quality_run_validation_status s).success ≡ s.success
  unfolding quality_run_validation_status
  quality_run_status s = elim (Bool-cases (not s.success)) [ inl e ↦ rw e refl | inr e ↦ rw e refl ]

  module _ {D : Type 0} (network : Network D) where
    -- A network passes without a failure exactly when the identities that are checked (those of nodes,
    -- links, patterns, curves, controls and rules) are set and distinct, none of its enabled valves
    -- between enabled junctions are in conflict, and the reference, numeric and multi-species checks
    -- report nothing.
    pub validate_network_iff :
        (checks : OtherChecks D)
        → ((validate_network network checks).1 ≡ []) ↔ (
            HaveUuids (checked_uuids network)
            × HaveIds (named_nodes network)
            × HaveIds (named_links network)
            × HaveIds (named_patterns network)
            × HaveIds (named_curves network)
            × HaveIds network.controls_simple
            × HaveIds network.controls_rules
            × Pairs
                (λ v w. ¬ Conflict v w)
                (considered (enabled_junction_uuids network) (enabled_valves network))
            × (checks.validate_references network ≡ [])
            × (checks.validate_numerics network ≡ [])
            × (checks.validate_multi_species network ≡ []))
    unfolding validate_network
    validate_network_iff checks =
        let five =
          nil_of_five_iff (validate_identities network) (checks.validate_references network)
            (validate_topology network) (checks.validate_numerics network)
            (checks.validate_multi_species network) in
        let named = validate_identities_iff network in
        let apart = validate_topology_iff network in
        (
          λ h.
              let (none_named, r, none_apart, n, m) = five.0 (sym (failures_kept _) ∙ h) in
              let i = named.0 none_named in
              (i.0, i.1, i.2, i.3, i.4, i.5, i.6, apart.0 none_apart, r, n, m),
          λ h.
              failures_kept _
              ∙ five.1 (named.1 (h.0, h.1, h.2, h.3, h.4, h.5, h.6), h.8, apart.1 h.7, h.9, h.10),
        )

    references_iff :
        (options : QualityOptions D)
        → (validate_quality_run_references network options ≡ []) ↔ (
            options.analysis ≡ WaterQualityAnalysisType.source_trace
            → (options.trace_node_uuid ≢ null_uuid)
              × (contains_uuid (node_uuids network) options.trace_node_uuid ≡ true)
              × (contains_uuid (node_uuids (enabled_network network)) options.trace_node_uuid
                  ≡ true))
    unfolding validate_quality_run_references
    references_iff options =
        let added =
          append_failure_iff [] (quality_run_validation_status (trace_status network options)) in
        let kept = quality_run_status (trace_status network options) in
        let resolved =
          validate_reference_iff (node_uuids network) (node_uuids (enabled_network network))
            options.trace_node_uuid StatusEntityType.quality_solver network.id network.uuid
            "source-trace node" false in
        let trace =
          same_iff WaterQualityAnalysisType-discrete options.analysis
            WaterQualityAnalysisType.source_trace in
        elim (Bool-cases (
          same WaterQualityAnalysisType-discrete options.analysis
            WaterQualityAnalysisType.source_trace)) [
              | inl e ↦ rw e (
                λ h a. elim (resolved.0 (sym kept ∙ (added.0 h).1)) [ inl n ↦ cc | inr r ↦ r ],
                λ h. added.1 (refl, kept ∙ resolved.1 (inr (h (trace.0 e)))),
              )
              | inr e ↦ rw e (λ h a. cc (e, trace.1 a), λ h. refl)
            ]

    module _ ⦃ops : Doubles D⦄ where
      tolerance_iff :
          (value : D) (field_name : String)
          → ((tolerance network value field_name).success ≡ true) ↔ Tolerable value
      unfolding validate_finite_non_negative invalid_numeric validation_status make_epanet_status
          make_epanet_success
      tolerance_iff value field_name = ground (
        arith,
        quality_run_status (
            validate_finite_non_negative value StatusEntityType.quality_solver network.id
              network.uuid field_name),
      )

      numerics_iff :
          (options : QualityOptions D)
          → (validate_quality_run_numerics network options ≡ []) ↔ (
              Tolerable options.chemical_tolerance_mg_per_l
              × Tolerable options.water_age_tolerance_h
              × Tolerable options.source_trace_tolerance_percent
              × Tolerable options.relative_diffusivity
              × (options.analysis ≡ WaterQualityAnalysisType.chemical
                  → ext.trimmed options.chemical_name ≢ ""))
      unfolding validate_quality_run_numerics
      numerics_iff options =
          let first =
            tolerance network options.chemical_tolerance_mg_per_l
              "quality_run.chemical_tolerance_mg_per_l" in
          let second =
            tolerance network options.water_age_tolerance_h "quality_run.water_age_tolerance_h" in
          let third =
            tolerance network options.source_trace_tolerance_percent
              "quality_run.source_trace_tolerance_percent" in
          let fourth =
            tolerance network options.relative_diffusivity "quality_run.relative_diffusivity" in
          let one = append_validation_failure [] first in
          let two = append_validation_failure one second in
          let three = append_validation_failure two third in
          let c =
            tolerance_iff options.chemical_tolerance_mg_per_l
              "quality_run.chemical_tolerance_mg_per_l" in
          let w = tolerance_iff options.water_age_tolerance_h "quality_run.water_age_tolerance_h" in
          let t =
            tolerance_iff options.source_trace_tolerance_percent
              "quality_run.source_trace_tolerance_percent" in
          let d = tolerance_iff options.relative_diffusivity "quality_run.relative_diffusivity" in
          let all = four_iff first second third fourth in
          let chemical =
            same_iff WaterQualityAnalysisType-discrete options.analysis
              WaterQualityAnalysisType.chemical in
          let blank = eq_iff (ext.trimmed options.chemical_name) "" in
          elim (Bool-cases (
            same WaterQualityAnalysisType-discrete options.analysis
              WaterQualityAnalysisType.chemical
            && str_eq (ext.trimmed options.chemical_name) "")) [
              | inl e ↦ rw e (
                λ h. absurd (snoc-ne-nil _ _ h),
                λ h. absurd (ground (arith, e, chemical, blank, h.4)),
              )
              | inr e ↦ rw e (
                λ h.
                    let a = all.0 h in
                    (c.0 a.0, w.0 a.1, t.0 a.2, d.0 a.3, ground (arith, e, chemical, blank)),
                λ h. all.1 (c.1 h.0, w.1 h.1, t.1 h.2, d.1 h.3),
              )
            ]

      -- The options of a quality run pass without a failure exactly when the four tolerances are
      -- finite and not negative, a source trace names a node that is there and enabled, and the name
      -- of a chemical is not blank.
      pub validate_quality_run_iff :
          (options : QualityOptions D)
          → ((validate_quality_run network options).1 ≡ []) ↔ (
              (options.analysis ≡ WaterQualityAnalysisType.source_trace
                → (options.trace_node_uuid ≢ null_uuid)
                  × (contains_uuid (node_uuids network) options.trace_node_uuid ≡ true)
                  × (contains_uuid (node_uuids (enabled_network network)) options.trace_node_uuid
                      ≡ true))
              × Tolerable options.chemical_tolerance_mg_per_l
              × Tolerable options.water_age_tolerance_h
              × Tolerable options.source_trace_tolerance_percent
              × Tolerable options.relative_diffusivity
              × (options.analysis ≡ WaterQualityAnalysisType.chemical
                  → ext.trimmed options.chemical_name ≢ ""))
      unfolding validate_quality_run
      validate_quality_run_iff options =
          let both =
            append-nil_iff (validate_quality_run_references network options)
              (validate_quality_run_numerics network options) in
          let r = references_iff options in
          let n = numerics_iff options in
          (
            λ h.
                let parts = both.0 (sym (failures_kept _) ∙ h) in
                let m = n.0 parts.1 in (r.0 parts.0, m.0, m.1, m.2, m.3, m.4),
            λ h. failures_kept _ ∙ both.1 (r.1 h.0, n.1 (h.1, h.2, h.3, h.4, h.5)),
          )
