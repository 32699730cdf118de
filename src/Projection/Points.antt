-- ===== src/Projection/Points.antt =====
-- The loop over the demand points puts on every junction what it receives.

use aowis_server_epanet.Base.{
  ℕ, zero, suc, String, ◌≡◌, refl, sym, ap, ◌∙◌, inl, inr, Bool, true, false, not, ◌&&◌, ◌||◌,
  Option, none, some, List, [], ◌∷◌, ◌++◌, map, append_assoc, append-nil, arith, ◌==◌,
  if◌then◌else◌, Option-cases, get_elem?, is_empty,
}
use aowis_server_epanet.Loop.{if_both}
use aowis_server_epanet.Model.Status.{Uuid, Status, Externals, null_uuid}
use aowis_server_epanet.Model.Doubles.{Doubles, ◌⊖◌, nought}
use aowis_server_epanet.Model.Network.{
  Network, Junction, Pipe, Demand, DemandPoint, AttachmentType, AllocationMode,
}
use aowis_server_epanet.Projection.{
  Indices, index_of, contains, modify, pipe_by_uuid, append_demand, success_status,
  demand_point_failure, append_demands, append_scaled_demands, project_on_pipe, project_on_found,
  project_attached, project_point, project_points,
}
use aowis_server_epanet.Projection.Shares.{
  scaled, pipe_shares, found_shares, attached_shares, shares, portion, portions, received, Given,
  Given-cong, portion-zero, portion-other,
}
use aowis_server_epanet.Projection.Received.{
  NoRepeat, uuids_of, with_added, give, modify-append_demand, At, index_of-At, also, modify-give,
}

-- What a successful status says of the network that stands beside it.
abbrev pub OnSuccess : {N : Type 0} → (N → Type 0) → Status × N → Type 0
OnSuccess P r = r.0.success ≡ true → P r.1

module _ {D : Type 0} ⦃ext : Externals⦄ ⦃ops : Doubles D⦄ where
  failure-OnSuccess :
      (P : Network D → Type 0) (point : DemandPoint D) (operation : _) (message : _)
      (details : List String) (p : Network D)
      → OnSuccess P (demand_point_failure point operation message details, p)
  unfolding demand_point_failure
  failure-OnSuccess P point operation message details p e = absurd (cc e)

  modify-nothing : (i : ℕ) (js : List (Junction D)) → modify i (with_added []) js ≡ js
  unfolding modify
  modify-nothing i [] = refl
  modify-nothing zero (j ∷ js) = ap (λ ds. record j { demands = ds } ∷ js) (append-nil j.demands)
  modify-nothing (suc i) (j ∷ js) = ap (◌∷◌ j) (modify-nothing i js)

  append_demands-OnSuccess :
      (point : DemandPoint D) (i : ℕ) (fraction : D) (ds : List (Demand D)) (n : ℕ) (p : Network D)
      → OnSuccess
          (λ q. q ≡ record p {
            nodes_junctions = modify i (with_added (map (scaled fraction) ds)) p.nodes_junctions;
          })
          (append_demands point i fraction n ds p)
  unfolding append_demands
  append_demands-OnSuccess point i fraction [] n p =
      λ e. ap (λ js. record p { nodes_junctions = js }) (sym (modify-nothing i p.nodes_junctions))
  append_demands-OnSuccess point i fraction (d ∷ ds) n p =
      let js = p.nodes_junctions in
      let target : Network D → Type 0 = λ q. q ≡ record p {
        nodes_junctions = modify i (with_added (map (scaled fraction) (d ∷ ds))) js;
      } in
      let rest =
        append_demands-OnSuccess point i fraction ds (suc n)
          (record p { nodes_junctions = modify i (append_demand (scaled fraction d)) js }) in
      if_both (OnSuccess target) (not (ops.is_finite d.base_demand_m3_per_h))
        (λ e. failure-OnSuccess target point _ _ _ p)
        (λ e.
          if_both (OnSuccess target) (not (ops.is_finite (scaled fraction d).base_demand_m3_per_h))
            (λ f. failure-OnSuccess target point _ _ _ p)
            (λ f h.
              rest h
              ∙ ap (λ ks. record p { nodes_junctions = ks })
                  (modify-append_demand i (scaled fraction d) (map (scaled fraction) ds) js)))

  module _ (source : Network D) (indices : Indices)
      (at : At (uuids_of source.nodes_junctions) indices)
      (apart : NoRepeat (uuids_of source.nodes_junctions)) where
    -- From the demands `r` to the demands `s`.
    abbrev Turns :
        (Uuid → List (Demand D))
        → (Uuid → List (Demand D))
        → Network D
        → Status × Network D
        → Type 0
    Turns r s p m = Given source r p → OnSuccess (Given source s) m

    written :
        (i : ℕ) (u : Uuid) (p : Network D) (r : Uuid → List (Demand D)) (cs : List (Demand D))
        → Given source r p
        → get_elem? (uuids_of source.nodes_junctions) i ≡ some u
        → record p { nodes_junctions = modify i (with_added cs) p.nodes_junctions }
          ≡ record source { nodes_junctions = give (also r u cs) source.nodes_junctions }
    written i u p r cs given place =
        ap
          (λ (q : Network D). record q {
            nodes_junctions = modify i (with_added cs) q.nodes_junctions;
          })
          given
        ∙ ap (λ js. record source { nodes_junctions = js })
            (modify-give i u cs r source.nodes_junctions apart place)

    append_scaled_demands-Turns :
        (point : DemandPoint D) (p : Network D) (u : Uuid) (fraction : D)
        (r : Uuid → List (Demand D))
        → Turns r
            (λ v. r v ++ portion point.demands (u, fraction) v)
            p
            (append_scaled_demands point p indices u fraction)
    unfolding append_scaled_demands
    append_scaled_demands-Turns point p u fraction r given =
        let t : Uuid → List (Demand D) = λ v. r v ++ portion point.demands (u, fraction) v in
        let good = OnSuccess (Given source t) in
        let js = source.nodes_junctions in
        let cs = map (scaled fraction) point.demands in
        if_both good
          (not (ops.is_finite fraction) || ops.lt fraction nought || ops.lt (ops.of_ℕ 1) fraction)
          (λ e. failure-OnSuccess (Given source t) point _ _ _ p)
          (λ e.
            if_both good (ops.eq fraction nought)
              (λ f _.
                given
                ∙ Given-cong source r t (λ v. sym (
                    ap (λ ds. r v ++ ds) (portion-zero point.demands u fraction v f)
                    ∙ append-nil (r v))))
              (λ f. elim (Option-cases (index_of indices u)) [
                | inl g ↦
                    rw (append_scaled_demands, g) (failure-OnSuccess (Given source t) point _ _ _ p)
                | inr (i, g) ↦
                    rw (append_scaled_demands, g)
                      (λ h.
                        append_demands-OnSuccess point i fraction point.demands 0 p h
                        ∙ written i u p r cs given (index_of-At (uuids_of js) indices u i at g)
                        ∙ Given-cong source (also r u cs) t (λ v.
                          ap (λ ds. r v ++ ds) (sym (portion-other point.demands u fraction v f))))
              ]))

    Turns-cong :
        (r s t : Uuid → List (Demand D)) (p : Network D) (m : Status × Network D)
        → ((v : Uuid) → s v ≡ t v)
        → Turns r s p m
        → Turns r t p m
    Turns-cong r s t p m h turns given e = turns given e ∙ Given-cong source s t h

    -- A demand point whose shares are `ss`.
    abbrev Feeds :
        DemandPoint D
        → List (Uuid × D)
        → (Uuid → List (Demand D))
        → Network D
        → Status × Network D
        → Type 0
    Feeds point ss r p m = Turns r (λ v. r v ++ portions point.demands ss v) p m

    one_share :
        (point : DemandPoint D) (p : Network D) (u : Uuid) (fraction : D)
        (r : Uuid → List (Demand D))
        → Feeds point ((u, fraction) ∷ []) r p (append_scaled_demands point p indices u fraction)
    one_share point p u fraction r =
        Turns-cong r (λ v. r v ++ portion point.demands (u, fraction) v)
          (λ v. r v ++ portions point.demands ((u, fraction) ∷ []) v) p
          (append_scaled_demands point p indices u fraction)
          (λ v. ap (λ ds. r v ++ ds) (sym (append-nil (portion point.demands (u, fraction) v))))
          (append_scaled_demands-Turns point p u fraction r)

    -- Two shares in a row.
    two_shares :
        (point : DemandPoint D) (p q : Network D) (s t : Uuid × D) (r : Uuid → List (Demand D))
        (m : Status × Network D)
        → Given source (λ v. r v ++ portion point.demands s v) q
        → Turns
            (λ v. r v ++ portion point.demands s v)
            (λ v. (r v ++ portion point.demands s v) ++ portions point.demands (t ∷ []) v)
            q
            m
        → OnSuccess (Given source (λ v. r v ++ portions point.demands (s ∷ t ∷ []) v)) m
    two_shares point p q s t r m given turns e =
        turns given e
        ∙ Given-cong source _ _ (λ v.
          append_assoc (r v) (portion point.demands s v) (portions point.demands (t ∷ []) v))

    project_on_pipe-Feeds :
        (point : DemandPoint D) (pipe : Pipe) (p : Network D) (mode : AllocationMode)
        (r : Uuid → List (Demand D))
        → Feeds point (pipe_shares point pipe mode) r p (project_on_pipe indices point pipe p mode)
    unfolding project_on_pipe
    project_on_pipe-Feeds point pipe p AllocationMode.assigned_junction r given =
        let assigned = point.attachment.pipe_assigned_junction_uuid in
        let target : Network D → Type 0 =
          Given source (λ v. r v ++ portions point.demands ((assigned, ops.of_ℕ 1) ∷ []) v) in
        if_both (OnSuccess target) (assigned == null_uuid)
          (λ e. failure-OnSuccess target point _ _ _ p)
          (λ e.
            if_both (OnSuccess target)
              (not (assigned == pipe.node_uuid_from) && not (assigned == pipe.node_uuid_to))
              (λ f. failure-OnSuccess target point _ _ _ p)
              (λ f. one_share point p assigned (ops.of_ℕ 1) r given))
    project_on_pipe-Feeds point pipe p AllocationMode.interpolate_by_position r given =
        let position = point.attachment.pipe_position in
        let first : Uuid × D = (pipe.node_uuid_from, ops.of_ℕ 1 ⊖ position) in
        let moved = append_scaled_demands point p indices first.0 first.1 in
        let target : Network D → Type 0 =
          Given source
            (λ v. r v ++ portions point.demands (first ∷ (pipe.node_uuid_to, position) ∷ []) v) in
        if_both (OnSuccess target)
          (not (contains indices pipe.node_uuid_from) || not (contains indices pipe.node_uuid_to))
          (λ e. failure-OnSuccess target point _ _ _ p)
          (λ e.
            if_both (OnSuccess target) (not moved.0.success) (λ f g. absurd (cc (f, g)))
              (λ f.
                two_shares point p moved.1 first (pipe.node_uuid_to, position) r
                  (append_scaled_demands point moved.1 indices pipe.node_uuid_to position)
                  (append_scaled_demands-Turns point p first.0 first.1 r given (ground (arith, f)))
                  (one_share point moved.1 pipe.node_uuid_to position
                    (λ v. r v ++ portion point.demands first v))))

    project_on_found-Feeds :
        (point : DemandPoint D) (p : Network D) (found : Option Pipe) (r : Uuid → List (Demand D))
        → Feeds point (found_shares point found) r p (project_on_found indices point p found)
    unfolding project_on_found
    project_on_found-Feeds point p none r given = failure-OnSuccess (Given source _) point _ _ _ p
    project_on_found-Feeds point p (some pipe) r given =
        let mode = point.attachment.pipe_allocation_mode in
        let target : Network D → Type 0 =
          Given source (λ v. r v ++ portions point.demands (pipe_shares point pipe mode) v) in
        if_both (OnSuccess target) (not pipe.enabled) (λ e. failure-OnSuccess target point _ _ _ p)
          (λ e. project_on_pipe-Feeds point pipe p mode r given)

    project_attached-Feeds :
        (point : DemandPoint D) (p : Network D) (type : AttachmentType) (r : Uuid → List (Demand D))
        → Feeds point
            (attached_shares source point type)
            r
            p
            (project_attached source indices point p type)
    unfolding project_attached
    project_attached-Feeds point p AttachmentType.none r given =
        failure-OnSuccess (Given source _) point _ _ _ p
    project_attached-Feeds point p AttachmentType.junction r given =
        one_share point p point.attachment.junction_uuid (ops.of_ℕ 1) r given
    project_attached-Feeds point p AttachmentType.pipe r given =
        let position = point.attachment.pipe_position in
        let found = pipe_by_uuid source.links_pipes point.attachment.pipe_uuid in
        let target : Network D → Type 0 =
          Given source (λ v. r v ++ portions point.demands (found_shares point found) v) in
        if_both (OnSuccess target)
          (not (ops.is_finite position) || ops.lt position nought || ops.lt (ops.of_ℕ 1) position)
          (λ e. failure-OnSuccess target point _ _ _ p)
          (λ e. project_on_found-Feeds point p found r given)

    project_point-Feeds :
        (point : DemandPoint D) (p : Network D) (r : Uuid → List (Demand D))
        → Feeds point (shares source point) r p (project_point source indices point p)
    unfolding project_point shares
    project_point-Feeds point p r given =
        let idle = not point.enabled || is_empty point.demands in
        let type = point.attachment.type in go idle refl
      where
        go :
            (idle : Bool)
            → (not point.enabled || is_empty point.demands) ≡ idle
            → OnSuccess
                (Given source (λ v.
                  r v
                  ++ portions point.demands
                      (if idle then [] else attached_shares source point point.attachment.type)
                      v))
                (if idle
                  then (success_status, p)
                  else project_attached source indices point p point.attachment.type)
        go true e h = given ∙ Given-cong source _ _ (λ v. sym (append-nil (r v)))
        go false e h = project_attached-Feeds point p point.attachment.type r given h

    pub project_points-Given :
        (points : List (DemandPoint D)) (p : Network D) (r : Uuid → List (Demand D))
        → Turns r (λ v. r v ++ received source points v) p (project_points source indices points p)
    unfolding project_points
    project_points-Given [] p r given =
        λ e. given ∙ Given-cong source _ _ (λ v. sym (append-nil (r v)))
    project_points-Given (point ∷ points) p r given =
        let next = project_point source indices point p in
        let s : Uuid → List (Demand D) =
          λ v. r v ++ portions point.demands (shares source point) v in
        let target : Network D → Type 0 =
          Given source (λ v. r v ++ received source (point ∷ points) v) in
        if_both (OnSuccess target) (not next.0.success) (λ e f. absurd (cc (e, f)))
          (λ e f.
            project_points-Given points next.1 s
              (project_point-Feeds point p r given (ground (arith, e))) f
            ∙ Given-cong source _ _ (λ v.
              append_assoc (r v) (portions point.demands (shares source point) v)
                (received source points v)))
