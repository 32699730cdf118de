-- ===== src/Projection/Shares.antt =====
-- What the demand points put on every junction.
use aowis_server_epanet.Base.{
  ◌≡◌, refl, ap, true, false, not, ◌||◌, Option, none, some, List, [], ◌∷◌, ◌++◌, map, ◌==◌,
  if◌then◌else◌, is_empty,
}
use aowis_server_epanet.Model.Status.{Uuid}
use aowis_server_epanet.Model.Doubles.{Doubles, ◌⊖◌, ◌⊗◌, nought}
use aowis_server_epanet.Model.Network.{
  Network, Pipe, Demand, DemandPoint, AttachmentType, AllocationMode,
}
use aowis_server_epanet.Loop.{if_both}
use aowis_server_epanet.Projection.{pipe_by_uuid}
use aowis_server_epanet.Projection.Received.{give, give-cong}

module _ {D : Type 0} ⦃ops : Doubles D⦄ where
  abbrev pub scaled : D → Demand D → Demand D
  scaled fraction d = record d { base_demand_m3_per_h = d.base_demand_m3_per_h ⊗ fraction }

  -- The junctions that a demand point feeds, with their fractions.
  abbrev pub pipe_shares : DemandPoint D → Pipe → AllocationMode → List (Uuid × D)
  pipe_shares point pipe AllocationMode.assigned_junction =
      (point.attachment.pipe_assigned_junction_uuid, ops.of_ℕ 1) ∷ []
  pipe_shares point pipe AllocationMode.interpolate_by_position =
      (pipe.node_uuid_from, ops.of_ℕ 1 ⊖ point.attachment.pipe_position)
      ∷ (pipe.node_uuid_to, point.attachment.pipe_position)
      ∷ []

  abbrev pub found_shares : DemandPoint D → Option Pipe → List (Uuid × D)
  found_shares point none = []
  found_shares point (some pipe) = pipe_shares point pipe point.attachment.pipe_allocation_mode

  abbrev pub attached_shares : Network D → DemandPoint D → AttachmentType → List (Uuid × D)
  attached_shares source point AttachmentType.none = []
  attached_shares source point AttachmentType.junction =
      (point.attachment.junction_uuid, ops.of_ℕ 1) ∷ []
  attached_shares source point AttachmentType.pipe =
      found_shares point (pipe_by_uuid source.links_pipes point.attachment.pipe_uuid)

  unfoldable pub shares : Network D → DemandPoint D → List (Uuid × D)
  shares source point =
      if not point.enabled || is_empty point.demands
      then []
      else attached_shares source point point.attachment.type

  -- One share, at a junction: the scaled demands, unless the fraction is zero.
  abbrev pub portion : List (Demand D) → Uuid × D → Uuid → List (Demand D)
  portion demands (u, fraction) v =
      if v == u then if ops.eq fraction nought then [] else map (scaled fraction) demands else []

  abbrev pub portions : List (Demand D) → List (Uuid × D) → Uuid → List (Demand D)
  portions demands [] v = []
  portions demands (s ∷ ss) v = portion demands s v ++ portions demands ss v

  -- What a junction receives from demand points.
  abbrev pub received : Network D → List (DemandPoint D) → Uuid → List (Demand D)
  received source [] v = []
  received source (point ∷ points) v =
      portions point.demands (shares source point) v ++ received source points v

  -- The source, where every junction has the demands that `r` gives it in addition.
  abbrev pub Given : Network D → (Uuid → List (Demand D)) → Network D → Type 0
  Given source r p = p ≡ record source { nodes_junctions = give r source.nodes_junctions }

  pub Given-cong :
      (source : Network D) (r t : Uuid → List (Demand D))
      → ((v : Uuid) → r v ≡ t v)
      → (record source { nodes_junctions = give r source.nodes_junctions })
        ≡ record source { nodes_junctions = give t source.nodes_junctions }
  Given-cong source r t h =
      ap (λ js. record source { nodes_junctions = js }) (give-cong r t source.nodes_junctions h)

  pub portion-zero :
      (demands : List (Demand D)) (u : Uuid) (fraction : D) (v : Uuid)
      → ops.eq fraction nought ≡ true
      → portion demands (u, fraction) v ≡ []
  portion-zero demands u fraction v e =
      rw e (if_both (λ ds. ds ≡ []) (v == u) (λ f. refl) (λ f. refl))

  pub portion-other :
      (demands : List (Demand D)) (u : Uuid) (fraction : D) (v : Uuid)
      → ops.eq fraction nought ≡ false
      → portion demands (u, fraction) v ≡ (if v == u then map (scaled fraction) demands else [])
  portion-other demands u fraction v e = rw e refl
