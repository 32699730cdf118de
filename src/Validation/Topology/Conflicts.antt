-- ===== src/Validation/Topology/Conflicts.antt =====
-- The refused pairs, described by what two valves do to one junction.
use aowis_server_epanet.Base.{◌≡◌, ◌↔◌, ◌⊎◌, none, arith, same_iff}
use aowis_server_epanet.Model.Network.{Valve, ValveType, ValveType-discrete}
use aowis_server_epanet.Validation.Topology.{illegal_valve_pair}

-- `v` ends where `w` begins, and both hold that junction's pressure or flow.
abbrev pub InSeries : Valve → Valve → Type 0
InSeries v w =
    (v.node_uuid_to ≡ w.node_uuid_from)
    × (((v.type ≡ ValveType.prv) × (w.type ≡ ValveType.prv))
        ⊎ ((v.type ≡ ValveType.psv) × (w.type ≡ ValveType.psv))
        ⊎ ((v.type ≡ ValveType.prv) × (w.type ≡ ValveType.psv))
        ⊎ ((v.type ≡ ValveType.prv) × (w.type ≡ ValveType.fcv))
        ⊎ ((v.type ≡ ValveType.fcv) × (w.type ≡ ValveType.psv)))

-- Two PRVs with one downstream junction, or two PSVs with one upstream junction.
abbrev pub SameControl : Valve → Valve → Type 0
SameControl v w =
    ((v.type ≡ ValveType.prv) × (w.type ≡ ValveType.prv) × (v.node_uuid_to ≡ w.node_uuid_to))
    ⊎ ((v.type ≡ ValveType.psv) × (w.type ≡ ValveType.psv) × (v.node_uuid_from ≡ w.node_uuid_from))

abbrev pub Conflict : Valve → Valve → Type 0
Conflict v w = SameControl v w ⊎ InSeries v w ⊎ InSeries w v

-- The test passes a pair exactly when the two valves are in no conflict.
pub illegal_valve_pair_iff : (v w : Valve) → (illegal_valve_pair v w ≡ none) ↔ (¬ Conflict v w)
unfolding illegal_valve_pair
illegal_valve_pair_iff v w = ground (
  arith,
  same_iff ValveType-discrete v.type ValveType.prv,
  same_iff ValveType-discrete v.type ValveType.psv,
  same_iff ValveType-discrete v.type ValveType.fcv,
  same_iff ValveType-discrete w.type ValveType.prv,
  same_iff ValveType-discrete w.type ValveType.psv,
  same_iff ValveType-discrete w.type ValveType.fcv,
)
