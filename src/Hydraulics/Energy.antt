-- ===== src/Hydraulics/Energy.antt =====
-- The pump-energy part of src/lib/internal/epanet_hydraulic_solver.cpp. The three lists of pumps
-- (network, results, accumulators) are walked together: they have one entry for each pump, which
-- the code indexes without a test.
pub mod Usage
use aowis_server_epanet.Base.{
  ℕ, zero, suc, ◌+◌, ◌-◌, ◌*◌, ◌/◌, ◌%◌, ◌^◌, ◌≤◌, ◌<◌, min, max, String, ◌≡◌, refl, sym, ap, ◌∙◌,
  subst, ◌≢◌, ◌↔◌, ◌⊎◌, inl, inr, Bool, true, false, not, ◌&&◌, ◌||◌, Option, none, some, List, [],
  ◌∷◌, ◌++◌, map, append_assoc, append-nil, arith, eq_iff, ltb, leb, ◌==◌, str_eq, if◌then◌else◌,
  ==_iff, Bool-cases, Option-cases, decided, same, decided_iff, same_iff, length, take, drop,
  length-append, All, All-append, get_elem?, any, any-append, ℤ, pos, negsuc, pos_part, neg_part,
  ltb_ℤ, eqb_ℤ,
}
use aowis_server_epanet.Model.Status.{Uuid, null_uuid}
use aowis_server_epanet.Model.Doubles.{Doubles, ◌⊕◌, ◌⊖◌, ◌⊗◌, ◌⊘◌, nought, le, maximum}
use aowis_server_epanet.Model.Network.{
  Network, Pump, TimePattern, PriceInputType, PriceInputType-discrete,
}
use aowis_server_epanet.Model.Results.{HydraulicResult, PumpResult, PumpEnergyUsage, EnergyUsage}

-- PumpEnergyAccumulator
pub record PumpEnergyAccumulator (D : Type 0) : Type 0 where
  pub online_hours : D
  pub efficiency_percent_hours : D
  pub energy_intensity_hours : D
  pub power_kw_hours : D
  pub peak_power_kw : D
  pub total_cost : D

-- SystemEnergyAccumulator
pub record SystemEnergyAccumulator (D : Type 0) : Type 0 where
  pub peak_power_kw : D

module _ {D : Type 0} ⦃ops : Doubles D⦄ where
  abbrev pub new_pump_accumulator : PumpEnergyAccumulator D
  new_pump_accumulator = record {
    online_hours = nought;
    efficiency_percent_hours = nought;
    energy_intensity_hours = nought;
    power_kw_hours = nought;
    peak_power_kw = nought;
    total_cost = nought;
  }

  -- QList::at, where the default stands for an index out of range.
  abbrev pub at : List D → ℕ → D
  at xs i = elim (get_elem? xs i) [ none ↦ ops.of_ℕ 1 | some x ↦ x ]

  -- The loop of patternFactor over the patterns; `moment` is `time_s + start_pattern_s` in 64 bits.
  unfoldable pub factor_in : List (TimePattern D) → Uuid → ℕ → ℕ → D
  factor_in [] pattern_uuid moment timestep = ops.of_ℕ 1
  factor_in (pattern ∷ patterns) pattern_uuid moment timestep =
      let rest = factor_in patterns pattern_uuid moment timestep in
      if not (pattern.uuid == pattern_uuid) || length pattern.multipliers == 0
      then rest
      else at pattern.multipliers (moment / timestep % length pattern.multipliers)

  -- patternFactor
  unfoldable pub pattern_factor : Network D → Uuid → ℕ → D
  unfolding factor_in
  pattern_factor network pattern_uuid time_s =
      if pattern_uuid == null_uuid || network.timestep_pattern_s == 0
      then ops.of_ℕ 1
      else factor_in network.patterns_time pattern_uuid
          ((time_s + network.start_pattern_s) % 2 ^ 64) network.timestep_pattern_s

  -- pumpEnergyCost
  unfoldable pub pump_energy_cost : Network D → Pump D → ℕ → D
  unfolding pattern_factor
  pump_energy_cost network pump time_s =
      (if not (same PriceInputType-discrete pump.energy_price_input_type PriceInputType.global)
        then pump.energy_price_per_kw_h
        else network.options_energy.global_energy_price_per_kw_h)
      ⊗ pattern_factor network
          (if same PriceInputType-discrete pump.energy_price_input_type PriceInputType.pattern_price
            then pump.price_pattern_uuid
            else network.options_energy.global_energy_price_pattern_uuid)
          time_s

  -- One round of accumulatePumpEnergy for a pump that runs.
  unfoldable pub accumulate_pump :
      Network D → Pump D → PumpResult D → ℕ → D → PumpEnergyAccumulator D → PumpEnergyAccumulator D
  unfolding pump_energy_cost
  accumulate_pump network pump r time_s interval_hours a = record {
    online_hours = a.online_hours ⊕ interval_hours;
    efficiency_percent_hours = a.efficiency_percent_hours ⊕ r.efficiency_percent ⊗ interval_hours;
    energy_intensity_hours =
        a.energy_intensity_hours
        ⊕ r.power_kw ⊘ maximum ops.minimum_energy_flow (ops.abs r.flow_m3_per_h) ⊗ interval_hours;
    power_kw_hours = a.power_kw_hours ⊕ r.power_kw ⊗ interval_hours;
    peak_power_kw = if ops.lt a.peak_power_kw r.power_kw then r.power_kw else a.peak_power_kw;
    total_cost = a.total_cost ⊕ pump_energy_cost network pump time_s ⊗ r.power_kw ⊗ interval_hours;
  }

  -- The loop of accumulatePumpEnergy: the accumulators and `simultaneous_power_kw`.
  unfoldable pub accumulate_pumps :
      Network D
      → ℕ
      → D
      → List (PumpResult D)
      → List (Pump D)
      → List (PumpEnergyAccumulator D)
      → D
      → List (PumpEnergyAccumulator D) × D
  unfolding accumulate_pump
  accumulate_pumps network time_s hours (r ∷ rs) (pump ∷ pumps) (a ∷ others) simultaneous =
      let runs = not (le r.efficiency_percent nought) in
      let (others', total) =
        accumulate_pumps network time_s hours rs pumps others
          (if runs then simultaneous ⊕ r.power_kw else simultaneous) in
      ((if runs then accumulate_pump network pump r time_s hours a else a) ∷ others', total)
  accumulate_pumps network time_s hours rs pumps others simultaneous = (others, simultaneous)

  -- accumulatePumpEnergy
  unfoldable pub accumulate_pump_energy :
      Network D
      → HydraulicResult D
      → D
      → List (PumpEnergyAccumulator D) × SystemEnergyAccumulator D
      → List (PumpEnergyAccumulator D) × SystemEnergyAccumulator D
  unfolding accumulate_pumps
  accumulate_pump_energy network result hours (accumulators, system) =
      let (accumulators', simultaneous) =
        accumulate_pumps network result.time_elapsed_s hours result.links_pumps network.links_pumps
          accumulators nought in
      (
        accumulators',
        if ops.lt system.peak_power_kw simultaneous
            then record { peak_power_kw = simultaneous }
            else system,
      )

  -- One round of storePumpEnergyUsage; `usage` is a default-constructed entry.
  unfoldable pub pump_usage :
      Network D → D → PumpEnergyUsage D → Pump D → PumpEnergyAccumulator D → PumpEnergyUsage D
  pump_usage network duration_hours usage pump a =
      let is_online = ops.lt nought a.online_hours in
      let timed = ops.lt nought duration_hours in
      record usage {
        pump_id = pump.id;
        pump_uuid = pump.uuid;
        currency_iso4217 = network.options_energy.currency_iso4217;
        time_online_percent =
            if timed
            then a.online_hours ⊘ duration_hours ⊗ ops.of_ℕ 100
            else if is_online
            then ops.of_ℕ 100
            else usage.time_online_percent;
        average_efficiency_percent =
            if is_online
            then a.efficiency_percent_hours ⊘ a.online_hours
            else usage.average_efficiency_percent;
        average_energy_intensity_kw_h_per_m3 =
            if is_online
            then a.energy_intensity_hours ⊘ a.online_hours
            else usage.average_energy_intensity_kw_h_per_m3;
        average_power_kw =
            if is_online then a.power_kw_hours ⊘ a.online_hours else usage.average_power_kw;
        peak_power_kw = a.peak_power_kw;
        average_cost_per_day =
            if timed
            then a.total_cost ⊗ ops.of_ℕ 24 ⊘ duration_hours
            else a.total_cost ⊗ ops.of_ℕ 24;
      }

  -- The loop of storePumpEnergyUsage: the entries, and the cost per day that they add up to.
  unfoldable pub pump_usages :
      Network D
      → D
      → PumpEnergyUsage D
      → List (Pump D)
      → List (PumpEnergyAccumulator D)
      → List (PumpEnergyUsage D) × D
      → List (PumpEnergyUsage D) × D
  unfolding pump_usage
  pump_usages network hours usage (pump ∷ pumps) (a ∷ others) (entries, cost) =
      let entry = pump_usage network hours usage pump a in
      pump_usages network hours usage pumps others
        (entries ++ entry ∷ [], cost ⊕ entry.average_cost_per_day)
  pump_usages network hours usage pumps others done = done

  -- storePumpEnergyUsage
  unfoldable pub store_pump_energy_usage :
      Network D
      → PumpEnergyUsage D
      → List (PumpEnergyAccumulator D)
      → SystemEnergyAccumulator D
      → HydraulicResult D
      → HydraulicResult D
  unfolding pump_usages
  store_pump_energy_usage network usage accumulators system result =
      let (entries, cost) =
        pump_usages network (ops.of_ℕ network.duration_s ⊘ ops.of_ℕ 3600) usage network.links_pumps
          accumulators (result.links_pump_energy_usage, result.energy_usage.energy_cost_per_day) in
      let demand_charge = system.peak_power_kw ⊗ network.options_energy.demand_charge_per_kw in
      record result {
        links_pump_energy_usage = entries;
        energy_usage = record {
          currency_iso4217 = network.options_energy.currency_iso4217;
          energy_cost_per_day = cost;
          peak_power_kw = system.peak_power_kw;
          demand_charge_per_day = demand_charge;
          total_cost_per_day = cost ⊕ demand_charge;
        };
      }
