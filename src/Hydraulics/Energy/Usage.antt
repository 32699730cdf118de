-- ===== src/Hydraulics/Energy/Usage.antt =====
-- The energy sums of src/lib/internal/epanet_hydraulic_solver.cpp: which multiplier a price pattern
-- gives, which accumulators a result changes, and what a run's usage entries add up to.
use native.Mathlib.Nat.{mod-lt}
use aowis_server_epanet.Base.{
  ℕ, zero, suc, ◌+◌, ◌/◌, ◌%◌, ◌^◌, ◌<◌, ◌≡◌, refl, sym, ap, ◌∙◌, ◌≢◌, Bool, true, false, not, ◌||◌,
  some, List, [], ◌∷◌, ◌++◌, map, append_assoc, append-nil, arith, ◌==◌, if◌then◌else◌, length, All,
  get_elem?,
}
use aowis_server_epanet.Model.Status.{Uuid, null_uuid}
use aowis_server_epanet.Model.Doubles.{Doubles, ◌⊕◌, ◌⊗◌, ◌⊘◌, nought, le}
use aowis_server_epanet.Model.Network.{Network, Pump, TimePattern}
use aowis_server_epanet.Model.Results.{HydraulicResult, PumpEnergyUsage, PumpResult}
use aowis_server_epanet.Hydraulics.Energy.{
  PumpEnergyAccumulator, SystemEnergyAccumulator, at, factor_in, pattern_factor, accumulate_pump,
  accumulate_pumps, pump_usage, pump_usages, store_pump_energy_usage,
}

module _ {D : Type 0} ⦃ops : Doubles D⦄ where
  -- A pattern that patternFactor passes over.
  abbrev pub passed_over : Uuid → TimePattern D → Bool
  passed_over uuid pattern = not (pattern.uuid == uuid) || length pattern.multipliers == 0

  at-in_range : (xs : List D) (i : ℕ) → i < length xs → get_elem? xs i ≡ some (at xs i)
  at-in_range [] i h = absurd (omega arith)
  at-in_range (x ∷ xs) zero h = refl
  at-in_range (x ∷ xs) (suc i) h = at-in_range xs i (omega arith)

  factor_in-found :
      (uuid : Uuid) (moment step : ℕ) (earlier later : List (TimePattern D))
      (pattern : TimePattern D)
      → All (λ p. passed_over uuid p ≡ true) earlier
      → passed_over uuid pattern ≡ false
      → get_elem? pattern.multipliers (moment / step % length pattern.multipliers)
        ≡ some (factor_in (earlier ++ pattern ∷ later) uuid moment step)
  unfolding factor_in
  factor_in-found uuid moment step [] later pattern none_before found =
      rw found (at-in_range pattern.multipliers _ (mod-lt _ (ground (arith, found))))
  factor_in-found uuid moment step (p ∷ earlier) later pattern none_before found =
      rw (none_before.0)
        (factor_in-found uuid moment step earlier later pattern none_before.1 found)

  -- The price factor at a time is the multiplier of the first pattern with the identity and with
  -- multipliers, at the period that the time falls into, taken around the pattern's length: the
  -- index is in range. The sum of the time and the pattern start wraps at 64 bits.
  pub pattern_factor-found :
      (network : Network D) (uuid : Uuid) (time_s : ℕ) (earlier later : List (TimePattern D))
      (pattern : TimePattern D)
      → network.patterns_time ≡ earlier ++ pattern ∷ later
      → All (λ p. passed_over uuid p ≡ true) earlier
      → passed_over uuid pattern ≡ false
      → uuid ≢ null_uuid
      → network.timestep_pattern_s ≢ 0
      → get_elem? pattern.multipliers (
          (time_s + network.start_pattern_s)
          % 2 ^ 64
          / network.timestep_pattern_s
          % length pattern.multipliers)
        ≡ some (pattern_factor network uuid time_s)
  unfolding pattern_factor
  pattern_factor-found network uuid time_s earlier later pattern shape none_before found real
        timed =
      let unequal : (uuid == null_uuid) ≡ false = ground arith in
      let step : (network.timestep_pattern_s == 0) ≡ false = ground arith in
      rw (unequal, step, shape)
        (factor_in-found uuid _ network.timestep_pattern_s earlier later pattern none_before found)

  -- A pump that the sums of a result change: its efficiency is positive.
  abbrev pub runs : PumpResult D → Bool
  runs r = not (le r.efficiency_percent nought)

  -- A result changes the sums of exactly the pumps that run, each from its own row of the result,
  -- of the network and of the sums.
  pub accumulate_pumps-at :
      (network : Network D) (time_s : ℕ) (hours : D) (rs : List (PumpResult D))
      (pumps : List (Pump D)) (sums : List (PumpEnergyAccumulator D)) (total : D) (i : ℕ)
      (r : PumpResult D) (pump : Pump D) (a : PumpEnergyAccumulator D)
      → get_elem? rs i ≡ some r
      → get_elem? pumps i ≡ some pump
      → get_elem? sums i ≡ some a
      → get_elem? (accumulate_pumps network time_s hours rs pumps sums total).0 i
        ≡ some (if runs r then accumulate_pump network pump r time_s hours a else a)
  unfolding accumulate_pumps
  accumulate_pumps-at network time_s hours [] pumps sums total i r pump a hr hp ha = ground arith
  accumulate_pumps-at network time_s hours (q ∷ rs) [] sums total i r pump a hr hp ha = ground arith
  accumulate_pumps-at network time_s hours (q ∷ rs) (p ∷ pumps) [] total i r pump a hr hp ha =
      ground arith
  accumulate_pumps-at network time_s hours (q ∷ rs) (p ∷ pumps) (b ∷ sums) total zero r pump a hr hp
        ha =
      ground arith
  accumulate_pumps-at network time_s hours (q ∷ rs) (p ∷ pumps) (b ∷ sums) total (suc i) r pump a hr
        hp ha =
      accumulate_pumps-at network time_s hours rs pumps sums _ i r pump a hr hp ha

  -- The costs per day of usage entries, added up from the left.
  abbrev pub costs : D → List (PumpEnergyUsage D) → D
  costs total [] = total
  costs total (u ∷ us) = costs (total ⊕ u.average_cost_per_day) us

  pump_usages-entries :
      (network : Network D) (hours : D) (usage : PumpEnergyUsage D) (pumps : List (Pump D))
      (sums : List (PumpEnergyAccumulator D)) (entries : List (PumpEnergyUsage D)) (cost : D)
      → length sums ≡ length pumps
      → let done = pump_usages network hours usage pumps sums (entries, cost) in
        (added : List (PumpEnergyUsage D)) × (done.0 ≡ entries ++ added)
        × (map (λ (u : PumpEnergyUsage D). u.pump_uuid) added ≡ map (λ (p : Pump D). p.uuid) pumps)
        × (done.1 ≡ costs cost added)
  unfolding pump_usages pump_usage
  pump_usages-entries network hours usage [] sums entries cost h =
      ([], sym (append-nil entries), refl, refl)
  pump_usages-entries network hours usage (p ∷ pumps) [] entries cost h = absurd (omega (arith, h))
  pump_usages-entries network hours usage (p ∷ pumps) (a ∷ sums) entries cost h =
      let entry = pump_usage network hours usage p a in
      let (added, listed, named, summed) =
        pump_usages-entries network hours usage pumps sums (entries ++ entry ∷ [])
          (cost ⊕ entry.average_cost_per_day) (omega (arith, h)) in
      (
        entry ∷ added,
        listed ∙ append_assoc entries (entry ∷ []) added,
        ap (◌∷◌ p.uuid) named,
        summed,
      )

  -- With one accumulator for each pump, a run's totals add one usage entry for each pump, in the
  -- network's order; the energy cost is the sum of the entries' costs, and the total cost is that
  -- and the demand charge of the peak power.
  pub store_pump_energy_usage_lem :
      (network : Network D) (usage : PumpEnergyUsage D) (sums : List (PumpEnergyAccumulator D))
      (system : SystemEnergyAccumulator D) (result : HydraulicResult D)
      → length sums ≡ length network.links_pumps
      → let stored = store_pump_energy_usage network usage sums system result in
        (added : List (PumpEnergyUsage D)) × (stored.links_pump_energy_usage
          ≡ result.links_pump_energy_usage ++ added)
        × (map (λ (u : PumpEnergyUsage D). u.pump_uuid) added
            ≡ map (λ (p : Pump D). p.uuid) network.links_pumps)
        × (stored.energy_usage.energy_cost_per_day
            ≡ costs result.energy_usage.energy_cost_per_day added)
        × (stored.energy_usage.total_cost_per_day
            ≡ costs result.energy_usage.energy_cost_per_day added
              ⊕ system.peak_power_kw ⊗ network.options_energy.demand_charge_per_kw)
  unfolding store_pump_energy_usage
  store_pump_energy_usage_lem network usage sums system result h =
      let (added, listed, named, summed) =
        pump_usages-entries network (ops.of_ℕ network.duration_s ⊘ ops.of_ℕ 3600) usage
          network.links_pumps sums result.links_pump_energy_usage
          result.energy_usage.energy_cost_per_day h in
      (
        added,
        listed,
        named,
        summed,
        ap (λ c. c ⊕ system.peak_power_kw ⊗ network.options_energy.demand_charge_per_kw) summed,
      )
