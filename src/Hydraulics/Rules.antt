-- ===== src/Hydraulics/Rules.antt =====
-- How a property of the solver's state travels through a round, the loop and the whole run.
use aowis_server_epanet.Base.{ℕ}
use aowis_server_epanet.Model.Status.{Externals}
use aowis_server_epanet.Model.Doubles.{Doubles}
use aowis_server_epanet.Model.Network.{Network}
use aowis_server_epanet.Loop.{repeat, OnFlow, OnSome, bind-OnFlow, repeat-OnSome}
use aowis_server_epanet.Hydraulics.{
  HydraulicBackend, HydraulicState, check_cancelled, run_once, check_time, read_result, advance,
  check_step, accumulate, store_event, stop_at_end, round,
}

module _ {W D : Type 0} ⦃ops : Doubles D⦄ (b : HydraulicBackend W D) (network : Network D)
    ⦃ext : Externals⦄ where
  -- `P` holds before a round, `R` behind EN_runH, `K` behind the test of the time, `A` behind the
  -- reading, `P'` where the loop goes on, and `Q` wherever the round is left.
  pub record RoundKeeps (P R K A P' Q : HydraulicState W D → Type 0) : Type 0 where
    pub at_check : (s : HydraulicState W D) → P s → OnFlow P Q (check_cancelled b network s)
    pub at_run : (s : HydraulicState W D) → P s → OnFlow R Q (run_once b network s)
    pub at_time : (s : HydraulicState W D) → R s → OnFlow K Q (check_time b network s)
    pub at_read :
        (s : HydraulicState W D)
        → K s
        → OnFlow A Q (check_cancelled b network (read_result b network s))
    pub at_advance : (s : HydraulicState W D) → A s → OnFlow A Q (advance b network s)
    pub at_step : (s : HydraulicState W D) → A s → OnFlow A Q (check_step b network s)
    pub at_sums :
        (s : HydraulicState W D)
        → A s
        → OnFlow A Q (check_cancelled b network (accumulate b network (store_event b network s)))
    pub at_end : (s : HydraulicState W D) → A s → OnFlow P' Q (stop_at_end b network s)

  module _ {P R K A P' Q : HydraulicState W D → Type 0} (k : RoundKeeps P R K A P' Q) where
    pub round-OnFlow : (s : HydraulicState W D) → P s → OnFlow P' Q (round b network s)
    unfolding round
    round-OnFlow s h =
        bind-OnFlow A P' Q _ _
          (bind-OnFlow A A Q _ _
            (bind-OnFlow A A Q _ _
              (bind-OnFlow A A Q _ _
                (bind-OnFlow K A Q _ _
                  (bind-OnFlow R K Q _ _ (bind-OnFlow P R Q _ _ (k.at_check s h) k.at_run)
                    k.at_time)
                  k.at_read)
                k.at_advance)
              k.at_step)
            k.at_sums)
          k.at_end

  pub loop-OnSome :
      {P R K A Q : HydraulicState W D → Type 0} (k : RoundKeeps P R K A P Q) (fuel : ℕ)
      (s : HydraulicState W D)
      → P s
      → OnSome Q (repeat (round b network) fuel s)
  loop-OnSome {P} {Q = Q} k = repeat-OnSome P Q (round b network) (round-OnFlow k)
