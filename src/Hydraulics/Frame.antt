-- ===== src/Hydraulics/Frame.antt =====
-- What the stages that only report leave alone: everything but the diagnostics, the first failure
-- and whether the round has a result.
use aowis_server_epanet.Base.{
  ℕ, String, ◌≡◌, refl, ap, ◌∙◌, inl, inr, not, ◌&&◌, List, [], ◌∷◌, map, arith, ◌==◌, Bool-cases,
  is_empty, update_last, ℤ, pos, negsuc, ltb_ℤ, eqb_ℤ,
}
use aowis_server_epanet.Model.Enums.{
  StatusStage, StatusOperation, StatusEntityType, DiagnosticSeverity,
}
use aowis_server_epanet.Model.Status.{Status, Externals, null_uuid}
use aowis_server_epanet.Model.Doubles.{Doubles}
use aowis_server_epanet.Model.Network.{Network}
use aowis_server_epanet.Model.Results.{HydraulicResult}
use aowis_server_epanet.StatusHelpers.Codes.{process_epanet_return_code_lem}
use aowis_server_epanet.Loop.{OnFlow}
use aowis_server_epanet.Hydraulics.Energy.{store_pump_energy_usage}
use aowis_server_epanet.Hydraulics.FlowBalance.{store_flow_balance}
use aowis_server_epanet.Hydraulics.{
  HydraulicBackend, HydraulicState, with_native, collect_hydraulic_failure, handle_run_error,
  handle_next_error, check_step, close, close_after_failure, store_totals, process, add_interval,
  accumulate, store_event,
}

abbrev pub time : {D : Type 0} → HydraulicResult D → ℕ
time r = r.time_elapsed_s

pub map-update_last :
    {D : Type 0} (f : HydraulicResult D → HydraulicResult D) (rs : List (HydraulicResult D))
    → ((r : HydraulicResult D) → time (f r) ≡ time r)
    → map time (update_last f rs) ≡ map time rs
map-update_last f [] h = refl
map-update_last f (r ∷ []) h = ap (λ t. t ∷ []) (h r)
map-update_last f (r ∷ q ∷ rs) h = ap (◌∷◌ (time r)) (map-update_last f (q ∷ rs) h)

module _ {W D : Type 0} where
  abbrev pub Same : HydraulicState W D → HydraulicState W D → Type 0
  Same s t =
      (t.project.native ≡ s.project.native)
      × (t.timeline ≡ s.timeline)
      × (t.cancelled ≡ s.cancelled)
      × (t.current_time_s ≡ s.current_time_s)
      × (t.previous_time_s ≡ s.previous_time_s)
      × (t.next_step_s ≡ s.next_step_s)

  pub Same-refl : (s : HydraulicState W D) → Same s s
  Same-refl s = (refl, refl, refl, refl, refl, refl)

  pub Same-trans : (s t u : HydraulicState W D) → Same s t → Same t u → Same s u
  Same-trans s t u h k = (k.0 ∙ h.0, k.1 ∙ h.1, k.2 ∙ h.2, k.3 ∙ h.3, k.4 ∙ h.4, k.5 ∙ h.5)

  module _ ⦃ext : Externals⦄ where
    pub collect-Same :
        (s : HydraulicState W D) (status : Status) (severity : DiagnosticSeverity) (time : ℤ)
        → Same s (collect_hydraulic_failure s status severity time)
    unfolding collect_hydraulic_failure
    collect-Same s status severity time = ground arith

    pub process-Same :
        (s : HydraulicState W D) (error : ℤ) (stage : StatusStage) (operation : StatusOperation)
        (call message : String)
        → Same s (process s error stage operation call message).1
    process-Same s error stage operation call message = ground (
      arith,
      process_epanet_return_code_lem s.project error stage operation call
          StatusEntityType.hydraulic_solver "" null_uuid message,
    )

    -- The same for a return code that is processed and whose failure is collected.
    pub report-Same :
        (s : HydraulicState W D) (error : ℤ) (stage : StatusStage) (operation : StatusOperation)
        (call message : String) (severity : DiagnosticSeverity) (time : ℤ)
        → let r = process s error stage operation call message in
          Same s (collect_hydraulic_failure r.1 r.0 severity time)
    report-Same s error stage operation call message severity time =
        let r = process s error stage operation call message in
        Same-trans s r.1 (collect_hydraulic_failure r.1 r.0 severity time)
          (process-Same s error stage operation call message) (collect-Same r.1 r.0 severity time)

  module _ ⦃ops : Doubles D⦄ (b : HydraulicBackend W D) (network : Network D)
      ⦃ext : Externals⦄ where
    pub handle_run_error-Same :
        (error : ℤ) (s : HydraulicState W D)
        → OnFlow (Same s) (Same s) (handle_run_error b network error s)
    unfolding handle_run_error
    handle_run_error-Same error s = grind (
      arith,
      process-Same s error StatusStage.run_hydraulics StatusOperation.run_hydraulics "EN_runH"
          "EPANET hydraulic analysis returned a diagnostic",
      collect-Same,
    )

    pub check_step-Same :
        (s : HydraulicState W D) → OnFlow (Same s) (Same s) (check_step b network s)
    unfolding check_step
    check_step-Same s = elim (Bool-cases (ltb_ℤ s.next_step_s (pos 0))) [
      | inl e ↦ rw e (collect-Same s _ _ _)
      | inr e ↦ rw e (Same-refl s)
    ]

    pub handle_next_error-Same :
        (error : ℤ) (s : HydraulicState W D)
        → OnFlow (Same s) (Same s) (handle_next_error b network error s)
    unfolding handle_next_error
    handle_next_error-Same error s = grind (
      arith,
      process-Same s error StatusStage.run_hydraulics StatusOperation.advance_hydraulics "EN_nextH"
          "EPANET hydraulic timestep advance returned a diagnostic",
      collect-Same,
    )

  -- What the sums leave alone.
  abbrev pub SameButSums : HydraulicState W D → HydraulicState W D → Type 0
  SameButSums s t = Same s t × (t.project ≡ s.project) × (t.first_failure ≡ s.first_failure)

  module _ ⦃ops : Doubles D⦄ (b : HydraulicBackend W D) (network : Network D) where
    add_interval-Same :
        (hours seconds : D) (s : HydraulicState W D)
        → SameButSums s (add_interval b network hours seconds s)
    unfolding add_interval
    add_interval-Same hours seconds s = (Same-refl s, refl, refl)

    pub accumulate-Same : (s : HydraulicState W D) → SameButSums s (accumulate b network s)
    unfolding accumulate
    accumulate-Same s = elim (Bool-cases (s.result_available && ltb_ℤ (pos 0) s.next_step_s)) [
      | inl e ↦ rw e (add_interval-Same _ _ s)
      | inr e ↦ rw e (elim (Bool-cases (s.result_available && network.duration_s == 0)) [
        | inl f ↦ rw f (add_interval-Same _ _ s)
        | inr f ↦ rw f (Same-refl s, refl, refl)
      ])
    ]

    -- `store_event` changes the next events only.
    pub store_event-Same :
        (s : HydraulicState W D)
        → let t = store_event b network s in
          (t.project ≡ s.project)
          × (t.first_failure ≡ s.first_failure)
          × (t.cancelled ≡ s.cancelled)
          × (t.current_time_s ≡ s.current_time_s)
          × (t.previous_time_s ≡ s.previous_time_s)
          × (t.next_step_s ≡ s.next_step_s)
          × (map time t.timeline.results ≡ map time s.timeline.results)
    unfolding store_event
    store_event-Same s =
        elim (Bool-cases (s.result_available && not (is_empty s.timeline.results))) [
          | inl e ↦
              rw e (
                refl,
                refl,
                refl,
                refl,
                refl,
                refl,
                map-update_last _ s.timeline.results (λ r. refl),
              )
          | inr e ↦ rw e (refl, refl, refl, refl, refl, refl, refl)
        ]

  module _ ⦃ops : Doubles D⦄ (b : HydraulicBackend W D) (network : Network D)
      ⦃ext : Externals⦄ where
    -- What EN_closeH leaves of the state.
    abbrev pub closed_native : HydraulicState W D → HydraulicState W D
    closed_native s = with_native s (b.close_h s.project.native).1

    pub close-Same : (s : HydraulicState W D) → Same (closed_native s) (close b network s)
    unfolding close
    close-Same s = elim (Bool-cases (eqb_ℤ (b.close_h s.project.native).0 (pos 0))) [
      | inl e ↦ rw e (Same-refl (closed_native s))
      | inr e ↦ rw e (
          report-Same (closed_native s) (b.close_h s.project.native).0 StatusStage.close_hydraulics
            StatusOperation.close_hydraulics "EN_closeH" "Failed to close EPANET hydraulics"
            DiagnosticSeverity.error
            (process (closed_native s) (b.close_h s.project.native).0 StatusStage.close_hydraulics
              StatusOperation.close_hydraulics "EN_closeH"
              "Failed to close EPANET hydraulics").1.current_time_s)
    ]

    pub close_after_failure-Same :
        (s : HydraulicState W D) → Same (closed_native s) (close_after_failure b network s)
    unfolding close_after_failure
    close_after_failure-Same s = elim (Bool-cases (eqb_ℤ (b.close_h s.project.native).0 (pos 0))) [
      | inl e ↦ rw e (Same-refl (closed_native s))
      | inr e ↦ rw e (
          report-Same (closed_native s) (b.close_h s.project.native).0 StatusStage.close_hydraulics
            StatusOperation.close_hydraulics "EN_closeH"
            "Failed to close EPANET hydraulics after initialization failure"
            DiagnosticSeverity.error (negsuc 0))
    ]

    totals_time :
        (s : HydraulicState W D) (r : HydraulicResult D)
        → time (
            store_flow_balance s.flow_balance
              (store_pump_energy_usage network b.default_usage s.pump_energy s.system_energy r))
          ≡ time r
    unfolding store_flow_balance store_pump_energy_usage
    totals_time s r = ground arith

    pub store_totals-Same :
        (s : HydraulicState W D)
        → let t = store_totals b network s in
          (t.project ≡ s.project)
          × (t.cancelled ≡ s.cancelled)
          × (map time t.timeline.results ≡ map time s.timeline.results)
    unfolding store_totals
    store_totals-Same s = elim (Bool-cases (not s.cancelled && not (is_empty s.timeline.results))) [
      | inl e ↦ rw e (refl, refl, map-update_last _ s.timeline.results (totals_time s))
      | inr e ↦ rw e (refl, refl, refl)
    ]
