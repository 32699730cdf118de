-- ===== src/Executor/Verdict.antt =====
-- What the final state of a run says.
use aowis_server_epanet.Base.{
  String, ◌≡◌, ◌↔◌, ◌⊎◌, Bool, true, false, ◌||◌, List, [], ◌∷◌, arith, if◌then◌else◌, same,
  same_iff, any,
}
use aowis_server_epanet.Model.Enums.{DiagnosticSeverity, DiagnosticSeverity-discrete}
use aowis_server_epanet.Model.Status.{Diagnostic, Externals}
use aowis_server_epanet.Model.Timelines.{HydraulicTimeline}
use aowis_server_epanet.Model.Run.{
  EpanetRunState, EpanetRunState-discrete, EpanetQualityResult, EpanetResultRun,
}
use aowis_server_epanet.Executor.{
  has_error_diagnostic, has_warning_diagnostic, completed_hydraulic_state, is_state, some_state,
  finalize_run_state,
}

-- An element of the list satisfies the predicate.
abbrev pub Some {ℓ} : {A : Type ℓ} → (A → Type 0) → List A → Type 0
Some P [] = ⊥
Some P (x ∷ xs) = P x ⊎ Some P xs

any-same_iff :
    {A B : Type 0} (d : Discrete B) (f : A → B) (b : B) (xs : List A)
    → (any (λ x. same d (f x) b) xs ≡ true) ↔ Some (λ x. f x ≡ b) xs
any-same_iff d f b [] = (λ e. absurd (cc e), λ h. absurd h)
any-same_iff d f b (x ∷ xs) =
    let here = same_iff d (f x) b in
    let later = any-same_iff d f b xs in ground (arith, here, later)

-- A diagnostic of severity error or fatal, and one of severity warning.
abbrev pub Erroneous : List Diagnostic → Type 0
Erroneous ds =
    Some (λ (d : Diagnostic). d.severity ≡ DiagnosticSeverity.error) ds
    ⊎ Some (λ (d : Diagnostic). d.severity ≡ DiagnosticSeverity.fatal) ds

abbrev pub Warned : List Diagnostic → Type 0
Warned ds = Some (λ (d : Diagnostic). d.severity ≡ DiagnosticSeverity.warning) ds

has_error_diagnostic_iff : (ds : List Diagnostic) → (has_error_diagnostic ds ≡ true) ↔ Erroneous ds
unfolding has_error_diagnostic
has_error_diagnostic_iff ds =
    let errors =
      any-same_iff DiagnosticSeverity-discrete (λ (d : Diagnostic). d.severity)
        DiagnosticSeverity.error ds in
    let fatals =
      any-same_iff DiagnosticSeverity-discrete (λ (d : Diagnostic). d.severity)
        DiagnosticSeverity.fatal ds in
    ground (arith, errors, fatals)

has_warning_diagnostic_iff : (ds : List Diagnostic) → (has_warning_diagnostic ds ≡ true) ↔ Warned ds
unfolding has_warning_diagnostic
has_warning_diagnostic_iff ds =
    any-same_iff DiagnosticSeverity-discrete (λ (d : Diagnostic). d.severity)
      DiagnosticSeverity.warning ds

hydraulic_error_iff :
    {H : Type 0} (timeline : HydraulicTimeline H)
    → (is_state (completed_hydraulic_state timeline) EpanetRunState.error ≡ true)
      ↔ ((timeline.status.success ≡ false) ⊎ Erroneous timeline.diagnostics)
unfolding completed_hydraulic_state
hydraulic_error_iff timeline =
    let e = has_error_diagnostic_iff timeline.diagnostics in
    let s =
      same_iff EpanetRunState-discrete (completed_hydraulic_state timeline) EpanetRunState.error in
    ground (arith, e, s)

hydraulic_warning_iff :
    {H : Type 0} (timeline : HydraulicTimeline H)
    → (is_state (completed_hydraulic_state timeline) EpanetRunState.warning ≡ true) ↔ (
        ((timeline.status.success ≡ true) × ¬ Erroneous timeline.diagnostics)
        × Warned timeline.diagnostics)
unfolding completed_hydraulic_state
hydraulic_warning_iff timeline =
    let e = has_error_diagnostic_iff timeline.diagnostics in
    let w = has_warning_diagnostic_iff timeline.diagnostics in
    let s =
      same_iff EpanetRunState-discrete (completed_hydraulic_state timeline)
        EpanetRunState.warning in
    ground (arith, e, w, s)

three_way :
    (bad odd : Bool) {P Q : Type 0}
    → (bad ≡ true) ↔ P
    → (¬ P → (odd ≡ true) ↔ Q)
    → let state =
        if bad
        then EpanetRunState.error
        else if odd
        then EpanetRunState.warning
        else EpanetRunState.success in
      ((state ≡ EpanetRunState.error) ↔ P)
      × ((state ≡ EpanetRunState.warning) ↔ ((¬ P) × Q))
      × ((state ≡ EpanetRunState.success) ↔ ((¬ P) × (¬ Q)))
three_way true odd p q = ground (arith, p)
three_way false true p q = let r = q (λ h. cc (p.1 h)) in ground (arith, p, r)
three_way false false p q = let r = q (λ h. cc (p.1 h)) in ground (arith, p, r)

module _ ⦃ext : Externals⦄ {D R M : Type 0} where
  -- Something failed, or something gave a warning, in the run, in its hydraulics or in a quality run.
  abbrev pub Wrong : EpanetResultRun D R M → Type 0
  Wrong r =
      Erroneous r.diagnostics
      ⊎ ((r.result_timeline.status.success ≡ false)
          ⊎ (Erroneous r.result_timeline.diagnostics
              ⊎ Some (λ (q : EpanetQualityResult D R). q.state ≡ EpanetRunState.error)
                  r.quality_results))

  abbrev pub Doubtful : EpanetResultRun D R M → Type 0
  Doubtful r =
      Warned r.diagnostics
      ⊎ (Warned r.result_timeline.diagnostics
          ⊎ Some (λ (q : EpanetQualityResult D R). q.state ≡ EpanetRunState.warning)
              r.quality_results)

  abbrev failed : EpanetResultRun D R M → Bool
  failed r =
      has_error_diagnostic r.diagnostics
      || is_state (completed_hydraulic_state r.result_timeline) EpanetRunState.error
      || some_state EpanetRunState.error r.quality_results

  abbrev doubted : EpanetResultRun D R M → Bool
  doubted r =
      has_warning_diagnostic r.diagnostics
      || is_state (completed_hydraulic_state r.result_timeline) EpanetRunState.warning
      || some_state EpanetRunState.warning r.quality_results

  failed_iff : (r : EpanetResultRun D R M) → (failed r ≡ true) ↔ Wrong r
  failed_iff r =
      let a = has_error_diagnostic_iff r.diagnostics in
      let b = hydraulic_error_iff r.result_timeline in
      let c =
        any-same_iff EpanetRunState-discrete (λ (q : EpanetQualityResult D R). q.state)
          EpanetRunState.error r.quality_results in
      ground (arith, a, b, c)

  doubted_iff : (r : EpanetResultRun D R M) → ¬ Wrong r → (doubted r ≡ true) ↔ Doubtful r
  doubted_iff r right =
      let a = has_warning_diagnostic_iff r.diagnostics in
      let b = hydraulic_warning_iff r.result_timeline in
      let c =
        any-same_iff EpanetRunState-discrete (λ (q : EpanetQualityResult D R). q.state)
          EpanetRunState.warning r.quality_results in
      ground (arith, a, b, c)

  -- A run that was not cancelled ends in `error` exactly when something failed in it, in `warning`
  -- exactly when nothing failed and something gave a warning, and in `success` exactly when neither
  -- is the case.
  pub finalize_run_state-verdict :
      (lines : List String) (result : EpanetResultRun D R M)
      → result.cancelled ≡ false
      → let state = (finalize_run_state lines result).state in
        ((state ≡ EpanetRunState.error) ↔ Wrong result)
        × ((state ≡ EpanetRunState.warning) ↔ ((¬ Wrong result) × Doubtful result))
        × ((state ≡ EpanetRunState.success) ↔ ((¬ Wrong result) × (¬ Doubtful result)))
  unfolding finalize_run_state
  finalize_run_state-verdict lines result e = rw e (
      three_way (failed result) (doubted result) (failed_iff result)
        (λ right. doubted_iff result right))
