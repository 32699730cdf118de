-- ===== src/Quality/Rounds.antt =====
-- One round of the quality solver's loop: what holds before it holds behind it, a second later.
use aowis_server_epanet.Base.{
  ℕ, suc, ◌+◌, ◌≤◌, ◌<◌, ◌≡◌, refl, sym, ap, ◌∙◌, subst, inl, inr, false, not, ◌&&◌, some, [], ◌∷◌,
  ◌++◌, map, arith, ◌==◌, Bool-cases, All-append, ℤ, pos, pos_part, ltb_ℤ, eqb_ℤ,
}
use aowis_server_epanet.Model.Enums.{StatusStage, StatusOperation, DiagnosticSeverity}
use aowis_server_epanet.Model.Status.{Status, Externals}
use aowis_server_epanet.Loop.{repeat, OnFlow, bind-OnFlow, repeat-ends}
use aowis_server_epanet.Hydraulics.Phases.{Phase}
use aowis_server_epanet.Hydraulics.Times.{
  Rising, AllBelow, AllBelow-mono, Rising-snoc, visited, visited_forward, visited_bound,
}
use aowis_server_epanet.Quality.{
  QualityBackend, QualityState, QualityResult, with_native, collect_quality_failure, or_break,
  check_cancelled, run_once, check_time, read_result, finish_steady, check_steady, advance,
  check_left, round,
}
use aowis_server_epanet.Quality.Stages.{
  time, QualityLaws, map-time-snoc, Seen, seen, collect-seen, report-seen, seen-OnFlow, check-keeps,
  or_break-seen,
}

module _ {W R : Type 0} ⦃ext : Externals⦄ {b : QualityBackend W R} {phase : W → Phase} {last : ℕ}
    (law : QualityLaws b phase last) where
  abbrev see : QualityState W R → Seen
  see s = seen law s

  -- Quality is open, and the results so far are in order and not later than the round before.
  abbrev pub InTime : Seen → Type 0
  InTime (p, current, previous, times) =
      (p ≡ Phase.opened)
      × (ltb_ℤ (pos last) current ≡ false)
      × (visited previous ≤ suc last)
      × Rising 0 times
      × AllBelow (visited previous) times

  -- The same behind the test of the time, before the result of this round is there.
  abbrev Tested : ℕ → Seen → Type 0
  Tested n (p, current, previous, times) =
      (n < visited previous)
      × (visited previous ≡ suc (pos_part current))
      × (p ≡ Phase.opened)
      × (ltb_ℤ (pos last) current ≡ false)
      × (visited previous ≤ suc last)
      × Rising 0 times
      × AllBelow n times

  abbrev Before : ℕ → Seen → Type 0
  Before n v = (visited v.2 ≡ n) × InTime v

  abbrev After : ℕ → Seen → Type 0
  After n v = (n < visited v.2) × InTime v

  -- Wherever the loop is left.
  abbrev pub Done : Seen → Type 0
  Done v = (v.0 ≡ Phase.opened) × Rising 0 v.3 × AllBelow (suc last) v.3

  InTime-Done : (v : Seen) → InTime v → Done v
  InTime-Done v h = (h.0, h.3, AllBelow-mono (visited v.2) (suc last) v.3 h.2 h.4)

  After-Done : (n : ℕ) (v : Seen) → After n v → Done v
  After-Done n v h = InTime-Done v h.1

  Before-Done : (n : ℕ) (v : Seen) → Before n v → Done v
  Before-Done n v h = InTime-Done v h.1

  run-keeps :
      (n : ℕ) (s : QualityState W R)
      → Before n (see s)
      → OnFlow (λ t. Before n (see t)) (λ t. Done (see t)) (run_once b s)
  unfolding run_once
  run-keeps n s h =
      let r = b.run_q s.current_time_s s.project.native in
      let called : QualityState W R = record (with_native s r.2) { current_time_s = r.1 } in
      bind-OnFlow _ _ _ (check_cancelled b called)
        (λ t.
          or_break t r.0 StatusOperation.run_quality "EN_runQ"
            "EPANET water-quality analysis returned a diagnostic")
        (check-keeps law (Before n) Done called
          (
            h.0,
            (
              law.run_keeps s.current_time_s s.project.native h.1.0,
              law.run_bounded s.current_time_s s.project.native h.1.1,
              h.1.2,
              h.1.3,
              h.1.4,
            ),
          )
          (Before-Done n))
        (λ t k.
          seen-OnFlow law (Before n) Done t _
            (or_break-seen law t r.0 StatusOperation.run_quality "EN_runQ"
              "EPANET water-quality analysis returned a diagnostic")
            k (Before-Done n))

  failure-Done :
      (s : QualityState W R) (status : Status) (severity : DiagnosticSeverity) (at : ℤ)
      → Done (see s)
      → Done (see (collect_quality_failure s status severity at))
  failure-Done s status severity at h = subst Done (sym (collect-seen law s status severity at)) h

  time-keeps :
      (n : ℕ) (s : QualityState W R)
      → Before n (see s)
      → OnFlow (λ t. Tested n (see t)) (λ t. Done (see t)) (check_time b s)
  unfolding check_time
  time-keeps n s h = elim (Bool-cases (ltb_ℤ s.current_time_s (pos 0))) [
    | inl e ↦ rw e (failure-Done s _ _ _ (Before-Done n (see s) h))
    | inr e ↦
        rw e
          (elim (Bool-cases (
            not (ltb_ℤ s.previous_time_s (pos 0))
            && not (ltb_ℤ s.previous_time_s s.current_time_s))) [
              | inl f ↦ rw f (failure-Done s _ _ _ (Before-Done n (see s) h))
              | inr f ↦ rw f (
                  let forward = visited_forward s.previous_time_s s.current_time_s e f in
                  let bound = visited_bound last s.current_time_s h.1.1 in
                  (
                    omega (arith, h.0, forward.0),
                    forward.1,
                    h.1.0,
                    h.1.1,
                    bound,
                    h.1.3,
                    subst (λ m. AllBelow m (map time s.timeline.results)) h.0 h.1.4,
                  ))
            ])
  ]

  Tested-After : (n : ℕ) (v : Seen) → Tested n v → After n v
  Tested-After n v h =
      (h.0, (h.2, h.3, h.4, h.5, AllBelow-mono n (visited v.2) v.3 (omega (arith, h.0)) h.6))

  -- The result of the round is later than all before it.
  snoc-After : (n : ℕ) (v : Seen) → Tested n v → After n (v.0, v.1, v.2, v.3 ++ pos_part v.1 ∷ [])
  snoc-After n v h =
      let earlier = AllBelow-mono n (pos_part v.1) v.3 (omega (arith, h.0, h.1)) h.6 in
      (
        h.0,
        (
          h.2,
          h.3,
          h.4,
          Rising-snoc 0 (pos_part v.1) v.3 (omega arith) h.5 earlier,
          All-append (λ t. t < visited v.2) v.3 _
              (AllBelow-mono n (visited v.2) v.3 (omega (arith, h.0)) h.6) (omega (arith, h.1), tt),
        ),
      )

  read-keeps : (n : ℕ) (s : QualityState W R) → Tested n (see s) → After n (see (read_result b s))
  unfolding read_result
  read-keeps n s h =
      let blank : QualityResult R = record b.default_result {
        time_elapsed_s = pos_part s.current_time_s;
      } in
      let got = b.read blank s.project in
      let s' : QualityState W R = record s { project = got.2 } in
      let kept = law.read_keeps blank s.project in
      let still : Tested n (see s') =
        subst (λ p. Tested n (p, s.current_time_s, s.previous_time_s, map time s.timeline.results))
          (sym kept) h in
      elim (Bool-cases (not got.0.success)) [
        | inl f ↦ rw f (
            Tested-After n
              (see (collect_quality_failure s' got.0 DiagnosticSeverity.error s.current_time_s))
              (subst (Tested n)
                (sym (collect-seen law s' got.0 DiagnosticSeverity.error s.current_time_s)) still))
        | inr f ↦ rw f (
            subst (λ ts. After n (phase got.2.native, s.current_time_s, s.previous_time_s, ts))
              (sym (
                map-time-snoc s.timeline.results _
                ∙ ap (λ t. map time s.timeline.results ++ t ∷ []) (law.read_time blank s.project)))
              (snoc-After n (see s') still))
      ]

  steady-keeps :
      (n duration_s : ℕ) (s : QualityState W R)
      → After n (see s)
      → OnFlow (λ t. After n (see t)) (λ t. Done (see t)) (check_steady b duration_s s)
  unfolding check_steady finish_steady
  steady-keeps n duration_s s h =
      let r = b.next_q (pos 0) s.project.native in
      let called : QualityState W R = with_native s r.2 in
      let done = After-Done n (see s) h in
      let still : Done (see called) =
        (law.next_keeps (pos 0) s.project.native done.0, done.1, done.2) in
      elim (Bool-cases (duration_s == 0)) [
        | inl e ↦ rw e (elim (Bool-cases (eqb_ℤ r.0 (pos 0))) [
          | inl f ↦ rw f still
          | inr f ↦ rw f (
              subst Done
                (sym (
                  report-seen law called r.0 StatusStage.run_quality StatusOperation.step_quality
                    "EN_nextQ" "Failed to finalize steady-state EPANET water-quality analysis"
                    DiagnosticSeverity.fatal s.current_time_s))
                still)
        ])
        | inr e ↦ rw e h
      ]

  advance-keeps :
      (n : ℕ) (s : QualityState W R)
      → After n (see s)
      → OnFlow (λ t. After n (see t)) (λ t. Done (see t)) (advance b s)
  unfolding advance
  advance-keeps n s h =
      let r = b.step_q s.time_left_s s.project.native in
      let called : QualityState W R = record (with_native s r.2) { time_left_s = r.1 } in
      seen-OnFlow law (After n) Done called _
        (or_break-seen law called r.0 StatusOperation.step_quality "EN_stepQ"
          "Failed to advance EPANET water-quality timestep")
        (h.0, (law.step_keeps s.time_left_s s.project.native h.1.0, h.1.1, h.1.2, h.1.3, h.1.4))
        (After-Done n)

  left-keeps :
      (n : ℕ) (s : QualityState W R)
      → After n (see s)
      → OnFlow (λ t. After n (see t)) (λ t. Done (see t)) (check_left b s)
  unfolding check_left
  left-keeps n s h = elim (Bool-cases (ltb_ℤ s.time_left_s (pos 0))) [
    | inl e ↦ rw e (failure-Done s _ _ _ (After-Done n (see s) h))
    | inr e ↦ rw e (elim (Bool-cases (not (ltb_ℤ (pos 0) s.time_left_s))) [
      | inl f ↦ rw f (After-Done n (see s) h)
      | inr f ↦ rw f h
    ])
  ]

  round-keeps :
      (n duration_s : ℕ) (s : QualityState W R)
      → Before n (see s)
      → OnFlow (λ t. After n (see t)) (λ t. Done (see t)) (round b duration_s s)
  unfolding round
  round-keeps n duration_s s h =
      bind-OnFlow _ _ _ _ (check_left b)
        (bind-OnFlow _ _ _ _ (advance b)
          (bind-OnFlow _ _ _ _ (check_steady b duration_s)
            (bind-OnFlow _ _ _ _ (λ t. check_cancelled b (read_result b t))
              (bind-OnFlow _ _ _ _ (check_time b)
                (bind-OnFlow _ _ _ (check_cancelled b s) (run_once b)
                  (check-keeps law (Before n) Done s h (Before-Done n)) (run-keeps n))
                (time-keeps n))
              (λ t k.
                check-keeps law (After n) Done (read_result b t) (read-keeps n t k) (After-Done n)))
            (steady-keeps n duration_s))
          (advance-keeps n))
        (left-keeps n)

  -- The loop ends.
  pub loop-ends :
      (duration_s fuel : ℕ) (s : QualityState W R)
      → InTime (see s)
      → suc last < visited s.previous_time_s + fuel
      → (t : QualityState W R) × (repeat (round b duration_s) fuel s ≡ some t) × Done (see t)
  loop-ends duration_s fuel s h enough =
      repeat-ends (λ t. InTime (see t)) (λ t. Done (see t)) (λ t. visited t.previous_time_s)
        (suc last) (round b duration_s) (λ t k. k.2)
        (λ t k. round-keeps (visited t.previous_time_s) duration_s t (refl, k)) fuel s h enough
