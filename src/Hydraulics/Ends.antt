-- ===== src/Hydraulics/Ends.antt =====
-- The loop of the solver ends, and its results come in the order of time.
use aowis_server_epanet.Base.{
  ℕ, suc, ◌+◌, ◌≤◌, ◌<◌, ◌≡◌, refl, sym, ap, ◌∙◌, subst, inl, inr, false, not, ◌&&◌, some, List, [],
  ◌∷◌, ◌++◌, map, arith, Bool-cases, Option-cases, All-append, ℤ, pos, pos_part, ltb_ℤ,
}
use aowis_server_epanet.Model.Enums.{DiagnosticSeverity}
use aowis_server_epanet.Model.Status.{Status, Externals}
use aowis_server_epanet.Model.Doubles.{Doubles}
use aowis_server_epanet.Model.Network.{Network}
use aowis_server_epanet.Model.Results.{HydraulicResult}
use aowis_server_epanet.Project.{Project}
use aowis_server_epanet.Loop.{Flow, proceed, leave, repeat, OnFlow, bind-OnFlow, repeat-ends}
use aowis_server_epanet.Hydraulics.{
  HydraulicBackend, HydraulicState, collect_hydraulic_failure, cancellation_requested,
  check_cancelled, call_run, handle_run_error, run_once, check_time, read_result, call_next,
  handle_next_error, advance, check_step, accumulate, store_event, stop_at_end, round,
}
use aowis_server_epanet.Hydraulics.Frame.{
  Same, collect-Same, handle_run_error-Same, handle_next_error-Same, accumulate-Same,
  store_event-Same, check_step-Same, time,
}
use aowis_server_epanet.Hydraulics.Rules.{RoundKeeps, round-OnFlow}
use aowis_server_epanet.Hydraulics.Times.{
  Rising, AllBelow, AllBelow-mono, Rising-snoc, map-time-snoc, visited, visited_forward,
  visited_bound,
}

-- What the adapter relies on: EN_runH never reports a time beyond the last one of the simulation,
-- and the reader of results leaves the elapsed time that it is given.
pub record Clock {W D : Type 0} (b : HydraulicBackend W D) (last : ℕ) : Type 0 where
  pub run_bounded :
      (t : ℤ) (w : W) → ltb_ℤ (pos last) t ≡ false → ltb_ℤ (pos last) (b.run_h t w).1 ≡ false
  pub read_time : (r : HydraulicResult D) (p : Project W) → time (b.read r p).1 ≡ time r

module _ {W D : Type 0} ⦃ops : Doubles D⦄ {b : HydraulicBackend W D} (network : Network D)
    ⦃ext : Externals⦄ {last : ℕ} (law : Clock b last) where
  -- All that the tests of the time are about.
  abbrev pub Seen : Type 0
  Seen = ℤ × ℤ × List ℕ

  abbrev pub seen : HydraulicState W D → Seen
  seen s = (s.current_time_s, s.previous_time_s, map time s.timeline.results)

  abbrev pub SameSeen : HydraulicState W D → HydraulicState W D → Type 0
  SameSeen s t = seen t ≡ seen s

  pub Same-seen : (s t : HydraulicState W D) → Same s t → SameSeen s t
  Same-seen s t h = ground arith

  -- The results so far are in order, and not later than the round before.
  abbrev pub InTime : Seen → Type 0
  InTime (current, previous, times) =
      (ltb_ℤ (pos last) current ≡ false)
      × (visited previous ≤ suc last)
      × Rising 0 times
      × AllBelow (visited previous) times

  -- The same behind the test of the time, before the result of this round is there.
  abbrev Tested : ℕ → Seen → Type 0
  Tested n (current, previous, times) =
      (n < visited previous)
      × (visited previous ≡ suc (pos_part current))
      × (ltb_ℤ (pos last) current ≡ false)
      × (visited previous ≤ suc last)
      × Rising 0 times
      × AllBelow n times

  abbrev Before : ℕ → Seen → Type 0
  Before n v = (visited v.1 ≡ n) × InTime v

  abbrev After : ℕ → Seen → Type 0
  After n v = (n < visited v.1) × InTime v

  -- Wherever the loop is left.
  abbrev pub Done : Seen → Type 0
  Done v = Rising 0 v.2 × AllBelow (suc last) v.2

  pub InTime-Done : (v : Seen) → InTime v → Done v
  InTime-Done v h = (h.2, AllBelow-mono (visited v.1) (suc last) v.2 h.1 h.3)

  Tested-Done : (n : ℕ) (v : Seen) → Tested n v → Done v
  Tested-Done n v h = (h.4, AllBelow-mono n (suc last) v.2 (omega (arith, h.0, h.3)) h.5)

  pub requested-seen : (s : HydraulicState W D) → SameSeen s (cancellation_requested b network s).1
  unfolding cancellation_requested
  requested-seen s = elim (Option-cases b.cancellation) [
    | inl e ↦ rw (e, cancellation_requested) refl
    | inr (poll, e) ↦ rw (e, cancellation_requested) refl
  ]

  check-seen :
      (s : HydraulicState W D) → OnFlow (SameSeen s) (SameSeen s) (check_cancelled b network s)
  unfolding check_cancelled
  check-seen s = elim (Bool-cases (cancellation_requested b network s).0) [
    | inl e ↦ rw e (requested-seen s)
    | inr e ↦ rw e (requested-seen s)
  ]

  -- A stage that changes nothing seen keeps a property of what is seen.
  seen-OnFlow :
      (P Q : Seen → Type 0) (s : HydraulicState W D) (m : Flow (HydraulicState W D))
      → OnFlow (SameSeen s) (SameSeen s) m
      → P (seen s)
      → ((v : Seen) → P v → Q v)
      → OnFlow (λ t. P (seen t)) (λ t. Q (seen t)) m
  seen-OnFlow P Q s (proceed t) e h weaken = subst P (sym e) h
  seen-OnFlow P Q s (leave t) e h weaken = weaken (seen t) (subst P (sym e) h)

  check-keeps :
      (P : Seen → Type 0) (s : HydraulicState W D)
      → P (seen s)
      → ((v : Seen) → P v → Done v)
      → OnFlow (λ t. P (seen t)) (λ t. Done (seen t)) (check_cancelled b network s)
  check-keeps P s h weaken =
      seen-OnFlow P Done s (check_cancelled b network s) (check-seen s) h weaken

  Same-OnFlow :
      (s : HydraulicState W D) (m : Flow (HydraulicState W D))
      → OnFlow (Same s) (Same s) m
      → OnFlow (SameSeen s) (SameSeen s) m
  Same-OnFlow s (proceed t) h = Same-seen s t h
  Same-OnFlow s (leave t) h = Same-seen s t h

  run-keeps :
      (n : ℕ) (s : HydraulicState W D)
      → Before n (seen s)
      → OnFlow (λ t. Before n (seen t)) (λ t. Done (seen t)) (run_once b network s)
  unfolding run_once call_run
  run-keeps n s h =
      let error = (b.run_h s.current_time_s s.project.native).0 in
      let called : HydraulicState W D = (call_run b network s).1 in
      bind-OnFlow _ _ _ (check_cancelled b network called) (handle_run_error b network error)
        (check-keeps (Before n) called
          (h.0, (law.run_bounded s.current_time_s s.project.native h.1.0, h.1.1, h.1.2, h.1.3))
          (λ v k. InTime-Done v k.1))
        (λ t k.
          seen-OnFlow (Before n) Done t (handle_run_error b network error t)
            (Same-OnFlow t _ (handle_run_error-Same b network error t)) k
            (λ v k. InTime-Done v k.1))

  pub failure-Done :
      (s : HydraulicState W D) (status : Status) (severity : DiagnosticSeverity) (at : ℤ)
      → Done (seen s)
      → Done (seen (collect_hydraulic_failure s status severity at))
  failure-Done s status severity at h =
      subst Done
        (sym (
          Same-seen s (collect_hydraulic_failure s status severity at)
            (collect-Same s status severity at)))
        h

  time-keeps :
      (n : ℕ) (s : HydraulicState W D)
      → Before n (seen s)
      → OnFlow (λ t. Tested n (seen t)) (λ t. Done (seen t)) (check_time b network s)
  unfolding check_time
  time-keeps n s h = elim (Bool-cases (ltb_ℤ s.current_time_s (pos 0))) [
    | inl e ↦ rw e (failure-Done s _ _ _ (InTime-Done (seen s) h.1))
    | inr e ↦
        rw e
          (elim (Bool-cases (
            not (ltb_ℤ s.previous_time_s (pos 0))
            && not (ltb_ℤ s.previous_time_s s.current_time_s))) [
              | inl f ↦ rw f (failure-Done s _ _ _ (InTime-Done (seen s) h.1))
              | inr f ↦ rw f (
                  let forward = visited_forward s.previous_time_s s.current_time_s e f in
                  let bound = visited_bound last s.current_time_s h.1.0 in
                  (
                    omega (arith, h.0, forward.0),
                    forward.1,
                    h.1.0,
                    bound,
                    h.1.2,
                    subst (λ m. AllBelow m (map time s.timeline.results)) h.0 h.1.3,
                  ))
            ])
  ]

  Tested-After : (n : ℕ) (v : Seen) → Tested n v → After n v
  Tested-After n v h =
      (h.0, (h.2, h.3, h.4, AllBelow-mono n (visited v.1) v.2 (omega (arith, h.0)) h.5))

  -- The result of the round is later than all before it.
  snoc-After : (n : ℕ) (v : Seen) → Tested n v → After n (v.0, v.1, v.2 ++ pos_part v.0 ∷ [])
  snoc-After n v h =
      let earlier = AllBelow-mono n (pos_part v.0) v.2 (omega (arith, h.0, h.1)) h.5 in
      (
        h.0,
        (
          h.2,
          h.3,
          Rising-snoc 0 (pos_part v.0) v.2 (omega arith) h.4 earlier,
          All-append (λ t. t < visited v.1) v.2 _
              (AllBelow-mono n (visited v.1) v.2 (omega (arith, h.0)) h.5) (omega (arith, h.1), tt),
        ),
      )

  read-keeps :
      (n : ℕ) (s : HydraulicState W D)
      → Tested n (seen s)
      → After n (seen (read_result b network s))
  unfolding read_result
  read-keeps n s h =
      let blank : HydraulicResult D = record b.default_result {
        time_elapsed_s = pos_part s.current_time_s;
      } in
      let got = b.read blank s.project in
      let s' : HydraulicState W D = record s { project = got.2 } in
      elim (Bool-cases (not s.result_available)) [
        | inl e ↦ rw e (Tested-After n (seen s) h)
        | inr e ↦ rw e (elim (Bool-cases (not got.0.success)) [
          | inl f ↦ rw f (
              Tested-After n
                (seen
                  (collect_hydraulic_failure s' got.0 DiagnosticSeverity.error s.current_time_s))
                (subst (Tested n)
                  (sym (
                    Same-seen s'
                      (collect_hydraulic_failure s' got.0 DiagnosticSeverity.error s.current_time_s)
                      (collect-Same s' got.0 DiagnosticSeverity.error s.current_time_s)))
                  h))
          | inr f ↦ rw f (
              subst (λ ts. After n (s.current_time_s, s.previous_time_s, ts))
                (sym (
                  map-time-snoc s.timeline.results _
                  ∙ ap (λ t. map time s.timeline.results ++ t ∷ [])
                      (law.read_time blank s.project)))
                (snoc-After n (seen s) h))
        ])
      ]

  advance-keeps :
      (n : ℕ) (s : HydraulicState W D)
      → After n (seen s)
      → OnFlow (λ t. After n (seen t)) (λ t. Done (seen t)) (advance b network s)
  unfolding advance call_next
  advance-keeps n s h =
      let error = (b.next_h s.next_step_s s.project.native).0 in
      let called : HydraulicState W D = (call_next b network s).1 in
      seen-OnFlow (After n) Done called (handle_next_error b network error called)
        (Same-OnFlow called _ (handle_next_error-Same b network error called)) h
        (λ v k. InTime-Done v k.1)

  step-keeps :
      (n : ℕ) (s : HydraulicState W D)
      → After n (seen s)
      → OnFlow (λ t. After n (seen t)) (λ t. Done (seen t)) (check_step b network s)
  step-keeps n s h =
      seen-OnFlow (After n) Done s (check_step b network s)
        (Same-OnFlow s _ (check_step-Same b network s)) h (λ v k. InTime-Done v k.1)

  sums-seen : (s : HydraulicState W D) → SameSeen s (accumulate b network (store_event b network s))
  sums-seen s =
      Same-seen (store_event b network s) (accumulate b network (store_event b network s))
        (accumulate-Same b network (store_event b network s)).0
      ∙ ground (arith, store_event-Same b network s)

  end-keeps :
      (n : ℕ) (s : HydraulicState W D)
      → After n (seen s)
      → OnFlow (λ t. After n (seen t)) (λ t. Done (seen t)) (stop_at_end b network s)
  unfolding stop_at_end
  end-keeps n s h = elim (Bool-cases (not (ltb_ℤ (pos 0) s.next_step_s))) [
    | inl e ↦ rw e (InTime-Done (seen s) h.1)
    | inr e ↦ rw e h
  ]

  Times-RoundKeeps :
      (n : ℕ)
      → RoundKeeps b network
          (λ s. Before n (seen s))
          (λ s. Before n (seen s))
          (λ s. Tested n (seen s))
          (λ s. After n (seen s))
          (λ s. After n (seen s))
          (λ s. Done (seen s))
  Times-RoundKeeps n = record {
    at_check = λ s h. check-keeps (Before n) s h (λ v k. InTime-Done v k.1);
    at_run = run-keeps n;
    at_time = time-keeps n;
    at_read = λ s h.
        check-keeps (After n) (read_result b network s) (read-keeps n s h)
          (λ v k. InTime-Done v k.1);
    at_advance = advance-keeps n;
    at_step = step-keeps n;
    at_sums = λ s h.
        check-keeps (After n) (accumulate b network (store_event b network s))
          (subst (After n) (sym (sums-seen s)) h) (λ v k. InTime-Done v k.1);
    at_end = end-keeps n;
  }

  pub loop-ends :
      (fuel : ℕ) (s : HydraulicState W D)
      → InTime (seen s)
      → suc last < visited s.previous_time_s + fuel
      → (t : HydraulicState W D) × (repeat (round b network) fuel s ≡ some t) × Done (seen t)
  loop-ends fuel s h enough =
      repeat-ends (λ t. InTime (seen t)) (λ t. Done (seen t)) (λ t. visited t.previous_time_s)
        (suc last) (round b network) (λ t k. k.1)
        (λ t k. round-OnFlow b network (Times-RoundKeeps (visited t.previous_time_s)) t (refl, k))
        fuel s h enough
