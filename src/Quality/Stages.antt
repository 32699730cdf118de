-- ===== src/Quality/Stages.antt =====
-- What the stages of the quality solver keep: quality stays open, and times go forward.
use aowis_server_epanet.Base.{
  ℕ, String, ◌≡◌, refl, sym, ap, ◌∙◌, subst, inl, inr, Bool, true, false, not, some, List, [], ◌∷◌,
  ◌++◌, map, Bool-cases, Option-cases, ℤ, pos, ltb_ℤ, eqb_ℤ,
}
use aowis_server_epanet.Model.Enums.{
  StatusStage, StatusOperation, StatusEntityType, DiagnosticSeverity,
}
use aowis_server_epanet.Model.Status.{Status, Externals, null_uuid}
use aowis_server_epanet.Project.{Project}
use aowis_server_epanet.StatusHelpers.{is_epanet_error_code}
use aowis_server_epanet.StatusHelpers.Codes.{process_epanet_return_code_lem}
use aowis_server_epanet.Loop.{Flow, proceed, leave, OnFlow}
use aowis_server_epanet.Hydraulics.Phases.{Phase}
use aowis_server_epanet.Quality.{
  QualityBackend, QualityState, QualityResult, collect_quality_failure, process, or_break,
  cancellation_requested, check_cancelled,
}

abbrev pub time : {R : Type 0} → QualityResult R → ℕ
time r = r.time_elapsed_s

-- What the adapter relies on: the documented protocol of the Toolkit's quality solver, told by the
-- phase of a native state, as for the hydraulic solver; EN_runQ never reports a time beyond the last
-- one of the simulation; and the reader of results leaves the elapsed time that it is given.
pub record QualityLaws {W R : Type 0} (b : QualityBackend W R) (phase : W → Phase) (last : ℕ)
    : Type 0 where
  pub open_accepted :
      (w : W)
      → phase w ≡ Phase.closed
      → is_epanet_error_code (b.open_q w).0 ≡ false
      → phase (b.open_q w).1 ≡ Phase.opened
  pub open_failed :
      (w : W)
      → phase w ≡ Phase.closed
      → is_epanet_error_code (b.open_q w).0 ≡ true
      → phase (b.open_q w).1 ≡ Phase.closed
  pub init_keeps : (w : W) → phase w ≡ Phase.opened → phase (b.init_q w).1 ≡ Phase.opened
  pub run_keeps : (t : ℤ) (w : W) → phase w ≡ Phase.opened → phase (b.run_q t w).2 ≡ Phase.opened
  pub next_keeps : (t : ℤ) (w : W) → phase w ≡ Phase.opened → phase (b.next_q t w).2 ≡ Phase.opened
  pub step_keeps : (t : ℤ) (w : W) → phase w ≡ Phase.opened → phase (b.step_q t w).2 ≡ Phase.opened
  pub close_closes : (w : W) → phase w ≡ Phase.opened → phase (b.close_q w).1 ≡ Phase.closed
  pub poll_keeps :
      (poll : W → Bool × W) (w : W) → b.cancellation ≡ some poll → phase (poll w).1 ≡ phase w
  pub read_keeps :
      (r : QualityResult R) (p : Project W) → phase (b.read r p).2.native ≡ phase p.native
  pub run_bounded :
      (t : ℤ) (w : W) → ltb_ℤ (pos last) t ≡ false → ltb_ℤ (pos last) (b.run_q t w).1 ≡ false
  pub read_time : (r : QualityResult R) (p : Project W) → time (b.read r p).1 ≡ time r

pub map-time-snoc :
    {R : Type 0} (rs : List (QualityResult R)) (r : QualityResult R)
    → map time (rs ++ r ∷ []) ≡ map time rs ++ time r ∷ []
map-time-snoc [] r = refl
map-time-snoc (x ∷ rs) r = ap (◌∷◌ (time x)) (map-time-snoc rs r)

-- The phase, the times of the loop and the times of the results.
abbrev pub Seen : Type 0
Seen = Phase × ℤ × ℤ × List ℕ

module _ {W R : Type 0} ⦃ext : Externals⦄ {b : QualityBackend W R} {phase : W → Phase} {last : ℕ}
    (law : QualityLaws b phase last) where
  abbrev pub seen : QualityState W R → Seen
  seen s =
      (phase s.project.native, s.current_time_s, s.previous_time_s, map time s.timeline.results)

  abbrev pub SameSeen : QualityState W R → QualityState W R → Type 0
  SameSeen s t = seen t ≡ seen s

  pub collect-seen :
      (s : QualityState W R) (status : Status) (severity : DiagnosticSeverity) (at : ℤ)
      → SameSeen s (collect_quality_failure s status severity at)
  unfolding collect_quality_failure
  collect-seen s status severity at = elim (Bool-cases status.success) [
    | inl e ↦ rw e refl
    | inr e ↦ rw e refl
  ]

  pub process-seen :
      (s : QualityState W R) (error : ℤ) (stage : StatusStage) (operation : StatusOperation)
      (call message : String)
      → SameSeen s (process s error stage operation call message).1
  process-seen s error stage operation call message =
      ap (λ w. (phase w, s.current_time_s, s.previous_time_s, map time s.timeline.results))
        (process_epanet_return_code_lem s.project error stage operation call
          StatusEntityType.quality_solver "" null_uuid message).2

  pub report-seen :
      (s : QualityState W R) (error : ℤ) (stage : StatusStage) (operation : StatusOperation)
      (call message : String) (severity : DiagnosticSeverity) (at : ℤ)
      → let r = process s error stage operation call message in
        SameSeen s (collect_quality_failure r.1 r.0 severity at)
  report-seen s error stage operation call message severity at =
      let r = process s error stage operation call message in
      collect-seen r.1 r.0 severity at ∙ process-seen s error stage operation call message

  pub requested-seen : (s : QualityState W R) → SameSeen s (cancellation_requested b s).1
  unfolding cancellation_requested
  requested-seen s = elim (Option-cases b.cancellation) [
    | inl e ↦ rw (e, cancellation_requested) refl
    | inr (poll, e) ↦
        rw (e, cancellation_requested)
          (ap (λ p. (p, s.current_time_s, s.previous_time_s, map time s.timeline.results))
            (law.poll_keeps poll s.project.native e))
  ]

  -- A stage that changes nothing seen keeps a property of what is seen.
  pub seen-OnFlow :
      (P Q : Seen → Type 0) (s : QualityState W R) (m : Flow (QualityState W R))
      → OnFlow (SameSeen s) (SameSeen s) m
      → P (seen s)
      → ((v : Seen) → P v → Q v)
      → OnFlow (λ t. P (seen t)) (λ t. Q (seen t)) m
  seen-OnFlow P Q s (proceed t) e h weaken = subst P (sym e) h
  seen-OnFlow P Q s (leave t) e h weaken = weaken (seen t) (subst P (sym e) h)

  pub check-keeps :
      (P Q : Seen → Type 0) (s : QualityState W R)
      → P (seen s)
      → ((v : Seen) → P v → Q v)
      → OnFlow (λ t. P (seen t)) (λ t. Q (seen t)) (check_cancelled b s)
  unfolding check_cancelled
  check-keeps P Q s h weaken = elim (Bool-cases (cancellation_requested b s).0) [
    | inl e ↦ rw e (weaken _ (subst P (sym (requested-seen s)) h))
    | inr e ↦ rw e (subst P (sym (requested-seen s)) h)
  ]

  pub or_break-seen :
      (s : QualityState W R) (error : ℤ) (operation : StatusOperation) (call message : String)
      → OnFlow (SameSeen s) (SameSeen s) (or_break s error operation call message)
  or_break-seen s error operation call message =
      let r = process s error StatusStage.run_quality operation call message in
      elim (Bool-cases (eqb_ℤ error (pos 0))) [
        | inl e ↦ rw e refl
        | inr e ↦ rw e (elim (Bool-cases (not r.0.success)) [
          | inl f ↦ rw f (
              report-seen s error StatusStage.run_quality operation call message
                DiagnosticSeverity.fatal r.1.current_time_s)
          | inr f ↦ rw f (process-seen s error StatusStage.run_quality operation call message)
        ])
      ]
