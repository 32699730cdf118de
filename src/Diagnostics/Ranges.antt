-- ===== src/Diagnostics/Ranges.antt =====
-- `appendEpanetDiagnostics` over a range of its source, and `EpanetDiagnosticCheckpoint`.
use aowis_server_epanet.Base.{
  ℕ, zero, suc, ◌+◌, ◌≤◌, ◌≡◌, refl, sym, ap, ◌∙◌, inl, inr, true, ◌||◌, none, some, List, [], ◌∷◌,
  ◌++◌, append_assoc, append-nil, arith, Bool-cases, Option-cases, length, take, drop,
  length-append, All, get_elem?,
}
use aowis_server_epanet.Model.Status.{Diagnostic}
use aowis_server_epanet.Diagnostics.{
  append_epanet_diagnostic_if_unique, append_range, append_epanet_diagnostics, checkpoint,
  append_since,
}
use aowis_server_epanet.Diagnostics.Unique.{
  Distinct, has, append_if_unique-Distinct, has-append_if_unique, equivalent_refl,
}

-- A whole list appended, entry by entry.
append_all : List Diagnostic → List Diagnostic → List Diagnostic
append_all target [] = target
append_all target (d ∷ ds) = append_all (append_epanet_diagnostic_if_unique target d) ds

drop_step :
    (index : ℕ) (source : List Diagnostic) (n : ℕ)
    → take (suc n) (drop index source) ≡ (elim (get_elem? source index) [
      | none ↦ []
      | some d ↦ d ∷ take n (drop (index + 1) source)
    ])
drop_step zero [] n = refl
drop_step zero (x ∷ xs) n = ground arith
drop_step (suc i) [] n = refl
drop_step (suc i) (x ∷ xs) n = ground (arith, drop_step i xs n)

drop-nil_next :
    (n i : ℕ) (source : List Diagnostic)
    → get_elem? source i ≡ none
    → take n (drop (i + 1) source) ≡ []
drop-nil_next zero i source h = refl
drop-nil_next (suc n) zero [] h = refl
drop-nil_next (suc n) (suc i) [] h = ground arith
drop-nil_next (suc n) zero (x ∷ xs) h = cc
drop-nil_next (suc n) (suc i) (x ∷ xs) h = ground (arith, drop-nil_next (suc n) i xs h)

-- The loop by indices is the loop over the slice.
append_range-slice :
    (rounds index : ℕ) (target source : List Diagnostic)
    → append_range rounds index target source ≡ append_all target (take rounds (drop index source))
unfolding append_range append_all
append_range-slice zero index target source = refl
append_range-slice (suc rounds) index target source = elim (Option-cases (get_elem? source index)) [
  | inl e ↦ ground (
    arith,
    e,
    drop_step index source rounds,
    drop-nil_next rounds index source e,
    append_range-slice rounds (index + 1) target source,
  )
  | inr (d, e) ↦ ground (
    arith,
    e,
    drop_step index source rounds,
    append_range-slice rounds (index + 1) (append_epanet_diagnostic_if_unique target d) source,
  )
]

take-whole : (n : ℕ) (source : List Diagnostic) → length source ≤ n → take n source ≡ source
take-whole zero [] h = refl
take-whole (suc n) [] h = refl
take-whole zero (x ∷ xs) h = absurd (omega arith)
take-whole (suc n) (x ∷ xs) h = ap (◌∷◌ x) (take-whole n xs (omega arith))

drop-append : (old new : List Diagnostic) → drop (length old) (old ++ new) ≡ new
drop-append [] new = refl
drop-append (d ∷ old) new = drop-append old new

append-eq-all :
    (target source : List Diagnostic)
    → append_epanet_diagnostics target source ≡ append_all target source
unfolding append_epanet_diagnostics
append-eq-all target source = ground (
  arith,
  append_range-slice (length source) 0 target source,
  take-whole (length source) source (omega arith),
)

-- With a checkpoint of a list that has grown since, what is appended is the entries behind the
-- ones that it counted.
pub append_since-append :
    (target old new : List Diagnostic)
    → append_since (checkpoint old) target (old ++ new) ≡ append_epanet_diagnostics target new
unfolding append_since checkpoint
append_since-append target old new = rw (append-eq-all target new) (
    ground (
      arith,
      length-append old new,
      append_range-slice (length new) (length old) target (old ++ new),
      drop-append old new,
      take-whole (length new) new (omega arith),
    ))

append_all-lem :
    (target source : List Diagnostic) → Distinct target → Distinct (append_all target source)
unfolding append_all
append_all-lem target [] u = u
append_all-lem target (d ∷ ds) u =
    append_all-lem (append_epanet_diagnostic_if_unique target d) ds
      (append_if_unique-Distinct target d u)

has-append_all :
    (target source : List Diagnostic) (e : Diagnostic)
    → has (append_all target source) e ≡ (has target e || has source e)
unfolding append_all
has-append_all target [] e = ground arith
has-append_all target (d ∷ ds) e = ground (
  arith,
  has-append_all (append_epanet_diagnostic_if_unique target d) ds e,
  has-append_if_unique target d e,
)

-- The target stays as the front of the list.
extends :
    (target source : List Diagnostic)
    → (added : List Diagnostic) × (append_all target source ≡ target ++ added)
unfolding append_all append_epanet_diagnostic_if_unique
extends target [] = ([], sym (append-nil target))
extends target (d ∷ ds) = elim (Bool-cases (has target d)) [
  | inl e ↦ rw e (extends target ds)
  | inr e ↦ rw e (
      let (added, q) = extends (target ++ d ∷ []) ds in
      (d ∷ added, q ∙ append_assoc target (d ∷ []) added))
]

append_all_idle :
    (target source : List Diagnostic)
    → All (λ d. has target d ≡ true) source
    → append_all target source ≡ target
unfolding append_all append_epanet_diagnostic_if_unique
append_all_idle target [] h = refl
append_all_idle target (d ∷ ds) h = rw (h.0) (append_all_idle target ds h.1)

All-has :
    (whole source : List Diagnostic)
    → ((d : Diagnostic) → has source d ≡ true → has whole d ≡ true)
    → All (λ d. has whole d ≡ true) source
All-has whole [] h = tt
All-has whole (d ∷ ds) h =
    (h d (ground (arith, equivalent_refl d)), All-has whole ds (λ e he. h e (ground arith)))

module _ (target source : List Diagnostic) where
  -- Appending diagnostics to a list without equivalent entries gives a list without them.
  pub append_epanet_diagnostics-Distinct :
      Distinct target → Distinct (append_epanet_diagnostics target source)
  append_epanet_diagnostics-Distinct u =
      rw (append-eq-all target source) (append_all-lem target source u)

  -- The result has an equivalent of a diagnostic exactly when one of the two lists has.
  pub has-append_epanet_diagnostics :
      (e : Diagnostic)
      → has (append_epanet_diagnostics target source) e ≡ (has target e || has source e)
  has-append_epanet_diagnostics e =
      rw (append-eq-all target source) (has-append_all target source e)

  -- Appending the same diagnostics again adds nothing.
  pub append_epanet_diagnostics_twice :
      append_epanet_diagnostics (append_epanet_diagnostics target source) source
      ≡ append_epanet_diagnostics target source
  append_epanet_diagnostics_twice =
      append-eq-all _ source
      ∙ append_all_idle _ source
          (All-has _ source (λ d h. has-append_epanet_diagnostics d ∙ ground arith))
