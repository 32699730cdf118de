-- ===== src/Runner/Prefix.antt =====
-- The header that a quality run's report shares with the report of hydraulics.
use aowis_server_epanet.Base.{
  ℕ, zero, suc, ◌≤◌, String, ◌≡◌, refl, sym, ap, ◌∙◌, ◌↔◌, not, List, [], ◌∷◌, ◌++◌, append-nil,
  arith, eq_iff, str_eq, if◌then◌else◌, length, take, drop,
}
use aowis_server_epanet.Model.Run.{EpanetQualityResult}
use aowis_server_epanet.Loop.{if_both}
use aowis_server_epanet.Runner.Text.{
  shared_report_prefix_size, quality_run_status_text, quality_section_body,
}

cons-injective : (a b : String) (xs ys : List String) → a ∷ xs ≡ b ∷ ys → (a ≡ b) × (xs ≡ ys)
cons-injective a b xs ys e = grind (arith, e)

-- The shared size is that of the longest common prefix: two reports agree on their first `k` lines,
-- where both have as many, exactly when `k` does not exceed it.
pub shared_report_prefix_size_iff :
    (k : ℕ) (first second : List String)
    → k ≤ length first
    → k ≤ length second
    → (take k first ≡ take k second) ↔ (k ≤ shared_report_prefix_size first second)
unfolding shared_report_prefix_size
shared_report_prefix_size_iff zero first second h i = ((λ e. omega arith), (λ e. refl))
shared_report_prefix_size_iff (suc k) [] second h i = absurd (omega arith)
shared_report_prefix_size_iff (suc k) (a ∷ first) [] h i = absurd (omega arith)
shared_report_prefix_size_iff (suc k) (a ∷ first) (b ∷ second) h i =
    let rest = shared_report_prefix_size_iff k first second (omega arith) (omega arith) in
    let same_line = eq_iff a b in
    if_both (λ n. (a ∷ take k first ≡ b ∷ take k second) ↔ (suc k ≤ n)) (not (str_eq a b))
      (λ e. (
        (λ f. absurd (cc (e, same_line.1 (cons-injective a b _ _ f).0))),
        (λ f. absurd (omega arith)),
      ))
      (λ e. (
        (λ f. let g = rest.0 (cons-injective a b _ _ f).1 in omega arith),
        (λ f.
            let g = rest.1 (omega arith) in
            let same : a ≡ b = ground (arith, e, same_line) in cc (g, same)),
      ))

shared-take :
    (first second : List String)
    → take (shared_report_prefix_size first second) first
      ≡ take (shared_report_prefix_size first second) second
unfolding shared_report_prefix_size
shared-take [] second = refl
shared-take (a ∷ first) [] = refl
shared-take (a ∷ first) (b ∷ second) =
    let same_line = eq_iff a b in
    let rest = shared-take first second in
    if_both (λ n. take n (a ∷ first) ≡ take n (b ∷ second)) (not (str_eq a b)) (λ e. refl)
      (λ e. let same : a ≡ b = ground (arith, e, same_line) in cc (rest, same))

take-drop : (n : ℕ) (xs : List String) → take n xs ++ drop n xs ≡ xs
take-drop zero xs = refl
take-drop (suc n) [] = refl
take-drop (suc n) (x ∷ xs) = ap (◌∷◌ x) (take-drop n xs)

-- Leaving the shared header out loses nothing: the section of a quality run is the part `own` of its
-- report and, where there is one, its status text, and the shared lines of the hydraulic report with
-- `own` after them are the whole report of the quality run.
pub quality_section_body-restored :
    {D R : Type 0} (hydraulic_lines : List String) (q : EpanetQualityResult D R)
    → (own : List String) × (notes : List String) × (quality_section_body hydraulic_lines q
        ≡ own ++ notes)
      × (notes
          ≡ (if str_eq (quality_run_status_text q) "" then [] else quality_run_status_text q ∷ []))
      × (take (shared_report_prefix_size hydraulic_lines q.report_lines) hydraulic_lines ++ own
          ≡ q.report_lines)
unfolding quality_section_body
quality_section_body-restored hydraulic_lines q =
    let n = shared_report_prefix_size hydraulic_lines q.report_lines in
    let own = drop n q.report_lines in
    let text = quality_run_status_text q in
    (
      own,
      (if str_eq text "" then [] else text ∷ []),
      if_both (λ notes. (if str_eq text "" then own else own ++ text ∷ []) ≡ own ++ notes)
          (str_eq text "") (λ e. rw e (sym (append-nil own))) (λ e. rw e refl),
      refl,
      ap (λ ls. ls ++ own) (shared-take hydraulic_lines q.report_lines)
          ∙ take-drop n q.report_lines,
    )
