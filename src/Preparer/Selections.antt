-- ===== src/Preparer/Selections.antt =====
-- What is left of a report selection: removeDisabledReportSelections in
-- src/lib/internal/epanet_network_preparer.cpp.
use aowis_server_epanet.Base.{
  ◌≡◌, refl, sym, ap, ◌∙◌, ◌≢◌, ◌⊎◌, inl, inr, Bool, true, false, not, ◌&&◌, ◌||◌, List, [], ◌∷◌,
  arith, ◌==◌, if◌then◌else◌, ==_iff, same, same_iff, is_empty, any,
}
use aowis_server_epanet.Loop.{if_both}
use aowis_server_epanet.Model.Status.{Uuid}
use aowis_server_epanet.Model.Network.{
  ReportSelection, ReportSelectionMode, ReportSelectionMode-discrete,
}
use aowis_server_epanet.Validation.Support.{contains_uuid}
use aowis_server_epanet.Preparer.{retained_uuids, remove_disabled_report_selections}

-- A head that matches is kept where the test holds, and dropped where it does not.
kept_head : (m r s k : Bool) → (m ≡ true → k ≡ true) → r ≡ (s && k) → (m || r) ≡ ((m || s) && k)
kept_head true r s k h e = sym (h refl)
kept_head false r s k h e = e

dropped_head : (m r s k : Bool) → (m ≡ true → k ≡ false) → r ≡ (s && k) → r ≡ ((m || s) && k)
dropped_head true r true k h e = e
dropped_head true r false k h e = e ∙ sym (h refl)
dropped_head false r s k h e = e

module _ (everything enabled : List Uuid) where
  -- Not there, or there and enabled.
  abbrev pub reportable : Uuid → Bool
  reportable u = not (contains_uuid everything u) || contains_uuid enabled u

  retained_uuids-contains :
      (us : List Uuid) (u : Uuid)
      → contains_uuid (retained_uuids everything enabled us) u
        ≡ (contains_uuid us u && reportable u)
  unfolding retained_uuids
  retained_uuids-contains [] u = refl
  retained_uuids-contains (v ∷ vs) u =
      if_both (λ (ws : List Uuid). contains_uuid ws u ≡ (contains_uuid (v ∷ vs) u && reportable u))
        (reportable v)
        (λ e.
          kept_head (v == u) (contains_uuid (retained_uuids everything enabled vs) u)
            (contains_uuid vs u) (reportable u) (λ m. ap reportable (sym ((==_iff v u).0 m)) ∙ e)
            (retained_uuids-contains vs u))
        (λ e.
          dropped_head (v == u) (contains_uuid (retained_uuids everything enabled vs) u)
            (contains_uuid vs u) (reportable u) (λ m. ap reportable (sym ((==_iff v u).0 m)) ∙ e)
            (retained_uuids-contains vs u))

  retained_uuids-empty :
      (us : List Uuid) → is_empty (retained_uuids everything enabled us) ≡ not (any reportable us)
  unfolding retained_uuids
  retained_uuids-empty [] = refl
  retained_uuids-empty (v ∷ vs) =
      if_both (λ (ws : List Uuid). is_empty ws ≡ not (any reportable (v ∷ vs))) (reportable v)
        (λ e. ap (λ b. not (b || any reportable vs)) (sym e))
        (λ e. retained_uuids-empty vs ∙ ap (λ b. not (b || any reportable vs)) (sym e))

-- Another mode: as it was. Selected UUIDs: the reportable ones, and no selection without one.
abbrev pub LeftOf : ReportSelection → List Uuid → List Uuid → ReportSelection → Type 0
LeftOf selection everything enabled left =
    ((selection.mode ≢ ReportSelectionMode.selected) × (left ≡ selection))
    ⊎ ((selection.mode ≡ ReportSelectionMode.selected)
        × ((u : Uuid)
            → contains_uuid left.uuids u
              ≡ (contains_uuid selection.uuids u && reportable everything enabled u))
        × (left.mode ≡ (
            if any (reportable everything enabled) selection.uuids
            then ReportSelectionMode.selected
            else ReportSelectionMode.none)))

if_empty :
    (c d : Bool) (m : ReportSelectionMode)
    → c ≡ not d
    → m ≡ ReportSelectionMode.selected
    → (if c then ReportSelectionMode.none else m)
      ≡ (if d then ReportSelectionMode.selected else ReportSelectionMode.none)
if_empty true true m e h = absurd (ground (arith, e))
if_empty true false m e h = refl
if_empty false true m e h = h
if_empty false false m e h = absurd (ground (arith, e))

-- A selection in another mode than Selected stays as it is. Of a selection in that mode exactly the
-- UUIDs that are unknown or enabled are kept, and its mode becomes None exactly when none of them is.
pub remove_disabled_report_selections_lem :
    (selection : ReportSelection) (everything enabled : List Uuid)
    → LeftOf selection everything enabled
        (remove_disabled_report_selections selection everything enabled)
unfolding remove_disabled_report_selections
remove_disabled_report_selections_lem selection everything enabled =
    let selected_iff =
      same_iff ReportSelectionMode-discrete selection.mode ReportSelectionMode.selected in
    if_both (LeftOf selection everything enabled)
      (not (same ReportSelectionMode-discrete selection.mode ReportSelectionMode.selected))
      (λ e. inl ((λ h. absurd (ground (arith, e, selected_iff.1 h))), refl))
      (λ e.
        let chosen = selected_iff.0 (ground (arith, e)) in
        inr (
          chosen,
          retained_uuids-contains everything enabled selection.uuids,
          if_empty (is_empty (retained_uuids everything enabled selection.uuids))
              (any (reportable everything enabled) selection.uuids) selection.mode
              (retained_uuids-empty everything enabled selection.uuids) chosen,
        ))
