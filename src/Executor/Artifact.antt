-- ===== src/Executor/Artifact.antt =====
-- The hydraulic file that the executor keeps, and what it forgets when saving fails.
use aowis_server_epanet.Base.{
  String, ◌≡◌, refl, sym, ◌≢◌, ◌⊎◌, inl, inr, Bool, true, not, ◌&&◌, Option, none, some, arith,
  eq_iff, str_eq, Option-cases, subst, ℤ, pos, negsuc, eqb_ℤ, ◌↔◌,
}
use aowis_server_epanet.Model.Status.{Status, Externals}
use aowis_server_epanet.Loop.{if_both}
use aowis_server_epanet.Executor.{ExecutorBackend}
use aowis_server_epanet.StatusHelpers.Codes.{make_epanet_success-success}
use aowis_server_epanet.Executor.Save.{
  Saved, with_native, has_hydraulic_file, reset_directory, clear, save_inp_text, save_in_directory,
  save_file, save_hydraulics,
}

-- Nothing is kept.
abbrev pub Cleared : {W : Type 0} → Saved W → Type 0
Cleared s = (s.directory ≡ none) × (s.hydraulic_file_path ≡ "") × (s.hydraulic_inp_text ≡ "")

zero_iff : (code : ℤ) → (eqb_ℤ code (pos 0) ≡ true) ↔ (code ≡ pos 0)
zero_iff (pos n) = ground arith
zero_iff (negsuc n) = ground arith

module _ {W D R : Type 0} ⦃ext : Externals⦄ (b : ExecutorBackend W D R) where
  -- `hydraulics.hyd` in a directory, which the Toolkit wrote, with the input text that was retrieved.
  abbrev pub kept_in : Saved W → W → String → Saved W
  kept_in s held path =
      let file = b.path_inside path "hydraulics.hyd" in
      let (failed, written) = b.save_hyd_file file held in
      let (status, text, project) = b.retrieve_inp_text (record s.project { native = written }) in
      record {
        project = project;
        directory = some path;
        hydraulic_file_path = file;
        hydraulic_inp_text = text;
      }

  -- The Toolkit wrote it without a code, it is a file afterwards, and the input text was retrieved and
  -- is not blank.
  abbrev pub Usable : Saved W → W → String → Type 0
  Usable s held path =
      let file = b.path_inside path "hydraulics.hyd" in
      let (failed, written) = b.save_hyd_file file held in
      let (status, text, project) = b.retrieve_inp_text (record s.project { native = written }) in
      (failed ≡ pos 0)
      × (file ≢ "")
      × (b.is_file file written ≡ true)
      × (status.success ≡ true)
      × (ext.trimmed text ≢ "")

  -- Saving from `s` was asked for and can be done: the Toolkit saved the hydraulic results, there is a
  -- new directory, and the file in it is usable.
  abbrev pub Savable : Bool → Saved W → String → Type 0
  Savable persist_hydraulic_file s path =
      let (error, w) = b.save_h s.project.native in
      let (made, held) = b.make_directory w in
      (persist_hydraulic_file ≡ true) × (error ≡ pos 0) × (made ≡ some path) × Usable s held path

  clear-Cleared : (s : Saved W) → Cleared (clear b s)
  unfolding clear reset_directory
  clear-Cleared s = elim (Option-cases s.directory) [
    | inl e ↦ rw e (refl, refl, refl)
    | inr (path, e) ↦ rw e (refl, refl, refl)
  ]

  reset_cleared : (s : Saved W) → s.directory ≡ none → reset_directory b s ≡ s
  unfolding reset_directory
  reset_cleared s e =
      subst
        (λ d.
          elim d as (λ _. Saved W) [
            | none ↦ s
            | some path ↦ record (with_native b s (b.remove_directory path s.project.native)) {
              directory = none;
            }
          ]
          ≡ s)
        (sym e) refl

  module _ (s : Saved W) (held : W) (path : String) where
    abbrev file : String
    file = b.path_inside path "hydraulics.hyd"

    abbrev written : Saved W
    written = record {
      project = record s.project { native = (b.save_hyd_file file held).1 };
      directory = some path;
      hydraulic_file_path = file;
      hydraulic_inp_text = s.hydraulic_inp_text;
    }

    abbrev InDirectory : Status × Saved W → Type 0
    InDirectory r =
        (Cleared r.1 × ¬ Usable s held path)
        ⊎ ((r.0.success ≡ true) × Usable s held path × (r.1 ≡ kept_in s held path))

    save_inp_text-InDirectory :
        (b.save_hyd_file file held).0 ≡ pos 0 → InDirectory (save_inp_text b written)
    unfolding save_inp_text has_hydraulic_file
    save_inp_text-InDirectory failed =
        let (status, text, project) = b.retrieve_inp_text written.project in
        let t = record written { project = project; hydraulic_inp_text = text } in
        let there = not (str_eq file "") && b.is_file file written.project.native in
        if_both InDirectory (not there)
          (λ e. inl (clear-Cleared written, λ u. ground (arith, u, e, eq_iff file "")))
          (λ e.
            if_both InDirectory (not status.success)
              (λ f. inl (clear-Cleared t, λ u. ground (arith, u, f)))
              (λ f.
                if_both InDirectory (str_eq (ext.trimmed text) "")
                  (λ g. inl (clear-Cleared t, λ u. u.4 ((eq_iff (ext.trimmed text) "").0 g)))
                  (λ g. inr (
                    make_epanet_success-success,
                    (
                      failed,
                      ground (arith, e, eq_iff file ""),
                      ground (arith, e),
                      ground (arith, f),
                      λ h. cc (g, (eq_iff (ext.trimmed text) "").1 h),
                    ),
                    refl,
                  ))))

  abbrev pub Outcome : Bool → Saved W → Status × Saved W → Type 0
  Outcome persist_hydraulic_file s r =
      (Cleared r.1 × ((path : String) → ¬ Savable persist_hydraulic_file s path))
      ⊎ ((path : String) × (r.0.success ≡ true)
          × Savable persist_hydraulic_file s path
          × (r.1 ≡ kept_in s (b.make_directory (b.save_h s.project.native).1).1 path))

  save_file-Outcome :
      (s : Saved W)
      → Cleared s
      → (b.save_h s.project.native).0 ≡ pos 0
      → Outcome true s (save_file b (with_native b s (b.save_h s.project.native).1))
  unfolding save_file save_in_directory
  save_file-Outcome s cleared saved =
      subst (λ t. Outcome true s (save_in_directory b made t)) (sym same) (go made refl)
    where
      w : W
      w = (b.save_h s.project.native).1

      made : Option String
      made = (b.make_directory w).0

      held : W
      held = (b.make_directory w).1

      start : Saved W
      start = with_native b s held

      same : reset_directory b start ≡ start
      same = reset_cleared start cleared.0

      go : (m : Option String) → made ≡ m → Outcome true s (save_in_directory b m start)
      go none e = inl (cleared, λ path h. cc (e, h.2))
      go (some path) e =
          if_both (Outcome true s)
            (eqb_ℤ (b.save_hyd_file (b.path_inside path "hydraulics.hyd") held).0 (pos 0))
            (λ f. elim (save_inp_text-InDirectory s held path ((zero_iff _).0 f)) [
              | inl h ↦ inl (h.0, λ p k. h.1 (subst (Usable s held) (cc (e, k.2)) k.3))
              | inr h ↦ inr (path, h.0, (refl, saved, e, h.1), h.2)
            ])
            (λ f. inl (
              clear-Cleared _,
              λ p k. cc (
                f,
                (zero_iff _).1 (subst (Usable s held) {x = p} {y = path} (cc (e, k.2)) k.3).0,
              ),
            ))

  -- Saving from cleared members ends in one of two ways. Either the members are cleared, and there is
  -- no directory with which saving was asked for and could be done; or saving succeeds, was asked for
  -- and done, and the members are the new directory, the file in it, which the Toolkit wrote and which
  -- was a file after the writing, and the input text that was retrieved, which is not blank.
  pub save_hydraulics-Kept :
      (persist_hydraulic_file : Bool) (s : Saved W)
      → Cleared s
      → Outcome persist_hydraulic_file s (save_hydraulics b persist_hydraulic_file s)
  unfolding save_hydraulics
  save_hydraulics-Kept persist_hydraulic_file s cleared =
      let error = (b.save_h s.project.native).0 in
      if_both (Outcome persist_hydraulic_file s) (not (eqb_ℤ error (pos 0)))
        (λ e. inl (cleared, λ p h. ground (arith, e, (zero_iff error).1 h.1)))
        (λ e.
          if_both (Outcome persist_hydraulic_file s) (not persist_hydraulic_file)
            (λ f. inl (cleared, λ p h. ground (arith, f, h.0)))
            (λ f.
              subst (λ c. Outcome c s (save_file b (with_native b s (b.save_h s.project.native).1)))
                (ground (arith, f))
                (save_file-Outcome s cleared ((zero_iff error).0 (ground (arith, e))))))
