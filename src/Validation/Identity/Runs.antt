-- ===== src/Validation/Identity/Runs.antt =====
-- What the loops of `validateIdentities` do to the failures and to the sets of UUIDs and IDs.
use aowis_server_epanet.Base.{
  String, ◌≡◌, refl, sym, ap, ◌∙◌, subst, ◌↔◌, List, [], ◌∷◌, ◌++◌, map, arith, eq_iff, ◌==◌,
  str_eq, ==_iff,
}
use aowis_server_epanet.Model.Enums.{StatusEntityType}
use aowis_server_epanet.Model.Status.{Uuid, null_uuid, Status, Externals}
use aowis_server_epanet.Model.Network.{Named}
use aowis_server_epanet.Validation.Identity.{
  Collected, collect_identity_failures, collect_entities, new_namespace,
}
use aowis_server_epanet.Validation.Identity.Fresh
use mathlib.Core.List.{map-append}

abbrev pub uuids : List Named → List Uuid
uuids = map (λ e. e.uuid)

abbrev pub ids : List Named → List String
ids = map (λ e. e.id)

abbrev pub FreshUuids : List Uuid → List Uuid → Type 0
FreshUuids = Fresh.Fresh (λ a b. a == b) ==_iff null_uuid

abbrev pub FreshIds : List String → List String → Type 0
FreshIds = Fresh.Fresh (λ a b. str_eq a b) eq_iff ""

abbrev pub onto_uuids : List Uuid → List Uuid → List Uuid
onto_uuids = Fresh.onto (λ a b. a == b) ==_iff null_uuid

abbrev pub onto_ids : List String → List String → List String
onto_ids = Fresh.onto (λ a b. str_eq a b) eq_iff ""

-- What loops over `xs` do between two states: no failure exactly if there was none and the
-- identities are fresh, and then the sets have grown by them.
pub record Run (s : Collected) (xs : List Named) (t : Collected) : Type 0 where
  pub clean :
      (t.failures ≡ [])
      ↔ ((s.failures ≡ []) × FreshUuids s.all_uuids (uuids xs) × FreshIds s.ids (ids xs))
  pub uuids_grown : t.failures ≡ [] → t.all_uuids ≡ onto_uuids (uuids xs) s.all_uuids
  pub ids_grown : t.failures ≡ [] → t.ids ≡ onto_ids (ids xs) s.ids

snoc-ne-nil : (fs : List Status) (f : Status) → ¬ (fs ++ f ∷ [] ≡ [])
snoc-ne-nil [] f e = cc
snoc-ne-nil (g ∷ fs) f e = cc

module _ ⦃ext : Externals⦄ (ns : String) (type : StatusEntityType) (name : String) (e : Named)
    (s : Collected) where
  abbrev t : Collected
  t = collect_identity_failures ns type name e.id e.uuid s

  one-clean : (t.failures ≡ []) ↔ (
      (s.failures ≡ []) × FreshUuids s.all_uuids (uuids (e ∷ [])) × FreshIds s.ids (ids (e ∷ [])))
  unfolding collect_identity_failures
  one-clean = grind (arith, snoc-ne-nil, eq_iff e.id "")

  one-uuids : t.failures ≡ [] → t.all_uuids ≡ e.uuid ∷ s.all_uuids
  unfolding collect_identity_failures
  one-uuids h = grind (arith, snoc-ne-nil, eq_iff e.id "")

  one-ids : t.failures ≡ [] → t.ids ≡ e.id ∷ s.ids
  unfolding collect_identity_failures
  one-ids h = grind (arith, snoc-ne-nil, eq_iff e.id "")

  one-Run : Run s (e ∷ []) t
  one-Run = record { clean = one-clean; uuids_grown = one-uuids; ids_grown = one-ids }

module _ {s t u : Collected} (xs ys : List Named) (p : Run s xs t) (q : Run t ys u) where
  FreshUuids-append : FreshUuids s.all_uuids (uuids (xs ++ ys)) ↔ (
      FreshUuids s.all_uuids (uuids xs) × FreshUuids (onto_uuids (uuids xs) s.all_uuids) (uuids ys))
  FreshUuids-append =
      rw (map-append (λ (e : Named). e.uuid) xs ys)
        (Fresh.Fresh-append (λ a b. a == b) ==_iff null_uuid s.all_uuids (uuids xs) (uuids ys))

  FreshIds-append :
      FreshIds s.ids (ids (xs ++ ys))
      ↔ (FreshIds s.ids (ids xs) × FreshIds (onto_ids (ids xs) s.ids) (ids ys))
  FreshIds-append =
      rw (map-append (λ (e : Named). e.id) xs ys)
        (Fresh.Fresh-append (λ a b. str_eq a b) eq_iff "" s.ids (ids xs) (ids ys))

  clean-append : (u.failures ≡ []) ↔ (
      (s.failures ≡ [])
      × FreshUuids s.all_uuids (uuids (xs ++ ys))
      × FreshIds s.ids (ids (xs ++ ys)))
  clean-append = (
    λ h.
        let late = q.clean.0 h in
        let early = p.clean.0 late.0 in
        (
          early.0,
          FreshUuids-append.1
              (early.1, subst (λ set. FreshUuids set (uuids ys)) (p.uuids_grown late.0) late.1),
          FreshIds-append.1
              (early.2, subst (λ set. FreshIds set (ids ys)) (p.ids_grown late.0) late.2),
        ),
    λ h.
        let us = FreshUuids-append.0 h.1 in
        let is = FreshIds-append.0 h.2 in
        let early = p.clean.1 (h.0, us.0, is.0) in
        q.clean.1 (
          early,
          subst (λ set. FreshUuids set (uuids ys)) (sym (p.uuids_grown early)) us.1,
          subst (λ set. FreshIds set (ids ys)) (sym (p.ids_grown early)) is.1,
        ),
  )

  pub Run-append : Run s (xs ++ ys) u
  Run-append = record {
    clean = clean-append;
    uuids_grown = λ h.
        q.uuids_grown h
        ∙ ap (onto_uuids (uuids ys)) (p.uuids_grown (q.clean.0 h).0)
        ∙ sym (
            ap (λ l. onto_uuids l s.all_uuids) (map-append (λ (e : Named). e.uuid) xs ys)
            ∙ Fresh.onto-append (λ a b. a == b) ==_iff null_uuid (uuids xs) (uuids ys) s.all_uuids);
    ids_grown = λ h.
        q.ids_grown h
        ∙ ap (onto_ids (ids ys)) (p.ids_grown (q.clean.0 h).0)
        ∙ sym (
            ap (λ l. onto_ids l s.ids) (map-append (λ (e : Named). e.id) xs ys)
            ∙ Fresh.onto-append (λ a b. str_eq a b) eq_iff "" (ids xs) (ids ys) s.ids);
  }

module _ ⦃ext : Externals⦄ (ns : String) (type : StatusEntityType) (name : String) where
  pub entities-Run :
      (es : List Named) (s : Collected) → Run s es (collect_entities ns type name es s)
  unfolding collect_entities
  entities-Run [] s = record {
    clean = (λ h. (h, tt, tt), λ h. h.0);
    uuids_grown = λ h. refl;
    ids_grown = λ h. refl;
  }
  entities-Run (e ∷ es) s = Run-append (e ∷ []) es (one-Run ns type name e s) (entities-Run es _)

-- What the six namespaces do one after the other: `us` are the UUIDs met, and `P` says that the IDs
-- of each namespace are fresh.
pub record Chain (us : List Uuid) (P : Type 0) (t : Collected) : Type 0 where
  pub clean : (t.failures ≡ []) ↔ (FreshUuids [] us × P)
  pub grown : t.failures ≡ [] → t.all_uuids ≡ onto_uuids us []

pub Chain-Run :
    {us : List Uuid} {P : Type 0} {t u : Collected} (xs : List Named)
    → Chain us P t
    → Run (new_namespace t) xs u
    → Chain (us ++ uuids xs) (P × FreshIds [] (ids xs)) u
Chain-Run {us} {P} {t} {u} xs c r =
    let split = Fresh.Fresh-append (λ a b. a == b) ==_iff null_uuid [] us (uuids xs) in
    record {
      clean = (
        λ h.
            let late = r.clean.0 h in
            let early = c.clean.0 late.0 in
            (
              split.1 (early.0, subst (λ set. FreshUuids set (uuids xs)) (c.grown late.0) late.1),
              (early.1, late.2),
            ),
        λ h.
            let f = split.0 h.0 in
            let early = c.clean.1 (f.0, h.1.0) in
            r.clean.1
              (early, subst (λ set. FreshUuids set (uuids xs)) (sym (c.grown early)) f.1, h.1.1),
      );
      grown = λ h.
          r.uuids_grown h
          ∙ ap (onto_uuids (uuids xs)) (c.grown (r.clean.0 h).0)
          ∙ sym (Fresh.onto-append (λ a b. a == b) ==_iff null_uuid us (uuids xs) []);
    }
