-- ===== src/Validation/Identity/Fresh.antt =====
-- Values that are not empty, not yet seen and do not repeat.
use aowis_server_epanet.Base.{
  ◌≡◌, refl, ◌≢◌, ◌↔◌, Bool, true, false, List, [], ◌∷◌, ◌++◌, arith, All, any,
}

-- A key type with its empty value and its test of equality.
module _ {A : Type 0} (eqb : A → A → Bool) (eqb_lem : (a b : A) → (eqb a b ≡ true) ↔ (a ≡ b))
    (blank : A) where
  abbrev pub among : List A → A → Bool
  among set a = any (λ s. eqb s a) set

  -- The loop's view: each value is new to those seen, which it then joins.
  abbrev pub Fresh : List A → List A → Type 0
  Fresh seen [] = Unit {0}
  Fresh seen (x ∷ xs) = (x ≢ blank) × (among seen x ≡ false) × Fresh (x ∷ seen) xs

  -- What is seen after a run without failure.
  abbrev pub onto : List A → List A → List A
  onto [] seen = seen
  onto (x ∷ xs) seen = onto xs (x ∷ seen)

  pub onto-append : (xs ys seen : List A) → onto (xs ++ ys) seen ≡ onto ys (onto xs seen)
  onto-append [] ys seen = refl
  onto-append (x ∷ xs) ys seen = onto-append xs ys (x ∷ seen)

  pub Fresh-append :
      (seen xs ys : List A) → Fresh seen (xs ++ ys) ↔ (Fresh seen xs × Fresh (onto xs seen) ys)
  Fresh-append seen [] ys = (λ h. (tt, h), λ h. h.1)
  Fresh-append seen (x ∷ xs) ys =
      let rest = Fresh-append (x ∷ seen) xs ys in
      (λ h. ((h.0, h.1, (rest.0 h.2).0), (rest.0 h.2).1), λ h. (h.0.0, h.0.1, rest.1 (h.0.2, h.1)))

  -- No two values are equal.
  abbrev pub Distinct : List A → Type 0
  Distinct [] = Unit {0}
  Distinct (x ∷ xs) = All (λ y. x ≢ y) xs × Distinct xs

  unseen_iff :
      (x : A) (seen xs : List A)
      → All (λ y. among (x ∷ seen) y ≡ false) xs
        ↔ (All (λ y. x ≢ y) xs × All (λ y. among seen y ≡ false) xs)
  unseen_iff x seen [] = (λ h. (tt, tt), λ h. tt)
  unseen_iff x seen (y ∷ ys) =
      let rest = unseen_iff x seen ys in
      let one : (among (x ∷ seen) y ≡ false) ↔ ((x ≢ y) × (among seen y ≡ false)) =
        ground (arith, eqb_lem x y) in
      (
        λ h. (((one.0 h.0).0, (rest.0 h.1).0), ((one.0 h.0).1, (rest.0 h.1).1)),
        λ h. (one.1 (h.0.0, h.1.0), rest.1 (h.0.1, h.1.1)),
      )

  Fresh-iff :
      (seen xs : List A)
      → Fresh seen xs ↔ (All (λ x. x ≢ blank) xs × All (λ x. among seen x ≡ false) xs × Distinct xs)
  Fresh-iff seen [] = (λ h. (tt, tt, tt), λ h. tt)
  Fresh-iff seen (x ∷ xs) =
      let rest = Fresh-iff (x ∷ seen) xs in
      let split = unseen_iff x seen xs in
      (
        λ h. let r = rest.0 h.2 in let u = split.0 r.1 in ((h.0, r.0), (h.1, u.1), (u.0, r.2)),
        λ h. (h.0.0, h.1.0, rest.1 (h.0.1, split.1 (h.2.0, h.1.1), h.2.1)),
      )

  unseen_by_nobody : (xs : List A) → All (λ x. among [] x ≡ false) xs
  unseen_by_nobody [] = tt
  unseen_by_nobody (x ∷ xs) = (refl, unseen_by_nobody xs)

  -- From an empty set the loop's view is the plain one.
  pub Fresh-nil : (xs : List A) → Fresh [] xs ↔ (All (λ x. x ≢ blank) xs × Distinct xs)
  Fresh-nil xs =
      let e = Fresh-iff [] xs in
      (λ h. ((e.0 h).0, (e.0 h).2), λ h. e.1 (h.0, unseen_by_nobody xs, h.1))
