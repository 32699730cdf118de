-- ===== src/Diagnostics/Unique.antt =====
-- Lists of diagnostics without equivalent entries.
use aowis_server_epanet.Base.{
  String, ◌≡◌, refl, ◌↔◌, Bool, true, false, ◌||◌, List, [], ◌∷◌, ◌++◌, arith, eq_iff, same_iff,
  any, any-append, ℤ, pos, negsuc, eqb_ℤ,
}
use aowis_server_epanet.Model.Enums.{
  StatusStage, StatusOperation, StatusEntityType, StatusStage-discrete, StatusOperation-discrete,
  StatusEntityType-discrete,
}
use aowis_server_epanet.Model.Status.{Uuid, Diagnostic}
use aowis_server_epanet.Diagnostics.{
  texts_eq, epanet_diagnostics_equivalent, append_epanet_diagnostic_if_unique,
}

-- What `epanetDiagnosticsEquivalent` compares: severity, property, the entity's id and the
-- backend's name are left out.
pub record Key : Type 0 where
  pub stage : StatusStage
  pub operation : StatusOperation
  pub uuid : Uuid
  pub entity_type : StatusEntityType
  pub backend_error_code : ℤ
  pub backend_operation : String
  pub message : String
  pub details : List String
  pub message_backend : String

abbrev pub key : Diagnostic → Key
key d = record {
  stage = d.stage;
  operation = d.operation;
  uuid = d.entity.uuid;
  entity_type = d.entity.type;
  backend_error_code = d.backend_error_code;
  backend_operation = d.backend_operation;
  message = d.message;
  details = d.details;
  message_backend = d.message_backend;
}

texts_eq_iff : (ss ts : List String) → (texts_eq ss ts ≡ true) ↔ (ss ≡ ts)
unfolding texts_eq
texts_eq_iff [] [] = ground arith
texts_eq_iff [] (t ∷ ts) = ground arith
texts_eq_iff (s ∷ ss) [] = ground arith
texts_eq_iff (s ∷ ss) (t ∷ ts) = ground (arith, eq_iff s t, texts_eq_iff ss ts)

eqb_ℤ_iff : (a b : ℤ) → (eqb_ℤ a b ≡ true) ↔ (a ≡ b)
eqb_ℤ_iff (pos a) (pos b) = ground arith
eqb_ℤ_iff (pos a) (negsuc b) = ground arith
eqb_ℤ_iff (negsuc a) (pos b) = ground arith
eqb_ℤ_iff (negsuc a) (negsuc b) = ground arith

-- Two diagnostics are equivalent exactly when they have one key.
pub equivalent_iff :
    (a b : Diagnostic) → (epanet_diagnostics_equivalent a b ≡ true) ↔ (key a ≡ key b)
unfolding epanet_diagnostics_equivalent
equivalent_iff a b = ground (
  arith,
  same_iff StatusStage-discrete a.stage b.stage,
  same_iff StatusOperation-discrete a.operation b.operation,
  same_iff StatusEntityType-discrete a.entity.type b.entity.type,
  eqb_ℤ_iff a.backend_error_code b.backend_error_code,
  eq_iff a.backend_operation b.backend_operation,
  eq_iff a.message b.message,
  eq_iff a.message_backend b.message_backend,
  texts_eq_iff a.details b.details,
)

-- Some entry is equivalent to `d`.
abbrev pub has : List Diagnostic → Diagnostic → Bool
has ds d = any (λ existing. epanet_diagnostics_equivalent existing d) ds

-- No two entries are equivalent.
abbrev pub Distinct : List Diagnostic → Type 0
Distinct [] = Unit {0}
Distinct (d ∷ ds) = (any (epanet_diagnostics_equivalent d) ds ≡ false) × Distinct ds

pub equivalent_refl : (d : Diagnostic) → epanet_diagnostics_equivalent d d ≡ true
equivalent_refl d = (equivalent_iff d d).1 refl

pub has-append :
    (xs ys : List Diagnostic) (d : Diagnostic) → has (xs ++ ys) d ≡ (has xs d || has ys d)
has-append xs ys d = any-append (λ e. epanet_diagnostics_equivalent e d) xs ys

-- Equivalent diagnostics are had together.
has_of_equivalent : (ds : List Diagnostic) (a b : Diagnostic) → key a ≡ key b → has ds a ≡ has ds b
has_of_equivalent [] a b h = refl
has_of_equivalent (d ∷ ds) a b h =
    ground (arith, has_of_equivalent ds a b h, equivalent_iff d a, equivalent_iff d b)

Distinct-snoc :
    (ds : List Diagnostic) (d : Diagnostic)
    → Distinct ds
    → has ds d ≡ false
    → Distinct (ds ++ d ∷ [])
Distinct-snoc [] d u h = (refl, tt)
Distinct-snoc (x ∷ xs) d u h =
    ground (arith, Distinct-snoc xs d u.1, any-append (epanet_diagnostics_equivalent x) xs (d ∷ []))

module _ (ds : List Diagnostic) (d : Diagnostic) where
  -- Appending one diagnostic to a list without equivalent entries gives a list without them.
  pub append_if_unique-Distinct : Distinct ds → Distinct (append_epanet_diagnostic_if_unique ds d)
  unfolding append_epanet_diagnostic_if_unique
  append_if_unique-Distinct u = ground (arith, Distinct-snoc ds d u)

  -- Afterwards the list has an equivalent of a diagnostic exactly when it had one before or the
  -- appended diagnostic is one.
  pub has-append_if_unique :
      (e : Diagnostic)
      → has (append_epanet_diagnostic_if_unique ds d) e
        ≡ (has ds e || epanet_diagnostics_equivalent d e)
  unfolding append_epanet_diagnostic_if_unique
  has-append_if_unique e =
      ground (arith, has-append ds (d ∷ []) e, has_of_equivalent ds d e, equivalent_iff d e)
