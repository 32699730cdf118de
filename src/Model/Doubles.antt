-- ===== src/Model/Doubles.antt =====
-- The operations on `double` that the adapter uses. The type is a parameter: rounding, infinities
-- and NaN are the machine's.
use aowis_server_epanet.Base.{ℕ, Bool, if◌then◌else◌}

pub record Doubles (D : Type 0) : Type 0 where
  -- An integer constant, and `static_cast<double>` of an integer.
  pub of_ℕ : ℕ → D
  pub add : D → D → D
  pub sub : D → D → D
  pub mul : D → D → D
  pub div : D → D → D
  -- std::abs, std::isfinite, `<` and `==`
  pub abs : D → D
  pub is_finite : D → Bool
  pub lt : D → D → Bool
  pub eq : D → D → Bool
  -- 1.0e-6 * aowis::units::epanet_cubic_metres_per_hour_per_cfs
  pub minimum_energy_flow : D

module _ {D : Type 0} ⦃ops : Doubles D⦄ where
  infixl 65 ◌⊕◌ ◌⊖◌
  infixl 70 ◌⊗◌ ◌⊘◌
  abbrev pub ◌⊕◌ : D → D → D
  a ⊕ b = ops.add a b

  abbrev pub ◌⊖◌ : D → D → D
  a ⊖ b = ops.sub a b

  abbrev pub ◌⊗◌ : D → D → D
  a ⊗ b = ops.mul a b

  abbrev pub ◌⊘◌ : D → D → D
  a ⊘ b = ops.div a b

  abbrev pub nought : D
  nought = ops.of_ℕ 0

  -- `a <= b` is false where one of them is NaN.
  abbrev pub le : D → D → Bool
  le a b = if ops.lt a b then Bool.true else ops.eq a b

  -- std::max
  abbrev pub maximum : D → D → D
  maximum a b = if ops.lt a b then b else a
