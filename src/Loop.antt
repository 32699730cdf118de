-- ===== src/Loop.antt =====
-- Loops with `break`: a stage of the body goes on with a state or leaves the loop with one.
use mathlib.Core.Option
use aowis_server_epanet.Base.{
  ℕ, zero, suc, ◌+◌, ◌≤◌, ◌<◌, ◌≡◌, refl, Bool, true, false, Option, none, some, arith,
  if◌then◌else◌,
}

pub data Flow {ℓ} (S : Type ℓ) : Type ℓ where
  proceed : S → Flow S
  leave : S → Flow S

infixl 5 ◌>>=◌
abbrev pub ◌>>=◌ {ℓ} : {S : Type ℓ} → Flow S → (S → Flow S) → Flow S
proceed s >>= f = f s
leave s >>= f = leave s

-- `while (true) body`, with fuel; `none` means that the fuel ran out.
unfoldable pub repeat {ℓ} : {S : Type ℓ} → (S → Flow S) → ℕ → S → Option S
repeat body zero s = none
repeat body (suc fuel) s = elim (body s) [ proceed s' ↦ repeat body fuel s' | leave s' ↦ some s' ]

-- `P` where the loop goes on, `Q` where it has left.
abbrev pub OnFlow {ℓ κ} : {S : Type ℓ} → (S → Type κ) → (S → Type κ) → Flow S → Type κ
OnFlow P Q (proceed s) = P s
OnFlow P Q (leave s) = Q s

pub bind-OnFlow {ℓ κ} :
    {S : Type ℓ} (P P' Q : S → Type κ) (m : Flow S) (f : S → Flow S)
    → OnFlow P Q m
    → ((s : S) → P s → OnFlow P' Q (f s))
    → OnFlow P' Q (m >>= f)
bind-OnFlow P P' Q (proceed s) f h k = k s h
bind-OnFlow P P' Q (leave s) f h k = h

pub OnFlow-map {ℓ κ} :
    {S : Type ℓ} (P Q : S → Type κ) (m : Flow S)
    → OnFlow P P m
    → ((s : S) → P s → Q s)
    → OnFlow Q Q m
OnFlow-map P Q (proceed s) h k = k s h
OnFlow-map P Q (leave s) h k = k s h

-- Both branches of a test, each with what the test says.
pub if_both {ℓ κ} :
    {S : Type ℓ} (P : S → Type κ) (c : Bool) {x y : S}
    → (c ≡ true → P x)
    → (c ≡ false → P y)
    → P (if c then x else y)
if_both P true h k = h refl
if_both P false h k = k refl

-- What holds of a result that may be missing.
abbrev pub OnSome {ℓ κ} : {S : Type ℓ} → (S → Type κ) → Option S → Type κ
OnSome Q none = Unit
OnSome Q (some s) = Q s

pub OnSome-map {ℓ κ} :
    {S T : Type ℓ} (P : S → Type κ) (Q : T → Type κ) (m : Option S) (f : S → T)
    → OnSome P m
    → ((s : S) → P s → Q (f s))
    → OnSome Q (Option.map f m)
OnSome-map P Q none f h k = tt
OnSome-map P Q (some s) f h k = k s h

-- The invariant rule of the loop.
pub repeat-OnSome {ℓ κ} :
    {S : Type ℓ} (P Q : S → Type κ) (body : S → Flow S)
    → ((s : S) → P s → OnFlow P Q (body s))
    → (fuel : ℕ) (s : S) → P s
    → OnSome Q (repeat body fuel s)
unfolding repeat
repeat-OnSome P Q body keep zero s h = tt
repeat-OnSome P Q body keep (suc fuel) s h =
    go (body s) (keep s h) (λ s' k. repeat-OnSome P Q body keep fuel s' k)
  where
    go :
        (m : Flow _)
        → OnFlow P Q m
        → ((s' : _) → P s' → OnSome Q (repeat body fuel s'))
        → OnSome Q (elim m [ proceed s' ↦ repeat body fuel s' | leave s' ↦ some s' ])
    go (proceed s') k rest = rest s' k
    go (leave s') k rest = k

-- Enough fuel: a progress that grows in every round that goes on and never exceeds a bound.
pub repeat-ends {ℓ κ} :
    {S : Type ℓ} (P Q : S → Type κ) (progress : S → ℕ) (bound : ℕ) (body : S → Flow S)
    → ((s : S) → P s → progress s ≤ bound)
    → ((s : S) → P s → OnFlow (λ t. (progress s < progress t) × P t) Q (body s))
    → (fuel : ℕ) (s : S) → P s
    → bound < progress s + fuel
    → (t : S) × (repeat body fuel s ≡ some t) × Q t
unfolding repeat
repeat-ends P Q progress bound body below grow zero s h enough =
    absurd (let least = below s h in omega arith)
repeat-ends P Q progress bound body below grow (suc fuel) s h enough =
    go (body s) (grow s h)
      (λ t k more. repeat-ends P Q progress bound body below grow fuel t k more)
  where
    go :
        (m : Flow _)
        → OnFlow (λ t. (progress s < progress t) × P t) Q m
        → ((t : _)
            → P t
            → bound < progress t + fuel
            → (u : _) × (repeat body fuel t ≡ some u) × Q u)
        → (u : _) × (elim m [ proceed t ↦ repeat body fuel t | leave t ↦ some t ] ≡ some u) × Q u
    go (proceed t) (more, k) rest = rest t k (omega arith)
    go (leave t) k rest = (t, refl, k)
