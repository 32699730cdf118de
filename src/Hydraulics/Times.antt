-- ===== src/Hydraulics/Times.antt =====
-- Lists of elapsed times in order, and the solver's two tests of the time.
use aowis_server_epanet.Base.{
  ℕ, suc, ◌≤◌, ◌<◌, ◌≡◌, refl, ap, false, not, ◌&&◌, List, [], ◌∷◌, ◌++◌, map, arith, All, ℤ, pos,
  negsuc, pos_part, ltb_ℤ,
}
use aowis_server_epanet.Model.Results.{HydraulicResult}
use aowis_server_epanet.Hydraulics.Frame.{time}

-- Strictly increasing, from `low` on.
abbrev pub Rising : ℕ → List ℕ → Type 0
Rising low [] = Unit
Rising low (t ∷ ts) = (low ≤ t) × Rising (suc t) ts

abbrev pub AllBelow : ℕ → List ℕ → Type 0
AllBelow high ts = All (λ t. t < high) ts

pub AllBelow-mono : (low high : ℕ) (ts : List ℕ) → low ≤ high → AllBelow low ts → AllBelow high ts
AllBelow-mono low high [] h k = tt
AllBelow-mono low high (t ∷ ts) h k = (omega (arith, k.0), AllBelow-mono low high ts h k.1)

pub Rising-snoc :
    (low t : ℕ) (ts : List ℕ) → low ≤ t → Rising low ts → AllBelow t ts → Rising low (ts ++ t ∷ [])
Rising-snoc low t [] h r k = (h, tt)
Rising-snoc low t (x ∷ ts) h r k = (r.0, Rising-snoc (suc x) t ts k.0 r.1 k.1)

pub map-time-snoc :
    {D : Type 0} (rs : List (HydraulicResult D)) (r : HydraulicResult D)
    → map time (rs ++ r ∷ []) ≡ map time rs ++ time r ∷ []
map-time-snoc [] r = refl
map-time-snoc (x ∷ rs) r = ap (◌∷◌ (time x)) (map-time-snoc rs r)

-- How many seconds a time of the loop leaves behind; -1 stands for none.
abbrev pub visited : ℤ → ℕ
visited (pos n) = suc n
visited (negsuc n) = 0

pub visited_forward :
    (previous current : ℤ)
    → ltb_ℤ current (pos 0) ≡ false
    → (not (ltb_ℤ previous (pos 0)) && not (ltb_ℤ previous current)) ≡ false
    → (visited previous < visited current) × (visited current ≡ suc (pos_part current))
visited_forward (pos m) (pos n) h k = ground arith
visited_forward (pos m) (negsuc n) h k = ground arith
visited_forward (negsuc m) (pos n) h k = ground arith
visited_forward (negsuc m) (negsuc n) h k = ground arith

pub visited_bound : (last : ℕ) (t : ℤ) → ltb_ℤ (pos last) t ≡ false → visited t ≤ suc last
visited_bound last (pos n) h = ground arith
visited_bound last (negsuc n) h = ground arith
