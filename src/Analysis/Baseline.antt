-- ===== src/Analysis/Baseline.antt =====
-- `robust_bounds` and `median`.
use adguard_sentinel.Base.{
  ℕ, zero, suc, ◌-◌, ◌/◌, ◌%◌, Option, none, some, Bool, true, false, not, ◌||◌, List, [], ◌∷◌, map,
  eqb, if◌then◌else◌, any, length, is_empty, sort_with, Ordering,
}
use adguard_sentinel.Base.Float.{Float}

abbrev pub get_or {ℓ} : {A : Type ℓ} → List A → ℕ → A → A
get_or [] i d = d
get_or (x ∷ xs) zero d = x
get_or (x ∷ xs) (suc i) d = get_or xs i d

module _ (fl : Float) where
  open fl use {F, literal, mul, sub, abs, max, midpoint, is_finite, total_cmp}

  abbrev pub total_le : F → F → Bool
  total_le a b = elim (total_cmp a b) [ Ordering.gt ↦ false | _ ↦ true ]

  -- An index out of range panics in the source; no caller passes the empty list, and on it the
  -- default stands for the panic.
  unfoldable pub median : List F → F
  median values =
      let sorted = sort_with total_le values in
      let middle = length sorted / 2 in
      if eqb (length sorted % 2) 0
      then midpoint (get_or sorted (middle - 1) (literal 0 0)) (get_or sorted middle (literal 0 0))
      else get_or sorted middle (literal 0 0)

  unfoldable pub robust_bounds : List F → Option (F × F)
  unfolding median
  robust_bounds values =
      if is_empty values || any (λ v. not (is_finite v)) values
      then none
      else (let center = median values in
          let deviations = map (λ v. abs (sub v center)) values in
          let scaled_deviation = mul (literal 14826 4) (median deviations) in
          some (center, max scaled_deviation (literal 1 9)))
