-- ===== src/Base/Order.antt =====
-- A stable sort by a Boolean order gives a sorted permutation, and the order of texts is total.
use Prim.Native.String.compare
use Prim.Native.String.{String}
use mathlib.Core.Path.{◌≡◌, refl}
use mathlib.Core.Bool.{Bool, true, false, ◌||◌}
use mathlib.Core.Logic.{inl, inr}
use mathlib.Core.List.{List, [], ◌∷◌, ◌++◌}
use mathlib.Core.List.Perm
use mathlib.Core.List.{Perm}
use native.Mathlib.Omega.{arith}
use adguard_sentinel.Base.Tests.{Bool-cases}
use adguard_sentinel.Base.Lists.{All, All-imp, All-append, any, insert_with, sort_with}
use adguard_sentinel.Base.Texts.{str_leb}

-- Of two texts one comes first.
pub str_leb_total : (s t : String) → str_leb s t ≡ false → str_leb t s ≡ true
str_leb_total String.[] String.[] h = ground (arith, compare.nil-nil)
str_leb_total String.[] (String.◌∷◌ d t) h = ground (arith, compare.nil-cons d t)
str_leb_total (String.◌∷◌ c s) String.[] h = ground (arith, compare.nil-cons c s)
str_leb_total (String.◌∷◌ c s) (String.◌∷◌ d t) h =
    ground (arith, compare.cons-cons c d s t, compare.cons-cons d c t s, str_leb_total s t)

-- The order of texts is transitive.
pub str_leb_trans : (s t u : String) → str_leb s t ≡ true → str_leb t u ≡ true → str_leb s u ≡ true
str_leb_trans String.[] t String.[] h k = ground (arith, compare.nil-nil)
str_leb_trans String.[] t (String.◌∷◌ e u) h k = ground (arith, compare.nil-cons e u)
str_leb_trans (String.◌∷◌ c s) String.[] u h k = ground (arith, compare.cons-nil c s)
str_leb_trans (String.◌∷◌ c s) (String.◌∷◌ d t) String.[] h k = ground (arith, compare.cons-nil d t)
str_leb_trans (String.◌∷◌ c s) (String.◌∷◌ d t) (String.◌∷◌ e u) h k = ground (
  arith,
  compare.cons-cons c d s t,
  compare.cons-cons d e t u,
  compare.cons-cons c e s u,
  str_leb_trans s t u,
)

module _ {ℓ} {A : Type ℓ} (le : A → A → Bool) where
  -- Each row comes no later than its successor.
  abbrev pub IsAscending : List A → Type 0
  IsAscending [] = Unit
  IsAscending (a ∷ []) = Unit
  IsAscending (a ∷ b ∷ rest) = (le a b ≡ true) × IsAscending (b ∷ rest)

  insert_with-IsAscending :
      ((a b : A) → le a b ≡ false → le b a ≡ true)
      → (a : A) (bs : List A) → IsAscending bs
      → IsAscending (insert_with le a bs)
  unfolding insert_with
  insert_with-IsAscending total a [] h = tt
  insert_with-IsAscending total a (b ∷ []) h = elim (Bool-cases (le a b)) [
    | inl e ↦ rw e (e, tt)
    | inr e ↦ rw e (total a b e, tt)
  ]
  insert_with-IsAscending total a (b ∷ c ∷ bs) h =
      let ih = insert_with-IsAscending total a (c ∷ bs) h.1 in
      elim (Bool-cases (le a b)) [
        | inl e ↦ rw e (e, h)
        | inr e ↦ rw e (elim (Bool-cases (le a c)) [
          | inl f ↦ rw f (total a b e, rw f at ih)
          | inr f ↦ rw f (h.0, rw f at ih)
        ])
      ]

  pub sort_with-IsAscending :
      ((a b : A) → le a b ≡ false → le b a ≡ true)
      → (rest : List A) → IsAscending (sort_with le rest)
  unfolding sort_with
  sort_with-IsAscending total [] = tt
  sort_with-IsAscending total (a ∷ rest) =
      insert_with-IsAscending total a (sort_with le rest) (sort_with-IsAscending total rest)

  insert_with-perm : (a : A) (bs : List A) → Perm (insert_with le a bs) (a ∷ bs)
  unfolding insert_with
  insert_with-perm a [] = Perm.refl _
  insert_with-perm a (b ∷ bs) = elim (Bool-cases (le a b)) [
    | inl e ↦ rw e (Perm.refl _)
    | inr e ↦ rw e (Perm.trans (Perm.cons b (insert_with-perm a bs)) (Perm.swap a b bs))
  ]

  pub sort_with-perm : (rest : List A) → Perm (sort_with le rest) rest
  unfolding sort_with
  sort_with-perm [] = Perm.refl _
  sort_with-perm (a ∷ rest) =
      Perm.trans (insert_with-perm a (sort_with le rest)) (Perm.cons a (sort_with-perm rest))

  insert_with-All {κ} :
      (P : A → Type κ) (a : A) (bs : List A) → P a → All P bs → All P (insert_with le a bs)
  unfolding insert_with
  insert_with-All P a [] pa h = (pa, tt)
  insert_with-All P a (b ∷ bs) pa h = elim (Bool-cases (le a b)) [
    | inl e ↦ rw e (pa, h)
    | inr e ↦ rw e (h.0, insert_with-All P a bs pa h.1)
  ]

  -- A property of all rows is one of all sorted rows.
  pub sort_with-All {κ} : (P : A → Type κ) (rest : List A) → All P rest → All P (sort_with le rest)
  unfolding sort_with
  sort_with-All P [] h = tt
  sort_with-All P (a ∷ rest) h =
      insert_with-All P a (sort_with le rest) h.0 (sort_with-All P rest h.1)

-- No row is the `same` as a later one.
module _ {ℓ} {A : Type ℓ} (same : A → A → Bool) where
  abbrev pub IsApart : List A → Type 0
  IsApart [] = Unit
  IsApart (a ∷ rest) = All (λ b. same a b ≡ false) rest × IsApart rest

  pub IsApart-append :
      (xs ys : List A)
      → IsApart xs
      → IsApart ys
      → All (λ y. any (λ x. same x y) xs ≡ false) ys
      → IsApart (xs ++ ys)
  IsApart-append [] ys hx hy cross = hy
  IsApart-append (x ∷ xs) ys hx hy cross = (
    All-append (λ y. same x y ≡ false) xs ys hx.0 (All-imp (λ y f. ground arith) ys cross),
    IsApart-append xs ys hx.1 hy (All-imp (λ y f. ground arith) ys cross),
  )

  module _ (le : A → A → Bool) (symmetric : (a b : A) → same a b ≡ false → same b a ≡ false) where
    insert_with-IsApart :
        (a : A) (bs : List A)
        → All (λ b. same a b ≡ false) bs
        → IsApart bs
        → IsApart (insert_with le a bs)
    unfolding insert_with
    insert_with-IsApart a [] fresh h = (tt, tt)
    insert_with-IsApart a (b ∷ bs) fresh h = elim (Bool-cases (le a b)) [
      | inl e ↦ rw e (fresh, h)
      | inr e ↦ rw e (
        insert_with-All le (λ c. same b c ≡ false) a bs (symmetric a b fresh.0) h.0,
        insert_with-IsApart a bs fresh.1 h.1,
      )
    ]

    -- Sorting keeps the rows apart.
    pub sort_with-IsApart : (rest : List A) → IsApart rest → IsApart (sort_with le rest)
    unfolding sort_with
    sort_with-IsApart [] h = tt
    sort_with-IsApart (a ∷ rest) h =
        insert_with-IsApart a (sort_with le rest)
          (sort_with-All le (λ b. same a b ≡ false) rest h.0) (sort_with-IsApart rest h.1)

module _ {ℓ} {A : Type ℓ} (p : A → Bool) (le : A → A → Bool) where
  any-insert_with : (a : A) (bs : List A) → any p (insert_with le a bs) ≡ (p a || any p bs)
  unfolding insert_with
  any-insert_with a [] = refl
  any-insert_with a (b ∷ bs) = ground (arith, any-insert_with a bs)

  pub any-sort_with : (rest : List A) → any p (sort_with le rest) ≡ any p rest
  unfolding sort_with
  any-sort_with [] = refl
  any-sort_with (a ∷ rest) =
      ground (arith, any-insert_with a (sort_with le rest), any-sort_with rest)
