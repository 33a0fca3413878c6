-- ===== src/Base/Entries.antt =====
-- What holds of all entries of an association list.
use mathlib.Core.Path.{◌≡◌, subst}
use mathlib.Core.Logic.{inl, inr}
use mathlib.Core.Option.{some}
use mathlib.Core.Option.{some-injective}
use mathlib.Core.List.{List, [], ◌∷◌}
use Prim.Native.String.{String}
use text.Mathlib.Text.{◌==◌}
use text.Mathlib.TextEquality.{eq_iff}
use adguard_sentinel.Base.Tests.{Bool-cases}
use adguard_sentinel.Base.Lists.{All}
use adguard_sentinel.Base.Texts.{lookup, insert, str_leb}

module _ {ℓ κ} {V : Type ℓ} (P : String × V → Type κ) where
  pub insert-All :
      (key : String) (value : V) (es : List (String × V))
      → P (key, value)
      → All P es
      → All P (insert key value es)
  unfolding insert
  insert-All key value [] p h = (p, tt)
  insert-All key value (e ∷ es) p h =
      let (head, tail) = h in
      elim (Bool-cases (e.0 == key)) [
        | inl same ↦ rw same (p, tail)
        | inr other ↦ elim (Bool-cases (str_leb key e.0)) [
          | inl before ↦ rw (other, before) (p, (head, tail))
          | inr behind ↦ rw (other, behind) (head, insert-All key value es p tail)
        ]
      ]

  pub lookup-All :
      (key : String) (value : V) (es : List (String × V))
      → All P es
      → lookup key es ≡ some value
      → P (key, value)
  unfolding lookup
  lookup-All key value [] h found = cc
  lookup-All key value (e ∷ es) h found = elim (Bool-cases (e.0 == key)) [
    | inl same ↦
        (let v : e.1 ≡ value = some-injective e.1 value (rw same at found) in
          subst (λ w. P (key, w)) v (subst (λ k. P (k, e.1)) ((eq_iff e.0 key).0 same) h.0))
    | inr other ↦ lookup-All key value es h.1 (rw other at found)
  ]
