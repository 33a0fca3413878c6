-- ===== src/Adguard/Entries.antt =====
-- The counts that the first loop of `normalize_upstreams` collects.
use adguard_sentinel.Base.{
  ℕ, ◌≡◌, String, Option, none, some, Bool, false, List, [], ◌∷◌, arith, ◌==◌, eq_iff, eq_refl, All,
  All-imp, lookup, insert, lookup-insert, str_leb, if◌then◌else◌, Bool-cases, inl, inr, subst,
}
use adguard_sentinel.Base.Order.{IsApart}
use adguard_sentinel.Base.Result.{ok, ok-injective}
use adguard_sentinel.Adguard.Types.{invalid_stats}
use adguard_sentinel.Adguard.Upstreams.{single, collect_counts}

-- The count that the first entry of an upstream has in what the server answered.
abbrev pub reported : String → List (List (String × ℕ)) → Option ℕ
reported identity [] = none
reported identity ([] ∷ entries) = reported identity entries
reported identity ((c ∷ _) ∷ entries) =
    if c.0 == identity then some c.1 else reported identity entries

abbrev pub same_entry : String × ℕ → String × ℕ → Bool
same_entry a b = a.0 == b.0

abbrev pub first_of : Option ℕ → Option ℕ → Option ℕ
first_of none b = b
first_of (some n) b = some n

insert-All :
    (P : String × ℕ → Type 0) (key : String) (value : ℕ) (es : List (String × ℕ))
    → P (key, value)
    → All P es
    → All P (insert key value es)
unfolding insert
insert-All P key value [] p h = (p, tt)
insert-All P key value (e ∷ es) p h =
    let (head, tail) = h in
    elim (Bool-cases (e.0 == key)) [
      | inl same ↦ rw same (p, tail)
      | inr other ↦ elim (Bool-cases (str_leb key e.0)) [
        | inl before ↦ rw (other, before) (p, (head, tail))
        | inr behind ↦ rw (other, behind) (head, insert-All P key value es p tail)
      ]
    ]

-- A key that is not looked up with success is no entry's.
missing-All :
    (key : String) (es : List (String × ℕ))
    → lookup key es ≡ none
    → All (λ c. (key == c.0) ≡ false) es
unfolding lookup
missing-All key [] n = tt
missing-All key (e ∷ es) n =
    (ground (arith, eq_iff e.0 key, eq_iff key e.0), missing-All key es (ground arith))

All-both :
    (P Q : String × ℕ → Type 0) (es : List (String × ℕ))
    → All P es
    → All Q es
    → All (λ c. P c × Q c) es
All-both P Q [] p q = tt
All-both P Q (e ∷ es) p q = ((p.0, q.0), All-both P Q es p.1 q.1)

insert-IsApart :
    (key : String) (value : ℕ) (es : List (String × ℕ))
    → lookup key es ≡ none
    → IsApart same_entry es
    → IsApart same_entry (insert key value es)
unfolding insert lookup
insert-IsApart key value [] n h = (tt, tt)
insert-IsApart key value (e ∷ es) n h =
    let other : (e.0 == key) ≡ false = ground arith in
    let missing = missing-All key (e ∷ es) n in
    elim (Bool-cases (str_leb key e.0)) [
      | inl before ↦ rw (other, before) (missing, h)
      | inr behind ↦
          rw (other, behind)
            (
              insert-All (λ c. same_entry e c ≡ false) key value es other h.0,
              insert-IsApart key value es (ground arith) h.1,
            )
    ]

pub lookup-apart :
    (es : List (String × ℕ)) → IsApart same_entry es → All (λ c. lookup c.0 es ≡ some c.1) es
unfolding lookup
lookup-apart [] h = tt
lookup-apart (e ∷ es) h = (
  ground (arith, eq_refl e.0),
  All-imp (λ c f. ground (arith, f.0, f.1)) es (All-both _ _ es h.0 (lookup-apart es h.1)),
)

pub collect_counts-ok :
    (counts : List (String × ℕ)) (entries : List (List (String × ℕ))) (out : List (String × ℕ))
    → IsApart same_entry counts
    → collect_counts counts entries ≡ ok out
    → IsApart same_entry out
      × ((id : String) → lookup id out ≡ first_of (lookup id counts) (reported id entries))
unfolding collect_counts single invalid_stats
collect_counts-ok counts [] out apart h =
    subst
      (λ o. IsApart same_entry o × ((id : String) → lookup id o ≡ first_of (lookup id counts) none))
      (ok-injective counts out h) (apart, λ id. ground arith)
collect_counts-ok counts ([] ∷ entries) out apart h = ground arith
collect_counts-ok counts ((c ∷ d ∷ rest) ∷ entries) out apart h = ground arith
collect_counts-ok counts ((c ∷ []) ∷ entries) out apart h =
    let fresh : lookup c.0 counts ≡ none = ground arith in
    let (apart', found) =
      collect_counts-ok (insert c.0 c.1 counts) entries out
        (insert-IsApart c.0 c.1 counts fresh apart) (ground arith) in
    (apart', λ id. ground (arith, found id, lookup-insert c.0 id c.1 counts, eq_iff c.0 id))
