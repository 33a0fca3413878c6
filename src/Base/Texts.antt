-- ===== src/Base/Texts.antt =====
-- Texts as Rust's `str` has them: order, joining, sets and maps keyed by text.
use Prim.Native.Nat.{ℕ, zero, suc, ◌+◌, ◌≤◌}
use Prim.Native.String.{String, ◌++◌ as ◌<>◌, compare, count}
use text.Mathlib.TextLemmas.{length-append as count-append, length-cons as count-cons}
use mathlib.Core.Path.{◌≡◌, refl}
use mathlib.Core.Bool.{Bool}
use mathlib.Core.Option.{Option, none, some}
use mathlib.Core.List.{List, [], ◌∷◌, ◌++◌}
use text.Mathlib.Text.{◌==◌, is_le}
use text.Mathlib.TextEquality.{eq_iff}
use native.Mathlib.Omega.{arith}
use adguard_sentinel.Base.Tests.{if◌then◌else◌}
use adguard_sentinel.Base.Lists.{any, is_empty}

-- `str::cmp` as a test.
abbrev pub str_leb : String → String → Bool
str_leb s t = is_le (compare s t)

abbrev pub contains : List String → String → Bool
contains xs s = any (λ x. x == s) xs

-- `[String]::join`.
unfoldable pub join : String → List String → String
join sep [] = ""
join sep (s ∷ []) = s
join sep (s ∷ t ∷ ts) = s <> (sep <> join sep (t ∷ ts))

-- `chars().take(n).collect()`.
unfoldable pub take_chars : ℕ → String → String
take_chars zero s = ""
take_chars (suc n) String.[] = ""
take_chars (suc n) (String.◌∷◌ c s) = String.◌∷◌ c (take_chars n s)

pub count-take_chars : (n : ℕ) (s : String) → count (take_chars n s) ≤ n
unfolding take_chars
count-take_chars zero s = omega arith
count-take_chars (suc n) String.[] = omega arith
count-take_chars (suc n) (String.◌∷◌ c s) =
    rw (count-cons c (take_chars n s)) (omega (arith, count-take_chars n s))

-- `chars().count()` of a joined text.
pub count-join_snoc :
    (sep : String) (ss : List String) (s : String)
    → count (join sep (ss ++ s ∷ []))
      ≡ (if is_empty ss then count s else count (join sep ss) + count sep + count s)
unfolding join
count-join_snoc sep [] s = refl
count-join_snoc sep (t ∷ []) s = omega (arith, count-append t (sep <> s), count-append sep s)
count-join_snoc sep (t ∷ u ∷ us) s = omega (
  arith,
  count-join_snoc sep (u ∷ us) s,
  count-append t (sep <> join sep (u ∷ us ++ s ∷ [])),
  count-append sep (join sep (u ∷ us ++ s ∷ [])),
  count-append t (sep <> join sep (u ∷ us)),
  count-append sep (join sep (u ∷ us)),
)

-- A `BTreeMap<String, V>` as the association list of its entries in key order. A new key is put
-- where it belongs; an old one keeps its place and takes the new value.
module _ {ℓ} {V : Type ℓ} where
  unfoldable pub lookup : String → List (String × V) → Option V
  lookup key [] = none
  lookup key (entry ∷ entries) = if entry.0 == key then some entry.1 else lookup key entries

  -- The entries stay sorted, and an entry of the same key is replaced.
  unfoldable pub insert : String → V → List (String × V) → List (String × V)
  insert key value [] = (key, value) ∷ []
  insert key value (entry ∷ entries) =
      let behind = entry ∷ insert key value entries in
      if entry.0 == key
      then (key, value) ∷ entries
      else if str_leb key entry.0
      then (key, value) ∷ entry ∷ entries
      else behind

  pub lookup-insert :
      (key asked : String) (value : V) (entries : List (String × V))
      → lookup asked (insert key value entries)
        ≡ (if key == asked then some value else lookup asked entries)
  unfolding lookup insert
  lookup-insert key asked value [] = refl
  lookup-insert key asked value (entry ∷ entries) =
      let ih = lookup-insert key asked value entries in
      ground (arith, ih, eq_iff entry.0 asked, eq_iff entry.0 key, eq_iff key asked)

-- A `BTreeSet` of texts: sorted, each once.
abbrev pub set_insert : String → List String → List String
set_insert s [] = s ∷ []
set_insert s (t ∷ ts) =
    if t == s then t ∷ ts else if str_leb s t then s ∷ t ∷ ts else t ∷ set_insert s ts

abbrev pub set_of : List String → List String
set_of [] = []
set_of (s ∷ ss) = set_insert s (set_of ss)
