-- ===== src/Adguard/Rewrites.antt =====
-- What the normalized rewrites of a target are.
use adguard_sentinel.Base.{
  ◌≡◌, refl, ap, String, Option, Bool, true, false, List, [], ◌∷◌, map, arith, eq_iff, any, All,
  All-imp, sort_with, subst,
}
use mathlib.Core.List.{Perm}
use adguard_sentinel.Base.Order.{
  IsAscending, IsApart, str_leb_total, sort_with-IsAscending, sort_with-All, sort_with-IsApart,
  sort_with-perm,
}
use adguard_sentinel.Base.Chars.{is_empty_text}
use adguard_sentinel.Base.Result.{ok, ok-injective, >>=-ok, refused-ok}
use adguard_sentinel.Model.Observation.{RewriteObservation}
use adguard_sentinel.Adguard.Types.{RewriteResponse}
use adguard_sentinel.Adguard.Lists.{
  by_rewrite, same_rewrite, normalize_rewrite, rewrite_loop, normalize_rewrites, invalid,
}

-- The same normalized domain and answer.
abbrev pub same_key : RewriteObservation → RewriteObservation → Bool
same_key a b = same_rewrite a.domain a.answer b

-- A rewrite with a domain and an answer.
abbrev pub IsNamed : RewriteObservation → Type 0
IsNamed r = (is_empty_text r.domain ≡ false) × (is_empty_text r.answer ≡ false)

by_rewrite_total : (a b : RewriteObservation) → by_rewrite a b ≡ false → by_rewrite b a ≡ true
by_rewrite_total a b h = ground (
  arith,
  eq_iff a.domain b.domain,
  eq_iff b.domain a.domain,
  str_leb_total a.answer b.answer,
  str_leb_total a.domain b.domain,
)

same_key_symm : (a b : RewriteObservation) → same_key a b ≡ false → same_key b a ≡ false
same_key_symm a b h = ground (
  arith,
  eq_iff a.domain b.domain,
  eq_iff b.domain a.domain,
  eq_iff a.answer b.answer,
  eq_iff b.answer a.answer,
)

module _ (canonical_ip : String → Option String) where
  -- What the loop has found out of the entries that it kept.
  abbrev IsKept : List RewriteObservation → List RewriteResponse → List RewriteObservation → Type 0
  IsKept seen rewrites kept =
      (kept ≡ map (normalize_rewrite canonical_ip) rewrites)
      × All IsNamed kept
      × IsApart same_key kept
      × All (λ r. any (same_rewrite r.domain r.answer) seen ≡ false) kept

  rewrite_loop-ok :
      (seen : List RewriteObservation) (rewrites : List RewriteResponse)
      (kept : List RewriteObservation)
      → rewrite_loop canonical_ip seen rewrites ≡ ok kept
      → IsKept seen rewrites kept
  unfolding rewrite_loop invalid
  rewrite_loop-ok seen [] kept h =
      subst (IsKept seen []) (ok-injective [] kept h) (refl, tt, tt, tt)
  rewrite_loop-ok seen (rewrite ∷ rewrites) kept h =
      let r = normalize_rewrite canonical_ip rewrite in
      let (clear, go) = refused-ok _ _ _ kept h in
      let (rest, found, e) = >>=-ok (rewrite_loop canonical_ip (r ∷ seen) rewrites) _ kept go in
      let (same, named, apart, fresh) = rewrite_loop-ok (r ∷ seen) rewrites rest found in
      subst (IsKept seen (rewrite ∷ rewrites)) (ok-injective (r ∷ rest) kept e) (
        ap (λ rs. r ∷ rs) same,
        (ground arith, named),
        (All-imp (λ o f. same_key_symm o r (ground arith)) rest fresh, apart),
        (ground arith, All-imp (λ o f. ground arith) rest fresh),
      )

  -- The rewrites that are accepted are the target's, each with its normalized domain and answer;
  -- none of these is empty, no two rewrites share both, and they come in the order of the domains,
  -- the answers deciding within one.
  pub normalize_rewrites-ok :
      (rewrites : List RewriteResponse) (kept : List RewriteObservation)
      → normalize_rewrites canonical_ip rewrites ≡ ok kept
      → Perm kept (map (normalize_rewrite canonical_ip) rewrites)
        × All IsNamed kept
        × IsApart same_key kept
        × IsAscending by_rewrite kept
  unfolding normalize_rewrites
  normalize_rewrites-ok rewrites kept h =
      let (loose, found, e) = >>=-ok (rewrite_loop canonical_ip [] rewrites) _ kept h in
      let (same, named, apart, _) = rewrite_loop-ok [] rewrites loose found in
      subst
        (λ os.
          Perm os (map (normalize_rewrite canonical_ip) rewrites)
          × All IsNamed os
          × IsApart same_key os
          × IsAscending by_rewrite os)
        (ok-injective (sort_with by_rewrite loose) kept e)
        (
          subst (Perm (sort_with by_rewrite loose)) same (sort_with-perm by_rewrite loose),
          sort_with-All by_rewrite IsNamed loose named,
          sort_with-IsApart same_key by_rewrite same_key_symm loose apart,
          sort_with-IsAscending by_rewrite by_rewrite_total loose,
        )
