-- ===== src/Adguard/Body.antt =====
-- The bounded reading of a response's body.
use adguard_sentinel.Base.{
  ℕ, ◌≤◌, ◌<◌, ◌≡◌, ◌↔◌, String, Option, none, some, List, [], ◌∷◌, ◌++◌, arith, length,
  length-append, u64_max,
}
use adguard_sentinel.Base.Result.{Result, ok, err}
use adguard_sentinel.Adguard.Observe.{RequestError, read_body}

-- All bytes of the chunks behind those that are there already; none if a chunk was not read.
abbrev pub gathered : List ℕ → List (Result RequestError (List ℕ)) → Option (List ℕ)
gathered body [] = some body
gathered body (err e ∷ chunks) = none
gathered body (ok chunk ∷ chunks) = gathered (body ++ chunk) chunks

gathered-le :
    (body : List ℕ) (chunks : List (Result RequestError (List ℕ))) (whole : List ℕ)
    → gathered body chunks ≡ some whole
    → length body ≤ length whole
gathered-le body [] whole h = ground arith
gathered-le body (err e ∷ chunks) whole h = ground arith
gathered-le body (ok chunk ∷ chunks) whole h =
    omega (arith, gathered-le (body ++ chunk) chunks whole h, length-append body chunk)

module _ (limit : ℕ) (endpoint : String) (fits : limit < u64_max) where
  read_body-some :
      (body : List ℕ) (chunks : List (Result RequestError (List ℕ))) (whole : List ℕ)
      → length body ≤ limit
      → read_body limit endpoint body chunks ≡ ok whole
      → (gathered body chunks ≡ some whole) × (length whole ≤ limit)
  unfolding read_body
  read_body-some body [] whole le h = ground arith
  read_body-some body (err e ∷ chunks) whole le h = ground arith
  read_body-some body (ok chunk ∷ chunks) whole le h =
      ground (arith, length-append body chunk, read_body-some (body ++ chunk) chunks whole)

  read_body_fits :
      (body : List ℕ) (chunks : List (Result RequestError (List ℕ))) (whole : List ℕ)
      → gathered body chunks ≡ some whole
      → length whole ≤ limit
      → read_body limit endpoint body chunks ≡ ok whole
  unfolding read_body
  read_body_fits body [] whole h le = ground arith
  read_body_fits body (err e ∷ chunks) whole h le = ground arith
  read_body_fits body (ok chunk ∷ chunks) whole h le = ground (
    arith,
    length-append body chunk,
    gathered-le (body ++ chunk) chunks whole,
    read_body_fits (body ++ chunk) chunks whole,
  )

  -- Under a limit below the greatest `u64`, the body is read exactly if every chunk arrives and all
  -- of them together are no longer than the limit, and then it is all their bytes in order.
  pub read_body_iff :
      (chunks : List (Result RequestError (List ℕ))) (whole : List ℕ)
      → (read_body limit endpoint [] chunks ≡ ok whole)
        ↔ ((gathered [] chunks ≡ some whole) × (length whole ≤ limit))
  read_body_iff chunks whole =
      (read_body-some [] chunks whole (omega arith), λ h. read_body_fits [] chunks whole h.0 h.1)
