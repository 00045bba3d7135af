-- ===== src/Registry/Sift.antt =====
-- Lists that are sifted or cut, for the pages of internal/registry/store/memory.go.
use agentapi_doctor.Common.{
  ℕ, zero, suc, ◌≡◌, ◌<◌, ◌≤◌, Bool, true, ◌&&◌, List, [], ◌∷◌, ◌++◌, some, all, if◌then◌else◌,
  length, take, drop, last?, arith, refl, ap,
}

module _ {O : Type 0} where
  abbrev pub sift : (O → Bool) → List O → List O
  sift p [] = []
  sift p (x ∷ xs) = if p x then x ∷ sift p xs else sift p xs

  pub sift-all : (p : O → Bool) (xs : List O) → all p xs ≡ true → sift p xs ≡ xs
  sift-all p [] h = refl
  sift-all p (x ∷ xs) h = ground (arith, h, sift-all p xs)

  pub sift-sift : (p q : O → Bool) (xs : List O) → sift (λ o. p o && q o) xs ≡ sift p (sift q xs)
  sift-sift p q [] = refl
  sift-sift p q (x ∷ xs) = ground (arith, sift-sift p q xs)

  -- What ends a full page, and what comes behind it.
  pub split_at :
      (n : ℕ) (xs : List O)
      → n < length xs
      → (front : List O) × (x : O) × (take (suc n) xs ≡ front ++ x ∷ [])
        × (xs ≡ front ++ x ∷ drop (suc n) xs)
  split_at zero [] h = absurd (omega (arith, h))
  split_at zero (x ∷ xs) h = ([], x, refl, refl)
  split_at (suc n) [] h = absurd (omega (arith, h))
  split_at (suc n) (y ∷ xs) h =
      let rest = split_at n xs (omega (arith, h)) in
      (y ∷ rest.0, rest.1, ap (λ zs. y ∷ zs) rest.2, ap (λ zs. y ∷ zs) rest.3)

  pub split_full :
      (limit : ℕ) (xs : List O)
      → 1 ≤ limit
      → limit < length xs
      → (front : List O) × (x : O) × (take limit xs ≡ front ++ x ∷ [])
        × (xs ≡ front ++ x ∷ drop limit xs)
  split_full zero xs low h = absurd (omega (arith, low))
  split_full (suc n) xs low h = split_at n xs (omega (arith, h))

  pub last-append : (front : List O) (x : O) → last? (front ++ x ∷ []) ≡ some x
  last-append [] x = refl
  last-append (y ∷ []) x = refl
  last-append (y ∷ z ∷ front) x = last-append (z ∷ front) x

  pub take_all : (n : ℕ) (xs : List O) → length xs ≤ n → take n xs ≡ xs
  take_all zero [] h = refl
  take_all zero (x ∷ xs) h = absurd (omega (arith, h))
  take_all (suc n) [] h = refl
  take_all (suc n) (x ∷ xs) h = ap (λ ys. x ∷ ys) (take_all n xs (omega (arith, h)))

  pub take-take : (n : ℕ) (xs : List O) → take n (take (suc n) xs) ≡ take n xs
  take-take zero xs = refl
  take-take (suc n) [] = refl
  take-take (suc n) (x ∷ xs) = ap (λ ys. x ∷ ys) (take-take n xs)

  pub take-drop : (n : ℕ) (xs : List O) → take n xs ++ drop n xs ≡ xs
  take-drop zero xs = refl
  take-drop (suc n) [] = refl
  take-drop (suc n) (x ∷ xs) = ap (λ ys. x ∷ ys) (take-drop n xs)
