-- ===== src/Common/Assoc.antt =====
-- Go's maps as association lists: a key is found at its first entry, and a write replaces that entry.
use mathlib.Core.Path.{◌≡◌, refl}
use mathlib.Core.List.{List, [], ◌∷◌}
use mathlib.Core.Option.{Option, none, some}
use mathlib.Core.Logic.{◌⊎◌, ◌≢◌}
use native.Mathlib.Omega.{arith}
use agentapi_doctor.Common.Tests.{Eq, ◌==◌, if◌then◌else◌}

module _ {ℓ κ} {K : Type ℓ} {V : Type κ} ⦃same : Eq K⦄ where
  unfoldable pub lookup : K → List (K × V) → Option V
  lookup key [] = none
  lookup key ((other, value) ∷ entries) = if other == key then some value else lookup key entries

  unfoldable pub insert : K → V → List (K × V) → List (K × V)
  insert key value [] = (key, value) ∷ []
  insert key value ((other, old) ∷ entries) =
      if other == key then (key, value) ∷ entries else (other, old) ∷ insert key value entries

  unfoldable pub delete : K → List (K × V) → List (K × V)
  delete key [] = []
  delete key ((other, old) ∷ entries) =
      if other == key then delete key entries else (other, old) ∷ delete key entries

  pub lookup-insert :
      (key other : K) (value : V) (entries : List (K × V))
      → lookup other (insert key value entries)
        ≡ (if key == other then some value else lookup other entries)
  unfolding lookup insert
  lookup-insert key other value [] = refl
  lookup-insert key other value ((found, old) ∷ entries) = ground (
    arith,
    same.test_iff key other,
    same.test_iff found key,
    same.test_iff found other,
    lookup-insert key other value entries,
  )

  pub lookup-insert_self :
      (key : K) (value : V) (entries : List (K × V))
      → lookup key (insert key value entries) ≡ some value
  lookup-insert_self key value entries =
      ground (arith, lookup-insert key key value entries, same.test_iff key key)

  pub lookup-delete :
      (key other : K) (entries : List (K × V))
      → lookup other (delete key entries) ≡ (if key == other then none else lookup other entries)
  unfolding lookup delete
  lookup-delete key other [] = ground arith
  lookup-delete key other ((found, old) ∷ entries) = ground (
    arith,
    same.test_iff key other,
    same.test_iff found key,
    same.test_iff found other,
    lookup-delete key other entries,
  )

  -- What is found after a write: the value written, or an older one under another key.
  pub lookup-insert_cases :
      (key other : K) (value old : V) (entries : List (K × V))
      → lookup other (insert key value entries) ≡ some old
      → ((key ≡ other) × (value ≡ old)) ⊎ ((key ≢ other) × (lookup other entries ≡ some old))
  lookup-insert_cases key other value old entries hyp =
      ground (arith, lookup-insert key other value entries, same.test_iff key other)

  pub lookup-insert_ne :
      (key other : K) (value : V) (entries : List (K × V))
      → key ≢ other
      → lookup other (insert key value entries) ≡ lookup other entries
  lookup-insert_ne key other value entries hyp =
      ground (arith, lookup-insert key other value entries, same.test_iff key other)
