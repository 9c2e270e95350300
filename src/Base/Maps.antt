-- ===== src/Base/Maps.antt =====
-- Go maps with numbers for keys, as lists of entries.
use Prim.Native.Nat.{ℕ}
use mathlib.Core.Path.{◌≡◌, refl}
use mathlib.Core.Logic.{◌≢◌, inl, inr}
use mathlib.Core.Bool.{true, false}
use mathlib.Core.Option.{Option, none, some}
use mathlib.Core.List.{List, [], ◌∷◌}
use native.Mathlib.Omega.{arith}
use mini_sfu.Base.Tests.{◌==◌, if◌then◌else◌, Bool-cases}

-- A map with numbers for its string keys: a key is in it once at most.
module _ {ℓ} {A : Type ℓ} where
  abbrev pub lookup : ℕ → List (ℕ × A) → Option A
  lookup k [] = none
  lookup k (e ∷ es) = let rest = lookup k es in if e.0 == k then some e.1 else rest

  abbrev pub delete : ℕ → List (ℕ × A) → List (ℕ × A)
  delete k [] = []
  delete k (e ∷ es) = let rest = delete k es in if e.0 == k then rest else e ∷ rest

  abbrev pub insert : ℕ → A → List (ℕ × A) → List (ℕ × A)
  insert k a es = (k, a) ∷ delete k es

module _ {ℓ} {A : Type ℓ} where
  pub lookup-delete_self : (k : ℕ) (es : List (ℕ × A)) → lookup k (delete k es) ≡ none
  lookup-delete_self k [] = refl
  lookup-delete_self k (e ∷ es) = elim (Bool-cases (e.0 == k)) [
    | inl same ↦ rw same (lookup-delete_self k es)
    | inr other ↦ rw (other, other) (lookup-delete_self k es)
  ]

  pub lookup-delete_other :
      (k j : ℕ) (es : List (ℕ × A)) → j ≢ k → lookup j (delete k es) ≡ lookup j es
  lookup-delete_other k j [] ne = refl
  lookup-delete_other k j (e ∷ es) ne = elim (Bool-cases (e.0 == k)) [
    | inl same ↦ rw (same, apart e.0 same) (lookup-delete_other k j es ne)
    | inr other ↦ rw (other, lookup-delete_other k j es ne) refl
  ]
    where
      apart : (n : ℕ) → (n == k) ≡ true → (n == j) ≡ false
      apart n same = ground (arith, ne, same)

  pub lookup-insert_self : (k : ℕ) (a : A) (es : List (ℕ × A)) → lookup k (insert k a es) ≡ some a
  lookup-insert_self k a es = rw (same k) refl
    where
      same : (n : ℕ) → (n == n) ≡ true
      same n = ground arith

  pub lookup-insert_other :
      (k j : ℕ) (a : A) (es : List (ℕ × A)) → j ≢ k → lookup j (insert k a es) ≡ lookup j es
  lookup-insert_other k j a es ne = rw (other, lookup-delete_other k j es ne) refl
    where
      other : (k == j) ≡ false
      other = ground (arith, ne)
