-- ===== src/Receiver/SwapRemove.antt =====
-- The removal of receiver.go and subscriber.go that moves the last element into the gap.
use mini_sfu.Base.{
  ℕ, zero, suc, ◌≤◌, ◌<◌, ◌≡◌, refl, sym, ap, subst, List, [], ◌∷◌, ◌++◌, get_or, set, length,
  length-append, arith,
}
use mathlib.Core.List.{Perm, perm_append_singleton}
use mathlib.Core.List.Perm
use mini_sfu.Receiver.{last_or, drop_last, swap_remove}

module _ {ℓ} {A : Type ℓ} where
  -- A list that is not empty is what stands before its last element, and that.
  snoc_view : (x : A) (xs : List A) → (ys : List A) × (z : A) × (x ∷ xs ≡ ys ++ (z ∷ []))
  snoc_view x [] = ([], x, refl)
  snoc_view x (y ∷ xs) = let (ys, z, e) = snoc_view y xs in (x ∷ ys, z, ap (λ l. x ∷ l) e)

  last_or-snoc : (ys : List A) (z d : A) → last_or (ys ++ (z ∷ [])) d ≡ z
  last_or-snoc [] z d = refl
  last_or-snoc (y ∷ ys) z d = last_or-snoc ys z y

  drop_last-snoc : (ys : List A) (z : A) → drop_last (ys ++ (z ∷ [])) ≡ ys
  drop_last-snoc [] z = refl
  drop_last-snoc (y ∷ []) z = refl
  drop_last-snoc (y ∷ y' ∷ ys) z = ap (λ l. y ∷ l) (drop_last-snoc (y' ∷ ys) z)

  set-snoc :
      (ys : List A) (z : A) (i : ℕ)
      → i ≤ length ys
      → set (ys ++ (z ∷ [])) i z ≡ set ys i z ++ (z ∷ [])
  set-snoc [] z zero h = refl
  set-snoc [] z (suc i) h = absurd (omega arith)
  set-snoc (y ∷ ys) z zero h = refl
  set-snoc (y ∷ ys) z (suc i) h = ap (λ l. y ∷ l) (set-snoc ys z i (omega arith))

  snoc-Perm :
      (ys : List A) (z d : A) (i : ℕ)
      → i ≤ length ys
      → Perm (ys ++ (z ∷ [])) (get_or (ys ++ (z ∷ [])) i d ∷ set ys i z)
  snoc-Perm [] z d zero h = Perm.rfl
  snoc-Perm [] z d (suc i) h = absurd (omega arith)
  snoc-Perm (y ∷ ys) z d zero h = Perm.cons y (perm_append_singleton z ys)
  snoc-Perm (y ∷ ys) z d (suc i) h =
      Perm.trans (Perm.cons y (snoc-Perm ys z d i (omega arith)))
        (Perm.swap (get_or (ys ++ (z ∷ [])) i d) y (set ys i z))

  swap_remove-snoc :
      (ys : List A) (z d : A) (i : ℕ)
      → i ≤ length ys
      → Perm (ys ++ (z ∷ [])) (get_or (ys ++ (z ∷ [])) i d ∷ swap_remove i (ys ++ (z ∷ [])) d)
  unfolding swap_remove
  swap_remove-snoc ys z d i h =
      rw (last_or-snoc ys z d, set-snoc ys z i h, drop_last-snoc (set ys i z) z)
        (snoc-Perm ys z d i h)

  -- The removed element and what is left are the list, in some order.
  pub swap_remove-Perm :
      (xs : List A) (i : ℕ) (d : A) → i < length xs → Perm xs (get_or xs i d ∷ swap_remove i xs d)
  swap_remove-Perm [] i d h = absurd (omega arith)
  swap_remove-Perm (x ∷ xs) i d h =
      let (ys, z, e) = snoc_view x xs in
      subst (λ l. Perm l (get_or l i d ∷ swap_remove i l d)) (sym e)
        (swap_remove-snoc ys z d i
          (omega (arith, ap (length {A = A}) e, length-append ys (z ∷ []))))
