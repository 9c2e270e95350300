-- ===== src/Nack/Order.antt =====
-- nack.go against sorted insertion and deletion: order, size, and what each call changes.
use mini_sfu.Base.{
  ℕ, ◌+◌, ◌-◌, ◌≤◌, ◌<◌, ◌≡◌, refl, Bool, true, false, ◌&&◌, ◌||◌, List, [], ◌∷◌, ltb, leb, ◌==◌,
  if◌then◌else◌, length, drop, All, bit_or, arith, inl, inr, Bool-cases,
}
use mini_sfu.Nack.{
  Nack, NackQueue, max_nack_cache, sn_at, insert_at, remove_at, advance, insert_sn, push, remove,
}
use mini_sfu.Nack.Search.{IsSorted, count_below, search_sn-eq-count_below}

abbrev pub fresh : ℕ → Nack
fresh x = record { sn = x; nacked = 0 }

abbrev pub has : ℕ → List Nack → Bool
has x [] = false
has x (y ∷ ys) = y.sn == x || has x ys

abbrev pub insert : ℕ → List Nack → List Nack
insert x [] = fresh x ∷ []
insert x (y ∷ ys) = if leb x y.sn then fresh x ∷ y ∷ ys else y ∷ insert x ys

abbrev pub delete : ℕ → List Nack → List Nack
delete x [] = []
delete x (y ∷ ys) = if y.sn == x then ys else y ∷ delete x ys

-- a queue that has grown past its limit loses its oldest entry
abbrev pub trim : List Nack → List Nack
trim xs = if ltb max_nack_cache (length xs) then drop 1 xs else xs

-- the extended number that `push` files `sn` under
abbrev pub extended : NackQueue → ℕ → ℕ
extended n sn = bit_or (advance n sn).cycles sn

pub nacks-advance : (n : NackQueue) (sn : ℕ) → (advance n sn).nacks ≡ n.nacks
unfolding advance
nacks-advance n sn = ground arith

has_above : (x b : ℕ) (xs : List Nack) → All (λ y. b ≤ y.sn) xs → x < b → has x xs ≡ false
has_above x b [] h lt = refl
has_above x b (y ∷ ys) h lt = ground (arith, has_above x b ys h.1 lt)

All-weaken : (b c : ℕ) (xs : List Nack) → c ≤ b → All (λ y. b ≤ y.sn) xs → All (λ y. c ≤ y.sn) xs
All-weaken b c [] h a = tt
All-weaken b c (y ∷ ys) h a = (omega arith, All-weaken b c ys h a.1)

-- The entry at the found index has the number sought exactly when some entry has.
found-has :
    (x : ℕ) (xs : List Nack)
    → IsSorted xs
    → (ltb (count_below x xs) (length xs) && sn_at xs (count_below x xs) == x) ≡ has x xs
found-has x [] s = refl
found-has x (y ∷ ys) s = elim (Bool-cases (leb x y.sn)) [
  | inl e ↦ ground (arith, has_above x y.sn ys s.0)
  | inr e ↦ ground (arith, found-has x ys s.1)
]

insert_at-insert :
    (x : ℕ) (xs : List Nack) → insert_at (count_below x xs) (fresh x) xs ≡ insert x xs
unfolding insert_at
insert_at-insert x [] = refl
insert_at-insert x (y ∷ ys) = ground (arith, insert_at-insert x ys)

remove_at-delete :
    (x : ℕ) (xs : List Nack)
    → IsSorted xs
    → has x xs ≡ true
    → remove_at (count_below x xs) xs ≡ delete x xs
unfolding remove_at
remove_at-delete x [] s h = refl
remove_at-delete x (y ∷ ys) s h = elim (Bool-cases (leb x y.sn)) [
  | inl e ↦ ground (arith, has_above x y.sn ys s.0)
  | inr e ↦ ground (arith, remove_at-delete x ys s.1)
]

delete_absent : (x : ℕ) (xs : List Nack) → has x xs ≡ false → delete x xs ≡ xs
delete_absent x [] h = refl
delete_absent x (y ∷ ys) h = ground (arith, delete_absent x ys)

insert_sn-nacks :
    (n : NackQueue) (x : ℕ)
    → IsSorted n.nacks
    → (insert_sn n x).nacks ≡ (if has x n.nacks then n.nacks else trim (insert x n.nacks))
unfolding insert_sn
insert_sn-nacks n x s =
    rw (search_sn-eq-count_below n.nacks x s)
      (ground (arith, found-has x n.nacks s, insert_at-insert x n.nacks))

-- On a sorted queue `push` files the extended number by sorted insertion unless it is there
-- already, and drops the oldest entry when more than a hundred would be held.
pub push_refines :
    (n : NackQueue) (sn : ℕ)
    → IsSorted n.nacks
    → (push n sn).nacks
      ≡ (if has (extended n sn) n.nacks then n.nacks else trim (insert (extended n sn) n.nacks))
unfolding push
push_refines n sn s =
    simp (nacks-advance n sn) at
      (insert_sn-nacks (advance n sn) (extended n sn) (rw (nacks-advance n sn) s))

-- On a sorted queue `remove` deletes the entry of the extended number, if there is one, and
-- changes nothing else.
pub remove_refines :
    (n : NackQueue) (sn : ℕ)
    → IsSorted n.nacks
    → remove n sn ≡ record n { nacks = delete (bit_or n.cycles sn) n.nacks }
unfolding remove
remove_refines n sn s =
    let x = bit_or n.cycles sn in
    rw (search_sn-eq-count_below n.nacks x s) (elim (Bool-cases (has x n.nacks)) [
      | inl e ↦ ground (arith, found-has x n.nacks s, remove_at-delete x n.nacks s e)
      | inr e ↦ ground (arith, found-has x n.nacks s, delete_absent x n.nacks e)
    ])

All-insert :
    (b x : ℕ) (xs : List Nack) → b ≤ x → All (λ y. b ≤ y.sn) xs → All (λ y. b ≤ y.sn) (insert x xs)
All-insert b x [] h a = (h, tt)
All-insert b x (y ∷ ys) h a = ground (arith, All-insert b x ys h a.1)

pub insert-IsSorted : (x : ℕ) (xs : List Nack) → IsSorted xs → IsSorted (insert x xs)
insert-IsSorted x [] s = (tt, tt)
insert-IsSorted x (y ∷ ys) s =
    ground (arith, All-insert y.sn x ys, All-weaken y.sn x ys, insert-IsSorted x ys s.1)

All-delete : (b x : ℕ) (xs : List Nack) → All (λ y. b ≤ y.sn) xs → All (λ y. b ≤ y.sn) (delete x xs)
All-delete b x [] a = tt
All-delete b x (y ∷ ys) a = ground (arith, All-delete b x ys a.1)

pub delete-IsSorted : (x : ℕ) (xs : List Nack) → IsSorted xs → IsSorted (delete x xs)
delete-IsSorted x [] s = tt
delete-IsSorted x (y ∷ ys) s = ground (arith, All-delete y.sn x ys s.0, delete-IsSorted x ys s.1)

pub trim-IsSorted : (xs : List Nack) → IsSorted xs → IsSorted (trim xs)
trim-IsSorted [] s = tt
trim-IsSorted (x ∷ xs) s = ground arith

pub length-insert : (x : ℕ) (xs : List Nack) → length (insert x xs) ≡ length xs + 1
length-insert x [] = refl
length-insert x (y ∷ ys) = ground (arith, length-insert x ys)

pub length-delete-le : (x : ℕ) (xs : List Nack) → length (delete x xs) ≤ length xs
length-delete-le x [] = omega arith
length-delete-le x (y ∷ ys) = ground (arith, length-delete-le x ys)

pub length-trim :
    (xs : List Nack)
    → length (trim xs) ≡ (if ltb max_nack_cache (length xs) then length xs - 1 else length xs)
length-trim [] = refl
length-trim (x ∷ xs) = ground arith
