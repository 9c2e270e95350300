-- ===== src/Nack/Search.antt =====
-- The binary search of nack.go finds the entry that a scan from the front would find.
use mini_sfu.Base.{
  ℕ, zero, suc, ◌+◌, ◌/◌, ◌≤◌, ◌<◌, ◌≡◌, sym, subst, Bool, true, false, List, [], ◌∷◌, leb,
  if◌then◌else◌, length, All, arith, inl, inr, Bool-cases, leb→le, leb_false→lt, lt_or_le,
}
use mini_sfu.Nack.{Nack, sn_at, sort_search, search_sn}

-- The numbers of the entries never fall.
abbrev pub IsSorted : List Nack → Type 0
IsSorted [] = Unit {0}
IsSorted (x ∷ xs) = All (λ y. x.sn ≤ y.sn) xs × IsSorted xs

-- how many leading entries lie below `x`
abbrev pub count_below : ℕ → List Nack → ℕ
count_below x [] = 0
count_below x (y ∷ ys) = if leb x y.sn then 0 else suc (count_below x ys)

All-sn_at :
    (b : ℕ) (xs : List Nack) (i : ℕ) → All (λ y. b ≤ y.sn) xs → i < length xs → b ≤ sn_at xs i
All-sn_at b [] i h lt = absurd (omega arith)
All-sn_at b (x ∷ xs) zero h lt = h.0
All-sn_at b (x ∷ xs) (suc i) h lt = All-sn_at b xs i h.1 (omega arith)

pub sn_at_mono :
    (xs : List Nack) (i j : ℕ) → IsSorted xs → i ≤ j → j < length xs → sn_at xs i ≤ sn_at xs j
sn_at_mono [] i j s le lt = absurd (omega arith)
sn_at_mono (x ∷ xs) zero zero s le lt = omega arith
sn_at_mono (x ∷ xs) zero (suc j) s le lt = All-sn_at x.sn xs j s.0 (omega arith)
sn_at_mono (x ∷ xs) (suc i) zero s le lt = absurd (omega arith)
sn_at_mono (x ∷ xs) (suc i) (suc j) s le lt = sn_at_mono xs i j s.1 (omega arith) (omega arith)

-- what an index that splits the list at `x` satisfies
pub record Splits (x : ℕ) (xs : List Nack) (k : ℕ) : Type 0 where
  pub before : (i : ℕ) → i < k → sn_at xs i < x
  pub after : k < length xs → x ≤ sn_at xs k
  pub within : k ≤ length xs

-- One round of the search, by what it finds.
module _ (fuel : ℕ) (f : ℕ → Bool) (i j : ℕ) where
  sort_search_done : j ≤ i → sort_search (suc fuel) f i j ≡ i
  unfolding sort_search
  sort_search_done h = ground arith

  sort_search_left :
      i < j
      → f ((i + j) / 2) ≡ true
      → sort_search (suc fuel) f i j ≡ sort_search fuel f i ((i + j) / 2)
  unfolding sort_search
  sort_search_left h e = ground arith

  sort_search_right :
      i < j
      → f ((i + j) / 2) ≡ false
      → sort_search (suc fuel) f i j ≡ sort_search fuel f ((i + j) / 2 + 1) j
  unfolding sort_search
  sort_search_right h e = ground arith

Splits-closed :
    (x : ℕ) (xs : List Nack) (i j : ℕ)
    → i ≡ j
    → j ≤ length xs
    → ((k : ℕ) → k < i → sn_at xs k < x)
    → (j < length xs → x ≤ sn_at xs j)
    → Splits x xs i
Splits-closed x xs i j e jn lo hi = record {
  before = lo;
  after = λ h. subst (λ k. x ≤ sn_at xs k) (sym e) (hi (omega arith));
  within = omega arith;
}

-- the search narrows [i, j) and keeps everything before `i` below `x`, everything from `j` on not
sort_search-Splits :
    (x : ℕ) (xs : List Nack)
    → IsSorted xs
    → (fuel i j : ℕ) → i ≤ j
    → j ≤ length xs
    → j ≤ fuel + i
    → ((k : ℕ) → k < i → sn_at xs k < x)
    → (j < length xs → x ≤ sn_at xs j)
    → Splits x xs (sort_search fuel (λ k. leb x (sn_at xs k)) i j)
unfolding sort_search
sort_search-Splits x xs s zero i j ij jn enough lo hi =
    Splits-closed x xs i j (omega arith) jn lo hi
sort_search-Splits x xs s (suc fuel) i j ij jn enough lo hi = elim (lt_or_le i j) [
  | inr le ↦ rw (sort_search_done fuel _ i j le) (Splits-closed x xs i j (omega arith) jn lo hi)
  | inl lt ↦ elim (Bool-cases (leb x (sn_at xs ((i + j) / 2)))) [
    | inl up ↦ rw (sort_search_left fuel _ i j lt up) (
        sort_search-Splits x xs s fuel i ((i + j) / 2) (omega arith) (omega arith) (omega arith) lo
          (λ h. leb→le _ _ up))
    | inr down ↦ rw (sort_search_right fuel _ i j lt down) (
        sort_search-Splits x xs s fuel ((i + j) / 2 + 1) j (omega arith) jn (omega arith)
          (λ k h. omega (
            arith,
            leb_false→lt _ _ down,
            sn_at_mono xs k ((i + j) / 2) s (omega arith) (omega arith),
          ))
          hi)
  ]
]

count_below-before : (x : ℕ) (xs : List Nack) (i : ℕ) → i < count_below x xs → sn_at xs i < x
count_below-before x [] i h = absurd (omega arith)
count_below-before x (y ∷ ys) zero h = ground arith
count_below-before x (y ∷ ys) (suc i) h = count_below-before x ys i (ground arith)

count_below-after :
    (x : ℕ) (xs : List Nack) → count_below x xs < length xs → x ≤ sn_at xs (count_below x xs)
count_below-after x [] h = absurd (omega arith)
count_below-after x (y ∷ ys) h = elim (Bool-cases (leb x y.sn)) [
  | inl e ↦ rw e (leb→le _ _ e)
  | inr e ↦ rw e (count_below-after x ys (ground arith))
]

pub count_below-le : (x : ℕ) (xs : List Nack) → count_below x xs ≤ length xs
count_below-le x [] = omega arith
count_below-le x (y ∷ ys) = ground (arith, count_below-le x ys)

-- There is one such index only.
Splits-eq-count_below : (x : ℕ) (xs : List Nack) (k : ℕ) → Splits x xs k → k ≡ count_below x xs
Splits-eq-count_below x xs k s = elim (lt_or_le k (count_below x xs)) [
  | inl lt ↦ absurd (
      omega (
        arith,
        count_below-before x xs k lt,
        count_below-le x xs,
        s.after (omega (arith, count_below-le x xs)),
      ))
  | inr le ↦ elim (lt_or_le (count_below x xs) k) [
    | inl lt ↦ absurd (
        omega (
          arith,
          s.before (count_below x xs) lt,
          s.within,
          count_below-after x xs (omega (arith, s.within)),
        ))
    | inr ge ↦ omega arith
  ]
]

-- On a sorted queue the binary search returns the number of entries below the one sought.
pub search_sn-eq-count_below :
    (xs : List Nack) (x : ℕ) → IsSorted xs → search_sn xs x ≡ count_below x xs
search_sn-eq-count_below xs x s = Splits-eq-count_below x xs _ (
    sort_search-Splits x xs s (length xs) 0 (length xs) (omega arith) (omega arith) (omega arith)
      (λ k h. absurd (omega arith)) (λ h. absurd (omega arith)))
