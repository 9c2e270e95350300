-- ===== src/Nack/Trace.antt =====
-- What holds of a NACK queue after any calls, and where its numbering goes wrong.
use mini_sfu.Base.{
  ℕ, ◌*◌, ◌≤◌, ◌<◌, ◌≡◌, List, [], ◌∷◌, length, All, bit_or, sub16, arith, inl, inr, lt_or_le, ◌≢◌,
  Bool-cases,
}
use mini_sfu.Base.Bits.{bit_or_fields}
use mini_sfu.Nack.{Nack, NackQueue, max_nack_times, new_nack_queue, push, remove, advance, pairs}
use mini_sfu.Nack.Search.{IsSorted}
use mini_sfu.Nack.Order.{
  has, insert, delete, trim, extended, push_refines, remove_refines, insert-IsSorted,
  delete-IsSorted, trim-IsSorted, length-insert, length-delete-le, length-trim,
}
use mini_sfu.Nack.Pairs.{requested, pairs_bookkeeping}

-- the calls that bucket.go makes
pub data Call : Type 0 where
  pushes removes : ℕ → Call
  asks : Call

pub step : NackQueue → Call → NackQueue
step n (pushes sn) = push n sn
step n (removes sn) = remove n sn
step n asks = (pairs n).0

pub run : NackQueue → List Call → NackQueue
run n [] = n
run n (c ∷ cs) = run (step n c) cs

abbrev Asked3 : List Nack → Type 0
Asked3 = All (λ x. x.nacked ≤ max_nack_times)

pub record Inv (n : NackQueue) : Type 0 where
  pub sorted : IsSorted n.nacks
  pub bounded : length n.nacks ≤ 101
  pub asked : All (λ x. x.nacked ≤ max_nack_times) n.nacks

Asked3-insert : (x : ℕ) (xs : List Nack) → Asked3 xs → Asked3 (insert x xs)
Asked3-insert x [] a = (omega arith, tt)
Asked3-insert x (y ∷ ys) a = ground (arith, Asked3-insert x ys a.1)

Asked3-delete : (x : ℕ) (xs : List Nack) → Asked3 xs → Asked3 (delete x xs)
Asked3-delete x [] a = tt
Asked3-delete x (y ∷ ys) a = ground (arith, Asked3-delete x ys a.1)

Asked3-trim : (xs : List Nack) → Asked3 xs → Asked3 (trim xs)
Asked3-trim [] a = tt
Asked3-trim (x ∷ xs) a = ground arith

Asked3-requested : (xs : List Nack) → Asked3 (requested xs)
Asked3-requested [] = tt
Asked3-requested (x ∷ xs) = ground (arith, Asked3-requested xs)

length-requested-le : (xs : List Nack) → length (requested xs) ≤ length xs
length-requested-le [] = omega arith
length-requested-le (x ∷ xs) = ground (arith, length-requested-le xs)

All-requested :
    (b : ℕ) (xs : List Nack) → All (λ y. b ≤ y.sn) xs → All (λ y. b ≤ y.sn) (requested xs)
All-requested b [] a = tt
All-requested b (x ∷ xs) a = ground (arith, All-requested b xs a.1)

requested-IsSorted : (xs : List Nack) → IsSorted xs → IsSorted (requested xs)
requested-IsSorted [] s = tt
requested-IsSorted (x ∷ xs) s = ground (arith, All-requested x.sn xs s.0, requested-IsSorted xs s.1)

push-Inv : (n : NackQueue) (sn : ℕ) → Inv n → Inv (push n sn)
push-Inv n sn v = elim (Bool-cases (has x n.nacks)) [
  | inl old ↦
      let e : (push n sn).nacks ≡ n.nacks = rw (push_refines n sn v.sorted, old) in
      record { sorted = rw e v.sorted; bounded = rw e v.bounded; asked = rw e v.asked }
  | inr new ↦
      let e : (push n sn).nacks ≡ trim (insert x n.nacks) = rw (push_refines n sn v.sorted, new) in
      record {
        sorted = rw e (trim-IsSorted _ (insert-IsSorted x n.nacks v.sorted));
        bounded =
            rw e
              (ground (arith, v.bounded, length-trim (insert x n.nacks), length-insert x n.nacks));
        asked = rw e (Asked3-trim _ (Asked3-insert x n.nacks v.asked));
      }
]
  where
    x : ℕ
    x = extended n sn

remove-Inv : (n : NackQueue) (sn : ℕ) → Inv n → Inv (remove n sn)
remove-Inv n sn v = rw (remove_refines n sn v.sorted) (record {
  sorted = delete-IsSorted x n.nacks v.sorted;
  bounded = omega (arith, v.bounded, length-delete-le x n.nacks);
  asked = Asked3-delete x n.nacks v.asked;
})
  where
    x : ℕ
    x = bit_or n.cycles sn

pairs_early : (n : NackQueue) → n.counter < 2 → (pairs n).0.nacks ≡ n.nacks
unfolding pairs
pairs_early n h = ground arith

pairs-Inv : (n : NackQueue) → Inv n → Inv (pairs n).0
pairs-Inv n v = elim (lt_or_le n.counter 2) [
  | inl h ↦
      let e = pairs_early n h in
      record { sorted = rw e v.sorted; bounded = rw e v.bounded; asked = rw e v.asked }
  | inr h ↦
      let e = (pairs_bookkeeping n h).0 in
      record {
        sorted = rw e (requested-IsSorted n.nacks v.sorted);
        bounded = rw e (omega (arith, v.bounded, length-requested-le n.nacks));
        asked = rw e (Asked3-requested n.nacks);
      }
]

step-Inv : (n : NackQueue) (c : Call) → Inv n → Inv (step n c)
unfolding step
step-Inv n (pushes sn) v = push-Inv n sn v
step-Inv n (removes sn) v = remove-Inv n sn v
step-Inv n asks v = pairs-Inv n v

new_nack_queue-Inv : Inv new_nack_queue
unfolding new_nack_queue
new_nack_queue-Inv = record { sorted = ground arith; bounded = omega arith; asked = ground arith }

run_from-Inv : (n : NackQueue) (cs : List Call) → Inv n → Inv (run n cs)
unfolding run
run_from-Inv n [] v = v
run_from-Inv n (c ∷ cs) v = run_from-Inv (step n c) cs (step-Inv n c v)

-- After any calls, a queue made by `newNACKQueue` is sorted by number, holds 101 entries at most,
-- and has asked for none of them more than three times.
pub run-Inv : (cs : List Call) → Inv (run new_nack_queue cs)
run-Inv cs = run_from-Inv new_nack_queue cs new_nack_queue-Inv

-- A number from before the wrap that is pushed after it is filed above the newest number: if
-- `cycles` is a multiple of 65536, and `sn` lies behind `max_sn` by the 16-bit order but is the
-- greater number, then its extended number exceeds that of `max_sn`.
pub late-extended :
    (n : NackQueue) (c sn : ℕ)
    → n.cycles ≡ c * 65536
    → sn < 65536
    → n.max_sn < sn
    → n.max_sn ≢ 0
    → 32768 ≤ sub16 sn n.max_sn
    → bit_or n.cycles n.max_sn < extended n sn
unfolding advance
late-extended n c sn e hi gt pos late =
    ground (arith, bit_or_fields 16 c sn hi, bit_or_fields 16 c n.max_sn (omega arith))
