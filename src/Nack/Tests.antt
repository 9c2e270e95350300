-- ===== src/Nack/Tests.antt =====
-- nack.go on the inputs of nack_test.go, and the theorems at concrete queues.
use mini_sfu.Base.{ℕ, ◌≡◌, refl, List, [], ◌∷◌, map, bit_or, arith, ltb}
use mini_sfu.Nack.{
  NackQueue, no_nack, new_nack_queue, sort_search, insert_at, remove_at, advance, insert_sn, push,
  remove, note_nack, scan_nack, scan_nacks, pairs,
}
use mini_sfu.Nack.Order.{fresh, delete, push_refines, remove_refines}
use mini_sfu.Nack.Pairs.{requested, given_up, pairs_bookkeeping}
use mini_sfu.Nack.Coverage.{named, pairs-named}
use mini_sfu.Nack.Trace.{pushes, removes, asks, run, Inv, run-Inv}

-- `nackQueue{}`, as the tests of the source make it
abbrev empty : NackQueue
empty = record { nacks = []; counter = 0; max_sn = 0; kf_sn = 0; cycles = 0 }

abbrev push_all : NackQueue → List ℕ → NackQueue
push_all n [] = n
push_all n (sn ∷ sns) = push_all (push n sn) sns

abbrev numbers : NackQueue → List ℕ
numbers n = map (λ x. x.sn) n.nacks

push_keeps_order :
    numbers (push_all empty (3 ∷ 4 ∷ 1 ∷ 5 ∷ 8 ∷ 7 ∷ 5 ∷ [])) ≡ 1 ∷ 3 ∷ 4 ∷ 5 ∷ 7 ∷ 8 ∷ []
unfolding push insert_sn advance sort_search insert_at
push_keeps_order = refl

remove_five :
    numbers (remove (push_all empty (3 ∷ 4 ∷ 1 ∷ 5 ∷ 8 ∷ 7 ∷ 5 ∷ [])) 5) ≡ 1 ∷ 3 ∷ 4 ∷ 7 ∷ 8 ∷ []
unfolding push insert_sn advance sort_search insert_at remove remove_at
remove_five = refl

two_pairs :
    (pairs (push_all empty (1 ∷ 2 ∷ 4 ∷ 5 ∷ 20 ∷ 22 ∷ 24 ∷ 27 ∷ []))).1
    ≡ record { packet_id = 1; lost_packets = 13 }
      ∷ record { packet_id = 20; lost_packets = 74 }
      ∷ []
unfolding push insert_sn advance sort_search insert_at pairs scan_nacks scan_nack note_nack
two_pairs = refl

-- Over a wrap: the number 0 is named only in the mask of a pair that begins before it.
zero_alone : (pairs (record empty { nacks = fresh 65536 ∷ []; counter = 2 })).1 ≡ []
unfolding pairs scan_nacks scan_nack note_nack
zero_alone = refl

zero_in_mask :
    (pairs (record empty { nacks = fresh 65535 ∷ fresh 65536 ∷ []; counter = 2 })).1
    ≡ record { packet_id = 65535; lost_packets = 1 } ∷ []
unfolding pairs scan_nacks scan_nack note_nack
zero_in_mask = refl

-- The number 5 after the wrap is not above that of the pair, and its bit lies outside the mask.
lost_over_wrap :
    (pairs (record empty { nacks = fresh 65510 ∷ fresh 65541 ∷ []; counter = 2 })).1
    ≡ record { packet_id = 65510; lost_packets = 0 } ∷ []
unfolding pairs scan_nacks scan_nack note_nack
lost_over_wrap = refl

-- three numbers, of which the second was asked for three times
abbrev sample : NackQueue
sample = record {
  nacks = fresh 65540 ∷ record { sn = 65542; nacked = 3 } ∷ fresh 65560 ∷ [];
  counter = 2;
  max_sn = 24;
  kf_sn = 0;
  cycles = 65536;
}

push_refines_example : (push sample 6).nacks ≡ sample.nacks
unfolding advance
push_refines_example = push_refines sample 6 (omega arith)

remove_refines_example :
    remove sample 6 ≡ record sample { nacks = delete (bit_or 65536 6) sample.nacks }
remove_refines_example = remove_refines sample 6 (omega arith)

pairs_bookkeeping_example :
    let (n', nps, ask) = pairs sample in
    (n'.nacks ≡ requested sample.nacks)
    × (n'.kf_sn ≡ given_up 0 sample.nacks)
    × (ask ≡ ltb 0 (given_up 0 sample.nacks))
    × (n'.counter ≡ 0)
pairs_bookkeeping_example = pairs_bookkeeping sample (omega arith)

pairs-named_example :
    named (pairs (record sample { nacks = no_nack ∷ sample.nacks })).1 ≡ 4 ∷ 24 ∷ []
pairs-named_example =
    pairs-named (record sample { nacks = no_nack ∷ sample.nacks }) 1 (no_nack ∷ []) sample.nacks
      (omega arith) refl (omega arith) (omega arith)

run-Inv_example : Inv (run new_nack_queue (pushes 4 ∷ pushes 2 ∷ asks ∷ removes 4 ∷ []))
run-Inv_example = run-Inv (pushes 4 ∷ pushes 2 ∷ asks ∷ removes 4 ∷ [])
