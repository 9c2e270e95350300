-- ===== src/Sequencer/Tests.antt =====
-- Runs of sequencer.go, and the theorems at them.
use mini_sfu.Base.{ℕ, ◌≡◌, refl, true, some, List, [], ◌∷◌, map, length, replicate, set, arith}
use mini_sfu.Sequencer.{
  Sequencer, PacketMeta, no_meta, new_meta, new_sequencer, first_push, move_head, place, push,
  meta_slot, find_meta, find_metas, get_seq_no_pairs,
}
use mini_sfu.Sequencer.Held.{IsValid, Holds, Pushed, push_head-Pushed}
use mini_sfu.Sequencer.Lookup.{Answers, get_seq_no_pairs-Answers}

-- Numbers 7 and 8 after their originals 107 and 108, pushed at the time 1000.
abbrev two_sent : Sequencer
two_sent = record {
  init = true;
  seq = set (set (replicate 500 no_meta) 0 (new_meta 107 7 90 0)) 1 (new_meta 108 8 93 0);
  step = 2;
  head_sn = 8;
  start_time = 1000;
}

abbrev sources : List PacketMeta → List ℕ
sources ms = map (λ (m : PacketMeta). m.source_seq_no) ms

two_sent-pushed : (push (push (new_sequencer 1000) 107 7 90 0 true).0 108 8 93 0 true).0 ≡ two_sent
unfolding push new_sequencer first_push move_head place
two_sent-pushed = refl

finds_in_order : sources (get_seq_no_pairs two_sent 1500 (8 ∷ 6 ∷ 7 ∷ 8 ∷ [])).1 ≡ 108 ∷ 107 ∷ []
unfolding get_seq_no_pairs find_metas find_meta meta_slot
finds_in_order = refl

-- An entry that was never written answers a request for the number 0.
zero_found_in_new : length (get_seq_no_pairs (new_sequencer 0) 5 (0 ∷ [])).1 ≡ 1
unfolding new_sequencer get_seq_no_pairs find_metas find_meta meta_slot
zero_found_in_new = refl

two_sent-IsValid : IsValid two_sent
two_sent-IsValid = record { room = refl; step_in = omega arith; head_in = omega arith }

two_sent-Holds : Holds two_sent (new_meta 107 7 90 0)
unfolding meta_slot
two_sent-Holds = record { slot = 0; found = refl; inside = omega arith; entry = refl }

push_head-Pushed_example :
    (n' : Sequencer) × (pm : ℕ) × (push two_sent 112 12 99 1 true ≡ (n', some pm))
    × Pushed two_sent (new_meta 112 12 99 1) n'
push_head-Pushed_example =
    push_head-Pushed two_sent 112 12 99 1 two_sent-IsValid refl (omega arith) (omega arith)

get_seq_no_pairs-Answers_example :
    Answers 500 (8 ∷ 6 ∷ 7 ∷ []) (get_seq_no_pairs two_sent 1500 (8 ∷ 6 ∷ 7 ∷ [])).1
get_seq_no_pairs-Answers_example = get_seq_no_pairs-Answers two_sent 1500 (8 ∷ 6 ∷ 7 ∷ [])
