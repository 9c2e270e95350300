-- ===== src/Sequencer/Lookup.antt =====
-- What `getSeqNoPairs` of sequencer.go answers.
use mini_sfu.Base.{
  ℕ, ◌≤◌, ◌<◌, ◌≡◌, ◌≢◌, refl, Bool-cases, true, false, some, Option-cases, List, [], ◌∷◌, ◌++◌,
  get_or, set, get_or-set_self, sub16, sub32, ◌==◌, ◌&&◌, ◌⊎◌, inl, inr, arith,
}
use mini_sfu.Sequencer.{
  Sequencer, PacketMeta, max_packet_meta_history, ignore_retransmission, no_meta, next_step, place,
  new_meta, push, meta_slot, is_due, find_meta, find_metas, get_seq_no_pairs, ref_time, is_too_old,
}
use mini_sfu.Sequencer.Held.{IsValid, Holds, meta_slot_head, first_push_started}

-- the entry with its request noted
abbrev pub noted : PacketMeta → ℕ → PacketMeta
noted m now = record m { last_nack = now }

find_meta-Kept :
    (n : Sequencer) (now : ℕ) (m : PacketMeta) (k : Holds n m)
    → is_due m now ≡ true
    → find_meta n now m.target_seq_no
      ≡ (record n { seq = set n.seq k.slot (noted m now) }, noted m now ∷ [])
unfolding find_meta
find_meta-Kept n now m k due = rw (k.found, find_meta, k.entry) (ground (arith, due))

find_meta-suppressed :
    (n : Sequencer) (now : ℕ) (m : PacketMeta)
    → Holds n m
    → is_due m now ≡ false
    → find_meta n now m.target_seq_no ≡ (n, [])
unfolding find_meta
find_meta-suppressed n now m k due = rw (k.found, find_meta, k.entry) (ground (arith, due))

noted-Holds :
    (n : Sequencer) (now : ℕ) (m : PacketMeta) (k : Holds n m)
    → IsValid n
    → Holds (record n { seq = set n.seq k.slot (noted m now) }) (noted m now)
noted-Holds n now m k v = record {
  slot = k.slot;
  found = k.found;
  inside = k.inside;
  entry = get_or-set_self n.seq k.slot (noted m now) no_meta (rw v.room k.inside);
}

-- A request for the number of a held entry that is due, one never requested or requested more than
-- 100 ms ago, is answered with that entry, its request noted; the ring then holds the noted entry.
-- A second request for it, at most 100 ms later, is answered with nothing and changes nothing, if
-- the first was not at the reference time 0.
pub request_once :
    (n : Sequencer) (now now' : ℕ) (m : PacketMeta)
    → IsValid n
    → Holds n m
    → is_due m (ref_time n now) ≡ true
    → ref_time n now ≢ 0
    → sub32 (ref_time n now') (ref_time n now) ≤ ignore_retransmission
    → (n' : Sequencer) × (get_seq_no_pairs n now (m.target_seq_no ∷ [])
        ≡ (n', noted m (ref_time n now) ∷ []))
      × Holds n' (noted m (ref_time n now))
      × (get_seq_no_pairs n' now' (m.target_seq_no ∷ []) ≡ (n', []))
unfolding get_seq_no_pairs find_metas
request_once n now now' m v k due later soon = (
  record n { seq = set n.seq k.slot (noted m (ref_time n now)) },
  rw (find_meta-Kept n (ref_time n now) m k due) refl,
  noted-Holds n (ref_time n now) m k v,
  rw
      (find_meta-suppressed (record n { seq = set n.seq k.slot (noted m (ref_time n now)) })
        (ref_time n now') (noted m (ref_time n now)) (noted-Holds n (ref_time n now) m k v)
        (ground (arith, later, soon)))
      refl,
)

-- The answers stand for some of the requests, in their order: each is an entry of its request's
-- number, with the request noted at `now`.
pub data Answers (now : ℕ) : List ℕ → List PacketMeta → Type 0 where
  done : Answers now [] []
  passed :
      (sn : ℕ) (sns : List ℕ) (ms : List PacketMeta)
      → Answers now sns ms
      → Answers now (sn ∷ sns) ms
  answered :
      (sn : ℕ) (m : PacketMeta) (sns : List ℕ) (ms : List PacketMeta)
      → m.target_seq_no ≡ sn
      → m.last_nack ≡ now
      → Answers now sns ms
      → Answers now (sn ∷ sns) (m ∷ ms)

-- What one request comes to.
find_meta-cases :
    (n : Sequencer) (now sn : ℕ)
    → (find_meta n now sn ≡ (n, []))
      ⊎ ((n' : Sequencer) × (m : PacketMeta) × (find_meta n now sn ≡ (n', m ∷ []))
          × (m.target_seq_no ≡ sn)
          × (m.last_nack ≡ now))
unfolding find_meta
find_meta-cases n now sn = elim (Option-cases (meta_slot n.step (sub16 n.head_sn sn))) [
  | inl e ↦ inl (rw (e, find_meta) refl)
  | inr (pos, e) ↦
      let m = get_or n.seq pos no_meta in
      elim (Bool-cases (m.target_seq_no == sn && is_due m now)) [
        | inl t ↦ inr (
          record n { seq = set n.seq pos (noted m now) },
          noted m now,
          rw (e, find_meta, t) refl,
          ground (arith, t),
          refl,
        )
        | inr t ↦ inl (rw (e, find_meta, t) refl)
      ]
]

found-Answers :
    (n : Sequencer) (now sn : ℕ) (sns : List ℕ) (ms : List PacketMeta)
    → Answers now sns ms
    → Answers now (sn ∷ sns) ((find_meta n now sn).1 ++ ms)
found-Answers n now sn sns ms rest = elim (find_meta-cases n now sn) [
  | inl e ↦ rw e (passed sn sns ms rest)
  | inr (n', m, e, target, nacked) ↦ rw e (answered sn m sns ms target nacked rest)
]

find_metas-Answers :
    (sns : List ℕ) (n : Sequencer) (now : ℕ) → Answers now sns (find_metas n now sns).1
unfolding find_metas
find_metas-Answers [] n now = done
find_metas-Answers (sn ∷ sns) n now =
    found-Answers n now sn sns _ (find_metas-Answers sns (find_meta n now sn).0 now)

-- Whatever the ring holds, every entry that `getSeqNoPairs` returns has the number of a request of
-- its own, in the order of the requests, and carries the reference time of the call as its last
-- request.
pub get_seq_no_pairs-Answers :
    (n : Sequencer) (now : ℕ) (sns : List ℕ)
    → Answers (ref_time n now) sns (get_seq_no_pairs n now sns).1
unfolding get_seq_no_pairs
get_seq_no_pairs-Answers n now sns = find_metas-Answers sns n (ref_time n now)

-- With another number's entry written at the step, the number of the head is not found.
head_missed :
    (n : Sequencer) (now step : ℕ) (m : PacketMeta)
    → IsValid n
    → step < max_packet_meta_history
    → m.target_seq_no ≢ n.head_sn
    → find_meta (record n { seq = set n.seq step m; step = next_step step }) now n.head_sn
      ≡ (record n { seq = set n.seq step m; step = next_step step }, [])
unfolding find_meta
head_missed n now step m v lt other = rw (slot, find_meta, entry) (ground (arith, other))
  where
    slot : meta_slot (next_step step) (sub16 n.head_sn n.head_sn) ≡ some step
    slot = rw here (meta_slot_head step lt)
      where
        here : sub16 n.head_sn n.head_sn ≡ 0
        here = omega (arith, v.head_in)

    entry : get_or (set n.seq step m) step no_meta ≡ m
    entry = get_or-set_self n.seq step m no_meta (rw v.room lt)

-- A packet that is pushed late, with a number other than the head's and not refused as too old, is
-- written where the next head belongs: `getSeqNoPairs` then answers no request for the newest
-- number, whatever the ring held before.
pub late_push_hides_head :
    (n : Sequencer) (sn off_sn time_stamp layer now : ℕ)
    → IsValid n
    → n.init ≡ true
    → off_sn ≢ n.head_sn
    → is_too_old n off_sn ≡ false
    → (n' : Sequencer) × (push n sn off_sn time_stamp layer false ≡ (n', some n.step))
      × (get_seq_no_pairs n' now (n.head_sn ∷ []) ≡ (n', []))
unfolding push place get_seq_no_pairs find_metas
late_push_hides_head n sn off_sn time_stamp layer now v started other young = (
  record n {
    seq = set n.seq n.step (new_meta sn off_sn time_stamp layer);
    step = next_step n.step;
  },
  rw (first_push_started n off_sn started, young) refl,
  rw (head_missed n (ref_time n now) n.step (new_meta sn off_sn time_stamp layer) v v.step_in other)
      refl,
)
