-- ===== src/Sequencer/Held.antt =====
-- What `push` of sequencer.go keeps.
use mini_sfu.Base.{
  ℕ, zero, suc, ◌+◌, ◌-◌, ◌<◌, ◌≡◌, ◌≢◌, refl, subst, true, some, List, length, get_or, set,
  length-set, get_or-set_self, get_or-set_ne, sub16, arith,
}
use mini_sfu.Sequencer.{
  Sequencer, PacketMeta, max_packet_meta_history, no_meta, next_step, skip_steps, first_push,
  move_head, place, new_meta, push, meta_slot,
}

-- The ring has its 500 entries, and the counters lie in their ranges.
pub record IsValid (n : Sequencer) : Type 0 where
  pub room : length n.seq ≡ max_packet_meta_history
  pub step_in : n.step < max_packet_meta_history
  pub head_in : n.head_sn < 65536

-- How far behind the head an entry is found at every step: when the step is 0, the test of `pos`
-- refuses the oldest of the 500 entries.
abbrev pub reach : ℕ
reach = max_packet_meta_history - 1

-- A ring at `step` keeps `m` in the slot at distance `d` behind its newest entry.
pub record Kept (step : ℕ) (seq : List PacketMeta) (d : ℕ) (m : PacketMeta) : Type 0 where
  pub slot : ℕ
  pub found : meta_slot step d ≡ some slot
  pub inside : slot < max_packet_meta_history
  pub entry : get_or seq slot no_meta ≡ m

-- `n` holds `m`, under its target number.
abbrev pub Holds : Sequencer → PacketMeta → Type 0
Holds n m = Kept n.step n.seq (sub16 n.head_sn m.target_seq_no) m

meta_slot-next :
    (step d : ℕ)
    → step < max_packet_meta_history
    → d + 1 < reach
    → meta_slot (next_step step) (d + 1) ≡ meta_slot step d
unfolding meta_slot
meta_slot-next step d h lt = ground arith

meta_slot-ne :
    (step d slot : ℕ)
    → step < max_packet_meta_history
    → d + 1 < reach
    → meta_slot step d ≡ some slot
    → step ≢ slot
unfolding meta_slot
meta_slot-ne step d slot h lt e = ground arith

pub meta_slot_head :
    (step : ℕ) → step < max_packet_meta_history → meta_slot (next_step step) 0 ≡ some step
unfolding meta_slot
meta_slot_head step h = ground arith

Kept-next :
    (step : ℕ) (seq : List PacketMeta) (d : ℕ) (m : PacketMeta)
    → step < max_packet_meta_history
    → d + 1 < reach
    → Kept step seq d m
    → Kept (next_step step) seq (d + 1) m
Kept-next step seq d m h lt k = record {
  slot = k.slot;
  found = rw (meta_slot-next step d h lt) k.found;
  inside = k.inside;
  entry = k.entry;
}

skip_steps-lt :
    (rounds step : ℕ)
    → step < max_packet_meta_history
    → skip_steps rounds step < max_packet_meta_history
skip_steps-lt zero step h = h
skip_steps-lt (suc rounds) step h = skip_steps-lt rounds (next_step step) (ground arith)

Kept-skip :
    (rounds step : ℕ) (seq : List PacketMeta) (d : ℕ) (m : PacketMeta)
    → step < max_packet_meta_history
    → d + rounds < reach
    → Kept step seq d m
    → Kept (skip_steps rounds step) seq (d + rounds) m
Kept-skip zero step seq d m h lt k = subst (λ e. Kept step seq e m) (omega arith) k
Kept-skip (suc rounds) step seq d m h lt k =
    subst (λ e. Kept (skip_steps rounds (next_step step)) seq e m) (omega arith)
      (Kept-skip rounds (next_step step) seq (d + 1) m (ground arith) (omega arith)
        (Kept-next step seq d m h (omega arith) k))

-- A write at the step, and the step after it: the older entries lie one slot further back.
Kept-place :
    (step : ℕ) (seq : List PacketMeta) (d : ℕ) (m new : PacketMeta)
    → step < max_packet_meta_history
    → d + 1 < reach
    → Kept step seq d m
    → Kept (next_step step) (set seq step new) (d + 1) m
Kept-place step seq d m new h lt k = record {
  slot = k.slot;
  found = rw (meta_slot-next step d h lt) k.found;
  inside = k.inside;
  entry =
      rw (get_or-set_ne seq step k.slot new no_meta (meta_slot-ne step d k.slot h lt k.found))
        k.entry;
}

-- A head packet on a started valid sequencer: the ring stays valid with the packet's number as
-- its head, holds the packet's entry with no request noted, and still holds every entry whose
-- number lies fewer than 499 behind.
pub record Pushed (n : Sequencer) (m : PacketMeta) (n' : Sequencer) : Type 0 where
  pub valid : IsValid n'
  pub started : n'.init ≡ true
  pub head : n'.head_sn ≡ m.target_seq_no
  pub holds : Holds n' m
  pub keeps :
      (old : PacketMeta)
      → old.target_seq_no < 65536
      → sub16 n.head_sn old.target_seq_no + sub16 m.target_seq_no n.head_sn < reach
      → Holds n old
      → Holds n' old

module _ (n : Sequencer) (m : PacketMeta) (v : IsValid n) (h : m.target_seq_no < 65536)
    (new : m.target_seq_no ≢ n.head_sn) where
  -- the slot that is written
  abbrev at : ℕ
  at = skip_steps (sub16 m.target_seq_no n.head_sn - 1) n.step

  at-lt : at < max_packet_meta_history
  at-lt = skip_steps-lt (sub16 m.target_seq_no n.head_sn - 1) n.step v.step_in

  pub pushed : Sequencer
  pushed = record n { seq = set n.seq at m; step = next_step at; head_sn = m.target_seq_no }

  pushed-keeps :
      (old : PacketMeta)
      → old.target_seq_no < 65536
      → sub16 n.head_sn old.target_seq_no + sub16 m.target_seq_no n.head_sn < reach
      → Holds n old
      → Holds pushed old
  unfolding pushed
  pushed-keeps old oh near k =
      subst (λ d. Kept (next_step at) (set n.seq at m) d old) (omega arith)
        (Kept-place at n.seq _ old m at-lt (omega arith) (
          Kept-skip (sub16 m.target_seq_no n.head_sn - 1) n.step n.seq
            (sub16 n.head_sn old.target_seq_no) old v.step_in (omega arith) k))

  pushed-Pushed : n.init ≡ true → Pushed n m pushed
  unfolding pushed
  pushed-Pushed started = record {
    valid = record {
      room = rw (length-set n.seq at m) v.room;
      step_in = ground (arith, at-lt);
      head_in = h;
    };
    started = started;
    head = refl;
    holds = record {
      slot = at;
      found =
          subst (λ d. meta_slot (next_step at) d ≡ some at) (omega arith) (meta_slot_head at at-lt);
      inside = at-lt;
      entry = get_or-set_self n.seq at m no_meta (rw v.room at-lt);
    };
    keeps = pushed-keeps;
  }

pub first_push_started : (n : Sequencer) (sn : ℕ) → n.init ≡ true → first_push n sn ≡ n
unfolding first_push
first_push_started n sn e = rw e

-- A packet that is pushed as the head of a started valid sequencer, with a number other than that of the
-- head it has, is stored:
-- the ring stays valid with that number as its head, holds the entry of the packet with no request
-- noted, and still holds every entry whose number lies fewer than 499 behind.
pub push_head-Pushed :
    (n : Sequencer) (sn off_sn time_stamp layer : ℕ)
    → IsValid n
    → n.init ≡ true
    → off_sn < 65536
    → off_sn ≢ n.head_sn
    → (n' : Sequencer) × (pm : ℕ) × (push n sn off_sn time_stamp layer true ≡ (n', some pm))
      × Pushed n (new_meta sn off_sn time_stamp layer) n'
unfolding push move_head place pushed
push_head-Pushed n sn off_sn time_stamp layer v started h new = (
  pushed n (new_meta sn off_sn time_stamp layer) v h new,
  skip_steps (sub16 off_sn n.head_sn - 1) n.step,
  rw (first_push_started n off_sn started),
  pushed-Pushed n (new_meta sn off_sn time_stamp layer) v h new started,
)
