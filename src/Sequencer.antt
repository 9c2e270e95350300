-- ===== src/Sequencer.antt =====
-- internal/sfu/sequencer.go: the ring of what a down track sent, for retransmission.
pub mod Lookup
pub mod Held
mod Tests
use mini_sfu.Base.{
  ℕ, zero, suc, ◌+◌, ◌-◌, ◌%◌, Bool, true, false, ◌&&◌, ◌||◌, not, Option, none, some, List, [],
  ◌∷◌, ◌++◌, ltb, leb, ◌==◌, if◌then◌else◌, get_or, set, replicate, sub16, sub32,
}

abbrev pub max_packet_meta_history : ℕ
max_packet_meta_history = 500

abbrev pub ignore_retransmission : ℕ
ignore_retransmission = 100

-- `packetMeta`
pub record PacketMeta : Type 0 where
  pub source_seq_no : ℕ
  pub target_seq_no : ℕ
  pub timestamp : ℕ
  pub last_nack : ℕ
  pub layer : ℕ

-- `sequencer`, less its lock: every operation holds it from start to end.
pub record Sequencer : Type 0 where
  pub init : Bool
  pub seq : List PacketMeta
  pub step : ℕ
  pub head_sn : ℕ
  pub start_time : ℕ

abbrev pub no_meta : PacketMeta
no_meta = record { source_seq_no = 0; target_seq_no = 0; timestamp = 0; last_nack = 0; layer = 0 }

-- `newSequencer`, called at `now` milliseconds
pub new_sequencer : ℕ → Sequencer
new_sequencer now = record {
  init = false;
  seq = replicate max_packet_meta_history no_meta;
  step = 0;
  head_sn = 0;
  start_time = now;
}

-- `n.step++`, and back to 0 at the end
abbrev pub next_step : ℕ → ℕ
next_step step = if leb max_packet_meta_history (step + 1) then 0 else step + 1

-- the loop over the numbers between two heads, by the rounds left
abbrev pub skip_steps : ℕ → ℕ → ℕ
skip_steps zero step = step
skip_steps (suc rounds) step = skip_steps rounds (next_step step)

-- the branch on `n.init`
pub first_push : Sequencer → ℕ → Sequencer
first_push n off_sn = if n.init then n else record n { head_sn = off_sn; init = true }

-- the branch of a packet at the head; the rounds of its loop are `inc - 1`, and none for 0
pub move_head : Sequencer → ℕ → Sequencer
move_head n off_sn = record n {
  step = skip_steps (sub16 off_sn n.head_sn - 1) n.step;
  head_sn = off_sn;
}

-- the test of the other branch: `pos` is negative, and by `max_packet_meta_history` or more
abbrev pub is_too_old : Sequencer → ℕ → Bool
is_too_old n off_sn =
    ltb n.step (sub16 n.head_sn off_sn)
    && leb max_packet_meta_history (sub16 n.head_sn off_sn - n.step)

-- The write at `n.step`, and the step after it. The pointer that is returned is an index of `seq`.
pub place : Sequencer → PacketMeta → Sequencer × Option ℕ
place n meta = (record n { seq = set n.seq n.step meta; step = next_step n.step }, some n.step)

-- the `packetMeta` literal of `push`
abbrev pub new_meta : ℕ → ℕ → ℕ → ℕ → PacketMeta
new_meta sn off_sn time_stamp layer = record {
  source_seq_no = sn;
  target_seq_no = off_sn;
  timestamp = time_stamp;
  last_nack = 0;
  layer = layer;
}

pub push : Sequencer → ℕ → ℕ → ℕ → ℕ → Bool → Sequencer × Option ℕ
push n sn off_sn time_stamp layer head =
    let started = first_push n off_sn in
    let meta = new_meta sn off_sn time_stamp layer in
    if head
    then place (move_head started off_sn) meta
    else if is_too_old started off_sn
    then (started, none)
    else place started meta

-- `uint32(now - n.startTime)`, in milliseconds; the difference is an int64
abbrev pub ref_time : Sequencer → ℕ → ℕ
ref_time n now = (now + 18446744073709551616 - n.start_time) % 4294967296

-- the position `step - d - 1`, moved up by the length of the ring if it is negative
pub meta_slot : ℕ → ℕ → Option ℕ
meta_slot step d =
    if leb (d + 1) step
    then some (step - d - 1)
    else if leb max_packet_meta_history (d + 1 - step)
    then none
    else some (max_packet_meta_history - (d + 1 - step))

-- the test before an entry is returned once more
abbrev pub is_due : PacketMeta → ℕ → Bool
is_due m now = m.last_nack == 0 || ltb ignore_retransmission (sub32 now m.last_nack)

-- the body of the loop of `getSeqNoPairs`
pub find_meta : Sequencer → ℕ → ℕ → Sequencer × List PacketMeta
find_meta n now sn = elim (meta_slot n.step (sub16 n.head_sn sn)) [
  | none ↦ (n, [])
  | some pos ↦
      let m = get_or n.seq pos no_meta in
      if m.target_seq_no == sn && is_due m now
      then (
        record n { seq = set n.seq pos (record m { last_nack = now }) },
        record m { last_nack = now } ∷ [],
      )
      else (n, [])
]

pub find_metas : Sequencer → ℕ → List ℕ → Sequencer × List PacketMeta
find_metas n now [] = (n, [])
find_metas n now (sn ∷ sns) =
    let (n', found) = find_meta n now sn in
    let (n'', rest) = find_metas n' now sns in (n'', found ++ rest)

pub get_seq_no_pairs : Sequencer → ℕ → List ℕ → Sequencer × List PacketMeta
get_seq_no_pairs n now seq_no = find_metas n (ref_time n now) seq_no
