-- ===== src/Bucket.antt =====
-- internal/buffer/bucket.go: the ring of packet slots behind retransmission.
pub mod Slots
pub mod Retention
pub mod Stream
pub mod Late
mod Tests
use mathlib.Core.Option
use mini_sfu.Base.{
  ℕ, zero, suc, ◌+◌, ◌-◌, ◌*◌, ◌/◌, ◌≤◌, Bool, true, false, Option, none, some, List, [], ◌∷◌, ltb,
  leb, ◌==◌, not, ◌||◌, if◌then◌else◌, length, u16, sub16,
}
use mini_sfu.Base.Bytes.{Memory, write, put16, get16, slice}
use mini_sfu.Nack
use mini_sfu.Nack.{NackQueue, NackPair, new_nack_queue}

abbrev pub max_pkt_size : ℕ
max_pkt_size = 1460

-- `Bucket`: `buf` is a slice of length and capacity `size`. Go's `int` fields stay far below 2 ^ 63.
pub record Bucket : Type 0 where
  pub size : ℕ
  pub buf : Memory
  pub nacker : Option NackQueue
  pub head_sn : ℕ
  pub step : ℕ
  pub max_steps : ℕ
  pub init : Bool

-- `NewBucket`. The pools of factory.go hand out 36500 and 2097152 bytes; a slice shorter than
-- one slot, for which the source's `maxSteps` is -1, is left out by the premise.
pub new_bucket : (size : ℕ) → Memory → Bool → max_pkt_size ≤ size → Bucket
new_bucket size buf nack long = record {
  size = size;
  buf = buf;
  nacker = if nack then some new_nack_queue else none;
  head_sn = 0;
  step = 0;
  max_steps = size / max_pkt_size - 1;
  init = false;
}

-- The position `step - d`, moved up by `max_steps` if it is negative; `none` if it still is.
pub slot_of : ℕ → ℕ → ℕ → Option ℕ
slot_of step max_steps d =
    if leb d step
    then some (step - d)
    else if leb (d - step) max_steps
    then some (max_steps - (d - step))
    else none

-- `int(b.headSN-sn+1)`
abbrev pub distance : Bucket → ℕ → ℕ
distance b sn = u16 (sub16 b.head_sn sn + 1)

-- The write of a packet at `off`: its length, then its bytes. `none` is a panic, of a slice
-- expression out of range.
pub store : Bucket → ℕ → List ℕ → Option (Bucket × List ℕ)
store b off pkt =
    if ltb b.size (off + 2) || ltb b.size (off + 2 + length pkt)
    then none
    else let buf = write (put16 b.buf off (u16 (length pkt))) (off + 2) pkt in
      some (record b { buf = buf }, slice buf (off + 2) (length pkt))

-- `set`: the inner option is the returned slice, `none` for nil
pub set : Bucket → ℕ → List ℕ → Option (Bucket × Option (List ℕ))
set b sn pkt =
    if leb (u16 (b.max_steps + 1)) (sub16 b.head_sn sn)
    then some (b, none)
    else elim (slot_of b.step b.max_steps (distance b sn)) [
      | none ↦ some (b, none)
      | some pos ↦
          if ltb b.size (pos * max_pkt_size)
          then some (b, none)
          else Option.map (λ r. (r.0, some r.1)) (store b (pos * max_pkt_size) pkt)
    ]

-- `b.step++`, and back to 0 at the end
abbrev pub bump : ℕ → ℕ → ℕ
bump step max_steps = if leb max_steps (step + 1) then 0 else step + 1

pub push : Bucket → List ℕ → Option (Bucket × List ℕ)
push b pkt =
    Option.map (λ r. (record b { buf = r.0.buf; step = bump b.step b.max_steps }, r.1))
      (store b (b.step * max_pkt_size) pkt)

-- the body of the loop over the numbers between two latest packets
pub miss : Bucket → ℕ → Bucket
miss b lost = record b {
  step = bump b.step b.max_steps;
  nacker = Option.map (λ n. Nack.push n lost) b.nacker;
}

-- `for i := …; i < diff; i++`, by the rounds left
pub skip : ℕ → ℕ → ℕ → Bucket → Bucket
skip zero i sn b = b
skip (suc rounds) i sn b = skip rounds (i + 1) sn (miss b (sub16 sn i))

-- the call of `pairs`, and of `onLost` if there is something to report
pub report : Bucket → Bucket × Option (List NackPair × Bool)
report b = elim b.nacker [
  | none ↦ (b, none)
  | some n ↦
      let (n', np, akf) = Nack.pairs n in
      (record b { nacker = some n' }, if leb 1 (length np) then some (np, akf) else none)
]

-- the branch on `b.init`
pub first_packet : Bucket → ℕ → Bucket
first_packet b sn = if b.init then b else record b { head_sn = sub16 sn 1; init = true }

-- the branch of a packet that is not the latest
pub add_late :
    Bucket → List ℕ → ℕ → Option (Bucket × Option (List ℕ) × Option (List NackPair × Bool))
add_late b pkt sn =
    Option.map (λ r. (r.0, r.1, none))
      (set (record b { nacker = Option.map (λ n. Nack.remove n sn) b.nacker }) sn pkt)

-- the rest: pass over the missed numbers, report, and store
pub add_latest :
    Bucket → List ℕ → ℕ → Option (Bucket × Option (List ℕ) × Option (List NackPair × Bool))
add_latest b pkt sn =
    let (b', lost) = report (skip (sub16 sn b.head_sn - 1) 1 sn (record b { head_sn = sn })) in
    Option.map (λ r. (r.0, some r.1, lost)) (push b' pkt)

-- `addPacket`: the new bucket, the returned slice, and the arguments of `onLost` if it is called
pub add_packet :
    Bucket → List ℕ → ℕ → Bool → Option (Bucket × Option (List ℕ) × Option (List NackPair × Bool))
add_packet b pkt sn latest =
    if latest then add_latest (first_packet b sn) pkt sn else add_late (first_packet b sn) pkt sn

-- `get`: the outer option is the panic, the inner one nil
pub get : Bucket → ℕ → Option (Option (List ℕ))
get b sn = elim (slot_of b.step b.max_steps (distance b sn)) [
  | none ↦ some none
  | some pos ↦
      let off = pos * max_pkt_size in
      if ltb b.size off
      then some none
      else if ltb b.size (off + 6)
      then none
      else if not (get16 b.buf (off + 4) == sn)
      then some none
      else if ltb b.size (off + 2 + get16 b.buf off)
      then none
      else some (some (slice b.buf (off + 2) (get16 b.buf off)))
]

pub data BufferError : Type 0 where
  packet_not_found buffer_too_small ext_not_found : BufferError

-- what `getPacket` answers for the slice that `get` returned
abbrev pub copy_out : ℕ → Option (List ℕ) → List ℕ × ℕ × Option BufferError
copy_out cap none = ([], 0, some packet_not_found)
copy_out cap (some p) =
    if ltb cap (length p) then ([], length p, some buffer_too_small) else (p, length p, none)

-- `getPacket` with a destination of capacity `cap`: the bytes copied into it, and the results
pub get_packet : Bucket → ℕ → ℕ → Option (List ℕ × ℕ × Option BufferError)
get_packet b cap sn = Option.map (copy_out cap) (get b sn)
