-- ===== src/Bucket/Late.antt =====
-- Packets that arrive late or twice: `set` of bucket.go, and the two calls that lose packets.

use mini_sfu.Base.{
  ℕ, ◌+◌, ◌-◌, ◌*◌, ◌≤◌, ◌<◌, ◌≡◌, ◌≢◌, refl, ap, Bool, true, Option, none, some, List, length, u16,
  sub16, arith, inl, inr, lt_or_le, le→ltb_false, lt→leb_false,
}
use mini_sfu.Base.Bytes.{get16}
use mini_sfu.Nack.{NackPair}
use mini_sfu.Bucket.{Bucket, max_pkt_size, slot_of, bump, distance, set, add_packet, get}
use mini_sfu.Bucket.Slots.{
  IsPacket, IsValid, Holds, stored, stored-outside, stored-number, slot_of-ne, Kept-stored,
  stored-Kept,
}
use mini_sfu.Bucket.Retention.{
  store_slot, added, add_latest-added, added-fields, skipped, first_packet_started,
}

slot_of_total :
    (step max_steps d : ℕ)
    → step < max_steps
    → 1 ≤ d
    → d ≤ max_steps
    → (slot : ℕ) × (slot_of step max_steps d ≡ some slot) × (slot < max_steps)
unfolding slot_of
slot_of_total step max_steps d h lo hi = elim (lt_or_le step d) [
  | inl over ↦ (max_steps - (d - step), ground arith, omega arith)
  | inr under ↦ (step - d, ground arith, omega arith)
]

slot_of_injective :
    (step max_steps d d' slot : ℕ)
    → step < max_steps
    → 1 ≤ d
    → d ≤ max_steps
    → 1 ≤ d'
    → d' ≤ max_steps
    → slot_of step max_steps d ≡ some slot
    → slot_of step max_steps d' ≡ some slot
    → d ≡ d'
unfolding slot_of
slot_of_injective step max_steps d d' slot h a b a' b' e e' = ground arith

set_slot :
    (b : Bucket) (sn slot : ℕ) (pkt : List ℕ)
    → IsValid b
    → sub16 b.head_sn sn ≤ b.max_steps
    → slot_of b.step b.max_steps (distance b sn) ≡ some slot
    → slot < b.max_steps
    → length pkt + 2 ≤ max_pkt_size
    → set b sn pkt ≡ some (record b { buf = stored b.buf slot pkt }, some pkt)
unfolding set
set_slot b sn slot pkt v near e lt fits =
    rw
      (
        lt→leb_false (u16 (b.max_steps + 1)) (sub16 b.head_sn sn) (omega arith),
        e,
        le→ltb_false b.size (slot * max_pkt_size) (omega arith),
        store_slot b slot pkt v lt fits,
      )
      refl

-- A late packet fewer than `max_steps` numbers behind the head: `set` does not panic, returns
-- it and leaves a bucket that is valid, holds it, and holds all it held under other numbers.
pub set-Holds :
    (b : Bucket) (sn : ℕ) (pkt : List ℕ)
    → IsValid b
    → sn < 65536
    → sub16 b.head_sn sn < b.max_steps
    → IsPacket sn pkt
    → (b' : Bucket) × (set b sn pkt ≡ some (b', some pkt))
      × IsValid b'
      × Holds b' sn pkt
      × ((old : ℕ) (q : List ℕ)
          → old < 65536
          → old ≢ sn
          → sub16 b.head_sn old < b.max_steps
          → IsPacket old q
          → Holds b old q
          → Holds b' old q)
set-Holds b sn pkt v h near p = (
  record b { buf = stored b.buf slot pkt },
  set_slot b sn slot pkt v (omega arith) found.1 found.2 p.fits,
  record { room = v.room; step_in = v.step_in; head_in = v.head_in; short = v.short },
  stored-Kept b.step b.max_steps b.buf (distance b sn) slot sn pkt found.1 found.2 p,
  λ old q oh ne near' op k.
      Kept-stored b.step b.max_steps b.buf (distance b old) q slot pkt k
        (λ e. ne (
          omega (
            arith,
            slot_of_injective b.step b.max_steps (distance b old) (distance b sn) slot v.step_in
                (omega arith) (omega arith) (omega arith) (omega arith) (rw e at k.found) found.1,
          )))
        op.fits op.header p.fits,
)
  where
    found :
        (slot : ℕ) × (slot_of b.step b.max_steps (distance b sn) ≡ some slot) × (slot < b.max_steps)
    found = slot_of_total b.step b.max_steps (distance b sn) v.step_in (omega arith) (omega arith)

    slot : ℕ
    slot = found.0

-- A packet more than `max_steps` numbers behind the head is refused and changes nothing.
pub set_too_old :
    (b : Bucket) (sn : ℕ) (pkt : List ℕ)
    → IsValid b
    → b.max_steps < sub16 b.head_sn sn
    → set b sn pkt ≡ some (b, none)
unfolding set
set_too_old b sn pkt v far = ground arith

get_other :
    (b : Bucket) (sn slot : ℕ)
    → b.max_steps * max_pkt_size + max_pkt_size ≤ b.size
    → slot_of b.step b.max_steps (distance b sn) ≡ some slot
    → slot < b.max_steps
    → get16 b.buf (slot * max_pkt_size + 4) ≢ sn
    → get b sn ≡ some none
unfolding get
get_other b sn slot room e lt ne = rw (e, get) (ground arith)

slot_of_edge :
    (step max_steps d : ℕ)
    → step < max_steps
    → 1 ≤ step
    → d ≡ max_steps + 1
    → slot_of step max_steps d ≡ some (step - 1)
unfolding slot_of
slot_of_edge step max_steps d h pos e = ground arith

slot_of_one : (step max_steps d : ℕ) → 1 ≤ step → d ≡ 1 → slot_of step max_steps d ≡ some (step - 1)
unfolding slot_of
slot_of_one step max_steps d pos e = ground arith

-- A packet exactly `max_steps` numbers behind the head passes the test for age: unless the ring
-- stands at its first slot, it is stored over the newest packet, which is then not found.
pub set_overwrites_head :
    (b : Bucket) (sn : ℕ) (pkt : List ℕ)
    → IsValid b
    → sn < 65536
    → 1 ≤ b.step
    → sub16 b.head_sn sn ≡ b.max_steps
    → IsPacket sn pkt
    → (b' : Bucket) × (set b sn pkt ≡ some (b', some pkt)) × (get b' b.head_sn ≡ some none)
set_overwrites_head b sn pkt v h pos edge p = (
  b',
  set_slot b sn (b.step - 1) pkt v (omega arith) hit (omega arith) p.fits,
  get_other b' b.head_sn (b.step - 1) v.room
      (slot_of_one b.step b.max_steps (distance b b.head_sn) pos (omega arith)) (omega arith)
      (λ e. absurd (omega (arith, stored-number b.buf (b.step - 1) pkt p.header, p.number))),
)
  where
    b' : Bucket
    b' = record b { buf = stored b.buf (b.step - 1) pkt }

    hit : slot_of b.step b.max_steps (distance b sn) ≡ some (b.step - 1)
    hit = slot_of_edge b.step b.max_steps (distance b sn) v.step_in pos (omega arith)

slot_of_next :
    (step max_steps d : ℕ)
    → step < max_steps
    → 1 ≤ d
    → d < max_steps
    → slot_of (bump step max_steps) max_steps (d + 1) ≡ slot_of step max_steps d
unfolding slot_of
slot_of_next step max_steps d h lo hi = ground arith

-- Where the newest packet comes a second time, the ring moves on and the head stays.
doubled-get :
    (b : Bucket) (old : ℕ) (q pkt : List ℕ) (v : IsValid b)
    → old < 65536
    → 1 ≤ sub16 b.head_sn old
    → sub16 b.head_sn old < b.max_steps
    → Holds b (u16 (old + 1)) q
    → IsPacket (u16 (old + 1)) q
    → IsPacket b.head_sn pkt
    → get (added b b.head_sn v pkt) old ≡ some none
doubled-get b old q pkt v h near window k next twice =
    get_other b' old k.slot (omega (arith, f, v.room)) found (omega (arith, f, k.inside)) other
  where
    b' : Bucket
    b' = added b b.head_sn v pkt

    stay : skipped (sub16 b.head_sn b.head_sn - 1) b.step b.max_steps ≡ b.step
    stay =
        let none_missed : sub16 b.head_sn b.head_sn - 1 ≡ 0 = omega arith in
        ap (λ (n : ℕ). skipped n b.step b.max_steps) none_missed

    f :
        (b'.step ≡ bump b.step b.max_steps)
        × (b'.buf ≡ stored b.buf b.step pkt)
        × (b'.size ≡ b.size)
        × (b'.max_steps ≡ b.max_steps)
        × (b'.head_sn ≡ b.head_sn)
        × (b'.init ≡ b.init)
    f = rw stay at (added-fields b b.head_sn v pkt)

    d : ℕ
    d = distance b (u16 (old + 1))

    behind : u16 (sub16 b.head_sn old + 1) ≡ d + 1
    behind = omega arith

    found : slot_of b'.step b'.max_steps (distance b' old) ≡ some k.slot
    found =
        rw
          (
            f.0,
            f.3,
            f.4,
            behind,
            slot_of_next b.step b.max_steps d v.step_in (omega arith) (omega arith),
          )
          k.found

    apart : k.slot ≢ b.step
    apart = slot_of-ne b.step b.max_steps d k.slot v.step_in (omega arith) (omega arith) k.found

    same :
        (i : ℕ)
        → k.slot * max_pkt_size ≤ i
        → i < k.slot * max_pkt_size + max_pkt_size
        → stored b.buf b.step pkt i ≡ b.buf i
    same i lo hi = stored-outside b.buf b.step pkt i (omega (arith, apart, twice.fits))

    other : get16 b'.buf (k.slot * max_pkt_size + 4) ≢ old
    other e = absurd (
        omega (
          arith,
          rw f.1 at e,
          same (k.slot * max_pkt_size + 4) (omega arith) (omega arith),
          same (k.slot * max_pkt_size + 4 + 1) (omega arith) (omega arith),
          k.number,
          next.number,
        ))

-- If the newest packet comes a second time as the latest one, the ring moves on by a slot while
-- the head stays: a number whose successor is still held is not found any more.
pub duplicate_forgets :
    (b : Bucket) (old : ℕ) (q pkt : List ℕ)
    → IsValid b
    → b.init ≡ true
    → old < 65536
    → 1 ≤ sub16 b.head_sn old
    → sub16 b.head_sn old < b.max_steps
    → Holds b (u16 (old + 1)) q
    → IsPacket (u16 (old + 1)) q
    → IsPacket b.head_sn pkt
    → (b' : Bucket) × (lost : Option (List NackPair × Bool)) × (add_packet b pkt b.head_sn true
        ≡ some (b', some pkt, lost))
      × (get b' old ≡ some none)
unfolding add_packet
duplicate_forgets b old q pkt v started h near window k next twice =
    rw (first_packet_started b b.head_sn started) (
      added b b.head_sn v pkt,
      (add_latest-added b b.head_sn v pkt v.head_in twice.fits).0,
      (add_latest-added b b.head_sn v pkt v.head_in twice.fits).1,
      doubled-get b old q pkt v h near window k next twice,
    )
