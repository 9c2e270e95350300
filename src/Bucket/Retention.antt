-- ===== src/Bucket/Retention.antt =====
-- What `addPacket` and `get` of bucket.go keep and return.
use mini_sfu.Base.{
  ℕ, zero, suc, ◌+◌, ◌-◌, ◌*◌, ◌≤◌, ◌<◌, ◌≡◌, ◌≢◌, refl, ap₂, subst, Bool, true, Option, some, List,
  length, u16, sub16, arith,
}
use mini_sfu.Base.Bytes.{Memory, put16, slice-write}
use mini_sfu.Nack.{NackPair}
use mini_sfu.Bucket.{
  Bucket, max_pkt_size, slot_of, bump, distance, store, push, miss, skip, report, first_packet,
  add_latest, add_packet, get,
}
use mini_sfu.Bucket.Slots.{
  IsPacket, IsValid, Kept, Holds, stored, slot_of-ne, Kept-bump, Kept-stored, stored-Kept,
}

-- A held packet is returned whole.
pub get-Holds :
    (b : Bucket) (sn : ℕ) (pkt : List ℕ)
    → IsValid b
    → IsPacket sn pkt
    → Holds b sn pkt
    → get b sn ≡ some (some pkt)
unfolding get
get-Holds b sn pkt v p k = rw (k.found, get) (ground (arith, k.size, k.bytes, k.number, k.inside))

-- On a valid bucket a store in a slot below `max_steps` does not panic.
pub store_slot :
    (b : Bucket) (slot : ℕ) (pkt : List ℕ)
    → IsValid b
    → slot < b.max_steps
    → length pkt + 2 ≤ max_pkt_size
    → store b (slot * max_pkt_size) pkt ≡ some (record b { buf = stored b.buf slot pkt }, pkt)
unfolding store
store_slot b slot pkt v lt fits = ground (
  arith,
  slice-write (put16 b.buf (slot * max_pkt_size) (u16 (length pkt))) (slot * max_pkt_size + 2) pkt,
)

push_slot :
    (b : Bucket) (pkt : List ℕ)
    → IsValid b
    → length pkt + 2 ≤ max_pkt_size
    → push b pkt
      ≡ some (record b { buf = stored b.buf b.step pkt; step = bump b.step b.max_steps }, pkt)
unfolding push
push_slot b pkt v fits = rw (store_slot b b.step pkt v v.step_in fits)

-- What one pass of the loop over missed numbers does to the ring.
abbrev pub skipped : ℕ → ℕ → ℕ → ℕ
skipped zero step max_steps = step
skipped (suc rounds) step max_steps = skipped rounds (bump step max_steps) max_steps

skip-fields :
    (rounds i sn : ℕ) (b : Bucket)
    → ((skip rounds i sn b).step ≡ skipped rounds b.step b.max_steps)
      × ((skip rounds i sn b).buf ≡ b.buf)
      × ((skip rounds i sn b).size ≡ b.size)
      × ((skip rounds i sn b).max_steps ≡ b.max_steps)
      × ((skip rounds i sn b).head_sn ≡ b.head_sn)
      × ((skip rounds i sn b).init ≡ b.init)
unfolding skip miss
skip-fields zero i sn b = (refl, refl, refl, refl, refl, refl)
skip-fields (suc rounds) i sn b = skip-fields rounds (i + 1) sn (miss b (sub16 sn i))

skipped-lt :
    (rounds step max_steps : ℕ) → step < max_steps → skipped rounds step max_steps < max_steps
skipped-lt zero step max_steps h = h
skipped-lt (suc rounds) step max_steps h =
    skipped-lt rounds (bump step max_steps) max_steps (ground arith)

Kept-skipped :
    (rounds step max_steps : ℕ) (buf : Memory) (d d' : ℕ) (pkt : List ℕ)
    → step < max_steps
    → 1 ≤ d
    → d' ≡ d + rounds
    → d' ≤ max_steps
    → Kept step max_steps buf d pkt
    → Kept (skipped rounds step max_steps) max_steps buf d' pkt
Kept-skipped zero step max_steps buf d d' pkt h lo e le k =
    subst (λ n. Kept step max_steps buf n pkt) (omega arith) k
Kept-skipped (suc rounds) step max_steps buf d d' pkt h lo e le k =
    Kept-skipped rounds (bump step max_steps) max_steps buf (d + 1) d' pkt (ground arith)
      (omega arith) (omega arith) le (Kept-bump step max_steps buf d pkt h lo (omega arith) k)

report-fields :
    (b : Bucket)
    → ((report b).0.step ≡ b.step)
      × ((report b).0.buf ≡ b.buf)
      × ((report b).0.size ≡ b.size)
      × ((report b).0.max_steps ≡ b.max_steps)
      × ((report b).0.head_sn ≡ b.head_sn)
      × ((report b).0.init ≡ b.init)
unfolding report
report-fields b = ground arith

-- The ring just before the packet is stored: the number is the head, and the slots between are
-- passed over.
module _ (b : Bucket) (sn : ℕ) (v : IsValid b) where
  pub ready : Bucket
  ready = (report (skip (sub16 sn b.head_sn - 1) 1 sn (record b { head_sn = sn }))).0

  ready-fields :
      (ready.step ≡ skipped (sub16 sn b.head_sn - 1) b.step b.max_steps)
      × (ready.buf ≡ b.buf)
      × (ready.size ≡ b.size)
      × (ready.max_steps ≡ b.max_steps)
      × (ready.head_sn ≡ sn)
      × (ready.init ≡ b.init)
  unfolding ready
  ready-fields = ground (
    arith,
    report-fields (skip (sub16 sn b.head_sn - 1) 1 sn (record b { head_sn = sn })),
    skip-fields (sub16 sn b.head_sn - 1) 1 sn (record b { head_sn = sn }),
  )

  ready-IsValid : sn < 65536 → IsValid ready
  ready-IsValid h = record {
    room = omega (arith, ready-fields, v.room);
    step_in =
        omega
          (arith, ready-fields, skipped-lt (sub16 sn b.head_sn - 1) b.step b.max_steps v.step_in);
    head_in = omega (arith, ready-fields);
    short = omega (arith, ready-fields, v.short);
  }

  module _ (pkt : List ℕ) where
    pub added : Bucket
    added = record ready {
      buf = stored ready.buf ready.step pkt;
      step = bump ready.step ready.max_steps;
    }

    pub add_latest-added :
        sn < 65536
        → length pkt + 2 ≤ max_pkt_size
        → (lost : Option (List NackPair × Bool)) × (add_latest b pkt sn
            ≡ some (added, some pkt, lost))
    unfolding add_latest ready added
    add_latest-added h fits = (
      (report (skip (sub16 sn b.head_sn - 1) 1 sn (record b { head_sn = sn }))).1,
      rw (push_slot ready pkt (ready-IsValid h) fits),
    )

    pub added-fields :
        (added.step ≡ bump (skipped (sub16 sn b.head_sn - 1) b.step b.max_steps) b.max_steps)
        × (added.buf ≡ stored b.buf (skipped (sub16 sn b.head_sn - 1) b.step b.max_steps) pkt)
        × (added.size ≡ b.size)
        × (added.max_steps ≡ b.max_steps)
        × (added.head_sn ≡ sn)
        × (added.init ≡ b.init)
    unfolding added
    added-fields =
        let f = ready-fields in
        (
          ap₂ bump f.0 f.3,
          ap₂ (λ (m : Memory) (st : ℕ). stored m st pkt) f.1 f.0,
          f.2,
          f.3,
          f.4,
          f.5,
        )

-- What adding a new latest packet makes of a bucket: it stays valid and started with as many slots and
-- has `sn` as its head, it holds the packet, and it still holds every packet that lies fewer than
-- `max_steps` numbers behind `sn`.
pub record Added (b : Bucket) (sn : ℕ) (pkt : List ℕ) (b' : Bucket) : Type 0 where
  pub valid : IsValid b'
  pub started : b'.init ≡ b.init
  pub size : b'.max_steps ≡ b.max_steps
  pub head : b'.head_sn ≡ sn
  pub holds : Holds b' sn pkt
  pub keeps :
      (old : ℕ) (q : List ℕ)
      → old < 65536
      → IsPacket old q
      → sub16 b.head_sn old + sub16 sn b.head_sn < b.max_steps
      → Holds b old q
      → Holds b' old q

slot_of_head :
    (step max_steps d : ℕ)
    → step < max_steps
    → d ≡ 1
    → slot_of (bump step max_steps) max_steps d ≡ some step
unfolding slot_of
slot_of_head step max_steps d h e = ground arith

module _ (b : Bucket) (sn : ℕ) (pkt : List ℕ) (v : IsValid b) (h : sn < 65536)
    (new : sn ≢ b.head_sn) (p : IsPacket sn pkt) where
  -- the slot that is written
  abbrev at : ℕ
  at = skipped (sub16 sn b.head_sn - 1) b.step b.max_steps

  at-lt : at < b.max_steps
  at-lt = skipped-lt (sub16 sn b.head_sn - 1) b.step b.max_steps v.step_in

  added-Holds : Holds (added b sn v pkt) sn pkt
  added-Holds =
      let f = added-fields b sn v pkt in
      rw (f.0, f.1, f.3, f.4)
        (stored-Kept (bump at b.max_steps) b.max_steps b.buf (u16 (sub16 sn sn + 1)) at sn pkt
          (slot_of_head at b.max_steps _ at-lt (omega arith)) at-lt p)

  added-keeps :
      (old : ℕ) (q : List ℕ)
      → old < 65536
      → IsPacket old q
      → sub16 b.head_sn old + sub16 sn b.head_sn < b.max_steps
      → Holds b old q
      → Holds (added b sn v pkt) old q
  added-keeps old q oh op near k =
      let f = added-fields b sn v pkt in
      rw (f.0, f.1, f.3, f.4)
        (subst (λ d. Kept (bump at b.max_steps) b.max_steps (stored b.buf at pkt) d q) (omega arith)
          later)
    where
      d : ℕ
      d = sub16 b.head_sn old + sub16 sn b.head_sn

      here : Kept at b.max_steps b.buf d q
      here =
          Kept-skipped (sub16 sn b.head_sn - 1) b.step b.max_steps b.buf (distance b old) d q
            v.step_in (omega arith) (omega arith) (omega arith) k

      there : Kept at b.max_steps (stored b.buf at pkt) d q
      there =
          Kept-stored at b.max_steps b.buf d q at pkt here
            (slot_of-ne at b.max_steps d here.slot at-lt (omega arith) near here.found) op.fits
            op.header p.fits

      later : Kept (bump at b.max_steps) b.max_steps (stored b.buf at pkt) (d + 1) q
      later = Kept-bump at b.max_steps (stored b.buf at pkt) d q at-lt (omega arith) near there

  added-IsValid : IsValid (added b sn v pkt)
  added-IsValid =
      let f = added-fields b sn v pkt in
      record {
        room = omega (arith, f, v.room);
        step_in = ground (arith, f, at-lt);
        head_in = omega (arith, f);
        short = omega (arith, f, v.short);
      }

  add_latest-Added :
      (b' : Bucket) × (lost : Option (List NackPair × Bool)) × (add_latest b pkt sn
        ≡ some (b', some pkt, lost))
      × Added b sn pkt b'
  add_latest-Added = (
    added b sn v pkt,
    (add_latest-added b sn v pkt h p.fits).0,
    (add_latest-added b sn v pkt h p.fits).1,
    record {
      valid = added-IsValid;
      started = (added-fields b sn v pkt).5;
      size = (added-fields b sn v pkt).3;
      head = (added-fields b sn v pkt).4;
      holds = added-Holds;
      keeps = added-keeps;
    },
  )

pub first_packet_started : (b : Bucket) (sn : ℕ) → b.init ≡ true → first_packet b sn ≡ b
unfolding first_packet
first_packet_started b sn e = rw e

-- A packet of 4 to 1458 bytes, whose bytes 2 and 3 are its number, that is added as the latest to a
-- started valid bucket with another head: the call does not panic and returns the packet as it was
-- stored; the bucket stays valid, started and of its size with `sn` as its head, holds the packet, and
-- still holds every packet of that kind that lies fewer than `max_steps` numbers behind `sn`.
pub add_packet-Added :
    (b : Bucket) (sn : ℕ) (pkt : List ℕ)
    → IsValid b
    → b.init ≡ true
    → sn < 65536
    → sn ≢ b.head_sn
    → IsPacket sn pkt
    → (b' : Bucket) × (lost : Option (List NackPair × Bool)) × (add_packet b pkt sn true
        ≡ some (b', some pkt, lost))
      × Added b sn pkt b'
unfolding add_packet
add_packet-Added b sn pkt v started h new p =
    rw (first_packet_started b sn started) (add_latest-Added b sn pkt v h new p)
