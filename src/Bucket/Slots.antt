-- ===== src/Bucket/Slots.antt =====
-- Which slot a number has, and what a slot holds while the ring moves on.
use mini_sfu.Base.{
  ℕ, ◌+◌, ◌*◌, ◌≤◌, ◌<◌, ◌≡◌, ◌≢◌, ap, ◌∙◌, some, List, length, get_or, u16, arith, ◌⊎◌, inl, inr,
}
use mini_sfu.Base.Bytes.{
  Memory, write, put16, get16, slice, slice-write, slice_cong, write-inside, write-outside,
  put16-outside, get16-put16,
}
use mini_sfu.Bucket.{Bucket, max_pkt_size, slot_of, bump, distance}

-- An RTP packet as the bucket takes it: its bytes 2 and 3 are its number, and it fits a slot.
pub record IsPacket (sn : ℕ) (pkt : List ℕ) : Type 0 where
  pub header : 4 ≤ length pkt
  pub fits : length pkt + 2 ≤ max_pkt_size
  pub number : get_or pkt 2 0 * 256 + get_or pkt 3 0 ≡ sn

-- The slots lie inside the slice, with one to spare, and the counters in their ranges.
pub record IsValid (b : Bucket) : Type 0 where
  pub room : b.max_steps * max_pkt_size + max_pkt_size ≤ b.size
  pub step_in : b.step < b.max_steps
  pub head_in : b.head_sn < 65536
  pub short : b.max_steps < 65535

-- A ring at `step` keeps `pkt` in the slot at distance `d` behind it.
pub record Kept (step max_steps : ℕ) (buf : Memory) (d : ℕ) (pkt : List ℕ) : Type 0 where
  pub slot : ℕ
  pub found : slot_of step max_steps d ≡ some slot
  pub inside : slot < max_steps
  pub size : get16 buf (slot * max_pkt_size) ≡ length pkt
  pub bytes : slice buf (slot * max_pkt_size + 2) (length pkt) ≡ pkt
  pub number : get16 buf (slot * max_pkt_size + 4) ≡ get_or pkt 2 0 * 256 + get_or pkt 3 0

-- `b` holds the packet `pkt` under the number `sn`.
abbrev pub Holds : Bucket → ℕ → List ℕ → Type 0
Holds b sn pkt = Kept b.step b.max_steps b.buf (distance b sn) pkt

slot_of-bump :
    (step max_steps d : ℕ)
    → step < max_steps
    → 1 ≤ d
    → d < max_steps
    → slot_of (bump step max_steps) max_steps (d + 1) ≡ slot_of step max_steps d
unfolding slot_of
slot_of-bump step max_steps d h lo hi = ground arith

pub slot_of-ne :
    (step max_steps d slot : ℕ)
    → step < max_steps
    → 1 ≤ d
    → d < max_steps
    → slot_of step max_steps d ≡ some slot
    → slot ≢ step
unfolding slot_of
slot_of-ne step max_steps d slot h lo hi e = ground arith

-- Moving on by one slot leaves a packet where it is, at one more distance.
pub Kept-bump :
    (step max_steps : ℕ) (buf : Memory) (d : ℕ) (pkt : List ℕ)
    → step < max_steps
    → 1 ≤ d
    → d < max_steps
    → Kept step max_steps buf d pkt
    → Kept (bump step max_steps) max_steps buf (d + 1) pkt
Kept-bump step max_steps buf d pkt h lo hi k = record {
  slot = k.slot;
  found = rw (slot_of-bump step max_steps d h lo hi) k.found;
  inside = k.inside;
  size = k.size;
  bytes = k.bytes;
  number = k.number;
}

-- the memory after a packet is stored in the slot `step`
abbrev pub stored : Memory → ℕ → List ℕ → Memory
stored buf slot pkt =
    write (put16 buf (slot * max_pkt_size) (u16 (length pkt))) (slot * max_pkt_size + 2) pkt

pub stored-outside :
    (buf : Memory) (slot : ℕ) (pkt : List ℕ) (i : ℕ)
    → (i < slot * max_pkt_size) ⊎ (slot * max_pkt_size + 2 + length pkt ≤ i)
    → stored buf slot pkt i ≡ buf i
stored-outside buf slot pkt i (inl h) =
    write-outside _ (slot * max_pkt_size + 2) pkt i (inl (omega arith))
    ∙ put16-outside buf (slot * max_pkt_size) _ i (inl h)
stored-outside buf slot pkt i (inr h) =
    write-outside _ (slot * max_pkt_size + 2) pkt i (inr h)
    ∙ put16-outside buf (slot * max_pkt_size) _ i (inr (omega arith))

-- Storing into another slot leaves a packet as it is.
pub Kept-stored :
    (step max_steps : ℕ) (buf : Memory) (d : ℕ) (pkt : List ℕ) (slot : ℕ) (q : List ℕ)
    → (k : Kept step max_steps buf d pkt) → k.slot ≢ slot
    → length pkt + 2 ≤ max_pkt_size
    → 4 ≤ length pkt
    → length q + 2 ≤ max_pkt_size
    → Kept step max_steps (stored buf slot q) d pkt
Kept-stored step max_steps buf d pkt slot q k ne fits header fits' = record {
  slot = k.slot;
  found = k.found;
  inside = k.inside;
  size = omega (
    arith,
    k.size,
    same at (omega arith) (omega arith),
    same (at + 1) (omega arith) (omega arith),
  );
  bytes =
      slice_cong _ buf (at + 2) (length pkt) (λ i lo hi. same i (omega arith) (omega arith))
      ∙ k.bytes;
  number = omega (
    arith,
    k.number,
    same (at + 4) (omega arith) (omega arith),
    same (at + 4 + 1) (omega arith) (omega arith),
  );
}
  where
    at : ℕ
    at = k.slot * max_pkt_size

    same : (i : ℕ) → at ≤ i → i < at + max_pkt_size → stored buf slot q i ≡ buf i
    same i lo hi = stored-outside buf slot q i (omega arith)

stored-nth :
    (buf : Memory) (slot : ℕ) (pkt : List ℕ) (j i : ℕ)
    → j ≡ slot * max_pkt_size + 2 + i
    → i < length pkt
    → stored buf slot pkt j ≡ get_or pkt i 0
stored-nth buf slot pkt j i e h =
    write-inside (put16 buf (slot * max_pkt_size) (u16 (length pkt))) (slot * max_pkt_size + 2) pkt
      j (omega arith) (omega arith)
    ∙ ap (λ (k : ℕ). get_or pkt k 0) (omega arith)

-- The number of a stored packet is that of its header.
pub stored-number :
    (buf : Memory) (slot : ℕ) (pkt : List ℕ)
    → 4 ≤ length pkt
    → get16 (stored buf slot pkt) (slot * max_pkt_size + 4) ≡ get_or pkt 2 0 * 256 + get_or pkt 3 0
stored-number buf slot pkt h = omega (
  arith,
  stored-nth buf slot pkt (slot * max_pkt_size + 4) 2 (omega arith) (omega arith),
  stored-nth buf slot pkt (slot * max_pkt_size + 4 + 1) 3 (omega arith) (omega arith),
)

-- What is stored in a slot is kept there.
pub stored-Kept :
    (step max_steps : ℕ) (buf : Memory) (d slot sn : ℕ) (pkt : List ℕ)
    → slot_of step max_steps d ≡ some slot
    → slot < max_steps
    → IsPacket sn pkt
    → Kept step max_steps (stored buf slot pkt) d pkt
stored-Kept step max_steps buf d slot sn pkt e lt p = record {
  slot = slot;
  found = e;
  inside = lt;
  size = omega (
    arith,
    get16-put16 buf at (u16 (length pkt)) (omega arith),
    write-outside (put16 buf at (u16 (length pkt))) (at + 2) pkt at (inl (omega arith)),
    write-outside (put16 buf at (u16 (length pkt))) (at + 2) pkt (at + 1) (inl (omega arith)),
  );
  bytes = slice-write _ _ pkt;
  number = stored-number buf slot pkt p.header;
}
  where
    at : ℕ
    at = slot * max_pkt_size
