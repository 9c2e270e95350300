-- ===== src/Buffer/Sequence.antt =====
-- The greatest number of a source, beyond the wrap of its sixteen bits.
use mini_sfu.Base.{
  ℕ, ◌+◌, ◌-◌, ◌/◌, ◌%◌, ◌<◌, ◌≤◌, ◌≡◌, ◌≢◌, ap, ◌∙◌, true, false, inl, inr, max, bit_or, ltb, ◌==◌,
  if◌then◌else◌, u32, sub16, arith, le→ltb_false, lt→ltb, lt_or_le,
}
use mini_sfu.Base.Bits.{bit_or_fields}
use mini_sfu.Buffer.{Buffer, note_sequence, ext_max_seq}

-- The buffer has met packets up to the number `e`, counted without a wrap.
pub record Tracks {F : Type 0} (e : ℕ) (b : Buffer F) : Type 0 where
  pub started : b.stats.packet_count ≢ 0
  pub split : b.cycles + b.max_seq_no ≡ e
  pub whole : b.cycles % 65536 ≡ 0
  pub short : b.max_seq_no < 65536

-- The number that reports name is the greatest.
pub ext_max_seq-eq : {F : Type 0} (e : ℕ) (b : Buffer F) → Tracks e b → ext_max_seq b ≡ e
unfolding ext_max_seq
ext_max_seq-eq e b t =
    ap (λ c. bit_or c b.max_seq_no) (omega (arith, t.whole))
    ∙ (bit_or_fields 16 (b.cycles / 65536) b.max_seq_no t.short ∙ omega (arith, t.split, t.whole))

-- how far ahead a number is, modulo 2 ^ 16
ahead-by : (e n m : ℕ) → e % 65536 ≡ m → e ≤ n → n < e + 32768 → sub16 (n % 65536) m ≡ n - e
ahead-by e n m low above near = omega arith

behind-by : (e n m : ℕ) → e % 65536 ≡ m → n < e → e ≤ n + 32768 → 32768 ≤ sub16 (n % 65536) m
behind-by e n m low below near = omega arith

next_cycle :
    (c m e n : ℕ)
    → c + m ≡ e
    → c % 65536 ≡ 0
    → m < 65536
    → e ≤ n
    → n < e + 32768
    → n < 4294967296
    → (if ltb (n % 65536) m then u32 (c + 65536) else c) + n % 65536 ≡ n
next_cycle c m e n split whole short above near small = elim (lt_or_le (n % 65536) m) [
  | inl wraps ↦ rw (lt→ltb _ _ wraps) (omega arith)
  | inr stays ↦ rw (le→ltb_false _ _ stays) (omega arith)
]

-- A packet whose number, counted without a wrap, is less than 32768 ahead of the greatest number
-- met, or at most 32768 behind it, moves that to the greater of the two.
pub note_sequence-Tracks :
    {F : Type 0} (e n arrival : ℕ) (b : Buffer F)
    → n < e + 32768
    → e ≤ n + 32768
    → n < 4294967296
    → Tracks e b
    → Tracks (max e n) (note_sequence b (n % 65536) arrival)
unfolding note_sequence
note_sequence-Tracks e n arrival b ahead behind small t =
    let begun : (b.stats.packet_count == 0) ≡ false = ground (arith, t.started) in
    let low : e % 65536 ≡ b.max_seq_no = omega (arith, t.split, t.whole, t.short) in
    elim (lt_or_le n e) [
      | inl old ↦
          let late : ltb (sub16 (n % 65536) b.max_seq_no) 32768 ≡ false =
            le→ltb_false _ _ (behind-by e n b.max_seq_no low old behind) in
          rw (begun, late)
            (record {
              started = t.started;
              split = omega (arith, t.split);
              whole = t.whole;
              short = t.short;
            })
      | inr latest ↦
          let near : ltb (sub16 (n % 65536) b.max_seq_no) 32768 ≡ true =
            lt→ltb _ _ (omega (arith, ahead-by e n b.max_seq_no low latest ahead)) in
          rw (begun, near)
            (record {
              started = t.started;
              split =
                  next_cycle b.cycles b.max_seq_no e n t.split t.whole t.short latest ahead small
                  ∙ omega arith;
              whole = ground (arith, t.whole);
              short = omega arith;
            })
    ]
