-- ===== src/Buffer/Losses.antt =====
-- What a reception report says of lost packets and of the time since the last sender report.
use mini_sfu.Base.{
  ℕ, ◌+◌, ◌-◌, ◌*◌, ◌/◌, ◌%◌, ◌<◌, ◌≤◌, ◌≡◌, ◌≢◌, ◌∙◌, not, ◌&&◌, false, inl, inr, ltb, ◌==◌,
  if◌then◌else◌, u8, u32, sub32, arith, lt_or_le, lt→ltb, le→leb,
}
use native.Mathlib.Nat.{div-lt_iff_lt-mul, mod-eq_of_lt, zero-div}
use mini_sfu.Base.Bits.{bit_or-zero}
use mini_sfu.Buffer.{
  Buffer, ext_max_seq, expected, expected_interval, lost_interval, fraction_lost, total_lost,
  delay_since,
}
use mini_sfu.Buffer.Sequence.{Tracks, ext_max_seq-eq}

expected-eq :
    {F : Type 0} (e : ℕ) (b : Buffer F)
    → Tracks e b
    → b.base_sn ≤ e
    → e < 4294967295
    → expected b ≡ e - b.base_sn + 1
unfolding expected
expected-eq e b t above small = omega (arith, ext_max_seq-eq e b t)

-- A buffer that met the numbers from its base up to `e`, and counted no more packets than these,
-- reports as lost what is missing of them, and as the greatest number `e`.
pub total_lost-counts :
    {F : Type 0} (e : ℕ) (b : Buffer F)
    → Tracks e b
    → b.base_sn ≤ e
    → e < 4294967295
    → b.stats.packet_count ≤ e - b.base_sn + 1
    → (ext_max_seq b ≡ e) × (total_lost b + b.stats.packet_count ≡ e - b.base_sn + 1)
unfolding total_lost
total_lost-counts e b t above small few =
    (ext_max_seq-eq e b t, ground (arith, expected-eq e b t above small, t.started))

share :
    (got awaited : ℕ)
    → 0 < got
    → got ≤ awaited
    → awaited < 16777216
    → (if not (awaited == 0) && ltb 0 (sub32 awaited got)
        then u8 (u32 (sub32 awaited got * 256) / awaited)
        else 0)
      ≡ (awaited - got) * 256 / awaited
share got awaited some_came few small = elim (lt_or_le got awaited) [
  | inl lost ↦
      let missing : sub32 awaited got ≡ awaited - got = omega arith in
      let below : (awaited - got) * 256 / awaited < 256 =
        (div-lt_iff_lt-mul {x = (awaited - got) * 256} {y = 256} (omega arith)).1 (omega arith) in
      let fits : u32 ((awaited - got) * 256) ≡ (awaited - got) * 256 = omega arith in
      let asked : (awaited == 0) ≡ false = ground arith in
      rw (asked, missing, fits, lt→ltb 0 (awaited - got) (omega arith)) (mod-eq_of_lt below)
  | inr all ↦
      let none_lost : sub32 awaited got ≡ 0 = omega arith in
      let nothing : awaited - got ≡ 0 = omega arith in
      rw (none_lost, nothing) (ground (arith, zero-div awaited))
]

-- If since the last report some packets came, and no more than were expected, the fraction lost is
-- the share of the missing ones in 256ths, rounded down.
pub fraction_lost-floor :
    {F : Type 0} (b : Buffer F) (got awaited : ℕ)
    → sub32 b.stats.packet_count b.stats.last_received ≡ got
    → expected_interval b ≡ awaited
    → 0 < got
    → got ≤ awaited
    → awaited < 16777216
    → fraction_lost b ≡ (awaited - got) * 256 / awaited
unfolding fraction_lost lost_interval
fraction_lost-floor b got awaited received expected some_came few small =
    rw (expected, received) (share got awaited some_came few small)

-- The delay in a report is a whole number of seconds: its fraction is always 0.
pub delay_since-seconds :
    {F : Type 0} (b : Buffer F) (now : ℕ)
    → b.last_sr_recv ≢ 0
    → b.last_sr_recv ≤ now
    → now < b.last_sr_recv + 4294967296000000
    → delay_since b now ≡ (now - b.last_sr_recv) / 1000000000 % 65536 * 65536
unfolding delay_since
delay_since-seconds b now known after recent =
    let sent : (b.last_sr_recv == 0) ≡ false = ground (arith, known) in
    let ms = u32 ((now - b.last_sr_recv) / 1000000) in
    let rest : ms % 1000 / 1000 * 65536 ≡ 0 = omega arith in
    rw (sent, le→leb _ _ after, rest) (bit_or-zero _ ∙ omega arith)
