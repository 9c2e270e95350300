-- ===== src/Twcc/Report/Deltas.antt =====
-- The receive deltas of a report, read back by the format.
use mini_sfu.Base.Int.{ℤ, pos, negsuc, sub_quot, int16}
use mini_sfu.Base.{
  ℕ, ◌+◌, ◌-◌, ◌*◌, ◌/◌, ◌<◌, ◌≤◌, ◌≡◌, Option, none, some, List, [], ◌∷◌, ◌==◌, if◌then◌else◌,
  arith, le→leb,
}
use mini_sfu.Twcc.Report.{delta_status, delta_bytes, clamp_delta}

-- One byte without a sign for a small delta, two with a sign for a large one.
pub read_delta : ℕ → List ℕ → Option ℤ
read_delta status (b ∷ []) = if status == 1 then some (pos b) else none
read_delta status (b ∷ c ∷ []) = if status == 2 then some (int16 (b * 256 + c)) else none
read_delta status bytes = none

-- the int16 numbers
abbrev Fits : ℤ → Type 0
Fits (pos n) = n < 32768
Fits (negsuc n) = n < 32768

read_delta-written : (d : ℤ) → Fits d → read_delta (delta_status d) (delta_bytes d) ≡ some d
unfolding read_delta delta_status delta_bytes clamp_delta
read_delta-written (pos n) fits = ground arith
read_delta-written (negsuc n) fits = ground arith

sub_quot-Fits : (a b : ℕ) → a < b + 8192000 → b < a + 8192000 → Fits (sub_quot a b 250)
sub_quot-Fits a b later earlier = ground arith

-- The delta of two arrivals less than 8.192 seconds apart, in either order, is read back: it is
-- their distance in steps of 250 microseconds, rounded towards 0.
pub read_delta-bytes :
    (since now : ℕ)
    → now < since + 8192000
    → since < now + 8192000
    → let delta = sub_quot now since 250 in
      read_delta (delta_status delta) (delta_bytes delta) ≡ some delta
read_delta-bytes since now later earlier =
    read_delta-written (sub_quot now since 250) (sub_quot-Fits now since later earlier)

late_delta :
    (n : ℕ)
    → 32768 ≤ n
    → n < 65536
    → read_delta (delta_status (pos n)) (delta_bytes (pos n)) ≡ some (negsuc 32767)
unfolding read_delta delta_status delta_bytes clamp_delta
late_delta n low high = ground arith

-- A packet that comes 8.192 to 16.384 seconds after the one before is reported as 8.192 seconds
-- before it.
pub read_delta-flipped :
    (since now : ℕ)
    → since + 8192000 ≤ now
    → now < since + 16384000
    → let delta = sub_quot now since 250 in
      read_delta (delta_status delta) (delta_bytes delta) ≡ some (negsuc 32767)
read_delta-flipped since now low high =
    rw (le→leb since now (omega arith))
      (late_delta ((now - since) / 250) (omega arith) (omega arith))
