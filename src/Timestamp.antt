-- ===== src/Timestamp.antt =====
-- internal/buffer/buffer.go: the order of RTP timestamps over their wrap-around.
mod Tests
use mini_sfu.Base.{
  ℕ, ◌/◌, ◌%◌, ◌<◌, ◌≡◌, ◌≢◌, refl, Bool, true, false, not, ◌&&◌, if◌then◌else◌, ltb, ◌==◌,
  lt_or_le, inl, inr, lt→ltb, le→ltb_false, arith,
}

-- `t & 0xC000000`, as the number of its bits 26 and 27
abbrev pub wrap_bits : ℕ → ℕ
wrap_bits t = t / 67108864 % 4

-- `IsTimestampWrapAround`
pub is_timestamp_wrap_around : ℕ → ℕ → Bool
is_timestamp_wrap_around t u = wrap_bits t == 0 && wrap_bits u == 3

-- `IsLaterTimestamp`
pub is_later_timestamp : ℕ → ℕ → Bool
is_later_timestamp t u =
    if ltb u t
    then (if is_timestamp_wrap_around u t then false else true)
    else (if is_timestamp_wrap_around t u then true else false)

later_if_above : (t u : ℕ) → u < t → is_later_timestamp t u ≡ not (is_timestamp_wrap_around u t)
unfolding is_later_timestamp
later_if_above t u h = rw (lt→ltb u t h) (flip (is_timestamp_wrap_around u t))
  where
    flip : (b : Bool) → (if b then false else true) ≡ not b
    flip true = refl
    flip false = refl

later_if_below : (t u : ℕ) → t < u → is_later_timestamp t u ≡ is_timestamp_wrap_around t u
unfolding is_later_timestamp
later_if_below t u h = rw (le→ltb_false u t (omega arith)) (same (is_timestamp_wrap_around t u))
  where
    same : (b : Bool) → (if b then true else false) ≡ b
    same true = refl
    same false = refl

not-not : (b : Bool) → b ≡ not (not b)
not-not true = refl
not-not false = refl

-- Of two timestamps that differ, exactly one is later than the other.
pub is_later_timestamp-not :
    (t u : ℕ) → t ≢ u → is_later_timestamp t u ≡ not (is_later_timestamp u t)
is_later_timestamp-not t u other = elim (lt_or_le t u) [
  | inl below ↦
      rw (later_if_below t u below, later_if_above u t below)
        (not-not (is_timestamp_wrap_around t u))
  | inr above ↦ rw (later_if_above t u (omega arith), later_if_below u t (omega arith)) refl
]
