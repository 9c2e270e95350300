-- ===== src/Timestamp/Tests.antt =====
-- The timestamps of buffer.go, and the theorem at two of them.
use mini_sfu.Base.{◌≡◌, refl, false}
use mini_sfu.Timestamp.{is_timestamp_wrap_around, is_later_timestamp}

-- A timestamp far below half of the range above another is taken for an earlier one.
middle_of_the_range : is_later_timestamp 201326592 1 ≡ false
unfolding is_later_timestamp is_timestamp_wrap_around
middle_of_the_range = refl
