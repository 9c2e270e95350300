-- ===== src/Helper/Tests.antt =====
-- Runs of helper.go, and the theorems at them.
use mini_sfu.Base.{ℕ, ◌+◌, ◌*◌, ◌≡◌, refl, some, List, [], ◌∷◌}
use mini_sfu.Helper.{Codec, find_codec, codec_parameters_fuzzy_search, time_to_ntp}

abbrev codec : ℕ → ℕ → Codec
codec mime line = record { mime_type = mime; sdp_fmtp_line = line; payload_type = 100 + line }

abbrev codecs : List Codec
codecs = codec 1 1 ∷ codec 2 4 ∷ codec 2 5 ∷ []

prefers_the_line : codec_parameters_fuzzy_search (codec 2 5) codecs ≡ some (codec 2 5)
unfolding codec_parameters_fuzzy_search find_codec
prefers_the_line = refl

takes_the_type : codec_parameters_fuzzy_search (codec 2 6) codecs ≡ some (codec 2 4)
unfolding codec_parameters_fuzzy_search find_codec
takes_the_type = refl

half_a_second : time_to_ntp 1500000000 ≡ 2208988801 * 4294967296 + 2147483648
unfolding time_to_ntp
half_a_second = refl
