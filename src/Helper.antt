-- ===== src/Helper.antt =====
-- internal/sfu/helper.go: the search for a codec that both sides support, and NTP times.
mod Tests
use mini_sfu.Base.{
  ℕ, zero, suc, ◌+◌, ◌-◌, ◌*◌, ◌/◌, ◌%◌, ◌^◌, ◌≤◌, ◌<◌, ◌≡◌, ◌≢◌, refl, ap, Bool, true, false, ◌&&◌,
  Option, none, some, List, [], ◌∷◌, ◌++◌, All, if◌then◌else◌, ◌==◌, Bool-cases, Option-cases, inl,
  inr, ◌⊎◌, bit_or, arith,
}
use mini_sfu.Base.Bits.{bit_or_fields}

-- A codec: its MIME type, as `strings.EqualFold` tells them apart, its fmtp line, and the payload type
-- that it has on a connection.
pub record Codec : Type 0 where
  pub mime_type : ℕ
  pub sdp_fmtp_line : ℕ
  pub payload_type : ℕ

-- the first codec of the list that passes a test
unfoldable pub find_codec : (Codec → Bool) → List Codec → Option Codec
find_codec test [] = none
find_codec test (c ∷ cs) = let rest = find_codec test cs in if test c then some c else rest

abbrev pub same_mime : Codec → Codec → Bool
same_mime needle c = c.mime_type == needle.mime_type

abbrev pub same_codec : Codec → Codec → Bool
same_codec needle c = c.mime_type == needle.mime_type && c.sdp_fmtp_line == needle.sdp_fmtp_line

-- `codecParametersFuzzySearch`; `none` is `ErrCodecNotFound`.
unfoldable pub codec_parameters_fuzzy_search : Codec → List Codec → Option Codec
codec_parameters_fuzzy_search needle haystack = elim (find_codec (same_codec needle) haystack) [
  | some c ↦ some c
  | none ↦ find_codec (same_mime needle) haystack
]

-- Some codec of the list passes the test: the first, after `before`.
pub record IsFirst (test : Codec → Bool) (cs : List Codec) (c : Codec) : Type 0 where
  pub before : List Codec
  pub after : List Codec
  pub place : cs ≡ before ++ (c ∷ after)
  pub passes : test c ≡ true
  pub others : All (λ d. test d ≡ false) before

find_codec-cases :
    (test : Codec → Bool) (cs : List Codec)
    → ((c : Codec) × (find_codec test cs ≡ some c) × IsFirst test cs c)
      ⊎ ((find_codec test cs ≡ none) × All (λ d. test d ≡ false) cs)
unfolding find_codec
find_codec-cases test [] = inr (refl, tt)
find_codec-cases test (d ∷ cs) = elim (Bool-cases (test d)) [
  | inl yes_ ↦ inl (
    d,
    rw yes_ refl,
    record { before = []; after = cs; place = refl; passes = yes_; others = tt },
  )
  | inr no_ ↦ elim (find_codec-cases test cs) [
    | inl (c, e, f) ↦ inl (
      c,
      rw (no_, e) refl,
      record {
        before = d ∷ f.before;
        after = f.after;
        place = ap (λ l. d ∷ l) f.place;
        passes = f.passes;
        others = (no_, f.others);
      },
    )
    | inr (e, all) ↦ inr (rw (no_, e) refl, (no_, all))
  ]
]

-- What the search promises of its result.
pub data Found (needle : Codec) (haystack : List Codec) : Option Codec → Type 0 where
  exact : (c : Codec) → IsFirst (same_codec needle) haystack c → Found needle haystack (some c)
  by_mime :
      (c : Codec)
      → All (λ d. same_codec needle d ≡ false) haystack
      → IsFirst (same_mime needle) haystack c
      → Found needle haystack (some c)
  not_found : All (λ d. same_mime needle d ≡ false) haystack → Found needle haystack none

-- The result is the first codec with the MIME type and the fmtp line; if there is none, the first
-- with the MIME type; and an error if no codec has the MIME type.
pub codec_parameters_fuzzy_search-Found :
    (needle : Codec) (haystack : List Codec)
    → Found needle haystack (codec_parameters_fuzzy_search needle haystack)
unfolding codec_parameters_fuzzy_search
codec_parameters_fuzzy_search-Found needle haystack =
    elim (find_codec-cases (same_codec needle) haystack) [
      | inl (c, e, f) ↦ rw (e, codec_parameters_fuzzy_search) (exact c f)
      | inr (e, all) ↦ elim (find_codec-cases (same_mime needle) haystack) [
        | inl (c, e', f) ↦ rw (e, codec_parameters_fuzzy_search, e') (by_mime c all f)
        | inr (e', none_) ↦ rw (e, codec_parameters_fuzzy_search, e') (not_found none_)
      ]
    ]

-- `timeToNtp` of a time in nanoseconds that is not negative; the shift drops what leaves 64 bits.
pub time_to_ntp : ℕ → ℕ
time_to_ntp ns =
    bit_or ((ns / 1000000000 + 2208988800) * 4294967296 % 18446744073709551616)
      (ns % 1000000000 * 4294967296 / 1000000000)

-- For a time from 1970 on and before the seconds since 1900 leave 32 bits, in 2036, the result is
-- the time since 1900 in units of 2^-32 s, rounded down.
pub time_to_ntp-bounds :
    (ns : ℕ)
    → ns < 2085978496000000000
    → (time_to_ntp ns * 1000000000 ≤ (ns + 2208988800000000000) * 4294967296)
      × ((ns + 2208988800000000000) * 4294967296 < (time_to_ntp ns + 1) * 1000000000)
unfolding time_to_ntp
time_to_ntp-bounds ns early = (omega (arith, whole, joined), omega (arith, whole, joined))
  where
    joined :
        bit_or
          ((ns / 1000000000 + 2208988800) * 4294967296)
          (ns % 1000000000 * 4294967296 / 1000000000)
        ≡ (ns / 1000000000 + 2208988800) * 4294967296 + ns % 1000000000 * 4294967296 / 1000000000
    joined =
        bit_or_fields 32 (ns / 1000000000 + 2208988800) (ns % 1000000000 * 4294967296 / 1000000000)
          (omega arith)

    whole :
        time_to_ntp ns
        ≡ (ns / 1000000000 + 2208988800) * 4294967296 + ns % 1000000000 * 4294967296 / 1000000000
    whole = rw fits joined
      where
        fits :
            (ns / 1000000000 + 2208988800) * 4294967296 % 18446744073709551616
            ≡ (ns / 1000000000 + 2208988800) * 4294967296
        fits = omega arith
