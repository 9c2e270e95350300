-- ===== src/Payload/H264.antt =====
-- Key frames in H264 payloads of RFC 6184.
use mini_sfu.Base.{
  ℕ, zero, suc, ◌+◌, ◌*◌, ◌/◌, ◌%◌, ◌≤◌, ◌<◌, ◌≡◌, refl, Bool, true, false, ◌||◌, Option, some,
  List, [], ◌∷◌, ◌++◌, ◌==◌, length, length-append, get_elem?-append, sym, get_or, get_elem?,
  get_elem?-lt, get_elem?-append_right, get_elem?-append_left, Bool-cases, lt_or_le, ltb, leb,
  if◌then◌else◌, All, arith, ◌⊎◌, inl, inr,
}
use mathlib.Core.List.{append_assoc}
use mini_sfu.Payload.{◌>>=◌, unit_offset, scan_units, is_h264_keyframe, has_bit}

-- A round of the loop inside the payload, once its size is read: what it comes to.
module _ (fuel offset : ℕ) (payload : List ℕ) (i hi lo : ℕ) (inside : i + 2 ≤ length payload)
    (at_hi : get_elem? payload i ≡ some hi) (at_lo : get_elem? payload (i + 1) ≡ some lo) where
  abbrev cut_off : Bool
  cut_off = ltb (length payload) (i + 2 + (hi * 256 + lo)) || leb (hi * 256 + lo) offset

  not_past : leb (length payload) i ≡ false
  not_past = ground (arith, inside)

  not_short : ltb (length payload) (i + 2) ≡ false
  not_short = ground (arith, inside)

  round_cut_off : cut_off ≡ true → scan_units (suc fuel) offset payload i ≡ some false
  unfolding scan_units
  round_cut_off e = rw (not_past, not_short, at_hi, at_lo, e) refl

  round_reads :
      (c : ℕ)
      → cut_off ≡ false
      → get_elem? payload (i + 2 + offset) ≡ some c
      → scan_units (suc fuel) offset payload i ≡ (
          if c % 32 == 5
          then some true
          else scan_units fuel offset payload (i + 2 + (hi * 256 + lo)))
  unfolding scan_units
  round_reads c e at_c = rw (not_past, not_short, at_hi, at_lo, e, at_c) refl

  round_ends :
      (c : ℕ)
      → cut_off ≡ false
      → get_elem? payload (i + 2 + offset) ≡ some c
      → ((b : Bool) × (scan_units (suc fuel) offset payload i ≡ some b))
        ⊎ ((i' : ℕ) × (i < i')
            × (scan_units (suc fuel) offset payload i ≡ scan_units fuel offset payload i'))
  round_ends c e at_c = elim (Bool-cases (c % 32 == 5)) [
    | inl t ↦ inl (true, rw (round_reads c e at_c, t) refl)
    | inr t ↦ inr (i + 2 + (hi * 256 + lo), omega arith, rw (round_reads c e at_c, t) refl)
  ]

  -- It returns, or goes on further right.
  unit_round :
      ((b : Bool) × (scan_units (suc fuel) offset payload i ≡ some b))
      ⊎ ((i' : ℕ) × (i < i')
          × (scan_units (suc fuel) offset payload i ≡ scan_units fuel offset payload i'))
  unit_round = elim (Bool-cases cut_off) [
    | inl e ↦ inl (false, round_cut_off e)
    | inr e ↦
        let (c, at_c) = get_elem?-lt payload (i + 2 + offset) (ground (arith, e)) in
        round_ends c e at_c
  ]

past_end :
    (fuel offset : ℕ) (payload : List ℕ) (i : ℕ)
    → length payload < i + 2
    → scan_units (suc fuel) offset payload i ≡ some false
unfolding scan_units
past_end fuel offset payload i h = ground (arith, h)

-- The loop ends: every round moves right, so the bytes left are enough rounds.
scan_units-total :
    (fuel offset : ℕ) (payload : List ℕ) (i : ℕ)
    → length payload ≤ fuel + i
    → (b : Bool) × (scan_units (suc fuel) offset payload i ≡ some b)
scan_units-total zero offset payload i h = (false, past_end zero offset payload i (omega arith))
scan_units-total (suc fuel) offset payload i h = elim (lt_or_le (length payload) (i + 2)) [
  | inl past ↦ (false, past_end (suc fuel) offset payload i past)
  | inr inside ↦
      let (hi, at_hi) = get_elem?-lt payload i (omega arith) in
      let (lo, at_lo) = get_elem?-lt payload (i + 1) (omega arith) in
      elim (unit_round (suc fuel) offset payload i hi lo inside at_hi at_lo) [
        | inl done ↦ done
        | inr (i', further, e) ↦ rw e (scan_units-total fuel offset payload i' (omega arith))
      ]
]

abbrev Returns : Option Bool → Type 0
Returns o = (b : Bool) × (o ≡ some b)

if-Returns : (t : Bool) (x y : Option Bool) → Returns x → Returns y → Returns (if t then x else y)
if-Returns true x y hx hy = hx
if-Returns false x y hx hy = hy

fragment-Returns :
    (rest : List ℕ)
    → Returns (
        if ltb (suc (length rest)) 2
        then some false
        else (get_elem? rest 0 >>= λ header.
            some (if has_bit header 7 then header % 32 == 5 else false)))
fragment-Returns [] = (false, refl)
fragment-Returns (header ∷ rest) = if-Returns _ _ _ (false, refl) (_, refl)

-- For every payload the loop ends within its fuel and no index is out of range: the test returns.
pub is_h264_keyframe-total : (payload : List ℕ) → (b : Bool) × (is_h264_keyframe payload ≡ some b)
unfolding is_h264_keyframe
is_h264_keyframe-total [] = (false, refl)
is_h264_keyframe-total (c ∷ rest) =
    if-Returns (ltb (suc (length rest)) 1) _ _ (false, refl)
      (if-Returns (c % 32 == 0) _ _ (false, refl)
        (if-Returns (leb (c % 32) 23) _ _ (c % 32 == 5, refl)
          (if-Returns (leb (c % 32) 27) _ _
            (scan_units-total (suc (length rest)) (unit_offset (c % 32)) (c ∷ rest)
              (if c % 32 == 24 then 1 else 3) (omega arith))
            (if-Returns (leb (c % 32) 29) _ _ (fragment-Returns rest) (false, refl)))))

-- The units of an aggregate after its header: each is its size in two bytes, and its bytes.
pub encode_units : List (List ℕ) → List ℕ
encode_units [] = []
encode_units (u ∷ us) = length u / 256 ∷ length u % 256 ∷ (u ++ encode_units us)

-- Some unit has the type of a key frame (IDR), in the byte after its decoding offset.
abbrev pub has_idr : ℕ → List (List ℕ) → Bool
has_idr offset [] = false
has_idr offset (u ∷ us) = get_or u offset 0 % 32 == 5 || has_idr offset us

-- Every unit has the byte of its type, and its size fits two bytes.
abbrev pub AreUnits : ℕ → List (List ℕ) → Type 0
AreUnits offset us = All (λ u. (offset < length u) × (length u < 65536)) us

module _ (fuel offset : ℕ) (pre u after : List ℕ) (lo : offset < length u)
    (hi : length u < 65536) where
  abbrev whole : List ℕ
  whole = pre ++ (length u / 256 ∷ length u % 256 ∷ (u ++ after))

  length-whole : length whole ≡ length pre + 2 + length u + length after
  length-whole = omega (
    arith,
    length-append pre (length u / 256 ∷ length u % 256 ∷ (u ++ after)),
    length-append u after,
  )

  -- The loop reads the unit that begins at its index.
  unit_read : scan_units (suc fuel) offset whole (length pre) ≡ (
      if get_or u offset 0 % 32 == 5
      then some true
      else scan_units fuel offset whole (length pre + 2 + length u))
  unit_read = rw size (
      round_reads fuel offset whole (length pre) (length u / 256) (length u % 256)
        (omega (arith, length-whole))
        (get_elem?-append pre (length u % 256 ∷ (u ++ after)) (length u / 256))
        (get_elem?-append_right pre (length u / 256 ∷ length u % 256 ∷ (u ++ after)) 1)
        (get_or u offset 0) (ground (arith, length-whole)) type_byte)
    where
      size : length pre + 2 + length u ≡ length pre + 2 + (length u / 256 * 256 + length u % 256)
      size = omega arith

      index : length pre + 2 + offset ≡ length pre + suc (suc offset)
      index = omega arith

      type_byte : get_elem? whole (length pre + 2 + offset) ≡ some (get_or u offset 0)
      type_byte =
          rw
            (
              index,
              get_elem?-append_right pre (length u / 256 ∷ length u % 256 ∷ (u ++ after))
                  (suc (suc offset)),
            )
            (get_elem?-append_left u after offset 0 lo)

scan_units-encode :
    (us : List (List ℕ)) (fuel offset : ℕ) (pre : List ℕ)
    → AreUnits offset us
    → length us ≤ fuel
    → scan_units (suc fuel) offset (pre ++ encode_units us) (length pre) ≡ some (has_idr offset us)
unfolding encode_units
scan_units-encode [] fuel offset pre are enough =
    past_end fuel offset (pre ++ []) (length pre) (omega (arith, length-append pre []))
scan_units-encode (u ∷ us) zero offset pre are enough = absurd (omega arith)
scan_units-encode (u ∷ us) (suc fuel) offset pre are enough =
    elim (Bool-cases (get_or u offset 0 % 32 == 5)) [
      | inl t ↦ rw (unit_read (suc fuel) offset pre u (encode_units us) are.0.0 are.0.1, t) refl
      | inr t ↦
          rw (unit_read (suc fuel) offset pre u (encode_units us) are.0.0 are.0.1, t, index, bytes)
            (scan_units-encode us fuel offset pre' are.1 (omega arith))
    ]
  where
    pre' : List ℕ
    pre' = pre ++ (length u / 256 ∷ length u % 256 ∷ u)

    index : length pre + 2 + length u ≡ length pre'
    index = omega (arith, length-append pre (length u / 256 ∷ length u % 256 ∷ u))

    bytes :
        pre ++ (length u / 256 ∷ length u % 256 ∷ (u ++ encode_units us)) ≡ pre' ++ encode_units us
    bytes = sym (append_assoc pre (length u / 256 ∷ length u % 256 ∷ u) (encode_units us))

module _ (c : ℕ) (body : List ℕ) where
  -- the branch of an aggregate
  aggregate_branch :
      24 ≤ c % 32
      → c % 32 ≤ 27
      → is_h264_keyframe (c ∷ body)
        ≡ scan_units
            (suc (suc (length body)))
            (unit_offset (c % 32))
            (c ∷ body)
            (if c % 32 == 24 then 1 else 3)
  unfolding is_h264_keyframe
  aggregate_branch lo hi = ground arith

length-encode_units : (us : List (List ℕ)) → length us ≤ length (encode_units us)
unfolding encode_units
length-encode_units [] = omega arith
length-encode_units (u ∷ us) =
    omega (arith, length-append u (encode_units us), length-encode_units us)

-- The bytes of the decoding order number, which only STAP-A has not.
abbrev pub HasOrderNumber : ℕ → List ℕ → Type 0
HasOrderNumber kind don = length don ≡ (if kind == 24 then 0 else 2)

-- An aggregate (STAP-A, STAP-B, MTAP16 or MTAP24: the type in its header is 24 to 27) of units
-- that have their type byte and whose sizes fit two bytes is a key frame exactly if one of its
-- units has the type of one, 5, read after the decoding offset of 0, 3 or 4 bytes.
pub is_h264_keyframe-encode :
    (c kind : ℕ) (don : List ℕ) (us : List (List ℕ))
    → c % 32 ≡ kind
    → 24 ≤ kind
    → kind ≤ 27
    → HasOrderNumber kind don
    → AreUnits (unit_offset kind) us
    → is_h264_keyframe (c ∷ (don ++ encode_units us)) ≡ some (has_idr (unit_offset kind) us)
unfolding is_h264_keyframe
is_h264_keyframe-encode c kind don us e lo hi order are =
    rw (aggregate_branch c (don ++ encode_units us) (rw e lo) (rw e hi), e, start)
      (scan_units-encode us (suc (length (don ++ encode_units us))) (unit_offset kind) (c ∷ don) are
        (omega (arith, length-append don (encode_units us), length-encode_units us)))
  where
    start : (if kind == 24 then 1 else 3) ≡ suc (length don)
    start = ground (arith, order)
