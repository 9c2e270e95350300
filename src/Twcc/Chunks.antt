-- ===== src/Twcc/Chunks.antt =====
-- The chunks of a report as a reader of the format takes them apart, and the writers of
-- internal/buffer/twcc.go against that.
use mini_sfu.Base.{
  ℕ, zero, suc, ◌+◌, ◌-◌, ◌*◌, ◌/◌, ◌%◌, ◌^◌, ◌<◌, ◌≤◌, ◌≡◌, refl, ap, ◌∙◌, Bool, true, false, List,
  [], ◌∷◌, ◌++◌, ltb, ◌==◌, le→ltb_false, lt→ltb, if◌then◌else◌, length, replicate, All, bit_or,
  arith, ==_iff, u16, Bool-cases, lt_or_le, inl, inr, sym,
}
use mini_sfu.Base.Bits.{bit_or_fields, bit_or_low}
use native.Mathlib.Nat.{pow-zero, pow-suc, mod-eq_of_lt}
use mini_sfu.Twcc.Digits.{
  digits_value, digits_of, digits_of-value, digits_value-lt, digits_value-above,
}
use mini_sfu.Twcc.{set_n_bits, create_symbol, fill_symbols, status_chunk, run_chunk}

-- The type bit, then a symbol with the length of its run, or the size of the symbols that follow.
unfoldable pub decode_chunk : ℕ → List ℕ
decode_chunk c =
    if ltb c 32768
    then replicate (c % 8192) (c / 8192 % 4)
    else if ltb c 49152
    then digits_of 2 14 c
    else digits_of 4 7 c

abbrev pub decode_chunks : List ℕ → List ℕ
decode_chunks [] = []
decode_chunks (c ∷ cs) = decode_chunk c ++ decode_chunks cs

run_chunk-eq : (s n : ℕ) → s < 4 → n < 8192 → run_chunk s n ≡ s * 8192 + n
unfolding run_chunk
run_chunk-eq s n small short = rw (fits) (bit_or_fields 13 s n short)
  where
    fits : u16 (s * 8192) ≡ s * 8192
    fits = omega arith

pub run_chunk-lt : (s n : ℕ) → s < 4 → n < 8192 → run_chunk s n < 65536
run_chunk-lt s n small short = omega (arith, run_chunk-eq s n small short)

-- A run comes back.
pub decode-run_chunk : (s n : ℕ) → s < 4 → n < 8192 → decode_chunk (run_chunk s n) ≡ replicate n s
unfolding decode_chunk
decode-run_chunk s n small short =
    rw (run_chunk-eq s n small short, below, length_part, symbol_part) refl
  where
    below : ltb (s * 8192 + n) 32768 ≡ true
    below = ground arith

    length_part : (s * 8192 + n) % 8192 ≡ n
    length_part = omega arith

    symbol_part : (s * 8192 + n) / 8192 % 4 ≡ s
    symbol_part = omega arith

-- Does the test pass at all numbers less than `n`?
passes : (ℕ → Bool) → ℕ → Bool
passes test zero = true
passes test (suc n) = let rest = passes test n in if test n then rest else false

passes-at : (test : ℕ → Bool) (n c : ℕ) → c < n → passes test n ≡ true → test c ≡ true
unfolding passes
passes-at test zero c low all = absurd (omega arith)
passes-at test (suc n) c low all = elim (Bool-cases (test n)) [
  | inr fails ↦ let wrong : false ≡ true = rw fails at all in absurd (cc)
  | inl good ↦ elim (lt_or_le c n) [
    | inl below ↦ passes-at test n c below (rw good at all)
    | inr top ↦ let same : n ≡ c = omega arith in ap test (sym same) ∙ good
  ]
]

pow_pos : (m : ℕ) → 0 < 2 ^ m
pow_pos zero = omega arith
pow_pos (suc m) = omega (arith, pow-suc 2 m, pow_pos m)

-- A field below the fields that are there is added to them.
set_n_bits-add :
    (q k size start val : ℕ)
    → start + size ≤ 16
    → val < 2 ^ size
    → val * 2 ^ (16 - size - start) < 2 ^ k
    → set_n_bits (q * 2 ^ k) size start val ≡ q * 2 ^ k + val * 2 ^ (16 - size - start)
unfolding set_n_bits
set_n_bits-add q k size start val inside small below =
    rw (le→ltb_false 16 (start + size) inside, mod-eq_of_lt small)
      (bit_or_fields k q (val * 2 ^ (16 - size - start)) below)

create_one :
    (q m i x : ℕ)
    → i + suc m ≡ 14
    → x < 2
    → create_symbol (q * 2 ^ suc m) 0 x i ≡ (q * 2 + x) * 2 ^ m
unfolding create_symbol
create_one q m i x e small =
    set_n_bits-add q (suc m) 1 (1 * i + 2) x (omega arith) small (rw shift below)
    ∙ rw shift (omega (arith, pow-suc 2 m, ap (λ (t : ℕ). q * t) (pow-suc 2 m)))
  where
    shift : 16 - 1 - (1 * i + 2) ≡ m
    shift = omega arith

    below : x * 2 ^ m < 2 ^ suc m
    below = grind (arith, pow-suc 2 m, pow_pos m)

create_two :
    (q m i x : ℕ)
    → i + suc m ≡ 7
    → x < 4
    → create_symbol (q * 2 ^ (2 * suc m)) 1 x i ≡ (q * 4 + x) * 2 ^ (2 * m)
unfolding create_symbol
create_two q m i x e small =
    set_n_bits-add q (2 * suc m) 2 (2 * i + 2) x (omega arith) small (rw shift (rw two_more below))
    ∙ rw shift (rw two_more (omega (arith, ap (λ (t : ℕ). q * t) four_times)))
  where
    shift : 16 - 2 - (2 * i + 2) ≡ 2 * m
    shift = omega arith

    two_more : 2 * suc m ≡ suc (suc (2 * m))
    two_more = omega arith

    four_times : 2 ^ suc (suc (2 * m)) ≡ 4 * 2 ^ (2 * m)
    four_times = omega (arith, pow-suc 2 (2 * m), pow-suc 2 (suc (2 * m)))

    below : x * 2 ^ (2 * m) < 2 ^ suc (suc (2 * m))
    below = grind (arith, four_times, pow_pos (2 * m))

fill_one :
    (n i q : ℕ) (xs ys : List ℕ)
    → i + n ≡ 14
    → length xs ≡ n
    → All (λ x. x < 2) xs
    → fill_symbols 0 n i (q * 2 ^ n) (xs ++ ys) ≡ (digits_value 2 q xs, ys)
unfolding fill_symbols
fill_one zero i q [] ys e len small = ap (λ t. (t, ys)) (omega (arith, pow-zero 2))
fill_one zero i q (x ∷ xs) ys e len small = absurd (omega arith)
fill_one (suc n) i q [] ys e len small = absurd (omega arith)
fill_one (suc n) i q (x ∷ xs) ys e len small =
    rw (create_one q n i x e small.0)
      (fill_one n (i + 1) (q * 2 + x) xs ys (omega arith) (omega arith) small.1)

fill_two :
    (n i q : ℕ) (xs ys : List ℕ)
    → i + n ≡ 7
    → length xs ≡ n
    → All (λ x. x < 4) xs
    → fill_symbols 1 n i (q * 2 ^ (2 * n)) (xs ++ ys) ≡ (digits_value 4 q xs, ys)
unfolding fill_symbols
fill_two zero i q [] ys e len small = ap (λ t. (t, ys)) (omega (arith, pow-zero 2))
fill_two zero i q (x ∷ xs) ys e len small = absurd (omega arith)
fill_two (suc n) i q [] ys e len small = absurd (omega arith)
fill_two (suc n) i q (x ∷ xs) ys e len small =
    rw (create_two q n i x e small.0)
      (fill_two n (i + 1) (q * 4 + x) xs ys (omega arith) (omega arith) small.1)

-- the bits above the symbols, over all symbols there can be
marks_table : passes (λ c. bit_or (32768 + c) 16384 == 49152 + c) 16384 ≡ true
unfolding passes
marks_table = refl

mark_vector : (c : ℕ) → c < 16384 → set_n_bits c 1 0 1 ≡ 32768 + c
unfolding set_n_bits
mark_vector c small = bit_or_low 15 1 c (omega arith)

status_chunk-one : (c : ℕ) → c < 16384 → status_chunk 0 c ≡ 32768 + c
unfolding status_chunk
status_chunk-one c small = rw (mark_vector c small) (no_size (32768 + c))
  where
    no_size : (v : ℕ) → set_n_bits v 1 1 0 ≡ v
    no_size v =
        ap (λ t. set_n_bits t 1 1 0) (omega arith)
        ∙ (set_n_bits-add v 0 1 1 0 (omega arith) (omega arith) (omega arith) ∙ omega arith)

status_chunk-two : (c : ℕ) → c < 16384 → status_chunk 1 c ≡ 49152 + c
unfolding status_chunk set_n_bits
status_chunk-two c small =
    rw (mark_vector c small) ((==_iff _ _).0 (passes-at _ 16384 c small marks_table))

one_bit-word :
    (xs : List ℕ)
    → length xs ≡ 14
    → All (λ x. x < 2) xs
    → decode_chunk (status_chunk 0 (digits_value 2 0 xs)) ≡ xs
unfolding decode_chunk
one_bit-word xs len small = rw (word, not_run, one_bit) symbols
  where
    below : digits_value 2 0 xs < 16384
    below = rw len at (digits_value-lt 2 (omega arith) xs small)

    above : digits_value 2 2 xs ≡ 32768 + digits_value 2 0 xs
    above = rw len at (digits_value-above 2 (omega arith) 2 xs)

    word : status_chunk 0 (digits_value 2 0 xs) ≡ digits_value 2 2 xs
    word = omega (arith, status_chunk-one (digits_value 2 0 xs) below, above)

    not_run : ltb (digits_value 2 2 xs) 32768 ≡ false
    not_run = le→ltb_false _ _ (omega (arith, above))

    one_bit : ltb (digits_value 2 2 xs) 49152 ≡ true
    one_bit = lt→ltb _ _ (omega (arith, above, below))

    symbols : digits_of 2 14 (digits_value 2 2 xs) ≡ xs
    symbols = rw len at (digits_of-value 2 (omega arith) 2 xs small)

two_bit-word :
    (xs : List ℕ)
    → length xs ≡ 7
    → All (λ x. x < 4) xs
    → decode_chunk (status_chunk 1 (digits_value 4 0 xs)) ≡ xs
unfolding decode_chunk
two_bit-word xs len small = rw (word, not_run, two_bit) symbols
  where
    below : digits_value 4 0 xs < 16384
    below = rw len at (digits_value-lt 4 (omega arith) xs small)

    above : digits_value 4 3 xs ≡ 49152 + digits_value 4 0 xs
    above = rw len at (digits_value-above 4 (omega arith) 3 xs)

    word : status_chunk 1 (digits_value 4 0 xs) ≡ digits_value 4 3 xs
    word = omega (arith, status_chunk-two (digits_value 4 0 xs) below, above)

    not_run : ltb (digits_value 4 3 xs) 32768 ≡ false
    not_run = le→ltb_false _ _ (omega (arith, above))

    two_bit : ltb (digits_value 4 3 xs) 49152 ≡ false
    two_bit = le→ltb_false _ _ (omega (arith, above))

    symbols : digits_of 4 7 (digits_value 4 3 xs) ≡ xs
    symbols = rw len at (digits_of-value 4 (omega arith) 3 xs small)

one_bit-lt :
    (xs : List ℕ)
    → length xs ≡ 14
    → All (λ x. x < 2) xs
    → status_chunk 0 (digits_value 2 0 xs) < 65536
one_bit-lt xs len small = omega (arith, below, status_chunk-one (digits_value 2 0 xs) below)
  where
    below : digits_value 2 0 xs < 16384
    below = rw len at (digits_value-lt 2 (omega arith) xs small)

two_bit-lt :
    (xs : List ℕ)
    → length xs ≡ 7
    → All (λ x. x < 4) xs
    → status_chunk 1 (digits_value 4 0 xs) < 65536
two_bit-lt xs len small = omega (arith, below, status_chunk-two (digits_value 4 0 xs) below)
  where
    below : digits_value 4 0 xs < 16384
    below = rw len at (digits_value-lt 4 (omega arith) xs small)

-- A vector comes back, and what stands behind its symbols is left.
pub decode-one_bit :
    (xs ys : List ℕ)
    → length xs ≡ 14
    → All (λ x. x < 2) xs
    → (decode_chunk (status_chunk 0 (fill_symbols 0 14 0 0 (xs ++ ys)).0) ≡ xs)
      × ((fill_symbols 0 14 0 0 (xs ++ ys)).1 ≡ ys)
      × (status_chunk 0 (fill_symbols 0 14 0 0 (xs ++ ys)).0 < 65536)
decode-one_bit xs ys len small =
    rw (fill_one 14 0 0 xs ys (omega arith) len small)
      (one_bit-word xs len small, refl, one_bit-lt xs len small)

pub decode-two_bit :
    (xs ys : List ℕ)
    → length xs ≡ 7
    → All (λ x. x < 4) xs
    → (decode_chunk (status_chunk 1 (fill_symbols 1 7 0 0 (xs ++ ys)).0) ≡ xs)
      × ((fill_symbols 1 7 0 0 (xs ++ ys)).1 ≡ ys)
      × (status_chunk 1 (fill_symbols 1 7 0 0 (xs ++ ys)).0 < 65536)
decode-two_bit xs ys len small =
    rw (fill_two 7 0 0 xs ys (omega arith) len small)
      (two_bit-word xs len small, refl, two_bit-lt xs len small)
