-- ===== src/Nack/Coverage.antt =====
-- What the pairs of a report name, read by RFC 4585, against the numbers that are asked for.
use mini_sfu.Base.{
  ℕ, zero, suc, ◌+◌, ◌-◌, ◌*◌, ◌/◌, ◌%◌, ◌^◌, ◌≤◌, ◌<◌, ◌≡◌, ◌≢◌, refl, sym, true, false, List, [],
  ◌∷◌, ◌++◌, map, leb, ◌==◌, if◌then◌else◌, All, bit_or, u16, sub16, arith, inl, inr, lt_or_le,
  le→ltb_false, Bool-cases, ◌⊎◌,
}
use mathlib.Core.List.{append-nil, append_assoc}
use native.Mathlib.Nat.{pow-suc, one-le-pow, pow-le-pow_right}
use mini_sfu.Base.Bits.{bit_or_low}
use mini_sfu.Nack.{
  Nack, NackQueue, NackPair, Scan, max_nack_times, note_nack, scan_nack, scan_nacks, scan_start,
  all_pairs, pairs, bit16,
}
use mini_sfu.Nack.Pairs.{requested}

-- The numbers that the bits of a BLP stand for, the lowest bit first, from `sn` on.
unfoldable pub blp_numbers : ℕ → ℕ → ℕ → List ℕ
blp_numbers zero sn blp = []
blp_numbers (suc bits) sn blp =
    let rest = blp_numbers bits (sn + 1) (blp / 2) in if blp % 2 == 1 then sn ∷ rest else rest

-- The lost numbers that a list of pairs names: each packet identifier, and the sixteen after it.
abbrev pub named : List NackPair → List ℕ
named [] = []
named (p ∷ ps) = (p.packet_id ∷ blp_numbers 16 (p.packet_id + 1) p.lost_packets) ++ named ps

named-append : (ps qs : List NackPair) → named (ps ++ qs) ≡ named ps ++ named qs
named-append [] qs = refl
named-append (p ∷ ps) qs = rw (named-append ps qs) (
    sym (
      append_assoc (p.packet_id ∷ blp_numbers 16 (p.packet_id + 1) p.lost_packets) (named ps)
        (named qs)))

blp_numbers-zero : (bits sn : ℕ) → blp_numbers bits sn 0 ≡ []
unfolding blp_numbers
blp_numbers-zero zero sn = refl
blp_numbers-zero (suc bits) sn = blp_numbers-zero bits (sn + 1)

-- A bit above all others adds its number at the end.
blp_numbers-add :
    (k bits sn blp : ℕ)
    → blp < 2 ^ k
    → k < bits
    → blp_numbers bits sn (2 ^ k + blp) ≡ blp_numbers bits sn blp ++ ((sn + k) ∷ [])
unfolding blp_numbers
blp_numbers-add k zero sn blp h lt = absurd (omega arith)
blp_numbers-add zero (suc bits) sn blp h lt = ground (arith, blp_numbers-zero bits (sn + 1))
blp_numbers-add (suc k) (suc bits) sn blp h lt =
    ground (arith, pow-suc 2 k, blp_numbers-add k bits (sn + 1) (blp / 2))

-- Every entry lies in the cycle that begins at `65536 * c`, above its first number and above the
-- entry before it.
abbrev pub Ascends : ℕ → ℕ → List Nack → Type 0
Ascends c b [] = Unit {0}
Ascends c b (x ∷ xs) =
    (65536 * c < x.sn) × (b < x.sn) × (x.sn < 65536 * c + 65536) × Ascends c x.sn xs

-- the numbers that are asked for, as RTP has them
abbrev pub asked : List Nack → List ℕ
asked xs = map (λ x. u16 x.sn) (requested xs)

-- The pair in hand: none yet, or one whose bits lie below the number `b` noted last.
abbrev Open : ℕ → ℕ → Scan → Type 0
Open c b s =
    ((s.np.packet_id ≡ 0) × (s.nps ≡ []))
    ⊎ ((0 < s.np.packet_id)
        × (65536 * c + s.np.packet_id ≤ b)
        × (b < 65536 * c + 65536)
        × (s.np.lost_packets < 2 ^ (b - 65536 * c - s.np.packet_id)))

all_pairs_open : (s : Scan) → s.np.packet_id ≢ 0 → all_pairs s ≡ s.nps ++ (s.np ∷ [])
all_pairs_open s h = ground arith

all_pairs_none : (s : Scan) → (s.np.packet_id ≡ 0) × (s.nps ≡ []) → all_pairs s ≡ []
all_pairs_none s h = ground arith

-- the bit that an entry adds to the pair in hand
abbrev bit_of : Scan → Nack → ℕ
bit_of s x = sub16 (sub16 (u16 x.sn) s.np.packet_id) 1

module _ (s : Scan) (x : Nack) where
  note_nack_new :
      (s.np.packet_id ≡ 0) ⊎ (u16 (s.np.packet_id + 16) < u16 x.sn)
      → ((note_nack s x).np ≡ record { packet_id = u16 x.sn; lost_packets = 0 })
        × ((note_nack s x).nps ≡ all_pairs s)
  unfolding note_nack
  note_nack_new h = ground arith

  note_nack_same :
      s.np.packet_id ≢ 0
      → u16 x.sn ≤ u16 (s.np.packet_id + 16)
      → ((note_nack s x).np ≡ record {
        packet_id = s.np.packet_id;
        lost_packets = bit_or s.np.lost_packets (bit16 (bit_of s x));
      })
        × ((note_nack s x).nps ≡ s.nps)
  unfolding note_nack
  note_nack_same h le = ground arith

module _ (c b : ℕ) (s : Scan) (x : Nack) where
  -- what both cases of the loop's test have in common
  module _ (lo : 65536 * c < x.sn) (gt : b < x.sn) (hi : x.sn < 65536 * c + 65536) where
    module _ (pos : 0 < s.np.packet_id) (le : 65536 * c + s.np.packet_id ≤ b)
        (near : u16 x.sn ≤ u16 (s.np.packet_id + 16))
        (blp : s.np.lost_packets < 2 ^ (b - 65536 * c - s.np.packet_id)) where
      bit_of_lem :
          (s.np.packet_id + 1 + bit_of s x ≡ u16 x.sn)
          × (bit_of s x < 16)
          × (b - 65536 * c - s.np.packet_id ≤ bit_of s x)
          × (x.sn - 65536 * c - s.np.packet_id ≡ suc (bit_of s x))
      bit_of_lem = omega arith

      below_bit : s.np.lost_packets < 2 ^ bit_of s x
      below_bit = omega (
        arith,
        pow-le-pow_right {n = 2} (omega arith) {i = b - 65536 * c - s.np.packet_id} {j = bit_of s x}
            bit_of_lem.2,
      )

      bit_or-bit16 :
          bit_or s.np.lost_packets (bit16 (bit_of s x)) ≡ 2 ^ bit_of s x + s.np.lost_packets
      bit_or-bit16 =
          ground (arith, bit_of_lem, bit_or_low (bit_of s x) 1 s.np.lost_packets below_bit)

    module _ (new : (s.np.packet_id ≡ 0) ⊎ (u16 (s.np.packet_id + 16) < u16 x.sn)) where
      new-named : named (all_pairs (note_nack s x)) ≡ named (all_pairs s) ++ (u16 x.sn ∷ [])
      new-named =
          rw
            (
              all_pairs_open (note_nack s x) (ground (arith, note_nack_new s x new)),
              (note_nack_new s x new).0,
              (note_nack_new s x new).1,
              named-append,
              blp_numbers-zero,
            )
            refl

      new-Open : Open c x.sn (note_nack s x)
      new-Open =
          rw (note_nack_new s x new).0
            (inr (omega arith, omega arith, omega arith, one-le-pow _ 2 (omega arith)))

    module _ (pos : 0 < s.np.packet_id) (le : 65536 * c + s.np.packet_id ≤ b)
        (near : u16 x.sn ≤ u16 (s.np.packet_id + 16))
        (blp : s.np.lost_packets < 2 ^ (b - 65536 * c - s.np.packet_id)) where
      same-named : named (all_pairs (note_nack s x)) ≡ named (all_pairs s) ++ (u16 x.sn ∷ [])
      same-named =
          let same = note_nack_same s x (omega arith) near in
          let bit = bit_of_lem pos le near blp in
          rw
            (
              all_pairs_open (note_nack s x) (ground (arith, same)),
              all_pairs_open s (omega arith),
              same.0,
              same.1,
              bit_or-bit16 pos le near blp,
              named-append,
              named-append,
              blp_numbers-add _ 16 (s.np.packet_id + 1) _ (below_bit pos le near blp) bit.1,
              bit.0,
            )
            (simp (append_assoc, append-nil))

      same-Open : Open c x.sn (note_nack s x)
      same-Open =
          let same = note_nack_same s x (omega arith) near in
          let bit = bit_of_lem pos le near blp in
          rw (same.0, bit_or-bit16 pos le near blp, bit.3)
            (inr (
              pos,
              omega arith,
              hi,
              omega (arith, below_bit pos le near blp, pow-suc 2 (bit_of s x)),
            ))

    note_nack-named :
        Open c b s → named (all_pairs (note_nack s x)) ≡ named (all_pairs s) ++ (u16 x.sn ∷ [])
    note_nack-named (inl (z, e)) = new-named (inl z)
    note_nack-named (inr (pos, le, top, blp)) =
        elim (lt_or_le (u16 (s.np.packet_id + 16)) (u16 x.sn)) [
          | inl far ↦ new-named (inr far)
          | inr near ↦ same-named pos le near blp
        ]

    note_nack-Open : Open c b s → Open c x.sn (note_nack s x)
    note_nack-Open (inl (z, e)) = new-Open (inl z)
    note_nack-Open (inr (pos, le, top, blp)) =
        elim (lt_or_le (u16 (s.np.packet_id + 16)) (u16 x.sn)) [
          | inl far ↦ new-Open (inr far)
          | inr near ↦ same-Open pos le near blp
        ]

Ascends-weaken : (c b b' : ℕ) (xs : List Nack) → b ≤ b' → Ascends c b' xs → Ascends c b xs
Ascends-weaken c b b' [] h a = tt
Ascends-weaken c b b' (x ∷ xs) h a = (a.0, omega arith, a.2, a.3)

scan_nack-expired :
    (s : Scan) (x : Nack)
    → leb max_nack_times x.nacked ≡ true
    → ((scan_nack s x).np ≡ s.np) × ((scan_nack s x).nps ≡ s.nps)
unfolding scan_nack
scan_nack-expired s x h = ground arith

scan_nack-due :
    (s : Scan) (x : Nack) → leb max_nack_times x.nacked ≡ false → scan_nack s x ≡ note_nack s x
unfolding scan_nack
scan_nack-due s x h = rw h

scan_nacks-nil : (s : Scan) → scan_nacks s [] ≡ s
unfolding scan_nacks
scan_nacks-nil s = refl

scan_nacks-cons :
    (s : Scan) (x : Nack) (xs : List Nack) → scan_nacks s (x ∷ xs) ≡ scan_nacks (scan_nack s x) xs
unfolding scan_nacks
scan_nacks-cons s x xs = refl

-- The loop appends the numbers of the entries that it keeps, in their order.
scan_nacks-named :
    (c b : ℕ) (s : Scan) (xs : List Nack)
    → Open c b s
    → Ascends c b xs
    → named (all_pairs (scan_nacks s xs)) ≡ named (all_pairs s) ++ asked xs
scan_nacks-named c b s [] o a = rw scan_nacks-nil (sym (append-nil _))
scan_nacks-named c b s (x ∷ xs) o a = elim (Bool-cases (leb max_nack_times x.nacked)) [
  | inl old ↦
      let same = scan_nack-expired s x old in
      let ih =
        scan_nacks-named c b (scan_nack s x) xs (rw (same.0, same.1) o)
          (Ascends-weaken c b x.sn xs (omega arith) a.3) in
      rw (scan_nacks-cons s x xs, ih, same.0, same.1, old)
  | inr due ↦
      let ih =
        scan_nacks-named c x.sn (note_nack s x) xs (note_nack-Open c b s x a.0 a.1 a.2 o) a.3 in
      rw
        (
          scan_nacks-cons s x xs,
          scan_nack-due s x due,
          ih,
          note_nack-named c b s x a.0 a.1 a.2 o,
          due,
        )
        (append_assoc _ (u16 x.sn ∷ []) (asked xs))
]

-- Entries with the RTP number zero open no pair.
scan_nacks-zeros :
    (s : Scan) (zs : List Nack)
    → All (λ z. u16 z.sn ≡ 0) zs
    → (s.np.packet_id ≡ 0) × (s.nps ≡ [])
    → ((scan_nacks s zs).np.packet_id ≡ 0) × ((scan_nacks s zs).nps ≡ [])
unfolding scan_nacks scan_nack note_nack
scan_nacks-zeros s [] h o = o
scan_nacks-zeros s (z ∷ zs) h o = scan_nacks-zeros (scan_nack s z) zs h.1 (ground arith)

scan_nacks-append :
    (s : Scan) (xs ys : List Nack) → scan_nacks s (xs ++ ys) ≡ scan_nacks (scan_nacks s xs) ys
unfolding scan_nacks
scan_nacks-append s [] ys = refl
scan_nacks-append s (x ∷ xs) ys = scan_nacks-append (scan_nack s x) xs ys

-- A due call of `pairs` on a queue that holds, behind entries with the RTP number zero, ascending numbers
-- of one cycle of 65536, none of them the first of the cycle, so over no wrap: the pairs of the report name exactly the
-- numbers of the entries that were asked for fewer than three times, in their order.
pub pairs-named :
    (n : NackQueue) (c : ℕ) (zs xs : List Nack)
    → 2 ≤ n.counter
    → n.nacks ≡ zs ++ xs
    → All (λ z. u16 z.sn ≡ 0) zs
    → Ascends c (65536 * c) xs
    → named (pairs n).1 ≡ asked xs
unfolding pairs
pairs-named n c zs xs due e zeros a =
    let s = scan_nacks (scan_start n) zs in
    let z = scan_nacks-zeros (scan_start n) zs zeros (refl, refl) in
    rw (le→ltb_false n.counter 2 due, e, scan_nacks-append (scan_start n) zs xs)
      (rw (scan_nacks-named c (65536 * c) s xs (inl z) a, all_pairs_none s z))
