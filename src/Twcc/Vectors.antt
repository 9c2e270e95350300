-- ===== src/Twcc/Vectors.antt =====
-- The packing of full vectors, and the whole packing loop.
use mini_sfu.Base.{
  ℕ, ◌+◌, ◌<◌, ◌≤◌, ◌≡◌, refl, sym, ap, ◌∙◌, inl, inr, subst, false, List, [], ◌∷◌, ◌++◌, ltb, ◌==◌,
  length, take, drop, All, arith, Bool-cases, length-append, All-append, All-map, All-take,
  All-drop, take-append-drop, length-take, length-drop, ◌&&◌, not,
}
use mathlib.Core.List.{append-nil, append_assoc}
use mini_sfu.Twcc.{
  Runs, fresh_runs, end_run, store_status, rescan, end_vector, pack_status, fill_symbols,
  status_chunk,
}
use mini_sfu.Twcc.Chunks.{decode_chunk, decode_chunks, decode-one_bit, decode-two_bit}
use mini_sfu.Twcc.Packing.{Scanned, rescan-Scanned, rescan-status_list, pack_statuses}
use mini_sfu.Twcc.Rounds.{Shape, Emits, Emits-nothing, Emits-word, end_run-lem}

all_small : (r : Runs) → Scanned r.status_list r → All (λ x. x ≤ 2) r.status_list
all_small r v =
    All-map (λ y. y ≤ r.max_status) (λ x. x ≤ 2) r.status_list (λ y h. omega (arith, v.top))
      v.bounded

-- The symbols that a vector takes off the front of the list, and the rest.
two_bit_split :
    (xs : List ℕ)
    → 7 ≤ length xs
    → All (λ x. x ≤ 2) xs
    → (decode_chunk (status_chunk 1 (fill_symbols 1 7 0 0 xs).0) ≡ take 7 xs)
      × ((fill_symbols 1 7 0 0 xs).1 ≡ drop 7 xs)
      × (status_chunk 1 (fill_symbols 1 7 0 0 xs).0 < 65536)
two_bit_split xs long small = rw (take-append-drop 7 xs) at (
    decode-two_bit (take 7 xs) (drop 7 xs) (length-take 7 xs long) (
      All-map (λ x. x ≤ 2) (λ x. x < 4) (take 7 xs) (λ x h. omega arith)
        (All-take (λ x. x ≤ 2) 7 xs small)))

one_bit_split :
    (xs : List ℕ)
    → 14 ≤ length xs
    → All (λ x. x ≤ 1) xs
    → (decode_chunk (status_chunk 0 (fill_symbols 0 14 0 0 xs).0) ≡ take 14 xs)
      × ((fill_symbols 0 14 0 0 xs).1 ≡ drop 14 xs)
      × (status_chunk 0 (fill_symbols 0 14 0 0 xs).0 < 65536)
one_bit_split xs long small = rw (take-append-drop 14 xs) at (
    decode-one_bit (take 14 xs) (drop 14 xs) (length-take 14 xs long) (
      All-map (λ x. x ≤ 1) (λ x. x < 2) (take 14 xs) (λ x h. omega arith)
        (All-take (λ x. x ≤ 1) 14 xs small)))

fresh_scanned : (xs : List ℕ) → Scanned [] (fresh_runs xs)
fresh_scanned xs = record { bounded = tt; top = omega arith; uniform = λ e. tt; begin = λ e. refl }

rescan-Shape :
    (xs : List ℕ) → length xs ≤ 7 → All (λ x. x ≤ 2) xs → Shape (rescan (fresh_runs xs) xs)
rescan-Shape xs short small = record {
  scanned =
      subst (λ t. Scanned t (rescan (fresh_runs xs) xs))
        (sym (rescan-status_list (fresh_runs xs) xs))
        (rescan-Scanned [] (fresh_runs xs) xs small (fresh_scanned xs));
  mixed = λ e. omega (arith, ap length (rescan-status_list (fresh_runs xs) xs));
  mixed_large = λ e f. omega (arith, ap length (rescan-status_list (fresh_runs xs) xs));
}

no_more : (xs : List ℕ) → length xs ≡ 0 → xs ≡ []
no_more [] h = refl
no_more (x ∷ xs) h = absurd (omega arith)

empty-Shape : (xs : List ℕ) → length xs ≡ 0 → Shape (fresh_runs xs)
empty-Shape xs none_left = rw (no_more xs none_left) (record {
  scanned = fresh_scanned [];
  mixed = λ e. absurd (cc);
  mixed_large = λ e. absurd (cc);
})

-- the two full vectors
two_bit_full :
    (r : Runs)
    → Scanned r.status_list r
    → 7 ≤ length r.status_list
    → length r.status_list ≤ 14
    → let (chunk, rest) = fill_symbols 1 7 0 0 r.status_list in
      Emits r.status_list (rescan (fresh_runs rest) rest, status_chunk 1 chunk ∷ [])
      × Shape (rescan (fresh_runs rest) rest)
two_bit_full r v long short = rw (split.1) (
  Emits-word (rescan (fresh_runs rest) rest) _ r.status_list (take 7 r.status_list) split.0 split.2
      (omega (arith, length-take 7 r.status_list long))
      (ap (λ t. take 7 r.status_list ++ t) (rescan-status_list (fresh_runs rest) rest)
        ∙ take-append-drop 7 r.status_list),
  rescan-Shape rest (omega (arith, length-drop 7 r.status_list long))
      (All-drop (λ x. x ≤ 2) 7 r.status_list (all_small r v)),
)
  where
    rest : List ℕ
    rest = drop 7 r.status_list

    split :
        (decode_chunk (status_chunk 1 (fill_symbols 1 7 0 0 r.status_list).0)
          ≡ take 7 r.status_list)
        × ((fill_symbols 1 7 0 0 r.status_list).1 ≡ drop 7 r.status_list)
        × (status_chunk 1 (fill_symbols 1 7 0 0 r.status_list).0 < 65536)
    split = two_bit_split r.status_list long (all_small r v)

one_bit_full :
    (r : Runs)
    → All (λ x. x ≤ 1) r.status_list
    → length r.status_list ≡ 14
    → let (chunk, rest) = fill_symbols 0 14 0 0 r.status_list in
      Emits r.status_list (fresh_runs rest, status_chunk 0 chunk ∷ []) × Shape (fresh_runs rest)
one_bit_full r small full = rw (split.1) (
  Emits-word (fresh_runs rest) _ r.status_list (take 14 r.status_list) split.0 split.2
      (omega (arith, length-take 14 r.status_list (omega arith)))
      (take-append-drop 14 r.status_list),
  empty-Shape rest (omega (arith, length-drop 14 r.status_list (omega arith))),
)
  where
    rest : List ℕ
    rest = drop 14 r.status_list

    split :
        (decode_chunk (status_chunk 0 (fill_symbols 0 14 0 0 r.status_list).0)
          ≡ take 14 r.status_list)
        × ((fill_symbols 0 14 0 0 r.status_list).1 ≡ drop 14 r.status_list)
        × (status_chunk 0 (fill_symbols 0 14 0 0 r.status_list).0 < 65536)
    split = one_bit_split r.status_list (omega arith) small

pub fresh-Shape : Shape (fresh_runs [])
fresh-Shape = empty-Shape [] refl

end_vector-lem :
    (r : Runs)
    → Scanned r.status_list r
    → (r.same ≡ false → length r.status_list ≤ 14)
    → Emits r.status_list (end_vector r) × Shape (end_vector r).0
unfolding end_vector
end_vector-lem r v waiting =
    elim (Bool-cases (not r.same && r.max_status == 2 && ltb 6 (length r.status_list))) [
      | inl two ↦ rw two (two_bit_full r v (ground arith) (ground arith))
      | inr not_two ↦ elim (Bool-cases (not r.same && ltb 13 (length r.status_list))) [
        | inl one ↦
            rw (not_two, one)
              (one_bit_full r
                (All-map (λ y. y ≤ r.max_status) (λ x. x ≤ 1) r.status_list
                  (λ y h. ground (arith, v.top)) v.bounded)
                (ground arith))
        | inr not_one ↦
            rw (not_two, not_one)
              (
                Emits-nothing r,
                record {
                  scanned = v;
                  mixed = λ e. ground arith;
                  mixed_large = λ e f. ground arith;
                },
              )
      ]
    ]

pub decode_chunks-append :
    (vs ws : List ℕ) → decode_chunks (vs ++ ws) ≡ decode_chunks vs ++ decode_chunks ws
decode_chunks-append [] ws = refl
decode_chunks-append (v ∷ vs) ws =
    ap (λ t. decode_chunk v ++ t) (decode_chunks-append vs ws)
    ∙ sym (append_assoc (decode_chunk v) (decode_chunks vs) (decode_chunks ws))

-- One round after another: the words of both, and the statuses that wait then.
Emits-then :
    (r : Runs) (vs xs ys : List ℕ) (p : Runs × List ℕ)
    → Emits xs (r, vs)
    → Emits (r.status_list ++ ys) p
    → Emits (xs ++ ys) (p.0, vs ++ p.1)
Emits-then r vs xs ys p first second = record {
  kept =
      ap (λ t. t ++ p.0.status_list) (decode_chunks-append vs p.1)
      ∙ (append_assoc (decode_chunks vs) (decode_chunks p.1) p.0.status_list
          ∙ (ap (λ t. decode_chunks vs ++ t) second.kept
              ∙ (sym (append_assoc (decode_chunks vs) r.status_list ys)
                  ∙ ap (λ t. t ++ ys) first.kept)));
  words = All-append (λ w. w < 65536) vs p.1 first.words second.words;
  room = omega (
    arith,
    first.room,
    second.room,
    length-append vs p.1,
    length-append xs ys,
    length-append r.status_list ys,
  );
}

pack_status-lem :
    (r : Runs) (s : ℕ)
    → s ≤ 2
    → length r.status_list < 8192
    → Shape r
    → Emits (r.status_list ++ (s ∷ [])) (pack_status r s) × Shape (pack_status r s).0
unfolding pack_status store_status
pack_status-lem r s small short v =
    let (emits, ended) = end_run-lem r s small short v in
    let (after, shape) =
      end_vector-lem (store_status (end_run r s).0 s) ended.stored
        (λ e. omega (arith, ended.waiting e, length-append (end_run r s).0.status_list (s ∷ []))) in
    (Emits-then (end_run r s).0 (end_run r s).1 r.status_list (s ∷ []) _ emits after, shape)

-- The whole loop: what is written and what waits are the statuses, in their order.
pub pack_statuses-lem :
    (r : Runs) (xs : List ℕ)
    → All (λ x. x ≤ 2) xs
    → length r.status_list + length xs < 8192
    → Shape r
    → Emits (r.status_list ++ xs) (pack_statuses r xs) × Shape (pack_statuses r xs).0
pack_statuses-lem r [] small short v = (rw (append-nil r.status_list) (Emits-nothing r), v)
pack_statuses-lem r (x ∷ xs) small short v =
    let (emits, shape) = pack_status-lem r x small.0 (omega arith) v in
    let (rest, end) =
      pack_statuses-lem (pack_status r x).0 xs small.1
        (omega (arith, emits.room, length-append r.status_list (x ∷ []))) shape in
    (
      rw (append_assoc r.status_list (x ∷ []) xs) at (
          Emits-then (pack_status r x).0 (pack_status r x).1 (r.status_list ++ (x ∷ [])) xs _ emits
            rest),
      end,
    )
