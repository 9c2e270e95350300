-- ===== src/Nack/Pairs.antt =====
-- The loop of `pairs`: who is asked for again, who is given up, and what the pairs say.
use mini_sfu.Base.{
  ℕ, ◌+◌, ◌≤◌, ◌≡◌, refl, sym, ◌&&◌, ◌||◌, List, [], ◌∷◌, ◌++◌, ltb, leb, if◌then◌else◌, arith,
}
use mathlib.Core.List.{append-nil, append_assoc}
use mini_sfu.Nack.{
  Nack, NackQueue, Scan, max_nack_times, note_nack, scan_nack, scan_nacks, scan_start, pairs,
}

-- the entries that are asked for once more, with the request counted
abbrev pub requested : List Nack → List Nack
requested [] = []
requested (x ∷ xs) =
    if leb max_nack_times x.nacked
    then requested xs
    else record x { nacked = x.nacked + 1 } ∷ requested xs

-- the greatest number given up, or `kf` if that is greater
abbrev pub given_up : ℕ → List Nack → ℕ
given_up kf [] = kf
given_up kf (x ∷ xs) = given_up (if leb max_nack_times x.nacked && ltb kf x.sn then x.sn else kf) xs

given_up-ge : (kf : ℕ) (xs : List Nack) → kf ≤ given_up kf xs
given_up-ge kf [] = omega arith
given_up-ge kf (x ∷ xs) =
    ground (arith, given_up-ge (if leb max_nack_times x.nacked && ltb kf x.sn then x.sn else kf) xs)

scan-kept : (s : Scan) (xs : List Nack) → (scan_nacks s xs).kept ≡ s.kept ++ requested xs
unfolding scan_nacks scan_nack note_nack
scan-kept s [] = sym (append-nil s.kept)
scan-kept s (x ∷ xs) = ground (
  arith,
  scan-kept (scan_nack s x) xs,
  append_assoc s.kept (record x { nacked = x.nacked + 1 } ∷ []) (requested xs),
)

scan-kf_sn : (s : Scan) (xs : List Nack) → (scan_nacks s xs).kf_sn ≡ given_up s.kf_sn xs
unfolding scan_nacks scan_nack note_nack
scan-kf_sn s [] = refl
scan-kf_sn s (x ∷ xs) = ground (arith, scan-kf_sn (scan_nack s x) xs)

scan-ask :
    (s : Scan) (xs : List Nack)
    → (scan_nacks s xs).ask_key_frame ≡ (s.ask_key_frame || ltb s.kf_sn (given_up s.kf_sn xs))
unfolding scan_nacks scan_nack note_nack
scan-ask s [] = ground arith
scan-ask s (x ∷ xs) =
    ground (arith, scan-ask (scan_nack s x) xs, given_up-ge (scan_nack s x).kf_sn xs)

-- A due call of `pairs` keeps the entries asked for fewer than three times, each counted once
-- more, and asks for a key frame exactly when it gives up a number above all given up before.
pub pairs_bookkeeping :
    (n : NackQueue)
    → 2 ≤ n.counter
    → let (n', nps, ask) = pairs n in
      (n'.nacks ≡ requested n.nacks)
      × (n'.kf_sn ≡ given_up n.kf_sn n.nacks)
      × (ask ≡ ltb n.kf_sn (given_up n.kf_sn n.nacks))
      × (n'.counter ≡ 0)
unfolding pairs
pairs_bookkeeping n h = ground (
  arith,
  scan-kept (scan_start n) n.nacks,
  scan-kf_sn (scan_start n) n.nacks,
  scan-ask (scan_start n) n.nacks,
)
