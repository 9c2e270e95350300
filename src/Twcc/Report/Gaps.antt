-- ===== src/Twcc/Report/Gaps.antt =====
-- The packets of a report are numbered without a gap, and those that came are those noted.
use mini_sfu.Base.{
  ℕ, zero, suc, ◌+◌, ◌-◌, ◌<◌, ◌≡◌, ◌≢◌, refl, sym, subst, ap, ◌∙◌, false, List, [], ◌∷◌, ◌++◌, ltb,
  ◌==◌, if◌then◌else◌, length, length-append, u32, arith, le→ltb_false, All,
}
use mini_sfu.Twcc.{RtpExtInfo}
use mini_sfu.Twcc.Report.{fill_gaps, lost_packets}

-- the numbers go up by one, from `n`
abbrev pub CountsFrom : ℕ → List RtpExtInfo → Type 0
CountsFrom n [] = Unit {0}
CountsFrom n (x ∷ xs) = (x.ext_tsn ≡ n) × CountsFrom (n + 1) xs

-- the numbers go up, from above `n`, and stay below 2 ^ 32
abbrev pub Rises : ℕ → List RtpExtInfo → Type 0
Rises n [] = Unit {0}
Rises n (x ∷ xs) = (n < x.ext_tsn) × (x.ext_tsn < 4294967296) × Rises x.ext_tsn xs

-- the packets that came
abbrev pub arrived : List RtpExtInfo → List RtpExtInfo
arrived [] = []
arrived (x ∷ xs) = let rest = arrived xs in if x.timestamp == 0 then rest else x ∷ rest

lost_packets-CountsFrom :
    (rounds n : ℕ) (xs : List RtpExtInfo)
    → CountsFrom (n + rounds) xs
    → CountsFrom n (lost_packets rounds n ++ xs)
lost_packets-CountsFrom zero n xs h = subst (λ k. CountsFrom k xs) (omega arith) h
lost_packets-CountsFrom (suc rounds) n xs h =
    (refl, lost_packets-CountsFrom rounds (n + 1) xs (subst (λ k. CountsFrom k xs) (omega arith) h))

length-lost_packets : (rounds n : ℕ) → length (lost_packets rounds n) ≡ rounds
length-lost_packets zero n = refl
length-lost_packets (suc rounds) n = ap suc (length-lost_packets rounds (n + 1))

arrived-lost_packets :
    (rounds n : ℕ) (xs : List RtpExtInfo) → arrived (lost_packets rounds n ++ xs) ≡ arrived xs
arrived-lost_packets zero n xs = refl
arrived-lost_packets (suc rounds) n xs = arrived-lost_packets rounds (n + 1) xs

-- After a report that ended at `last`, packets with later numbers give a list that counts on from
-- it up to the greatest number, which is the new end, and in which just these packets came.
pub fill_gaps-CountsFrom :
    (last : ℕ) (xs : List RtpExtInfo)
    → last ≢ 0
    → Rises last xs
    → All (λ x. x.timestamp ≢ 0) xs
    → let (pkts, end) = fill_gaps last xs in
      CountsFrom (last + 1) pkts × (last + length pkts ≡ end) × (arrived pkts ≡ xs)
unfolding fill_gaps
fill_gaps-CountsFrom last [] begun rises came = (tt, omega arith, refl)
fill_gaps-CountsFrom last (x ∷ xs) begun rises came =
    let not_old : ltb x.ext_tsn last ≡ false = le→ltb_false _ _ (omega (arith, rises.0)) in
    let begun' : (last == 0) ≡ false = ground (arith, begun) in
    let start : u32 (last + 1) ≡ last + 1 = omega (arith, rises.0, rises.1) in
    let x_came : (x.timestamp == 0) ≡ false = ground (arith, came.0) in
    let gap = x.ext_tsn - (last + 1) in
    let (counts, end, same) =
      fill_gaps-CountsFrom x.ext_tsn xs (λ e. absurd (omega (arith, rises.0))) rises.2 came.1 in
    let there : last + 1 + gap ≡ x.ext_tsn = omega (arith, rises.0) in
    rw (not_old, begun', start)
      (
        lost_packets-CountsFrom gap (last + 1) (x ∷ (fill_gaps x.ext_tsn xs).0) (
          sym there,
          subst (λ k. CountsFrom (k + 1) (fill_gaps x.ext_tsn xs).0) (sym there) counts,
        ),
        omega (
          arith,
          rises.0,
          end,
          length-append (lost_packets gap (last + 1)) (x ∷ (fill_gaps x.ext_tsn xs).0),
          length-lost_packets gap (last + 1),
        ),
        arrived-lost_packets gap (last + 1) (x ∷ (fill_gaps x.ext_tsn xs).0)
            ∙ rw x_came (ap (λ t. x ∷ t) same),
      )
