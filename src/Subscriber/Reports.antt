-- ===== src/Subscriber/Reports.antt =====
-- The reports that go with the tracks of a subscriber.
use mini_sfu.Base.{
  ℕ, zero, suc, ◌+◌, ◌-◌, ◌*◌, ◌≤◌, ◌<◌, ◌≡◌, refl, ap, ◌∙◌, sym, subst, Bool, true, false, List,
  [], ◌∷◌, ◌++◌, leb, u32, ltb, if◌then◌else◌, length, take, drop, All, map, min, Bool-cases, inl,
  inr, arith, lt_or_le, lt→ltb, le→ltb_false, leb→le, length-append, ◌==◌, length-drop, drop-past,
  take-all, take-drop-append, All-append,
}
use mathlib.Core.List.{append-nil, append_assoc}
use mini_sfu.Helper.{time_to_ntp}
use mini_sfu.Subscriber.{
  Track, Chunk, cname_chunk, mid_chunk, Report, sender_report, source_description, Subscriber,
  diff_ts, create_sender_report, create_source_description_chunks, collect, collect_all,
  send_groups, down_tracks_reports,
}

-- What a peer reads of the packets: the sender reports, and the chunks.
abbrev pub senders_of : List Report → List Report
senders_of [] = []
senders_of (sender_report a b c d e ∷ rs) = sender_report a b c d e ∷ senders_of rs
senders_of (source_description g ∷ rs) = senders_of rs

abbrev pub chunks_of : List Report → List Chunk
chunks_of [] = []
chunks_of (sender_report a b c d e ∷ rs) = chunks_of rs
chunks_of (source_description g ∷ rs) = g ++ chunks_of rs

abbrev pub flatten {ℓ} : {A : Type ℓ} → List (List A) → List A
flatten [] = []
flatten (x ∷ xs) = x ++ flatten xs

-- A source description holds 1 to 15 chunks.
abbrev pub IsSmall : Report → Type 0
IsSmall (sender_report a b c d e) = Unit
IsSmall (source_description g) = (1 ≤ length g) × (length g ≤ 15)

senders_of-append : (xs ys : List Report) → senders_of (xs ++ ys) ≡ senders_of xs ++ senders_of ys
senders_of-append [] ys = refl
senders_of-append (sender_report a b c d e ∷ xs) ys =
    ap (λ l. sender_report a b c d e ∷ l) (senders_of-append xs ys)
senders_of-append (source_description g ∷ xs) ys = senders_of-append xs ys

chunks_of-append : (xs ys : List Report) → chunks_of (xs ++ ys) ≡ chunks_of xs ++ chunks_of ys
chunks_of-append [] ys = refl
chunks_of-append (sender_report a b c d e ∷ xs) ys = chunks_of-append xs ys
chunks_of-append (source_description g ∷ xs) ys =
    ap (λ l. g ++ l) (chunks_of-append xs ys) ∙ sym (append_assoc g (chunks_of xs) (chunks_of ys))

length-drop_le : (n : ℕ) (xs : List Chunk) → length (drop n xs) ≤ length xs - n
length-drop_le zero xs = omega arith
length-drop_le (suc n) [] = omega arith
length-drop_le (suc n) (x ∷ xs) = omega (arith, length-drop_le n xs)

-- only sender reports
record OnlySenders (r : List Report) : Type 0 where
  no_chunks : chunks_of r ≡ []
  all_senders : senders_of r ≡ r
  small : All IsSmall r

never : ℕ → Bool
never j = false

-- the end of group `j`
group_end : List Chunk → ℕ → ℕ
group_end sd j = if leb (length sd) ((j + 1) * 15) then length sd else (j + 1) * 15

group : List Chunk → ℕ → List Chunk
group sd j = take (group_end sd j - j * 15) (drop (j * 15) sd)

group_end-min : (sd : List Chunk) (j : ℕ) → group_end sd j ≡ min ((j + 1) * 15) (length sd)
unfolding group_end
group_end-min sd j = ground arith

-- A group is the next 15 chunks, or those that are left.
group-drop : (sd : List Chunk) (j : ℕ) → group sd j ++ drop ((j + 1) * 15) sd ≡ drop (j * 15) sd
unfolding group group_end
group-drop sd j = elim (Bool-cases (leb (length sd) ((j + 1) * 15))) [
  | inl last ↦
      rw
        (
          last,
          drop-past ((j + 1) * 15) sd (leb→le _ _ last),
          append-nil (take (length sd - j * 15) (drop (j * 15) sd)),
        )
        (take-all (length sd - j * 15) (drop (j * 15) sd) (length-drop_le (j * 15) sd))
  | inr more ↦
      let next : (j + 1) * 15 ≡ j * 15 + 15 = omega arith in
      let size : (j + 1) * 15 - j * 15 ≡ 15 = omega arith in
      rw (more, size, next) (take-drop-append (j * 15) 15 sd)
]

-- The packets have the sender reports `r`, if there are chunks, and the chunks `cs`, in small groups.
record Sends (r : List Report) (cs : List Chunk) (ws : List (List Report)) : Type 0 where
  chunks : chunks_of (flatten ws) ≡ cs
  senders : senders_of (flatten ws) ≡ (if length cs == 0 then [] else r)
  all_small : All IsSmall (flatten ws)

nothing-Sends : (r : List Report) (cs : List Chunk) → cs ≡ [] → Sends r cs []
nothing-Sends r cs e = rw e (record { chunks = refl; senders = refl; all_small = tt })

none-OnlySenders : OnlySenders []
none-OnlySenders = record { no_chunks = refl; all_senders = refl; small = tt }

either_way : (b : Bool) (xs : List Report) → (if b then xs else xs) ≡ xs
either_way true xs = refl
either_way false xs = refl

-- A write of the group `g` with the reports `r`, and what follows it.
more-Sends :
    (r : List Report) (g cs : List Chunk) (ws : List (List Report))
    → OnlySenders r
    → 1 ≤ length g
    → length g ≤ 15
    → Sends [] cs ws
    → Sends r (g ++ cs) ((r ++ (source_description g ∷ [])) ∷ ws)
more-Sends r g cs ws only some_ few rest =
    let written = r ++ (source_description g ∷ []) in
    record {
      chunks =
          chunks_of-append written (flatten ws)
          ∙ rw
              (
                chunks_of-append r (source_description g ∷ []),
                only.no_chunks,
                rest.chunks,
                append-nil g,
              )
              refl;
      senders =
          senders_of-append written (flatten ws)
          ∙ rw
              (
                senders_of-append r (source_description g ∷ []),
                only.all_senders,
                rest.senders,
                either_way (length cs == 0) [],
                append-nil r,
                append-nil r,
                occupied,
              )
              refl;
      all_small =
          All-append IsSmall written (flatten ws)
            (All-append IsSmall r (source_description g ∷ []) only.small ((some_, few), tt))
            rest.all_small;
    }
  where
    occupied : (length (g ++ cs) == 0) ≡ false
    occupied = ground (arith, length-append g cs)

-- What is left of the chunks after `n` of them.
left-length : (n : ℕ) (xs : List Chunk) → length (drop n xs) ≡ length xs - n
left-length n xs = elim (lt_or_le n (length xs)) [
  | inl more ↦ omega (arith, length-drop n xs (omega arith))
  | inr done ↦ rw (drop-past n xs done) (omega arith)
]

group-few :
    (sd : List Chunk) (j : ℕ)
    → j * 15 < length sd
    → (1 ≤ length (group sd j)) × (length (group sd j) ≤ 15)
group-few sd j more =
    let sizes : length (group sd j) + length (drop ((j + 1) * 15) sd) ≡ length (drop (j * 15) sd) =
      sym (length-append (group sd j) (drop ((j + 1) * 15) sd))
      ∙ ap (λ (l : List Chunk). length l) (group-drop sd j) in
    let before = left-length (j * 15) sd in
    let after = left-length ((j + 1) * 15) sd in (omega arith, omega arith)

group-Sends :
    (rounds i j : ℕ) (r : List Report) (sd : List Chunk)
    → length sd ≤ rounds + i
    → i ≡ min (j * 15) (length sd)
    → OnlySenders r
    → Sends r (drop (j * 15) sd) (send_groups never rounds i j r sd)
unfolding send_groups never group group_end
group-Sends zero i j r sd enough at only =
    nothing-Sends r (drop (j * 15) sd) (drop-past (j * 15) sd (omega arith))
group-Sends (suc rounds) i j r sd enough at only = elim (lt_or_le i (length sd)) [
  | inr done ↦
      rw (le→ltb_false _ _ done)
        (nothing-Sends r (drop (j * 15) sd) (drop-past (j * 15) sd (omega arith)))
  | inl more ↦
      let (some_, few) = group-few sd j (omega arith) in
      rw (lt→ltb _ _ more) (
        subst
          (λ (cs : List Chunk). Sends r cs (
            (r ++ (source_description (group sd j) ∷ []))
            ∷ send_groups never rounds (group_end sd j) (j + 1) [] sd))
          (group-drop sd j)
          (more-Sends r (group sd j) (drop ((j + 1) * 15) sd)
            (send_groups never rounds (group_end sd j) (j + 1) [] sd) only some_ few
            (group-Sends rounds (group_end sd j) (j + 1) [] sd (omega (arith, group_end-min sd j))
              (group_end-min sd j) none-OnlySenders)))
]

abbrev pub all_tracks : List (ℕ × List Track) → List Track
all_tracks [] = []
all_tracks (e ∷ es) = e.1 ++ all_tracks es

abbrev pub bound_of : List Track → List Track
bound_of [] = []
bound_of (t ∷ ts) = let rest = bound_of ts in if t.bound then t ∷ rest else rest

-- what a bound track is to report
abbrev pub report_of : ℕ → Track → Report
report_of now t =
    sender_report t.ssrc (time_to_ntp now) (u32 (t.last_ts + diff_ts t now)) t.packet_count
      t.octet_count

abbrev pub pair_of : Track → List Chunk
pair_of t = cname_chunk t.ssrc t.stream_id ∷ mid_chunk t.ssrc t.mid ∷ []

-- the reports and the chunks of bound tracks
due : ℕ → List Track → List Report × List Chunk
due now ts = (map (report_of now) ts, flatten (map pair_of ts))

collect-due : (ts : List Track) (now : ℕ) → collect ts now ≡ due now (bound_of ts)
unfolding collect create_sender_report create_source_description_chunks due
collect-due [] now = refl
collect-due (t ∷ ts) now = elim (Bool-cases t.bound) [
  | inl yes_ ↦ rw (yes_, collect-due ts now) refl
  | inr no_ ↦ rw (no_, collect-due ts now) refl
]

bound_of-append : (xs ys : List Track) → bound_of (xs ++ ys) ≡ bound_of xs ++ bound_of ys
bound_of-append [] ys = refl
bound_of-append (t ∷ xs) ys = elim (Bool-cases t.bound) [
  | inl yes_ ↦ rw (yes_, bound_of-append xs ys) refl
  | inr no_ ↦ rw (no_, bound_of-append xs ys) refl
]

due-append :
    (now : ℕ) (xs ys : List Track)
    → due now (xs ++ ys) ≡ ((due now xs).0 ++ (due now ys).0, (due now xs).1 ++ (due now ys).1)
unfolding due
due-append now [] ys = refl
due-append now (x ∷ xs) ys =
    ap (λ (d : List Report × List Chunk). (report_of now x ∷ d.0, pair_of x ++ d.1))
      (due-append now xs ys)

due-nothing : (now : ℕ) → due now [] ≡ ([], [])
unfolding due
due-nothing now = refl

collect_all-due :
    (es : List (ℕ × List Track)) (now : ℕ) → collect_all es now ≡ due now (bound_of (all_tracks es))
unfolding collect_all
collect_all-due [] now = sym (due-nothing now)
collect_all-due (e ∷ es) now =
    rw (collect-due e.1 now, collect_all-due es now, bound_of-append e.1 (all_tracks es))
      (sym (due-append now (bound_of e.1) (bound_of (all_tracks es))))

due-OnlySenders : (now : ℕ) (ts : List Track) → OnlySenders (due now ts).0
unfolding due
due-OnlySenders now [] = none-OnlySenders
due-OnlySenders now (t ∷ ts) =
    let rest = due-OnlySenders now ts in
    record {
      no_chunks = rest.no_chunks;
      all_senders = ap (λ l. report_of now t ∷ l) rest.all_senders;
      small = (tt, rest.small);
    }

due-always :
    (now : ℕ) (ts : List Track)
    → (if length (due now ts).1 == 0 then [] else (due now ts).0) ≡ (due now ts).0
unfolding due
due-always now [] = refl
due-always now (t ∷ ts) = ground arith

-- While the connection is open, a round sends the sender report of each bound track and its two
-- chunks, all of them, in order and once, and no source description with more than 15 chunks.
pub down_tracks_reports_complete :
    (s : Subscriber) (now : ℕ)
    → let ts = bound_of (all_tracks s.tracks) in
      let sent = flatten (down_tracks_reports s now (λ j. false)) in
      (senders_of sent ≡ map (report_of now) ts)
      × (chunks_of sent ≡ flatten (map pair_of ts))
      × All IsSmall sent
unfolding down_tracks_reports due never
down_tracks_reports_complete s now =
    let ts = bound_of (all_tracks s.tracks) in
    let (r, sd) = due now ts in
    let sends =
      group-Sends (length sd) 0 0 r sd (omega arith) (omega arith) (due-OnlySenders now ts) in
    rw (collect_all-due s.tracks now)
      (sends.senders ∙ due-always now ts, sends.chunks, sends.all_small)

-- the writes up to the first that finds the connection closed
abbrev pub until : (ℕ → Bool) → ℕ → List (List Report) → List (List Report)
until lost j [] = []
until lost j (w ∷ ws) = let rest = until lost (j + 1) ws in w ∷ (if lost j then [] else rest)

send_groups-until :
    (lost : ℕ → Bool) (rounds i j : ℕ) (r : List Report) (sd : List Chunk)
    → send_groups lost rounds i j r sd ≡ until lost j (send_groups never rounds i j r sd)
unfolding send_groups never group group_end
send_groups-until lost zero i j r sd = refl
send_groups-until lost (suc rounds) i j r sd = elim (Bool-cases (ltb i (length sd))) [
  | inl more ↦ rw more (
      ap
        (λ (rest : List (List Report)).
          (r ++ (source_description (group sd j) ∷ [])) ∷ (if lost j then [] else rest))
        (send_groups-until lost rounds (group_end sd j) (j + 1) [] sd))
  | inr done ↦ rw done refl
]

-- A write that finds the connection closed is the last one, and changes no other.
pub down_tracks_reports-until :
    (s : Subscriber) (now : ℕ) (lost : ℕ → Bool)
    → down_tracks_reports s now lost ≡ until lost 0 (down_tracks_reports s now (λ j. false))
unfolding down_tracks_reports never
down_tracks_reports-until s now lost =
    let (r, sd) = collect_all s.tracks now in send_groups-until lost (length sd) 0 0 r sd
