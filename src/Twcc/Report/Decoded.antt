-- ===== src/Twcc/Report/Decoded.antt =====
-- A report, read back by its format.
use mini_sfu.Base.{
  ℕ, ◌+◌, ◌*◌, ◌≤◌, ◌<◌, ◌≡◌, refl, sym, ap, ap₂, ◌∙◌, inl, inr, Bool, true, List, [], ◌∷◌, ◌++◌,
  ◌==◌, length, arith, Bool-cases, length-append, All, All-append, drop,
}
use mathlib.Core.List.{append-nil}
use mini_sfu.Twcc.{RtpExtInfo, Runs, fresh_runs, last_chunk}
use mini_sfu.Twcc.Chunks.{decode_chunks}
use mini_sfu.Twcc.Packing.{pack_statuses}
use mini_sfu.Twcc.Rounds.{Shape, Emits, run_word}
use mini_sfu.Twcc.Vectors.{pack_statuses-lem, fresh-Shape, decode_chunks-append}
use mini_sfu.Twcc.Report.Written.{statuses, length-statuses, statuses-small, words_bytes}
use mini_sfu.Twcc.Report.Started.{reference}

-- the words that bytes are read as
abbrev pub bytes_words : List ℕ → List ℕ
bytes_words [] = []
bytes_words (b ∷ []) = []
bytes_words (b ∷ c ∷ bs) = (b * 256 + c) ∷ bytes_words bs

-- the statuses that a payload names, behind its header of sixteen bytes
abbrev pub decode_payload : List ℕ → List ℕ
decode_payload payload = decode_chunks (bytes_words (drop 16 payload))

pub bytes_words-words_bytes :
    (ws : List ℕ) → All (λ w. w < 65536) ws → bytes_words (words_bytes ws) ≡ ws
bytes_words-words_bytes [] h = refl
bytes_words-words_bytes (w ∷ ws) h = ap₂ ◌∷◌ (omega (arith, h.0)) (bytes_words-words_bytes ws h.1)

-- all the words of a report
abbrev pub all_words : List RtpExtInfo → List ℕ
all_words pkts =
    let p = pack_statuses (fresh_runs []) (statuses (reference pkts) pkts) in p.1 ++ last_chunk p.0

-- whether the statuses that wait at the end are all the same
abbrev pub ends_same : List RtpExtInfo → Bool
ends_same pkts = (pack_statuses (fresh_runs []) (statuses (reference pkts) pkts)).0.same

pub packed :
    (pkts : List RtpExtInfo)
    → length pkts < 8192
    → let p = pack_statuses (fresh_runs []) (statuses (reference pkts) pkts) in
      Emits (statuses (reference pkts) pkts) p × Shape p.0
packed pkts short =
    pack_statuses-lem (fresh_runs []) (statuses (reference pkts) pkts)
      (statuses-small (reference pkts) pkts) (omega (arith, length-statuses (reference pkts) pkts))
      fresh-Shape

pub length-last_chunk : (r : Runs) → length (last_chunk r) ≤ 1
unfolding last_chunk
length-last_chunk r = ground arith

pub all_words-room : (pkts : List RtpExtInfo) → length pkts ≤ 293 → length (all_words pkts) ≤ 42
all_words-room pkts short =
    let p = pack_statuses (fresh_runs []) (statuses (reference pkts) pkts) in
    omega (
      arith,
      length-append p.1 (last_chunk p.0),
      length-last_chunk p.0,
      (packed pkts (omega arith)).0.room,
      length-statuses (reference pkts) pkts,
    )

last_chunk-same :
    (r : Runs)
    → Shape r
    → r.same ≡ true
    → length r.status_list < 8192
    → (decode_chunks (last_chunk r) ≡ r.status_list) × All (λ w. w < 65536) (last_chunk r)
unfolding last_chunk
last_chunk-same r v same short = elim (Bool-cases (length r.status_list == 0)) [
  | inl none_left ↦ rw none_left (sym (no_more r.status_list (ground arith)), tt)
  | inr left ↦
      let word = run_word r v.scanned same (ground arith) short in
      rw (left, same) (append-nil _ ∙ word.0, (word.1, tt))
]
  where
    no_more : (xs : List ℕ) → length xs ≡ 0 → xs ≡ []
    no_more [] h = refl
    no_more (x ∷ xs) h = absurd (omega arith)

-- If the statuses that wait at the end are all the same, the words name the statuses.
pub all_words-decode :
    (pkts : List RtpExtInfo)
    → length pkts < 8192
    → ends_same pkts ≡ true
    → (decode_chunks (all_words pkts) ≡ statuses (reference pkts) pkts)
      × All (λ w. w < 65536) (all_words pkts)
all_words-decode pkts short same =
    let p = pack_statuses (fresh_runs []) (statuses (reference pkts) pkts) in
    let (emits, shape) = packed pkts short in
    let (last, words) =
      last_chunk-same p.0 shape same
        (omega (arith, emits.room, length-statuses (reference pkts) pkts)) in
    (
      decode_chunks-append p.1 (last_chunk p.0)
          ∙ (ap (λ t. decode_chunks p.1 ++ t) last ∙ emits.kept),
      All-append (λ w. w < 65536) p.1 (last_chunk p.0) emits.words words,
    )
