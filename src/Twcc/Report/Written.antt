-- ===== src/Twcc/Report/Written.antt =====
-- What the loop over the packets leaves in the payload and in the deltas.
use mini_sfu.Base.Int.{ℤ, sub_quot}
use mini_sfu.Base.{
  ℕ, suc, ◌+◌, ◌*◌, ◌≤◌, ◌≡◌, refl, sym, ap, ap₂, ◌∙◌, inl, inr, true, some, List, [], ◌∷◌, ◌++◌,
  ◌==◌, if◌then◌else◌, length, arith, Bool-cases, le→leb, length-append, All,
}
use mathlib.Core.List.{append-nil, append_assoc}
use mini_sfu.Twcc.{RtpExtInfo, Responder, pack_status}
use mini_sfu.Twcc.Packing.{pack_statuses}
use mini_sfu.Twcc.Report.{
  be16, write_chunks, delta_status, delta_bytes, write_delta, Report, start_report, note_arrival,
  report_packet, report_packets,
}

abbrev pub words_bytes : List ℕ → List ℕ
words_bytes [] = []
words_bytes (w ∷ ws) = be16 w ++ words_bytes ws

pub length-words_bytes : (ws : List ℕ) → length (words_bytes ws) ≡ 2 * length ws
length-words_bytes [] = omega arith
length-words_bytes (w ∷ ws) = omega (arith, length-words_bytes ws)

pub words_bytes-append :
    (vs ws : List ℕ) → words_bytes (vs ++ ws) ≡ words_bytes vs ++ words_bytes ws
words_bytes-append [] ws = refl
words_bytes-append (v ∷ vs) ws = ap (λ t. be16 v ++ t) (words_bytes-append vs ws)

-- While they fit, the words are put behind the payload.
pub write_chunks-fits :
    (t : Responder) (ws : List ℕ)
    → length t.payload + 2 * length ws ≤ 100
    → write_chunks t ws ≡ some (record t { payload = t.payload ++ words_bytes ws })
unfolding write_chunks
write_chunks-fits t [] h =
    ap (λ (l : List ℕ). some (record t { payload = l })) (sym (append-nil t.payload))
write_chunks-fits t (w ∷ ws) h = rw (le→leb (length t.payload + 2) 100 (omega arith)) (
    write_chunks-fits (record t { payload = t.payload ++ be16 w }) ws
      (omega (arith, length-append t.payload (be16 w)))
    ∙ ap (λ (l : List ℕ). some (record t { payload = l }))
        (append_assoc t.payload (be16 w) (words_bytes ws)))

-- the time that the next delta is taken from, the status and the delta of one packet
abbrev pub next_time : ℕ → ℕ → ℕ
next_time since time = if time == 0 then since else time

abbrev pub status_at : ℕ → ℕ → ℕ
status_at since time = if time == 0 then 0 else delta_status (sub_quot time since 250)

abbrev pub delta_at : ℕ → ℕ → List ℕ
delta_at since time = if time == 0 then [] else delta_bytes (sub_quot time since 250)

abbrev pub statuses : ℕ → List RtpExtInfo → List ℕ
statuses since [] = []
statuses since (x ∷ xs) = status_at since x.timestamp ∷ statuses (next_time since x.timestamp) xs

abbrev pub all_deltas : ℕ → List RtpExtInfo → List ℕ
all_deltas since [] = []
all_deltas since (x ∷ xs) =
    delta_at since x.timestamp ++ all_deltas (next_time since x.timestamp) xs

abbrev pub last_time : ℕ → List RtpExtInfo → ℕ
last_time since [] = since
last_time since (x ∷ xs) = last_time (next_time since x.timestamp) xs

-- how many came
abbrev pub received : List RtpExtInfo → ℕ
received [] = 0
received (x ∷ xs) = (if x.timestamp == 0 then 0 else 1) + received xs

pub length-statuses : (since : ℕ) (xs : List RtpExtInfo) → length (statuses since xs) ≡ length xs
length-statuses since [] = refl
length-statuses since (x ∷ xs) = ap suc (length-statuses (next_time since x.timestamp) xs)

pub statuses-small : (since : ℕ) (xs : List RtpExtInfo) → All (λ s. s ≤ 2) (statuses since xs)
unfolding delta_status
statuses-small since [] = tt
statuses-small since (x ∷ xs) = (ground arith, statuses-small (next_time since x.timestamp) xs)

-- the report after a packet, once it has its header
abbrev pub noted : Report → ℕ → Report
noted p time = record p {
  resp = record p.resp { deltas = p.resp.deltas ++ delta_at p.timestamp time };
  timestamp = next_time p.timestamp time;
}

length-delta_bytes : (d : ℤ) → length (delta_bytes d) ≤ 2
unfolding delta_bytes
length-delta_bytes d = ground arith

pub write_delta-fits :
    (t : Responder) (d : ℤ)
    → length t.deltas + 2 ≤ 200
    → write_delta t d ≡ some (record t { deltas = t.deltas ++ delta_bytes d })
unfolding write_delta
write_delta-fits t d fits =
    rw (le→leb (length t.deltas + length (delta_bytes d)) 200 (omega (arith, length-delta_bytes d)))
      refl

pub note_arrival-started :
    (base count : ℕ) (p : Report) (time : ℕ)
    → p.first_recv ≡ true
    → length p.resp.deltas + 2 * (if time == 0 then 0 else 1) ≤ 200
    → note_arrival base count p time ≡ some (noted p time, status_at p.timestamp time)
unfolding note_arrival start_report
note_arrival-started base count p time started fits = elim (Bool-cases (time == 0)) [
  | inl lost ↦ rw lost (
      ap (λ (l : List ℕ). some (record p { resp = record p.resp { deltas = l } }, 0))
        (sym (append-nil p.resp.deltas)))
  | inr came ↦
      rw (came, started, write_delta-fits p.resp (sub_quot time p.timestamp 250) (rw came at fits))
        refl
]

-- The report after packets, once it has its header: the words of their statuses are behind the
-- payload, and their deltas behind the deltas.
abbrev pub written : Report → List RtpExtInfo → Report
written p xs = record p {
  resp = record p.resp {
    payload = p.resp.payload ++ words_bytes (pack_statuses p.runs (statuses p.timestamp xs)).1;
    deltas = p.resp.deltas ++ all_deltas p.timestamp xs;
  };
  runs = (pack_statuses p.runs (statuses p.timestamp xs)).0;
  timestamp = last_time p.timestamp xs;
}

pub report_packet-started :
    (base count : ℕ) (p : Report) (x : RtpExtInfo)
    → p.first_recv ≡ true
    → length p.resp.payload + 2 * length (pack_status p.runs (status_at p.timestamp x.timestamp)).1
      ≤ 100
    → length p.resp.deltas + 2 * received (x ∷ []) ≤ 200
    → report_packet base count p x
      ≡ some (record (noted p x.timestamp) {
        resp = record (noted p x.timestamp).resp {
          payload =
              p.resp.payload
              ++ words_bytes (pack_status p.runs (status_at p.timestamp x.timestamp)).1;
        };
        runs = (pack_status p.runs (status_at p.timestamp x.timestamp)).0;
      })
unfolding report_packet
report_packet-started base count p x started room fits =
    rw
      (
        note_arrival-started base count p x.timestamp started (omega arith),
        write_chunks-fits (noted p x.timestamp).resp
            (pack_status p.runs (status_at p.timestamp x.timestamp)).1 room,
      )
      refl

-- the report after one packet
abbrev pub one_written : Report → ℕ → Report
one_written p time = record (noted p time) {
  resp = record (noted p time).resp {
    payload = p.resp.payload ++ words_bytes (pack_status p.runs (status_at p.timestamp time)).1;
  };
  runs = (pack_status p.runs (status_at p.timestamp time)).0;
}

written-cons :
    (p : Report) (x : RtpExtInfo) (xs : List RtpExtInfo)
    → written (one_written p x.timestamp) xs ≡ written p (x ∷ xs)
written-cons p x xs =
    ap₂
      (λ (l m : List ℕ). record (written p (x ∷ xs)) {
        resp = record p.resp { payload = l; deltas = m };
      })
      (append_assoc p.resp.payload (words_bytes v) (words_bytes w)
        ∙ ap (λ t. p.resp.payload ++ t) (sym (words_bytes-append v w)))
      (append_assoc p.resp.deltas (delta_at p.timestamp x.timestamp)
        (all_deltas (next_time p.timestamp x.timestamp) xs))
  where
    v : List ℕ
    v = (pack_status p.runs (status_at p.timestamp x.timestamp)).1

    w : List ℕ
    w =
        (pack_statuses (one_written p x.timestamp).runs
          (statuses (next_time p.timestamp x.timestamp) xs)).1

pub report_packets-started :
    (base count : ℕ) (p : Report) (xs : List RtpExtInfo)
    → p.first_recv ≡ true
    → length p.resp.payload + 2 * length (pack_statuses p.runs (statuses p.timestamp xs)).1 ≤ 100
    → length p.resp.deltas + 2 * received xs ≤ 200
    → report_packets base count p xs ≡ some (written p xs)
unfolding report_packets
report_packets-started base count p [] started room fits =
    ap₂ (λ (l m : List ℕ). some (record p { resp = record p.resp { payload = l; deltas = m } }))
      (sym (append-nil p.resp.payload)) (sym (append-nil p.resp.deltas))
report_packets-started base count p (x ∷ xs) started room fits =
    rw (report_packet-started base count p x started (omega (arith, parts)) (omega arith)) (
      report_packets-started base count (one_written p x.timestamp) xs started
        (omega (arith, parts, length-append p.resp.payload (words_bytes v), length-words_bytes v))
        (ground (
          arith,
          length-append p.resp.deltas (delta_at p.timestamp x.timestamp),
          length-delta_bytes (sub_quot x.timestamp p.timestamp 250),
        ))
      ∙ ap some (written-cons p x xs))
  where
    v : List ℕ
    v = (pack_status p.runs (status_at p.timestamp x.timestamp)).1

    parts :
        length (pack_statuses p.runs (statuses p.timestamp (x ∷ xs))).1
        ≡ length v
          + length
              (pack_statuses
                (one_written p x.timestamp).runs
                (statuses (next_time p.timestamp x.timestamp) xs)).1
    parts =
        length-append v
          (pack_statuses (one_written p x.timestamp).runs
            (statuses (next_time p.timestamp x.timestamp) xs)).1
