-- ===== src/Twcc/Report/Started.antt =====
-- The loop over the packets from its start: packets that did not come before the first that did
-- write nothing, and the header stands in front of all words.
use mini_sfu.Base.{
  ℕ, ◌+◌, ◌*◌, ◌/◌, ◌≤◌, ◌≡◌, refl, ap, ap₂, ◌∙◌, ◌⊎◌, inl, inr, true, false, some, List, [], ◌∷◌,
  ◌==◌, if◌then◌else◌, length, arith, Bool-cases,
}
use mini_sfu.Twcc.{RtpExtInfo, Runs, fresh_runs, pack_status, end_run, end_vector, store_status}
use mini_sfu.Twcc.Packing.{pack_statuses}
use mini_sfu.Twcc.Report.{
  ◌>>=◌, write_header, write_chunks, Report, start_report, note_arrival, report_packet,
  report_packets,
}
use mini_sfu.Twcc.Report.Written.{statuses, received, written, report_packets-started}

-- No status but that of a lost packet was stored.
pub record IsWaiting (r : Runs) : Type 0 where
  pub same : r.same ≡ true
  pub last : (r.last_status ≡ 3) ⊎ (r.last_status ≡ 0)

pub fresh-IsWaiting : IsWaiting (fresh_runs [])
fresh-IsWaiting = record { same = refl; last = inl refl }

pack_status-IsWaiting :
    (r : Runs) → IsWaiting r → ((pack_status r 0).1 ≡ []) × IsWaiting (pack_status r 0).0
unfolding pack_status end_run end_vector store_status
pack_status-IsWaiting r w = ground (arith, w.same, w.last)

-- the time of the first packet that came
abbrev pub first_time : List RtpExtInfo → ℕ
first_time [] = 0
first_time (x ∷ xs) = if x.timestamp == 0 then first_time xs else x.timestamp

-- A packet that came starts the report, whichever way it is met.
report_packet-first :
    (base count : ℕ) (p : Report) (x : RtpExtInfo)
    → p.first_recv ≡ false
    → (x.timestamp == 0) ≡ false
    → report_packet base count p x
      ≡ report_packet base count (start_report base count p x.timestamp) x
unfolding report_packet note_arrival start_report
report_packet-first base count p x waiting came = rw (came, waiting) refl

report_packet-lost :
    (base count : ℕ) (p : Report) (x : RtpExtInfo)
    → IsWaiting p.runs
    → (x.timestamp == 0) ≡ true
    → report_packet base count p x ≡ some (record p { runs = (pack_status p.runs 0).0 })
unfolding report_packet note_arrival write_chunks
report_packet-lost base count p x w lost = rw (lost, (pack_status-IsWaiting p.runs w).0) refl

start_report-started :
    (base count : ℕ) (p : Report) (time : ℕ)
    → p.first_recv ≡ false
    → let q = start_report base count p time in
      (q.first_recv ≡ true)
      × (length q.resp.payload ≡ 16)
      × (q.resp.deltas ≡ p.resp.deltas)
      × (q.runs ≡ p.runs)
      × (q.timestamp ≡ time / 64000 * 64000)
unfolding start_report write_header
start_report-started base count p time waiting = rw waiting (refl, refl, refl, refl, refl)

-- the time that the first delta is taken from
abbrev pub reference : List RtpExtInfo → ℕ
reference xs = first_time xs / 64000 * 64000

-- the report at its end
abbrev pub finished : ℕ → ℕ → Report → List RtpExtInfo → Report
finished base count p xs = written (start_report base count p (first_time xs)) xs

report_packets-came :
    (base count : ℕ) (p : Report) (x : RtpExtInfo) (xs : List RtpExtInfo)
    → p.first_recv ≡ false
    → (x.timestamp == 0) ≡ false
    → 16 + 2 * length (pack_statuses p.runs (statuses (reference (x ∷ xs)) (x ∷ xs))).1 ≤ 100
    → length p.resp.deltas + 2 * received (x ∷ xs) ≤ 200
    → report_packets base count p (x ∷ xs) ≡ some (finished base count p (x ∷ xs))
unfolding report_packets
report_packets-came base count p x xs waiting came room fits =
    let q = start_report base count p (first_time (x ∷ xs)) in
    let start = start_report-started base count p (first_time (x ∷ xs)) waiting in
    let words =
      ap₂ (λ (r : Runs) (t : ℕ). length (pack_statuses r (statuses t (x ∷ xs))).1) start.3
        start.4 in
    ap (λ r. r >>= λ q. report_packets base count q xs)
      (report_packet-first base count p x waiting came ∙ rw came refl)
    ∙ report_packets-started base count q (x ∷ xs) start.0 (omega (arith, start.1, words, room))
        (omega (arith, ap length start.2, fits))

-- A lost packet at the front leaves only its status behind.
finished-lost :
    (base count : ℕ) (p : Report) (x : RtpExtInfo) (xs : List RtpExtInfo)
    → p.first_recv ≡ false
    → IsWaiting p.runs
    → (x.timestamp == 0) ≡ true
    → finished base count (record p { runs = (pack_status p.runs 0).0 }) xs
      ≡ finished base count p (x ∷ xs)
unfolding start_report
finished-lost base count p x xs waiting w lost =
    rw (waiting, lost, (pack_status-IsWaiting p.runs w).0) refl

pub report_packets-lem :
    (base count : ℕ) (p : Report) (xs : List RtpExtInfo)
    → p.first_recv ≡ false
    → IsWaiting p.runs
    → 1 ≤ received xs
    → 16 + 2 * length (pack_statuses p.runs (statuses (reference xs) xs)).1 ≤ 100
    → length p.resp.deltas + 2 * received xs ≤ 200
    → report_packets base count p xs ≡ some (finished base count p xs)
unfolding report_packets
report_packets-lem base count p [] waiting w some_came room fits = absurd (omega arith)
report_packets-lem base count p (x ∷ xs) waiting w some_came room fits =
    elim (Bool-cases (x.timestamp == 0)) [
      | inl lost ↦
          ap (λ r. r >>= λ q. report_packets base count q xs)
            (report_packet-lost base count p x w lost)
          ∙ (report_packets-lem base count (record p { runs = (pack_status p.runs 0).0 }) xs waiting
                (pack_status-IsWaiting p.runs w).1 (ground (arith, lost))
                (rw (lost, (pack_status-IsWaiting p.runs w).0) at room) (ground (arith, lost))
              ∙ ap some (finished-lost base count p x xs waiting w lost))
      | inr came ↦ report_packets-came base count p x xs waiting came room fits
    ]
