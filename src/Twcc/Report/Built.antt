-- ===== src/Twcc/Report/Built.antt =====
-- A report as a whole: it is built without a panic, and says which packets came.
use mini_sfu.Base.{
  ℕ, ◌+◌, ◌*◌, ◌/◌, ◌≤◌, ◌≡◌, refl, sym, ap, ap₂, ◌∙◌, Bool, false, not, some, List, [], map, ◌∷◌,
  ◌++◌, ◌==◌, length, u8, u16, u32, arith, length-append, Bool-cases, ◌⊎◌, inl, inr,
}
use mini_sfu.Twcc.{RtpExtInfo, Responder, fresh_runs, last_chunk}
use mini_sfu.Twcc.Chunks.{decode_chunks}
use mini_sfu.Twcc.Packing.{pack_statuses}
use mini_sfu.Twcc.Report.{
  start_report, report_packets, write_header, fill_gaps, sort_infos, packet_bytes, first_number,
  build_transport_cc_packet, begin_report, end_report, delta_status,
}
use mini_sfu.Twcc.Report.Written.{
  statuses, all_deltas, received, next_time, words_bytes-append, length-statuses, words_bytes,
  length-words_bytes, write_chunks-fits,
}
use mini_sfu.Twcc.Report.Started.{
  fresh-IsWaiting, first_time, reference, finished, report_packets-lem,
}
use mini_sfu.Twcc.Report.Decoded.{
  decode_payload, bytes_words-words_bytes, all_words, ends_same, packed, all_words-room,
  all_words-decode,
}

-- the header, and the whole payload
abbrev pub header : Responder → List RtpExtInfo → List ℕ
header t pkts =
    (write_header t (first_number pkts) (u16 (length pkts)) (u32 (first_time pkts / 64000))).payload

abbrev pub report_payload : Responder → List RtpExtInfo → List ℕ
report_payload t pkts = header t pkts ++ words_bytes (all_words pkts)

-- the responder after a report
abbrev pub reset : Responder → ℕ → Responder
reset t last = record t {
  ext_info = [];
  last_ext_sn = last;
  pkt_ctn = u8 (t.pkt_ctn + 1);
  payload = [];
  deltas = [];
}

looped :
    (t : Responder) (pkts : List RtpExtInfo) (last : ℕ)
    → t.deltas ≡ []
    → 1 ≤ received pkts
    → received pkts ≤ 100
    → length pkts ≤ 293
    → report_packets (first_number pkts) (u16 (length pkts)) (begin_report t last) pkts
      ≡ some (finished (first_number pkts) (u16 (length pkts)) (begin_report t last) pkts)
looped t pkts last no_deltas some_came few short =
    let p = pack_statuses (fresh_runs []) (statuses (reference pkts) pkts) in
    report_packets-lem (first_number pkts) (u16 (length pkts)) (begin_report t last) pkts refl
      fresh-IsWaiting some_came
      (omega (arith, (packed pkts (omega arith)).0.room, length-statuses (reference pkts) pkts))
      (omega (arith, ap length no_deltas))

closed :
    (marshal : Bool → ℕ → List ℕ) (t : Responder) (pkts : List RtpExtInfo) (last : ℕ)
    → t.deltas ≡ []
    → length pkts ≤ 293
    → let p = finished (first_number pkts) (u16 (length pkts)) (begin_report t last) pkts in
      end_report marshal p
      ≡ some (
        reset t last,
        some (packet_bytes marshal (report_payload t pkts) (all_deltas (reference pkts) pkts)),
      )
unfolding end_report start_report write_header
closed marshal t pkts last no_deltas short =
    let p = finished (first_number pkts) (u16 (length pkts)) (begin_report t last) pkts in
    let ws = (pack_statuses (fresh_runs []) (statuses (reference pkts) pkts)).1 in
    let room : length p.resp.payload + 2 * length (last_chunk p.runs) ≤ 100 = omega (
      arith,
      length-words_bytes ws,
      length-append ws (last_chunk p.runs),
      all_words-room pkts short,
    ) in
    rw (write_chunks-fits p.resp (last_chunk p.runs) room) (
      ap₂ (λ (l m : List ℕ). some (reset t last, some (packet_bytes marshal l m)))
        (ap (λ l. header t pkts ++ l) (sym (words_bytes-append ws (last_chunk p.runs))))
        (ap (λ l. l ++ all_deltas (reference pkts) pkts) no_deltas))

-- A report with room for its words and deltas does not panic.
build_transport_cc_packet-returns :
    (marshal : Bool → ℕ → List ℕ) (t : Responder)
    → t.deltas ≡ []
    → 1 ≤ length t.ext_info
    → let (pkts, last) = fill_gaps t.last_ext_sn (sort_infos t.ext_info) in
      1 ≤ received pkts
      → received pkts ≤ 100
      → length pkts ≤ 293
      → build_transport_cc_packet marshal t
        ≡ some (
          reset t last,
          some (packet_bytes marshal (report_payload t pkts) (all_deltas (reference pkts) pkts)),
        )
unfolding build_transport_cc_packet
build_transport_cc_packet-returns marshal t no_deltas some_info some_came few short =
    let (pkts, last) = fill_gaps t.last_ext_sn (sort_infos t.ext_info) in
    let some_left : (length t.ext_info == 0) ≡ false = ground arith in
    rw (some_left, looped t pkts last no_deltas some_came few short)
      (closed marshal t pkts last no_deltas short)

-- which packets came
abbrev pub came : List RtpExtInfo → List Bool
came xs = map (λ x. not (x.timestamp == 0)) xs

statuses-came :
    (since : ℕ) (xs : List RtpExtInfo) → map (λ s. not (s == 0)) (statuses since xs) ≡ came xs
unfolding delta_status
statuses-came since [] = refl
statuses-came since (x ∷ xs) =
    ap₂ ◌∷◌ (ground arith) (statuses-came (next_time since x.timestamp) xs)

-- A report of up to 293 packets, of which 1 to 100 came, made while no deltas are left over from
-- another, is built without a panic; and its chunks, read by the format, say in order which packets came,
-- unless the statuses left at its end differ.
pub build_transport_cc_packet-decoded :
    (marshal : Bool → ℕ → List ℕ) (t : Responder)
    → t.deltas ≡ []
    → 1 ≤ length t.ext_info
    → let (pkts, last) = fill_gaps t.last_ext_sn (sort_infos t.ext_info) in
      1 ≤ received pkts
      → received pkts ≤ 100
      → length pkts ≤ 293
      → (build_transport_cc_packet marshal t
          ≡ some (
            reset t last,
            some (packet_bytes marshal (report_payload t pkts) (all_deltas (reference pkts) pkts)),
          ))
        × ((map (λ s. not (s == 0)) (decode_payload (report_payload t pkts)) ≡ came pkts)
            ⊎ (ends_same pkts ≡ false))
unfolding write_header
build_transport_cc_packet-decoded marshal t no_deltas some_info some_came few short =
    let (pkts, last) = fill_gaps t.last_ext_sn (sort_infos t.ext_info) in
    (
      build_transport_cc_packet-returns marshal t no_deltas some_info some_came few short,
      elim (Bool-cases (ends_same pkts)) [
        | inr differ ↦ inr differ
        | inl same ↦
            let (decoded, words) = all_words-decode pkts (omega arith) same in
            inl (
              ap (λ ws. map (λ s. not (s == 0)) (decode_chunks ws))
                (bytes_words-words_bytes (all_words pkts) words)
              ∙ (ap (map (λ s. not (s == 0))) decoded ∙ statuses-came (reference pkts) pkts))
      ],
    )
