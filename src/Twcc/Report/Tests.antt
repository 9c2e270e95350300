-- ===== src/Twcc/Report/Tests.antt =====
-- The reports of twcc.go on small inputs, and the theorems at them.
use mini_sfu.Base.{
  ◌⊎◌, ℕ, ◌+◌, ◌≤◌, ◌≡◌, refl, Bool, true, false, none, some, List, [], ◌∷◌, ◌++◌, map, not, ◌==◌,
  if◌then◌else◌, length, arith,
}
use mini_sfu.Twcc.{
  RtpExtInfo, Responder, new_responder, fresh_runs, pack_status, end_run, end_vector, store_status,
  fill_left, create_symbol, set_n_bits, status_chunk, run_chunk, last_chunk,
}
use mini_sfu.Twcc.Chunks.{decode_chunk, decode_chunks}
use mini_sfu.Twcc.Packing.{pack_statuses}
use mini_sfu.Twcc.Report.{
  write_chunks, delta_status, report_packets, fill_gaps, insert_info, sort_infos, pad_size,
  packet_bytes, end_report, build_transport_cc_packet, is_due, note_packet, push,
}
use mini_sfu.Twcc.Report.Written.{received, all_deltas}
use mini_sfu.Twcc.Report.Started.{reference}
use mini_sfu.Twcc.Report.Decoded.{ends_same, decode_payload}
use mini_sfu.Twcc.Report.Built.{came, reset, report_payload, build_transport_cc_packet-decoded}
use mini_sfu.Twcc.Report.Gaps.{CountsFrom, arrived, fill_gaps-CountsFrom}

abbrev marshal : Bool → ℕ → List ℕ
marshal flag n = (if flag then 175 else 143) ∷ 205 ∷ 0 ∷ n ∷ []

abbrev info : ℕ → ℕ → RtpExtInfo
info n time = record { ext_tsn = n; timestamp = time }

-- Number 5 was reported; 8, 6 and 9 came since, and 7 did not.
abbrev sample : Responder
sample = record (new_responder 1 2 0) {
  ext_info = info 8 128500 ∷ info 6 128000 ∷ info 9 129000 ∷ [];
  last_ext_sn = 5;
}

abbrev filled : List RtpExtInfo × ℕ
filled = fill_gaps 5 (sort_infos sample.ext_info)

filled-is : filled ≡ (info 6 128000 ∷ info 7 0 ∷ info 8 128500 ∷ info 9 129000 ∷ [], 9)
unfolding fill_gaps sort_infos insert_info
filled-is = refl

-- A run of eleven packets, and then one more, are a run and a run.
two_runs :
    (pack_statuses (fresh_runs []) (1 ∷ 1 ∷ 1 ∷ 1 ∷ 1 ∷ 1 ∷ 1 ∷ 1 ∷ 1 ∷ 1 ∷ 1 ∷ 0 ∷ [])).1
    ≡ 8203 ∷ []
unfolding pack_status end_run end_vector store_status run_chunk
two_runs = refl

-- Of two statuses that differ only the first is written: the second packet, which came, reads as
-- lost.
second_of_two :
    let p = pack_statuses (fresh_runs []) (1 ∷ 2 ∷ []) in
    decode_chunks (p.1 ++ last_chunk p.0) ≡ 1 ∷ 0 ∷ 0 ∷ 0 ∷ 0 ∷ 0 ∷ 0 ∷ []
unfolding pack_status end_run end_vector store_status last_chunk fill_left create_symbol set_n_bits
    status_chunk decode_chunk
second_of_two = refl

-- A packet that is noted twice stands in the report twice, and moves all later ones by one.
doubled : (fill_gaps 5 (info 6 1 ∷ info 6 1 ∷ [])).0 ≡ info 6 1 ∷ info 6 1 ∷ []
unfolding fill_gaps
doubled = refl

-- If all numbers were reported before, the packet is a bare header.
nothing_new :
    build_transport_cc_packet marshal
      (record (new_responder 1 2 0) { ext_info = info 4 7 ∷ []; last_ext_sn = 5 })
    ≡ some (record (new_responder 1 2 0) { last_ext_sn = 5 }, some (143 ∷ 205 ∷ 0 ∷ 0 ∷ []))
unfolding build_transport_cc_packet fill_gaps sort_infos insert_info report_packets end_report
    write_chunks last_chunk packet_bytes pad_size
nothing_new = refl

-- Around the wrap a late packet is taken for one of the next cycle, and the cycle is counted twice.
abbrev around_wrap : Responder
around_wrap =
    note_packet (note_packet (note_packet (note_packet (new_responder 1 2 0) 65534 0) 0 0) 65535 0)
      1 0

double_cycle : map (λ x. x.ext_tsn) around_wrap.ext_info ≡ 65534 ∷ 65536 ∷ 131071 ∷ 131073 ∷ []
unfolding note_packet
double_cycle = refl

filled-came : 1 ≤ received filled.0
unfolding fill_gaps sort_infos insert_info
filled-came = omega arith

filled-few : received filled.0 ≤ 100
unfolding fill_gaps sort_infos insert_info
filled-few = omega arith

filled-short : length filled.0 ≤ 293
unfolding fill_gaps sort_infos insert_info
filled-short = omega arith

-- Two packets alone, the first report.
abbrev pair : Responder
pair = record (new_responder 1 2 0) { ext_info = info 8 128500 ∷ info 7 128000 ∷ [] }

abbrev pair_filled : List RtpExtInfo × ℕ
pair_filled = fill_gaps 0 (sort_infos pair.ext_info)

pair-came : 1 ≤ received pair_filled.0
unfolding fill_gaps sort_infos insert_info
pair-came = omega arith

pair-few : received pair_filled.0 ≤ 100
unfolding fill_gaps sort_infos insert_info
pair-few = omega arith

pair-short : length pair_filled.0 ≤ 293
unfolding fill_gaps sort_infos insert_info
pair-short = omega arith

pair-same : ends_same pair_filled.0 ≡ true
unfolding fill_gaps sort_infos insert_info pack_status end_run end_vector store_status delta_status
pair-same = refl

build_transport_cc_packet-decoded_example :
    (build_transport_cc_packet marshal pair
      ≡ some (
        reset pair pair_filled.1,
        some (
            packet_bytes marshal
              (report_payload pair pair_filled.0)
              (all_deltas (reference pair_filled.0) pair_filled.0)),
      ))
    × ((map (λ s. not (s == 0)) (decode_payload (report_payload pair pair_filled.0))
          ≡ came pair_filled.0)
        ⊎ (ends_same pair_filled.0 ≡ false))
build_transport_cc_packet-decoded_example =
    build_transport_cc_packet-decoded marshal pair refl (omega arith) pair-came pair-few pair-short

abbrev short_payload : List ℕ
short_payload = 1 ∷ 2 ∷ []

abbrev short_deltas : List ℕ
short_deltas = 3 ∷ []

four_bytes : (flag : Bool) (n : ℕ) → length (marshal flag n) ≡ 4
four_bytes flag n = refl

fill_gaps-CountsFrom_example :
    let (pkts, end) = fill_gaps 5 (info 6 1 ∷ info 8 2 ∷ []) in
    CountsFrom (5 + 1) pkts × (5 + length pkts ≡ end) × (arrived pkts ≡ info 6 1 ∷ info 8 2 ∷ [])
fill_gaps-CountsFrom_example =
    fill_gaps-CountsFrom 5 (info 6 1 ∷ info 8 2 ∷ []) (omega arith) (omega arith)
      (λ e. absurd (omega arith), (λ e. absurd (omega arith), tt))

-- A call that only notes its packet.
pushed :
    push marshal (new_responder 1 2 0) 7 5000 false
    ≡ some (note_packet (new_responder 1 2 0) 7 5000, none)
unfolding push note_packet is_due
pushed = refl
