-- ===== src/Buffer/Calc/Frame.antt =====
-- What a packet does to an open buffer does not depend on the packets that wait for the buffer to be
-- bound, and leaves it open.
use mini_sfu.Base.{
  ℕ, ◌+◌, ◌-◌, ◌*◌, ◌/◌, ◌≡◌, refl, sym, ap, ◌∙◌, Bool, true, false, inl, inr, List, [], ◌∷◌, ◌++◌,
  Option, none, some, Option-cases, ltb, leb, ◌==◌, ◌&&◌, ◌||◌, not, if◌then◌else◌, length, sub16,
  arith, Bool-cases, get_elem?,
}
use mathlib.Core.Option
use mini_sfu.Bucket
use mini_sfu.Timestamp.{is_later_timestamp}
use mini_sfu.Buffer.{
  Floats, RtpPacket, ExtPacket, PendingPacket, Buffer, note_sequence, count_bytes, get_rtcp,
  build_reception_report, build_remb_packet, RtcpPacket, expected, expected_interval, lost_interval,
  total_lost, fraction_lost, ext_max_seq, delay_since,
}
use mini_sfu.Buffer.Calc.{
  ◌>>=◌, Event, Parsers, calc, calc_stored, calc_parsed, calc_statistics, probe, note_timestamp,
  report_second, transport_wide, audio_level_of, read_payload, packet_chan, feedback, on_lost,
  note_transit,
}

-- a buffer with other packets that wait, open
abbrev pub framed : {F : Type 0} → List PendingPacket → Bool → Buffer F → Buffer F
framed pps bd b = record b { p_packets = pps; bound = bd; closed = false }

abbrev pub framed_result :
    {F : Type 0} → List PendingPacket → Bool → Buffer F × List Event → Buffer F × List Event
framed_result pps bd r = (framed pps bd r.0, r.1)

module _ {F : Type 0} (pps : List PendingPacket) (bd : Bool) where
  probe-bound :
      (b : Buffer F) (sn : ℕ) (ep : ExtPacket)
      → probe (framed pps bd b) sn ep ≡ framed pps bd (probe b sn ep)
  unfolding probe
  probe-bound b sn ep = elim (Bool-cases (ltb b.min_packet_probe 25)) [
    | inl e ↦ rw e refl
    | inr e ↦ rw e refl
  ]

  note_timestamp-bound :
      (b : Buffer F) (timestamp arrival : ℕ)
      → note_timestamp (framed pps bd b) timestamp arrival
        ≡ framed pps bd (note_timestamp b timestamp arrival)
  unfolding note_timestamp
  note_timestamp-bound b timestamp arrival =
      elim (Bool-cases
        (b.latest_timestamp_time == 0 || is_later_timestamp timestamp b.latest_timestamp)) [
          | inl e ↦ rw e refl
          | inr e ↦ rw e refl
        ]

  note_sequence-bound :
      (b : Buffer F) (sn arrival : ℕ)
      → note_sequence (framed pps bd b) sn arrival ≡ framed pps bd (note_sequence b sn arrival)
  unfolding note_sequence
  note_sequence-bound b sn arrival = elim (Bool-cases (b.stats.packet_count == 0)) [
    | inl e ↦ rw e refl
    | inr e ↦ elim (Bool-cases (ltb (sub16 sn b.max_seq_no) 32768)) [
      | inl f ↦ rw (e, f) refl
      | inr f ↦ rw (e, f) refl
    ]
  ]

note_sequence-closed :
    {F : Type 0} (b : Buffer F) (sn arrival : ℕ) → (note_sequence b sn arrival).closed ≡ b.closed
unfolding note_sequence
note_sequence-closed b sn arrival = ground arith

module _ {F : Type 0} (pps : List PendingPacket) (bd : Bool) (fl : Floats F) where
  get_rtcp-bound :
      (b : Buffer F) (now : ℕ)
      → get_rtcp fl (framed pps bd b) now
        ≡ (framed pps bd (get_rtcp fl b now).0, (get_rtcp fl b now).1)
  unfolding get_rtcp build_reception_report build_remb_packet expected expected_interval
      lost_interval total_lost fraction_lost ext_max_seq delay_since
  get_rtcp-bound b now = elim (Bool-cases (b.remb && not b.twcc)) [
    | inl e ↦ rw e refl
    | inr e ↦ rw e refl
  ]

  report_second-bound :
      (b : Buffer F) (arrival now : ℕ)
      → report_second fl (framed pps bd b) arrival now
        ≡ framed_result pps bd (report_second fl b arrival now)
  unfolding report_second
  report_second-bound b arrival now = elim (Bool-cases (leb (b.last_report + 1000000000) arrival)) [
    | inl e ↦ rw e (
        ap
          (λ (r : Buffer F × List RtcpPacket).
            (record r.0 { last_report = arrival; bitrate_helper = 0 }, feedback r.1 ∷ []))
          (get_rtcp-bound
            (record b { bitrate = 8 * b.bitrate_helper * 1000000000 / (arrival - b.last_report) })
            now))
    | inr e ↦ rw e refl
  ]

-- the packet before its payload is read
abbrev unread : {F : Type 0} → Buffer F → ℕ → RtpPacket → ℕ → ExtPacket
unread b sn p arrival = record {
  head = sn == b.max_seq_no;
  cycle = b.cycles;
  arrival = arrival;
  packet = p;
  payload = none;
  key_frame = false;
}

abbrev later : {F : Type 0} → ExtPacket → Buffer F × List Event → Buffer F × List Event
later ep r = (r.0, packet_chan ep ∷ r.1)

if_bound :
    {F : Type 0} (pps : List PendingPacket) (bd : Bool) (c : Bool) (x y : Buffer F × List Event)
    → c ≡ false
    → x ≡ framed_result pps bd y
    → some x ≡ Option.map (framed_result pps bd) (if c then none else some y)
if_bound pps bd true x y unclosed h = absurd (cc)
if_bound pps bd false x y unclosed h = ap some h

map->>= :
    {F : Type 0} (pps : List PendingPacket) (bd : Bool) (m : Option (Buffer F × List Event))
    (events : List Event)
    → (Option.map (framed_result pps bd) m >>= λ x. some (x.0, events ++ x.1))
      ≡ Option.map (framed_result pps bd) (m >>= λ x. some (x.0, events ++ x.1))
map->>= pps bd none events = refl
map->>= pps bd (some r) events = refl

module _ {F : Type 0} (pps : List PendingPacket) (bd : Bool) (fl : Floats F) (ps : Parsers) where
  calc_statistics-bound :
      (b : Buffer F) (p : RtpPacket) (arrival now : ℕ)
      → calc_statistics fl ps (framed pps bd b) p arrival now
        ≡ framed_result pps bd (calc_statistics fl ps b p arrival now)
  unfolding calc_statistics note_transit transport_wide audio_level_of
  calc_statistics-bound b p arrival now =
      let noted = note_timestamp b p.timestamp arrival in
      let events = transport_wide b p arrival ++ audio_level_of ps b p in
      rw (note_timestamp-bound pps bd b p.timestamp arrival) (
        ap
          (λ (r : Buffer F × List Event).
            (r.0, transport_wide b p arrival ++ (audio_level_of ps b p ++ r.1)))
          (report_second-bound pps bd fl (note_transit fl noted p.timestamp arrival) arrival now))

  calc_parsed-bound :
      (b : Buffer F) (sn : ℕ) (p : RtpPacket) (arrival now : ℕ)
      → b.closed ≡ false
      → calc_parsed fl ps (framed pps bd b) sn p arrival now
        ≡ Option.map (framed_result pps bd) (calc_parsed fl ps b sn p arrival now)
  unfolding calc_parsed
  calc_parsed-bound b sn p arrival now unclosed =
      elim (Option-cases (read_payload b.mime (unread b sn p arrival))) [
        | inl e ↦ rw e refl
        | inr (none, e) ↦ rw e refl
        | inr (some ep, e) ↦ rw e (
            if_bound pps bd b.closed
              (later ep (calc_statistics fl ps (probe (framed pps bd b) sn ep) p arrival now))
              (later ep (calc_statistics fl ps (probe b sn ep) p arrival now)) unclosed
              (ap (λ (q : Buffer F). later ep (calc_statistics fl ps q p arrival now))
                  (probe-bound pps bd b sn ep)
                ∙ ap (λ (r : Buffer F × List Event). later ep r)
                    (calc_statistics-bound (probe b sn ep) p arrival now)))
      ]

  calc_stored-bound :
      (b : Buffer F) (sn : ℕ) (pkt : List ℕ) (arrival now : ℕ)
      → b.closed ≡ false
      → calc_stored fl ps (framed pps bd b) sn pkt arrival now
        ≡ Option.map (framed_result pps bd) (calc_stored fl ps b sn pkt arrival now)
  unfolding calc_stored
  calc_stored-bound b sn pkt arrival now unclosed = elim (Option-cases b.bucket) [
    | inl e ↦ rw e refl
    | inr (k, e) ↦ elim (Option-cases (Bucket.add_packet k pkt sn (sn == b.max_seq_no))) [
      | inl f ↦ rw (e, f) refl
      | inr (r, f) ↦ elim (Option-cases (r.1 >>= ps.unmarshal)) [
        | inl g ↦ rw (e, f, g) refl
        | inr (p, g) ↦
            rw (e, f, g)
              (ap
                  (λ (m : Option (Buffer F × List Event)).
                    m >>= λ x. some (x.0, on_lost b.media_ssrc r.2 ++ x.1))
                  (calc_parsed-bound (record b { bucket = some r.0 }) sn p arrival now unclosed)
                ∙ map->>= pps bd
                    (calc_parsed fl ps (record b { bucket = some r.0 }) sn p arrival now)
                    (on_lost b.media_ssrc r.2))
      ]
    ]
  ]

  -- The packet's effect is the same on the bound buffer.
  pub calc-bound :
      (b : Buffer F) (pkt : List ℕ) (arrival now : ℕ)
      → b.closed ≡ false
      → calc fl ps (framed pps bd b) pkt arrival now
        ≡ Option.map (framed_result pps bd) (calc fl ps b pkt arrival now)
  unfolding calc count_bytes
  calc-bound b pkt arrival now unclosed = elim (Option-cases (get_elem? pkt 2)) [
    | inl e ↦ rw e refl
    | inr (hi, e) ↦ elim (Option-cases (get_elem? pkt 3)) [
      | inl f ↦ rw (e, f) refl
      | inr (lo, f) ↦
          rw (e, f)
            (ap
                (λ (q : Buffer F).
                  calc_stored fl ps (count_bytes q (length pkt)) (hi * 256 + lo) pkt arrival now)
                (note_sequence-bound pps bd b (hi * 256 + lo) arrival)
              ∙ calc_stored-bound
                  (count_bytes (note_sequence b (hi * 256 + lo) arrival) (length pkt))
                  (hi * 256 + lo) pkt arrival now
                  (note_sequence-closed b (hi * 256 + lo) arrival ∙ unclosed))
    ]
  ]

module _ {F : Type 0} (fl : Floats F) (ps : Parsers) where
  pub framed_self : (b : Buffer F) → b.closed ≡ false → framed b.p_packets b.bound b ≡ b
  framed_self b unclosed = ap (λ (c : Bool). record b { closed = c }) (sym unclosed)

  -- A packet leaves an open buffer open.
  pub calc-closed :
      (b : Buffer F) (pkt : List ℕ) (arrival now : ℕ) (r : Buffer F × List Event)
      → b.closed ≡ false
      → calc fl ps b pkt arrival now ≡ some r
      → r.0.closed ≡ false
  calc-closed b pkt arrival now r unclosed h = result (
      ap (λ (c : Buffer F). calc fl ps c pkt arrival now) (sym (framed_self b unclosed))
      ∙ (calc-bound b.p_packets b.bound fl ps b pkt arrival now unclosed
          ∙ ap (Option.map (framed_result b.p_packets b.bound)) h))
    where
      result :
          calc fl ps b pkt arrival now ≡ some (framed_result b.p_packets b.bound r)
          → r.0.closed ≡ false
      result e =
          ap
            (λ (m : Option (Buffer F × List Event)). elim m [
              | none ↦ r.0.closed
              | some x ↦ x.0.closed
            ])
            (sym h ∙ e)
