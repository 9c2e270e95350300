-- ===== src/Buffer/Calc.antt =====
-- internal/buffer/buffer.go: what a packet does to a buffer. `none` is a panic.
pub mod Frame
use mini_sfu.Base.Bytes.{Memory}
use mini_sfu.Base.Int.{ℤ, pos, negsuc}
use mini_sfu.Base.{
  ℕ, zero, suc, ◌+◌, ◌-◌, ◌*◌, ◌/◌, ◌%◌, Bool, true, false, ◌&&◌, ◌||◌, not, Option, none, some,
  List, [], ◌∷◌, ◌++◌, ltb, leb, ◌==◌, if◌then◌else◌, length, get_elem?, arith, u8, u16, u32, sub16,
  sub32,
}
use mathlib.Core.Option
use mini_sfu.Bucket
use mini_sfu.Bucket.{
  Bucket, BufferError, new_bucket, packet_not_found, buffer_too_small, max_pkt_size,
}
use mini_sfu.Nack.{NackPair}
use mini_sfu.Payload
use mini_sfu.Payload.{Vp8, HelperError}
use mini_sfu.Timestamp.{is_later_timestamp}
use mini_sfu.Buffer.{
  Floats, Mime, audio_mime, video_vp8, video_h64, other_video, other_mime, CodecType, unknown,
  audio, video, RtpPacket, ExtPacket, PendingPacket, Stats, Buffer, RtcpPacket,
  transport_layer_nack, picture_loss_indication, note_sequence, count_bytes, get_rtcp,
}

infixl 5 ◌>>=◌
abbrev pub ◌>>=◌ {ℓ κ} : {A : Type ℓ} {B : Type κ} → Option A → (A → Option B) → Option B
none >>= f = none
some a >>= f = f a

-- what leaves a buffer: a send on its channel, a call of one of its callbacks, or what `Close` does
pub data Event : Type 0 where
  packet_chan : ExtPacket → Event
  feedback : List RtcpPacket → Event
  feedback_twcc : (sn time : ℕ) → Bool → Event
  on_audio_level : ℕ → Event
  put_video_pool put_audio_pool on_close close_chan : Event

-- the parsers of package rtp, for packets and for the extension with the audio level
pub record Parsers : Type 0 where
  pub unmarshal : List ℕ → Option RtpPacket
  pub unmarshal_level : List ℕ → Option ℕ

-- `bucket.onLost`, which `Bind` sets
abbrev pub on_lost : ℕ → Option (List NackPair × Bool) → List Event
on_lost ssrc none = []
on_lost ssrc (some (nacks, ask)) =
    feedback
      (transport_layer_nack ssrc nacks ∷ (if ask then picture_loss_indication ssrc ∷ [] else []))
    ∷ []

-- `VP8{}`
abbrev pub new_vp8 : Vp8
new_vp8 = record {
  temporal_supported = false;
  picture_id = 0;
  pic_id_idx = 0;
  m_bit = false;
  tl0_pic_idx = 0;
  tlz_idx = 0;
  tid = 0;
  is_key_frame = false;
}

-- the switch on the MIME type; the inner option is an early return
pub read_payload : Mime → ExtPacket → Option (Option ExtPacket)
read_payload audio_mime ep = some (some ep)
read_payload video_vp8 ep = do
  (vp8, error) ← Payload.unmarshal (some ep.packet.payload) new_vp8
  some (elim error [
    | none ↦ some (record ep { payload = some vp8; key_frame = vp8.is_key_frame })
    | some e ↦ none
  ])
read_payload video_h64 ep =
    Option.map (λ k. some (record ep { key_frame = k }))
      (Payload.is_h264_keyframe ep.packet.payload)
read_payload other_video ep = some (some ep)
read_payload other_mime ep = some (some ep)

module _ {F : Type 0} where
  -- the branch on the first 25 packets
  unfoldable pub probe : Buffer F → ℕ → ExtPacket → Buffer F
  probe b sn ep =
      if ltb b.min_packet_probe 25
      then record b {
        base_sn = if ltb sn b.base_sn then sn else b.base_sn;
        max_temporal_layer = elim ep.payload [
          | none ↦ b.max_temporal_layer
          | some vp8 ↦ if ltb b.max_temporal_layer vp8.tid then vp8.tid else b.max_temporal_layer
        ];
        min_packet_probe = b.min_packet_probe + 1;
      }
      else b

  -- the update of the latest timestamp
  pub note_timestamp : Buffer F → ℕ → ℕ → Buffer F
  note_timestamp b timestamp arrival =
      if b.latest_timestamp_time == 0 || is_later_timestamp timestamp b.latest_timestamp
      then record b { latest_timestamp = timestamp; latest_timestamp_time = arrival }
      else b

  -- `b.feedbackTWCC`, if the packet has the extension
  pub transport_wide : Buffer F → RtpPacket → ℕ → List Event
  transport_wide b p arrival =
      if b.twcc
      then elim (p.extension b.twcc_ext) [
        | some (x ∷ y ∷ rest) ↦ feedback_twcc (x * 256 + y) arrival p.marker ∷ []
        | _ ↦ []
      ]
      else []

  -- `b.onAudioLevel`, which is set
  pub audio_level_of : Parsers → Buffer F → RtpPacket → List Event
  audio_level_of ps b p =
      if b.audio_level
      then elim (p.extension b.audio_ext) [
        | none ↦ []
        | some e ↦ elim (ps.unmarshal_level e) [
          | none ↦ []
          | some level ↦ on_audio_level level ∷ []
        ]
      ]
      else []

-- `d` of `int32`, made positive; the least number stays as it is
pub int32_abs : ℕ → ℤ
int32_abs d =
    if ltb d 2147483648
    then pos d
    else if d == 2147483648
    then negsuc 2147483647
    else pos (4294967296 - d)

module _ {F : Type 0} (fl : Floats F) where
  -- the jitter, from the time that the packet took
  pub note_transit : Buffer F → ℕ → ℕ → Buffer F
  note_transit b timestamp arrival =
      let transit = sub32 (u32 (arrival / 1000000 * (b.clock_rate / 1000))) timestamp in
      let d = fl.of_int (int32_abs (sub32 transit b.last_transit)) in
      record b {
        last_transit = transit;
        stats = if b.last_transit == 0 then b.stats else record b.stats {
          jitter = fl.add b.stats.jitter (fl.div (fl.sub d b.stats.jitter) (fl.of_int (pos 16)));
        };
      }

  -- the report of every second, at the time `now`
  pub report_second : Buffer F → ℕ → ℕ → Buffer F × List Event
  report_second b arrival now =
      if leb (b.last_report + 1000000000) arrival
      then (let measured = record b {
        bitrate = 8 * b.bitrate_helper * 1000000000 / (arrival - b.last_report);
      } in
          let (reported, pkts) = get_rtcp fl measured now in
          (record reported { last_report = arrival; bitrate_helper = 0 }, feedback pkts ∷ []))
      else (b, [])

module _ {F : Type 0} (fl : Floats F) (ps : Parsers) where
  -- the part of `calc` behind the channel
  pub calc_statistics : Buffer F → RtpPacket → ℕ → ℕ → Buffer F × List Event
  calc_statistics b p arrival now =
      let measured = note_transit fl (note_timestamp b p.timestamp arrival) p.timestamp arrival in
      let (reported, events) = report_second fl measured arrival now in
      (reported, transport_wide b p arrival ++ (audio_level_of ps b p ++ events))

  -- The part of `calc` from the parsed packet on. A send on the closed channel is a panic; that a
  -- send waits while the channel is full is not modelled.
  pub calc_parsed : Buffer F → ℕ → RtpPacket → ℕ → ℕ → Option (Buffer F × List Event)
  calc_parsed b sn p arrival now = do
    read ← read_payload b.mime (record {
      head = sn == b.max_seq_no;
      cycle = b.cycles;
      arrival = arrival;
      packet = p;
      payload = none;
      key_frame = false;
    })
    elim read [
      | none ↦ some (b, [])
      | some ep ↦
          if b.closed
          then none
          else let (b', events) = calc_statistics (probe b sn ep) p arrival now in
            some (b', packet_chan ep ∷ events)
    ]

  -- the store of the packet, and the packet as it is parsed
  pub calc_stored : Buffer F → ℕ → List ℕ → ℕ → ℕ → Option (Buffer F × List Event)
  calc_stored b sn pkt arrival now = do
    bucket ← b.bucket
    (bucket', stored, lost) ← Bucket.add_packet bucket pkt sn (sn == b.max_seq_no)
    let b' = record b { bucket = some bucket' }
    (b'', events) ← elim (stored >>= ps.unmarshal) [
      | none ↦ some (b', [])
      | some p ↦ calc_parsed b' sn p arrival now
    ]
    some (b'', on_lost b.media_ssrc lost ++ events)

  -- `calc`
  pub calc : Buffer F → List ℕ → ℕ → ℕ → Option (Buffer F × List Event)
  calc b pkt arrival now = do
    hi ← get_elem? pkt 2
    lo ← get_elem? pkt 3
    calc_stored (count_bytes (note_sequence b (hi * 256 + lo) arrival) (length pkt)) (hi * 256 + lo)
        pkt arrival now
