-- ===== src/Buffer/Calls.antt =====
-- internal/buffer/buffer.go: the binding of a buffer to its codec, the packets that wait for it, and
-- its end. `none` is a panic.
pub mod Pending
pub mod Closing
mod Tests
use mini_sfu.Base.Bytes.{Memory}
use mini_sfu.Base.Int.{ℤ, pos, negsuc}
use mini_sfu.Base.{
  ℕ, zero, suc, ◌+◌, ◌-◌, ◌*◌, ◌/◌, ◌%◌, Bool, true, false, ◌&&◌, ◌||◌, not, Option, none, some,
  List, [], ◌∷◌, ◌++◌, ltb, leb, ◌==◌, if◌then◌else◌, length, get_elem?, arith, u8, u16, u32, sub16,
  sub32,
}
use mathlib.Core.Option
use mini_sfu.Bucket
use mini_sfu.Bucket.{
  Bucket, BufferError, new_bucket, packet_not_found, buffer_too_small, max_pkt_size,
}
use mini_sfu.Nack.{NackPair}
use mini_sfu.Payload
use mini_sfu.Payload.{Vp8, HelperError}
use mini_sfu.Timestamp.{is_later_timestamp}
use mini_sfu.Buffer.{
  Floats, Mime, audio_mime, video_vp8, video_h64, other_video, other_mime, CodecType, unknown,
  audio, video, RtpPacket, ExtPacket, PendingPacket, Stats, Buffer, RtcpPacket,
  transport_layer_nack, picture_loss_indication, note_sequence, count_bytes, get_rtcp,
}
use mini_sfu.Buffer.Calc.{
  ◌>>=◌, Event, put_video_pool, put_audio_pool, on_close, close_chan, Parsers, calc,
}

abbrev pub is_video : CodecType → Bool
is_video unknown = false
is_video audio = false
is_video video = true

-- the buffer that `Close` gives back to its pool
abbrev pub put_back : CodecType → Option Bucket → List Event
put_back kind none = []
put_back unknown (some k) = []
put_back audio (some k) = put_audio_pool ∷ []
put_back video (some k) = put_video_pool ∷ []

-- the types of `codec.RTCPFeedback`
pub data FeedbackType : Type 0 where
  goog_remb transport_cc nack_feedback other_feedback : FeedbackType

-- What `Bind` reads of its arguments; an extension is its identifier, with whether its URI is that of
-- transport-wide congestion control.
pub record Parameters : Type 0 where
  pub clock_rate : ℕ
  pub mime : Mime
  pub header_extensions : List (Bool × ℕ)
  pub rtcp_feedback : List FeedbackType
  pub max_bit_rate : ℕ

module _ {F : Type 0} where
  -- the switch of `Bind`, with `buf` the bytes that the pool hands out
  pub bind_codec : Buffer F → Mime → Memory → Buffer F
  bind_codec b audio_mime buf = record b {
    codec_type = audio;
    bucket = some (new_bucket 36500 buf false (omega arith));
  }
  bind_codec b other_mime buf = record b { codec_type = unknown }
  bind_codec b mime buf = record b {
    codec_type = video;
    bucket = some (new_bucket 2097152 buf true (omega arith));
  }

  -- the loop over the header extensions, which stops at the first that it looks for
  pub bind_extension : Buffer F → List (Bool × ℕ) → Buffer F
  bind_extension b [] = b
  bind_extension b (ext ∷ exts) =
      let rest = bind_extension b exts in if ext.0 then record b { twcc_ext = u8 ext.1 } else rest

  pub bind_feedback : Buffer F → List FeedbackType → Buffer F
  bind_feedback b [] = b
  bind_feedback b (goog_remb ∷ fbs) = bind_feedback (record b { remb = true }) fbs
  bind_feedback b (transport_cc ∷ fbs) = bind_feedback (record b { twcc = true }) fbs
  bind_feedback b (nack_feedback ∷ fbs) = bind_feedback (record b { nack = true }) fbs
  bind_feedback b (other_feedback ∷ fbs) = bind_feedback b fbs

  -- `Bind` up to the pending packets
  pub bind_parameters : Buffer F → Parameters → Memory → Buffer F
  bind_parameters b params buf =
      let coded =
        bind_extension
          (bind_codec
            (record b {
              clock_rate = params.clock_rate;
              max_bitrate = params.max_bit_rate;
              mime = params.mime;
            })
            params.mime buf)
          params.header_extensions in
      if is_video coded.codec_type then bind_feedback coded params.rtcp_feedback else coded

-- `io.EOF`, or an error of the package
pub data ReadError : Type 0 where
  eof : ReadError
  buffer_error : BufferError → ReadError

-- what one round of the loop of `Read` does
pub data ReadRound : Type 0 where
  failed : ReadError → ReadRound
  read_bytes : List ℕ → ReadRound
  sleep : ReadRound

module _ {F : Type 0} (fl : Floats F) (ps : Parsers) where
  -- the loop over the pending packets
  pub calc_pending : Buffer F → List PendingPacket → ℕ → Option (Buffer F × List Event)
  calc_pending b [] now = some (b, [])
  calc_pending b (pp ∷ pps) now = do
    (b', events) ← calc fl ps b pp.packet pp.arrival_time now
    (b'', more) ← calc_pending b' pps now
    some (b'', events ++ more)

  -- `Bind` from the callback of the bucket on, whose assignment is a panic without a bucket
  pub bind_pending : Buffer F → ℕ → Option (Buffer F × List Event)
  bind_pending b now = do
    bucket ← b.bucket
    (b', events) ← calc_pending b b.p_packets now
    some (record b' { p_packets = []; bound = true }, events)

  -- `Bind`
  pub bind : Buffer F → Parameters → Memory → ℕ → Option (Buffer F × List Event)
  bind b params buf now = bind_pending (bind_parameters b params buf) now

  -- `Write`, at the time `arrival`
  pub write : Buffer F → List ℕ → ℕ → ℕ → Option (Buffer F × List Event × Option ReadError)
  write b pkt arrival now =
      if b.closed
      then some (b, [], some eof)
      else if not b.bound
      then some (
        record b {
          p_packets = b.p_packets ++ (record { arrival_time = arrival; packet = pkt } ∷ []);
        },
        [],
        none,
      )
      else Option.map (λ r. (r.0, r.1, none)) (calc fl ps b pkt arrival now)

module _ {F : Type 0} where
  -- a round of `Read` with a destination of `cap` bytes
  pub read : Buffer F → ℕ → Buffer F × ReadRound
  read b cap =
      if b.closed then (b, failed eof) else elim (get_elem? b.p_packets b.last_packet_read) [
        | none ↦ (b, sleep)
        | some pp ↦
            if ltb cap (length pp.packet)
            then (b, failed (buffer_error buffer_too_small))
            else (record b { last_packet_read = b.last_packet_read + 1 }, read_bytes pp.packet)
      ]

  -- `Close`: its effects happen once
  pub close : Buffer F → Buffer F × List Event
  close b = if b.closed then (b, []) else (
    record b { closed = true },
    put_back b.codec_type b.bucket ++ (on_close ∷ close_chan ∷ []),
  )

  -- `SetSenderReportData`, at the time `now`
  pub set_sender_report_data : Buffer F → ℕ → ℕ → ℕ → Buffer F
  set_sender_report_data b rtp_time ntp_time now = record b {
    last_sr_rtp_time = rtp_time;
    last_sr_ntp_time = ntp_time;
    last_sr_recv = now;
  }

  -- `GetPacket` with a destination of capacity `cap`
  pub get_packet : Buffer F → ℕ → ℕ → Option (List ℕ × ℕ × Option ReadError)
  get_packet b cap sn = if b.closed then some ([], 0, some eof) else (do
    bucket ← b.bucket
    (bytes, n, error) ← Bucket.get_packet bucket cap sn
    some (bytes, n, Option.map buffer_error error))
