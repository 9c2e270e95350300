-- ===== src/Buffer.antt =====
-- internal/buffer/buffer.go: the buffer of one SSRC, its statistics and its reports. Floating-point
-- numbers and the parsers of package rtp are parameters.
pub mod Calc
pub mod Calls
pub mod Sequence
pub mod Losses
use mini_sfu.Base.Int.{ℤ, pos, negsuc}
use mini_sfu.Base.{
  ℕ, ◌+◌, ◌-◌, ◌*◌, ◌/◌, ◌%◌, Bool, true, false, ◌&&◌, not, Option, none, some, List, [], ◌∷◌, ◌++◌,
  ltb, leb, ◌==◌, if◌then◌else◌, length, bit_or, u8, u16, u32, sub16, sub32,
}
use mathlib.Core.Option
use mini_sfu.Bucket.{Bucket}
use mini_sfu.Nack.{NackPair}
use mini_sfu.Payload.{Vp8}

-- The floating-point numbers of the program; `decimal n k` is n / 10 ^ k, and `to_int` rounds as the
-- conversion to an unsigned integer does. The two widths are not told apart.
pub record Floats (F : Type 0) : Type 0 where
  pub of_int : ℤ → F
  pub to_int : F → ℕ
  pub decimal : ℕ → ℕ → F
  pub add : F → F → F
  pub sub : F → F → F
  pub mul : F → F → F
  pub div : F → F → F
  pub less : F → F → Bool

-- `b.mime`, as far as the code tells types apart; `video/h264` is among the other ones.
pub data Mime : Type 0 where
  audio_mime video_vp8 video_h64 other_video other_mime : Mime

pub data CodecType : Type 0 where
  unknown audio video : CodecType

-- what the code reads of a parsed `rtp.Packet`
pub record RtpPacket : Type 0 where
  pub timestamp : ℕ
  pub marker : Bool
  pub payload : List ℕ
  pub extension : ℕ → Option (List ℕ)

-- `ExtPacket`
pub record ExtPacket : Type 0 where
  pub head : Bool
  pub cycle : ℕ
  pub arrival : ℕ
  pub packet : RtpPacket
  pub payload : Option Vp8
  pub key_frame : Bool

-- `pendingPackets`
pub record PendingPacket : Type 0 where
  pub arrival_time : ℕ
  pub packet : List ℕ

-- `Stats`
pub record Stats (F : Type 0) : Type 0 where
  pub last_expected : ℕ
  pub last_received : ℕ
  pub lost_rate : F
  pub packet_count : ℕ
  pub jitter : F
  pub total_byte : ℕ

-- `Buffer`, less its callbacks, which are outputs. Counters of 64 bits do not get near their end.
pub record Buffer (F : Type 0) : Type 0 where
  pub bucket : Option Bucket
  pub codec_type : CodecType
  pub p_packets : List PendingPacket
  pub media_ssrc : ℕ
  pub clock_rate : ℕ
  pub max_bitrate : ℕ
  pub last_report : ℕ
  pub twcc_ext : ℕ
  pub audio_ext : ℕ
  pub bound : Bool
  pub closed : Bool
  pub mime : Mime
  pub remb : Bool
  pub nack : Bool
  pub twcc : Bool
  pub audio_level : Bool
  pub min_packet_probe : ℕ
  pub last_packet_read : ℕ
  pub max_temporal_layer : ℕ
  pub bitrate : ℕ
  pub bitrate_helper : ℕ
  pub last_sr_ntp_time : ℕ
  pub last_sr_rtp_time : ℕ
  pub last_sr_recv : ℕ
  pub base_sn : ℕ
  pub max_seq_no : ℕ
  pub cycles : ℕ
  pub last_transit : ℕ
  pub stats : Stats F
  pub latest_timestamp : ℕ
  pub latest_timestamp_time : ℕ

-- `rtcp.ReceptionReport`
pub record ReceptionReport : Type 0 where
  pub ssrc : ℕ
  pub fraction_lost : ℕ
  pub total_lost : ℕ
  pub last_sequence_number : ℕ
  pub jitter : ℕ
  pub last_sender_report : ℕ
  pub delay : ℕ

pub data RtcpPacket : Type 0 where
  transport_layer_nack : ℕ → List NackPair → RtcpPacket
  picture_loss_indication : ℕ → RtcpPacket
  receiver_report : ℕ → ReceptionReport → RtcpPacket
  estimated_maximum_bitrate : (bitrate ssrc : ℕ) → RtcpPacket

-- the branches on the first packet and on a packet that is not behind the latest
pub note_sequence : {F : Type 0} → Buffer F → ℕ → ℕ → Buffer F
note_sequence b sn arrival =
    if b.stats.packet_count == 0
    then record b {
      base_sn = sn;
      max_seq_no = sn;
      bucket = Option.map {A = Bucket} (λ k. record k { head_sn = sub16 sn 1 }) b.bucket;
      last_report = arrival;
    }
    else if ltb (sub16 sn b.max_seq_no) 32768
    then record b {
      cycles = if ltb sn b.max_seq_no then u32 (b.cycles + 65536) else b.cycles;
      max_seq_no = sn;
    }
    else b

-- the counters of packets and bytes
pub count_bytes : {F : Type 0} → Buffer F → ℕ → Buffer F
count_bytes b n = record b {
  bitrate_helper = b.bitrate_helper + n;
  stats = record b.stats {
    total_byte = b.stats.total_byte + n;
    packet_count = u32 (b.stats.packet_count + 1);
  };
}

-- `extMaxSeq` and `expected` of `buildReceptionReport`
pub ext_max_seq : {F : Type 0} → Buffer F → ℕ
ext_max_seq b = bit_or b.cycles b.max_seq_no

pub expected : {F : Type 0} → Buffer F → ℕ
expected b = u32 (sub32 (ext_max_seq b) b.base_sn + 1)

pub total_lost : {F : Type 0} → Buffer F → ℕ
total_lost b =
    if ltb b.stats.packet_count (expected b) && not (b.stats.packet_count == 0)
    then expected b - b.stats.packet_count
    else 0

-- `expectedInterval` and `lostInterval`
pub expected_interval : {F : Type 0} → Buffer F → ℕ
expected_interval b = sub32 (expected b) b.stats.last_expected

pub lost_interval : {F : Type 0} → Buffer F → ℕ
lost_interval b = sub32 (expected_interval b) (sub32 b.stats.packet_count b.stats.last_received)

pub fraction_lost : {F : Type 0} → Buffer F → ℕ
fraction_lost b =
    if not (expected_interval b == 0) && ltb 0 (lost_interval b)
    then u8 (u32 (lost_interval b * 256) / expected_interval b)
    else 0

-- `dlsr`: the time since the last sender report
pub delay_since : {F : Type 0} → Buffer F → ℕ → ℕ
delay_since b now =
    let delay_ms =
      if leb b.last_sr_recv now
      then u32 ((now - b.last_sr_recv) / 1000000)
      else sub32 0 (u32 ((b.last_sr_recv - now) / 1000000)) in
    if b.last_sr_recv == 0
    then 0
    else bit_or (u32 (delay_ms / 1000 * 65536)) (delay_ms % 1000 / 1000 * 65536)

module _ {F : Type 0} (fl : Floats F) where
  -- `NewBuffer`
  abbrev pub new_buffer : ℕ → Buffer F
  new_buffer ssrc = record {
    bucket = none;
    codec_type = unknown;
    p_packets = [];
    media_ssrc = ssrc;
    clock_rate = 0;
    max_bitrate = 0;
    last_report = 0;
    twcc_ext = 0;
    audio_ext = 0;
    bound = false;
    closed = false;
    mime = other_mime;
    remb = false;
    nack = false;
    twcc = false;
    audio_level = false;
    min_packet_probe = 0;
    last_packet_read = 0;
    max_temporal_layer = 0;
    bitrate = 0;
    bitrate_helper = 0;
    last_sr_ntp_time = 0;
    last_sr_rtp_time = 0;
    last_sr_recv = 0;
    base_sn = 0;
    max_seq_no = 0;
    cycles = 0;
    last_transit = 0;
    stats = record {
      last_expected = 0;
      last_received = 0;
      lost_rate = fl.of_int (pos 0);
      packet_count = 0;
      jitter = fl.of_int (pos 0);
      total_byte = 0;
    };
    latest_timestamp = 0;
    latest_timestamp_time = 0;
  }

  -- `buildReceptionReport`, at the time `now`
  pub build_reception_report : Buffer F → ℕ → Buffer F × ReceptionReport
  build_reception_report b now = (
    record b {
      stats = record b.stats {
        last_expected = expected b;
        last_received = b.stats.packet_count;
        lost_rate =
            fl.div (fl.of_int (pos (lost_interval b))) (fl.of_int (pos (expected_interval b)));
      };
    },
    record {
      ssrc = b.media_ssrc;
      fraction_lost = fraction_lost b;
      total_lost = total_lost b;
      last_sequence_number = ext_max_seq b;
      jitter = fl.to_int b.stats.jitter;
      last_sender_report = u32 (b.last_sr_ntp_time / 65536);
      delay = delay_since b now;
    },
  )

  -- the bitrate of `buildREMBPacket`, before its limits
  pub scaled_bitrate : ℕ → F → ℕ
  scaled_bitrate bitrate lost_rate =
      let raised =
        if fl.less lost_rate (fl.decimal 2 2)
        then fl.to_int (fl.mul (fl.of_int (pos bitrate)) (fl.decimal 109 2)) + 2000
        else bitrate in
      if fl.less (fl.decimal 1 1) lost_rate
      then fl.to_int (
          fl.mul (fl.of_int (pos raised))
            (fl.sub (fl.of_int (pos 1)) (fl.mul (fl.decimal 5 1) lost_rate)))
      else raised

  abbrev pub limit_bitrate : ℕ → ℕ → ℕ
  limit_bitrate max_bitrate bitrate =
      let capped = if ltb max_bitrate bitrate then max_bitrate else bitrate in
      if ltb capped 100000 then 100000 else capped

  -- `buildREMBPacket`
  pub build_remb_packet : Buffer F → Buffer F × RtcpPacket
  build_remb_packet b = (
    record b { stats = record b.stats { total_byte = 0 } },
    estimated_maximum_bitrate
        (limit_bitrate b.max_bitrate (scaled_bitrate b.bitrate b.stats.lost_rate)) b.media_ssrc,
  )

  -- `getRTCP`
  pub get_rtcp : Buffer F → ℕ → Buffer F × List RtcpPacket
  get_rtcp b now =
      let (reported, report) = build_reception_report b now in
      if b.remb && not b.twcc
      then (let (estimated, remb) = build_remb_packet reported in
          (estimated, receiver_report b.media_ssrc report ∷ remb ∷ []))
      else (reported, receiver_report b.media_ssrc report ∷ [])
