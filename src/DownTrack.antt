-- ===== src/DownTrack.antt =====
-- internal/sfu/downtrack.go: the track that rewrites a publisher's packets for one subscriber.
-- Calls of the receiver and of the pacer are outputs, in their order.
pub mod Simple
pub mod Simulcast
pub mod Layers
pub mod Feedback
pub mod Binding
mod Tests
use mini_sfu.Base.{
  ℕ, zero, suc, ◌+◌, ◌-◌, ◌*◌, ◌/◌, ◌%◌, Bool, true, false, ◌&&◌, ◌||◌, not, Option, none, some,
  List, [], ◌∷◌, ◌++◌, ltb, leb, ◌==◌, if◌then◌else◌, length, get_or, bit_or, u8, u16, u32, sub16,
  sub32,
}
use mathlib.Core.Option
use mini_sfu.Sequencer
use mini_sfu.Sequencer.{Sequencer, PacketMeta, get_seq_no_pairs}

-- `DownTrackType`; a track that was given no type forwards nothing.
pub data TrackType : Type 0 where
  no_type simple_down_track simulcast_down_track : TrackType

-- `webrtc.RTPCodecType`, as `Kind` finds it from the MIME type
pub data CodecKind : Type 0 where
  audio video unknown : CodecKind

-- what the code reads and writes of `rtp.Packet`
pub record Packet : Type 0 where
  pub payload_type : ℕ
  pub sequence_number : ℕ
  pub timestamp : ℕ
  pub ssrc : ℕ
  pub payload : List ℕ

-- `buffer.ExtPacket`; `arrival` is in nanoseconds.
pub record ExtPacket : Type 0 where
  pub head : Bool
  pub arrival : ℕ
  pub key_frame : Bool
  pub packet : Packet

-- the fields of `DownTrack` that its operations read or write
pub record DownTrack : Type 0 where
  pub bound : Bool
  pub enabled : Bool
  pub re_sync : Bool
  pub ssrc : ℕ
  pub payload_type : ℕ
  pub kind : CodecKind
  pub track_type : TrackType
  pub sequencer : Option Sequencer
  pub spatial_layer : ℕ
  pub max_spatial_layer : ℕ
  pub sn_offset : ℕ
  pub ts_offset : ℕ
  pub last_ssrc : ℕ
  pub last_sn : ℕ
  pub last_ts : ℕ
  pub last_ts_calc : ℕ
  pub switch_delay : ℕ
  pub octet_count : ℕ
  pub packet_count : ℕ
  pub last_packet_ms : ℕ

-- a call that leaves the track
pub data Output : Type 0 where
  enqueue : Packet → Output
  send_pli : (sender media : ℕ) → Output
  send_fir : (sender media : ℕ) → Output
  delete_down_track : ℕ → Output
  sub_down_track : ℕ → Output
  set_target_bitrate : ℕ → Output
  retransmit : List PacketMeta → Output

-- the rewriting of the header, for the pacer
abbrev pub rewritten : DownTrack → Packet → ℕ → ℕ → Packet
rewritten d p new_sn new_ts = record p {
  payload_type = d.payload_type;
  sequence_number = new_sn;
  timestamp = new_ts;
  ssrc = d.ssrc;
}

-- the counters of the sender report
abbrev pub count_packet : DownTrack → Packet → DownTrack
count_packet d p = record d {
  octet_count = u32 (d.octet_count + length p.payload);
  packet_count = u32 (d.packet_count + 1);
}

-- the call of the sequencer, if there is one
abbrev pub record_packet : DownTrack → ExtPacket → ℕ → ℕ → ℕ → DownTrack
record_packet d ext new_sn new_ts layer = record d {
  sequencer =
      Option.map (λ s. (Sequencer.push s ext.packet.sequence_number new_sn new_ts layer ext.head).0)
        d.sequencer;
}

-- the branch on `extPkt.Head`, at `ms` milliseconds
abbrev pub move_last : DownTrack → ExtPacket → ℕ → ℕ → ℕ → DownTrack
move_last d ext new_sn new_ts ms =
    if ext.head then record d { last_sn = new_sn; last_ts = new_ts; last_packet_ms = ms } else d

abbrev pub is_video : CodecKind → Bool
is_video audio = false
is_video video = true
is_video unknown = false

-- the end of `writeSimpleRTP`, from the counters on
pub forward_simple : DownTrack → ExtPacket → DownTrack × List Output
forward_simple d ext =
    let new_sn = sub16 ext.packet.sequence_number d.sn_offset in
    let new_ts = sub32 ext.packet.timestamp d.ts_offset in
    (
      move_last (record_packet (count_packet d ext.packet) ext new_sn new_ts 0) ext new_sn new_ts
          (ext.arrival / 1000000),
      enqueue (rewritten d ext.packet new_sn new_ts) ∷ [],
    )

-- the offsets of a source that takes over, so that the numbers go on
pub sync_simple : DownTrack → ExtPacket → DownTrack
sync_simple d ext =
    let aligned = if d.last_sn == 0 then d else record d {
      sn_offset = sub16 (sub16 ext.packet.sequence_number d.last_sn) 1;
      ts_offset = sub32 (sub32 ext.packet.timestamp d.last_ts) 1;
    } in
    record aligned { last_ssrc = ext.packet.ssrc; re_sync = false }

pub write_simple_rtp : DownTrack → ExtPacket → DownTrack × List Output
write_simple_rtp d ext =
    if d.re_sync
    then (if is_video d.kind && not ext.key_frame
        then (d, send_pli d.ssrc ext.packet.ssrc ∷ [])
        else forward_simple (sync_simple d ext) ext)
    else forward_simple d ext

-- `uint16(layer)` and `uint16(layer >> 16)`; the packed value is not negative.
abbrev pub current_layer : ℕ → ℕ
current_layer layer = layer % 65536

abbrev pub target_layer : ℕ → ℕ
target_layer layer = layer / 65536 % 65536

-- `target<<16 | current`
abbrev pub pack_layers : ℕ → ℕ → ℕ
pack_layers target current = bit_or (target * 65536) current

pub set_initial_layers : DownTrack → ℕ → DownTrack
set_initial_layers d layer = record d { spatial_layer = pack_layers layer layer }

-- `uint32((tDiff * 90) / 1000)` with `tDiff` in milliseconds, of two times in nanoseconds; the
-- divisions of int64 truncate.
abbrev pub ticks_between : ℕ → ℕ → ℕ
ticks_between since now =
    if leb since now
    then u32 ((now - since) / 1000000 * 90 / 1000)
    else sub32 0 (u32 ((since - now) / 1000000 * 90 / 1000))

-- `td`, which is at least 1
pub time_step : ℕ → ℕ → ℕ
time_step since now = if ticks_between since now == 0 then 1 else ticks_between since now

-- the part of `writeSimulcastRTP` from the offsets on, at `now` milliseconds
unfoldable pub align_simulcast : DownTrack → ExtPacket → DownTrack
align_simulcast d ext =
    if not (d.last_ts_calc == 0) && not (d.last_ssrc == ext.packet.ssrc)
    then record d {
      ts_offset =
          sub32 ext.packet.timestamp (u32 (d.last_ts + time_step d.last_ts_calc ext.arrival));
      sn_offset = sub16 (sub16 ext.packet.sequence_number d.last_sn) 1;
    }
    else if d.last_ts_calc == 0
    then record d { last_ts = ext.packet.timestamp; last_sn = ext.packet.sequence_number }
    else d

unfoldable pub forward_simulcast : DownTrack → ExtPacket → ℕ → DownTrack × List Output
forward_simulcast d ext now =
    let a = align_simulcast d ext in
    let new_sn = sub16 ext.packet.sequence_number a.sn_offset in
    let new_ts = sub32 ext.packet.timestamp a.ts_offset in
    let pushed = record_packet a ext new_sn new_ts (u8 a.spatial_layer) in
    (
      record (move_last (count_packet pushed ext.packet) ext new_sn new_ts now) {
        last_ts_calc = ext.arrival;
        last_ssrc = ext.packet.ssrc;
      },
      enqueue (rewritten d ext.packet new_sn new_ts) ∷ [],
    )

-- The store of the layers after a switch: both operands of `|` are the target, unshifted.
unfoldable pub settled_layers : ℕ → ℕ
settled_layers layer = bit_or (target_layer layer) (target_layer layer)

-- the start of the wait for a source, at its first packet
unfoldable pub note_arrival : DownTrack → ExtPacket → DownTrack
note_arrival d ext =
    if d.re_sync && not (d.last_ts_calc == 0) then record d { last_ts_calc = ext.arrival } else d

unfoldable pub write_simulcast_rtp : DownTrack → ExtPacket → ℕ → DownTrack × List Output
write_simulcast_rtp d ext now =
    if not (d.last_ssrc == ext.packet.ssrc) || d.re_sync
    then (let current = current_layer d.spatial_layer in
        let target = target_layer d.spatial_layer in
        if current == target && not (d.last_ssrc == 0) && not d.re_sync
        then (d, [])
        else let noted = note_arrival d ext in
          if not ext.key_frame
          then (noted, send_pli d.ssrc ext.packet.ssrc ∷ [])
          else let r =
              forward_simulcast
                (record noted { spatial_layer = settled_layers d.spatial_layer; re_sync = false })
                ext now in
            (r.0, (if current == target then [] else delete_down_track current ∷ []) ++ r.1))
    else forward_simulcast d ext now

unfoldable pub write_rtp : DownTrack → ExtPacket → ℕ → DownTrack × List Output
write_rtp d ext now = if not d.enabled || not d.bound then (d, []) else elim d.track_type [
  | no_type ↦ (d, [])
  | simple_down_track ↦ write_simple_rtp d ext
  | simulcast_down_track ↦ write_simulcast_rtp d ext now
]

-- `SwitchSpatialLayer`; the argument is whether `SubDownTrack` of the receiver succeeds.
unfoldable pub switch_spatial_layer : DownTrack → ℕ → Bool → DownTrack × List Output
switch_spatial_layer d target subscribed = elim d.track_type [
  | no_type ↦ (d, [])
  | simple_down_track ↦ (d, [])
  | simulcast_down_track ↦
      let current = current_layer d.spatial_layer in
      if not (current == target_layer d.spatial_layer) || current == u16 target then (d, []) else (
        if subscribed then record d { spatial_layer = pack_layers target current } else d,
        sub_down_track target ∷ [],
      )
]
