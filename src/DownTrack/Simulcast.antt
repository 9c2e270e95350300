-- ===== src/DownTrack/Simulcast.antt =====
-- What `writeSimulcastRTP` of downtrack.go does when the source changes.
use mini_sfu.Base.{
  ℕ, ◌+◌, ◌-◌, ◌*◌, ◌/◌, ◌≤◌, ◌<◌, max, ◌≡◌, ◌≢◌, refl, ap, ◌∙◌, true, false, List, [], ◌∷◌, u16,
  u32, sub16, sub32, arith,
}
use mini_sfu.Base.Bits.{bit_or_same}
use mini_sfu.DownTrack.{
  DownTrack, ExtPacket, Output, enqueue, delete_down_track, rewritten, forward_simulcast,
  align_simulcast, note_arrival, write_simulcast_rtp, current_layer, target_layer, settled_layers,
  time_step,
}

-- The ticks at 90 per second of the whole milliseconds between two times in nanoseconds, at least 1
abbrev pub ticks_later : ℕ → ℕ → ℕ
ticks_later since now = max 1 ((now - since) / 1000000 * 90 / 1000)

-- What a track is after the key frame of a switch, and what it has sent.
pub record Switched (d : DownTrack) (e : ExtPacket) (d' : DownTrack) (out : List Output)
    : Type 0 where
  pub layer : d'.spatial_layer ≡ target_layer d.spatial_layer
  pub synced : d'.re_sync ≡ false
  pub source : d'.last_ssrc ≡ e.packet.ssrc
  pub kind : d'.track_type ≡ d.track_type
  pub sent :
      out
      ≡ delete_down_track (current_layer d.spatial_layer)
        ∷ enqueue (
            rewritten d e.packet
              (u16 (d.last_sn + 1))
              (u32 (d.last_ts + ticks_later d.last_ts_calc e.arrival)))
        ∷ []
  pub later :
      (1 ≤ ticks_later d.last_ts_calc e.arrival)
      × (ticks_later d.last_ts_calc e.arrival < 2147483648)

-- the numbers and times of this packet and of the track are in their ranges
pub record InRange (d : DownTrack) (e : ExtPacket) : Type 0 where
  pub last_sn_fits : d.last_sn < 65536
  pub sn_fits : e.packet.sequence_number < 65536
  pub ts_fits : e.packet.timestamp < 4294967296

-- the track as it is when the key frame of a switch is forwarded
abbrev pub ready : DownTrack → DownTrack
ready d = record d { spatial_layer = settled_layers d.spatial_layer; re_sync = false }

module _ (d : DownTrack) (e : ExtPacket) (now : ℕ) (synced : d.re_sync ≡ false)
    (other : d.last_ssrc ≢ e.packet.ssrc)
    (switching : current_layer d.spatial_layer ≢ target_layer d.spatial_layer)
    (frame : e.key_frame ≡ true) where
  pub write_simulcast_rtp-ready : write_simulcast_rtp d e now ≡ (
    (forward_simulcast (ready d) e now).0,
    delete_down_track (current_layer d.spatial_layer) ∷ (forward_simulcast (ready d) e now).1,
  )
  unfolding write_simulcast_rtp note_arrival
  write_simulcast_rtp-ready = ground (arith, synced, other, switching, frame)

-- offsets that put the packet after the last one sent
module _ (d : DownTrack) (e : ExtPacket) (now : ℕ) (sent : d.last_ts_calc ≢ 0)
    (other : d.last_ssrc ≢ e.packet.ssrc) (range : InRange d e) where
  abbrev step_ts : ℕ
  step_ts = time_step d.last_ts_calc e.arrival

  next_sn :
      sub16 e.packet.sequence_number (sub16 (sub16 e.packet.sequence_number d.last_sn) 1)
      ≡ u16 (d.last_sn + 1)
  next_sn = omega (arith, range.last_sn_fits, range.sn_fits)

  next_ts :
      (step : ℕ)
      → sub32 e.packet.timestamp (sub32 e.packet.timestamp (u32 (d.last_ts + step)))
        ≡ u32 (d.last_ts + step)
  next_ts step = omega (arith, range.ts_fits)

  align_simulcast-other : align_simulcast d e ≡ record d {
    ts_offset = sub32 e.packet.timestamp (u32 (d.last_ts + step_ts));
    sn_offset = sub16 (sub16 e.packet.sequence_number d.last_sn) 1;
  }
  unfolding align_simulcast
  align_simulcast-other = ground (arith, sent, other)

  forward_simulcast-other :
      let r = forward_simulcast d e now in
      (r.0.spatial_layer ≡ d.spatial_layer)
      × (r.0.re_sync ≡ d.re_sync)
      × (r.0.last_ssrc ≡ e.packet.ssrc)
      × (r.0.track_type ≡ d.track_type)
      × (r.1
          ≡ enqueue (rewritten d e.packet (u16 (d.last_sn + 1)) (u32 (d.last_ts + step_ts))) ∷ [])
  unfolding forward_simulcast
  forward_simulcast-other =
      rw align_simulcast-other
        (ground arith, ground arith, refl, ground arith, rw (next_sn, next_ts step_ts) refl)

settled_layers-target : (layer : ℕ) → settled_layers layer ≡ target_layer layer
unfolding settled_layers
settled_layers-target layer = bit_or_same (target_layer layer)

-- A key frame of a switch, whenever it arrives: the track goes to the target layer.
pub key_frame-moves :
    (d : DownTrack) (e : ExtPacket) (now : ℕ)
    → d.re_sync ≡ false
    → d.last_ts_calc ≢ 0
    → d.last_ssrc ≢ e.packet.ssrc
    → current_layer d.spatial_layer ≢ target_layer d.spatial_layer
    → e.key_frame ≡ true
    → InRange d e
    → (d' : DownTrack) × (out : List Output) × (write_simulcast_rtp d e now ≡ (d', out))
      × (d'.spatial_layer ≡ target_layer d.spatial_layer)
      × (d'.track_type ≡ d.track_type)
key_frame-moves d e now synced sent other switching frame range =
    let f = forward_simulcast-other (ready d) e now sent other (record {
      last_sn_fits = range.last_sn_fits;
      sn_fits = range.sn_fits;
      ts_fits = range.ts_fits;
    }) in
    (
      _,
      _,
      write_simulcast_rtp-ready d e now synced other switching frame,
      f.0 ∙ settled_layers-target d.spatial_layer,
      f.3,
    )

time_step-later :
    (since now : ℕ)
    → since ≤ now
    → now < since + 1000000000000000
    → time_step since now ≡ ticks_later since now
unfolding time_step
time_step-later since now order near = ground (arith, order, near)

-- A simulcast track that has sent packets, is switching from its current layer to another, and gets a
-- key frame of another SSRC than the last, at most 10^15 ns after the arrival that it noted and not
-- before it: it unsubscribes from the current layer, stores the target layer, and forwards the key frame
-- with the number that follows the last one sent and with the time of the last one moved on by the ticks
-- of the milliseconds between the arrivals, counted as 90 per second, which are at least 1 and fewer
-- than half the range.
pub key_frame-Switched :
    (d : DownTrack) (e : ExtPacket) (now : ℕ)
    → d.re_sync ≡ false
    → d.last_ts_calc ≢ 0
    → d.last_ssrc ≢ e.packet.ssrc
    → current_layer d.spatial_layer ≢ target_layer d.spatial_layer
    → e.key_frame ≡ true
    → d.last_ts_calc ≤ e.arrival
    → e.arrival < d.last_ts_calc + 1000000000000000
    → InRange d e
    → (d' : DownTrack) × (out : List Output) × (write_simulcast_rtp d e now ≡ (d', out))
      × Switched d e d' out
key_frame-Switched d e now synced sent other switching frame order near range =
    let f = forward_simulcast-other (ready d) e now sent other (record {
      last_sn_fits = range.last_sn_fits;
      sn_fits = range.sn_fits;
      ts_fits = range.ts_fits;
    }) in
    (
      _,
      _,
      write_simulcast_rtp-ready d e now synced other switching frame,
      record {
        layer = f.0 ∙ settled_layers-target d.spatial_layer;
        synced = f.1;
        source = f.2;
        kind = f.3;
        sent =
            ap (λ out. delete_down_track (current_layer d.spatial_layer) ∷ out) f.4
            ∙ ap
                (λ step.
                  delete_down_track (current_layer d.spatial_layer)
                  ∷ enqueue (rewritten d e.packet (u16 (d.last_sn + 1)) (u32 (d.last_ts + step)))
                  ∷ [])
                (time_step-later d.last_ts_calc e.arrival order near);
        later = omega (arith, order, near);
      },
    )
