-- ===== src/DownTrack/Layers.antt =====
-- Switches between the layers of a simulcast source in downtrack.go.
use mini_sfu.Base.{ℕ, ◌<◌, ◌≡◌, ◌≢◌, ◌∙◌, Bool, true, false, List, [], ◌∷◌, arith}
use mini_sfu.Base.Bits.{bit_or_fields}
use mini_sfu.DownTrack.{
  DownTrack, ExtPacket, Output, write_simulcast_rtp, current_layer, target_layer,
  simulcast_down_track, switch_spatial_layer, pack_layers, sub_down_track,
}
use mini_sfu.DownTrack.Simulcast.{InRange, key_frame-moves}

-- The two halves of the packed layers.
pub unpack :
    (target current : ℕ)
    → target < 65536
    → current < 65536
    → (current_layer (pack_layers target current) ≡ current)
      × (target_layer (pack_layers target current) ≡ target)
unpack target current t c = (
  omega (arith, bit_or_fields 16 target current c),
  omega (arith, bit_or_fields 16 target current c),
)

-- the track while a switch is on its way
abbrev pub switching : DownTrack → ℕ → ℕ → DownTrack
switching d current target = record d { spatial_layer = pack_layers target current }

pub switch_begins :
    (d : DownTrack) (current target : ℕ)
    → d.track_type ≡ simulcast_down_track
    → d.spatial_layer ≡ pack_layers current current
    → current < 65536
    → target < 65536
    → current ≢ target
    → switch_spatial_layer d target true ≡ (switching d current target, sub_down_track target ∷ [])
unfolding switch_spatial_layer
switch_begins d current target kind settled c t new =
    let u = unpack current current c c in rw (kind, settled, u.0, u.1) (ground (arith, new, t))

switch_refused :
    (d : DownTrack) (l : ℕ) (subscribed : Bool)
    → d.track_type ≡ simulcast_down_track
    → current_layer d.spatial_layer ≢ target_layer d.spatial_layer
    → switch_spatial_layer d l subscribed ≡ (d, [])
unfolding switch_spatial_layer
switch_refused d l subscribed kind apart = rw kind (ground (arith, apart))

-- A synchronised simulcast track that has sent packets and is settled at one layer switches to
-- another, not layer 0, and then gets a key frame of an SSRC other than the last: it forwards from
-- the target layer, but the target half of its packed layers is 0. So every later switch, to
-- whatever layer, is refused and changes nothing.
pub switch_locks :
    (d : DownTrack) (e : ExtPacket) (now current target : ℕ)
    → d.track_type ≡ simulcast_down_track
    → d.spatial_layer ≡ pack_layers current current
    → current < 65536
    → target < 65536
    → current ≢ target
    → target ≢ 0
    → d.re_sync ≡ false
    → d.last_ts_calc ≢ 0
    → d.last_ssrc ≢ e.packet.ssrc
    → e.key_frame ≡ true
    → InRange d e
    → (d' : DownTrack) × (out : List Output) × (write_simulcast_rtp
          (switch_spatial_layer d target true).0
          e
          now
        ≡ (d', out))
      × (d'.spatial_layer ≡ target)
      × ((l : ℕ) (subscribed : Bool) → switch_spatial_layer d' l subscribed ≡ (d', []))
switch_locks d e now current target kind settled c t new above synced sent other frame range =
    let u = unpack target current t c in
    let (d', out, written, layer, same) =
      key_frame-moves (switching d current target) e now synced sent other (rw (u.0, u.1) new) frame
        (record {
          last_sn_fits = range.last_sn_fits;
          sn_fits = range.sn_fits;
          ts_fits = range.ts_fits;
        }) in
    let at_target = layer ∙ u.1 in
    (
      d',
      out,
      rw (switch_begins d current target kind settled c t new) written,
      at_target,
      λ l subscribed. switch_refused d' l subscribed (same ∙ kind) (rw at_target (omega arith)),
    )
