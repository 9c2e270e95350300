-- ===== src/DownTrack/Binding.antt =====
-- internal/sfu/downtrack.go: a track before, while and after its connection has agreed on a codec.
use mini_sfu.Base.{
  ℕ, ◌≡◌, refl, Bool, true, false, ◌||◌, not, Option, none, some, List, [], ◌∷◌, ◌++◌, map,
  if◌then◌else◌, u8,
}
use mini_sfu.Helper.{Codec, codec_parameters_fuzzy_search}
use mini_sfu.Sequencer.{new_sequencer}
use mini_sfu.DownTrack.{
  DownTrack, CodecKind, TrackType, no_type, simple_down_track, simulcast_down_track, ExtPacket,
  Output, is_video, write_rtp,
}

-- `NewDownTrack`, for the kind of its codec
unfoldable pub new_down_track : CodecKind → DownTrack
new_down_track kind = record {
  bound = false;
  enabled = false;
  re_sync = false;
  ssrc = 0;
  payload_type = 0;
  kind = kind;
  track_type = no_type;
  sequencer = none;
  spatial_layer = 0;
  max_spatial_layer = 0;
  sn_offset = 0;
  ts_offset = 0;
  last_ssrc = 0;
  last_sn = 0;
  last_ts = 0;
  last_ts_calc = 0;
  switch_delay = 0;
  octet_count = 0;
  packet_count = 0;
  last_packet_ms = 0;
}

-- what `Bind` reads of the `TrackLocalContext`
pub record Context : Type 0 where
  pub codec_parameters : List Codec
  pub ssrc : ℕ

-- the call of `onBind`, and the handler that the reader of the SSRC gets
pub data BindCall : Type 0 where
  on_packet : ℕ → BindCall
  on_bind : BindCall

-- what `Bind` stores of a codec that was found
unfoldable pub bound_to : DownTrack → Context → Codec → ℕ → DownTrack
bound_to d ctx codec now = record d {
  ssrc = ctx.ssrc;
  payload_type = u8 codec.payload_type;
  re_sync = true;
  enabled = true;
  bound = true;
  sequencer = if is_video d.kind then some (new_sequencer now) else d.sequencer;
}

-- `Bind`, for the track's own codec; no codec is `ErrUnsupportedCodec`.
unfoldable pub bind : DownTrack → Codec → Context → ℕ → DownTrack × Option Codec × List BindCall
bind d own ctx now = elim (codec_parameters_fuzzy_search own ctx.codec_parameters) [
  | none ↦ (d, none, [])
  | some codec ↦ (bound_to d ctx codec now, some codec, on_packet ctx.ssrc ∷ on_bind ∷ [])
]

-- `Unbind`
unfoldable pub unbind : DownTrack → DownTrack
unbind d = record d { bound = false }

-- the packets of a source with the times in ms at which they come, one after the other
unfoldable pub run_rtp : DownTrack → List (ExtPacket × ℕ) → DownTrack × List Output
run_rtp d [] = (d, [])
run_rtp d (e ∷ es) =
    let (d', out) = write_rtp d e.0 e.1 in let (d'', rest) = run_rtp d' es in (d'', out ++ rest)

-- A bound track without layers
abbrev pub IsLive : DownTrack → Type 0
IsLive d = (d.enabled ≡ true) × (d.bound ≡ true) × (d.track_type ≡ simple_down_track)

-- the tests of `WriteRTP`, for a track that is enabled and bound
pub gate :
    (enabled bound : Bool) (type_ k : TrackType) (x y z : DownTrack × List Output)
    → enabled ≡ true
    → bound ≡ true
    → type_ ≡ k
    → (if not enabled || not bound
        then x
        else elim type_ [ no_type ↦ x | simple_down_track ↦ y | simulcast_down_track ↦ z ])
      ≡ elim k [ no_type ↦ x | simple_down_track ↦ y | simulcast_down_track ↦ z ]
gate enabled bound type_ k x y z e b t = rw (e, b, t) refl

abbrev pub packets_of : List (ExtPacket × ℕ) → List ExtPacket
packets_of es = map (λ (e : ExtPacket × ℕ). e.0) es
