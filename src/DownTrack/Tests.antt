-- ===== src/DownTrack/Tests.antt =====
-- Runs of downtrack.go, and the theorems at them.
use mini_sfu.Base.{
  ℕ, ◌≤◌, ◌≡◌, refl, true, false, none, some, List, [], ◌∷◌, ◌++◌, map, arith, sub16, sub32, u16,
  u32,
}
use mini_sfu.DownTrack.{
  DownTrack, Packet, ExtPacket, Output, enqueue, send_pli, video, simple_down_track,
  simulcast_down_track, forward_simple, sync_simple, write_simple_rtp, write_simulcast_rtp,
  forward_simulcast, align_simulcast, note_arrival, settled_layers, time_step, switch_spatial_layer,
  write_rtp,
}
use mini_sfu.Helper.{Codec, codec_parameters_fuzzy_search, find_codec}
use mini_sfu.DownTrack.Binding.{new_down_track, Context, bound_to, bind, run_rtp}
use mini_sfu.DownTrack.Simple.{run_simple, shifted, resync_continues}
use mini_sfu.DownTrack.Simulcast.{Switched, InRange, key_frame-Switched}
use mini_sfu.DownTrack.Feedback.{pli, fir, remb, nack, Outside, handle_rtcp}
use mini_sfu.DownTrack.Feedback.Forwarded.{count, is_pli, is_fir, handle_rtcp-once}

abbrev packet : ℕ → ℕ → ℕ → Packet
packet ssrc sn ts = record {
  payload_type = 96;
  sequence_number = sn;
  timestamp = ts;
  ssrc = ssrc;
  payload = 1 ∷ 2 ∷ [];
}

abbrev key_packet : ℕ → ℕ → ℕ → ExtPacket
key_packet ssrc sn ts = record {
  head = true;
  arrival = 5000000000;
  key_frame = true;
  packet = packet ssrc sn ts;
}

abbrev delta_packet : ℕ → ℕ → ℕ → ExtPacket
delta_packet ssrc sn ts = record {
  head = true;
  arrival = 5000000000;
  key_frame = false;
  packet = packet ssrc sn ts;
}

-- a video track that has sent number 65535 and waits for a source
abbrev waiting_track : DownTrack
waiting_track = record {
  bound = true;
  enabled = true;
  re_sync = true;
  ssrc = 7;
  payload_type = 100;
  kind = video;
  track_type = simple_down_track;
  sequencer = none;
  spatial_layer = 0;
  max_spatial_layer = 2;
  sn_offset = 0;
  ts_offset = 0;
  last_ssrc = 40;
  last_sn = 65535;
  last_ts = 1000;
  last_ts_calc = 4000000000;
  switch_delay = 0;
  octet_count = 0;
  packet_count = 0;
  last_packet_ms = 0;
}

abbrev numbers : List Output → List ℕ
numbers [] = []
numbers (enqueue p ∷ os) = p.sequence_number ∷ numbers os
numbers (o ∷ os) = numbers os

goes_on_over_the_wrap :
    numbers
      (run_simple waiting_track
        (delta_packet 41 9 60 ∷ key_packet 41 10 90 ∷ delta_packet 41 11 180 ∷ [])).1
    ≡ 0 ∷ 1 ∷ []
unfolding run_simple write_simple_rtp forward_simple sync_simple
goes_on_over_the_wrap = refl

abbrev layered_track : DownTrack
layered_track = record waiting_track { re_sync = false; track_type = simulcast_down_track }

-- a switch from layer 0 to layer 2, and the key frame of layer 2
switches_once :
    let d = (switch_spatial_layer layered_track 2 true).0 in
    let e = (write_rtp d (key_packet 42 10 90) 5).0 in (switch_spatial_layer e 0 true).1 ≡ []
unfolding switch_spatial_layer write_rtp write_simulcast_rtp forward_simulcast align_simulcast
    note_arrival settled_layers time_step
switches_once = refl

resync_continues_example :
    (sn_offset ts_offset : ℕ) × ((run_simple waiting_track
        ((delta_packet 41 9 60 ∷ []) ++ (key_packet 41 10 90 ∷ delta_packet 41 11 180 ∷ []))).1
      ≡ map (λ (e : ExtPacket). send_pli 7 e.packet.ssrc) (delta_packet 41 9 60 ∷ [])
        ++ map
            (shifted 100 7 sn_offset ts_offset)
            (key_packet 41 10 90 ∷ delta_packet 41 11 180 ∷ []))
    × (sub16 10 sn_offset ≡ u16 65536)
    × (sub32 90 ts_offset ≡ u32 1001)
resync_continues_example =
    resync_continues waiting_track (delta_packet 41 9 60 ∷ []) (key_packet 41 10 90)
      (delta_packet 41 11 180 ∷ []) refl refl (omega arith) (omega arith) (omega arith)
      (omega arith) (omega arith) (refl, tt) refl

-- switching from layer 0 to layer 1
abbrev between_layers : DownTrack
between_layers = record layered_track { spatial_layer = 65536 }

between_layers-InRange : InRange between_layers (key_packet 42 10 90)
between_layers-InRange = record {
  last_sn_fits = omega arith;
  sn_fits = omega arith;
  ts_fits = omega arith;
}

key_frame-Switched_example :
    (d' : DownTrack) × (out : List Output) × (write_simulcast_rtp between_layers
        (key_packet 42 10 90)
        5
      ≡ (d', out))
    × Switched between_layers (key_packet 42 10 90) d' out
key_frame-Switched_example =
    key_frame-Switched between_layers (key_packet 42 10 90) 5 refl (omega arith) (omega arith)
      (omega arith) refl (omega arith) (omega arith) between_layers-InRange

abbrev outside : Outside
outside = record {
  now = 9000;
  bitrates = 100000 ∷ 500000 ∷ 0 ∷ [];
  subscribes = true;
  retransmits = λ ms. true;
}

handle_rtcp-once_example :
    (r : DownTrack × List Output) × (handle_rtcp outside layered_track
        (pli ∷ remb 200000 ∷ pli ∷ fir ∷ nack ((9 ∷ []) ∷ []) ∷ [])
      ≡ some r)
    × (count is_pli r.1 ≤ 1)
    × (count is_fir r.1 ≤ 1)
handle_rtcp-once_example =
    handle_rtcp-once outside layered_track
      (pli ∷ remb 200000 ∷ pli ∷ fir ∷ nack ((9 ∷ []) ∷ []) ∷ []) (omega arith)

-- a new track that the receiver made a simple one, and a connection that agrees on two codecs
abbrev new_track : DownTrack
new_track = record (new_down_track video) { track_type = simple_down_track }

abbrev agreed : Context
agreed = record {
  codec_parameters =
      record { mime_type = 1; sdp_fmtp_line = 1; payload_type = 111 }
      ∷ record { mime_type = 2; sdp_fmtp_line = 4; payload_type = 96 }
      ∷ [];
  ssrc = 70;
}

abbrev own_codec : Codec
own_codec = record { mime_type = 2; sdp_fmtp_line = 5; payload_type = 0 }

first_packets :
    (run_rtp
      (bind new_track own_codec agreed 0).0
      ((delta_packet 41 9 60, 1) ∷ (key_packet 41 10 90, 2) ∷ [])).1
    ≡ send_pli 70 41
      ∷ enqueue (record {
        payload_type = 96;
        sequence_number = 10;
        timestamp = 90;
        ssrc = 70;
        payload = 1 ∷ 2 ∷ [];
      })
      ∷ []
unfolding run_rtp bind bound_to new_down_track codec_parameters_fuzzy_search find_codec write_rtp
    write_simple_rtp sync_simple forward_simple
first_packets = refl
