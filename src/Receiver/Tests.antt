-- ===== src/Receiver/Tests.antt =====
-- Runs of receiver.go, and the theorems at them.
use mini_sfu.Base.{ℕ, ◌≡◌, refl, Bool, true, false, none, some, List, [], ◌∷◌}
use mini_sfu.DownTrack.{
  DownTrack, ExtPacket, video, simulcast_down_track, switch_spatial_layer, write_rtp,
  write_simulcast_rtp, forward_simulcast, align_simulcast, note_arrival, settled_layers,
}
use mini_sfu.DownTrack.Binding.{new_down_track}
use mini_sfu.Receiver.Feed.{locks_again, Feed, call, calls, deliver, switch}
use mini_sfu.Receiver.{
  WebRtcReceiver, Subscription, full_resolution, quarter_resolution, new_web_rtc_receiver,
  add_up_track, add_down_track, sub_down_track, delete_down_track, subscribers, choose_layer,
  index_of, swap_remove,
}
use mini_sfu.Sequencer.{PacketMeta}
use mini_sfu.DownTrack.{Packet}
use mini_sfu.Receiver.Retransmit.{remove_ended}

abbrev subscription : ℕ → Subscription
subscription id = record { peer_id = id; track = id }

-- layers 0 and 2 have come, and peers 3, 4 and 5 subscribe to layer 0
abbrev two_layers : WebRtcReceiver
two_layers = record {
  is_simulcast = true;
  up_tracks = some 70 ∷ none ∷ some 72 ∷ [];
  bitrates = some 100 ∷ none ∷ some 900 ∷ [];
  down_tracks = some (subscription 3 ∷ subscription 4 ∷ subscription 5 ∷ []) ∷ none ∷ some [] ∷ [];
  last_pli = 0;
}

last_takes_the_gap :
    subscribers (delete_down_track two_layers 0 3) 0 ≡ subscription 5 ∷ subscription 4 ∷ []
unfolding delete_down_track index_of swap_remove
last_takes_the_gap = refl

no_such_layer : (sub_down_track two_layers (subscription 6) 1).1 ≡ false
unfolding sub_down_track
no_such_layer = refl

best_layer :
    (add_down_track
      (add_up_track
        (add_up_track (new_web_rtc_receiver true) quarter_resolution 70 100)
        full_resolution
        72
        900)
      (subscription 6)
      true).1
    ≡ 2
unfolding add_down_track add_up_track choose_layer
best_layer = refl

-- The second of two tracks that end at once is looked for past the end.
both_ended : remove_ended (0 ∷ 1 ∷ []) (subscription 3 ∷ subscription 4 ∷ []) ≡ none
unfolding remove_ended swap_remove
both_ended = refl

-- a buffer that has every packet
abbrev stored : ℕ → Packet
stored sn = record {
  payload_type = 96;
  sequence_number = sn;
  timestamp = 5;
  ssrc = 70;
  payload = 1 ∷ [];
}

abbrev lost : List PacketMeta
lost =
    record { source_seq_no = 107; target_seq_no = 7; timestamp = 90; last_nack = 500; layer = 0 }
    ∷ []

abbrev moved_sub : Subscription
moved_sub = record { peer_id = 5; track = 1 }

-- A simulcast track at layer 0, whose source has the SSRC 40, and a receiver with all three layers
abbrev layered : DownTrack
layered = record (new_down_track video) {
  bound = true;
  enabled = true;
  track_type = simulcast_down_track;
  last_ssrc = 40;
  last_ts_calc = 4000000000;
}

abbrev layered_feed : Feed
layered_feed = record {
  receiver = record (new_web_rtc_receiver true) {
    down_tracks = some (moved_sub ∷ []) ∷ some [] ∷ some [] ∷ [];
  };
  track = layered;
}

abbrev feed_packet : Bool → ℕ → ℕ → ExtPacket
feed_packet key ssrc sn = record {
  head = true;
  arrival = 5000000000;
  key_frame = key;
  packet = record {
    payload_type = 96;
    sequence_number = sn;
    timestamp = 90;
    ssrc = ssrc;
    payload = [];
  };
}

abbrev passing_packets : List (ℕ × ExtPacket × ℕ)
passing_packets = (0, feed_packet true 40 7, 1) ∷ (2, feed_packet false 42 8, 2) ∷ []

-- A switch that is asked for before the first key frame: that of the old layer completes it, and writeRTP
-- of the old layer waits for the lock that it holds.
early_switch :
    deliver moved_sub
      (switch moved_sub
        (record layered_feed { track = record layered { re_sync = true; last_ssrc = 0 } })
        2)
      0
      (feed_packet true 40 7)
      1
    ≡ none
unfolding deliver switch calls call locks_again switch_spatial_layer sub_down_track
    delete_down_track write_rtp write_simulcast_rtp forward_simulcast align_simulcast note_arrival
    settled_layers new_down_track index_of swap_remove
early_switch = refl
