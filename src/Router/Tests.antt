-- ===== src/Router/Tests.antt =====
-- router.go with two peers, and the theorems at them.
use mini_sfu.Base.{◌≡◌, refl, true, false, [], ◌∷◌}
use mini_sfu.Subscriber.{new_subscriber}
use mini_sfu.Router.{
  Receiver, Router, new_router, UpTrack, get_buffer_pair, on_feedback, on_transport_wide_cc,
  on_packet, add_up_track, bind, add_receiver, wire_twcc, Peer,
}

abbrev audio_track : UpTrack
audio_track = record { id = 3; ssrc = 30; stream_id = 1; clock_rate = 48000; is_video = false }

abbrev video_track : UpTrack
video_track = record { id = 4; ssrc = 40; stream_id = 1; clock_rate = 90000; is_video = true }

-- The first track of a receiver is published; another layer of it is not.
abbrev publisher : Router
publisher = (add_receiver (add_receiver (new_router 9) audio_track).0 video_track).0

publishes : (add_receiver (new_router 9) video_track).2 ≡ true
unfolding add_receiver wire_twcc
publishes = refl

second_layer :
    let added = add_receiver publisher (record video_track { ssrc = 41 }) in
    (added.2 ≡ false)
    × (added.3
        ≡ get_buffer_pair 41
          ∷ on_feedback 41
          ∷ on_transport_wide_cc 41
          ∷ on_packet 41
          ∷ add_up_track 41
          ∷ bind 41
          ∷ [])
unfolding add_receiver wire_twcc
second_layer = (refl, refl)

abbrev joining : Peer
joining = record { id = 5; subscriber = new_subscriber 5; router = new_router 5 }

abbrev talking : Peer
talking = record { id = 9; subscriber = new_subscriber 9; router = publisher }

abbrev camera : Receiver
camera = record { track_id = 4; stream_id = 1; clock_rate = 90000 }
