-- ===== src/Subscriber/Tests.antt =====
-- subscriber.go on a few tracks, and the theorems at them.
use mini_sfu.Base.{ℕ, ◌+◌, ◌≡◌, refl, Bool, true, false, some, [], ◌∷◌, map, length, All, ◌==◌}
use mini_sfu.Helper.{time_to_ntp}
use mini_sfu.Subscriber.{
  Track, no_track, sender_report, Subscriber, create_sender_report,
  create_source_description_chunks, send_again, send_stream_down_tracks_reports, collect,
  collect_all, send_groups, down_tracks_reports,
}
use mini_sfu.Subscriber.Reports.{
  senders_of, chunks_of, flatten, IsSmall, all_tracks, bound_of, report_of, pair_of,
  down_tracks_reports_complete,
}

abbrev track : ℕ → Bool → Track
track n bound = record no_track {
  pointer = n;
  id = n;
  stream_id = 7;
  ssrc = 100 + n;
  mid = n;
  bound = bound;
  clock_rate = 90000;
}

-- Nine tracks of one stream, of which eight are bound, and one track of another.
abbrev sample : Subscriber
sample = record {
  id = 1;
  tracks =
      (
        7,
        track 1 true
            ∷ track 2 true
            ∷ track 3 true
            ∷ track 4 true
            ∷ track 5 true
            ∷ track 6 true
            ∷ track 7 true
            ∷ track 8 true
            ∷ track 9 false
            ∷ [],
      )
      ∷ (8, track 10 true ∷ [])
      ∷ [];
  channels = [];
}

down_tracks_reports_complete_example :
    let ts = bound_of (all_tracks sample.tracks) in
    let sent = flatten (down_tracks_reports sample 5000000000 (λ j. false)) in
    (senders_of sent ≡ map (report_of 5000000000) ts)
    × (chunks_of sent ≡ flatten (map pair_of ts))
    × All IsSmall sent
down_tracks_reports_complete_example = down_tracks_reports_complete sample 5000000000

-- The eighteen chunks go out in two writes, and in one if that finds the connection closed.
two_writes : length (down_tracks_reports sample 5000000000 (λ j. false)) ≡ 2
unfolding down_tracks_reports collect_all collect create_source_description_chunks send_groups
two_writes = refl

one_write : length (down_tracks_reports sample 5000000000 (λ j. j == 0)) ≡ 1
unfolding down_tracks_reports collect_all collect create_source_description_chunks send_groups
one_write = refl

-- The description of a stream is sent seven times.
seven_times : length (send_stream_down_tracks_reports sample 8) ≡ 7
unfolding send_stream_down_tracks_reports send_again
seven_times = refl

-- A minute after its last packet a video track reports a time that is not a minute later.
silent_minute :
    create_sender_report (track 1 true) 60000000000
    ≡ some (sender_report 101 (time_to_ntp 60000000000) 1105032 0 0)
unfolding create_sender_report
silent_minute = refl
