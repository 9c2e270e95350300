-- ===== src/Subscriber.antt =====
-- internal/sfu/subscriber.go, and the reports of a track in downtrack.go: the tracks that a peer
-- receives, its data channels, and the reports that go with the tracks.
pub mod Reports
pub mod Tracks
mod Tests
use mini_sfu.Base.Maps.{lookup, insert}
use mini_sfu.Base.{
  ℕ, zero, suc, ◌+◌, ◌-◌, ◌*◌, ◌/◌, Bool, true, false, Option, none, some, List, [], ◌∷◌, ◌++◌, leb,
  ltb, ◌==◌, if◌then◌else◌, length, take, drop, u32, sub32,
}
use mathlib.Core.Option
use mini_sfu.Helper.{time_to_ntp}
use mini_sfu.Receiver.{swap_remove}

-- A `*DownTrack`: `pointer` tells it apart from every other one. The other fields are what the
-- reports read; `mid` is that of its transceiver.
pub record Track : Type 0 where
  pub pointer : ℕ
  pub id : ℕ
  pub stream_id : ℕ
  pub bound : Bool
  pub ssrc : ℕ
  pub mid : ℕ
  pub clock_rate : ℕ
  pub last_packet_ms : ℕ
  pub last_ts : ℕ
  pub octet_count : ℕ
  pub packet_count : ℕ

abbrev pub no_track : Track
no_track = record {
  pointer = 0;
  id = 0;
  stream_id = 0;
  bound = false;
  ssrc = 0;
  mid = 0;
  clock_rate = 0;
  last_packet_ms = 0;
  last_ts = 0;
  octet_count = 0;
  packet_count = 0;
}

-- `rtcp.SourceDescriptionChunk` with its one item: `SDESCNAME`, or type 15
pub data Chunk : Type 0 where
  cname_chunk : (source text : ℕ) → Chunk
  mid_chunk : (source text : ℕ) → Chunk

-- the packets of package rtcp that the reports are made of
pub data Report : Type 0 where
  sender_report : (ssrc ntp_time rtp_time packet_count octet_count : ℕ) → Report
  source_description : List Chunk → Report

-- `diffTs`: the time since the last packet in the units of the clock; `now` is in nanoseconds.
abbrev pub diff_ts : Track → ℕ → ℕ
diff_ts t now = u32 (sub32 (u32 (now / 1000000)) (u32 t.last_packet_ms) * t.clock_rate) / 1000

-- `CreateSenderReport`; `none` is nil.
pub create_sender_report : Track → ℕ → Option Report
create_sender_report t now =
    if t.bound
    then some (
        sender_report t.ssrc (time_to_ntp now) (u32 (t.last_ts + diff_ts t now)) t.packet_count
          t.octet_count)
    else none

-- `CreateSourceDescriptionChunks`
pub create_source_description_chunks : Track → List Chunk
create_source_description_chunks t =
    if t.bound then cname_chunk t.ssrc t.stream_id ∷ mid_chunk t.ssrc t.mid ∷ [] else []

-- `Subscriber`, less its connection and its candidates; `tracks` is by stream, `channels` by label.
pub record Subscriber : Type 0 where
  pub id : ℕ
  pub tracks : List (ℕ × List Track)
  pub channels : List (ℕ × ℕ)

abbrev pub new_subscriber : ℕ → Subscriber
new_subscriber id = record { id = id; tracks = []; channels = [] }

-- `GetDownTracks`: nil is an empty list.
pub get_down_tracks : Subscriber → ℕ → List Track
get_down_tracks s sid = elim (lookup sid s.tracks) [ none ↦ [] | some dts ↦ dts ]

-- `AddDownTrack`
pub add_down_track : Subscriber → ℕ → Track → Subscriber
add_down_track s stream_id track = record s {
  tracks = elim (lookup stream_id s.tracks) [
    | some dts ↦ insert stream_id (dts ++ (track ∷ [])) s.tracks
    | none ↦ insert stream_id (track ∷ []) s.tracks
  ];
}

-- the loop of `RemoveDownTrack` from index `i` on: the last index of the track
pub find_track : ℕ → Track → List Track → Option ℕ → Option ℕ
find_track i track [] index = index
find_track i track (dt ∷ dts) index =
    find_track (i + 1) track dts (if dt.pointer == track.pointer then some i else index)

-- `RemoveDownTrack`
pub remove_down_track : Subscriber → ℕ → Track → Subscriber
remove_down_track s stream_id track = elim (lookup stream_id s.tracks) [
  | none ↦ s
  | some dts ↦ elim (find_track 0 track dts none) [
    | none ↦ s
    | some index ↦ record s { tracks = insert stream_id (swap_remove index dts no_track) s.tracks }
  ]
]

-- `AddDataChannel`; `created` is what the connection returns, `none` for an error.
unfoldable pub add_data_channel : Subscriber → ℕ → Option ℕ → Subscriber × Option ℕ
add_data_channel s label created = elim (lookup label s.channels) [
  | some dc ↦ (s, some dc)
  | none ↦ elim created [
    | none ↦ (s, none)
    | some dc ↦ (record s { channels = insert label dc s.channels }, some dc)
  ]
]

-- the loop over the tracks of a stream in `sendStreamDownTracksReports`
pub stream_chunks : List Track → List Chunk
stream_chunks [] = []
stream_chunks (dt ∷ dts) =
    let rest = stream_chunks dts in
    if dt.bound then create_source_description_chunks dt ++ rest else rest

-- The loop that sends the same packets again, by the rounds left: `i` ends it.
pub send_again : ℕ → ℕ → List Report → List (List Report)
send_again zero i r = []
send_again (suc rounds) i r =
    let rest = send_again rounds (i + 1) r in r ∷ (if ltb 5 i then [] else rest)

-- `sendStreamDownTracksReports`, with the tracks as they are when it is called; the packets of each
-- write
pub send_stream_down_tracks_reports : Subscriber → ℕ → List (List Report)
send_stream_down_tracks_reports s sid =
    send_again 7 0 (source_description (stream_chunks (get_down_tracks s sid)) ∷ [])

-- `append` of a report; nil would be appended too, but a bound track has one.
abbrev pub cons_report : Option Report → List Report → List Report
cons_report none rs = rs
cons_report (some r) rs = r ∷ rs

-- the loops over the tracks in `downTracksReports`
pub collect : List Track → ℕ → List Report × List Chunk
collect [] now = ([], [])
collect (dt ∷ dts) now =
    let (r, sd) = collect dts now in
    if dt.bound
    then (cons_report (create_sender_report dt now) r, create_source_description_chunks dt ++ sd)
    else (r, sd)

pub collect_all : List (ℕ × List Track) → ℕ → List Report × List Chunk
collect_all [] now = ([], [])
collect_all (e ∷ es) now =
    let (r, sd) = collect e.1 now in let (rs, sds) = collect_all es now in (r ++ rs, sd ++ sds)

-- The loop over groups of fifteen chunks, by the rounds left; as many as there are chunks are enough.
-- `lost j` says that the write of group `j` finds the connection closed, which ends the loop.
pub send_groups : (ℕ → Bool) → ℕ → ℕ → ℕ → List Report → List Chunk → List (List Report)
send_groups lost zero i j r sd = []
send_groups lost (suc rounds) i j r sd =
    let i' = if leb (length sd) ((j + 1) * 15) then length sd else (j + 1) * 15 in
    let written = r ++ (source_description (take (i' - j * 15) (drop (j * 15) sd)) ∷ []) in
    let rest = send_groups lost rounds i' (j + 1) [] sd in
    if ltb i (length sd) then written ∷ (if lost j then [] else rest) else []

-- a round of `downTracksReports`; the packets of each write
pub down_tracks_reports : Subscriber → ℕ → (ℕ → Bool) → List (List Report)
down_tracks_reports s now lost =
    let (r, sd) = collect_all s.tracks now in send_groups lost (length sd) 0 0 r sd
