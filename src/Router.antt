-- ===== src/Router.antt =====
-- internal/sfu/router.go, and Publish and Subscribe of session.go: which tracks of whom a peer gets.
-- What the peer connections answer is an argument; calls of receivers, of the negotiation and of the
-- factory are outputs.
pub mod Distinct
pub mod Fanout
pub mod Session
pub mod Channels
mod Tests
use mini_sfu.Base.Maps.{lookup, delete, insert}
use mini_sfu.Base.{
  ℕ, ◌+◌, Bool, true, false, not, Option, none, some, List, [], ◌∷◌, ◌++◌, ◌==◌, if◌then◌else◌,
  length,
}
use mini_sfu.Subscriber
use mini_sfu.Subscriber.{Track, no_track, Subscriber, get_down_tracks, add_data_channel}

-- what the router reads of a `Receiver`
pub record Receiver : Type 0 where
  pub track_id : ℕ
  pub stream_id : ℕ
  pub clock_rate : ℕ

-- `router`; `twcc` is the SSRC of the responder.
pub record Router : Type 0 where
  pub id : ℕ
  pub twcc : Option ℕ
  pub receivers : List (ℕ × Receiver)

abbrev pub new_router : ℕ → Router
new_router id = record { id = id; twcc = none; receivers = [] }

-- what `AddReceiver` reads of a `TrackRemote`
pub record UpTrack : Type 0 where
  pub id : ℕ
  pub ssrc : ℕ
  pub stream_id : ℕ
  pub clock_rate : ℕ
  pub is_video : Bool

-- the calls of `AddReceiver`, with the SSRC of the buffer or of the responder
pub data Wire : Type 0 where
  get_buffer_pair on_feedback new_responder on_transport_wide_cc : ℕ → Wire
  on_packet new_web_rtc_receiver add_up_track bind : ℕ → Wire

-- the branch of `AddReceiver` on a video track
unfoldable pub wire_twcc : Router → UpTrack → Router × List Wire
wire_twcc r track =
    if track.is_video
    then elim r.twcc [
      | none ↦ (
        record r { twcc = some track.ssrc },
        new_responder track.ssrc ∷ on_transport_wide_cc track.ssrc ∷ [],
      )
      | some ssrc ↦ (r, on_transport_wide_cc track.ssrc ∷ [])
    ]
    else (r, [])

abbrev pub receiver_of : UpTrack → Receiver
receiver_of track = record {
  track_id = track.id;
  stream_id = track.stream_id;
  clock_rate = track.clock_rate;
}

-- `AddReceiver`: the receiver, whether it is new, and the calls
unfoldable pub add_receiver : Router → UpTrack → Router × Receiver × Bool × List Wire
add_receiver r track =
    let (wired, wires) = wire_twcc r track in
    let first =
      get_buffer_pair track.ssrc ∷ on_feedback track.ssrc ∷ wires ++ (on_packet track.ssrc ∷ []) in
    let last = add_up_track track.ssrc ∷ bind track.ssrc ∷ [] in
    elim (lookup track.id wired.receivers) [
      | some recv ↦ (wired, recv, false, first ++ last)
      | none ↦ (
        record wired { receivers = insert track.id (receiver_of track) wired.receivers },
        receiver_of track,
        true,
        first ++ (new_web_rtc_receiver track.ssrc ∷ last),
      )
    ]

-- `DeleteReceiver`, and the handler that `AddReceiver` sets for the end of a receiver
unfoldable pub delete_receiver : Router → ℕ → Router
delete_receiver r track = record r { receivers = delete track r.receivers }

-- the loop of `addDownTrack`: whether there is a track with the identifier
pub has_track : ℕ → List Track → Bool
has_track id [] = false
has_track id (dt ∷ dts) = let rest = has_track id dts in if dt.id == id then true else rest

-- What the world answers to `addDownTrack`: the address of the new track and the `mid` of its
-- transceiver, or `none` if `AddTransceiverFromTrack` fails.
abbrev pub Connection : Type 0
Connection = Receiver → Option (ℕ × ℕ)

-- `NewDownTrack`, which does not fail, as far as the subscriber uses it
abbrev pub new_down_track : Receiver → ℕ → ℕ → Track
new_down_track recv pointer mid = record no_track {
  pointer = pointer;
  id = recv.track_id;
  stream_id = recv.stream_id;
  mid = mid;
  clock_rate = recv.clock_rate;
}

-- What a call does: the subscriber, the tracks that were given to receivers, and whether it failed.
pub record Added : Type 0 where
  pub sub : Subscriber
  pub hooked : List (Receiver × Track)
  pub failed : Bool

-- `addDownTrack`
pub add_down_track : Connection → Subscriber → Receiver → Added
add_down_track connection sub recv =
    if has_track recv.track_id (get_down_tracks sub recv.stream_id)
    then record { sub = sub; hooked = []; failed = false }
    else elim (connection recv) [
      | none ↦ record { sub = sub; hooked = []; failed = true }
      | some (pointer, mid) ↦
          let track = new_down_track recv pointer mid in
          record {
            sub = Subscriber.add_down_track sub recv.stream_id track;
            hooked = (recv, track) ∷ [];
            failed = false;
          }
    ]

-- the loop of `AddDownTracks`, over the receivers in the order in which the map gives them
pub add_each : Connection → Subscriber → List (ℕ × Receiver) → Added
add_each connection sub [] = record { sub = sub; hooked = []; failed = false }
add_each connection sub (e ∷ es) =
    let added = add_down_track connection sub e.1 in
    let rest = add_each connection added.sub es in
    if added.failed then added else record rest { hooked = added.hooked ++ rest.hooked }

-- `AddDownTracks`, with nil as `none`; the Boolean says that `negotiate` is called.
pub add_down_tracks : Connection → Router → Subscriber → Option Receiver → Added × Bool
add_down_tracks connection r sub (some recv) =
    let added = add_down_track connection sub recv in (added, not added.failed)
add_down_tracks connection r sub none =
    if length r.receivers == 0
    then (record { sub = sub; hooked = []; failed = false }, false)
    else (let added = add_each connection sub r.receivers in (added, not added.failed))

-- A `Peer` of a session: its subscriber and its publisher's router; a connection for each.
pub record Peer : Type 0 where
  pub id : ℕ
  pub subscriber : Subscriber
  pub router : Router

-- `Publish`, for the peers in the order in which the map gives them
unfoldable pub publish : Router → Receiver → (ℕ → Connection) → List Peer → List Peer
publish r recv connections [] = []
publish r recv connections (p ∷ ps) =
    (if r.id == p.id then p else record p {
      subscriber = (add_down_tracks (connections p.id) r p.subscriber (some recv)).0.sub;
    })
    ∷ publish r recv connections ps

-- the loop of `Subscribe` over the channels; `created` is what the connection makes of each.
pub subscribe_channels : Subscriber → (ℕ → Option ℕ) → List ℕ → Subscriber
subscribe_channels s created [] = s
subscribe_channels s created (label ∷ labels) =
    subscribe_channels (add_data_channel s label (created label)).0 created labels

-- the loop of `Subscribe` over the routers of the others; an error is only logged.
pub subscribe_tracks : Connection → Subscriber → List Peer → Subscriber
subscribe_tracks connection s [] = s
subscribe_tracks connection s (p ∷ ps) =
    subscribe_tracks connection (add_down_tracks connection p.router s none).0.sub ps

-- `s.peers` without the peer
abbrev pub others : ℕ → List Peer → List Peer
others id [] = []
others id (p ∷ ps) = let rest = others id ps in if p.id == id then rest else p ∷ rest

-- `Subscribe`: the subscriber of the peer
pub subscribe : Connection → (ℕ → Option ℕ) → List ℕ → List Peer → Peer → Subscriber
subscribe connection created fan_out_dcs peers peer =
    subscribe_tracks connection (subscribe_channels peer.subscriber created fan_out_dcs)
      (others peer.id peers)
