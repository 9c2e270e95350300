-- ===== src/Publisher.antt =====
-- internal/sfu/publisher.go: the connection that a peer sends its tracks on. The peer connection is a
-- parameter; `Router` has the state of the publisher's router.
pub mod Answering
pub mod Ending
pub mod Exchange
pub mod Complete
mod Tests
use mini_sfu.Base.{
  ℕ, Bool, true, false, Option, none, some, List, [], ◌∷◌, ◌++◌, ◌==◌, ◌⊎◌, inl, inr, map,
  if◌then◌else◌,
}
use mini_sfu.Router
use mini_sfu.Router.{Router, UpTrack, Wire, Connection, add_receiver, publish, new_router}
use mini_sfu.Router.Channels.{add_datachannel}
use mini_sfu.Transport.{Transport, give_candidates}

-- `Publisher`; `has_handler` says that `onICEConnectionStateChangeHandler` holds a function, and
-- `closed` that `closeOnce` has run.
pub record Publisher (P C : Type 0) : Type 0 where
  pub id : ℕ
  pub pc : P
  pub router : Router
  pub candidates : List C
  pub has_handler : Bool
  pub closed : Bool

-- `NewPublisher`, of what `NewPeerConnection` returns
abbrev pub new_publisher : {P C : Type 0} → ℕ → P → Publisher P C
new_publisher id pc = record {
  id = id;
  pc = pc;
  router = new_router id;
  candidates = [];
  has_handler = false;
  closed = false;
}

-- `webrtc.ICEConnectionState`
pub data IceState : Type 0 where
  ice_new ice_checking ice_connected ice_completed ice_disconnected ice_failed ice_closed : IceState

-- what `Close` and the handler of the ICE state call
pub data Call : Type 0 where
  stop_router close_pc : Call
  call_handler : IceState → Call

-- the cases of the handler that close the connection
unfoldable pub is_over : IceState → Bool
is_over ice_failed = true
is_over ice_closed = true
is_over ice_new = false
is_over ice_checking = false
is_over ice_connected = false
is_over ice_completed = false
is_over ice_disconnected = false

-- `OnICEConnectionStateChange`
abbrev pub on_ice_connection_state_change : {P C : Type 0} → Publisher P C → Publisher P C
on_ice_connection_state_change p = record p { has_handler = true }

module _ {P D C E : Type 0} (t : Transport P D C E) where
  -- `Close`
  unfoldable pub close : Publisher P C → Publisher P C × List Call
  close p =
      if p.closed
      then (p, [])
      else (record p { closed = true; pc = (t.close p.pc).0 }, stop_router ∷ close_pc ∷ [])

  -- the handler of `pc.OnICEConnectionStateChange`
  unfoldable pub ice_state_changed : Publisher P C → IceState → Publisher P C × List Call
  ice_state_changed p state =
      let (p', calls) = if is_over state then close p else (p, []) in
      (p', calls ++ (if p'.has_handler then call_handler state ∷ [] else []))

  -- `Answer` after `SetLocalDescription`
  unfoldable pub set_local : Publisher P C → D → P × Option E → Publisher P C × (E ⊎ D)
  set_local p desc (pc, some err) = (record p { pc = pc }, inl err)
  set_local p desc (pc, none) = (record p { pc = pc }, inr desc)

  -- `Answer` after `CreateAnswer`
  unfoldable pub answer_created : Publisher P C → P × (E ⊎ D) → Publisher P C × (E ⊎ D)
  answer_created p (pc, inl err) = (record p { pc = pc }, inl err)
  answer_created p (pc, inr desc) = set_local p desc (t.set_local_description pc desc)

  -- `Answer` after `SetRemoteDescription`
  unfoldable pub remote_set : Publisher P C → P × Option E → Publisher P C × (E ⊎ D)
  remote_set p (pc, some err) = (record p { pc = pc }, inl err)
  remote_set p (pc, none) =
      let given = give_candidates t pc p.candidates in
      answer_created (record p { candidates = [] }) (t.create_answer given)

  -- `Answer`
  unfoldable pub answer : Publisher P C → D → Publisher P C × (E ⊎ D)
  answer p offer = remote_set p (t.set_remote_description p.pc offer)

  -- `AddICECandidate`
  unfoldable pub add_ice_candidate : Publisher P C → C → Publisher P C × Option E
  add_ice_candidate p c =
      if t.has_remote_description p.pc
      then (record p { pc = (t.add_ice_candidate p.pc c).0 }, (t.add_ice_candidate p.pc c).1)
      else (record p { candidates = p.candidates ++ (c ∷ []) }, none)

-- The session has the publisher of a peer by its pointer: a change of its router is one of the entry.
abbrev pub set_router : Router → List Router.Peer → List Router.Peer
set_router r peers = map (λ p. if p.id == r.id then record p { router = r } else p) peers

-- The handler of `OnTrack`: the router, the peers of the session, and the calls of `AddReceiver`.
-- The first track of a receiver is published, another layer of it is not.
unfoldable pub on_track :
    Router → UpTrack → (ℕ → Connection) → List Router.Peer → Router × List Router.Peer × List Wire
on_track r track connections peers =
    let (r', recv, is_new, wires) = add_receiver r track in
    (
      r',
      if is_new then publish r' recv connections (set_router r' peers) else set_router r' peers,
      wires,
    )

-- The handler of `OnDataChannel`: the labels, the peers and those who listen, as `AddDatachannel` has
-- them. The channel of the API is not passed on.
pub on_data_channel :
    ℕ
    → (ℕ → Option ℕ)
    → ℕ
    → ℕ
    → ℕ
    → List ℕ
    → List Router.Peer
    → Option (List ℕ × List Router.Peer × List ℕ)
on_data_channel api created owner label dc fan_out_dcs peers =
    if label == api
    then some (fan_out_dcs, peers, [])
    else add_datachannel created owner label dc fan_out_dcs peers
