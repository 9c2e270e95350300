-- ===== src/Router/Session.antt =====
-- What the peers of a session get when a track is published and when a peer joins.
use mini_sfu.Base.{
  ℕ, ◌+◌, ◌*◌, ◌==◌, ◌≡◌, refl, ap, false, Option, none, some, List, [], ◌∷◌, map, length, All,
  All-map, Bool-cases, inl, inr, ◌⊎◌, arith,
}
use mini_sfu.Subscriber.{Subscriber, get_down_tracks, add_data_channel}
use mini_sfu.Subscriber.Tracks.{add_data_channel-tracks}
use mini_sfu.Router.{
  Receiver, Router, Peer, Connection, has_track, add_down_track, add_each, add_down_tracks, publish,
  subscribe_channels, subscribe_tracks, others, subscribe,
}
use mini_sfu.Router.Distinct.{IsDistinct, same_tracks-IsDistinct, add_down_tracks-IsDistinct}
use mini_sfu.Router.Fanout.{
  Has, add_down_tracks-keeps, add_down_tracks_complete, add_down_tracks-one,
}

-- `AddTransceiverFromTrack` does not fail.
pub Accepts : Connection → Type 0
Accepts connection = (recv : Receiver) → (a : ℕ × ℕ) × (connection recv ≡ some a)

-- a connection that never fails; the address is one of its own for each track of a stream
abbrev pub always : Connection
always recv = some (recv.stream_id * 1000 + recv.track_id, recv.track_id)

pub always-Accepts : Accepts always
unfolding Accepts
always-Accepts recv = ((recv.stream_id * 1000 + recv.track_id, recv.track_id), refl)

module _ (connection : Connection) (accepts : Accepts connection) where
  add_down_track-fine :
      (s : Subscriber) (recv : Receiver) → (add_down_track connection s recv).failed ≡ false
  unfolding add_down_track Accepts
  add_down_track-fine s recv =
      elim (Bool-cases (has_track recv.track_id (get_down_tracks s recv.stream_id))) [
        | inl there ↦ rw there refl
        | inr absent ↦ rw (absent, (accepts recv).1) refl
      ]

  -- A connection that accepts a receiver's track has it.
  pub add_down_tracks-accepted :
      (r : Router) (s : Subscriber) (recv : Receiver)
      → Has (add_down_tracks connection r s (some recv)).0.sub recv
  add_down_tracks-accepted r s recv =
      add_down_tracks-one connection r s recv (add_down_track-fine s recv)

  add_each-fine :
      (s : Subscriber) (rs : List (ℕ × Receiver)) → (add_each connection s rs).failed ≡ false
  unfolding add_each
  add_each-fine s [] = refl
  add_each-fine s (e ∷ rs) =
      rw (add_down_track-fine s e.1) (add_each-fine (add_down_track connection s e.1).sub rs)

  pub add_down_tracks-fine :
      (r : Router) (s : Subscriber) → (add_down_tracks connection r s none).0.failed ≡ false
  unfolding add_down_tracks
  add_down_tracks-fine r s = elim (Bool-cases (length r.receivers == 0)) [
    | inl nobody ↦ rw nobody refl
    | inr some_ ↦ rw some_ (add_each-fine s r.receivers)
  ]

  subscribe_tracks-keeps :
      (s : Subscriber) (ps : List Peer) (q : Receiver)
      → Has s q
      → Has (subscribe_tracks connection s ps) q
  unfolding subscribe_tracks
  subscribe_tracks-keeps s [] q has = has
  subscribe_tracks-keeps s (p ∷ ps) q has =
      subscribe_tracks-keeps (add_down_tracks connection p.router s none).0.sub ps q
        (add_down_tracks-keeps connection p.router s none q has)

  subscribe_tracks-Has :
      (s : Subscriber) (ps : List Peer)
      → All
          (λ (p : Peer).
            All
              (λ (e : ℕ × Receiver). Has (subscribe_tracks connection s ps) e.1)
              p.router.receivers)
          ps
  unfolding subscribe_tracks
  subscribe_tracks-Has s [] = tt
  subscribe_tracks-Has s (p ∷ ps) =
      let s' = (add_down_tracks connection p.router s none).0.sub in
      (
        All-map (λ (e : ℕ × Receiver). Has s' e.1)
            (λ (e : ℕ × Receiver). Has (subscribe_tracks connection s' ps) e.1) p.router.receivers
            (λ e has. subscribe_tracks-keeps s' ps e.1 has)
            (add_down_tracks_complete connection p.router s (add_down_tracks-fine p.router s)).0,
        subscribe_tracks-Has s' ps,
      )

  subscribe_tracks-IsDistinct :
      (s : Subscriber) (ps : List Peer)
      → IsDistinct s
      → IsDistinct (subscribe_tracks connection s ps)
  unfolding subscribe_tracks
  subscribe_tracks-IsDistinct s [] d = d
  subscribe_tracks-IsDistinct s (p ∷ ps) d =
      subscribe_tracks-IsDistinct (add_down_tracks connection p.router s none).0.sub ps
        (add_down_tracks-IsDistinct connection p.router s none d)

  subscribe_channels-IsDistinct :
      (s : Subscriber) (created : ℕ → Option ℕ) (labels : List ℕ)
      → IsDistinct s
      → IsDistinct (subscribe_channels s created labels)
  unfolding subscribe_channels
  subscribe_channels-IsDistinct s created [] d = d
  subscribe_channels-IsDistinct s created (label ∷ labels) d =
      subscribe_channels-IsDistinct (add_data_channel s label (created label)).0 created labels (
        same_tracks-IsDistinct s (add_data_channel s label (created label)).0
          (add_data_channel-tracks s label (created label)) d)

  -- A peer that subscribes gets the tracks of all other peers of the session, whatever becomes of the
  -- data channels, and none of them twice.
  pub subscribe_complete :
      (created : ℕ → Option ℕ) (labels : List ℕ) (peers : List Peer) (peer : Peer)
      → IsDistinct peer.subscriber
      → let s = subscribe connection created labels peers peer in
        IsDistinct s
        × All
            (λ (p : Peer). All (λ (e : ℕ × Receiver). Has s e.1) p.router.receivers)
            (others peer.id peers)
  unfolding subscribe
  subscribe_complete created labels peers peer d =
      let s = subscribe_channels peer.subscriber created labels in
      (
        subscribe_tracks-IsDistinct s (others peer.id peers)
            (subscribe_channels-IsDistinct peer.subscriber created labels d),
        subscribe_tracks-Has s (others peer.id peers),
      )

-- A published track reaches every peer but its owner, and the owner's subscriber stays as it is.
pub publish-Has :
    (r : Router) (recv : Receiver) (connections : ℕ → Connection) (ps : List Peer)
    → ((id : ℕ) → Accepts (connections id))
    → (map (λ (p : Peer). p.id) (publish r recv connections ps) ≡ map (λ (p : Peer). p.id) ps)
      × All (λ (p : Peer). (p.id ≡ r.id) ⊎ Has p.subscriber recv) (publish r recv connections ps)
unfolding publish
publish-Has r recv connections [] accepts = (refl, tt)
publish-Has r recv connections (p ∷ ps) accepts =
    let (same, all) = publish-Has r recv connections ps accepts in
    elim (Bool-cases (r.id == p.id)) [
      | inl own ↦ rw own (ap (λ l. p.id ∷ l) same, (inl (ground (arith, own)), all))
      | inr other ↦ rw other (
        ap (λ l. p.id ∷ l) same,
        (inr (add_down_tracks-accepted (connections p.id) (accepts p.id) r p.subscriber recv), all),
      )
    ]
