-- ===== src/Publisher/Complete.antt =====
-- Sessions in which every peer gets what the others publish, while no peer leaves and no receiver ends.
use mini_sfu.Base.Maps.{delete}
use mini_sfu.Base.{
  ℕ, ◌==◌, ◌≡◌, refl, ap, sym, subst, ◌∙◌, true, Option, List, [], ◌∷◌, All, All-map, Bool-cases,
  inl, inr, arith,
}
use mini_sfu.Subscriber.{new_subscriber}
use mini_sfu.Router.{
  Receiver, Router, Peer, Connection, UpTrack, new_router, add_receiver, publish, others, subscribe,
}
use mini_sfu.Router.Distinct.{same_tracks-IsDistinct, new_subscriber-IsDistinct}
use mini_sfu.Router.Fanout.{Has}
use mini_sfu.Router.Session.{Accepts, subscribe_complete}
use mini_sfu.Publisher.{set_router, on_track}
use mini_sfu.Publisher.Exchange.{
  HasAll, Gets, IsComplete, Owns, Each-IsComplete, set_router-Each, publish-Each,
  add_receiver-cases,
}

All-delete :
    (P : ℕ × Receiver → Type 0) (k : ℕ) (es : List (ℕ × Receiver)) → All P es → All P (delete k es)
All-delete P k [] all = tt
All-delete P k (e ∷ es) all = elim (Bool-cases (e.0 == k)) [
  | inl same ↦ rw same (All-delete P k es all.1)
  | inr apart ↦ rw apart (all.0, All-delete P k es all.1)
]

All-others : (P : Peer → Type 0) (id : ℕ) (ps : List Peer) → All P ps → All P (others id ps)
All-others P id [] all = tt
All-others P id (p ∷ ps) all = elim (Bool-cases (p.id == id)) [
  | inl same ↦ rw same (All-others P id ps all.1)
  | inr apart ↦ rw apart (all.0, All-others P id ps all.1)
]

-- `AddPeer` and then `Subscribe` at the end of `Join`: the new peer has a router without receivers, and
-- the default channels.
unfoldable pub enter :
    Connection → (ℕ → Option ℕ) → List ℕ → List (ℕ × ℕ) → ℕ → List Peer → List Peer
enter connection created labels channels id ps =
    let peer : Peer = record {
      id = id;
      subscriber = record (new_subscriber id) { channels = channels };
      router = new_router id;
    } in
    record peer { subscriber = subscribe connection created labels (peer ∷ others id ps) peer }
    ∷ others id ps

-- A track comes for the publisher with the router.
on_track-IsComplete :
    (r : Router) (track : UpTrack) (connections : ℕ → Connection) (ps : List Peer)
    → ((id : ℕ) → Accepts (connections id))
    → All (Owns r) ps
    → IsComplete ps
    → IsComplete (on_track r track connections ps).1
unfolding on_track
on_track-IsComplete r track connections ps accepts owns complete =
    let (r', recv, is_new, wires) = add_receiver r track in
    let (same, cases) = add_receiver-cases r track in
    elim cases [
      | inl (old, kept) ↦ rw old (
          Each-IsComplete r r' ps (set_router r' ps) owns
            (set_router-Each r r' ps same
              (λ s all. subst (All (λ (e : ℕ × Receiver). Has s e.1)) (sym kept) all))
            complete)
      | inr (fresh, added) ↦ rw fresh (
          Each-IsComplete r r' ps (publish r' recv connections (set_router r' ps)) owns
            (publish-Each r r' recv connections ps same accepts (λ s has all.
              subst (All (λ (e : ℕ × Receiver). Has s e.1)) (sym added)
                (has, All-delete (λ (e : ℕ × Receiver). Has s e.1) track.id r.receivers all)))
            complete)
    ]

others-IsComplete : (id : ℕ) (ps : List Peer) → IsComplete ps → IsComplete (others id ps)
others-IsComplete id ps complete =
    All-map (λ (p : Peer). All (λ (q : Peer). Gets p q) ps)
      (λ (p : Peer). All (λ (q : Peer). Gets p q) (others id ps)) (others id ps)
      (λ p row. All-others (λ (q : Peer). Gets p q) id ps row)
      (All-others (λ (p : Peer). All (λ (q : Peer). Gets p q) ps) id ps complete)

others-head : (p : Peer) (ps : List Peer) → others p.id (p ∷ ps) ≡ others p.id ps
others-head p ps = rw (same p.id) refl
  where
    same : (n : ℕ) → (n == n) ≡ true
    same n = ground arith

others_twice : (id : ℕ) (ps : List Peer) → others id (others id ps) ≡ others id ps
others_twice id [] = refl
others_twice id (p ∷ ps) = elim (Bool-cases (p.id == id)) [
  | inl same ↦ rw same (others_twice id ps)
  | inr apart ↦ rw (apart, apart) (ap (λ l. p ∷ l) (others_twice id ps))
]

enter-IsComplete :
    (connection : Connection) (created : ℕ → Option ℕ) (labels : List ℕ) (channels : List (ℕ × ℕ))
    (id : ℕ) (ps : List Peer)
    → Accepts connection
    → IsComplete ps
    → IsComplete (enter connection created labels channels id ps)
unfolding enter
enter-IsComplete connection created labels channels id ps accepts complete =
    let start = record (new_subscriber id) { channels = channels } in
    let peer : Peer = record { id = id; subscriber = start; router = new_router id } in
    let s = subscribe connection created labels (peer ∷ others id ps) peer in
    let (distinct, all) =
      subscribe_complete connection accepts created labels (peer ∷ others id ps) peer
        (same_tracks-IsDistinct (new_subscriber id) start refl (new_subscriber-IsDistinct id)) in
    (
      (
        inl refl,
        All-map (λ (q : Peer). HasAll s q.router)
            (λ (q : Peer). Gets (record peer { subscriber = s }) q) (others id ps)
            (λ q has. inr has)
            (subst (All (λ (q : Peer). HasAll s q.router))
              (others-head peer (others id ps) ∙ others_twice id ps) all),
      ),
      All-map (λ (p : Peer). All (λ (q : Peer). Gets p q) (others id ps))
          (λ (p : Peer).
            All (λ (q : Peer). Gets p q) (enter connection created labels channels id ps))
          (others id ps) (λ p row. (inr tt, row)) (others-IsComplete id ps complete),
    )

-- What happens in a session: a peer joins, or a track comes for a publisher, which is named by its
-- router.
pub data Happening : Type 0 where
  peer_joins : Connection → (ℕ → Option ℕ) → List ℕ → List (ℕ × ℕ) → ℕ → Happening
  track_comes : Router → UpTrack → (ℕ → Connection) → Happening

unfoldable pub happen : List Peer → Happening → List Peer
happen ps (peer_joins connection created labels channels id) =
    enter connection created labels channels id ps
happen ps (track_comes r track connections) = (on_track r track connections ps).1

unfoldable pub run : List Peer → List Happening → List Peer
run ps [] = ps
run ps (h ∷ hs) = run (happen ps h) hs

-- A peer that joins is new. The connections accept the tracks that are added to them, and the router of a
-- publisher is the one that the session has of it.
abbrev pub IsOrderly : List Peer → Happening → Type 0
IsOrderly ps (peer_joins connection created labels channels id) =
    (others id ps ≡ ps) × Accepts connection
IsOrderly ps (track_comes r track connections) =
    ((id : ℕ) → Accepts (connections id)) × All (Owns r) ps

unfoldable pub AllOrderly : List Peer → List Happening → Type 0
AllOrderly ps [] = Unit
AllOrderly ps (h ∷ hs) = IsOrderly ps h × AllOrderly (happen ps h) hs

happen-IsComplete :
    (ps : List Peer) (h : Happening) → IsOrderly ps h → IsComplete ps → IsComplete (happen ps h)
unfolding happen
happen-IsComplete ps (peer_joins connection created labels channels id) (fresh, accepts) complete =
    enter-IsComplete connection created labels channels id ps accepts complete
happen-IsComplete ps (track_comes r track connections) (accepts, owns) complete =
    on_track-IsComplete r track connections ps accepts owns complete

-- While no peer leaves and no receiver ends, whatever the order in which new peers join and tracks come
-- for their publishers: if the connections accept their tracks and the session was complete, then in the
-- end each peer has, for every receiver of every other peer, a track with its stream and its identifier.
pub run-IsComplete :
    (ps : List Peer) (hs : List Happening)
    → AllOrderly ps hs
    → IsComplete ps
    → IsComplete (run ps hs)
unfolding run AllOrderly
run-IsComplete ps [] orderly complete = complete
run-IsComplete ps (h ∷ hs) (now, later) complete =
    run-IsComplete (happen ps h) hs later (happen-IsComplete ps h now complete)
