-- ===== src/Peer.antt =====
-- internal/sfu/peer.go and subscriber.go: the offers that a peer sends for its subscriber, and the
-- ICE candidates of a connection. The peer connection is not part of the repository: what its calls
-- return is an argument.
pub mod Negotiation
pub mod Candidates
mod Tests
use mini_sfu.Base.{
  ℕ, ◌+◌, Bool, true, false, ◌&&◌, ◌||◌, not, Option, none, some, List, [], ◌∷◌, ◌++◌,
  if◌then◌else◌,
}

-- The fields of `Peer` that a negotiation reads or writes, and whether the debounced function of
-- `negotiate` waits for its timer. A further call of `negotiate` starts the timer again.
pub record Peer : Type 0 where
  pub closed : Bool
  pub has_on_offer : Bool
  pub remote_answer_pending : Bool
  pub negotiation_pending : Bool
  pub timer_set : Bool

abbrev pub new_peer : Bool → Peer
new_peer has_on_offer = record {
  closed = false;
  has_on_offer = has_on_offer;
  remote_answer_pending = false;
  negotiation_pending = false;
  timer_set = false;
}

-- `Subscriber.negotiate`
pub negotiate : Peer → Peer
negotiate p = record p { timer_set = true }

-- What a handler did: whether an offer was created, and whether it was handed to `OnOffer`.
pub record Offer : Type 0 where
  pub created : Bool
  pub sent : Bool

abbrev pub no_offer : Offer
no_offer = record { created = false; sent = false }

-- The function that `Join` gives to `OnNegotiationNeeded`; the argument is whether `CreateOffer`
-- succeeds.
pub on_negotiation_needed : Peer → Bool → Peer × Offer
on_negotiation_needed p creates =
    if p.remote_answer_pending
    then (record p { negotiation_pending = true }, no_offer)
    else if not creates
    then (p, no_offer)
    else (
      record p { remote_answer_pending = true },
      record { created = true; sent = p.has_on_offer && not p.closed },
    )

-- the timer of `negotiate` runs out
pub timer_fires : Peer → Bool → Peer × Offer
timer_fires p creates = on_negotiation_needed (record p { timer_set = false }) creates

-- `SetRemoteDescription`; the argument is whether the subscriber's connection takes the answer.
-- The Boolean that is returned is whether the call succeeds.
pub set_remote_description : Peer → Bool → Peer × Bool
set_remote_description p takes =
    if not takes
    then (p, false)
    else let answered = record p { remote_answer_pending = false } in
      (
        if p.negotiation_pending
            then negotiate (record answered { negotiation_pending = false })
            else answered,
        true,
      )

-- `closed.set(true)` of `Close`
unfoldable pub close : Peer → Peer
close p = record p { closed = true }

-- The errors of `Answer`
pub data PeerError : Type 0 where
  err_no_transport_established err_offer_ignored err_answer : PeerError

-- `Answer`: the publisher, if there is one, is whether its signalling state is stable and what its
-- connection answers.
pub answer : Option (Bool × Option ℕ) → Option ℕ × Option PeerError
answer none = (none, some err_no_transport_established)
answer (some (false, sdp)) = (none, some err_offer_ignored)
answer (some (true, none)) = (none, some err_answer)
answer (some (true, some sdp)) = (some sdp, none)

-- The candidates of a `Subscriber` or a `Publisher`: whether its connection has a remote
-- description, those that wait for one, and those that were given to the connection, in order.
pub record Connection {ℓ} (A : Type ℓ) : Type ℓ where
  pub has_remote : Bool
  pub candidates : List A
  pub given : List A

module _ {ℓ} {A : Type ℓ} where
  abbrev pub new_connection : Connection A
  new_connection = record { has_remote = false; candidates = []; given = [] }

  -- `AddICECandidate`
  unfoldable pub add_ice_candidate : Connection A → A → Connection A
  add_ice_candidate s c =
      if s.has_remote
      then record s { given = s.given ++ (c ∷ []) }
      else record s { candidates = s.candidates ++ (c ∷ []) }

  -- `SetRemoteDescription`; the argument is whether the connection takes the description. An error
  -- of a waiting candidate is logged only.
  unfoldable pub set_remote : Connection A → Bool → Connection A
  set_remote s takes =
      if takes
      then record { has_remote = true; given = s.given ++ s.candidates; candidates = [] }
      else s
