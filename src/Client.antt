-- ===== src/Client.antt =====
-- internal/sfu/peer.go: a whole `Peer`, with its session and its two connections, as signal.go calls it.
-- The peer connection and what the constructors return are parameters.
pub mod Requests
pub mod Serving
pub mod Closing
mod Tests
use mini_sfu.Base.{
  ℕ, ◌==◌, Bool, true, false, not, Option, none, some, List, [], ◌∷◌, ◌++◌, ◌⊎◌, inl, inr,
  if◌then◌else◌,
}
use mini_sfu.Peer
use mini_sfu.Peer.{Peer, new_peer}
use mini_sfu.Publisher
use mini_sfu.Publisher.{Publisher, new_publisher, on_ice_connection_state_change}
use mini_sfu.Sfu.{Sfu, remove_peer}
use mini_sfu.Sfu.Joining
use mini_sfu.Sfu.Joining.{JoinError}
use mini_sfu.Signal.{PeerCalls}
use mini_sfu.Transport.{Transport, give_candidates}

-- the connection of a `Subscriber`, with the candidates that wait
pub record Link (P C : Type 0) : Type 0 where
  pub pc : P
  pub candidates : List C
  pub closed : Bool

abbrev pub new_link : {P C : Type 0} → P → Link P C
new_link pc = record { pc = pc; candidates = []; closed = false }

module _ {P D C E : Type 0} (t : Transport P D C E) where
  -- `Subscriber.SetRemoteDescription` after the call of the connection
  unfoldable pub described : Link P C → P × Option E → Link P C × Option E
  described s (pc, some err) = (record s { pc = pc }, some err)
  described s (pc, none) =
      (record s { pc = give_candidates t pc s.candidates; candidates = [] }, none)

  -- `Subscriber.AddICECandidate`
  unfoldable pub add_candidate : Link P C → C → Link P C × Option E
  add_candidate s c =
      if t.has_remote_description s.pc
      then (record s { pc = (t.add_ice_candidate s.pc c).0 }, (t.add_ice_candidate s.pc c).1)
      else (record s { candidates = s.candidates ++ (c ∷ []) }, none)

  -- `Subscriber.Close`
  unfoldable pub close_link : Link P C → Link P C
  close_link s = if s.closed then s else record s { closed = true; pc = (t.close s.pc).0 }

-- `Peer`: `session` is a pointer, and `negotiation` has its flags and whether it has callbacks.
pub record Client (P C : Type 0) : Type 0 where
  pub id : ℕ
  pub session : Option ℕ
  pub publisher : Option (Publisher P C)
  pub subscriber : Option (Link P C)
  pub negotiation : Peer

-- `NewPeer`
abbrev pub new_client : {P C : Type 0} → Client P C
new_client = record {
  id = 0;
  session = none;
  publisher = none;
  subscriber = none;
  negotiation = new_peer false;
}

-- the errors of a peer, with those of its connections
pub data ClientError (E : Type 0) : Type 0 where
  err_transport_exists err_no_transport_established err_offer_ignored : ClientError E
  err_join : JoinError → ClientError E
  err_connection err_setting_ice_candidate : E → ClientError E

-- what the world makes for a `Join`: a new identifier, the connections of the subscriber and of the
-- publisher, if they are made, and whether each default channel is
pub record Made (P : Type 0) : Type 0 where
  pub pid : ℕ
  pub subscriber_pc : Option P
  pub publisher_pc : Option P
  pub channels : List Bool

abbrev pub is_made : {P : Type 0} → Option P → Bool
is_made none = false
is_made (some pc) = true

abbrev pub wrap : {E : Type 0} → (E → ClientError E) → Option E → Option (ClientError E)
wrap f none = none
wrap f (some err) = some (f err)

abbrev pub join_error : {E : Type 0} → Option JoinError → Option (ClientError E)
join_error none = none
join_error (some err) = some (err_join err)

-- The fields that `Join` sets up to the point where it fails or not: the connections that are made, the
-- publisher's only after the subscriber's, and with the last step its handler of the ICE state.
unfoldable pub connected : {P C : Type 0} → Client P C → Made P → ℕ → Bool → Client P C
connected c made session whole = record {
  id = made.pid;
  session = some session;
  subscriber = elim made.subscriber_pc [ none ↦ none | some pc ↦ some (new_link pc) ];
  publisher = elim made.subscriber_pc [
    | none ↦ none
    | some _ ↦ elim made.publisher_pc [
      | none ↦ none
      | some pc ↦ some (
          if whole
          then on_ice_connection_state_change (new_publisher made.pid pc)
          else new_publisher made.pid pc)
    ]
  ];
  negotiation = c.negotiation;
}

abbrev pub is_joined : Option JoinError → Bool
is_joined none = true
is_joined (some err) = false

-- `Join`, for the publisher that is there
unfoldable pub join_unless :
    {P C E : Type 0}
    → Made P
    → Sfu × Client P C
    → ℕ
    → Option (Publisher P C)
    → (Sfu × Client P C) × Option (ClientError E)
join_unless made s sid (some p) = (s, some err_transport_exists)
join_unless made (sfu, c) sid none =
    let (sfu', session, error) =
      Joining.join sfu sid made.pid (is_made made.subscriber_pc) (is_made made.publisher_pc)
        made.channels in
    ((sfu', connected c made session (is_joined error)), join_error error)

-- `Join`
unfoldable pub join :
    {P C E : Type 0} → Made P → Sfu × Client P C → ℕ → (Sfu × Client P C) × Option (ClientError E)
join made s sid = join_unless made s sid s.1.publisher

-- the call of `RemovePeer` in `Close`, if there is a session
unfoldable pub leave_session : Sfu → Option ℕ → ℕ → Sfu
leave_session sfu none id = sfu
leave_session sfu (some p) id = remove_peer sfu p id

module _ {P D C E : Type 0} (t : Transport P D C E) where
  -- the result of `publisher.Answer`
  unfoldable pub answered : Client P C → Publisher P C × (E ⊎ D) → Client P C × (ClientError E ⊎ D)
  answered c (p, inl err) = (record c { publisher = some p }, inl (err_connection err))
  answered c (p, inr desc) = (record c { publisher = some p }, inr desc)

  -- `Answer`, for the publisher that is there
  unfoldable pub answer_with :
      Client P C → D → Option (Publisher P C) → Client P C × (ClientError E ⊎ D)
  answer_with c offer none = (c, inl err_no_transport_established)
  answer_with c offer (some p) =
      if not (t.is_stable p.pc)
      then (c, inl err_offer_ignored)
      else answered c (Publisher.answer t p offer)

  -- `Answer`
  unfoldable pub answer : Client P C → D → Client P C × (ClientError E ⊎ D)
  answer c offer = answer_with c offer c.publisher

  -- `SetRemoteDescription` after that of the subscriber
  unfoldable pub negotiated : Client P C → Link P C × Option E → Client P C × Option (ClientError E)
  negotiated c (s, some err) = (record c { subscriber = some s }, some (err_connection err))
  negotiated c (s, none) = (
    record c {
      subscriber = some s;
      negotiation = (Peer.set_remote_description c.negotiation true).0;
    },
    none,
  )

  -- `SetRemoteDescription`
  unfoldable pub set_remote_with :
      Client P C → D → Option (Link P C) → Client P C × Option (ClientError E)
  set_remote_with c desc none = (c, some err_no_transport_established)
  set_remote_with c desc (some s) =
      negotiated c (described t s (t.set_remote_description s.pc desc))

  unfoldable pub set_remote_description : Client P C → D → Client P C × Option (ClientError E)
  set_remote_description c desc = set_remote_with c desc c.subscriber

  -- `Trickle`; the targets are 0, the publisher, and 1, the subscriber, and any other is ignored.
  unfoldable pub trickle_to :
      Client P C → Publisher P C → Link P C → C → ℕ → Client P C × Option (ClientError E)
  trickle_to c p s candidate target =
      if target == 0
      then (
        record c { publisher = some (Publisher.add_ice_candidate t p candidate).0 },
        wrap err_setting_ice_candidate ((Publisher.add_ice_candidate t p candidate).1),
      )
      else if target == 1
      then (
        record c { subscriber = some (add_candidate t s candidate).0 },
        wrap err_setting_ice_candidate ((add_candidate t s candidate).1),
      )
      else (c, none)

  unfoldable pub trickle_with :
      Client P C
      → C
      → ℕ
      → Option (Link P C)
      → Option (Publisher P C)
      → Client P C × Option (ClientError E)
  trickle_with c candidate target (some s) (some p) = trickle_to c p s candidate target
  trickle_with c candidate target (some s) none = (c, some err_no_transport_established)
  trickle_with c candidate target none p = (c, some err_no_transport_established)

  unfoldable pub trickle : Client P C → C → ℕ → Client P C × Option (ClientError E)
  trickle c candidate target = trickle_with c candidate target c.subscriber c.publisher

  -- the calls of `Close` on the two connections
  unfoldable pub close_publisher : Option (Publisher P C) → Option (Publisher P C)
  close_publisher none = none
  close_publisher (some p) = some (Publisher.close t p).0

  unfoldable pub close_subscriber : Option (Link P C) → Option (Link P C)
  close_subscriber none = none
  close_subscriber (some s) = some (close_link t s)

  -- `Close`
  unfoldable pub close : Sfu × Client P C → Sfu × Client P C
  close (sfu, c) = (
    leave_session sfu c.session c.id,
    record c {
      negotiation = Peer.close c.negotiation;
      publisher = close_publisher c.publisher;
      subscriber = close_subscriber c.subscriber;
    },
  )

  -- the calls of signal.go; `world` is what is made for a `Join` in a state.
  abbrev pub client_calls :
      (Sfu × Client P C → Made P) → PeerCalls (Sfu × Client P C) D C (ClientError E)
  client_calls world = record {
    listen =
        λ s. (s.0, record s.1 { negotiation = record s.1.negotiation { has_on_offer = true } });
    join = λ s sid. join (world s) s sid;
    answer = λ s desc. ((s.0, (answer s.1 desc).0), (answer s.1 desc).1);
    set_remote_description =
        λ s desc. ((s.0, (set_remote_description s.1 desc).0), (set_remote_description s.1 desc).1);
    trickle = λ s candidate target.
        ((s.0, (trickle s.1 candidate target).0), (trickle s.1 candidate target).1);
  }
