-- ===== src/Router/Channels/Delivery.antt =====
-- Who gets a message of a shared data channel.
use mini_sfu.Base.Maps.{lookup, lookup-insert_self}
use mini_sfu.Base.{
  ℕ, ◌≡◌, refl, ap, ◌∙◌, Bool, true, Option, none, some, List, [], ◌∷◌, ◌++◌, map, All, ◌==◌,
  Bool-cases, inl, inr, Option-cases, if◌then◌else◌,
}
use mathlib.Core.List.{map-map}
use mini_sfu.Subscriber.{Subscriber, add_data_channel}
use mini_sfu.Subscriber.Tracks.{add_data_channel-lookup}
use mini_sfu.Router.{Peer, others}
use mini_sfu.Router.Channels.{
  is_member, own_channel, offer_channels, add_datachannel, get_data_channels, on_message, Send,
  send_text, send_bytes,
}

-- the channel of a peer, if it has one
abbrev pub or_zero : Option ℕ → ℕ
or_zero none = 0
or_zero (some dc) = dc

abbrev pub channel_of : ℕ → Peer → ℕ
channel_of label p = or_zero (lookup label p.subscriber.channels)

-- The peer has a channel of the label.
abbrev pub Joins : ℕ → Peer → Type 0
Joins label p = (dc : ℕ) × (lookup label p.subscriber.channels ≡ some dc)

get_data_channels-others :
    (is_open : ℕ → Bool) (origin label : ℕ) (ps : List Peer)
    → ((dc : ℕ) → is_open dc ≡ true)
    → All (Joins label) ps
    → get_data_channels is_open origin label ps ≡ map (channel_of label) (others origin ps)
unfolding get_data_channels
get_data_channels-others is_open origin label [] opened all = refl
get_data_channels-others is_open origin label (p ∷ ps) opened ((dc, joins), all) =
    let rest = get_data_channels-others is_open origin label ps opened all in
    elim (Bool-cases (p.id == origin)) [
      | inl self ↦ rw self rest
      | inr other ↦ rw (other, joins, opened dc) (ap (λ l. dc ∷ l) rest)
    ]

-- The owner has its channel, and every other peer gets one.
offer_channels-Joins :
    (created : ℕ → Option ℕ) (owner label dc : ℕ) (ps : List Peer)
    → ((id : ℕ) → (dc' : ℕ) × (created id ≡ some dc'))
    → All (Joins label) (offer_channels created owner label (own_channel owner label dc ps)).0
unfolding offer_channels own_channel
offer_channels-Joins created owner label dc [] accepts = tt
offer_channels-Joins created owner label dc (p ∷ ps) accepts =
    let rest = offer_channels-Joins created owner label dc ps accepts in
    elim (Bool-cases (p.id == owner)) [
      | inl own ↦ rw (own, own) ((dc, lookup-insert_self label dc p.subscriber.channels), rest)
      | inr other ↦
          rw (other, other)
            (add_data_channel-lookup p.subscriber label (created p.id) (accepts p.id), rest)
    ]

offer_channels-ids :
    (created : ℕ → Option ℕ) (owner label dc : ℕ) (ps : List Peer)
    → map
        (λ (p : Peer). p.id)
        (offer_channels created owner label (own_channel owner label dc ps)).0
      ≡ map (λ (p : Peer). p.id) ps
unfolding offer_channels own_channel
offer_channels-ids created owner label dc [] = refl
offer_channels-ids created owner label dc (p ∷ ps) =
    let rest = offer_channels-ids created owner label dc ps in
    elim (Bool-cases (p.id == owner)) [
      | inl own ↦ rw (own, own) (ap (λ l. p.id ∷ l) rest)
      | inr other ↦ rw (other, other) (ap (λ l. p.id ∷ l) rest)
    ]

add_data_channel-channel :
    (s : Subscriber) (label : ℕ) (created : Option ℕ)
    → ((dc : ℕ) × (created ≡ some dc))
    → (dc : ℕ) × ((add_data_channel s label created).1 ≡ some dc)
unfolding add_data_channel
add_data_channel-channel s label created (dc, made) =
    elim (Option-cases (lookup label s.channels)) [
      | inl e ↦ (dc, rw (add_data_channel, e, made) refl)
      | inr (old, e) ↦ (old, rw (add_data_channel, e) refl)
    ]

-- Every other peer listens.
offer_channels-listening :
    (created : ℕ → Option ℕ) (owner label dc : ℕ) (ps : List Peer)
    → ((id : ℕ) → (dc' : ℕ) × (created id ≡ some dc'))
    → (offer_channels created owner label (own_channel owner label dc ps)).1
      ≡ map (λ (p : Peer). p.id) (others owner ps)
unfolding offer_channels own_channel
offer_channels-listening created owner label dc [] accepts = refl
offer_channels-listening created owner label dc (p ∷ ps) accepts =
    let rest = offer_channels-listening created owner label dc ps accepts in
    elim (Bool-cases (p.id == owner)) [
      | inl own ↦ rw (own, own) rest
      | inr other ↦
          let got = add_data_channel-channel p.subscriber label (created p.id) (accepts p.id) in
          rw (other, other, got.1, other) (ap (λ l. p.id ∷ l) rest)
    ]

-- what `dc.SendText` or `dc.Send` does with a message
abbrev pub sent_to : Bool → ℕ → Send
sent_to is_string dc = if is_string then send_text dc else send_bytes dc

-- After a member of the session shares a data channel, if the connections accept it: the channel of the
-- owner and those of all the others have the handler for messages, every peer has a channel of the
-- label, and while the channels are open the handler for a message of any peer sends it, as a text or as
-- bytes, once to the channel of every other peer.
pub add_datachannel-others :
    (created : ℕ → Option ℕ) (owner label dc : ℕ) (labels : List ℕ) (peers : List Peer)
    (is_open : ℕ → Bool) (origin : ℕ) (is_string : Bool)
    → ((id : ℕ) → (dc' : ℕ) × (created id ≡ some dc'))
    → ((dc' : ℕ) → is_open dc' ≡ true)
    → is_member owner peers ≡ true
    → (peers' : List Peer) × (add_datachannel created owner label dc labels peers
        ≡ some
            (labels ++ (label ∷ []), peers', owner ∷ map (λ (p : Peer). p.id) (others owner peers)))
      × (map (λ (p : Peer). p.id) peers' ≡ map (λ (p : Peer). p.id) peers)
      × All (Joins label) peers'
      × (on_message is_open origin label is_string peers'
          ≡ map (λ p. sent_to is_string (channel_of label p)) (others origin peers'))
unfolding add_datachannel on_message
add_datachannel-others created owner label dc labels peers is_open origin is_string accepts opened
      member =
    let offered = offer_channels created owner label (own_channel owner label dc peers) in
    let joins = offer_channels-Joins created owner label dc peers accepts in
    (
      offered.0,
      rw (member, offer_channels-listening created owner label dc peers accepts) refl,
      offer_channels-ids created owner label dc peers,
      joins,
      ap (map (sent_to is_string))
            (get_data_channels-others is_open origin label offered.0 opened joins)
          ∙ map-map (sent_to is_string) (channel_of label) (others origin offered.0),
    )
