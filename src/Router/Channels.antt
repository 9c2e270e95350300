-- ===== src/Router/Channels.antt =====
-- internal/sfu/session.go: the data channels that a peer shares with its session. What the connections
-- answer is an argument; `none` is a panic.
pub mod Delivery
mod Tests
use mini_sfu.Base.Maps.{lookup, insert}
use mini_sfu.Base.{
  ℕ, Bool, true, false, Option, none, some, List, [], ◌∷◌, ◌++◌, map, ◌==◌, if◌then◌else◌,
}
use mini_sfu.Subscriber.{Subscriber, add_data_channel}
use mini_sfu.Router.{Peer}

-- `s.peers[owner]`
pub is_member : ℕ → List Peer → Bool
is_member id [] = false
is_member id (p ∷ ps) = let rest = is_member id ps in if p.id == id then true else rest

-- the channel of the owner itself; an identifier stands once in the map of peers
pub own_channel : ℕ → ℕ → ℕ → List Peer → List Peer
own_channel owner label dc [] = []
own_channel owner label dc (p ∷ ps) =
    (if p.id == owner
      then record p {
        subscriber = record p.subscriber { channels = insert label dc p.subscriber.channels };
      }
      else p)
    ∷ own_channel owner label dc ps

-- The loop over the peers but the owner: the peers, and the identifiers of those whose channel gets a
-- handler for messages and who negotiate. `created` is what a connection makes of the label.
pub offer_channels : (ℕ → Option ℕ) → ℕ → ℕ → List Peer → List Peer × List ℕ
offer_channels created owner label [] = ([], [])
offer_channels created owner label (p ∷ ps) =
    let (rest, listening) = offer_channels created owner label ps in
    let (s, channel) = add_data_channel p.subscriber label (created p.id) in
    if p.id == owner then (p ∷ rest, listening) else (
      record p { subscriber = s } ∷ rest,
      elim channel [ none ↦ listening | some dc ↦ p.id ∷ listening ],
    )

-- `AddDatachannel`: the labels, the peers and those who listen
pub add_datachannel :
    (ℕ → Option ℕ) → ℕ → ℕ → ℕ → List ℕ → List Peer → Option (List ℕ × List Peer × List ℕ)
add_datachannel created owner label dc fan_out_dcs peers =
    let (peers', listening) =
      offer_channels created owner label (own_channel owner label dc peers) in
    if is_member owner peers
    then some (fan_out_dcs ++ (label ∷ []), peers', owner ∷ listening)
    else none

-- `getDataChannels`; `is_open` is the test of `ReadyState`.
unfoldable pub get_data_channels : (ℕ → Bool) → ℕ → ℕ → List Peer → List ℕ
get_data_channels is_open origin label [] = []
get_data_channels is_open origin label (p ∷ ps) =
    let rest = get_data_channels is_open origin label ps in
    if p.id == origin then rest else elim (lookup label p.subscriber.channels) [
      | none ↦ rest
      | some dc ↦ if is_open dc then dc ∷ rest else rest
    ]

-- `dc.SendText` and `dc.Send`
pub data Send : Type 0 where
  send_text send_bytes : ℕ → Send

-- `onMessage`
pub on_message : (ℕ → Bool) → ℕ → ℕ → Bool → List Peer → List Send
on_message is_open origin label is_string peers =
    map (λ dc. if is_string then send_text dc else send_bytes dc)
      (get_data_channels is_open origin label peers)
