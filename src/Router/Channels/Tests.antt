-- ===== src/Router/Channels/Tests.antt =====
-- A shared channel among three peers, and the theorem at it.
use mini_sfu.Base.{ℕ, ◌+◌, ◌≡◌, refl, true, Option, none, some, List, [], ◌∷◌, ◌++◌, map, All}
use mini_sfu.Subscriber.{new_subscriber, add_data_channel}
use mini_sfu.Router.{Peer, new_router, others}
use mini_sfu.Router.Channels.{
  add_datachannel, offer_channels, own_channel, is_member, get_data_channels, on_message, send_text,
}
use mini_sfu.Router.Channels.Delivery.{channel_of, Joins, add_datachannel-others}

abbrev member : ℕ → Peer
member id = record { id = id; subscriber = new_subscriber id; router = new_router id }

abbrev three : List Peer
three = member 1 ∷ member 2 ∷ member 3 ∷ []

abbrev created : ℕ → Option ℕ
created id = some (id + 100)

abbrev shared : List Peer
shared = (offer_channels created 2 7 (own_channel 2 7 50 three)).0

-- The owner's channel is 50; the others have new ones.
reaches : on_message (λ dc. true) 3 7 true shared ≡ send_text 101 ∷ send_text 50 ∷ []
unfolding on_message get_data_channels offer_channels own_channel add_data_channel
reaches = refl

-- A peer that is not in the session panics.
stranger : add_datachannel created 9 7 50 [] three ≡ none
unfolding add_datachannel is_member
stranger = refl

two_is_member : is_member 2 three ≡ true
unfolding is_member
two_is_member = refl

add_datachannel-others_example :
    (peers' : List Peer) × (add_datachannel created 2 7 50 [] three
      ≡ some ([] ++ (7 ∷ []), peers', 2 ∷ 1 ∷ 3 ∷ []))
    × (map (λ (p : Peer). p.id) peers' ≡ map (λ (p : Peer). p.id) three)
    × All (Joins 7) peers'
    × (on_message (λ dc. true) 3 7 true peers'
        ≡ map (λ p. send_text (channel_of 7 p)) (others 3 peers'))
add_datachannel-others_example =
    add_datachannel-others created 2 7 50 [] three (λ dc. true) 3 true (λ id. (id + 100, refl))
      (λ dc. refl) two_is_member
