-- ===== src/DataChannel/Messages/Tests.antt =====
-- A channel that every peer gets, and the theorem at it.
use mini_sfu.Base.Maps.{insert}
use mini_sfu.Base.{ℕ, ◌≡◌, refl, true, none, some, List, [], ◌∷◌, get_or}
use mini_sfu.Subscriber.{new_subscriber}
use mini_sfu.Router.{Peer, new_router}
use mini_sfu.Router.Channels.{get_data_channels}
use mini_sfu.DataChannel.{nested}
use mini_sfu.DataChannel.Messages.{
  World, Processor, Channel, Call, new_datachannel, use_on, on_message_of, apply, configure,
  call_handler, add_configured, made,
}
use mini_sfu.DataChannel.Messages.Configured.{messages_meet}

-- A middleware that notes its number, and handlers that list what they get.
abbrev noting : ℕ → Processor ℕ (List ℕ) → Processor ℕ (List ℕ)
noting n p = λ world args. n ∷ p world args

abbrev replying : ℕ → List ℕ → List ℕ
replying message out = message ∷ out

abbrev ignoring : ℕ → List ℕ → List ℕ
ignoring message out = []

abbrev before : List (Call ℕ (List ℕ))
before =
    use_on 0 (noting 1 ∷ [])
    ∷ new_datachannel 8
    ∷ use_on 1 (noting 5 ∷ [])
    ∷ use_on 0 (noting 2 ∷ [])
    ∷ on_message_of 0 ignoring
    ∷ []

abbrev after : List (Call ℕ (List ℕ))
after = on_message_of 0 replying ∷ use_on 0 (noting 3 ∷ []) ∷ []

abbrev having : ℕ → ℕ → Peer
having id dc = record {
  id = id;
  subscriber = record (new_subscriber id) { channels = insert 7 dc [] };
  router = new_router id;
}

abbrev session_peers : List Peer
session_peers = having 1 61 ∷ having 2 62 ∷ having 3 63 ∷ []

abbrev no_channels : List (Channel ℕ (List ℕ))
no_channels = []

abbrev at_last : List (Channel ℕ (List ℕ))
at_last = configure (configure (apply no_channels (new_datachannel 7)) before) after

abbrev last_world : World ℕ (List ℕ)
last_world = record {
  handler_of = λ i. (get_or at_last i (made 0)).on_message;
  peers = session_peers;
  is_open = λ dc. true;
}

-- The middleware that is added after the peer has the channel is not met.
meets :
    nested (noting 1 ∷ noting 2 ∷ []) (call_handler [] 2 0 7) last_world 40
    ≡ 1 ∷ 2 ∷ 40 ∷ 61 ∷ 63 ∷ []
unfolding apply configure call_handler get_data_channels
meets = refl

messages_meet_example :
    (add_configured []
        (configure (apply no_channels (new_datachannel 7)) before)
        2
        0
        (some 62)
        (new_subscriber 2)
      ≡ some (
        record (new_subscriber 2) { channels = insert 7 62 [] },
        nested (noting 1 ∷ noting 2 ∷ []) (call_handler [] 2 0 7),
      ))
    × (call_handler [] 2 0 7 last_world 40 ≡ 40 ∷ get_data_channels (λ dc. true) 2 7 session_peers)
    × (add_configured []
          (configure (apply no_channels (new_datachannel 7)) before)
          2
          0
          none
          (new_subscriber 2)
        ≡ none)
messages_meet_example =
    messages_meet [] no_channels 7 before after 2 62 (new_subscriber 2) session_peers (λ dc. true)
      40
