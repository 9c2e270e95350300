-- ===== src/DataChannel/Messages.antt =====
-- datachannel.go, NewDatachannel of sfu.go and AddDatachannel of subscriber.go: the channels that every
-- peer gets. A `*DataChannel` is an index into those of the SFU.
pub mod Configured
mod Tests
use mini_sfu.Base.Maps.{insert}
use mini_sfu.Base.{
  ℕ, Bool, Option, none, some, List, [], ◌∷◌, ◌++◌, ◌==◌, if◌then◌else◌, set, get_or,
}
use mini_sfu.Subscriber.{Subscriber}
use mini_sfu.Router.{Peer}
use mini_sfu.Router.Channels.{get_data_channels}
use mini_sfu.DataChannel.{chain}

-- What a message is processed with: what `onMessage` of each channel then is, the peers of the
-- session, and which channels are open.
pub record World {ℓ} (Args Out : Type ℓ) : Type ℓ where
  pub handler_of : ℕ → Option (Args → List ℕ → Out)
  pub peers : List Peer
  pub is_open : ℕ → Bool

-- `MessageProcessor`
abbrev pub Processor {ℓ} : Type ℓ → Type ℓ → Type ℓ
Processor Args Out = World Args Out → Args → Out

-- `DataChannel`
pub record Channel {ℓ} (Args Out : Type ℓ) : Type ℓ where
  pub label : ℕ
  pub middlewares : List (Processor Args Out → Processor Args Out)
  pub on_message : Option (Args → List ℕ → Out)

-- `NewDatachannel`
abbrev pub made {ℓ} : {Args Out : Type ℓ} → ℕ → Channel Args Out
made label = record { label = label; middlewares = []; on_message = none }

pub data Call {ℓ} (Args Out : Type ℓ) : Type ℓ where
  -- `NewDatachannel`
  new_datachannel : ℕ → Call Args Out
  -- `Use` and `OnMessage` of a channel
  use_on : ℕ → List (Processor Args Out → Processor Args Out) → Call Args Out
  on_message_of : ℕ → (Args → List ℕ → Out) → Call Args Out

module _ {ℓ} {Args Out : Type ℓ} where
  pub apply : List (Channel Args Out) → Call Args Out → List (Channel Args Out)
  apply dcs (new_datachannel label) = dcs ++ (made label ∷ [])
  apply dcs (use_on dc mws) =
      let c = get_or dcs dc (made 0) in set dcs dc (record c { middlewares = c.middlewares ++ mws })
  apply dcs (on_message_of dc fn) =
      set dcs dc (record (get_or dcs dc (made 0)) { on_message = some fn })

  pub configure : List (Channel Args Out) → List (Call Args Out) → List (Channel Args Out)
  configure dcs [] = dcs
  configure dcs (call ∷ calls) = configure (apply dcs call) calls

  -- The `ProcessFunc` of `AddDatachannel`: `quiet` does nothing.
  pub call_handler : Out → ℕ → ℕ → ℕ → Processor Args Out
  call_handler quiet origin dc label w args = elim (w.handler_of dc) [
    | none ↦ quiet
    | some fn ↦ fn args (get_data_channels w.is_open origin label w.peers)
  ]

  -- `AddDatachannel`: the Subscriber, and what processes the messages; `created` is what the
  -- connection makes of the label.
  pub add_configured :
      Out
      → List (Channel Args Out)
      → ℕ
      → ℕ
      → Option ℕ
      → Subscriber
      → Option (Subscriber × Processor Args Out)
  add_configured quiet dcs origin dc none s = none
  add_configured quiet dcs origin dc (some ndc) s =
      let c = get_or dcs dc (made 0) in
      some (
        record s { channels = insert c.label ndc s.channels },
        chain c.middlewares (call_handler quiet origin dc c.label),
      )

  -- the middlewares that the calls add to a channel, in order
  abbrev pub used : ℕ → List (Call Args Out) → List (Processor Args Out → Processor Args Out)
  used dc [] = []
  used dc (new_datachannel label ∷ calls) = used dc calls
  used dc (use_on i mws ∷ calls) = if i == dc then mws ++ used dc calls else used dc calls
  used dc (on_message_of i fn ∷ calls) = used dc calls

  -- the last handler that the calls give a channel
  abbrev pub latest :
      ℕ → List (Call Args Out) → Option (Args → List ℕ → Out) → Option (Args → List ℕ → Out)
  latest dc [] fn = fn
  latest dc (new_datachannel label ∷ calls) fn = latest dc calls fn
  latest dc (use_on i mws ∷ calls) fn = latest dc calls fn
  latest dc (on_message_of i fn' ∷ calls) fn = latest dc calls (if i == dc then some fn' else fn)
