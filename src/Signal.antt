-- ===== src/Signal.antt =====
-- signal/signal.go: the requests of a client. The peer, the parsers of encoding/json and the types of
-- their results are parameters. `none` is a panic, of a request without parameters.
pub mod Replies
mod Tests
use mini_sfu.Base.{ℕ, Bool, true, false, Option, none, some, List, [], ◌∷◌, ◌++◌, ◌⊎◌, inl, inr}
use mathlib.Core.Option

-- `req.Method`
pub data Method : Type 0 where
  join offer answer trickle other_method : Method

-- `jsonrpc2.Request`: `params` is a pointer to the bytes.
pub record Request : Type 0 where
  pub method : Method
  pub params : Option (List ℕ)

-- what `json.Unmarshal` makes of the bytes: an error, or a `Join`, a `Negotiation` or a `Trickle`
pub record Parsers (D C E : Type 0) : Type 0 where
  pub parse_join : List ℕ → E ⊎ (ℕ × D)
  pub parse_negotiation : List ℕ → E ⊎ D
  pub parse_trickle : List ℕ → E ⊎ (C × ℕ)

-- the methods of `sfu.Peer` that the handler calls, on the state of a peer
pub record PeerCalls (S D C E : Type 0) : Type 0 where
  -- the two callbacks, which notify the client
  pub listen : S → S
  pub join : S → ℕ → S × Option E
  pub answer : S → D → S × (E ⊎ D)
  pub set_remote_description : S → D → S × Option E
  pub trickle : S → C → ℕ → S × Option E

-- `conn.ReplyWithError` and `conn.Reply`
pub data Reply (D E : Type 0) : Type 0 where
  reply_with_error : E → Reply D E
  reply : D → Reply D E

module _ {S D C E : Type 0} (parsers : Parsers D C E) (peer : PeerCalls S D C E) where
  -- the reply to what `Answer` returns
  unfoldable pub reply_result : S × (E ⊎ D) → S × List (Reply D E)
  reply_result (s, inl err) = (s, reply_with_error err ∷ [])
  reply_result (s, inr desc) = (s, reply desc ∷ [])

  -- the reply of the cases "answer" and "trickle", if there is an error
  unfoldable pub reply_error : S × Option E → S × List (Reply D E)
  reply_error (s, none) = (s, [])
  reply_error (s, some err) = (s, reply_with_error err ∷ [])

  -- the case "join" after `Join`: the answer to the offer that came with it
  unfoldable pub joined : S × Option E → D → S × List (Reply D E)
  joined (s, some err) desc = (s, reply_with_error err ∷ [])
  joined (s, none) desc = reply_result (peer.answer s desc)

  -- the reply to parameters that cannot be parsed, or what follows
  unfoldable pub with_parsed :
      {X : Type 0} → S → E ⊎ X → (X → S × List (Reply D E)) → S × List (Reply D E)
  with_parsed s (inl err) next = (s, reply_with_error err ∷ [])
  with_parsed s (inr x) next = next x

  -- the switch of `Handle`, for the bytes of the parameters
  unfoldable pub handle_params : S → Method → List ℕ → S × List (Reply D E)
  handle_params s join bytes =
      with_parsed s (parsers.parse_join bytes) (λ p. joined (peer.join (peer.listen s) p.0) p.1)
  handle_params s offer bytes =
      with_parsed s (parsers.parse_negotiation bytes) (λ desc. reply_result (peer.answer s desc))
  handle_params s answer bytes =
      with_parsed s (parsers.parse_negotiation bytes)
        (λ desc. reply_error (peer.set_remote_description s desc))
  handle_params s trickle bytes =
      with_parsed s (parsers.parse_trickle bytes) (λ p. reply_error (peer.trickle s p.0 p.1))
  handle_params s other_method bytes = (s, [])

  -- `Handle`; a method that it does not know does not touch the parameters.
  unfoldable pub handle : S → Request → Option (S × List (Reply D E))
  handle s req = elim req.params [
    | some bytes ↦ some (handle_params s req.method bytes)
    | none ↦ elim req.method [ other_method ↦ some (s, []) | _ ↦ none ]
  ]
