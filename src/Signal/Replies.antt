-- ===== src/Signal/Replies.antt =====
-- Which requests are answered, and with what.
use mini_sfu.Base.{ℕ, ◌≡◌, ◌≢◌, refl, Option, none, some, List, [], ◌∷◌, ◌⊎◌, inl, inr}
use mini_sfu.Signal.{
  Method, join, offer, answer, trickle, other_method, Request, Parsers, PeerCalls, Reply,
  reply_with_error, reply, reply_result, reply_error, joined, with_parsed, handle_params, handle,
}

module _ {D E : Type 0} where
  -- one reply: an error or a description
  abbrev pub IsAnswered : List (Reply D E) → Type 0
  IsAnswered rs = ((e : E) × (rs ≡ reply_with_error e ∷ [])) ⊎ ((d : D) × (rs ≡ reply d ∷ []))

  -- nothing, or an error
  abbrev pub IsNotified : List (Reply D E) → Type 0
  IsNotified rs = (rs ≡ []) ⊎ ((e : E) × (rs ≡ reply_with_error e ∷ []))

  -- what a client gets for a method
  abbrev pub IsExpected : Method → List (Reply D E) → Type 0
  IsExpected join rs = IsAnswered rs
  IsExpected offer rs = IsAnswered rs
  IsExpected answer rs = IsNotified rs
  IsExpected trickle rs = IsNotified rs
  IsExpected other_method rs = rs ≡ []

module _ {S D C E : Type 0} (parsers : Parsers D C E) (peer : PeerCalls S D C E) where
  reply_result-IsAnswered : (r : S × (E ⊎ D)) → IsAnswered (reply_result parsers peer r).1
  unfolding reply_result
  reply_result-IsAnswered (s, inl err) = inl (err, refl)
  reply_result-IsAnswered (s, inr desc) = inr (desc, refl)

  reply_error-IsNotified : (r : S × Option E) → IsNotified (reply_error parsers peer r).1
  unfolding reply_error
  reply_error-IsNotified (s, none) = inl refl
  reply_error-IsNotified (s, some err) = inr (err, refl)

  joined-IsAnswered : (r : S × Option E) (desc : D) → IsAnswered (joined parsers peer r desc).1
  unfolding joined
  joined-IsAnswered (s, some err) desc = inl (err, refl)
  joined-IsAnswered (s, none) desc = reply_result-IsAnswered (peer.answer s desc)

  with_parsed-All :
      {X : Type 0} (P : List (Reply D E) → Type 0) (s : S) (p : E ⊎ X)
      (next : X → S × List (Reply D E))
      → ((err : E) → P (reply_with_error err ∷ []))
      → ((x : X) → P (next x).1)
      → P (with_parsed parsers peer s p next).1
  unfolding with_parsed
  with_parsed-All P s (inl err) next bad good = bad err
  with_parsed-All P s (inr x) next bad good = good x

  handle_params-IsExpected :
      (s : S) (m : Method) (bytes : List ℕ) → IsExpected m (handle_params parsers peer s m bytes).1
  unfolding handle_params
  handle_params-IsExpected s join bytes =
      with_parsed-All IsAnswered s (parsers.parse_join bytes) _ (λ err. inl (err, refl))
        (λ p. joined-IsAnswered (peer.join (peer.listen s) p.0) p.1)
  handle_params-IsExpected s offer bytes =
      with_parsed-All IsAnswered s (parsers.parse_negotiation bytes) _ (λ err. inl (err, refl))
        (λ desc. reply_result-IsAnswered (peer.answer s desc))
  handle_params-IsExpected s answer bytes =
      with_parsed-All IsNotified s (parsers.parse_negotiation bytes) _ (λ err. inr (err, refl))
        (λ desc. reply_error-IsNotified (peer.set_remote_description s desc))
  handle_params-IsExpected s trickle bytes =
      with_parsed-All IsNotified s (parsers.parse_trickle bytes) _ (λ err. inr (err, refl))
        (λ p. reply_error-IsNotified (peer.trickle s p.0 p.1))
  handle_params-IsExpected s other_method bytes = refl

  handled :
      (s : S) (m : Method) (params : Option (List ℕ))
      → let req : Request = record { method = m; params = params } in
        ((r : S × List (Reply D E)) × (handle parsers peer s req ≡ some r) × IsExpected m r.1)
        ⊎ ((params ≡ none) × (m ≢ other_method) × (handle parsers peer s req ≡ none))
  unfolding handle
  handled s m (some bytes) =
      inl (handle_params parsers peer s m bytes, refl, handle_params-IsExpected s m bytes)
  handled s other_method none = inl ((s, []), refl, refl)
  handled s join none = inr (refl, (λ e. absurd (cc)), refl)
  handled s offer none = inr (refl, (λ e. absurd (cc)), refl)
  handled s answer none = inr (refl, (λ e. absurd (cc)), refl)
  handled s trickle none = inr (refl, (λ e. absurd (cc)), refl)

  -- A request is answered as its method is: "join" and "offer" by one description or one error,
  -- "answer" and "trickle" by an error or not at all, and another method not at all; or it has no
  -- parameters, one of the four methods, and the handler panics.
  pub handle-IsExpected :
      (s : S) (req : Request)
      → ((r : S × List (Reply D E)) × (handle parsers peer s req ≡ some r)
          × IsExpected req.method r.1)
        ⊎ ((req.params ≡ none) × (req.method ≢ other_method) × (handle parsers peer s req ≡ none))
  handle-IsExpected s req = handled s req.method req.params
