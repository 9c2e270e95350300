-- ===== src/Client/Serving.antt =====
-- All requests of one client, one after the other.
use mini_sfu.Base.{ℕ, ◌≡◌, refl, ap, subst, Option, none, some, List, [], ◌∷◌, All, ◌⊎◌, inl, inr}
use mini_sfu.Sfu.{Sfu}
use mini_sfu.Signal.{
  Method, join, offer, answer, trickle, other_method, Request, Parsers, Reply, reply_with_error,
  joined, with_parsed, handle_params, handle,
}
use mini_sfu.Transport.{Transport}
use mini_sfu.Client.{Client, ClientError, err_transport_exists, Made}
use mini_sfu.Client.Requests.{
  HasPublisher, Kept, Kept-trans, same-Kept, calls, joined-refused, handle_params-Kept,
}

module _ {P D C E : Type 0} (t : Transport P D C E) (world : Sfu × Client P C → Made P)
    (parsers : Parsers D C (ClientError E)) where
  abbrev pub State : Type 0
  State = Sfu × Client P C

  abbrev pub Replies : Type 0
  Replies = List (Reply D (ClientError E))

  -- The replies to a method once there is a publisher: to a join one error and no description.
  abbrev pub IsRefused : Method → Replies → Type 0
  IsRefused join rs = (err : ClientError E) × (rs ≡ reply_with_error err ∷ [])
  IsRefused offer rs = Unit
  IsRefused answer rs = Unit
  IsRefused trickle rs = Unit
  IsRefused other_method rs = Unit

  -- The calls of `Handle` for requests in turn, with the replies to each, none of which panics.
  pub data Serves : State → List (Request × Replies) → State → Type 0 where
    no_more : (s : State) → Serves s [] s
    next :
        (s : State) (req : Request) (s' : State) (rs : Replies) (rest : List (Request × Replies))
        (last : State)
        → handle parsers (calls t world parsers) s req ≡ some (s', rs)
        → Serves s' rest last
        → Serves s ((req, rs) ∷ rest) last

  parsed-IsRefused :
      (s : State) (r : ClientError E ⊎ (ℕ × D))
      → HasPublisher t s.1
      → IsRefused join (
          (with_parsed parsers (calls t world parsers) s r (λ p.
            joined parsers
              (calls t world parsers)
              ((calls t world parsers).join ((calls t world parsers).listen s) p.0)
              p.1)).1)
  unfolding with_parsed
  parsed-IsRefused s (inl err) has = (err, refl)
  parsed-IsRefused s (inr p) has =
      (err_transport_exists, ap (λ r. r.1) (joined-refused t world parsers s p.0 p.1 has))

  handle_params-IsRefused :
      (s : State) (m : Method) (bytes : List ℕ)
      → HasPublisher t s.1
      → IsRefused m (handle_params parsers (calls t world parsers) s m bytes).1
  unfolding handle_params
  handle_params-IsRefused s join bytes has = parsed-IsRefused s (parsers.parse_join bytes) has
  handle_params-IsRefused s offer bytes has = tt
  handle_params-IsRefused s answer bytes has = tt
  handle_params-IsRefused s trickle bytes has = tt
  handle_params-IsRefused s other_method bytes has = tt

  some-inj : (a b : State × Replies) → some a ≡ some b → a ≡ b
  some-inj a b e = ap (λ (o : Option (State × Replies)). elim o [ none ↦ a | some x ↦ x ]) e

  handled-Kept :
      (s : State) (m : Method) (params : Option (List ℕ)) (r : State × Replies)
      → HasPublisher t s.1
      → handle parsers (calls t world parsers) s (record { method = m; params = params }) ≡ some r
      → Kept t s r.0 × IsRefused m r.1
  unfolding handle
  handled-Kept s m (some bytes) r has e =
      let same = some-inj (handle_params parsers (calls t world parsers) s m bytes) r e in
      subst (λ (x : State × Replies). Kept t s x.0 × IsRefused m x.1) same
        (handle_params-Kept t world parsers s m bytes has, handle_params-IsRefused s m bytes has)
  handled-Kept s other_method none r has e =
      let same = some-inj (s, []) r e in
      subst (λ (x : State × Replies). Kept t s x.0 × IsRefused other_method x.1) same
        (same-Kept t s.0 s.1 has, tt)
  handled-Kept s join none r has e = absurd (cc)
  handled-Kept s offer none r has e = absurd (cc)
  handled-Kept s answer none r has e = absurd (cc)
  handled-Kept s trickle none r has e = absurd (cc)

  -- Once a peer has a publisher, whatever requests come: it stays in the session that it is in, under
  -- its identifier, no session changes, the publisher stays, and each further join is answered by an
  -- error and no description.
  pub Serves-Kept :
      (s : State) (history : List (Request × Replies)) (last : State)
      → HasPublisher t s.1
      → Serves s history last
      → Kept t s last × All (λ (e : Request × Replies). IsRefused e.0.method e.1) history
  Serves-Kept _ _ _ has (no_more s) = (same-Kept t s.0 s.1 has, tt)
  Serves-Kept _ _ _ has (next s req s' rs rest last e later) =
      let (kept, refused) = handled-Kept s req.method req.params (s', rs) has e in
      let (kept', all) = Serves-Kept s' rest last kept.has later in
      (Kept-trans t s s' last kept kept', (refused, all))
