-- ===== src/Client/Requests.antt =====
-- The requests of signal.go on a whole peer.
use mini_sfu.Base.{
  ℕ, ◌==◌, ◌≡◌, refl, ap, sym, subst, ◌∙◌, Option, none, some, List, [], ◌∷◌, ◌⊎◌, inl, inr,
  Bool-cases,
}
use mini_sfu.Publisher
use mini_sfu.Publisher.{Publisher}
use mini_sfu.Sfu.{Sfu}
use mini_sfu.Signal.{
  Method, join, offer, answer, trickle, other_method, Parsers, PeerCalls, Reply, reply_with_error,
  reply_result, reply_error, joined, with_parsed, handle_params,
}
use mini_sfu.Transport.{Transport}
use mini_sfu.Client
use mini_sfu.Client.{
  Link, Client, ClientError, err_transport_exists, err_no_transport_established, Made, client_calls,
  described, answered, answer_with, negotiated, set_remote_with, trickle_to, trickle_with,
  join_unless,
}

module _ {P D C E : Type 0} (t : Transport P D C E) where
  -- A publisher is there.
  abbrev pub HasPublisher : Client P C → Type 0
  HasPublisher c = (p : Publisher P C) × (c.publisher ≡ some p)

  -- The sessions and the place of the peer in them are as before, and a publisher is there.
  pub record Kept (s s' : Sfu × Client P C) : Type 0 where
    pub sfu : s'.0 ≡ s.0
    pub id : s'.1.id ≡ s.1.id
    pub session : s'.1.session ≡ s.1.session
    pub has : HasPublisher s'.1

  pub Kept-trans : (a b c : Sfu × Client P C) → Kept a b → Kept b c → Kept a c
  Kept-trans a b c k l = record {
    sfu = l.sfu ∙ k.sfu;
    id = l.id ∙ k.id;
    session = l.session ∙ k.session;
    has = l.has;
  }

  pub same-Kept : (f : Sfu) (c : Client P C) → HasPublisher c → Kept (f, c) (f, c)
  same-Kept f c has = record { sfu = refl; id = refl; session = refl; has = has }

  answered-Kept :
      (f : Sfu) (c : Client P C) (r : Publisher P C × (E ⊎ D)) → Kept (f, c) (f, (answered t c r).0)
  unfolding answered
  answered-Kept f c (p, inl err) = record { sfu = refl; id = refl; session = refl; has = (p, refl) }
  answered-Kept f c (p, inr desc) = record {
    sfu = refl;
    id = refl;
    session = refl;
    has = (p, refl);
  }

  answer_with-Kept :
      (f : Sfu) (c : Client P C) (d : D) (p : Option (Publisher P C))
      → HasPublisher c
      → Kept (f, c) (f, (answer_with t c d p).0)
  unfolding answer_with
  answer_with-Kept f c d none has = same-Kept f c has
  answer_with-Kept f c d (some p) has = elim (Bool-cases (t.is_stable p.pc)) [
    | inl stable ↦ rw stable (answered-Kept f c (Publisher.answer t p d))
    | inr busy ↦ rw busy (same-Kept f c has)
  ]

  negotiated-Kept :
      (f : Sfu) (c : Client P C) (r : Link P C × Option E)
      → HasPublisher c
      → Kept (f, c) (f, (negotiated t c r).0)
  unfolding negotiated
  negotiated-Kept f c (l, some err) has = record {
    sfu = refl;
    id = refl;
    session = refl;
    has = has;
  }
  negotiated-Kept f c (l, none) has = record { sfu = refl; id = refl; session = refl; has = has }

  set_remote_with-Kept :
      (f : Sfu) (c : Client P C) (d : D) (l : Option (Link P C))
      → HasPublisher c
      → Kept (f, c) (f, (set_remote_with t c d l).0)
  unfolding set_remote_with
  set_remote_with-Kept f c d none has = same-Kept f c has
  set_remote_with-Kept f c d (some l) has =
      negotiated-Kept f c (described t l (t.set_remote_description l.pc d)) has

  trickle_with-Kept :
      (f : Sfu) (c : Client P C) (candidate : C) (target : ℕ) (l : Option (Link P C))
      (p : Option (Publisher P C))
      → HasPublisher c
      → Kept (f, c) (f, (trickle_with t c candidate target l p).0)
  unfolding trickle_with trickle_to
  trickle_with-Kept f c candidate target none p has = same-Kept f c has
  trickle_with-Kept f c candidate target (some l) none has = same-Kept f c has
  trickle_with-Kept f c candidate target (some l) (some p) has = elim (Bool-cases (target == 0)) [
    | inl first ↦ rw first (record {
      sfu = refl;
      id = refl;
      session = refl;
      has = ((Publisher.add_ice_candidate t p candidate).0, refl);
    })
    | inr later ↦ elim (Bool-cases (target == 1)) [
      | inl second ↦
          rw (later, second) (record { sfu = refl; id = refl; session = refl; has = has })
      | inr unknown ↦ rw (later, unknown) (same-Kept f c has)
    ]
  ]

  module _ (world : Sfu × Client P C → Made P) (parsers : Parsers D C (ClientError E)) where
    abbrev pub calls : PeerCalls (Sfu × Client P C) D C (ClientError E)
    calls = client_calls t world

    -- A request, for one that was parsed or not, keeps what its next step keeps.
    with_parsed-Kept :
        {X : Type 0} (s : Sfu × Client P C) (r : ClientError E ⊎ X)
        (next : X → (Sfu × Client P C) × List (Reply D (ClientError E)))
        → HasPublisher s.1
        → ((x : X) → Kept s (next x).0)
        → Kept s (with_parsed parsers calls s r next).0
    unfolding with_parsed
    with_parsed-Kept s (inl err) next has go = same-Kept s.0 s.1 has
    with_parsed-Kept s (inr x) next has go = go x

    reply_result-same :
        (r : (Sfu × Client P C) × (ClientError E ⊎ D)) → (reply_result parsers calls r).0 ≡ r.0
    unfolding reply_result
    reply_result-same (s, inl err) = refl
    reply_result-same (s, inr desc) = refl

    reply_error-same :
        (r : (Sfu × Client P C) × Option (ClientError E)) → (reply_error parsers calls r).0 ≡ r.0
    unfolding reply_error
    reply_error-same (s, none) = refl
    reply_error-same (s, some err) = refl

    join_unless-refused :
        (made : Made P) (s : Sfu × Client P C) (sid : ℕ) (p : Publisher P C)
        (there : Option (Publisher P C))
        → there ≡ some p
        → join_unless {E = E} made s sid there ≡ (s, some err_transport_exists)
    unfolding join_unless
    join_unless-refused made s sid p there e = rw e refl

    -- The case "join" is refused once there is a publisher; the callbacks are set all the same.
    pub joined-refused :
        (s : Sfu × Client P C) (sid : ℕ) (desc : D)
        → HasPublisher s.1
        → joined parsers calls (calls.join (calls.listen s) sid) desc
          ≡ (calls.listen s, reply_with_error err_transport_exists ∷ [])
    unfolding joined Client.join
    joined-refused s sid desc (p, e) =
        ap (λ r. joined parsers calls r desc)
          (join_unless-refused (world (calls.listen s)) (calls.listen s) sid p s.1.publisher e)

    -- What a request comes to once there is a publisher
    pub handle_params-Kept :
        (s : Sfu × Client P C) (m : Method) (bytes : List ℕ)
        → HasPublisher s.1
        → Kept s (handle_params parsers calls s m bytes).0
    unfolding handle_params Client.join Client.answer Client.set_remote_description Client.trickle
    handle_params-Kept s join bytes has =
        with_parsed-Kept s (parsers.parse_join bytes)
          (λ p. joined parsers calls (calls.join (calls.listen s) p.0) p.1) has
          (λ p.
            subst (Kept s) (sym (ap (λ r. r.0) (joined-refused s p.0 p.1 has)))
              (record { sfu = refl; id = refl; session = refl; has = has }))
    handle_params-Kept s offer bytes has =
        with_parsed-Kept s (parsers.parse_negotiation bytes)
          (λ desc. reply_result parsers calls (calls.answer s desc)) has
          (λ desc.
            subst (Kept s) (sym (reply_result-same (calls.answer s desc)))
              (answer_with-Kept s.0 s.1 desc s.1.publisher has))
    handle_params-Kept s answer bytes has =
        with_parsed-Kept s (parsers.parse_negotiation bytes)
          (λ desc. reply_error parsers calls (calls.set_remote_description s desc)) has
          (λ desc.
            subst (Kept s) (sym (reply_error-same (calls.set_remote_description s desc)))
              (set_remote_with-Kept s.0 s.1 desc s.1.subscriber has))
    handle_params-Kept s trickle bytes has =
        with_parsed-Kept s (parsers.parse_trickle bytes)
          (λ p. reply_error parsers calls (calls.trickle s p.0 p.1)) has
          (λ p.
            subst (Kept s) (sym (reply_error-same (calls.trickle s p.0 p.1)))
              (trickle_with-Kept s.0 s.1 p.0 p.1 s.1.subscriber s.1.publisher has))
    handle_params-Kept s other_method bytes has = same-Kept s.0 s.1 has
