-- ===== src/Publisher/Answering.antt =====
-- The candidates of a publisher, over any connection, and its end.
use mini_sfu.Base.{
  ℕ, ◌≡◌, refl, ap, subst, sym, ◌∙◌, Bool, true, false, Option, none, some, List, [], ◌∷◌, ◌++◌,
  ◌⊎◌, inl, inr, Bool-cases,
}
use mini_sfu.Peer
use mini_sfu.Peer.{Connection, new_connection}
use mini_sfu.Peer.Candidates.{Event, candidate, description, Settled, sent, run-new_connection}
use mini_sfu.Peer.Candidates
use mini_sfu.Transport.{Transport, Observed, give_candidates, give_candidates-handed}
use mini_sfu.Publisher.{
  Publisher, new_publisher, set_local, answer_created, remote_set, answer, add_ice_candidate,
}

-- what comes for a publisher: a candidate, or an offer
pub data Signal (D C : Type 0) : Type 0 where
  trickled : C → Signal D C
  offered : D → Signal D C

module _ {P D C E : Type 0} (t : Transport P D C E) where
  unfoldable pub run : Publisher P C → List (Signal D C) → Publisher P C
  run p [] = p
  run p (trickled c ∷ es) = run (add_ice_candidate t p c).0 es
  run p (offered d ∷ es) = run (answer t p d).0 es

module _ {P D C E : Type 0} (t : Transport P D C E) (o : Observed t) where
  -- what the candidates of a publisher come to
  abbrev pub view : Publisher P C → Connection C
  view p = record {
    has_remote = t.has_remote_description p.pc;
    candidates = p.candidates;
    given = o.handed p.pc;
  }

  view-of :
      (p : Publisher P C) (q : Connection C)
      → t.has_remote_description p.pc ≡ q.has_remote
      → p.candidates ≡ q.candidates
      → o.handed p.pc ≡ q.given
      → view p ≡ q
  view-of p q a b c = rw (a, b, c) refl

  add_ice_candidate-view :
      (p : Publisher P C) (c : C)
      → view (add_ice_candidate t p c).0 ≡ Peer.add_ice_candidate (view p) c
  unfolding add_ice_candidate Peer.add_ice_candidate
  add_ice_candidate-view p c =
      let (same, handed) = o.candidate p.pc c in
      elim (Bool-cases (t.has_remote_description p.pc)) [
        | inl there ↦ rw there (
            view-of (record p { pc = (t.add_ice_candidate p.pc c).0 }) _ (same ∙ there) refl handed)
        | inr absent ↦
            rw absent
              (view-of (record p { candidates = p.candidates ++ (c ∷ []) }) _ absent refl refl)
      ]

  -- the calls after the candidates were given leave what can be observed
  set_local-view :
      (p : Publisher P C) (desc : D) (r : P × Option E)
      → view (set_local t p desc r).0 ≡ view (record p { pc = r.0 })
  unfolding set_local
  set_local-view p desc (pc, some err) = refl
  set_local-view p desc (pc, none) = refl

  answer_created-view :
      (p : Publisher P C) (r : P × (E ⊎ D))
      → view (answer_created t p r).0 ≡ view (record p { pc = r.0 })
  unfolding answer_created
  answer_created-view p (pc, inl err) = refl
  answer_created-view p (pc, inr desc) =
      let (same, handed) = o.local pc desc in
      set_local-view p desc (t.set_local_description pc desc)
      ∙ view-of (record p { pc = (t.set_local_description pc desc).0 })
          (view (record p { pc = pc })) same refl handed

  given-view :
      (p : Publisher P C) (pc : P)
      → t.has_remote_description pc ≡ true
      → o.handed pc ≡ o.handed p.pc
      → view (remote_set t p (pc, none)).0 ≡ Peer.set_remote (view p) true
  unfolding remote_set Peer.set_remote
  given-view p pc there kept =
      let given = give_candidates t pc p.candidates in
      let (has, handed) = give_candidates-handed t o pc p.candidates in
      let (same, handed') = o.created given in
      answer_created-view (record p { candidates = [] }) (t.create_answer given)
      ∙ view-of (record p { candidates = []; pc = (t.create_answer given).0 })
          (Peer.set_remote (view p) true) (same ∙ has ∙ there) refl
          (handed' ∙ handed ∙ ap (λ l. l ++ p.candidates) kept)

  -- whether `SetRemoteDescription` returned no error
  abbrev is_accepted : Option E → Bool
  is_accepted none = true
  is_accepted (some err) = false

  remote_set-view :
      (p : Publisher P C) (d : D) (r : P × Option E)
      → t.set_remote_description p.pc d ≡ r
      → view (remote_set t p r).0 ≡ Peer.set_remote (view p) (is_accepted r.1)
  unfolding remote_set Peer.set_remote
  remote_set-view p d (pc, none) e =
      let (there, kept) = o.accepted p.pc d (ap (λ r. r.1) e) in
      let to : (t.set_remote_description p.pc d).0 ≡ pc = ap (λ r. r.0) e in
      given-view p pc (sym (ap t.has_remote_description to) ∙ there) (sym (ap o.handed to) ∙ kept)
  remote_set-view p d (pc, some err) e =
      let (same, kept) = o.refused p.pc d err (ap (λ r. r.1) e) in
      let to : (t.set_remote_description p.pc d).0 ≡ pc = ap (λ r. r.0) e in
      view-of (record p { pc = pc }) (view p) (sym (ap t.has_remote_description to) ∙ same) refl
        (sym (ap o.handed to) ∙ kept)

  answer-view :
      (p : Publisher P C) (d : D)
      → view (answer t p d).0
        ≡ Peer.set_remote (view p) (is_accepted ((t.set_remote_description p.pc d).1))
  unfolding answer
  answer-view p d = remote_set-view p d (t.set_remote_description p.pc d) refl

  -- the candidates that came
  abbrev pub trickles : List (Signal D C) → List C
  trickles [] = []
  trickles (trickled c ∷ es) = c ∷ trickles es
  trickles (offered d ∷ es) = trickles es

  -- a run, as the candidates see it
  events : Publisher P C → List (Signal D C) → List (Event C)
  events p [] = []
  events p (trickled c ∷ es) = candidate c ∷ events (add_ice_candidate t p c).0 es
  events p (offered d ∷ es) =
      description (is_accepted ((t.set_remote_description p.pc d).1)) ∷ events (answer t p d).0 es

  run-view :
      (p : Publisher P C) (es : List (Signal D C))
      → (view (run t p es) ≡ Candidates.run (view p) (events p es))
        × (sent (events p es) ≡ trickles es)
  unfolding run events Candidates.run
  run-view p [] = (refl, refl)
  run-view p (trickled c ∷ es) =
      let (seen, same) = run-view (add_ice_candidate t p c).0 es in
      (
        seen
            ∙ ap (λ q. Candidates.run q (events (add_ice_candidate t p c).0 es))
                (add_ice_candidate-view p c),
        ap (λ l. c ∷ l) same,
      )
  run-view p (offered d ∷ es) =
      let (seen, same) = run-view (answer t p d).0 es in
      (seen ∙ ap (λ q. Candidates.run q (events (answer t p d).0 es)) (answer-view p d), same)

  -- Over any connection with these laws that has no remote description yet, whatever the order of
  -- candidates and offers and whichever calls of the connection fail: those that the connection was
  -- handed and then those that wait are the candidates that came, in their order and once each; and
  -- once there is a remote description none waits.
  pub run-new_publisher :
      (id : ℕ) (pc : P) (es : List (Signal D C))
      → t.has_remote_description pc ≡ false
      → o.handed pc ≡ []
      → let p = run t (new_publisher id pc) es in
        (o.handed p.pc ++ p.candidates ≡ trickles es)
        × (t.has_remote_description p.pc ≡ true → p.candidates ≡ [])
  run-new_publisher id pc es absent nothing =
      let p = new_publisher id pc in
      let (seen, same) = run-view p es in
      let start : view p ≡ new_connection = view-of p new_connection absent refl nothing in
      let (all, settled) = run-new_connection (events p es) in
      let there : view (run t p es) ≡ Candidates.run new_connection (events p es) =
        seen ∙ ap (λ q. Candidates.run q (events p es)) start in
      (
        ap (λ (q : Connection C). q.given ++ q.candidates) there ∙ all ∙ same,
        subst Settled (sym there) settled,
      )
