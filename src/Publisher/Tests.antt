-- ===== src/Publisher/Tests.antt =====
-- publisher.go with a connection that notes what it is handed, and the theorems at it.
use mini_sfu.Base.{
  ℕ, zero, suc, ◌+◌, ◌==◌, ◌≡◌, refl, ap, Bool, true, false, ◌⊎◌, Option, none, some, List, [], ◌∷◌,
  ◌++◌, inl, inr, if◌then◌else◌, arith,
}
use mini_sfu.Transport.{Transport, Observed, give_candidates}
use mini_sfu.Router.{UpTrack, new_router, add_receiver, wire_twcc, publish}
use mini_sfu.Router.Session.{always, always-Accepts}
use mini_sfu.Publisher.{
  new_publisher, ice_connected, ice_failed, ice_closed, stop_router, close_pc, call_handler,
  is_over, close, ice_state_changed, answer, remote_set, answer_created, set_local,
  add_ice_candidate, on_track,
}
use mini_sfu.Publisher.Answering
use mini_sfu.Publisher.Answering.{Signal, trickled, offered, trickles, run-new_publisher}
use mini_sfu.Publisher.Ending
use mini_sfu.Publisher.Ending.{
  Ending, closing, listening, changed, closings, notified, ends, calls_of_close, heard, run-ends,
}
use mini_sfu.Publisher.Exchange.{IsComplete}
use mini_sfu.Publisher.Complete
use mini_sfu.Publisher.Complete.{
  Happening, peer_joins, track_comes, AllOrderly, happen, enter, run-IsComplete,
}

-- A connection with the description it has and the candidates that it was handed; it refuses the
-- description 0, and cannot answer the description 1.
record Noting : Type 0 where
  remote : Option ℕ
  log : List ℕ

abbrev has_remote : Option ℕ → Bool
has_remote none = false
has_remote (some d) = true

abbrev take : Noting → ℕ → Noting × Option ℕ
take p zero = (p, some 7)
take p (suc d) = (record p { remote = some (suc d) }, none)

abbrev reply : Noting → Option ℕ → Noting × (ℕ ⊎ ℕ)
reply p none = (p, inl 8)
reply p (some d) = (p, if d == 1 then inl 8 else inr (d + 100))

abbrev noting : Transport Noting ℕ ℕ ℕ
noting = record {
  set_remote_description = take;
  has_remote_description = λ p. has_remote p.remote;
  add_ice_candidate = λ p c. (record p { log = p.log ++ (c ∷ []) }, none);
  create_answer = λ p. reply p p.remote;
  create_offer = λ p. (p, inl 8);
  set_local_description = λ p d. (p, none);
  is_stable = λ p. true;
  close = λ p. (p, none);
}

reply-same : (p : Noting) (d : Option ℕ) → (reply p d).0 ≡ p
reply-same p none = refl
reply-same p (some d) = refl

noting-Observed : Observed noting
noting-Observed = record {
  handed = λ p. p.log;
  accepted = accepted;
  refused = refused;
  candidate = λ p c. (refl, refl);
  created = λ p. (
    ap (λ (q : Noting). has_remote q.remote) (reply-same p p.remote),
    ap (λ (q : Noting). q.log) (reply-same p p.remote),
  );
  local = λ p d. (refl, refl);
}
  where
    accepted :
        (p : Noting) (d : ℕ)
        → (take p d).1 ≡ none
        → (has_remote (take p d).0.remote ≡ true) × ((take p d).0.log ≡ p.log)
    accepted p zero e = absurd (cc)
    accepted p (suc d) e = (refl, refl)

    refused :
        (p : Noting) (d e : ℕ)
        → (take p d).1 ≡ some e
        → (has_remote (take p d).0.remote ≡ has_remote p.remote) × ((take p d).0.log ≡ p.log)
    refused p zero e h = (refl, refl)
    refused p (suc d) e h = absurd (cc)

abbrev fresh : Noting
fresh = record { remote = none; log = [] }

-- A candidate before an offer that is refused, one before an offer that cannot be answered, and one
-- after it
abbrev signals : List (Signal ℕ ℕ)
signals = trickled 20 ∷ offered 0 ∷ trickled 21 ∷ offered 1 ∷ trickled 22 ∷ []

handed_on : (Answering.run noting (new_publisher 3 fresh) signals).pc.log ≡ 20 ∷ 21 ∷ 22 ∷ []
unfolding Answering.run add_ice_candidate answer remote_set answer_created set_local give_candidates
handed_on = refl

run-new_publisher_example :
    let p = Answering.run noting (new_publisher 3 fresh) signals in
    (p.pc.log ++ p.candidates ≡ 20 ∷ 21 ∷ 22 ∷ [])
    × (has_remote p.pc.remote ≡ true → p.candidates ≡ [])
unfolding noting-Observed
run-new_publisher_example = run-new_publisher noting noting-Observed 3 fresh signals refl refl

abbrev endings : List Ending
endings = changed ice_connected ∷ listening ∷ changed ice_failed ∷ closing ∷ changed ice_closed ∷ []

calls :
    (Ending.run noting (new_publisher 3 fresh) endings).1
    ≡ stop_router ∷ close_pc ∷ call_handler ice_failed ∷ call_handler ice_closed ∷ []
unfolding Ending.run Ending.step close ice_state_changed is_over
calls = refl

run-ends_example :
    let (q, calls) = Ending.run noting (new_publisher 3 fresh) endings in
    (q.closed ≡ true)
    × (closings calls ≡ stop_router ∷ close_pc ∷ [])
    × (notified calls ≡ ice_failed ∷ ice_closed ∷ [])
unfolding is_over
run-ends_example = run-ends noting (new_publisher 3 fresh) endings

abbrev camera : UpTrack
camera = record { id = 4; ssrc = 40; stream_id = 1; clock_rate = 90000; is_video = true }

-- Two peers join, the first publishes, and a third joins.
abbrev happenings : List Happening
happenings =
    peer_joins always (λ label. none) [] [] 9
    ∷ peer_joins always (λ label. none) [] [] 5
    ∷ track_comes (new_router 9) camera (λ id. always)
    ∷ peer_joins always (λ label. none) [] [] 6
    ∷ []

orderly : AllOrderly [] happenings
unfolding AllOrderly happen enter on_track add_receiver wire_twcc publish
orderly = (
  (refl, always-Accepts),
  (
    (refl, always-Accepts),
    (
      ((λ id. always-Accepts), ((λ e. absurd (omega (arith, e))), ((λ e. refl), tt))),
      ((refl, always-Accepts), tt),
    ),
  ),
)

run-IsComplete_example : IsComplete (Complete.run [] happenings)
run-IsComplete_example = run-IsComplete [] happenings orderly tt
