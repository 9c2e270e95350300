-- ===== src/Client/Tests.antt =====
-- A client with connections that accept everything.
use mini_sfu.Base.{
  ℕ, ◌≡◌, refl, Bool, true, false, none, some, List, [], ◌∷◌, ◌⊎◌, inl, inr, All, arith,
}
use mini_sfu.Peer.{new_peer, negotiate}
use mini_sfu.Peer.Negotiation.{Run, Steps, stop, go, asked}
use mini_sfu.Publisher
use mini_sfu.Publisher.{new_publisher}
use mini_sfu.Sfu.{Sfu, new_sfu, get_session, new_session, add_peer}
use mini_sfu.Sfu.Joining
use mini_sfu.Sfu.Joining.{err_default_channel}
use mini_sfu.Signal.{
  Method, join, offer, Request, Parsers, Reply, reply_with_error, reply, handle, handle_params,
  with_parsed, joined, reply_result,
}
use mini_sfu.Transport.{Transport, give_candidates}
use mini_sfu.Client
use mini_sfu.Client.{
  Client, new_client, new_link, ClientError, err_transport_exists, err_no_transport_established,
  err_setting_ice_candidate, err_join, Made, connected, join_unless, answered, answer_with,
}
use mini_sfu.Client.Requests.{Kept, calls}
use mini_sfu.Client.Serving.{IsRefused, Serves, no_more, next, Serves-Kept}
use mini_sfu.Client.Closing.{IsOut, closed_publisher, closed_link, close_lasts}

abbrev easy : Transport Bool ℕ ℕ ℕ
easy = record {
  set_remote_description = λ p d. (true, none);
  has_remote_description = λ p. p;
  add_ice_candidate = λ p c. (p, none);
  create_answer = λ p. (p, inr 50);
  create_offer = λ p. (p, inr 51);
  set_local_description = λ p d. (p, none);
  is_stable = λ p. true;
  close = λ p. (p, none);
}

abbrev parsers : Parsers ℕ ℕ (ClientError ℕ)
parsers = record { parse_join = pair; parse_negotiation = one; parse_trickle = pair }
  where
    one : List ℕ → ClientError ℕ ⊎ ℕ
    one [] = inl (err_setting_ice_candidate 400)
    one (x ∷ xs) = inr x

    pair : List ℕ → ClientError ℕ ⊎ (ℕ × ℕ)
    pair (x ∷ y ∷ xs) = inr (x, y)
    pair xs = inl (err_setting_ice_candidate 400)

abbrev world : Sfu × Client Bool ℕ → Made Bool
world s = record {
  pid = 9;
  subscriber_pc = some false;
  publisher_pc = some false;
  channels = true ∷ [];
}

abbrev request : Method → List ℕ → Request
request m bytes = record { method = m; params = some bytes }

abbrev start : Sfu × Client Bool ℕ
start = (new_sfu, new_client)

-- An offer before a join is refused, and the join is answered.
early :
    handle parsers (calls easy world parsers) start (request offer (1 ∷ []))
    ≡ some (start, reply_with_error err_no_transport_established ∷ [])
unfolding handle handle_params with_parsed reply_result Client.answer answer_with
early = refl

answers_join :
    (handle_params parsers (calls easy world parsers) start join (7 ∷ 1 ∷ [])).1 ≡ reply 50 ∷ []
unfolding handle_params with_parsed joined reply_result Client.join join_unless Client.answer
    answer_with answered connected Joining.join Joining.all_made get_session new_session add_peer
    Publisher.answer Publisher.remote_set Publisher.answer_created Publisher.set_local
    give_candidates
answers_join = refl

-- A `Join` whose default channel fails leaves a publisher behind, so that the next is refused, though no
-- session has the peer.
abbrev unlucky : Sfu × Client Bool ℕ → Made Bool
unlucky s = record {
  pid = 9;
  subscriber_pc = some false;
  publisher_pc = some false;
  channels = false ∷ [];
}

never_again :
    let failed = Client.join {E = ℕ} (unlucky start) start 7 in
    (failed.1 ≡ some (err_join err_default_channel))
    × ((Client.join {E = ℕ} (world failed.0) failed.0 7).1 ≡ some err_transport_exists)
unfolding Client.join join_unless connected Joining.join Joining.all_made get_session new_session
    add_peer
never_again = (refl, refl)

abbrev inside : Sfu × Client Bool ℕ
inside = (
  record {
    heap = record { id = 7; peers = (9, 9) ∷ []; closed = false } ∷ [];
    table = (7, 0) ∷ [];
  },
  record {
    id = 9;
    session = some 0;
    publisher = some (new_publisher 9 false);
    subscriber = some (new_link false);
    negotiation = new_peer true;
  },
)

abbrev history : List (Request × List (Reply ℕ (ClientError ℕ)))
history =
    (request join (8 ∷ 1 ∷ []), reply_with_error err_transport_exists ∷ [])
    ∷ (request offer [], reply_with_error (err_setting_ice_candidate 400) ∷ [])
    ∷ []

served : Serves easy world parsers inside history inside
unfolding handle handle_params with_parsed joined Client.join join_unless
served =
    next inside (request join (8 ∷ 1 ∷ [])) inside (reply_with_error err_transport_exists ∷ [])
      ((request offer [], reply_with_error (err_setting_ice_candidate 400) ∷ []) ∷ []) inside refl
      (next inside (request offer []) inside (reply_with_error (err_setting_ice_candidate 400) ∷ [])
        [] inside refl (no_more inside))

Serves-Kept_example :
    Kept easy inside inside
    × All
        (λ (e : Request × List (Reply ℕ (ClientError ℕ))).
          IsRefused easy world parsers e.0.method e.1)
        history
Serves-Kept_example =
    Serves-Kept easy world parsers inside history inside (new_publisher 9 false, refl) served

abbrev silent : Run
silent = record {
  peer = (Client.close easy inside).1.negotiation;
  offers = 1;
  sent = 1;
  answers = 1;
  wanted = false;
}

abbrev asked_late : Run
asked_late = record silent { peer = negotiate silent.peer; wanted = true }

-- A negotiation is asked for after the end.
too_late : Steps silent asked_late
too_late = go silent asked_late asked_late (asked silent) (stop asked_late)

close_lasts_example :
    let s' = Client.close easy inside in
    (asked_late.sent ≡ 1)
    × IsOut s'.0 (some 0) 9
    × (s'.1.publisher ≡ closed_publisher easy (some (new_publisher 9 false)))
    × (s'.1.subscriber ≡ closed_link easy (some (new_link false)))
    × (Client.close easy s' ≡ s')
close_lasts_example = close_lasts easy inside 1 1 1 false asked_late (omega arith) too_late
