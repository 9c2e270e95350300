-- ===== src/Signal/Tests.antt =====
-- A peer that counts the descriptions it takes, and the theorem at it.
use mini_sfu.Base.{ℕ, zero, suc, ◌≡◌, ◌≢◌, refl, Option, none, some, List, [], ◌∷◌, ◌⊎◌, inl, inr}
use mini_sfu.Signal.{
  join, offer, other_method, Request, Parsers, PeerCalls, Reply, reply_with_error, reply, handle,
  handle_params, with_parsed, joined, reply_result,
}
use mini_sfu.Signal.Replies.{IsExpected, handle-IsExpected}

abbrev parsers : Parsers ℕ ℕ ℕ
parsers = record { parse_join = pair; parse_negotiation = one; parse_trickle = pair }
  where
    one : List ℕ → ℕ ⊎ ℕ
    one [] = inl 400
    one (x ∷ xs) = inr x

    pair : List ℕ → ℕ ⊎ (ℕ × ℕ)
    pair (x ∷ y ∷ xs) = inr (x, y)
    pair xs = inl 400

abbrev peer : PeerCalls ℕ ℕ ℕ ℕ
peer = record {
  listen = λ s. s;
  join = λ s sid. (s, if_known sid);
  answer = λ s desc. (suc s, inr desc);
  set_remote_description = λ s desc. (suc s, none);
  trickle = λ s candidate target. (s, none);
}
  where
    if_known : ℕ → Option ℕ
    if_known zero = some 500
    if_known (suc n) = none

abbrev joining : Request
joining = record { method = join; params = some (7 ∷ 9 ∷ []) }

joins : handle parsers peer 0 joining ≡ some (1, reply 9 ∷ [])
unfolding handle handle_params with_parsed joined reply_result
joins = refl

-- A session that is not joined, and parameters that are missing.
refused :
    handle parsers peer 0 (record { method = join; params = some (0 ∷ 9 ∷ []) })
    ≡ some (0, reply_with_error 500 ∷ [])
unfolding handle handle_params with_parsed joined
refused = refl

bare : handle parsers peer 0 (record { method = offer; params = none }) ≡ none
unfolding handle
bare = refl

handle-IsExpected_example :
    ((r : ℕ × List (Reply ℕ ℕ)) × (handle parsers peer 0 joining ≡ some r) × IsExpected join r.1)
    ⊎ ((joining.params ≡ none) × (join ≢ other_method) × (handle parsers peer 0 joining ≡ none))
handle-IsExpected_example = handle-IsExpected parsers peer 0 joining
