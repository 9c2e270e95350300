-- ===== src/Sfu/Tests.antt =====
-- Runs of sfu.go and session.go, and the theorems at them.
use mini_sfu.Base.{◌≡◌, refl, none, some, true, false, [], ◌∷◌, length, arith}
use mini_sfu.Base.Maps.{lookup}
use mini_sfu.Sfu.{Sfu, session_at, new_sfu, new_session, get_session, add_peer, leave, remove_peer}
use mini_sfu.Sfu.Joining.{join, all_made, err_peer_connection_init_failed, join_meets}
use mini_sfu.Sfu.Sessions.{IsValid, Reachable, start, step, gets, adds, reachable-IsValid}

-- peer 1 has joined the session 9
abbrev one_peer : Sfu
one_peer = add_peer (get_session new_sfu 9).0 0 1

one_peer-Reachable : Reachable one_peer
one_peer-Reachable =
    step (get_session new_sfu 9).0 one_peer (step new_sfu _ start (gets new_sfu 9))
      (adds (get_session new_sfu 9).0 0 1)

same_session : (get_session one_peer 9).1 ≡ 0
unfolding add_peer get_session new_session
same_session = refl

ended : lookup 9 (remove_peer one_peer 0 1).table ≡ none
unfolding add_peer get_session new_session remove_peer leave
ended = refl

reachable-IsValid_example : IsValid one_peer
reachable-IsValid_example = reachable-IsValid one_peer one_peer-Reachable

empty-IsValid : IsValid new_sfu
empty-IsValid = reachable-IsValid new_sfu start

-- A peer whose connection is not made is in no session, but the session is there.
failed_join :
    ((join new_sfu 7 1 false true []).2 ≡ some err_peer_connection_init_failed)
    × (length (join new_sfu 7 1 false true []).0.heap ≡ 1)
unfolding join get_session new_session
failed_join = (refl, refl)

channels_made : all_made (true ∷ []) ≡ true
unfolding all_made
channels_made = refl

join_meets_example :
    let first = join new_sfu 7 1 true true (true ∷ []) in
    let (s', p, error) = join first.0 7 2 true true (true ∷ []) in
    (error ≡ none)
    × (lookup 7 s'.table ≡ some p)
    × (lookup 1 (session_at s' p).peers ≡ some 1)
    × (lookup 2 (session_at s' p).peers ≡ some 2)
join_meets_example =
    join_meets new_sfu 7 1 2 (true ∷ []) empty-IsValid (λ e. absurd (omega arith)) channels_made
