-- ===== src/Peer/Tests.antt =====
-- Runs of a peer, and the theorems at them.
use mini_sfu.Base.{ℕ, ◌≡◌, refl, true, false, List, [], ◌∷◌}
use mini_sfu.Peer.{new_peer, negotiate, on_negotiation_needed, timer_fires, set_remote_description}
use mini_sfu.Peer.Negotiation.{Run}
use mini_sfu.Peer.Candidates.{Event, candidate, description}

-- A negotiation that is asked for while an answer is awaited is made up for after the answer.
two_negotiations :
    let p = (timer_fires (negotiate (new_peer true)) true).0 in
    let q = (timer_fires (negotiate p) true).0 in
    (timer_fires (set_remote_description q true).0 true).1.sent ≡ true
unfolding negotiate timer_fires on_negotiation_needed set_remote_description
two_negotiations = refl

abbrev at_start : Run
at_start = record { peer = new_peer true; offers = 0; sent = 0; answers = 0; wanted = false }

abbrev once_asked : Run
once_asked = record at_start { peer = negotiate (new_peer true); wanted = true }

abbrev early_candidate : List (Event ℕ)
early_candidate = candidate 4 ∷ description false ∷ description true ∷ candidate 5 ∷ []
