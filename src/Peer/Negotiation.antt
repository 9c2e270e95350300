-- ===== src/Peer/Negotiation.antt =====
-- Runs of a peer's negotiation.
use mini_sfu.Base.{ℕ, ◌+◌, ◌≤◌, ◌≡◌, refl, ◌∙◌, Bool, true, false, ◌&&◌, if◌then◌else◌, ◌⊎◌, arith}
use mini_sfu.Peer.{
  Peer, new_peer, negotiate, on_negotiation_needed, timer_fires, set_remote_description, close,
}

-- What is counted along a run: offers created, those handed to the client, and answers taken; `wanted`
-- says that a negotiation was asked for since the last attempt to create an offer.
pub record Run : Type 0 where
  pub peer : Peer
  pub offers : ℕ
  pub sent : ℕ
  pub answers : ℕ
  pub wanted : Bool

-- the run after its timer runs out, if `CreateOffer` succeeds or fails, and after an answer is taken
abbrev pub after_fired : Run → Bool → Run
after_fired r creates =
    let offer = (timer_fires r.peer creates).1 in
    record r {
      peer = (timer_fires r.peer creates).0;
      offers = if offer.created then r.offers + 1 else r.offers;
      sent = if offer.sent then r.sent + 1 else r.sent;
      wanted = r.wanted && r.peer.remote_answer_pending;
    }

abbrev after_taken : Run → Run
after_taken r = record r { peer = (set_remote_description r.peer true).0; answers = r.answers + 1 }

-- One event. A connection takes an answer only if it has an offer of its own without an answer.
-- `CreateOffer` may fail at any time, as it does on a closed connection.
pub data Step : Run → Run → Type 0 where
  asked : (r : Run) → Step r (record r { peer = negotiate r.peer; wanted = true })
  fired : (r : Run) (creates : Bool) → r.peer.timer_set ≡ true → Step r (after_fired r creates)
  refused : (r : Run) → Step r (record r { peer = (set_remote_description r.peer false).0 })
  taken : (r : Run) → r.answers + 1 ≤ r.offers → Step r (after_taken r)
  closed : (r : Run) → Step r (record r { peer = close r.peer })

pub data Reachable : Run → Type 0 where
  start :
      (has_on_offer : Bool)
      → Reachable (record {
        peer = new_peer has_on_offer;
        offers = 0;
        sent = 0;
        answers = 0;
        wanted = false;
      })
  step : (r r' : Run) → Reachable r → Step r r' → Reachable r'

-- One offer at most is without an answer, exactly when the peer waits for one; and a negotiation
-- that is wanted has its timer, or waits for the answer.
pub record Inv (r : Run) : Type 0 where
  pub outstanding : r.offers ≡ r.answers + (if r.peer.remote_answer_pending then 1 else 0)
  pub handed : r.sent ≤ r.offers
  pub pending :
      r.wanted ≡ true
      → (r.peer.timer_set ≡ true)
        ⊎ ((r.peer.negotiation_pending ≡ true) × (r.peer.remote_answer_pending ≡ true))

-- events, one after the other
pub data Steps : Run → Run → Type 0 where
  stop : (r : Run) → Steps r r
  go : (r r' r'' : Run) → Step r r' → Steps r' r'' → Steps r r''

silent_step :
    (r r' : Run) → Step r r' → r.peer.closed ≡ true → (r'.sent ≡ r.sent) × (r'.peer.closed ≡ true)
unfolding negotiate on_negotiation_needed timer_fires set_remote_description close
silent_step _ _ (asked r) c = (refl, c)
silent_step _ _ (fired r creates set) c = (ground (arith, c), ground (arith, c))
silent_step _ _ (refused r) c = (refl, c)
silent_step _ _ (taken r due) c = (refl, ground (arith, c))
silent_step _ _ (closed r) c = (refl, refl)

-- Once a peer is closed its client gets no offer.
pub stays_silent : (r r' : Run) → Steps r r' → r.peer.closed ≡ true → r'.sent ≡ r.sent
stays_silent _ _ (stop r) c = refl
stays_silent _ _ (go r r' r'' first rest) c =
    let (same, c') = silent_step r r' first c in stays_silent r' r'' rest c' ∙ same

-- The peer is open and has a callback for its offers.
pub record IsOpen (r : Run) : Type 0 where
  pub not_closed : r.peer.closed ≡ false
  pub listens : r.peer.has_on_offer ≡ true

-- one more offer is handed to the client, and none is wanted any more
abbrev pub HasOffer : Run → Type 0
HasOffer r = (r' : Run) × Steps r r' × (r'.sent ≡ r.sent + 1) × (r'.wanted ≡ false)
