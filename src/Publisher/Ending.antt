-- ===== src/Publisher/Ending.antt =====
-- How a publisher ends: `Close`, and the states of ICE.
use mini_sfu.Base.{
  ◌≡◌, refl, ap, sym, ◌∙◌, Bool, true, false, ◌||◌, List, [], ◌∷◌, ◌++◌, Bool-cases, inl, inr,
  if◌then◌else◌,
}
use mathlib.Core.List.{append-nil}
use mini_sfu.Transport.{Transport}
use mini_sfu.Publisher.{
  Publisher, IceState, Call, stop_router, close_pc, call_handler, is_over, close,
  on_ice_connection_state_change, ice_state_changed,
}

-- a call of `Close` or of `OnICEConnectionStateChange`, or a new state of ICE
pub data Ending : Type 0 where
  closing listening : Ending
  changed : IceState → Ending

-- the calls of a list that end the connection, and the states that the handler gets
abbrev pub closings : List Call → List Call
closings [] = []
closings (stop_router ∷ cs) = stop_router ∷ closings cs
closings (close_pc ∷ cs) = close_pc ∷ closings cs
closings (call_handler state ∷ cs) = closings cs

abbrev pub notified : List Call → List IceState
notified [] = []
notified (stop_router ∷ cs) = notified cs
notified (close_pc ∷ cs) = notified cs
notified (call_handler state ∷ cs) = state ∷ notified cs

closings-append : (cs ds : List Call) → closings (cs ++ ds) ≡ closings cs ++ closings ds
closings-append [] ds = refl
closings-append (stop_router ∷ cs) ds = ap (λ l. stop_router ∷ l) (closings-append cs ds)
closings-append (close_pc ∷ cs) ds = ap (λ l. close_pc ∷ l) (closings-append cs ds)
closings-append (call_handler state ∷ cs) ds = closings-append cs ds

notified-append : (cs ds : List Call) → notified (cs ++ ds) ≡ notified cs ++ notified ds
notified-append [] ds = refl
notified-append (stop_router ∷ cs) ds = notified-append cs ds
notified-append (close_pc ∷ cs) ds = notified-append cs ds
notified-append (call_handler state ∷ cs) ds = ap (λ l. state ∷ l) (notified-append cs ds)

-- whether an event ends the connection, and whether one of a list does
abbrev ends_now : Ending → Bool
ends_now closing = true
ends_now listening = false
ends_now (changed state) = is_over state

abbrev pub ends : List Ending → Bool
ends [] = false
ends (e ∷ es) = ends_now e || ends es

-- What `Close` is to call: for a publisher that is closed or not, and events that end it or not
abbrev pub calls_of_close : Bool → Bool → List Call
calls_of_close true over = []
calls_of_close false false = []
calls_of_close false true = stop_router ∷ close_pc ∷ []

-- the states that a handler is to get, which listens or not
abbrev pub heard : Bool → List Ending → List IceState
heard listens [] = []
heard listens (closing ∷ es) = heard listens es
heard listens (listening ∷ es) = heard true es
heard true (changed state ∷ es) = state ∷ heard true es
heard false (changed state ∷ es) = heard false es

calls_of_close-append :
    (closed now later : Bool)
    → calls_of_close closed now ++ calls_of_close (closed || now) later
      ≡ calls_of_close closed (now || later)
calls_of_close-append true now later = refl
calls_of_close-append false true later = refl
calls_of_close-append false false later = refl

or-false : (b : Bool) → b ≡ (b || false)
or-false true = refl
or-false false = refl

calls_of_close-none : (closed : Bool) → [] ≡ calls_of_close closed false
calls_of_close-none true = refl
calls_of_close-none false = refl

-- the call of the handler for a state, after the other calls
abbrev handling : Bool → IceState → List Call
handling listens state = if listens then call_handler state ∷ [] else []

handling-states :
    (listens : Bool) (state : IceState) (es : List Ending)
    → notified (handling listens state) ++ heard listens es ≡ heard listens (changed state ∷ es)
handling-states true state es = refl
handling-states false state es = refl

handling-closings : (listens : Bool) (state : IceState) → closings (handling listens state) ≡ []
handling-closings true state = refl
handling-closings false state = refl

or_assoc : (a b c : Bool) → ((a || b) || c) ≡ (a || (b || c))
or_assoc true b c = refl
or_assoc false b c = refl

module _ {P D C E : Type 0} (t : Transport P D C E) where
  unfoldable pub step : Publisher P C → Ending → Publisher P C × List Call
  step p closing = close t p
  step p listening = (on_ice_connection_state_change p, [])
  step p (changed state) = ice_state_changed t p state

  unfoldable pub run : Publisher P C → List Ending → Publisher P C × List Call
  run p [] = (p, [])
  run p (e ∷ es) = let (p', calls) = step p e in let (q, later) = run p' es in (q, calls ++ later)

  -- What a step does to a publisher.
  record Steps (p : Publisher P C) (e : Ending) (r : Publisher P C × List Call) : Type 0 where
    now_closed : r.0.closed ≡ (p.closed || ends_now e)
    closing_calls : closings r.1 ≡ calls_of_close p.closed (ends_now e)
    states :
        (es : List Ending) → notified r.1 ++ heard r.0.has_handler es ≡ heard p.has_handler (e ∷ es)

  close-Steps : (p : Publisher P C) → Steps p closing (close t p)
  unfolding close
  close-Steps p = elim (Bool-cases p.closed) [
    | inl was ↦ rw was (record { now_closed = refl; closing_calls = refl; states = λ es. refl })
    | inr not_yet ↦
        rw not_yet (record { now_closed = refl; closing_calls = refl; states = λ es. refl })
  ]

  close-quiet :
      (p : Publisher P C)
      → (notified (close t p).1 ≡ []) × ((close t p).0.has_handler ≡ p.has_handler)
  unfolding close
  close-quiet p = elim (Bool-cases p.closed) [
    | inl was ↦ rw was (refl, refl)
    | inr not_yet ↦ rw not_yet (refl, refl)
  ]

  ice_state_changed-Steps :
      (p : Publisher P C) (state : IceState) → Steps p (changed state) (ice_state_changed t p state)
  unfolding ice_state_changed
  ice_state_changed-Steps p state = elim (Bool-cases (is_over state)) [
    | inl over ↦
        let ended = close-Steps p in
        let (quiet, same) = close-quiet p in
        let (q, calls) = close t p in
        let last = handling q.has_handler state in
        rw over (record {
          now_closed = ended.now_closed ∙ ap (λ b. p.closed || b) (sym over);
          closing_calls =
              closings-append calls last
              ∙ ap (λ l. closings calls ++ l) (handling-closings q.has_handler state)
              ∙ append-nil (closings calls)
              ∙ ended.closing_calls
              ∙ ap (calls_of_close p.closed) (sym over);
          states = λ es.
              ap (λ l. l ++ heard q.has_handler es)
                (notified-append calls last ∙ ap (λ l. l ++ notified last) quiet)
              ∙ handling-states q.has_handler state es
              ∙ ap (λ b. heard b (changed state ∷ es)) same;
        })
    | inr goes ↦ rw goes (record {
      now_closed = or-false p.closed ∙ ap (λ b. p.closed || b) (sym goes);
      closing_calls =
          handling-closings p.has_handler state
          ∙ calls_of_close-none p.closed
          ∙ ap (calls_of_close p.closed) (sym goes);
      states = λ es. handling-states p.has_handler state es;
    })
  ]

  step-Steps : (p : Publisher P C) (e : Ending) → Steps p e (step p e)
  unfolding step
  step-Steps p closing = close-Steps p
  step-Steps p (changed state) = ice_state_changed-Steps p state
  step-Steps p listening = record {
    now_closed = or-false p.closed;
    closing_calls = calls_of_close-none p.closed;
    states = λ es. refl;
  }

  -- Over any run of a publisher: it is closed in the end if it was or if some event ends it; the router
  -- is stopped and the connection closed once, in this order, by the first event that ends an open
  -- publisher, and never again; and the handler gets every state from the one after its
  -- registration on, in order, whether or not the publisher is closed.
  pub run-ends :
      (p : Publisher P C) (es : List Ending)
      → let (q, calls) = run p es in
        (q.closed ≡ (p.closed || ends es))
        × (closings calls ≡ calls_of_close p.closed (ends es))
        × (notified calls ≡ heard p.has_handler es)
  unfolding run
  run-ends p [] = (or-false p.closed, calls_of_close-none p.closed, refl)
  run-ends p (e ∷ es) =
      let one = step-Steps p e in
      let (q, calls) = step p e in
      let (closed, closing_calls, states) = run-ends q es in
      let later = (run q es).1 in
      (
        closed ∙ ap (λ b. b || ends es) one.now_closed ∙ or_assoc p.closed (ends_now e) (ends es),
        closings-append calls later
            ∙ ap (λ l. closings calls ++ l) closing_calls
            ∙ ap (λ l. l ++ calls_of_close q.closed (ends es)) one.closing_calls
            ∙ ap (λ b. calls_of_close p.closed (ends_now e) ++ calls_of_close b (ends es))
                one.now_closed
            ∙ calls_of_close-append p.closed (ends_now e) (ends es),
        notified-append calls later ∙ ap (λ l. notified calls ++ l) states ∙ one.states es,
      )
