-- ===== src/Buffer/Calls/Closing.antt =====
-- The end of a buffer is final.
use mini_sfu.Base.{
  ℕ, ◌≡◌, refl, ap, ◌∙◌, Bool, true, false, arith, Option, some, List, [], ◌∷◌, ◌++◌, if◌then◌else◌,
}
use mini_sfu.Buffer.{Floats, Buffer}
use mini_sfu.Buffer.Calc.{◌>>=◌, Event, Parsers}
use mini_sfu.Buffer.Calls.{write, read, close, ReadError, ReadRound}

-- a call from outside
pub data Call : Type 0 where
  call_write : List ℕ → (arrival now : ℕ) → Call
  call_read : ℕ → Call
  call_close : Call

if_true {ℓ} : {A : Type ℓ} (c : Bool) (x y : A) → c ≡ true → (if c then x else y) ≡ x
if_true true x y h = refl
if_true false x y h = absurd (cc)

module _ {F : Type 0} (fl : Floats F) (ps : Parsers) where
  pub step : Buffer F → Call → Option (Buffer F × List Event)
  step b (call_write pkt arrival now) = do
    (b', events, error) ← write fl ps b pkt arrival now
    some (b', events)
  step b (call_read cap) = some ((read b cap).0, [])
  step b call_close = some (close b)

  pub run : Buffer F → List Call → Option (Buffer F × List Event)
  run b [] = some (b, [])
  run b (c ∷ cs) = do (b', events) ← step b c; (b'', more) ← run b' cs; some (b'', events ++ more)

  closed_step : (b : Buffer F) (c : Call) → b.closed ≡ true → step b c ≡ some (b, [])
  unfolding step write read close
  closed_step b (call_write pkt arrival now) ended =
      ap (λ (m : Option (Buffer F × List Event × Option ReadError)). m >>= λ x. some (x.0, x.1))
        (if_true b.closed _ _ ended)
  closed_step b (call_read cap) ended =
      ap (λ (r : Buffer F × ReadRound). some (r.0, [])) (if_true b.closed _ _ ended)
  closed_step b call_close ended = ap some (if_true b.closed _ _ ended)

  closed_run : (b : Buffer F) (cs : List Call) → b.closed ≡ true → run b cs ≡ some (b, [])
  unfolding run
  closed_run b [] ended = refl
  closed_run b (c ∷ cs) ended =
      ap
        (λ (m : Option (Buffer F × List Event)).
          m >>= λ x. run x.0 cs >>= λ y. some (y.0, x.1 ++ y.1))
        (closed_step b c ended)
      ∙ ap (λ (m : Option (Buffer F × List Event)). m >>= λ y. some (y.0, y.1))
          (closed_run b cs ended)

  close-closed : (b : Buffer F) → (close b).0.closed ≡ true
  unfolding close
  close-closed b = ground arith

  -- After `Close`, whatever is written, read or closed again panics nowhere, changes nothing and has
  -- no effect: no packet is handed on, and no pool gets a buffer twice.
  pub close-final : (b : Buffer F) (cs : List Call) → run (close b).0 cs ≡ some ((close b).0, [])
  close-final b cs = closed_run (close b).0 cs (close-closed b)
