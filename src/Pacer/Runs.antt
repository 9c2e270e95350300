-- ===== src/Pacer/Runs.antt =====
-- pacer.go: a whole BucketPacer. Its goroutine gives up the lock while it writes, so packets may be
-- queued between two writes of one tick. The budget of a tick, which the code computes in floating point
-- from the milliseconds and the bitrate, and the bitrate that SetTargetBitrate makes are arguments.
use mini_sfu.Base.{
  ℕ, ◌-◌, ◌<◌, ◌≡◌, refl, ap, sym, ◌∙◌, Bool, true, false, Option, none, some, List, [], ◌∷◌, ◌++◌,
  ◌⊎◌,
}
use mathlib.Core.List.{append-nil, append_assoc}
use mini_sfu.Pacer.{enqueue}

-- `BucketPacer`, with the time in milliseconds; `running` is the budget that is left and the time of
-- the tick while the goroutine is in the inner loop, `stopped` says that `done` is closed, and `ended` that the goroutine has returned.
pub record BucketPacer {ℓ} (A : Type ℓ) : Type ℓ where
  pub target_bitrate : ℕ
  pub last_send : ℕ
  pub packets : List A
  pub running : Option (ℕ × ℕ)
  pub stopped : Bool
  pub ended : Bool

-- `NewBucketPacer`
abbrev pub new_bucket_pacer {ℓ} : {A : Type ℓ} → ℕ → ℕ → BucketPacer A
new_bucket_pacer initial_bitrate now = record {
  target_bitrate = initial_bitrate;
  last_send = now;
  packets = [];
  running = none;
  stopped = false;
  ended = false;
}

module _ {ℓ} {A : Type ℓ} (budget_of : ℕ → ℕ → ℕ) (raised : ℕ → ℕ) (written : A → ℕ) where
  -- The calls and the steps of the goroutine, with what is queued and what is sent.
  pub data Step : BucketPacer A → List A → List A → BucketPacer A → Type ℓ where
    -- `Enqueue`
    queue :
        (p : BucketPacer A) (pkt : A)
        → Step p (pkt ∷ []) [] (record p { packets = enqueue p.packets pkt })
    -- `SetTargetBitrate`
    set_target_bitrate :
        (p : BucketPacer A) (rate : ℕ) → Step p [] [] (record p { target_bitrate = raised rate })
    -- `Stop`; of a closed channel it panics.
    stop : (p : BucketPacer A) → p.stopped ≡ false → Step p [] [] (record p { stopped = true })
    -- the ticker fires
    tick :
        (p : BucketPacer A) (now : ℕ)
        → p.running ≡ none
        → p.ended ≡ false
        → Step p [] []
            (record p { running = some (budget_of (now - p.last_send) p.target_bitrate, now) })
    -- the body of the inner loop
    write :
        (p : BucketPacer A) (budget now : ℕ) (pkt : A) (rest : List A)
        → p.running ≡ some (budget, now)
        → p.packets ≡ pkt ∷ rest
        → 0 < budget
        → Step p [] (pkt ∷ []) (record p {
          packets = rest;
          running = some (budget - written pkt, now);
          last_send = now;
        })
    -- the end of the inner loop
    pause :
        (p : BucketPacer A) (budget now : ℕ)
        → p.running ≡ some (budget, now)
        → (p.packets ≡ []) ⊎ (budget ≡ 0)
        → Step p [] [] (record p { running = none })
    -- the goroutine sees that `done` is closed
    quit :
        (p : BucketPacer A)
        → p.running ≡ none
        → p.stopped ≡ true
        → Step p [] [] (record p { ended = true })

  -- runs, with all that is queued and all that is sent
  pub data Run : BucketPacer A → List A → List A → BucketPacer A → Type ℓ where
    start : (p : BucketPacer A) → Run p [] [] p
    more :
        (p q r : BucketPacer A) (queued sent queued' sent' : List A)
        → Step p queued sent q
        → Run q queued' sent' r
        → Run p (queued ++ queued') (sent ++ sent') r

  -- A goroutine that has returned is not in its loop.
  abbrev pub IsValid : BucketPacer A → Type 0
  IsValid p = p.ended ≡ true → p.running ≡ none

  step-fifo :
      (p q : BucketPacer A) (queued sent : List A)
      → Step p queued sent q
      → sent ++ q.packets ≡ p.packets ++ queued
  unfolding enqueue
  step-fifo _ _ _ _ (queue p pkt) = refl
  step-fifo _ _ _ _ (set_target_bitrate p rate) = sym (append-nil p.packets)
  step-fifo _ _ _ _ (stop p open_) = sym (append-nil p.packets)
  step-fifo _ _ _ _ (tick p now idle runs) = sym (append-nil p.packets)
  step-fifo _ _ _ _ (write p budget now pkt rest busy first some_left) =
      sym (append-nil p.packets ∙ first)
  step-fifo _ _ _ _ (pause p budget now busy over) = sym (append-nil p.packets)
  step-fifo _ _ _ _ (quit p idle done) = sym (append-nil p.packets)

  step-IsValid :
      (p q : BucketPacer A) (queued sent : List A)
      → Step p queued sent q
      → IsValid p
      → IsValid q × (p.ended ≡ true → (sent ≡ []) × (q.ended ≡ true))
  step-IsValid _ _ _ _ (queue p pkt) v = (v, λ e. (refl, e))
  step-IsValid _ _ _ _ (set_target_bitrate p rate) v = (v, λ e. (refl, e))
  step-IsValid _ _ _ _ (stop p open_) v = (v, λ e. (refl, e))
  step-IsValid _ _ _ _ (tick p now idle runs) v =
      ((λ e. absurd (cc (e, runs))), λ e. absurd (cc (e, runs)))
  step-IsValid _ _ _ _ (write p budget now pkt rest busy first some_left) v =
      ((λ e. absurd (cc (v e, busy))), λ e. absurd (cc (v e, busy)))
  step-IsValid _ _ _ _ (pause p budget now busy over) v = ((λ e. refl), λ e. (refl, e))
  step-IsValid _ _ _ _ (quit p idle done) v = ((λ e. idle), λ e. (refl, refl))

  -- In every run, with packets queued also while others are written: those sent and then those that
  -- wait are those that waited and then those queued, in order and once each; and once the goroutine has
  -- returned nothing more is sent.
  pub run-fifo :
      (p q : BucketPacer A) (queued sent : List A)
      → IsValid p
      → Run p queued sent q
      → (sent ++ q.packets ≡ p.packets ++ queued) × (p.ended ≡ true → sent ≡ [])
  run-fifo _ _ _ _ v (start p) = (sym (append-nil p.packets), λ e. refl)
  run-fifo _ _ _ _ v (more p q r queued sent queued' sent' step rest) =
      let (v', quiet) = step-IsValid p q queued sent step v in
      let (all, quiet') = run-fifo q r queued' sent' v' rest in
      (
        append_assoc sent sent' r.packets
            ∙ ap (λ l. sent ++ l) all
            ∙ sym (append_assoc sent q.packets queued')
            ∙ ap (λ l. l ++ queued') (step-fifo p q queued sent step)
            ∙ append_assoc p.packets queued queued',
        λ e. ap (λ l. l ++ sent') (quiet e).0 ∙ quiet' (quiet e).1,
      )
