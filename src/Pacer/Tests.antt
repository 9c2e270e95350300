-- ===== src/Pacer/Tests.antt =====
-- A tick of pacer.go, a run of its goroutine, and the theorem at it.
use mini_sfu.Base.{ℕ, ◌*◌, ◌/◌, ◌≡◌, ◌++◌, refl, true, some, List, [], ◌∷◌, inr, arith}
use mini_sfu.Pacer.{drain, enqueue}
use mini_sfu.Pacer.Runs.{
  BucketPacer, new_bucket_pacer, Run, start, more, queue, tick, write, pause, stop, quit, run-fifo,
}

abbrev sizes : List ℕ
sizes = 600 ∷ 600 ∷ 600 ∷ []

overdraws_once : drain (λ n. n) 1000 sizes ≡ (600 ∷ 600 ∷ [], 600 ∷ [])
unfolding drain
overdraws_once = refl

-- Ten milliseconds at 800000 bits per second are a budget of 1000 bytes.
abbrev budget_of : ℕ → ℕ → ℕ
budget_of milliseconds bitrate = milliseconds * bitrate / 8000

abbrev fresh : BucketPacer ℕ
fresh = new_bucket_pacer 800000 0

abbrev over : BucketPacer ℕ
over = record fresh { packets = 500 ∷ []; last_send = 10; stopped = true; ended = true }

abbrev sent : List ℕ
sent = 600 ∷ 600 ∷ []

-- Three packets are queued, one of them while the goroutine writes; a tick sends two.
abbrev ran : Run budget_of (λ r. r * 3 / 2) (λ n. n) fresh (600 ∷ 600 ∷ 500 ∷ []) sent over
unfolding enqueue
ran = more _ _ _ _ _ _ _ (queue fresh 600) (
    more _ _ _ _ _ _ _ (queue (record fresh { packets = 600 ∷ [] }) 600) (
      more _ _ _ _ _ _ _ (tick (record fresh { packets = 600 ∷ 600 ∷ [] }) 10 refl refl) (
        more _ _ _ _ _ _ _
          (write (record fresh { packets = 600 ∷ 600 ∷ []; running = some (1000, 10) }) 1000 10 600
            (600 ∷ []) refl refl (omega arith))
          (more _ _ _ _ _ _ _
            (queue (record fresh { packets = 600 ∷ []; running = some (400, 10); last_send = 10 })
              500)
            (more _ _ _ _ _ _ _
              (write
                (record fresh {
                  packets = 600 ∷ 500 ∷ [];
                  running = some (400, 10);
                  last_send = 10;
                })
                400 10 600 (500 ∷ []) refl refl (omega arith))
              (more _ _ _ _ _ _ _
                (pause (record fresh { packets = 500 ∷ []; running = some (0, 10); last_send = 10 })
                  0 10 refl (inr refl))
                (more _ _ _ _ _ _ _
                  (stop (record fresh { packets = 500 ∷ []; last_send = 10 }) refl)
                  (more _ _ _ _ _ _ _
                    (quit (record fresh { packets = 500 ∷ []; last_send = 10; stopped = true }) refl
                      refl)
                    (start over)))))))))

-- The theorem at this run, after which the goroutine sees that it is stopped.
run-fifo_example : (sent ++ over.packets ≡ 600 ∷ 600 ∷ 500 ∷ []) × (fresh.ended ≡ true → sent ≡ [])
unfolding enqueue
run-fifo_example =
    run-fifo budget_of (λ r. r * 3 / 2) (λ n. n) fresh over (600 ∷ 600 ∷ 500 ∷ []) sent (λ e. refl)
      ran
