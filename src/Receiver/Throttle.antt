-- ===== src/Receiver/Throttle.antt =====
-- How often receiver.go asks the publisher for key frames.
use mini_sfu.Base.{
  ℕ, ◌+◌, ◌≤◌, true, List, [], ◌∷◌, if◌then◌else◌, ltb, Bool-cases, inl, inr, arith,
}
use mini_sfu.Receiver.{WebRtcReceiver, pli_interval, send_rtcp}

-- The times at which PLIs go to the channel, of those at which they are asked for.
pub sent_plis : WebRtcReceiver → List ℕ → List ℕ
sent_plis w [] = []
sent_plis w (now ∷ later) =
    let (w', sent) = send_rtcp w true now in
    let rest = sent_plis w' later in if sent then now ∷ rest else rest

-- Each time is at least 500 ms after the one before it.
abbrev pub Spaced : ℕ → List ℕ → Type 0
Spaced last [] = Unit
Spaced last (t ∷ ts) = (last + pli_interval ≤ t) × Spaced t ts

-- Whenever key frames are asked for, by whatever subscribers, the PLIs that go to the publisher
-- are at least 500 ms apart, the first from the last one before.
pub sent_plis-Spaced : (times : List ℕ) (w : WebRtcReceiver) → Spaced w.last_pli (sent_plis w times)
unfolding sent_plis send_rtcp
sent_plis-Spaced [] w = tt
sent_plis-Spaced (now ∷ later) w = elim (Bool-cases (ltb now (w.last_pli + pli_interval))) [
  | inl soon ↦ rw soon (sent_plis-Spaced later w)
  | inr due ↦ rw due (ground (arith, due), sent_plis-Spaced later (record w { last_pli = now }))
]
