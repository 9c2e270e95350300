-- ===== src/Pacer.antt =====
-- internal/pacer/pacer.go: the queue of packets that a ticker sends within a budget of bytes.
pub mod Runs
mod Tests
use mini_sfu.Base.{
  ℕ, zero, suc, ◌+◌, ◌-◌, ◌≤◌, ◌<◌, ◌≡◌, refl, ap, Bool, true, false, List, [], ◌∷◌, ◌++◌,
  if◌then◌else◌, ltb, Bool-cases, inl, inr, ◌⊎◌, arith,
}

-- `Enqueue`
pub enqueue {ℓ} : {A : Type ℓ} → List A → A → List A
enqueue packets pkt = packets ++ (pkt ∷ [])

-- The loop of a tick: what is sent, and what stays. `written` is what `WriteRTP` returns for a
-- packet; the budget, an int, is only asked whether it is positive, so it may stop at 0.
module _ {ℓ} {A : Type ℓ} (written : A → ℕ) where
  pub drain : ℕ → List A → List A × List A
  drain budget [] = ([], [])
  drain budget (pkt ∷ packets) =
      let rest = drain (budget - written pkt) packets in
      if ltb 0 budget then (pkt ∷ rest.0, rest.1) else ([], pkt ∷ packets)

  abbrev pub total : List A → ℕ
  total [] = 0
  total (pkt ∷ packets) = written pkt + total packets

  -- All but the last packet fit the budget.
  abbrev pub Within : ℕ → List A → Type 0
  Within budget [] = Unit
  Within budget (pkt ∷ packets) = (0 < budget) × Within (budget - written pkt) packets

  -- The loop stopped for the budget or for want of packets.
  abbrev pub Exhausted : ℕ → List A → List A → Type 0
  Exhausted budget sent [] = Unit
  Exhausted budget sent (pkt ∷ packets) = budget ≤ total sent

  drain-split :
      (budget : ℕ) (packets : List A)
      → (drain budget packets).0 ++ (drain budget packets).1 ≡ packets
  unfolding drain
  drain-split budget [] = refl
  drain-split budget (pkt ∷ packets) = elim (Bool-cases (ltb 0 budget)) [
    | inl e ↦ rw e (ap (λ l. pkt ∷ l) (drain-split (budget - written pkt) packets))
    | inr e ↦ rw e refl
  ]

  drain-Within : (budget : ℕ) (packets : List A) → Within budget (drain budget packets).0
  unfolding drain
  drain-Within budget [] = tt
  drain-Within budget (pkt ∷ packets) = elim (Bool-cases (ltb 0 budget)) [
    | inl e ↦ rw e (ground (arith, e), drain-Within (budget - written pkt) packets)
    | inr e ↦ rw e tt
  ]

  Exhausted-cons :
      (budget w : ℕ) (pkt : A) (sent left : List A)
      → w ≡ written pkt
      → Exhausted (budget - w) sent left
      → Exhausted budget (pkt ∷ sent) left
  Exhausted-cons budget w pkt sent [] e h = tt
  Exhausted-cons budget w pkt sent (next ∷ left) e h = omega (arith, h, e)

  drain-Exhausted :
      (budget : ℕ) (packets : List A)
      → Exhausted budget (drain budget packets).0 (drain budget packets).1
  unfolding drain
  drain-Exhausted budget [] = tt
  drain-Exhausted budget (pkt ∷ packets) = elim (Bool-cases (ltb 0 budget)) [
    | inl e ↦ rw e (
        Exhausted-cons budget (written pkt) pkt (drain (budget - written pkt) packets).0
          (drain (budget - written pkt) packets).1 refl
          (drain-Exhausted (budget - written pkt) packets))
    | inr e ↦ rw e (ground (arith, e))
  ]

  -- A tick sends the packets at the front of the queue, in order, and leaves the others; it sends a
  -- packet only while some of its budget is left; and if it leaves a packet then what it has sent
  -- uses the budget up.
  pub drain-queue :
      (budget : ℕ) (packets : List A)
      → let r = drain budget packets in
        (r.0 ++ r.1 ≡ packets) × Within budget r.0 × Exhausted budget r.0 r.1
  drain-queue budget packets =
      (drain-split budget packets, drain-Within budget packets, drain-Exhausted budget packets)
