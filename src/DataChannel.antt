-- ===== src/DataChannel.antt =====
-- internal/sfu/datachannel.go: the middlewares of a data channel. A processor is of any type; a
-- middleware makes one from the next.
pub mod Messages
mod Tests
use mini_sfu.Base.{
  ℕ, zero, suc, ◌+◌, ◌-◌, ◌≤◌, ◌<◌, ◌≡◌, refl, ap, ◌∙◌, sym, List, [], ◌∷◌, ◌++◌, length, get_or,
  arith, length-append, get_or-snoc, get_or-append_left,
}
use mathlib.Core.List.{append-nil, append_assoc}

module _ {ℓ} {P : Type ℓ} where
  -- The loop of `chain` over the indexes below `i`, from the last to the first.
  pub wrap : List (P → P) → ℕ → P → P
  wrap mws zero h = h
  wrap mws (suc i) h = wrap mws i (get_or mws i (λ p. p) h)

  -- `chain`
  pub chain : List (P → P) → P → P
  chain [] last = last
  chain (mw ∷ mws) last =
      wrap (mw ∷ mws) (length mws) (get_or (mw ∷ mws) (length mws) (λ p. p) last)

  -- the first middleware outermost
  abbrev pub nested : List (P → P) → P → P
  nested [] last = last
  nested (mw ∷ mws) last = mw (nested mws last)

  wrap_more :
      (mw : P → P) (mws : List (P → P)) (i : ℕ) (h : P)
      → wrap (mw ∷ mws) (suc i) h ≡ mw (wrap mws i h)
  unfolding wrap
  wrap_more mw mws zero h = refl
  wrap_more mw mws (suc i) h = wrap_more mw mws i (get_or mws i (λ p. p) h)

  wrap-nested : (mws : List (P → P)) (h : P) → wrap mws (length mws) h ≡ nested mws h
  unfolding wrap
  wrap-nested [] h = refl
  wrap-nested (mw ∷ mws) h = wrap_more mw mws (length mws) h ∙ ap mw (wrap-nested mws h)

  -- A message goes through the middlewares of a channel in the order in which they were added, each
  -- around the rest, and then to the last processor.
  pub chain-nested : (mws : List (P → P)) (last : P) → chain mws last ≡ nested mws last
  unfolding chain wrap
  chain-nested [] last = refl
  chain-nested (mw ∷ mws) last = wrap-nested (mw ∷ mws) last
