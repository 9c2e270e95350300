-- ===== src/DataChannel/Tests.antt =====
-- A chain of datachannel.go, and the theorem at it.
use mini_sfu.Base.{ℕ, ◌≡◌, refl, List, [], ◌∷◌}
use mini_sfu.DataChannel.{wrap, chain}

-- processors as the lists of what a message meets
abbrev marks : List (List ℕ → List ℕ)
marks = (λ p. 1 ∷ p) ∷ (λ p. 2 ∷ p) ∷ []

in_order : chain marks (9 ∷ []) ≡ 1 ∷ 2 ∷ 9 ∷ []
unfolding chain wrap
in_order = refl
