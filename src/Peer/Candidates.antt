-- ===== src/Peer/Candidates.antt =====
-- Runs of the candidates of a connection.
use mini_sfu.Base.{◌≡◌, refl, ap, ◌∙◌, sym, Bool, true, false, List, [], ◌∷◌, ◌++◌}
use mathlib.Core.List.{append-nil, append_assoc}
use mini_sfu.Peer.{Connection, new_connection, add_ice_candidate, set_remote}

-- a candidate of the other side, or a description that the connection takes or refuses
pub data Event {ℓ} (A : Type ℓ) : Type ℓ where
  candidate : A → Event A
  description : Bool → Event A

module _ {ℓ} {A : Type ℓ} where
  unfoldable pub run : Connection A → List (Event A) → Connection A
  run s [] = s
  run s (candidate c ∷ es) = run (add_ice_candidate s c) es
  run s (description takes ∷ es) = run (set_remote s takes) es

  abbrev pub sent : List (Event A) → List A
  sent [] = []
  sent (candidate c ∷ es) = c ∷ sent es
  sent (description takes ∷ es) = sent es

  -- Nothing waits once there is a remote description.
  abbrev pub Settled : Connection A → Type ℓ
  Settled s = s.has_remote ≡ true → s.candidates ≡ []

  abbrev pub all_of : Connection A → List A
  all_of s = s.given ++ s.candidates

  add_ice_candidate-all :
      (has_remote : Bool) (waiting given : List A) (c : A)
      → let s : Connection A = record {
        has_remote = has_remote;
        candidates = waiting;
        given = given;
      } in
        Settled s
        → (all_of (add_ice_candidate s c) ≡ all_of s ++ (c ∷ [])) × Settled (add_ice_candidate s c)
  unfolding add_ice_candidate
  add_ice_candidate-all true waiting given c settled =
      (rw (settled refl, append-nil given, append-nil (given ++ (c ∷ []))) refl, settled)
  add_ice_candidate-all false waiting given c settled =
      (sym (append_assoc given waiting (c ∷ [])), λ e. absurd (cc e))

  set_remote-all :
      (s : Connection A) (takes : Bool)
      → Settled s
      → (all_of (set_remote s takes) ≡ all_of s) × Settled (set_remote s takes)
  unfolding set_remote
  set_remote-all s true settled = (append-nil (s.given ++ s.candidates), λ e. refl)
  set_remote-all s false settled = (refl, settled)

  run-all :
      (es : List (Event A)) (s : Connection A)
      → Settled s
      → (all_of (run s es) ≡ all_of s ++ sent es) × Settled (run s es)
  unfolding run
  run-all [] s settled = (sym (append-nil (all_of s)), settled)
  run-all (candidate c ∷ es) s settled =
      let a = add_ice_candidate-all s.has_remote s.candidates s.given c settled in
      let (e, later) = run-all es (add_ice_candidate s c) a.1 in
      (e ∙ (ap (λ xs. xs ++ sent es) a.0 ∙ append_assoc (all_of s) (c ∷ []) (sent es)), later)
  run-all (description takes ∷ es) s settled =
      let a = set_remote-all s takes settled in
      let (e, later) = run-all es (set_remote s takes) a.1 in
      (e ∙ ap (λ xs. xs ++ sent es) a.0, later)

  -- Whatever the order in which candidates and descriptions come, and whichever descriptions the
  -- connection refuses, no candidate is lost, doubled or overtaken: those given to the connection
  -- and then those that wait are the candidates that came, in their order; and once there is a
  -- remote description none waits.
  pub run-new_connection :
      (es : List (Event A))
      → let s = run new_connection es in (s.given ++ s.candidates ≡ sent es) × Settled s
  run-new_connection es = run-all es new_connection (λ e. refl)
