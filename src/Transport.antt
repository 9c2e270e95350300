-- ===== src/Transport.antt =====
-- The peer connection of pion, as publisher.go and subscriber.go of internal/sfu call it. It is not
-- part of the repository: its operations are a parameter, on a state of its own.
use mini_sfu.Base.{
  Bool, true, ◌≡◌, refl, ap, sym, ◌∙◌, Option, none, some, List, [], ◌∷◌, ◌++◌, ◌⊎◌,
}
use mathlib.Core.List.{append-nil, append_assoc}

-- The calls, on the state `P`, with descriptions `D`, candidates `C` and errors `E`
pub record Transport (P D C E : Type 0) : Type 0 where
  pub set_remote_description : P → D → P × Option E
  -- `RemoteDescription() != nil`
  pub has_remote_description : P → Bool
  pub add_ice_candidate : P → C → P × Option E
  pub create_answer : P → P × (E ⊎ D)
  pub create_offer : P → P × (E ⊎ D)
  pub set_local_description : P → D → P × Option E
  -- `SignalingState() == SignalingStateStable`
  pub is_stable : P → Bool
  pub close : P → P × Option E

-- What the calls do to two things that can be observed: whether there is a remote description, and
-- the candidates that the connection was handed, in order. An accepted description is there, a refused
-- one changes nothing, and the calls of an answer leave both.
pub record Observed {P D C E : Type 0} (t : Transport P D C E) : Type 0 where
  pub handed : P → List C
  pub accepted :
      (p : P) (d : D)
      → (t.set_remote_description p d).1 ≡ none
      → (t.has_remote_description (t.set_remote_description p d).0 ≡ true)
        × (handed (t.set_remote_description p d).0 ≡ handed p)
  pub refused :
      (p : P) (d : D) (e : E)
      → (t.set_remote_description p d).1 ≡ some e
      → (t.has_remote_description (t.set_remote_description p d).0 ≡ t.has_remote_description p)
        × (handed (t.set_remote_description p d).0 ≡ handed p)
  pub candidate :
      (p : P) (c : C)
      → (t.has_remote_description (t.add_ice_candidate p c).0 ≡ t.has_remote_description p)
        × (handed (t.add_ice_candidate p c).0 ≡ handed p ++ (c ∷ []))
  pub created :
      (p : P)
      → (t.has_remote_description (t.create_answer p).0 ≡ t.has_remote_description p)
        × (handed (t.create_answer p).0 ≡ handed p)
  pub local :
      (p : P) (d : D)
      → (t.has_remote_description (t.set_local_description p d).0 ≡ t.has_remote_description p)
        × (handed (t.set_local_description p d).0 ≡ handed p)

module _ {P D C E : Type 0} (t : Transport P D C E) where
  -- The loop over the candidates that wait, of `Publisher.Answer` and of
  -- `Subscriber.SetRemoteDescription`; an error is only logged.
  unfoldable pub give_candidates : P → List C → P
  give_candidates p [] = p
  give_candidates p (c ∷ cs) = give_candidates (t.add_ice_candidate p c).0 cs

  pub give_candidates-handed :
      (o : Observed t) (p : P) (cs : List C)
      → (t.has_remote_description (give_candidates p cs) ≡ t.has_remote_description p)
        × (o.handed (give_candidates p cs) ≡ o.handed p ++ cs)
  unfolding give_candidates
  give_candidates-handed o p [] = (refl, sym (append-nil (o.handed p)))
  give_candidates-handed o p (c ∷ cs) =
      let (has, handed) = give_candidates-handed o (t.add_ice_candidate p c).0 cs in
      let (has_c, handed_c) = o.candidate p c in
      (has ∙ has_c, handed ∙ ap (λ l. l ++ cs) handed_c ∙ append_assoc (o.handed p) (c ∷ []) cs)
