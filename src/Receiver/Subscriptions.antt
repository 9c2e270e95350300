-- ===== src/Receiver/Subscriptions.antt =====
-- Who subscribes to which layer of a track in receiver.go.
use mini_sfu.Base.{
  ℕ, zero, suc, ◌+◌, ◌≤◌, ◌<◌, ◌≡◌, ◌≢◌, refl, ap, Bool, true, false, Option, none, some, List, [],
  ◌∷◌, ◌==◌, get_or, length, get_or-set_self, All, Bool-cases, inl, inr, ◌⊎◌, arith,
}
use mathlib.Core.List.{Perm}
use mini_sfu.Receiver.{
  WebRtcReceiver, Subscription, no_subscription, subscribers, set_subscribers, index_of,
  swap_remove, delete_down_track, choose_layer, initial_layer,
}
use mini_sfu.Receiver.SwapRemove.{swap_remove-Perm}

-- No subscriber is the peer's, or the index is that of one who is.
pub index_of-cases :
    (id : ℕ) (ts : List Subscription)
    → ((index_of id ts ≡ none) × All (λ (t : Subscription). t.peer_id ≢ id) ts)
      ⊎ ((i : ℕ) × (index_of id ts ≡ some i)
          × (i < length ts)
          × ((get_or ts i no_subscription).peer_id ≡ id))
unfolding index_of
index_of-cases id [] = inl (refl, tt)
index_of-cases id (t ∷ ts) = elim (Bool-cases (t.peer_id == id)) [
  | inl same ↦ inr (0, rw same refl, omega arith, ground (arith, same))
  | inr different ↦ elim (index_of-cases id ts) [
    | inl (e, all) ↦ inl (rw (different, e) refl, (ground (arith, different), all))
    | inr (i, e, lt, peer) ↦ inr (suc i, rw (different, e) refl, omega arith, peer)
  ]
]

pub subscribers-set :
    (w : WebRtcReceiver) (layer : ℕ) (ts : List Subscription)
    → layer < length w.down_tracks
    → subscribers (set_subscribers w layer ts) layer ≡ ts
subscribers-set w layer ts inside =
    ap
      (λ (o : Option (List Subscription)). elim o as (λ x. List Subscription) [
        | none ↦ []
        | some us ↦ us
      ])
      (get_or-set_self w.down_tracks layer (some ts) none inside)

-- A peer's subscription to a layer of the receiver is deleted: one of the peer's subscriptions is
-- gone, and the others are those that are left, in some order; or no subscription to the layer is
-- the peer's, and nothing changes.
pub delete_down_track-Perm :
    (w : WebRtcReceiver) (layer id : ℕ)
    → layer < length w.down_tracks
    → ((t : Subscription) × (t.peer_id ≡ id)
        × Perm (subscribers w layer) (t ∷ subscribers (delete_down_track w layer id) layer))
      ⊎ (All (λ (t : Subscription). t.peer_id ≢ id) (subscribers w layer)
          × (delete_down_track w layer id ≡ w))
unfolding delete_down_track
delete_down_track-Perm w layer id inside = elim (index_of-cases id (subscribers w layer)) [
  | inl (e, all) ↦ inr (all, rw (e, delete_down_track) refl)
  | inr (i, e, lt, peer) ↦ inl (
    get_or (subscribers w layer) i no_subscription,
    peer,
    rw
        (
          e,
          delete_down_track,
          subscribers-set w layer (swap_remove i (subscribers w layer) no_subscription) inside,
        )
        (swap_remove-Perm (subscribers w layer) i no_subscription lt),
  )
]

-- A layer that has come, in the list of the layers from `i` on.
abbrev pub HasCome : List (Option ℕ) → ℕ → Type 0
HasCome ts j = (s : ℕ) × (get_or ts j none ≡ some s)

-- The second is no worse than the first: not below it if the best is wanted, else not above it.
abbrev pub NoWorse : Bool → ℕ → ℕ → Type 0
NoWorse true j k = j ≤ k
NoWorse false j k = k ≤ j

suc-NoWorse : (best : Bool) (j k : ℕ) → NoWorse best j k → NoWorse best (suc j) (suc k)
suc-NoWorse true j k h = omega arith
suc-NoWorse false j k h = omega arith

-- the outcome of the loop from layer `i` on
abbrev Chosen : Bool → ℕ → ℕ → List (Option ℕ) → ℕ → Type 0
Chosen best i layer ts chosen =
    ((chosen ≡ layer) × ((j : ℕ) → get_or ts j none ≡ none))
    ⊎ ((k : ℕ) × (chosen ≡ i + k) × HasCome ts k × ((j : ℕ) → HasCome ts j → NoWorse best j k))

none-absent :
    (ts : List (Option ℕ))
    → ((j : ℕ) → get_or ts j none ≡ none)
    → (j : ℕ) → get_or (none ∷ ts) j none ≡ none
none-absent ts absent zero = refl
none-absent ts absent (suc j) = absent j

none-NoWorse :
    (best : Bool) (ts : List (Option ℕ)) (k : ℕ)
    → ((j : ℕ) → HasCome ts j → NoWorse best j k)
    → (j : ℕ) → HasCome (none ∷ ts) j
    → NoWorse best j (suc k)
none-NoWorse best ts k h zero (s, e) = absurd (cc e)
none-NoWorse best ts k h (suc j) (s, e) = suc-NoWorse best j k (h j (s, e))

some-absent :
    (t : ℕ) (ts : List (Option ℕ))
    → ((j : ℕ) → get_or ts j none ≡ none)
    → (j : ℕ) → HasCome (some t ∷ ts) j
    → j ≤ 0
some-absent t ts absent zero come = omega arith
some-absent t ts absent (suc j) (s, e) = absurd (cc (absent j, e))

some-NoWorse :
    (t : ℕ) (ts : List (Option ℕ)) (k : ℕ)
    → ((j : ℕ) → HasCome ts j → j ≤ k)
    → (j : ℕ) → HasCome (some t ∷ ts) j
    → j ≤ suc k
some-NoWorse t ts k h zero come = omega arith
some-NoWorse t ts k h (suc j) (s, e) = omega (arith, h j (s, e))

choose_layer-Chosen :
    (best : Bool) (i layer : ℕ) (ts : List (Option ℕ))
    → Chosen best i layer ts (choose_layer best i layer ts)
unfolding choose_layer
choose_layer-Chosen best i layer [] = inl (refl, λ j. refl)
choose_layer-Chosen best i layer (none ∷ ts) = elim (choose_layer-Chosen best (i + 1) layer ts) [
  | inl (e, absent) ↦ inl (e, none-absent ts absent)
  | inr (k, e, come, all) ↦ inr (suc k, omega (arith, e), come, none-NoWorse best ts k all)
]
choose_layer-Chosen true i layer (some t ∷ ts) = elim (choose_layer-Chosen true (i + 1) i ts) [
  | inl (e, absent) ↦ inr (0, omega (arith, e), (t, refl), some-absent t ts absent)
  | inr (k, e, come, all) ↦ inr (suc k, omega (arith, e), come, some-NoWorse t ts k all)
]
choose_layer-Chosen false i layer (some t ∷ ts) =
    inr (0, omega arith, (t, refl), λ j come. omega arith)

-- If some layer of a simulcast track has come, a new subscriber starts at one that has come: at the
-- highest of them if the best quality is wanted first, else at the lowest.
pub initial_layer-HasCome :
    (w : WebRtcReceiver) (best : Bool) (come : ℕ)
    → w.is_simulcast ≡ true
    → HasCome w.up_tracks come
    → HasCome w.up_tracks (initial_layer w best)
      × ((j : ℕ) → HasCome w.up_tracks j → NoWorse best j (initial_layer w best))
initial_layer-HasCome w best come simulcast (s, here) =
    elim (choose_layer-Chosen best 0 0 w.up_tracks) [
      | inl (e, absent) ↦ absurd (cc (absent come, here))
      | inr (k, e, chosen, all) ↦ rw (simulcast, start k e) (chosen, all)
    ]
  where
    start :
        (k : ℕ) → choose_layer best 0 0 w.up_tracks ≡ 0 + k → choose_layer best 0 0 w.up_tracks ≡ k
    start k e = omega (arith, e)
