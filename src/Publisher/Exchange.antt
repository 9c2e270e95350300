-- ===== src/Publisher/Exchange.antt =====
-- Who gets what in a session: peers join and leave, and tracks come and end, in any order.
use mini_sfu.Base.Maps.{lookup, insert}
use mini_sfu.Base.{
  ℕ, ◌==◌, ◌≡◌, refl, ap, sym, subst, ◌∙◌, true, false, some, List, [], ◌∷◌, if◌then◌else◌, All,
  All-map, Bool-cases, Option-cases, inl, inr, ◌⊎◌, arith,
}
use mini_sfu.Subscriber.{Subscriber}
use mini_sfu.Router.{
  Receiver, Router, Peer, Connection, UpTrack, receiver_of, wire_twcc, add_receiver,
  add_down_tracks, publish,
}
use mini_sfu.Router.Fanout.{Has, add_down_tracks-keeps}
use mini_sfu.Router.Session.{Accepts, add_down_tracks-accepted}
use mini_sfu.Publisher.{set_router}

-- The subscriber has the tracks of all receivers of the router.
abbrev pub HasAll : Subscriber → Router → Type 0
HasAll s r = All (λ (e : ℕ × Receiver). Has s e.1) r.receivers

pub HasAll-map :
    (s s' : Subscriber) (r : Router)
    → ((q : Receiver) → Has s q → Has s' q)
    → HasAll s r
    → HasAll s' r
HasAll-map s s' r keeps all =
    All-map (λ (e : ℕ × Receiver). Has s e.1) (λ (e : ℕ × Receiver). Has s' e.1) r.receivers
      (λ e has. keeps e.1 has) all

-- The first peer has the tracks of all receivers of the second, or they are one.
abbrev pub Gets : Peer → Peer → Type 0
Gets p q = (p.id ≡ q.id) ⊎ HasAll p.subscriber q.router

abbrev pub IsComplete : List Peer → Type 0
IsComplete ps = All (λ (p : Peer). All (λ (q : Peer). Gets p q) ps) ps

-- What becomes of a peer when the publisher with the router `r` has `r'` instead: it is the owner of
-- the router, or it keeps what it has and gets what `r'` has beyond `r`.
pub data Moves (r r' : Router) (p p' : Peer) : Type 0 where
  owner :
      p'.id ≡ p.id → p.id ≡ r.id → p'.router ≡ r' → p'.subscriber ≡ p.subscriber → Moves r r' p p'
  other :
      p'.id ≡ p.id
      → p'.router ≡ p.router
      → ((q : Receiver) → Has p.subscriber q → Has p'.subscriber q)
      → (HasAll p.subscriber r → HasAll p'.subscriber r')
      → Moves r r' p p'

-- The session has the router `r`: the peer of its identifier has no other.
abbrev pub Owns : Router → Peer → Type 0
Owns r p = p.id ≡ r.id → p.router ≡ r

module _ (r r' : Router) where
  Moves-id : (p p' : Peer) → Moves r r' p p' → p'.id ≡ p.id
  Moves-id p p' (owner same own router subscriber) = same
  Moves-id p p' (other same router keeps gets) = same

  Moves-Gets :
      (p p' q q' : Peer) → Owns r q → Moves r r' p p' → Moves r r' q q' → Gets p q → Gets p' q'
  Moves-Gets p p' q q' owns m n (inl one) = inl (Moves-id p p' m ∙ one ∙ sym (Moves-id q q' n))
  Moves-Gets p p' q q' owns (owner same own r1 s1) (owner same' own' r2 s2) (inr all) =
      inl (same ∙ own ∙ sym own' ∙ sym same')
  Moves-Gets p p' q q' owns (owner same own r1 s1) (other same' r2 keeps gets) (inr all) =
      inr
        (subst (λ s. HasAll s q'.router) (sym s1) (subst (λ x. HasAll p.subscriber x) (sym r2) all))
  Moves-Gets p p' q q' owns (other same r1 keeps gets) (owner same' own r2 s2) (inr all) = inr (
      subst (λ x. HasAll p'.subscriber x) (sym r2)
        (gets (subst (λ x. HasAll p.subscriber x) (owns own) all)))
  Moves-Gets p p' q q' owns (other same r1 keeps gets) (other same' r2 keeps' gets') (inr all) =
      inr (
        subst (λ x. HasAll p'.subscriber x) (sym r2)
          (HasAll-map p.subscriber p'.subscriber q.router keeps all))

  -- two lists, peer by peer
  pub data Each : List Peer → List Peer → Type 0 where
    none_left : Each [] []
    one_more :
        (p p' : Peer) (ps ps' : List Peer)
        → Moves r r' p p'
        → Each ps ps'
        → Each (p ∷ ps) (p' ∷ ps')

  Each-row :
      (p p' : Peer) (qs qs' : List Peer)
      → Moves r r' p p'
      → Each qs qs'
      → All (Owns r) qs
      → All (λ (q : Peer). Gets p q) qs
      → All (λ (q : Peer). Gets p' q) qs'
  Each-row p p' _ _ m none_left owns all = tt
  Each-row p p' _ _ m (one_more q q' qs qs' n rest) (own, owns) (gets, all) =
      (Moves-Gets p p' q q' own m n gets, Each-row p p' qs qs' m rest owns all)

  Each-rows :
      (ps ps' qs qs' : List Peer)
      → All (Owns r) qs
      → Each ps ps'
      → Each qs qs'
      → All (λ (p : Peer). All (λ (q : Peer). Gets p q) qs) ps
      → All (λ (p : Peer). All (λ (q : Peer). Gets p q) qs') ps'
  Each-rows _ _ qs qs' owns none_left columns all = tt
  Each-rows _ _ qs qs' owns (one_more p p' ps ps' m rest) columns (row, all) =
      (Each-row p p' qs qs' m columns owns row, Each-rows ps ps' qs qs' owns rest columns all)

  -- A session with the router `r'` in place of `r` is complete if each peer moved.
  pub Each-IsComplete :
      (ps ps' : List Peer) → All (Owns r) ps → Each ps ps' → IsComplete ps → IsComplete ps'
  Each-IsComplete ps ps' owns each complete = Each-rows ps ps' ps ps' owns each each complete

  -- A router that has no new receivers can take the place of another.
  pub set_router-Each :
      (ps : List Peer)
      → r'.id ≡ r.id
      → ((s : Subscriber) → HasAll s r → HasAll s r')
      → Each ps (set_router r' ps)
  set_router-Each [] same fewer = none_left
  set_router-Each (p ∷ ps) same fewer =
      one_more p _ ps (set_router r' ps) moves (set_router-Each ps same fewer)
    where
      moves : Moves r r' p (if p.id == r'.id then record p { router = r' } else p)
      moves = elim (Bool-cases (p.id == r'.id)) [
        | inl own ↦ rw own (owner refl (ground (arith, own, same)) refl refl)
        | inr apart ↦ rw apart (other refl refl (λ q has. has) (fewer p.subscriber))
      ]

  -- The router of a publisher whose new receiver is published
  pub publish-Each :
      (recv : Receiver) (connections : ℕ → Connection) (ps : List Peer)
      → r'.id ≡ r.id
      → ((id : ℕ) → Accepts (connections id))
      → ((s : Subscriber) → Has s recv → HasAll s r → HasAll s r')
      → Each ps (publish r' recv connections (set_router r' ps))
  unfolding publish
  publish-Each recv connections [] same accepts one = none_left
  publish-Each recv connections (p ∷ ps) same accepts one =
      one_more p _ ps _
        (elim (Bool-cases (p.id == r'.id)) [
          | inl own ↦
              let back : (r'.id == p.id) ≡ true = ground (arith, own) in
              rw (own, back) (owner refl (ground (arith, own, same)) refl refl)
          | inr apart ↦
              let back : (r'.id == p.id) ≡ false = ground (arith, apart) in
              let s' = (add_down_tracks (connections p.id) r' p.subscriber (some recv)).0.sub in
              let keeps = add_down_tracks-keeps (connections p.id) r' p.subscriber (some recv) in
              let has =
                add_down_tracks-accepted (connections p.id) (accepts p.id) r' p.subscriber recv in
              rw (apart, back)
                (other refl refl keeps (λ all. one s' has (HasAll-map p.subscriber s' r keeps all)))
        ])
        (publish-Each recv connections ps same accepts one)

wire_twcc-keeps :
    (r : Router) (track : UpTrack)
    → ((wire_twcc r track).0.id ≡ r.id) × ((wire_twcc r track).0.receivers ≡ r.receivers)
unfolding wire_twcc
wire_twcc-keeps r track = elim (Bool-cases track.is_video) [
  | inr audio ↦ rw audio (refl, refl)
  | inl video ↦ elim (Option-cases r.twcc) [
    | inl e ↦ rw (video, e) (refl, refl)
    | inr (ssrc, e) ↦ rw (video, e) (refl, refl)
  ]
]

-- `AddReceiver` keeps the receivers, or adds one, which is the one it returns.
pub add_receiver-cases :
    (r : Router) (track : UpTrack)
    → let (r', recv, is_new, wires) = add_receiver r track in
      (r'.id ≡ r.id)
      × (((is_new ≡ false) × (r'.receivers ≡ r.receivers))
          ⊎ ((is_new ≡ true) × (r'.receivers ≡ insert track.id recv r.receivers)))
unfolding add_receiver
add_receiver-cases r track =
    let (same, kept) = wire_twcc-keeps r track in
    elim (Option-cases (lookup track.id (wire_twcc r track).0.receivers)) [
      | inl e ↦
          rw (add_receiver, e) (same, inr (refl, ap (insert track.id (receiver_of track)) kept))
      | inr (recv, e) ↦ rw (add_receiver, e) (same, inl (refl, kept))
    ]
