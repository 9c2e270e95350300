-- ===== src/Router/Fanout.antt =====
-- What a peer gets: every track of the others.
use mini_sfu.Base.{
  ℕ, ◌==◌, ◌≡◌, refl, ap, sym, subst, ◌∙◌, true, false, Option, none, some, List, [], ◌∷◌, ◌++◌,
  length, All, Bool-cases, Option-cases, inl, inr, arith,
}
use mini_sfu.Subscriber
use mini_sfu.Subscriber.{Track, Subscriber, get_down_tracks, add_data_channel}
use mini_sfu.Subscriber.Tracks.{get_down_tracks-add_self, get_down_tracks-add_other}
use mini_sfu.Router.{
  Receiver, Router, has_track, Connection, new_down_track, add_down_track, add_each,
  add_down_tracks,
}

-- The subscriber has the receiver's track.
pub Has : Subscriber → Receiver → Type 0
Has s recv = has_track recv.track_id (get_down_tracks s recv.stream_id) ≡ true

has_track-append :
    (id : ℕ) (ts us : List Track) → has_track id ts ≡ true → has_track id (ts ++ us) ≡ true
unfolding has_track
has_track-append id [] us h = absurd (cc)
has_track-append id (t ∷ ts) us h = elim (Bool-cases (t.id == id)) [
  | inl same ↦ rw same refl
  | inr other ↦ rw other (has_track-append id ts us (rw other at h))
]

has_track-last : (t : Track) (ts : List Track) → has_track t.id (ts ++ (t ∷ [])) ≡ true
unfolding has_track
has_track-last t [] = rw (same t.id) refl
  where
    same : (n : ℕ) → (n == n) ≡ true
    same n = ground arith
has_track-last t (u ∷ ts) = elim (Bool-cases (u.id == t.id)) [
  | inl same ↦ rw same refl
  | inr other ↦ rw other (has_track-last t ts)
]

-- A new track takes none away.
add-Has :
    (s : Subscriber) (sid : ℕ) (t : Track) (q : Receiver)
    → Has s q
    → Has (Subscriber.add_down_track s sid t) q
unfolding Has
add-Has s sid t q has = elim (Bool-cases (q.stream_id == sid)) [
  | inl same ↦
      let at : sid ≡ q.stream_id = ground (arith, same) in
      let added : get_down_tracks (Subscriber.add_down_track s sid t) q.stream_id
          ≡ get_down_tracks s q.stream_id ++ (t ∷ []) =
        subst
          (λ o.
            get_down_tracks (Subscriber.add_down_track s sid t) o ≡ get_down_tracks s o ++ (t ∷ []))
          at (get_down_tracks-add_self s sid t) in
      ap (has_track q.track_id) added
      ∙ has_track-append q.track_id (get_down_tracks s q.stream_id) (t ∷ []) has
  | inr differs ↦
      ap (has_track q.track_id)
        (get_down_tracks-add_other s sid q.stream_id t (ground (arith, differs)))
      ∙ has
]

module _ (connection : Connection) where
  add_down_track-keeps :
      (s : Subscriber) (recv q : Receiver) → Has s q → Has (add_down_track connection s recv).sub q
  unfolding add_down_track
  add_down_track-keeps s recv q has =
      elim (Bool-cases (has_track recv.track_id (get_down_tracks s recv.stream_id))) [
        | inl there ↦ rw there has
        | inr absent ↦ elim (Option-cases (connection recv)) [
          | inl e ↦ rw (absent, e) has
          | inr (a, e) ↦
              rw (absent, e) (add-Has s recv.stream_id (new_down_track recv a.0 a.1) q has)
        ]
      ]

  add_down_track-Has :
      (s : Subscriber) (recv : Receiver)
      → (add_down_track connection s recv).failed ≡ false
      → Has (add_down_track connection s recv).sub recv
  unfolding add_down_track Has
  add_down_track-Has s recv fine =
      elim (Bool-cases (has_track recv.track_id (get_down_tracks s recv.stream_id))) [
        | inl there ↦ rw there there
        | inr absent ↦ elim (Option-cases (connection recv)) [
          | inl e ↦ let wrong : true ≡ false = rw (absent, e) at fine in absurd (cc)
          | inr (a, e) ↦
              let t = new_down_track recv a.0 a.1 in
              rw (absent, e)
                (ap (has_track recv.track_id) (get_down_tracks-add_self s recv.stream_id t)
                  ∙ has_track-last t (get_down_tracks s recv.stream_id))
        ]
      ]

  -- A track that is there is not added again.
  add_down_track-again :
      (s : Subscriber) (recv : Receiver)
      → Has s recv
      → add_down_track connection s recv ≡ record { sub = s; hooked = []; failed = false }
  unfolding add_down_track Has
  add_down_track-again s recv has = rw has refl

  add_each-keeps :
      (s : Subscriber) (rs : List (ℕ × Receiver)) (q : Receiver)
      → Has s q
      → Has (add_each connection s rs).sub q
  unfolding add_each
  add_each-keeps s [] q has = has
  add_each-keeps s (e ∷ rs) q has =
      let first = add_down_track-keeps s e.1 q has in
      elim (Bool-cases (add_down_track connection s e.1).failed) [
        | inl failed ↦ rw failed first
        | inr fine ↦ rw fine (add_each-keeps (add_down_track connection s e.1).sub rs q first)
      ]

  add_each-Has :
      (s : Subscriber) (rs : List (ℕ × Receiver))
      → (add_each connection s rs).failed ≡ false
      → All (λ (e : ℕ × Receiver). Has (add_each connection s rs).sub e.1) rs
  unfolding add_each
  add_each-Has s [] fine = tt
  add_each-Has s (e ∷ rs) fine = elim (Bool-cases (add_down_track connection s e.1).failed) [
    | inl failed ↦ let wrong : true ≡ false = rw failed at fine in absurd (cc)
    | inr good ↦
        let s' = (add_down_track connection s e.1).sub in
        let on : (add_each connection s (e ∷ rs)).sub ≡ (add_each connection s' rs).sub =
          rw good refl in
        subst (λ (t : Subscriber). Has t e.1 × All (λ (q : ℕ × Receiver). Has t q.1) rs) (sym on)
          (
            add_each-keeps s' rs e.1 (add_down_track-Has s e.1 good),
            add_each-Has s' rs (rw good at fine),
          )
  ]

  add_each-again :
      (s : Subscriber) (rs : List (ℕ × Receiver))
      → All (λ (e : ℕ × Receiver). Has s e.1) rs
      → add_each connection s rs ≡ record { sub = s; hooked = []; failed = false }
  unfolding add_each
  add_each-again s [] has = refl
  add_each-again s (e ∷ rs) has =
      rw (add_down_track-again s e.1 has.0, add_each-again s rs has.1) refl

  pub add_down_tracks-keeps :
      (r : Router) (s : Subscriber) (recv : Option Receiver) (q : Receiver)
      → Has s q
      → Has (add_down_tracks connection r s recv).0.sub q
  unfolding add_down_tracks
  add_down_tracks-keeps r s (some recv) q has = add_down_track-keeps s recv q has
  add_down_tracks-keeps r s none q has = elim (Bool-cases (length r.receivers == 0)) [
    | inl nobody ↦ rw nobody has
    | inr some_ ↦ rw some_ (add_each-keeps s r.receivers q has)
  ]

  pub add_down_tracks-one :
      (r : Router) (s : Subscriber) (recv : Receiver)
      → (add_down_track connection s recv).failed ≡ false
      → Has (add_down_tracks connection r s (some recv)).0.sub recv
  unfolding add_down_tracks
  add_down_tracks-one r s recv fine = add_down_track-Has s recv fine

  -- After a call of `AddDownTracks` for all receivers that does not fail, the peer has a track of each
  -- of them, and a second call adds nothing.
  pub add_down_tracks_complete :
      (r : Router) (s : Subscriber)
      → let s' = (add_down_tracks connection r s none).0 in
        s'.failed ≡ false
        → All (λ (e : ℕ × Receiver). Has s'.sub e.1) r.receivers
          × ((add_down_tracks connection r s'.sub none).0
              ≡ record { sub = s'.sub; hooked = []; failed = false })
  unfolding add_down_tracks
  add_down_tracks_complete r s fine = elim (Bool-cases (length r.receivers == 0)) [
    | inl nobody ↦
        let calm : (add_down_tracks connection r s none).0
            ≡ record { sub = s; hooked = []; failed = false } =
          rw nobody refl in
        (
          subst
              (λ l.
                All (λ (e : ℕ × Receiver). Has (add_down_tracks connection r s none).0.sub e.1) l)
              (sym (empty r.receivers nobody)) tt,
          rw nobody refl,
        )
    | inr some_ ↦
        let all = add_each-Has s r.receivers (rw some_ at fine) in
        rw some_ (all, add_each-again (add_each connection s r.receivers).sub r.receivers all)
  ]
    where
      empty : (l : List (ℕ × Receiver)) → (length l == 0) ≡ true → l ≡ []
      empty [] h = refl
      empty (e ∷ l) h = ground arith
