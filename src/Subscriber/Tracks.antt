-- ===== src/Subscriber/Tracks.antt =====
-- The tracks of a subscriber, by stream.
use mini_sfu.Base.Maps.{lookup, insert, lookup-insert_self, lookup-insert_other}
use mini_sfu.Base.{
  ℕ, suc, ◌+◌, ◌<◌, ◌≡◌, ◌≢◌, refl, ap, ◌∙◌, sym, subst, Option, none, some, List, [], ◌∷◌, ◌++◌,
  ◌==◌, get_or, length, All, Bool-cases, Option-cases, inl, inr, ◌⊎◌, arith,
}
use mathlib.Core.List.{Perm}
use mini_sfu.Receiver.{swap_remove}
use mini_sfu.Receiver.SwapRemove.{swap_remove-Perm}
use mini_sfu.Subscriber.{
  Track, no_track, Subscriber, get_down_tracks, add_down_track, find_track, remove_down_track,
  add_data_channel, new_subscriber,
}

-- the entry of a stream, or nothing
abbrev pub entry : Option (List Track) → List Track
entry none = []
entry (some dts) = dts

get_down_tracks-entry :
    (s : Subscriber) (sid : ℕ) → get_down_tracks s sid ≡ entry (lookup sid s.tracks)
unfolding get_down_tracks
get_down_tracks-entry s sid = elim (Option-cases (lookup sid s.tracks)) [
  | inl e ↦ rw (get_down_tracks, e) refl
  | inr (dts, e) ↦ rw (get_down_tracks, e) refl
]

get_down_tracks-insert_self :
    (s : Subscriber) (sid : ℕ) (dts : List Track)
    → get_down_tracks (record s { tracks = insert sid dts s.tracks }) sid ≡ dts
get_down_tracks-insert_self s sid dts =
    get_down_tracks-entry (record s { tracks = insert sid dts s.tracks }) sid
    ∙ ap entry (lookup-insert_self sid dts s.tracks)

get_down_tracks-insert_other :
    (s : Subscriber) (sid other : ℕ) (dts : List Track)
    → other ≢ sid
    → get_down_tracks (record s { tracks = insert sid dts s.tracks }) other
      ≡ get_down_tracks s other
get_down_tracks-insert_other s sid other dts ne =
    get_down_tracks-entry (record s { tracks = insert sid dts s.tracks }) other
    ∙ ap entry (lookup-insert_other sid other dts s.tracks ne)
    ∙ sym (get_down_tracks-entry s other)

-- The tracks of the stream are the new one at the end.
pub get_down_tracks-add_self :
    (s : Subscriber) (sid : ℕ) (t : Track)
    → get_down_tracks (add_down_track s sid t) sid ≡ get_down_tracks s sid ++ (t ∷ [])
unfolding add_down_track
get_down_tracks-add_self s sid t = elim (Option-cases (lookup sid s.tracks)) [
  | inl e ↦
      rw e (get_down_tracks-insert_self s sid (t ∷ []))
      ∙ ap (λ l. l ++ (t ∷ [])) (sym (get_down_tracks-entry s sid ∙ ap entry e))
  | inr (dts, e) ↦
      rw e (get_down_tracks-insert_self s sid (dts ++ (t ∷ [])))
      ∙ ap (λ l. l ++ (t ∷ [])) (sym (get_down_tracks-entry s sid ∙ ap entry e))
]

pub get_down_tracks-add_other :
    (s : Subscriber) (sid other : ℕ) (t : Track)
    → other ≢ sid
    → get_down_tracks (add_down_track s sid t) other ≡ get_down_tracks s other
unfolding add_down_track
get_down_tracks-add_other s sid other t ne = elim (Option-cases (lookup sid s.tracks)) [
  | inl e ↦ rw e (get_down_tracks-insert_other s sid other (t ∷ []) ne)
  | inr (dts, e) ↦ rw e (get_down_tracks-insert_other s sid other (dts ++ (t ∷ [])) ne)
]

-- The result of the loop is the index that it starts with, or that of a place with the track.
find_track-cases :
    (i : ℕ) (t : Track) (ts : List Track) (index : Option ℕ)
    → (All (λ (u : Track). u.pointer ≢ t.pointer) ts × (find_track i t ts index ≡ index))
      ⊎ ((k : ℕ) × (find_track i t ts index ≡ some (i + k))
          × (k < length ts)
          × ((get_or ts k no_track).pointer ≡ t.pointer))
unfolding find_track
find_track-cases i t [] index = inl (tt, refl)
find_track-cases i t (u ∷ ts) index = elim (Bool-cases (u.pointer == t.pointer)) [
  | inl same ↦ elim (find_track-cases (i + 1) t ts (some i)) [
    | inl (all, e) ↦ inr (0, rw same (e ∙ ap some (omega arith)), omega arith, ground (arith, same))
    | inr (k, e, lt, p) ↦ inr (suc k, rw (same, e) (ap some (omega arith)), omega arith, p)
  ]
  | inr other ↦ elim (find_track-cases (i + 1) t ts index) [
    | inl (all, e) ↦ inl ((ground (arith, other), all), rw other e)
    | inr (k, e, lt, p) ↦ inr (suc k, rw (other, e) (ap some (omega arith)), omega arith, p)
  ]
]

-- A track is removed from its stream, and the others are those that are left, in some order; or it
-- is not in the stream, and nothing changes. No other stream changes.
pub remove_down_track-Perm :
    (s : Subscriber) (sid : ℕ) (t : Track)
    → (((u : Track) × (u.pointer ≡ t.pointer)
          × Perm (get_down_tracks s sid) (u ∷ get_down_tracks (remove_down_track s sid t) sid))
        ⊎ (All (λ (u : Track). u.pointer ≢ t.pointer) (get_down_tracks s sid)
            × (remove_down_track s sid t ≡ s)))
      × ((other : ℕ)
          → other ≢ sid
          → get_down_tracks (remove_down_track s sid t) other ≡ get_down_tracks s other)
unfolding remove_down_track
remove_down_track-Perm s sid t = elim (Option-cases (lookup sid s.tracks)) [
  | inl e ↦ (
    inr (
      subst (All (λ (u : Track). u.pointer ≢ t.pointer))
          (sym (get_down_tracks-entry s sid ∙ ap entry e)) tt,
      rw (remove_down_track, e) refl,
    ),
    λ other ne. rw (remove_down_track, e) refl,
  )
  | inr (dts, e) ↦
      let held : get_down_tracks s sid ≡ dts = get_down_tracks-entry s sid ∙ ap entry e in
      elim (find_track-cases 0 t dts none) [
        | inl (all, f) ↦ (
          inr (
            subst (All (λ (u : Track). u.pointer ≢ t.pointer)) (sym held) all,
            rw (remove_down_track, e, f) refl,
          ),
          λ other ne. rw (remove_down_track, e, f) refl,
        )
        | inr (k, f, lt, p) ↦
            let g : find_track 0 t dts none ≡ some k = f ∙ ap some (omega arith) in
            let dts' = swap_remove k dts no_track in
            (
              inl (
                get_or dts k no_track,
                p,
                rw (remove_down_track, held, e, g)
                    (subst (λ (l : List Track). Perm dts (get_or dts k no_track ∷ l))
                      (sym (get_down_tracks-insert_self s sid dts'))
                      (swap_remove-Perm dts k no_track lt)),
              ),
              λ other ne.
                  rw (remove_down_track, e, g) (get_down_tracks-insert_other s sid other dts' ne),
            )
      ]
]

-- The tracks of a stream are read off the map of tracks alone.
pub get_down_tracks-same :
    (s s' : Subscriber) (sid : ℕ)
    → s'.tracks ≡ s.tracks
    → get_down_tracks s' sid ≡ get_down_tracks s sid
get_down_tracks-same s s' sid same =
    get_down_tracks-entry s' sid
    ∙ ap (λ (m : List (ℕ × List Track)). entry (lookup sid m)) same
    ∙ sym (get_down_tracks-entry s sid)

-- A data channel changes no track.
pub add_data_channel-tracks :
    (s : Subscriber) (label : ℕ) (created : Option ℕ)
    → (add_data_channel s label created).0.tracks ≡ s.tracks
unfolding add_data_channel
add_data_channel-tracks s label created = elim (Option-cases (lookup label s.channels)) [
  | inl e ↦ made created e
  | inr (dc, e) ↦ rw (add_data_channel, e) refl
]
  where
    made :
        (c : Option ℕ)
        → lookup label s.channels ≡ none
        → (add_data_channel s label c).0.tracks ≡ s.tracks
    made none e = rw (add_data_channel, e) refl
    made (some dc) e = rw (add_data_channel, e) refl

pub get_down_tracks-none : (id sid : ℕ) → get_down_tracks (new_subscriber id) sid ≡ []
get_down_tracks-none id sid = get_down_tracks-entry (new_subscriber id) sid

-- If the connection makes a channel, or there is one, the subscriber has it.
pub add_data_channel-lookup :
    (s : Subscriber) (label : ℕ) (created : Option ℕ)
    → ((dc : ℕ) × (created ≡ some dc))
    → (dc : ℕ) × (lookup label (add_data_channel s label created).0.channels ≡ some dc)
unfolding add_data_channel
add_data_channel-lookup s label created (dc, made) = elim (Option-cases (lookup label s.channels)) [
  | inl e ↦ (dc, rw (add_data_channel, e, made) (lookup-insert_self label dc s.channels))
  | inr (old, e) ↦ (old, rw (add_data_channel, e) e)
]
