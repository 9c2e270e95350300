-- ===== src/Router/Distinct.antt =====
-- A peer never gets a track twice.
use mini_sfu.Base.{
  ℕ, ◌==◌, ◌≡◌, sym, subst, true, false, Option, none, some, List, [], ◌∷◌, ◌++◌, map, length,
  Bool-cases, Option-cases, inl, inr, arith,
}
use mathlib.Core.HLevel.{⊥_prop}
use mathlib.Core.Logic.Or
use mathlib.Core.List.{
  perm_append_singleton, Nodup, Nodup-cons, Mem, not-mem-nil, eq-or-mem_of_mem-cons,
}
use mathlib.Core.List.Pairwise
use mathlib.Core.List.Perm
use mini_sfu.Subscriber
use mini_sfu.Subscriber.{Track, Subscriber, get_down_tracks, remove_down_track, new_subscriber}
use mini_sfu.Subscriber.Tracks.{
  get_down_tracks-none, get_down_tracks-same, get_down_tracks-add_self, get_down_tracks-add_other,
  remove_down_track-Perm,
}
use mini_sfu.Router.{
  Receiver, Router, has_track, Connection, new_down_track, add_down_track, add_each,
  add_down_tracks,
}

abbrev pub ids : List Track → List ℕ
ids ts = map (λ (t : Track). t.id) ts

-- In each stream every identifier stands once.
pub IsDistinct : Subscriber → Type 0
IsDistinct s = (sid : ℕ) → Nodup (ids (get_down_tracks s sid))

has_track-not : (id : ℕ) (ts : List Track) → has_track id ts ≡ false → ¬ Mem id (ids ts)
unfolding has_track
has_track-not id [] h m = not-mem-nil m
has_track-not id (t ∷ ts) h m = elim (Bool-cases (t.id == id)) [
  | inl same ↦ let wrong : true ≡ false = rw same at h in absurd (cc)
  | inr other ↦
      Or.elim ⊥_prop (eq-or-mem_of_mem-cons m) (λ e. ground (arith, other, e))
        (has_track-not id ts (rw other at h))
]

snoc-Nodup :
    (t : Track) (ts : List Track)
    → ¬ Mem t.id (ids ts)
    → Nodup (ids ts)
    → Nodup (ids (ts ++ (t ∷ [])))
snoc-Nodup t ts absent d =
    Perm.nodup (Perm.map (λ (u : Track). u.id) (Perm.symm (perm_append_singleton t ts)))
      (Nodup-cons.1 (absent, d))

add_track-IsDistinct :
    (s : Subscriber) (sid : ℕ) (t : Track)
    → has_track t.id (get_down_tracks s sid) ≡ false
    → IsDistinct s
    → IsDistinct (Subscriber.add_down_track s sid t)
unfolding IsDistinct
add_track-IsDistinct s sid t absent distinct other = elim (Bool-cases (other == sid)) [
  | inl same ↦
      let at : sid ≡ other = ground (arith, same) in
      subst (λ o. Nodup (ids (get_down_tracks (Subscriber.add_down_track s sid t) o))) at
        (subst (λ l. Nodup (ids l)) (sym (get_down_tracks-add_self s sid t))
          (snoc-Nodup t (get_down_tracks s sid) (has_track-not t.id (get_down_tracks s sid) absent)
            (distinct sid)))
  | inr differs ↦
      subst (λ l. Nodup (ids l))
        (sym (get_down_tracks-add_other s sid other t (ground (arith, differs)))) (distinct other)
]

add_down_track-IsDistinct :
    (connection : Connection) (s : Subscriber) (recv : Receiver)
    → IsDistinct s
    → IsDistinct (add_down_track connection s recv).sub
unfolding add_down_track
add_down_track-IsDistinct connection s recv distinct =
    elim (Bool-cases (has_track recv.track_id (get_down_tracks s recv.stream_id))) [
      | inl there ↦ rw there distinct
      | inr absent ↦ elim (Option-cases (connection recv)) [
        | inl e ↦ rw (absent, e) distinct
        | inr (a, e) ↦
            rw (absent, e)
              (add_track-IsDistinct s recv.stream_id (new_down_track recv a.0 a.1) absent distinct)
      ]
    ]

add_each-IsDistinct :
    (connection : Connection) (s : Subscriber) (rs : List (ℕ × Receiver))
    → IsDistinct s
    → IsDistinct (add_each connection s rs).sub
unfolding add_each
add_each-IsDistinct connection s [] distinct = distinct
add_each-IsDistinct connection s (e ∷ rs) distinct =
    let first = add_down_track-IsDistinct connection s e.1 distinct in
    elim (Bool-cases (add_down_track connection s e.1).failed) [
      | inl failed ↦ rw failed first
      | inr fine ↦
          rw fine (add_each-IsDistinct connection (add_down_track connection s e.1).sub rs first)
    ]

-- Whatever the connection answers, no call of `AddDownTracks` gives a stream of the peer a second
-- track of the same identifier.
pub add_down_tracks-IsDistinct :
    (connection : Connection) (r : Router) (s : Subscriber) (recv : Option Receiver)
    → IsDistinct s
    → IsDistinct (add_down_tracks connection r s recv).0.sub
unfolding add_down_tracks
add_down_tracks-IsDistinct connection r s (some recv) distinct =
    add_down_track-IsDistinct connection s recv distinct
add_down_tracks-IsDistinct connection r s none distinct =
    elim (Bool-cases (length r.receivers == 0)) [
      | inl nobody ↦ rw nobody distinct
      | inr some_ ↦ rw some_ (add_each-IsDistinct connection s r.receivers distinct)
    ]

-- Nor does the removal of a track.
pub remove_down_track-IsDistinct :
    (s : Subscriber) (sid : ℕ) (t : Track) → IsDistinct s → IsDistinct (remove_down_track s sid t)
unfolding IsDistinct
remove_down_track-IsDistinct s sid t distinct other = elim (Bool-cases (other == sid)) [
  | inl same ↦
      let at : sid ≡ other = ground (arith, same) in
      subst (λ o. Nodup (ids (get_down_tracks (remove_down_track s sid t) o))) at
        (elim (remove_down_track-Perm s sid t).0 [
          | inl (u, p, perm) ↦
              (Nodup-cons.0 (Perm.nodup (Perm.map (λ (u : Track). u.id) perm) (distinct sid))).1
          | inr (all, e) ↦ subst (λ r. Nodup (ids (get_down_tracks r sid))) (sym e) (distinct sid)
        ])
  | inr differs ↦
      subst (λ l. Nodup (ids l))
        (sym ((remove_down_track-Perm s sid t).1 other (ground (arith, differs)))) (distinct other)
]

pub same_tracks-IsDistinct :
    (s s' : Subscriber) → s'.tracks ≡ s.tracks → IsDistinct s → IsDistinct s'
unfolding IsDistinct
same_tracks-IsDistinct s s' same distinct sid =
    subst (λ l. Nodup (ids l)) (sym (get_down_tracks-same s s' sid same)) (distinct sid)

pub new_subscriber-IsDistinct : (id : ℕ) → IsDistinct (new_subscriber id)
unfolding IsDistinct
new_subscriber-IsDistinct id sid =
    subst (λ l. Nodup (ids l)) (sym (get_down_tracks-none id sid)) Pairwise.nil
