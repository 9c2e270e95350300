-- ===== src/Receiver.antt =====
-- internal/sfu/receiver.go: the tracks that subscribe to the layers of one published track. The
-- tracks of the peer connection, the buffers and the workers are not modelled; what the code asks
-- of them is an argument.
pub mod SwapRemove
pub mod Subscriptions
pub mod Throttle
pub mod Retransmit
pub mod Feed
pub mod Moves
pub mod Switching
mod Tests
use mini_sfu.Base.{
  ℕ, zero, suc, ◌+◌, ◌-◌, ◌≤◌, ◌<◌, Bool, true, false, ◌&&◌, Option, none, some, List, [], ◌∷◌,
  ◌++◌, ltb, leb, ◌==◌, if◌then◌else◌, get_or, set, length,
}

-- `track.RID()`
pub data Rid : Type 0 where
  full_resolution half_resolution quarter_resolution no_rid : Rid

-- a `*DownTrack` in the lists: the peer that it belongs to, and which track it is
pub record Subscription : Type 0 where
  pub peer_id : ℕ
  pub track : ℕ

-- The fields of `WebRTCReceiver` behind its locks. There are three layers: `up_tracks` has the SSRC
-- of each that has come, `bitrates` what its buffer measures, and `down_tracks` its subscribers,
-- `none` for a nil slice. `last_pli` is in nanoseconds.
pub record WebRtcReceiver : Type 0 where
  pub is_simulcast : Bool
  pub up_tracks : List (Option ℕ)
  pub bitrates : List (Option ℕ)
  pub down_tracks : List (Option (List Subscription))
  pub last_pli : ℕ

abbrev pub new_web_rtc_receiver : Bool → WebRtcReceiver
new_web_rtc_receiver is_simulcast = record {
  is_simulcast = is_simulcast;
  up_tracks = none ∷ none ∷ none ∷ [];
  bitrates = none ∷ none ∷ none ∷ [];
  down_tracks = none ∷ none ∷ none ∷ [];
  last_pli = 0;
}

-- `SSRC`
pub ssrc : WebRtcReceiver → ℕ → ℕ
ssrc w layer = elim (get_or w.up_tracks layer none) [ none ↦ 0 | some s ↦ s ]

abbrev pub layer_of : Rid → ℕ
layer_of full_resolution = 2
layer_of half_resolution = 1
layer_of quarter_resolution = 0
layer_of no_rid = 0

-- `AddUpTrack`, less the start of `writeRTP`
pub add_up_track : WebRtcReceiver → Rid → ℕ → ℕ → WebRtcReceiver
add_up_track w rid track_ssrc bitrate = record w {
  up_tracks = set w.up_tracks (layer_of rid) (some track_ssrc);
  bitrates = set w.bitrates (layer_of rid) (some bitrate);
  down_tracks = set w.down_tracks (layer_of rid) (some []);
}

-- The loop of `AddDownTrack` from layer `i` on: it stops at the first track, or goes on to the best.
pub choose_layer : Bool → ℕ → ℕ → List (Option ℕ) → ℕ
choose_layer best i layer [] = layer
choose_layer best i layer (none ∷ ts) = choose_layer best (i + 1) layer ts
choose_layer best i layer (some t ∷ ts) = if best then choose_layer best (i + 1) i ts else i

abbrev pub initial_layer : WebRtcReceiver → Bool → ℕ
initial_layer w best = if w.is_simulcast then choose_layer best 0 0 w.up_tracks else 0

-- `append` takes a nil slice for an empty one.
abbrev pub subscribers : WebRtcReceiver → ℕ → List Subscription
subscribers w layer = elim (get_or w.down_tracks layer none) [ none ↦ [] | some ts ↦ ts ]

abbrev pub set_subscribers : WebRtcReceiver → ℕ → List Subscription → WebRtcReceiver
set_subscribers w layer ts = record w { down_tracks = set w.down_tracks layer (some ts) }

-- `AddDownTrack`; the layer is that of `SetInitialLayers`.
pub add_down_track : WebRtcReceiver → Subscription → Bool → WebRtcReceiver × ℕ
add_down_track w t best =
    let layer = initial_layer w best in
    (set_subscribers w layer (subscribers w layer ++ (t ∷ [])), layer)

-- `SubDownTrack`; the Boolean is false for `errNoReceiverFound`.
unfoldable pub sub_down_track : WebRtcReceiver → Subscription → ℕ → WebRtcReceiver × Bool
sub_down_track w t layer = elim (get_or w.down_tracks layer none) [
  | none ↦ (w, false)
  | some ts ↦ (set_subscribers w layer (ts ++ (t ∷ [])), true)
]

-- the index of the first subscriber of the peer
pub index_of : ℕ → List Subscription → Option ℕ
index_of id [] = none
index_of id (t ∷ ts) =
    let rest = index_of id ts in
    if t.peer_id == id then some 0 else (elim rest [ none ↦ none | some i ↦ some (suc i) ])

module _ {ℓ} {A : Type ℓ} where
  abbrev pub last_or : List A → A → A
  last_or [] d = d
  last_or (x ∷ xs) d = last_or xs x

  abbrev pub drop_last : List A → List A
  drop_last [] = []
  drop_last (x ∷ []) = []
  drop_last (x ∷ y ∷ xs) = x ∷ drop_last (y ∷ xs)

  -- the last element into the place of the one at `i`, and the slice without its last place
  pub swap_remove : ℕ → List A → A → List A
  swap_remove i xs d = drop_last (set xs i (last_or xs d))

abbrev pub no_subscription : Subscription
no_subscription = record { peer_id = 0; track = 0 }

-- `DeleteDownTrack`
unfoldable pub delete_down_track : WebRtcReceiver → ℕ → ℕ → WebRtcReceiver
delete_down_track w layer id = elim (index_of id (subscribers w layer)) [
  | none ↦ w
  | some i ↦ set_subscribers w layer (swap_remove i (subscribers w layer) no_subscription)
]

-- `GetBitrate`
pub get_bitrate : WebRtcReceiver → List ℕ
get_bitrate w = bitrates_of w.bitrates
  where
    bitrates_of : List (Option ℕ) → List ℕ
    bitrates_of [] = []
    bitrates_of (none ∷ bs) = 0 ∷ bitrates_of bs
    bitrates_of (some b ∷ bs) = b ∷ bitrates_of bs

-- `closeTracks`: every subscriber is closed, in order, and the lists are emptied.
pub close_tracks :
    List (Option (List Subscription)) → List (Option (List Subscription)) × List Subscription
close_tracks [] = ([], [])
close_tracks (none ∷ layers) = let (rest, closed) = close_tracks layers in (none ∷ rest, closed)
close_tracks (some ts ∷ layers) =
    let (rest, closed) = close_tracks layers in (some [] ∷ rest, ts ++ closed)

-- 500 ms
abbrev pub pli_interval : ℕ
pli_interval = 500000000

-- `SendRTCP` at `now` for packets of which the first is a PLI or not; the Boolean is whether they
-- go to the channel.
pub send_rtcp : WebRtcReceiver → Bool → ℕ → WebRtcReceiver × Bool
send_rtcp w first_is_pli now =
    if first_is_pli
    then (if ltb now (w.last_pli + pli_interval)
        then (w, false)
        else (record w { last_pli = now }, true))
    else (w, true)
