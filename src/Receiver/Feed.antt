-- ===== src/Receiver/Feed.antt =====
-- receiver.go and downtrack.go together: a simulcast track moves from one layer of a receiver to another.
-- The loop of writeRTP gives a packet of a layer to the tracks that subscribe to it; here it is one of
-- them, and its calls of the receiver are carried out.
use mini_sfu.Base.{ℕ, Bool, false, ◌||◌, ◌==◌, if◌then◌else◌, Option, none, some, List, [], ◌∷◌}
use mini_sfu.DownTrack.{
  DownTrack, ExtPacket, Output, enqueue, send_pli, send_fir, set_target_bitrate, retransmit,
  write_rtp, switch_spatial_layer,
}
use mini_sfu.Receiver.{
  WebRtcReceiver, Subscription, subscribers, index_of, sub_down_track, delete_down_track,
}

-- the receiver and one track of a peer
pub record Feed : Type 0 where
  pub receiver : WebRtcReceiver
  pub track : DownTrack

module _ (sub : Subscription) where
  -- what a call of the track does to the receiver
  unfoldable pub call : WebRtcReceiver → Output → WebRtcReceiver
  call w (enqueue p) = w
  call w (send_pli sender media) = w
  call w (send_fir sender media) = w
  call w (Output.delete_down_track layer) = delete_down_track w layer sub.peer_id
  call w (Output.sub_down_track layer) = (sub_down_track w sub layer).0
  call w (set_target_bitrate bitrate) = w
  call w (retransmit metas) = w

  unfoldable pub calls : WebRtcReceiver → List Output → WebRtcReceiver
  calls w [] = w
  calls w (o ∷ os) = calls (call w o) os

  -- The lock of the layer, which writeRTP holds, is asked for again: a mutex of Go then waits for ever.
  unfoldable pub locks_again : ℕ → List Output → Bool
  locks_again layer [] = false
  locks_again layer (Output.delete_down_track l ∷ os) =
      let rest = locks_again layer os in (l == layer) || rest
  locks_again layer (Output.sub_down_track l ∷ os) =
      let rest = locks_again layer os in (l == layer) || rest
  locks_again layer (enqueue p ∷ os) = locks_again layer os
  locks_again layer (send_pli sender media ∷ os) = locks_again layer os
  locks_again layer (send_fir sender media ∷ os) = locks_again layer os
  locks_again layer (set_target_bitrate bitrate ∷ os) = locks_again layer os
  locks_again layer (retransmit metas ∷ os) = locks_again layer os

  -- A packet of a layer reaches the track if the peer subscribes to the layer; `none` is a deadlock.
  unfoldable pub deliver : Feed → ℕ → ExtPacket → ℕ → Option Feed
  deliver f layer e now = elim (index_of sub.peer_id (subscribers f.receiver layer)) [
    | none ↦ some f
    | some i ↦
        let (d, out) = write_rtp f.track e now in
        if locks_again layer out
        then none
        else some (record { receiver = calls f.receiver out; track = d })
  ]

  -- `SwitchSpatialLayer`, with what the receiver answers
  unfoldable pub switch : Feed → ℕ → Feed
  switch f target =
      let (d, out) = switch_spatial_layer f.track target (sub_down_track f.receiver sub target).1 in
      record { receiver = calls f.receiver out; track = d }

  -- packets with their layers and times, one after the other
  unfoldable pub feed : Feed → List (ℕ × ExtPacket × ℕ) → Option Feed
  feed f [] = some f
  feed f (p ∷ ps) = elim (deliver f p.0 p.1 p.2) [ none ↦ none | some f' ↦ feed f' ps ]
