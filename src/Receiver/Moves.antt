-- ===== src/Receiver/Moves.antt =====
-- A switch of a simulcast track, from the request to the key frame that completes it.
use mini_sfu.Base.{
  ℕ, ◌<◌, ◌≡◌, ◌≢◌, refl, ap, sym, ◌∙◌, Bool, true, false, none, some, List, [], ◌∷◌, ◌++◌, All,
  get_or, Option-cases, inl, inr, ◌⊎◌, arith,
}
use mini_sfu.Base.Bits.{bit_or_same}
use mini_sfu.DownTrack.{
  DownTrack, simulcast_down_track, ExtPacket, send_pli, write_rtp, write_simple_rtp,
  write_simulcast_rtp, forward_simulcast, align_simulcast, note_arrival, switch_spatial_layer,
  pack_layers, current_layer, target_layer, settled_layers,
}
use mini_sfu.DownTrack.Binding.{gate}
use mini_sfu.DownTrack.Layers.{unpack, switch_begins}
use mini_sfu.DownTrack.Simulcast.{write_simulcast_rtp-ready, ready}
use mini_sfu.Receiver.{
  WebRtcReceiver, Subscription, subscribers, set_subscribers, index_of, sub_down_track,
  delete_down_track,
}
use mini_sfu.Receiver.Feed.{Feed, call, calls, locks_again, deliver, switch, feed}

-- A bound simulcast track that forwards the source `src` of its current layer, with the target layer in
-- its packed layers.
pub record Forwards (current target src : ℕ) (d : DownTrack) : Type 0 where
  pub enabled : d.enabled ≡ true
  pub bound : d.bound ≡ true
  pub kind : d.track_type ≡ simulcast_down_track
  pub synced : d.re_sync ≡ false
  pub source : d.last_ssrc ≡ src
  pub layers : d.spatial_layer ≡ pack_layers target current

-- A packet of the source, or one of another that is no key frame
abbrev pub IsPassing : ℕ → ℕ × ExtPacket × ℕ → Type 0
IsPassing src p = (p.1.packet.ssrc ≡ src) ⊎ ((p.1.packet.ssrc ≢ src) × (p.1.key_frame ≡ false))

write_rtp-simulcast :
    (current target src : ℕ) (d : DownTrack) (e : ExtPacket) (now : ℕ)
    → Forwards current target src d
    → write_rtp d e now ≡ write_simulcast_rtp d e now
unfolding write_rtp
write_rtp-simulcast current target src d e now f =
    gate d.enabled d.bound d.track_type simulcast_down_track (d, []) (write_simple_rtp d e)
      (write_simulcast_rtp d e now) f.enabled f.bound f.kind

-- What forwarding a packet leaves as it is
forward_simulcast-keeps :
    (d : DownTrack) (e : ExtPacket) (now : ℕ)
    → let d' = (forward_simulcast d e now).0 in
      (d'.enabled ≡ d.enabled)
      × (d'.bound ≡ d.bound)
      × (d'.track_type ≡ d.track_type)
      × (d'.re_sync ≡ d.re_sync)
      × (d'.spatial_layer ≡ d.spatial_layer)
      × (d'.last_ssrc ≡ e.packet.ssrc)
unfolding forward_simulcast align_simulcast
forward_simulcast-keeps d e now = ground arith

write_simulcast_rtp-own :
    (d : DownTrack) (e : ExtPacket) (now : ℕ)
    → d.re_sync ≡ false
    → d.last_ssrc ≡ e.packet.ssrc
    → write_simulcast_rtp d e now ≡ forward_simulcast d e now
unfolding write_simulcast_rtp
write_simulcast_rtp-own d e now synced own = ground (arith, synced, own)

write_simulcast_rtp-waits :
    (d : DownTrack) (e : ExtPacket) (now : ℕ)
    → d.re_sync ≡ false
    → d.last_ssrc ≢ e.packet.ssrc
    → current_layer d.spatial_layer ≢ target_layer d.spatial_layer
    → e.key_frame ≡ false
    → write_simulcast_rtp d e now ≡ (d, send_pli d.ssrc e.packet.ssrc ∷ [])
unfolding write_simulcast_rtp note_arrival
write_simulcast_rtp-waits d e now synced differs moving no_key =
    ground (arith, synced, differs, moving, no_key)

module _ (sub : Subscription) (current target src : ℕ) (c : current < 3) (t : target < 3)
    (apart : current ≢ target) where
  moving :
      (d : DownTrack)
      → Forwards current target src d
      → (current_layer d.spatial_layer ≡ current) × (target_layer d.spatial_layer ≡ target)
  moving d f =
      let u = unpack target current (omega (arith, t)) (omega (arith, c)) in
      (ap current_layer f.layers ∙ u.0, ap target_layer f.layers ∙ u.1)

  -- A packet that passes changes neither the layers of the track nor the receiver.
  passing-Forwards :
      (d : DownTrack) (w : WebRtcReceiver) (p : ℕ × ExtPacket × ℕ)
      → Forwards current target src d
      → IsPassing src p
      → Forwards current target src (write_rtp d p.1 p.2).0
        × (calls sub w (write_rtp d p.1 p.2).1 ≡ w)
        × (locks_again sub p.0 (write_rtp d p.1 p.2).1 ≡ false)
  unfolding forward_simulcast calls call locks_again
  passing-Forwards d w p f (inl own) =
      let same =
        write_rtp-simulcast current target src d p.1 p.2 f
        ∙ write_simulcast_rtp-own d p.1 p.2 f.synced (f.source ∙ sym own) in
      let k = forward_simulcast-keeps d p.1 p.2 in
      rw same (
        record {
          enabled = k.0 ∙ f.enabled;
          bound = k.1 ∙ f.bound;
          kind = k.2 ∙ f.kind;
          synced = k.3 ∙ f.synced;
          source = k.5 ∙ own;
          layers = k.4 ∙ f.layers;
        },
        refl,
        refl,
      )
  passing-Forwards d w p f (inr (differs, no_key)) =
      let m = moving d f in
      let waits =
        write_simulcast_rtp-waits d p.1 p.2 f.synced (λ e. differs (sym e ∙ f.source))
          (λ e. apart (sym m.0 ∙ e ∙ m.1)) no_key in
      rw (write_rtp-simulcast current target src d p.1 p.2 f ∙ waits) (f, refl, refl)

  deliver-Forwards :
      (f : Feed) (p : ℕ × ExtPacket × ℕ)
      → Forwards current target src f.track
      → IsPassing src p
      → (f' : Feed) × (deliver sub f p.0 p.1 p.2 ≡ some f')
        × Forwards current target src f'.track
        × (f'.receiver ≡ f.receiver)
  unfolding deliver
  deliver-Forwards f p forwards passing =
      elim (Option-cases (index_of sub.peer_id (subscribers f.receiver p.0))) [
        | inl e ↦ (f, rw (deliver, e) refl, forwards, refl)
        | inr (i, e) ↦
            let (next, same, free) = passing-Forwards f.track f.receiver p forwards passing in
            let (d, out) = write_rtp f.track p.1 p.2 in
            (
              record { receiver = calls sub f.receiver out; track = d },
              rw (deliver, e, free) refl,
              next,
              same,
            )
      ]

  feed-cons :
      (f f' : Feed) (p : ℕ × ExtPacket × ℕ) (ps : List (ℕ × ExtPacket × ℕ))
      → deliver sub f p.0 p.1 p.2 ≡ some f'
      → feed sub f (p ∷ ps) ≡ feed sub f' ps
  unfolding feed
  feed-cons f f' p ps e = rw (feed, e) refl

  pub feed-Forwards :
      (ps : List (ℕ × ExtPacket × ℕ)) (f : Feed)
      → Forwards current target src f.track
      → All (IsPassing src) ps
      → (f' : Feed) × (feed sub f ps ≡ some f')
        × Forwards current target src f'.track
        × (f'.receiver ≡ f.receiver)
  unfolding feed
  feed-Forwards [] f forwards passing = (f, refl, forwards, refl)
  feed-Forwards (p ∷ ps) f forwards (now, later) =
      let (f1, got, next, same) = deliver-Forwards f p forwards now in
      let (f2, fed, last, same') = feed-Forwards ps f1 next later in
      (f2, feed-cons f f1 p ps got ∙ fed, last, same' ∙ same)

  -- the key frame of the new layer
  pub key-Forwards :
      (d : DownTrack) (w : WebRtcReceiver) (e : ExtPacket) (now : ℕ)
      → Forwards current target src d
      → e.packet.ssrc ≢ src
      → e.key_frame ≡ true
      → let r = write_rtp d e now in
        (r.0.spatial_layer ≡ target)
        × (r.0.last_ssrc ≡ e.packet.ssrc)
        × (calls sub w r.1 ≡ delete_down_track w current sub.peer_id)
        × (locks_again sub target r.1 ≡ false)
  unfolding forward_simulcast calls call locks_again settled_layers
  key-Forwards d w e now f differs frame =
      let m = moving d f in
      let r =
        write_rtp-simulcast current target src d e now f
        ∙ write_simulcast_rtp-ready d e now f.synced (λ x. differs (sym x ∙ f.source))
            (λ x. apart (sym m.0 ∙ x ∙ m.1)) frame in
      let k = forward_simulcast-keeps (ready d) e now in
      rw r (
        k.4 ∙ bit_or_same (target_layer d.spatial_layer) ∙ m.1,
        k.5,
        ap (λ l. delete_down_track w l sub.peer_id) m.0,
        ground (arith, m.0, apart),
      )

  -- the request, at a track that is settled
  pub switch-Forwards :
      (f : Feed) (ts : List Subscription)
      → Forwards current current src f.track
      → get_or f.receiver.down_tracks target none ≡ some ts
      → Forwards current target src (switch sub f target).track
        × ((switch sub f target).receiver ≡ set_subscribers f.receiver target (ts ++ (sub ∷ [])))
  unfolding switch calls call sub_down_track
  switch-Forwards f ts forwards come =
      let w = f.receiver in
      let got : sub_down_track w sub target ≡ (set_subscribers w target (ts ++ (sub ∷ [])), true) =
        rw (sub_down_track, come) refl in
      let begins =
        ap (λ (r : WebRtcReceiver × Bool). switch_spatial_layer f.track target r.1) got
        ∙ switch_begins f.track current target forwards.kind forwards.layers (omega (arith, c))
            (omega (arith, t)) apart in
      rw begins (
        record {
          enabled = forwards.enabled;
          bound = forwards.bound;
          kind = forwards.kind;
          synced = forwards.synced;
          source = forwards.source;
          layers = refl;
        },
        ap (λ (r : WebRtcReceiver × Bool). r.0) got,
      )
