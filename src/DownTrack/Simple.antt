-- ===== src/DownTrack/Simple.antt =====
-- Runs of `writeSimpleRTP` of downtrack.go.
use mini_sfu.Base.{
  ℕ, ◌+◌, ◌<◌, ◌≡◌, ◌≢◌, refl, true, false, List, [], ◌∷◌, ◌++◌, map, All, u16, u32, sub16, sub32,
  arith,
}
use mini_sfu.DownTrack.{
  DownTrack, ExtPacket, Output, enqueue, send_pli, is_video, forward_simple, sync_simple,
  write_simple_rtp,
}

-- the packets of a source, one after the other
unfoldable pub run_simple : DownTrack → List ExtPacket → DownTrack × List Output
run_simple d [] = (d, [])
run_simple d (e ∷ es) =
    let (d', out) = write_simple_rtp d e in let (d'', rest) = run_simple d' es in (d'', out ++ rest)

-- What the pacer gets for a packet: payload type and SSRC are the track's, number and time are
-- moved back by fixed offsets.
abbrev pub shifted : ℕ → ℕ → ℕ → ℕ → ExtPacket → Output
shifted payload_type ssrc sn_offset ts_offset e = enqueue (record e.packet {
  payload_type = payload_type;
  ssrc = ssrc;
  sequence_number = sub16 e.packet.sequence_number sn_offset;
  timestamp = sub32 e.packet.timestamp ts_offset;
})

-- What stays when packets are forwarded.
abbrev SameHeaders : DownTrack → DownTrack → Type 0
SameHeaders d d' = (d'.payload_type ≡ d.payload_type) × (d'.ssrc ≡ d.ssrc)

write_simple_rtp-synced :
    (d : DownTrack) (e : ExtPacket)
    → d.re_sync ≡ false
    → (write_simple_rtp d e).1 ≡ shifted d.payload_type d.ssrc d.sn_offset d.ts_offset e ∷ []
unfolding write_simple_rtp forward_simple
write_simple_rtp-synced d e synced = rw synced refl

write_simple_rtp-keeps :
    (d : DownTrack) (e : ExtPacket)
    → d.re_sync ≡ false
    → let d' = (write_simple_rtp d e).0 in
      (d'.re_sync ≡ false)
      × (d'.sn_offset ≡ d.sn_offset)
      × (d'.ts_offset ≡ d.ts_offset)
      × SameHeaders d d'
unfolding write_simple_rtp forward_simple
write_simple_rtp-keeps d e synced = ground (arith, synced)

-- A synchronised track forwards every packet of its source, in order, with the same offsets.
pub run_simple-synced :
    (es : List ExtPacket) (d : DownTrack)
    → d.re_sync ≡ false
    → (run_simple d es).1 ≡ map (shifted d.payload_type d.ssrc d.sn_offset d.ts_offset) es
unfolding run_simple
run_simple-synced [] d synced = refl
run_simple-synced (e ∷ es) d synced =
    let k = write_simple_rtp-keeps d e synced in
    rw (write_simple_rtp-synced d e synced, run_simple-synced es (write_simple_rtp d e).0 k.0)
      (rw (k.1, k.2, k.3.0, k.3.1) refl)

write_simple_rtp-waiting :
    (d : DownTrack) (e : ExtPacket)
    → d.re_sync ≡ true
    → is_video d.kind ≡ true
    → e.key_frame ≡ false
    → write_simple_rtp d e ≡ (d, send_pli d.ssrc e.packet.ssrc ∷ [])
unfolding write_simple_rtp
write_simple_rtp-waiting d e sync kind no_key = ground (arith, sync, kind, no_key)

-- A video track that waits for a source asks for a key frame at every packet, and forwards none.
pub run_simple-waiting :
    (waiting es : List ExtPacket) (d : DownTrack)
    → d.re_sync ≡ true
    → is_video d.kind ≡ true
    → All (λ e. e.key_frame ≡ false) waiting
    → run_simple d (waiting ++ es) ≡ (
      (run_simple d es).0,
      map (λ (e : ExtPacket). send_pli d.ssrc e.packet.ssrc) waiting ++ (run_simple d es).1,
    )
unfolding run_simple
run_simple-waiting [] es d sync kind none_ = refl
run_simple-waiting (w ∷ waiting) es d sync kind (first, others) =
    rw
      (
        write_simple_rtp-waiting d w sync kind first,
        run_simple-waiting waiting es d sync kind others,
      )
      refl

-- the track after it has taken over the source of `key`, before it forwards
pub synced_to : DownTrack → ExtPacket → DownTrack
synced_to d key = record d {
  sn_offset = sub16 (sub16 key.packet.sequence_number d.last_sn) 1;
  ts_offset = sub32 (sub32 key.packet.timestamp d.last_ts) 1;
  last_ssrc = key.packet.ssrc;
  re_sync = false;
}

write_simple_rtp-first :
    (d : DownTrack) (key : ExtPacket)
    → d.re_sync ≡ true
    → key.key_frame ≡ true
    → d.last_sn ≢ 0
    → write_simple_rtp d key ≡ write_simple_rtp (synced_to d key) key
unfolding write_simple_rtp sync_simple synced_to
write_simple_rtp-first d key sync frame sent = ground (arith, sync, frame, sent)

run_simple-first :
    (d : DownTrack) (key : ExtPacket) (es : List ExtPacket)
    → d.re_sync ≡ true
    → key.key_frame ≡ true
    → d.last_sn ≢ 0
    → run_simple d (key ∷ es) ≡ run_simple (synced_to d key) (key ∷ es)
unfolding run_simple
run_simple-first d key es sync frame sent = rw (write_simple_rtp-first d key sync frame sent) refl

-- A video track that is not simulcast, that has sent packets, the last with the number `last_sn`, which
-- is not 0, and the time `last_ts`, and that takes over a new source: it asks for a key frame at every packet before the
-- first key frame and forwards none of them; from the key frame on it forwards every packet, in
-- order, with its own payload type and SSRC and with number and time moved by fixed offsets, under
-- which the key frame has the number and the time that follow the last ones sent.
pub resync_continues :
    (d : DownTrack) (waiting : List ExtPacket) (key : ExtPacket) (es : List ExtPacket)
    → d.re_sync ≡ true
    → is_video d.kind ≡ true
    → d.last_sn ≢ 0
    → d.last_sn < 65536
    → d.last_ts < 4294967296
    → key.packet.sequence_number < 65536
    → key.packet.timestamp < 4294967296
    → All (λ e. e.key_frame ≡ false) waiting
    → key.key_frame ≡ true
    → (sn_offset ts_offset : ℕ) × ((run_simple d (waiting ++ (key ∷ es))).1
        ≡ map (λ (e : ExtPacket). send_pli d.ssrc e.packet.ssrc) waiting
          ++ map (shifted d.payload_type d.ssrc sn_offset ts_offset) (key ∷ es))
      × (sub16 key.packet.sequence_number sn_offset ≡ u16 (d.last_sn + 1))
      × (sub32 key.packet.timestamp ts_offset ≡ u32 (d.last_ts + 1))
unfolding synced_to
resync_continues d waiting key es sync kind sent sn_fits ts_fits k_sn k_ts no_key frame = (
  sub16 (sub16 key.packet.sequence_number d.last_sn) 1,
  sub32 (sub32 key.packet.timestamp d.last_ts) 1,
  rw
      (
        run_simple-waiting waiting (key ∷ es) d sync kind no_key,
        run_simple-first d key es sync frame sent,
        run_simple-synced (key ∷ es) (synced_to d key) refl,
      )
      refl,
  omega arith,
  omega arith,
)
