-- ===== src/DownTrack/Feedback.antt =====
-- internal/sfu/downtrack.go: what a down track does with the RTCP packets of its subscriber.
pub mod Forwarded
use mini_sfu.Base.{
  ℕ, zero, suc, ◌+◌, ◌-◌, ◌*◌, ◌/◌, ◌%◌, ◌≤◌, ◌≡◌, refl, Bool, true, false, ◌&&◌, ◌||◌, not, Option,
  none, some, List, [], ◌∷◌, ◌++◌, ltb, leb, ◌==◌, if◌then◌else◌, length, get_elem?, get_or, arith,
}
use mathlib.Core.Option
use mini_sfu.Sequencer.{Sequencer, PacketMeta, get_seq_no_pairs}
use mini_sfu.DownTrack.{
  DownTrack, TrackType, simulcast_down_track, Output, send_pli, send_fir, set_target_bitrate,
  retransmit, switch_spatial_layer,
}

-- The packets of `rtcp.Unmarshal` that the handler tells apart. A receiver report is the losses of
-- its blocks, a NACK the list of each pair's numbers.
pub data Rtcp : Type 0 where
  pli fir : Rtcp
  remb : ℕ → Rtcp
  receiver_report : List ℕ → Rtcp
  nack : List (List ℕ) → Rtcp
  other : Rtcp

-- What the handler reads from outside: the time in ms, the receiver's bitrates, whether its
-- `SubDownTrack` succeeds, and whether its `RetransmitPackets` succeeds for a list of packets.
pub record Outside : Type 0 where
  pub now : ℕ
  pub bitrates : List ℕ
  pub subscribes : Bool
  pub retransmits : List PacketMeta → Bool

-- the variables of the loop of `handleRTCP`
pub record Seen : Type 0 where
  pub track : DownTrack
  pub pli_once : Bool
  pub fir_once : Bool
  pub max_rate_packet_loss : ℕ
  pub expected_min_bitrate : ℕ
  pub fwd_pkts : List Output
  pub outputs : List Output

abbrev pub max_loss : ℕ → List ℕ → ℕ
max_loss loss [] = loss
max_loss loss (r ∷ rs) = max_loss (if loss == 0 || ltb loss r then r else loss) rs

-- the lookups of the pairs of one NACK, one after the other
pub find_pairs : Sequencer → ℕ → List (List ℕ) → Sequencer × List PacketMeta
find_pairs s now [] = (s, [])
find_pairs s now (pair ∷ pairs) =
    let (s', found) = get_seq_no_pairs s now pair in
    let (s'', rest) = find_pairs s' now pairs in (s'', found ++ rest)

-- The branch of a NACK; the Boolean says whether the handler goes on.
pub answer_with : Outside → Seen → List (List ℕ) → Option Sequencer → Seen × Bool
answer_with o s pairs none = (s, true)
answer_with o s pairs (some q) =
    let (q', found) = find_pairs q o.now pairs in
    let t = record s { track = record s.track { sequencer = some q' } } in
    if length found == 0
    then (t, true)
    else (record t { outputs = t.outputs ++ (retransmit found ∷ []) }, o.retransmits found)

abbrev pub answer_nack : Outside → Seen → List (List ℕ) → Seen × Bool
answer_nack o s pairs = answer_with o s pairs s.track.sequencer

-- one round of the loop
pub read_rtcp : Outside → Seen → Rtcp → Seen × Bool
read_rtcp o s pli =
    if s.pli_once
    then (
      record s {
        fwd_pkts = s.fwd_pkts ++ (send_pli s.track.last_ssrc s.track.last_ssrc ∷ []);
        pli_once = false;
      },
      true,
    )
    else (s, true)
read_rtcp o s fir =
    if s.fir_once
    then (
      record s {
        fwd_pkts = s.fwd_pkts ++ (send_fir s.track.ssrc s.track.last_ssrc ∷ []);
        fir_once = false;
      },
      true,
    )
    else (s, true)
read_rtcp o s (remb bitrate) = (
  record s {
    expected_min_bitrate =
        if s.expected_min_bitrate == 0 || ltb bitrate s.expected_min_bitrate
        then bitrate
        else s.expected_min_bitrate;
    outputs = s.outputs ++ (set_target_bitrate bitrate ∷ []);
  },
  true,
)
read_rtcp o s (receiver_report losses) =
    (record s { max_rate_packet_loss = max_loss s.max_rate_packet_loss losses }, true)
read_rtcp o s (nack pairs) = answer_nack o s pairs
read_rtcp o s other = (s, true)

pub read_rtcps : Outside → Seen → List Rtcp → Seen × Bool
read_rtcps o s [] = (s, true)
read_rtcps o s (p ∷ ps) =
    let (t, on) = read_rtcp o s p in if on then read_rtcps o t ps else (t, false)

-- `spatialLayer & 0x0f` and `spatialLayer >> 16`
abbrev pub low_layer : ℕ → ℕ
low_layer layer = layer % 16

abbrev pub high_layer : ℕ → ℕ
high_layer layer = layer / 65536

-- 5 s
abbrev pub switch_pause : ℕ
switch_pause = 5000

-- the branch of a loss of at most 5
pub try_up : Outside → DownTrack → ℕ → ℕ → DownTrack × List Output
try_up o d bitrate cbr =
    let current = low_layer d.spatial_layer in
    let r =
      if leb (3 * cbr / 2) bitrate && leb (current + 1) d.max_spatial_layer && leb (current + 1) 2
      then switch_spatial_layer d (current + 1) o.subscribes
      else (d, []) in
    (record r.0 { switch_delay = o.now + switch_pause }, r.1)

-- the branch of a loss of at least 25; `current` is that of the start
pub try_down : Outside → DownTrack → ℕ → ℕ → DownTrack × List Output
try_down o d bitrate cbr =
    let current = low_layer d.spatial_layer in
    let r =
      if leb bitrate (5 * cbr / 8) && ltb 0 current && not (get_or o.bitrates (current - 1) 0 == 0)
      then switch_spatial_layer d (current - 1) o.subscribes
      else (d, []) in
    (record r.0 { switch_delay = o.now + switch_pause }, r.1)

-- `handlerLayerChange`; `none` is the panic of a layer that the array of bitrates has not.
pub handler_layer_change : Outside → DownTrack → ℕ → ℕ → Option (DownTrack × List Output)
handler_layer_change o d loss bitrate =
    if low_layer d.spatial_layer == high_layer d.spatial_layer && ltb d.switch_delay o.now
    then elim (get_elem? o.bitrates (low_layer d.spatial_layer)) [
      | none ↦ none
      | some cbr ↦
          if leb loss 5
          then some (try_up o d bitrate cbr)
          else if leb 25 loss
          then some (try_down o d bitrate cbr)
          else some (d, [])
    ]
    else some (d, [])

abbrev pub is_simulcast : TrackType → Bool
is_simulcast simulcast_down_track = true
is_simulcast t = false

abbrev pub seen_start : DownTrack → Seen
seen_start d = record {
  track = d;
  pli_once = true;
  fir_once = true;
  max_rate_packet_loss = 0;
  expected_min_bitrate = 0;
  fwd_pkts = [];
  outputs = [];
}

-- The call of `handlerLayerChange` after the loop; `&&` binds closer than `||`.
pub react : Outside → Seen → Option (DownTrack × List Output)
react o s =
    if is_simulcast s.track.track_type && not (s.max_rate_packet_loss == 0)
      || not (s.expected_min_bitrate == 0)
    then handler_layer_change o s.track s.max_rate_packet_loss s.expected_min_bitrate
    else some (s.track, [])

pub handle_rtcp : Outside → DownTrack → List Rtcp → Option (DownTrack × List Output)
handle_rtcp o d pkts =
    if not d.enabled
    then some (d, [])
    else let (s, on) = read_rtcps o (seen_start d) pkts in
      if not on
      then some (s.track, s.outputs)
      else Option.map (λ r. (r.0, s.outputs ++ (r.1 ++ s.fwd_pkts))) (react o s)
