-- ===== src/DownTrack/Feedback/Forwarded.antt =====
-- What the feedback handler of downtrack.go forwards to the publisher.
use mini_sfu.Base.{
  ℕ, ◌+◌, ◌-◌, ◌≤◌, ◌<◌, ◌≡◌, refl, Bool, true, false, not, ◌&&◌, ◌||◌, Option, none, some, List,
  [], ◌∷◌, ◌++◌, if◌then◌else◌, length, ltb, leb, ◌==◌, get_elem?-lt, arith,
}
use mathlib.Core.Option
use mini_sfu.Sequencer.{Sequencer}
use mini_sfu.DownTrack.{
  DownTrack, Output, send_pli, send_fir, set_target_bitrate, retransmit, switch_spatial_layer,
}
use mini_sfu.DownTrack.Feedback.{
  Rtcp, pli, fir, remb, receiver_report, nack, other, Outside, Seen, find_pairs, answer_with,
  read_rtcp, read_rtcps, low_layer, high_layer, try_up, try_down, handler_layer_change, seen_start,
  react, handle_rtcp,
}

abbrev pub is_pli : Output → ℕ
is_pli (send_pli sender media) = 1
is_pli o = 0

abbrev pub is_fir : Output → ℕ
is_fir (send_fir sender media) = 1
is_fir o = 0

abbrev pub count : (Output → ℕ) → List Output → ℕ
count f [] = 0
count f (o ∷ os) = f o + count f os

count-append : (f : Output → ℕ) (os ps : List Output) → count f (os ++ ps) ≡ count f os + count f ps
count-append f [] ps = omega arith
count-append f (o ∷ os) ps = omega (arith, count-append f os ps)

-- the requests so far, with those still allowed
record AtMostOne (layer : ℕ) (s : Seen) : Type 0 where
  pli_left : count is_pli s.fwd_pkts + (if s.pli_once then 1 else 0) ≤ 1
  fir_left : count is_fir s.fwd_pkts + (if s.fir_once then 1 else 0) ≤ 1
  no_pli : count is_pli s.outputs ≡ 0
  no_fir : count is_fir s.outputs ≡ 0
  same_layer : s.track.spatial_layer ≡ layer

-- one more call that is neither
add_output :
    (layer : ℕ) (s : Seen) (out : Output)
    → is_pli out ≡ 0
    → is_fir out ≡ 0
    → AtMostOne layer s
    → AtMostOne layer (record s { outputs = s.outputs ++ (out ∷ []) })
add_output layer s out no_pli_ no_fir_ a = record {
  pli_left = a.pli_left;
  fir_left = a.fir_left;
  no_pli = omega (arith, a.no_pli, count-append is_pli s.outputs (out ∷ []));
  no_fir = omega (arith, a.no_fir, count-append is_fir s.outputs (out ∷ []));
  same_layer = a.same_layer;
}

if-AtMostOne :
    (layer : ℕ) (b : Bool) (x y : Seen × Bool)
    → (b ≡ true → AtMostOne layer x.0)
    → (b ≡ false → AtMostOne layer y.0)
    → AtMostOne layer (if b then x else y).0
if-AtMostOne layer true x y then_ else_ = then_ refl
if-AtMostOne layer false x y then_ else_ = else_ refl

-- another sequencer changes nothing of this
with_sequencer :
    (layer : ℕ) (s : Seen) (q : Sequencer)
    → AtMostOne layer s
    → AtMostOne layer (record s { track = record s.track { sequencer = some q } })
with_sequencer layer s q a = record {
  pli_left = a.pli_left;
  fir_left = a.fir_left;
  no_pli = a.no_pli;
  no_fir = a.no_fir;
  same_layer = a.same_layer;
}

answer_with-AtMostOne :
    (o : Outside) (layer : ℕ) (s : Seen) (pairs : List (List ℕ)) (q : Option Sequencer)
    → AtMostOne layer s
    → AtMostOne layer (answer_with o s pairs q).0
unfolding answer_with
answer_with-AtMostOne o layer s pairs none a = a
answer_with-AtMostOne o layer s pairs (some q) a =
    let b = with_sequencer layer s (find_pairs q o.now pairs).0 a in
    if-AtMostOne layer (length (find_pairs q o.now pairs).1 == 0) _ _ (λ e. b)
      (λ e. add_output layer _ (retransmit (find_pairs q o.now pairs).1) refl refl b)

read_rtcp-AtMostOne :
    (o : Outside) (layer : ℕ) (s : Seen) (p : Rtcp)
    → AtMostOne layer s
    → AtMostOne layer (read_rtcp o s p).0
unfolding read_rtcp
read_rtcp-AtMostOne o layer s pli a =
    if-AtMostOne layer s.pli_once _ _
      (λ once. record {
        pli_left = ground (
          arith,
          once,
          a.pli_left,
          count-append is_pli s.fwd_pkts (send_pli s.track.last_ssrc s.track.last_ssrc ∷ []),
        );
        fir_left = ground (
          arith,
          once,
          a.fir_left,
          count-append is_fir s.fwd_pkts (send_pli s.track.last_ssrc s.track.last_ssrc ∷ []),
        );
        no_pli = a.no_pli;
        no_fir = a.no_fir;
        same_layer = a.same_layer;
      })
      (λ spent. a)
read_rtcp-AtMostOne o layer s fir a =
    if-AtMostOne layer s.fir_once _ _
      (λ once. record {
        pli_left = ground (
          arith,
          once,
          a.pli_left,
          count-append is_pli s.fwd_pkts (send_fir s.track.ssrc s.track.last_ssrc ∷ []),
        );
        fir_left = ground (
          arith,
          once,
          a.fir_left,
          count-append is_fir s.fwd_pkts (send_fir s.track.ssrc s.track.last_ssrc ∷ []),
        );
        no_pli = a.no_pli;
        no_fir = a.no_fir;
        same_layer = a.same_layer;
      })
      (λ spent. a)
read_rtcp-AtMostOne o layer s (remb bitrate) a =
    add_output layer
      (record s {
        expected_min_bitrate =
            if s.expected_min_bitrate == 0 || ltb bitrate s.expected_min_bitrate
            then bitrate
            else s.expected_min_bitrate;
      })
      (set_target_bitrate bitrate) refl refl
      (record {
        pli_left = a.pli_left;
        fir_left = a.fir_left;
        no_pli = a.no_pli;
        no_fir = a.no_fir;
        same_layer = a.same_layer;
      })
read_rtcp-AtMostOne o layer s (receiver_report losses) a = record {
  pli_left = a.pli_left;
  fir_left = a.fir_left;
  no_pli = a.no_pli;
  no_fir = a.no_fir;
  same_layer = a.same_layer;
}
read_rtcp-AtMostOne o layer s (nack pairs) a =
    answer_with-AtMostOne o layer s pairs s.track.sequencer a
read_rtcp-AtMostOne o layer s other a = a

read_rtcps-AtMostOne :
    (ps : List Rtcp) (o : Outside) (layer : ℕ) (s : Seen)
    → AtMostOne layer s
    → AtMostOne layer (read_rtcps o s ps).0
unfolding read_rtcps
read_rtcps-AtMostOne [] o layer s a = a
read_rtcps-AtMostOne (p ∷ ps) o layer s a =
    let b = read_rtcp-AtMostOne o layer s p a in
    if-AtMostOne layer (read_rtcp o s p).1 _ _
      (λ on. read_rtcps-AtMostOne ps o layer (read_rtcp o s p).0 b) (λ off. b)

-- no request among the calls
Quiet : List Output → Type 0
Quiet os = (count is_pli os ≡ 0) × (count is_fir os ≡ 0)

Quiet-nil : Quiet []
unfolding Quiet
Quiet-nil = (refl, refl)

if-Quiet :
    (b : Bool) (x y : DownTrack × List Output)
    → Quiet x.1
    → Quiet y.1
    → Quiet (if b then x else y).1
if-Quiet true x y hx hy = hx
if-Quiet false x y hx hy = hy

switch_spatial_layer-Quiet :
    (d : DownTrack) (l : ℕ) (subscribed : Bool) → Quiet (switch_spatial_layer d l subscribed).1
unfolding switch_spatial_layer Quiet
switch_spatial_layer-Quiet d l subscribed = ground arith

try_up-Quiet : (o : Outside) (d : DownTrack) (bitrate cbr : ℕ) → Quiet (try_up o d bitrate cbr).1
unfolding try_up
try_up-Quiet o d bitrate cbr =
    if-Quiet _ _ _ (switch_spatial_layer-Quiet d (low_layer d.spatial_layer + 1) o.subscribes)
      Quiet-nil

try_down-Quiet :
    (o : Outside) (d : DownTrack) (bitrate cbr : ℕ) → Quiet (try_down o d bitrate cbr).1
unfolding try_down
try_down-Quiet o d bitrate cbr =
    if-Quiet _ _ _ (switch_spatial_layer-Quiet d (low_layer d.spatial_layer - 1) o.subscribes)
      Quiet-nil

-- a call that returns, and asks for no key frame
abbrev QuietSome : Option (DownTrack × List Output) → Type 0
QuietSome o = (r : DownTrack × List Output) × (o ≡ some r) × Quiet r.1

if-QuietSome :
    (b : Bool) (x y : Option (DownTrack × List Output))
    → QuietSome x
    → QuietSome y
    → QuietSome (if b then x else y)
if-QuietSome true x y hx hy = hx
if-QuietSome false x y hx hy = hy

handler_layer_change-Quiet :
    (o : Outside) (d : DownTrack) (loss bitrate : ℕ)
    → low_layer d.spatial_layer < length o.bitrates
    → QuietSome (handler_layer_change o d loss bitrate)
unfolding handler_layer_change
handler_layer_change-Quiet o d loss bitrate inside =
    let (cbr, e) = get_elem?-lt o.bitrates (low_layer d.spatial_layer) inside in
    rw e (
      if-QuietSome
        (low_layer d.spatial_layer == high_layer d.spatial_layer && ltb d.switch_delay o.now) _ _
        (if-QuietSome (leb loss 5) _ _ (_, refl, try_up-Quiet o d bitrate cbr)
          (if-QuietSome (leb 25 loss) _ _ (_, refl, try_down-Quiet o d bitrate cbr)
            ((d, []), refl, Quiet-nil)))
        ((d, []), refl, Quiet-nil))

react-Quiet :
    (o : Outside) (s : Seen)
    → low_layer s.track.spatial_layer < length o.bitrates
    → QuietSome (react o s)
unfolding react
react-Quiet o s inside =
    if-QuietSome _ _ _
      (handler_layer_change-Quiet o s.track s.max_rate_packet_loss s.expected_min_bitrate inside)
      ((s.track, []), refl, Quiet-nil)

seen_start-AtMostOne : (d : DownTrack) → AtMostOne d.spatial_layer (seen_start d)
seen_start-AtMostOne d = record {
  pli_left = omega arith;
  fir_left = omega arith;
  no_pli = refl;
  no_fir = refl;
  same_layer = refl;
}

-- a call that returns, with at most one request of each kind
abbrev OnceSome : Option (DownTrack × List Output) → Type 0
OnceSome o =
    (r : DownTrack × List Output) × (o ≡ some r) × (count is_pli r.1 ≤ 1) × (count is_fir r.1 ≤ 1)

if-OnceSome :
    (b : Bool) (x y : Option (DownTrack × List Output))
    → OnceSome x
    → OnceSome y
    → OnceSome (if b then x else y)
if-OnceSome true x y hx hy = hx
if-OnceSome false x y hx hy = hy

sent-OnceSome :
    (o : Outside) (layer : ℕ) (s : Seen)
    → AtMostOne layer s
    → low_layer layer < length o.bitrates
    → OnceSome (Option.map (λ r. (r.0, s.outputs ++ (r.1 ++ s.fwd_pkts))) (react o s))
unfolding Quiet
sent-OnceSome o layer s a inside =
    let (r, e, quiet) = react-Quiet o s (rw a.same_layer inside) in
    rw e (
      (r.0, s.outputs ++ (r.1 ++ s.fwd_pkts)),
      refl,
      ground (
        arith,
        quiet.0,
        a.no_pli,
        a.pli_left,
        count-append is_pli s.outputs (r.1 ++ s.fwd_pkts),
        count-append is_pli r.1 s.fwd_pkts,
      ),
      ground (
        arith,
        quiet.1,
        a.no_fir,
        a.fir_left,
        count-append is_fir s.outputs (r.1 ++ s.fwd_pkts),
        count-append is_fir r.1 s.fwd_pkts,
      ),
    )

-- The feedback of a subscriber, of whatever packets in whatever order, does not panic if the
-- receiver has a bitrate for the current layer, and what the track asks of the receiver holds at
-- most one PLI and at most one FIR.
pub handle_rtcp-once :
    (o : Outside) (d : DownTrack) (ps : List Rtcp)
    → low_layer d.spatial_layer < length o.bitrates
    → (r : DownTrack × List Output) × (handle_rtcp o d ps ≡ some r)
      × (count is_pli r.1 ≤ 1)
      × (count is_fir r.1 ≤ 1)
unfolding handle_rtcp
handle_rtcp-once o d ps inside =
    let s = (read_rtcps o (seen_start d) ps).0 in
    let a = read_rtcps-AtMostOne ps o d.spatial_layer (seen_start d) (seen_start-AtMostOne d) in
    if-OnceSome (not d.enabled) _ _ ((d, []), refl, omega arith, omega arith)
      (if-OnceSome (not (read_rtcps o (seen_start d) ps).1) _ _
        ((s.track, s.outputs), refl, omega (arith, a.no_pli), omega (arith, a.no_fir))
        (sent-OnceSome o d.spatial_layer s a inside))
