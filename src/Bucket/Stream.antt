-- ===== src/Bucket/Stream.antt =====
-- What `getPacket` of bucket.go returns after packets were added.
use mini_sfu.Base.{
  ℕ, ◌+◌, ◌≤◌, ◌<◌, ◌≡◌, ◌≢◌, refl, ◌∙◌, Bool, true, Option, none, some, List, [], ◌∷◌, length,
  sub16, arith,
}
use mini_sfu.Nack.{NackPair}
use mini_sfu.Bucket.{Bucket, add_packet, get_packet}
use mini_sfu.Bucket.Slots.{IsPacket, IsValid, Holds}
use mini_sfu.Bucket.Retention.{add_packet-Added, get-Holds}

-- packets with their numbers, each added as the latest; `none` is a panic.
pub add_all : Bucket → List (ℕ × List ℕ) → Option Bucket
add_all b [] = some b
add_all b (p ∷ ps) = elim (add_packet b p.1 p.0 true) [ none ↦ none | some r ↦ add_all r.0 ps ]

-- Packets that fit a slot, each with its number in its header, and none twice in a row.
abbrev pub IsStream : ℕ → List (ℕ × List ℕ) → Type 0
IsStream head [] = Unit
IsStream head (p ∷ ps) = (p.0 < 65536) × (p.0 ≢ head) × IsPacket p.0 p.1 × IsStream p.0 ps

-- how far the numbers of the packets go on from the head, over wraps too
abbrev pub span : ℕ → List (ℕ × List ℕ) → ℕ
span head [] = 0
span head (p ∷ ps) = sub16 p.0 head + span p.0 ps

add_all-cons :
    (b b1 : Bucket) (sn : ℕ) (pkt : List ℕ) (ps : List (ℕ × List ℕ)) (out : Option (List ℕ))
    (lost : Option (List NackPair × Bool))
    → add_packet b pkt sn true ≡ some (b1, out, lost)
    → add_all b ((sn, pkt) ∷ ps) ≡ add_all b1 ps
unfolding add_all
add_all-cons b b1 sn pkt ps out lost e = rw (add_all, e) refl

add_all-Holds :
    (ps : List (ℕ × List ℕ)) (b : Bucket) (sn : ℕ) (pkt : List ℕ)
    → IsValid b
    → b.init ≡ true
    → sn < 65536
    → IsPacket sn pkt
    → IsStream b.head_sn ps
    → sub16 b.head_sn sn + span b.head_sn ps < b.max_steps
    → Holds b sn pkt
    → (b' : Bucket) × (add_all b ps ≡ some b') × IsValid b' × Holds b' sn pkt
unfolding add_all
add_all-Holds [] b sn pkt v started fits p stream near k = (b, refl, v, k)
add_all-Holds (q ∷ qs) b sn pkt v started fits p (q_fits, new, is_packet, rest) near k =
    let (b1, lost, done, a) = add_packet-Added b q.0 q.1 v started q_fits new is_packet in
    let near1 : sub16 b1.head_sn sn + span b1.head_sn qs < b1.max_steps =
      rw (a.head, a.size) (omega (arith, near, v.head_in, v.short, fits, q_fits)) in
    let k1 = a.keeps sn pkt fits p (omega (arith, near)) k in
    let (b2, all, v2, k2) =
      add_all-Holds qs b1 sn pkt a.valid (a.started ∙ started) fits p (rw a.head rest) near1 k1 in
    (b2, add_all-cons b b1 q.0 q.1 qs (some q.1) lost done ∙ all, v2, k2)

-- A packet that is added as the latest to a started valid bucket, and then a stream of further latest
-- packets, each of 4 to 1458 bytes with its number in its header and none twice in a row, whose numbers
-- go on by fewer than `max_steps` in all: no call panics, and `getPacket` with room for the first packet
-- then copies it out whole.
pub add_all-get :
    (b : Bucket) (sn capacity : ℕ) (pkt : List ℕ) (ps : List (ℕ × List ℕ))
    → IsValid b
    → b.init ≡ true
    → IsStream b.head_sn ((sn, pkt) ∷ ps)
    → span sn ps < b.max_steps
    → length pkt ≤ capacity
    → (b' : Bucket) × (add_all b ((sn, pkt) ∷ ps) ≡ some b')
      × (get_packet b' capacity sn ≡ some (pkt, length pkt, none))
unfolding add_all get_packet
add_all-get b sn capacity pkt ps v started (fits, new, p, rest) near room =
    let (b1, lost, done, a) = add_packet-Added b sn pkt v started fits new p in
    let (b2, all, v2, k2) =
      add_all-Holds ps b1 sn pkt a.valid (a.started ∙ started) fits p (rw a.head rest)
        (rw (a.head, a.size) (omega (arith, near))) a.holds in
    (
      b2,
      add_all-cons b b1 sn pkt ps (some pkt) lost done ∙ all,
      rw (get-Holds b2 sn pkt v2 p k2) (ground (arith, room)),
    )
