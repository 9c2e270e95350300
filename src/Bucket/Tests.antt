-- ===== src/Bucket/Tests.antt =====
-- bucket.go on a ring of four slots, and the theorems at it.
use mini_sfu.Base.{ℕ, ◌≡◌, refl, Bool, true, false, Option, none, some, List, [], ◌∷◌, arith}
use mini_sfu.Base.Bytes.{write, put16, slice}
use mini_sfu.Nack.{NackPair}
use mini_sfu.Bucket.{
  Bucket, packet_not_found, buffer_too_small, slot_of, new_bucket, store, push, skip, miss, report,
  first_packet, add_latest, add_packet, get, get_packet,
}
use mini_sfu.Bucket.Slots.{IsPacket, IsValid, stored}
use mini_sfu.Bucket.Retention.{Added, add_packet-Added}
use mini_sfu.Bucket.Stream.{IsStream, add_all, add_all-get}

abbrev packet : ℕ → List ℕ
packet sn = 128 ∷ 96 ∷ 0 ∷ sn ∷ 7 ∷ []

abbrev empty : Bucket
empty = record {
  size = 7300;
  buf = λ i. 0;
  nacker = none;
  head_sn = 0;
  step = 0;
  max_steps = 4;
  init = false;
}

new_bucket-empty : new_bucket 7300 (λ i. 0) false (omega arith) ≡ empty
unfolding new_bucket
new_bucket-empty = refl

-- Number 6 in the first slot, a gap, and number 8.
abbrev sample : Bucket
sample = record empty {
  buf = stored (stored (λ i. 0) 0 (packet 6)) 2 (packet 8);
  head_sn = 8;
  step = 3;
  init = true;
}

abbrev after_add :
    Option (Bucket × Option (List ℕ) × Option (List NackPair × Bool))
    → (Bucket → Option (Option (List ℕ)))
    → Option (Option (List ℕ))
after_add none f = none
after_add (some r) f = f r.0

adds_then_gets :
    after_add
      (add_packet empty (packet 6) 6 true)
      (λ b. after_add (add_packet b (packet 8) 8 true) (λ c. get c 6))
    ≡ some (some (packet 6))
unfolding add_packet first_packet add_latest skip miss report push store get write put16 slice
    slot_of
adds_then_gets = refl

gap_not_found : get_packet sample 1460 7 ≡ some ([], 0, some packet_not_found)
unfolding get_packet get write put16 slice slot_of
gap_not_found = refl

short_destination : get_packet sample 4 8 ≡ some ([], 5, some buffer_too_small)
unfolding get_packet get write put16 slice slot_of
short_destination = refl

sample-IsValid : IsValid sample
sample-IsValid = omega arith

packet-IsPacket : (sn : ℕ) → IsPacket sn (packet sn)
packet-IsPacket sn = omega arith

packets-IsStream :
    IsStream sample.head_sn ((10, packet 10) ∷ (11, packet 11) ∷ (13, packet 13) ∷ [])
packets-IsStream = (
  omega arith,
  (λ e. absurd (omega (arith, e))),
  packet-IsPacket 10,
  (
    omega arith,
    (λ e. absurd (omega (arith, e))),
    packet-IsPacket 11,
    (omega arith, (λ e. absurd (omega (arith, e))), packet-IsPacket 13, tt),
  ),
)

add_all-get_example :
    (b' : Bucket) × (add_all sample ((10, packet 10) ∷ (11, packet 11) ∷ (13, packet 13) ∷ [])
      ≡ some b')
    × (get_packet b' 1460 10 ≡ some (packet 10, 5, none))
add_all-get_example =
    add_all-get sample 10 1460 (packet 10) ((11, packet 11) ∷ (13, packet 13) ∷ []) sample-IsValid
      refl packets-IsStream (omega arith) (omega arith)

add_packet-Added_example :
    (b' : Bucket) × (lost : Option (List NackPair × Bool)) × (add_packet sample (packet 10) 10 true
      ≡ some (b', some (packet 10), lost))
    × Added sample 10 (packet 10) b'
add_packet-Added_example =
    add_packet-Added sample 10 (packet 10) sample-IsValid refl (omega arith)
      (λ e. absurd (omega arith)) (packet-IsPacket 10)
