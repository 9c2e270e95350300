-- ===== src/Receiver/Retransmit.antt =====
-- internal/sfu/receiver.go: the packets that are sent once more, and the loop of `writeRTP`.
use mini_sfu.Base.{
  ℕ, ◌≡◌, refl, ap, Bool, false, Option, none, some, List, [], ◌∷◌, map, All, length, ltb,
  if◌then◌else◌,
}
use mini_sfu.Sequencer.{PacketMeta}
use mini_sfu.DownTrack.{Packet}
use mini_sfu.Receiver.{Subscription, no_subscription, swap_remove}

-- What the buffer of a layer has of a number: there is no buffer, it is closed, it has no such
-- packet, what it has does not decode, or the packet.
pub data Fetch : Type 0 where
  no_buffer end_of_file fetch_error undecodable : Fetch
  fetched : Packet → Fetch

-- the rewriting of a packet for the track
abbrev pub resent : ℕ → ℕ → PacketMeta → Packet → Packet
resent ssrc payload_type meta p = record p {
  sequence_number = meta.target_seq_no;
  timestamp = meta.timestamp;
  ssrc = ssrc;
  payload_type = payload_type;
}

-- The loop of the job of `RetransmitPackets`, for a track of this SSRC and payload type.
module _ (fetch : ℕ → ℕ → Fetch) (ssrc payload_type : ℕ) where
  pub resend_all : List PacketMeta → List Packet
  resend_all [] = []
  resend_all (meta ∷ packets) =
      let rest = resend_all packets in
      elim (fetch meta.layer meta.source_seq_no) [
        | no_buffer ↦ []
        | end_of_file ↦ []
        | fetch_error ↦ rest
        | undecodable ↦ rest
        | fetched p ↦ resent ssrc payload_type meta p ∷ rest
      ]

  -- `RetransmitPackets`: what is given to the pacer; `none` is `io.ErrClosedPipe`.
  pub retransmit_packets : Bool → List PacketMeta → Option (List Packet)
  retransmit_packets stopped packets = if stopped then none else some (resend_all packets)

  resend_all-fetched :
      (packets : List PacketMeta) (source : PacketMeta → Packet)
      → All
          (λ (meta : PacketMeta). fetch meta.layer meta.source_seq_no ≡ fetched (source meta))
          packets
      → resend_all packets
        ≡ map (λ (meta : PacketMeta). resent ssrc payload_type meta (source meta)) packets
  unfolding resend_all
  resend_all-fetched [] source has = refl
  resend_all-fetched (meta ∷ packets) source (first, others) =
      rw (first, resend_all, resend_all-fetched packets source others) refl

  -- While the worker runs and the buffers have every packet, all are sent once more, in order,
  -- under the numbers and times noted for the track, with its SSRC and payload type, and with the
  -- payloads that the buffers have.
  pub retransmit_packets-fetched :
      (packets : List PacketMeta) (source : PacketMeta → Packet)
      → All
          (λ (meta : PacketMeta). fetch meta.layer meta.source_seq_no ≡ fetched (source meta))
          packets
      → retransmit_packets false packets
        ≡ some (map (λ (meta : PacketMeta). resent ssrc payload_type meta (source meta)) packets)
  unfolding retransmit_packets
  retransmit_packets-fetched packets source has = ap some (resend_all-fetched packets source has)

-- The removals of `writeRTP`, at the indexes at which a track was found to have ended; `none` is
-- the panic of an index that is out of range by then.
unfoldable pub remove_ended : List ℕ → List Subscription → Option (List Subscription)
remove_ended [] ts = some ts
remove_ended (i ∷ is) ts =
    let rest = remove_ended is (swap_remove i ts no_subscription) in
    if ltb i (length ts) then rest else none
