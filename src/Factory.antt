-- ===== src/Factory.antt =====
-- internal/buffer/factory.go and rtcpreader.go: the readers of a source, by its SSRC.
mod Tests
use mini_sfu.Base.{
  ℕ, ◌+◌, ◌≡◌, ◌≢◌, refl, ap, ◌∙◌, Bool, true, false, ◌&&◌, not, Option, none, some, Option-cases,
  List, [], ◌∷◌, if◌then◌else◌, inl, inr, ◌⊎◌,
}
use mini_sfu.Base.Maps.{
  lookup, delete, insert, lookup-delete_self, lookup-delete_other, lookup-insert_self,
  lookup-insert_other,
}

-- `packetio.BufferPacketType`
pub data PacketType : Type 0 where
  rtcp_buffer_packet rtp_buffer_packet other_packet : PacketType

-- `Factory`: the readers and the buffers by SSRC, each as the number of its creation
pub record Factory : Type 0 where
  pub rtp_buffers : List (ℕ × ℕ)
  pub rtcp_reader : List (ℕ × ℕ)
  pub created : ℕ

abbrev pub new_buffer_factory : Factory
new_buffer_factory = record { rtp_buffers = []; rtcp_reader = []; created = 0 }

-- `GetOrNew`; `none` is nil, for a packet type that it does not know.
pub get_or_new : Factory → PacketType → ℕ → Factory × Option ℕ
get_or_new f rtcp_buffer_packet ssrc = elim (lookup ssrc f.rtcp_reader) [
  | some r ↦ (f, some r)
  | none ↦ (
    record f { rtcp_reader = insert ssrc f.created f.rtcp_reader; created = f.created + 1 },
    some f.created,
  )
]
get_or_new f rtp_buffer_packet ssrc = elim (lookup ssrc f.rtp_buffers) [
  | some r ↦ (f, some r)
  | none ↦ (
    record f { rtp_buffers = insert ssrc f.created f.rtp_buffers; created = f.created + 1 },
    some f.created,
  )
]
get_or_new f other_packet ssrc = (f, none)

-- `GetBufferPair`
pub get_buffer_pair : Factory → ℕ → Option ℕ × Option ℕ
get_buffer_pair f ssrc = (lookup ssrc f.rtcp_reader, lookup ssrc f.rtp_buffers)

-- the functions that `GetOrNew` gives to `OnClose`
pub on_close : Factory → PacketType → ℕ → Factory
on_close f rtcp_buffer_packet ssrc = record f { rtcp_reader = delete ssrc f.rtcp_reader }
on_close f rtp_buffer_packet ssrc = record f { rtp_buffers = delete ssrc f.rtp_buffers }
on_close f other_packet ssrc = f

-- what the factory has of a kind
abbrev pub held : Factory → PacketType → ℕ → Option ℕ
held f rtcp_buffer_packet ssrc = lookup ssrc f.rtcp_reader
held f rtp_buffer_packet ssrc = lookup ssrc f.rtp_buffers
held f other_packet ssrc = none

get_or_new-again :
    (f : Factory) (kind : PacketType) (ssrc r : ℕ)
    → held f kind ssrc ≡ some r
    → get_or_new f kind ssrc ≡ (f, some r)
unfolding get_or_new
get_or_new-again f rtcp_buffer_packet ssrc r e = rw (e, get_or_new) refl
get_or_new-again f rtp_buffer_packet ssrc r e = rw (e, get_or_new) refl
get_or_new-again f other_packet ssrc r e = absurd (cc e)

held-get_or_new :
    (f : Factory) (kind : PacketType) (ssrc : ℕ)
    → held (get_or_new f kind ssrc).0 kind ssrc ≡ (get_or_new f kind ssrc).1
unfolding get_or_new
held-get_or_new f rtcp_buffer_packet ssrc = elim (Option-cases (lookup ssrc f.rtcp_reader)) [
  | inl e ↦ rw (get_or_new, e) (lookup-insert_self ssrc f.created f.rtcp_reader)
  | inr (r, e) ↦ rw (get_or_new, e) e
]
held-get_or_new f rtp_buffer_packet ssrc = elim (Option-cases (lookup ssrc f.rtp_buffers)) [
  | inl e ↦ rw (get_or_new, e) (lookup-insert_self ssrc f.created f.rtp_buffers)
  | inr (r, e) ↦ rw (get_or_new, e) e
]
held-get_or_new f other_packet ssrc = refl

held-on_close :
    (f : Factory) (kind : PacketType) (ssrc : ℕ) → held (on_close f kind ssrc) kind ssrc ≡ none
unfolding on_close
held-on_close f rtcp_buffer_packet ssrc = lookup-delete_self ssrc f.rtcp_reader
held-on_close f rtp_buffer_packet ssrc = lookup-delete_self ssrc f.rtp_buffers
held-on_close f other_packet ssrc = refl

-- What `GetOrNew` returns for an SSRC is what the factory then holds for it, and a second call
-- returns it again and changes nothing, where it returns anything; and after its `OnClose` the
-- factory holds nothing for the SSRC.
pub get_or_new-held :
    (f : Factory) (kind : PacketType) (ssrc : ℕ)
    → let r = get_or_new f kind ssrc in
      (held r.0 kind ssrc ≡ r.1)
      × ((reader : ℕ) → r.1 ≡ some reader → get_or_new r.0 kind ssrc ≡ (r.0, some reader))
      × (held (on_close r.0 kind ssrc) kind ssrc ≡ none)
get_or_new-held f kind ssrc =
    let r = get_or_new f kind ssrc in
    (
      held-get_or_new f kind ssrc,
      λ reader e. get_or_new-again r.0 kind ssrc reader (held-get_or_new f kind ssrc ∙ e),
      held-on_close r.0 kind ssrc,
    )

-- `RTCPReader`; the packets are those that its `onPacket`, if there is one, was called with.
pub record RtcpReader : Type 0 where
  pub closed : Bool
  pub has_on_packet : Bool
  pub delivered : List (List ℕ)

-- `Write`; the Boolean is false for `io.EOF`.
pub write : RtcpReader → List ℕ → RtcpReader × Bool
write r p =
    if r.closed
    then (r, false)
    else (if r.has_on_packet then record r { delivered = p ∷ r.delivered } else r, true)

-- `Close`, which sets the flag to false
pub close : RtcpReader → RtcpReader
close r = record r { closed = false }

-- A reader takes and delivers a packet after `Close`, whatever its state before: `Close` does not
-- close it.
pub write-close :
    (r : RtcpReader) (p : List ℕ)
    → r.has_on_packet ≡ true
    → (r' : RtcpReader) × (write (close r) p ≡ (r', true)) × (r'.delivered ≡ p ∷ r.delivered)
unfolding write close
write-close r p listens =
    (record r { closed = false; delivered = p ∷ r.delivered }, rw listens refl, refl)
