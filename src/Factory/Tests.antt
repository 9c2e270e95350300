-- ===== src/Factory/Tests.antt =====
-- Runs of factory.go and rtcpreader.go, and the theorems at them.
use mini_sfu.Base.{◌≡◌, refl, true, false, some, []}
use mini_sfu.Factory.{
  rtcp_buffer_packet, rtp_buffer_packet, RtcpReader, new_buffer_factory, get_or_new,
  get_buffer_pair,
}

a_pair :
    get_buffer_pair
      (get_or_new (get_or_new new_buffer_factory rtcp_buffer_packet 8).0 rtp_buffer_packet 8).0
      8
    ≡ (some 0, some 1)
unfolding get_buffer_pair get_or_new
a_pair = refl

abbrev listening : RtcpReader
listening = record { closed = false; has_on_packet = true; delivered = [] }
