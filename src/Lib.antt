-- ===== src/Lib.antt =====
-- MiniSFU, a selective forwarding unit: publishers send RTP to it, and it forwards each stream to
-- the subscribers of the same session, answers their losses from its own store, and asks the
-- publisher again for what it lost itself.
--
-- The parts and how they interact. A peer joins a Session of the SFU with two connections, a
-- publisher and a subscriber. Packets of a publisher reach a Buffer of the Factory, whose Bucket
-- keeps them in a ring and whose nackQueue notes the gaps and turns them into NACK reports; the
-- payload helpers find key frames. A WebRTCReceiver hands each packet to the DownTracks of its
-- layer; a DownTrack rewrites number, time and SSRC for its subscriber, notes what it sent in a
-- sequencer, and gives the packet to a pacer. The subscriber's RTCP comes back to the DownTrack,
-- which looks lost packets up, asks for key frames, and switches layers.
--
-- Base: names of the libraries, lists over native numbers, Boolean tests, Go's fixed-width
--   arithmetic (u8, u16, u32, sub16, sub32) and `|` where its fields do not meet. Base/Bytes is a
--   byte slice as a function from index to byte with the big-endian accesses of encoding/binary,
--   Base/Maps a Go map as a list of entries.
-- Nack: internal/buffer/nack.go. A NackQueue is the struct nackQueue; advance, insert_sn and push
--   are push, and remove, pairs are the methods of that name; the loop of pairs is scan_nacks over
--   the loop's variables. sort.Search is written out, with as many rounds as entries.
-- Bucket: internal/buffer/bucket.go. add_packet, set, push, get and get_packet are the methods
--   addPacket, set, push, get and getPacket; a slice expression out of range is a panic, the outer
--   `none`; nil is the inner `none`; the call of onLost is part of the result.
-- Payload: internal/buffer/helper.go. unmarshal is VP8.Unmarshal, and is_h264_keyframe is
--   isH264Keyframe; an index out of range is `none`. The loop over the units of an aggregate has
--   the length of the payload as fuel, and running out of it is `none` too.
-- Factory: internal/buffer/factory.go and rtcpreader.go. get_or_new is GetOrNew.
-- Sequencer: internal/sfu/sequencer.go. push and get_seq_no_pairs are push and getSeqNoPairs, with
--   the time as an argument.
-- DownTrack: internal/sfu/downtrack.go. write_rtp, write_simple_rtp, write_simulcast_rtp and
--   switch_spatial_layer are the methods of those names, and DownTrack/Feedback has handle_rtcp and
--   handler_layer_change, DownTrack/Binding bind and unbind, which are Bind and Unbind. What a method
--   asks of the receiver and of the pacer is its output.
-- Buffer: internal/buffer/buffer.go. The record Buffer is the struct; calc, bind, write, read, close
--   and get_rtcp are the methods of those names, and build_reception_report is
--   buildReceptionReport. A call of a callback, the send on the channel and a return to a pool are
--   events. The floating-point numbers (Floats) and the parsers of package rtp (Parsers) are
--   parameters. Timestamp has is_later_timestamp, which is IsLaterTimestamp.
-- Twcc: internal/buffer/twcc.go. Twcc has the packing of statuses into chunks; Twcc/Report has push,
--   which is Push, and build_transport_cc_packet, which is buildTransportCCPacket. The two arrays
--   of the Responder are their filled parts, and a write past 100 or 200 bytes is a panic, `none`.
--   The symbols of a status are the numbers of the format; the deque is a list; sort.Slice keeps
--   the order of equal numbers; Marshal of the RTCP header is a parameter.
-- Receiver: internal/sfu/receiver.go. The subscriptions of the three layers, the throttle of
--   SendRTCP, and RetransmitPackets, with what the buffers have of a number as an argument.
--   Receiver/Feed runs the loop of writeRTP for one track and carries out what the track asks of the
--   receiver; a deadlock, when the track asks for the lock that writeRTP holds, is `none`.
-- Peer: internal/sfu/peer.go and subscriber.go. The negotiation of the subscriber's connection as
--   handlers that run one at a time, and the candidates that wait for a description.
-- Transport: the calls of pion's PeerConnection, as a record that Publisher and Client take, and the laws
--   of descriptions and candidates. Publisher: internal/sfu/publisher.go. answer, add_ice_candidate,
--   close, on_track, on_data_channel and ice_state_changed are its methods and handlers.
--   Publisher/Answering shows them to refine the connection of Peer, and Publisher/Complete runs
--   sessions in which peers come and publish.
-- Client: internal/sfu/peer.go. A Client is a whole Peer, with a publisher, the connection of a
--   subscriber and a session; join, answer, set_remote_description, trickle and close are its methods.
--   client_calls fills the interface that Signal takes of a peer.
-- MediaEngine: internal/sfu/mediaengine.go. Startup: parse, load and main of main.go, and
--   NewWebRTCTransportConfig of internal/sfu/sfu.go.
-- Sfu: internal/sfu/sfu.go and session.go, and Join of peer.go (Sfu/Joining). Sessions are shared by
--   pointer, so they stand in a heap.
-- Subscriber: internal/sfu/subscriber.go, with CreateSenderReport and CreateSourceDescriptionChunks
--   of downtrack.go. down_tracks_reports is one round of downTracksReports.
-- Router: internal/sfu/router.go, with Publish, Subscribe and the data channels (Router/Channels) of
--   session.go. add_receiver, add_down_tracks and add_down_track are AddReceiver, AddDownTracks and
--   addDownTrack; what the peer connections answer is an argument.
-- Signal: signal/signal.go. handle is Handle; the peer and the parsers of JSON are parameters.
-- Helper: internal/sfu/helper.go. DataChannel: internal/sfu/datachannel.go; DataChannel/Messages has Use,
--   OnMessage and NewDatachannel as calls, and add_configured, which is AddDatachannel of a Subscriber.
-- Pacer: internal/pacer/pacer.go; drain is the loop of a tick, Pacer/Runs has the calls and the goroutine
--   as steps.
--
-- Machine integers are natural numbers with their wrap-around written out; Go's int is unbounded
-- where the values stay far below 2 ^ 63. Loops are recursion on the rounds left or on the list. The
-- rounds are enough: the binary search has one for each entry, and each halves the interval; the scan
-- of an aggregate has one for each byte; the groups of chunks of a Subscriber have one for each chunk,
-- the descriptions of a stream seven, and the padding of a report three.
--
-- Not modelled: pion's peer connection, tracks, RTP and RTCP codecs, whose results are arguments of
-- the definitions that use them or operations of Transport; goroutines, locks and timers, beyond the
-- orders of calls that the step relations allow and the deadlock of writeRTP; logging, the metrics and the HTTP server. Of the
-- repository's own code closeTracks of a receiver that ends, with Close of a DownTrack, and the loop of
-- sendRTCP are not here: they pass values on to pion or wait for it.
pub mod Base
pub mod Nack
pub mod Bucket
pub mod Sequencer
pub mod Payload
pub mod DownTrack
pub mod Peer
pub mod Receiver
pub mod Sfu
pub mod Pacer
pub mod Helper
pub mod DataChannel
pub mod Factory
pub mod Timestamp
pub mod Twcc
pub mod Buffer
pub mod Subscriber
pub mod Router
pub mod Signal
pub mod Transport
pub mod Publisher
pub mod MediaEngine
pub mod Startup
pub mod Client
