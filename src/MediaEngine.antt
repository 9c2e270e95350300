-- ===== src/MediaEngine.antt =====
-- internal/sfu/mediaengine.go: the codecs and header extensions that the two connections of a peer
-- register. The media engine of pion is a parameter.
mod Tests
use mini_sfu.Base.{ℕ, ◌*◌, Bool, Option, List, [], ◌∷◌, ◌++◌, ◌⊎◌, inl, inr}

-- the MIME types
pub data Mime : Type 0 where
  mime_type_h264 mime_type_opus mime_type_vp8 mime_type_vp9 : Mime

-- The lines of parameters: none, that of Opus, `profile-id`, and the `packetization-mode` and
-- `profile-level-id` of H.264, which allow asymmetric levels all.
pub data FmtpLine : Type 0 where
  no_line opus_line : FmtpLine
  vp9_line : ℕ → FmtpLine
  h264_line : ℕ → ℕ → FmtpLine

-- the feedback of a codec
pub data Feedback : Type 0 where
  goog_remb ccm_fir nack nack_pli : Feedback

-- `webrtc.RTPCodecParameters`
pub record CodecParameters : Type 0 where
  pub mime_type : Mime
  pub clock_rate : ℕ
  pub channels : ℕ
  pub sdp_fmtp_line : FmtpLine
  pub rtcp_feedback : List Feedback
  pub payload_type : ℕ

-- the URIs of extensions
pub data Extension : Type 0 where
  sdes_mid sdes_rtp_stream_id transport_cc audio_level frame_marking : Extension

pub data Kind : Type 0 where
  audio video : Kind

-- the calls of `webrtc.MediaEngine`, which return an error or the engine that has one more
pub record Engine (M E : Type 0) : Type 0 where
  pub register_codec : M → CodecParameters → Kind → E ⊎ M
  pub register_header_extension : M → Extension → Kind → E ⊎ M

abbrev pub opus_codec : CodecParameters
opus_codec = record {
  mime_type = mime_type_opus;
  clock_rate = 48000;
  channels = 2;
  sdp_fmtp_line = opus_line;
  rtcp_feedback = [];
  payload_type = 111;
}

abbrev pub video_rtcp_feedback : List Feedback
video_rtcp_feedback = goog_remb ∷ ccm_fir ∷ nack ∷ nack_pli ∷ []

abbrev pub video_codec : Mime → FmtpLine → ℕ → CodecParameters
video_codec mime line payload_type = record {
  mime_type = mime;
  clock_rate = 90000;
  channels = 0;
  sdp_fmtp_line = line;
  rtcp_feedback = video_rtcp_feedback;
  payload_type = payload_type;
}

-- The codecs of the loop of `getMediaEngine`; 0x42001f, 0x42e01f and 0x640032 are the levels.
abbrev pub video_codecs : List CodecParameters
video_codecs =
    video_codec mime_type_vp8 no_line 96
    ∷ video_codec mime_type_vp9 (vp9_line 0) 98
    ∷ video_codec mime_type_vp9 (vp9_line 1) 100
    ∷ video_codec mime_type_h264 (h264_line 1 4325407) 102
    ∷ video_codec mime_type_h264 (h264_line 0 4325407) 127
    ∷ video_codec mime_type_h264 (h264_line 1 4382751) 125
    ∷ video_codec mime_type_h264 (h264_line 0 4382751) 108
    ∷ video_codec mime_type_h264 (h264_line 1 6553650) 123
    ∷ []

-- the codecs of the loop of `getSubscriberMediaEngine`
abbrev pub subscriber_video_codecs : List CodecParameters
subscriber_video_codecs =
    video_codec mime_type_vp8 no_line 96
    ∷ video_codec mime_type_vp9 (vp9_line 0) 98
    ∷ video_codec mime_type_vp9 (vp9_line 1) 100
    ∷ video_codec mime_type_h264 (h264_line 1 4325407) 102
    ∷ video_codec mime_type_h264 (h264_line 0 4325407) 127
    ∷ video_codec mime_type_h264 (h264_line 1 4382751) 125
    ∷ video_codec mime_type_h264 (h264_line 0 4382751) 108
    ∷ video_codec mime_type_h264 (h264_line 1 6553650) 123
    ∷ []

abbrev pub video_extensions : List Extension
video_extensions = sdes_mid ∷ sdes_rtp_stream_id ∷ transport_cc ∷ frame_marking ∷ []

abbrev pub audio_extensions : List Extension
audio_extensions = sdes_mid ∷ sdes_rtp_stream_id ∷ audio_level ∷ []

abbrev pub subscriber_video_extensions : List Extension
subscriber_video_extensions = sdes_mid ∷ sdes_rtp_stream_id ∷ frame_marking ∷ []

abbrev pub subscriber_audio_extensions : List Extension
subscriber_audio_extensions = sdes_mid ∷ sdes_rtp_stream_id ∷ []

-- what follows a call that has not failed
abbrev pub and_then : {M E : Type 0} → E ⊎ M → (M → E ⊎ M) → E ⊎ M
and_then (inl err) next = inl err
and_then (inr me) next = next me

module _ {M E : Type 0} (engine : Engine M E) where
  -- the loop over the codecs, which stops at the first error
  pub register_codecs : M → List CodecParameters → E ⊎ M
  register_codecs me [] = inr me
  register_codecs me (c ∷ cs) =
      and_then (engine.register_codec me c video) (λ me'. register_codecs me' cs)

  -- the loops over the extensions
  pub register_extensions : M → List Extension → Kind → E ⊎ M
  register_extensions me [] kind = inr me
  register_extensions me (x ∷ xs) kind =
      and_then (engine.register_header_extension me x kind) (λ me'. register_extensions me' xs kind)

  -- `getMediaEngine`, from an empty engine
  pub get_media_engine : M → E ⊎ M
  get_media_engine me = and_then (engine.register_codec me opus_codec audio) (λ m1.
      and_then (register_codecs m1 video_codecs) (λ m2.
        and_then (register_extensions m2 video_extensions video)
          (λ m3. register_extensions m3 audio_extensions audio)))

  -- `getSubscriberMediaEngine`
  pub get_subscriber_media_engine : M → E ⊎ M
  get_subscriber_media_engine me = and_then (engine.register_codec me opus_codec audio) (λ m1.
      and_then (register_codecs m1 subscriber_video_codecs) (λ m2.
        and_then (register_extensions m2 subscriber_video_extensions video)
          (λ m3. register_extensions m3 subscriber_audio_extensions audio)))
