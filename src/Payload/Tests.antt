-- ===== src/Payload/Tests.antt =====
-- Runs of helper.go, and the theorems at them.
use mini_sfu.Base.{ℕ, ◌≡◌, refl, Bool, true, false, some, none, List, [], ◌∷◌, ◌++◌, arith}
use mini_sfu.Payload.{
  Vp8, short_packet, unmarshal, unmarshal_extended, read_picture_id, read_tl0_pic_idx, read_tid,
  read_key_frame, has_bit, scan_units, unit_offset, is_h264_keyframe,
}
use mini_sfu.Payload.Descriptor.{Descriptor, fifteen_bits, Fits, encode, parsed, unmarshal-encode}
use mini_sfu.Payload.H264.{has_idr, encode_units, is_h264_keyframe-total, is_h264_keyframe-encode}

abbrev no_vp8 : Vp8
no_vp8 = record {
  temporal_supported = false;
  picture_id = 0;
  pic_id_idx = 0;
  m_bit = false;
  tl0_pic_idx = 0;
  tlz_idx = 0;
  tid = 0;
  is_key_frame = false;
}

-- every part of the descriptor
abbrev all_parts : Descriptor
all_parts = record {
  start = true;
  picture = fifteen_bits 2 5;
  tl0 = some 9;
  t = true;
  k = false;
  layer = 2;
  rest = 32;
}

all_parts-Fits : Fits all_parts
all_parts-Fits = record {
  picture_fits = omega arith;
  layer_fits = omega arith;
  rest_fits = omega arith;
}

all_parts-bytes : encode all_parts ≡ 144 ∷ 224 ∷ 130 ∷ 5 ∷ 9 ∷ 160 ∷ []
unfolding encode
all_parts-bytes = refl

reads_all_parts :
    unmarshal (some (144 ∷ 224 ∷ 130 ∷ 5 ∷ 9 ∷ 160 ∷ 0 ∷ [])) no_vp8
    ≡ some (
      record {
        temporal_supported = true;
        picture_id = 517;
        pic_id_idx = 2;
        m_bit = true;
        tl0_pic_idx = 9;
        tlz_idx = 4;
        tid = 2;
        is_key_frame = true;
      },
      none,
    )
unfolding unmarshal unmarshal_extended read_picture_id read_tl0_pic_idx read_tid read_key_frame
    has_bit
reads_all_parts = refl

too_short : unmarshal (some (144 ∷ 224 ∷ 130 ∷ [])) no_vp8 ≡ some (no_vp8, some short_packet)
unfolding unmarshal
too_short = refl

unmarshal-encode_example :
    unmarshal (some (encode all_parts ++ (0 ∷ 7 ∷ []))) no_vp8
    ≡ some (parsed all_parts 0 no_vp8, none)
unfolding encode
unmarshal-encode_example = unmarshal-encode all_parts 0 (7 ∷ []) no_vp8 all_parts-Fits (omega arith)

-- A STAP-A of a parameter set and a key frame.
abbrev two_units : List (List ℕ)
two_units = (103 ∷ 1 ∷ []) ∷ (101 ∷ 2 ∷ 3 ∷ []) ∷ []

finds_key_frame : is_h264_keyframe (24 ∷ 0 ∷ 2 ∷ 103 ∷ 1 ∷ 0 ∷ 3 ∷ 101 ∷ 2 ∷ 3 ∷ []) ≡ some true
unfolding is_h264_keyframe scan_units
finds_key_frame = refl

is_h264_keyframe-total_example : (b : Bool) × (is_h264_keyframe (27 ∷ 0 ∷ 0 ∷ 0 ∷ 9 ∷ []) ≡ some b)
is_h264_keyframe-total_example = is_h264_keyframe-total (27 ∷ 0 ∷ 0 ∷ 0 ∷ 9 ∷ [])

is_h264_keyframe-encode_example :
    is_h264_keyframe (24 ∷ ([] ++ encode_units two_units))
    ≡ some (has_idr (unit_offset 24) two_units)
is_h264_keyframe-encode_example =
    is_h264_keyframe-encode 24 24 [] two_units refl (omega arith) (omega arith) refl
      ((omega arith, omega arith), ((omega arith, omega arith), tt))
