-- ===== src/Payload.antt =====
-- internal/buffer/helper.go: key frames and temporal data in VP8 and H264 payloads. Bytes are
-- numbers below 256; a mask is written as the quotient and remainder it stands for, and `none` is
-- the panic of an index out of range.
pub mod Descriptor
pub mod H264
mod Tests
use mini_sfu.Base.{
  ℕ, zero, suc, ◌+◌, ◌*◌, ◌/◌, ◌%◌, ◌^◌, Bool, true, false, ◌&&◌, ◌||◌, Option, none, some, List,
  [], ◌∷◌, ltb, leb, ◌==◌, if◌then◌else◌, length, get_elem?,
}

infixl 5 ◌>>=◌
abbrev pub ◌>>=◌ {ℓ κ} : {A : Type ℓ} {B : Type κ} → Option A → (A → Option B) → Option B
none >>= f = none
some a >>= f = f a

-- `errShortPacket` and `errNilPacket`
pub data HelperError : Type 0 where
  short_packet nil_packet : HelperError

-- `VP8`
pub record Vp8 : Type 0 where
  pub temporal_supported : Bool
  pub picture_id : ℕ
  pub pic_id_idx : ℕ
  pub m_bit : Bool
  pub tl0_pic_idx : ℕ
  pub tlz_idx : ℕ
  pub tid : ℕ
  pub is_key_frame : Bool

-- `x & (1 << k) > 0`
unfoldable pub has_bit : ℕ → ℕ → Bool
has_bit x k = x / 2 ^ k % 2 == 1

-- the picture identifier of 7 or 15 bits, and the index of the last byte read
pub read_picture_id : List ℕ → Bool → Vp8 → ℕ → Option (Vp8 × ℕ)
read_picture_id payload false p idx = some (p, idx)
read_picture_id payload true p idx = do
  c ← get_elem? payload (idx + 1)
  if has_bit c 7
      then (do
        low ← get_elem? payload (idx + 2)
        some (
          record p { pic_id_idx = idx + 1; m_bit = true; picture_id = c % 128 * 256 + low },
          idx + 2,
        ))
      else some (record p { pic_id_idx = idx + 1; picture_id = c % 128 }, idx + 1)

pub read_tl0_pic_idx : List ℕ → Bool → Vp8 → ℕ → Option (Vp8 × ℕ)
read_tl0_pic_idx payload false p idx = some (p, idx)
read_tl0_pic_idx payload true p idx = do
  c ← get_elem? payload (idx + 1)
  some (record p { tlz_idx = idx + 1; tl0_pic_idx = c }, idx + 1)

pub read_tid : List ℕ → Bool → Vp8 → ℕ → Option (Vp8 × ℕ)
read_tid payload false p idx = some (p, idx)
read_tid payload true p idx = do
  c ← get_elem? payload (idx + 1)
  some (record p { tid = c / 64 % 4 }, idx + 1)

-- the P bit of the VP8 payload, after the descriptor
pub read_key_frame : List ℕ → Bool → Vp8 → ℕ → Option (Vp8 × Option HelperError)
read_key_frame payload s p idx = do
  c ← get_elem? payload idx
  some (record p { is_key_frame = c % 2 == 0 && s }, none)

-- the branch of a descriptor with its extended control byte
pub unmarshal_extended : List ℕ → Bool → Vp8 → Option (Vp8 × Option HelperError)
unmarshal_extended payload s p = do
  x ← get_elem? payload 1
  r ← read_picture_id payload (has_bit x 7) (record p { temporal_supported = has_bit x 5 }) 1
  t ← read_tl0_pic_idx payload (has_bit x 6) r.0 r.1
  u ← read_tid payload (has_bit x 5 || has_bit x 4) t.0 t.1
  if leb (length payload) u.1
      then some (u.0, some short_packet)
      else read_key_frame payload s u.0 (u.1 + 1)

-- `Unmarshal`; the argument `none` is a nil slice.
pub unmarshal : Option (List ℕ) → Vp8 → Option (Vp8 × Option HelperError)
unmarshal none p = some (p, some nil_packet)
unmarshal (some payload) p = if ltb (length payload) 4 then some (p, some short_packet) else (do
  c ← get_elem? payload 0
  if has_bit c 7
      then unmarshal_extended payload (has_bit c 4) p
      else read_key_frame payload (has_bit c 4) p 1)

-- the bytes before the NAL unit in an aggregate of MTAP16 or MTAP24
abbrev pub unit_offset : ℕ → ℕ
unit_offset nalu = if nalu == 26 then 3 else if nalu == 27 then 4 else 0

-- The loop over the units of an aggregate, on fuel. `none` is an index out of range, or no fuel.
pub scan_units : ℕ → ℕ → List ℕ → ℕ → Option Bool
scan_units zero offset payload i = none
scan_units (suc fuel) offset payload i =
    if leb (length payload) i
    then some false
    else if ltb (length payload) (i + 2)
    then some false
    else (do
      hi ← get_elem? payload i
      lo ← get_elem? payload (i + 1)
      if ltb (length payload) (i + 2 + (hi * 256 + lo)) || leb (hi * 256 + lo) offset
          then some false
          else (do
            c ← get_elem? payload (i + 2 + offset)
            if c % 32 == 5
                then some true
                else scan_units fuel offset payload (i + 2 + (hi * 256 + lo))))

-- Every round moves on by at least three bytes, so the length of the payload is enough fuel.
pub is_h264_keyframe : List ℕ → Option Bool
is_h264_keyframe payload = if ltb (length payload) 1 then some false else (do
  c ← get_elem? payload 0
  let nalu = c % 32 in
      if nalu == 0
      then some false
      else if leb nalu 23
      then some (nalu == 5)
      else if leb nalu 27
      then scan_units (suc (length payload)) (unit_offset nalu) payload
          (if nalu == 24 then 1 else 3)
      else if leb nalu 29
      then (if ltb (length payload) 2 then some false else (do
        header ← get_elem? payload 1
        some (if has_bit header 7 then header % 32 == 5 else false)))
      else some false)
