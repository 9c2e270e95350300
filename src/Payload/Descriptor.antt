-- ===== src/Payload/Descriptor.antt =====
-- The VP8 payload descriptor of RFC 7741 and the parser of helper.go.
use mini_sfu.Base.{
  ℕ, ◌+◌, ◌*◌, ◌%◌, ◌≤◌, ◌<◌, ◌≡◌, refl, Bool, true, false, ◌&&◌, ◌||◌, Option, none, some, List,
  [], ◌∷◌, ◌++◌, ◌==◌, length, length-append, lt→leb_false, le→ltb_false, subst, get_elem?-past,
  get_elem?, get_elem?-append, arith,
}
use native.Mathlib.Nat.{le_refl}
use mathlib.Core.List.{append-nil, append_assoc}
use mini_sfu.Payload.{
  Vp8, unmarshal, unmarshal_extended, read_picture_id, read_tl0_pic_idx, read_tid, read_key_frame,
  has_bit,
}

-- The picture identifier of a descriptor: none, of 7 bits, or of 15 bits.
pub data PictureId : Type 0 where
  absent : PictureId
  seven_bits : ℕ → PictureId
  fifteen_bits : ℕ → ℕ → PictureId

-- An extended descriptor: the start bit S, the picture identifier, the byte TL0PICIDX, and the
-- byte with the temporal layer, which stands there for the bit T, the bit K or both.
pub record Descriptor : Type 0 where
  pub start : Bool
  pub picture : PictureId
  pub tl0 : Option ℕ
  pub t : Bool
  pub k : Bool
  pub layer : ℕ
  pub rest : ℕ

abbrev pub bit : Bool → ℕ → ℕ
bit true n = n
bit false n = 0

abbrev pub picture_bit : PictureId → ℕ
picture_bit absent = 0
picture_bit (seven_bits n) = 128
picture_bit (fifteen_bits n m) = 128

abbrev pub picture_bytes : PictureId → List ℕ
picture_bytes absent = []
picture_bytes (seven_bits n) = n ∷ []
picture_bytes (fifteen_bits n m) = (128 + n) ∷ m ∷ []

abbrev pub tl0_bit : Option ℕ → ℕ
tl0_bit none = 0
tl0_bit (some n) = 64

abbrev pub tl0_bytes : Option ℕ → List ℕ
tl0_bytes none = []
tl0_bytes (some n) = n ∷ []

abbrev pub tid_bytes : Bool → ℕ → List ℕ
tid_bytes true b = b ∷ []
tid_bytes false b = []

abbrev pub PictureFits : PictureId → Type 0
PictureFits absent = Unit
PictureFits (seven_bits n) = n < 128
PictureFits (fifteen_bits n m) = n < 128

-- the bytes of a descriptor
unfoldable pub encode : Descriptor → List ℕ
encode d =
    (128 + bit d.start 16)
    ∷ (picture_bit d.picture + tl0_bit d.tl0 + bit d.t 32 + bit d.k 16)
    ∷ (picture_bytes d.picture
        ++ (tl0_bytes d.tl0 ++ tid_bytes (d.t || d.k) (d.layer * 64 + d.rest)))

-- what the parser sets for the picture identifier, read after byte 1
abbrev with_picture : PictureId → Vp8 → Vp8
with_picture absent p = p
with_picture (seven_bits n) p = record p { pic_id_idx = 2; picture_id = n }
with_picture (fifteen_bits n m) p = record p {
  pic_id_idx = 2;
  m_bit = true;
  picture_id = n * 256 + m;
}

abbrev with_tl0 : Option ℕ → ℕ → Vp8 → Vp8
with_tl0 none idx p = p
with_tl0 (some n) idx p = record p { tlz_idx = idx; tl0_pic_idx = n }

abbrev with_tid : Bool → ℕ → Vp8 → Vp8
with_tid true n p = record p { tid = n }
with_tid false n p = p

-- the fields of `VP8` that stand for a descriptor
pub fields : Descriptor → Vp8 → Vp8
fields d p = with_tid (d.t || d.k) d.layer (
    with_tl0 d.tl0 (1 + length (picture_bytes d.picture) + 1)
      (with_picture d.picture (record p { temporal_supported = d.t })))

-- The same with the key frame bit, before a payload with the first byte `c`.
pub parsed : Descriptor → ℕ → Vp8 → Vp8
parsed d c p = record (fields d p) { is_key_frame = c % 2 == 0 && d.start }

-- The parts fit their bits.
pub record Fits (d : Descriptor) : Type 0 where
  pub picture_fits : PictureFits d.picture
  pub layer_fits : d.layer < 4
  pub rest_fits : d.rest < 64

-- the element at the length of what stands before it
elem_at :
    (payload pre ys : List ℕ) (c i : ℕ)
    → i ≡ length pre
    → payload ≡ pre ++ (c ∷ ys)
    → get_elem? payload i ≡ some c
elem_at payload pre ys c i here e = rw (e, here) (get_elem?-append pre ys c)

abbrev has_picture : PictureId → Bool
has_picture absent = false
has_picture (seven_bits n) = true
has_picture (fifteen_bits n m) = true

abbrev has_tl0 : Option ℕ → Bool
has_tl0 none = false
has_tl0 (some n) = true

read_picture_id-bytes :
    (b x : ℕ) (picture : PictureId) (ys : List ℕ) (p : Vp8)
    → PictureFits picture
    → read_picture_id (b ∷ x ∷ (picture_bytes picture ++ ys)) (has_picture picture) p 1
      ≡ some (with_picture picture p, 1 + length (picture_bytes picture))
unfolding read_picture_id has_bit
read_picture_id-bytes b x absent ys p fits = refl
read_picture_id-bytes b x (seven_bits n) ys p fits = ground arith
read_picture_id-bytes b x (fifteen_bits n m) ys p fits = ground arith

read_tl0_pic_idx-bytes :
    (payload pre : List ℕ) (tl0 : Option ℕ) (ys : List ℕ) (p : Vp8) (idx : ℕ)
    → idx + 1 ≡ length pre
    → payload ≡ pre ++ (tl0_bytes tl0 ++ ys)
    → read_tl0_pic_idx payload (has_tl0 tl0) p idx
      ≡ some (with_tl0 tl0 (idx + 1) p, idx + length (tl0_bytes tl0))
unfolding read_tl0_pic_idx
read_tl0_pic_idx-bytes payload pre none ys p idx here e = ground arith
read_tl0_pic_idx-bytes payload pre (some n) ys p idx here e =
    rw (elem_at payload pre ys n (idx + 1) here e) refl

read_tid-bytes :
    (payload pre : List ℕ) (present : Bool) (layer rest : ℕ) (ys : List ℕ) (p : Vp8) (idx : ℕ)
    → layer < 4
    → rest < 64
    → idx + 1 ≡ length pre
    → payload ≡ pre ++ (tid_bytes present (layer * 64 + rest) ++ ys)
    → read_tid payload present p idx
      ≡ some (with_tid present layer p, idx + length (tid_bytes present (layer * 64 + rest)))
unfolding read_tid
read_tid-bytes payload pre false layer rest ys p idx lo hi here e = ground arith
read_tid-bytes payload pre true layer rest ys p idx lo hi here e =
    rw (elem_at payload pre ys (layer * 64 + rest) (idx + 1) here e) (ground arith)

abbrev control : PictureId → Option ℕ → Bool → Bool → ℕ
control picture tl0 t k = picture_bit picture + tl0_bit tl0 + bit t 32 + bit k 16

control_bits :
    (picture : PictureId) (tl0 : Option ℕ) (t k : Bool)
    → (has_bit (control picture tl0 t k) 7 ≡ has_picture picture)
      × (has_bit (control picture tl0 t k) 6 ≡ has_tl0 tl0)
      × (has_bit (control picture tl0 t k) 5 ≡ t)
      × (has_bit (control picture tl0 t k) 4 ≡ k)
unfolding has_bit
control_bits picture tl0 t k = ground arith

-- What the steps come to, one after the other.
unmarshal_extended_chain :
    (payload : List ℕ) (s : Bool) (p : Vp8) (x : ℕ) (r t u : Vp8 × ℕ)
    → get_elem? payload 1 ≡ some x
    → read_picture_id payload (has_bit x 7) (record p { temporal_supported = has_bit x 5 }) 1
      ≡ some r
    → read_tl0_pic_idx payload (has_bit x 6) r.0 r.1 ≡ some t
    → read_tid payload (has_bit x 5 || has_bit x 4) t.0 t.1 ≡ some u
    → u.1 < length payload
    → unmarshal_extended payload s p ≡ read_key_frame payload s u.0 (u.1 + 1)
unfolding unmarshal_extended
unmarshal_extended_chain payload s p x r t u e0 e1 e2 e3 lt =
    rw (e0, e1, e2, e3, lt→leb_false (length payload) u.1 lt) refl

module _ (d : Descriptor) (ys : List ℕ) (p : Vp8) (fits : Fits d) where
  abbrev tid_part : List ℕ
  tid_part = tid_bytes (d.t || d.k) (d.layer * 64 + d.rest)

  abbrev to_picture : List ℕ
  to_picture = (128 + bit d.start 16) ∷ control d.picture d.tl0 d.t d.k ∷ picture_bytes d.picture

  encode-append : encode d ++ ys ≡ to_picture ++ (tl0_bytes d.tl0 ++ (tid_part ++ ys))
  unfolding encode
  encode-append =
      rw
        (
          append_assoc (picture_bytes d.picture) (tl0_bytes d.tl0 ++ tid_part) ys,
          append_assoc (tl0_bytes d.tl0) tid_part ys,
        )
        refl

  length-encode :
      length (encode d)
      ≡ length (picture_bytes d.picture) + length (tl0_bytes d.tl0) + length tid_part + 2
  unfolding encode
  length-encode = omega (
    arith,
    length-append (picture_bytes d.picture) (tl0_bytes d.tl0 ++ tid_part),
    length-append (tl0_bytes d.tl0) tid_part,
  )

  -- On the bytes of a descriptor, with at least one more byte or none, the parser comes to the
  -- key frame bit.
  unmarshal_extended-encode :
      unmarshal_extended (encode d ++ ys) d.start p
      ≡ read_key_frame (encode d ++ ys) d.start (fields d p) (length (encode d))
  unfolding fields
  unmarshal_extended-encode =
      let bits = control_bits d.picture d.tl0 d.t d.k in
      let q = with_picture d.picture (record p { temporal_supported = d.t }) in
      let i = 1 + length (picture_bytes d.picture) in
      let j = i + length (tl0_bytes d.tl0) in
      let q' = with_tl0 d.tl0 (i + 1) q in
      rw last (
        unmarshal_extended_chain (encode d ++ ys) d.start p (control d.picture d.tl0 d.t d.k) (q, i)
          (q', j) (with_tid (d.t || d.k) d.layer q', j + length tid_part) (rw encode-append refl)
          (rw (bits.0, bits.2, encode-append)
            (read_picture_id-bytes (128 + bit d.start 16) (control d.picture d.tl0 d.t d.k)
              d.picture (tl0_bytes d.tl0 ++ (tid_part ++ ys)) _ fits.picture_fits))
          (rw bits.1 (
            read_tl0_pic_idx-bytes (encode d ++ ys) to_picture d.tl0 (tid_part ++ ys) q i
              (omega arith) encode-append))
          (rw (bits.2, bits.3)
            (read_tid-bytes (encode d ++ ys) (to_picture ++ tl0_bytes d.tl0) (d.t || d.k) d.layer
              d.rest ys q' j fits.layer_fits fits.rest_fits
              (omega (arith, length-append to_picture (tl0_bytes d.tl0)))
              (rw (encode-append, append_assoc to_picture (tl0_bytes d.tl0) (tid_part ++ ys))
                refl)))
          (omega (arith, length-encode, length-append (encode d) ys)))
    where
      last :
          length (encode d)
          ≡ 1 + length (picture_bytes d.picture) + length (tl0_bytes d.tl0) + length tid_part + 1
      last = omega (arith, length-encode)

-- The first byte of a descriptor: its extension bit is set, and its start bit is S.
start_bits : (s : Bool) → (has_bit (128 + bit s 16) 7 ≡ true) × (has_bit (128 + bit s 16) 4 ≡ s)
unfolding has_bit
start_bits true = (refl, refl)
start_bits false = (refl, refl)

unmarshal_long :
    (d : Descriptor) (ys : List ℕ) (p : Vp8)
    → Fits d
    → 4 ≤ length (encode d ++ ys)
    → unmarshal (some (encode d ++ ys)) p
      ≡ read_key_frame (encode d ++ ys) d.start (fields d p) (length (encode d))
unfolding unmarshal
unmarshal_long d ys p fits long =
    rw
      (
        le→ltb_false (length (encode d ++ ys)) 4 long,
        encode-append d ys p fits,
        (start_bits d.start).0,
        (start_bits d.start).1,
        ← encode-append d ys p fits,
      )
      (unmarshal_extended-encode d ys p fits)

-- A payload of at least four bytes that is an extended descriptor, whose parts fit their bits, and
-- at least one byte more is parsed without a panic and without an error: the fields of `VP8` are
-- those of the descriptor, with the indexes of its parts, and it is a key frame if the start bit
-- is set and the lowest bit of the byte after the descriptor is 0.
pub unmarshal-encode :
    (d : Descriptor) (c : ℕ) (rest : List ℕ) (p : Vp8)
    → Fits d
    → 4 ≤ length (encode d ++ (c ∷ rest))
    → unmarshal (some (encode d ++ (c ∷ rest))) p ≡ some (parsed d c p, none)
unfolding read_key_frame parsed
unmarshal-encode d c rest p fits long =
    rw (unmarshal_long d (c ∷ rest) p fits long, get_elem?-append (encode d) rest c) refl

-- A payload of at least four bytes that is an extended descriptor and nothing more makes the
-- parser index past its end: it panics instead of returning `errShortPacket`.
pub unmarshal_panics :
    (d : Descriptor) (p : Vp8)
    → Fits d
    → 4 ≤ length (encode d)
    → unmarshal (some (encode d)) p ≡ none
unfolding read_key_frame
unmarshal_panics d p fits long =
    subst (λ bytes. unmarshal (some bytes) p ≡ none) (append-nil (encode d))
      (rw
        (
          unmarshal_long d [] p fits (rw (append-nil (encode d)) long),
          append-nil (encode d),
          get_elem?-past (encode d) (length (encode d)) (le_refl _),
        )
        refl)
