-- ===== src/Twcc/Report/Layout.antt =====
-- The bytes of a report's packet.
use mini_sfu.Base.{
  ℕ, zero, suc, ◌+◌, ◌-◌, ◌*◌, ◌/◌, ◌%◌, ◌<◌, ◌≡◌, refl, Bool, List, [], ◌∷◌, ◌++◌, ltb, length,
  replicate, length-replicate, length-append, arith,
}
use mini_sfu.Twcc.Report.{packet_bytes, pad_size, padding}

pad_size-lem : (n : ℕ) → (pad_size 3 n < 4) × ((n + pad_size 3 n) % 4 ≡ 0)
unfolding pad_size
pad_size-lem n = ground arith

length-padding : (n : ℕ) → length (padding n) ≡ n
length-padding zero = refl
length-padding (suc n) =
    omega (arith, length-append (replicate n 0) (suc n ∷ []), length-replicate {A = ℕ} n 0)

-- The packet is whole words of four bytes, as many as its header says, and the padding flag is set
-- exactly if there is padding.
pub packet_bytes-whole :
    (marshal : Bool → ℕ → List ℕ) (payload deltas : List ℕ)
    → ((flag : Bool) (n : ℕ) → length (marshal flag n) ≡ 4)
    → let pad = pad_size 3 (length payload + length deltas + 4) in
      (n : ℕ) × (packet_bytes marshal payload deltas
        ≡ marshal (ltb 0 pad) n ++ (payload ++ (deltas ++ padding pad)))
      × (length (packet_bytes marshal payload deltas) ≡ 4 * (n + 1))
      × (pad < 4)
unfolding packet_bytes
packet_bytes-whole marshal payload deltas four =
    let size = length payload + length deltas + 4 in
    let pad = pad_size 3 size in
    (
      (size + pad) / 4 - 1,
      refl,
      omega (
        arith,
        four (ltb 0 pad) ((size + pad) / 4 - 1),
        length-append (marshal (ltb 0 pad) ((size + pad) / 4 - 1))
            (payload ++ (deltas ++ padding pad)),
        length-append payload (deltas ++ padding pad),
        length-append deltas (padding pad),
        length-padding pad,
        pad_size-lem size,
      ),
      (pad_size-lem size).0,
    )
