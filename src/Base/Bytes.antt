-- ===== src/Base/Bytes.antt =====
-- A byte slice as its length and a function from index to byte, and Go's big-endian accesses.
use Prim.Native.Nat.{ℕ, zero, suc, ◌+◌, ◌-◌, ◌*◌, ◌/◌, ◌%◌, ◌≤◌, ◌<◌}
use mathlib.Core.Path.{◌≡◌, refl, ap, ap₂}
use mathlib.Core.Logic.{◌⊎◌}
use native.Mathlib.Nat.{add-zero}
use mathlib.Core.Bool.{◌&&◌}
use mathlib.Core.List.{List, [], ◌∷◌}
use native.Mathlib.Omega.{arith}
use mini_sfu.Base.Tests.{ltb, leb, if◌then◌else◌}
use mini_sfu.Base.Lists.{length, get_or}

abbrev pub Memory : Type 0
Memory = ℕ → ℕ

-- `copy(mem[off:], bytes)` where the bytes fit
unfoldable pub write : Memory → ℕ → List ℕ → Memory
write mem off bytes i =
    if leb off i && ltb i (off + length bytes) then get_or bytes (i - off) 0 else mem i

-- `binary.BigEndian.PutUint16(mem[off:], v)`
unfoldable pub put16 : Memory → ℕ → ℕ → Memory
put16 mem off v i =
    if leb off i && ltb i (off + 2) then (if leb i off then v / 256 % 256 else v % 256) else mem i

-- `binary.BigEndian.Uint16(mem[off:])`
abbrev pub get16 : Memory → ℕ → ℕ
get16 mem off = mem off * 256 + mem (off + 1)

-- `mem[off : off + n]`
unfoldable pub slice : Memory → ℕ → ℕ → List ℕ
slice mem off zero = []
slice mem off (suc n) = mem off ∷ slice mem (off + 1) n

pub write-inside :
    (mem : Memory) (off : ℕ) (bytes : List ℕ) (i : ℕ)
    → off ≤ i
    → i < off + length bytes
    → write mem off bytes i ≡ get_or bytes (i - off) 0
unfolding write
write-inside mem off bytes i h k = ground arith

pub write-outside :
    (mem : Memory) (off : ℕ) (bytes : List ℕ) (i : ℕ)
    → (i < off) ⊎ (off + length bytes ≤ i)
    → write mem off bytes i ≡ mem i
unfolding write
write-outside mem off bytes i h = ground arith

pub put16-outside :
    (mem : Memory) (off v i : ℕ) → (i < off) ⊎ (off + 2 ≤ i) → put16 mem off v i ≡ mem i
unfolding put16
put16-outside mem off v i h = ground arith

pub get16-put16 : (mem : Memory) (off v : ℕ) → v < 65536 → get16 (put16 mem off v) off ≡ v
unfolding put16
get16-put16 mem off v h = ground arith

-- A slice depends on its own bytes only.
pub slice_cong :
    (mem mem' : Memory) (off n : ℕ)
    → ((i : ℕ) → off ≤ i → i < off + n → mem i ≡ mem' i)
    → slice mem off n ≡ slice mem' off n
unfolding slice
slice_cong mem mem' off zero h = refl
slice_cong mem mem' off (suc n) h =
    ap₂ ◌∷◌ (h off (omega arith) (omega arith))
      (slice_cong mem mem' (off + 1) n (λ i lo hi. h i (omega arith) (omega arith)))

pub slice-eq :
    (mem : Memory) (off : ℕ) (bytes : List ℕ)
    → ((i : ℕ) → i < length bytes → mem (off + i) ≡ get_or bytes i 0)
    → slice mem off (length bytes) ≡ bytes
unfolding slice
slice-eq mem off [] h = refl
slice-eq mem off (b ∷ bytes) h =
    ap₂ ◌∷◌ (rw add-zero at (h 0 (omega arith)))
      (slice-eq mem (off + 1) bytes (λ i lt. rw (← shift i) (h (suc i) (omega arith))))
  where
    shift : (i : ℕ) → off + suc i ≡ off + 1 + i
    shift i = omega arith

-- What is written is read back.
pub slice-write :
    (mem : Memory) (off : ℕ) (bytes : List ℕ)
    → slice (write mem off bytes) off (length bytes) ≡ bytes
slice-write mem off bytes = slice-eq (write mem off bytes) off bytes (λ i lt.
    rw (write-inside mem off bytes (off + i) (omega arith) (omega arith))
      (ap (λ k. get_or bytes k 0) (omega arith)))
