-- ===== src/Nack.antt =====
-- internal/buffer/nack.go: the queue of lost sequence numbers, oldest first.
pub mod Search
pub mod Order
pub mod Pairs
pub mod Coverage
pub mod Trace
mod Tests
use mini_sfu.Base.{
  ℕ, zero, suc, ◌+◌, ◌-◌, ◌*◌, ◌/◌, ◌^◌, Bool, true, false, ◌&&◌, ◌||◌, not, Option, none, some,
  List, [], ◌∷◌, ◌++◌, ltb, leb, ◌==◌, if◌then◌else◌, length, get_or, drop, replicate, u8, u16, u32,
  sub16, bit_or,
}

abbrev pub max_nack_times : ℕ
max_nack_times = 3

abbrev pub max_nack_cache : ℕ
max_nack_cache = 100

-- `nack`: `sn` is a uint32, the number extended by its cycles; `nacked` is a uint8.
pub record Nack : Type 0 where
  pub sn : ℕ
  pub nacked : ℕ

-- `nackQueue`
pub record NackQueue : Type 0 where
  pub nacks : List Nack
  pub counter : ℕ
  pub max_sn : ℕ
  pub kf_sn : ℕ
  pub cycles : ℕ

-- `rtcp.NackPair`
pub record NackPair : Type 0 where
  pub packet_id : ℕ
  pub lost_packets : ℕ

abbrev pub no_nack : Nack
no_nack = record { sn = 0; nacked = 0 }

-- The slice is made with its length, not its capacity: the queue starts with 101 zero entries.
unfoldable pub new_nack_queue : NackQueue
new_nack_queue = record {
  nacks = replicate (max_nack_cache + 1) no_nack;
  counter = 0;
  max_sn = 0;
  kf_sn = 0;
  cycles = 0;
}

-- `sort.Search`, the standard library's binary search over [i, j); every round narrows it.
sort_search : ℕ → (ℕ → Bool) → ℕ → ℕ → ℕ
sort_search zero f i j = i
sort_search (suc fuel) f i j = elim (ltb i j) [
  | false ↦ i
  | true ↦ elim (f ((i + j) / 2)) [
    | false ↦ sort_search fuel f ((i + j) / 2 + 1) j
    | true ↦ sort_search fuel f i ((i + j) / 2)
  ]
]

abbrev pub sn_at : List Nack → ℕ → ℕ
sn_at xs i = (get_or xs i no_nack).sn

-- the index of the first entry not below `ext_sn`; as many rounds as entries are enough
abbrev search_sn : List Nack → ℕ → ℕ
search_sn xs ext_sn = sort_search (length xs) (λ i. leb ext_sn (sn_at xs i)) 0 (length xs)

-- `append`, the `copy` that shifts the tail, and the write at `i`
insert_at : ℕ → Nack → List Nack → List Nack
insert_at zero n xs = n ∷ xs
insert_at (suc i) n [] = n ∷ []
insert_at (suc i) n (x ∷ xs) = x ∷ insert_at i n xs

-- the `copy` that closes the gap, and the shortened slice
remove_at : ℕ → List Nack → List Nack
remove_at i [] = []
remove_at zero (x ∷ xs) = xs
remove_at (suc i) (x ∷ xs) = x ∷ remove_at i xs

-- the cycle count that `push` extends with: `maxSN` is `1 << 16`
pub advance : NackQueue → ℕ → NackQueue
advance n sn =
    if n.max_sn == 0
    then record n { max_sn = sn }
    else if ltb (sub16 sn n.max_sn) 0x8000
    then record n {
      max_sn = sn;
      cycles = if ltb sn n.max_sn then u32 (n.cycles + 65536) else n.cycles;
    }
    else n

-- the rest of `push`, at the extended number
insert_sn : NackQueue → ℕ → NackQueue
unfolding sort_search insert_at
insert_sn n ext_sn =
    let i = search_sn n.nacks ext_sn in
    if ltb i (length n.nacks) && sn_at n.nacks i == ext_sn
    then n
    else let grown = insert_at i (record { sn = ext_sn; nacked = 0 }) n.nacks in
      record n {
        nacks = if ltb max_nack_cache (length grown) then drop 1 grown else grown;
        counter = u8 (n.counter + 1);
      }

pub push : NackQueue → ℕ → NackQueue
push n sn = let n' = advance n sn in insert_sn n' (bit_or n'.cycles sn)

pub remove : NackQueue → ℕ → NackQueue
unfolding sort_search remove_at
remove n sn =
    let ext_sn = bit_or n.cycles sn in
    let i = search_sn n.nacks ext_sn in
    if leb (length n.nacks) i || not (sn_at n.nacks i == ext_sn)
    then n
    else record n { nacks = remove_at i n.nacks }

-- the variables of the loop of `pairs`; `kept` is `n.nacks[:i]`
pub record Scan : Type 0 where
  pub kept : List Nack
  pub kf_sn : ℕ
  pub ask_key_frame : Bool
  pub np : NackPair
  pub nps : List NackPair

-- `1 << s` in a uint16
abbrev pub bit16 : ℕ → ℕ
bit16 s = if ltb s 16 then 2 ^ s else 0

-- a body of the loop that keeps the entry: count the request, and put it in a pair
pub note_nack : Scan → Nack → Scan
note_nack s nck =
    let t = record s { kept = s.kept ++ (record nck { nacked = u8 (nck.nacked + 1) } ∷ []) } in
    if s.np.packet_id == 0 || ltb (u16 (s.np.packet_id + 16)) (u16 nck.sn)
    then record t {
      nps = if s.np.packet_id == 0 then s.nps else s.nps ++ (s.np ∷ []);
      np = record { packet_id = u16 nck.sn; lost_packets = 0 };
    }
    else record t {
      np = record {
        packet_id = s.np.packet_id;
        lost_packets =
            bit_or s.np.lost_packets (bit16 (sub16 (sub16 (u16 nck.sn) s.np.packet_id) 1));
      };
    }

pub scan_nack : Scan → Nack → Scan
scan_nack s nck =
    if leb max_nack_times nck.nacked
    then if ltb s.kf_sn nck.sn then record s { kf_sn = nck.sn; ask_key_frame = true } else s
    else note_nack s nck

pub scan_nacks : Scan → List Nack → Scan
scan_nacks s [] = s
scan_nacks s (nck ∷ rest) = scan_nacks (scan_nack s nck) rest

abbrev pub scan_start : NackQueue → Scan
scan_start n = record {
  kept = [];
  kf_sn = n.kf_sn;
  ask_key_frame = false;
  np = record { packet_id = 0; lost_packets = 0 };
  nps = [];
}

-- the append of the last pair after the loop
abbrev pub all_pairs : Scan → List NackPair
all_pairs s = if s.np.packet_id == 0 then s.nps else s.nps ++ (s.np ∷ [])

pub pairs : NackQueue → NackQueue × List NackPair × Bool
pairs n =
    if ltb n.counter 2
    then (record n { counter = n.counter + 1 }, [], false)
    else let s = scan_nacks (scan_start n) n.nacks in
      (record n { counter = 0; kf_sn = s.kf_sn; nacks = s.kept }, all_pairs s, s.ask_key_frame)
