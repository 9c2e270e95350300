-- ===== src/Twcc.antt =====
-- internal/buffer/twcc.go: the reports of arrival times (transport-wide congestion control). A report
-- has a header, chunks that say which packets came, and the times between them.
pub mod Digits
pub mod Chunks
pub mod Packing
pub mod Rounds
pub mod Vectors
pub mod Report
use mini_sfu.Base.Int.{ℤ, pos, negsuc, sub_quot, is_negative, is_positive, bits16, int16, same_int}
use mini_sfu.Base.{
  ℕ, zero, suc, ◌+◌, ◌-◌, ◌*◌, ◌/◌, ◌%◌, ◌^◌, Bool, true, false, ◌&&◌, ◌||◌, not, Option, none,
  some, List, [], ◌∷◌, ◌++◌, ltb, leb, ◌==◌, if◌then◌else◌, length, replicate, bit_or, u8, u16, u32,
}
use mathlib.Core.Option

-- The symbols of a status, with the numbers that the format gives them, by which package rtcp names
-- them.
abbrev pub not_received : ℕ
not_received = 0

abbrev pub small_delta : ℕ
small_delta = 1

abbrev pub large_delta : ℕ
large_delta = 2

abbrev pub without_delta : ℕ
without_delta = 3

-- `rtpExtInfo`; the time is in microseconds, and 0 for a packet that did not come.
pub record RtpExtInfo : Type 0 where
  pub ext_tsn : ℕ
  pub timestamp : ℕ

-- `Responder`. `payload` is `payload[:len]` and `deltas` is `deltas[:deltaLen]`: no more of the two
-- arrays is ever read. `chunk` is 0 between the calls. Times are in nanoseconds.
pub record Responder : Type 0 where
  pub ext_info : List RtpExtInfo
  pub last_report : ℕ
  pub cycles : ℕ
  pub last_ext_sn : ℕ
  pub last_sn : ℕ
  pub pkt_ctn : ℕ
  pub s_ssrc : ℕ
  pub m_ssrc : ℕ
  pub payload : List ℕ
  pub deltas : List ℕ

-- `NewTransportWideCCResponder`; the sender's SSRC is random.
abbrev pub new_responder : (s_ssrc m_ssrc now : ℕ) → Responder
new_responder s_ssrc m_ssrc now = record {
  ext_info = [];
  last_report = now + 100000000;
  cycles = 0;
  last_ext_sn = 0;
  last_sn = 0;
  pkt_ctn = 0;
  s_ssrc = s_ssrc;
  m_ssrc = m_ssrc;
  payload = [];
  deltas = [];
}

-- `setNBitsOfUint16`
pub set_n_bits : ℕ → ℕ → ℕ → ℕ → ℕ
set_n_bits src size start val =
    if ltb 16 (start + size) then 0 else bit_or src (val % 2 ^ size * 2 ^ (16 - size - start))

-- `createStatusSymbolChunk`
pub create_symbol : ℕ → ℕ → ℕ → ℕ → ℕ
create_symbol chunk size symbol i = set_n_bits chunk (size + 1) ((size + 1) * i + 2) symbol

-- the loops that take a number of symbols off the list, which holds as many
pub fill_symbols : ℕ → ℕ → ℕ → ℕ → List ℕ → ℕ × List ℕ
fill_symbols size zero i chunk xs = (chunk, xs)
fill_symbols size (suc n) i chunk [] = (chunk, [])
fill_symbols size (suc n) i chunk (x ∷ xs) =
    fill_symbols size n (i + 1) (create_symbol chunk size x i) xs

-- the loops at the end, whose bound is the length of the list that they shorten
pub fill_left : ℕ → ℕ → ℕ → List ℕ → ℕ
fill_left size i chunk [] = chunk
fill_left size i chunk (x ∷ xs) =
    let rest = fill_left size (i + 1) (create_symbol chunk size x i) xs in
    if ltb i (length (x ∷ xs)) then rest else chunk

-- the word of `writeStatusSymbolChunk`
pub status_chunk : ℕ → ℕ → ℕ
status_chunk size chunk = set_n_bits (set_n_bits chunk 1 0 1) 1 1 size

-- the word of `writeRunLengthChunk`
pub run_chunk : ℕ → ℕ → ℕ
run_chunk symbol run_length = bit_or (u16 (symbol * 8192)) run_length

-- the locals of `buildTransportCCPacket` that make up the chunks
pub record Runs : Type 0 where
  pub same : Bool
  pub last_status : ℕ
  pub max_status : ℕ
  pub status_list : List ℕ

-- the values that begin a chunk
abbrev pub fresh_runs : List ℕ → Runs
fresh_runs xs = record {
  same = true;
  last_status = without_delta;
  max_status = not_received;
  status_list = xs;
}

-- Before a status is stored: the end of a run. The second part is the words that are written.
pub end_run : Runs → ℕ → Runs × List ℕ
end_run r status =
    if r.same && not (status == r.last_status) && not (r.last_status == without_delta)
    then (if ltb 7 (length r.status_list)
        then (fresh_runs [], run_chunk r.last_status (u16 (length r.status_list)) ∷ [])
        else (record r { same = false }, []))
    else (r, [])

pub store_status : Runs → ℕ → Runs
store_status r status = record r {
  status_list = r.status_list ++ (status ∷ []);
  max_status = if ltb r.max_status status then status else r.max_status;
  last_status = status;
}

-- the body of the loop over the statuses that a two-bit chunk leaves
pub rescan_status : Runs → ℕ → Runs
rescan_status r status = record r {
  max_status = if ltb r.max_status status then status else r.max_status;
  same =
      if r.same && not (r.last_status == without_delta) && not (status == r.last_status)
      then false
      else r.same;
  last_status = status;
}

pub rescan : Runs → List ℕ → Runs
rescan r [] = r
rescan r (x ∷ xs) = rescan (rescan_status r x) xs

-- After a status is stored: a vector that is full.
pub end_vector : Runs → Runs × List ℕ
end_vector r =
    if not r.same && r.max_status == large_delta && ltb 6 (length r.status_list)
    then (let (chunk, rest) = fill_symbols 1 7 0 0 r.status_list in
        (rescan (fresh_runs rest) rest, status_chunk 1 chunk ∷ []))
    else if not r.same && ltb 13 (length r.status_list)
    then (let (chunk, rest) = fill_symbols 0 14 0 0 r.status_list in
        (fresh_runs rest, status_chunk 0 chunk ∷ []))
    else (r, [])

-- the round of the loop for one status, with the words that it writes
pub pack_status : Runs → ℕ → Runs × List ℕ
pack_status r status =
    let (ended, before) = end_run r status in
    let (packed, after) = end_vector (store_status ended status) in (packed, before ++ after)

-- the statuses that are left after the loop
pub last_chunk : Runs → List ℕ
last_chunk r =
    if length r.status_list == 0
    then []
    else if r.same
    then run_chunk r.last_status (u16 (length r.status_list)) ∷ []
    else if r.max_status == large_delta
    then status_chunk 1 (fill_left 1 0 0 r.status_list) ∷ []
    else status_chunk 0 (fill_left 0 0 0 r.status_list) ∷ []
