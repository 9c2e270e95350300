-- ===== src/Twcc/Report.antt =====
-- internal/buffer/twcc.go: when a report is due, what is in it, and its bytes. `none` is a panic, of
-- an index out of range.
pub mod Written
pub mod Started
pub mod Decoded
pub mod Gaps
pub mod Noted
mod Tests
pub mod Built
pub mod Layout
pub mod Deltas
use mini_sfu.Base.Int.{ℤ, pos, negsuc, sub_quot, is_positive, bits16, int16, same_int}
use mini_sfu.Base.{
  ℕ, zero, suc, ◌+◌, ◌-◌, ◌*◌, ◌/◌, ◌%◌, ◌^◌, Bool, true, false, ◌&&◌, ◌||◌, not, Option, none,
  some, List, [], ◌∷◌, ◌++◌, ltb, leb, ◌==◌, if◌then◌else◌, length, replicate, bit_or, u8, u16, u32,
}
use mathlib.Core.Option
use mini_sfu.Twcc.{
  RtpExtInfo, Responder, Runs, fresh_runs, pack_status, last_chunk, not_received, small_delta,
  large_delta,
}

infixl 5 ◌>>=◌
abbrev pub ◌>>=◌ {ℓ κ} : {A : Type ℓ} {B : Type κ} → Option A → (A → Option B) → Option B
none >>= f = none
some a >>= f = f a

-- the bytes that `PutUint16` and `PutUint32` write
abbrev pub be16 : ℕ → List ℕ
be16 v = (v / 256 % 256) ∷ (v % 256) ∷ []

abbrev pub be32 : ℕ → List ℕ
be32 v = be16 (v / 65536 % 65536) ++ be16 (v % 65536)

-- a write at the end of an array of `cap` bytes, of which `xs` are filled
abbrev pub append_bytes : ℕ → List ℕ → List ℕ → Option (List ℕ)
append_bytes cap xs bytes = if leb (length xs + length bytes) cap then some (xs ++ bytes) else none

-- `writeHeader`
pub write_header : Responder → ℕ → ℕ → ℕ → Responder
write_header t n_sn packet_count ref_time = record t {
  payload =
      be32 t.s_ssrc
      ++ (be32 t.m_ssrc
          ++ (be16 n_sn ++ (be16 packet_count ++ be32 (bit_or (u32 (ref_time * 256)) t.pkt_ctn))));
}

-- the words of `writeRunLengthChunk` and `writeStatusSymbolChunk`, put into the payload
pub write_chunks : Responder → List ℕ → Option Responder
write_chunks t [] = some t
write_chunks t (w ∷ ws) = do
  payload ← append_bytes 100 t.payload (be16 w)
  write_chunks (record t { payload = payload }) ws

-- `delta < 0 || delta > 255`
abbrev pub is_large : ℤ → Bool
is_large (pos n) = ltb 255 n
is_large (negsuc n) = true

pub delta_status : ℤ → ℕ
delta_status delta = if is_large delta then large_delta else small_delta

-- `rDelta`, with the test for an overflow, as a `uint16`
pub clamp_delta : ℤ → ℕ
clamp_delta delta =
    let r_delta = int16 (bits16 delta) in
    if same_int r_delta delta then bits16 delta else if is_positive r_delta then 32767 else 32768

-- the bytes of `writeDelta`
pub delta_bytes : ℤ → List ℕ
delta_bytes delta = if is_large delta then be16 (clamp_delta delta) else u8 (bits16 delta) ∷ []

pub write_delta : Responder → ℤ → Option Responder
write_delta t delta = do
  deltas ← append_bytes 200 t.deltas (delta_bytes delta)
  some (record t { deltas = deltas })

-- the locals of `buildTransportCCPacket`
pub record Report : Type 0 where
  pub resp : Responder
  pub runs : Runs
  pub first_recv : Bool
  pub timestamp : ℕ

-- the branch on `firstRecv`
pub start_report : ℕ → ℕ → Report → ℕ → Report
start_report base count p time = if p.first_recv then p else record p {
  first_recv = true;
  timestamp = time / 64000 * 64000;
  resp = record (write_header p.resp base count (u32 (time / 64000))) {
    pkt_ctn = u8 (p.resp.pkt_ctn + 1);
  };
}

-- the branch on a packet that came, and the status of the packet
pub note_arrival : ℕ → ℕ → Report → ℕ → Option (Report × ℕ)
note_arrival base count p time =
    if time == 0
    then some (p, not_received)
    else let started = start_report base count p time in
      let delta = sub_quot time started.timestamp 250 in
      Option.map (λ t. (record started { resp = t; timestamp = time }, delta_status delta))
        (write_delta started.resp delta)

-- the body of the loop over `tccPkts`
pub report_packet : ℕ → ℕ → Report → RtpExtInfo → Option Report
report_packet base count p stat = do
  (q, status) ← note_arrival base count p stat.timestamp
  t ← write_chunks q.resp (pack_status q.runs status).1
  some (record q { resp = t; runs = (pack_status q.runs status).0 })

pub report_packets : ℕ → ℕ → Report → List RtpExtInfo → Option Report
report_packets base count p [] = some p
report_packets base count p (x ∷ xs) = do
  q ← report_packet base count p x
  report_packets base count q xs

-- The packets of the loop from `n` on that did not come.
abbrev pub lost_packets : ℕ → ℕ → List RtpExtInfo
lost_packets zero n = []
lost_packets (suc rounds) n = record { ext_tsn = n; timestamp = 0 } ∷ lost_packets rounds (n + 1)

-- `tccPkts`: the gaps are filled; what comes before the last report's end is skipped. The second
-- part is `lastExtSN`.
pub fill_gaps : ℕ → List RtpExtInfo → List RtpExtInfo × ℕ
fill_gaps last [] = ([], last)
fill_gaps last (x ∷ xs) =
    let skipped = fill_gaps last xs in
    let rest = fill_gaps x.ext_tsn xs in
    if ltb x.ext_tsn last then skipped else (
      (if last == 0 then [] else lost_packets (x.ext_tsn - u32 (last + 1)) (u32 (last + 1)))
          ++ (x ∷ rest.0),
      rest.1,
    )

-- `sort.Slice`, which leaves the order of equal numbers open: here they keep it
pub insert_info : RtpExtInfo → List RtpExtInfo → List RtpExtInfo
insert_info x [] = x ∷ []
insert_info x (y ∷ ys) =
    let rest = insert_info x ys in if leb x.ext_tsn y.ext_tsn then x ∷ (y ∷ ys) else y ∷ rest

pub sort_infos : List RtpExtInfo → List RtpExtInfo
sort_infos [] = []
sort_infos (x ∷ xs) = insert_info x (sort_infos xs)

-- `padSize`, by the rounds left; three are enough
pub pad_size : ℕ → ℕ → ℕ
pad_size zero p_len = 0
pad_size (suc rounds) p_len =
    let more = suc (pad_size rounds (p_len + 1)) in if p_len % 4 == 0 then 0 else more

abbrev pub padding : ℕ → List ℕ
padding zero = []
padding (suc n) = replicate n 0 ++ (suc n ∷ [])

-- The packet; `marshal` is `Marshal` of an `rtcp.Header` of this format, whose four bytes depend on
-- the padding flag and the length.
pub packet_bytes : (Bool → ℕ → List ℕ) → List ℕ → List ℕ → List ℕ
packet_bytes marshal payload deltas =
    let p_len = length payload + length deltas + 4 in
    let pad = pad_size 3 p_len in
    marshal (ltb 0 pad) ((p_len + pad) / 4 - 1) ++ (payload ++ (deltas ++ padding pad))

abbrev pub first_number : List RtpExtInfo → ℕ
first_number [] = 0
first_number (x ∷ xs) = u16 x.ext_tsn

-- the values that the loop over `tccPkts` starts with
abbrev pub begin_report : Responder → ℕ → Report
begin_report t last = record {
  resp = record t { ext_info = []; last_ext_sn = last };
  runs = fresh_runs [];
  first_recv = false;
  timestamp = 0;
}

-- what follows that loop
pub end_report : (Bool → ℕ → List ℕ) → Report → Option (Responder × Option (List ℕ))
end_report marshal p = do
  r ← write_chunks p.resp (last_chunk p.runs)
  some (record r { payload = []; deltas = [] }, some (packet_bytes marshal r.payload r.deltas))

-- `buildTransportCCPacket`: the inner option is the packet, or nil
pub build_transport_cc_packet :
    (Bool → ℕ → List ℕ) → Responder → Option (Responder × Option (List ℕ))
build_transport_cc_packet marshal t =
    if length t.ext_info == 0
    then some (t, none)
    else let (pkts, last) = fill_gaps t.last_ext_sn (sort_infos t.ext_info) in
      do
        p ← report_packets (first_number pkts) (u16 (length pkts)) (begin_report t last) pkts
        end_report marshal p

-- the test of `Push` for a report that is due
pub is_due : Responder → ℕ → Bool → Bool
is_due t time marker =
    ltb 20 (length t.ext_info) && not (t.m_ssrc == 0) && leb (t.last_report + 100000000) time
    || ltb 100 (length t.ext_info)
    || marker && leb (t.last_report + 500000000) time

-- the note of the packet, before that test
pub note_packet : Responder → ℕ → ℕ → Responder
note_packet t sn time =
    let cycles = if ltb sn 4095 && ltb 61440 t.last_sn then u32 (t.cycles + 65536) else t.cycles in
    record t {
      cycles = cycles;
      ext_info =
          t.ext_info ++ (record { ext_tsn = bit_or cycles sn; timestamp = time / 1000 } ∷ []);
      last_sn = sn;
    }

-- `Push`, with the argument of `onFeedback` if it is called
pub push : (Bool → ℕ → List ℕ) → Responder → ℕ → ℕ → Bool → Option (Responder × Option (List ℕ))
push marshal t sn time marker =
    let noted = note_packet t sn time in
    let built = build_transport_cc_packet marshal noted in
    if is_due noted time marker
    then Option.map (λ r. (record r.0 { last_report = time }, r.1)) built
    else some (noted, none)
