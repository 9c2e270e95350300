-- ===== src/Twcc/Report/Noted.antt =====
-- The packets that wait for a report are few: a report is due in time, and takes them all.
use mini_sfu.Base.Int.{ℤ, sub_quot}
use mini_sfu.Base.{
  ℕ, ◌≤◌, ◌≡◌, refl, sym, ap, ◌∙◌, Bool, false, Option, none, some, inl, inr, List, [], ◌∷◌, ◌==◌,
  length, ==_iff, u16, arith, Bool-cases,
}
use mathlib.Core.Option
use mini_sfu.Twcc.{RtpExtInfo, Responder, pack_status, last_chunk}
use mini_sfu.Twcc.Report.{
  ◌>>=◌, append_bytes, be16, write_chunks, write_delta, delta_bytes, write_header, start_report,
  note_arrival, report_packet, report_packets, Report, begin_report, end_report,
  build_transport_cc_packet, fill_gaps, sort_infos, first_number, is_due, note_packet, push,
}

some_inj {ℓ} : {A : Type ℓ} (a b : A) → some a ≡ some b → a ≡ b
some_inj a b h = cc

no_more {ℓ} : {A : Type ℓ} (xs : List A) → length xs ≡ 0 → xs ≡ []
no_more [] h = refl
no_more (x ∷ xs) h = absurd (omega arith)

>>=-eq-some {ℓ κ} :
    {A : Type ℓ} {B : Type κ} (m : Option A) (f : A → Option B) {b : B}
    → (m >>= f) ≡ some b
    → (a : A) × (m ≡ some a) × (f a ≡ some b)
>>=-eq-some none f h = absurd (cc)
>>=-eq-some (some a) f h = (a, refl, h)

write_chunks-ext_info :
    (t r : Responder) (ws : List ℕ) → write_chunks t ws ≡ some r → r.ext_info ≡ t.ext_info
unfolding write_chunks
write_chunks-ext_info t r [] h = ground arith
write_chunks-ext_info t r (w ∷ ws) h =
    let (payload, _, rest) = >>=-eq-some (append_bytes 100 t.payload (be16 w)) _ h in
    write_chunks-ext_info (record t { payload = payload }) r ws rest

map-eq-some {ℓ κ} :
    {A : Type ℓ} {B : Type κ} (f : A → B) (m : Option A) {b : B}
    → Option.map f m ≡ some b
    → (a : A) × (m ≡ some a) × (f a ≡ b)
map-eq-some f none h = absurd (cc)
map-eq-some f (some a) h = (a, refl, cc)

write_delta-ext_info :
    (t r : Responder) (d : ℤ) → write_delta t d ≡ some r → r.ext_info ≡ t.ext_info
unfolding write_delta
write_delta-ext_info t r d h =
    let (deltas, _, same) = >>=-eq-some (append_bytes 200 t.deltas (delta_bytes d)) _ h in
    ground (arith, same)

start_report-ext_info :
    (base count : ℕ) (p : Report) (time : ℕ)
    → (start_report base count p time).resp.ext_info ≡ p.resp.ext_info
unfolding start_report write_header
start_report-ext_info base count p time = ground arith

note_arrival-ext_info :
    (base count : ℕ) (p : Report) (time : ℕ) (r : Report × ℕ)
    → note_arrival base count p time ≡ some r
    → r.0.resp.ext_info ≡ p.resp.ext_info
unfolding note_arrival
note_arrival-ext_info base count p time r h = elim (Bool-cases (time == 0)) [
  | inl lost ↦ let same = rw lost at h in ground (arith, same)
  | inr came ↦
      let q = start_report base count p time in
      let (t, delta, same) =
        map-eq-some _ (write_delta q.resp (sub_quot time q.timestamp 250)) (rw came at h) in
      ap (λ (r : Report × ℕ). r.0.resp.ext_info) (sym same)
      ∙ (write_delta-ext_info q.resp t (sub_quot time q.timestamp 250) delta
          ∙ start_report-ext_info base count p time)
]

report_packets-ext_info :
    (base count : ℕ) (p q : Report) (xs : List RtpExtInfo)
    → report_packets base count p xs ≡ some q
    → q.resp.ext_info ≡ p.resp.ext_info
unfolding report_packets report_packet
report_packets-ext_info base count p q [] h = ground arith
report_packets-ext_info base count p q (x ∷ xs) h =
    let (r, one, rest) = >>=-eq-some (report_packet base count p x) _ h in
    let (s, noted, written) = >>=-eq-some (note_arrival base count p x.timestamp) _ one in
    let (t, chunks, same) =
      >>=-eq-some (write_chunks s.0.resp (pack_status s.0.runs s.1).1) _ written in
    report_packets-ext_info base count r q xs rest
    ∙ (ap (λ (r : Report). r.resp.ext_info) (sym (some_inj _ _ same))
        ∙ (write_chunks-ext_info s.0.resp t (pack_status s.0.runs s.1).1 chunks
            ∙ note_arrival-ext_info base count p x.timestamp s noted))

build_transport_cc_packet-ext_info :
    (marshal : Bool → ℕ → List ℕ) (t : Responder) (r : Responder × Option (List ℕ))
    → build_transport_cc_packet marshal t ≡ some r
    → r.0.ext_info ≡ []
unfolding build_transport_cc_packet end_report
build_transport_cc_packet-ext_info marshal t r h = elim (Bool-cases (length t.ext_info == 0)) [
  | inl nothing ↦
      ap (λ (r : Responder × Option (List ℕ)). r.0.ext_info) (sym (some_inj _ _ (rw nothing at h)))
      ∙ no_more t.ext_info ((==_iff _ _).0 nothing)
  | inr infos ↦
      let (pkts, last) = fill_gaps t.last_ext_sn (sort_infos t.ext_info) in
      let (p, looped, rest) =
        >>=-eq-some
          (report_packets (first_number pkts) (u16 (length pkts)) (begin_report t last) pkts) _
          (rw infos at h) in
      let (s, chunks, same) = >>=-eq-some (write_chunks p.resp (last_chunk p.runs)) _ rest in
      ap (λ (r : Responder × Option (List ℕ)). r.0.ext_info) (sym (some_inj _ _ same))
      ∙ (write_chunks-ext_info p.resp s (last_chunk p.runs) chunks
          ∙ report_packets-ext_info (first_number pkts) (u16 (length pkts)) (begin_report t last) p
              pkts looped)
]

is_due-few :
    (t : Responder) (time : ℕ) (marker : Bool)
    → is_due t time marker ≡ false
    → length t.ext_info ≤ 100
unfolding is_due
is_due-few t time marker early = ground arith

-- After a call of `Push` that does not panic at most a hundred packets wait, if no more did before.
pub push-bounded :
    (marshal : Bool → ℕ → List ℕ) (t : Responder) (sn time : ℕ) (marker : Bool)
    (r : Responder × Option (List ℕ))
    → length t.ext_info ≤ 100
    → push marshal t sn time marker ≡ some r
    → length r.0.ext_info ≤ 100
unfolding push
push-bounded marshal t sn time marker r few h =
    elim (Bool-cases (is_due (note_packet t sn time) time marker)) [
      | inl due ↦
          let (s, built, same) =
            map-eq-some _ (build_transport_cc_packet marshal (note_packet t sn time))
              (rw due at h) in
          omega (
            arith,
            ap (λ (r : Responder × Option (List ℕ)). length r.0.ext_info) same,
            ap (λ (l : List RtpExtInfo). length l)
                (build_transport_cc_packet-ext_info marshal (note_packet t sn time) s built),
          )
      | inr early ↦ omega (
        arith,
        ap (λ (r : Responder × Option (List ℕ)). length r.0.ext_info)
            (some_inj _ _ (rw early at h)),
        is_due-few (note_packet t sn time) time marker early,
      )
    ]
