-- ===== src/Buffer/Calls/Pending.antt =====
-- Packets that come before their buffer is bound are handled as if they had come right after.
use mini_sfu.Base.Bytes.{Memory}
use mini_sfu.Base.{
  ℕ, ◌≡◌, refl, sym, ap, ◌∙◌, Bool, true, false, inl, inr, List, [], ◌∷◌, ◌++◌, Option, none, some,
  Option-cases, not, if◌then◌else◌, Bool-cases,
}
use mathlib.Core.Option
use mathlib.Core.List.{append-nil, append_assoc}
use mini_sfu.Bucket.{Bucket}
use mini_sfu.Buffer.{
  Floats, Mime, audio_mime, video_vp8, video_h64, other_video, other_mime, PendingPacket, Buffer,
}
use mini_sfu.Buffer.Calc.{◌>>=◌, Event, Parsers, calc}
use mini_sfu.Buffer.Calc.Frame.{framed, framed_result, calc-bound, calc-closed, framed_self}
use mini_sfu.Buffer.Calls.{
  Parameters, bind, bind_pending, is_video, FeedbackType, goog_remb, transport_cc, nack_feedback,
  other_feedback, bind_parameters, bind_codec, bind_extension, bind_feedback, calc_pending, write,
  ReadError,
}

choose {ℓ} :
    {A : Type ℓ} (c d : Bool) (x y z : A)
    → c ≡ false
    → d ≡ false
    → (if c then x else if not d then y else z) ≡ y
choose true d x y z no_c no_d = absurd (cc)
choose false true x y z no_c no_d = absurd (cc)
choose false false x y z no_c no_d = refl

module _ {F : Type 0} (fl : Floats F) (ps : Parsers) where
  -- the writes of packets at their times
  pub write_all : Buffer F → List PendingPacket → ℕ → Option (Buffer F × List Event)
  write_all b [] now = some (b, [])
  write_all b (pp ∷ pps) now = do
    (b', events, error) ← write fl ps b pp.packet pp.arrival_time now
    (b'', more) ← write_all b' pps now
    some (b'', events ++ more)

  -- Before the binding the packets wait.
  write_all-waits :
      (b : Buffer F) (pps : List PendingPacket) (now : ℕ)
      → b.closed ≡ false
      → b.bound ≡ false
      → write_all b pps now ≡ some (record b { p_packets = b.p_packets ++ pps }, [])
  unfolding write_all write
  write_all-waits b [] now unclosed unbound =
      ap (λ (l : List PendingPacket). some (record b { p_packets = l }, []))
        (sym (append-nil b.p_packets))
  write_all-waits b (pp ∷ pps) now unclosed unbound =
      let waiting = record b { p_packets = b.p_packets ++ (pp ∷ []) } in
      ap
        (λ (m : Option (Buffer F × List Event × Option ReadError)).
          m >>= λ x. write_all x.0 pps now >>= λ y. some (y.0, x.1 ++ y.1))
        (choose b.closed b.bound _ _ _ unclosed unbound)
      ∙ (ap (λ (m : Option (Buffer F × List Event)). m >>= λ y. some (y.0, y.1))
            (write_all-waits waiting pps now unclosed unbound)
          ∙ ap (λ (l : List PendingPacket). some (record b { p_packets = l }, []))
              (append_assoc b.p_packets (pp ∷ []) pps))

  -- The loop over packets does not depend on those that wait.
  calc_pending-bound :
      (waiting : List PendingPacket) (bd : Bool) (b : Buffer F) (pps : List PendingPacket) (now : ℕ)
      → b.closed ≡ false
      → calc_pending fl ps (framed waiting bd b) pps now
        ≡ Option.map (framed_result waiting bd) (calc_pending fl ps b pps now)
  unfolding calc_pending
  calc_pending-bound waiting bd b [] now unclosed = refl
  calc_pending-bound waiting bd b (pp ∷ pps) now unclosed =
      elim (Option-cases (calc fl ps b pp.packet pp.arrival_time now)) [
        | inl e ↦ rw (calc-bound waiting bd fl ps b pp.packet pp.arrival_time now unclosed, e) refl
        | inr (r, e) ↦
            rw (calc-bound waiting bd fl ps b pp.packet pp.arrival_time now unclosed, e)
              (next r.1 (calc_pending fl ps r.0 pps now) (
                calc_pending-bound waiting bd r.0 pps now
                  (calc-closed fl ps b pp.packet pp.arrival_time now r unclosed e)))
      ]
    where
      next :
          (events : List Event) (m : Option (Buffer F × List Event))
          {n : Option (Buffer F × List Event)}
          → n ≡ Option.map (framed_result waiting bd) m
          → (n >>= λ x. some (x.0, events ++ x.1))
            ≡ Option.map (framed_result waiting bd) (m >>= λ x. some (x.0, events ++ x.1))
      next events none h = rw h refl
      next events (some x) h = rw h refl

  -- After the binding the packets are handled one by one.
  write_all-calc :
      (b : Buffer F) (pps : List PendingPacket) (now : ℕ)
      → b.closed ≡ false
      → write_all (framed [] true b) pps now
        ≡ Option.map (framed_result [] true) (calc_pending fl ps b pps now)
  unfolding write_all write calc_pending
  write_all-calc b [] now unclosed = refl
  write_all-calc b (pp ∷ pps) now unclosed =
      elim (Option-cases (calc fl ps b pp.packet pp.arrival_time now)) [
        | inl e ↦ rw (calc-bound [] true fl ps b pp.packet pp.arrival_time now unclosed, e) refl
        | inr (r, e) ↦
            rw (calc-bound [] true fl ps b pp.packet pp.arrival_time now unclosed, e)
              (next r.1 (calc_pending fl ps r.0 pps now) (
                write_all-calc r.0 pps now
                  (calc-closed fl ps b pp.packet pp.arrival_time now r unclosed e)))
      ]
    where
      next :
          (events : List Event) (m : Option (Buffer F × List Event))
          {n : Option (Buffer F × List Event)}
          → n ≡ Option.map (framed_result [] true) m
          → (n >>= λ x. some (x.0, events ++ x.1))
            ≡ Option.map (framed_result [] true) (m >>= λ x. some (x.0, events ++ x.1))
      next events none h = rw h refl
      next events (some x) h = rw h refl

module _ {F : Type 0} (waiting : List PendingPacket) (bd : Bool) where
  bind_codec-framed :
      (b : Buffer F) (mime : Mime) (buf : Memory)
      → bind_codec (framed waiting bd b) mime buf ≡ framed waiting bd (bind_codec b mime buf)
  unfolding bind_codec
  bind_codec-framed b audio_mime buf = refl
  bind_codec-framed b video_vp8 buf = refl
  bind_codec-framed b video_h64 buf = refl
  bind_codec-framed b other_video buf = refl
  bind_codec-framed b other_mime buf = refl

  bind_extension-framed :
      (b : Buffer F) (exts : List (Bool × ℕ))
      → bind_extension (framed waiting bd b) exts ≡ framed waiting bd (bind_extension b exts)
  unfolding bind_extension
  bind_extension-framed b [] = refl
  bind_extension-framed b (ext ∷ exts) = elim (Bool-cases ext.0) [
    | inl e ↦ rw e refl
    | inr e ↦ rw e (bind_extension-framed b exts)
  ]

  bind_feedback-framed :
      (b : Buffer F) (fbs : List FeedbackType)
      → bind_feedback (framed waiting bd b) fbs ≡ framed waiting bd (bind_feedback b fbs)
  unfolding bind_feedback
  bind_feedback-framed b [] = refl
  bind_feedback-framed b (goog_remb ∷ fbs) = bind_feedback-framed (record b { remb = true }) fbs
  bind_feedback-framed b (transport_cc ∷ fbs) = bind_feedback-framed (record b { twcc = true }) fbs
  bind_feedback-framed b (nack_feedback ∷ fbs) = bind_feedback-framed (record b { nack = true }) fbs
  bind_feedback-framed b (other_feedback ∷ fbs) = bind_feedback-framed b fbs

  bind_parameters-framed :
      (b : Buffer F) (params : Parameters) (buf : Memory)
      → bind_parameters (framed waiting bd b) params buf
        ≡ framed waiting bd (bind_parameters b params buf)
  unfolding bind_parameters
  bind_parameters-framed b params buf =
      let named = record b {
        clock_rate = params.clock_rate;
        max_bitrate = params.max_bit_rate;
        mime = params.mime;
      } in
      let coded = bind_extension (bind_codec named params.mime buf) params.header_extensions in
      let same : bind_extension (bind_codec (framed waiting bd named) params.mime buf)
            params.header_extensions
          ≡ framed waiting bd coded =
        ap (λ (c : Buffer F). bind_extension c params.header_extensions)
          (bind_codec-framed named params.mime buf)
        ∙ bind_extension-framed (bind_codec named params.mime buf) params.header_extensions in
      ap
        (λ (c : Buffer F).
          if is_video c.codec_type then bind_feedback c params.rtcp_feedback else c)
        same
      ∙ either coded (is_video coded.codec_type)
    where
      either :
          (c : Buffer F) (k : Bool)
          → (if k
              then bind_feedback (framed waiting bd c) params.rtcp_feedback
              else framed waiting bd c)
            ≡ framed waiting bd (if k then bind_feedback c params.rtcp_feedback else c)
      either c true = bind_feedback-framed c params.rtcp_feedback
      either c false = refl

abbrev settled : {F : Type 0} → Buffer F × List Event → Option (Buffer F × List Event)
settled x = some (record x.0 { p_packets = []; bound = true }, x.1)

abbrev kept : {F : Type 0} → Buffer F × List Event → Option (Buffer F × List Event)
kept x = some (x.0, x.1)

with_bucket {ℓ} :
    {A : Type ℓ} (o : Option Bucket) (x y : Option A) (g : A → Option A)
    → x ≡ (y >>= g)
    → (o >>= λ k. x) ≡ ((o >>= λ k. y) >>= g)
with_bucket none x y g h = refl
with_bucket (some k) x y g h = h

module _ {F : Type 0} (fl : Floats F) (ps : Parsers) where
  bind_pending-write_all :
      (b : Buffer F) (bd : Bool) (pps : List PendingPacket) (now : ℕ)
      → b.closed ≡ false
      → bind_pending fl ps (framed pps bd b) now ≡ (
          bind_pending fl ps (framed [] bd b) now >>= λ r.
          write_all fl ps r.0 pps now >>= λ s. some (s.0, r.1 ++ s.1))
  unfolding bind_pending calc_pending
  bind_pending-write_all b bd pps now unclosed =
      with_bucket b.bucket _ (some (framed [] true b, [])) _ (
        ap (λ (m : Option (Buffer F × List Event)). m >>= settled)
          (calc_pending-bound fl ps pps bd b pps now unclosed)
        ∙ (same (calc_pending fl ps b pps now)
            ∙ ap (λ (m : Option (Buffer F × List Event)). m >>= kept)
                (sym (write_all-calc fl ps b pps now unclosed))))
    where
      same :
          (m : Option (Buffer F × List Event))
          → (Option.map (framed_result pps bd) m >>= settled)
            ≡ (Option.map (framed_result [] true) m >>= kept)
      same none = refl
      same (some x) = refl

  -- Packets that are written to an open buffer before it is bound have the effects, in the same
  -- order, that they have if they are written right after, if the clock of the reports stands still.
  pub bind-write_all :
      (b : Buffer F) (pps : List PendingPacket) (params : Parameters) (buf : Memory) (now : ℕ)
      → b.closed ≡ false
      → b.bound ≡ false
      → b.p_packets ≡ []
      → (write_all fl ps b pps now >>= λ r. bind fl ps r.0 params buf now) ≡ (
          bind fl ps b params buf now >>= λ r.
          write_all fl ps r.0 pps now >>= λ s. some (s.0, r.1 ++ s.1))
  unfolding bind
  bind-write_all b pps params buf now unclosed unbound nothing =
      let bd = b.bound in
      let bound_b = bind_parameters b params buf in
      let self : bound_b ≡ framed [] bd bound_b =
        ap (λ (c : Buffer F). bind_parameters c params buf)
          (sym (
            ap (λ (l : List PendingPacket). framed l bd b) (sym nothing)
            ∙ framed_self fl ps b unclosed))
        ∙ bind_parameters-framed [] bd b params buf in
      ap (λ (m : Option (Buffer F × List Event)). m >>= λ r. bind fl ps r.0 params buf now)
        (write_all-waits fl ps b pps now unclosed unbound)
      ∙ (ap (λ (c : Buffer F). bind_pending fl ps (bind_parameters c params buf) now)
            (ap (λ (l : List PendingPacket). record b { p_packets = l ++ pps }) nothing
              ∙ ap (λ (c : Bool). record b { p_packets = pps; closed = c }) unclosed)
          ∙ (ap (λ (c : Buffer F). bind_pending fl ps c now)
                (bind_parameters-framed pps bd b params buf)
              ∙ (bind_pending-write_all bound_b bd pps now (ap (λ (c : Buffer F). c.closed) self)
                  ∙ ap
                      (λ (c : Buffer F). bind_pending fl ps c now >>= λ r.
                        write_all fl ps r.0 pps now >>= λ s. some (s.0, r.1 ++ s.1))
                      (sym self))))
