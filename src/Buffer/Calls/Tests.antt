-- ===== src/Buffer/Calls/Tests.antt =====
-- buffer.go with whole numbers for floating-point ones, and the theorems at it.
use mini_sfu.Base.Int.{ℤ, pos, negsuc}
use mini_sfu.Base.{
  ℕ, ◌+◌, ◌-◌, ◌*◌, ◌/◌, ◌%◌, ◌^◌, ◌≡◌, refl, true, false, ltb, none, some, List, [], ◌∷◌, ◌++◌,
  arith, max,
}
use mini_sfu.Buffer.{
  new_buffer, Floats, other_video, PendingPacket, Buffer, ext_max_seq, total_lost, fraction_lost,
  lost_interval, expected_interval, expected, note_sequence, count_bytes,
}
use mini_sfu.Buffer.Sequence.{Tracks, note_sequence-Tracks}
use mini_sfu.Buffer.Losses.{total_lost-counts, fraction_lost-floor}
use mini_sfu.Buffer.Calc.{◌>>=◌, Parsers, on_close, close_chan, probe}
use mini_sfu.Buffer.Calls.{Parameters, bind, close}
use mini_sfu.Buffer.Calls.Pending.{write_all, bind-write_all}
use mini_sfu.Buffer.Calls.Closing.{call_write, call_close, run, close-final}

abbrev whole_floats : Floats ℕ
whole_floats = record {
  of_int = natural;
  to_int = λ x. x;
  decimal = λ n k. n / 10 ^ k;
  add = λ a b. a + b;
  sub = λ a b. a - b;
  mul = λ a b. a * b;
  div = λ a b. a / b;
  less = ltb;
}
  where
    natural : ℤ → ℕ
    natural (pos n) = n
    natural (negsuc n) = 0

abbrev parsers : Parsers
parsers = record {
  unmarshal = λ bytes.
      some (record { timestamp = 0; marker = false; payload = bytes; extension = λ id. none });
  unmarshal_level = λ bytes. none;
}

abbrev fresh : Buffer ℕ
fresh = new_buffer whole_floats 7

-- Met the numbers 65530 to 65540 but for one.
abbrev wrapped : Buffer ℕ
wrapped = record fresh {
  base_sn = 65530;
  max_seq_no = 4;
  cycles = 65536;
  last_sr_recv = 1000000000;
  stats = record fresh.stats { packet_count = 10; last_expected = 1; last_received = 1 };
}

wrapped-Tracks : Tracks 65540 wrapped
wrapped-Tracks = record {
  started = λ e. absurd (omega arith);
  split = omega arith;
  whole = omega arith;
  short = omega arith;
}

note_sequence-Tracks_example : Tracks (max 65540 65600) (note_sequence wrapped (65600 % 65536) 5)
note_sequence-Tracks_example =
    note_sequence-Tracks 65540 65600 5 wrapped (omega arith) (omega arith) (omega arith)
      wrapped-Tracks

total_lost-counts_example :
    (ext_max_seq wrapped ≡ 65540) × (total_lost wrapped + 10 ≡ 65540 - 65530 + 1)
total_lost-counts_example =
    total_lost-counts 65540 wrapped wrapped-Tracks (omega arith) (omega arith) (omega arith)

wrapped-interval : expected_interval wrapped ≡ 10
unfolding expected_interval expected ext_max_seq
wrapped-interval = refl

fraction_lost-floor_example : fraction_lost wrapped ≡ (10 - 9) * 256 / 10
fraction_lost-floor_example =
    fraction_lost-floor wrapped 9 10 (omega arith) wrapped-interval (omega arith) (omega arith)
      (omega arith)

-- One packet more than expected, such as one that came twice, is reported as a loss.
one_too_many :
    fraction_lost (record wrapped { stats = record wrapped.stats { packet_count = 12 } }) ≡ 128
unfolding fraction_lost lost_interval expected_interval expected ext_max_seq
one_too_many = refl

-- A wrap among the first packets: 65535 and 0 are two packets, and 65535 more are expected.
wrap_while_probing :
    total_lost (
      count_bytes
        (probe (note_sequence (count_bytes (note_sequence fresh 65535 1) 12) 0 2) 0 (record {
          head = true;
          cycle = 0;
          arrival = 2;
          packet = record { timestamp = 0; marker = false; payload = []; extension = λ id. none };
          payload = none;
          key_frame = false;
        }))
        12)
    ≡ 65535
unfolding total_lost expected ext_max_seq count_bytes note_sequence probe
wrap_while_probing = refl

abbrev params : Parameters
params = record {
  clock_rate = 90000;
  mime = other_video;
  header_extensions = [];
  rtcp_feedback = [];
  max_bit_rate = 0;
}

abbrev two_packets : List PendingPacket
two_packets =
    record { arrival_time = 1; packet = 128 ∷ 96 ∷ 0 ∷ 5 ∷ [] }
    ∷ record { arrival_time = 2; packet = 128 ∷ 96 ∷ 0 ∷ 6 ∷ [] }
    ∷ []

bind-write_all_example :
    (write_all whole_floats parsers fresh two_packets 3 >>= λ r.
    bind whole_floats parsers r.0 params (λ i. 0) 3)
    ≡ (bind whole_floats parsers fresh params (λ i. 0) 3 >>= λ r.
        write_all whole_floats parsers r.0 two_packets 3 >>= λ s. some (s.0, r.1 ++ s.1))
bind-write_all_example =
    bind-write_all whole_floats parsers fresh two_packets params (λ i. 0) 3 refl refl refl

close-final_example :
    run whole_floats parsers (close fresh).0 (call_write (1 ∷ []) 5 5 ∷ call_close ∷ [])
    ≡ some ((close fresh).0, [])
close-final_example =
    close-final whole_floats parsers fresh (call_write (1 ∷ []) 5 5 ∷ call_close ∷ [])

-- The channel is closed once.
closes : (close fresh).1 ≡ on_close ∷ close_chan ∷ []
unfolding close
closes = refl
