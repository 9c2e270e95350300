-- ===== src/Twcc/Rounds.antt =====
-- One round of the packing loop keeps the locals in shape and accounts for every status.
use mini_sfu.Base.{
  ℕ, ◌+◌, ◌*◌, ◌<◌, ◌≤◌, ◌≡◌, refl, sym, ap, ap₂, ◌∙◌, inl, inr, ◌⊎◌, true, false, List, [], ◌∷◌,
  ◌++◌, ltb, ◌==◌, length, replicate, All, arith, Bool-cases, length-append, u16, ◌&&◌, not,
}
use mathlib.Core.List.{append-nil}
use mini_sfu.Twcc.{Runs, fresh_runs, end_run, store_status, run_chunk}
use mini_sfu.Twcc.Chunks.{decode_chunk, decode_chunks, decode-run_chunk, run_chunk-lt}
use mini_sfu.Twcc.Packing.{Scanned, uniform_after, bounded_after}

-- The locals after a round: the statuses that wait are few, or all the same.
pub record Shape (r : Runs) : Type 0 where
  pub scanned : Scanned r.status_list r
  pub mixed : r.same ≡ false → length r.status_list ≤ 13
  pub mixed_large : r.same ≡ false → r.max_status ≡ 2 → length r.status_list ≤ 7

-- The words written and the statuses that wait are the statuses `xs`.
pub record Emits (xs : List ℕ) (p : Runs × List ℕ) : Type 0 where
  pub kept : decode_chunks p.1 ++ p.0.status_list ≡ xs
  pub words : All (λ w. w < 65536) p.1
  pub room : 7 * length p.1 + length p.0.status_list ≤ length xs

pub Emits-nothing : (r : Runs) → Emits r.status_list (r, [])
Emits-nothing r = record { kept = refl; words = tt; room = omega arith }

pub Emits-word :
    (r : Runs) (w : ℕ) (xs front : List ℕ)
    → decode_chunk w ≡ front
    → w < 65536
    → 7 ≤ length front
    → front ++ r.status_list ≡ xs
    → Emits xs (r, w ∷ [])
Emits-word r w xs front word small long split = record {
  kept = ap (λ t. t ++ r.status_list) (append-nil (decode_chunk w) ∙ word) ∙ split;
  words = (small, tt);
  room = omega (arith, ap length split, length-append front r.status_list);
}

store_status-Scanned :
    (r : Runs) (s : ℕ)
    → s ≤ 2
    → Scanned r.status_list r
    → (r.same ≡ true → (r.last_status ≡ 3) ⊎ (s ≡ r.last_status))
    → Scanned (r.status_list ++ (s ∷ [])) (store_status r s)
unfolding store_status
store_status-Scanned r s small v goes_on = record {
  bounded = bounded_after r.status_list r.max_status s v.bounded;
  top = ground (arith, v.top);
  uniform = λ e.
      uniform_after r.status_list r.last_status s
        (elim (goes_on e) [ inl new ↦ inl (v.begin new) | inr old ↦ inr (v.uniform e, old) ]);
  begin = λ e. absurd (omega arith);
}

all_same : (a : ℕ) (xs : List ℕ) → All (λ x. x ≡ a) xs → xs ≡ replicate (length xs) a
all_same a [] h = refl
all_same a (x ∷ xs) h = ap₂ ◌∷◌ h.0 (all_same a xs h.1)

last_small :
    (r : Runs)
    → Scanned r.status_list r
    → r.same ≡ true
    → 0 < length r.status_list
    → r.last_status ≤ 2
last_small r v e some_left = first r.status_list (v.uniform e) v.bounded some_left
  where
    first :
        (xs : List ℕ)
        → All (λ y. y ≡ r.last_status) xs
        → All (λ y. y ≤ r.max_status) xs
        → 0 < length xs
        → r.last_status ≤ 2
    first [] a b h = absurd (omega arith)
    first (x ∷ xs) a b h = omega (arith, v.top, a.0, b.0)

-- The chunk of a run says the statuses of the run.
pub run_word :
    (r : Runs)
    → Scanned r.status_list r
    → r.same ≡ true
    → 0 < length r.status_list
    → length r.status_list < 8192
    → (decode_chunk (run_chunk r.last_status (u16 (length r.status_list))) ≡ r.status_list)
      × (run_chunk r.last_status (u16 (length r.status_list)) < 65536)
run_word r v e some_left short = rw (fits) (
  decode-run_chunk r.last_status (length r.status_list) (omega (arith, low)) short
      ∙ sym (all_same r.last_status r.status_list (v.uniform e)),
  run_chunk-lt r.last_status (length r.status_list) (omega (arith, low)) short,
)
  where
    low : r.last_status ≤ 2
    low = last_small r v e some_left

    fits : u16 (length r.status_list) ≡ length r.status_list
    fits = omega arith

-- What `end_run` leaves: the next status may be stored.
pub record Ended (r : Runs) (s : ℕ) : Type 0 where
  pub stored : Scanned (r.status_list ++ (s ∷ [])) (store_status r s)
  pub waiting : r.same ≡ false → length r.status_list ≤ 13

fresh_stored : (s : ℕ) → s ≤ 2 → Scanned (s ∷ []) (store_status (fresh_runs []) s)
fresh_stored s small =
    store_status-Scanned (fresh_runs []) s small
      (record { bounded = tt; top = omega arith; uniform = λ e. tt; begin = λ e. refl })
      (λ e. inl refl)

pub end_run-lem :
    (r : Runs) (s : ℕ)
    → s ≤ 2
    → length r.status_list < 8192
    → Shape r
    → Emits r.status_list (end_run r s) × Ended (end_run r s).0 s
unfolding end_run
end_run-lem r s small short v =
    elim (Bool-cases (r.same && not (s == r.last_status) && not (r.last_status == 3))) [
      | inl ends ↦ elim (Bool-cases (ltb 7 (length r.status_list))) [
        | inl long ↦
            rw (ends, long)
              (
                Emits-word (fresh_runs []) (run_chunk r.last_status (u16 (length r.status_list)))
                    r.status_list r.status_list
                    (run_word r v.scanned (ground arith) (ground arith) short).0
                    (run_word r v.scanned (ground arith) (ground arith) short).1 (ground arith)
                    (append-nil r.status_list),
                record { stored = fresh_stored s small; waiting = λ e. cc },
              )
        | inr few ↦
            rw (ends, few)
              (
                record { kept = refl; words = tt; room = omega arith },
                record {
                  stored =
                      store_status-Scanned (record r { same = false }) s small
                        (record {
                          bounded = v.scanned.bounded;
                          top = v.scanned.top;
                          uniform = λ e. absurd (cc);
                          begin = v.scanned.begin;
                        })
                        (λ e. absurd (cc));
                  waiting = λ e. ground arith;
                },
              )
      ]
      | inr goes_on ↦ rw goes_on (
        Emits-nothing r,
        record {
          stored = store_status-Scanned r s small v.scanned (λ e. ground arith);
          waiting = v.mixed;
        },
      )
    ]
