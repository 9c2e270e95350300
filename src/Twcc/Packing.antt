-- ===== src/Twcc/Packing.antt =====
-- The loop that packs the statuses into chunks: nothing is lost and nothing is doubled.
use mini_sfu.Base.{
  ℕ, ◌≤◌, ◌≡◌, refl, inl, inr, ◌⊎◌, ==_iff, true, List, [], ◌∷◌, ◌++◌, ltb, ◌==◌, if◌then◌else◌,
  All, arith, Bool-cases, All-append, All-map,
}
use mathlib.Core.List.{append-nil, append_assoc}
use mini_sfu.Twcc.{Runs, rescan_status, rescan, pack_status}

-- the rounds of the loop, with all the words that they write
abbrev pub pack_statuses : Runs → List ℕ → Runs × List ℕ
pack_statuses r [] = (r, [])
pack_statuses r (x ∷ xs) =
    let (r', w) = pack_status r x in let (r'', ws) = pack_statuses r' xs in (r'', w ++ ws)

-- The locals say what there is to know of the statuses `ys`.
pub record Scanned (ys : List ℕ) (r : Runs) : Type 0 where
  pub bounded : All (λ y. y ≤ r.max_status) ys
  pub top : r.max_status ≤ 2
  pub uniform : r.same ≡ true → All (λ y. y ≡ r.last_status) ys
  pub begin : r.last_status ≡ 3 → ys ≡ []

pub uniform_after :
    (ys : List ℕ) (last s : ℕ)
    → (ys ≡ []) ⊎ (All (λ y. y ≡ last) ys × (s ≡ last))
    → All (λ y. y ≡ s) (ys ++ (s ∷ []))
uniform_after ys last s (inl none_yet) = rw none_yet (refl, tt)
uniform_after ys last s (inr (all, same)) =
    All-append (λ y. y ≡ s) ys (s ∷ [])
      (All-map (λ y. y ≡ last) (λ y. y ≡ s) ys (λ y h. omega arith) all) (refl, tt)

pub bounded_after :
    (ys : List ℕ) (top s : ℕ)
    → All (λ y. y ≤ top) ys
    → All (λ y. y ≤ (if ltb top s then s else top)) (ys ++ (s ∷ []))
bounded_after ys top s all =
    All-append (λ y. y ≤ (if ltb top s then s else top)) ys (s ∷ [])
      (All-map (λ y. y ≤ top) (λ y. y ≤ (if ltb top s then s else top)) ys (λ y h. ground arith)
        all)
      (ground arith, tt)

rescan_status-Scanned :
    (ys : List ℕ) (r : Runs) (s : ℕ)
    → s ≤ 2
    → Scanned ys r
    → Scanned (ys ++ (s ∷ [])) (rescan_status r s)
unfolding rescan_status
rescan_status-Scanned ys r s small v = record {
  bounded = bounded_after ys r.max_status s v.bounded;
  top = ground (arith, v.top);
  uniform = λ e. uniform_after ys r.last_status s (elim (Bool-cases (r.last_status == 3)) [
    | inl new ↦ inl (v.begin ((==_iff r.last_status 3).0 new))
    | inr old ↦ inr (v.uniform (ground arith), ground arith)
  ]);
  begin = λ e. absurd (omega arith);
}

pub rescan-Scanned :
    (ys : List ℕ) (r : Runs) (xs : List ℕ)
    → All (λ x. x ≤ 2) xs
    → Scanned ys r
    → Scanned (ys ++ xs) (rescan r xs)
unfolding rescan
rescan-Scanned ys r [] small v = rw (append-nil ys) v
rescan-Scanned ys r (x ∷ xs) small v = rw (append_assoc ys (x ∷ []) xs) at (
    rescan-Scanned (ys ++ (x ∷ [])) (rescan_status r x) xs small.1
      (rescan_status-Scanned ys r x small.0 v))

pub rescan-status_list : (r : Runs) (xs : List ℕ) → (rescan r xs).status_list ≡ r.status_list
unfolding rescan rescan_status
rescan-status_list r [] = refl
rescan-status_list r (x ∷ xs) = rescan-status_list (rescan_status r x) xs
