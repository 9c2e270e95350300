-- ===== src/Sfu/Sessions.antt =====
-- Runs of sfu.go and session.go: the map leads to open sessions.
use mini_sfu.Base.{
  ℕ, ◌<◌, ◌≡◌, ◌≢◌, refl, sym, ap, ◌∙◌, subst, Bool, true, false, ◌||◌, none, some, List, [], ◌∷◌,
  ◌==◌, length, length-append, length-set, set, get_or-set_self, get_or-set_ne, get_or-append_left,
  get_or-snoc, Bool-cases, Option-cases, inl, inr, arith,
}
use mini_sfu.Sfu.{
  Session, Sfu, new_session_of, new_sfu, session_at, new_session, get_session, add_peer, leave,
  remove_peer,
}
use mini_sfu.Base.Maps.{
  lookup, delete, insert, lookup-delete_self, lookup-delete_other, lookup-insert_self,
  lookup-insert_other,
}

-- A pointer of the map leads to a session of that identifier which has not ended.
pub record Leads (s : Sfu) (sid p : ℕ) : Type 0 where
  pub inside : p < length s.heap
  pub named : (session_at s p).id ≡ sid
  pub still_open : (session_at s p).closed ≡ false

abbrev pub IsValid : Sfu → Type 0
IsValid s = (sid p : ℕ) → lookup sid s.table ≡ some p → Leads s sid p

-- A further session leaves the others where they are.
new_session-kept : (s : Sfu) (sid q p : ℕ) → Leads s q p → Leads (new_session s sid).0 q p
unfolding new_session
new_session-kept s sid q p l = record {
  inside = omega (arith, l.inside, length-append s.heap (new_session_of sid ∷ []));
  named =
      rw (get_or-append_left s.heap (new_session_of sid ∷ []) p (new_session_of 0) l.inside)
        l.named;
  still_open =
      rw (get_or-append_left s.heap (new_session_of sid ∷ []) p (new_session_of 0) l.inside)
        l.still_open;
}

new_session-fresh : (s : Sfu) (sid : ℕ) → Leads (new_session s sid).0 sid (length s.heap)
unfolding new_session
new_session-fresh s sid = record {
  inside = omega (arith, length-append s.heap (new_session_of sid ∷ []));
  named = rw (get_or-snoc s.heap (new_session_of sid) (new_session_of 0)) refl;
  still_open = rw (get_or-snoc s.heap (new_session_of sid) (new_session_of 0)) refl;
}

some-inj : (a b : ℕ) → some a ≡ some b → a ≡ b
some-inj a b e = ground (arith, e)

equal_keys : (a b : ℕ) → (a == b) ≡ true → a ≡ b
equal_keys a b e = ground (arith, e)

other_keys : (a b : ℕ) → (a == b) ≡ false → a ≢ b
other_keys a b e = ground (arith, e)

new_session-IsValid : (s : Sfu) (sid : ℕ) → IsValid s → IsValid (new_session s sid).0
unfolding new_session
new_session-IsValid s sid v q p e = elim (Bool-cases (q == sid)) [
  | inl same ↦
      subst (λ x. Leads (new_session s sid).0 x p) (sym (equal_keys q sid same))
        (subst (λ y. Leads (new_session s sid).0 sid y) (at_end (equal_keys q sid same))
          (new_session-fresh s sid))
  | inr other ↦ new_session-kept s sid q p (v q p (before (other_keys q sid other)))
]
  where
    at_end : q ≡ sid → length s.heap ≡ p
    at_end h = some-inj (length s.heap) p (
        sym (lookup-insert_self sid (length s.heap) s.table)
        ∙ subst (λ x. lookup x (insert sid (length s.heap) s.table) ≡ some p) h e)

    before : q ≢ sid → lookup q s.table ≡ some p
    before ne = sym (lookup-insert_other sid q (length s.heap) s.table ne) ∙ e

-- A write at a pointer leaves the other sessions, and may change its own but for what the map needs.
write_kept :
    (s : Sfu) (table : List (ℕ × ℕ)) (p q sid : ℕ) (new : Session)
    → Leads s sid q
    → p ≢ q
    → Leads (record { heap = set s.heap p new; table = table }) sid q
write_kept s table p q sid new l ne = record {
  inside = rw (length-set s.heap p new) l.inside;
  named = rw (get_or-set_ne s.heap p q new (new_session_of 0) ne) l.named;
  still_open = rw (get_or-set_ne s.heap p q new (new_session_of 0) ne) l.still_open;
}

write_own :
    (s : Sfu) (table : List (ℕ × ℕ)) (p sid : ℕ) (new : Session)
    → Leads s sid p
    → new.id ≡ sid
    → new.closed ≡ false
    → Leads (record { heap = set s.heap p new; table = table }) sid p
write_own s table p sid new l named still_open = record {
  inside = rw (length-set s.heap p new) l.inside;
  named = rw (get_or-set_self s.heap p new (new_session_of 0) l.inside) named;
  still_open = rw (get_or-set_self s.heap p new (new_session_of 0) l.inside) still_open;
}

write-Leads :
    (s : Sfu) (table : List (ℕ × ℕ)) (p q sid : ℕ) (new : Session)
    → Leads s sid q
    → new.id ≡ (session_at s p).id
    → new.closed ≡ (session_at s p).closed
    → Leads (record { heap = set s.heap p new; table = table }) sid q
write-Leads s table p q sid new l id closed = elim (Bool-cases (p == q)) [
  | inl same ↦
      let h = equal_keys p q same in
      let own = subst (λ x. Leads s sid x) (sym h) l in
      subst (λ x. Leads (record { heap = set s.heap p new; table = table }) sid x) h
        (write_own s table p sid new own (id ∙ own.named) (closed ∙ own.still_open))
  | inr other ↦ write_kept s table p q sid new l (other_keys p q other)
]

pub get_session-IsValid : (s : Sfu) (sid : ℕ) → IsValid s → IsValid (get_session s sid).0
unfolding get_session
get_session-IsValid s sid v = elim (Option-cases (lookup sid s.table)) [
  | inl e ↦ rw (e, get_session) (new_session-IsValid s sid v)
  | inr (p, e) ↦ rw (e, get_session) v
]

pub add_peer-IsValid : (s : Sfu) (p pid : ℕ) → IsValid s → IsValid (add_peer s p pid)
unfolding add_peer
add_peer-IsValid s p pid v sid q e = write-Leads s s.table p q sid _ (v sid q e) refl refl

or_false : (b : Bool) → (b || false) ≡ b
or_false true = refl
or_false false = refl

-- A session that ends leaves the map; any other stays open.
leave-IsValid :
    (s : Sfu) (p : ℕ) (left : List (ℕ × ℕ)) (ends : Bool)
    → IsValid s
    → IsValid (leave s p left ends)
unfolding leave
leave-IsValid s p left false v sid q e =
    write-Leads s s.table p q sid _ (v sid q e) refl (or_false (session_at s p).closed)
leave-IsValid s p left true v sid q e = elim (Bool-cases (sid == (session_at s p).id)) [
  | inl same ↦ absurd (gone (equal_keys sid (session_at s p).id same))
  | inr other ↦
      let ne = other_keys sid (session_at s p).id other in
      let l = v sid q (sym (lookup-delete_other (session_at s p).id sid s.table ne) ∙ e) in
      write_kept s _ p q sid _ l (λ h. ne (sym l.named ∙ ap (λ x. (session_at s x).id) (sym h)))
]
  where
    gone : sid ≡ (session_at s p).id → ⊥
    gone h = cc (
      lookup-delete_self (session_at s p).id s.table,
      subst (λ x. lookup x (delete (session_at s p).id s.table) ≡ some q) h e,
    )

-- One call of the SFU or of one of its sessions, by whichever peer; pointers come from
-- `get_session`.
pub data Step : Sfu → Sfu → Type 0 where
  gets : (s : Sfu) (sid : ℕ) → Step s (get_session s sid).0
  adds : (s : Sfu) (p pid : ℕ) → Step s (add_peer s p pid)
  removes : (s : Sfu) (p pid : ℕ) → Step s (remove_peer s p pid)

pub data Reachable : Sfu → Type 0 where
  start : Reachable new_sfu
  step : (s s' : Sfu) → Reachable s → Step s s' → Reachable s'

pub step-IsValid : (s s' : Sfu) → Step s s' → IsValid s → IsValid s'
unfolding remove_peer
step-IsValid _ _ (gets s sid) v = get_session-IsValid s sid v
step-IsValid _ _ (adds s p pid) v = add_peer-IsValid s p pid v
step-IsValid _ _ (removes s p pid) v = leave-IsValid s p _ _ v

-- In every run of calls, in whatever interleaving, the map of the SFU leads every identifier that
-- it knows to a session of that identifier which has not ended.
pub reachable-IsValid : (s : Sfu) → Reachable s → IsValid s
reachable-IsValid _ start = λ sid p e. absurd (cc e)
reachable-IsValid _ (step s s' before next) = step-IsValid s s' next (reachable-IsValid s before)

-- `b` asks for the session in which `a` is alone and gets its pointer; `a` leaves, which ends the
-- session; then `b` is added to it.
abbrev pub joins_late : Sfu → ℕ → ℕ → ℕ → ℕ → Sfu
joins_late s sid p a b = add_peer (remove_peer (get_session s sid).0 p a) p b

pub get_session-known :
    (s : Sfu) (sid p : ℕ) → lookup sid s.table ≡ some p → get_session s sid ≡ (s, p)
unfolding get_session
get_session-known s sid p e = rw (e, get_session) refl

get_session-unknown :
    (s : Sfu) (sid : ℕ) → lookup sid s.table ≡ none → (get_session s sid).1 ≡ length s.heap
unfolding get_session new_session
get_session-unknown s sid e = rw (e, get_session) refl

last_leaves :
    (s : Sfu) (p a : ℕ)
    → (session_at s p).peers ≡ (a, a) ∷ []
    → (session_at s p).closed ≡ false
    → remove_peer s p a ≡ leave s p [] true
unfolding remove_peer
last_leaves s p a alone open_ = rw (alone, open_, same a) refl
  where
    same : (n : ℕ) → (n == n) ≡ true
    same n = ground arith

-- The identifier is unknown after the end, and the next pointer is a new one.
lost :
    (s : Sfu) (sid p b : ℕ)
    → Leads s sid p
    → (get_session (add_peer (leave s p [] true) p b) sid).1 ≢ p
unfolding leave add_peer
lost s sid p b l h = omega (
  arith,
  h,
  l.inside,
  same_length,
  get_session-unknown (add_peer (leave s p [] true) p b) sid
      (rw l.named (lookup-delete_self sid s.table)),
)
  where
    same_length : length (add_peer (leave s p [] true) p b).heap ≡ length s.heap
    same_length = length-set (leave s p [] true).heap p _ ∙ length-set s.heap p _

-- In a state in which the map leads to the session of a single peer `a`, a peer `b` that gets the
-- session just before `a` leaves, and is added just after, is in a session that the map does not
-- know: whoever asks for the identifier next gets another session, and `b` is not in it.
pub late_join_is_lost :
    (s : Sfu) (sid p a b : ℕ)
    → IsValid s
    → lookup sid s.table ≡ some p
    → (session_at s p).peers ≡ (a, a) ∷ []
    → ((get_session s sid).1 ≡ p) × ((get_session (joins_late s sid p a b) sid).1 ≢ p)
late_join_is_lost s sid p a b v e alone =
    let l = v sid p e in
    let left = last_leaves s p a alone l.still_open in
    (
      ap (λ (r : Sfu × ℕ). r.1) (get_session-known s sid p e),
      rw (get_session-known s sid p e, left) (lost s sid p b l),
    )
