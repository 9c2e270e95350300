-- ===== src/Sfu/Joining.antt =====
-- internal/sfu/peer.go: `Join`, which puts a peer into a session. What the constructors of the two
-- connections and of the default channels answer is an argument.
use mini_sfu.Base.Maps.{lookup, insert, lookup-insert_self, lookup-insert_other}
use mini_sfu.Base.{
  ℕ, ◌<◌, ◌≡◌, ◌≢◌, refl, ap, ◌∙◌, Bool, true, false, not, Option, none, some, List, [], ◌∷◌,
  if◌then◌else◌, length, get_or-set_self, Option-cases, inl, inr,
}
use mini_sfu.Sfu.{Sfu, Session, session_at, new_session, get_session, add_peer, new_session_of}
use mini_sfu.Sfu.Sessions.{IsValid, get_session-IsValid, add_peer-IsValid, get_session-known}

pub data JoinError : Type 0 where
  err_peer_connection_init_failed err_default_channel : JoinError

-- the loop over the default channels, which stops at the first that fails
unfoldable pub all_made : List Bool → Bool
all_made [] = true
all_made (made ∷ rest) = let others = all_made rest in if made then others else false

-- `Join`, less the callbacks that it sets and `Subscribe`, which `subscribe` of the router models: the
-- pointer of the session, and the error
unfoldable pub join : Sfu → ℕ → ℕ → Bool → Bool → List Bool → Sfu × ℕ × Option JoinError
join s sid pid subscribes publishes channels =
    let (s', p) = get_session s sid in
    if not subscribes
    then (s', p, some err_peer_connection_init_failed)
    else if not publishes
    then (s', p, some err_peer_connection_init_failed)
    else if not (all_made channels)
    then (s', p, some err_default_channel)
    else (add_peer s' p pid, p, none)

get_session-leads :
    (s : Sfu) (sid : ℕ) → lookup sid (get_session s sid).0.table ≡ some (get_session s sid).1
unfolding get_session new_session
get_session-leads s sid = elim (Option-cases (lookup sid s.table)) [
  | inl e ↦ rw (get_session, e) (lookup-insert_self sid (length s.heap) s.table)
  | inr (p, e) ↦ rw (get_session, e) e
]

-- The session of the pointer has the peer, and of the others those that it had.
add_peer-at :
    (s : Sfu) (p pid : ℕ)
    → p < length s.heap
    → (session_at (add_peer s p pid) p).peers ≡ insert pid pid (session_at s p).peers
unfolding add_peer
add_peer-at s p pid inside =
    ap (λ (t : Session). t.peers) (get_or-set_self s.heap p _ (new_session_of 0) inside)

-- A `Join` that does not fail
entered : Sfu → ℕ → ℕ → Sfu
entered s sid pid = add_peer (get_session s sid).0 (get_session s sid).1 pid

join-entered :
    (s : Sfu) (sid pid : ℕ) (channels : List Bool)
    → all_made channels ≡ true
    → join s sid pid true true channels ≡ (entered s sid pid, (get_session s sid).1, none)
unfolding join entered
join-entered s sid pid channels made = rw made refl

-- What the map leads to after a `Join`: the session, with the new peer and those that it had.
record Enters (s : Sfu) (sid pid : ℕ) (s' : Sfu) (p : ℕ) : Type 0 where
  valid : IsValid s'
  leads : lookup sid s'.table ≡ some p
  member : (session_at s' p).peers ≡ insert pid pid (session_at (get_session s sid).0 p).peers

entered-Enters :
    (s : Sfu) (sid pid : ℕ) → IsValid s → Enters s sid pid (entered s sid pid) (get_session s sid).1
unfolding entered add_peer
entered-Enters s sid pid v =
    let got = get_session-IsValid s sid v in
    let at = got sid (get_session s sid).1 (get_session-leads s sid) in
    record {
      valid = add_peer-IsValid (get_session s sid).0 (get_session s sid).1 pid got;
      leads = get_session-leads s sid;
      member = add_peer-at (get_session s sid).0 (get_session s sid).1 pid at.inside;
    }

-- Two peers that join an identifier one after the other, and whose connections and channels are made,
-- are in one session, and the map leads the identifier to it.
pub join_meets :
    (s : Sfu) (sid a b : ℕ) (channels : List Bool)
    → IsValid s
    → a ≢ b
    → all_made channels ≡ true
    → let first = join s sid a true true channels in
      let (s', p, error) = join first.0 sid b true true channels in
      (error ≡ none)
      × (lookup sid s'.table ≡ some p)
      × (lookup a (session_at s' p).peers ≡ some a)
      × (lookup b (session_at s' p).peers ≡ some b)
join_meets s sid a b channels v differ made =
    let first = entered s sid a in
    let p1 = (get_session s sid).1 in
    let one = entered-Enters s sid a v in
    let two = entered-Enters first sid b one.valid in
    let base : (session_at (get_session first sid).0 (get_session first sid).1).peers
        ≡ insert a a (session_at (get_session s sid).0 p1).peers =
      ap (λ (r : Sfu × ℕ). (session_at r.0 r.1).peers) (get_session-known first sid p1 one.leads)
      ∙ one.member in
    let held = (session_at (get_session first sid).0 (get_session first sid).1).peers in
    rw (join-entered s sid a channels made, join-entered first sid b channels made)
      (
        refl,
        two.leads,
        ap (lookup a) two.member
            ∙ lookup-insert_other b a b held differ
            ∙ ap (lookup a) base
            ∙ lookup-insert_self a a (session_at (get_session s sid).0 p1).peers,
        ap (lookup b) two.member ∙ lookup-insert_self b b held,
      )
