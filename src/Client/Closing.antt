-- ===== src/Client/Closing.antt =====
-- `Close` of a peer, which signal.go calls when the client is gone.
use mini_sfu.Base.Maps.{lookup, delete, lookup-delete_self}
use mini_sfu.Base.{
  ℕ, zero, suc, ◌<◌, ◌==◌, ◌≡◌, refl, ap, sym, ◌∙◌, Bool, true, false, ◌&&◌, ◌||◌, not, Option,
  none, some, List, [], ◌∷◌, length, if◌then◌else◌, set, get_or, length-set, get_or-set_self,
  Bool-cases, inl, inr, arith,
}
use mini_sfu.Peer
use mini_sfu.Peer.Negotiation.{Run, Steps, stays_silent}
use mini_sfu.Publisher
use mini_sfu.Publisher.{Publisher}
use mini_sfu.Sfu.{Sfu, Session, session_at, new_session_of, leave, remove_peer}
use mini_sfu.Transport.{Transport}
use mini_sfu.Client
use mini_sfu.Client.{Link, Client, close_link, close_publisher, close_subscriber, leave_session}

delete_twice : (k : ℕ) (es : List (ℕ × ℕ)) → delete k (delete k es) ≡ delete k es
delete_twice k [] = refl
delete_twice k (e ∷ es) = elim (Bool-cases (e.0 == k)) [
  | inl same ↦ rw same (delete_twice k es)
  | inr apart ↦ rw (apart, apart) (ap (λ l. e ∷ l) (delete_twice k es))
]

set-get_or :
    (xs : List Session) (i : ℕ) (d : Session) → i < length xs → set xs i (get_or xs i d) ≡ xs
set-get_or [] i d h = refl
set-get_or (x ∷ xs) zero d h = refl
set-get_or (x ∷ xs) (suc i) d h = ap (λ l. x ∷ l) (set-get_or xs i d (omega (arith, h)))

or-false : (b : Bool) → (b || false) ≡ b
or-false true = refl
or-false false = refl

ends_once : (empty closed : Bool) → (empty && not (closed || (empty && not closed))) ≡ false
ends_once true true = refl
ends_once true false = refl
ends_once false closed = refl

-- A session that loses nobody and does not end stays as it is.
leave_idle : (s : Sfu) (p : ℕ) → p < length s.heap → leave s p (session_at s p).peers false ≡ s
unfolding leave
leave_idle s p inside =
    rw (or-false (session_at s p).closed, set-get_or s.heap p (new_session_of 0) inside) refl

-- what a peer leaves behind
remove_peer-at :
    (s : Sfu) (p pid : ℕ)
    → p < length s.heap
    → let x = session_at s p in
      let left = delete pid x.peers in
      session_at (remove_peer s p pid) p
      ≡ record x { peers = left; closed = x.closed || (length left == 0 && not x.closed) }
unfolding remove_peer leave
remove_peer-at s p pid inside = get_or-set_self s.heap p _ (new_session_of 0) inside

remove_peer-idle :
    (s : Sfu) (p pid : ℕ)
    → delete pid (session_at s p).peers ≡ (session_at s p).peers
    → (length (session_at s p).peers == 0 && not (session_at s p).closed) ≡ false
    → remove_peer s p pid ≡ leave s p (session_at s p).peers false
unfolding remove_peer
remove_peer-idle s p pid same goes = rw (remove_peer, same, goes) refl

remove_peer-inside :
    (s : Sfu) (p pid : ℕ) → p < length s.heap → p < length (remove_peer s p pid).heap
unfolding remove_peer leave
remove_peer-inside s p pid h = omega (arith, h, length-set s.heap p)

remove_peer_twice :
    (s : Sfu) (p pid : ℕ)
    → p < length s.heap
    → remove_peer (remove_peer s p pid) p pid ≡ remove_peer s p pid
remove_peer_twice s p pid inside =
    let s1 = remove_peer s p pid in
    let at = remove_peer-at s p pid inside in
    let same : delete pid (session_at s1 p).peers ≡ (session_at s1 p).peers =
      ap (λ (x : Session). delete pid x.peers) at
      ∙ delete_twice pid (session_at s p).peers
      ∙ sym (ap (λ (x : Session). x.peers) at) in
    let goes : (length (session_at s1 p).peers == 0 && not (session_at s1 p).closed) ≡ false =
      ap (λ (x : Session). length x.peers == 0 && not x.closed) at
      ∙ ends_once (length (delete pid (session_at s p).peers) == 0) (session_at s p).closed in
    remove_peer-idle s1 p pid same goes ∙ leave_idle s1 p (remove_peer-inside s p pid inside)

-- A pointer leads to a session.
abbrev pub IsInside : Sfu → Option ℕ → Type 0
IsInside s none = Unit
IsInside s (some p) = p < length s.heap

-- The peer is in no session, or in one that does not have it.
abbrev pub IsOut : Sfu → Option ℕ → ℕ → Type 0
IsOut s none id = Unit
IsOut s (some p) id = lookup id (session_at s p).peers ≡ none

leave_session-IsOut :
    (s : Sfu) (session : Option ℕ) (id : ℕ)
    → IsInside s session
    → IsOut (leave_session s session id) session id
      × (leave_session (leave_session s session id) session id ≡ leave_session s session id)
unfolding leave_session
leave_session-IsOut s none id inside = (tt, refl)
leave_session-IsOut s (some p) id inside = (
  ap (λ (x : Session). lookup id x.peers) (remove_peer-at s p id inside)
      ∙ lookup-delete_self id (session_at s p).peers,
  remove_peer_twice s p id inside,
)

module _ {P D C E : Type 0} (t : Transport P D C E) where
  -- Closed, with the connection closed unless it was before.
  abbrev pub closed_publisher : Option (Publisher P C) → Option (Publisher P C)
  closed_publisher none = none
  closed_publisher (some p) =
      some (record p { closed = true; pc = if p.closed then p.pc else (t.close p.pc).0 })

  abbrev pub closed_link : Option (Link P C) → Option (Link P C)
  closed_link none = none
  closed_link (some s) =
      some (record s { closed = true; pc = if s.closed then s.pc else (t.close s.pc).0 })

  close_publisher-closed :
      (p : Option (Publisher P C))
      → (close_publisher t p ≡ closed_publisher p)
        × (close_publisher t (close_publisher t p) ≡ close_publisher t p)
  unfolding close_publisher Publisher.close
  close_publisher-closed none = (refl, refl)
  close_publisher-closed (some p) = elim (Bool-cases p.closed) [
    | inl was ↦ rw was (refl, refl)
    | inr not_yet ↦ rw not_yet (refl, refl)
  ]

  close_subscriber-closed :
      (s : Option (Link P C))
      → (close_subscriber t s ≡ closed_link s)
        × (close_subscriber t (close_subscriber t s) ≡ close_subscriber t s)
  unfolding close_subscriber close_link
  close_subscriber-closed none = (refl, refl)
  close_subscriber-closed (some s) = elim (Bool-cases s.closed) [
    | inl was ↦ rw was (refl, refl)
    | inr not_yet ↦ rw not_yet (refl, refl)
  ]

  close-closed : (s : Sfu × Client P C) → (Client.close t s).1.negotiation.closed ≡ true
  unfolding Client.close Peer.close
  close-closed s = refl

  -- After `Close`, whatever negotiations are asked for, timers run out and answers come then: the client
  -- gets no further offer; the session does not have the peer; the publisher and the subscriber, if they
  -- are there, are closed, with the connection of each closed unless it was before; and a second `Close`
  -- changes nothing, in the sessions either.
  pub close_lasts :
      (s : Sfu × Client P C) (offers sent answers : ℕ) (wanted : Bool) (later : Run)
      → IsInside s.0 s.1.session
      → Steps
          (record {
            peer = (Client.close t s).1.negotiation;
            offers = offers;
            sent = sent;
            answers = answers;
            wanted = wanted;
          })
          later
      → let s' = Client.close t s in
        (later.sent ≡ sent)
        × IsOut s'.0 s.1.session s.1.id
        × (s'.1.publisher ≡ closed_publisher s.1.publisher)
        × (s'.1.subscriber ≡ closed_link s.1.subscriber)
        × (Client.close t s' ≡ s')
  unfolding Client.close Peer.close
  close_lasts s offers sent answers wanted later inside steps =
      let (out, left) = leave_session-IsOut s.0 s.1.session s.1.id inside in
      let (closed, same) = close_publisher-closed s.1.publisher in
      let (closed', same') = close_subscriber-closed s.1.subscriber in
      (
        stays_silent _ later steps (close-closed s),
        out,
        closed,
        closed',
        rw (left, same, same') refl,
      )
