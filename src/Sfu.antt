-- ===== src/Sfu.antt =====
-- internal/sfu/sfu.go and session.go: which session a peer joins, and when a session ends. Sessions
-- are shared by pointer: `heap` is what the pointers index, and `table` the map of `SFU`.
pub mod Sessions
pub mod Joining
mod Tests
use mini_sfu.Base.Maps.{lookup, delete, insert}
use mini_sfu.Base.{
  ℕ, zero, suc, ◌+◌, Bool, true, false, ◌&&◌, ◌||◌, not, Option, none, some, List, [], ◌∷◌, ◌++◌,
  ◌==◌, if◌then◌else◌, length, get_or, set,
}

-- `Session`, less its data channels; the peers are their identifiers.
pub record Session : Type 0 where
  pub id : ℕ
  pub peers : List (ℕ × ℕ)
  pub closed : Bool

abbrev pub new_session_of : ℕ → Session
new_session_of id = record { id = id; peers = []; closed = false }

-- `SFU`
pub record Sfu : Type 0 where
  pub heap : List Session
  pub table : List (ℕ × ℕ)

abbrev pub new_sfu : Sfu
new_sfu = record { heap = []; table = [] }

-- the session that a pointer leads to
abbrev pub session_at : Sfu → ℕ → Session
session_at s p = get_or s.heap p (new_session_of 0)

-- `newSession`
unfoldable pub new_session : Sfu → ℕ → Sfu × ℕ
new_session s sid = (
  record { heap = s.heap ++ (new_session_of sid ∷ []); table = insert sid (length s.heap) s.table },
  length s.heap,
)

-- `GetSession`: the pointer of the session
unfoldable pub get_session : Sfu → ℕ → Sfu × ℕ
get_session s sid = elim (lookup sid s.table) [ none ↦ new_session s sid | some p ↦ (s, p) ]

-- `Session.AddPeer`
unfoldable pub add_peer : Sfu → ℕ → ℕ → Sfu
add_peer s p pid = record s {
  heap = set s.heap p (record (session_at s p) { peers = insert pid pid (session_at s p).peers });
}

-- The writes of `RemovePeer`: the peers that are left, and, if the session ends, its `closed` and
-- the handler of `newSession`, which takes its identifier out of the map.
unfoldable pub leave : Sfu → ℕ → List (ℕ × ℕ) → Bool → Sfu
leave s p left ends = record {
  heap =
      set s.heap p
        (record (session_at s p) { peers = left; closed = (session_at s p).closed || ends });
  table = if ends then delete (session_at s p).id s.table else s.table;
}

-- `Session.RemovePeer`: the last peer ends the session, once.
unfoldable pub remove_peer : Sfu → ℕ → ℕ → Sfu
remove_peer s p pid =
    let left = delete pid (session_at s p).peers in
    leave s p left (length left == 0 && not (session_at s p).closed)
