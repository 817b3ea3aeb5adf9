-- ===== src/Chat/Sessions.antt =====
-- `ChatSessionPool` of chat.rs: the warm connections. A connection is its stable id; instants are
-- milliseconds, and `now` is the clock reading during the call. Nothing of the pool is behind more
-- than one lock, so each operation is a step. `remember_connection` passes an address to the
-- endpoint and leaves the pool alone.
pub mod Bounds
pub mod Reuse
mod Tests
use wire_app.Common.{
  ℕ, zero, suc, ◌-◌, Bool, true, false, List, [], ◌∷◌, Option, none, some, Text, text_eq, ltb, leb,
  ◌==◌, if◌then◌else◌, length,
}
use wire_app.Common.Map.{Map, contains_key}
use wire_app.Common.Map

abbrev pub chat_session_idle : ℕ
chat_session_idle = 60_000

abbrev pub chat_session_pool_cap : ℕ
chat_session_pool_cap = 8

pub record HotSession : Type 0 where
  pub connection : ℕ
  pub last_used : ℕ

abbrev pub Sessions : Type 0
Sessions = Map HotSession

-- `duration_since` is zero for a later instant.
unfoldable pub sweep_locked : ℕ → Sessions → Sessions
sweep_locked now sessions =
    Map.retain (λ _ session. ltb (now - session.last_used) chat_session_idle) sessions

-- `min_by_key`: the first of the entries that were used the longest ago.
unfoldable pub oldest_from : Text → ℕ → Sessions → Text
oldest_from peer last_used [] = peer
oldest_from peer last_used ((p, session) ∷ m) =
    let later = oldest_from p session.last_used m in
    let same = oldest_from peer last_used m in
    if ltb session.last_used last_used then later else same

unfoldable pub oldest : Sessions → Option Text
oldest [] = none
oldest ((p, session) ∷ m) = some (oldest_from p session.last_used m)

-- The loop of `evict_locked`. A round removes an entry, so that as many rounds as there are entries
-- are enough.
unfoldable pub evict_rounds : ℕ → Sessions → Sessions
evict_rounds zero sessions = sessions
evict_rounds (suc n) sessions =
    if leb (length sessions) chat_session_pool_cap then sessions else elim (oldest sessions) [
      | none ↦ sessions
      | some peer ↦ evict_rounds n (Map.remove peer sessions)
    ]

unfoldable pub evict_locked : Sessions → Sessions
evict_locked sessions = evict_rounds (length sessions) sessions

abbrev pub used_at : ℕ → HotSession → HotSession
used_at now session = record session { last_used = now }

unfoldable pub insert : ℕ → Text → ℕ → Sessions → Sessions × Bool
insert now peer connection sessions =
    let warm = sweep_locked now sessions in
    if contains_key peer warm then (Map.alter peer (used_at now) warm, false) else (
      evict_locked (Map.insert peer (record { connection = connection; last_used = now }) warm),
      true,
    )

unfoldable pub touch : ℕ → Text → Sessions → Sessions
touch now peer sessions = Map.alter peer (used_at now) sessions

abbrev pub connection_of : Option HotSession → Option ℕ
connection_of none = none
connection_of (some session) = some session.connection

unfoldable pub get : ℕ → Text → Sessions → Sessions × Option ℕ
get now peer sessions =
    let warm = sweep_locked now sessions in (warm, connection_of (Map.get peer warm))

abbrev pub is_connection : ℕ → Option HotSession → Bool
is_connection connection none = false
is_connection connection (some session) = session.connection == connection

unfoldable pub forget_if : Text → ℕ → Sessions → Sessions
forget_if peer connection sessions =
    if is_connection connection (Map.get peer sessions) then Map.remove peer sessions else sessions

abbrev pub unwrap_or : Option ℕ → ℕ → ℕ
unwrap_or none d = d
unwrap_or (some n) d = n

-- `dial` once the endpoint has answered with a connection; it was called since `get` gave none.
-- The clock is read at the insertion and at the lookup behind it.
unfoldable pub dialled : ℕ → ℕ → Text → ℕ → Sessions → Sessions × ℕ
dialled now later peer connection sessions =
    let (sessions', _) = insert now peer connection sessions in
    let (sessions'', pooled) = get later peer sessions' in (sessions'', unwrap_or pooled connection)
