-- ===== src/Sessions.antt =====
-- hikyuu/mcp/SessionManager.h: the MCP sessions, under their time limit and their number limit.
-- Times are nanoseconds of the system clock, one reading for each locked section. The values of the
-- metadata are JSON, of which the manager uses the null only.
pub mod Live
pub mod Table
pub mod Invariant
pub mod Register
pub mod Stored
pub mod Race
pub mod Examples
use hku_rest.Prelude.{
  ℕ, ◌-◌, ◌/◌, ◌^◌, Bool, true, false, not, Option, none, some, List, [], ◌∷◌, ltb, leb,
  if◌then◌else◌, length, is_empty, bit, ◌+◌,
}
use hku_rest.Prelude.Text.{Text}
use hku_rest.Prelude.Dict.{Dict, find, put, erase}

pub record SessionData (V : Type 0) : Type 0 where
  pub session_id : Text
  pub client_info : Text
  pub created_at : ℕ
  pub last_active : ℕ
  pub metadata : Dict V

pub record SessionManager (V : Type 0) : Type 0 where
  pub timeout_seconds : ℕ
  pub max_sessions : ℕ
  pub sessions : Dict (SessionData V)

-- Where a thread stands in `registerSession` when it does not hold the lock.
pub data Progress : Type 0 where
  answered : Bool → Progress
  cleaning inserting : Progress

module _ {V : Type 0} where
  abbrev pub new_manager : ℕ → ℕ → SessionManager V
  new_manager timeout max = record { timeout_seconds = timeout; max_sessions = max; sessions = [] }

  abbrev pub new_session : Text → Text → ℕ → SessionData V
  new_session id info now = record {
    session_id = id;
    client_info = info;
    created_at = now;
    last_active = now;
    metadata = [];
  }

  -- The age in whole seconds; a clock that was set back gives an age of 0 or less, which is never
  -- over the limit.
  abbrev pub is_expired : ℕ → ℕ → SessionData V → Bool
  is_expired timeout now s = ltb timeout ((now - s.last_active) / 10 ^ 9)

  abbrev pub touch : ℕ → SessionData V → SessionData V
  touch now s = record s { last_active = now }

  -- The sessions that `cleanupExpiredSessions` leaves, and how many it erases.
  pub live : ℕ → ℕ → Dict (SessionData V) → Dict (SessionData V)
  live timeout now [] = []
  live timeout now ((k, s) ∷ d) =
      let rest = live timeout now d in if is_expired timeout now s then rest else (k, s) ∷ rest

  pub expired_count : ℕ → ℕ → Dict (SessionData V) → ℕ
  expired_count timeout now [] = 0
  expired_count timeout now ((k, s) ∷ d) =
      bit (is_expired timeout now s) + expired_count timeout now d

  pub cleanup_expired_sessions : ℕ → SessionManager V → ℕ × SessionManager V
  unfolding live expired_count
  cleanup_expired_sessions now m = (
    expired_count m.timeout_seconds now m.sessions,
    record m { sessions = live m.timeout_seconds now m.sessions },
  )

  abbrev pub is_full : SessionManager V → Bool
  is_full m = leb m.max_sessions (length m.sessions)

  abbrev pub insert_session : Text → Text → ℕ → SessionManager V → SessionManager V
  insert_session id info now m = record m { sessions = put id (new_session id info now) m.sessions }

  -- `registerSession` up to the point where it gives up the lock, or to its answer.
  abbrev pub register_found :
      Option (SessionData V) → Text → Text → ℕ → SessionManager V → Progress × SessionManager V
  register_found (some s) id info now m =
      (answered true, record m { sessions = put id (touch now s) m.sessions })
  register_found none id info now m =
      if is_full m then (cleaning, m) else (answered true, insert_session id info now m)

  pub register_enter : Text → Text → ℕ → SessionManager V → Progress × SessionManager V
  register_enter id info now m =
      if is_empty id then (answered false, m) else register_found (find id m.sessions) id info now m

  -- The second test of the size, which holds no lock.
  abbrev pub register_check : SessionManager V → Progress
  register_check m = if is_full m then answered false else inserting

  -- The whole of `registerSession`, where no other thread comes between its sections.
  abbrev pub register_finish :
      Progress → Text → Text → ℕ → SessionManager V → Bool × SessionManager V
  register_finish (answered b) id info now m = (b, m)
  register_finish cleaning id info now m = (false, m)
  register_finish inserting id info now m = (true, insert_session id info now m)

  pub register_resume : Progress → Text → Text → ℕ → SessionManager V → Bool × SessionManager V
  unfolding cleanup_expired_sessions
  register_resume cleaning id info now m =
      let m' = (cleanup_expired_sessions now m).1 in
      register_finish (register_check m') id info now m'
  register_resume p id info now m = register_finish p id info now m

  pub register_session : Text → Text → ℕ → SessionManager V → Bool × SessionManager V
  unfolding register_enter register_resume
  register_session id info now m =
      let (p, m') = register_enter id info now m in register_resume p id info now m'

  abbrev pub unexpired : ℕ → ℕ → Option (SessionData V) → Option (SessionData V)
  unexpired timeout now none = none
  unexpired timeout now (some s) = if is_expired timeout now s then none else some s

  unfoldable pub get_session : Text → ℕ → SessionManager V → Option (SessionData V)
  get_session id now m =
      if is_empty id then none else unexpired m.timeout_seconds now (find id m.sessions)

  abbrev pub is_present : Option (SessionData V) → Bool
  is_present none = false
  is_present (some s) = true

  abbrev pub validate_session : Text → ℕ → SessionManager V → Bool
  validate_session id now m = is_present (get_session id now m)

  abbrev pub touch_found :
      Option (SessionData V) → Text → ℕ → SessionManager V → Bool × SessionManager V
  touch_found none id now m = (false, m)
  touch_found (some s) id now m = (true, record m { sessions = put id (touch now s) m.sessions })

  unfoldable pub touch_session : Text → ℕ → SessionManager V → Bool × SessionManager V
  touch_session id now m =
      if is_empty id then (false, m) else touch_found (find id m.sessions) id now m

  pub unregister_session : Text → SessionManager V → Bool × SessionManager V
  unregister_session id m =
      (is_present (find id m.sessions), record m { sessions = erase id m.sessions })

  abbrev pub set_found :
      Option (SessionData V) → Text → Text → V → ℕ → SessionManager V → Bool × SessionManager V
  set_found none id key value now m = (false, m)
  set_found (some s) id key value now m = (
    true,
    record m {
      sessions =
          put id (record s { metadata = put key value s.metadata; last_active = now }) m.sessions;
    },
  )

  pub set_session_metadata : Text → Text → V → ℕ → SessionManager V → Bool × SessionManager V
  set_session_metadata id key value now m =
      if is_empty id then (false, m) else set_found (find id m.sessions) id key value now m

  abbrev pub or_null : V → Option V → V
  or_null null none = null
  or_null null (some v) = v

  abbrev pub metadata_of : V → Text → Option (SessionData V) → V
  metadata_of null key none = null
  metadata_of null key (some s) = or_null null (find key s.metadata)

  -- An expired session still answers.
  unfoldable pub get_session_metadata : V → Text → Text → SessionManager V → V
  get_session_metadata null id key m =
      if is_empty id then null else metadata_of null key (find id m.sessions)

  abbrev pub clear_all_sessions : SessionManager V → SessionManager V
  clear_all_sessions m = record m { sessions = [] }

  abbrev pub get_active_session_count : SessionManager V → ℕ
  get_active_session_count m = length m.sessions

-- The calls that clients and handlers make, each at its time.
pub data Call (V : Type 0) : Type 0 where
  call_register : Text → Text → ℕ → Call V
  call_touch : Text → ℕ → Call V
  call_unregister : Text → Call V
  call_set_metadata : Text → Text → V → ℕ → Call V
  call_cleanup : ℕ → Call V
  call_clear : Call V

module _ {V : Type 0} where
  pub make_call : Call V → SessionManager V → SessionManager V
  unfolding register_session touch_session unregister_session set_session_metadata
      cleanup_expired_sessions
  make_call (call_register id info now) m = (register_session id info now m).1
  make_call (call_touch id now) m = (touch_session id now m).1
  make_call (call_unregister id) m = (unregister_session id m).1
  make_call (call_set_metadata id key value now) m = (set_session_metadata id key value now m).1
  make_call (call_cleanup now) m = (cleanup_expired_sessions now m).1
  make_call call_clear m = clear_all_sessions m

  pub make_calls : List (Call V) → SessionManager V → SessionManager V
  unfolding make_call
  make_calls [] m = m
  make_calls (c ∷ cs) m = make_calls cs (make_call c m)
