-- ===== src/Sessions/Examples.antt =====
-- Sessions of hikyuu/mcp/SessionManager.h on a small table. A value of the metadata is a number.
use hku_rest.Prelude.{
  ℕ, ◌≡◌, refl, inl, true, false, none, some, [], ◌∷◌, length, arith, ◌*◌, ◌^◌, ◌&&◌, if◌then◌else◌,
}
use hku_rest.Prelude.Text.{Text, codes, text_eq}
use hku_rest.Prelude.Dict.{find}
use hku_rest.Sessions.{
  SessionData, SessionManager, new_manager, new_session, touch, cleanup_expired_sessions,
  register_check, register_finish, register_session, get_session, validate_session, touch_session,
  set_session_metadata, get_session_metadata, call_register, call_unregister, call_set_metadata,
  make_calls,
}
use hku_rest.Sessions.Live.{get_session-cleanup}
use hku_rest.Sessions.Invariant.{IsWellFormed, make_calls-IsWellFormed}
use hku_rest.Sessions.Register.{
  register_session-refuses, register_session-get, touch_session-revives, register_session-others,
  set_session_metadata-get,
}
use hku_rest.Sessions.Race.{register_check-races}

abbrev alice : Text
alice = codes "alice"

abbrev bob : Text
bob = codes "bob"

-- A second of the clock.
abbrev second : ℕ
second = 10 ^ 9

-- A table for two sessions of 60 seconds, with one of them taken at the second 0.
abbrev with_alice : SessionManager ℕ
with_alice = record {
  timeout_seconds = 60;
  max_sessions = 2;
  sessions = (alice, new_session alice [] 0) ∷ [];
}

-- The same, for one session.
abbrev full : SessionManager ℕ
full = record with_alice { max_sessions = 1 }

registers_bob : (register_session bob [] second with_alice).0 ≡ true
unfolding register_session find
registers_bob = refl

-- In a full table the newcomer gets the place of a session that has expired.
refuses_then_replaces :
    ((register_session bob [] second full).0 ≡ false)
    × ((register_session bob [] (61 * second) full).0 ≡ true)
unfolding register_session find
refuses_then_replaces = (refl, refl)

make_calls-IsWellFormed_example : IsWellFormed (
    make_calls
      (call_register alice [] 0
        ∷ call_register bob [] 1
        ∷ call_set_metadata bob [] 7 2
        ∷ call_unregister alice
        ∷ [])
      (new_manager {V = ℕ} 60 1))
make_calls-IsWellFormed_example = make_calls-IsWellFormed 60 1 (
    call_register alice [] 0
    ∷ call_register bob [] 1
    ∷ call_set_metadata bob [] 7 2
    ∷ call_unregister alice
    ∷ [])

get_session-cleanup_example :
    get_session alice (62 * second) (cleanup_expired_sessions (61 * second) with_alice).1
    ≡ get_session alice (62 * second) with_alice
get_session-cleanup_example =
    get_session-cleanup alice (61 * second) (62 * second) with_alice (unfold find in (refl, tt))
      (omega arith)

register_session-refuses_case : (register_session [] [] 0 with_alice).0 ≡ false
register_session-refuses_case = (register_session-refuses [] [] 0 with_alice).1 (inl refl)

register_session-get_case :
    validate_session bob (31 * second) (register_session bob [] second with_alice).1 ≡ true
register_session-get_case =
    register_session-get bob [] second (31 * second) with_alice registers_bob (omega arith)

touch_session-revives_case :
    (get_session alice (61 * second) with_alice ≡ none)
    × (get_session alice (62 * second) (touch_session alice (61 * second) with_alice).1
        ≡ some (touch (61 * second) (new_session alice [] 0)))
touch_session-revives_case =
    touch_session-revives alice (61 * second) (62 * second) (new_session alice [] 0) with_alice refl
      (unfold find in refl) (ground arith) (omega arith)

register_session-others_case :
    get_session alice second (register_session bob [] second with_alice).1
    ≡ get_session alice second with_alice
register_session-others_case =
    register_session-others bob [] alice second second with_alice (unfold find in (refl, tt))
      (unfold text_eq in refl) (omega arith)

set_session_metadata-get_case :
    get_session_metadata 0 alice bob (set_session_metadata alice bob 7 second with_alice).1 ≡ (
      if (set_session_metadata alice bob 7 second with_alice).0
        && (text_eq alice alice && text_eq bob bob)
      then 7
      else get_session_metadata 0 alice bob with_alice)
set_session_metadata-get_case = set_session_metadata-get 0 7 alice bob alice bob second with_alice

register_check-races_case :
    length {A = Text × SessionData ℕ}
      (register_finish {V = ℕ}
        (register_check (new_manager {V = ℕ} 60 1))
        bob
        []
        1
        (register_finish
          (register_check (new_manager {V = ℕ} 60 1))
          alice
          []
          0
          (new_manager {V = ℕ} 60 1)).1).1.sessions
    ≡ 2
register_check-races_case =
    register_check-races alice bob [] [] 0 1 (new_manager {V = ℕ} 60 1) (unfold find in refl)
      (unfold find in refl) (unfold text_eq in refl) refl
