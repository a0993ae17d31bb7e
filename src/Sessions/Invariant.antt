-- ===== src/Sessions/Invariant.antt =====
-- What every sequence of calls keeps of the table of hikyuu/mcp/SessionManager.h.
use hku_rest.Prelude.{
  ℕ, suc, ◌≤◌, ◌<◌, ◌≡◌, inl, inr, refl, sym, subst, ◌∙◌, false, Bool-cases, Option-cases, some,
  List, [], ◌∷◌, length, is_empty, All, arith,
}
use hku_rest.Prelude.Text.{Text}
use hku_rest.Prelude.Dict.{Dict, find, put, length-put, length-erase}
use hku_rest.Sessions.{
  SessionData, SessionManager, new_manager, new_session, touch, cleanup_expired_sessions, is_full,
  insert_session, register_enter, register_check, register_finish, register_resume,
  register_session, touch_session, unregister_session, set_session_metadata, Call, call_register,
  call_touch, call_unregister, call_set_metadata, call_cleanup, call_clear, make_call, make_calls,
}
use hku_rest.Sessions.Live.{IsDistinct, live-IsDistinct, length-live}
use hku_rest.Sessions.Table.{
  put-IsDistinct, erase-IsDistinct, IsFiled, All-put, All-find, All-erase, All-live,
}

pub record IsWellFormed {V : Type 0} (m : SessionManager V) : Type 0 where
  pub is_bounded : length m.sessions ≤ m.max_sessions
  pub is_distinct : IsDistinct m.sessions
  pub is_filed : All IsFiled m.sessions

module _ {V : Type 0} where
  length-put_found :
      (k : Text) (s v : SessionData V) (d : Dict (SessionData V))
      → find k d ≡ some s
      → length (put k v d) ≡ length d
  length-put_found k s v d e = ground (arith, length-put k v d)

  length-put_new :
      (k : Text) (v : SessionData V) (d : Dict (SessionData V))
      → length (put k v d) ≤ suc (length d)
  length-put_new k v d = ground (arith, length-put k v d)

  replace-IsWellFormed :
      (id : Text) (s s' : SessionData V) (m : SessionManager V)
      → IsWellFormed m
      → find id m.sessions ≡ some s
      → s'.session_id ≡ s.session_id
      → IsWellFormed (record m { sessions = put id s' m.sessions })
  replace-IsWellFormed id s s' m w e same =
      let filed = All-find id s m.sessions w.is_filed e in
      record {
        is_bounded =
            subst (λ n. n ≤ m.max_sessions) (sym (length-put_found id s s' m.sessions e))
              w.is_bounded;
        is_distinct = put-IsDistinct id s' m.sessions w.is_distinct;
        is_filed = All-put id s' m.sessions (filed.0 ∙ sym same, filed.1) w.is_filed;
      }

  cleanup-IsWellFormed :
      (now : ℕ) (m : SessionManager V)
      → IsWellFormed m
      → IsWellFormed (cleanup_expired_sessions now m).1
  unfolding cleanup_expired_sessions
  cleanup-IsWellFormed now m w = record {
    is_bounded = omega (arith, length-live m.timeout_seconds now m.sessions, w.is_bounded);
    is_distinct = live-IsDistinct m.timeout_seconds now m.sessions w.is_distinct;
    is_filed = All-live m.timeout_seconds now m.sessions w.is_filed;
  }

  insert-IsWellFormed :
      (id info : Text) (now : ℕ) (m : SessionManager V)
      → is_empty id ≡ false
      → is_full m ≡ false
      → IsWellFormed m
      → IsWellFormed (insert_session id info now m)
  insert-IsWellFormed id info now m n f w =
      let room : length m.sessions < m.max_sessions = ground arith in
      record {
        is_bounded = omega (arith, length-put_new id (new_session id info now) m.sessions);
        is_distinct = put-IsDistinct id (new_session id info now) m.sessions w.is_distinct;
        is_filed = All-put id (new_session id info now) m.sessions (refl, n) w.is_filed;
      }

  finish-IsWellFormed :
      (id info : Text) (now : ℕ) (m : SessionManager V)
      → is_empty id ≡ false
      → IsWellFormed m
      → IsWellFormed (register_finish (register_check m) id info now m).1
  finish-IsWellFormed id info now m n w = elim (Bool-cases (is_full m)) [
    | inl f ↦ rw f w
    | inr f ↦ rw f (insert-IsWellFormed id info now m n f w)
  ]

  register-IsWellFormed :
      (id info : Text) (now : ℕ) (m : SessionManager V)
      → IsWellFormed m
      → IsWellFormed (register_session id info now m).1
  unfolding register_session register_enter register_resume
  register-IsWellFormed id info now m w = elim (Bool-cases (is_empty id)) [
    | inl e ↦ rw e w
    | inr n ↦ elim (Option-cases (find id m.sessions)) [
      | inr (s, e) ↦ rw (n, e) (replace-IsWellFormed id s (touch now s) m w e refl)
      | inl e ↦ elim (Bool-cases (is_full m)) [
        | inl f ↦
            rw (n, e, f)
              (finish-IsWellFormed id info now (cleanup_expired_sessions now m).1 n
                (cleanup-IsWellFormed now m w))
        | inr f ↦ rw (n, e, f) (insert-IsWellFormed id info now m n f w)
      ]
    ]
  ]

  touch-IsWellFormed :
      (id : Text) (now : ℕ) (m : SessionManager V)
      → IsWellFormed m
      → IsWellFormed (touch_session id now m).1
  unfolding touch_session
  touch-IsWellFormed id now m w = elim (Bool-cases (is_empty id)) [
    | inl e ↦ rw e w
    | inr n ↦ elim (Option-cases (find id m.sessions)) [
      | inl e ↦ rw (n, e) w
      | inr (s, e) ↦ rw (n, e) (replace-IsWellFormed id s (touch now s) m w e refl)
    ]
  ]

  unregister-IsWellFormed :
      (id : Text) (m : SessionManager V) → IsWellFormed m → IsWellFormed (unregister_session id m).1
  unfolding unregister_session
  unregister-IsWellFormed id m w = record {
    is_bounded = omega (arith, length-erase id m.sessions, w.is_bounded);
    is_distinct = erase-IsDistinct id m.sessions w.is_distinct;
    is_filed = All-erase id m.sessions w.is_filed;
  }

  set_metadata-IsWellFormed :
      (id key : Text) (value : V) (now : ℕ) (m : SessionManager V)
      → IsWellFormed m
      → IsWellFormed (set_session_metadata id key value now m).1
  unfolding set_session_metadata
  set_metadata-IsWellFormed id key value now m w = elim (Bool-cases (is_empty id)) [
    | inl e ↦ rw e w
    | inr n ↦ elim (Option-cases (find id m.sessions)) [
      | inl e ↦ rw (n, e) w
      | inr (s, e) ↦
          rw (n, e)
            (replace-IsWellFormed id s
              (record s { metadata = put key value s.metadata; last_active = now }) m w e refl)
    ]
  ]

  make_call-IsWellFormed :
      (c : Call V) (m : SessionManager V) → IsWellFormed m → IsWellFormed (make_call c m)
  unfolding make_call
  make_call-IsWellFormed (call_register id info now) m w = register-IsWellFormed id info now m w
  make_call-IsWellFormed (call_touch id now) m w = touch-IsWellFormed id now m w
  make_call-IsWellFormed (call_unregister id) m w = unregister-IsWellFormed id m w
  make_call-IsWellFormed (call_set_metadata id key value now) m w =
      set_metadata-IsWellFormed id key value now m w
  make_call-IsWellFormed (call_cleanup now) m w = cleanup-IsWellFormed now m w
  make_call-IsWellFormed call_clear m w = record {
    is_bounded = omega arith;
    is_distinct = tt;
    is_filed = tt;
  }

  make_calls-kept :
      (cs : List (Call V)) (m : SessionManager V) → IsWellFormed m → IsWellFormed (make_calls cs m)
  unfolding make_calls
  make_calls-kept [] m w = w
  make_calls-kept (c ∷ cs) m w = make_calls-kept cs (make_call c m) (make_call-IsWellFormed c m w)

-- After any sequence of complete calls on a new manager, the number of sessions is within the
-- limit, no id stands twice, and every session is filed under its own id, which is not empty.
pub make_calls-IsWellFormed :
    {V : Type 0} (timeout max : ℕ) (cs : List (Call V))
    → IsWellFormed (make_calls cs (new_manager timeout max))
make_calls-IsWellFormed {V = V} timeout max cs =
    make_calls-kept cs (new_manager timeout max)
      (record { is_bounded = omega arith; is_distinct = tt; is_filed = tt })
