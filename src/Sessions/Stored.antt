-- ===== src/Sessions/Stored.antt =====
-- What `setSessionMetadata` of hikyuu/mcp/SessionManager.h leaves in a session that is alive.
use hku_rest.Prelude.{
  ℕ, ◌-◌, ◌/◌, ◌^◌, ◌≤◌, ◌≡◌, refl, inl, inr, true, false, Bool-cases, Option-cases, none, some,
  is_empty,
}
use hku_rest.Prelude.Text.{Text, text_eq_refl}
use hku_rest.Prelude.Dict.{find, put, find-erase, find-put_self}
use hku_rest.Sessions.{
  SessionData, SessionManager, is_expired, touch, get_session, set_session_metadata,
  unregister_session,
}
use hku_rest.Sessions.Register.{get-put}

module _ {V : Type 0} where
  get_session-found :
      (id : Text) (now : ℕ) (s : SessionData V) (m : SessionManager V)
      → get_session id now m ≡ some s
      → (is_empty id ≡ false) × (find id m.sessions ≡ some s)
  unfolding get_session
  get_session-found id now s m = elim (Bool-cases (is_empty id)) [
    | inl t ↦ rw t (λ h. absurd (cc))
    | inr f ↦ elim (Option-cases (find id m.sessions)) [
      | inl n ↦ rw (f, n) (λ h. absurd (cc))
      | inr (r, e) ↦ elim (Bool-cases (is_expired m.timeout_seconds now r)) [
        | inl x ↦ rw (f, e, x) (λ h. absurd (cc))
        | inr y ↦ rw (f, e, y) (λ h. (refl, h))
      ]
    ]
  ]

  pub set_then_get :
      (id key : Text) (value : V) (now later : ℕ) (s : SessionData V) (m : SessionManager V)
      → get_session id now m ≡ some s
      → (later - now) / 10 ^ 9 ≤ m.timeout_seconds
      → ((set_session_metadata id key value now m).0 ≡ true)
        × (get_session id later (set_session_metadata id key value now m).1
            ≡ some (touch now (record s { metadata = put key value s.metadata })))
  unfolding set_session_metadata
  set_then_get id key value now later s m h l =
      let (n, e) = get_session-found id now s m h in
      rw (n, e)
        (refl, get-put id now later (record s { metadata = put key value s.metadata }) m n l)

  pub get_session-unregistered :
      (id : Text) (later : ℕ) (m : SessionManager V)
      → get_session id later (unregister_session id m).1 ≡ none
  unfolding get_session unregister_session
  get_session-unregistered id later m = elim (Bool-cases (is_empty id)) [
    | inl t ↦ rw t refl
    | inr f ↦ rw (f, find-erase id id m.sessions, text_eq_refl id) refl
  ]

  -- The session is in the table, alive or not.
  abbrev pub IsKnown : Text → SessionManager V → Type 0
  IsKnown id m = (s : SessionData V) × (find id m.sessions ≡ some s)

  pub set_session_metadata-IsKnown :
      (id key : Text) (value : V) (now : ℕ) (m : SessionManager V)
      → is_empty id ≡ false
      → IsKnown id m
      → ((set_session_metadata id key value now m).0 ≡ true)
        × IsKnown id (set_session_metadata id key value now m).1
  unfolding set_session_metadata
  set_session_metadata-IsKnown id key value now m n (s, e) =
      rw (n, e)
        (
          refl,
          (
            record s { metadata = put key value s.metadata; last_active = now },
            find-put_self id _ m.sessions,
          ),
        )
