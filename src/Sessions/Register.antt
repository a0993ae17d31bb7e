-- ===== src/Sessions/Register.antt =====
-- What `registerSession`, `touchSession` and the metadata calls of hikyuu/mcp/SessionManager.h do
-- to what `getSession` and `getSessionMetadata` answer.
use hku_rest.Prelude.{
  ℕ, ◌-◌, ◌/◌, ◌^◌, ◌≤◌, ◌≡◌, ◌⊎◌, ◌↔◌, inl, inr, refl, ap, subst, ◌∙◌, Bool, true, false, ◌&&◌,
  leb, Bool-cases, Option-cases, Option, none, some, if◌then◌else◌, length, is_empty, arith,
}
use hku_rest.Prelude.Text.{Text, text_eq, text_eq→eq}
use hku_rest.Prelude.Dict.{Dict, find, put, find-put, find-put_self}
use hku_rest.Sessions.{
  SessionData, SessionManager, new_session, is_expired, touch, live, cleanup_expired_sessions,
  is_full, register_enter, register_check, register_finish, register_resume, register_session,
  unexpired, get_session, is_present, validate_session, touch_session, set_session_metadata,
  get_session_metadata, or_null, answered, inserting,
}
use hku_rest.Sessions.Live.{IsDistinct, length-live, get_session-cleanup}

module _ {V : Type 0} where
  -- `registerSession` refuses exactly an empty id, and an unknown id when the sessions that have not
  -- expired fill the table.
  pub register_session-refuses :
      (id info : Text) (now : ℕ) (m : SessionManager V)
      → ((register_session id info now m).0 ≡ false) ↔ (
          (is_empty id ≡ true)
          ⊎ ((find id m.sessions ≡ none)
              × (m.max_sessions ≤ length (live m.timeout_seconds now m.sessions))))
  unfolding register_session register_enter register_resume cleanup_expired_sessions
  register_session-refuses id info now m = elim (Bool-cases (is_empty id)) [
    | inl e ↦ rw e (λ h. inl refl, λ h. refl)
    | inr n ↦ elim (Option-cases (find id m.sessions)) [
      | inr (s, e) ↦ rw (n, e) (λ h. absurd (cc), λ h. ground arith)
      | inl e ↦ elim (Bool-cases (is_full m)) [
        | inl f ↦ rw (n, e, f) (refuses_full (live m.timeout_seconds now m.sessions))
        | inr f ↦
            rw (n, e, f)
              (λ h. absurd (cc), λ h. ground (arith, length-live m.timeout_seconds now m.sessions))
      ]
    ]
  ]
    where
      refuses_full :
          (d : Dict (SessionData V))
          → ((register_finish
                (if leb m.max_sessions (length d) then answered false else inserting)
                id
                info
                now
                (record m { sessions = d })).0
              ≡ false)
            ↔ ((false ≡ true)
                ⊎ ((◌≡◌ {A = Option (SessionData V)} none none) × (m.max_sessions ≤ length d)))
      refuses_full d = elim (Bool-cases (leb m.max_sessions (length d))) [
        | inl t ↦ rw t (λ h. inr (refl, ground arith), λ h. refl)
        | inr f ↦ rw f (λ h. absurd (cc), λ h. ground arith)
      ]

  fresh :
      (timeout now later : ℕ) (s : SessionData V)
      → (later - now) / 10 ^ 9 ≤ timeout
      → unexpired timeout later (some (touch now s)) ≡ some (touch now s)
  fresh timeout now later s h = ground arith

  pub get-put :
      (id : Text) (now later : ℕ) (s : SessionData V) (m : SessionManager V)
      → is_empty id ≡ false
      → (later - now) / 10 ^ 9 ≤ m.timeout_seconds
      → get_session id later (record m { sessions = put id (touch now s) m.sessions })
        ≡ some (touch now s)
  unfolding get_session
  get-put id now later s m n h =
      rw (n, find-put_self id (touch now s) m.sessions) (fresh m.timeout_seconds now later s h)

  -- A session that `registerSession` accepted is valid until its time has run out.
  pub register_session-get :
      (id info : Text) (now later : ℕ) (m : SessionManager V)
      → (register_session id info now m).0 ≡ true
      → (later - now) / 10 ^ 9 ≤ m.timeout_seconds
      → validate_session id later (register_session id info now m).1 ≡ true
  unfolding register_session register_enter register_resume cleanup_expired_sessions
  register_session-get id info now later m = elim (Bool-cases (is_empty id)) [
    | inl e ↦ rw e (λ h k. absurd (cc))
    | inr n ↦ elim (Option-cases (find id m.sessions)) [
      | inr (s, e) ↦ rw (n, e) (λ h k. ap is_present (get-put id now later s m n k))
      | inl e ↦ elim (Bool-cases (is_full m)) [
        | inr f ↦
            rw (n, e, f)
              (λ h k. ap is_present (get-put id now later (new_session id info now) m n k))
        | inl f ↦
            rw (n, e, f)
              (accepted_late (record m { sessions = live m.timeout_seconds now m.sessions }) n)
      ]
    ]
  ]
    where
      accepted_late :
          (m' : SessionManager V)
          → is_empty id ≡ false
          → (register_finish (register_check m') id info now m').0 ≡ true
          → (later - now) / 10 ^ 9 ≤ m'.timeout_seconds
          → validate_session id later (register_finish (register_check m') id info now m').1 ≡ true
      accepted_late m' n = elim (Bool-cases (is_full m')) [
        | inl t ↦ rw t (λ h k. absurd (cc))
        | inr f ↦
            rw f (λ h k. ap is_present (get-put id now later (new_session id info now) m' n k))
      ]

  touch-found :
      (id : Text) (now : ℕ) (s : SessionData V) (m : SessionManager V)
      → is_empty id ≡ false
      → find id m.sessions ≡ some s
      → touch_session id now m ≡ (true, record m { sessions = put id (touch now s) m.sessions })
  unfolding touch_session
  touch-found id now s m n e = rw (n, e) refl

  -- An expired session is no obstacle to `touchSession`: it is valid again, with its metadata and
  -- its time of creation.
  pub touch_session-revives :
      (id : Text) (now later : ℕ) (s : SessionData V) (m : SessionManager V)
      → is_empty id ≡ false
      → find id m.sessions ≡ some s
      → is_expired m.timeout_seconds now s ≡ true
      → (later - now) / 10 ^ 9 ≤ m.timeout_seconds
      → (get_session id now m ≡ none)
        × (get_session id later (touch_session id now m).1 ≡ some (touch now s))
  unfolding get_session
  touch_session-revives id now later s m n e x h = (
    rw (n, e, x) refl,
    ap (λ r. get_session id later r.1) (touch-found id now s m n e) ∙ get-put id now later s m n h,
  )

  get-other :
      (id j : Text) (later : ℕ) (s : SessionData V) (m : SessionManager V)
      → text_eq id j ≡ false
      → get_session j later (record m { sessions = put id s m.sessions }) ≡ get_session j later m
  unfolding get_session
  get-other id j later s m ne = rw (find-put j id s m.sessions, ne) refl

  -- No other id sees a registration: what `getSession` answers for it, then or later, is unchanged,
  -- also where the registration cleaned up.
  pub register_session-others :
      (id info j : Text) (now later : ℕ) (m : SessionManager V)
      → IsDistinct m.sessions
      → text_eq id j ≡ false
      → now ≤ later
      → get_session j later (register_session id info now m).1 ≡ get_session j later m
  unfolding register_session register_enter register_resume
  register_session-others id info j now later m d ne k = elim (Bool-cases (is_empty id)) [
    | inl e ↦ rw e refl
    | inr n ↦ elim (Option-cases (find id m.sessions)) [
      | inr (s, e) ↦ rw (n, e) (get-other id j later (touch now s) m ne)
      | inl e ↦ elim (Bool-cases (is_full m)) [
        | inr f ↦ rw (n, e, f) (get-other id j later (new_session id info now) m ne)
        | inl f ↦
            rw (n, e, f)
              (others_late (cleanup_expired_sessions now m).1
                ∙ get_session-cleanup j now later m d k)
      ]
    ]
  ]
    where
      others_late :
          (m' : SessionManager V)
          → get_session j later (register_finish (register_check m') id info now m').1
            ≡ get_session j later m'
      others_late m' = elim (Bool-cases (is_full m')) [
        | inl t ↦ rw t refl
        | inr f ↦ rw f (get-other id j later (new_session id info now) m' ne)
      ]

  -- After `setSessionMetadata` has succeeded, `getSessionMetadata` gives the value under its key and
  -- its session, and what it gave before everywhere else; a failed call changes nothing.
  pub set_session_metadata-get :
      (null value : V) (id key j key' : Text) (now : ℕ) (m : SessionManager V)
      → get_session_metadata null j key' (set_session_metadata id key value now m).1 ≡ (
          if (set_session_metadata id key value now m).0 && (text_eq id j && text_eq key key')
          then value
          else get_session_metadata null j key' m)
  unfolding set_session_metadata get_session_metadata
  set_session_metadata-get null value id key j key' now m = elim (Bool-cases (is_empty id)) [
    | inl e ↦ rw e refl
    | inr n ↦ elim (Option-cases (find id m.sessions)) [
      | inl e ↦ rw (n, e) refl
      | inr (s, e) ↦
          rw
            (
              n,
              e,
              find-put j id (record s { metadata = put key value s.metadata; last_active = now })
                  m.sessions,
            )
            (elim (Bool-cases (text_eq id j)) [
              | inr f ↦ rw f refl
              | inl t ↦
                  let same = text_eq→eq id j t in
                  let n' : is_empty j ≡ false = subst (λ x. is_empty x ≡ false) same n in
                  let e' : find j m.sessions ≡ some s =
                    subst (λ x. find x m.sessions ≡ some s) same e in
                  rw (t, n', e', find-put key' key value s.metadata)
                    (or_null_if (text_eq key key') (find key' s.metadata))
            ])
    ]
  ]
    where
      or_null_if :
          (b : Bool) (o : Option V)
          → or_null null (if b then some value else o) ≡ (if b then value else or_null null o)
      or_null_if true o = refl
      or_null_if false o = refl
