-- ===== src/Sessions/Live.antt =====
-- The clean-up of hikyuu/mcp/SessionManager.h and what `getSession` sees of it.
use hku_rest.Prelude.{
  ℕ, ◌+◌, ◌≤◌, ◌≡◌, inl, inr, refl, ap, subst, true, Bool-cases, Option, none, some, [], ◌∷◌,
  if◌then◌else◌, length, is_empty, arith,
}
use hku_rest.Prelude.Text.{Text, text_eq, text_eq→eq}
use hku_rest.Prelude.Dict.{Dict, find}
use hku_rest.Sessions.{
  SessionData, SessionManager, is_expired, live, expired_count, unexpired, get_session,
  cleanup_expired_sessions,
}

-- No key stands twice.
abbrev pub IsDistinct {ℓ} : {A : Type ℓ} → Dict A → Type ℓ
IsDistinct [] = Unit
IsDistinct ((k, v) ∷ d) = (find k d ≡ none) × IsDistinct d

module _ {V : Type 0} (timeout : ℕ) where
  -- Time only adds to a session's age.
  is_expired_later :
      (now later : ℕ) (s : SessionData V)
      → now ≤ later
      → is_expired timeout now s ≡ true
      → is_expired timeout later s ≡ true
  is_expired_later now later s h e = ground arith

  pub length-live :
      (now : ℕ) (d : Dict (SessionData V))
      → length (live timeout now d) + expired_count timeout now d ≡ length d
  unfolding live expired_count
  length-live now [] = omega arith
  length-live now ((k, s) ∷ d) = ground (arith, length-live now d)

  find-live-none :
      (now : ℕ) (k : Text) (d : Dict (SessionData V))
      → find k d ≡ none
      → find k (live timeout now d) ≡ none
  unfolding live find
  find-live-none now k [] h = refl
  find-live-none now k ((j, s) ∷ d) h = ground (arith, find-live-none now k d)

  pub live-IsDistinct :
      (now : ℕ) (d : Dict (SessionData V)) → IsDistinct d → IsDistinct (live timeout now d)
  unfolding live
  live-IsDistinct now [] h = tt
  live-IsDistinct now ((k, s) ∷ d) h =
      ground (arith, live-IsDistinct now d h.1, find-live-none now k d h.0)

  find-live :
      (now : ℕ) (k : Text) (d : Dict (SessionData V))
      → IsDistinct d
      → find k (live timeout now d) ≡ unexpired timeout now (find k d)
  unfolding live find
  find-live now k [] h = refl
  find-live now k ((j, s) ∷ d) h = elim (Bool-cases (text_eq j k)) [
    | inl e ↦
        let gone : find k d ≡ none = subst (λ x. find x d ≡ none) (text_eq→eq j k e) h.0 in
        rw e (ground (arith, e, find-live-none now k d gone))
    | inr e ↦ rw e (ground (arith, e, find-live now k d h.1))
  ]

-- The clean-up is not visible through `getSession`, at its own time or later: what it erases is
-- what `getSession` takes for absent.
pub get_session-cleanup :
    {V : Type 0} (id : Text) (now later : ℕ) (m : SessionManager V)
    → IsDistinct m.sessions
    → now ≤ later
    → get_session id later (cleanup_expired_sessions now m).1 ≡ get_session id later m
unfolding get_session cleanup_expired_sessions
get_session-cleanup {V = V} id now later m h k =
    rw (find-live m.timeout_seconds now id m.sessions h)
      (ap (λ o. if is_empty id then none else o) (unexpired_twice (find id m.sessions)))
  where
    unexpired_twice :
        (o : Option (SessionData V))
        → unexpired m.timeout_seconds later (unexpired m.timeout_seconds now o)
          ≡ unexpired m.timeout_seconds later o
    unexpired_twice none = refl
    unexpired_twice (some s) = ground (arith, is_expired_later m.timeout_seconds now later s k)
