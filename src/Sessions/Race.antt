-- ===== src/Sessions/Race.antt =====
-- Two registrations at once in hikyuu/mcp/SessionManager.h: the second test of the size is made
-- after the lock was given up.
use hku_rest.Prelude.{ℕ, suc, ◌≡◌, refl, ◌∙◌, ap, false, none, length, arith}
use hku_rest.Prelude.Text.{Text, text_eq}
use hku_rest.Prelude.Dict.{find, put, find-put, length-put}
use hku_rest.Sessions.{
  SessionManager, new_session, is_full, insert_session, register_check, register_finish,
}

module _ {V : Type 0} where
  length-insert :
      (id info : Text) (now : ℕ) (m : SessionManager V)
      → find id m.sessions ≡ none
      → length (insert_session id info now m).sessions ≡ suc (length m.sessions)
  length-insert id info now m e = ground (arith, length-put id (new_session id info now) m.sessions)

  -- When one place is left, two threads that register two unknown ids may both pass the second test
  -- before either inserts, and the table then holds one session more than its limit.
  pub register_check-races :
      (a b info info' : Text) (now now' : ℕ) (m : SessionManager V)
      → find a m.sessions ≡ none
      → find b m.sessions ≡ none
      → text_eq a b ≡ false
      → suc (length m.sessions) ≡ m.max_sessions
      → length
          (register_finish
            (register_check m)
            b
            info'
            now'
            (register_finish (register_check m) a info now m).1).1.sessions
        ≡ suc m.max_sessions
  register_check-races a b info info' now now' m ea eb ne room =
      let open_place : is_full m ≡ false = ground arith in
      let unknown : find b (put a (new_session a info now) m.sessions) ≡ none =
        find-put b a (new_session a info now) m.sessions ∙ rw (ne, eb) refl in
      rw open_place (
        length-insert b info' now' (insert_session a info now m) unknown
        ∙ ap suc (length-insert a info now m ea ∙ room))
