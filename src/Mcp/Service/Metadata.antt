-- ===== src/Mcp/Service/Metadata.antt =====
-- A session's metadata through `session/set_metadata` and `session/info` of hikyuu/mcp/McpService.cpp.
use hku_rest.Prelude.{
  ℕ, ◌-◌, ◌/◌, ◌^◌, ◌≤◌, ◌≡◌, refl, ◌∙◌, true, ◌++◌, false, Bool-cases, inl, inr, some, is_empty,
}
use hku_rest.Prelude.Text.{Text, codes, text_eq}
use hku_rest.Prelude.Dict.{Dict, find, put, find-put_self}
use hku_rest.Sessions.{SessionData, touch, get_session, set_session_metadata}
use hku_rest.Sessions.Live.{IsDistinct}
use hku_rest.Sessions.Table.{put-IsDistinct}
use hku_rest.Sessions.Stored.{set_then_get}
use hku_rest.Mcp.{Mcp}
use hku_rest.Mcp.Json.{JsonView, object, string, member}
use hku_rest.Mcp.Catalog.{Service}
use hku_rest.Mcp.Service.{
  JsonMaker, dispatch_method, session_info, session_metadata_method, session_info_method, success,
}

module _ {J : Type 0} (v : JsonView J) (make : JsonMaker J v) where
  info_lem :
      (s : Service J) (later : ℕ) (other : J) (id : Text) (r : SessionData J) (m : Mcp J)
      → get_session id later m.sessions ≡ some r
      → (dispatch_method v make later s (codes "session/info") other id m).0.0
        ≡ some (session_info v make later r)
  unfolding dispatch_method session_info_method
  info_lem s later other id r m h = rw h refl

  set_lem :
      (s : Service J) (now : ℕ) (params kx value : J) (d : Dict J) (id key : Text) (m : Mcp J)
      → v.view params ≡ object d
      → find (codes "key") d ≡ some kx
      → v.view kx ≡ string key
      → is_empty key ≡ false
      → find (codes "value") d ≡ some value
      → (dispatch_method v make now s (codes "session/set_metadata") params id m).1.sessions
        ≡ (set_session_metadata id key value now m.sessions).1
  unfolding dispatch_method session_metadata_method
  set_lem s now params kx value d id key m eo ek es ne ev =
      rw (eo, ek, es, ne, eo, ev)
        (elim (Bool-cases ((set_session_metadata id key value now m.sessions).0)) [
          | inl t ↦ rw t refl
          | inr f ↦ rw f refl
        ])

  answer_lem :
      (s : Service J) (now : ℕ) (params kx value : J) (d : Dict J) (id key : Text) (m : Mcp J)
      → v.view params ≡ object d
      → find (codes "key") d ≡ some kx
      → v.view kx ≡ string key
      → is_empty key ≡ false
      → find (codes "value") d ≡ some value
      → (set_session_metadata id key value now m.sessions).0 ≡ true
      → (dispatch_method v make now s (codes "session/set_metadata") params id m).0.0
        ≡ some (success v make now (codes "Metadata '" ++ (key ++ codes "' updated")))
  unfolding dispatch_method session_metadata_method
  answer_lem s now params kx value d id key m eo ek es ne ev ok =
      rw (eo, ek, es, ne, eo, ev, ok) refl

  -- `session/set_metadata` with a key and a value, in a session that is alive, answers with the status
  -- "success"; and from then on, until the session's time has run out, `session/info` gives the value under the key.
  pub dispatch_method-metadata :
      (s : Service J) (now later : ℕ) (params other kx value : J) (d : Dict J) (id key : Text)
      (info : SessionData J) (m : Mcp J)
      → v.view params ≡ object d
      → find (codes "key") d ≡ some kx
      → v.view kx ≡ string key
      → is_empty key ≡ false
      → find (codes "value") d ≡ some value
      → get_session id now m.sessions ≡ some info
      → IsDistinct info.metadata
      → (later - now) / 10 ^ 9 ≤ m.sessions.timeout_seconds
      → ((answer : J) × ((dispatch_method v make now s
              (codes "session/set_metadata")
              params
              id
              m).0.0
            ≡ some answer)
          × (member v (codes "status") answer ≡ some (make.text_value (codes "success"))))
        × ((shown metadata : J) × ((dispatch_method v make later s
                (codes "session/info")
                other
                id
                (dispatch_method v make now s (codes "session/set_metadata") params id m).1).0.0
              ≡ some shown)
            × (member v (codes "metadata") shown ≡ some metadata)
            × (member v key metadata ≡ some value))
  unfolding text_eq find
  dispatch_method-metadata s now later params other kx value d id key info m eo ek es ne ev live di
        l =
      let stored = touch now (record info { metadata = put key value info.metadata }) in
      let m' = (dispatch_method v make now s (codes "session/set_metadata") params id m).1 in
      let kept = set_lem s now params kx value d id key m eo ek es ne ev in
      let answered =
        info_lem s later other id stored m'
          (rw kept ((set_then_get id key value now later info m.sessions live l).1)) in
      (
        (
          success v make now (codes "Metadata '" ++ (key ++ codes "' updated")),
          answer_lem s now params kx value d id key m eo ek es ne ev
              ((set_then_get id key value now later info m.sessions live l).0),
          make.member_made (codes "status") _ (refl, (refl, tt)),
        ),
        (
          session_info v make later stored,
          make.object_value stored.metadata,
          answered,
          make.member_made (codes "metadata") _ (refl, (refl, (refl, (refl, (refl, tt))))),
          make.member_made key _ (put-IsDistinct key value info.metadata di)
              ∙ find-put_self key value info.metadata,
        ),
      )
