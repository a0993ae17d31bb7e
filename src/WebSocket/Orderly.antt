-- ===== src/WebSocket/Orderly.antt =====
-- The order in which a `WebSocketConnection` of hikyuu/httpd/HttpServer.cpp calls its handler.
use hku_rest.Prelude.{
  ◌-◌, if_either, suc, ◌≡◌, ◌∙◌, refl, sym, inl, inr, Bool, true, false, not, ◌||◌, Bool-cases,
  Option, none, some, List, [], ◌∷◌, ◌++◌, leb, if◌then◌else◌,
}
use hku_rest.Prelude.Text.{Text, before}
use hku_rest.Router.{WsRoutes, find_ws}
use hku_rest.Http.{Request}
use hku_rest.Messages.{validate_message}
use hku_rest.WebSocket.{
  WebSocketHandle, Factory, Event, opened, closed, delivered, sent, WebSocketConnection, Incoming,
  message, read_error, ping_due, send_ping, ping_read, log, arm, disarm, suspend, is_cancelled,
  close, written, send, send_all, handle_message, receive, read_message, is_ready, message_loop,
  start_loop, with_handle, upgrade, is_upgrade, read_loop, new_connection, max_write_queue_size,
}

pub data Phase : Type 0 where
  idle active over : Phase

-- `onOpen` comes first, then messages that passed the validation; after `onClose` no call. From
-- `onOpen` on something may be sent.
abbrev pub move : Phase → Event → Option Phase
move idle opened = some active
move active (delivered text is_text) = if validate_message text is_text then some active else none
move active (sent text) = some active
move active closed = some over
move over (sent text) = some over
move _ _ = none

abbrev pub follow : Option Phase → List Event → Option Phase
follow p [] = p
follow none (e ∷ rest) = none
follow (some p) (e ∷ rest) = follow (move p e) rest

-- The phase after all that has happened.
abbrev pub IsAt : Phase → WebSocketConnection → Type 0
IsAt p w = follow (some idle) w.trace ≡ some p

follow-none : (es : List Event) → follow none es ≡ none
follow-none [] = refl
follow-none (e ∷ es) = refl

follow-append :
    (p : Option Phase) (xs ys : List Event) → follow p (xs ++ ys) ≡ follow (follow p xs) ys
follow-append p [] ys = refl
follow-append none (x ∷ xs) ys = sym (follow-none ys)
follow-append (some p) (x ∷ xs) ys = follow-append (move p x) xs ys

log-IsAt :
    (p : Phase) (e : Event) (w : WebSocketConnection)
    → IsAt p w
    → follow (some idle) (log e w).trace ≡ move p e
log-IsAt p e w h = follow-append (some idle) w.trace (e ∷ []) ∙ rw h refl

send_ping-IsAt : (w : WebSocketConnection) → IsAt active w → IsAt active (send_ping w)
send_ping-IsAt w k = if_either (IsAt active) (not w.is_open || w.ping_stopped) w _ (λ t. k) (λ f. k)

ping_read-IsAt : (w : WebSocketConnection) → IsAt active w → IsAt active (ping_read w).1
ping_read-IsAt w k =
    if_either (λ (r : Bool × WebSocketConnection). IsAt active r.1)
      (is_cancelled false (send_ping w)) _ _ (λ t. send_ping-IsAt w k) (λ f. send_ping-IsAt w k)

-- Where something may be sent.
abbrev Speaks : Phase → Type 0
Speaks p = (text : Text) → move p (sent text) ≡ some p

module _ (at_once : Text → Bool) (p : Phase) (speaks : Speaks p) where
  written-IsAt :
      (b : Bool) (text : Text) (w : WebSocketConnection)
      → IsAt p w
      → IsAt p (written at_once b text w).1
  written-IsAt true text w h = h
  written-IsAt false text w h =
      log-IsAt p (sent text)
        (record (disarm (suspend w)) { write_queue_size = w.write_queue_size - 1 }) h
      ∙ speaks text

  send-IsAt : (text : Text) (w : WebSocketConnection) → IsAt p w → IsAt p (send at_once text w).1
  unfolding send
  send-IsAt text w h =
      if_either (λ (r : Bool × WebSocketConnection). IsAt p r.1) (not w.is_open) (false, w) _
        (λ t. h)
        (λ f.
          if_either (λ (r : Bool × WebSocketConnection). IsAt p r.1)
            (leb max_write_queue_size w.write_queue_size) (false, w) _ (λ t. h)
            (λ g.
              written-IsAt _ text (arm (record w { write_queue_size = suc w.write_queue_size })) h))

  send_all-IsAt :
      (texts : List Text) (w : WebSocketConnection) → IsAt p w → IsAt p (send_all at_once texts w)
  unfolding send_all
  send_all-IsAt [] w h = h
  send_all-IsAt (text ∷ rest) w h = send_all-IsAt rest (send at_once text w).1 (send-IsAt text w h)

module _ (at_once : Text → Bool) where
  module _ (h : WebSocketHandle) where
    handle-IsAt :
        (text : Text) (b : Bool) (w : WebSocketConnection)
        → IsAt active w
        → IsAt active (handle_message at_once h text b w).1
    handle-IsAt text b w k = elim (Bool-cases (validate_message text b)) [
      | inr f ↦ rw f k
      | inl t ↦ rw t (
          send_all-IsAt at_once active (λ t. refl) (h.on_message text b).0
            (log (delivered text b) w) (log-IsAt active (delivered text b) w k ∙ rw t refl))
    ]

    receive-IsAt :
        (e : Incoming) (w : WebSocketConnection)
        → IsAt active w
        → IsAt active (receive at_once h e w).1
    receive-IsAt read_error w k = k
    receive-IsAt (message text b ready) w k = handle-IsAt text b (disarm w) k
    receive-IsAt ping_due w k = ping_read-IsAt w k

    read-IsAt :
        (e : Incoming) (w : WebSocketConnection)
        → IsAt active w
        → IsAt active (read_message at_once h e w).1
    read-IsAt e w k =
        if_either (λ (r : Bool × WebSocketConnection). IsAt active r.1)
          (is_cancelled (is_ready at_once h e) (arm w)) _ _ (λ t. k)
          (λ f. receive-IsAt e (suspend (arm w)) k)

    loop-IsAt :
        (es : List Incoming) (w : WebSocketConnection)
        → IsAt active w
        → (p : Phase) × IsAt p (message_loop at_once h es w)
    unfolding message_loop close
    loop-IsAt [] w k = (active, k)
    loop-IsAt (e ∷ es) w k =
        let next = read-IsAt e w k in
        elim (Bool-cases ((read_message at_once h e w).0)) [
          | inl t ↦ rw t (
            over,
            send_all-IsAt at_once over (λ t. refl) h.on_close.0
                (log closed (read_message at_once h e w).1)
                (log-IsAt active closed (read_message at_once h e w).1 next),
          )
          | inr f ↦ rw f (loop-IsAt es (read_message at_once h e w).1 next)
        ]

    start-IsAt :
        (es : List Incoming) (w : WebSocketConnection)
        → IsAt idle w
        → (p : Phase) × IsAt p (start_loop at_once h es w)
    unfolding close
    start-IsAt es w k =
        let greeted =
          send_all-IsAt at_once active (λ t. refl) h.on_open.0 (log opened w)
            (log-IsAt idle opened w k) in
        if_either (λ (r : WebSocketConnection). (p : Phase) × IsAt p r) h.on_open.1 _ _
          (λ t. (active, greeted)) (λ f. loop-IsAt es _ greeted)

  with_handle-IsAt :
      (f : Option Factory) (es : List Incoming) (w : WebSocketConnection)
      → IsAt idle w
      → (p : Phase) × IsAt p (with_handle at_once f es w)
  unfolding close
  with_handle-IsAt none es w k = (idle, k)
  with_handle-IsAt (some none) es w k = (idle, k)
  with_handle-IsAt (some (some h)) es w k = start-IsAt h es w k

  module _ (iequals : Text → Text → Bool) (routes : WsRoutes Factory) where
    upgrade-IsAt :
        (accepted : Bool) (req : Request) (es : List Incoming) (w : WebSocketConnection)
        → IsAt idle w
        → (p : Phase) × IsAt p (upgrade at_once iequals routes accepted req es w)
    unfolding close
    upgrade-IsAt accepted req es w k =
        if_either (λ (r : WebSocketConnection). (p : Phase) × IsAt p r)
          (not (is_upgrade at_once iequals routes req)) _ _ (λ t. (idle, k))
          (λ f.
            if_either (λ (r : WebSocketConnection). (p : Phase) × IsAt p r) (not accepted) _ _
              (λ t. (idle, k))
              (λ g.
                with_handle-IsAt (find_ws (before 63 req.target) routes) es
                  (record w { is_open = true }) k))

    -- Whatever the client does and however the handshakes end, the handler is called in order: `onOpen`
    -- first and once, then `onMessage`, only with messages that passed the validation, and `onClose` at
    -- most once, after which none of the three is called again; nothing is sent before `onOpen`.
    pub read_loop-IsAt :
        (tls_ok accepted : Bool) (req : Option Request) (es : List Incoming)
        → (p : Phase) × IsAt p
            (read_loop at_once iequals routes tls_ok req accepted es new_connection)
    unfolding read_loop close
    read_loop-IsAt false accepted req es = (idle, refl)
    read_loop-IsAt true accepted none es = (idle, refl)
    read_loop-IsAt true accepted (some req) es = upgrade-IsAt accepted req es new_connection refl
