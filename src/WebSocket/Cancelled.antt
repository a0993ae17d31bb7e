-- ===== src/WebSocket/Cancelled.antt =====
-- What the timer of a `WebSocketConnection` of hikyuu/httpd/HttpServer.cpp does to the next read.
use hku_rest.Prelude.{
  map, sym, ◌∙◌, if_either, suc, ◌≡◌, refl, ap, inl, inr, Bool, true, false, not, ◌||◌, Bool-cases,
  List, [], ◌∷◌, ◌++◌, leb,
}
use hku_rest.Prelude.Text.{Text}
use hku_rest.Messages.{validate_message}
use hku_rest.WebSocket.{
  WebSocketHandle, Event, opened, closed, delivered, sent, WebSocketConnection, Incoming, message,
  ping_due, log, arm, disarm, suspend, is_cancelled, close, written, send, send_all, handle_message,
  read_message, is_ready, finish, message_loop, max_write_queue_size,
}

-- The messages that reached the handler.
abbrev pub deliveries : List Event → List Text
deliveries [] = []
deliveries (delivered text is_text ∷ es) = text ∷ deliveries es
deliveries (opened ∷ es) = deliveries es
deliveries (closed ∷ es) = deliveries es
deliveries (sent text ∷ es) = deliveries es

-- What only sends has no deliveries.
deliveries-sent :
    (es : List Event) (texts : List Text) → deliveries (es ++ map sent texts) ≡ deliveries es
deliveries-sent [] [] = refl
deliveries-sent [] (text ∷ texts) = deliveries-sent [] texts
deliveries-sent (delivered text b ∷ es) texts = ap (◌∷◌ text) (deliveries-sent es texts)
deliveries-sent (opened ∷ es) texts = deliveries-sent es texts
deliveries-sent (closed ∷ es) texts = deliveries-sent es texts
deliveries-sent (sent text ∷ es) texts = deliveries-sent es texts

deliveries-closed :
    (es : List Event) (texts : List Text)
    → deliveries (es ++ closed ∷ map sent texts) ≡ deliveries es
deliveries-closed [] texts = deliveries-sent [] texts
deliveries-closed (delivered text b ∷ es) texts = ap (◌∷◌ text) (deliveries-closed es texts)
deliveries-closed (opened ∷ es) texts = deliveries-closed es texts
deliveries-closed (closed ∷ es) texts = deliveries-closed es texts
deliveries-closed (sent text ∷ es) texts = deliveries-closed es texts

append_assoc : (xs : List Event) (e : Event) (ys : List Event) → (xs ++ e ∷ []) ++ ys ≡ xs ++ e ∷ ys
append_assoc [] e ys = refl
append_assoc (x ∷ xs) e ys = ap (◌∷◌ x) (append_assoc xs e ys)

append-nil : (xs : List Event) → xs ++ [] ≡ xs
append-nil [] = refl
append-nil (x ∷ xs) = ap (◌∷◌ x) (append-nil xs)

map-append : (xs ys : List Text) → map sent xs ++ map sent ys ≡ map sent (xs ++ ys)
map-append [] ys = refl
map-append (x ∷ xs) ys = ap (◌∷◌ (sent x)) (map-append xs ys)

append_twice :
    (es : List Event) (xs ys : List Text)
    → (es ++ map sent xs) ++ map sent ys ≡ es ++ map sent (xs ++ ys)
append_twice [] xs ys = map-append xs ys
append_twice (e ∷ es) xs ys = ap (◌∷◌ e) (append_twice es xs ys)

-- What happened is what happened before, and some messages sent.
abbrev Adds : List Event → List Event → Type 0
Adds es es' = (texts : List Text) × (es' ≡ es ++ map sent texts)

or_true : (b : Bool) → (b || true) ≡ true
or_true true = refl
or_true false = refl

module _ (at_once : Text → Bool) where
  written-posted :
      (b : Bool) (text : Text) (w : WebSocketConnection)
      → w.waiting ≡ true
      → (written at_once b text w).1.posted ≡ true
  written-posted true text w h = h
  written-posted false text w h = h

  send-posted :
      (text : Text) (w : WebSocketConnection)
      → w.posted ≡ true
      → (send at_once text w).1.posted ≡ true
  unfolding send
  send-posted text w h =
      if_either (λ (r : Bool × WebSocketConnection). r.1.posted ≡ true) (not w.is_open) (false, w) _
        (λ t. h)
        (λ f.
          if_either (λ (r : Bool × WebSocketConnection). r.1.posted ≡ true)
            (leb max_write_queue_size w.write_queue_size) (false, w) _ (λ t. h)
            (λ g.
              written-posted _ text (arm (record w { write_queue_size = suc w.write_queue_size }))
                refl))

  written-Adds :
      (b : Bool) (text : Text) (w : WebSocketConnection)
      → Adds w.trace (written at_once b text w).1.trace
  written-Adds true text w = ([], sym (append-nil w.trace))
  written-Adds false text w = (text ∷ [], refl)

  send-Adds : (text : Text) (w : WebSocketConnection) → Adds w.trace (send at_once text w).1.trace
  unfolding send
  send-Adds text w =
      if_either (λ (r : Bool × WebSocketConnection). Adds w.trace r.1.trace) (not w.is_open)
        (false, w) _ (λ t. ([], sym (append-nil w.trace)))
        (λ f.
          if_either (λ (r : Bool × WebSocketConnection). Adds w.trace r.1.trace)
            (leb max_write_queue_size w.write_queue_size) (false, w) _
            (λ t. ([], sym (append-nil w.trace)))
            (λ g.
              written-Adds _ text (arm (record w { write_queue_size = suc w.write_queue_size }))))

  send_all-Adds :
      (ts : List Text) (w : WebSocketConnection) → Adds w.trace (send_all at_once ts w).trace
  unfolding send_all
  send_all-Adds [] w = ([], sym (append-nil w.trace))
  send_all-Adds (text ∷ rest) w =
      let (xs, e) = send-Adds text w in
      let (ys, d) = send_all-Adds rest (send at_once text w).1 in
      (xs ++ ys, d ∙ ap (λ es. es ++ map sent ys) e ∙ append_twice w.trace xs ys)

  send_all-posted :
      (texts : List Text) (w : WebSocketConnection)
      → w.posted ≡ true
      → (send_all at_once texts w).posted ≡ true
  unfolding send_all
  send_all-posted [] w h = h
  send_all-posted (text ∷ rest) w h =
      send_all-posted rest (send at_once text w).1 (send-posted text w h)

  module _ (h : WebSocketHandle) where
    receive-posted :
        (text : Text) (b : Bool) (w : WebSocketConnection)
        → w.posted ≡ true
        → (handle_message at_once h text b w).1.posted ≡ true
    receive-posted text b w k =
        if_either (λ (r : Bool × WebSocketConnection). r.1.posted ≡ true) (validate_message text b)
          _ _ (λ t. send_all-posted (h.on_message text b).0 (log (delivered text b) w) k) (λ f. k)

    read-posted :
        (text : Text) (b ready : Bool) (w : WebSocketConnection)
        → (read_message at_once h (message text b ready) w).1.posted ≡ true
    read-posted text b ready w =
        if_either (λ (r : Bool × WebSocketConnection). r.1.posted ≡ true)
          (is_cancelled (is_ready at_once h (message text b ready)) (arm w)) _ _ (λ t. refl)
          (λ f. receive-posted text b (disarm (suspend (arm w))) refl)

    -- The end of the loop adds `onClose` and what that sends.
    finish-adds :
        (w : WebSocketConnection)
        → (texts : List Text) × ((finish at_once h w).trace ≡ w.trace ++ closed ∷ map sent texts)
    unfolding close
    finish-adds w =
        let (texts, e) = send_all-Adds h.on_close.0 (log closed w) in
        (texts, e ∙ append_assoc w.trace closed (map sent texts))

    finish-deliveries :
        (w : WebSocketConnection) → deliveries (finish at_once h w).trace ≡ deliveries w.trace
    finish-deliveries w =
        let (texts, e) = finish-adds w in ap deliveries e ∙ deliveries-closed w.trace texts

    -- A read that a posted handler finds waiting ends the loop.
    stale :
        (text : Text) (b : Bool) (rest : List Incoming) (w : WebSocketConnection)
        → w.posted ≡ true
        → deliveries (message_loop at_once h (message text b false ∷ rest) w).trace
          ≡ deliveries w.trace
    unfolding message_loop
    stale text b rest w k = rw k (finish-deliveries (disarm (suspend (arm w))))

    -- After its first message a connection delivers no other, if the handler of the timer that guarded
    -- the first read, which runs as cancelled, finds the second read waiting, which it cancels. On one
    -- thread, with a handler of messages that suspends only in what it sends, that is any second
    -- message that is not there yet when the server begins to read it.
    pub message_loop-deliveries :
        (text text' : Text) (b b' ready : Bool) (rest : List Incoming) (w : WebSocketConnection)
        → deliveries
            (message_loop at_once h (message text b ready ∷ message text' b' false ∷ rest) w).trace
          ≡ deliveries (message_loop at_once h (message text b ready ∷ []) w).trace
    unfolding message_loop
    message_loop-deliveries text text' b b' ready rest w =
        elim (Bool-cases ((read_message at_once h (message text b ready) w).0)) [
          | inl t ↦ rw t refl
          | inr f ↦ rw f (
              stale text' b' rest (read_message at_once h (message text b ready) w).1
                (read-posted text b ready w))
        ]

    ping_read-ends :
        (w : WebSocketConnection)
        → w.is_open ≡ true
        → w.ping_stopped ≡ false
        → ((read_message at_once h ping_due w).0 ≡ true)
          × ((read_message at_once h ping_due w).1.trace ≡ w.trace)
    ping_read-ends w o p =
        if_either (λ (r : Bool × WebSocketConnection). (r.0 ≡ true) × (r.1.trace ≡ w.trace))
          (is_cancelled false (arm w)) _ _ (λ t. (refl, refl)) (λ f. rw (o, p) (refl, refl))

    -- A ping that falls due while the server waits for a message ends an open connection, without a
    -- further message: it cancels the timer of the read, whose handler then cancels the read. All that
    -- follows is `onClose` and what that sends.
    pub message_loop-ping_due :
        (rest : List Incoming) (w : WebSocketConnection)
        → w.is_open ≡ true
        → w.ping_stopped ≡ false
        → ((texts : List Text) × ((message_loop at_once h (ping_due ∷ rest) w).trace
              ≡ w.trace ++ closed ∷ map sent texts))
          × ((message_loop at_once h (ping_due ∷ rest) w).shut_down ≡ true)
    unfolding message_loop close
    message_loop-ping_due rest w o p =
        let (ends, same) = ping_read-ends w o p in
        let (texts, e) = finish-adds (read_message at_once h ping_due w).1 in
        rw ends ((texts, e ∙ ap (λ es. es ++ closed ∷ map sent texts) same), refl)
