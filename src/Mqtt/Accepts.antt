-- ===== src/Mqtt/Accepts.antt =====
-- Which connections the accept loops of hikyuu/mqtt/MqttBroker.cpp hand to the broker.
use hku_rest.Prelude.{
  ℕ, ◌≡◌, ◌∙◌, refl, ap, sym, Bool, true, false, List, [], ◌∷◌, ◌++◌, if◌then◌else◌,
}
use hku_rest.Mqtt.{Incoming, stopping, accept_error, connection, Loop, round, accept_loop}

-- The connections before the first request to stop.
abbrev pub arrivals : List Incoming → List ℕ
arrivals [] = []
arrivals (stopping ∷ rest) = []
arrivals (accept_error scarce ∷ rest) = arrivals rest
arrivals (connection id handshake ∷ rest) = id ∷ arrivals rest

-- The connections before the first request to stop and the first handshake that fails.
abbrev pub welcome : List Incoming → List ℕ
welcome [] = []
welcome (stopping ∷ rest) = []
welcome (accept_error scarce ∷ rest) = welcome rest
welcome (connection id true ∷ rest) = id ∷ welcome rest
welcome (connection id false ∷ rest) = []

abbrev pub ids : List (ℕ × ℕ) → List ℕ
ids [] = []
ids ((id, ioc) ∷ rest) = id ∷ ids rest

ids-append :
    (xs : List (ℕ × ℕ)) (id ioc : ℕ) (ys : List ℕ)
    → ids (xs ++ (id, ioc) ∷ []) ++ ys ≡ ids xs ++ id ∷ ys
ids-append [] id ioc ys = refl
ids-append ((j, k) ∷ xs) id ioc ys = ap (◌∷◌ j) (ids-append xs id ioc ys)

append_nil : (xs : List ℕ) → xs ++ [] ≡ xs
append_nil [] = refl
append_nil (x ∷ xs) = ap (◌∷◌ x) (append_nil xs)

if_true : (b : Bool) (x y : Loop) → b ≡ true → (if b then x else y) ≡ x
if_true true x y h = refl
if_true false x y h = cc

if_false : (b : Bool) (x y : Loop) → b ≡ false → (if b then x else y) ≡ y
if_false false x y h = refl
if_false true x y h = cc

ended_lem :
    (secure : Bool) (es : List Incoming) (l : Loop) → l.ended ≡ true → accept_loop secure es l ≡ l
unfolding accept_loop
ended_lem secure [] l h = refl
ended_lem secure (e ∷ es) l h = if_true l.ended l _ h

open_lem :
    (secure : Bool) (e : Incoming) (es : List Incoming) (l : Loop)
    → l.ended ≡ false
    → accept_loop secure (e ∷ es) l ≡ accept_loop secure es (round secure e l)
unfolding accept_loop
open_lem secure e es l h = if_false l.ended l _ h

-- A loop that has ended hands nothing over any more.
closed_lem :
    (secure : Bool) (es : List Incoming) (l : Loop)
    → l.ended ≡ true
    → ids (accept_loop secure es l).handled ≡ ids l.handled ++ []
closed_lem secure es l h =
    ap (λ l. ids l.handled) (ended_lem secure es l h) ∙ sym (append_nil (ids l.handled))

-- The plain listeners hand over every connection that comes before `stop`, in the order of arrival:
-- an error of `accept`, of whatever kind, loses none of the others.
pub accept_loop-arrivals :
    (es : List Incoming) (l : Loop)
    → l.ended ≡ false
    → ids (accept_loop false es l).handled ≡ ids l.handled ++ arrivals es
unfolding accept_loop
accept_loop-arrivals [] l h = sym (append_nil (ids l.handled))
accept_loop-arrivals (stopping ∷ es) l h =
    ap (λ l. ids l.handled) (open_lem false stopping es l h)
    ∙ closed_lem false es (record l { ended = true }) refl
accept_loop-arrivals (accept_error true ∷ es) l h =
    ap (λ l. ids l.handled) (open_lem false (accept_error true) es l h)
    ∙ accept_loop-arrivals es (round false (accept_error true) l) h
accept_loop-arrivals (accept_error false ∷ es) l h =
    ap (λ l. ids l.handled) (open_lem false (accept_error false) es l h)
    ∙ accept_loop-arrivals es (round false (accept_error false) l) h
accept_loop-arrivals (connection id b ∷ es) l h =
    ap (λ l. ids l.handled) (open_lem false (connection id b) es l h)
    ∙ accept_loop-arrivals es (round false (connection id b) l) h
    ∙ ids-append l.handled id _ (arrivals es)

-- The secure listeners hand over the connections up to the first whose handshake fails: that client
-- ends the loop for all that come later.
pub accept_loop-welcome :
    (es : List Incoming) (l : Loop)
    → l.ended ≡ false
    → ids (accept_loop true es l).handled ≡ ids l.handled ++ welcome es
unfolding accept_loop
accept_loop-welcome [] l h = sym (append_nil (ids l.handled))
accept_loop-welcome (stopping ∷ es) l h =
    ap (λ l. ids l.handled) (open_lem true stopping es l h)
    ∙ closed_lem true es (record l { ended = true }) refl
accept_loop-welcome (accept_error true ∷ es) l h =
    ap (λ l. ids l.handled) (open_lem true (accept_error true) es l h)
    ∙ accept_loop-welcome es (round true (accept_error true) l) h
accept_loop-welcome (accept_error false ∷ es) l h =
    ap (λ l. ids l.handled) (open_lem true (accept_error false) es l h)
    ∙ accept_loop-welcome es (round true (accept_error false) l) h
accept_loop-welcome (connection id true ∷ es) l h =
    ap (λ l. ids l.handled) (open_lem true (connection id true) es l h)
    ∙ accept_loop-welcome es (round true (connection id true) l) h
    ∙ ids-append l.handled id _ (welcome es)
accept_loop-welcome (connection id false ∷ es) l h =
    ap (λ l. ids l.handled) (open_lem true (connection id false) es l h)
    ∙ closed_lem true es (round true (connection id false) l) refl
