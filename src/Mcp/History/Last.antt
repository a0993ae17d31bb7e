-- ===== src/Mcp/History/Last.antt =====
-- The lists that hikyuu/mcp/McpHandle.cpp keeps in a session are the last entries that were recorded.
use hku_rest.Prelude.{
  ℕ, zero, suc, ◌-◌, ◌≤◌, ◌≡◌, ◌∙◌, refl, sym, ap, false, List, [], ◌∷◌, ◌++◌, ltb, if_either,
  length, length-append, drop, is_empty, arith,
}
use hku_rest.Prelude.Text.{Text, text_eq_refl}
use hku_rest.Sessions.{SessionManager}
use hku_rest.Sessions.Register.{set_session_metadata-get}
use hku_rest.Sessions.Stored.{IsKnown, set_session_metadata-IsKnown}
use hku_rest.Mcp.Json.{JsonView}
use hku_rest.Mcp.Service.{JsonMaker}
use hku_rest.Mcp.History.{push_limited, items_of, history_under, record_entry}

-- The last `limit` entries.
abbrev pub last_of {ℓ} : {A : Type ℓ} → ℕ → List A → List A
last_of limit xs = drop (length xs - limit) xs

module _ {ℓ} {A : Type ℓ} where
  length-drop : (k : ℕ) (xs : List A) → length (drop k xs) ≡ length xs - k
  length-drop zero xs = omega arith
  length-drop (suc k) [] = omega arith
  length-drop (suc k) (x ∷ xs) = omega (arith, length-drop k xs)

  drop-snoc :
      (k : ℕ) (xs : List A) (y : A) → k ≤ length xs → drop k (xs ++ y ∷ []) ≡ drop k xs ++ y ∷ []
  drop-snoc zero xs y h = refl
  drop-snoc (suc k) [] y h = absurd (omega arith)
  drop-snoc (suc k) (x ∷ xs) y h = drop-snoc k xs y (omega arith)

  drop-one : (k : ℕ) (xs : List A) → drop 1 (drop k xs) ≡ drop (suc k) xs
  drop-one zero xs = refl
  drop-one (suc k) [] = refl
  drop-one (suc k) (x ∷ xs) = drop-one k xs

  drop-nil : (k : ℕ) → ◌≡◌ {A = List A} (drop k []) []
  drop-nil zero = refl
  drop-nil (suc k) = refl

  append-nil : (xs : List A) → xs ++ [] ≡ xs
  append-nil [] = refl
  append-nil (x ∷ xs) = ap (◌∷◌ x) (append-nil xs)

  append_assoc : (xs : List A) (y : A) (ys : List A) → (xs ++ y ∷ []) ++ ys ≡ xs ++ y ∷ ys
  append_assoc [] y ys = refl
  append_assoc (x ∷ xs) y ys = ap (◌∷◌ x) (append_assoc xs y ys)

  -- One more entry moves the window by one.
  push_limited-last :
      (limit : ℕ) (xs : List A) (y : A)
      → push_limited limit y (last_of limit xs) ≡ last_of limit (xs ++ y ∷ [])
  push_limited-last limit xs y =
      let k = length xs - limit in
      let kept = length-append (drop k xs) (y ∷ []) in
      let snoc = sym (drop-snoc k xs y (omega arith)) in
      if_either (λ (r : List A). r ≡ last_of limit (xs ++ y ∷ []))
        (ltb limit (length (last_of limit xs ++ y ∷ []))) _ _
        (λ t.
          ap (drop 1) snoc
          ∙ drop-one k (xs ++ y ∷ [])
          ∙ ap (λ n. drop n (xs ++ y ∷ [])) {x = suc k} {y = length (xs ++ y ∷ []) - limit}
              (ground (arith, kept, length-drop k xs, length-append xs (y ∷ []))))
        (λ f.
          snoc
          ∙ ap (λ n. drop n (xs ++ y ∷ [])) {x = k} {y = length (xs ++ y ∷ []) - limit}
              (ground (arith, kept, length-drop k xs, length-append xs (y ∷ []))))

module _ {J : Type 0} (v : JsonView J) (make : JsonMaker J v) where
  -- The entries in turn, each with the time of its call.
  abbrev pub record_all : Text → ℕ → Text → List (J × ℕ) → SessionManager J → SessionManager J
  record_all key limit id [] m = m
  record_all key limit id ((entry, now) ∷ rest) m =
      record_all key limit id rest (record_entry v make key limit entry id now m)

  abbrev pub entries : List (J × ℕ) → List J
  entries [] = []
  entries ((entry, now) ∷ rest) = entry ∷ entries rest

  record_entry-history :
      (key : Text) (limit : ℕ) (entry : J) (id : Text) (now : ℕ) (m : SessionManager J)
      → is_empty id ≡ false
      → IsKnown id m
      → (history_under v make id key (record_entry v make key limit entry id now m)
          ≡ push_limited limit entry (history_under v make id key m))
        × IsKnown id (record_entry v make key limit entry id now m)
  unfolding record_entry
  record_entry-history key limit entry id now m n known =
      let list = make.array_value (push_limited limit entry (history_under v make id key m)) in
      let (ok, kept) = set_session_metadata-IsKnown id key list now m n known in
      (
        ap (λ x. items_of v make (v.view x))
              (set_session_metadata-get make.null list id key id key now m
                ∙ rw (ok, text_eq_refl id, text_eq_refl key) refl)
            ∙ ap (items_of v make) (make.array_made _),
        kept,
      )

  record_all-last :
      (key : Text) (limit : ℕ) (id : Text) (new : List (J × ℕ)) (old : List J)
      (m : SessionManager J)
      → is_empty id ≡ false
      → IsKnown id m
      → history_under v make id key m ≡ last_of limit old
      → history_under v make id key (record_all key limit id new m)
        ≡ last_of limit (old ++ entries new)
  record_all-last key limit id [] old m n known h = h ∙ ap (last_of limit) (sym (append-nil old))
  record_all-last key limit id ((entry, now) ∷ rest) old m n known h =
      let (next, kept) = record_entry-history key limit entry id now m n known in
      record_all-last key limit id rest (old ++ entry ∷ [])
        (record_entry v make key limit entry id now m) n kept
        (next ∙ ap (push_limited limit entry) h ∙ push_limited-last limit old entry)
      ∙ ap (last_of limit) (append_assoc old entry (entries rest))

  -- In a session that is in the table and has no list under the key yet, the list is, after any
  -- entries that were recorded one after the other, that of the last `limit` of them, in their order.
  pub record_all-last_of :
      (key : Text) (limit : ℕ) (id : Text) (new : List (J × ℕ)) (m : SessionManager J)
      → is_empty id ≡ false
      → IsKnown id m
      → history_under v make id key m ≡ []
      → history_under v make id key (record_all key limit id new m) ≡ last_of limit (entries new)
  record_all-last_of key limit id new m n known h =
      record_all-last key limit id new [] m n known (h ∙ sym (drop-nil (0 - limit)))
