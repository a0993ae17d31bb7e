-- ===== src/Sessions/Table.antt =====
-- What the writes of the table of hikyuu/mcp/SessionManager.h keep.
use hku_rest.Prelude.{
  ℕ, ◌≡◌, inl, inr, refl, sym, subst, false, Bool-cases, some, [], ◌∷◌, is_empty, All, arith,
}
use hku_rest.Prelude.Text.{Text, text_eq, text_eq_refl, text_eq→eq}
use hku_rest.Prelude.Dict.{Dict, find, put, erase, find-put, find-erase, text_eq_apart}
use hku_rest.Sessions.{SessionData, is_expired, live}
use hku_rest.Sessions.Live.{IsDistinct}

module _ {ℓ} {A : Type ℓ} where
  pub put-IsDistinct : (k : Text) (v : A) (d : Dict A) → IsDistinct d → IsDistinct (put k v d)
  unfolding put find
  put-IsDistinct k v [] h = (refl, tt)
  put-IsDistinct k v ((j, w) ∷ d) h = elim (Bool-cases (text_eq j k)) [
    | inl e ↦ rw e h
    | inr e ↦
        rw e (ground (arith, find-put j k v d, text_eq_sym j k e, h), put-IsDistinct k v d h.1)
  ]
    where
      text_eq_sym : (a b : Text) → text_eq a b ≡ false → text_eq b a ≡ false
      text_eq_sym a b e = text_eq_apart a a b e (text_eq_refl a)

  pub erase-IsDistinct : (k : Text) (d : Dict A) → IsDistinct d → IsDistinct (erase k d)
  unfolding erase find
  erase-IsDistinct k [] h = tt
  erase-IsDistinct k ((j, w) ∷ d) h =
      ground (arith, erase-IsDistinct k d h.1, find-erase j k d, h.0)

-- A session stands under its own id, which is not empty.
module _ {V : Type 0} where
  abbrev pub IsFiled : Text × SessionData V → Type 0
  IsFiled e = (e.0 ≡ e.1.session_id) × (is_empty e.0 ≡ false)

  pub All-put :
      (k : Text) (v : SessionData V) (d : Dict (SessionData V))
      → IsFiled (k, v)
      → All IsFiled d
      → All IsFiled (put k v d)
  unfolding put
  All-put k v [] f h = (f, tt)
  All-put k v ((j, w) ∷ d) f h = elim (Bool-cases (text_eq j k)) [
    | inl e ↦ rw e (subst (λ x. IsFiled (x, v)) (sym (text_eq→eq j k e)) f, h.1)
    | inr e ↦ rw e (h.0, All-put k v d f h.1)
  ]

  pub All-find :
      (k : Text) (s : SessionData V) (d : Dict (SessionData V))
      → All IsFiled d
      → find k d ≡ some s
      → IsFiled (k, s)
  unfolding find
  All-find k s [] h e = absurd (cc)
  All-find k s ((j, w) ∷ d) h e = elim (Bool-cases (text_eq j k)) [
    | inl t ↦
        let same : w ≡ s = ground (arith, t) in
        subst (λ x. IsFiled (x, s)) (text_eq→eq j k t) (subst (λ x. IsFiled (j, x)) same h.0)
    | inr f ↦ All-find k s d h.1 (ground (arith, f))
  ]

  pub All-erase : (k : Text) (d : Dict (SessionData V)) → All IsFiled d → All IsFiled (erase k d)
  unfolding erase
  All-erase k [] h = tt
  All-erase k ((j, w) ∷ d) h = elim (Bool-cases (text_eq j k)) [
    | inl t ↦ rw t (All-erase k d h.1)
    | inr f ↦ rw f (h.0, All-erase k d h.1)
  ]

  pub All-live :
      (timeout now : ℕ) (d : Dict (SessionData V))
      → All IsFiled d
      → All IsFiled (live timeout now d)
  unfolding live
  All-live timeout now [] h = tt
  All-live timeout now ((j, w) ∷ d) h = elim (Bool-cases (is_expired timeout now w)) [
    | inl t ↦ rw t (All-live timeout now d h.1)
    | inr f ↦ rw f (h.0, All-live timeout now d h.1)
  ]
