-- ===== src/Prelude/Dict.antt =====
-- Maps from texts, as lists of pairs: `std::map` and `std::unordered_map`, whose order the program
-- never shows.
use Prim.Native.Nat.{suc, ◌≤◌}
use mathlib.Core.Path.{◌≡◌, refl, sym, subst, ◌∙◌}
use mathlib.Core.Logic.{◌≢◌, ◌⊎◌, inl, inr}
use mathlib.Core.Bool.{true, false}
use mathlib.Core.List.{List, [], ◌∷◌}
use mathlib.Core.Option.{Option, none, some}
use native.Mathlib.Omega.{arith}
use hku_rest.Prelude.Tests.{Bool-cases, if◌then◌else◌}
use hku_rest.Prelude.Lists.{length}
use hku_rest.Prelude.Text.{Text, text_eq, text_eq→eq, eq→text_eq, text_eq_refl}

abbrev pub Dict {ℓ} : Type ℓ → Type ℓ
Dict A = List (Text × A)

pub text_eq_apart : (i j k : Text) → text_eq i k ≡ false → text_eq i j ≡ true → text_eq k j ≡ false
text_eq_apart i j k e t = elim (Bool-cases (text_eq k j)) [
  | inl u ↦ absurd (ground (arith, eq→text_eq i k (text_eq→eq i j t ∙ sym (text_eq→eq k j u))))
  | inr u ↦ u
]

module _ {ℓ} {A : Type ℓ} where
  -- `find`
  unfoldable pub find : Text → Dict A → Option A
  unfolding text_eq
  find k [] = none
  find k ((j, v) ∷ d) = if text_eq j k then some v else find k d

  -- `d[k] = v`
  unfoldable pub put : Text → A → Dict A → Dict A
  unfolding text_eq
  put k v [] = (k, v) ∷ []
  put k v ((j, w) ∷ d) = if text_eq j k then (j, v) ∷ d else (j, w) ∷ put k v d

  -- `erase(k)`
  unfoldable pub erase : Text → Dict A → Dict A
  unfolding text_eq
  erase k [] = []
  erase k ((j, w) ∷ d) = let rest = erase k d in if text_eq j k then rest else (j, w) ∷ rest

  pub find-put_self : (k : Text) (v : A) (d : Dict A) → find k (put k v d) ≡ some v
  unfolding find put
  find-put_self k v [] = ground (arith, text_eq_refl k)
  find-put_self k v ((j, w) ∷ d) = ground (arith, find-put_self k v d)

  -- A read after a write, in one equation.
  pub find-put :
      (j k : Text) (v : A) (d : Dict A)
      → find j (put k v d) ≡ (if text_eq k j then some v else find j d)
  unfolding find put
  find-put j k v [] = refl
  find-put j k v ((i, w) ∷ d) = elim (Bool-cases (text_eq i k)) [
    | inl e ↦
        subst
          (λ x.
            find j (if text_eq i x then (i, v) ∷ d else (i, w) ∷ put x v d)
            ≡ (if text_eq x j then some v else find j ((i, w) ∷ d)))
          (text_eq→eq i k e) (ground (arith, text_eq_refl i))
    | inr e ↦ rw e (ground (arith, find-put j k v d, text_eq_apart i j k e))
  ]

  pub find-erase :
      (j k : Text) (d : Dict A) → find j (erase k d) ≡ (if text_eq k j then none else find j d)
  unfolding find erase
  find-erase j k [] = ground arith
  find-erase j k ((i, w) ∷ d) = elim (Bool-cases (text_eq i k)) [
    | inl e ↦ rw e (find-erase j k d ∙ same i k e)
    | inr e ↦ rw e (ground (arith, find-erase j k d, text_eq_apart i j k e))
  ]
    where
      same :
          (i k : Text)
          → text_eq i k ≡ true
          → (if text_eq k j then none else find j d)
            ≡ (if text_eq k j then none else if text_eq i j then some w else find j d)
      same i k e =
          subst
            (λ x.
              (if text_eq x j then none else find j d)
              ≡ (if text_eq x j then none else if text_eq i j then some w else find j d))
            (text_eq→eq i k e) (ground arith)

  pub length-put :
      (k : Text) (v : A) (d : Dict A)
      → ((find k d ≡ none) × (length (put k v d) ≡ suc (length d)))
        ⊎ ((find k d ≢ none) × (length (put k v d) ≡ length d))
  unfolding find put
  length-put k v [] = inl (refl, refl)
  length-put k v ((i, w) ∷ d) = ground (arith, length-put k v d)

  pub length-erase : (k : Text) (d : Dict A) → length (erase k d) ≤ length d
  unfolding erase
  length-erase k [] = omega arith
  length-erase k ((i, w) ∷ d) = ground (arith, length-erase k d)
