-- ===== src/Prelude/Text.antt =====
-- Texts as the lists of their bytes, with the operations of `std::string` that the program uses.
use Prim.Native.Nat.{ℕ}
use Prim.Native.Char.{code}
use Prim.Native.String.{String}
use mathlib.Core.Path.{◌≡◌, refl, ap}
use mathlib.Core.Logic.{◌≢◌, ◌↔◌}
use mathlib.Core.Bool.{Bool, true, false, ◌&&◌}
use mathlib.Core.List.{List, [], ◌∷◌, ◌++◌}
use mathlib.Core.Option.{Option, none, some}
use native.Mathlib.Omega.{arith}
use hku_rest.Prelude.Tests.{◌==◌, if◌then◌else◌}
use hku_rest.Prelude.Lists.{All}

abbrev pub Text : Type 0
Text = List ℕ

-- The bytes of an ASCII text.
abbrev pub codes : String → Text
codes String.[] = []
codes (String.◌∷◌ c s) = code c ∷ codes s

-- `operator==`
unfoldable pub text_eq : Text → Text → Bool
text_eq [] [] = true
text_eq (a ∷ s) (b ∷ t) = a == b && text_eq s t
text_eq _ _ = false

pub text_eq→eq : (s t : Text) → text_eq s t ≡ true → s ≡ t
unfolding text_eq
text_eq→eq [] [] h = refl
text_eq→eq [] (b ∷ t) h = cc
text_eq→eq (a ∷ s) [] h = cc
text_eq→eq (a ∷ s) (b ∷ t) h = ground (arith, text_eq→eq s t)

pub text_eq_refl : (s : Text) → text_eq s s ≡ true
unfolding text_eq
text_eq_refl [] = refl
text_eq_refl (a ∷ s) = ground (arith, text_eq_refl s)

pub eq→text_eq : (s t : Text) → s ≡ t → text_eq s t ≡ true
eq→text_eq s t e = rw e (text_eq_refl t)

pub text_eq_iff : (s t : Text) → (text_eq s t ≡ true) ↔ (s ≡ t)
text_eq_iff s t = (text_eq→eq s t, eq→text_eq s t)

-- `s.find(prefix) == 0`
unfoldable pub starts_with : Text → Text → Bool
starts_with s [] = true
starts_with [] (b ∷ t) = false
starts_with (a ∷ s) (b ∷ t) = a == b && starts_with s t

pub starts_with→append : (s t : Text) → starts_with s t ≡ true → (r : Text) × (s ≡ t ++ r)
unfolding starts_with
starts_with→append s [] h = (s, refl)
starts_with→append [] (b ∷ t) h = absurd (cc)
starts_with→append (a ∷ s) (b ∷ t) h =
    let (r, e) = starts_with→append s t (ground arith) in (r, ground arith)

pub starts_with-append : (t r : Text) → starts_with (t ++ r) t ≡ true
unfolding starts_with
starts_with-append [] r = refl
starts_with-append (b ∷ t) r = ground (arith, starts_with-append t r)

-- The part before the first occurrence of a byte: all of the text, if there is none.
unfoldable pub before : ℕ → Text → Text
before c [] = []
before c (a ∷ s) = if a == c then [] else a ∷ before c s

-- The part behind the first occurrence of a byte, as `substr(pos + 1)` takes it.
unfoldable pub after : ℕ → Text → Option Text
after c [] = none
after c (a ∷ s) = if a == c then some s else after c s

abbrev pub Avoids : ℕ → Text → Type 0
Avoids c = All (λ a. a ≢ c)

pub before-append : (c : ℕ) (s r : Text) → before c (s ++ c ∷ r) ≡ before c s
unfolding before
before-append c [] r = ground arith
before-append c (a ∷ s) r = ground (arith, before-append c s r)

pub after-append : (c : ℕ) (s r : Text) → Avoids c s → after c (s ++ c ∷ r) ≡ some r
unfolding after
after-append c [] r h = ground arith
after-append c (a ∷ s) r h = ground (arith, after-append c s r h.1)

-- `!s.empty() && s.back() == c`
unfoldable pub ends_with : ℕ → Text → Bool
ends_with c [] = false
ends_with c (a ∷ []) = a == c
ends_with c (a ∷ b ∷ s) = ends_with c (b ∷ s)

-- All but the last byte.
unfoldable pub drop_last : Text → Text
drop_last [] = []
drop_last (a ∷ []) = []
drop_last (a ∷ b ∷ s) = a ∷ drop_last (b ∷ s)

ends_with-append : (c : ℕ) (s : Text) → ends_with c (s ++ c ∷ []) ≡ true
unfolding ends_with
ends_with-append c [] = ground arith
ends_with-append c (a ∷ []) = ground arith
ends_with-append c (a ∷ b ∷ s) = ends_with-append c (b ∷ s)

drop_last-append : (c : ℕ) (s : Text) → drop_last (s ++ c ∷ []) ≡ s
unfolding drop_last
drop_last-append c [] = refl
drop_last-append c (a ∷ []) = refl
drop_last-append c (a ∷ b ∷ s) = ap (◌∷◌ a) (drop_last-append c (b ∷ s))

pub text_eq_false→ne : (s t : Text) → text_eq s t ≡ false → s ≢ t
text_eq_false→ne s t h e = ground (arith, eq→text_eq s t e)

pub ne→text_eq_false : (s t : Text) → s ≢ t → text_eq s t ≡ false
ne→text_eq_false s t h = ground (arith, text_eq→eq s t)
