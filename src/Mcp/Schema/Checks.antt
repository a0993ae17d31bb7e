-- ===== src/Mcp/Schema/Checks.antt =====
-- Sequences of checks: when they pass, and when they return.
use hku_rest.Prelude.{◌≡◌, ◌≢◌, ◌↔◌, refl, Bool, true, false, List, [], ◌∷◌, All}
use hku_rest.Mcp.Schema.{SchemaError, Outcome, valid, out_of_fuel, refused, and_then, check, each}

pub and_then_valid : (a b : Outcome) → and_then a b ≡ valid → (a ≡ valid) × (b ≡ valid)
and_then_valid valid b h = (refl, h)
and_then_valid out_of_fuel b h = cc
and_then_valid (refused e) b h = cc

pub and_then_iff : (a b : Outcome) → (and_then a b ≡ valid) ↔ ((a ≡ valid) × (b ≡ valid))
and_then_iff valid b = (λ h. (refl, h), λ h. h.1)
and_then_iff out_of_fuel b = (λ h. cc, λ h. h.0)
and_then_iff (refused e) b = (λ h. cc, λ h. h.0)

pub check_iff : (b : Bool) (e : SchemaError) → (check b e ≡ valid) ↔ (b ≡ true)
check_iff true e = (λ h. refl, λ h. refl)
check_iff false e = (λ h. cc, λ h. cc)

pub each_iff {ℓ} :
    {A : Type ℓ} (f : A → Outcome) (P : A → Type 0) (xs : List A)
    → All (λ x. (f x ≡ valid) ↔ P x) xs
    → (each f xs ≡ valid) ↔ All P xs
each_iff f P [] h = (λ e. tt, λ a. refl)
each_iff f P (x ∷ xs) h =
    let (there, back) = and_then_iff (f x) (each f xs) in
    let (these, those) = each_iff f P xs h.1 in
    (λ e. (h.0.0 ((there e).0), these ((there e).1)), λ a. back (h.0.1 a.0, those a.1))

pub three_iff :
    (b c : Bool) (o : Outcome) (e f : SchemaError)
    → (and_then (check b e) (and_then o (check c f)) ≡ valid)
      ↔ ((b ≡ true) × (o ≡ valid) × (c ≡ true))
three_iff true c valid e f = (λ h. (refl, refl, (check_iff c f).0 h), λ h. (check_iff c f).1 h.2)
three_iff true c out_of_fuel e f = (λ h. cc, λ h. h.1)
three_iff true c (refused g) e f = (λ h. cc, λ h. h.1)
three_iff false c o e f = (λ h. cc, λ h. cc)

abbrev pub Returns : Outcome → Type 0
Returns o = o ≢ out_of_fuel

pub and_then-Returns : (a b : Outcome) → Returns a → Returns b → Returns (and_then a b)
and_then-Returns valid b ha hb = hb
and_then-Returns out_of_fuel b ha hb = ha
and_then-Returns (refused e) b ha hb = ha

pub check-Returns : (b : Bool) (e : SchemaError) → Returns (check b e)
check-Returns true e h = cc
check-Returns false e h = cc

pub refused-Returns : (e : SchemaError) → Returns (refused e)
refused-Returns e h = cc

pub each-Returns {ℓ} :
    {A : Type ℓ} (f : A → Outcome) (xs : List A) → All (λ x. Returns (f x)) xs → Returns (each f xs)
each-Returns f [] h = λ e. cc
each-Returns f (x ∷ xs) h = and_then-Returns (f x) (each f xs) h.0 (each-Returns f xs h.1)
