-- ===== src/Tls/Alpn.antt =====
-- The choice of the protocol in hikyuu/httpd/HttpServer.cpp, against the form of the client's list.
use hku_rest.Prelude.{
  ℕ, zero, suc, ◌≤◌, ◌<◌, ◌≡◌, ◌∙◌, ◌↔◌, refl, sym, ap, subst, inl, inr, true, ◌&&◌, ◌||◌,
  Bool-cases, [], ◌∷◌, ◌++◌, ltb, ◌==◌, length, length-append, take, drop, drop-length_append,
  arith,
}
use hku_rest.Prelude.Text.{Text, text_eq, text_eq→eq}
use hku_rest.Tls.{selected, http_1_1, scan_protocols, select_alpn}

-- A list of protocols, each under its length, which is well formed up to `http/1.1`.
pub data IsOffer : Text → Type 0 where
  last : IsOffer []
  found : (rest : Text) → IsOffer (8 ∷ http_1_1 ++ rest)
  skip :
      (protocol rest : Text)
      → 0 < length protocol
      → IsOffer rest
      → IsOffer (length protocol ∷ protocol ++ rest)

take-drop : (n : ℕ) (t : Text) → take n t ++ drop n t ≡ t
take-drop zero t = refl
take-drop (suc n) [] = refl
take-drop (suc n) (c ∷ t) = ap (◌∷◌ c) (take-drop n t)

length-take : (n : ℕ) (t : Text) → n ≤ length t → length (take n t) ≡ n
length-take zero t h = refl
length-take (suc n) [] h = absurd (omega arith)
length-take (suc n) (c ∷ t) h = ap suc (length-take n t (omega arith))

length-drop : (n : ℕ) (t : Text) → length (drop n t) ≤ length t
length-drop zero t = omega arith
length-drop (suc n) [] = omega arith
length-drop (suc n) (c ∷ t) = omega (arith, length-drop n t)

scan_skip :
    (fuel : ℕ) (p rest : Text)
    → 0 < length p
    → scan_protocols fuel rest ≡ selected http_1_1
    → scan_protocols (suc fuel) (length p ∷ p ++ rest) ≡ selected http_1_1
unfolding scan_protocols
scan_skip fuel p rest l h =
    let fits = length-append p rest in rw (drop-length_append p rest, h) (ground (arith, fits))

scan_found :
    (fuel : ℕ) (rest : Text) → scan_protocols (suc fuel) (8 ∷ http_1_1 ++ rest) ≡ selected http_1_1
unfolding scan_protocols text_eq
scan_found fuel rest = ground arith

scan_nil : (fuel : ℕ) → scan_protocols fuel [] ≡ selected http_1_1
unfolding scan_protocols
scan_nil zero = refl
scan_nil (suc fuel) = refl

offer-selected :
    (t : Text)
    → IsOffer t
    → (fuel : ℕ) → length t ≤ fuel
    → scan_protocols fuel t ≡ selected http_1_1
offer-selected _ last fuel l = scan_nil fuel
offer-selected _ (found rest) zero l = absurd (omega arith)
offer-selected _ (found rest) (suc fuel) l = scan_found fuel rest
offer-selected _ (skip p rest n o) zero l = absurd (omega arith)
offer-selected _ (skip p rest n o) (suc fuel) l =
    scan_skip fuel p rest n (offer-selected rest o fuel (omega (arith, length-append p rest)))

IsOffer-found : (t : Text) → take 8 t ≡ http_1_1 → IsOffer (8 ∷ t)
IsOffer-found t h =
    subst (λ s. IsOffer (8 ∷ s)) (ap (λ s. s ++ drop 8 t) (sym h) ∙ take-drop 8 t)
      (found (drop 8 t))

IsOffer-skip : (n : ℕ) (t : Text) → 0 < n → n ≤ length t → IsOffer (drop n t) → IsOffer (n ∷ t)
IsOffer-skip n t p l o =
    let kept = length-take n t l in
    subst (λ s. IsOffer (n ∷ s)) (take-drop n t)
      (subst (λ k. IsOffer (k ∷ take n t ++ drop n t)) kept
        (skip (take n t) (drop n t) (omega arith) o))

found_here : (n : ℕ) (t : Text) → ((n == 8) && text_eq (take 8 t) http_1_1) ≡ true → IsOffer (n ∷ t)
found_here n t h = elim (Bool-cases (text_eq (take 8 t) http_1_1)) [
  | inl e ↦
      subst (λ k. IsOffer (k ∷ t)) {x = 8} {y = n} (ground (arith, h, e))
        (IsOffer-found t (text_eq→eq _ _ e))
  | inr f ↦ absurd (ground (arith, h, f))
]

selected-offer :
    (fuel : ℕ) (t : Text) → length t ≤ fuel → scan_protocols fuel t ≡ selected http_1_1 → IsOffer t
unfolding scan_protocols
selected-offer fuel [] l = λ h. last
selected-offer zero (n ∷ rest) l = absurd (omega arith)
selected-offer (suc fuel) (n ∷ rest) l =
    let shorter = length-drop n rest in
    let deeper = selected-offer fuel (drop n rest) (omega arith) in
    elim (Bool-cases ((n == 0) || ltb (length rest) n)) [
      | inl bad ↦ rw bad (λ h. absurd (cc))
      | inr good ↦ elim (Bool-cases ((n == 8) && text_eq (take 8 rest) http_1_1)) [
        | inl it ↦ λ h. found_here n rest it
        | inr other ↦
            rw (good, other)
              (λ h. IsOffer-skip n rest (ground (arith, good)) (ground (arith, good)) (deeper h))
      ]
    ]

-- The handshake goes on, with `http/1.1`, for just the lists that are well formed up to the first
-- `http/1.1` in them, whether that is in them or not.
pub select_alpn-IsOffer : (input : Text) → (select_alpn input ≡ selected http_1_1) ↔ IsOffer input
unfolding select_alpn
select_alpn-IsOffer input = (
  selected-offer (length input) input (omega arith),
  λ o. offer-selected input o (length input) (omega arith),
)
