-- ===== src/Http/Handle/Client.antt =====
-- The client's address as `getClientIp` of hikyuu/httpd/HttpHandle.cpp gives it.
use hku_rest.Prelude.{
  if_either, ◌≡◌, ◌⊎◌, inl, inr, refl, Bool, true, false, not, ◌&&◌, Bool-cases, List, [], ◌∷◌,
  is_empty, arith,
}
use hku_rest.Prelude.Text.{Text, codes, text_eq}
use hku_rest.Prelude.Dict.{Dict}
use hku_rest.Http.Handle.{address_header, first_known, get_client_ip}

-- An address that says something.
abbrev pub IsKnown : Text → Type 0
IsKnown value = (is_empty value ≡ false) × (text_eq value (codes "unknown") ≡ false)

abbrev pub Among : Text → List Text → Type 0
Among value [] = ⊥
Among value (x ∷ rest) = (value ≡ x) ⊎ Among value rest

abbrev known : Text → Bool
known x = not (is_empty x) && not (text_eq x (codes "unknown"))

module _ (to_lower : Text → Text) (split : Text → List Text) where
  first_known-Among :
      (xs : List Text) (ip : Text)
      → (first_known to_lower split xs ip ≡ ip)
        ⊎ (Among (first_known to_lower split xs ip) xs × IsKnown (first_known to_lower split xs ip))
  first_known-Among [] ip = inl refl
  first_known-Among (x ∷ rest) ip =
      if_either (λ y. (y ≡ ip) ⊎ (Among y (x ∷ rest) × IsKnown y)) (known x) x _
        (λ t. inr (inl refl, ground arith))
        (λ f. elim (first_known-Among rest ip) [ inl e ↦ inl e | inr (a, k) ↦ inr (inr a, k) ])

  -- The answer is the peer's own address, or one that a header names and that is neither empty nor
  -- `unknown`; without the headers it is the peer's.
  pub get_client_ip-Among :
      (try : Bool) (ip : Text) (fields : Dict Text)
      → (get_client_ip to_lower split try ip fields ≡ ip)
        ⊎ ((try ≡ true)
            × Among
                (get_client_ip to_lower split try ip fields)
                (split (address_header to_lower split fields))
            × IsKnown (get_client_ip to_lower split try ip fields))
  unfolding get_client_ip
  get_client_ip-Among false ip fields = inl refl
  get_client_ip-Among true ip fields =
      elim (Bool-cases (is_empty (address_header to_lower split fields))) [
        | inl t ↦ rw t (inl refl)
        | inr f ↦ rw f (elim (first_known-Among (split (address_header to_lower split fields)) ip) [
          | inl e ↦ inl e
          | inr (a, k) ↦ inr (refl, a, k)
        ])
      ]
