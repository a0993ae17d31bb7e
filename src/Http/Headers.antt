-- ===== src/Http/Headers.antt =====
-- The headers that hikyuu/httpd/HttpServer.cpp adds to a response.
use hku_rest.Prelude.{
  ◌≡◌, refl, ◌∙◌, Bool, true, false, not, ◌&&◌, Bool-cases, Option, some, List, [], ◌∷◌,
  if◌then◌else◌, is_empty, drop, All, inl, inr, arith,
}
use hku_rest.Prelude.Text.{Text, codes, text_eq, text_eq_refl}
use hku_rest.Prelude.Dict.{find, find-put}
use hku_rest.Http.{
  Response, CorsConfig, set_header, set_header_if, set_cors_headers, content_policy,
  security_headers, set_response_headers,
}

unfoldable pub header : Text → Response → Option Text
header name res = find name res.headers

pub header-set :
    (j k v : Text) (res : Response)
    → header j (set_header k v res) ≡ (if text_eq k j then some v else header j res)
unfolding header
header-set j k v res = find-put j k v res.headers

header-set_if :
    (b : Bool) (j k v : Text) (res : Response)
    → header j (set_header_if b k v res) ≡ (if b && text_eq k j then some v else header j res)
header-set_if true j k v res = header-set j k v res
header-set_if false j k v res = refl

header-set_other :
    (b : Bool) (j k v : Text) (res : Response)
    → text_eq k j ≡ false
    → header j (set_header_if b k v res) ≡ header j res
header-set_other b j k v res n = header-set_if b j k v res ∙ ground (arith, n)

abbrev cors_names : List Text
cors_names =
    codes "Access-Control-Allow-Credentials"
    ∷ codes "Access-Control-Max-Age"
    ∷ codes "Access-Control-Expose-Headers"
    ∷ codes "Access-Control-Allow-Headers"
    ∷ codes "Access-Control-Allow-Methods"
    ∷ codes "Access-Control-Allow-Origin"
    ∷ []

-- The fields that no CORS setting touches.
abbrev IsOther : Text → Type 0
IsOther j = All (λ k. text_eq k j ≡ false) cors_names

header-cors :
    (c : CorsConfig) (j : Text) (res : Response)
    → IsOther j
    → header j (set_cors_headers c res) ≡ header j res
unfolding set_cors_headers
header-cors c j res n = elim (Bool-cases c.enabled) [
  | inr f ↦ rw f refl
  | inl t ↦ rw t (
      header-set_other c.allow_credentials j (codes "Access-Control-Allow-Credentials")
        (codes "true") _ n.0
      ∙ header-set_other (not (is_empty c.max_age)) j (codes "Access-Control-Max-Age") c.max_age _
          n.1.0
      ∙ header-set_other (not (is_empty c.expose_headers)) j (codes "Access-Control-Expose-Headers")
          c.expose_headers _ n.1.1.0
      ∙ header-set_other (not (is_empty c.allow_headers)) j (codes "Access-Control-Allow-Headers")
          c.allow_headers _ n.1.1.1.0
      ∙ header-set_other (not (is_empty c.allow_methods)) j (codes "Access-Control-Allow-Methods")
          c.allow_methods _ n.1.1.1.1.0
      ∙ header-set_other true j (codes "Access-Control-Allow-Origin") c.allow_origin res
          n.1.1.1.1.1.0)
]

-- The fields that every answer is to carry.
abbrev pub security_fields : List (Text × Text)
security_fields =
    (codes "Cache-Control", codes "no-store, no-cache, must-revalidate, max-age=0")
    ∷ (
      codes "Content-Security-Policy",
      codes
          "default-src 'self'; script-src 'self'; style-src 'self' 'unsafe-inline'; img-src 'self' data:;",
    )
    ∷ (codes "Referrer-Policy", codes "no-referrer-when-downgrade")
    ∷ (codes "X-XSS-Protection", codes "1; mode=block")
    ∷ (codes "X-Frame-Options", codes "DENY")
    ∷ (codes "X-Content-Type-Options", codes "nosniff")
    ∷ []

abbrev pub transport_security : Text × Text
transport_security =
    (codes "Strict-Transport-Security", codes "max-age=31536000; includeSubDomains")

abbrev pub HasField : Response → Text × Text → Type 0
HasField res f = header f.0 res ≡ some f.1

-- All six fields, and over HTTPS the one that asks for it.
abbrev pub IsSecured : Bool → Response → Type 0
IsSecured is_https res =
    All (HasField res) security_fields × (is_https ≡ true → HasField res transport_security)

-- The name is that of none of the fields.
abbrev pub IsApart : Text → List (Text × Text) → Type 0
IsApart k fs = All (λ f. text_eq k f.0 ≡ false) fs

set_if-fields :
    (b : Bool) (k v : Text) (res : Response) (fs : List (Text × Text))
    → IsApart k fs
    → All (HasField res) fs
    → All (HasField (set_header_if b k v res)) fs
set_if-fields b k v res [] n h = tt
set_if-fields b k v res (f ∷ fs) n h =
    (header-set_other b f.0 k v res n.0 ∙ h.0, set_if-fields b k v res fs n.1 h.1)

set-field :
    (k v : Text) (res : Response) (fs : List (Text × Text))
    → IsApart k fs
    → All (HasField res) fs
    → All (HasField (set_header k v res)) ((k, v) ∷ fs)
set-field k v res fs n h =
    (header-set k k v res ∙ rw (text_eq_refl k) refl, set_if-fields true k v res fs n h)

security-fields : (res : Response) → All (HasField (security_headers res)) security_fields
unfolding text_eq
security-fields res =
    let r1 = set_header (codes "X-Content-Type-Options") (codes "nosniff") res in
    let set1 =
      set-field (codes "X-Content-Type-Options") (codes "nosniff") res (drop 6 security_fields) tt
        tt in
    let r2 = set_header (codes "X-Frame-Options") (codes "DENY") r1 in
    let set2 =
      set-field (codes "X-Frame-Options") (codes "DENY") r1 (drop 5 security_fields) (refl, tt)
        set1 in
    let r3 = set_header (codes "X-XSS-Protection") (codes "1; mode=block") r2 in
    let set3 =
      set-field (codes "X-XSS-Protection") (codes "1; mode=block") r2 (drop 4 security_fields)
        (refl, (refl, tt)) set2 in
    let r4 = set_header (codes "Referrer-Policy") (codes "no-referrer-when-downgrade") r3 in
    let set4 =
      set-field (codes "Referrer-Policy") (codes "no-referrer-when-downgrade") r3
        (drop 3 security_fields) (refl, (refl, (refl, tt))) set3 in
    let r5 = set_header (codes "Content-Security-Policy") content_policy r4 in
    let set5 =
      set-field (codes "Content-Security-Policy") content_policy r4 (drop 2 security_fields)
        (refl, (refl, (refl, (refl, tt)))) set4 in
    set-field (codes "Cache-Control") (codes "no-store, no-cache, must-revalidate, max-age=0") r5
      (drop 1 security_fields) (refl, (refl, (refl, (refl, (refl, tt))))) set5

-- A later field under another name changes nothing of it.
pub set_if-IsSecured :
    (is_https b : Bool) (k v : Text) (res : Response)
    → IsApart k security_fields
    → text_eq k transport_security.0 ≡ false
    → IsSecured is_https res
    → IsSecured is_https (set_header_if b k v res)
set_if-IsSecured is_https b k v res n t h = (
  set_if-fields b k v res security_fields n h.0,
  λ e. header-set_other b transport_security.0 k v res t ∙ h.1 e,
)

cors-fields :
    (c : CorsConfig) (res : Response) (fs : List (Text × Text))
    → All (λ f. IsOther f.0) fs
    → All (HasField res) fs
    → All (HasField (set_cors_headers c res)) fs
cors-fields c res [] n h = tt
cors-fields c res (f ∷ fs) n h = (header-cors c f.0 res n.0 ∙ h.0, cors-fields c res fs n.1 h.1)

cors-IsSecured :
    (is_https : Bool) (c : CorsConfig) (res : Response)
    → IsSecured is_https res
    → IsSecured is_https (set_cors_headers c res)
unfolding text_eq
cors-IsSecured is_https c res h = (
  cors-fields c res security_fields
      (
        (refl, (refl, (refl, (refl, (refl, (refl, tt)))))),
        (
          (refl, (refl, (refl, (refl, (refl, (refl, tt)))))),
          (
            (refl, (refl, (refl, (refl, (refl, (refl, tt)))))),
            (
              (refl, (refl, (refl, (refl, (refl, (refl, tt)))))),
              (
                (refl, (refl, (refl, (refl, (refl, (refl, tt)))))),
                ((refl, (refl, (refl, (refl, (refl, (refl, tt)))))), tt),
              ),
            ),
          ),
        ),
      )
      h.0,
  λ e.
      header-cors c transport_security.0 res (refl, (refl, (refl, (refl, (refl, (refl, tt))))))
      ∙ h.1 e,
)

pub set_response_headers-IsSecured :
    (c : CorsConfig) (is_https : Bool) (res : Response)
    → IsSecured is_https (set_response_headers c is_https res)
unfolding set_response_headers text_eq
set_response_headers-IsSecured c is_https res =
    let name = transport_security.0 in
    let value = transport_security.1 in
    cors-IsSecured is_https c _ (
      set_if-fields is_https name value (security_headers res) security_fields
          (refl, (refl, (refl, (refl, (refl, (refl, tt)))))) (security-fields res),
      λ e. header-set_if is_https name name value (security_headers res) ∙ rw e refl,
    )
