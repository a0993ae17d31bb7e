-- ===== src/Tls/Private.antt =====
-- The key that `configureSsl` of hikyuu/httpd/HttpServer.cpp accepts is its owner's alone.
use hku_rest.Prelude.{
  ℕ, ◌%◌, ◌≡◌, refl, inl, inr, Bool, true, Bool-cases, subst, [], Option, none, some, is_empty,
  arith,
}
use hku_rest.Prelude.Text.{Text}
use hku_rest.Tls.{
  SslConfig, FileSystem, SslContext, is_key_file, check_permissions, check_key_file, configure_ssl,
  verify_of,
}

module _ (fs : FileSystem) where
  check_permissions-private :
      (file : Text) (o : Option ℕ)
      → check_permissions fs file o ≡ true
      → (perms : ℕ) × (o ≡ some perms) × (is_key_file fs file ≡ true → perms % 64 ≡ 0)
  check_permissions-private file none h = absurd (cc)
  check_permissions-private file (some perms) h = elim (Bool-cases (is_key_file fs file)) [
    | inl t ↦ (perms, refl, λ k. ground (arith, h, t))
    | inr f ↦ (perms, refl, λ k. absurd (cc))
  ]

  check_key_file-private :
      (file : Text)
      → check_key_file fs file ≡ true
      → (fs.exists file ≡ true)
        × (fs.opens file ≡ true)
        × ((perms : ℕ) × (fs.permissions file ≡ some perms)
            × (is_key_file fs file ≡ true → perms % 64 ≡ 0))
  unfolding check_key_file
  check_key_file-private file = elim (Bool-cases (is_empty file)) [
    | inl t ↦ rw t (λ h. absurd (cc))
    | inr f ↦ elim (Bool-cases (fs.exists file)) [
      | inr n ↦ rw (f, n) (λ h. absurd (cc))
      | inl e ↦ elim (Bool-cases (fs.opens file)) [
        | inr n ↦ rw (f, e, n) (λ h. absurd (cc))
        | inl o ↦ rw (f, e, o) (λ h. (refl, refl, check_permissions-private file _ h))
      ]
    ]
  ]

  abbrev key_of : Option SslContext → Text
  key_of none = []
  key_of (some context) = context.key_file

  -- What is known of the file of a context.
  abbrev pub IsPrivate : Text → Type 0
  IsPrivate file =
      (fs.exists file ≡ true)
      × (fs.opens file ≡ true)
      × ((perms : ℕ) × (fs.permissions file ≡ some perms)
          × (is_key_file fs file ≡ true → perms % 64 ≡ 0))

  -- Where the system is not Windows, a TLS context is made only if the file of the key exists, opens and
  -- has permissions to read, and if it is a private key by its first line or its name, the group and
  -- the others have none.
  pub configure_ssl-IsPrivate :
      (loads : Text → Text → Bool) (config : SslConfig) (context : SslContext)
      → configure_ssl fs loads config ≡ some context
      → IsPrivate context.key_file
  unfolding configure_ssl
  configure_ssl-IsPrivate loads config context =
      elim (Bool-cases (check_key_file fs config.ca_key_file)) [
        | inr f ↦ rw f (λ h. absurd (cc))
        | inl t ↦ elim (Bool-cases (loads config.ca_key_file config.password)) [
          | inr f ↦ rw (t, f) (λ h. absurd (cc))
          | inl l ↦
              rw (t, l)
                (λ h.
                  subst (λ c. IsPrivate (key_of c))
                    {x = some (record {
                      key_file = config.ca_key_file;
                      verify = verify_of config.verify_mode;
                    })}
                    {y = some context} h (check_key_file-private config.ca_key_file t))
        ]
      ]
