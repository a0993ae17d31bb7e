-- ===== src/Server/Admitted.antt =====
-- Who gets a connection from the accept loops of hikyuu/httpd/HttpServer.cpp, and with which bytes.
use hku_rest.Prelude.{
  ◌≡◌, ◌⊎◌, inl, inr, refl, Bool, true, false, not, ◌&&◌, if_either, Option, none, some, List, [],
  ◌∷◌, ◌++◌, drop, is_empty, All, All-map,
}
use hku_rest.Prelude.Text.{Text}
use hku_rest.Server.Accept.{
  Socket, Arrival, accept_throws, stopped, arrived, Connection, new_connection, probe, connect,
  do_accept,
}

-- The sockets of a list of arrivals, whole.
abbrev pub sockets : List Arrival → List Socket
sockets [] = []
sockets (arrived s ∷ rest) = s ∷ sockets rest
sockets (accept_throws ∷ rest) = sockets rest
sockets (stopped ∷ rest) = sockets rest

-- The socket is in the list.
pub data Among : Socket → List Socket → Type 0 where
  here : {s : Socket} {rest : List Socket} → Among s (s ∷ rest)
  there : {s t : Socket} {rest : List Socket} → Among s rest → Among s (t ∷ rest)

-- What a client sends that reaches `readLoop`: all of it, or with the probe what follows the first byte.
abbrev pub received : Bool → Socket → Text
received false s = s.early ++ s.late
received true s = drop 1 s.early ++ s.late

module _ (is_ip_allowed : Text → Bool) where
  -- The connection stems from a socket of the list; it is open for an allowed address only, or where no
  -- address could be had.
  abbrev pub IsFrom : Bool → List Socket → Connection → Type 0
  IsFrom probing ss c =
      (s : Socket) × Among s ss
      × (c.stream ≡ received probing s)
      × (c.is_open ≡ true
          → (s.remote ≡ none)
            ⊎ ((s.remote ≡ some c.client_ip) × (is_ip_allowed c.client_ip ≡ true)))

  new_connection-IsFrom :
      (probing tls : Bool) (s : Socket) (ss : List Socket)
      → IsFrom probing (s ∷ ss) (new_connection is_ip_allowed tls s.remote (received probing s))
  new_connection-IsFrom probing tls s ss = go s.remote refl
    where
      go :
          (o : Option Text)
          → s.remote ≡ o
          → IsFrom probing (s ∷ ss) (new_connection is_ip_allowed tls o (received probing s))
      go none e = (s, here, refl, λ h. inl e)
      go (some ip) e = (s, here, refl, λ h. inr (e, h))

  IsFrom-there :
      (probing : Bool) (s : Socket) (ss : List Socket) (c : Connection)
      → IsFrom probing ss c
      → IsFrom probing (s ∷ ss) c
  IsFrom-there probing s ss c (t, a, e, k) = (t, there a, e, k)

  connect-IsFrom :
      (probing : Bool) (s : Socket) (ss : List Socket) (later : List Connection)
      → All (IsFrom probing (s ∷ ss)) later
      → All (IsFrom probing (s ∷ ss)) (connect is_ip_allowed false s (probe probing s) later)
  connect-IsFrom false s ss later k = (new_connection-IsFrom false false s ss, k)
  connect-IsFrom true s ss later k =
      if_either
        (λ (r : Option Text). All (IsFrom true (s ∷ ss)) (connect is_ip_allowed false s r later))
        (is_empty s.early && not s.ended) none _ (λ t. k)
        (λ f. (new_connection-IsFrom true false s ss, k))

  -- Each connection of the plain accept loop reads what one client sent, without the first byte if the
  -- probe is on, and where it is open, that client's address is allowed or could not be had.
  pub do_accept-IsFrom :
      (probing : Bool) (arrivals : List Arrival)
      → All (IsFrom probing (sockets arrivals)) (do_accept is_ip_allowed probing arrivals)
  unfolding do_accept
  do_accept-IsFrom probing [] = tt
  do_accept-IsFrom probing (accept_throws ∷ rest) = tt
  do_accept-IsFrom probing (stopped ∷ rest) = tt
  do_accept-IsFrom probing (arrived s ∷ rest) =
      let later =
        All-map (IsFrom-there probing s (sockets rest)) _ (do_accept-IsFrom probing rest) in
      if_either (λ (r : List Connection). All (IsFrom probing (s ∷ sockets rest)) r) (not s.is_open)
        _ _ (λ t. later) (λ f. connect-IsFrom probing s (sockets rest) _ later)
