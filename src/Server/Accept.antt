-- ===== src/Server/Accept.antt =====
-- hikyuu/httpd/HttpServer.cpp: `doAccept` and `doAcceptSsl` on what their calls of `async_accept` give,
-- and the constructor of `Connection`, which asks the access control.
use hku_rest.Prelude.{
  Bool, true, false, not, ◌&&◌, Option, none, some, List, [], ◌∷◌, ◌++◌, if◌then◌else◌, drop,
  is_empty,
}
use hku_rest.Prelude.Text.{Text, codes}

-- `remote`: the client's address, if `remote_endpoint` gives one. `early`: the bytes that are there
-- within the 100 ms of the probe; `ended`: the stream has its end within them; `late`: the bytes that
-- follow.
pub record Socket : Type 0 where
  pub is_open : Bool
  pub remote : Option Text
  pub early : Text
  pub ended : Bool
  pub late : Text

-- An accept throws, or the server was stopped before it, or it gives a socket.
pub data Arrival : Type 0 where
  accept_throws stopped : Arrival
  arrived : Socket → Arrival

-- The stream that `readLoop` reads, if the socket is not shut.
pub record Connection : Type 0 where
  pub client_ip : Text
  pub is_open : Bool
  pub stream : Text
  pub tls : Bool

-- With the probe, a socket that has nothing to read by then, not even its end, is closed, and of
-- another the first byte is read, if there is one.
abbrev pub probe : Bool → Socket → Option Text
probe false s = some (s.early ++ s.late)
probe true s = if is_empty s.early && not s.ended then none else some (drop 1 s.early ++ s.late)

module _ (is_ip_allowed : Text → Bool) where
  abbrev pub new_connection : Bool → Option Text → Text → Connection
  new_connection tls none stream = record {
    client_ip = codes "unknown";
    is_open = true;
    stream = stream;
    tls = tls;
  }
  new_connection tls (some ip) stream = record {
    client_ip = ip;
    is_open = is_ip_allowed ip;
    stream = stream;
    tls = tls;
  }

  abbrev pub connect : Bool → Socket → Option Text → List Connection → List Connection
  connect tls s none rest = rest
  connect tls s (some stream) rest = new_connection tls s.remote stream ∷ rest

  unfoldable pub do_accept : Bool → List Arrival → List Connection
  do_accept probing [] = []
  do_accept probing (accept_throws ∷ rest) = []
  do_accept probing (stopped ∷ rest) = []
  do_accept probing (arrived s ∷ rest) =
      let later = do_accept probing rest in
      if not s.is_open then later else connect false s (probe probing s) later

  unfoldable pub do_accept_ssl : List Arrival → List Connection
  do_accept_ssl [] = []
  do_accept_ssl (accept_throws ∷ rest) = []
  do_accept_ssl (stopped ∷ rest) = []
  do_accept_ssl (arrived s ∷ rest) =
      let later = do_accept_ssl rest in
      if not s.is_open then later else connect true s (some (s.early ++ s.late)) later
