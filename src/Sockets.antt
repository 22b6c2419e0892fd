-- ===== src/Sockets.antt =====
-- quick_socket.cpp and temp_name.cpp: the server's socket, its client's, and the server's file name.
pub mod Calls
use dr_shadow_stack.Base.{
  ℕ, Bool, true, false, not, Option, none, some, List, [], ◌∷◌, ◌++◌, codes, replicate, length, ltb,
  ◌==◌, if◌then◌else◌,
}
use dr_shadow_stack.Text.{Arg, text, bytes, number}
use dr_shadow_stack.Platform.{
  Platform, World, M, socket, bind, listen, connect, accept, syscall, pure, undefined, ◌>>=◌, ◌>>◌,
}
use dr_shadow_stack.Runtime.{assert, err, log}
use dr_shadow_stack.Group.{failed, value_of, handle_signal}

-- The size of `sun_path` on Linux, with the terminating NUL.
abbrev pub sun_path_size : ℕ
sun_path_size = 108

-- A result `== 0`.
abbrev pub is_zero : Option ℕ → Bool
is_zero none = false
is_zero (some r) = r == 0

-- strcpy into `sun_path`: a longer name is written past its end.
unfoldable pub make_unix_server : List ℕ → M (List ℕ)
make_unix_server fname = if ltb (length fname) sun_path_size then pure fname else (λ w. undefined w)

abbrev pub sigabrt : ℕ
sigabrt = 6

module _ (p : Platform) where
  unfoldable pub create_server : List ℕ → M ℕ
  unfolding make_unix_server
  create_server fname = do
    server_sock ← syscall p socket
    assert p (not (failed server_sock)) (some (text "socket() failed" ∷ []))
    server ← make_unix_server fname
    rv ← syscall p (bind (value_of server_sock) server)
    assert p (not (failed rv)) (some (text "bind() failed" ∷ []))
    r ← syscall p (listen (value_of server_sock) 1)
    assert p (not (failed r)) (some (text "listen() failed." ∷ []))
    log p (text "Created server " ∷ bytes fname ∷ text "\n\t- Listening for one client..." ∷ [])
    pure (value_of server_sock)

  unfoldable pub create_client : List ℕ → M ℕ
  unfolding make_unix_server
  create_client sock_name = do
    client ← syscall p socket
    assert p (not (failed client)) (some (text "socket() failed" ∷ []))
    server ← make_unix_server sock_name
    r ← syscall p (connect (value_of client) server)
    assert p (is_zero r) (some (text "connect() failed" ∷ []))
    log p (text "New client connected to " ∷ bytes sock_name ∷ [])
    pure (value_of client)

  unfoldable pub accept_client : ℕ → M ℕ
  accept_client sock = do
    accepted_sock ← syscall p (accept sock)
    assert p (not (failed accepted_sock)) (some (text "accept() failed" ∷ []))
    log p (text "Server on fd " ∷ number sock ∷ text " accepted one client" ∷ [])
    pure (value_of accepted_sock)

  -- The path that is handed to boost, and the name that it makes of it.
  abbrev pub model : List ℕ
  model = p.temp_directory ++ codes "/" ++ replicate 50 b'%'

  -- The try block's result, and what the handler of its exceptions does.
  unfoldable pub name_or_err : Option (List ℕ) → M (List ℕ)
  name_or_err (some ret) = pure ret
  name_or_err none = do err p (some (text "boost::filesystem::unique_path() failed." ∷ [])); pure []

  -- The exception of temp_directory_path is caught by nobody. The program calls temp_name after
  -- Group::setup, so that the SIGABRT of the abort goes to Group's handler.
  unfoldable pub temp_name : M (List ℕ)
  unfolding name_or_err
  temp_name =
      if p.has_temp_directory
      then name_or_err (p.unique_path model)
      else (do handle_signal p sigabrt; pure [])
