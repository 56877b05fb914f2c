-- ===== src/Sockets.antt =====
-- The sockets that both sides open: `Create_sock` and `server_file` of a_cat/server/work/work.c,
-- `Create_sock`, `Create_UDP` and `client_file` of a_cat/client/work/work.c. All addresses are
-- 127.0.0.1, so a port names one. What the system calls do is a parameter.
pub mod Reach
mod Tests
use linux_cat.Common.{ℕ, zero, suc, Bool, true, false, List, [], ◌∷◌, Option, none, some}

-- The calls, each with the state of the network. `none` and `false` stand for a negative result.
pub record Calls : Type 1 where
  pub Net : Type 0
  pub socket : Net → Net × Option ℕ
  pub set_reuse : Net → ℕ → Net
  pub bind : Net → ℕ → ℕ → Net × Bool
  pub listen : Net → ℕ → ℕ → Net × Bool
  pub connect : Net → ℕ → ℕ → Net × Bool
  pub accept : Net → ℕ → Net × Option ℕ

-- A function returns a socket, or calls `exit(1)`.
pub data Opened (Net : Type 0) : Type 0 where
  returned : Net → ℕ → Opened Net
  exited : Net → Opened Net

-- What `server_file` comes to in some rounds: it accepts, with the connections that it has got, or
-- has called `exit(1)`. It does not close or keep them.
pub data Accepting (Net : Type 0) : Type 0 where
  accepting : Net → List ℕ → Accepting Net
  stopped : Net → Accepting Net

module _ (c : Calls) where
  open c use {Net, socket, set_reuse, bind, listen, connect, accept}

  pub after_listen : ℕ → Net × Bool → Opened Net
  after_listen fd (n, false) = exited n
  after_listen fd (n, true) = returned n fd

  pub after_bind : ℕ → ℕ → Net × Bool → Opened Net
  after_bind fd backlog (n, false) = exited n
  after_bind fd backlog (n, true) = after_listen fd (listen n fd backlog)

  pub after_socket : ℕ → ℕ → Net × Option ℕ → Opened Net
  after_socket port backlog (n, none) = exited n
  after_socket port backlog (n, some fd) = after_bind fd backlog (bind (set_reuse n fd) fd port)

  -- `Create_sock` of the server
  pub create_listener : Net → Opened Net
  create_listener n = after_socket 5556 2000 (socket n)

  -- The loop of `server_file`
  pub accept_rounds : ℕ → List ℕ → ℕ → Net → Accepting Net
  accept_rounds zero got fd n = accepting n got
  accept_rounds (suc rounds) got fd n =
      let r = accept n fd in
      elim (r.1) [ none ↦ stopped r.0 | some cfd ↦ accept_rounds rounds (cfd ∷ got) fd r.0 ]

  pub serve_files : ℕ → Opened Net → Accepting Net
  serve_files rounds (exited n) = stopped n
  serve_files rounds (returned n fd) = accept_rounds rounds [] fd n

  -- `server_file` up to its loop
  pub file_listener : Net → Opened Net
  file_listener n = after_socket 5858 20 (socket n)

  -- `server_file`
  pub server_file : ℕ → Net → Accepting Net
  server_file rounds n = serve_files rounds (file_listener n)

  pub after_connect : ℕ → Net × Bool → Opened Net
  after_connect fd (n, false) = exited n
  after_connect fd (n, true) = returned n fd

  pub connect_to : ℕ → Net × Option ℕ → Opened Net
  connect_to port (n, none) = exited n
  connect_to port (n, some fd) = after_connect fd (connect n fd port)

  -- `Create_sock` of the client
  pub create_sock : Net → Opened Net
  create_sock n = connect_to 5556 (socket n)

  -- `client_file`, which returns nothing: the socket stays open, and no one knows its number.
  pub client_file : ℕ → Net → Opened Net
  client_file port n = connect_to port (socket n)

  -- `Create_UDP`: it tests no result, and `none` is the number -1.
  pub create_udp : ℕ → Net → Net × Option ℕ
  create_udp port n =
      let r = socket n in
      elim (r.1) [ none ↦ (r.0, none) | some fd ↦ ((bind r.0 fd port).0, some fd) ]
