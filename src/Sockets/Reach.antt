-- ===== src/Sockets/Reach.antt =====
-- That the sockets of both sides meet (a_cat/server/work/work.c and a_cat/client/work/work.c).
use linux_cat.Common.{
  ℕ, ◌≡◌, ◌⊎◌, inl, inr, refl, ap, subst, Bool, true, false, Option, none, some, arith,
}
use linux_cat.Sockets.{
  Calls, Opened, returned, exited, after_listen, after_bind, after_socket, create_listener,
  file_listener, after_connect, connect_to, create_sock, client_file,
}

-- What the manual says of calls that succeed, as long as no queue of connections is full: a socket has
-- the port that it has been bound to, listens there, goes on to when others open a socket, and lets
-- a socket connect to that port.
pub record Manual (c : Calls) : Type 1 where
  pub Bound : c.Net → ℕ → ℕ → Type 0
  pub Listening : c.Net → ℕ → Type 0
  pub Joined : c.Net → ℕ → ℕ → Type 0
  pub binds :
      (n : c.Net) (fd port : ℕ) → (c.bind n fd port).1 ≡ true → Bound (c.bind n fd port).0 fd port
  pub listens :
      (n : c.Net) (fd port backlog : ℕ)
      → Bound n fd port
      → (c.listen n fd backlog).1 ≡ true
      → Listening (c.listen n fd backlog).0 port
  pub goes_on : (n : c.Net) (port : ℕ) → Listening n port → Listening (c.socket n).0 port
  pub joins :
      (n : c.Net) (fd port : ℕ)
      → Listening n port
      → ((c.connect n fd port).1 ≡ true) × Joined (c.connect n fd port).0 fd port

module _ (c : Calls) (w : Manual c) where
  -- A client's socket is joined to the port, unless there is no socket to be had.
  abbrev pub Joins : ℕ → c.Net → Opened c.Net → Type 0
  Joins port n out =
      ((n' : c.Net) × (out ≡ exited n') × ((c.socket n).1 ≡ none))
      ⊎ ((n' : c.Net) × (fd : ℕ) × (out ≡ returned n' fd) × w.Joined n' fd port)

  -- The server's side ends its process, or listens at the port, and then the client's side joins it.
  abbrev pub Meets : ℕ → Opened c.Net → (c.Net → Opened c.Net) → Type 0
  Meets port served client =
      ((n : c.Net) × (served ≡ exited n))
      ⊎ ((n : c.Net) × (fd : ℕ) × (served ≡ returned n fd)
          × w.Listening n port
          × Joins port n (client n))

  after_connect-true :
      (fd : ℕ) (r : c.Net × Bool) → r.1 ≡ true → after_connect c fd r ≡ returned r.0 fd
  unfolding after_connect
  after_connect-true fd (n, true) h = refl
  after_connect-true fd (n, false) h = ground (arith, h)

  connect_to-Joins :
      (port : ℕ) (n : c.Net) → w.Listening n port → Joins port n (connect_to c port (c.socket n))
  unfolding connect_to
  connect_to-Joins port n h = joined (c.socket n) refl
    where
      joined : (r : c.Net × Option ℕ) → c.socket n ≡ r → Joins port n (connect_to c port r)
      joined (n', none) e = inl (n', refl, ap (λ r. r.1) e)
      joined (n', some fd) e =
          let heard : w.Listening n' port =
            subst (λ r. w.Listening r.0 port) e (w.goes_on n port h) in
          let (ok, there) = w.joins n' fd port heard in
          inr ((c.connect n' fd port).0, fd, after_connect-true fd (c.connect n' fd port) ok, there)

  -- What `bind` and `listen` come to.
  after_bind-Listening :
      (fd port backlog : ℕ) (r : c.Net × Bool)
      → (r.1 ≡ true → w.Bound r.0 fd port)
      → ((n : c.Net) × (after_bind c fd backlog r ≡ exited n))
        ⊎ ((n : c.Net) × (after_bind c fd backlog r ≡ returned n fd) × w.Listening n port)
  unfolding after_bind after_listen
  after_bind-Listening fd port backlog (n, false) h = inl (n, refl)
  after_bind-Listening fd port backlog (n, true) h =
      listened (c.listen n fd backlog) (w.listens n fd port backlog (h refl))
    where
      listened :
          (r : c.Net × Bool)
          → (r.1 ≡ true → w.Listening r.0 port)
          → ((n' : c.Net) × (after_listen c fd r ≡ exited n'))
            ⊎ ((n' : c.Net) × (after_listen c fd r ≡ returned n' fd) × w.Listening n' port)
      listened (n', false) k = inl (n', refl)
      listened (n', true) k = inr (n', refl, k refl)

  after_socket-Meets :
      (port backlog : ℕ) (r : c.Net × Option ℕ) (client : c.Net → Opened c.Net)
      → ((n : c.Net) → w.Listening n port → Joins port n (client n))
      → Meets port (after_socket c port backlog r) client
  unfolding after_socket
  after_socket-Meets port backlog (n, none) client joined = inl (n, refl)
  after_socket-Meets port backlog (n, some fd) client joined =
      let bound = w.binds (c.set_reuse n fd) fd port in
      elim (after_bind-Listening fd port backlog (c.bind (c.set_reuse n fd) fd port) bound) [
        | inl (n', e) ↦ inl (n', e)
        | inr (n', e, heard) ↦ inr (n', fd, e, heard, joined n' heard)
      ]

  -- Whatever the calls answer: the server's `Create_sock` ends the process, or returns a socket that
  -- listens at a port, to which the client's `Create_sock` then joins the socket that it returns, or
  -- ends for want of a socket. The same holds of `server_file`, before its loop, and of `client_file`
  -- when it is given the port 5858.
  pub sockets_meet :
      (n : c.Net)
      → Meets 5556 (create_listener c n) (create_sock c)
        × Meets 5858 (file_listener c n) (client_file c 5858)
  unfolding create_listener file_listener create_sock client_file
  sockets_meet n = (
    after_socket-Meets 5556 2000 (c.socket n) (create_sock c) (connect_to-Joins 5556),
    after_socket-Meets 5858 20 (c.socket n) (client_file c 5858) (connect_to-Joins 5858),
  )
