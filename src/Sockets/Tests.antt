-- ===== src/Sockets/Tests.antt =====
-- The sockets of both sides in a small network.
use linux_cat.Common.{
  ℕ, suc, ◌≡◌, refl, Bool, true, false, List, [], ◌∷◌, Option, none, some, ◌==◌, ◌||◌,
  if◌then◌else◌, arith,
}
use linux_cat.Sockets.{
  Calls, returned, after_listen, after_bind, after_socket, create_listener, file_listener,
  after_connect, connect_to, create_sock, client_file,
}
use linux_cat.Sockets.Reach.{Manual, Meets, sockets_meet}

-- The next number of a socket, the ports that sockets are bound to, those that someone listens to, and
-- those that sockets are joined to.
record Local : Type 0 where
  next : ℕ
  bound : List (ℕ × ℕ)
  open_ports : List ℕ
  joined : List (ℕ × ℕ)

abbrev find : ℕ → List (ℕ × ℕ) → Option ℕ
find fd [] = none
find fd ((i, port) ∷ ps) = if fd == i then some port else find fd ps

abbrev member : ℕ → List ℕ → Bool
member port [] = false
member port (p ∷ ps) = port == p || member port ps

abbrev listen_at : Local → Option ℕ → Local × Bool
listen_at n none = (n, false)
listen_at n (some port) = (record n { open_ports = port ∷ n.open_ports }, true)

abbrev local_calls : Calls
local_calls = record {
  Net = Local;
  socket = λ n. (record n { next = suc n.next }, some n.next);
  set_reuse = λ n fd. n;
  bind = λ n fd port. (record n { bound = (fd, port) ∷ n.bound }, true);
  listen = λ n fd backlog. listen_at n (find fd n.bound);
  connect = λ n fd port. (record n { joined = (fd, port) ∷ n.joined }, member port n.open_ports);
  accept = λ n fd. (record n { next = suc n.next }, some n.next);
}

found : (fd port : ℕ) (ps : List (ℕ × ℕ)) → find fd ((fd, port) ∷ ps) ≡ some port
found fd port ps = ground arith

abbrev local_manual : Manual local_calls
local_manual = record {
  Bound = λ n fd port. find fd n.bound ≡ some port;
  Listening = λ n port. member port n.open_ports ≡ true;
  Joined = λ n fd port. find fd n.joined ≡ some port;
  binds = λ n fd port h. found fd port n.bound;
  listens = λ n fd port backlog b h. rw b (ground arith);
  goes_on = λ n port h. h;
  joins = λ n fd port h. (h, found fd port n.joined);
}

abbrev quiet : Local
quiet = record { next = 3; bound = []; open_ports = []; joined = [] }

local_sockets_meet :
    Meets local_calls local_manual 5556
      (create_listener local_calls quiet)
      (create_sock local_calls)
    × Meets local_calls local_manual 5858
        (file_listener local_calls quiet)
        (client_file local_calls 5858)
local_sockets_meet = sockets_meet local_calls local_manual quiet

-- Both sides open their sockets.
listens_then_joins :
    (n : Local) × (create_listener local_calls quiet ≡ returned n 3)
    × ((n' : Local) × (create_sock local_calls n ≡ returned n' 4))
unfolding create_listener after_socket after_bind after_listen create_sock connect_to after_connect
listens_then_joins = (_, refl, (_, refl))
