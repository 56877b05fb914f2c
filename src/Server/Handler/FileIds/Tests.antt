-- ===== src/Server/Handler/FileIds/Tests.antt =====
-- A run of the server that takes its last ids.
use linux_cat.Common.{
  ℕ, suc, ◌-◌, ◌+◌, ◌≡◌, refl, ℤ, pos, negsuc, List, [], ◌∷◌, ◌++◌, some, none, length, replicate,
  codes,
}
use linux_cat.Memory.{c_text, str_eq, bytes_eq}
use linux_cat.Message.{Msg, zeroed}
use linux_cat.Server.Online.{Write, find_fd}
use linux_cat.Server.Online.Laws.{AreNamed, sessions, top_fd}
use linux_cat.Server.Accounts.{Sqlite}
use linux_cat.Server.State.{Server, Received, closed, got, request_of, take_id}
use linux_cat.Server.Handler.{handle_request, handle_file_to, serve}
use linux_cat.Server.Handler.Directory.Runs.{Said, server_run}
use linux_cat.Server.Handler.FileIds.{table}
use linux_cat.Server.Handler.FileIds.Offered.{offered, ids}
use linux_cat.Server.Handler.FileIds.Runs.{grant, ids_over_run}

abbrev counting : Sqlite
counting = record { Db = ℕ; exec = λ db query. (suc db, []) }

abbrev array : List ℕ → List ℕ
array t = t ++ replicate (20 - length t) 0

-- Ann sends a file to Bob.
abbrev parcel : ℤ → Msg
parcel action = record zeroed {
  action = action;
  name = array (codes "ann");
  toname = array (codes "bob");
}

abbrev server : ℕ → ℕ → Server ℕ
server k n = record {
  head = record { cfd = 5; say = 0; name = array (codes "bob") } ∷ [];
  addr = table k n;
  db = 0;
}

abbrev said : Received → Said
said what = record {
  who = 4;
  junk = [];
  what = what;
  words = record { name = codes "ann"; toname = codes "bob"; text = [] };
}

-- Two files, and between them the end of another connection.
abbrev events : List Said
events = said (got (parcel (pos 3))) ∷ said closed ∷ said (got (parcel (pos 3))) ∷ []

abbrev reply_of : ℤ → ℕ → Msg
reply_of action i = record (parcel action) { sfile_id = i }

abbrev written : List Write
written =
    record { to = 4; msg = reply_of (pos 3) 98 }
    ∷ record { to = 5; msg = reply_of (negsuc 2) 98 }
    ∷ record { to = 4; msg = reply_of (pos 3) 99 }
    ∷ record { to = 5; msg = reply_of (negsuc 2) 99 }
    ∷ []

users-AreNamed : AreNamed (server 98 2).head
unfolding c_text
users-AreNamed = ((codes "bob", refl), tt)

events_run : server_run counting (server 98 2) events ≡ some (server 100 0, written)
unfolding serve handle_request request_of handle_file_to c_text str_eq bytes_eq take_id find_fd
events_run = refl

to_bob : c_text (parcel (pos 3)).toname ≡ some (codes "bob")
unfolding c_text
to_bob = refl

top_bob : top_fd (sessions (codes "bob") (server 100 0).head) ≡ some 5
unfolding sessions c_text bytes_eq
top_bob = refl

ids_over_run_example :
    (j : ℕ) × (r : ℕ) × (j + r ≡ 2)
    × (offered written ≡ ids 98 j)
    × (handle_file_to counting (server 100 0) 4 (parcel (pos 3))
        ≡ grant {Db = ℕ} (server 100 0) 4 5 (parcel (pos 3)) (j + 98) r)
ids_over_run_example =
    ids_over_run counting (server 98 2) events 98 2 4 5 (parcel (pos 3)) refl users-AreNamed
      events_run to_bob top_bob

-- The next request reads past the array.
past_the_array : handle_file_to counting (server 100 0) 4 (parcel (pos 3)) ≡ none
unfolding handle_file_to c_text str_eq bytes_eq take_id find_fd
past_the_array = refl
