-- ===== src/Lib.antt =====
-- A chat program with file transfer: a server (a_cat/server) and a client (a_cat/client) that
-- exchange one struct, `Msg`, whole over TCP. The server's main loop hands each accepted
-- connection to a thread pool; the task `thread_read` reads messages from the connection and acts
-- on a list of users online, a SQLite database, a table of transfer ids and a table of sockets
-- waiting for file blocks. A client sends a file as blocks over connections of their own, the
-- server relays each block to a connection of the receiver, and the receiver's threads write the
-- blocks into a mapped file.
--
-- The files:
--   Common.antt and Common/: names of the libraries passed on, arrays as lists with native
--     indices, sums over lists, `Option` as the result of code that may do something undefined.
--   Memory.antt, Memory/Laws.antt: C strings in byte arrays, with `my_strcmp` of
--     a_cat/server/work/work.c. A read or write past an array is `none`.
--   Message.antt: `Msg` of a_cat/server/include/server_w.h and a_cat/client/include/work.h.
--     Message/Wire.antt: its bytes, and what the loops of the two `thread_read` read from a
--     stream of them; Message/Wire/Layout.antt and Message/Wire/Stream.antt: that messages
--     arrive.
--   Pool.antt: `struct ThreadPool` and what threadPoolCreate, threadPoolAdd, threadPoolBusyNum,
--     threadPoolAliveNum, worker, manager and threadExit do under one lock
--     (a_cat/server/pthreadpool/pthreadpool.c). Pool/Valid.antt is the representation invariant.
--     Pool/System.antt interleaves workers, manager, adders and threadPoolDestroy as a list of
--     events; behind an access to the freed pool, which the field use_after_free marks, a state
--     has no meaning. Its children hold the counters, the queue, the slots of thread ids,
--     shutdown, the tasks that are still called behind it (Pool/System/Calls.antt), a call of
--     threadPoolDestroy up to the freeing of the pool (Pool/System/Destroy.antt), tasks that end
--     their thread, what holds while the pool is open, how one worker serves the queue
--     (Pool/System/Serve.antt), and that it does so whatever the other threads do
--     (Pool/System/Fair.antt).
--   Server/Main.antt: the loop of `main` of a_cat/server/main/server.c, as one more thread beside
--     those of its pool; Server/Main/Order.antt and Server/Main/Stall.antt: its connections in
--     the pool's queue.
--   Server/Online.antt: the list `head`; Server/Online/Laws.antt relates it to a directory that
--     gives each name the stack of its sessions and forgets the order between names.
--     Server/Online/Heap.antt: the same list as `struct online` nodes in memory, with the loops
--     that walk, link, unlink and free them; its children hold when memory holds a list, the
--     unlinking, how many users there can be, that the nodes behave as the list of values, and
--     two threads at once.
--   Server/Accounts.antt: the queries; Server/Texts.antt: the texts of cases 6 and 9;
--     Server/State.antt: the shared state and the outcomes of a message; Server/Handler.antt:
--     `thread_read`, one function for each case; its children hold its theorems
--     (a_cat/server/work/work.c). Server/Handler/Directory.antt is the abstract view of the users
--     online: requests to a directory; its children hold the refinement and the requests that are
--     never undefined. Server/Handler/FileIds.antt and its children follow the ids of file
--     transfers from one message to a whole run; Server/Handler/SayLoop.antt runs the loop of
--     case 4.
--   Server/Rendezvous.antt: the searches of cases 5 and -5 in `find_cfd`, as a step relation;
--     Server/Relay.antt: `send_file` of the server; Server/Files.antt: `createfile` of the
--     server.
--   Client/Blocks.antt: how `send_file` of a_cat/client/work/work.c cuts a file;
--     Client/Sender.antt: `send_filedata`; Client/Receiver.antt: `recv_file`; Client/Copy.antt: a
--     transfer from end to end, through the server's relay.
--   Client/Screens.antt: `main` of a_cat/client/main/client.c with the dialogs and the
--     `thread_read` of a_cat/client/work/work.c, as one machine over typed words, messages that
--     come in and spurious returns of the wait in `send_file`; its children hold its theorems,
--     Client/Screens/Login.antt that of a login from end to end, and Client/Screens/Leave.antt
--     that of a login and a logout. Client/Manager.antt: `log_manager` and `all_manager`; its
--     children follow them to the server. Client/Printing.antt: what `thread_read` of the client
--     prints, with the files of cases 6 and 9; its children put it behind the server's answers.
--   Client/Handover.antt: how `thread_read` of the client hands block messages to the threads of
--     `recv_file`, as an interleaving of the reader and the threads; its children hold the states
--     it goes through and their order.
--   Sockets.antt: `Create_sock` of both sides, `server_file`, `client_file` and `Create_UDP`;
--     Sockets/Reach.antt: that they meet. Clock.antt: `get_time` and `LOG_PrintLogTime`;
--     Clock/Fits.antt: their lengths; Clock/Digits.antt: what the digits are worth.
--   Log.antt: a_cat/server/log/log.c and the macro LOG_INFO of a_cat/server/include/log.h, with
--     the start of `main` of a_cat/server/main/server.c. Log/Disk.antt: its files on a disk that
--     answers `access`, `stat` and `ftell`; Log/Disk/Put.antt and Log/Disk/Bounds.antt: how large
--     they get.
--
-- The correspondence: a struct is a record with the source's fields, an enumeration or a program
-- counter a data type. Functions keep their names in snake case, the cases of `thread_read` are
-- `handle_…`. What malloc, pthread, SQLite, recv and the file system answer is an argument, or a
-- record of functions with their documented behaviour (Sqlite, Recv, Net, Calls with Manual).
-- `none` stands for undefined behaviour of C.
--
-- Bounds and fuel: the digits of a number have the number itself as fuel (Clock/Digits.antt shows
-- that it is enough), and the loop of `server_file`, which never ends, a number of rounds; the
-- relay's loop runs on fuel, one round for each byte of a block and one more; running out is the
-- result `spinning`, and with that fuel a block whose bytes come is relayed; the loop of case 4
-- ends in its first round or never, with any fuel; the loops over the nodes in memory run on
-- fuel, one more than there can be users. The client's loop over a stream has a number of rounds
-- as fuel, one more than there are messages. The other loops are recursions on lists or counts.
-- Block sizes and array sizes are those of the source (500, 100, 20, 1024). Sizes and offsets of
-- messages are natural numbers: the source's `int` is taken not to overflow, which holds for
-- files below 2 GB; Message/Wire.antt has the 32 and 64 bits of the struct's fields.
--
-- What is not modelled: the condition variables of the pool, whose orders the interleavings
-- cover; the lines that the server prints and the menus of the client; a word that is not a
-- number at a menu of the client. In the handlers the list of users is changed by one message at
-- a time, though the code takes no lock for it; Server/Online/Heap/Races.antt has two threads at
-- it at once.
mod Common
pub mod Memory
pub mod Message
pub mod Log
pub mod Pool
pub mod Server
pub mod Client
pub mod Sockets
pub mod Clock
