-- ===== src/Client/Handover/Phases.antt =====
-- The states that the hand-over of block messages goes through (`thread_read` and `recv_file` of
-- a_cat/client/work/work.c).
use linux_cat.Common.{
  ℕ, zero, suc, ◌≡◌, ◌≢◌, ◌⊎◌, inl, inr, refl, sym, map-append, ℕ_discrete, ap, ◌∙◌, List, [], ◌∷◌,
  ◌++◌, map, Option, none, some, ◌==◌, if◌then◌else◌, get_elem?, set, length, arith, true, false,
}
use linux_cat.Message.{Msg}
use linux_cat.Client.Handover.{
  Reader, reading, claims, copies, posts, creates, Receiver, waits, takes, leaves, runs, Handover,
  reader_turn, receiver_turn, thread_turn, Turn, reader_goes, thread_goes, turn_of,
}

-- Where the variable is: free, with what it holds; claimed by the reader; filled; announced by
-- `sem_post`; with a thread that waits, that copies, or that leaves. A reader at `recv` or behind it
-- holds the message that it has got.
pub data Phase : Type 0 where
  free : Option Msg → Option Msg → Phase
  claimed : Option Msg → Msg → Phase
  filled : Msg → Phase
  announced : Msg → Phase
  awaited : Option Msg → Msg → Phase
  taken : Option Msg → Msg → Phase
  left_behind : Option Msg → Msg → Phase

-- A phase, the messages of the threads that are past the hand-over, and those still to come.
pub record View : Type 0 where
  pub phase : Phase
  pub handed : List Msg
  pub rest : List Msg

abbrev pub reader_of : Option Msg → Reader
reader_of none = reading
reader_of (some m) = claims m

abbrev pub behind : List Msg → Receiver → List Receiver
behind ms t = map runs ms ++ (t ∷ [])

abbrev pub state : List Msg → Reader → ℕ → ℕ → Option Msg → List Receiver → Handover
state rest r a b o ts = record {
  left = rest;
  reader = r;
  sem0 = a;
  sem1 = b;
  omsg = o;
  threads = ts;
}

abbrev pub shape : Phase → List Msg → List Msg → Handover
shape (free held o) ms rest = state rest (reader_of held) 1 0 o (map runs ms)
shape (claimed o m) ms rest = state rest (copies m) 0 0 o (map runs ms)
shape (filled m) ms rest = state rest posts 0 0 (some m) (map runs ms)
shape (announced m) ms rest = state rest creates 0 1 (some m) (map runs ms)
shape (awaited held m) ms rest = state rest (reader_of held) 0 1 (some m) (behind ms waits)
shape (taken held m) ms rest = state rest (reader_of held) 0 0 (some m) (behind ms takes)
shape (left_behind held m) ms rest = state rest (reader_of held) 0 0 (some m) (behind ms (leaves m))

abbrev pub concrete : View → Handover
concrete v = shape v.phase v.handed v.rest

abbrev pub view_of : Phase → List Msg → List Msg → View
view_of p ms rest = record { phase = p; handed = ms; rest = rest }

-- The reader goes on.
abbrev pub reads : Phase → List Msg → List Msg → View
reads (free none o) ms [] = view_of (free none o) ms []
reads (free none o) ms (m ∷ rest) = view_of (free (some m) o) ms rest
reads (free (some m) o) ms rest = view_of (claimed o m) ms rest
reads (claimed o m) ms rest = view_of (filled m) ms rest
reads (filled m) ms rest = view_of (announced m) ms rest
reads (announced m) ms rest = view_of (awaited none m) ms rest
reads (awaited none m) ms [] = view_of (awaited none m) ms []
reads (awaited none m) ms (x ∷ rest) = view_of (awaited (some x) m) ms rest
reads (awaited (some x) m) ms rest = view_of (awaited (some x) m) ms rest
reads (taken none m) ms [] = view_of (taken none m) ms []
reads (taken none m) ms (x ∷ rest) = view_of (taken (some x) m) ms rest
reads (taken (some x) m) ms rest = view_of (taken (some x) m) ms rest
reads (left_behind none m) ms [] = view_of (left_behind none m) ms []
reads (left_behind none m) ms (x ∷ rest) = view_of (left_behind (some x) m) ms rest
reads (left_behind (some x) m) ms rest = view_of (left_behind (some x) m) ms rest

-- The newest thread goes on.
abbrev pub receives : Phase → List Msg → List Msg → View
receives (awaited held m) ms rest = view_of (taken held m) ms rest
receives (taken held m) ms rest = view_of (left_behind held m) ms rest
receives (left_behind held m) ms rest = view_of (free held (some m)) (ms ++ (m ∷ [])) rest
receives p ms rest = view_of p ms rest

abbrev pub advance : View → Turn → View
advance v reader_goes = reads v.phase v.handed v.rest
advance v (thread_goes i) = if i == length v.handed then receives v.phase v.handed v.rest else v

pub reads-concrete :
    (p : Phase) (ms rest : List Msg)
    → turn_of (shape p ms rest) reader_goes ≡ some (concrete (reads p ms rest))
unfolding turn_of reader_turn
reads-concrete (free none o) ms [] = refl
reads-concrete (free none o) ms (m ∷ rest) = refl
reads-concrete (free (some m) o) ms rest = refl
reads-concrete (claimed o m) ms rest = refl
reads-concrete (filled m) ms rest = refl
reads-concrete (announced m) ms rest = refl
reads-concrete (awaited none m) ms [] = refl
reads-concrete (awaited none m) ms (x ∷ rest) = refl
reads-concrete (awaited (some x) m) ms rest = refl
reads-concrete (taken none m) ms [] = refl
reads-concrete (taken none m) ms (x ∷ rest) = refl
reads-concrete (taken (some x) m) ms rest = refl
reads-concrete (left_behind none m) ms [] = refl
reads-concrete (left_behind none m) ms (x ∷ rest) = refl
reads-concrete (left_behind (some x) m) ms rest = refl

get_elem?-behind : (ms : List Msg) (t : Receiver) → get_elem? (behind ms t) (length ms) ≡ some t
get_elem?-behind [] t = refl
get_elem?-behind (m ∷ ms) t = get_elem?-behind ms t

set-behind : (ms : List Msg) (t u : Receiver) → set (behind ms t) (length ms) u ≡ behind ms u
set-behind [] t u = refl
set-behind (m ∷ ms) t u = ap (λ l. runs m ∷ l) (set-behind ms t u)

-- A thread that is past the hand-over, or none.
abbrev IsPast : Option Receiver → Type 0
IsPast t = (t ≡ none) ⊎ ((m : Msg) × (t ≡ some (runs m)))

get_elem?-runs-IsPast : (ms : List Msg) (i : ℕ) → IsPast (get_elem? (map runs ms) i)
get_elem?-runs-IsPast [] i = inl refl
get_elem?-runs-IsPast (m ∷ ms) zero = inr (m, refl)
get_elem?-runs-IsPast (m ∷ ms) (suc i) = get_elem?-runs-IsPast ms i

get_elem?-behind-IsPast :
    (ms : List Msg) (t : Receiver) (i : ℕ) → i ≢ length ms → IsPast (get_elem? (behind ms t) i)
get_elem?-behind-IsPast [] t zero h = absurd (h refl)
get_elem?-behind-IsPast [] t (suc i) h = inl refl
get_elem?-behind-IsPast (m ∷ ms) t zero h = inr (m, refl)
get_elem?-behind-IsPast (m ∷ ms) t (suc i) h = get_elem?-behind-IsPast ms t i (λ e. h (ap suc e))

-- Such a thread has no part in the hand-over.
past_stays :
    (s : Handover) (i : ℕ) → IsPast (get_elem? s.threads i) → turn_of s (thread_goes i) ≡ some s
unfolding turn_of thread_turn receiver_turn
past_stays s i (inl e) = rw e refl
past_stays s i (inr (m, e)) = rw e refl

newest_goes :
    (s : Handover) (ms : List Msg) (t : Receiver)
    → s.threads ≡ behind ms t
    → turn_of s (thread_goes (length ms)) ≡ receiver_turn s (length ms) t
unfolding turn_of thread_turn
newest_goes s ms t e = rw (e, get_elem?-behind ms t) refl

other_stays :
    (p : Phase) (ms rest : List Msg) (i : ℕ)
    → i ≢ length ms
    → turn_of (shape p ms rest) (thread_goes i) ≡ some (shape p ms rest)
other_stays (free held o) ms rest i h = past_stays _ i (get_elem?-runs-IsPast ms i)
other_stays (claimed o m) ms rest i h = past_stays _ i (get_elem?-runs-IsPast ms i)
other_stays (filled m) ms rest i h = past_stays _ i (get_elem?-runs-IsPast ms i)
other_stays (announced m) ms rest i h = past_stays _ i (get_elem?-runs-IsPast ms i)
other_stays (awaited held m) ms rest i h = past_stays _ i (get_elem?-behind-IsPast ms waits i h)
other_stays (taken held m) ms rest i h = past_stays _ i (get_elem?-behind-IsPast ms takes i h)
other_stays (left_behind held m) ms rest i h =
    past_stays _ i (get_elem?-behind-IsPast ms (leaves m) i h)

pub receives-concrete :
    (p : Phase) (ms rest : List Msg)
    → turn_of (shape p ms rest) (thread_goes (length ms)) ≡ some (concrete (receives p ms rest))
unfolding receiver_turn
receives-concrete (free held o) ms rest =
    past_stays _ (length ms) (get_elem?-runs-IsPast ms (length ms))
receives-concrete (claimed o m) ms rest =
    past_stays _ (length ms) (get_elem?-runs-IsPast ms (length ms))
receives-concrete (filled m) ms rest =
    past_stays _ (length ms) (get_elem?-runs-IsPast ms (length ms))
receives-concrete (announced m) ms rest =
    past_stays _ (length ms) (get_elem?-runs-IsPast ms (length ms))
receives-concrete (awaited held m) ms rest =
    newest_goes _ ms waits refl
    ∙ ap (λ l. some (state rest (reader_of held) 0 0 (some m) l)) (set-behind ms waits takes)
receives-concrete (taken held m) ms rest =
    newest_goes _ ms takes refl
    ∙ ap (λ l. some (state rest (reader_of held) 0 0 (some m) l)) (set-behind ms takes (leaves m))
receives-concrete (left_behind held m) ms rest =
    newest_goes _ ms (leaves m) refl
    ∙ ap (λ l. some (state rest (reader_of held) 1 0 (some m) l))
        (set-behind ms (leaves m) (runs m) ∙ sym (map-append runs ms (m ∷ [])))

-- A turn of the code is a turn on the phases.
pub turn_of-concrete :
    (v : View) (t : Turn) → turn_of (concrete v) t ≡ some (concrete (advance v t))
turn_of-concrete v reader_goes = reads-concrete v.phase v.handed v.rest
turn_of-concrete v (thread_goes i) = elim (ℕ_discrete i (length v.handed)) [
  | yes same ↦
      let hit : (i == length v.handed) ≡ true = ground (arith, same) in
      rw (hit, same) (receives-concrete v.phase v.handed v.rest)
  | no other ↦
      let miss : (i == length v.handed) ≡ false = ground (arith, other) in
      rw miss (other_stays v.phase v.handed v.rest i other)
]
