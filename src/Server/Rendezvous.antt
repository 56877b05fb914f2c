-- ===== src/Server/Rendezvous.antt =====
-- The table `find_cfd` of a_cat/server/work/work.c: the thread of a receiver's socket (case -5) puts
-- the socket there, and the thread of a sender's block (case 5) takes it out. Each thread goes round
-- the first ten places, one place under the lock at a time.
mod Tests
use linux_cat.Common.{
  ℕ, zero, suc, ◌+◌, ◌-◌, ◌*◌, ◌%◌, ◌≤◌, ◌<◌, ◌≡◌, ◌≢◌, refl, sym, ◌∙◌, ap, Bool, true, false, ◌&&◌,
  List, [], ◌∷◌, map, Option, none, some, ◌==◌, if◌then◌else◌, length, get_elem?, set, total,
  total-set, replicate, arith, get_elem?-some, ◌>>=◌, Option-cases, inl, inr,
}
use linux_cat.Memory.{c_text, str_copy}

-- `stro_sockfd`
pub record Place : Type 0 where
  pub cfd : ℕ
  pub in_use : ℕ
  pub offset : ℕ
  pub filename : List ℕ

-- Where a thread stands: at place `i` of its round with the block's offset, or past its loop.
pub data Phase : Type 0 where
  seeking : (offset i : ℕ) → Phase
  offering : (cfd offset : ℕ) → List ℕ → (i : ℕ) → Phase
  paired : (offset sofd : ℕ) → Phase
  placed : (cfd offset : ℕ) → Phase

pub record Turn : Type 0 where
  pub places : List Place
  pub phase : Phase

abbrev next_place : ℕ → ℕ
next_place i = (i + 1) % 10

-- One round of the `for` of case 5
seek_at : List Place → ℕ → ℕ → Place → Turn
seek_at ps offset i p =
    if p.in_use == 1 && p.offset == offset
    then record { places = set ps i (record p { in_use = 0 }); phase = paired offset p.cfd }
    else record { places = ps; phase = seeking offset (next_place i) }

-- `strcpy` of the file's name and the other fields of the place. Where the name does not end in its
-- array or does not fit, which is undefined behaviour, the thread stays where it is.
abbrev put_place : List Place → ℕ → ℕ → List ℕ → ℕ → Option (List ℕ) → Turn
put_place ps cfd offset filename i none = record {
  places = ps;
  phase = offering cfd offset filename i;
}
put_place ps cfd offset filename i (some copy) = record {
  places = set ps i (record { cfd = cfd; in_use = 1; offset = offset; filename = copy });
  phase = placed cfd offset;
}

-- One round of the `for` of case -5
offer_at : List Place → ℕ → ℕ → List ℕ → ℕ → Place → Turn
offer_at ps cfd offset filename i p =
    if p.in_use == 0
    then put_place ps cfd offset filename i (c_text filename >>= str_copy p.filename)
    else record { places = ps; phase = offering cfd offset filename (next_place i) }

-- A thread at a place that the table does not have stays where it is; the table has 20.
abbrev at_place : List Place → Phase → Option Place → (Place → Turn) → Turn
at_place ps ph none f = record { places = ps; phase = ph }
at_place ps ph (some p) f = f p

pub turn : List Place → Phase → Turn
unfolding seek_at offer_at
turn ps (seeking offset i) = at_place ps (seeking offset i) (get_elem? ps i) (seek_at ps offset i)
turn ps (offering cfd offset filename i) =
    at_place ps (offering cfd offset filename i) (get_elem? ps i)
      (offer_at ps cfd offset filename i)
turn ps (paired offset sofd) = record { places = ps; phase = paired offset sofd }
turn ps (placed cfd offset) = record { places = ps; phase = placed cfd offset }

pub record Table : Type 0 where
  pub places : List Place
  pub threads : List Phase

-- Any thread goes on.
pub data Step (t : Table) : Table → Type 0 where
  go :
      (k : ℕ) {ph : Phase}
      → get_elem? t.threads k ≡ some ph
      → Step t (record {
        places = (turn t.places ph).places;
        threads = set t.threads k (turn t.places ph).phase;
      })

pub data Reach (t : Table) : Table → Type 0 where
  here : Reach t t
  next : {u v : Table} → Reach t u → Step u v → Reach t v

-- A place that waits with the socket `c` for the block at `o`, and threads that have put it there or
-- taken it.
abbrev pub waits : ℕ → ℕ → Place → ℕ
waits c o p = if p.in_use == 1 && (p.cfd == c && p.offset == o) then 1 else 0

abbrev pub took : ℕ → ℕ → Phase → ℕ
took c o (paired offset sofd) = if sofd == c && offset == o then 1 else 0
took c o _ = 0

abbrev pub gave : ℕ → ℕ → Phase → ℕ
gave c o (placed cfd offset) = if cfd == c && offset == o then 1 else 0
gave c o _ = 0

-- Every socket that was put in the table for an offset waits there, or has gone to one sender of a
-- block at that offset.
abbrev pub IsBalanced : Table → Type 0
IsBalanced t =
    (c o : ℕ) → total (waits c o) t.places + total (took c o) t.threads ≡ total (gave c o) t.threads

abbrev put : ℕ → ℕ → List ℕ → Place
put cfd offset copy = record { cfd = cfd; in_use = 1; offset = offset; filename = copy }

turn-balance :
    (ps : List Place) (ph : Phase) (c o : ℕ)
    → let r = turn ps ph in
      total (waits c o) r.places + took c o r.phase + gave c o ph
      ≡ total (waits c o) ps + took c o ph + gave c o r.phase
unfolding turn
turn-balance ps (seeking offset i) c o = seek (get_elem? ps i) refl
  where
    seek :
        (q : Option Place)
        → get_elem? ps i ≡ q
        → let r = at_place ps (seeking offset i) q (seek_at ps offset i) in
          total (waits c o) r.places + took c o r.phase + 0
          ≡ total (waits c o) ps + 0 + gave c o r.phase
    seek none e = omega arith
    seek (some p) e = ground (arith, total-set (waits c o) ps i (record p { in_use = 0 }) e)
turn-balance ps (offering cfd offset filename i) c o = offer (get_elem? ps i) refl
  where
    offer :
        (q : Option Place)
        → get_elem? ps i ≡ q
        → let r =
            at_place ps (offering cfd offset filename i) q (offer_at ps cfd offset filename i) in
          total (waits c o) r.places + took c o r.phase + 0
          ≡ total (waits c o) ps + 0 + gave c o r.phase
    offer none e = omega arith
    offer (some p) e = elim (Option-cases (c_text filename >>= str_copy p.filename)) [
      | inl none_copied ↦ rw none_copied (ground arith)
      | inr (copy, copied) ↦
          rw copied (ground (arith, total-set (waits c o) ps i (put cfd offset copy) e))
    ]
turn-balance ps (paired offset sofd) c o = refl
turn-balance ps (placed cfd offset) c o = refl

Step-IsBalanced : {t u : Table} → Step t u → IsBalanced t → IsBalanced u
Step-IsBalanced {t} (go k {ph} e) b = λ c o.
    let r = turn t.places ph in
    omega (
      arith,
      b c o,
      turn-balance t.places ph c o,
      total-set (took c o) t.threads k r.phase e,
      total-set (gave c o) t.threads k r.phase e,
    )

-- From a table in balance, such as the empty one before any thread has come through its loop, every
-- interleaving leads to a table in balance: a socket put in for an offset goes to no more than one
-- sender, and that sender's block has that offset.
pub Reach-IsBalanced : {t u : Table} → IsBalanced t → Reach t u → IsBalanced u
Reach-IsBalanced b here = b
Reach-IsBalanced b (next r st) = Step-IsBalanced st (Reach-IsBalanced b r)
