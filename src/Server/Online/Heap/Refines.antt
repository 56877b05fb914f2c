-- ===== src/Server/Online/Heap/Refines.antt =====
-- The nodes in memory behave as the list of values, whatever the uses and their order.
use linux_cat.Common.{
  ℕ, ◌+◌, ◌<◌, ◌≡◌, ◌≢◌, inl, inr, refl, ◌∙◌, sym, ap, subst, List, [], ◌∷◌, Option, none, some,
  length, arith, some-injective, >>=-eq-some,
}
use linux_cat.Server.Online.{Online, insert_link, find_fd, get_online, remove_user}
use linux_cat.Server.Online.Heap.{
  Node, Cell, load_node, store_node, Store, insert_link_at, Use, joins, seeks, tells, marks, leaves,
  Seen, nothing, mark_on, list_use, list_uses, join_at, mark_at, heap_use, heap_uses,
}
use linux_cat.Server.Online.Heap.Chain.{
  Place, users, IsFresh, Holds, load_node-store_node_self, store_node-Chain, new-Chain,
  unused-IsFresh,
}
use linux_cat.Server.Online.Heap.Walks.{
  place_at-real, mark_place, users-mark_place, at_of-mark_place, find_fd_at_lem, to_all_at_lem,
  get_online_at_lem, set_say_at_lem,
}
use linux_cat.Server.Online.Heap.Sizes.{length-users, list_use-length}
use linux_cat.Server.Online.Heap.Unlink.{remove_user_at_lem}

-- The new node at the head.
pub insert_link_at_lem :
    (s : Store) (cs : List Place) (p : ℕ) (n : Online) {old : ℕ}
    → Holds s cs
    → p ≢ 0
    → IsFresh p cs
    → load_node s.heap p ≡ some (record { user = n; next = old })
    → (t : Store) × (insert_link_at s p ≡ some t) × Holds t (record { at = p; user = n } ∷ cs)
unfolding insert_link_at
insert_link_at_lem s cs p n a real own e = (
  record { heap = store_node s.heap p (record { user = n; next = s.head }); head = p },
  rw e refl,
  record {
    first = refl;
    nodes = new-Chain s.heap cs (record { at = p; user = n }) s.head a.first real own a.nodes;
  },
)

-- After a use both have answered the same, and the memory holds the list again.
record Agree (want : Seen × List Online) (r : Option (Seen × Store)) : Type 0 where
  memory : Store
  places : List Place
  result : r ≡ some (want.0, memory)
  holds : Holds memory places
  values : users places ≡ want.1

to_Agree :
    {want want' : Seen × List Online} {r : Option (Seen × Store)}
    → want ≡ want'
    → Agree want r
    → Agree want' r
to_Agree {r = r} e a = subst (λ x. Agree x r) e a

-- A use that only reads
reads-Agree :
    {s : Store} {cs : List Place} {seen : Seen} {r : Option (Seen × Store)}
    → Holds s cs
    → r ≡ some (seen, s)
    → Agree (seen, users cs) r
reads-Agree {s} {cs} a e = record { memory = s; places = cs; result = e; holds = a; values = refl }

module _ (malloc : List Cell → ℕ) (junk : ℕ) where
  joins-Agree :
      (fuel : ℕ) (s : Store) (cs : List Place) (n : Online)
      → ((h : List Cell) → (malloc h ≢ 0) × (load_node h (malloc h) ≡ none))
      → Holds s cs
      → Agree (nothing, n ∷ users cs) (heap_use malloc junk fuel s (joins n))
  unfolding heap_use join_at
  joins-Agree fuel s cs n new a =
      let p = malloc s.heap in
      let (real, empty) = new s.heap in
      let own = unused-IsFresh s.heap p cs empty a.nodes in
      let node : Node = record { user = n; next = junk } in
      let s' : Store = record s { heap = store_node s.heap p node } in
      let a' : Holds s' cs = record {
        first = a.first;
        nodes = store_node-Chain s.heap p node cs own a.nodes;
      } in
      let (t, done, held) =
        insert_link_at_lem s' cs p n a' real own (load_node-store_node_self s.heap p node) in
      record {
        memory = t;
        places = record { at = p; user = n } ∷ cs;
        result = rw done refl;
        holds = held;
        values = refl;
      }

  marks-Agree :
      (fuel : ℕ) (s : Store) (cs : List Place) (name : List ℕ) (v : ℕ) {g : Option ℕ}
      → Holds s cs
      → length cs < fuel
      → get_online (users cs) name ≡ some g
      → Agree (mark_on (users cs) v g) (heap_use malloc junk fuel s (marks name v))
  unfolding heap_use mark_at mark_on
  marks-Agree fuel s cs name v a f e = elim (get_online_at_lem fuel s.heap cs name a.nodes f e) [
    | inl (nobody, at_end) ↦ rw nobody (reads-Agree a (rw (a.first, at_end) refl))
    | inr (i, it, inside, at_i) ↦
        let (h, stored, l, others) = set_say_at_lem s.heap cs i v a.nodes inside in
        let real = place_at-real s.heap cs i inside a.nodes in
        rw it (record {
          memory = record s { heap = h };
          places = mark_place cs i v;
          result = rw (a.first, at_i) (ground (arith, real, stored));
          holds = record { first = a.first ∙ sym (at_of-mark_place cs i v); nodes = l };
          values = users-mark_place cs i v;
        })
  ]

  use-Agree :
      (fuel : ℕ) (s : Store) (cs : List Place) (u : Use) {want : Seen × List Online}
      → ((h : List Cell) → (malloc h ≢ 0) × (load_node h (malloc h) ≡ none))
      → Holds s cs
      → length cs < fuel
      → list_use (users cs) u ≡ some want
      → Agree want (heap_use malloc junk fuel s u)
  unfolding list_use heap_use insert_link
  use-Agree fuel s cs (joins n) new a f e =
      to_Agree (some-injective _ _ e) (joins-Agree fuel s cs n new a)
  use-Agree fuel s cs (seeks name) new a f e =
      let (fd, found_fd, e') = >>=-eq-some (find_fd (users cs) name) _ e in
      let same = find_fd_at_lem fuel s.heap cs name a.nodes f ∙ found_fd in
      to_Agree (some-injective _ _ e') (reads-Agree a (rw (a.first, same) refl))
  use-Agree fuel s cs (tells m) new a f e =
      let same = to_all_at_lem fuel s.heap cs m a.nodes f in
      to_Agree (some-injective _ _ e) (reads-Agree a (rw (a.first, same) refl))
  use-Agree fuel s cs (marks name v) new a f e =
      let (g, got, e') = >>=-eq-some (get_online (users cs) name) _ e in
      to_Agree (some-injective _ _ e') (marks-Agree fuel s cs name v a f got)
  use-Agree fuel s cs (leaves name) new a f e =
      let (ns, removed, e') = >>=-eq-some (remove_user (users cs) name) _ e in
      let (t, stays, result, held, left) = remove_user_at_lem fuel s cs name a f removed in
      to_Agree (some-injective _ _ e') (record {
        memory = t;
        places = stays;
        result = rw result refl;
        holds = held;
        values = left;
      })

-- For any sequence of uses (users join, are looked up, told, marked and leave) on which the list of
-- values does not fault: the nodes in memory give the same answers, no freed node is read, and the
-- nodes hold the list that is left, each linked to the next. The store holds the list at the start, `malloc` never answers NULL or an address in use, and the loops may take one turn
-- more than there can be users.
pub heap_uses-list_uses :
    (malloc : List Cell → ℕ) (junk fuel : ℕ) (s : Store) (cs : List Place) (us : List Use)
    {want : List Seen × List Online}
    → ((h : List Cell) → (malloc h ≢ 0) × (load_node h (malloc h) ≡ none))
    → Holds s cs
    → length cs + length us < fuel
    → list_uses (users cs) us ≡ some want
    → (t : Store) × (ds : List Place) × (heap_uses malloc junk fuel s us ≡ some (want.0, t))
      × Holds t ds
      × (users ds ≡ want.1)
unfolding list_uses heap_uses
heap_uses-list_uses malloc junk fuel s cs [] new a f e =
    (s, cs, ap (λ r. some (r.0, s)) (some-injective _ _ e), a, ap (λ r. r.1) (some-injective _ _ e))
heap_uses-list_uses malloc junk fuel s cs (u ∷ us) new a f e =
    let (r, first, e') = >>=-eq-some (list_use (users cs) u) _ e in
    let (rs, later, e'') = >>=-eq-some (list_uses r.1 us) _ e' in
    let b = use-Agree malloc junk fuel s cs u new a (omega (arith, f)) first in
    let places = b.places in
    let fits : length places + length us < fuel = omega (
      arith,
      f,
      list_use-length (users cs) u first,
      length-users cs,
      length-users places,
      ap length b.values,
    ) in
    let (t, ds, result, held, left) =
      heap_uses-list_uses malloc junk fuel b.memory places us new b.holds fits
        (subst (λ ns. list_uses ns us ≡ some rs) (sym b.values) later) in
    let whole = some-injective _ _ e'' in
    (t, ds, rw (b.result, result) (ap (λ w. some (w.0, t)) whole), held, left ∙ ap (λ w. w.1) whole)
