-- ===== src/Client/Receiver/Laws.antt =====
-- What `recv_file` (a_cat/client/work/work.c) leaves in the mapped file.
use linux_cat.Common.{
  ℕ, ◌+◌, ◌-◌, ◌≤◌, ◌<◌, ◌≡◌, ◌⊎◌, inl, inr, refl, sym, ◌∙◌, List, [], ◌∷◌, ◌++◌, Option, some,
  ◌==◌, if◌then◌else◌, length, take, drop, get_elem?, arith, length-append, length-take,
  length-drop, get_elem?-append_left, get_elem?-append_right, get_elem?-take, get_elem?-drop,
  dec_lt, Bool, true, false, subst, append-nil, append_assoc, ap, fun_ext, ◌>>=◌,
}
use linux_cat.Client.Receiver.{recvbuf_size, store, recv_chunks, recv_file}

-- `after` is `map` with the bytes from `pos` on replaced.
pub record Spliced (map : List ℕ) (pos : ℕ) (bytes after : List ℕ) : Type 0 where
  pub same_size : length after ≡ length map
  pub inside : (j k : ℕ) → pos + k ≡ j → k < length bytes → get_elem? after j ≡ get_elem? bytes k
  pub below : (j : ℕ) → j < pos → get_elem? after j ≡ get_elem? map j
  pub above : (j : ℕ) → pos + length bytes ≤ j → get_elem? after j ≡ get_elem? map j

store_lem :
    (map : List ℕ) (pos : ℕ) (bytes : List ℕ)
    → pos + length bytes ≤ length map
    → (after : List ℕ) × (store map pos bytes ≡ some after) × Spliced map pos bytes after
unfolding store
store_lem map pos bytes h =
    let tail = drop (pos + length bytes) map in
    let front : length (take pos map) ≡ pos = omega (arith, length-take pos map) in
    (
      take pos map ++ (bytes ++ tail),
      ground arith,
      record {
        same_size = omega (
          arith,
          length-append (take pos map) (bytes ++ tail),
          length-append bytes tail,
          length-drop (pos + length bytes) map,
          front,
        );
        inside = λ j k e lt.
            get_elem?-append_right (take pos map) (bytes ++ tail) j k (omega (arith, front))
            ∙ get_elem?-append_left bytes tail k lt;
        below = λ j lt.
            get_elem?-append_left (take pos map) (bytes ++ tail) j (omega (arith, front))
            ∙ get_elem?-take map pos j lt;
        above = λ j le.
            get_elem?-append_right (take pos map) (bytes ++ tail) j (j - pos) (omega (arith, front))
            ∙ get_elem?-append_right bytes tail (j - pos) (j - pos - length bytes) (omega arith)
            ∙ get_elem?-drop map (pos + length bytes) (j - pos - length bytes) j (omega arith);
      },
    )

Spliced-append :
    (map a mid b after : List ℕ) (pos next : ℕ)
    → pos + length a ≡ next
    → Spliced map pos a mid
    → Spliced mid next b after
    → Spliced map pos (a ++ b) after
Spliced-append map a mid b after pos next e s t =
    let size = length-append a b in
    record {
      same_size = t.same_size ∙ s.same_size;
      inside = λ j k f lt. elim (dec_lt k (length a)) [
        | yes p ↦ t.below j (omega arith) ∙ s.inside j k f p ∙ sym (get_elem?-append_left a b k p)
        | no p ↦
            t.inside j (k - length a) (omega arith) (omega (arith, size))
            ∙ sym (get_elem?-append_right a b k (k - length a) (omega arith))
      ];
      below = λ j lt. t.below j (omega arith) ∙ s.below j lt;
      above = λ j le. t.above j (omega (arith, size)) ∙ s.above j (omega (arith, size));
    }

abbrev pub joined : List (List ℕ) → List ℕ
joined [] = []
joined (c ∷ cs) = c ++ joined cs

-- Each call of `recv` but the last fills the buffer.
abbrev pub AreFull : List (List ℕ) → Type 0
AreFull [] = Unit {0}
AreFull (c ∷ cs) = ((length c ≡ recvbuf_size) ⊎ (cs ≡ [])) × AreFull cs

if_same : (b : Bool) (x : Option (List ℕ)) → (if b then x else x) ≡ x
if_same true x = refl
if_same false x = refl

recv_chunks_lem :
    (map : List ℕ) (pos : ℕ) (chunks : List (List ℕ))
    → AreFull chunks
    → pos + length (joined chunks) ≤ length map
    → (after : List ℕ) × (recv_chunks map pos chunks ≡ some after)
      × Spliced map pos (joined chunks) after
unfolding recv_chunks
recv_chunks_lem map pos [] full h = (
  map,
  refl,
  record {
    same_size = refl;
    inside = λ j k e lt. absurd (omega arith);
    below = λ j lt. refl;
    above = λ j le. refl;
  },
)
recv_chunks_lem map pos (c ∷ cs) (inl e, full) h =
    let size = length-append c (joined cs) in
    let (mid, r, s) = store_lem map pos c (omega (arith, size)) in
    let (after, r', s') =
      recv_chunks_lem mid (pos + recvbuf_size) cs full (omega (arith, size, s.same_size)) in
    let yes_full : (length c == recvbuf_size) ≡ true = ground arith in
    (
      after,
      rw (r, yes_full) r',
      Spliced-append map c mid (joined cs) after pos (pos + recvbuf_size) (omega arith) s s',
    )
recv_chunks_lem map pos (c ∷ []) (inr e, full) h =
    let size = length-append c [] in
    let (mid, r, s) = store_lem map pos c (omega (arith, size)) in
    (
      mid,
      rw r (if_same (length c == recvbuf_size) (some mid)),
      subst (λ b. Spliced map pos b mid) (sym (append-nil c)) s,
    )
recv_chunks_lem map pos (c ∷ d ∷ cs) (inr e, full) h = cc

-- When each `recv` but the last fills the buffer and the block fits behind its offset, the receiver
-- puts just the bytes that came at the block's offset, and changes no other byte of the map.
pub recv_file_lem :
    (mbegin : List ℕ) (offset : ℕ) (chunks : List (List ℕ))
    → AreFull chunks
    → offset + length (joined chunks) ≤ length mbegin
    → (after : List ℕ) × (recv_file mbegin offset chunks ≡ some after)
      × Spliced mbegin offset (joined chunks) after
unfolding recv_file
recv_file_lem mbegin offset chunks full h = recv_chunks_lem mbegin offset chunks full h

recv_chunks_stop :
    (map : List ℕ) (pos : ℕ) (chunks : List (List ℕ)) (short : List ℕ) (rest : List (List ℕ))
    → length short < recvbuf_size
    → recv_chunks map pos (chunks ++ (short ∷ rest)) ≡ recv_chunks map pos (chunks ++ (short ∷ []))
unfolding recv_chunks
recv_chunks_stop map pos [] short rest h = ground arith
recv_chunks_stop map pos (c ∷ cs) short rest h =
    ap (λ (k : List ℕ → Option (List ℕ)). store map pos c >>= k)
      (fun_ext λ after.
        ap (λ r. if length c == recvbuf_size then r else some after)
          (recv_chunks_stop after (pos + recvbuf_size) cs short rest h))

recv_file_stops :
    (mbegin : List ℕ) (offset : ℕ) (chunks : List (List ℕ)) (short : List ℕ) (rest : List (List ℕ))
    → length short < recvbuf_size
    → recv_file mbegin offset (chunks ++ (short ∷ rest))
      ≡ recv_file mbegin offset (chunks ++ (short ∷ []))
unfolding recv_file
recv_file_stops mbegin offset chunks short rest h =
    recv_chunks_stop mbegin offset chunks short rest h

-- Every call of `recv` fills the buffer.
abbrev pub AllFull : List (List ℕ) → Type 0
AllFull [] = Unit {0}
AllFull (c ∷ cs) = (length c ≡ recvbuf_size) × AllFull cs

AreFull-snoc :
    (chunks : List (List ℕ)) (short : List ℕ) → AllFull chunks → AreFull (chunks ++ (short ∷ []))
AreFull-snoc [] short h = (inr refl, tt)
AreFull-snoc (c ∷ cs) short h = (inl h.0, AreFull-snoc cs short h.1)

joined-snoc :
    (chunks : List (List ℕ)) (short : List ℕ)
    → joined (chunks ++ (short ∷ [])) ≡ joined chunks ++ short
joined-snoc [] short = append-nil short
joined-snoc (c ∷ cs) short =
    ap (λ l. c ++ l) (joined-snoc cs short) ∙ sym (append_assoc c (joined cs) short)

-- Let some calls of `recv` fill the buffer of 100 bytes, and the next one hand over fewer, and let
-- all these bytes fit behind the block's offset. The receiver then puts just these bytes at the offset, end to
-- end, and changes no other byte of the map: whatever of the block the connection still carries is lost.
pub recv_file_cut :
    (mbegin : List ℕ) (offset : ℕ) (chunks : List (List ℕ)) (short : List ℕ) (rest : List (List ℕ))
    → AllFull chunks
    → length short < recvbuf_size
    → offset + length (joined chunks ++ short) ≤ length mbegin
    → (after : List ℕ) × (recv_file mbegin offset (chunks ++ (short ∷ rest)) ≡ some after)
      × Spliced mbegin offset (joined chunks ++ short) after
recv_file_cut mbegin offset chunks short rest full h fits =
    let same = joined-snoc chunks short in
    let (after, r, spliced) =
      recv_file_lem mbegin offset (chunks ++ (short ∷ [])) (AreFull-snoc chunks short full)
        (omega (arith, fits, ap length same)) in
    (
      after,
      recv_file_stops mbegin offset chunks short rest h ∙ r,
      subst (λ b. Spliced mbegin offset b after) same spliced,
    )
