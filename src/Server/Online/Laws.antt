-- ===== src/Server/Online/Laws.antt =====
-- The list of users as a directory: for each name the stack of its sessions, newest first. The order
-- between different names is forgotten.
use linux_cat.Common.{
  ℕ, suc, ◌≡◌, ◌≢◌, ◌⊎◌, refl, Bool, false, List, [], ◌∷◌, Option, none, some, if◌then◌else◌, arith,
  Bool-cases, inl, inr,
}
use linux_cat.Memory.{c_text, bytes_eq}
use linux_cat.Memory.Laws.{str_eq-c_text, bytes_eq_iff}
use linux_cat.Server.Online.{Online, insert_link, find_fd, get_online, set_say, remove_user}

-- Every name in the list is a text.
abbrev pub AreNamed : List Online → Type 0
AreNamed [] = Unit {0}
AreNamed (n ∷ ns) = ((t : List ℕ) × (c_text n.name ≡ some t)) × AreNamed ns

pub record Session : Type 0 where
  pub fd : ℕ
  pub said : ℕ

-- Whether a node has the name `k`.
abbrev named : Option (List ℕ) → List ℕ → Bool
named none k = false
named (some t) k = bytes_eq t k

unfoldable pub sessions : List ℕ → List Online → List Session
sessions k [] = []
sessions k (n ∷ ns) =
    if named (c_text n.name) k
    then record { fd = n.cfd; said = n.say } ∷ sessions k ns
    else sessions k ns

abbrev pub top_fd : List Session → Option ℕ
top_fd [] = none
top_fd (s ∷ ss) = some s.fd

abbrev pub rest_of : List Session → List Session
rest_of [] = []
rest_of (s ∷ ss) = ss

abbrev pub mark_top : ℕ → List Session → List Session
mark_top v [] = []
mark_top v (s ∷ ss) = record s { said = v } ∷ ss

-- Logging in puts a session on top of its name's.
pub sessions-insert_link :
    (k : List ℕ) (n : Online) (ns : List Online) {t : List ℕ}
    → c_text n.name ≡ some t
    → sessions k (insert_link n ns) ≡ (
        if bytes_eq t k then record { fd = n.cfd; said = n.say } ∷ sessions k ns else sessions k ns)
unfolding sessions insert_link
sessions-insert_link k n ns h = ground arith

-- `find_fd` answers the newest session of the name, and -1 if it has none.
pub find_fd_lem :
    (ns : List Online) (key : List ℕ) {k : List ℕ}
    → AreNamed ns
    → c_text key ≡ some k
    → find_fd ns key ≡ some (top_fd (sessions k ns))
unfolding find_fd sessions
find_fd_lem [] key h e = refl
find_fd_lem (n ∷ ns) key {k} ((t, named_t), h) e =
    rw (str_eq-c_text n.name key named_t e, named_t) (ground (arith, find_fd_lem ns key h e))

-- Logging out takes away the newest session of the name, and nothing else.
pub remove_user_lem :
    (ns : List Online) (key : List ℕ) {k : List ℕ}
    → AreNamed ns
    → c_text key ≡ some k
    → (ns' : List Online) × (remove_user ns key ≡ some ns')
      × AreNamed ns'
      × ((j : List ℕ)
          → sessions j ns' ≡ (if bytes_eq k j then rest_of (sessions k ns) else sessions j ns))
unfolding remove_user sessions
remove_user_lem [] key h e = ([], refl, tt, λ j. ground arith)
remove_user_lem (n ∷ ns) key {k} ((t, named_t), h) e =
    let (ns', r, a, s) = remove_user_lem ns key h e in
    elim (Bool-cases (bytes_eq t k)) [
      | inl same ↦ (
        ns,
        rw (str_eq-c_text n.name key named_t e, same),
        h,
        λ j. ground (arith, bytes_eq_iff k j, bytes_eq_iff t k),
      )
      | inr other ↦ (
        n ∷ ns',
        rw (str_eq-c_text n.name key named_t e, other, r),
        ((t, named_t), a),
        λ j. ground (arith, s j, bytes_eq_iff k j, bytes_eq_iff t k),
      )
    ]

-- The node that `get_online` points to, once `say` is set there: the name's newest session is
-- marked, and nothing else. It answers NULL when the name has no session.
pub get_online_lem :
    (ns : List Online) (key : List ℕ) (v : ℕ) {k : List ℕ}
    → AreNamed ns
    → c_text key ≡ some k
    → ((get_online ns key ≡ some none) × (sessions k ns ≡ []))
      ⊎ ((i : ℕ) × (get_online ns key ≡ some (some i))
          × (sessions k ns ≢ [])
          × AreNamed (set_say ns i v)
          × ((j : List ℕ)
              → sessions j (set_say ns i v)
                ≡ (if bytes_eq k j then mark_top v (sessions k ns) else sessions j ns)))
unfolding get_online sessions set_say
get_online_lem [] key v h e = inl (refl, refl)
get_online_lem (n ∷ ns) key v {k} ((t, named_t), h) e = elim (Bool-cases (bytes_eq t k)) [
  | inl same ↦ inr (
    0,
    rw (str_eq-c_text n.name key named_t e, same),
    ground arith,
    ((t, named_t), h),
    λ j. ground (arith, bytes_eq_iff k j, bytes_eq_iff t k),
  )
  | inr other ↦ elim (get_online_lem ns key v h e) [
    | inl (r, empty) ↦ inl (rw (str_eq-c_text n.name key named_t e, other, r), ground arith)
    | inr (i, r, full, a, s) ↦ inr (
      suc i,
      rw (str_eq-c_text n.name key named_t e, other, r),
      ground arith,
      ((t, named_t), a),
      λ j. ground (arith, s j, bytes_eq_iff k j, bytes_eq_iff t k),
    )
  ]
]
