-- ===== src/Server/Handler/FileIds/Offered.antt =====
-- The ids that the server offers (case 3 of `thread_read` in a_cat/server/work/work.c), read off the
-- messages that it writes.
use linux_cat.Common.{
  ℕ, zero, suc, ◌+◌, ◌≡◌, refl, sym, ◌∙◌, ap, ap₂, ℤ, pos, negsuc, eq_ℤ, Bool, true, false, List,
  [], ◌∷◌, ◌++◌, none, some, if◌then◌else◌, arith,
}
use linux_cat.Message.{Msg}
use linux_cat.Server.Online.{Online, Write, to_all}
use linux_cat.Server.State.{other, request_of}
use linux_cat.Server.Handler.FileIds.{table}

-- The label -3, with which the server offers a file to its receiver.
abbrev pub is_offer : ℤ → Bool
is_offer a = eq_ℤ a (negsuc 2)

-- The ids of the offers among the messages written.
abbrev pub offered : List Write → List ℕ
offered [] = []
offered (w ∷ ws) =
    let rest = offered ws in if is_offer w.msg.action then w.msg.sfile_id ∷ rest else rest

-- `j` ids from `k` on.
abbrev pub ids : ℕ → ℕ → List ℕ
ids k zero = []
ids k (suc j) = k ∷ ids (suc k) j

-- Of the free ids some have been offered, in order, and are taken; `addr` is a table still.
abbrev pub Offers : ℕ → ℕ → List ℕ → List ℕ → Type 0
Offers k n addr ws = (j : ℕ) × (r : ℕ) × (j + r ≡ n) × (addr ≡ table (j + k) r) × (ws ≡ ids k j)

pub offered_plain :
    (a : ℤ) (i : ℕ) (l : List ℕ)
    → is_offer a ≡ false
    → l ≡ []
    → (if is_offer a then i ∷ l else l) ≡ []
offered_plain a i l h e = rw (h, e) refl

pub offered-to_all :
    (ns : List Online) (m : Msg) → is_offer m.action ≡ false → offered (to_all ns m) ≡ []
unfolding to_all
offered-to_all [] m h = refl
offered-to_all (n ∷ ns) m h =
    offered_plain m.action m.sfile_id (offered (to_all ns m)) h (offered-to_all ns m h)

-- The two shapes that `offered` takes at a message.
if-append :
    (b : Bool) (i : ℕ) (l r : List ℕ)
    → (if b then i ∷ (l ++ r) else l ++ r) ≡ (if b then i ∷ l else l) ++ r
if-append true i l r = refl
if-append false i l r = refl

pub offered-append : (ws us : List Write) → offered (ws ++ us) ≡ offered ws ++ offered us
offered-append [] us = refl
offered-append (w ∷ ws) us =
    rw (offered-append ws us)
      (if-append (is_offer w.msg.action) w.msg.sfile_id (offered ws) (offered us))

same_writes : {x ws : List Write} → some (some x) ≡ some (some ws) → x ≡ ws
same_writes e = ground (arith, e)

pub either_plain :
    (b c : Bool) (x y : List Write) {ws : List Write}
    → offered x ≡ []
    → offered y ≡ []
    → some (if b then some (if c then x else y) else none) ≡ some (some ws)
    → offered ws ≡ []
either_plain true true x y hx hy e = ap offered (sym (same_writes e)) ∙ hx
either_plain true false x y hx hy e = ap offered (sym (same_writes e)) ∙ hy
either_plain false c x y hx hy e = absurd (ground (arith, e))

pub offer_other : (a : ℤ) → is_offer a ≡ true → request_of a ≡ other
unfolding request_of
offer_other (pos n) h = absurd (ground (arith, h))
offer_other (negsuc n) h =
    let is_two : n ≡ 2 = ground (arith, h) in ap (λ i. request_of (negsuc i)) is_two

pub ids_append : (k j i : ℕ) → ids k j ++ ids (j + k) i ≡ ids k (j + i)
ids_append k zero i = ap₂ ids (omega arith) (omega arith)
ids_append k (suc j) i =
    ap (λ x. k ∷ (ids (suc k) j ++ ids x i)) {y = j + suc k} (omega arith)
    ∙ ap (λ l. k ∷ l) (ids_append (suc k) j i)
    ∙ ap (ids k) {x = suc (j + i)} (omega arith)
