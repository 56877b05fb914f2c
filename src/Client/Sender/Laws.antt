-- ===== src/Client/Sender/Laws.antt =====
-- What the connection of a block carries (`send_filedata` of a_cat/client/work/work.c).
use linux_cat.Common.{
  ℕ, zero, suc, ◌+◌, ◌-◌, ◌*◌, ◌/◌, ◌≤◌, ◌≡◌, refl, sym, ◌∙◌, ap, List, [], ◌∷◌, ◌++◌, take, drop,
  arith,
}
use linux_cat.Client.Sender.{send_size, send_rounds, send_filedata}

take-take-drop : (a b n : ℕ) (xs : List ℕ) → a + b ≡ n → take a xs ++ take b (drop a xs) ≡ take n xs
take-take-drop zero b n xs e = ap (λ k. take k xs) {y = n} (omega arith)
take-take-drop (suc a) b zero xs e = absurd (omega arith)
take-take-drop (suc a) zero (suc n) [] e = refl
take-take-drop (suc a) (suc b) (suc n) [] e = refl
take-take-drop (suc a) b (suc n) (x ∷ xs) e =
    ap (λ l. x ∷ l) (take-take-drop a b n xs (omega arith))

drop-drop : (a b c : ℕ) (xs : List ℕ) → a + b ≡ c → drop b (drop a xs) ≡ drop c xs
drop-drop zero b c xs e = ap (λ k. drop k xs) {y = c} (omega arith)
drop-drop (suc a) b zero xs e = absurd (omega arith)
drop-drop (suc a) zero (suc c) [] e = refl
drop-drop (suc a) (suc b) (suc c) [] e = refl
drop-drop (suc a) b (suc c) (x ∷ xs) e = drop-drop a b c xs (omega arith)

send_rounds_lem :
    (accepts : ℕ → ℕ → ℕ) (file : List ℕ) (rounds k fp bs : ℕ)
    → ((j n : ℕ) → accepts j n ≡ n)
    → rounds * send_size ≤ bs
    → send_rounds accepts file rounds k fp bs ≡ take bs (drop fp file)
unfolding send_rounds
send_rounds_lem accepts file zero k fp bs all h = rw (all k bs)
send_rounds_lem accepts file (suc rounds) k fp bs all h = rw (all k send_size) (
    ap (λ l. take 100 (drop fp file) ++ l)
      (send_rounds_lem accepts file rounds (k + 1) (fp + send_size) (bs - send_size) all
        (omega arith))
    ∙ ap (λ l. take 100 (drop fp file) ++ take (bs - 100) l)
        (sym (drop-drop fp 100 (fp + 100) file refl))
    ∙ take-take-drop 100 (bs - 100) bs (drop fp file) (omega arith))

-- When every `write` takes all that it is given, the connection carries just the block: `bs` bytes
-- of the file from `offset` on.
pub send_filedata_lem :
    (accepts : ℕ → ℕ → ℕ) (file : List ℕ) (offset bs : ℕ)
    → ((j n : ℕ) → accepts j n ≡ n)
    → send_filedata accepts file offset bs ≡ take bs (drop offset file)
unfolding send_filedata
send_filedata_lem accepts file offset bs all =
    send_rounds_lem accepts file (bs / send_size) 0 offset bs all (omega arith)
