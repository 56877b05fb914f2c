-- ===== src/Server/Relay/Laws.antt =====
-- The rounds of the relay of a block (`send_file` of a_cat/server/work/work.c).
use linux_cat.Common.{
  ℕ, zero, suc, ◌-◌, ◌%◌, ◌≤◌, ◌<◌, ◌==◌, if◌then◌else◌, dec_lt, ◌≡◌, refl, ◌∙◌, ap, List, [], ◌∷◌,
  ◌++◌, length, take, drop, min, arith, append_assoc, append-nil, take-append-drop, length-drop,
}
use linux_cat.Server.Relay.{recvbuf_size, Recv, relayed, spinning, relay, send_file}

length-nil : (s : List ℕ) → length s ≡ 0 → s ≡ []
length-nil [] h = refl
length-nil (x ∷ s) h = absurd (omega arith)

regroup_one : (sent : List ℕ) (n : ℕ) (s : List ℕ) → (sent ++ take n s) ++ drop n s ≡ sent ++ s
regroup_one sent n s = append_assoc sent _ _ ∙ ap (◌++◌ sent) (take-append-drop n s)

regroup_two :
    (sent : List ℕ) (n k : ℕ) (s : List ℕ)
    → (sent ++ (take n s ++ take k (drop n s))) ++ drop k (drop n s) ≡ sent ++ s
regroup_two sent n k s =
    append_assoc sent _ _
    ∙ ap (◌++◌ sent) (
        append_assoc (take n s) _ _
        ∙ ap (◌++◌ (take n s)) (take-append-drop k (drop n s))
        ∙ take-append-drop n s)

-- While the stream holds just what remains, each round passes on a part of it.
relay_all :
    (fuel : ℕ) (r : Recv) (err remain : ℕ) (stream sent : List ℕ)
    → length stream ≡ remain
    → remain < fuel
    → relay fuel r err remain stream sent ≡ relayed (sent ++ stream)
unfolding relay
relay_all zero r err remain stream sent e h = absurd (omega arith)
relay_all (suc fuel) r err zero stream sent e h = rw (length-nil stream e, append-nil)
relay_all (suc fuel) r err (suc remain) stream sent e h =
    let size = min recvbuf_size (length stream) in
    let left = drop size stream in
    let left_is = length-drop size stream in
    let size' = r.amount (suc remain - size) left in
    let bound = r.at_most (suc remain - size) left in
    let more =
      relay_all fuel r err (suc remain - size) left (sent ++ take size stream) (omega arith)
        (omega arith)
      ∙ ap relayed (regroup_one sent size stream) in
    let last =
      relay_all fuel r err (suc remain - size - size') (drop size' left)
        (sent ++ (take size stream ++ take size' left)) (omega (arith, length-drop size' left))
        (omega arith)
      ∙ ap relayed (regroup_two sent size size' stream) in
    ground (arith, more, last)

-- Whatever way `recv` splits the bytes: from a sender whose connection carries just the block, the
-- loop ends within as many rounds as the block has bytes, and one, and has passed on the block.
pub send_file_lem :
    (r : Recv) (stream : List ℕ)
    → send_file (suc (length stream)) r (length stream) stream ≡ relayed stream
unfolding send_file
send_file_lem r stream =
    relay_all (suc (length stream)) r (length stream % recvbuf_size) (length stream) stream [] refl
      (omega arith)

relay_spins :
    (fuel : ℕ) (r : Recv) (err remain : ℕ) (stream sent : List ℕ)
    → length stream < remain
    → relay fuel r err remain stream sent ≡ spinning
unfolding relay
relay_spins zero r err remain stream sent h = refl
relay_spins (suc fuel) r err remain stream sent h =
    let size = min recvbuf_size (length stream) in
    let left = drop size stream in
    let left_is = length-drop size stream in
    let size' = r.amount (remain - size) left in
    let bound = r.at_most (remain - size) left in
    let more =
      relay_spins fuel r err (remain - size) left (sent ++ take size stream) (omega arith) in
    let last =
      relay_spins fuel r err (remain - size - size') (drop size' left)
        (sent ++ (take size stream ++ take size' left)) (omega (arith, length-drop size' left)) in
    ground (arith, more, last)

-- Whatever way `recv` splits the bytes, from a sender whose connection carries no more than the block:
-- within as many rounds as the block has bytes, and one, the loop ends, and has passed on the block.
-- If the connection carries less, because the sender closes early, no number of rounds ends it.
pub send_file_outcome :
    (fuel : ℕ) (r : Recv) (bs : ℕ) (stream : List ℕ)
    → length stream ≤ bs
    → bs < fuel
    → send_file fuel r bs stream ≡ (if length stream == bs then relayed stream else spinning)
unfolding send_file
send_file_outcome fuel r bs stream fits enough = elim (dec_lt (length stream) bs) [
  | yes short ↦
      let spins = relay_spins fuel r (bs % recvbuf_size) bs stream [] short in
      ground (arith, spins, short)
  | no full ↦
      let whole =
        relay_all fuel r (bs % recvbuf_size) bs stream [] (omega (arith, fits, full)) enough in
      ground (arith, whole, fits, full)
]
