-- ===== src/Message/Wire/Stream.antt =====
-- A stream of messages at the loops of `thread_read`, on the client with MSG_WAITALL and on the server
-- without.
use linux_cat.Common.{
  ℕ, zero, suc, ◌+◌, ◌-◌, ◌<◌, ◌≤◌, ◌≡◌, refl, ◌∙◌, ap, ap₂, List, [], ◌∷◌, ◌++◌, append-nil,
  length, length-append, length-take, take, drop, replicate, take-first, take-take, take-whole,
  drop-first, drop-whole, arith,
}
use linux_cat.Message.{Msg, zeroed}
use linux_cat.Message.Wire.{
  un_le, int_of, slice, msg_bytes, bytes_msg, msg_size, received, read_round, client_reads,
  server_reads,
}
use linux_cat.Message.Wire.Layout.{FitsMsg, bytes_msg-msg_bytes, length-msg_bytes, slice-past}

abbrev pub stream : List Msg → List ℕ
stream [] = []
stream (m ∷ ms) = msg_bytes m ++ stream ms

abbrev pub AllFit : List Msg → Type 0
AllFit [] = Unit {0}
AllFit (m ∷ ms) = FitsMsg m × AllFit ms

-- A whole message at the head of the stream
first_message : (m : Msg) (r : List ℕ) → FitsMsg m → received (take msg_size (msg_bytes m ++ r)) ≡ m
unfolding received
first_message m r f =
    let long = length-msg_bytes m f in
    let bytes =
      take-first msg_size (msg_bytes m) r (omega (arith, long))
      ∙ take-whole msg_size (msg_bytes m) long in
    rw (bytes, long) (rw append-nil (bytes_msg-msg_bytes m f))

rest_of_stream : (m : Msg) (r : List ℕ) → FitsMsg m → drop msg_size (msg_bytes m ++ r) ≡ r
rest_of_stream m r f =
    let long = length-msg_bytes m f in
    drop-first msg_size (msg_bytes m) r (omega (arith, long))
    ∙ ap (λ l. l ++ r) (drop-whole msg_size (msg_bytes m) long)

read_round-some :
    (got : List ℕ) (rest : List Msg) → 0 < length got → read_round got rest ≡ received got ∷ rest
unfolding read_round
read_round-some [] rest h = absurd (omega (arith, h))
read_round-some (b ∷ got) rest h = refl

-- A round that finds a whole message at the head of the stream
whole_round :
    (m : Msg) (r : List ℕ) (rest : List Msg)
    → FitsMsg m
    → read_round (take msg_size (msg_bytes m ++ r)) rest ≡ m ∷ rest
whole_round m r rest f =
    let long = length-msg_bytes m f in
    let some_bytes : 0 < length (take msg_size (msg_bytes m ++ r)) =
      omega (arith, length-take msg_size (msg_bytes m ++ r), length-append (msg_bytes m) r, long) in
    read_round-some (take msg_size (msg_bytes m ++ r)) rest some_bytes
    ∙ ap (λ x. x ∷ rest) (first_message m r f)

-- Take any messages whose numbers fit their fields and whose arrays are as long as declared, written one
-- after the other to a connection. The client's loop, whose `recv` waits for a whole message, reads just
-- them, in their order, before it finds the connection closed. So does the server's loop as long as each of its calls
-- of `recv` happens to hand over a whole message.
pub messages_arrive :
    (ms : List Msg)
    → AllFit ms
    → (client_reads (suc (length ms)) (stream ms) ≡ ms)
      × (server_reads (stream ms) (replicate (length ms) msg_size) ≡ ms)
unfolding client_reads server_reads read_round
messages_arrive [] f = (refl, refl)
messages_arrive (m ∷ ms) (f, fs) =
    let (client, server) = messages_arrive ms fs in
    let rest = rest_of_stream m (stream ms) f in
    (
      whole_round m (stream ms) _ f
          ∙ ap (λ l. m ∷ l) (ap (client_reads (suc (length ms))) rest ∙ client),
      whole_round m (stream ms) _ f
          ∙ ap (λ l. m ∷ l)
              (ap (λ bs. server_reads bs (replicate (length ms) msg_size)) rest ∙ server),
    )

-- What lies in the zeroes behind the bytes that have come.
slice-zeros : (k n j : ℕ) → k + n ≤ j → slice k n (replicate j 0) ≡ replicate n 0
unfolding slice
slice-zeros zero zero j h = refl
slice-zeros zero (suc n) zero h = absurd (omega (arith, h))
slice-zeros zero (suc n) (suc j) h = ap (λ l. 0 ∷ l) (slice-zeros zero n j (omega (arith, h)))
slice-zeros (suc k) n zero h = absurd (omega (arith, h))
slice-zeros (suc k) n (suc j) h = slice-zeros k n j (omega (arith, h))

-- A text behind the first `size` bytes of a message is not there yet.
missing :
    (size k n : ℕ) (t : List ℕ)
    → length t ≡ size
    → size ≤ k
    → k + n ≤ msg_size
    → slice k n (t ++ replicate (msg_size - length t) 0) ≡ replicate n 0
missing size k n t long before inside =
    let shift : k ≡ size + (k - size) = omega (arith, before) in
    ap (λ i. slice i n (t ++ replicate (msg_size - length t) 0)) shift
    ∙ slice-past size (k - size) n t (replicate (msg_size - length t) 0) long
    ∙ slice-zeros (k - size) n (msg_size - length t) (omega (arith, long, before, inside))

-- The first number of a message is there.
number_kept :
    (size : ℕ) (b : List ℕ)
    → 4 ≤ size
    → 4 ≤ length (take size b)
    → slice 0 4 (take size b ++ replicate (msg_size - length (take size b)) 0) ≡ slice 0 4 b
unfolding slice
number_kept size b low h =
    take-first 4 (take size b) (replicate (msg_size - length (take size b)) 0) h
    ∙ take-take 4 size b low

-- When a `recv` of the server hands over only the first bytes of a message, at least its first 4 and at
-- most the 32 of its numbers, the loop acts on a message with the right action and with empty texts: name,
-- password, receiver and message. What is left of the message is read as the next one.
pub split_message :
    (m : Msg) (rest : List ℕ) (size : ℕ) (sizes : List ℕ)
    → FitsMsg m
    → 4 ≤ size
    → size ≤ 32
    → (first : Msg) × (server_reads (msg_bytes m ++ rest) (size ∷ sizes)
        ≡ first ∷ server_reads (drop size (msg_bytes m) ++ rest) sizes)
      × (first.action ≡ m.action)
      × (first.name ≡ zeroed.name)
      × (first.password ≡ zeroed.password)
      × (first.toname ≡ zeroed.toname)
      × (first.message ≡ zeroed.message)
unfolding server_reads received bytes_msg
split_message m rest size sizes f low high =
    let long = length-msg_bytes m f in
    let came = take size (msg_bytes m) in
    let same = take-first size (msg_bytes m) rest (omega (arith, long, high)) in
    let came_long : length came ≡ size =
      omega (arith, length-take size (msg_bytes m), long, high) in
    let came_some : 0 < length (take size (msg_bytes m ++ rest)) =
      omega (arith, ap length same, came_long, low) in
    (
      received came,
      read_round-some (take size (msg_bytes m ++ rest)) _ came_some
          ∙ ap₂ (λ t r. received t ∷ server_reads r sizes) same
              (drop-first size (msg_bytes m) rest (omega (arith, long, high))),
      ap (λ l. int_of (un_le l)) (number_kept size (msg_bytes m) low (omega (arith, came_long)))
          ∙ ap (λ x. x.action) (bytes_msg-msg_bytes m f),
      missing size 32 20 came came_long high (omega arith),
      missing size 52 20 came came_long (omega (arith, high)) (omega arith),
      missing size 72 20 came came_long (omega (arith, high)) (omega arith),
      missing size 112 1024 came came_long (omega (arith, high)) (omega arith),
    )
