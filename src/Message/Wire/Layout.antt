-- ===== src/Message/Wire/Layout.antt =====
-- A message survives its bytes.
use linux_cat.Common.{
  ℕ, zero, suc, ◌+◌, ◌-◌, ◌*◌, ◌/◌, ◌<◌, ◌≡◌, refl, ◌∙◌, ap, ℤ, pos, negsuc, List, [], ◌∷◌, ◌++◌,
  ltb, false, total, length, length-append, take, drop, arith, get_or,
}
use linux_cat.Message.{Msg}
use linux_cat.Message.Wire.{
  le, un_le, int_bits, int_of, fields, join, slice, msg_bytes, bytes_msg, msg_size,
}

-- How many numbers `n` bytes hold
abbrev pub limit : ℕ → ℕ
limit zero = 1
limit (suc n) = 256 * limit n

un_le-le : (n v : ℕ) → v < limit n → un_le (le n v) ≡ v
unfolding le un_le
un_le-le zero v h = omega (arith, h)
un_le-le (suc n) v h = omega (arith, h, un_le-le n (v / 256) (omega (arith, h)))

length-le : (n v : ℕ) → length (le n v) ≡ n
unfolding le
length-le zero v = refl
length-le (suc n) v = ap suc (length-le n (v / 256))

-- What an `int` can hold
abbrev pub IsInt : ℤ → Type 0
IsInt (pos n) = n < 2147483648
IsInt (negsuc n) = n < 2147483648

int_bits-small : (a : ℤ) → IsInt a → int_bits a < 4294967296
unfolding int_bits
int_bits-small (pos n) h = omega (arith, h)
int_bits-small (negsuc n) h = omega (arith, h)

int_of-int_bits : (a : ℤ) → IsInt a → int_of (int_bits a) ≡ a
unfolding int_of int_bits
int_of-int_bits (pos n) h = ground (arith, h)
int_of-int_bits (negsuc n) h =
    let high : ltb (4294967295 - n) 2147483648 ≡ false = ground (arith, h) in
    let back : 4294967295 - (4294967295 - n) ≡ n = omega (arith, h) in rw high (ap negsuc back)

-- The numbers fit their fields, and the arrays are as long as declared.
pub record FitsMsg (m : Msg) : Type 0 where
  pub action_fits : IsInt m.action
  pub sfile_id_fits : m.sfile_id < 2147483648
  pub filesize_fits : m.filesize < 2147483648
  pub count_fits : m.count < 2147483648
  pub bs_fits : m.bs < 2147483648
  pub offset_fits : m.offset < 2147483648
  pub cfd_fits : m.cfd < 9223372036854775808
  pub name_long : length m.name ≡ 20
  pub password_long : length m.password ≡ 20
  pub toname_long : length m.toname ≡ 20
  pub filename_long : length m.filename ≡ 20
  pub message_long : length m.message ≡ 1024
  pub now_time_long : length m.now_time ≡ 32

-- The sizes of the fields
abbrev pub sizes : List ℕ
sizes = 4 ∷ 4 ∷ 4 ∷ 4 ∷ 4 ∷ 4 ∷ 8 ∷ 20 ∷ 20 ∷ 20 ∷ 20 ∷ 1024 ∷ 32 ∷ []

abbrev AreLong : List ℕ → List (List ℕ) → Type 0
AreLong [] [] = Unit {0}
AreLong (n ∷ ns) (p ∷ ps) = (length p ≡ n) × AreLong ns ps
AreLong _ _ = ⊥

abbrev offset_of : List ℕ → ℕ → ℕ
offset_of [] i = 0
offset_of (n ∷ ns) zero = 0
offset_of (n ∷ ns) (suc i) = n + offset_of ns i

slice-here : (n : ℕ) (a r : List ℕ) → length a ≡ n → slice 0 n (a ++ r) ≡ a
unfolding slice
slice-here zero [] r h = refl
slice-here zero (x ∷ a) r h = absurd (omega (arith, h))
slice-here (suc n) [] r h = absurd (omega (arith, h))
slice-here (suc n) (x ∷ a) r h = ap (λ l. x ∷ l) (slice-here n a r (omega (arith, h)))

pub slice-past : (j k n : ℕ) (a r : List ℕ) → length a ≡ j → slice (j + k) n (a ++ r) ≡ slice k n r
unfolding slice
slice-past zero k n [] r h = ap (λ i. take n (drop i r)) (omega arith)
slice-past zero k n (x ∷ a) r h = absurd (omega (arith, h))
slice-past (suc j) k n [] r h = absurd (omega (arith, h))
slice-past (suc j) k n (x ∷ a) r h =
    let e : suc j + k ≡ suc (j + k) = omega arith in
    ap (λ i. slice i n (x ∷ (a ++ r))) e ∙ slice-past j k n a r (omega (arith, h))

-- Each field lies behind the ones before it.
slice-field :
    (ns : List ℕ) (ps : List (List ℕ)) (i : ℕ)
    → AreLong ns ps
    → i < length ps
    → slice (offset_of ns i) (get_or ns i 0) (join ps) ≡ get_or ps i []
slice-field [] [] i long b = absurd (omega (arith, b))
slice-field [] (p ∷ ps) i long b = elim long [ ]
slice-field (n ∷ ns) [] i long b = elim long [ ]
slice-field (n ∷ ns) (p ∷ ps) zero (is_long, long) b = slice-here n p (join ps) is_long
slice-field (n ∷ ns) (p ∷ ps) (suc i) (is_long, long) b =
    slice-past n (offset_of ns i) (get_or ns i 0) p (join ps) is_long
    ∙ slice-field ns ps i long (omega (arith, b))

fields-AreLong : (m : Msg) → FitsMsg m → AreLong sizes (fields m)
fields-AreLong m f = (
  length-le 4 (int_bits m.action),
  (
    length-le 4 m.sfile_id,
    (
      length-le 4 m.filesize,
      (
        length-le 4 m.count,
        (
          length-le 4 m.bs,
          (
            length-le 4 m.offset,
            (
              length-le 8 m.cfd,
              (
                f.name_long,
                (
                  f.password_long,
                  (f.toname_long, (f.filename_long, (f.message_long, (f.now_time_long, tt)))),
                ),
              ),
            ),
          ),
        ),
      ),
    ),
  ),
)

-- The bytes of a message read back are the message.
pub bytes_msg-msg_bytes : (m : Msg) → FitsMsg m → bytes_msg (msg_bytes m) ≡ m
unfolding bytes_msg msg_bytes
bytes_msg-msg_bytes m f =
    let long = fields-AreLong m f in
    let at = λ (i : ℕ) (b : i < 13). slice-field sizes (fields m) i long b in
    let action_at : slice 0 4 (msg_bytes m) ≡ le 4 (int_bits m.action) = at 0 (omega arith) in
    let sfile_id_at : slice 4 4 (msg_bytes m) ≡ le 4 m.sfile_id = at 1 (omega arith) in
    let filesize_at : slice 8 4 (msg_bytes m) ≡ le 4 m.filesize = at 2 (omega arith) in
    let count_at : slice 12 4 (msg_bytes m) ≡ le 4 m.count = at 3 (omega arith) in
    let bs_at : slice 16 4 (msg_bytes m) ≡ le 4 m.bs = at 4 (omega arith) in
    let offset_at : slice 20 4 (msg_bytes m) ≡ le 4 m.offset = at 5 (omega arith) in
    let cfd_at : slice 24 8 (msg_bytes m) ≡ le 8 m.cfd = at 6 (omega arith) in
    let name_at : slice 32 20 (msg_bytes m) ≡ m.name = at 7 (omega arith) in
    let password_at : slice 52 20 (msg_bytes m) ≡ m.password = at 8 (omega arith) in
    let toname_at : slice 72 20 (msg_bytes m) ≡ m.toname = at 9 (omega arith) in
    let filename_at : slice 92 20 (msg_bytes m) ≡ m.filename = at 10 (omega arith) in
    let message_at : slice 112 1024 (msg_bytes m) ≡ m.message = at 11 (omega arith) in
    let now_time_at : slice 1136 32 (msg_bytes m) ≡ m.now_time = at 12 (omega arith) in
    let action_is : int_of (un_le (le 4 (int_bits m.action))) ≡ m.action =
      ap int_of (un_le-le 4 (int_bits m.action) (int_bits-small m.action f.action_fits))
      ∙ int_of-int_bits m.action f.action_fits in
    rw
      (
        action_at, sfile_id_at, filesize_at, count_at, bs_at, offset_at, cfd_at, name_at,
        password_at, toname_at, filename_at, message_at, now_time_at,
      )
      (rw
        (
          action_is,
          un_le-le 4 m.sfile_id (omega (arith, f.sfile_id_fits)),
          un_le-le 4 m.filesize (omega (arith, f.filesize_fits)),
          un_le-le 4 m.count (omega (arith, f.count_fits)),
          un_le-le 4 m.bs (omega (arith, f.bs_fits)),
          un_le-le 4 m.offset (omega (arith, f.offset_fits)),
          un_le-le 8 m.cfd (omega (arith, f.cfd_fits)),
        )
        refl)

length-join :
    (ns : List ℕ) (ps : List (List ℕ)) → AreLong ns ps → length (join ps) ≡ total (λ n. n) ns
length-join [] [] long = refl
length-join [] (p ∷ ps) long = elim long [ ]
length-join (n ∷ ns) [] long = elim long [ ]
length-join (n ∷ ns) (p ∷ ps) (is_long, long) =
    omega (arith, is_long, length-append p (join ps), length-join ns ps long)

pub length-msg_bytes : (m : Msg) → FitsMsg m → length (msg_bytes m) ≡ msg_size
unfolding msg_bytes
length-msg_bytes m f = length-join sizes (fields m) (fields-AreLong m f)
