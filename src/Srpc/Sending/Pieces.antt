-- ===== src/Srpc/Sending/Pieces.antt =====
-- srpc.c: the pieces that a message is cut into, and a block that they are copied to.
use hwdb_opendpi.Prelude.{
  ℕ, ◌+◌, ◌-◌, ◌*◌, ◌/◌, ◌^◌, ◌≤◌, ◌<◌, ◌≡◌, refl, ◌∙◌, some, List, ◌++◌, true, arith, leb, length,
  take, drop, length-append, length-take, take-take_append, drop-take_append, take-add,
}
use hwdb_opendpi.Payload.{fr_size}
use hwdb_opendpi.Srpc.{memcpy_at}
use hwdb_opendpi.Srpc.Sending.{fragments_of, last_length, piece}

-- The longest message that 255 fragments hold.
abbrev pub longest : ℕ
longest = 255 * 1024

abbrev pub Sendable : List ℕ → Type 0
Sendable m = (1 ≤ length m) × (length m ≤ longest)

pub fragments_of-lt : (len : ℕ) → fragments_of len < 2 ^ 8
unfolding fragments_of
fragments_of-lt len = omega arith

pub fragments_of_lem :
    (len : ℕ) → 1 ≤ len → len ≤ longest → fragments_of len ≡ (len - 1) / fr_size + 1
unfolding fragments_of
fragments_of_lem len h k = omega arith

-- The last piece is what the others leave, and is neither empty nor longer than they are.
pub last_length_lem :
    (len : ℕ)
    → 1 ≤ len
    → len ≤ longest
    → (fr_size * (fragments_of len - 1) + last_length len (fragments_of len) ≡ len)
      × (1 ≤ last_length len (fragments_of len))
      × (last_length len (fragments_of len) ≤ fr_size)
unfolding last_length
last_length_lem len h k = rw (fragments_of_lem len h k) (omega arith)

-- A piece that ends within the message is the bytes at its place.
pub piece_lem :
    (m : List ℕ) (fnum k : ℕ)
    → fr_size * (fnum - 1) + k ≤ length m
    → piece m fnum k ≡ some (take k (drop (fr_size * (fnum - 1)) m))
unfolding piece
piece_lem m fnum k h =
    let e : leb (fr_size * (fnum - 1) + k) (length m) ≡ true = ground arith in rw e refl

memcpy_at_fits :
    (dst : List ℕ) (off : ℕ) (src : List ℕ) (k : ℕ)
    → off + k ≤ length dst
    → k ≤ length src
    → memcpy_at dst off src k ≡ some (take off dst ++ (take k src ++ drop (off + k) dst))
unfolding memcpy_at
memcpy_at_fits dst off src k h l =
    let e : leb (off + k) (length dst) ≡ true = ground arith in
    let e' : leb k (length src) ≡ true = ground arith in rw (e, e') refl

-- A block that begins with the first `o` bytes of the message begins with the piece behind them
-- once it is written.
pub memcpy_at-slice :
    (m rest src : List ℕ) (o k : ℕ)
    → take k src ≡ take k (drop o m)
    → k ≤ length src
    → o + k ≤ length m
    → o + length rest ≡ length m
    → memcpy_at (take o m ++ rest) o src k ≡ some (take (o + k) m ++ drop k rest)
memcpy_at-slice m rest src o k same long h l =
    memcpy_at_fits (take o m ++ rest) o src k
      (omega (arith, length-append (take o m) rest, length-take o m)) long
    ∙ rw
        (
          take-take_append o m rest (omega arith),
          same,
          drop-take_append o k m rest (omega arith),
          take-add o k m (drop k rest),
        )
        refl
