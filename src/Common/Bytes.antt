-- ===== src/Common/Bytes.antt =====
-- Little-endian fields of a byte buffer, as the C code reads and writes them through pointer casts.
use Prim.Native.Nat.{ℕ, ◌+◌, ◌*◌, ◌/◌, ◌%◌, ◌^◌, ◌<◌, ◌≤◌}
use mathlib.Core.Path.{◌≡◌, refl}
use mathlib.Core.Logic.{◌≢◌, ◌⊎◌}
use mathlib.Core.List.{List, [], ◌∷◌}
use native.Mathlib.Omega.{arith}
use can_boot.Common.Lists.{length, get_or, set, length-set, get_or-set_self, get_or-set_ne}

abbrev pub IsByte : ℕ → Type 0
IsByte b = b < 256

-- Byte `i`; 0 past the end of the buffer.
abbrev pub byte_at : List ℕ → ℕ → ℕ
byte_at buf i = get_or buf i 0

unfoldable pub get16 : List ℕ → ℕ → ℕ
get16 buf i = byte_at buf i + 2 ^ 8 * byte_at buf (i + 1)

unfoldable pub get32 : List ℕ → ℕ → ℕ
get32 buf i =
    byte_at buf i
    + 2 ^ 8 * byte_at buf (i + 1)
    + 2 ^ 16 * byte_at buf (i + 2)
    + 2 ^ 24 * byte_at buf (i + 3)

unfoldable pub put16 : List ℕ → ℕ → ℕ → List ℕ
put16 buf i v = set (set buf i (v % 256)) (i + 1) (v / 256 % 256)

unfoldable pub put32 : List ℕ → ℕ → ℕ → List ℕ
put32 buf i v =
    set (set (set (set buf i (v % 256)) (i + 1) (v / 2 ^ 8 % 256)) (i + 2) (v / 2 ^ 16 % 256))
      (i + 3) (v / 2 ^ 24 % 256)

-- memcpy(buf + i, src, length src)
unfoldable pub blit : List ℕ → ℕ → List ℕ → List ℕ
blit buf i [] = buf
blit buf i (x ∷ xs) = blit (set buf i x) (i + 1) xs

pub length-put32 : (buf : List ℕ) (i v : ℕ) → length (put32 buf i v) ≡ length buf
unfolding put32
length-put32 buf i v = omega (arith, length-set {0})

pub length-blit : (buf : List ℕ) (i : ℕ) (xs : List ℕ) → length (blit buf i xs) ≡ length buf
unfolding blit
length-blit buf i [] = refl
length-blit buf i (x ∷ xs) = omega (arith, length-blit (set buf i x) (i + 1) xs, length-set buf i x)

pub byte_at-set_self : (buf : List ℕ) (i v : ℕ) → i < length buf → byte_at (set buf i v) i ≡ v
byte_at-set_self buf i v h = get_or-set_self buf i v 0 h

pub byte_at-set_ne : (buf : List ℕ) (i j v : ℕ) → i ≢ j → byte_at (set buf i v) j ≡ byte_at buf j
byte_at-set_ne buf i j v h = get_or-set_ne buf i j v 0 h

-- What byte `j` is after four bytes were written from `i` on.
byte_at-put32 :
    (buf : List ℕ) (i v j : ℕ) → (j < i) ⊎ (i + 4 ≤ j) → byte_at (put32 buf i v) j ≡ byte_at buf j
unfolding put32
byte_at-put32 buf i v j h = rw (byte_at-set_ne _ (i + 3) j _ (omega arith)) (
    rw (byte_at-set_ne _ (i + 2) j _ (omega arith)) (
      rw (byte_at-set_ne _ (i + 1) j _ (omega arith))
        (rw (byte_at-set_ne buf i j _ (omega arith)))))

module _ (buf : List ℕ) (i v : ℕ) (h : i + 4 ≤ length buf) where
  byte_0-put32 : byte_at (put32 buf i v) i ≡ v % 256
  unfolding put32
  byte_0-put32 = rw (byte_at-set_ne _ (i + 3) i _ (omega arith)) (
      rw (byte_at-set_ne _ (i + 2) i _ (omega arith))
        (rw (byte_at-set_ne _ (i + 1) i _ (omega arith)) (byte_at-set_self buf i _ (omega arith))))

  byte_1-put32 : byte_at (put32 buf i v) (i + 1) ≡ v / 2 ^ 8 % 256
  unfolding put32
  byte_1-put32 = rw (byte_at-set_ne _ (i + 3) (i + 1) _ (omega arith)) (
      rw (byte_at-set_ne _ (i + 2) (i + 1) _ (omega arith))
        (byte_at-set_self _ (i + 1) _ (omega (arith, length-set {0}))))

  byte_2-put32 : byte_at (put32 buf i v) (i + 2) ≡ v / 2 ^ 16 % 256
  unfolding put32
  byte_2-put32 =
      rw (byte_at-set_ne _ (i + 3) (i + 2) _ (omega arith))
        (byte_at-set_self _ (i + 2) _ (omega (arith, length-set {0})))

  byte_3-put32 : byte_at (put32 buf i v) (i + 3) ≡ v / 2 ^ 24 % 256
  unfolding put32
  byte_3-put32 = byte_at-set_self _ (i + 3) _ (omega (arith, length-set {0}))

  -- A 32-bit field reads back as it was written.
  pub get32-put32_self : get32 (put32 buf i v) i ≡ v % 2 ^ 32
  unfolding get32
  get32-put32_self = omega (arith, byte_0-put32, byte_1-put32, byte_2-put32, byte_3-put32)

-- A write leaves the 32-bit fields alone that it does not overlap.
pub get32-put32_ne :
    (buf : List ℕ) (i v j : ℕ) → (j + 4 ≤ i) ⊎ (i + 4 ≤ j) → get32 (put32 buf i v) j ≡ get32 buf j
unfolding get32
get32-put32_ne buf i v j h = omega (
  arith,
  byte_at-put32 buf i v j (omega arith),
  byte_at-put32 buf i v (j + 1) (omega arith),
  byte_at-put32 buf i v (j + 2) (omega arith),
  byte_at-put32 buf i v (j + 3) (omega arith),
)
