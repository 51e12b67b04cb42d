-- ===== src/Disk.antt =====
-- The block device behind `struct canboot_disk` (hal/include/hal/disk.h) and the table of
-- registered disks (hal/disk/disk.c).
-- A transfer goes through the driver's function pointers. A driver is seen as a store of blocks
-- together with two arbitrary functions that say which transfers fail; a failed transfer leaves
-- the blocks as they were.
pub mod Run
pub mod Blocks
pub use Run.*
use can_boot.Common.{
  ℕ, zero, suc, ◌+◌, ◌-◌, ◌*◌, ◌<◌, Bool, true, false, ◌&&◌, List, [], ◌∷◌, ◌++◌, ltb, leb,
  if◌then◌else◌, take, drop,
}

pub record Disk : Type 0 where
  pub block_size : ℕ
  pub block_count : ℕ
  pub writable : Bool
  pub blocks : ℕ → List ℕ
  pub read_fails : ℕ → ℕ → Bool
  pub write_fails : ℕ → ℕ → Bool

-- What a function of the file systems does to the disk: its result beside the disk that it leaves,
-- also where it fails.
abbrev pub Io : Type 0 → Type 0
Io A = Disk → Outcome A × Disk

abbrev pub pure : {A : Type 0} → A → Io A
pure a d = (ok a, d)

abbrev pub fail : {A : Type 0} → Io A
fail d = (err, d)

abbrev pub exhausted : {A : Type 0} → Io A
exhausted d = (out_of_fuel, d)

abbrev pub trap : {A : Type 0} → Io A
trap d = (fault, d)

abbrev pub get_disk : Io Disk
get_disk d = (ok d, d)

abbrev pub resume : {A B : Type 0} → Outcome A → (A → Io B) → Io B
resume (ok a) f d = f a d
resume err f d = (err, d)
resume fault f d = (fault, d)
resume out_of_fuel f d = (out_of_fuel, d)

infixl 5 ◌>>=◌ ◌>>◌
abbrev pub ◌>>=◌ : {A B : Type 0} → Io A → (A → Io B) → Io B
◌>>=◌ m f d = resume (m d).0 f (m d).1

abbrev pub ◌>>◌ : {B : Type 0} → Io (Unit {0}) → Io B → Io B
m >> k = m >>= λ _. k

-- `if (!test) return -1;`
abbrev pub require : Bool → Io (Unit {0})
require true d = (ok tt, d)
require false d = (err, d)

-- `n` blocks from block `lba` on.
abbrev pub block_run : (ℕ → List ℕ) → ℕ → ℕ → List ℕ
block_run f lba zero = []
block_run f lba (suc n) = f lba ++ block_run f (lba + 1) n

-- The blocks after `n` of them, from block `lba` on, were taken from `buf`.
abbrev pub stored : ℕ → (ℕ → List ℕ) → ℕ → ℕ → List ℕ → ℕ → List ℕ
stored size f lba n buf k =
    if leb lba k && ltb k (lba + n) then take size (drop ((k - lba) * size) buf) else f k

-- `d->read(d, lba, n, buf)`
unfoldable pub read : ℕ → ℕ → Io (List ℕ)
read lba n d = if d.read_fails lba n then (err, d) else (ok (block_run d.blocks lba n), d)

-- `d->write(d, lba, n, buf)`
unfoldable pub write : ℕ → ℕ → List ℕ → Io (Unit {0})
write lba n buf d =
    if d.write_fails lba n
    then (err, d)
    else (ok tt, record d { blocks = stored d.block_size d.blocks lba n buf })
