-- ===== src/Disk/Blocks.antt =====
-- Transfers on a device that works, block by block.
use can_boot.Common.{
  ℕ, ◌-◌, ◌*◌, ◌≡◌, false, List, append-nil, fun_ext, arith, ◌==◌, if◌then◌else◌, length, drop,
  take_all,
}
use can_boot.Disk.{Disk, block_run, stored, read, write, ok}

-- No transfer fails, and every block has the device's size.
pub record IsSound (d : Disk) : Type 0 where
  pub readable : (lba n : ℕ) → d.read_fails lba n ≡ false
  pub writes : (lba n : ℕ) → d.write_fails lba n ≡ false
  pub whole : (lba : ℕ) → length (d.blocks lba) ≡ d.block_size

pub read-IsSound :
    (d : Disk) (lba n : ℕ) → IsSound d → read lba n d ≡ (ok (block_run d.blocks lba n), d)
unfolding read
read-IsSound d lba n s = rw s.readable

pub read_one : (d : Disk) (lba : ℕ) → IsSound d → read lba 1 d ≡ (ok (d.blocks lba), d)
unfolding read
read_one d lba s = rw (s.readable, append-nil)

-- The disk after block `lba` was replaced.
abbrev pub with_block : Disk → ℕ → List ℕ → Disk
with_block d lba buf = record d { blocks = λ k. if k == lba then buf else d.blocks k }

drop_at_start : (size lba k : ℕ) (buf : List ℕ) → k ≡ lba → drop ((k - lba) * size) buf ≡ buf
drop_at_start size lba k buf h =
    let zero_offset : (k - lba) * size ≡ 0 = grind arith in rw zero_offset

stored_one :
    (size : ℕ) (f : ℕ → List ℕ) (lba : ℕ) (buf : List ℕ) (k : ℕ)
    → length buf ≡ size
    → stored size f lba 1 buf k ≡ (if k == lba then buf else f k)
stored_one size f lba buf k h = ground (arith, drop_at_start size lba k buf, take_all size buf)

-- Writing one block of the right size replaces that block, and keeps the device sound.
pub write_one :
    (d : Disk) (lba : ℕ) (buf : List ℕ)
    → IsSound d
    → length buf ≡ d.block_size
    → write lba 1 buf d ≡ (ok tt, with_block d lba buf)
unfolding write
write_one d lba buf s h =
    rw (s.writes lba 1, fun_ext (λ k. stored_one d.block_size d.blocks lba buf k h))

pub with_block-IsSound :
    (d : Disk) (lba : ℕ) (buf : List ℕ)
    → IsSound d
    → length buf ≡ d.block_size
    → IsSound (with_block d lba buf)
with_block-IsSound d lba buf s h = record {
  readable = s.readable;
  writes = s.writes;
  whole = λ k. ground (arith, s.whole k);
}
