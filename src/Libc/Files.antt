-- ===== src/Libc/Files.antt =====
-- rt/picolibc_port/syscalls.c: the table of open files behind fopen, for descriptors that belong to no
-- socket. What `slurp_boot_file` (Libc/Boot) brings is an argument
-- of `open_file`.
use can_boot.Common.{
  ℕ, zero, suc, ◌+◌, ◌-◌, ◌^◌, Bool, true, false, not, ◌||◌, Option, none, some, List, [], ltb, leb,
  ◌==◌, if◌then◌else◌, u64, length, take, drop,
}
use can_boot.Common.Int.{ℤ, pos, negsuc, ◌+ℤ◌}
use can_boot.Fat32.Path.{skip_slashes}
use can_boot.Disk.{Outcome, ok, err, fault}

-- `struct canboot_openfile`, with the bytes that `data` points to.
pub record OpenFile : Type 0 where
  pub used : Bool
  pub bytes : List ℕ
  pub size : ℕ
  pub at : ℕ

-- `g_files`, by slot.
abbrev pub Files : Type 0
Files = ℕ → OpenFile

-- CANBOOT_FILE_FD_BASE and CANBOOT_MAX_FILES
abbrev pub fd_base : ℕ
fd_base = 3

abbrev pub max_files : ℕ
max_files = 8

abbrev pub put : ℕ → OpenFile → Files → Files
put slot f fs k = if k == slot then f else fs k

-- `file_for_fd`: the slot of an open file.
unfoldable pub file_for_fd : ℕ → Files → Option ℕ
file_for_fd fd fs =
    let slot = fd - fd_base in
    if ltb fd fd_base || leb max_files slot
    then none
    else (if (fs slot).used then some slot else none)

abbrev pub read_at : ℕ → ℕ → Files → Outcome (List ℕ) × Files
read_at slot count fs =
    let f = fs slot in
    let avail = u64 (f.size + 2 ^ 64 - f.at) in
    let n = if ltb count avail then count else avail in
    if ltb (length f.bytes) (f.at + n)
    then (fault, fs)
    else (ok (take n (drop f.at f.bytes)), put slot (record f { at = f.at + n }) fs)

abbrev pub read_from : Option ℕ → ℕ → Files → Outcome (List ℕ) × Files
read_from none count fs = (err, fs)
read_from (some slot) count fs = read_at slot count fs

-- `read` of a descriptor other than 0: the bytes. `fault` is a copy from behind the data.
unfoldable pub read_fd : ℕ → ℕ → Files → Outcome (List ℕ) × Files
read_fd fd count fs = read_from (file_for_fd fd fs) count fs

pub data Whence : Type 0 where
  seek_set seek_cur seek_end other : Whence

abbrev pub seek_base : Whence → OpenFile → Option ℕ
seek_base seek_set f = some 0
seek_base seek_cur f = some f.at
seek_base seek_end f = some f.size
seek_base other f = none

abbrev pub move_to : ℕ → ℤ → Files → Outcome ℕ × Files
move_to slot (pos np) fs = (ok np, put slot (record (fs slot) { at = np }) fs)
move_to slot (negsuc n) fs = (err, fs)

abbrev pub seek_from : ℕ → ℤ → Option ℕ → Files → Outcome ℕ × Files
seek_from slot off none fs = (err, fs)
seek_from slot off (some base) fs = move_to slot (pos base +ℤ off) fs

abbrev pub seek_in : Option ℕ → ℤ → Whence → Files → Outcome ℕ × Files
seek_in none off whence fs = (err, fs)
seek_in (some slot) off whence fs = seek_from slot off (seek_base whence (fs slot)) fs

-- `lseek`
unfoldable pub lseek : ℕ → ℤ → Whence → Files → Outcome ℕ × Files
lseek fd off whence fs = seek_in (file_for_fd fd fs) off whence fs

-- The size that `fstat` reports, where the descriptor is that of a file.
abbrev size_in : Option ℕ → Files → Option ℕ
size_in none fs = none
size_in (some slot) fs = some (fs slot).size

unfoldable pub fstat : ℕ → Files → Option ℕ
fstat fd fs = size_in (file_for_fd fd fs) fs

abbrev close_in : Option ℕ → Files → Files
close_in none fs = fs
close_in (some slot) fs = put slot (record (fs slot) { used = false; bytes = [] }) fs

-- `close`
unfoldable pub close_fd : ℕ → Files → Files
close_fd fd fs = close_in (file_for_fd fd fs) fs

-- The first of the `n` slots from `i` on that is not used.
unfoldable pub free_file : ℕ → ℕ → Files → Option ℕ
free_file i zero fs = none
free_file i (suc n) fs = let rest = free_file (i + 1) n fs in if (fs i).used then rest else some i

abbrev fill : ℕ → Option (List ℕ) → Files → Outcome ℕ × Files
fill slot none fs = (err, put slot (record (fs slot) { used = false; bytes = [] }) fs)
fill slot (some text) fs = (
  ok (fd_base + slot),
  put slot (record { used = true; bytes = text; size = length text; at = 0 }) fs,
)

abbrev open_in : Option ℕ → Option (List ℕ) → Files → Outcome ℕ × Files
open_in none slurped fs = (err, fs)
open_in (some slot) slurped fs = fill slot slurped fs

abbrev pub file_name : List ℕ → List ℕ
file_name path = skip_slashes path

-- `open`, for reading only: `slurped` tells what a name without leading slashes brings.
unfoldable pub open_file : List ℕ → Bool → (List ℕ → Option (List ℕ)) → Files → Outcome ℕ × Files
open_file path read_only slurped fs =
    if not read_only || length (file_name path) == 0
    then (err, fs)
    else open_in (free_file 0 max_files fs) (slurped (file_name path)) fs
