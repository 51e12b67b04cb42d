-- ===== src/Vfs/Streams.antt =====
-- fs/vfs.c: directory streams, `opendir` behind its listing, `readdir` and `rewinddir`.
use can_boot.Common.{
  ℕ, zero, suc, ◌+◌, ◌-◌, Bool, ◌&&◌, Option, none, some, List, [], ◌∷◌, ltb, leb, ◌==◌,
  if◌then◌else◌, length, get_or, take, drop,
}
use can_boot.Fat32.Names.{slash}
use can_boot.Disk.{Outcome, ok, err, fault, out_of_fuel}
use can_boot.Vfs.{Vfs}
use can_boot.Vfs.Paths.{resolve}
use can_boot.Vfs.Posix.{Reply, value, error, enoent, at_path, with_primary}
use can_boot.Vfs.Calls.{Driver, primary, vfs_list}

-- A row of `names` with its type.
pub record DirEntry : Type 0 where
  pub name : List ℕ
  pub is_dir : Bool

-- `struct __dirstream`; `count` is the number of entries.
pub record Stream : Type 0 where
  pub entries : List DirEntry
  pub position : ℕ

abbrev pub newline : ℕ
newline = 10

-- `while (j < n && listing[j] != '\n') j++;`
unfoldable pub line_at : List ℕ → List ℕ
line_at [] = []
line_at (c ∷ cs) = let rest = line_at cs in if c == newline then [] else c ∷ rest

-- A line's entry: the slash at its end is taken off, and at most 31 bytes are kept.
unfoldable pub entry_of : List ℕ → DirEntry
entry_of l =
    let n = length l in
    let dir = ltb 0 n && get_or l (n - 1) 0 == slash in
    record { name = take 31 (if dir then take (n - 1) l else l); is_dir = dir }

-- The loop of `opendir`, in at most as many rounds as there are rows.
unfoldable pub rows_of : ℕ → List ℕ → List DirEntry
rows_of zero text = []
rows_of (suc rows) [] = []
rows_of (suc rows) (c ∷ cs) =
    let l = line_at (c ∷ cs) in entry_of l ∷ rows_of rows (drop (length l + 1) (c ∷ cs))

-- VFS_DIR_MAX
abbrev pub max_entries : ℕ
max_entries = 128

abbrev pub stream_of : Outcome (List ℕ) × Vfs → Outcome (Reply Stream) × Vfs
stream_of (ok text, v) =
    (ok (value (record { entries = rows_of max_entries text; position = 0 })), v)
stream_of (err, v) = (ok (error enoent), v)
stream_of (fault, v) = (fault, v)
stream_of (out_of_fuel, v) = (out_of_fuel, v)

-- `opendir`; its allocation is taken to succeed.
unfoldable pub opendir : ℕ → Driver → Driver → Option (List ℕ) → Vfs → Outcome (Reply Stream) × Vfs
opendir fuel ext4_driver ntfs_driver path v = with_primary (primary v) (λ p.
    at_path (resolve v.cwd path 256)
      (λ abs w. stream_of (vfs_list fuel ext4_driver ntfs_driver abs 8192 w)))

unfoldable pub entry_at : List DirEntry → ℕ → Option DirEntry
entry_at [] i = none
entry_at (e ∷ es) zero = some e
entry_at (e ∷ es) (suc i) = entry_at es i

-- `readdir`: `none` behind the last entry, where the position stays.
unfoldable pub readdir : Stream → Option DirEntry × Stream
readdir d =
    if leb (length d.entries) d.position
    then (none, d)
    else (entry_at d.entries d.position, record d { position = d.position + 1 })

-- `rewinddir`
unfoldable pub rewinddir : Stream → Stream
rewinddir d = record d { position = 0 }
