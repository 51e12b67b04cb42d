-- ===== src/Tests/Files.antt =====
-- fs/vfs.c: paths, the search for a volume, calls and listings.
use can_boot.Common.{
  ℕ, zero, suc, ◌≡◌, refl, ap, inr, true, false, some, List, [], ◌∷◌, ◌++◌, map, arith, length,
  replicate, All, same_bytes,
}
use can_boot.Disk.{ok, fault, Disk, pure}
use can_boot.Fat32.Names.{dot, slash}
use can_boot.Fat32.Path.{component, components, skip_slashes}
use can_boot.Fat32.Path.Components.{IsPiece, join}
use can_boot.Fat32.Root.{Report}
use can_boot.Tests.Volume.{disk}
use can_boot.Vfs.{ext4, Vfs, Device, Primary, search_primary}
use can_boot.Vfs.Paths.{normalize, resolve, after_name, after_names, names_of, max_name}
use can_boot.Vfs.Rounds.{IsName, IsClean}
use can_boot.Vfs.Normal.{normalize-normalize}
use can_boot.Vfs.Resolve.{Leads, resolve-join}
use can_boot.Vfs.Overrun.{IsLetter, resolve_long_name}
use can_boot.Vfs.Calls.{Driver, text_of, at_place, primary, vfs_mkdir, vfs_list}
use can_boot.Vfs.Posix.{mkdir, chdir}
use can_boot.Vfs.Directory.{IsDirectory}
use can_boot.Vfs.Programs.{
  PosixCall, makes_dir, changes_dir, opens, after_call, after_calls, after_calls-IsDirectory,
}
use can_boot.Vfs.Streams.{opendir, rows_of}
use can_boot.Vfs.Search.{Picks, search_primary-Picks}
use can_boot.Vfs.Listing.{room_for, as_entry, rows_of-text_of}

-- "usr" and "lib"
abbrev usr : List ℕ
usr = 0x75 ∷ 0x73 ∷ 0x72 ∷ []

abbrev lib : List ℕ
lib = 0x6C ∷ 0x69 ∷ 0x62 ∷ []

abbrev up : List ℕ
up = dot ∷ dot ∷ []

-- "//usr/./../lib/"
abbrev untidy : List ℕ
untidy = slash ∷ slash ∷ usr ++ slash ∷ dot ∷ slash ∷ up ++ slash ∷ lib ++ slash ∷ []

untidy_tidied : normalize untidy ≡ slash ∷ lib
unfolding names_of after_names join components skip_slashes component after_name same_bytes
untidy_tidied = refl

normalize-normalize_example :
    IsClean (normalize untidy) × (normalize (normalize untidy) ≡ normalize untidy)
normalize-normalize_example = normalize-normalize untidy

usr-IsPiece : IsPiece max_name usr
usr-IsPiece = omega arith

lib-IsPiece : IsPiece max_name lib
lib-IsPiece = omega arith

up-IsPiece : IsPiece max_name up
up-IsPiece = omega arith

usr-IsName : IsName usr
usr-IsName = record {
  piece = usr-IsPiece;
  not_dot = λ e. let one : 3 ≡ 1 = ap length e in absurd (omega arith);
  not_dots = λ e. let two : 3 ≡ 2 = ap length e in absurd (omega arith);
}

resolve-join_example :
    (r : List (List ℕ)) × (resolve (slash ∷ join (usr ∷ [])) (some (join (up ∷ lib ∷ []))) 256
      ≡ ok (slash ∷ join r))
    × Leads (usr ∷ []) (up ∷ lib ∷ []) r
resolve-join_example =
    resolve-join (usr ∷ []) up (lib ∷ []) 256 (usr-IsName, tt) (omega arith)
      (up-IsPiece, (lib-IsPiece, tt)) (unfold join in omega arith)

letters : (n : ℕ) → All IsLetter (replicate n 0x61)
unfolding IsLetter
letters zero = tt
letters (suc n) = ((omega arith, omega arith), letters n)

resolve_long_name_example : resolve (slash ∷ []) (some (slash ∷ replicate 250 0x61)) 256 ≡ fault
resolve_long_name_example =
    resolve_long_name (slash ∷ []) (replicate 250 0x61) (letters 250) (omega arith) (omega arith)

-- A disk whose first block says "FAT32".
abbrev marked : Disk
marked = record {
  block_size = 512;
  block_count = 9;
  writable = true;
  blocks = λ l. replicate 82 0 ++ 0x46 ∷ 0x41 ∷ 0x54 ∷ 0x33 ∷ 0x32 ∷ replicate 425 0;
  read_fails = λ l n. false;
  write_fails = λ l n. false;
}

abbrev sample : Device
sample = record { is_cdrom = false; disk = marked }

abbrev tray : Device
tray = record { is_cdrom = true; disk = disk }

search_primary-Picks_example :
    (p : Primary) × (search_primary (tray ∷ sample ∷ []) ≡ ok p) × Picks (tray ∷ sample ∷ []) p
search_primary-Picks_example =
    search_primary-Picks (tray ∷ sample ∷ []) (omega arith, (omega arith, tt))

-- A driver whose every call succeeds.
abbrev willing : Driver
willing = record {
  open_at = λ off size. pure 0;
  close = λ h. pure tt;
  delete = λ h path. pure tt;
  mkdir = λ h path. pure tt;
  rmdir = λ h path. pure tt;
  rename = λ h old_path new_path. pure tt;
  list = λ h path cap. pure [];
}

-- A system whose primary volume, of type ext4, is the second disk.
abbrev booted : Vfs
booted = record {
  chosen = some (record { type = ext4; place = 1 });
  cwd = slash ∷ [];
  devices = tray ∷ sample ∷ [];
}

abbrev program : List PosixCall
program = makes_dir (some usr) ∷ changes_dir (some usr) ∷ opens (some up) ∷ []

at_root : IsDirectory (slash ∷ [])
unfolding IsDirectory join
at_root = inr (record { names = []; each = tt; few = omega arith; text = refl }, omega arith)

abbrev in_usr : Vfs
in_usr = record booted { cwd = slash ∷ usr }

program_ends : after_calls 8 willing willing program booted ≡ some in_usr
unfolding after_calls after_call mkdir chdir opendir resolve names_of after_names after_name
    vfs_mkdir vfs_list primary at_place join components skip_slashes component same_bytes
program_ends = refl

after_calls-IsDirectory_example : IsDirectory in_usr.cwd
after_calls-IsDirectory_example =
    after_calls-IsDirectory 8 willing willing program booted in_usr at_root program_ends

abbrev listed : List Report
listed =
    record { name = usr; size = 0; is_dir = true }
    ∷ record { name = lib; size = 512; is_dir = false }
    ∷ []

rows_of-text_of_example : rows_of 128 (text_of 8192 0 listed) ≡ map as_entry listed
unfolding room_for
rows_of-text_of_example =
    rows_of-text_of 128 8192 0 listed (omega arith, (omega arith, tt)) (omega arith) (omega arith)
