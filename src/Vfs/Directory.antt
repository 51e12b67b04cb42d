-- ===== src/Vfs/Directory.antt =====
-- The working directory of fs/vfs.c, through all calls.
use can_boot.Common.{
  ℕ, ◌+◌, ◌≤◌, ◌≡◌, refl, ◌⊎◌, inl, inr, Bool, true, false, Option, none, some, List, [], arith,
  ltb, leb, if◌then◌else◌, leb→le, Bool-cases, length, take, take_all,
}
use can_boot.Disk.{Outcome, ok, err, fault, out_of_fuel, Io}
use can_boot.Vfs.{Vfs, Primary, search_primary, is_fat32}
use can_boot.Vfs.Paths.{normalize, normalize_in, resolve, joined, starts_at_root}
use can_boot.Vfs.Rounds.{IsClean}
use can_boot.Vfs.Normal.{normalize-IsClean}
use can_boot.Vfs.Calls.{Driver, on_volume, primary, primary_from, after_search}
use can_boot.Vfs.Posix.{Reply, at_path, with_primary, cwd_after, stat_listed, stat_file}
use can_boot.Vfs.Streams.{stream_of}

-- Empty, or an absolute path without needless parts that fits 256 bytes.
unfoldable pub IsDirectory : List ℕ → Type 0
IsDirectory p = (p ≡ []) ⊎ (IsClean p × (length p ≤ 255))

pub IsDirectoryIn : Outcome (List ℕ) → Type 0
IsDirectoryIn (ok p) = IsDirectory p
IsDirectoryIn _ = Unit {0}

normalize_in-IsDirectoryIn : (p : List ℕ) → IsDirectoryIn (normalize_in 256 p)
unfolding IsDirectoryIn IsDirectory
normalize_in-IsDirectoryIn p = elim (Bool-cases (leb (length (normalize p) + 1) 256)) [
  | inl h ↦
      let short = leb→le (length (normalize p) + 1) 256 h in
      rw h (inr (normalize-IsClean p, omega (arith, short)))
  | inr h ↦ rw h tt
]

IsDirectoryIn-if :
    (b : Bool) (o o' : Outcome (List ℕ))
    → IsDirectoryIn o
    → IsDirectoryIn o'
    → IsDirectoryIn (if b then o else o')
IsDirectoryIn-if true o o' h h' = h
IsDirectoryIn-if false o o' h h' = h'

pub resolve-IsDirectoryIn :
    (cwd : List ℕ) (path : Option (List ℕ)) → IsDirectoryIn (resolve cwd path 256)
unfolding resolve
resolve-IsDirectoryIn cwd none = unfold IsDirectoryIn in unfold IsDirectory in inl refl
resolve-IsDirectoryIn cwd (some path) =
    IsDirectoryIn-if (starts_at_root path) _ _ (normalize_in-IsDirectoryIn (take 255 path)) (
      IsDirectoryIn-if (ltb 256 (length cwd + 1 + length path + 1)) (ok []) _
        (unfold IsDirectoryIn in unfold IsDirectory in inl refl)
        (normalize_in-IsDirectoryIn (joined cwd path)))

after_search-cwd : (v : Vfs) (o : Outcome Primary) → (after_search v o).1.cwd ≡ v.cwd
after_search-cwd v (ok p) = refl
after_search-cwd v err = refl
after_search-cwd v fault = refl
after_search-cwd v out_of_fuel = refl

primary_from-cwd : (o : Option Primary) (v : Vfs) → (primary_from o v).1.cwd ≡ v.cwd
primary_from-cwd (some p) v = refl
primary_from-cwd none v = after_search-cwd v (search_primary v.devices)

pub primary-cwd : (v : Vfs) → (primary v).1.cwd ≡ v.cwd
unfolding primary
primary-cwd v = primary_from-cwd v.chosen v

module _ (fuel : ℕ) (e n : Driver) where
  pub on_volume-cwd :
      {A : Type 0}
      → (r : Outcome Primary × Vfs) (on_fat : _ → Io A) (on_ext on_nt : ℕ → Io A)
      → (on_volume fuel e n r on_fat on_ext on_nt).1.cwd ≡ r.1.cwd
  on_volume-cwd (ok p, v) on_fat on_ext on_nt = refl
  on_volume-cwd (err, v) on_fat on_ext on_nt = refl
  on_volume-cwd (fault, v) on_fat on_ext on_nt = refl
  on_volume-cwd (out_of_fuel, v) on_fat on_ext on_nt = refl

pub at_path-IsDirectory :
    {A : Type 0}
    → (r : Outcome (List ℕ)) (op : List ℕ → Vfs → Outcome A × Vfs) (v : Vfs) → IsDirectoryIn r
    → IsDirectory v.cwd
    → ((abs : List ℕ) (w : Vfs)
        → IsDirectory abs
        → IsDirectory w.cwd
        → IsDirectory (op abs w).1.cwd)
    → IsDirectory (at_path r op v).1.cwd
unfolding IsDirectory IsDirectoryIn
at_path-IsDirectory (ok abs) op v good here keeps = keeps abs v good here
at_path-IsDirectory err op v good here keeps = here
at_path-IsDirectory fault op v good here keeps = here
at_path-IsDirectory out_of_fuel op v good here keeps = here

pub cwd_after-IsDirectory :
    (abs : List ℕ) (r : Outcome (List ℕ) × Vfs)
    → IsDirectory abs
    → IsDirectory r.1.cwd
    → IsDirectory (cwd_after abs r).1.cwd
unfolding IsDirectory
cwd_after-IsDirectory abs (ok text, v) (inl empty) here = inl (rw empty refl)
cwd_after-IsDirectory abs (ok text, v) (inr (clean, short)) here =
    rw (take_all 255 abs short) (inr (clean, short))
cwd_after-IsDirectory abs (err, v) good here = here
cwd_after-IsDirectory abs (fault, v) good here = here
cwd_after-IsDirectory abs (out_of_fuel, v) good here = here

stat_file-cwd :
    (fuel : ℕ) (p : Primary) (abs : List ℕ) (v : Vfs) → (stat_file fuel p abs v).1.cwd ≡ v.cwd
stat_file-cwd fuel p abs v = elim (Bool-cases (is_fat32 p.type)) [
  | inl h ↦ rw h refl
  | inr h ↦ rw h refl
]

pub stat_listed-cwd :
    (fuel : ℕ) (p : Primary) (abs : List ℕ) (r : Outcome (List ℕ) × Vfs)
    → (stat_listed fuel p abs r).1.cwd ≡ r.1.cwd
stat_listed-cwd fuel p abs (ok text, v) = refl
stat_listed-cwd fuel p abs (err, v) = stat_file-cwd fuel p abs v
stat_listed-cwd fuel p abs (fault, v) = refl
stat_listed-cwd fuel p abs (out_of_fuel, v) = refl

pub stream_of-cwd : (r : Outcome (List ℕ) × Vfs) → (stream_of r).1.cwd ≡ r.1.cwd
stream_of-cwd (ok text, v) = refl
stream_of-cwd (err, v) = refl
stream_of-cwd (fault, v) = refl
stream_of-cwd (out_of_fuel, v) = refl

pub with_primary-IsDirectory :
    {A : Type 0}
    → (r : Outcome Primary × Vfs) (rest : Primary → Vfs → Outcome (Reply A) × Vfs)
    → IsDirectory r.1.cwd
    → ((p : Primary) (w : Vfs) → IsDirectory w.cwd → IsDirectory (rest p w).1.cwd)
    → IsDirectory (with_primary r rest).1.cwd
with_primary-IsDirectory (ok p, v) rest here keeps = keeps p v here
with_primary-IsDirectory (err, v) rest here keeps = here
with_primary-IsDirectory (fault, v) rest here keeps = here
with_primary-IsDirectory (out_of_fuel, v) rest here keeps = here
