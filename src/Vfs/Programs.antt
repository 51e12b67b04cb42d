-- ===== src/Vfs/Programs.antt =====
-- Programs that call the POSIX functions of fs/vfs.c.
use can_boot.Common.{ℕ, ◌≡◌, sym, ◌∙◌, Option, none, some, List, [], ◌∷◌}
use can_boot.Disk.{Outcome, ok, err, fault, out_of_fuel}
use mathlib.Core.Path.{subst}
use can_boot.Vfs.{Vfs}
use can_boot.Vfs.Calls.{Driver, primary, vfs_mkdir, vfs_rmdir, vfs_unlink, vfs_rename, vfs_list}
use can_boot.Vfs.Posix.{mkdir, rmdir, unlink, rename, chdir, stat}
use can_boot.Vfs.Streams.{opendir}
use can_boot.Vfs.Directory.{
  IsDirectory, resolve-IsDirectoryIn, primary-cwd, on_volume-cwd, at_path-IsDirectory,
  cwd_after-IsDirectory, stat_listed-cwd, stream_of-cwd, with_primary-IsDirectory,
}

-- A call of a program.
pub data PosixCall : Type 0 where
  makes_dir removes_dir unlinks changes_dir asks opens : Option (List ℕ) → PosixCall
  renames : Option (List ℕ) → Option (List ℕ) → PosixCall

abbrev HasDirectory : Option Vfs → Type 0
HasDirectory none = Unit {0}
HasDirectory (some v) = IsDirectory v.cwd

abbrev went_on : {A : Type 0} → Outcome A × Vfs → Option Vfs
went_on (ok a, v) = some v
went_on (err, v) = some v
went_on (fault, v) = none
went_on (out_of_fuel, v) = none

abbrev and_then : (Vfs → Option Vfs) → Option Vfs → Option Vfs
and_then rest none = none
and_then rest (some v) = rest v

HasDirectory-went_on :
    {A : Type 0} (r : Outcome A × Vfs) → IsDirectory r.1.cwd → HasDirectory (went_on r)
HasDirectory-went_on (ok a, w) here = here
HasDirectory-went_on (err, w) here = here
HasDirectory-went_on (fault, w) here = tt
HasDirectory-went_on (out_of_fuel, w) here = tt

after_rest :
    (o : Option Vfs) (rest : Vfs → Option Vfs) (v' : Vfs)
    → HasDirectory o
    → ((w : Vfs) → IsDirectory w.cwd → rest w ≡ some v' → IsDirectory v'.cwd)
    → and_then rest o ≡ some v'
    → IsDirectory v'.cwd
after_rest none rest v' at each same = absurd (cc)
after_rest (some w) rest v' at each same = each w at same

module _ (fuel : ℕ) (e n : Driver) where
  -- The state after a call; `none` where the call has overrun an array and nothing is known of the
  -- memory, or where the rounds given were used up.
  unfoldable pub after_call : PosixCall → Vfs → Option Vfs
  after_call (makes_dir path) v = went_on (mkdir fuel e n path v)
  after_call (removes_dir path) v = went_on (rmdir fuel e n path v)
  after_call (unlinks path) v = went_on (unlink fuel e n path v)
  after_call (changes_dir path) v = went_on (chdir fuel e n path v)
  after_call (asks path) v = went_on (stat fuel e n path v)
  after_call (opens path) v = went_on (opendir fuel e n path v)
  after_call (renames old_path new_path) v = went_on (rename fuel e n old_path new_path v)

  -- A program ends at the first call after which nothing is known.
  unfoldable pub after_calls : List PosixCall → Vfs → Option Vfs
  after_calls [] v = some v
  after_calls (c ∷ cs) v = and_then (after_calls cs) (after_call c v)

  vfs_list-cwd : (abs : List ℕ) (cap : ℕ) (v : Vfs) → (vfs_list fuel e n abs cap v).1.cwd ≡ v.cwd
  unfolding vfs_list
  vfs_list-cwd abs cap v = on_volume-cwd fuel e n (primary v) _ _ _ ∙ primary-cwd v

  after_call-IsDirectory :
      (c : PosixCall) (v : Vfs) → IsDirectory v.cwd → HasDirectory (after_call c v)
  unfolding after_call mkdir rmdir unlink chdir stat rename opendir vfs_mkdir vfs_rmdir vfs_unlink
      vfs_rename
  after_call-IsDirectory (makes_dir path) v here = HasDirectory-went_on _ (
      at_path-IsDirectory _ _ v (resolve-IsDirectoryIn v.cwd path) here (λ abs w good at.
        subst IsDirectory (sym (on_volume-cwd fuel e n (primary w) _ _ _ ∙ primary-cwd w)) at))
  after_call-IsDirectory (removes_dir path) v here = HasDirectory-went_on _ (
      at_path-IsDirectory _ _ v (resolve-IsDirectoryIn v.cwd path) here (λ abs w good at.
        subst IsDirectory (sym (on_volume-cwd fuel e n (primary w) _ _ _ ∙ primary-cwd w)) at))
  after_call-IsDirectory (unlinks path) v here = HasDirectory-went_on _ (
      at_path-IsDirectory _ _ v (resolve-IsDirectoryIn v.cwd path) here (λ abs w good at.
        subst IsDirectory (sym (on_volume-cwd fuel e n (primary w) _ _ _ ∙ primary-cwd w)) at))
  after_call-IsDirectory (changes_dir path) v here = HasDirectory-went_on _ (
      at_path-IsDirectory _ _ v (resolve-IsDirectoryIn v.cwd path) here (λ abs w good at.
        cwd_after-IsDirectory abs _ good (subst IsDirectory (sym (vfs_list-cwd abs 256 w)) at)))
  after_call-IsDirectory (asks path) v here = HasDirectory-went_on _ (
      with_primary-IsDirectory (primary v) _ (subst IsDirectory (sym (primary-cwd v)) here)
        (λ p w at.
          at_path-IsDirectory _ _ w (resolve-IsDirectoryIn v.cwd path) at (λ abs u good at'.
            subst IsDirectory (sym (stat_listed-cwd fuel p abs _ ∙ vfs_list-cwd abs 256 u)) at')))
  after_call-IsDirectory (opens path) v here = HasDirectory-went_on _ (
      with_primary-IsDirectory (primary v) _ (subst IsDirectory (sym (primary-cwd v)) here)
        (λ p w at.
          at_path-IsDirectory _ _ w (resolve-IsDirectoryIn v.cwd path) at (λ abs u good at'.
            subst IsDirectory (sym (stream_of-cwd _ ∙ vfs_list-cwd abs 8192 u)) at')))
  after_call-IsDirectory (renames old_path new_path) v here = HasDirectory-went_on _ (
      at_path-IsDirectory _ _ v (resolve-IsDirectoryIn v.cwd old_path) here (λ a w good at.
        at_path-IsDirectory _ _ w (resolve-IsDirectoryIn v.cwd new_path) at (λ b u good' at'.
          subst IsDirectory (sym (on_volume-cwd fuel e n (primary u) _ _ _ ∙ primary-cwd u)) at')))

  -- After any calls, as long as none of them has overrun an array of its own (as some paths with names
  -- longer than 31 bytes make them do) or run out of rounds, the working directory is empty or an
  -- absolute path of at most 255 bytes and 24 names, with one slash before each name and no name empty,
  -- ".", ".." or longer than 31 bytes.
  pub after_calls-IsDirectory :
      (cs : List PosixCall) (v v' : Vfs)
      → IsDirectory v.cwd
      → after_calls cs v ≡ some v'
      → IsDirectory v'.cwd
  unfolding after_calls
  after_calls-IsDirectory [] v v' here same = subst HasDirectory same here
  after_calls-IsDirectory (c ∷ cs) v v' here same =
      after_rest (after_call c v) (after_calls cs) v' (after_call-IsDirectory c v here)
        (λ w at same'. after_calls-IsDirectory cs w v' at same') same
