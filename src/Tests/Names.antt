-- ===== src/Tests/Names.antt =====
-- fs/fat32.c: names and paths.
use can_boot.Common.{ℕ, ◌≤◌, ◌<◌, ◌≡◌, refl, some, List, [], ◌∷◌, ◌++◌, arith, replicate}
use can_boot.Common.Bytes.{byte_at}
use can_boot.Fat32.Names.{
  slash, dot, to_83, name_from_83, split_last, before, behind, trimmed, last_slash, split_at,
}
use can_boot.Fat32.Names.EightThree.{to_83-name_from_83, name_from_83-to_83}
use can_boot.Fat32.Names.Split.{Splits, split_last-Splits}
use can_boot.Fat32.Path.{max_component, resolve_dir, resolve_from}
use can_boot.Fat32.Path.Components.{IsPiece, join, resolve_dir-join, resolve_dir_long_name}
use can_boot.Tests.Volume.{volume, disk}

-- "init" and "cdo"
abbrev init : List ℕ
init = 0x69 ∷ 0x6E ∷ 0x69 ∷ 0x74 ∷ []

abbrev cdo : List ℕ
cdo = 0x63 ∷ 0x64 ∷ 0x6F ∷ []

init_packed :
    to_83 (init ++ dot ∷ cdo)
    ≡ 0x49 ∷ 0x4E ∷ 0x49 ∷ 0x54 ∷ 0x20 ∷ 0x20 ∷ 0x20 ∷ 0x20 ∷ 0x43 ∷ 0x44 ∷ 0x4F ∷ []
unfolding to_83 before behind
init_packed = refl

to_83-name_from_83_example :
    to_83 (name_from_83 (to_83 (init ++ dot ∷ cdo))) ≡ to_83 (init ++ dot ∷ cdo)
to_83-name_from_83_example = to_83-name_from_83 (init ++ dot ∷ cdo) (omega arith)

name_from_83-to_83_example :
    name_from_83 (to_83 (init ++ dot ∷ cdo))
    ≡ 0x49 ∷ 0x4E ∷ 0x49 ∷ 0x54 ∷ dot ∷ 0x43 ∷ 0x44 ∷ 0x4F ∷ []
name_from_83-to_83_example =
    name_from_83-to_83 init cdo (omega arith) (omega arith) (omega arith) (omega arith)
      (omega arith) (omega arith)

-- "/cdo/init/"
abbrev nested : List ℕ
nested = slash ∷ cdo ++ slash ∷ init ++ slash ∷ []

split_nested : split_last nested 256 16 ≡ some (record { parent = slash ∷ cdo; leaf = init })
unfolding split_last split_at trimmed last_slash
split_nested = refl

split_last-Splits_example :
    (len : ℕ) × (len ≤ 10)
    × ((i : ℕ) → len ≤ i → i < 10 → byte_at nested i ≡ slash)
    × Splits nested 256 16 len (record { parent = slash ∷ cdo; leaf = init })
split_last-Splits_example =
    split_last-Splits nested 256 16 (record { parent = slash ∷ cdo; leaf = init }) split_nested

cdo-IsPiece : IsPiece max_component cdo
cdo-IsPiece = omega arith

init-IsPiece : IsPiece max_component init
init-IsPiece = omega arith

resolve_dir-join_example :
    resolve_dir 4 volume (slash ∷ join (cdo ∷ init ∷ [])) disk
    ≡ resolve_from 4 volume 2 (cdo ∷ init ∷ []) disk
resolve_dir-join_example =
    resolve_dir-join 4 volume (cdo ∷ init ∷ []) disk (cdo-IsPiece, (init-IsPiece, tt))

-- Sixteen bytes 'a'
abbrev long_name : List ℕ
long_name = replicate 16 0x61

resolve_dir_long_name_example :
    resolve_dir 4 volume long_name disk
    ≡ resolve_from 4 volume 2 (replicate 15 0x61 ∷ (0x61 ∷ []) ∷ []) disk
resolve_dir_long_name_example =
    resolve_dir_long_name 4 volume long_name disk (omega arith) (omega arith) (omega arith)
