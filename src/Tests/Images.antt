-- ===== src/Tests/Images.antt =====
-- fs/iso9660.c on an image with one file.
use can_boot.Common.{
  Option, ℕ, ◌+◌, min, ◌≡◌, refl, ap, ◌∙◌, inl, inr, false, some, List, [], ◌∷◌, ◌++◌, append-nil,
  arith, ◌==◌, if◌then◌else◌, Bool-cases, length, take, replicate, length-append, length-replicate,
  same_bytes,
}
use can_boot.Common.Bytes.{get32}
use can_boot.Disk.{ok, Disk}
use can_boot.Fat32.Names.{before}
use can_boot.Common.First.{First}
use can_boot.Iso.Matches.{Matches}
use can_boot.Iso.{Iso, Extent, has_name, lookup, read_file}
use can_boot.Iso.Contents.{IsImage, image_from, read_file-image_from}
use can_boot.Iso.Records.{Record, IsRecord, laid, first_match}
use can_boot.Iso.Directory.{Holds, found, lookup-Holds}

-- "INIT.CDO;1"
abbrev init_name : List ℕ
init_name = 0x49 ∷ 0x4E ∷ 0x49 ∷ 0x54 ∷ 0x2E ∷ 0x43 ∷ 0x44 ∷ 0x4F ∷ 0x3B ∷ 0x31 ∷ []

-- "init.cdo"
abbrev sought : List ℕ
sought = 0x69 ∷ 0x6E ∷ 0x69 ∷ 0x74 ∷ 0x2E ∷ 0x63 ∷ 0x64 ∷ 0x6F ∷ []

-- 100 bytes from block 30 on.
abbrev init_record : Record
init_record = record {
  name = init_name;
  lba = 30;
  size = 100;
  bytes =
      43 ∷ 0 ∷ 30 ∷ 0 ∷ 0 ∷ 0 ∷ 0 ∷ 0 ∷ 0 ∷ 30 ∷ 100 ∷ 0 ∷ 0 ∷ 0 ∷ 0 ∷ 0 ∷ 0 ∷ 100 ∷ replicate 14 0
      ++ 10 ∷ init_name;
}

init_record-IsRecord : IsRecord init_record
unfolding get32
init_record-IsRecord = record {
  head = refl;
  room = omega arith;
  name_size = refl;
  named = refl;
  at = refl;
  sized = refl;
}

-- The directory is block 20.
abbrev contents : ℕ → List ℕ
contents l =
    if l == 20
    then laid (init_record ∷ []) 2005
    else (if l == 30 then replicate 2048 7 else replicate 2048 0)

abbrev image : Disk
image = record {
  block_size = 2048;
  block_count = 40;
  writable = false;
  blocks = contents;
  read_fails = λ l n. false;
  write_fails = λ l n. false;
}

contents_whole : (l : ℕ) → length (contents l) ≡ 2048
contents_whole l = elim (Bool-cases (l == 20)) [
  | inl h ↦ rw h (
      unfold laid in
      length-append (init_record.bytes) (replicate 2005 0)
      ∙ ap (λ (n : ℕ). 43 + n) (length-replicate {A = ℕ} 2005 0))
  | inr h ↦ elim (Bool-cases (l == 30)) [
    | inl h' ↦ rw (h, h') (length-replicate {A = ℕ} 2048 7)
    | inr h' ↦ rw (h, h') (length-replicate {A = ℕ} 2048 0)
  ]
]

abbrev opened : Iso
opened = record { sectors_per = 1; root_lba = 20; root_size = 2048 }

image-IsImage : IsImage opened image
image-IsImage = record {
  sound = record { readable = λ l n. refl; writes = λ l n. refl; whole = contents_whole };
  divides = refl;
  few = omega arith;
}

holds_init : Holds opened image 20 ((init_record ∷ []) ∷ [])
unfolding Holds
holds_init = ((2005, append-nil (laid (init_record ∷ []) 2005)), ((init_record-IsRecord, tt), tt))

found_init : first_match sought (init_record ∷ []) ≡ some (record { lba = 30; size = 100 })
unfolding first_match has_name before same_bytes
found_init = refl

lookup-Holds_example :
    (r : Option Extent) × (lookup [] opened sought image ≡ (found r, image))
    × First (Matches sought) (init_record ∷ []) r
lookup-Holds_example =
    lookup-Holds [] opened sought image ((init_record ∷ []) ∷ []) image-IsImage (omega arith)
      holds_init refl (omega arith)

read_file-image_from_example :
    read_file [] opened 30 100 64 image
    ≡ (ok (take (min 100 64) (image_from opened image 30 1)), image)
read_file-image_from_example =
    read_file-image_from [] opened 30 100 64 image image-IsImage (omega arith) (omega arith)
      (omega arith)
