-- ===== src/Vfs/Search.antt =====
-- What `primary` of fs/vfs.c finds.
use can_boot.Common.{
  ℕ, suc, ◌+◌, ◌≤◌, ◌≡◌, refl, sym, ap, ap₂, ◌∙◌, ◌⊎◌, inl, inr, Bool, true, false, not, ◌||◌,
  Option, none, some, List, [], ◌∷◌, arith, if◌then◌else◌, le→ltb, Bool-cases, take, drop, All,
  same_bytes,
}
use Prim.{⊥}
use mathlib.Core.Path.{subst}
use can_boot.Disk.{Outcome, ok, err, Disk, read, block_run}
use can_boot.Partition.{read_block}
use can_boot.Vfs.{
  VolumeType, no_volume, fat32, ntfs, Device, Primary, detect_at, is_fat32, is_other, pass,
  search_primary, nothing, detect_super, read_super, type_of_super,
}

-- The search looks at a writable disk that is no CD-ROM drive.
pub IsEligible : Device → Type 0
IsEligible v = (v.is_cdrom ≡ false) × (v.disk.writable ≡ true)

-- Not a disk that the pass takes.
pub IsPassed : (VolumeType → Bool) → Device → Type 0
IsPassed wanted v =
    IsEligible v → (t : VolumeType) × ((detect_at 0 v.disk).0 ≡ ok t) × (wanted t ≡ false)

-- Device number `i` is the first that is eligible and of a wanted type, and it is of type `t`.
pub data IsFirst (wanted : VolumeType → Bool) : List Device → VolumeType → ℕ → Type 0 where
  here :
      {v : Device} {vs : List Device} {t : VolumeType}
      → IsEligible v
      → (detect_at 0 v.disk).0 ≡ ok t
      → wanted t ≡ true
      → IsFirst wanted (v ∷ vs) t 0
  later :
      {v : Device} {vs : List Device} {t : VolumeType} {i : ℕ}
      → IsPassed wanted v
      → IsFirst wanted vs t i
      → IsFirst wanted (v ∷ vs) t (suc i)

-- The first FAT32 disk; without one the first of ext4 or NTFS; without that no volume.
pub data Picks (vs : List Device) (p : Primary) : Type 0 where
  picks_fat32 : IsFirst is_fat32 vs p.type p.place → Picks vs p
  picks_other : All (IsPassed is_fat32) vs → IsFirst is_other vs p.type p.place → Picks vs p
  picks_nothing :
      All (IsPassed is_fat32) vs → All (IsPassed is_other) vs → p.type ≡ no_volume → Picks vs p

-- A read that does not run over its buffer fails or gives bytes; the disk stays.
Answers : {A : Type 0} → Outcome A × Disk → Disk → Type 0
Answers {A} r d = (r ≡ (err, d)) ⊎ ((a : A) × (r ≡ (ok a, d)))

read-Answers : (lba n : ℕ) (d : Disk) → Answers (read lba n d) d
unfolding read Answers
read-Answers lba n d = elim (Bool-cases (d.read_fails lba n)) [
  | inl h ↦ inl (rw h refl)
  | inr h ↦ inr (block_run d.blocks lba n, rw h refl)
]

read_block-Answers : (lba : ℕ) (d : Disk) → d.block_size ≤ 512 → Answers (read_block lba d) d
unfolding read_block
read_block-Answers lba d small = rw (le→ltb 512 d.block_size small) (read-Answers lba 1 d)

read_super-Answers : (lba : ℕ) (d : Disk) → d.block_size ≤ 512 → Answers (read_super lba d) d
read_super-Answers lba d small = rw (le→ltb 512 d.block_size small) (read-Answers (lba + 2) 2 d)

abbrev Detects : Outcome VolumeType → Type 0
Detects o = (t : VolumeType) × (o ≡ ok t)

detect_super-Detects :
    (o : Option (List ℕ)) (d : Disk) → d.block_size ≤ 512 → Detects (detect_super 0 o d).0
unfolding Answers
detect_super-Detects none d small = (no_volume, refl)
detect_super-Detects (some buf) d small =
    elim (Bool-cases (same_bytes (take 4 (drop 3 buf)) (0x4E ∷ 0x54 ∷ 0x46 ∷ 0x53 ∷ []))) [
      | inl h ↦ (ntfs, rw h refl)
      | inr not_ntfs ↦
          elim (Bool-cases
            (same_bytes (take 5 (drop 82 buf)) (0x46 ∷ 0x41 ∷ 0x54 ∷ 0x33 ∷ 0x32 ∷ []))) [
              | inl h ↦ (fat32, rw (not_ntfs, h) refl)
              | inr not_fat ↦ elim (read_super-Answers 0 d small) [
                | inl failed ↦ (no_volume, rw (not_ntfs, not_fat, failed) refl)
                | inr (sb, got) ↦ (type_of_super (some sb), rw (not_ntfs, not_fat, got) refl)
              ]
            ]
    ]

detect_at-Detects : (d : Disk) → d.block_size ≤ 512 → Detects (detect_at 0 d).0
unfolding detect_at Answers
detect_at-Detects d small = elim (read_block-Answers 0 d small) [
  | inl failed ↦ (no_volume, rw failed refl)
  | inr (buf, got) ↦ rw got (detect_super-Detects (some buf) d small)
]

-- What a pass over the devices from number `k` on finds.
PassResult : (VolumeType → Bool) → ℕ → List Device → Outcome (Option Primary) → Type 0
PassResult wanted k vs o =
    ((o ≡ ok none) × All (IsPassed wanted) vs)
    ⊎ ((p : Primary) × (i : ℕ) × (o ≡ ok (some p)) × (p.place ≡ k + i) × IsFirst wanted vs p.type i)

PassResult-passed :
    (wanted : VolumeType → Bool) (k : ℕ) (v : Device) (vs : List Device)
    (o : Outcome (Option Primary))
    → IsPassed wanted v
    → PassResult wanted (k + 1) vs o
    → PassResult wanted k (v ∷ vs) o
unfolding PassResult
PassResult-passed wanted k v vs o passed (inl (nothing_found, all)) =
    inl (nothing_found, (passed, all))
PassResult-passed wanted k v vs o passed (inr (p, i, found, at, first)) =
    inr (p, suc i, found, omega (arith, at), later passed first)

module _ (wanted : VolumeType → Bool) (k : ℕ) (v : Device) (vs : List Device) where
  pass_barred :
      v.is_cdrom || not v.disk.writable ≡ true → pass wanted k (v ∷ vs) ≡ pass wanted (k + 1) vs
  unfolding pass
  pass_barred h = rw h refl

  pass_looks :
      (t : VolumeType)
      → v.is_cdrom || not v.disk.writable ≡ false
      → (detect_at 0 v.disk).0 ≡ ok t
      → pass wanted k (v ∷ vs)
        ≡ (if wanted t then ok (some (record { type = t; place = k })) else pass wanted (k + 1) vs)
  unfolding pass
  pass_looks t open_to_it is_t = rw (open_to_it, is_t) refl

barred-or-IsEligible :
    (v : Device)
    → (v.is_cdrom || not v.disk.writable ≡ true × (IsEligible v → ⊥))
      ⊎ (v.is_cdrom || not v.disk.writable ≡ false × IsEligible v)
unfolding IsEligible
barred-or-IsEligible v = elim (Bool-cases v.is_cdrom) [
  | inl h ↦ inl (ap (λ (b : Bool). b || not v.disk.writable) h, λ e. let c = e.0 in cc)
  | inr h ↦ elim (Bool-cases v.disk.writable) [
    | inr off ↦ inl (ap₂ (λ (a b : Bool). a || not b) h off, λ e. let c = e.1 in cc)
    | inl on ↦ inr (ap₂ (λ (a b : Bool). a || not b) h on, (h, on))
  ]
]

pass-Result :
    (wanted : VolumeType → Bool) (k : ℕ) (vs : List Device)
    → All (λ v. v.disk.block_size ≤ 512) vs
    → PassResult wanted k vs (pass wanted k vs)
unfolding PassResult IsPassed
pass-Result wanted k [] small = inl (unfold pass in refl, tt)
pass-Result wanted k (v ∷ vs) small =
    let rest = pass-Result wanted (k + 1) vs small.1 in
    let (t, is_t) = detect_at-Detects v.disk small.0 in
    elim (barred-or-IsEligible v) [
      | inl (barred, not_eligible) ↦
          subst (PassResult wanted k (v ∷ vs)) (sym (pass_barred wanted k v vs barred))
            (PassResult-passed wanted k v vs _ (λ e. absurd (not_eligible e)) rest)
      | inr (open_to_it, eligible) ↦ elim (Bool-cases (wanted t)) [
        | inl h ↦
            let p : Primary = record { type = t; place = k } in
            let taken : pass wanted k (v ∷ vs) ≡ ok (some p) =
              pass_looks wanted k v vs t open_to_it is_t ∙ rw h refl in
            inr (p, 0, taken, omega arith, here eligible is_t h)
        | inr h ↦
            let left : pass wanted k (v ∷ vs) ≡ pass wanted (k + 1) vs =
              pass_looks wanted k v vs t open_to_it is_t ∙ rw h refl in
            subst (PassResult wanted k (v ∷ vs)) (sym left)
              (PassResult-passed wanted k v vs _ (λ e. (t, is_t, h)) rest)
      ]
    ]

-- Where no disk has blocks above 512 bytes, the search ends with a volume that it may pick: the first
-- writable FAT32 disk, without one the first writable ext4 or NTFS disk, and without that none.
-- A CD-ROM drive is never picked.
pub search_primary-Picks :
    (vs : List Device)
    → All (λ v. v.disk.block_size ≤ 512) vs
    → (p : Primary) × (search_primary vs ≡ ok p) × Picks vs p
unfolding search_primary PassResult
search_primary-Picks vs small = elim (pass-Result is_fat32 0 vs small) [
  | inr (p, i, found, at, first) ↦
      let here_first = subst (IsFirst is_fat32 vs p.type) (omega (arith, at)) first in
      (p, rw found refl, picks_fat32 here_first)
  | inl (none_found, passed) ↦ elim (pass-Result is_other 0 vs small) [
    | inr (p, i, found, at, first) ↦
        let here_first = subst (IsFirst is_other vs p.type) (omega (arith, at)) first in
        (p, rw (none_found, found) refl, picks_other passed here_first)
    | inl (none_left, passed_too) ↦
        (nothing, rw (none_found, none_left) refl, picks_nothing passed passed_too refl)
  ]
]
