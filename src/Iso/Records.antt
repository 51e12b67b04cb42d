-- ===== src/Iso/Records.antt =====
-- The records of one block of a directory that is written as the standard says (fs/iso9660.c).
use can_boot.Common.{
  ℕ, zero, suc, ◌+◌, ◌≤◌, ◌<◌, ◌≡◌, refl, sym, ap, ◌∙◌, Bool, true, false, not, ◌&&◌, Option, none,
  some, List, [], ◌∷◌, ◌++◌, arith, ◌==◌, if◌then◌else◌, le→ltb, ne→==, length, get_or, take, drop,
  replicate, All, length-append, length-drop, drop-length-append, contains,
}
use can_boot.Common.Bytes.{byte_at, get32}
use can_boot.Disk.{ok, fault}
use can_boot.Fat32.Names.{before}
use can_boot.Iso.{Extent, raw_name, runs_over, has_name, extent_of, semicolon, scan}

-- A record of a directory: what it says, and its bytes. The name has its version behind it.
pub record Record : Type 0 where
  pub name : List ℕ
  pub lba : ℕ
  pub size : ℕ
  pub bytes : List ℕ

-- The bytes say so, in the fields of the standard's layout.
pub record IsRecord (r : Record) : Type 0 where
  pub head : byte_at r.bytes 0 ≡ length r.bytes
  pub room : 33 + length r.name ≤ length r.bytes
  pub name_size : byte_at r.bytes 32 ≡ length r.name
  pub named : take (length r.name) (drop 33 r.bytes) ≡ r.name
  pub at : get32 r.bytes 2 ≡ r.lba
  pub sized : get32 r.bytes 10 ≡ r.size

-- A block of a directory: its records and zeros behind them.
unfoldable pub laid : List Record → ℕ → List ℕ
laid [] filler = replicate filler 0
laid (r ∷ rs) filler = r.bytes ++ laid rs filler

-- The first record of that name.
unfoldable pub first_match : List ℕ → List Record → Option Extent
first_match name [] = none
first_match name (r ∷ rs) =
    let rest = first_match name rs in
    if has_name name (before semicolon r.name)
    then some (record { lba = r.lba; size = r.size })
    else rest

get_or-front : (xs ys : List ℕ) (i d : ℕ) → i < length xs → get_or (xs ++ ys) i d ≡ get_or xs i d
get_or-front [] ys i d h = absurd (omega arith)
get_or-front (x ∷ xs) ys zero d h = refl
get_or-front (x ∷ xs) ys (suc i) d h = get_or-front xs ys i d (omega arith)

get32-front : (xs ys : List ℕ) (i : ℕ) → i + 4 ≤ length xs → get32 (xs ++ ys) i ≡ get32 xs i
unfolding get32
get32-front xs ys i h =
    rw
      (
        get_or-front xs ys i 0 (omega arith),
        get_or-front xs ys (i + 1) 0 (omega arith),
        get_or-front xs ys (i + 2) 0 (omega arith),
        get_or-front xs ys (i + 3) 0 (omega arith),
      )
      refl

take-front : (n : ℕ) (xs ys : List ℕ) → n ≤ length xs → take n (xs ++ ys) ≡ take n xs
take-front zero xs ys h = refl
take-front (suc n) [] ys h = absurd (omega arith)
take-front (suc n) (x ∷ xs) ys h = ap (λ (t : List ℕ). x ∷ t) (take-front n xs ys (omega arith))

drop-front : (n : ℕ) (xs ys : List ℕ) → n ≤ length xs → drop n (xs ++ ys) ≡ drop n xs ++ ys
drop-front zero xs ys h = refl
drop-front (suc n) [] ys h = absurd (omega arith)
drop-front (suc n) (x ∷ xs) ys h = drop-front n xs ys (omega arith)

module _ (r : Record) (rest : List ℕ) (h : IsRecord r) where
  raw_name-Record : raw_name (r.bytes ++ rest) ≡ r.name
  raw_name-Record =
      let long : 32 < length r.bytes = omega (arith, h.room) in
      let behind : length r.name ≤ length (drop 33 r.bytes) =
        omega (arith, h.room, length-drop 33 r.bytes) in
      rw
        (
          get_or-front r.bytes rest 32 0 long,
          h.name_size,
          drop-front 33 r.bytes rest (omega (arith, h.room)),
          take-front (length r.name) (drop 33 r.bytes) rest behind,
        )
        h.named

  runs_over-Record : runs_over (r.bytes ++ rest) ≡ false
  runs_over-Record =
      let long : 32 < length r.bytes = omega (arith, h.room) in
      let size = length-append r.bytes rest in
      rw
        (
          raw_name-Record,
          get_or-front r.bytes rest 32 0 long,
          h.name_size,
          le→ltb (length (r.bytes ++ rest)) 33 (omega (arith, h.room, size)),
          le→ltb (length (r.bytes ++ rest)) (33 + length r.name) (omega (arith, h.room, size)),
        )
        (and-false (not (contains semicolon r.name)))
    where
      and-false : (b : Bool) → b && false ≡ false
      and-false true = refl
      and-false false = refl

  extent_of-Record : extent_of (r.bytes ++ rest) ≡ record { lba = r.lba; size = r.size }
  extent_of-Record =
      rw
        (
          get32-front r.bytes rest 2 (omega (arith, h.room)),
          get32-front r.bytes rest 10 (omega (arith, h.room)),
          h.at,
          h.sized,
        )
        refl

  cut-Record : drop (byte_at r.bytes 0) (r.bytes ++ rest) ≡ rest
  cut-Record = rw h.head (drop-length-append r.bytes rest)

ok-if : (b : Bool) (o o' : Option Extent) → ok (if b then o else o') ≡ (if b then ok o else ok o')
ok-if true o o' = refl
ok-if false o o' = refl

scan_round :
    (name : List ℕ) (fuel : ℕ) (text : List ℕ)
    → 0 < length text
    → scan name (suc fuel) text ≡ (
        if byte_at text 0 == 0
        then ok none
        else if runs_over text
        then fault
        else if has_name name (before semicolon (raw_name text))
        then ok (some (extent_of text))
        else scan name fuel (drop (byte_at text 0) text))
unfolding scan
scan_round name fuel [] some_bytes = absurd (omega arith)
scan_round name fuel (b ∷ t) some_bytes = refl

-- The records of one block are searched in their order.
pub scan-first_match :
    (name : List ℕ) (fuel : ℕ) (rs : List Record) (filler : ℕ)
    → All IsRecord rs
    → length rs < fuel
    → scan name fuel (laid rs filler) ≡ ok (first_match name rs)
unfolding laid first_match
scan-first_match name zero rs filler h enough = absurd (omega arith)
scan-first_match name (suc fuel) [] zero h enough = unfold scan in refl
scan-first_match name (suc fuel) [] (suc filler) h enough = unfold scan in refl
scan-first_match name (suc fuel) (r ∷ rs) filler h enough =
    let rest = laid rs filler in
    let size = length-append r.bytes rest in
    let first : byte_at (r.bytes ++ rest) 0 ≡ byte_at r.bytes 0 =
      get_or-front r.bytes rest 0 0 (omega (arith, h.0.room)) in
    let not_zero : byte_at r.bytes 0 == 0 ≡ false =
      ne→== (byte_at r.bytes 0) 0 (omega (arith, h.0.head, h.0.room)) in
    scan_round name fuel (r.bytes ++ rest) (omega (arith, size, h.0.room))
    ∙ rw
        (
          first,
          not_zero,
          runs_over-Record r rest h.0,
          raw_name-Record r rest h.0,
          extent_of-Record r rest h.0,
          cut-Record r rest h.0,
          scan-first_match name fuel rs filler h.1 (omega arith),
        )
        (sym (
          ok-if (has_name name (before semicolon r.name))
            (some (record { lba = r.lba; size = r.size })) (first_match name rs)))

pub length-laid :
    (rs : List Record) (filler : ℕ) → All IsRecord rs → length rs ≤ length (laid rs filler)
unfolding laid
length-laid [] filler h = omega arith
length-laid (r ∷ rs) filler h =
    omega (arith, length-laid rs filler h.1, length-append r.bytes (laid rs filler), h.0.room)
