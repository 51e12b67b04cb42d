-- ===== src/Libc/Seek.antt =====
-- Reading from an open file after moving in it (rt/picolibc_port/syscalls.c).
use can_boot.Common.{
  ℕ, ◌+◌, ◌-◌, ◌^◌, ◌≤◌, ◌<◌, ◌≡◌, refl, sym, ap, ◌∙◌, inl, inr, true, Option, some, List, arith,
  ltb, leb, if◌then◌else◌, ltb→lt, lt→ltb, le→ltb, ltb→le, lt→leb, leb→le, leb→lt, eq→==,
  Bool-cases, u64, length, take, drop, length-drop, take_all,
}
use can_boot.Common.Int.{pos}
use mathlib.Core.Path.{subst}
use can_boot.Disk.{Outcome, ok, fault}
use can_boot.Libc.Files.{
  OpenFile, Files, fd_base, max_files, put, file_for_fd, read_fd, read_at, read_from, lseek,
  seek_in, move_to, seek_set,
}

put_same : (slot : ℕ) (f : OpenFile) (fs : Files) → put slot f fs slot ≡ f
put_same slot f fs = rw (eq→== slot slot refl) refl

file_for_fd-cases :
    (fd : ℕ) (fs : Files) (slot : ℕ)
    → file_for_fd fd fs ≡ some slot
    → (slot ≡ fd - fd_base) × (fd_base ≤ fd) × (slot < max_files) × ((fs slot).used ≡ true)
unfolding file_for_fd
file_for_fd-cases fd fs slot h = ground arith

file_for_fd-put :
    (fd : ℕ) (fs : Files) (slot : ℕ) (f : OpenFile)
    → file_for_fd fd fs ≡ some slot
    → f.used ≡ true
    → file_for_fd fd (put slot f fs) ≡ some slot
unfolding file_for_fd
file_for_fd-put fd fs slot f h on =
    let (at, from, inside, used) = file_for_fd-cases fd fs slot h in
    let here : put slot f fs (fd - fd_base) ≡ f =
      ap (put slot f fs) (sym at) ∙ put_same slot f fs in
    rw
      (
        le→ltb fd fd_base from,
        lt→leb max_files (fd - fd_base) (omega (arith, at, inside)),
        ap (λ (g : OpenFile). g.used) here,
        on,
      )
      (ap some (sym at))

lseek-set :
    (fd p : ℕ) (fs : Files) (slot : ℕ)
    → file_for_fd fd fs ≡ some slot
    → lseek fd (pos p) seek_set fs ≡ (ok p, put slot (record (fs slot) { at = p }) fs)
unfolding lseek
lseek-set fd p fs slot h =
    let whole : 0 + p ≡ p = omega arith in
    ap (λ (o : Option ℕ). seek_in o (pos p) seek_set fs) h
    ∙ ap (λ (n : ℕ). move_to slot (pos n) fs) whole

take_enough :
    (n count : ℕ) (xs : List ℕ) → length xs ≤ n → length xs ≤ count → take n xs ≡ take count xs
take_enough n count xs h k = take_all n xs h ∙ sym (take_all count xs k)

-- A read from a place inside the file.
read_at_inside :
    (slot count : ℕ) (fs : Files)
    → length (fs slot).bytes ≡ (fs slot).size
    → (fs slot).size < 2 ^ 63
    → (fs slot).at ≤ (fs slot).size
    → (read_at slot count fs).0 ≡ ok (take count (drop (fs slot).at (fs slot).bytes))
read_at_inside slot count fs whole small inside =
    let f = fs slot in
    let avail : u64 (f.size + 2 ^ 64 - f.at) ≡ f.size - f.at = omega (arith, small, inside) in
    let left = length-drop f.at f.bytes in
    elim (Bool-cases (ltb count (f.size - f.at))) [
      | inl h ↦
          let lt = ltb→lt count (f.size - f.at) h in
          rw (avail, h, le→ltb (length f.bytes) (f.at + count) (omega (arith, lt, whole, inside)))
            refl
      | inr h ↦
          let le = ltb→le count (f.size - f.at) h in
          rw
            (
              avail,
              h,
              le→ltb (length f.bytes) (f.at + (f.size - f.at)) (omega (arith, whole, inside)),
            )
            (ap ok (
              take_enough (f.size - f.at) count (drop f.at f.bytes) (omega (arith, left, whole))
                (omega (arith, left, whole, le))))
    ]

-- A read from a place behind the end.
read_at_behind :
    (slot count : ℕ) (fs : Files)
    → length (fs slot).bytes ≡ (fs slot).size
    → 0 < count
    → count < 2 ^ 63
    → (fs slot).at < 2 ^ 63
    → (fs slot).size < (fs slot).at
    → (read_at slot count fs).0 ≡ fault
read_at_behind slot count fs whole some_bytes count_small small behind =
    let f = fs slot in
    let avail : u64 (f.size + 2 ^ 64 - f.at) ≡ f.size + 2 ^ 64 - f.at =
      omega (arith, small, behind) in
    rw
      (
        avail,
        lt→ltb count (f.size + 2 ^ 64 - f.at) (omega (arith, count_small, small)),
        lt→ltb (length f.bytes) (f.at + count) (omega (arith, whole, behind)),
      )
      refl

-- After `lseek` to place `p` of an open file, `read` gives the bytes from there on, as many as are
-- asked for and there; but where `p` lies behind the end, it copies from behind the data. Sizes,
-- places and counts are below 2 ^ 63, and the count is not 0.
pub read_fd-lseek :
    (fd p count : ℕ) (fs : Files) (slot : ℕ)
    → file_for_fd fd fs ≡ some slot
    → length (fs slot).bytes ≡ (fs slot).size
    → (fs slot).size < 2 ^ 63
    → p < 2 ^ 63
    → 0 < count
    → count < 2 ^ 63
    → (read_fd fd count (lseek fd (pos p) seek_set fs).1).0
      ≡ (if leb p (fs slot).size then ok (take count (drop p (fs slot).bytes)) else fault)
unfolding read_fd
read_fd-lseek fd p count fs slot h whole size_small small some_bytes count_small =
    let f = fs slot in
    let moved : OpenFile = record f { at = p } in
    let fs' = put slot moved fs in
    let here : fs' slot ≡ moved = put_same slot moved fs in
    let (_, _, _, used) = file_for_fd-cases fd fs slot h in
    let seen : file_for_fd fd fs' ≡ some slot = file_for_fd-put fd fs slot moved h used in
    let on : (read_fd fd count (lseek fd (pos p) seek_set fs).1).0 ≡ (read_at slot count fs').0 =
      ap (λ (r : Outcome ℕ × Files). (read_fd fd count r.1).0) (lseek-set fd p fs slot h)
      ∙ ap (λ (o : Option ℕ). (read_from o count fs').0) seen in
    on ∙ elim (Bool-cases (leb p f.size)) [
      | inl k ↦
          let le = leb→le p f.size k in
          rw k (
            read_at_inside slot count fs'
              (subst (λ (g : OpenFile). length g.bytes ≡ g.size) (sym here) whole)
              (subst (λ (g : OpenFile). g.size < 2 ^ 63) (sym here) size_small)
              (subst (λ (g : OpenFile). g.at ≤ g.size) (sym here) le)
            ∙ ap (λ (g : OpenFile). ok (take count (drop g.at g.bytes))) here)
      | inr k ↦
          let lt = leb→lt p f.size k in
          rw k (
            read_at_behind slot count fs'
              (subst (λ (g : OpenFile). length g.bytes ≡ g.size) (sym here) whole) some_bytes
              count_small (subst (λ (g : OpenFile). g.at < 2 ^ 63) (sym here) small)
              (subst (λ (g : OpenFile). g.size < g.at) (sym here) lt))
    ]
