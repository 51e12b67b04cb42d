-- ===== src/Vfs/Listing.antt =====
-- Between the listing that `vfs_list` of fs/vfs.c writes and the entries that `opendir` reads.
use can_boot.Common.{
  ℕ, zero, suc, ◌+◌, ◌-◌, ◌≤◌, ◌<◌, ◌≡◌, refl, sym, ap, ap₂, ◌∙◌, ◌≢◌, inl, inr, Bool, true, false,
  ◌&&◌, List, [], ◌∷◌, ◌++◌, map, append-nil, append_assoc, arith, ltb, ◌==◌, if◌then◌else◌, lt→ltb,
  ne→==, Bool-cases, length, get_or, drop, All, length-append, take_all, take-length-append,
  All-append,
}
use can_boot.Fat32.Names.{slash}
use can_boot.Fat32.Root.{Report}
use can_boot.Vfs.Calls.{line_of, has_room, text_of}
use can_boot.Vfs.Streams.{DirEntry, newline, line_at, entry_of, rows_of}

-- A name that a line can hold: no line feed, no slash, at most 31 bytes.
pub record IsPlain (r : Report) : Type 0 where
  pub no_newline : All (λ c. c ≢ newline) r.name
  pub no_slash : All (λ c. c ≢ slash) r.name
  pub short : length r.name ≤ 31

abbrev pub as_entry : Report → DirEntry
as_entry r = record { name = r.name; is_dir = r.is_dir }

-- The bytes that the callback asks room for.
unfoldable pub room_for : List Report → ℕ
room_for [] = 0
room_for (r ∷ rs) = length r.name + 2 + room_for rs

abbrev body_of : Report → List ℕ
body_of r = r.name ++ (if r.is_dir then slash ∷ [] else [])

line_at-append : (l rest : List ℕ) → All (λ c. c ≢ newline) l → line_at (l ++ newline ∷ rest) ≡ l
unfolding line_at
line_at-append [] rest h = ground arith
line_at-append (c ∷ cs) rest h = rw (ne→== c newline h.0, line_at-append cs rest h.1) refl

drop-behind : (l : List ℕ) (x : ℕ) (rest : List ℕ) → drop (length l + 1) (l ++ x ∷ rest) ≡ rest
drop-behind [] x rest = refl
drop-behind (c ∷ cs) x rest =
    let more : suc (length cs) + 1 ≡ suc (length cs + 1) = omega arith in
    ap (λ (k : ℕ). drop k (c ∷ cs ++ x ∷ rest)) more ∙ drop-behind cs x rest

rows_of-line :
    (rows : ℕ) (l rest : List ℕ)
    → All (λ c. c ≢ newline) l
    → rows_of (suc rows) (l ++ newline ∷ rest) ≡ entry_of l ∷ rows_of rows rest
unfolding rows_of
rows_of-line rows [] rest h = rw (line_at-append [] rest h) refl
rows_of-line rows (c ∷ cs) rest h =
    rw (line_at-append (c ∷ cs) rest h)
      (ap (λ (t : List ℕ). entry_of (c ∷ cs) ∷ rows_of rows t) (drop-behind (c ∷ cs) newline rest))

and-false : (b : Bool) → b && false ≡ false
and-false true = refl
and-false false = refl

get_or-last : (xs : List ℕ) (x d : ℕ) → get_or (xs ++ x ∷ []) (length xs) d ≡ x
get_or-last [] x d = refl
get_or-last (y ∷ xs) x d = get_or-last xs x d

last-plain : (l : List ℕ) → All (λ c. c ≢ slash) l → get_or l (length l - 1) 0 ≢ slash
last-plain [] h = omega arith
last-plain (c ∷ []) h = h.0
last-plain (c ∷ c' ∷ cs) h =
    let inner : suc (suc (length cs)) - 1 ≡ suc (suc (length cs) - 1) = omega arith in
    rw inner (last-plain (c' ∷ cs) h.1)

entry_of-file :
    (name : List ℕ)
    → All (λ c. c ≢ slash) name
    → length name ≤ 31
    → entry_of name ≡ record { name = name; is_dir = false }
unfolding entry_of
entry_of-file name plain short =
    let open_end : ltb 0 (length name) && get_or name (length name - 1) 0 == slash ≡ false =
      rw (ne→== (get_or name (length name - 1) 0) slash (last-plain name plain))
        (and-false (ltb 0 (length name))) in
    rw (open_end, take_all 31 name short) refl

entry_of-directory :
    (name : List ℕ)
    → length name ≤ 31
    → entry_of (name ++ slash ∷ []) ≡ record { name = name; is_dir = true }
unfolding entry_of
entry_of-directory name short =
    let size : length (name ++ slash ∷ []) ≡ suc (length name) =
      omega (arith, length-append name (slash ∷ [])) in
    let back : suc (length name) - 1 ≡ length name = omega arith in
    rw
      (
        size,
        back,
        get_or-last name slash 0,
        take-length-append name (slash ∷ []),
        lt→ltb 0 (suc (length name)) (omega arith),
        take_all 31 name short,
      )
      refl

entry_of-body : (r : Report) → IsPlain r → entry_of (body_of r) ≡ as_entry r
entry_of-body r p = elim (Bool-cases r.is_dir) [
  | inl h ↦ rw h (entry_of-directory r.name p.short)
  | inr h ↦ rw (h, append-nil r.name) (entry_of-file r.name p.no_slash p.short)
]

newline_last : (r : Report) → IsPlain r → All (λ c. c ≢ newline) (body_of r)
newline_last r p = elim (Bool-cases r.is_dir) [
  | inl h ↦ rw h (All-append (λ c. c ≢ newline) r.name (slash ∷ []) p.no_newline (omega arith, tt))
  | inr h ↦ rw (h, append-nil r.name) p.no_newline
]

line_of-body : (r : Report) (rest : List ℕ) → line_of r ++ rest ≡ body_of r ++ newline ∷ rest
line_of-body r rest = elim (Bool-cases r.is_dir) [
  | inl h ↦ rw h (
      append_assoc r.name (slash ∷ newline ∷ []) rest
      ∙ sym (append_assoc r.name (slash ∷ []) (newline ∷ rest)))
  | inr h ↦
      rw h (append_assoc r.name (newline ∷ []) rest ∙ sym (append_assoc r.name [] (newline ∷ rest)))
]

line_of_size : (r : Report) → length (line_of r) ≤ length r.name + 2
line_of_size r = elim (Bool-cases r.is_dir) [
  | inl h ↦ rw h (omega (arith, length-append r.name (slash ∷ newline ∷ [])))
  | inr h ↦ rw h (omega (arith, length-append r.name (newline ∷ [])))
]

-- A directory of at most as many entries as a stream has rows, whose text fits the buffer and whose
-- names hold no line feed and no slash and have at most 31 bytes each, is read from the stream as it
-- was listed: every name and type, in the same order.
pub rows_of-text_of :
    (rows cap used : ℕ) (rs : List Report)
    → All IsPlain rs
    → length rs ≤ rows
    → used + room_for rs < cap
    → rows_of rows (text_of cap used rs) ≡ map as_entry rs
unfolding text_of room_for
rows_of-text_of zero cap used [] plain few room = unfold rows_of in refl
rows_of-text_of (suc rows) cap used [] plain few room = unfold rows_of in refl
rows_of-text_of zero cap used (r ∷ rs) plain few room = absurd (omega arith)
rows_of-text_of (suc rows) cap used (r ∷ rs) plain few room =
    let rest = text_of cap (used + length (line_of r)) rs in
    let fits : has_room cap used r ≡ true =
      lt→ltb (used + length r.name + 2) cap (omega (arith, room)) in
    rw (fits, line_of-body r rest)
      (rows_of-line rows (body_of r) rest (newline_last r plain.0)
        ∙ ap₂ (λ (e : DirEntry) (es : List DirEntry). e ∷ es) (entry_of-body r plain.0)
            (rows_of-text_of rows cap (used + length (line_of r)) rs plain.1 (omega (arith, few))
              (omega (arith, room, line_of_size r))))
