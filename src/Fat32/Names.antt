-- ===== src/Fat32/Names.antt =====
-- fs/fat32.c: names on the disk and in paths: `to_83`, `name_from_83` and `split_last`.
-- A C string is the list of its bytes before the terminating zero.
pub mod EightThree
pub mod Split
use can_boot.Common.{
  ℕ, zero, suc, ◌+◌, ◌-◌, ◌*◌, ◌/◌, ◌%◌, ◌^◌, ◌≤◌, ◌<◌, min, ◌≡◌, refl, sym, ap, ap₂, ◌∙◌, fun_ext,
  ◌≢◌, ◌↔◌, ◌⊎◌, inl, inr, Bool, true, false, not, ◌&&◌, ◌||◌, Option, none, some, List, [], ◌∷◌,
  ◌++◌, map, append-nil, append_assoc, arith, dec_lt, dec_le, ℕ_discrete, ltb, leb, ◌==◌,
  if◌then◌else◌, ltb→lt, lt→ltb, le→ltb, ltb→le, ==→eq, ==→ne, eq→==, ne→==, Bool-cases, u8, u16,
  u32, u64, length, get_or, set, take, drop, replicate, All, length-append, length-set,
  get_or-set_self, get_or-set_ne, length-take, length-drop, length-replicate, take_all,
  take-append-drop, take-length-append, drop-length-append, All-append, same_bytes, same_bytes→eq,
  same_bytes_self, contains,
}
use can_boot.Common.Bytes.{byte_at}

-- ' ', '.' and '/'.
abbrev pub space : ℕ
space = 0x20

abbrev pub dot : ℕ
dot = 0x2E

abbrev pub slash : ℕ
slash = 0x2F

-- `if (c >= 'a' && c <= 'z') c = (char)(c - 32);`
abbrev pub upcase : ℕ → ℕ
upcase c = if leb b'a' c && leb c b'z' then c - 32 else c

-- The bytes before the first occurrence of `stop`, and those behind it.
unfoldable pub before : ℕ → List ℕ → List ℕ
before stop [] = []
before stop (c ∷ cs) = if c == stop then [] else c ∷ before stop cs

unfoldable pub behind : ℕ → List ℕ → List ℕ
behind stop [] = []
behind stop (c ∷ cs) = if c == stop then cs else behind stop cs

-- A field of `n` bytes, filled up with spaces.
abbrev pub padded : ℕ → List ℕ → List ℕ
padded n cs = cs ++ replicate (n - length cs) space

abbrev pub field_83 : ℕ → List ℕ → List ℕ
field_83 n cs = padded n (map upcase (take n cs))

-- `to_83`: the base of at most eight bytes and the extension of at most three, in upper case.
unfoldable pub to_83 : List ℕ → List ℕ
to_83 name = field_83 8 (before dot name) ++ field_83 3 (behind dot name)

-- `has_ext`: does a byte other than a space stand there?
unfoldable pub any_non_space : List ℕ → Bool
any_non_space [] = false
any_non_space (c ∷ cs) = not (c == space) || any_non_space cs

unfoldable pub name_from_83 : List ℕ → List ℕ
name_from_83 raw =
    let ext = take 3 (drop 8 raw) in
    before space (take 8 raw) ++ (if any_non_space ext then dot ∷ before space ext else [])

-- `while (len > 1 && path[len - 1] == '/') len--;`
unfoldable pub trimmed : List ℕ → ℕ → ℕ
trimmed path zero = 0
trimmed path (suc k) =
    let shorter = trimmed path k in
    if ltb 1 (suc k) && byte_at path k == slash then shorter else suc k

-- The last `/` below index `len`.
unfoldable pub last_slash : List ℕ → ℕ → Option ℕ
last_slash path zero = none
last_slash path (suc k) =
    let lower = last_slash path k in if byte_at path k == slash then some k else lower

pub record Parts : Type 0 where
  pub parent : List ℕ
  pub leaf : List ℕ

-- `split_last` once the path ends at `len` and its last `/` is known.
unfoldable pub split_at : List ℕ → ℕ → ℕ → ℕ → Option ℕ → Option Parts
split_at path pcap lcap len none =
    if ltb pcap 2 || ltb lcap (len + 1) || len == 0
    then none
    else some (record { parent = slash ∷ []; leaf = take len path })
split_at path pcap lcap len (some zero) =
    if len - 0 - 1 == 0 || ltb lcap (len - 0 - 1 + 1) || ltb pcap 2
    then none
    else some (record { parent = slash ∷ []; leaf = drop 1 (take len path) })
split_at path pcap lcap len (some (suc k)) =
    if len - suc k - 1 == 0 || ltb lcap (len - suc k - 1 + 1) || ltb pcap (suc k + 1)
    then none
    else some (record { parent = take (suc k) path; leaf = drop (suc k + 1) (take len path) })

unfoldable pub split_last : List ℕ → ℕ → ℕ → Option Parts
unfolding split_at
split_last path pcap lcap =
    let len = trimmed path (length path) in split_at path pcap lcap len (last_slash path len)
