-- ===== src/Fat32/Names/EightThree.antt =====
-- 8.3 names: their length, and the way back from the disk's form.
use can_boot.Common.{
  ℕ, zero, suc, ◌-◌, ◌≤◌, ◌<◌, ◌≡◌, refl, ap, ap₂, ◌≢◌, inl, inr, true, false, not, List, [], ◌∷◌,
  ◌++◌, map, append-nil, arith, ◌==◌, if◌then◌else◌, ==→ne, Bool-cases, length, take, drop,
  replicate, All, length-append, length-take, length-replicate, take_all, take-length-append,
  drop-length-append,
}
use can_boot.Fat32.Names.{
  space, dot, upcase, before, behind, padded, field_83, to_83, any_non_space, name_from_83,
}

-- No byte of the list is `c`.
abbrev pub Lacks : ℕ → List ℕ → Type 0
Lacks c cs = All (λ x. x ≢ c) cs

length-upcased : (cs : List ℕ) → length (map upcase cs) ≡ length cs
length-upcased [] = refl
length-upcased (c ∷ cs) = ap suc (length-upcased cs)

length-field_83 : (n : ℕ) (cs : List ℕ) → length (field_83 n cs) ≡ n
length-field_83 n cs = omega (
  arith,
  length-append (map upcase (take n cs)) (replicate (n - length (map upcase (take n cs))) space),
  length-replicate (n - length (map upcase (take n cs))) space,
  length-upcased (take n cs),
  length-take n cs,
)

-- `to_83` fills its eleven bytes exactly.
pub length-to_83 : (name : List ℕ) → length (to_83 name) ≡ 11
unfolding to_83
length-to_83 name = omega (
  arith,
  length-append (field_83 8 (before dot name)) (field_83 3 (behind dot name)),
  length-field_83 8 (before dot name),
  length-field_83 3 (behind dot name),
)

-- The bytes before a stop that does not occur are all of them.
before_none : (stop : ℕ) (cs : List ℕ) → Lacks stop cs → before stop cs ≡ cs
unfolding before
before_none stop [] h = refl
before_none stop (c ∷ cs) h = ground (arith, before_none stop cs h.1)

behind_none : (stop : ℕ) (cs : List ℕ) → Lacks stop cs → behind stop cs ≡ []
unfolding behind
behind_none stop [] h = refl
behind_none stop (c ∷ cs) h = ground (arith, behind_none stop cs h.1)

before-append : (stop : ℕ) (cs rest : List ℕ) → Lacks stop cs → before stop (cs ++ stop ∷ rest) ≡ cs
unfolding before
before-append stop [] rest h = ground arith
before-append stop (c ∷ cs) rest h = ground (arith, before-append stop cs rest h.1)

behind-append :
    (stop : ℕ) (cs rest : List ℕ) → Lacks stop cs → behind stop (cs ++ stop ∷ rest) ≡ rest
unfolding behind
behind-append stop [] rest h = ground arith
behind-append stop (c ∷ cs) rest h = ground (arith, behind-append stop cs rest h.1)

-- Padding is cut off again.
before-padded : (n : ℕ) (cs : List ℕ) → Lacks space cs → before space (padded n cs) ≡ cs
before-padded n cs h = elim (n - length cs) as (λ k. before space (cs ++ replicate k space) ≡ cs) [
  | zero ↦ rw append-nil (before_none space cs h)
  | suc k ↦ before-append space cs (replicate k space) h
]

any_non_space-spaces : (n : ℕ) → any_non_space (replicate n space) ≡ false
unfolding any_non_space
any_non_space-spaces zero = refl
any_non_space-spaces (suc n) = ground (arith, any_non_space-spaces n)

any_non_space-padded :
    (n : ℕ) (cs : List ℕ) → Lacks space cs → any_non_space (padded n cs) ≡ not (length cs == 0)
unfolding any_non_space
any_non_space-padded n [] h = any_non_space-spaces (n - 0)
any_non_space-padded n (c ∷ cs) h = ground (arith, h.0)

Lacks-before : (c stop : ℕ) (cs : List ℕ) → Lacks c cs → Lacks c (before stop cs)
unfolding before
Lacks-before c stop [] h = tt
Lacks-before c stop (x ∷ xs) h = elim (Bool-cases (x == stop)) [
  | inl e ↦ rw e tt
  | inr n ↦ rw n (h.0, Lacks-before c stop xs h.1)
]

Lacks-behind : (c stop : ℕ) (cs : List ℕ) → Lacks c cs → Lacks c (behind stop cs)
unfolding behind
Lacks-behind c stop [] h = tt
Lacks-behind c stop (x ∷ xs) h = elim (Bool-cases (x == stop)) [
  | inl e ↦ rw e h.1
  | inr n ↦ rw n (Lacks-behind c stop xs h.1)
]

Lacks-before_self : (stop : ℕ) (cs : List ℕ) → Lacks stop (before stop cs)
unfolding before
Lacks-before_self stop [] = tt
Lacks-before_self stop (x ∷ xs) = elim (Bool-cases (x == stop)) [
  | inl e ↦ rw e tt
  | inr n ↦ rw n (==→ne x stop n, Lacks-before_self stop xs)
]

Lacks-take : (c n : ℕ) (cs : List ℕ) → Lacks c cs → Lacks c (take n cs)
Lacks-take c zero cs h = tt
Lacks-take c (suc n) [] h = tt
Lacks-take c (suc n) (x ∷ xs) h = (h.0, Lacks-take c n xs h.1)

-- Upper case neither makes nor loses a byte below the letters.
Lacks-upcase : (c : ℕ) (cs : List ℕ) → c < 65 → Lacks c cs → Lacks c (map upcase cs)
Lacks-upcase c [] low h = tt
Lacks-upcase c (x ∷ xs) low h = (go h.0, Lacks-upcase c xs low h.1)
  where
    go : x ≢ c → upcase x ≢ c
    go ne = ground arith

upcase_twice : (cs : List ℕ) → map upcase (map upcase cs) ≡ map upcase cs
upcase_twice [] = refl
upcase_twice (c ∷ cs) = ap₂ ◌∷◌ (ground arith) (upcase_twice cs)

take_prefix : (n : ℕ) (xs ys : List ℕ) → length xs ≡ n → take n (xs ++ ys) ≡ xs
take_prefix n xs ys e = rw (← e) (take-length-append xs ys)

drop_prefix : (n : ℕ) (xs ys : List ℕ) → length xs ≡ n → drop n (xs ++ ys) ≡ ys
drop_prefix n xs ys e = rw (← e) (drop-length-append xs ys)

length-padded : (n : ℕ) (cs : List ℕ) → length cs ≤ n → length (padded n cs) ≡ n
length-padded n cs h = omega (
  arith,
  length-append cs (replicate (n - length cs) space),
  length-replicate (n - length cs) space,
)

field_83-upper :
    (n : ℕ) (cs : List ℕ) → length cs ≤ n → map upcase cs ≡ cs → field_83 n cs ≡ padded n cs
field_83-upper n cs short upper = rw (take_all n cs short, upper)

-- A base and an extension that are in the disk's form are put there as they are.
to_83-joined :
    (b e : List ℕ)
    → length b ≤ 8
    → length e ≤ 3
    → map upcase b ≡ b
    → map upcase e ≡ e
    → Lacks dot b
    → to_83 (b ++ (if not (length e == 0) then dot ∷ e else [])) ≡ padded 8 b ++ padded 3 e
unfolding to_83
to_83-joined b [] b_short e_short b_upper e_upper b_whole = rw (
  append-nil,
  before_none dot b b_whole,
  behind_none dot b b_whole,
  field_83-upper 8 b b_short b_upper,
)
to_83-joined b (c ∷ cs) b_short e_short b_upper e_upper b_whole =
    let dotted : (not (length (c ∷ cs) == 0)) ≡ true = ground arith in
    rw (
      dotted,
      before-append dot b (c ∷ cs) b_whole,
      behind-append dot b (c ∷ cs) b_whole,
      field_83-upper 8 b b_short b_upper,
      field_83-upper 3 (c ∷ cs) e_short e_upper,
    )

module _ (b e : List ℕ) (b_short : length b ≤ 8) (e_short : length e ≤ 3) (b_plain : Lacks space b)
    (e_plain : Lacks space e) where
  -- What a name of the disk reads as.
  name_from_83-padded :
      name_from_83 (padded 8 b ++ padded 3 e) ≡ b ++ (if not (length e == 0) then dot ∷ e else [])
  unfolding name_from_83
  name_from_83-padded = rw (take_prefix 8 (padded 8 b) (padded 3 e) (length-padded 8 b b_short)) (
      rw (drop_prefix 8 (padded 8 b) (padded 3 e) (length-padded 8 b b_short)) (
        rw (take_all 3 (padded 3 e) (omega (arith, length-padded 3 e e_short))) (
          rw (before-padded 8 b b_plain)
            (rw (before-padded 3 e e_plain) (rw (any_non_space-padded 3 e e_plain))))))

-- The two fields that `to_83` makes.
abbrev base_of : List ℕ → List ℕ
base_of name = map upcase (take 8 (before dot name))

abbrev extension_of : List ℕ → List ℕ
extension_of name = map upcase (take 3 (behind dot name))

to_83_fields :
    (name : List ℕ) → to_83 name ≡ padded 8 (base_of name) ++ padded 3 (extension_of name)
unfolding to_83
to_83_fields name = refl

length-upcased_take : (n : ℕ) (cs : List ℕ) → length (map upcase (take n cs)) ≤ n
length-upcased_take n cs = omega (arith, length-upcased (take n cs), length-take n cs)

base_plain : (c : ℕ) (name : List ℕ) → c < 65 → Lacks c (before dot name) → Lacks c (base_of name)
base_plain c name low h =
    Lacks-upcase c (take 8 (before dot name)) low (Lacks-take c 8 (before dot name) h)

extension_plain :
    (c : ℕ) (name : List ℕ) → c < 65 → Lacks c (behind dot name) → Lacks c (extension_of name)
extension_plain c name low h =
    Lacks-upcase c (take 3 (behind dot name)) low (Lacks-take c 3 (behind dot name) h)

-- A name of the disk's form, read back by `name_from_83` and packed again by `to_83`, is the same
-- eleven bytes. Such a name is any that `to_83` makes of a name with no space.
pub to_83-name_from_83 :
    (name : List ℕ) → Lacks space name → to_83 (name_from_83 (to_83 name)) ≡ to_83 name
to_83-name_from_83 name plain = rw (to_83_fields name) (
    rw
      (name_from_83-padded (base_of name) (extension_of name)
        (length-upcased_take 8 (before dot name)) (length-upcased_take 3 (behind dot name))
        (base_plain space name (omega arith) (Lacks-before space dot name plain))
        (extension_plain space name (omega arith) (Lacks-behind space dot name plain)))
      (to_83-joined (base_of name) (extension_of name) (length-upcased_take 8 (before dot name))
        (length-upcased_take 3 (behind dot name)) (upcase_twice (take 8 (before dot name)))
        (upcase_twice (take 3 (behind dot name)))
        (base_plain dot name (omega arith) (Lacks-before_self dot name))))

-- A name of at most eight bytes, a dot, and one to three bytes, with no space and no other dot
-- before it, is listed as itself in upper case.
pub name_from_83-to_83 :
    (base ext : List ℕ)
    → Lacks space base
    → Lacks dot base
    → Lacks space ext
    → length base ≤ 8
    → 0 < length ext
    → length ext ≤ 3
    → name_from_83 (to_83 (base ++ dot ∷ ext)) ≡ map upcase base ++ dot ∷ map upcase ext
name_from_83-to_83 base ext plain base_whole ext_plain base_short some_ext ext_short =
    rw
      (
        to_83_fields (base ++ dot ∷ ext),
        before-append dot base ext base_whole,
        behind-append dot base ext base_whole,
        take_all 8 base base_short,
        take_all 3 ext ext_short,
      )
      (rw
        (name_from_83-padded (map upcase base) (map upcase ext) (omega (arith, length-upcased base))
          (omega (arith, length-upcased ext)) (Lacks-upcase space base (omega arith) plain)
          (Lacks-upcase space ext (omega arith) ext_plain))
        (ground (arith, length-upcased ext)))
