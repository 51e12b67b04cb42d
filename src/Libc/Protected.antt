-- ===== src/Libc/Protected.antt =====
-- The memory that the heap must leave alone, said apart from the list that `canboot_heap_init` of
-- rt/picolibc_port/syscalls.c makes of it.
use can_boot.Common.{
  ℕ, suc, ◌+◌, ◌-◌, ◌*◌, ◌^◌, ◌≤◌, ◌<◌, ◌≡◌, refl, sym, ◌≢◌, ◌⊎◌, inl, inr, true, ◌||◌, ◌&&◌, not,
  Option, none, some, List, [], ◌∷◌, ◌++◌, arith, leb, ◌==◌, if◌then◌else◌, Bool-cases, u64, lt→leb,
  ne→==, length, length-append, take, All,
}
use Prim.{⊥}
use mathlib.Core.Path.{subst}
use can_boot.Libc.{
  Interval, BootInfo, BootFile, Framebuffer, heap_iv_add, add_kernel, add_fb, add_files, excluded,
}

-- An element of a list.
abbrev pub Among : {A : Type 0} → A → List A → Type 0
Among a [] = ⊥
Among a (x ∷ xs) = (x ≡ a) ⊎ Among a xs

-- The stretches of memory that are in use: the kernel's image, the boot information, the framebuffer
-- where there is one, the first four boot files, and the stack from 512 KiB below the stack pointer to
-- 64 KiB above it. The last three are meant as long as they do not run over the end of the 64-bit
-- addresses, and the stack as long as the stack pointer is at least 512 KiB.
pub data Protected (kernel : Option Interval) (sp : ℕ) (bi : BootInfo) : ℕ → ℕ → Type 0 where
  image : (k : Interval) → kernel ≡ some k → Protected kernel sp bi k.s k.e
  boot_info : Protected kernel sp bi bi.self.s bi.self.e
  framebuffer :
      bi.fb.is_rgb ≡ true
      → bi.fb.addr ≢ 0
      → bi.fb.addr + bi.fb.pitch * bi.fb.height < 2 ^ 64
      → Protected kernel sp bi bi.fb.addr (bi.fb.addr + bi.fb.pitch * bi.fb.height)
  boot_file :
      (f : BootFile)
      → Among f (take 4 bi.files)
      → f.addr + f.size < 2 ^ 64
      → Protected kernel sp bi f.addr (f.addr + f.size)
  stack :
      512 * 1024 ≤ sp
      → sp + 64 * 1024 < 2 ^ 64
      → Protected kernel sp bi (sp - 512 * 1024) (sp + 64 * 1024)

pub All-Among : {A : Type 0} (P : A → Type 0) (a : A) (xs : List A) → All P xs → Among a xs → P a
All-Among P a [] h e = elim e [ ]
All-Among P a (x ∷ xs) h (inl same) = subst P same h.0
All-Among P a (x ∷ xs) h (inr later) = All-Among P a xs h.1 later

Among-front : {A : Type 0} (a : A) (xs ys : List A) → Among a xs → Among a (xs ++ ys)
Among-front a [] ys e = elim e [ ]
Among-front a (x ∷ xs) ys (inl same) = inl same
Among-front a (x ∷ xs) ys (inr later) = inr (Among-front a xs ys later)

Among-last : {A : Type 0} (a : A) (xs : List A) → Among a (xs ++ a ∷ [])
Among-last a [] = inl refl
Among-last a (x ∷ xs) = inr (Among-last a xs)

-- What `heap_iv_add` does to a list: what was there stays, and a stretch that is not empty is added
-- while there is room.
record Adds (iv iv' : List Interval) (room : ℕ) : Type 0 where
  kept : (a : Interval) → Among a iv → Among a iv'
  size : length iv' ≤ length iv + room

heap_iv_add-Adds : (iv : List Interval) (s e : ℕ) → Adds iv (heap_iv_add iv s e) 1
unfolding heap_iv_add
heap_iv_add-Adds iv s e = elim (Bool-cases (leb e s || leb 12 (length iv))) [
  | inl out ↦ rw out (record { kept = λ a h. h; size = omega arith })
  | inr in_list ↦
      let one : List Interval = record { s = s; e = e } ∷ [] in
      rw in_list (record {
        kept = λ a h. Among-front a iv one h;
        size = omega (arith, length-append iv one);
      })
]

heap_iv_add-Among :
    (iv : List Interval) (s e : ℕ)
    → s < e
    → length iv < 12
    → Among (record { s = s; e = e }) (heap_iv_add iv s e)
unfolding heap_iv_add
heap_iv_add-Among iv s e some_bytes room =
    rw (lt→leb e s some_bytes, lt→leb 12 (length iv) room) (Among-last (record { s = s; e = e }) iv)

Adds-Adds : (xs ys zs : List Interval) (m n : ℕ) → Adds xs ys m → Adds ys zs n → Adds xs zs (m + n)
Adds-Adds xs ys zs m n a b = record {
  kept = λ x h. b.kept x (a.kept x h);
  size = omega (arith, a.size, b.size);
}

Adds-more : (xs ys : List Interval) (m n : ℕ) → m ≤ n → Adds xs ys m → Adds xs ys n
Adds-more xs ys m n h a = record { kept = a.kept; size = omega (arith, a.size, h) }

Adds-self : (xs : List Interval) (n : ℕ) → Adds xs xs n
Adds-self xs n = record { kept = λ a h. h; size = omega arith }

add_kernel-Adds : (kernel : Option Interval) (iv : List Interval) → Adds iv (add_kernel kernel iv) 1
add_kernel-Adds none iv = Adds-self iv 1
add_kernel-Adds (some k) iv = heap_iv_add-Adds iv k.s k.e

add_fb-Adds : (fb : Framebuffer) (iv : List Interval) → Adds iv (add_fb fb iv) 1
add_fb-Adds fb iv = elim (Bool-cases (fb.is_rgb && not (fb.addr == 0))) [
  | inl used ↦ rw used (heap_iv_add-Adds iv fb.addr (u64 (fb.addr + u64 (fb.pitch * fb.height))))
  | inr unused ↦ rw unused (Adds-self iv 1)
]

add_fb-Among :
    (fb : Framebuffer) (iv : List Interval)
    → fb.is_rgb ≡ true
    → fb.addr ≢ 0
    → fb.addr + fb.pitch * fb.height < 2 ^ 64
    → fb.addr < fb.addr + fb.pitch * fb.height
    → length iv < 12
    → Among (record { s = fb.addr; e = fb.addr + fb.pitch * fb.height }) (add_fb fb iv)
add_fb-Among fb iv rgb there ends some_bytes room =
    let bytes = fb.pitch * fb.height in
    let plain : u64 bytes ≡ bytes = omega (arith, ends) in
    let ends_at : u64 (fb.addr + bytes) ≡ fb.addr + bytes = omega (arith, ends) in
    rw (rgb, ne→== fb.addr 0 there, plain, ends_at)
      (heap_iv_add-Among iv fb.addr (fb.addr + bytes) some_bytes room)

add_file-Adds :
    (f : BootFile) (iv : List Interval)
    → Adds iv (if f.size == 0 then iv else heap_iv_add iv f.addr (u64 (f.addr + f.size))) 1
add_file-Adds f iv = elim (Bool-cases (f.size == 0)) [
  | inl no_bytes ↦ rw no_bytes (Adds-self iv 1)
  | inr some_bytes ↦ rw some_bytes (heap_iv_add-Adds iv f.addr (u64 (f.addr + f.size)))
]

add_files-Adds : (fs : List BootFile) (iv : List Interval) → Adds iv (add_files fs iv) (length fs)
unfolding add_files
add_files-Adds [] iv = Adds-self iv 0
add_files-Adds (f ∷ fs) iv =
    Adds-more iv _ (1 + length fs) (suc (length fs)) (omega arith)
      (Adds-Adds iv _ _ 1 (length fs) (add_file-Adds f iv) (add_files-Adds fs _))

add_files-Among :
    (fs : List BootFile) (f : BootFile) (iv : List Interval)
    → Among f fs
    → f.addr < f.addr + f.size
    → f.addr + f.size < 2 ^ 64
    → length iv + length fs ≤ 12
    → Among (record { s = f.addr; e = f.addr + f.size }) (add_files fs iv)
unfolding add_files
add_files-Among [] f iv e some_bytes ends room = elim e [ ]
add_files-Among (g ∷ fs) f iv (inl same) some_bytes ends room =
    subst
      (λ (h : BootFile).
        Among (record { s = f.addr; e = f.addr + f.size })
          (add_files fs
            (if h.size == 0 then iv else heap_iv_add iv h.addr (u64 (h.addr + h.size)))))
      (sym same)
      (let plain : u64 (f.addr + f.size) ≡ f.addr + f.size = omega (arith, ends) in
        rw (ne→== f.size 0 (omega (arith, some_bytes)), plain)
          ((add_files-Adds fs (heap_iv_add iv f.addr (f.addr + f.size))).kept _
            (heap_iv_add-Among iv f.addr (f.addr + f.size) some_bytes (omega (arith, room)))))
add_files-Among (g ∷ fs) f iv (inr later) some_bytes ends room =
    add_files-Among fs f _ later some_bytes ends (omega (arith, (add_file-Adds g iv).size, room))

length-take4 : {A : Type 0} (xs : List A) → length (take 4 xs) ≤ 4
length-take4 [] = omega arith
length-take4 (a ∷ []) = omega arith
length-take4 (a ∷ b ∷ []) = omega arith
length-take4 (a ∷ b ∷ c ∷ []) = omega arith
length-take4 (a ∷ b ∷ c ∷ d ∷ xs) = omega arith

-- The list after the kernel, the boot information, the framebuffer and the boot files.
abbrev with_kernel : Option Interval → List Interval
with_kernel kernel = add_kernel kernel []

abbrev with_info : Option Interval → BootInfo → List Interval
with_info kernel bi = heap_iv_add (with_kernel kernel) bi.self.s bi.self.e

abbrev with_fb : Option Interval → BootInfo → List Interval
with_fb kernel bi = add_fb bi.fb (with_info kernel bi)

abbrev with_files : Option Interval → BootInfo → List Interval
with_files kernel bi = add_files (take 4 bi.files) (with_fb kernel bi)

record HasRoom (kernel : Option Interval) (bi : BootInfo) : Type 0 where
  for_info : length (with_kernel kernel) ≤ 1
  for_fb : length (with_info kernel bi) ≤ 2
  for_files : length (with_fb kernel bi) + length (take 4 bi.files) ≤ 7
  for_stack : length (with_files kernel bi) ≤ 7

has_room : (kernel : Option Interval) (bi : BootInfo) → HasRoom kernel bi
has_room kernel bi =
    let a1 = add_kernel-Adds kernel [] in
    let a2 = heap_iv_add-Adds (with_kernel kernel) bi.self.s bi.self.e in
    let a3 = add_fb-Adds bi.fb (with_info kernel bi) in
    let a4 = add_files-Adds (take 4 bi.files) (with_fb kernel bi) in
    let few = length-take4 bi.files in
    record {
      for_info = omega (arith, a1.size);
      for_fb = omega (arith, a1.size, a2.size);
      for_files = omega (arith, a1.size, a2.size, a3.size, few);
      for_stack = omega (arith, a1.size, a2.size, a3.size, a4.size, few);
    }

with_files-Among :
    (kernel : Option Interval) (sp : ℕ) (bi : BootInfo) (a : Interval)
    → Among a (with_files kernel bi)
    → Among a (excluded kernel sp bi)
unfolding excluded
with_files-Among kernel sp bi a h =
    (heap_iv_add-Adds (with_files kernel bi) (u64 (sp + 2 ^ 64 - 512 * 1024))
        (u64 (sp + 64 * 1024))).kept
      a h

with_fb-Among :
    (kernel : Option Interval) (sp : ℕ) (bi : BootInfo) (a : Interval)
    → Among a (with_fb kernel bi)
    → Among a (excluded kernel sp bi)
with_fb-Among kernel sp bi a h =
    with_files-Among kernel sp bi a
      ((add_files-Adds (take 4 bi.files) (with_fb kernel bi)).kept a h)

with_info-Among :
    (kernel : Option Interval) (sp : ℕ) (bi : BootInfo) (a : Interval)
    → Among a (with_info kernel bi)
    → Among a (excluded kernel sp bi)
with_info-Among kernel sp bi a h =
    with_fb-Among kernel sp bi a ((add_fb-Adds bi.fb (with_info kernel bi)).kept a h)

-- Every stretch that is not empty stands on the code's list, which has room for them all.
pub excluded-Protected :
    (kernel : Option Interval) (sp : ℕ) (bi : BootInfo) (s e : ℕ)
    → Protected kernel sp bi s e
    → s < e
    → Among (record { s = s; e = e }) (excluded kernel sp bi)
excluded-Protected kernel sp bi _ _ (image k there) some_bytes = with_info-Among kernel sp bi _ (
    (heap_iv_add-Adds (with_kernel kernel) bi.self.s bi.self.e).kept _
      (rw there (heap_iv_add-Among [] k.s k.e some_bytes (omega arith))))
excluded-Protected kernel sp bi _ _ boot_info some_bytes = with_info-Among kernel sp bi _ (
    heap_iv_add-Among (with_kernel kernel) bi.self.s bi.self.e some_bytes
      (omega (arith, (has_room kernel bi).for_info)))
excluded-Protected kernel sp bi _ _ (framebuffer rgb there ends) some_bytes =
    with_fb-Among kernel sp bi _ (
      add_fb-Among bi.fb (with_info kernel bi) rgb there ends some_bytes
        (omega (arith, (has_room kernel bi).for_fb)))
excluded-Protected kernel sp bi _ _ (boot_file f among ends) some_bytes =
    with_files-Among kernel sp bi _ (
      add_files-Among (take 4 bi.files) f (with_fb kernel bi) among some_bytes ends
        (omega (arith, (has_room kernel bi).for_files)))
excluded-Protected kernel sp bi _ _ (stack low high) some_bytes =
    unfold excluded in
    let from : u64 (sp + 2 ^ 64 - 512 * 1024) ≡ sp - 512 * 1024 = omega (arith, low, high) in
    let upto : u64 (sp + 64 * 1024) ≡ sp + 64 * 1024 = omega (arith, high) in
    rw (from, upto)
      (heap_iv_add-Among (with_files kernel bi) (sp - 512 * 1024) (sp + 64 * 1024) some_bytes
        (omega (arith, (has_room kernel bi).for_stack)))
