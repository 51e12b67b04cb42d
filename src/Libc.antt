-- ===== src/Libc.antt =====
-- rt/picolibc_port/syscalls.c: the heap under the C library. The linker's symbols, the stack pointer
-- and the ceiling of the mapped memory are arguments.
pub mod Gaps
pub mod Region
pub mod Protected
pub mod Choice
pub mod Files
pub mod Seek
pub mod Boot
use can_boot.Common.{
  ℕ, zero, suc, ◌+◌, ◌-◌, ◌*◌, ◌/◌, ◌%◌, ◌^◌, ◌≤◌, ◌<◌, min, ◌≡◌, refl, sym, ap, ap₂, ◌∙◌, fun_ext,
  ◌≢◌, ◌↔◌, ◌⊎◌, inl, inr, Bool, true, false, not, ◌&&◌, ◌||◌, Option, none, some, List, [], ◌∷◌,
  ◌++◌, map, append-nil, append_assoc, arith, dec_lt, dec_le, ℕ_discrete, ltb, leb, ◌==◌,
  if◌then◌else◌, ltb→lt, lt→ltb, le→ltb, ltb→le, le→leb, lt→leb, leb→le, leb→lt, ==→eq, ==→ne,
  eq→==, ne→==, Bool-cases, u8, u16, u32, u64, length, get_or, set, take, drop, replicate, All,
  length-append, length-set, get_or-set_self, get_or-set_ne, length-take, length-drop,
  length-replicate, take_all, take-append-drop, take-length-append, drop-length-append, All-append,
  same_bytes, same_bytes→eq, same_bytes_self, contains, get_or-take, get_or-drop, take-get_or-drop,
  take-take, All-of_index,
}
use can_boot.Common.Int.{ℤ, pos, negsuc}

-- `struct heap_iv`
pub record Interval : Type 0 where
  pub s : ℕ
  pub e : ℕ

-- An entry of the memory map, and whether its type is CANBOOT_MMAP_USABLE.
pub record MmapEntry : Type 0 where
  pub is_usable : Bool
  pub base : ℕ
  pub length : ℕ

pub record BootFile : Type 0 where
  pub addr : ℕ
  pub size : ℕ

pub record Framebuffer : Type 0 where
  pub is_rgb : Bool
  pub addr : ℕ
  pub pitch : ℕ
  pub height : ℕ

-- What `canboot_heap_init` reads of `struct boot_info`, and where that stands itself.
pub record BootInfo : Type 0 where
  pub self : Interval
  pub fb : Framebuffer
  pub files : List BootFile
  pub mmap : List MmapEntry

abbrev max_excluded : ℕ
max_excluded = 12

-- `heap_iv_add`
unfoldable pub heap_iv_add : List Interval → ℕ → ℕ → List Interval
heap_iv_add iv s e =
    if leb e s || leb max_excluded (length iv) then iv else iv ++ record { s = s; e = e } ∷ []

abbrev add_kernel : Option Interval → List Interval → List Interval
add_kernel none iv = iv
add_kernel (some k) iv = heap_iv_add iv k.s k.e

abbrev add_fb : Framebuffer → List Interval → List Interval
add_fb fb iv =
    if fb.is_rgb && not (fb.addr == 0)
    then heap_iv_add iv fb.addr (u64 (fb.addr + u64 (fb.pitch * fb.height)))
    else iv

unfoldable pub add_files : List BootFile → List Interval → List Interval
add_files [] iv = iv
add_files (f ∷ fs) iv =
    add_files fs (if f.size == 0 then iv else heap_iv_add iv f.addr (u64 (f.addr + f.size)))

-- The intervals that stay out of the heap: the kernel's image, the boot information, the
-- framebuffer, the first four boot files, and a window around the stack pointer.
unfoldable pub excluded : Option Interval → ℕ → BootInfo → List Interval
excluded kernel sp bi =
    heap_iv_add
      (add_files (take 4 bi.files)
        (add_fb bi.fb (heap_iv_add (add_kernel kernel []) bi.self.s bi.self.e)))
      (u64 (sp + 2 ^ 64 - 512 * 1024)) (u64 (sp + 64 * 1024))

-- Is the interval behind `cursor` and before `ee`?
abbrev pub is_ahead : ℕ → ℕ → Interval → Bool
is_ahead cursor ee iv = not (leb iv.e cursor || leb ee iv.s)

abbrev pub cut_from : ℕ → Interval → Interval
cut_from cursor iv = record { s = if ltb iv.s cursor then cursor else iv.s; e = iv.e }

abbrev pub closer : Option Interval → Interval → Option Interval
closer none iv = some iv
closer (some cut) iv = if ltb iv.s cut.s then some iv else some cut

-- The interval that is hit first from `cursor` on; `cut` is the one found so far.
unfoldable pub nearest : List Interval → ℕ → ℕ → Option Interval → Option Interval
nearest [] cursor ee cut = cut
nearest (iv ∷ ivs) cursor ee cut =
    nearest ivs cursor ee (if is_ahead cursor ee iv then closer cut (cut_from cursor iv) else cut)

-- The best span so far.
pub record Span : Type 0 where
  pub base : ℕ
  pub len : ℕ

unfoldable pub better : ℕ → ℕ → Span → Span
better cursor gap_end best =
    if ltb best.len (gap_end - cursor)
    then record { base = cursor; len = gap_end - cursor }
    else best

-- What a round does: without a hit the entry is done.
abbrev pub after_hit : Option Interval → ℕ → ℕ → Span → (ℕ → Span → Option Span) → Option Span
after_hit none cursor ee best again = some (better cursor ee best)
after_hit (some cut) cursor ee best again =
    again (if ltb cursor cut.e then cut.e else cursor + 1) (better cursor cut.s best)

-- The loop over the gaps of one entry; `none` where its rounds are used up.
unfoldable pub scan_gaps : ℕ → List Interval → ℕ → ℕ → Span → Option Span
scan_gaps zero excl ee cursor best = none
scan_gaps (suc fuel) excl ee cursor best =
    let round = after_hit (nearest excl cursor ee none) cursor ee best (scan_gaps fuel excl ee) in
    if leb ee cursor then some best else round

abbrev pub end_of : ℕ → MmapEntry → ℕ
end_of ceiling m =
    if ltb ceiling (u64 (m.base + m.length)) then ceiling else u64 (m.base + m.length)

abbrev pub then_span : Option Span → (Span → Option Span) → Option Span
then_span none rest = none
then_span (some best) rest = rest best

-- The loop over the memory map. Each interval is met at most once in an entry.
unfoldable pub scan_map : ℕ → List Interval → List MmapEntry → Span → Option Span
scan_map ceiling excl [] best = some best
scan_map ceiling excl (m ∷ ms) best =
    let skipped = scan_map ceiling excl ms best in
    let found =
      then_span (scan_gaps (length excl + 2) excl (end_of ceiling m) m.base best)
        (scan_map ceiling excl ms) in
    if not m.is_usable || leb ceiling m.base then skipped else found

-- `heap_base`, `heap_size`, `heap_used`, `heap_ready` and `bootstrap_used`.
pub record Heap : Type 0 where
  pub base : ℕ
  pub size : ℕ
  pub used : ℕ
  pub ready : Bool
  pub bootstrap_used : ℕ

abbrev pub page : ℕ
page = 4096

abbrev pub page_aligned : Span → ℕ
page_aligned best = u64 (best.base + (page - 1)) / page * page

abbrev pub available : Span → ℕ
available best =
    let lost = page_aligned best - best.base in
    if ltb lost best.len then (best.len - lost) / page * page else 0

abbrev pub min_heap : ℕ
min_heap = 1024 * 1024

-- A span of less than a MiB is not taken.
unfoldable pub take_span : Span → Heap → Heap
take_span best h =
    if leb min_heap (available best)
    then (record h { base = page_aligned best; size = available best; used = 0; ready = true })
    else h

abbrev pub with_span : Option Span → Heap → Option Heap
with_span none h = none
with_span (some best) h = some (take_span best h)

abbrev pub no_span : Span
no_span = record { base = 0; len = 0 }

-- `canboot_heap_init`; `none` is a loop that had not ended.
unfoldable pub heap_init : Option Interval → ℕ → ℕ → BootInfo → Heap → Option Heap
heap_init kernel sp ceiling bi h =
    if h.ready
    then some h
    else with_span (scan_map ceiling (excluded kernel sp bi) (take 256 bi.mmap) no_span) h

-- CANBOOT_BOOTSTRAP_HEAP
abbrev pub bootstrap_size : ℕ
bootstrap_size = 256 * 1024

-- An address in the region or in the bootstrap arena.
pub data Address : Type 0 where
  in_region : ℕ → Address
  in_bootstrap : ℕ → Address

-- `sbrk`; `none` is -1 with ENOMEM. A step back returns the new end.
unfoldable pub sbrk : ℤ → Heap → Option Address × Heap
sbrk (pos incr) h =
    let room = if h.ready then h.size - h.used else bootstrap_size - h.bootstrap_used in
    if ltb room incr
    then (none, h)
    else if h.ready
    then (some (in_region (h.base + h.used)), record h { used = h.used + incr })
    else (
      some (in_bootstrap h.bootstrap_used),
      record h { bootstrap_used = h.bootstrap_used + incr },
    )
sbrk (negsuc n) h =
    let dec = suc n in
    let now_used = if h.ready then h.used else h.bootstrap_used in
    if ltb now_used dec
    then (none, h)
    else if h.ready
    then (some (in_region (h.base + (h.used - dec))), record h { used = h.used - dec })
    else (
      some (in_bootstrap (h.bootstrap_used - dec)),
      record h { bootstrap_used = h.bootstrap_used - dec },
    )
