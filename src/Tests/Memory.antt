-- ===== src/Tests/Memory.antt =====
-- rt/picolibc_port/syscalls.c: a heap and an open file.
use can_boot.Common.{
  ℕ, ◌^◌, ◌≡◌, refl, ◌⊎◌, true, false, Option, some, [], ◌∷◌, arith, leb, ◌==◌, if◌then◌else◌, take,
  drop,
}
use can_boot.Common.Int.{pos}
use can_boot.Disk.{ok, fault}
use can_boot.Libc.{
  Interval, BootInfo, Heap, excluded, heap_init, nearest, better, scan_gaps, scan_map, take_span,
  heap_iv_add, add_files,
}
use can_boot.Libc.Protected.{Protected}
use can_boot.Libc.Choice.{IsRegion, heap_init-IsRegion}
use can_boot.Libc.Files.{Files, file_for_fd, read_fd, lseek, seek_set}
use can_boot.Libc.Seek.{read_fd-lseek}

-- 16 MiB from the first MiB on, where the kernel has the MiB behind the second.
abbrev low_memory : BootInfo
low_memory = record {
  self = record { s = 0x9000; e = 0xA000 };
  fb = record { is_rgb = false; addr = 0; pitch = 0; height = 0 };
  files = [];
  mmap = record { is_usable = true; base = 0x100000; length = 0x1000000 } ∷ [];
}

abbrev kernel : Option Interval
kernel = some (record { s = 0x200000; e = 0x300000 })

abbrev no_heap : Heap
no_heap = record { base = 0; size = 0; used = 0; ready = false; bootstrap_used = 0 }

abbrev ceiling : ℕ
ceiling = 2 ^ 32

chosen :
    heap_init kernel 0x290000 ceiling low_memory no_heap
    ≡ some (record { base = 0x300000; size = 0xE00000; used = 0; ready = true; bootstrap_used = 0 })
unfolding heap_init scan_map scan_gaps nearest better take_span excluded heap_iv_add add_files
chosen = refl

heap_init-IsRegion_example :
    (h' : Heap) × (heap_init kernel 0x290000 ceiling low_memory no_heap ≡ some h')
    × ((h' ≡ no_heap)
        ⊎ IsRegion ceiling (Protected kernel 0x290000 low_memory) (take 256 (low_memory.mmap)) h')
heap_init-IsRegion_example =
    heap_init-IsRegion kernel 0x290000 ceiling low_memory no_heap refl (omega arith)

-- Descriptor 3 is a file of four bytes.
abbrev one_file : Files
one_file k =
    if k == 0
    then record { used = true; bytes = 1 ∷ 2 ∷ 3 ∷ 4 ∷ []; size = 4; at = 0 }
    else record { used = false; bytes = []; size = 0; at = 0 }

third_is_open : file_for_fd 3 one_file ≡ some 0
unfolding file_for_fd
third_is_open = refl

read_fd-lseek_example :
    (read_fd 3 8 (lseek 3 (pos 6) seek_set one_file).1).0
    ≡ (if leb 6 4 then ok (take 8 (drop 6 (1 ∷ 2 ∷ 3 ∷ 4 ∷ []))) else fault)
read_fd-lseek_example =
    read_fd-lseek 3 6 8 one_file 0 third_is_open refl (omega arith) (omega arith) (omega arith)
      (omega arith)
