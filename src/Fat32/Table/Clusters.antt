-- ===== src/Fat32/Table/Clusters.antt =====
-- The data clusters of a mounted volume: what `read_cluster` and `write_cluster` do to them.
use can_boot.Common.{
  ℕ, zero, suc, ◌+◌, ◌-◌, ◌*◌, ◌^◌, ◌≤◌, ◌<◌, ◌≡◌, refl, sym, ap, ap₂, ◌∙◌, ◌≢◌, ◌⊎◌, inl, inr,
  List, [], ◌∷◌, ◌++◌, arith, dec_lt, u32, length, take, drop, length-take, length-drop,
  take-append-drop,
}
use can_boot.Disk.{Disk, ok, block_run, stored, write}
use can_boot.Disk.Blocks.{IsSound, read-IsSound}
use can_boot.Fat32.{Volume}
use can_boot.Fat32.Table.{cluster_lba, sector_blocks, read_cluster, write_cluster, entry_lba}
use can_boot.Fat32.Table.Layout.{IsMounted, InTable, sector_blocks-eq-one, entry_lba-lt}
use can_boot.Fat32.Table.Entries.{fat_at}
use native.Mathlib.Nat.{mul-le-mul_right}

-- Clusters are whole sectors, and the last one ends within 64 bits of block number.
pub record HasClusters (fs : Volume) : Type 0 where
  pub some_sectors : 0 < fs.sectors_per_cluster
  pub few_sectors : fs.sectors_per_cluster < 2 ^ 32
  pub cluster_bytes : fs.bytes_per_cluster ≡ fs.sectors_per_cluster * fs.bytes_per_sector
  pub data_end : fs.data_start_lba + fs.total_clusters * fs.sectors_per_cluster < 2 ^ 64

-- A data cluster of the volume.
abbrev pub IsData : Volume → ℕ → Type 0
IsData fs c = (2 ≤ c) × InTable fs c

abbrev pub data_lba : Volume → ℕ → ℕ
data_lba fs c = fs.data_start_lba + (c - 2) * fs.sectors_per_cluster

-- The bytes of cluster `c`.
abbrev pub cluster_at : Volume → Disk → ℕ → List ℕ
cluster_at fs d c = block_run d.blocks (data_lba fs c) fs.sectors_per_cluster

block_run-ext :
    (f g : ℕ → List ℕ) (lba n : ℕ)
    → ((k : ℕ) → lba ≤ k → k < lba + n → f k ≡ g k)
    → block_run f lba n ≡ block_run g lba n
block_run-ext f g lba zero h = refl
block_run-ext f g lba (suc n) h =
    ap₂ ◌++◌ (h lba (omega arith) (omega arith))
      (block_run-ext f g (lba + 1) n (λ k low high. h k (omega arith) (omega arith)))

drop-drop : (m n : ℕ) (xs : List ℕ) → drop m (drop n xs) ≡ drop (n + m) xs
drop-drop m zero xs = let same : zero + m ≡ m = omega arith in rw same
drop-drop zero (suc n) xs = let same : suc n + zero ≡ suc n = omega arith in rw same
drop-drop (suc m) (suc n) [] = let up : suc n + suc m ≡ suc (n + suc m) = omega arith in rw up
drop-drop (suc m) (suc n) (x ∷ xs) =
    let up : suc n + suc m ≡ suc (n + suc m) = omega arith in rw up (drop-drop (suc m) n xs)

-- The chunks of a buffer, one behind the other, are the buffer.
chunks : (size : ℕ) (buf : List ℕ) (start lba n : ℕ) → List ℕ
chunks size buf start lba n = block_run (λ k. take size (drop ((k - start) * size) buf)) lba n

chunks-drop :
    (size : ℕ) (buf : List ℕ) (start lba n : ℕ)
    → start ≤ lba
    → length buf ≤ (lba - start + n) * size
    → chunks size buf start lba n ≡ drop ((lba - start) * size) buf
unfolding chunks
chunks-drop size buf start lba zero h fits = sym (past_end buf ((lba - start) * size) (grind arith))
  where
    past_end : (xs : List ℕ) (n : ℕ) → length xs ≤ n → drop n xs ≡ []
    past_end [] zero h = refl
    past_end [] (suc n) h = refl
    past_end (x ∷ xs) zero h = absurd (omega arith)
    past_end (x ∷ xs) (suc n) h = past_end xs n (omega arith)
chunks-drop size buf start lba (suc n) h fits =
    let next : (lba + 1 - start) * size ≡ (lba - start) * size + size =
      let up : lba + 1 - start ≡ (lba - start) + 1 = omega arith in rw up (omega arith) in
    let count : lba + 1 - start + n ≡ lba - start + suc n = omega arith in
    let ih = chunks-drop size buf start (lba + 1) n (omega arith) (rw count fits) in
    rw (ih, next, ← drop-drop size ((lba - start) * size) buf)
      (take-append-drop size (drop ((lba - start) * size) buf))

-- A run of blocks just written is the buffer.
block_run-stored :
    (size : ℕ) (f : ℕ → List ℕ) (lba n : ℕ) (buf : List ℕ)
    → length buf ≡ n * size
    → block_run (stored size f lba n buf) lba n ≡ buf
unfolding chunks
block_run-stored size f lba n buf h =
    let start_zero : lba - lba ≡ 0 = omega arith in
    let offset_zero : (lba - lba) * size ≡ 0 = rw start_zero (omega arith) in
    block_run-ext (stored size f lba n buf) (λ k. take size (drop ((k - lba) * size) buf)) lba n
      (λ k low high. ground arith)
    ∙ chunks-drop size buf lba lba n (omega arith) (rw start_zero (omega (arith, h)))
    ∙ ap (λ k. drop k buf) offset_zero

-- A run elsewhere is as it was.
block_run-stored_apart :
    (size : ℕ) (f : ℕ → List ℕ) (lba n l m : ℕ) (buf : List ℕ)
    → (l + m ≤ lba) ⊎ (lba + n ≤ l)
    → block_run (stored size f lba n buf) l m ≡ block_run f l m
block_run-stored_apart size f lba n l m buf apart =
    block_run-ext (stored size f lba n buf) f l m (λ k low high. ground arith)

-- The disk after cluster `c` was replaced.
abbrev with_cluster : Volume → Disk → ℕ → List ℕ → Disk
with_cluster fs d c buf = record d {
  blocks = stored d.block_size d.blocks (data_lba fs c) fs.sectors_per_cluster buf;
}

-- A block inside the buffer is whole.
chunk_whole :
    (size n i : ℕ) (buf : List ℕ)
    → length buf ≡ n * size
    → i < n
    → length (take size (drop (i * size) buf)) ≡ size
chunk_whole size n i buf h below = omega (
  arith,
  length-take size (drop (i * size) buf),
  length-drop (i * size) buf,
  mul-le-mul_right size below,
)

module _ (fs : Volume) (d : Disk) (m : IsMounted fs d) (g : HasClusters fs) (c : ℕ)
    (at_c : IsData fs c) where
  room_behind : (c - 2) * fs.sectors_per_cluster ≤ fs.total_clusters * fs.sectors_per_cluster
  room_behind = mul-le-mul_right fs.sectors_per_cluster (omega (arith, at_c.1))

  cluster_lba-eq : cluster_lba fs c d ≡ data_lba fs c
  cluster_lba-eq =
      let plain : u32 (c + 2 ^ 32 - 2) ≡ c - 2 = omega (arith, at_c.0, at_c.1, m.few) in
      rw (plain, sector_blocks-eq-one fs d m) (omega (arith, room_behind, g.data_end))

  cluster_count : u32 (fs.sectors_per_cluster * sector_blocks fs d) ≡ fs.sectors_per_cluster
  cluster_count = rw (sector_blocks-eq-one fs d m) (omega (arith, g.few_sectors))

  -- Reading a data cluster gives its bytes.
  pub read_cluster-IsMounted : read_cluster fs c d ≡ (ok (cluster_at fs d c), d)
  unfolding read_cluster
  read_cluster-IsMounted =
      rw (cluster_lba-eq, cluster_count)
        (read-IsSound d (data_lba fs c) fs.sectors_per_cluster m.sound)

  module _ (buf : List ℕ) (whole : length buf ≡ fs.bytes_per_cluster) where
    whole_blocks : length buf ≡ fs.sectors_per_cluster * d.block_size
    whole_blocks =
        whole ∙ g.cluster_bytes ∙ ap (λ (t : ℕ). fs.sectors_per_cluster * t) (sym m.same_size)

    write_cluster-with_cluster : write_cluster fs c buf d ≡ (ok tt, with_cluster fs d c buf)
    unfolding write_cluster write
    write_cluster-with_cluster = rw (cluster_lba-eq, cluster_count) (rw m.sound.writes)

    with_cluster-IsSound : IsSound (with_cluster fs d c buf)
    with_cluster-IsSound = record {
      readable = m.sound.readable;
      writes = m.sound.writes;
      whole = λ k. ground (
        arith,
        m.sound.whole k,
        chunk_whole d.block_size fs.sectors_per_cluster (k - data_lba fs c) buf whole_blocks,
      );
    }

    with_cluster-IsMounted : IsMounted fs (with_cluster fs d c buf)
    with_cluster-IsMounted = record {
      sound = with_cluster-IsSound;
      same_size = m.same_size;
      filled = m.filled;
      aligned = m.aligned;
      copies = m.copies;
      fits = m.fits;
      few = m.few;
      behind = m.behind;
      in_range = m.in_range;
    }

    fat_at-with_cluster :
        (x : ℕ) → InTable fs x → fat_at fs (with_cluster fs d c buf) x ≡ fat_at fs d x
    fat_at-with_cluster x inside =
        let before : entry_lba fs 0 x d < fs.data_start_lba =
          entry_lba-lt fs d m x inside 0 m.copies in
        ground arith

-- Different clusters do not share a block.
clusters_apart :
    (fs : Volume) (c x : ℕ)
    → 2 ≤ c
    → 2 ≤ x
    → x ≢ c
    → (data_lba fs x + fs.sectors_per_cluster ≤ data_lba fs c)
      ⊎ (data_lba fs c + fs.sectors_per_cluster ≤ data_lba fs x)
clusters_apart fs c x low low' ne = elim (dec_lt x c) [
  | yes below ↦
      let step : suc (x - 2) ≤ c - 2 = omega arith in
      inl (omega (arith, mul-le-mul_right fs.sectors_per_cluster step))
  | no above ↦
      let step : suc (c - 2) ≤ x - 2 = omega arith in
      inr (omega (arith, mul-le-mul_right fs.sectors_per_cluster step))
]

-- The volume after cluster `c` was given the bytes `buf`: the other clusters, the table and the
-- mount are as they were.
pub record ClusterWritten (fs : Volume) (c : ℕ) (buf : List ℕ) (d d' : Disk) : Type 0 where
  pub mounted : IsMounted fs d'
  pub table : (x : ℕ) → InTable fs x → fat_at fs d' x ≡ fat_at fs d x
  pub written : cluster_at fs d' c ≡ buf
  pub others : (x : ℕ) → IsData fs x → x ≢ c → cluster_at fs d' x ≡ cluster_at fs d x
  pub same_writable : d'.writable ≡ d.writable

-- On a mounted volume, writing a data cluster with a buffer of a cluster's size succeeds. The
-- cluster then holds the buffer; every other data cluster and every table entry is as it was.
pub write_cluster-ClusterWritten :
    (fs : Volume) (c : ℕ) (buf : List ℕ) (d : Disk)
    → IsMounted fs d
    → HasClusters fs
    → IsData fs c
    → length buf ≡ fs.bytes_per_cluster
    → ((write_cluster fs c buf d).0 ≡ ok tt)
      × ClusterWritten fs c buf d (write_cluster fs c buf d).1
write_cluster-ClusterWritten fs c buf d m g at_c whole =
    rw (write_cluster-with_cluster fs d m g c at_c buf whole) (
      refl,
      record {
        mounted = with_cluster-IsMounted fs d m g c at_c buf whole;
        table = fat_at-with_cluster fs d m g c at_c buf whole;
        written =
            block_run-stored d.block_size d.blocks (data_lba fs c) fs.sectors_per_cluster buf
              (whole_blocks fs d m g c at_c buf whole);
        others = λ x at_x ne.
            block_run-stored_apart d.block_size d.blocks (data_lba fs c) fs.sectors_per_cluster
              (data_lba fs x) fs.sectors_per_cluster buf (clusters_apart fs c x at_c.0 at_x.0 ne);
        same_writable = refl;
      },
    )
