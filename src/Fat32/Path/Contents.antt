-- ===== src/Fat32/Path/Contents.antt =====
-- The bytes of a file: what `store_data` writes, `read_chain` reads back.
use can_boot.Common.{
  ℕ, zero, suc, ◌+◌, ◌-◌, ◌*◌, ◌^◌, ◌≤◌, ◌<◌, min, ◌≡◌, refl, ◌∙◌, ◌⊎◌, inl, inr, true, false, ◌&&◌,
  List, [], ◌∷◌, arith, dec_lt, ltb, if◌then◌else◌, lt→ltb, le→ltb, ne→==, u32, length, get_or,
  take, drop, replicate, All, length-append, length-take, length-drop, length-replicate,
  take-append-drop, take-length-append, contains,
}
use native.Mathlib.Nat.{lt-mul-div-succ}
use can_boot.Disk.{Disk, Outcome, ok, err, fault, out_of_fuel, pure, require, resume, ◌>>◌}
use can_boot.Fat32.{Volume}
use can_boot.Fat32.Table.{max_chain}
use can_boot.Fat32.Table.Layout.{IsMounted, InTable}
use can_boot.Fat32.Table.Entries.{fat_at, read_fat_entry-IsMounted}
use can_boot.Fat32.Table.Chains.{IsChain}
use can_boot.Fat32.Table.Count.{free_clusters}
use can_boot.Fat32.Table.Alloc.{Distinct, AllFree, Allocates, alloc_chain-Allocates}
use can_boot.Fat32.Table.Clusters.{
  HasClusters, IsData, cluster_at, read_cluster-IsMounted, ClusterWritten,
  write_cluster-ClusterWritten,
}
use can_boot.Fat32.Dir.{fits_buffer, in_chain}
use can_boot.Fat32.Path.{filled, write_data, clusters_for, store_data, read_chain}

length-filled : (size : ℕ) (bytes : List ℕ) → length (filled size bytes) ≡ size
length-filled size bytes = omega (
  arith,
  length-append (take size bytes) (replicate (size - length bytes) 0),
  length-take size bytes,
  length-replicate {A = ℕ} (size - length bytes) 0,
)

-- The clusters hold the bytes, in order.
abbrev pub Holds : Volume → Disk → List ℕ → List ℕ → Type 0
Holds fs d [] bytes = Unit
Holds fs d (c ∷ cs) bytes =
    (cluster_at fs d c ≡ filled fs.bytes_per_cluster bytes)
    × Holds fs d cs (drop fs.bytes_per_cluster bytes)

abbrev pub AllData : Volume → List ℕ → Type 0
AllData fs cs = All (IsData fs) cs

-- The volume after the clusters were written: the table and every other cluster are as they were.
pub record DataWritten (fs : Volume) (cs bytes : List ℕ) (d d' : Disk) : Type 0 where
  pub mounted : IsMounted fs d'
  pub table : (x : ℕ) → InTable fs x → fat_at fs d' x ≡ fat_at fs d x
  pub contents : Holds fs d' cs bytes
  pub others :
      (x : ℕ) → IsData fs x → contains x cs ≡ false → cluster_at fs d' x ≡ cluster_at fs d x
  pub same_writable : d'.writable ≡ d.writable

DataWritten-cons :
    (fs : Volume) (c : ℕ) (cs bytes : List ℕ) (d d' d'' : Disk)
    → IsData fs c
    → contains c cs ≡ false
    → ClusterWritten fs c (filled fs.bytes_per_cluster bytes) d d'
    → DataWritten fs cs (drop fs.bytes_per_cluster bytes) d' d''
    → DataWritten fs (c ∷ cs) bytes d d''
DataWritten-cons fs c cs bytes d d' d'' at_c once w rest = record {
  mounted = rest.mounted;
  table = λ x inside. rest.table x inside ∙ w.table x inside;
  contents = (rest.others c at_c once ∙ w.written, rest.contents);
  others = λ x at_x out. rest.others x at_x (ground arith) ∙ w.others x at_x (ground arith);
  same_writable = rest.same_writable ∙ w.same_writable;
}

-- Writing the bytes over different data clusters succeeds.
pub write_data-DataWritten :
    (fs : Volume) (cs bytes : List ℕ) (d : Disk)
    → IsMounted fs d
    → HasClusters fs
    → AllData fs cs
    → Distinct cs
    → ((write_data fs cs bytes d).0 ≡ ok tt)
      × DataWritten fs cs bytes d (write_data fs cs bytes d).1
unfolding write_data
write_data-DataWritten fs [] bytes d m g data_clusters distinct = (
  refl,
  record {
    mounted = m;
    table = λ x inside. refl;
    contents = tt;
    others = λ x at_x out. refl;
    same_writable = refl;
  },
)
write_data-DataWritten fs (c ∷ cs) bytes d m g (at_c, others) (once, distinct) =
    let (wrote, w) =
      write_cluster-ClusterWritten fs c (filled fs.bytes_per_cluster bytes) d m g at_c
        (length-filled fs.bytes_per_cluster bytes) in
    let (done, rest) =
      write_data-DataWritten fs cs (drop fs.bytes_per_cluster bytes) _ w.mounted g others
        distinct in
    rw wrote (done, DataWritten-cons fs c cs bytes d _ _ at_c once w rest)

-- How many bytes a round copies out of a full cluster.
take-filled :
    (size : ℕ) (bytes : List ℕ)
    → take (min size (length bytes)) (filled size bytes) ≡ take size bytes
take-filled size bytes =
    let some_taken : min size (length bytes) ≡ length (take size bytes) =
      omega (arith, length-take size bytes) in
    rw some_taken (take-length-append (take size bytes) (replicate (size - length bytes) 0))

-- The chunk that `read_chain` computes, where no sum wraps.
chunk-min :
    (size copied left to_read : ℕ)
    → copied + left ≡ to_read
    → to_read + size < 2 ^ 32
    → (if ltb to_read (u32 (copied + size)) then to_read - copied else size) ≡ min size left
chunk-min size copied left to_read e small = elim (dec_lt to_read (u32 (copied + size))) [
  | yes h ↦ rw (lt→ltb to_read (u32 (copied + size)) h) (omega arith)
  | no h ↦ rw (le→ltb to_read (u32 (copied + size)) (omega arith)) (omega arith)
]

-- A walk over clusters that hold the bytes gives the bytes, and leaves the disk alone.
pub read_chain-Holds :
    (fuel : ℕ) (fs : Volume) (d : Disk) (first copied to_read : ℕ) (cs bytes : List ℕ)
    → IsMounted fs d
    → HasClusters fs
    → IsChain fs d first cs
    → Holds fs d cs bytes
    → length bytes ≤ length cs * fs.bytes_per_cluster
    → copied + length bytes ≡ to_read
    → to_read + fs.bytes_per_cluster < 2 ^ 32
    → length cs < fuel
    → read_chain fuel fs first copied to_read d ≡ (ok bytes, d)
unfolding read_chain
read_chain-Holds zero fs d first copied to_read cs bytes m g chain holds room e small enough =
    absurd (omega arith)
read_chain-Holds (suc fuel) fs d first copied to_read cs [] m g chain holds room e small enough =
    let stops : (ltb copied to_read && in_chain first) ≡ false = ground arith in rw stops
read_chain-Holds (suc fuel) fs d first copied to_read [] (b ∷ bs) m g chain holds room e small
      enough =
    absurd (omega arith)
read_chain-Holds (suc fuel) fs d first copied to_read (c ∷ cs) (b ∷ bs) m g
      (at_c, low, inside, rest) (here, holds) room e small enough =
    let whole = fs.bytes_per_cluster in
    let bytes = b ∷ bs in
    let chunk : (if ltb to_read (u32 (copied + whole)) then to_read - copied else whole)
        ≡ min whole (length bytes) =
      chunk-min whole copied (length bytes) to_read e small in
    let runs : (ltb copied to_read && in_chain c) ≡ true = ground (arith, m.few) in
    let later : u32 (copied + min whole (length bytes)) + length (drop whole bytes) ≡ to_read =
      omega (arith, length-drop whole bytes) in
    let ih =
      read_chain-Holds fuel fs d (fat_at fs d c) (u32 (copied + min whole (length bytes))) to_read
        cs (drop whole bytes) m g rest holds (omega (arith, length-drop whole bytes)) later small
        (omega arith) in
    rw
      (
        at_c,
        runs,
        read_cluster-IsMounted fs d m g c (low, inside),
        read_fat_entry-IsMounted fs d c m,
        chunk,
      )
      (rw (ih, here, take-filled whole bytes, take-append-drop whole bytes))

-- The clusters for a file that is not empty have room for it.
clusters_for-room :
    (fs : Volume) (len : ℕ)
    → 0 < fs.bytes_per_cluster
    → len + fs.bytes_per_cluster < 2 ^ 32
    → 0 < len
    → len ≤ clusters_for fs len * fs.bytes_per_cluster
clusters_for-room fs len some_bytes small some_len =
    let plain : u32 (len + fs.bytes_per_cluster + 2 ^ 32 - 1) ≡ len + fs.bytes_per_cluster - 1 =
      omega arith in
    rw plain (
      omega (
        arith,
        lt-mul-div-succ (len + fs.bytes_per_cluster - 1) {b = fs.bytes_per_cluster} some_bytes,
      ))

AllFree-AllData : (fs : Volume) (d : Disk) (cs : List ℕ) → AllFree fs d cs → AllData fs cs
AllFree-AllData fs d [] h = tt
AllFree-AllData fs d (c ∷ cs) (low, inside, free, rest) =
    ((low, inside), AllFree-AllData fs d cs rest)

-- A chain is read off the table alone.
IsChain-table :
    (fs : Volume) (d d' : Disk) (first : ℕ) (cs : List ℕ)
    → ((x : ℕ) → InTable fs x → fat_at fs d' x ≡ fat_at fs d x)
    → IsChain fs d first cs
    → IsChain fs d' first cs
IsChain-table fs d d' first [] same h = h
IsChain-table fs d d' first (c ∷ cs) same (e, low, inside, rest) =
    (e, low, inside, rw (same c inside) (IsChain-table fs d d' (fat_at fs d c) cs same rest))

-- What storing the bytes of a file does: the volume is still mounted and reading from the first
-- cluster gives the bytes; or there are too few clusters for them.
abbrev pub Stores : Volume → List ℕ → Disk → Outcome ℕ → Disk → Type 0
Stores fs bytes d (ok first) d' =
    IsMounted fs d'
    × ((fuel : ℕ)
        → clusters_for fs (length bytes) < fuel
        → read_chain fuel fs first 0 (length bytes) d' ≡ (ok bytes, d'))
Stores fs bytes d err d' =
    (max_chain < clusters_for fs (length bytes))
    ⊎ (free_clusters fs d < clusters_for fs (length bytes))
Stores fs bytes d fault d' = ⊥
Stores fs bytes d out_of_fuel d' = ⊥

module _ (fs : Volume) (bytes : List ℕ) (d : Disk) (g : HasClusters fs)
    (fits : fits_buffer fs ≡ true) (filled_clusters : 0 < fs.bytes_per_cluster)
    (small : length bytes + fs.bytes_per_cluster < 2 ^ 32) (some_bytes : 0 < length bytes) where
  -- After the chain is made, the bytes go into it.
  store_allocated :
      (d' : Disk) (r : Outcome (List ℕ))
      → Allocates fs (clusters_for fs (length bytes)) d r d'
      → let p =
          resume r
            (λ chain.
              require (fits_buffer fs) >> (write_data fs chain bytes >> pure (get_or chain 0 0)))
            d' in
        Stores fs bytes d p.0 p.1
  store_allocated d' (ok cs) (len, distinct, all_free, chain, out, served) =
      let (done, w) =
        write_data-DataWritten fs cs bytes d' out.mounted g (AllFree-AllData fs d cs all_free)
          distinct in
      let room = clusters_for-room fs (length bytes) filled_clusters small some_bytes in
      let room_there : length bytes ≤ length cs * fs.bytes_per_cluster = rw len room in
      rw (fits, done)
        (
          w.mounted,
          λ fuel enough.
              read_chain-Holds fuel fs _ (get_or cs 0 0) 0 (length bytes) cs bytes w.mounted g
                (IsChain-table fs d' (write_data fs cs bytes d').1 (get_or cs 0 0) cs w.table chain)
                w.contents room_there (omega arith) small (omega (arith, len)),
        )
  store_allocated d' err (inl (inl none_wanted, same)) =
      let room = clusters_for-room fs (length bytes) filled_clusters small some_bytes in
      let no_room : length bytes ≤ 0 * fs.bytes_per_cluster = rw none_wanted at room in
      absurd (omega arith)
  store_allocated d' err (inl (inr too_many, same)) = inl too_many
  store_allocated d' err (inr (served, short, used_up)) = inr short
  store_allocated d' fault h = h
  store_allocated d' out_of_fuel h = h

read_chain_nothing :
    (fuel : ℕ) (fs : Volume) (first : ℕ) (d : Disk)
    → 0 < fuel
    → read_chain fuel fs first 0 0 d ≡ (ok [], d)
unfolding read_chain
read_chain_nothing zero fs first d h = absurd (omega arith)
read_chain_nothing (suc fuel) fs first d h = refl

-- On a mounted volume with buffers for its clusters, storing bytes whose number does not come
-- within a cluster of 2 ^ 32 either succeeds, and then reading as many bytes from the returned
-- cluster gives exactly those bytes, with one round more than there are clusters; or it fails, and
-- then the bytes take more than 256 clusters or more than are free.
pub store_data-Stores :
    (fs : Volume) (bytes : List ℕ) (d : Disk)
    → IsMounted fs d
    → HasClusters fs
    → fits_buffer fs ≡ true
    → length bytes + fs.bytes_per_cluster < 2 ^ 32
    → Stores fs bytes d (store_data fs bytes d).0 (store_data fs bytes d).1
unfolding store_data
store_data-Stores fs [] d m g fits small =
    (m, λ fuel enough. read_chain_nothing fuel fs 0 d (omega arith))
store_data-Stores fs (b ∷ bs) d m g fits small =
    let filled_clusters : 0 < fs.bytes_per_cluster =
      grind (arith, g.cluster_bytes, g.some_sectors, m.filled) in
    rw (ne→== fs.bytes_per_cluster 0 (omega arith)) (
      store_allocated fs (b ∷ bs) d g fits filled_clusters small (omega arith) _ _
        (alloc_chain-Allocates fs (clusters_for fs (length (b ∷ bs))) d m))
