-- ===== src/Sched/Inv.antt =====
-- What holds of the scheduler's state whenever no CPU is in the midst of a change.
use can_boot.Common.{
  ℕ, ◌+◌, ◌<◌, ◌≡◌, ◌≢◌, ◌⊎◌, true, false, Option, none, some, List, [], ◌∷◌, if◌then◌else◌,
  contains,
}
use can_boot.Sched.{
  ThreadState, free, runnable, running, blocked, exited, Cpu, Sched, pool_size, run_queue,
  join_queue,
}
use can_boot.Sched.Chain.{Links}

abbrev pub Distinct : List ℕ → Type 0
Distinct [] = Unit
Distinct (x ∷ xs) = (contains x xs ≡ false) × Distinct xs

-- A thread that has ended: nobody waits for it any more.
abbrev pub HasEnded : ThreadState → Type 0
HasEnded free = Unit
HasEnded exited = Unit
HasEnded _ = ⊥

-- Where a thread of the pool stands, by its state.
abbrev pub IsKept : (ℕ → List ℕ) → (ℕ → Option ℕ) → ℕ → ThreadState → Type 0
IsKept lists runs t runnable = contains t (lists run_queue) ≡ true
IsKept lists runs t running = (c : ℕ) × (runs c ≡ some t)
IsKept lists runs t blocked = (q : ℕ) × (q ≢ run_queue) × (contains t (lists q) ≡ true)
IsKept lists runs t _ = Unit

-- `lists` are the threads of each queue and `runs` the thread that each CPU runs. In the midst of a
-- change, the thread `moving` stands nowhere.
pub record Inv (s : Sched) (runs : ℕ → Option ℕ) (moving : Option ℕ) (lists : ℕ → List ℕ)
    : Type 0 where
  pub linked : (q : ℕ) → Links s.next (s.queues q) (lists q)
  pub distinct : (q : ℕ) → Distinct (lists q)
  pub apart : (q r t : ℕ) → contains t (lists q) ≡ true → contains t (lists r) ≡ true → q ≡ r
  pub pooled : (q t : ℕ) → contains t (lists q) ≡ true → t < pool_size
  pub ready : (t : ℕ) → contains t (lists run_queue) ≡ true → s.state t ≡ runnable
  pub waiting : (q t : ℕ) → q ≢ run_queue → contains t (lists q) ≡ true → s.state t ≡ blocked
  pub awake : (c t : ℕ) → runs c ≡ some t → s.state t ≡ running
  pub own : (c t : ℕ) → runs c ≡ some t → (t < pool_size) ⊎ (t ≡ 16 + c)
  pub exclusive : (c d t : ℕ) → runs c ≡ some t → runs d ≡ some t → c ≡ d
  pub off_queues : (t q : ℕ) → moving ≡ some t → contains t (lists q) ≡ false
  pub off_cpus : (t c : ℕ) → moving ≡ some t → runs c ≢ some t
  pub moved_pooled : (t : ℕ) → moving ≡ some t → t < pool_size
  pub kept : (t : ℕ) → t < pool_size → moving ≢ some t → IsKept lists runs t (s.state t)
  pub no_joiners : (t : ℕ) → t < pool_size → HasEnded (s.state t) → lists (join_queue t) ≡ []

abbrev pub running_on : (ℕ → Cpu) → ℕ → Option ℕ
running_on cpus c = if (cpus c).online then some (cpus c).current else none

-- Every thread of the pool stands where its state says, and nowhere else: the runnable ones are in
-- the run queue, the blocked ones in one wait queue, the running ones on one CPU, the queues are
-- well formed and disjoint, and nobody waits for a thread that has ended.
pub record IsConsistent (s : Sched) : Type 0 where
  pub lists : ℕ → List ℕ
  pub holds : Inv s (running_on s.cpus) none lists
  pub idles : (c : ℕ) → (s.cpus c).idle ≡ 16 + c
