-- ===== src/Sched/Reschedule.antt =====
-- `reschedule` starts the first thread of the run queue, or the idle thread of the CPU.
use can_boot.Common.{
  ℕ, ◌+◌, ◌≡◌, refl, sym, ap, ◌∙◌, fun_ext, ◌≢◌, inl, inr, true, Option, none, some, List, ◌==◌,
  if◌then◌else◌, ==→eq, ==→ne, Bool-cases, get_or, drop,
}
use mathlib.Core.Path.{subst}
use can_boot.Sched.{
  running, Cpu, Sched, run_queue, current_of, set_at, set_state, switch_to, reschedule,
}
use can_boot.Sched.Chain.{set_at_self, set_at_ne, Links-head}
use can_boot.Sched.Inv.{Inv, running_on}
use can_boot.Sched.Moves.{Inv-frame, Inv-land, Inv-land_idle}
use can_boot.Sched.Wakes.Pops.{popped, pop-some, pop-none, Inv-pop}

set_at_twice {ℓ} :
    {A : Type ℓ} (f : ℕ → A) (i : ℕ) (a b : A) → set_at (set_at f i a) i b ≡ set_at f i b
set_at_twice f i a b =
    fun_ext
      (λ k. elim (Bool-cases (k == i)) [ inl same ↦ rw same refl | inr other ↦ rw other refl ])

switch_to-Inv :
    (s : Sched) {runs : ℕ → Option ℕ} {lists : ℕ → List ℕ} (c t : ℕ)
    → Inv (set_state t running s) runs none lists
    → Inv (switch_to c t s) runs none lists
unfolding switch_to
switch_to-Inv s c t h = elim (Bool-cases (t == current_of c s)) [
  | inl same ↦ rw same h
  | inr other ↦ rw other (Inv-frame (set_state t running s) _ refl refl refl h)
]

-- What CPU `c` and the others run after the switch.
pub switch_to_cpu :
    (s : Sched) (c t : ℕ) → ((switch_to c t s).cpus c ≡ record (s.cpus c) { current = t })
unfolding switch_to
switch_to_cpu s c t = elim (Bool-cases (t == current_of c s)) [
  | inl same ↦ rw same (ap (λ (v : ℕ). record (s.cpus c) { current = v }) (sym (==→eq t _ same)))
  | inr other ↦ rw other (set_at_self s.cpus c _)
]

switch_to_other : (s : Sched) (c t d : ℕ) → d ≢ c → (switch_to c t s).cpus d ≡ s.cpus d
unfolding switch_to
switch_to_other s c t d apart = elim (Bool-cases (t == current_of c s)) [
  | inl same ↦ rw same refl
  | inr other ↦ rw other (set_at_ne s.cpus c _ d apart)
]

running_on-switch_to :
    (s : Sched) (c t : ℕ)
    → (s.cpus c).online ≡ true
    → running_on (switch_to c t s).cpus ≡ set_at (running_on s.cpus) c (some t)
running_on-switch_to s c t on = fun_ext (λ d. elim (Bool-cases (d == c)) [
  | inl same ↦ rw same (
      subst (λ (v : ℕ). running_on (switch_to c t s).cpus v ≡ some t) (sym (==→eq d c same))
        (rw (switch_to_cpu s c t) (rw on refl)))
  | inr other ↦ rw other (
      ap (λ (u : Cpu). if u.online then some u.current else none)
        (switch_to_other s c t d (==→ne d c other)))
])

switch_to-idles :
    (s : Sched) (c t : ℕ)
    → ((d : ℕ) → (s.cpus d).idle ≡ 16 + d)
    → (d : ℕ) → ((switch_to c t s).cpus d).idle ≡ 16 + d
switch_to-idles s c t idles d = elim (Bool-cases (d == c)) [
  | inl same ↦
      subst (λ (v : ℕ). ((switch_to c t s).cpus v).idle ≡ 16 + v) (sym (==→eq d c same))
        (rw (switch_to_cpu s c t) (idles c))
  | inr other ↦ rw (switch_to_other s c t d (==→ne d c other)) (idles d)
]

switch_to_holder : (s : Sched) (c t : ℕ) → (switch_to c t s).holder ≡ s.holder
unfolding switch_to
switch_to_holder s c t = elim (Bool-cases (t == current_of c s)) [
  | inl same ↦ rw same refl
  | inr other ↦ rw other refl
]

-- CPU `c` has taken its thread off, and every thread stands where it should.
pub record IsOff (c : ℕ) (s : Sched) (lists : ℕ → List ℕ) : Type 0 where
  pub online : (s.cpus c).online ≡ true
  pub idles : (d : ℕ) → (s.cpus d).idle ≡ 16 + d
  pub holds : Inv s (set_at (running_on s.cpus) c none) none lists

-- What `reschedule` leaves: the run queue without its first thread, which now runs; the CPU's idle
-- thread if there is none.
pub record Rescheduled (c : ℕ) (s s' : Sched) (lists lists' : ℕ → List ℕ) : Type 0 where
  pub holds : Inv s' (running_on s'.cpus) none lists'
  pub idles : (d : ℕ) → (s'.cpus d).idle ≡ 16 + d
  pub line : lists' run_queue ≡ drop 1 (lists run_queue)
  pub others : (q : ℕ) → q ≢ run_queue → lists' q ≡ lists q
  pub picked : current_of c s' ≡ get_or (lists run_queue) 0 (16 + c)
  pub locked : s'.holder ≡ some c

-- The switch to a thread that no CPU runs.
switched :
    (c t : ℕ) (s s' : Sched) (lists lists' : ℕ → List ℕ)
    → (s'.cpus c).online ≡ true
    → ((d : ℕ) → (s'.cpus d).idle ≡ 16 + d)
    → s'.holder ≡ some c
    → Inv
        (set_state t running s')
        (set_at (set_at (running_on s'.cpus) c none) c (some t))
        none
        lists'
    → lists' run_queue ≡ drop 1 (lists run_queue)
    → ((q : ℕ) → q ≢ run_queue → lists' q ≡ lists q)
    → t ≡ get_or (lists run_queue) 0 (16 + c)
    → Rescheduled c s (switch_to c t s') lists lists'
switched c t s s' lists lists' on idles held landed line others first = record {
  holds =
      subst (λ (r : ℕ → Option ℕ). Inv (switch_to c t s') r none lists')
        (set_at_twice (running_on s'.cpus) c none (some t) ∙ sym (running_on-switch_to s' c t on))
        (switch_to-Inv s' c t landed);
  idles = switch_to-idles s' c t idles;
  line = line;
  others = others;
  picked = ap (λ (u : Cpu). u.current) (switch_to_cpu s' c t) ∙ first;
  locked = switch_to_holder s' c t ∙ held;
}

abbrev held_by : ℕ → Sched → Sched
held_by c s = record s { holder = some c }

reschedule_idle :
    (c : ℕ) (s : Sched)
    → (s.queues run_queue).head ≡ none
    → (s.cpus c).idle ≡ 16 + c
    → reschedule c s ≡ switch_to c (16 + c) (held_by c s)
unfolding reschedule
reschedule_idle c s h at_idle = rw (pop-none run_queue s h, at_idle) refl

reschedule_first :
    (c x : ℕ) (s : Sched)
    → (s.queues run_queue).head ≡ some x
    → reschedule c s ≡ switch_to c x (held_by c (popped run_queue x s))
unfolding reschedule
reschedule_first c x s h = rw (pop-some run_queue x s h) refl

-- Where a CPU's thread was taken off and everything else is consistent, `reschedule` starts the first
-- thread of the run queue, or the CPU's idle thread if nobody is in line; the others move up, no
-- other queue changes, the state is consistent and the CPU still has the lock.
pub reschedule-Rescheduled :
    (c : ℕ) (s : Sched) (lists : ℕ → List ℕ)
    → IsOff c s lists
    → (lists' : ℕ → List ℕ) × Rescheduled c s (reschedule c s) lists lists'
reschedule-Rescheduled c s lists o =
    let runs = set_at (running_on s.cpus) c none in
    let off = set_at_self (running_on s.cpus) c none in
    elim (Links-head s.next (s.queues run_queue) (lists run_queue) (o.holds.linked run_queue)) [
      | inl (nothing, empty) ↦ (
        lists,
        subst (λ (s' : Sched). Rescheduled c s s' lists lists)
            (sym (reschedule_idle c s nothing (o.idles c)))
            (switched c (16 + c) s (held_by c s) lists lists o.online o.idles refl
              (Inv-land_idle (held_by c s) runs lists c
                (Inv-frame s (held_by c s) refl refl refl o.holds) off)
              (rw empty refl) (λ q other. refl) (rw empty refl)),
      )
      | inr (x, xs, first, at_run) ↦
          let s' = popped run_queue x s in
          let lists' = set_at lists run_queue xs in
          (
            lists',
            subst (λ (s' : Sched). Rescheduled c s s' lists lists')
                (sym (reschedule_first c x s first))
                (switched c x s (held_by c s') lists lists' o.online o.idles refl
                  (Inv-land (held_by c s') runs lists' c x
                    (Inv-frame s' (held_by c s') refl refl refl
                      (Inv-pop lists run_queue x xs at_run s runs o.holds))
                    off)
                  (rw at_run refl) (λ q other. set_at_ne lists run_queue xs q other)
                  (rw at_run refl)),
          )
    ]
