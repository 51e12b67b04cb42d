-- ===== src/Tests/Threads.antt =====
-- The scheduler from its start: thread 0 creates thread 1, and both take turns.
use can_boot.Common.{
  ℕ, ◌+◌, ◌≤◌, ◌<◌, ◌≡◌, refl, sym, ◌≢◌, ◌⊎◌, true, false, none, some, List, [], ◌∷◌, ◌++◌, arith,
  length, length-append, get_or, contains, Bool-cases, inl, inr, ne→==, ◌==◌, ap, ◌∙◌,
}
use can_boot.Sched.{
  Sched, pool_size, run_queue, current_of, free, gil_queue, wake_all, reschedule, push, runnable,
  running, resumed,
}
use mathlib.Core.Path.{subst}
use can_boot.Sched.Threads.{init, create, ap_online, cleared}
use can_boot.Sched.Steps.{Reach, start, later, calls, creates, comes_online, call}
use can_boot.Sched.Inv.{HasEnded, IsConsistent, running_on}
use can_boot.Sched.Reschedule.{Rescheduled, reschedule-Rescheduled}
use can_boot.Sched.Wakes.Wake.{Woken}
use can_boot.Sched.Wakes.Few.{wake_all-Woken}
use can_boot.Sched.Safety.{Reach-IsConsistent}
use can_boot.Sched.Safety.InThreads.{
  init-IsConsistent, ap_online-IsConsistent, create_at-IsConsistent, create_at_line,
}
use can_boot.Sched.Safety.Base.{idle-IsOff}
use can_boot.Sched.Wakes.{contains-append}
use can_boot.Sched.Fairness.{line}
use can_boot.Sched.Turns.{TakesTurns, Steps, turns, yields_reach}
use can_boot.Sched.Creation.{Created, create-Created}

after_create : Reach (call (creates 7 9) 0 init)
unfolding init
after_create = later start (calls 0 (creates 7 9) refl refl (omega arith) refl tt)

Reach-IsConsistent_example : IsConsistent (call (creates 7 9) 0 init)
Reach-IsConsistent_example = Reach-IsConsistent after_create

init_online : (init.cpus 0).online ≡ true
unfolding init
init_online = refl

abbrev two_cpus : Sched
two_cpus = ap_online 1 init

two_cpus_reached : Reach two_cpus
unfolding init
two_cpus_reached = later start (comes_online 1 refl refl)

both_online : ((two_cpus.cpus 0).online ≡ true) × ((two_cpus.cpus 1).online ≡ true)
unfolding ap_online init
both_online = (refl, refl)

second_offline : (init.cpus 1).online ≡ false
unfolding init
second_offline = refl

two_cpus_consistent : IsConsistent two_cpus
two_cpus_consistent = ap_online-IsConsistent 1 init init-IsConsistent second_offline

second_idle : current_of 1 two_cpus ≡ 16 + 1
unfolding ap_online init
second_idle = refl

reschedule-Rescheduled_example :
    (lists' : ℕ → List ℕ) × Rescheduled 1 two_cpus
      (reschedule 1 two_cpus)
      two_cpus_consistent.lists
      lists'
reschedule-Rescheduled_example =
    reschedule-Rescheduled 1 two_cpus two_cpus_consistent.lists
      (idle-IsOff 1 two_cpus two_cpus_consistent both_online.1 second_idle)

wake_all-Woken_example :
    (lists' : ℕ → List ℕ) × Woken pool_size gil_queue init
      (wake_all gil_queue init)
      (running_on init.cpus)
      init-IsConsistent.lists
      lists'
    × (lists' gil_queue ≡ [])
    × (lists' run_queue ≡ init-IsConsistent.lists run_queue ++ init-IsConsistent.lists gil_queue)
wake_all-Woken_example =
    wake_all-Woken gil_queue init (running_on init.cpus) init-IsConsistent.lists (omega arith)
      init-IsConsistent.holds

-- Thread 1 was created, and is alone in line.
abbrev one_waits : Sched
one_waits = push run_queue 1 (cleared 1 7 9 init)

slot_free : init.state 1 ≡ free
unfolding init
slot_free = refl

one_waits_consistent : IsConsistent one_waits
one_waits_consistent =
    create_at-IsConsistent 1 7 9 init init-IsConsistent (omega arith)
      (subst HasEnded (sym slot_free) tt)

one_waits_line : 0 < length (line one_waits_consistent)
unfolding one_waits_consistent
one_waits_line =
    let last =
      create_at_line 1 7 9 init init-IsConsistent (omega arith)
        (subst HasEnded (sym slot_free) tt) in
    rw last (omega (arith, length-append (init-IsConsistent.lists run_queue) (1 ∷ [])))

nobody_ready : (u : ℕ) → u < pool_size → init.state u ≢ runnable
unfolding init
nobody_ready u small h = elim (Bool-cases (u == 0)) [
  | inl is_zero ↦ let both : running ≡ runnable = sym (rw is_zero refl) ∙ h in absurd (cc)
  | inr above ↦
      let none_left : u == 16 ≡ false = ne→== u 16 (omega (arith, small)) in
      let both : free ≡ runnable = sym (rw (above, none_left) refl) ∙ h in absurd (cc)
]

only_first : (u : ℕ) → contains u (line one_waits_consistent) ≡ true → u ≡ 1
unfolding one_waits_consistent
only_first u among =
    let last =
      create_at_line 1 7 9 init init-IsConsistent (omega arith)
        (subst HasEnded (sym slot_free) tt) in
    let before = init-IsConsistent.lists run_queue in
    let split : contains u (before ++ 1 ∷ []) ≡ true =
      sym (ap (λ (xs : List ℕ). contains u xs) last) ∙ among in
    elim (Bool-cases (contains u before)) [
      | inl early ↦ absurd (
          nobody_ready u (init-IsConsistent.holds.pooled run_queue u early)
            (init-IsConsistent.holds.ready u early))
      | inr late ↦ ground (arith, contains-append u before (1 ∷ []), split)
    ]

one_waits_turns : TakesTurns 0 one_waits one_waits_consistent
unfolding push init one_waits_consistent
one_waits_turns = record {
  online = refl;
  free_lock = refl;
  pooled = omega arith;
  in_no_call = refl;
  resumes = λ u among.
      subst (λ (v : ℕ). (one_waits.threads v).todo ≡ resumed ∷ []) (sym (only_first u among)) refl;
}

yields_reach_example :
    Steps one_waits (turns 1 0 one_waits)
    × (current_of 0 (turns 1 0 one_waits) ≡ get_or (line one_waits_consistent) 0 0)
yields_reach_example =
    yields_reach 0 0 0 one_waits one_waits_consistent one_waits_turns one_waits_line

create-Created_example :
    ((t : ℕ) × ((create 7 9 init).0 ≡ some t)
      × Created 7 9 t init (create 7 9 init).1 init-IsConsistent)
    ⊎ ((create 7 9 init ≡ (none, init)) × ((u : ℕ) → 1 ≤ u → u < pool_size → init.state u ≢ free))
create-Created_example = create-Created 7 9 init init-IsConsistent
