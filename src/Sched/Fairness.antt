-- ===== src/Sched/Fairness.antt =====
-- Who runs after a thread has yielded.
use can_boot.Common.{
  ℕ, ◌+◌, ◌<◌, ◌≡◌, refl, ap, ◌∙◌, inl, true, none, some, List, [], ◌∷◌, ◌++◌, arith, get_or, drop,
  contains,
}
use can_boot.Sched.{
  runnable, resumed, Cpu, Sched, pool_size, run_queue, current_of, set_state, push, add_frame,
  reschedule, switch_to, pop, pop_head, or_idle,
}
use can_boot.Sched.Calls.{yield}
use can_boot.Sched.Chain.{set_at_self}
use can_boot.Sched.Inv.{IsConsistent}
use can_boot.Sched.Moves.{Inv-frame}
use can_boot.Sched.Wakes.{queued}
use can_boot.Sched.Reschedule.{reschedule-Rescheduled, switch_to_cpu}
use can_boot.Sched.Safety.Base.{park-IsOff, current_running}

-- The run queue of a consistent state, in order.
abbrev pub line : {s : Sched} → IsConsistent s → List ℕ
line k = k.lists run_queue

-- What `yield` leaves: the first in line runs, and the thread that yielded is last.
pub record Yielded (c : ℕ) (s s' : Sched) (k : IsConsistent s) : Type 0 where
  pub consistent : IsConsistent s'
  pub moved : line consistent ≡ drop 1 (line k ++ current_of c s ∷ [])
  pub picked : current_of c s' ≡ get_or (line k ++ current_of c s ∷ []) 0 (16 + c)
  pub online : (s'.cpus c).online ≡ true
  pub pooled : current_of c s' < pool_size
  pub locked : s'.holder ≡ some c

switch_to_online :
    (c t : ℕ) (s : Sched) → (s.cpus c).online ≡ true → ((switch_to c t s).cpus c).online ≡ true
switch_to_online c t s on = ap (λ (u : Cpu). u.online) (switch_to_cpu s c t) ∙ on

reschedule_online :
    (c : ℕ) (s : Sched) → (s.cpus c).online ≡ true → ((reschedule c s).cpus c).online ≡ true
unfolding reschedule pop
reschedule_online c s on =
    elim (s.queues run_queue).head
      as (λ h.
        ((switch_to c (or_idle (pop_head run_queue h s).0 (s.cpus c).idle)
            (record (pop_head run_queue h s).1 { holder = some c })).cpus
          c).online
        ≡ true) [
          | none ↦ switch_to_online c (s.cpus c).idle (record s { holder = some c }) on
          | some x ↦
              switch_to_online c x (record (pop_head run_queue (some x) s).1 { holder = some c }) on
        ]

first_pooled :
    (xs : List ℕ) (t d : ℕ) (bound : ℕ)
    → ((u : ℕ) → contains u xs ≡ true → u < bound)
    → t < bound
    → get_or (xs ++ t ∷ []) 0 d < bound
first_pooled [] t d bound small below = below
first_pooled (x ∷ xs) t d bound small below = small x (ground arith)

pub yield-Yielded :
    (c : ℕ) (s : Sched) (k : IsConsistent s)
    → (s.cpus c).online ≡ true
    → current_of c s < pool_size
    → Yielded c s (yield c s) k
unfolding yield
yield-Yielded c s k on small =
    let self = current_of c s in
    let s1 = add_frame self resumed s in
    let k1 : IsConsistent s1 = record {
      lists = k.lists;
      holds = Inv-frame s s1 refl refl refl k.holds;
      idles = k.idles;
    } in
    let off =
      park-IsOff run_queue c runnable s1 k1 on small (inl (refl, refl))
        (λ u below e. absurd (omega arith)) in
    let s2 = push run_queue self (set_state self runnable s1) in
    let (lists', r) = reschedule-Rescheduled c s2 _ off in
    let same_line : queued k1.lists run_queue self run_queue ≡ line k ++ self ∷ [] =
      set_at_self k1.lists run_queue (k1.lists run_queue ++ self ∷ []) in
    rw (current_running c s on k) (record {
      consistent = record { lists = lists'; holds = r.holds; idles = r.idles };
      moved = r.line ∙ ap (λ (l : List ℕ). drop 1 l) same_line;
      picked = r.picked ∙ ap (λ (l : List ℕ). get_or l 0 (16 + c)) same_line;
      online = reschedule_online c s2 off.online;
      pooled = rw (r.picked ∙ ap (λ (l : List ℕ). get_or l 0 (16 + c)) same_line) (
          first_pooled (line k) self (16 + c) pool_size (λ u i. k.holds.pooled run_queue u i)
            small);
      locked = r.locked;
    })
