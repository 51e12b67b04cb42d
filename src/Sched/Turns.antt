-- ===== src/Sched/Turns.antt =====
-- Threads that take turns on one CPU: everybody in line runs.
use can_boot.Common.{
  ℕ, zero, suc, ◌+◌, ◌<◌, ◌≡◌, refl, sym, ap, ◌∙◌, inl, inr, Bool, true, false, none, some, List,
  [], ◌∷◌, ◌++◌, arith, ◌==◌, if◌then◌else◌, ==→eq, eq→==, ne→==, Bool-cases, length, get_or, drop,
  length-append, contains,
}
use Prim.{⊥}
use mathlib.Core.Path.{subst}
use can_boot.Sched.{
  Frame, runnable, resumed, running, Thread, Sched, pool_size, run_queue, current_of, set_state,
  push, add_frame, reschedule, switch_to, pop, pop_head, or_idle, finish,
}
use can_boot.Sched.Calls.{yield}
use can_boot.Sched.Inv.{IsConsistent}
use can_boot.Sched.Moves.{Inv-frame}
use can_boot.Sched.Wakes.{contains-append}
use can_boot.Sched.Safety.Base.{current_running}
use can_boot.Sched.Steps.{Step, yields, call, calls, goes_on, run_frame, todo_of}
use can_boot.Sched.Fairness.{line, yield-Yielded}

get_or-rotate :
    (xs : List ℕ) (a d i : ℕ)
    → i < length xs
    → get_or (drop 1 (xs ++ a ∷ [])) i d ≡ get_or (xs ++ a ∷ []) (suc i) d
get_or-rotate [] a d i h = absurd (omega arith)
get_or-rotate (x ∷ xs) a d i h = refl

length-rotate : (xs : List ℕ) (a : ℕ) → length (drop 1 (xs ++ a ∷ [])) ≡ length xs
length-rotate [] a = refl
length-rotate (x ∷ xs) a = omega (arith, length-append xs (a ∷ []))

get_or-append : (xs ys : List ℕ) (i d : ℕ) → i < length xs → get_or (xs ++ ys) i d ≡ get_or xs i d
get_or-append [] ys i d h = absurd (omega arith)
get_or-append (x ∷ xs) ys zero d h = refl
get_or-append (x ∷ xs) ys (suc i) d h = get_or-append xs ys i d (omega arith)

get_or_default : (xs : List ℕ) (i d d' : ℕ) → i < length xs → get_or xs i d ≡ get_or xs i d'
get_or_default [] i d d' h = absurd (omega arith)
get_or_default (x ∷ xs) zero d d' h = refl
get_or_default (x ∷ xs) (suc i) d d' h = get_or_default xs i d d' (omega arith)

abbrev todo_at : ℕ → Sched → List Frame
todo_at u s = (s.threads u).todo

todo-if :
    (b : Bool) (th th' : Thread) → (if b then th else th').todo ≡ (if b then th.todo else th'.todo)
todo-if true th th' = refl
todo-if false th th' = refl

set_same {ℓ} : {A : Type ℓ} (f : ℕ → A) (t u : ℕ) → (if u == t then f t else f u) ≡ f u
set_same f t u = elim (Bool-cases (u == t)) [
  | inl h ↦ rw h (ap f (sym (==→eq u t h)))
  | inr h ↦ rw h refl
]

-- A switch changes nothing of what threads have to do.
switch_to_todo : (c t u : ℕ) (s : Sched) → todo_at u (switch_to c t s) ≡ todo_at u s
unfolding switch_to
switch_to_todo c t u s = elim (Bool-cases (t == current_of c s)) [
  | inl same ↦ rw same refl
  | inr other ↦ rw other (
      todo-if (u == t) (record (s.threads t) { last_cpu = c }) (s.threads u)
      ∙ set_same (λ (v : ℕ). (s.threads v).todo) t u)
]

reschedule_todo : (c u : ℕ) (s : Sched) → todo_at u (reschedule c s) ≡ todo_at u s
unfolding reschedule pop
reschedule_todo c u s =
    elim (s.queues run_queue).head
      as (λ h.
        ((switch_to c (or_idle (pop_head run_queue h s).0 (s.cpus c).idle)
            (record (pop_head run_queue h s).1 { holder = some c })).threads
          u).todo
        ≡ (s.threads u).todo) [
          | none ↦ switch_to_todo c (s.cpus c).idle u (record s { holder = some c })
          | some x ↦
              switch_to_todo c x u (record (pop_head run_queue (some x) s).1 { holder = some c })
        ]

-- The thread that yields has the lock to give back when it goes on.
yield_todo :
    (c u : ℕ) (s : Sched) (k : IsConsistent s)
    → (s.cpus c).online ≡ true
    → todo_at u (yield c s) ≡ (if u == current_of c s then resumed ∷ todo_of c s else todo_at u s)
unfolding yield
yield_todo c u s k on =
    let self = current_of c s in
    let s2 = push run_queue self (set_state self runnable (add_frame self resumed s)) in
    rw (current_running c s on k) (
      reschedule_todo c u s2
      ∙ (unfold push in
          todo-if (u == self) (record (s.threads self) { todo = resumed ∷ todo_of c s })
            (s.threads u)))

-- A thread yields, and the one that runs then gives back the lock.
abbrev pub turn : ℕ → Sched → Sched
turn c s = finish c (yield c s)

unfoldable pub turns : ℕ → ℕ → Sched → Sched
turns zero c s = s
turns (suc n) c s = turns n c (turn c s)

-- Steps of the scheduler, one after the other.
pub data Steps : Sched → Sched → Type 0 where
  nothing : {s : Sched} → Steps s s
  first : {s t u : Sched} → Step s t → Steps t u → Steps s u

-- CPU `c` runs a thread of the pool that is in no call, nobody has the lock, and every thread in the
-- run queue was switched out by a yield, so that it has but the lock to give back.
pub record TakesTurns (c : ℕ) (s : Sched) (k : IsConsistent s) : Type 0 where
  pub online : (s.cpus c).online ≡ true
  pub free_lock : s.holder ≡ none
  pub pooled : current_of c s < pool_size
  pub in_no_call : todo_of c s ≡ []
  pub resumes : (u : ℕ) → contains u (line k) ≡ true → todo_at u s ≡ resumed ∷ []

contains-drop1 : (u : ℕ) (xs : List ℕ) → contains u (drop 1 xs) ≡ true → contains u xs ≡ true
contains-drop1 u [] h = h
contains-drop1 u (x ∷ xs) h = ground arith

-- After the yield, all that were in line, and the thread that yielded, have the lock to give back.
todo_after :
    (c u : ℕ) (s : Sched) (k : IsConsistent s)
    → TakesTurns c s k
    → contains u (line k ++ current_of c s ∷ []) ≡ true
    → todo_at u (yield c s) ≡ resumed ∷ []
todo_after c u s k r among = yield_todo c u s k r.online ∙ elim (Bool-cases (u == current_of c s)) [
  | inl self ↦ rw self (ap (λ (fs : List Frame). resumed ∷ fs) r.in_no_call)
  | inr other ↦
      let in_line : contains u (line k) ≡ true =
        ground (arith, contains-append u (line k) (current_of c s ∷ [])) in
      rw other (r.resumes u in_line)
]

contains_first :
    (xs : List ℕ) (t d : ℕ) → contains (get_or (xs ++ t ∷ []) 0 d) (xs ++ t ∷ []) ≡ true
contains_first [] t d = ground arith
contains_first (x ∷ xs) t d = ground arith

finish_todo :
    (c u : ℕ) (s : Sched)
    → todo_at u (finish c s) ≡ (if u == current_of c s then drop 1 (todo_of c s) else todo_at u s)
finish_todo c u s =
    todo-if (u == current_of c s)
      (record (s.threads (current_of c s)) { todo = drop 1 (todo_of c s) }) (s.threads u)

-- No thread in line runs.
off_cpu :
    (s : Sched) (c u : ℕ) (k : IsConsistent s)
    → (s.cpus c).online ≡ true
    → contains u (line k) ≡ true
    → u ≡ current_of c s
    → ⊥
off_cpu s c u k on among same =
    let ready = k.holds.ready u among in
    let runs : s.state u ≡ running = k.holds.awake c u (rw on (ap some (sym same))) in
    let both = sym ready ∙ runs in absurd (cc)

Step-yield :
    (c : ℕ) (s : Sched)
    → (s.cpus c).online ≡ true
    → s.holder ≡ none
    → current_of c s < pool_size
    → todo_of c s ≡ []
    → Step s (yield c s)
unfolding call
Step-yield c s on free_lock small done = calls c yields on free_lock small done tt

Step-finish :
    (c : ℕ) (s : Sched)
    → (s.cpus c).online ≡ true
    → s.holder ≡ some c
    → todo_of c s ≡ resumed ∷ []
    → current_of c s < pool_size
    → Step s (finish c s)
unfolding run_frame
Step-finish c s on locked at small = goes_on c resumed [] on (inr locked) at (inl small)

-- What a turn leaves.
record Turned (c : ℕ) (s : Sched) (k : IsConsistent s) : Type 0 where
  steps : {u : Sched} → Steps (turn c s) u → Steps s u
  consistent : IsConsistent (turn c s)
  takes_turns : TakesTurns c (turn c s) consistent
  moved : line consistent ≡ drop 1 (line k ++ current_of c s ∷ [])
  picked : current_of c (turn c s) ≡ get_or (line k ++ current_of c s ∷ []) 0 (16 + c)

turn-Turned : (c : ℕ) (s : Sched) (k : IsConsistent s) → TakesTurns c s k → Turned c s k
turn-Turned c s k r =
    let s1 = yield c s in
    let y = yield-Yielded c s k r.online r.pooled in
    let next = current_of c s1 in
    let whole = line k ++ current_of c s ∷ [] in
    let next_todo : todo_at next s1 ≡ resumed ∷ [] = todo_after c next s k r (
      subst (λ (t : ℕ). contains t whole ≡ true) (sym y.picked)
        (contains_first (line k) (current_of c s) (16 + c))) in
    let k2 : IsConsistent (finish c s1) = record {
      lists = y.consistent.lists;
      holds = Inv-frame s1 (finish c s1) refl refl refl y.consistent.holds;
      idles = y.consistent.idles;
    } in
    record {
      steps = λ rest.
          first {t = yield c s} (Step-yield c s r.online r.free_lock r.pooled r.in_no_call)
            (first {t = finish c s1} (Step-finish c s1 y.online y.locked next_todo y.pooled) rest);
      consistent = k2;
      takes_turns = record {
        online = y.online;
        free_lock = refl;
        pooled = y.pooled;
        in_no_call =
            finish_todo c next s1
            ∙ rw (eq→== next next refl) (ap (λ (fs : List Frame). drop 1 fs) next_todo);
        resumes = λ u among.
            let other : u == next ≡ false =
              ne→== u next (λ same. off_cpu s1 c u y.consistent y.online among same) in
            finish_todo c u s1
            ∙ rw other (
                todo_after c u s k r (
                  contains-drop1 u whole
                    (subst (λ (xs : List ℕ). contains u xs ≡ true) y.moved among)));
      };
      moved = y.moved;
      picked = y.picked;
    }

-- Where the threads of one CPU do nothing but yield and no other CPU and no timer tick comes in
-- between, each turn is two steps of the scheduler, the yield and the release of the lock by the
-- thread that runs next, and the thread at place `i` of the run queue runs after `i + 1` turns.
pub yields_reach :
    (i c d : ℕ) (s : Sched) (k : IsConsistent s)
    → TakesTurns c s k
    → i < length (line k)
    → Steps s (turns (suc i) c s) × (current_of c (turns (suc i) c s) ≡ get_or (line k) i d)
unfolding turns
yields_reach zero c d s k r inside =
    let t = turn-Turned c s k r in
    (
      t.steps nothing,
      t.picked
          ∙ get_or-append (line k) (current_of c s ∷ []) 0 (16 + c) inside
          ∙ get_or_default (line k) 0 (16 + c) d inside,
    )
yields_reach (suc i) c d s k r inside =
    let t = turn-Turned c s k r in
    let same_length = ap length t.moved ∙ length-rotate (line k) (current_of c s) in
    let (steps, reached) =
      yields_reach i c d (turn c s) t.consistent t.takes_turns
        (omega (arith, same_length, inside)) in
    (
      t.steps steps,
      reached
          ∙ ap (λ (xs : List ℕ). get_or xs i d) t.moved
          ∙ get_or-rotate (line k) (current_of c s) d i (omega arith)
          ∙ get_or-append (line k) (current_of c s ∷ []) (suc i) d inside,
    )
