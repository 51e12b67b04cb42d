-- ===== src/Sched/Wakes/Wake.antt =====
-- `canboot_sched_wake_one` and `canboot_sched_wake_all`: who waited longest goes first to the end of
-- the run queue, and nobody is left behind.
use can_boot.Common.{
  ℕ, zero, suc, ◌≡◌, refl, sym, ap, ap₂, ◌∙◌, ◌≢◌, inl, inr, Option, none, some, List, [], ◌∷◌,
  ◌++◌, append-nil, append_assoc, arith, take, drop,
}
use mathlib.Core.Path.{subst}
use can_boot.Sched.{runnable, Sched, run_queue, set_at, set_state, push, wake_one, wake_up_to}
use can_boot.Sched.Chain.{set_at_self, set_at_ne, Links-head}
use can_boot.Sched.Inv.{Inv}
use can_boot.Sched.Wakes.{queued, Inv-push}
use can_boot.Sched.Wakes.Pops.{popped, pop-some, pop-none, Inv-pop}

-- The fields that waking leaves alone.
pub record SameRest (s s' : Sched) : Type 0 where
  pub threads : s'.threads ≡ s.threads
  pub cpus : s'.cpus ≡ s.cpus
  pub mutexes : s'.mutexes ≡ s.mutexes
  pub gil_locked : s'.gil_locked ≡ s.gil_locked
  pub gil_owner : s'.gil_owner ≡ s.gil_owner
  pub holder : s'.holder ≡ s.holder

same_rest : {s : Sched} → SameRest s s
same_rest = record {
  threads = refl;
  cpus = refl;
  mutexes = refl;
  gil_locked = refl;
  gil_owner = refl;
  holder = refl;
}

SameRest-trans : {s s' s'' : Sched} → SameRest s s' → SameRest s' s'' → SameRest s s''
SameRest-trans a b = record {
  threads = b.threads ∙ a.threads;
  cpus = b.cpus ∙ a.cpus;
  mutexes = b.mutexes ∙ a.mutexes;
  gil_locked = b.gil_locked ∙ a.gil_locked;
  gil_owner = b.gil_owner ∙ a.gil_owner;
  holder = b.holder ∙ a.holder;
}

-- The first `n` threads of queue `q` have gone to the end of the run queue.
pub record Woken (n q : ℕ) (s s' : Sched) (runs : ℕ → Option ℕ) (lists lists' : ℕ → List ℕ)
    : Type 0 where
  pub holds : Inv s' runs none lists'
  pub line : lists' run_queue ≡ lists run_queue ++ take n (lists q)
  pub left : lists' q ≡ drop n (lists q)
  pub others : (r : ℕ) → r ≢ q → r ≢ run_queue → lists' r ≡ lists r
  pub rest : SameRest s s'

wake_one_nobody : (q : ℕ) (s : Sched) → (s.queues q).head ≡ none → wake_one q s ≡ s
unfolding wake_one
wake_one_nobody q s h = rw (pop-none q s h) refl

wake_one_first :
    (q x : ℕ) (s : Sched)
    → (s.queues q).head ≡ some x
    → wake_one q s ≡ push run_queue x (set_state x runnable (popped q x s))
unfolding wake_one
wake_one_first q x s h = rw (pop-some q x s h) refl

first_rest :
    (q x : ℕ) (s : Sched) → SameRest s (push run_queue x (set_state x runnable (popped q x s)))
unfolding push
first_rest q x s = record {
  threads = refl;
  cpus = refl;
  mutexes = refl;
  gil_locked = refl;
  gil_owner = refl;
  holder = refl;
}

pub wake_one-Woken :
    (q : ℕ) (s : Sched) (runs : ℕ → Option ℕ) (lists : ℕ → List ℕ)
    → q ≢ run_queue
    → Inv s runs none lists
    → (lists' : ℕ → List ℕ) × Woken 1 q s (wake_one q s) runs lists lists'
wake_one-Woken q s runs lists waits h =
    elim (Links-head s.next (s.queues q) (lists q) (h.linked q)) [
      | inl (nothing, empty) ↦ (
        lists,
        subst (λ (s' : Sched). Woken 1 q s s' runs lists lists) (sym (wake_one_nobody q s nothing))
            (record {
              holds = h;
              line = rw empty (sym (append-nil _));
              left = rw empty refl;
              others = λ r other not_run. refl;
              rest = same_rest;
            }),
      )
      | inr (x, xs, first, at_q) ↦
          let fewer = set_at lists q xs in
          (
            queued fewer run_queue x,
            subst (λ (s' : Sched). Woken 1 q s s' runs lists (queued fewer run_queue x))
                (sym (wake_one_first q x s first))
                (record {
                  holds =
                      Inv-push (popped q x s) runs fewer run_queue x runnable
                        (Inv-pop lists q x xs at_q s runs h) (inl (refl, refl))
                        (λ u below e. absurd (omega arith));
                  line =
                      set_at_self fewer run_queue _
                      ∙ ap (λ (l : List ℕ). l ++ x ∷ [])
                          (set_at_ne lists q xs run_queue (λ e. waits (sym e)))
                      ∙ rw at_q refl;
                  left =
                      set_at_ne fewer run_queue _ q waits ∙ set_at_self lists q xs ∙ rw at_q refl;
                  others = λ r other not_run.
                      set_at_ne fewer run_queue _ r not_run ∙ set_at_ne lists q xs r other;
                  rest = first_rest q x s;
                }),
          )
    ]

wake_up_to_stop : (n q : ℕ) (s : Sched) → (s.queues q).head ≡ none → wake_up_to (suc n) q s ≡ s
unfolding wake_up_to
wake_up_to_stop n q s h = rw (pop-none q s h) refl

wake_up_to_more :
    (n q x : ℕ) (s : Sched)
    → (s.queues q).head ≡ some x
    → wake_up_to (suc n) q s ≡ wake_up_to n q (wake_one q s)
unfolding wake_up_to
wake_up_to_more n q x s h = rw (pop-some q x s h) refl

take-more : (n : ℕ) (xs : List ℕ) → take 1 xs ++ take n (drop 1 xs) ≡ take (suc n) xs
take-more zero [] = refl
take-more (suc n) [] = refl
take-more n (x ∷ xs) = refl

drop-more : (n : ℕ) (xs : List ℕ) → drop n (drop 1 xs) ≡ drop (suc n) xs
drop-more zero [] = refl
drop-more (suc n) [] = refl
drop-more n (x ∷ xs) = refl

wake_up_to_zero : (q : ℕ) (s : Sched) → wake_up_to 0 q s ≡ s
unfolding wake_up_to
wake_up_to_zero q s = refl

pub wake_up_to-Woken :
    (n q : ℕ) (s : Sched) (runs : ℕ → Option ℕ) (lists : ℕ → List ℕ)
    → q ≢ run_queue
    → Inv s runs none lists
    → (lists' : ℕ → List ℕ) × Woken n q s (wake_up_to n q s) runs lists lists'
wake_up_to-Woken zero q s runs lists waits h = (
  lists,
  subst (λ (s' : Sched). Woken 0 q s s' runs lists lists) (sym (wake_up_to_zero q s))
      (record {
        holds = h;
        line = sym (append-nil _);
        left = refl;
        others = λ r other not_run. refl;
        rest = same_rest;
      }),
)
wake_up_to-Woken (suc n) q s runs lists waits h =
    elim (Links-head s.next (s.queues q) (lists q) (h.linked q)) [
      | inl (nothing, empty) ↦ (
        lists,
        subst (λ (s' : Sched). Woken (suc n) q s s' runs lists lists)
            (sym (wake_up_to_stop n q s nothing))
            (record {
              holds = h;
              line = rw empty (sym (append-nil _));
              left = rw empty refl;
              others = λ r other not_run. refl;
              rest = same_rest;
            }),
      )
      | inr (x, xs, first, at_q) ↦
          let (mid, w) = wake_one-Woken q s runs lists waits h in
          let (end, w') = wake_up_to-Woken n q (wake_one q s) runs mid waits w.holds in
          (
            end,
            subst (λ (s' : Sched). Woken (suc n) q s s' runs lists end)
                (sym (wake_up_to_more n q x s first))
                (record {
                  holds = w'.holds;
                  line =
                      w'.line
                      ∙ ap₂ (λ (a b : List ℕ). a ++ take n b) w.line w.left
                      ∙ append_assoc (lists run_queue) _ _
                      ∙ ap (λ (l : List ℕ). lists run_queue ++ l) (take-more n (lists q));
                  left = w'.left ∙ ap (λ (l : List ℕ). drop n l) w.left ∙ drop-more n (lists q);
                  others = λ r other not_run. w'.others r other not_run ∙ w.others r other not_run;
                  rest = SameRest-trans w.rest w'.rest;
                }),
          )
    ]
