-- ===== src/Input/Ring.antt =====
-- The ring is a queue of at most 255 events, read in the order in which they were pushed.
use can_boot.Common.{
  ℕ, ◌+◌, ◌-◌, ◌%◌, ◌<◌, ◌≡◌, refl, ap, ◌≢◌, ◌⊎◌, inl, inr, Option, none, some, arith, ◌==◌, ==→eq,
  ==→ne, eq→==, ne→==, Bool-cases, u32,
}
use can_boot.Input.{Event, Queue, push, pop}

-- The number of events in the ring.
abbrev pub count : Queue → ℕ
count q = (q.head + 256 - q.tail) % 256

-- Both positions lie in the array.
pub record InRing (q : Queue) : Type 0 where
  pub head_inside : q.head < 256
  pub tail_inside : q.tail < 256

-- Event number `i` of those that wait.
abbrev pub waiting : Queue → ℕ → Event
waiting q i = q.events ((q.tail + i) % 256)

-- What `push` makes of a queue.
pub record Pushed (ev : Event) (q q' : Queue) : Type 0 where
  pub in_ring : InRing q'
  pub longer : count q' ≡ count q + 1
  pub last : waiting q' (count q) ≡ ev
  pub before : (i : ℕ) → i < count q → waiting q' i ≡ waiting q i
  pub same_dropped : q'.dropped ≡ q.dropped

-- `push` puts an event behind the others where fewer than 255 wait. Where 255 wait, it changes
-- nothing but the number of dropped events.
pub push-Pushed :
    (ev : Event) (q : Queue)
    → InRing q
    → ((count q < 255) × Pushed ev q (push ev q))
      ⊎ ((count q ≡ 255) × (push ev q ≡ record q { dropped = u32 (q.dropped + 1) }))
unfolding push
push-Pushed ev q r = elim (Bool-cases ((q.head + 1) % 256 == q.tail)) [
  | inl full ↦
      let met : (q.head + 1) % 256 ≡ q.tail = ==→eq _ _ full in
      rw full (inr (omega (arith, met, r.head_inside, r.tail_inside), refl))
  | inr room ↦
      let apart : (q.head + 1) % 256 ≢ q.tail = ==→ne _ _ room in
      let at_head : (q.tail + count q) % 256 ≡ q.head =
        omega (arith, r.head_inside, r.tail_inside) in
      rw room (
        inl (
          omega (arith, apart, r.head_inside, r.tail_inside),
          record {
            in_ring = record { head_inside = omega arith; tail_inside = r.tail_inside };
            longer = omega (arith, apart, r.head_inside, r.tail_inside);
            last = rw (eq→== _ _ at_head) refl;
            before = λ i below.
                rw
                  (ne→== ((q.tail + i) % 256) q.head
                    (λ e. absurd (omega (arith, e, below, r.head_inside, r.tail_inside))))
                  refl;
            same_dropped = refl;
          },
        ))
]

-- What `pop` makes of a queue that is not empty.
pub record Popped (q : Queue) (r : Option Event × Queue) : Type 0 where
  pub in_ring : InRing r.1
  pub first : r.0 ≡ some (waiting q 0)
  pub shorter : count r.1 + 1 ≡ count q
  pub rest : (i : ℕ) → waiting r.1 i ≡ waiting q (i + 1)

-- `pop` takes the event that has waited longest, and the others move up; it reports that there is
-- none, and changes nothing, exactly where none waits.
pub pop-Popped :
    (q : Queue)
    → InRing q
    → ((0 < count q) × Popped q (pop q)) ⊎ ((count q ≡ 0) × (pop q ≡ (none, q)))
unfolding pop
pop-Popped q r = elim (Bool-cases (q.tail == q.head)) [
  | inl empty ↦ rw empty (inr (omega (arith, ==→eq q.tail q.head empty, r.tail_inside), refl))
  | inr some_wait ↦
      let apart : q.tail ≢ q.head = ==→ne q.tail q.head some_wait in
      rw some_wait (
        inl (
          omega (arith, apart, r.head_inside, r.tail_inside),
          record {
            in_ring = record { head_inside = r.head_inside; tail_inside = omega arith };
            first = ap (λ (k : ℕ). some (q.events k)) (omega (arith, r.tail_inside));
            shorter = omega (arith, apart, r.head_inside, r.tail_inside);
            rest = λ i. ap q.events (omega arith);
          },
        ))
]
