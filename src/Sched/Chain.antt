-- ===== src/Sched/Chain.antt =====
-- An intrusive queue, a head and a tail with links between threads, as a list of threads.
use can_boot.Common.{
  ℕ, ◌≡◌, refl, sym, ap, ◌∙◌, ◌≢◌, ◌⊎◌, inl, inr, true, false, Option, none, some, List, [], ◌∷◌,
  ◌++◌, arith, eq→==, ne→==, contains,
}
use mathlib.Core.Path.{subst}
use can_boot.Sched.{WaitQueue, set_at, links_after, queue_after, tail_after}

abbrev pub Segment : (ℕ → Option ℕ) → ℕ → List ℕ → Option ℕ → Type 0
Segment next x [] tail = (next x ≡ none) × (tail ≡ some x)
Segment next x (y ∷ ys) tail = (next x ≡ some y) × Segment next y ys tail

-- The queue holds these threads, in this order.
abbrev pub Links : (ℕ → Option ℕ) → WaitQueue → List ℕ → Type 0
Links next w [] = (w.head ≡ none) × (w.tail ≡ none)
Links next w (x ∷ xs) = (w.head ≡ some x) × Segment next x xs w.tail

-- Links of other threads do not matter.
Segment-frame :
    (next next' : ℕ → Option ℕ) (x : ℕ) (xs : List ℕ) (tail : Option ℕ)
    → ((k : ℕ) → contains k (x ∷ xs) ≡ true → next' k ≡ next k)
    → Segment next x xs tail
    → Segment next' x xs tail
Segment-frame next next' x [] tail same h = (same x (ground arith) ∙ h.0, h.1)
Segment-frame next next' x (y ∷ ys) tail same h = (
  same x (ground arith) ∙ h.0,
  Segment-frame next next' y ys tail (λ k inside. same k (ground arith)) h.1,
)

pub Links-frame :
    (next next' : ℕ → Option ℕ) (w : WaitQueue) (xs : List ℕ)
    → ((k : ℕ) → contains k xs ≡ true → next' k ≡ next k)
    → Links next w xs
    → Links next' w xs
Links-frame next next' w [] same h = h
Links-frame next next' w (x ∷ xs) same h = (h.0, Segment-frame next next' x xs w.tail same h.1)

-- The last thread of a segment is its tail.
Segment-tail :
    (next : ℕ → Option ℕ) (x : ℕ) (xs : List ℕ) (tail : Option ℕ)
    → Segment next x xs tail
    → (last : ℕ) × (tail ≡ some last) × (contains last (x ∷ xs) ≡ true) × (next last ≡ none)
Segment-tail next x [] tail h = (x, h.1, ground arith, h.0)
Segment-tail next x (y ∷ ys) tail h =
    let (last, at_end, inside, stops) = Segment-tail next y ys tail h.1 in
    (last, at_end, ground arith, stops)

pub set_at_self {ℓ} : {A : Type ℓ} (f : ℕ → A) (i : ℕ) (a : A) → set_at f i a i ≡ a
set_at_self f i a = rw (eq→== i i refl) refl

pub set_at_ne {ℓ} : {A : Type ℓ} (f : ℕ → A) (i : ℕ) (a : A) (k : ℕ) → k ≢ i → set_at f i a k ≡ f k
set_at_ne f i a k other = rw (ne→== k i other) refl

some_apart : {a : ℕ} → ◌≡◌ {A = Option ℕ} none (some a) → ⊥
some_apart h = cc

-- The segment after `t` was linked behind its last thread.
Segment-push :
    (next : ℕ → Option ℕ) (x : ℕ) (xs : List ℕ) (last t : ℕ)
    → Segment next x xs (some last)
    → contains t (x ∷ xs) ≡ false
    → Segment (set_at (set_at next t none) last (some t)) x (xs ++ t ∷ []) (some t)
Segment-push next x [] last t h new =
    let same : last ≡ x = cc in
    let apart : t ≢ last = λ e. ground arith in
    (
      rw same (set_at_self (set_at next t none) x (some t)),
      (set_at_ne (set_at next t none) last (some t) t apart ∙ set_at_self next t none, refl),
    )
Segment-push next x (y ∷ ys) last t h new =
    let (last', at_end, inside, stops) = Segment-tail next y ys (some last) h.1 in
    let other : x ≢ last =
      λ e. let found : last' ≡ x = cc in some_apart (sym stops ∙ ap next found ∙ h.0) in
    let not_new : x ≢ t = λ e. ground arith in
    (
      set_at_ne (set_at next t none) last (some t) x other ∙ set_at_ne next t none x not_new ∙ h.0,
      Segment-push next y ys last t h.1 (ground arith),
    )

-- `push` puts a new thread behind the others.
pub Links-push :
    (next : ℕ → Option ℕ) (w : WaitQueue) (xs : List ℕ) (t : ℕ)
    → Links next w xs
    → contains t xs ≡ false
    → Links (links_after w.tail t next) (queue_after w.tail t w) (xs ++ t ∷ [])
Links-push next w [] t h new = rw h.1 (refl, (set_at_self next t none, refl))
Links-push next w (x ∷ xs) t h new =
    let (last, at_end, inside, stops) = Segment-tail next x xs w.tail h.1 in
    rw at_end (
      h.0,
      Segment-push next x xs last t (subst (λ (o : Option ℕ). Segment next x xs o) at_end h.1) new,
    )

-- A queue that shares no thread with it is left as it was.
pub Links-push_ne :
    (next : ℕ → Option ℕ) (w w' : WaitQueue) (xs ys : List ℕ) (t : ℕ)
    → Links next w xs
    → Links next w' ys
    → contains t ys ≡ false
    → ((k : ℕ) → contains k xs ≡ true → contains k ys ≡ false)
    → Links (links_after w.tail t next) w' ys
Links-push_ne next w w' [] ys t h h' new apart = rw h.1 (
    Links-frame next (set_at next t none) w' ys
      (λ k inside. set_at_ne next t none k (λ e. ground arith)) h')
Links-push_ne next w w' (x ∷ xs) ys t h h' new apart =
    let (last, at_end, inside, stops) = Segment-tail next x xs w.tail h.1 in
    let out : contains last ys ≡ false = apart last inside in
    rw at_end (
      Links-frame next (set_at (set_at next t none) last (some t)) w' ys
        (λ k in_ys.
          set_at_ne (set_at next t none) last (some t) k (λ e. ground arith)
          ∙ set_at_ne next t none k (λ e. ground arith))
        h')

-- `pop` takes the first thread.
pub Links-pop :
    (next : ℕ → Option ℕ) (w : WaitQueue) (x : ℕ) (xs : List ℕ)
    → Links next w (x ∷ xs)
    → contains x xs ≡ false
    → Links (set_at next x none) (record { head = next x; tail = tail_after (next x) w.tail }) xs
Links-pop next w x [] h new = rw h.1.0 (refl, refl)
Links-pop next w x (y ∷ ys) h new = rw h.1.0 (
  refl,
  Segment-frame next (set_at next x none) y ys w.tail
      (λ k inside. set_at_ne next x none k (λ e. ground arith)) h.1.1,
)

pub Links-pop_ne :
    (next : ℕ → Option ℕ) (w : WaitQueue) (x : ℕ) (ys : List ℕ)
    → Links next w ys
    → contains x ys ≡ false
    → Links (set_at next x none) w ys
Links-pop_ne next w x ys h out =
    Links-frame next (set_at next x none) w ys
      (λ k inside. set_at_ne next x none k (λ e. ground arith)) h

-- The head tells whether there are threads.
pub Links-head :
    (next : ℕ → Option ℕ) (w : WaitQueue) (xs : List ℕ)
    → Links next w xs
    → ((w.head ≡ none) × (xs ≡ []))
      ⊎ ((x : ℕ) × (rest : List ℕ) × (w.head ≡ some x) × (xs ≡ x ∷ rest))
Links-head next w [] h = inl (h.0, refl)
Links-head next w (x ∷ xs) h = inr (x, xs, h.0, refl)
