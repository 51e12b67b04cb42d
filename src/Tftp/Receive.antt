-- ===== src/Tftp/Receive.antt =====
-- Whatever the network loses, repeats or reorders, the bytes stored are the file's.
use can_boot.Common.{
  ℕ, zero, suc, ◌+◌, ◌-◌, ◌*◌, ◌/◌, ◌^◌, ◌≤◌, ◌<◌, min, ◌≡◌, refl, sym, ap, ap₂, ◌∙◌, ◌≢◌, inl, inr,
  Bool, true, false, not, ◌&&◌, ◌||◌, List, [], ◌∷◌, ◌++◌, arith, dec_le, ltb, ◌==◌, if◌then◌else◌,
  ltb→lt, lt→ltb, le→ltb, ltb→le, le→leb, lt→leb, ==→eq, ne→==, Bool-cases, All, u16, u32, length,
  take, drop, length-append, length-take, length-drop, take_all,
}
use mathlib.Core.Path.{subst}
use can_boot.Tftp.{
  block_size, op_data, op_error, Datagram, op_of, block_of, data_of, Sent, ack, Transfer, with_tid,
  expected, accept, take_data, failed, receive, begin, send, again,
}
use can_boot.Tftp.Stored.{
  IsOfFile, Run, begun, data_comes, stranger_sends, moves_on, times_out, IsAcked, All-IsAcked,
  IsAcked-too, Stored,
}

abbrev no_bytes : List ℕ
no_bytes = []

take_of_nil : (n : ℕ) → take n no_bytes ≡ no_bytes
take_of_nil zero = refl
take_of_nil (suc n) = refl

take-append-take : (m n : ℕ) (xs : List ℕ) → take m xs ++ take n (drop m xs) ≡ take (m + n) xs
take-append-take zero n xs = ap (λ (k : ℕ). take k xs) (omega arith)
take-append-take (suc m) n [] = rw (take_of_nil n) (sym (take_of_nil (suc m + n)))
take-append-take (suc m) n (x ∷ xs) =
    let one_up : suc m + n ≡ suc (m + n) = omega arith in
    rw one_up (ap (λ (l : List ℕ). x ∷ l) (take-append-take m n xs))

module _ (file : List ℕ) (cap port : ℕ) (small : length file / block_size + 2 < 2 ^ 16) where
  -- The next block of the file, behind the blocks before it.
  next_bytes :
      (x : Transfer) (p : Datagram)
      → IsOfFile file p
      → block_of p ≡ x.block + 1
      → data_of p ≡ take block_size (drop (block_size * x.block) file)
  next_bytes x p f at_next =
      f.same ∙ ap (λ (k : ℕ). take block_size (drop k file)) (omega (arith, at_next))

  length-next :
      (x : Transfer) (p : Datagram)
      → IsOfFile file p
      → block_of p ≡ x.block + 1
      → length (data_of p) ≡ min block_size (length file - block_size * x.block)
  length-next x p f at_next =
      ap length (next_bytes x p f at_next)
      ∙ length-take block_size (drop (block_size * x.block) file)
      ∙ ap (λ (k : ℕ). min block_size k) (length-drop (block_size * x.block) file)

  module _ (x : Transfer) (p : Datagram) (h : Stored file cap port x) (f : IsOfFile file p)
      (at_next : block_of p ≡ expected x) where
    plain : expected x ≡ x.block + 1
    plain = omega (arith, h.blocks, small)

    -- The transfer was not over: after the last block no datagram of the file is the next one.
    not_whole : x.done ≡ true → x.error ≡ true
    not_whole over = elim (Bool-cases x.error) [
      | inl bad ↦ bad
      | inr good ↦ absurd (omega (arith, (h.whole over good).1, f.numbered.1, at_next, plain))
    ]

    fits_out :
        (k : ℕ)
        → x.out ≡ take (block_size * x.block) file
        → x.out ++ data_of p ≡ take (block_size * (x.block + 1)) file
    fits_out k so_far =
        ap₂ (λ (a b : List ℕ). a ++ b) so_far (next_bytes x p f (at_next ∙ plain))
        ∙ take-append-take (block_size * x.block) block_size file
        ∙ ap (λ (j : ℕ). take j file) (omega arith)

    -- After the last block: it is shorter than the others.
    ends_short :
        x.out ≡ take (block_size * x.block) file
        → x.block ≤ length file / block_size
        → length (data_of p) < block_size
        → (x.out ++ data_of p ≡ file) × (expected x ≡ length file / block_size + 1)
    ends_short so_far before short =
        let len = length-next x p f (at_next ∙ plain) in
        (
          fits_out 0 so_far
              ∙ take_all (block_size * (x.block + 1)) file (omega (arith, len, short)),
          omega (arith, plain, len, short, before),
        )

    goes_on_long : block_size ≤ length (data_of p) → expected x ≤ length file / block_size
    goes_on_long long = omega (arith, plain, length-next x p f (at_next ∙ plain), long)

    new_blocks : expected x ≤ length file / block_size + 1
    new_blocks = omega (arith, f.numbered.1, at_next)

    new_count :
        length (data_of p) ≤ x.cap - x.len
        → cap < 2 ^ 32
        → (u32 (x.len + length (data_of p)) ≡ length (x.out ++ data_of p))
          × (u32 (x.len + length (data_of p)) ≤ cap)
    new_count room below = (
      omega (arith, h.count, length-append x.out (data_of p), h.room, h.same_cap, room, below),
      omega (arith, h.room, h.same_cap, room, below),
    )

    IsAcked-new : All (IsAcked (expected x)) (x.sent ++ ack p.port (expected x) ∷ [])
    IsAcked-new =
        IsAcked-too (expected x) x.sent (ack p.port (expected x))
          (All-IsAcked x.block (expected x) x.sent (omega (arith, plain)) h.acked) (omega arith)

    accept_fits :
        length (data_of p) ≤ x.cap - x.len → cap < 2 ^ 32 → Stored file cap port (accept p x)
    accept_fits room below =
        let taken : take (length (data_of p)) (data_of p) ≡ data_of p =
          take_all (length (data_of p)) (data_of p) (omega arith) in
        let all_fit = le→leb (length (data_of p)) (x.cap - x.len) room in
        let exact = le→ltb (length (data_of p)) (length (data_of p)) (omega arith) in
        let (count', room') = new_count room below in
        elim (Bool-cases x.done) [
          | inl over ↦
              let bad = not_whole over in
              rw (all_fit, taken)
                (rw (exact, over, bad)
                  (record {
                    same_cap = h.same_cap;
                    count = count';
                    room = room';
                    blocks = new_blocks;
                    tid = h.tid;
                    going = λ on. absurd (cc);
                    whole = λ done good. absurd (cc);
                    acked = IsAcked-new;
                  }))
          | inr on ↦
              let (good, so_far, before) = h.going on in
              elim (Bool-cases (ltb (length (data_of p)) block_size)) [
                | inl short ↦
                    let (all_there, last) =
                      ends_short so_far before (ltb→lt (length (data_of p)) block_size short) in
                    rw (all_fit, taken)
                      (rw (exact, on, good, short)
                        (record {
                          same_cap = h.same_cap;
                          count = count';
                          room = room';
                          blocks = new_blocks;
                          tid = h.tid;
                          going = λ still. absurd (cc);
                          whole = λ done no_error. (all_there, last);
                          acked = IsAcked-new;
                        }))
                | inr long ↦
                    rw (all_fit, taken)
                      (rw (exact, on, good, long)
                        (record {
                          same_cap = h.same_cap;
                          count = count';
                          room = room';
                          blocks = new_blocks;
                          tid = h.tid;
                          going = λ still. (
                            refl,
                            fits_out 0 so_far
                                ∙ ap (λ (b : ℕ). take (block_size * b) file) (sym plain),
                            goes_on_long (ltb→le (length (data_of p)) block_size long),
                          );
                          whole = λ done no_error. absurd (cc);
                          acked = IsAcked-new;
                        }))
              ]
        ]

    accept_overflow :
        x.cap - x.len < length (data_of p) → cap < 2 ^ 32 → Stored file cap port (accept p x)
    accept_overflow tight below =
        let space = x.cap - x.len in
        let not_all = lt→leb (length (data_of p)) space tight in
        let plain_space : u16 space ≡ space =
          omega (arith, tight, length-next x p f (at_next ∙ plain)) in
        let cut = lt→ltb space (length (data_of p)) tight in
        let len_cut : length (take space (data_of p)) ≡ space =
          omega (arith, length-take space (data_of p), tight) in
        let bad : (x.error || true) ≡ true = ground arith in
        let over : (x.done || true) ≡ true = ground arith in
        rw (not_all, plain_space)
          (rw (cut, bad, over)
            (record {
              same_cap = h.same_cap;
              count = omega (
                arith,
                len_cut,
                length-append x.out (take space (data_of p)),
                h.count,
                h.room,
                h.same_cap,
                below,
              );
              room = omega (arith, h.room, h.same_cap, below);
              blocks = new_blocks;
              tid = h.tid;
              going = λ on. absurd (cc);
              whole = λ done good. absurd (cc);
              acked = IsAcked-new;
            }))

  send-Stored :
      (x : Transfer) (q : Sent)
      → Stored file cap port x
      → IsAcked x.block q
      → Stored file cap port (send q x)
  send-Stored x q h known = record {
    acked = IsAcked-too x.block x.sent q h.acked known;
    same_cap = h.same_cap;
    count = h.count;
    room = h.room;
    blocks = h.blocks;
    tid = h.tid;
    going = h.going;
    whole = h.whole;
  }

  take_data-Stored :
      (x : Transfer) (p : Datagram)
      → cap < 2 ^ 32
      → Stored file cap port x
      → IsOfFile file p
      → Stored file cap port (take_data p x)
  take_data-Stored x p below h f = elim (Bool-cases (block_of p == expected x)) [
    | inl next ↦
        let at_next = ==→eq (block_of p) (expected x) next in
        rw next (elim (dec_le (length (data_of p)) (x.cap - x.len)) [
          | yes room ↦ accept_fits x p h f at_next room below
          | no tight ↦ accept_overflow x p h f at_next (omega arith) below
        ])
    | inr other ↦ rw other (send-Stored x (ack p.port x.block) h (omega arith))
  ]

  Stored-if :
      (b : Bool) (x y : Transfer)
      → Stored file cap port x
      → Stored file cap port y
      → Stored file cap port (if b then x else y)
  Stored-if true x y h h' = h
  Stored-if false x y h h' = h'

  with_tid-Stored : (x : Transfer) → Stored file cap port x → Stored file cap port (with_tid port x)
  with_tid-Stored x h = Stored-if x.have_tid x _ h (record {
    same_cap = h.same_cap;
    count = h.count;
    room = h.room;
    blocks = h.blocks;
    tid = λ known. refl;
    going = h.going;
    whole = h.whole;
    acked = h.acked;
  })

  failed-Stored : (x : Transfer) → Stored file cap port x → Stored file cap port (failed x)
  failed-Stored x h = record {
    same_cap = h.same_cap;
    count = h.count;
    room = h.room;
    blocks = h.blocks;
    tid = h.tid;
    going = λ on. absurd (cc);
    whole = λ over good. absurd (cc);
    acked = h.acked;
  }

  from_server :
      (x : Transfer) (p : Datagram)
      → cap < 2 ^ 32
      → Stored file cap port x
      → p.port ≡ port
      → IsOfFile file p
      → Stored file cap port (receive p x)
  unfolding receive
  from_server x p below h at_port f = Stored-if (ltb (length p.payload) 4) x _ h (
      Stored-if (op_of p == op_error) (failed x) _ (failed-Stored x h) (
        Stored-if (op_of p == op_data) _ x
          (Stored-if (x.have_tid && not (p.port == x.srv_port)) x _ h (
            subst (λ (q : ℕ). Stored file cap port (take_data p (with_tid q x))) (sym at_port)
              (take_data-Stored (with_tid port x) p below (with_tid-Stored x h) f)))
          h))

  from_stranger :
      (x : Transfer) (p : Datagram)
      → Stored file cap port x
      → x.have_tid ≡ true
      → p.port ≢ port
      → Stored file cap port (receive p x)
  unfolding receive
  from_stranger x p h known other =
      let stranger : (p.port == x.srv_port) ≡ false = ne→== _ _ (λ e. other (e ∙ h.tid known)) in
      let ignored : (x.have_tid && not (p.port == x.srv_port)) ≡ true = rw (known, stranger) refl in
      Stored-if (ltb (length p.payload) 4) x _ h (
        Stored-if (op_of p == op_error) (failed x) _ (failed-Stored x h) (
          Stored-if (op_of p == op_data) _ x
            (subst
              (λ (b : Bool).
                Stored file cap port (if b then x else take_data p (with_tid p.port x)))
              (sym ignored) h)
            h))

  begin-Stored : Stored file cap port (begin cap)
  unfolding begin
  begin-Stored = record {
    same_cap = refl;
    count = refl;
    room = omega arith;
    blocks = omega arith;
    tid = λ known. absurd (cc);
    going = λ on. (refl, refl, omega arith);
    whole = λ over good. absurd (cc);
    acked = tt;
  }

  again-Stored :
      (name : List ℕ) (x : Transfer) → Stored file cap port x → Stored file cap port (again name x)
  again-Stored name x h = send-Stored x _ h (elim (Bool-cases (x.block == 0)) [
    | inl first ↦ rw first tt
    | inr later ↦ rw later (omega arith)
  ])

  -- However the network loses, repeats and reorders the datagrams of a server at one port, whenever
  -- the client sends again, and whatever other ports send once the server's port is known: in a
  -- transfer of a file whose blocks can be numbered, into a buffer of less than 2 ^ 32 bytes, no
  -- more is stored than the buffer holds, and only blocks up to the last one taken are acknowledged;
  -- while the transfer goes on, exactly the blocks up to that one are stored; and where it has ended
  -- without an error, exactly the file is.
  pub Run-Stored : {x : Transfer} → cap < 2 ^ 32 → Run file cap port x → Stored file cap port x
  Run-Stored below begun = begin-Stored
  Run-Stored below (data_comes p r at_port f) = from_server _ p below (Run-Stored below r) at_port f
  Run-Stored below (stranger_sends p r known other) =
      from_stranger _ p (Run-Stored below r) known other
  Run-Stored below (times_out name r) = again-Stored name _ (Run-Stored below r)
  Run-Stored below (moves_on r) =
      let h = Run-Stored below r in
      record {
        same_cap = h.same_cap;
        count = h.count;
        room = h.room;
        blocks = h.blocks;
        tid = h.tid;
        going = h.going;
        whole = h.whole;
        acked = h.acked;
      }
