-- ===== src/Tftp/Stored.antt =====
-- The runs of a transfer of net/tftp.c, and what is to hold of the bytes that it has stored.
use can_boot.Common.{
  ℕ, ◌+◌, ◌-◌, ◌*◌, ◌/◌, ◌≤◌, ◌≡◌, ◌≢◌, true, false, List, [], ◌∷◌, ◌++◌, arith, All, All-append,
  length, take, drop,
}
use can_boot.Tftp.{
  block_size, Datagram, block_of, data_of, Sent, ack, Transfer, receive, begin, again, request,
}

-- Block `b` of a file, from 1 on.
abbrev pub file_block : List ℕ → ℕ → List ℕ
file_block file b = take block_size (drop (block_size * (b - 1)) file)

-- A datagram of the server: its data are those of the block that it names.
pub record IsOfFile (file : List ℕ) (p : Datagram) : Type 0 where
  pub numbered : (1 ≤ block_of p) × (block_of p ≤ length file / block_size + 1)
  pub same : data_of p ≡ file_block file (block_of p)

-- The states of a transfer from port `port`, between datagrams and the client's sending again.
-- Another port may send anything once the server's port is known; before that, the client would take
-- it for the server.
pub data Run (file : List ℕ) (cap port : ℕ) : Transfer → Type 0 where
  begun : Run file cap port (begin cap)
  data_comes :
      {x : Transfer} (p : Datagram)
      → Run file cap port x
      → p.port ≡ port
      → IsOfFile file p
      → Run file cap port (receive p x)
  stranger_sends :
      {x : Transfer} (p : Datagram)
      → Run file cap port x
      → x.have_tid ≡ true
      → p.port ≢ port
      → Run file cap port (receive p x)
  moves_on :
      {x : Transfer} → Run file cap port x → Run file cap port (record x { progress = false })
  times_out :
      {x : Transfer} (name : List ℕ) → Run file cap port x → Run file cap port (again name x)

-- An acknowledgement names a block up to that one.
abbrev pub IsAcked : ℕ → Sent → Type 0
IsAcked block (request bytes) = Unit {0}
IsAcked block (ack port b) = b ≤ block

pub IsAcked-later : (b b' : ℕ) → b ≤ b' → (q : Sent) → IsAcked b q → IsAcked b' q
IsAcked-later b b' le (request bytes) h = tt
IsAcked-later b b' le (ack port c) h = omega (arith, h)

pub All-IsAcked : (b b' : ℕ) (qs : List Sent) → b ≤ b' → All (IsAcked b) qs → All (IsAcked b') qs
All-IsAcked b b' [] le h = tt
All-IsAcked b b' (q ∷ qs) le h = (IsAcked-later b b' le q h.0, All-IsAcked b b' qs le h.1)

-- One more is sent.
pub IsAcked-too :
    (b : ℕ) (qs : List Sent) (q : Sent)
    → All (IsAcked b) qs
    → IsAcked b q
    → All (IsAcked b) (qs ++ q ∷ [])
IsAcked-too b qs q h new = All-append (IsAcked b) qs (q ∷ []) h (new, tt)

-- A state of a transfer: what is stored is the blocks of the file up to the last one acknowledged;
-- a transfer that is done without an error has the whole file.
pub record Stored (file : List ℕ) (cap port : ℕ) (x : Transfer) : Type 0 where
  pub same_cap : x.cap ≡ cap
  pub count : x.len ≡ length x.out
  pub room : x.len ≤ cap
  pub blocks : x.block ≤ length file / block_size + 1
  pub tid : x.have_tid ≡ true → x.srv_port ≡ port
  pub going :
      x.done ≡ false
      → (x.error ≡ false)
        × (x.out ≡ take (block_size * x.block) file)
        × (x.block ≤ length file / block_size)
  pub whole :
      x.done ≡ true → x.error ≡ false → (x.out ≡ file) × (x.block ≡ length file / block_size + 1)
  pub acked : All (IsAcked x.block) x.sent
