-- ===== src/Tftp.antt =====
-- The TFTP client of net/tftp.c. The network stack hands in datagrams and sends; what is sent is
-- recorded. Allocating a packet for an acknowledgement is taken to succeed.
pub mod Stored
pub mod Receive
use can_boot.Common.{
  ℕ, zero, suc, ◌+◌, ◌-◌, ◌*◌, ◌/◌, ◌%◌, ◌^◌, ◌≤◌, ◌<◌, min, ◌≡◌, refl, sym, ap, ap₂, ◌∙◌, fun_ext,
  ◌≢◌, ◌↔◌, ◌⊎◌, inl, inr, Bool, true, false, not, ◌&&◌, ◌||◌, Option, none, some, List, [], ◌∷◌,
  ◌++◌, map, append-nil, append_assoc, arith, dec_lt, dec_le, ℕ_discrete, ltb, leb, ◌==◌,
  if◌then◌else◌, ltb→lt, lt→ltb, le→ltb, ltb→le, ==→eq, ==→ne, eq→==, ne→==, Bool-cases, u8, u16,
  u32, u64, length, get_or, set, take, drop, replicate, All, length-append, length-set,
  get_or-set_self, get_or-set_ne, length-take, length-drop, length-replicate, take_all,
  take-append-drop, take-length-append, drop-length-append, All-append, same_bytes, same_bytes→eq,
  same_bytes_self, contains, get_or-take, get_or-drop, take-get_or-drop, take-take, All-of_index,
}
use can_boot.Common.Bytes.{byte_at}

-- TFTP_BLOCK
abbrev pub block_size : ℕ
block_size = 512

-- TFTP_OP_DATA and TFTP_OP_ERROR
abbrev pub op_data : ℕ
op_data = 3

abbrev pub op_error : ℕ
op_error = 5

-- A datagram from the server's address: the port it came from and its bytes.
pub record Datagram : Type 0 where
  pub port : ℕ
  pub payload : List ℕ

-- The first and the second 16-bit field, and the data behind them.
abbrev pub op_of : Datagram → ℕ
op_of p = byte_at p.payload 0 * 256 + byte_at p.payload 1

abbrev pub block_of : Datagram → ℕ
block_of p = byte_at p.payload 2 * 256 + byte_at p.payload 3

abbrev pub data_of : Datagram → List ℕ
data_of p = drop 4 p.payload

-- What the client sends: the request for the file, or the acknowledgement of a block to a port.
pub data Sent : Type 0 where
  request : List ℕ → Sent
  ack : ℕ → ℕ → Sent

-- `g_x`, with the bytes stored in the caller's buffer and what was sent.
pub record Transfer : Type 0 where
  pub out : List ℕ
  pub cap : ℕ
  pub len : ℕ
  pub block : ℕ
  pub srv_port : ℕ
  pub have_tid : Bool
  pub progress : Bool
  pub done : Bool
  pub error : Bool
  pub sent : List Sent

abbrev pub send : Sent → Transfer → Transfer
send p x = record x { sent = x.sent ++ p ∷ [] }

-- The port of the first data datagram is kept.
abbrev pub with_tid : ℕ → Transfer → Transfer
with_tid port x = if x.have_tid then x else record x { srv_port = port; have_tid = true }

-- Data that fits goes behind the bytes stored; more than fits is an error.
abbrev pub store : List ℕ → Transfer → Transfer
store bytes x =
    let space = x.cap - x.len in
    let n = if leb (length bytes) space then length bytes else u16 space in
    let overflow = ltb n (length bytes) in
    record x {
      out = x.out ++ take n bytes;
      len = u32 (x.len + n);
      error = x.error || overflow;
      done = x.done || overflow;
    }

abbrev pub expected : Transfer → ℕ
expected x = u16 (x.block + 1)

-- The block that was waited for.
abbrev pub accept : Datagram → Transfer → Transfer
accept p x =
    let stored = store (data_of p) x in
    let moved : Transfer = record stored { block = expected x; progress = true } in
    let acked = send (ack p.port (expected x)) moved in
    record acked { done = acked.done || (not acked.error && ltb (length (data_of p)) block_size) }

-- A data datagram from the port that was kept; another block has the last good one acknowledged
-- again.
abbrev pub take_data : Datagram → Transfer → Transfer
take_data p x = if block_of p == expected x then accept p x else send (ack p.port x.block) x

abbrev pub failed : Transfer → Transfer
failed x = record x { error = true; done = true }

-- `rx_cb`
unfoldable pub receive : Datagram → Transfer → Transfer
receive p x =
    if ltb (length p.payload) 4
    then x
    else if op_of p == op_error
    then failed x
    else if op_of p == op_data
    then (if x.have_tid && not (p.port == x.srv_port) then x else take_data p (with_tid p.port x))
    else x

-- "octet"
abbrev octet : List ℕ
octet = 0x6F ∷ 0x63 ∷ 0x74 ∷ 0x65 ∷ 0x74 ∷ []

-- `send_rrq`: at most 200 bytes of the name.
unfoldable pub rrq : List ℕ → List ℕ
rrq name = 0 ∷ 1 ∷ (take 200 name ++ 0 ∷ (octet ++ 0 ∷ []))

-- `memset` and the assignments before the request.
unfoldable pub begin : ℕ → Transfer
begin cap = record {
  out = [];
  cap = cap;
  len = 0;
  block = 0;
  srv_port = 0;
  have_tid = false;
  progress = false;
  done = false;
  error = false;
  sent = [];
}

unfoldable pub receive_all : List Datagram → Transfer → Transfer
receive_all [] x = x
receive_all (p ∷ ps) x = receive_all ps (receive p x)

-- What one round of the loop sees: the clock at its head, what the pump brings in, and the clock
-- after it, twice.
pub record Round : Type 0 where
  pub at_head : ℕ
  pub arrived : List Datagram
  pub checked : ℕ
  pub restarted : ℕ

-- A stalled transfer sends its request or its last acknowledgement again.
abbrev pub again : List ℕ → Transfer → Transfer
again name x = send (if x.block == 0 then request (rrq name) else ack x.srv_port x.block) x

-- The loop of `canboot_tftp_get`, over the rounds that the clock grants. `hz` is the clock's rate.
unfoldable pub transfer_loop : List ℕ → ℕ → ℕ → List Round → ℕ → ℕ → Transfer → Transfer
transfer_loop name hz deadline [] retx_at retries x = x
transfer_loop name hz deadline (r ∷ rs) retx_at retries x =
    let x' = receive_all r.arrived x in
    let next_retx = r.restarted + hz * 1000 / 1000 in
    let quiet = transfer_loop name hz deadline rs retx_at retries x' in
    let moving =
      transfer_loop name hz deadline rs next_retx retries (record x' { progress = false }) in
    let resent = transfer_loop name hz deadline rs next_retx (retries + 1) (again name x') in
    if x.done || leb deadline r.at_head
    then x
    else if ltb r.checked retx_at
    then quiet
    else if x'.progress
    then moving
    else (if ltb retries 5 then resent else x')

-- `canboot_tftp_get`: the bytes, or `none` for -1. `started` is the clock when the loop begins.
unfoldable pub get : List ℕ → ℕ → ℕ → ℕ → List Round → Option (List ℕ)
get name cap hz started rounds =
    let x =
      transfer_loop name hz (started + hz * 10000 / 1000) rounds (started + hz * 1000 / 1000) 0
        (send (request (rrq name)) (begin cap)) in
    if cap == 0 then none else (if x.done && not x.error then some x.out else none)
