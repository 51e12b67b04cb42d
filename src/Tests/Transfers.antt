-- ===== src/Tests/Transfers.antt =====
-- A file of three bytes comes in one block, and the theorem applied to the transfer.
use can_boot.Common.{ℕ, ◌≡◌, refl, some, List, [], ◌∷◌, arith}
use can_boot.Tftp.{Datagram, begin, receive, receive_all, transfer_loop, rrq, get}
use can_boot.Tftp.Stored.{IsOfFile, begun, data_comes, Stored}
use can_boot.Tftp.Receive.{Run-Stored}

abbrev small_file : List ℕ
small_file = 0x66 ∷ 0x6F ∷ 0x6F ∷ []

abbrev only_block : Datagram
only_block = record { port = 4000; payload = 0 ∷ 3 ∷ 0 ∷ 1 ∷ small_file }

only_block-IsOfFile : IsOfFile small_file only_block
only_block-IsOfFile = record { numbered = (omega arith, omega arith); same = refl }

Run-Stored_example : Stored small_file 4096 4000 (receive only_block (begin 4096))
Run-Stored_example =
    Run-Stored small_file 4096 4000 (omega arith) (omega arith)
      (data_comes only_block begun refl only_block-IsOfFile)

-- The whole call: the block comes in the first round.
get_file :
    get (0x69 ∷ []) 4096 1000 0 (
      record { at_head = 1; arrived = only_block ∷ []; checked = 2; restarted = 3 }
      ∷ record { at_head = 4; arrived = []; checked = 5; restarted = 6 }
      ∷ [])
    ≡ some small_file
unfolding get transfer_loop receive_all receive begin rrq
get_file = refl
