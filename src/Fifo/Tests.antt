-- ===== src/Fifo/Tests.antt =====
-- A fifo whose bytes run round the end of its array, with blocks of four bytes.
use libivy.Base.{◌≡◌, refl, false, true, List, [], ◌∷◌, arith, replicate, length-replicate, Bytes}
use libivy.Fifo.{
  Fifo, Memory, fifo_length, avail, drain, read_loop, generic_read, read, aligned_size, moved_to,
  realloc, grown, write, write_chunk, write_loop, sent, interrupted, would_block, Answer, remaining,
  max_len, flush_round, send_socket,
}
use libivy.Fifo.Contents.{contents}
use libivy.Fifo.Growth.{IsMemory, IsSound}
use libivy.Fifo.Refine.{write_lem}
use libivy.Fifo.Draining.{IsSend, Flushes, send_socket_lem}

abbrev pub small : Memory
small = record { block = 4; limit = 8; alloc = λ n. replicate n 0 }

pub small-IsMemory : IsMemory small
small-IsMemory = record {
  block_pos = omega arith;
  block_in = omega arith;
  block_small = omega arith;
  limit_small = omega arith;
  alloc_length = λ n. length-replicate n 0;
}

-- holds 1, 2 and 3
abbrev pub held : Fifo
held = record { buffer = 3 ∷ 0 ∷ 0 ∷ 1 ∷ 2 ∷ []; rptr = 3; wptr = 1; size = 5; full = false }

pub held-IsSound : IsSound small held
held-IsSound = record {
  valid = record { stored = refl; read_in = omega arith; write_in = omega arith };
  bounded = omega arith;
}

contents-held : contents held ≡ 1 ∷ 2 ∷ 3 ∷ []
unfolding contents
contents-held = refl

abbrev two : Bytes
two = 6 ∷ 7 ∷ []

-- the array grows to two blocks
write-held : contents (write small held two) ≡ 1 ∷ 2 ∷ 3 ∷ 6 ∷ 7 ∷ []
unfolding contents write write_loop write_chunk grown avail fifo_length realloc aligned_size
    moved_to read generic_read read_loop drain
write-held = refl

-- the bound is reached
write-held_full : (write small held (5 ∷ 6 ∷ 7 ∷ 8 ∷ 9 ∷ [])).full ≡ true
unfolding write write_loop write_chunk grown avail fifo_length realloc aligned_size moved_to read
    generic_read read_loop drain
write-held_full = refl

abbrev answers : List Answer
answers = (λ n. interrupted) ∷ (λ n. sent n) ∷ (λ n. would_block) ∷ []

answers-IsSend : IsSend answers
answers-IsSend = ((λ n. tt), ((λ n. omega arith), ((λ n. tt), tt)))

send_socket-held :
    ((send_socket answers held).wire ≡ 1 ∷ 2 ∷ [])
    × ((send_socket answers held).result ≡ remaining 1)
unfolding send_socket flush_round max_len fifo_length drain
send_socket-held = (refl, refl)

write_lem_example :
    (contents (write small held two) ≡ 1 ∷ 2 ∷ 3 ∷ 6 ∷ 7 ∷ [])
    × ((write small held two).full ≡ false)
    × IsSound small (write small held two)
unfolding contents
write_lem_example = write_lem small-IsMemory held-IsSound two (omega arith)

send_socket_lem_example : Flushes held (send_socket answers held)
send_socket_lem_example = send_socket_lem answers answers-IsSend held-IsSound.valid
