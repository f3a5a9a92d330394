-- ===== src/Fifo.antt =====
-- src/ivyfifo.c: the circular buffer that holds what a congested socket has not yet taken.
-- Pointers into the array are offsets from `f->buffer`, and `size` is `f->end - f->buffer`.
pub mod Contents
pub mod Loops
pub mod Growth
pub mod Refine
pub mod Draining
pub mod Tests
use libivy.Base.{
  ℕ, zero, suc, ◌+◌, ◌-◌, ◌*◌, ◌/◌, ◌%◌, ◌^◌, ◌≤◌, ◌<◌, min, ◌≡◌, Bool, true, false, List, [], ◌∷◌,
  ◌++◌, length, take, drop, ltb, leb, ◌==◌, if◌then◌else◌, Bytes, write_at, read_at,
}

-- `IvyFifoBuffer`
pub record Fifo : Type 0 where
  pub buffer : Bytes
  pub rptr : ℕ
  pub wptr : ℕ
  pub size : ℕ
  pub full : Bool

-- `IVY_FIFO_ALLOC_SIZE` and `IVY_FIFO_MAX_ALLOC_SIZE` of param.h, which may be lowered or raised,
-- and `malloc`: what fresh memory holds is not known.
pub record Memory : Type 0 where
  pub block : ℕ
  pub limit : ℕ
  pub alloc : ℕ → Bytes

-- The constants as param.h has them.
abbrev pub param : (ℕ → Bytes) → Memory
param alloc = record { block = 262144; limit = 32 * 1048576; alloc = alloc }

-- `unsigned int` arithmetic
abbrev pub wrap32 : ℕ → ℕ
wrap32 n = n % 2 ^ 32

unfoldable pub init : Memory → Fifo
init m = record { buffer = m.alloc m.block; rptr = 0; wptr = 0; size = m.block; full = false }

-- `IvyFifoLength`: the pointer difference, with the size added where it is negative
unfoldable pub fifo_length : Fifo → ℕ
fifo_length f = if leb f.rptr f.wptr then f.wptr - f.rptr else f.wptr + f.size - f.rptr

unfoldable pub avail : Fifo → ℕ
avail f = f.size - fifo_length f

unfoldable pub drain : Fifo → ℕ → Fifo
drain f n =
    let r = f.rptr + n in
    record f {
      rptr = if leb f.size r then r - f.size else r;
      full = if ltb 0 n then false else f.full;
    }

-- The `do … while (bytesToRead > 0)` of `IvyFifoGenericRead`, on fuel.
unfoldable pub read_loop {ℓ} : {D : Type ℓ} → (D → Bytes → D) → ℕ → Fifo → ℕ → D → D × Fifo
read_loop func zero f n dest = (dest, f)
read_loop func (suc fuel) f n dest =
    let len = min (f.size - f.rptr) n in
    let dest' = func dest (read_at f.buffer f.rptr len) in
    let rest = read_loop func fuel (drain f len) (n - len) dest' in
    if ltb 0 (n - len) then rest else (dest', drain f len)

-- `IvyFifoGenericRead`: the destination, the fifo and the count returned. Each round reads a byte
-- or more while bytes are left, so as many rounds as bytes and one are enough.
unfoldable pub generic_read {ℓ} : {D : Type ℓ} → (D → Bytes → D) → Fifo → ℕ → D → D × Fifo × ℕ
generic_read func f buf_size dest =
    let n = min buf_size (fifo_length f) in
    let (dest', f') = read_loop func (suc n) f n dest in (dest', f', n)

-- `IvyFifoRead`: with no `func` the bytes are copied behind one another.
unfoldable pub read : Fifo → ℕ → Bytes × Fifo × ℕ
read f buf_size = generic_read ◌++◌ f buf_size []

unfoldable pub aligned_size : Memory → ℕ → ℕ
aligned_size m new_size = wrap32 ((new_size / m.block + 1) * m.block)

-- the fifo with its bytes copied into an array of `aligned` bytes
unfoldable pub moved_to : Memory → Fifo → ℕ → Fifo
moved_to m f aligned =
    let len = fifo_length f in
    record {
      buffer = write_at (m.alloc aligned) 0 (read f len).0;
      rptr = 0;
      wptr = len;
      size = aligned;
      full = false;
    }

unfoldable pub realloc : Memory → Fifo → ℕ → Fifo
realloc m f new_size =
    let aligned = aligned_size m new_size in
    if ltb m.limit aligned
    then record f { full = true }
    else if ltb f.size aligned
    then moved_to m f aligned
    else f

-- one round of the `do … while (size > 0)` of `IvyFifoWrite`
unfoldable pub write_chunk : Fifo → Bytes → Fifo
write_chunk f chunk =
    let w = f.wptr + length chunk in
    record f { buffer = write_at f.buffer f.wptr chunk; wptr = if leb f.size w then 0 else w }

unfoldable pub write_loop : ℕ → Fifo → Bytes → Fifo
write_loop zero f buf = f
write_loop (suc fuel) f buf =
    let len = min (f.size - f.wptr) (length buf) in
    let f' = write_chunk f (take len buf) in
    let rest = write_loop fuel f' (drop len buf) in if ltb 0 (length buf - len) then rest else f'

-- the fifo after the test that makes room
unfoldable pub grown : Memory → Fifo → ℕ → Fifo
grown m f size = if leb (avail f) size then realloc m f (wrap32 (size + fifo_length f)) else f

unfoldable pub write : Memory → Fifo → Bytes → Fifo
write m f buf =
    let g = grown m f (length buf) in if g.full then g else write_loop (suc (length buf)) g buf

-- What `send` answers: a count, or -1 with EINTR, with EAGAIN or EWOULDBLOCK, or another error.
pub data SendResult : Type 0 where
  sent : ℕ → SendResult
  interrupted would_block failed : SendResult

-- The answer of the system to a request for a number of bytes.
abbrev pub Answer : Type 0
Answer = ℕ → SendResult

-- What `IvyFifoSendSocket` returns: the bytes that remain or IVY_FIFO_SEND_ERROR. `waiting` is
-- the call that has not returned: the system has given all its listed answers.
pub data Flush : Type 0 where
  remaining : ℕ → Flush
  send_error waiting : Flush

-- The bytes that the system took, the fifo behind the call, and what the call returns.
pub record Flushed : Type 0 where
  pub wire : Bytes
  pub fifo : Fifo
  pub result : Flush

pub max_len : Fifo → ℕ
max_len f = min (f.size - f.rptr) (fifo_length f)

abbrev stopped : Fifo → Flush → Flushed
stopped f r = record { wire = []; fifo = f; result = r }

-- One round of the loop, for an answer to a request of `max` bytes. `rest` is the loop from a
-- fifo on.
flush_round : (Fifo → Flushed) → Fifo → ℕ → SendResult → Flushed
flush_round rest f max interrupted = rest f
flush_round rest f max would_block = stopped f (remaining (fifo_length f))
flush_round rest f max failed = stopped f send_error
flush_round rest f max (sent n) =
    let wire = read_at f.buffer f.rptr n in
    let f' = drain f n in
    let later = rest f' in
    if n == 0
    then stopped f send_error
    else if ltb n max
    then record { wire = wire; fifo = f'; result = remaining (fifo_length f') }
    else record later { wire = wire ++ later.wire }

-- `IvyFifoSendSocket`: each call of `send` takes the next answer.
pub send_socket : List Answer → Fifo → Flushed
send_socket [] f = stopped f (if ltb 0 (fifo_length f) then waiting else remaining (fifo_length f))
send_socket (a ∷ answers) f =
    if ltb 0 (fifo_length f)
    then flush_round (send_socket answers) f (max_len f) (a (max_len f))
    else stopped f (remaining (fifo_length f))
