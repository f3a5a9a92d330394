-- ===== src/Buffer.antt =====
-- src/ivybuffer.c: a text that is formatted into a buffer which grows.
pub mod Growth
pub mod Tests
use libivy.Base.{
  ℕ, zero, suc, ◌+◌, ◌-◌, ◌*◌, ◌^◌, Option, none, some, ◌>>=◌, take, List, [], ◌++◌, ◌==◌, ltb,
  if◌then◌else◌, Bytes,
}

-- `IVY_BUFFER_SIZE`
abbrev pub ivy_buffer_size : ℕ
ivy_buffer_size = 4096

-- `IvyBuffer`: `bytes` are those before `offset`; with a size of 0 there are none.
pub record IvyBuffer : Type 0 where
  pub bytes : Bytes
  pub size : ℕ
  pub offset : ℕ

-- the buffer that `malloc` makes where there is none
unfoldable pub with_data : IvyBuffer → IvyBuffer
with_data b = if b.size == 0 then record { bytes = []; size = ivy_buffer_size; offset = 0 } else b

-- What is formatted, and what `vsnprintf` answers for a room: a count, or none for a negative one.
module _ (text : Bytes) (vsnprintf : ℕ → Option ℕ) where
  -- The loop of `make_message`: the buffer and the count; none where the fuel runs out, or where a
  -- size is no `int`: it is negative then, `realloc` fails and the function returns -1. A count of
  -- less than the room is that of the text.
  unfoldable pub print_loop : ℕ → IvyBuffer → Option (IvyBuffer × ℕ)
  print_loop zero b = none
  print_loop (suc fuel) b =
      let again = λ (size : ℕ).
        let later = print_loop fuel (record b { size = size }) in
        if ltb size (2 ^ 31) then later else none in
      elim (vsnprintf (b.size - b.offset)) [
        | none ↦ again (b.size * 2)
        | some n ↦
            if ltb n (b.size - b.offset)
            then some (record b { bytes = b.bytes ++ text; offset = b.offset + n }, n)
            else again (b.offset + n + 1)
      ]

  -- `make_message`
  unfoldable pub make_message : ℕ → IvyBuffer → Option (IvyBuffer × ℕ)
  make_message fuel b = print_loop fuel (with_data b)

-- `SocketBroadcast` of src/ivysocket.c, whose static buffer is not reset: the buffer behind it, and
-- what each client is sent, the first bytes of the buffer
unfoldable pub socket_broadcast :
    Bytes → (ℕ → Option ℕ) → ℕ → IvyBuffer → Option (IvyBuffer × Bytes)
socket_broadcast text vsnprintf fuel b = do
  (b', len) ← make_message text vsnprintf fuel b
  some (b', take len b'.bytes)

-- `SocketSend`, which resets the offset: the buffer behind it, and what is sent
unfoldable pub socket_send : Bytes → (ℕ → Option ℕ) → ℕ → IvyBuffer → Option (IvyBuffer × Bytes)
socket_send text vsnprintf fuel b = do
  (b', len) ← make_message text vsnprintf fuel (record b { bytes = []; offset = 0 })
  some (b', take len b'.bytes)
