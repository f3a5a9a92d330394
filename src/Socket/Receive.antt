-- ===== src/Socket/Receive.antt =====
-- src/ivysocket.c, `HandleSocket`: the bytes of a stream, cut into the messages of its terminator.
use libivy.Base.{
  ℕ, zero, suc, ◌-◌, ◌*◌, ◌==◌, Bool, true, false, Option, none, some, List, [], ◌∷◌, ◌++◌,
  if◌then◌else◌, Bytes, length,
}

-- The part of `struct _client` that receiving uses: `held` are the bytes from `buffer` to `ptr`.
pub record Receiver : Type 0 where
  pub terminator : ℕ
  pub buffer_size : ℕ
  pub held : Bytes

-- What `recvfrom` answers: the bytes, none at the end of the stream, or an error.
pub data Received : Type 0 where
  got : Bytes → Received
  recv_failed : Received

-- the buffer with room for a byte at least
unfoldable pub with_room : Receiver → Receiver
with_room c =
    if c.buffer_size - length c.held == 0 then record c { buffer_size = c.buffer_size * 2 } else c

-- `nb_to_read`
unfoldable pub room : Receiver → ℕ
room c = let c' = with_room c in c'.buffer_size - length c'.held

-- `memchr`, with the bytes before the one found and those behind it
unfoldable pub memchr : ℕ → Bytes → Option (Bytes × Bytes)
memchr t [] = none
memchr t (c ∷ s) =
    let rest = memchr t s in
    if c == t
    then some ([], s)
    else elim rest [ none ↦ none | some (line, behind) ↦ some (c ∷ line, behind) ]

-- The `while` over the messages in the buffer: those that `interpretation` is called with, and the
-- bytes from `ptr` on. Each round takes a byte or more.
unfoldable pub cut_lines : ℕ → ℕ → Bytes → List Bytes × Bytes
cut_lines zero t s = ([], s)
cut_lines (suc fuel) t s = elim (memchr t s) [
  | none ↦ ([], s)
  | some (line, behind) ↦ let later = cut_lines fuel t behind in (line ∷ later.0, later.1)
]

-- the messages delivered, and whether the channel is removed
pub record Handled : Type 0 where
  pub client : Receiver
  pub messages : List Bytes
  pub removed : Bool

unfoldable pub after_recv : Receiver → Received → Handled
after_recv c recv_failed = record { client = c; messages = []; removed = true }
after_recv c (got []) = record { client = c; messages = []; removed = true }
after_recv c (got (b ∷ bytes)) =
    let all = c.held ++ (b ∷ bytes) in
    let cut = cut_lines (suc (length all)) c.terminator all in
    record { client = record c { held = cut.1 }; messages = cut.0; removed = false }

-- `HandleSocket`, for the answer of `recvfrom` to a request of a number of bytes
unfoldable pub handle_socket : (ℕ → Received) → Receiver → Handled
handle_socket answer c = after_recv (with_room c) (answer (room c))
