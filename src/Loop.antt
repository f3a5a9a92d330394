-- ===== src/Loop.antt =====
-- src/ivyloop.c: the channels of the select loop, which are deleted at the start of its next round.
pub mod Deletion
pub mod Exceptions
pub mod Requests
pub mod Main
pub mod Rounds
pub mod Tests
use libivy.Base.{
  ℕ, suc, ◌+◌, Bool, true, false, not, ◌&&◌, ◌||◌, Option, none, some, ◌>>=◌, List, [], ◌∷◌, ◌==◌,
  leb, if◌then◌else◌, remove_first, update_first,
}

-- `struct _channel`. Its data is a number, which no two channels share, so that it names the
-- channel too. The data of a channel is freed by its `handle_delete`.
pub record Channel : Type 0 where
  pub fd : ℕ
  pub user : ℕ
  pub tobedeleted : Bool

-- `fd_set`, with FD_SET and FD_CLR
abbrev pub FdSet : Type 0
FdSet = ℕ → Bool

abbrev pub fd_add : ℕ → FdSet → FdSet
fd_add fd s = λ x. x == fd || s x

abbrev pub fd_clear : ℕ → FdSet → FdSet
fd_clear fd s = λ x. not (x == fd) && s x

-- the static variables, and the data that has been freed
pub record Loop : Type 0 where
  pub channels_list : List Channel
  pub open_fds : FdSet
  pub wrdy_fds : FdSet
  pub highest_fd : ℕ
  pub freed : List ℕ
  pub main_loop : Bool
  pub channel_initialized : Bool

abbrev pub is_user : ℕ → Channel → Bool
is_user u c = c.user == u

abbrev pub has_number : ℕ → List ℕ → Bool
has_number u [] = false
has_number u (x ∷ l) = x == u || has_number u l

-- `IvyChannelAdd`
unfoldable pub channel_add : ℕ → ℕ → Loop → Loop
channel_add fd user l = record l {
  channels_list = record { fd = fd; user = user; tobedeleted = false } ∷ l.channels_list;
  open_fds = fd_add fd l.open_fds;
  highest_fd = if leb l.highest_fd fd then fd + 1 else l.highest_fd;
}

-- `IvyChannelRemove`
unfoldable pub channel_remove : ℕ → Loop → Loop
channel_remove user l = record l {
  channels_list =
      update_first (is_user user) (λ c. record c { tobedeleted = true }) l.channels_list;
}

-- `IvyChannelAddWritableEvent` and `IvyChannelClearWritableEvent`
unfoldable pub add_writable_event : ℕ → Loop → Loop
add_writable_event fd l = record l {
  wrdy_fds = fd_add fd l.wrdy_fds;
  highest_fd = if leb l.highest_fd fd then fd + 1 else l.highest_fd;
}

unfoldable pub clear_writable_event : ℕ → Loop → Loop
clear_writable_event fd l = record l { wrdy_fds = fd_clear fd l.wrdy_fds }

-- a call of `handle_delete`, none where the data is freed already
unfoldable pub handle_delete : ℕ → Loop → Option Loop
handle_delete user l =
    if has_number user l.freed then none else some (record l { freed = user ∷ l.freed })

-- `IvyChannelDelete`
unfoldable pub channel_delete : Channel → Loop → Option Loop
channel_delete c l = do
  l' ← handle_delete c.user l
  some (record l' {
    channels_list = remove_first (is_user c.user) l'.channels_list;
    open_fds = fd_clear c.fd l'.open_fds;
    wrdy_fds = fd_clear c.fd l'.wrdy_fds;
  })

-- `ChannelDefferedDelete`, over the channels that are there at its start
unfoldable pub delete_marked : List Channel → Loop → Option Loop
delete_marked [] l = some l
delete_marked (c ∷ channels) l = elim c.tobedeleted [
  | true ↦ channel_delete c l >>= λ l'. delete_marked channels l'
  | false ↦ delete_marked channels l
]

unfoldable pub deferred_delete : Loop → Option Loop
deferred_delete l = delete_marked l.channels_list l

-- `IvyChannelInit`
unfoldable pub channel_init : Loop → Loop
channel_init l = if l.channel_initialized then record l { main_loop = true } else record l {
  main_loop = true;
  open_fds = λ x. false;
  wrdy_fds = λ x. false;
  channel_initialized = true;
}

-- `IvyChannelStop`
unfoldable pub channel_stop : Loop → Loop
channel_stop l = record l { main_loop = false }

-- What a handler asks of the loop, which depends on where the loop stands.
pub data Request : Type 0 where
  to_remove : ℕ → Request
  to_add : ℕ → ℕ → Request
  to_write : ℕ → Request
  not_to_write : ℕ → Request
  to_stop : Request

unfoldable pub apply : Request → Loop → Loop
apply (to_remove user) l = channel_remove user l
apply (to_add fd user) l = channel_add fd user l
apply (to_write fd) l = add_writable_event fd l
apply (not_to_write fd) l = clear_writable_event fd l
apply to_stop l = channel_stop l

unfoldable pub apply_all : List Request → Loop → Loop
apply_all [] l = l
apply_all (r ∷ requests) l = apply_all requests (apply r l)

-- `IvyChannelHandleRead` and `IvyChannelHandleWrite`, for the channels at the start: a handler
-- reads its data, none where that is freed.
unfoldable pub handle_ready : (ℕ → Loop → List Request) → FdSet → List Channel → Loop → Option Loop
handle_ready handler current [] l = some l
handle_ready handler current (c ∷ channels) l = elim (current c.fd) [
  | true ↦
      if has_number c.user l.freed
      then none
      else handle_ready handler current channels (apply_all (handler c.user l) l)
  | false ↦ handle_ready handler current channels l
]

-- `IvyChannelHandleExcpt`
unfoldable pub handle_excpt : FdSet → List Channel → Loop → Option Loop
handle_excpt current [] l = some l
handle_excpt current (c ∷ channels) l = elim (current c.fd) [
  | true ↦ handle_delete c.user l >>= λ l'. handle_excpt current channels l'
  | false ↦ handle_excpt current channels l
]

-- what `select` answers
pub record Ready : Type 0 where
  pub rdset : FdSet
  pub wrset : FdSet
  pub exset : FdSet

-- the end of a round of `IvyMainLoop`, and `IvyIdle` with its start
unfoldable pub handle_all :
    (ℕ → Loop → List Request) → (ℕ → Loop → List Request) → Ready → Loop → Option Loop
handle_all on_read on_write r l = do
  l1 ← handle_excpt r.exset l.channels_list l
  l2 ← handle_ready on_read r.rdset l1.channels_list l1
  handle_ready on_write r.wrset l2.channels_list l2

unfoldable pub ivy_idle :
    (ℕ → Loop → List Request) → (ℕ → Loop → List Request) → (Loop → Ready) → Loop → Option Loop
ivy_idle on_read on_write select l = do
  l' ← deferred_delete l
  handle_all on_read on_write (select l') l'
