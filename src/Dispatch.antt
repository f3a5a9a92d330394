-- ===== src/Dispatch.antt =====
-- src/ivy.c: `IvySendMsg`, a message sent to the clients whose regexps match it.
pub mod Delivery
pub mod Tests
use libivy.Base.{
  ℕ, zero, suc, ◌+◌, ◌==◌, Bool, true, false, ◌&&◌, ◌||◌, Option, none, some, ◌>>=◌, List, [], ◌∷◌,
  ◌++◌, if◌then◌else◌, Bytes, ltb, leb,
}
use libivy.Registry.{Subscriber, Entry}
use libivy.Message.{encode_args}
use libivy.Filter.{Filter, filter_check}

-- What `SocketSendRawWithId` is given: the socket, the id behind the kind `Msg`, and the buffer of
-- the arguments.
pub record Frame : Type 0 where
  pub client : ℕ
  pub id : ℕ
  pub body : Bytes

-- What `IvySendMsg` does: the frames, `match_count`, and whether `IvyBindindFilterCheck` warns.
pub record Dispatched : Type 0 where
  pub frames : List Frame
  pub match_count : ℕ
  pub warned : Bool

-- `IvyCheckBuffer`, with `char` signed
unfoldable pub check_buffer : Bytes → Bool
check_buffer [] = false
check_buffer (c ∷ s) = ltb c b' ' || leb 128 c || check_buffer s

-- `bufferArg`
unfoldable pub body_of : List Bytes → Bytes
body_of groups = encode_args groups ++ (b'\n' ∷ [])

-- the loop of `RegexpCall` over the clients
unfoldable pub call_clients : Bytes → List Subscriber → List Frame × ℕ
call_clients body [] = ([], 0)
call_clients body (s ∷ clients) =
    let later = call_clients body clients in
    (record { client = s.client; id = s.id; body = body } ∷ later.0, later.1 + 1)

-- `exec` is `IvyBindingExec` with the calls of `IvyBindingMatch`: the texts of the groups, or none
-- where the message does not match.
module _ {B : Type 0} (exec : B → Bytes → Option (List Bytes)) where
  -- a binding that is NULL matches nothing
  unfoldable pub exec_binding : Option B → Bytes → Option (List Bytes)
  exec_binding none message = none
  exec_binding (some b) message = exec b message

  -- `RegexpCall`: its frames, and `match_count`; `frames_of_call` of the bus has what sending them
  -- makes it call.
  unfoldable pub regexp_call : Entry B → Bytes → List Frame × ℕ
  regexp_call e message = elim (exec_binding e.binding message) [
    | none ↦ ([], 0)
    | some groups ↦ call_clients (body_of groups) e.client_list
  ]

  -- the loop of `IvySendMsg`
  unfoldable pub call_all : Bytes → List (Entry B) → List Frame × ℕ
  call_all message [] = ([], 0)
  call_all message (e ∷ dict) =
      let first = regexp_call e message in
      let later = call_all message dict in (first.0 ++ later.0, first.1 + later.1)

  -- `IvySendMsg`, from the message that is made of the format, with `debug_binary_msg` and
  -- `debug_filter`
  unfoldable pub send_msg : Bool → Bool → Filter → Bytes → List (Entry B) → Dispatched
  send_msg debug_binary_msg debug_filter f message dict =
      if debug_binary_msg && check_buffer message
      then record { frames = []; match_count = 0; warned = false }
      else (let out = call_all message dict in
          record {
            frames = out.0;
            match_count = out.1;
            warned = (out.1 == 0) && debug_filter && filter_check message f;
          })
