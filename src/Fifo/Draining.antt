-- ===== src/Fifo/Draining.antt =====
-- `IvyFifoSendSocket` against the queue of the bytes held.
use libivy.Base.{
  ℕ, ◌≤◌, ◌<◌, ◌≡◌, refl, sym, ap, ◌∙◌, ◌≢◌, List, [], ◌∷◌, ◌++◌, append-nil, append_assoc, arith,
  length, ltb, Bytes, read_at, Bool-cases, ltb→lt, length-eq-zero, ◌⊎◌, take-append-drop, inl, inr,
  ◌==◌,
}
use mathlib.Core.Path.{subst}
use libivy.Fifo.{
  Fifo, fifo_length, drain, max_len, SendResult, sent, interrupted, would_block, failed, Answer,
  Flush, remaining, send_error, waiting, Flushed, flush_round, send_socket,
}
use libivy.Fifo.Contents.{
  contents, IsValid, length-contents, drain-IsValid, read_at-contents, contents-drain,
}

-- `send` takes no more than it is offered.
abbrev Within : ℕ → SendResult → Type 0
Within n (sent k) = k ≤ n
Within n _ = Unit {0}

abbrev pub IsSend : List Answer → Type 0
IsSend [] = Unit
IsSend (a ∷ answers) = ((n : ℕ) → Within n (a n)) × IsSend answers

-- what the returned value says of the fifo that is left
abbrev pub Reports : Flush → Bytes → Type 0
Reports (remaining n) left = n ≡ length left
Reports send_error left = left ≢ []
Reports waiting left = left ≢ []

pub record Flushes (f : Fifo) (out : Flushed) : Type 0 where
  pub conserved : out.wire ++ contents out.fifo ≡ contents f
  pub valid : IsValid out.fifo
  pub sized : out.fifo.size ≡ f.size
  pub reports : Reports out.result (contents out.fifo)

module _ {f : Fifo} (v : IsValid f) where
  ne_nil : 0 < fifo_length f → contents f ≢ []
  ne_nil h e = omega (arith, length-contents v, ap length e)

  Flushes-stopped :
      (r : Flush) → Reports r (contents f) → Flushes f (record { wire = []; fifo = f; result = r })
  Flushes-stopped r h = record { conserved = refl; valid = v; sized = refl; reports = h }

  -- the bytes that one `send` took, with the fifo that it leaves
  module _ (n : ℕ) (h : n ≤ max_len f) where
    chunk-IsValid : IsValid (drain f n)
    unfolding max_len
    chunk-IsValid = drain-IsValid n v (omega arith)

    chunk_conserved : read_at f.buffer f.rptr n ++ contents (drain f n) ≡ contents f
    unfolding max_len
    chunk_conserved =
        rw
          (
            contents-drain n v (omega arith) (omega arith),
            read_at-contents n v (omega arith) (omega arith),
          )
          (take-append-drop n (contents f))

    chunk_sized : (drain f n).size ≡ f.size
    unfolding drain
    chunk_sized = refl

    Flushes-last : Flushes f (record {
      wire = read_at f.buffer f.rptr n;
      fifo = drain f n;
      result = remaining (fifo_length (drain f n));
    })
    Flushes-last = record {
      conserved = chunk_conserved;
      valid = chunk-IsValid;
      sized = chunk_sized;
      reports = sym (length-contents chunk-IsValid);
    }

    Flushes-more :
        {out : Flushed}
        → Flushes (drain f n) out
        → Flushes f (record out { wire = read_at f.buffer f.rptr n ++ out.wire })
    Flushes-more {out} r = record {
      conserved =
          append_assoc (read_at f.buffer f.rptr n) out.wire (contents out.fifo)
          ∙ ap (λ t. read_at f.buffer f.rptr n ++ t) r.conserved
          ∙ chunk_conserved;
      valid = r.valid;
      sized = r.sized ∙ chunk_sized;
      reports = r.reports;
    }

  flush_round-Flushes :
      (rest : Fifo → Flushed)
      → ((g : Fifo) → IsValid g → Flushes g (rest g))
      → 0 < fifo_length f
      → (r : SendResult) → Within (max_len f) r
      → Flushes f (flush_round rest f (max_len f) r)
  unfolding flush_round
  flush_round-Flushes rest h l interrupted w = h f v
  flush_round-Flushes rest h l would_block w = Flushes-stopped _ (sym (length-contents v))
  flush_round-Flushes rest h l failed w = Flushes-stopped _ (ne_nil l)
  flush_round-Flushes rest h l (sent n) w = elim (Bool-cases (n == 0)) [
    | inl e ↦ rw e (Flushes-stopped send_error (ne_nil l))
    | inr e ↦ rw e (elim (Bool-cases (ltb n (max_len f))) [
      | inl k ↦ rw k (Flushes-last n w)
      | inr k ↦ rw k (Flushes-more n w (h (drain f n) (chunk-IsValid n w)))
    ])
  ]

-- Whatever `send` answers, of no more than it is offered, on a valid fifo `IvyFifoSendSocket`
-- loses, repeats and reorders no byte: what went out and what is left make up what was queued. The
-- fifo stays valid and as large, a count returned is that of the bytes left, and an error is
-- returned only with bytes left.
pub send_socket_lem :
    (answers : List Answer) {f : Fifo}
    → IsSend answers
    → IsValid f
    → Flushes f (send_socket answers f)
unfolding send_socket
send_socket_lem [] {f} a v = elim (Bool-cases (ltb 0 (fifo_length f))) [
  | inl e ↦ rw e (Flushes-stopped v waiting (ne_nil v (ltb→lt 0 _ e)))
  | inr e ↦ rw e (Flushes-stopped v (remaining (fifo_length f)) (sym (length-contents v)))
]
send_socket_lem (x ∷ answers) {f} a v = elim (Bool-cases (ltb 0 (fifo_length f))) [
  | inl e ↦ rw e (
      flush_round-Flushes v (send_socket answers) (λ g w. send_socket_lem answers a.1 w)
        (ltb→lt 0 _ e) (x (max_len f)) (a.0 (max_len f)))
  | inr e ↦ rw e (Flushes-stopped v (remaining (fifo_length f)) (sym (length-contents v)))
]

-- Two rounds of all that can be sent in one piece leave nothing.
two_rounds :
    (f : Fifo)
    → IsValid f
    → let g = drain f (max_len f) in
      (fifo_length (drain g (max_len g)) ≡ 0) × (fifo_length g ≡ 0 ⊎ 0 < max_len g)
unfolding fifo_length drain max_len
two_rounds f v = ground arith

max_len_pos : (f : Fifo) → IsValid f → 0 < fifo_length f → 0 < max_len f
unfolding max_len
max_len_pos f v h = omega arith

two_sends : (f : Fifo) → IsValid f → (send_socket (sent ∷ sent ∷ []) f).result ≡ remaining 0
unfolding send_socket flush_round
two_sends f v = let t = two_rounds f v in ground (arith, t, max_len_pos f v)

-- A socket that takes all that it is offered is given every byte queued in a valid fifo in two
-- calls of `send` at most, one to the end of the array and one from its start, and nothing
-- remains.
send_socket_empties :
    (f : Fifo)
    → IsValid f
    → let out = send_socket (sent ∷ sent ∷ []) f in
      (out.wire ≡ contents f) × (out.result ≡ remaining 0)
send_socket_empties f v =
    let out = send_socket (sent ∷ sent ∷ []) f in
    let r = send_socket_lem (sent ∷ sent ∷ []) ((λ n. omega arith), ((λ n. omega arith), tt)) v in
    let z : length (contents out.fifo) ≡ 0 =
      sym (subst (λ t. Reports t (contents out.fifo)) (two_sends f v) r.reports) in
    (
      sym (append-nil out.wire)
          ∙ ap (λ t. out.wire ++ t) (sym (length-eq-zero (contents out.fifo) z))
          ∙ r.conserved,
      two_sends f v,
    )
