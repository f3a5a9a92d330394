-- ===== src/Socket/Reply.antt =====
-- src/ivysocket.c, `SocketWaitForReply`: a line that is waited for on a socket.
use libivy.Base.{
  ℕ, ◌+◌, ◌≤◌, ◌<◌, ◌≡◌, refl, ap, ◌∙◌, ◌⊎◌, inl, inr, Bool, true, false, ◌||◌, Option, none, some,
  List, [], ◌∷◌, ◌++◌, append_assoc, ◌==◌, ltb, if◌then◌else◌, Bytes, length, length-append, arith,
}
use libivy.Discovery.Fields.{IsFree}
use libivy.Socket.Lines.{join}

-- what `select` and `recv` answer in one round
pub data Answer : Type 0 where
  select_failed timed_out recv_failed closed : Answer
  bytes : Bytes → Answer

-- The line, -1, -2 and 0; a write past the end of the buffer; and answers that are over.
pub data Reply : Type 0 where
  line : Bytes → Reply
  error no_answer end faults unfinished : Reply

-- `strchr`, with the bytes before the one found
unfoldable pub strchr : ℕ → Bytes → Option Bytes
strchr t [] = none
strchr t (c ∷ s) =
    let rest = strchr t s in
    if c == t
    then some []
    else if c == 0
    then none
    else elim rest [ none ↦ none | some found ↦ some (c ∷ found) ]

-- The loop, with `got` from the start of a buffer of `size` bytes up to `ptr`. A `recv` gives as
-- many bytes as there is room for at most.
unfoldable pub wait_for_reply : ℕ → ℕ → Bytes → List Answer → Reply
wait_for_reply t size got [] = if length got == size then error else unfinished
wait_for_reply t size got (select_failed ∷ answers) = error
wait_for_reply t size got (timed_out ∷ answers) = if length got == size then error else no_answer
wait_for_reply t size got (recv_failed ∷ answers) = error
wait_for_reply t size got (closed ∷ answers) = if length got == size then error else end
wait_for_reply t size got (bytes p ∷ answers) =
    let now = got ++ p in
    let rest = wait_for_reply t size now answers in
    if length got == size
    then error
    else if ltb (length now) size
    then (elim (strchr t now) [ none ↦ rest | some found ↦ line found ])
    else faults

abbrev pub is_end : ℕ → ℕ → Bool
is_end t c = c == t || c == 0

abbrev pub answered : List Bytes → List Answer
answered [] = []
answered (p ∷ ps) = bytes p ∷ answered ps

-- what a part of the bytes says of the line
strchr-part :
    (t : ℕ) (found xs ys rest : Bytes)
    → IsFree (is_end t) found
    → xs ++ ys ≡ found ++ (t ∷ rest)
    → (strchr t xs ≡ some found) ⊎ ((strchr t xs ≡ none) × (length xs ≤ length found))
unfolding strchr
strchr-part t found [] ys rest f e = inr (refl, omega arith)
strchr-part t [] (x ∷ xs) ys rest f e = let k : x ≡ t = cc in inl (ground arith)
strchr-part t (c ∷ found) (x ∷ xs) ys rest f e =
    let k : x ≡ c = cc in
    let a : (x == t) ≡ false = ground (arith, f.0) in
    let b : (x == 0) ≡ false = ground (arith, f.0) in
    elim (strchr-part t found xs ys rest f.1 (cc)) [
      | inl q ↦ inl (rw a (rw b (rw q (ap (λ y. some (y ∷ found)) k))))
      | inr q ↦ inr (rw a (rw b (rw q.0 refl)), omega (arith, q.1))
    ]

-- However a line with its terminator is cut into pieces, with whatever comes behind it, if all of
-- it is shorter than the buffer: `SocketWaitForReply` returns the line. It has no NUL in it.
wait_for_reply-line :
    (t size : ℕ) (found rest got : Bytes) (ps : List Bytes)
    → IsFree (is_end t) found
    → got ++ join ps ≡ found ++ (t ∷ rest)
    → length got ≤ length found
    → length (found ++ (t ∷ rest)) < size
    → wait_for_reply t size got (answered ps) ≡ line found
unfolding wait_for_reply
wait_for_reply-line t size found rest got [] f e l h =
    absurd (omega (arith, ap length e, length-append got (join []), length-append found (t ∷ rest)))
wait_for_reply-line t size found rest got (p ∷ ps) f e l h =
    let now = got ++ p in
    let e' : now ++ join ps ≡ found ++ (t ∷ rest) = append_assoc got p (join ps) ∙ e in
    let k = length-append now (join ps) in
    let n = length-append found (t ∷ rest) in
    let a : (length got == size) ≡ false = ground (arith, n) in
    let b : ltb (length now) size ≡ true = ground (arith, ap length e', k) in
    rw a (
      rw b (elim (strchr-part t found now (join ps) rest f e') [
        | inl q ↦ rw q refl
        | inr q ↦ rw q.0 (wait_for_reply-line t size found rest now ps f e' q.1 h)
      ]))

free_none : (t : ℕ) (s : Bytes) → IsFree (is_end t) s → strchr t s ≡ none
unfolding strchr
free_none t [] h = refl
free_none t (c ∷ s) h =
    let a : (c == t) ≡ false = ground (arith, h.0) in
    let b : (c == 0) ≡ false = ground (arith, h.0) in rw a (rw b (rw (free_none t s h.1) refl))

IsFree-front : (stop : ℕ → Bool) (xs ys : Bytes) → IsFree stop (xs ++ ys) → IsFree stop xs
IsFree-front stop [] ys h = tt
IsFree-front stop (x ∷ xs) ys h = (h.0, IsFree-front stop xs ys h.1)

-- A peer that fills the buffer to its last byte, with no terminator or NUL in the pieces before the
-- last one, however these are cut: `SocketWaitForReply` writes a byte past the end of the buffer.
pub wait_for_reply-faults :
    (t size : ℕ) (got : Bytes) (ps : List Bytes) (last : Bytes) (more : List Answer)
    → IsFree (is_end t) (got ++ join ps)
    → 0 < length last
    → length (got ++ join ps) + length last ≡ size
    → wait_for_reply t size got (answered ps ++ (bytes last ∷ more)) ≡ faults
unfolding wait_for_reply
wait_for_reply-faults t size got [] last more f p e =
    let n = length-append got (join []) in
    let a : (length got == size) ≡ false = ground (arith, n) in
    let b : ltb (length (got ++ last)) size ≡ false = ground (arith, n, length-append got last) in
    rw a (rw b refl)
wait_for_reply-faults t size got (q ∷ ps) last more f p e =
    let now = got ++ q in
    let s = append_assoc got q (join ps) in
    let f' : IsFree (is_end t) (now ++ join ps) = rw s f in
    let e' : length (now ++ join ps) + length last ≡ size = omega (arith, ap length s) in
    let k = length-append now (join ps) in
    let m = length-append got q in
    let a : (length got == size) ≡ false = ground (arith) in
    let b : ltb (length now) size ≡ true = ground (arith) in
    rw a (
      rw b (
        rw (free_none t now (IsFree-front (is_end t) now (join ps) f'))
          (wait_for_reply-faults t size now ps last more f' p e')))
