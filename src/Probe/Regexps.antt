-- ===== src/Probe/Regexps.antt =====
-- tools/ivyprobe.c: `BindMsgOfFile` on a file of regexps, one in each line.
use libivy.Base.{
  ℕ, zero, suc, ◌+◌, ◌-◌, ◌≤◌, ◌<◌, ◌≡◌, refl, sym, ap, ◌∙◌, true, false, Bool, none, some, List,
  [], ◌∷◌, ◌++◌, ◌==◌, ltb, if◌then◌else◌, Bytes, length, length-append, take, Bool-cases, inl, inr,
  take-append-ge, append-nil, arith,
}
use libivy.Discovery.Fields.{IsFree}
use libivy.Interval.{returns, ◌>>=◌}
use libivy.Interval.Substitute.{find_mark, substitute_interval}
use libivy.Registry.{IvyClient}
use libivy.Wire.{add_regexp, line_of}
use libivy.Bus.{
  Handler, Config, Bus, Action, sent, World, msg_send_to, send_to_all, congestion_event,
}
use libivy.Bus.Session.{bind_msg}
use libivy.Bus.Applications.{bind_text}
use libivy.Probe.Commands.{print_callback}
use libivy.Probe.Files.{
  fgets, c_string, line_room, bind_string, bind_line, bind_lines, bind_msg_of_file,
}

abbrev pub is_newline : ℕ → Bool
is_newline c = c == b'\n'

-- a text without its last byte
abbrev pub without_last : Bytes → Bytes
without_last line = take (length line - 1) line

abbrev pub is_nul : ℕ → Bool
is_nul c = c == 0

-- a line that `fgets` reads at once, without an interval or a NUL in it
abbrev pub IsLine : Bytes → Type 0
IsLine line =
    IsFree is_newline line
    × (length line < line_room)
    × (find_mark line ≡ none)
    × IsFree is_nul line

-- the last one, of which a byte less is bound
abbrev pub IsLastLine : Bytes → Type 0
IsLastLine last =
    IsFree is_newline last
    × (length last ≤ line_room)
    × (find_mark (without_last last) ≡ none)
    × IsFree is_nul last

abbrev pub AreRegexps : List Bytes → Type 0
AreRegexps [] = Unit
AreRegexps (r ∷ regexps) = (0 < length r) × IsLine r × AreRegexps regexps

-- a file of lines, with a last one that no newline ends
abbrev pub file_of : List Bytes → Bytes → Bytes
file_of [] last = last
file_of (r ∷ regexps) last = r ++ (b'\n' ∷ file_of regexps last)

c_string-free : (s : Bytes) → IsFree is_nul s → c_string s ≡ s
unfolding c_string
c_string-free [] f = refl
c_string-free (c ∷ s) f = rw f.0 (ap (◌∷◌ c) (c_string-free s f.1))

IsFree-newline : (r : Bytes) → IsFree is_nul r → IsFree is_nul (r ++ (b'\n' ∷ []))
IsFree-newline [] f = (refl, tt)
IsFree-newline (c ∷ r) f = (f.0, IsFree-newline r f.1)

fgets-line :
    (n : ℕ) (line rest : Bytes)
    → IsFree is_newline line
    → length line < n
    → fgets n (line ++ (b'\n' ∷ rest)) ≡ (line ++ (b'\n' ∷ []), rest)
unfolding fgets
fgets-line zero line rest f l = absurd (omega arith)
fgets-line (suc n) [] rest f l = refl
fgets-line (suc n) (c ∷ line) rest f l = rw f.0 (rw (fgets-line n line rest f.1 (omega arith)) refl)

fgets-last :
    (n : ℕ) (line : Bytes) → IsFree is_newline line → length line ≤ n → fgets n line ≡ (line, [])
unfolding fgets
fgets-last zero [] f l = refl
fgets-last zero (c ∷ line) f l = absurd (omega arith)
fgets-last (suc n) [] f l = refl
fgets-last (suc n) (c ∷ line) f l = rw f.0 (rw (fgets-last n line f.1 (omega arith)) refl)

without_last-append : (r : Bytes) (c : ℕ) → without_last (r ++ (c ∷ [])) ≡ r
without_last-append r c =
    take-append-ge (length (r ++ (c ∷ [])) - 1) 0 r (c ∷ [])
      (omega (arith, length-append r (c ∷ [])))
    ∙ append-nil r

module _ {B : Type 0} (w : World B) where
  -- the lines that ask every agent for a regexp, and what congestion they meet
  unfoldable pub told : Config → ℕ → Bytes → List IvyClient → List Action
  told g id regexp [] = []
  told g id regexp (i ∷ clients) =
      sent i.client add_regexp id regexp
      ∷ (congestion_event g i.client (w.send_state i.client (line_of add_regexp id regexp))
          ++ told g id regexp clients)

  -- A regexp that is bound: a handler with the next id, and a line AddRegexp to every agent.
  unfoldable pub bound : Bytes → Bus B → Bus B × List Action
  bound regexp b =
      let h : Handler = record {
        id = b.next_id;
        regexp = regexp;
        callback = some print_callback;
      } in
      (
        record b { msg_recv = h ∷ b.msg_recv; next_id = b.next_id + 1 },
        told b.config b.next_id regexp b.store.all_clients,
      )

  send_to_all-told :
      (g : Config) (id : ℕ) (regexp : Bytes) (clients : List IvyClient)
      → send_to_all w g add_regexp id regexp clients ≡ told g id regexp clients
  unfolding send_to_all msg_send_to told
  send_to_all-told g id regexp [] = refl
  send_to_all-told g id regexp (i ∷ clients) = rw (send_to_all-told g id regexp clients) refl

  bind_msg-bound :
      (regexp : Bytes) (b : Bus B) → bind_msg w (some print_callback) regexp b ≡ bound regexp b
  unfolding bind_msg bound
  bind_msg-bound regexp b =
      ap
        (λ acts. (
          record b {
            msg_recv =
                record { id = b.next_id; regexp = regexp; callback = some print_callback }
                ∷ b.msg_recv;
            next_id = b.next_id + 1;
          },
          acts,
        ))
        (send_to_all-told b.config b.next_id regexp b.store.all_clients)

module _ {B : Type 0} (w : World B) (old : Bytes) where
  -- `IvyBindMsg` of each regexp, in their order
  unfoldable pub bind_all : List Bytes → Bus B → Bus B × List Action
  bind_all [] b = (b, [])
  bind_all (r ∷ regexps) b =
      let out = bound w r b in let later = bind_all regexps out.0 in (later.0, out.1 ++ later.1)

  -- what is bound of a last line that no newline ends
  abbrev pub of_last : Bytes → List Bytes
  of_last last = if ltb 1 (length last) then without_last last ∷ [] else []

  bind_string-text :
      (line : Bytes) (b : Bus B)
      → 1 < length line
      → find_mark (without_last line) ≡ none
      → bind_string w old line b ≡ returns (bound w (without_last line) b)
  unfolding bind_string bind_text substitute_interval
  bind_string-text line b l e =
      let long : ltb 1 (length line) ≡ true = ground arith in
      rw long (rw (e, substitute_interval) (ap returns (bind_msg-bound w (without_last line) b)))

  bind_string-short :
      (line : Bytes) (b : Bus B)
      → ltb 1 (length line) ≡ false
      → bind_string w old line b ≡ returns (b, [])
  unfolding bind_string
  bind_string-short line b h = rw h refl

  bind_line-free :
      (line : Bytes) (b : Bus B)
      → IsFree is_nul line
      → bind_line w old line b ≡ bind_string w old line b
  unfolding bind_line
  bind_line-free line b f = ap (λ t. bind_string w old t b) (c_string-free line f)

  bind_line-regexp :
      (r : Bytes) (b : Bus B)
      → 0 < length r
      → find_mark r ≡ none
      → IsFree is_nul r
      → bind_line w old (r ++ (b'\n' ∷ [])) b ≡ returns (bound w r b)
  bind_line-regexp r b l e f =
      let m = length-append r (b'\n' ∷ []) in
      bind_line-free (r ++ (b'\n' ∷ [])) b (IsFree-newline r f)
      ∙ bind_string-text (r ++ (b'\n' ∷ [])) b (omega arith)
          (ap find_mark (without_last-append r b'\n') ∙ e)
      ∙ ap (λ t. returns (bound w t b)) (without_last-append r b'\n')

  bind_line-last :
      (last : Bytes) (b : Bus B)
      → find_mark (without_last last) ≡ none
      → IsFree is_nul last
      → bind_line w old last b ≡ returns (bind_all (of_last last) b)
  unfolding bind_all
  bind_line-last last b e f = bind_line-free last b f ∙ elim (Bool-cases (ltb 1 (length last))) [
    | inl h ↦ rw h (
        bind_string-text last b (ground arith) e
        ∙ ap (λ acts. returns ((bound w (without_last last) b).0, acts))
            (sym (append-nil (bound w (without_last last) b).1)))
    | inr h ↦ rw h (bind_string-short last b h)
  ]

  bind_lines-step :
      (fuel : ℕ) (text line rest : Bytes) (b : Bus B) (out : Bus B × List Action)
      → 0 < length text
      → fgets line_room text ≡ (line, rest)
      → bind_line w old line b ≡ returns out
      → bind_lines w (suc fuel) old text b
        ≡ bind_lines w fuel old rest out.0 >>= λ later. returns (later.0, out.1 ++ later.1)
  unfolding bind_lines
  bind_lines-step fuel [] line rest b out l e f = absurd (omega arith)
  bind_lines-step fuel (c ∷ text) line rest b out l e f =
      ap
        (λ r. bind_line w old r.0 b >>= λ o.
          bind_lines w fuel old r.1 o.0 >>= λ later. returns (later.0, o.1 ++ later.1))
        e
      ∙ rw f refl

  bind_lines-end : (fuel : ℕ) (b : Bus B) → bind_lines w (suc fuel) old [] b ≡ returns (b, [])
  unfolding bind_lines
  bind_lines-end fuel b = refl

  bind_lines-file :
      (fuel : ℕ) (regexps : List Bytes) (last : Bytes) (b : Bus B)
      → length (file_of regexps last) < fuel
      → AreRegexps regexps
      → IsLastLine last
      → bind_lines w fuel old (file_of regexps last) b
        ≡ returns (bind_all (regexps ++ of_last last) b)
  unfolding bind_all
  bind_lines-file zero regexps last b l a e = absurd (omega arith)
  bind_lines-file (suc fuel) [] [] b l a e = bind_lines-end fuel b
  bind_lines-file (suc zero) [] (c ∷ last) b l a e = absurd (omega arith)
  bind_lines-file (suc (suc fuel)) [] (c ∷ last) b l a e =
      bind_lines-step (suc fuel) (c ∷ last) (c ∷ last) [] b (bind_all (of_last (c ∷ last)) b)
        (omega arith) (fgets-last line_room (c ∷ last) e.0 e.1)
        (bind_line-last (c ∷ last) b e.2 e.3)
      ∙ rw (bind_lines-end fuel (bind_all (of_last (c ∷ last)) b).0) (
          ap (λ acts. returns ((bind_all (of_last (c ∷ last)) b).0, acts))
            (append-nil (bind_all (of_last (c ∷ last)) b).1))
  bind_lines-file (suc fuel) (r ∷ regexps) last b l a e =
      let m = length-append r (b'\n' ∷ file_of regexps last) in
      let out = bound w r b in
      bind_lines-step fuel (file_of (r ∷ regexps) last) (r ++ (b'\n' ∷ [])) (file_of regexps last) b
        out (omega arith) (fgets-line line_room r (file_of regexps last) a.1.0 a.1.1)
        (bind_line-regexp r b a.0 a.1.2 a.1.3)
      ∙ rw (bind_lines-file fuel regexps last out.0 (omega arith) a.2 e) refl

  -- A file of regexps without intervals, each with a byte or more, fewer than 4095 bytes and a
  -- newline behind it, and a last line of 4095 bytes at most that no newline ends, all without a
  -- NUL: `BindMsgOfFile` is done. It binds the regexps in their order and then, if the last line
  -- has
  -- two bytes or more, the last line without its last byte: each is a new handler of `Callback`,
  -- with the next id and in front of the others, and every agent is sent a line AddRegexp with its
  -- id and text.
  pub bind_msg_of_file-binds :
      (regexps : List Bytes) (last : Bytes) (b : Bus B)
      → AreRegexps regexps
      → IsLastLine last
      → bind_msg_of_file w old (file_of regexps last) b
        ≡ returns (bind_all (regexps ++ of_last last) b)
  unfolding bind_msg_of_file
  bind_msg_of_file-binds regexps last b a e =
      bind_lines-file (suc (length (file_of regexps last))) regexps last b (omega arith) a e
