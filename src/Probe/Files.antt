-- ===== src/Probe/Files.antt =====
-- tools/ivyprobe.c: the regexps of a file, and the words of a filter.
use libivy.Base.{
  ℕ, zero, suc, ◌-◌, ◌==◌, none, some, List, [], ◌∷◌, ◌++◌, ltb, if◌then◌else◌, Bytes, length, take,
}
use libivy.Filter.{Filter, set_filter}
use libivy.Interval.{Run, returns, unfinished, ◌>>=◌}
use libivy.Bus.{Bus, Action, World}
use libivy.Bus.Applications.{bind_text}
use libivy.Probe.{strtok}
use libivy.Probe.Commands.{print_callback}

-- `fgets` with room for so many bytes: what it reads, nothing where it returns NULL, and what is
-- left
unfoldable pub fgets : ℕ → Bytes → Bytes × Bytes
fgets zero s = ([], s)
fgets (suc n) [] = ([], [])
fgets (suc n) (c ∷ s) =
    let rest = fgets n s in if c == b'\n' then (c ∷ [], s) else (c ∷ rest.0, rest.1)

-- the C string in an array: what stands before the first NUL
unfoldable pub c_string : Bytes → Bytes
c_string [] = []
c_string (c ∷ s) = let rest = c_string s in if c == 0 then [] else c ∷ rest

-- the bytes that the `line` of `BindMsgOfFile` has room for
abbrev pub line_room : ℕ
line_room = 4095

-- the number of places of `filter`
abbrev pub max_words : ℕ
max_words = 4096

-- the loop of `BuildFilterRegexp`, with the number of places left
unfoldable pub words_from : ℕ → Bytes → List Bytes
words_from zero text = []
words_from (suc places) text =
    let token = strtok (b',' ∷ []) text in
    elim token.0 [ none ↦ [] | some word ↦ word ∷ words_from places token.1 ]

-- `BuildFilterRegexp`; without a word it sets nothing.
unfoldable pub build_filter : Bytes → Filter → Filter
build_filter classes f = elim (words_from max_words classes) [
  | [] ↦ f
  | word ∷ words ↦ set_filter (word ∷ words) f
]

module _ {B : Type 0} (w : World B) where
  -- what `BindMsgOfFile` does with a line that `fgets` has read, from its string on
  unfoldable pub bind_string : Bytes → Bytes → Bus B → Run (Bus B × List Action)
  bind_string old line b =
      if ltb 1 (length line)
      then bind_text w old (some print_callback) (take (length line - 1) line) b
      else returns (b, [])

  unfoldable pub bind_line : Bytes → Bytes → Bus B → Run (Bus B × List Action)
  bind_line old line b = bind_string old (c_string line) b

  -- the loop of `BindMsgOfFile`; a round takes a byte or more from the file.
  unfoldable pub bind_lines : ℕ → Bytes → Bytes → Bus B → Run (Bus B × List Action)
  bind_lines zero old text b = unfinished
  bind_lines (suc fuel) old [] b = returns (b, [])
  bind_lines (suc fuel) old (c ∷ text) b =
      let read = fgets line_room (c ∷ text) in
      bind_line old read.0 b >>= λ out.
      bind_lines fuel old read.1 out.0 >>= λ rest. returns (rest.0, out.1 ++ rest.1)

  -- `BindMsgOfFile`, of a file that can be opened
  unfoldable pub bind_msg_of_file : Bytes → Bytes → Bus B → Run (Bus B × List Action)
  bind_msg_of_file old text b = bind_lines (suc (length text)) old text b
