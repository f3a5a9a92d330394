-- ===== src/Discovery.antt =====
-- src/ivydiscovery.h: the parser of the messages by which agents find one another on the bus.
-- A C string is the list of its bytes before the NUL.
pub mod Numbers
pub mod Fields
pub mod RoundTrip
pub mod Tests
use libivy.Base.{
  ℕ, ◌+◌, ◌-◌, ◌*◌, ◌/◌, ◌%◌, ◌^◌, ◌≡◌, Bool, true, false, not, ◌&&◌, ◌||◌, Option, none, some,
  ◌>>=◌, List, [], ◌∷◌, ◌++◌, length, ltb, leb, ◌==◌, if◌then◌else◌, Bytes, take, drop,
}

abbrev pub is_blank : ℕ → Bool
is_blank c = c == b' ' || c == b'\t'

abbrev pub is_digit : ℕ → Bool
is_digit c = leb b'0' c && leb c b'9'

-- `while (*p == ' ' || *p == '\t') ++p;`
unfoldable pub skip_blanks : Bytes → Bytes
skip_blanks [] = []
skip_blanks (c ∷ p) = if is_blank c then skip_blanks p else c ∷ p

-- The rest of the `do … while` of `IvyDiscoveryNumber` at `p`, with `number` read so far.
unfoldable pub digits_from : ℕ → ℕ → Bytes → Option (ℕ × Bytes)
digits_from limit number [] = some (number, [])
digits_from limit number (c ∷ p) =
    if is_digit c
    then (let digit = c - b'0' in
        let rest = digits_from limit ((number * 10 + digit) % 2 ^ 32) p in
        if ltb ((limit - digit) / 10) number then none else rest)
    else some (number, c ∷ p)

-- the tests before the first digit and behind the last one
unfoldable pub starts_digit : Bytes → Bool
starts_digit [] = false
starts_digit (c ∷ _) = is_digit c

unfoldable pub starts_blank : Bytes → Bool
starts_blank [] = false
starts_blank (c ∷ _) = is_blank c

-- `IvyDiscoveryNumber`: the value and the cursor behind the blanks that must follow.
unfoldable pub discovery_number : ℕ → Bytes → Option (ℕ × Bytes)
discovery_number limit cursor =
    let p = skip_blanks cursor in
    if not (starts_digit p) then none else (do
      (number, q) ← digits_from limit 0 p
      if not (starts_blank q) then none else some (number, skip_blanks q))

-- the stop sets of the two calls of `strcspn`, `" \t\r\n"` and `"\r\n"`
abbrev pub is_line_end : ℕ → Bool
is_line_end c = c == b'\r' || c == b'\n'

abbrev pub is_stop : ℕ → Bool
is_stop c = is_blank c || is_line_end c

-- `strcspn`: how many bytes stand before the first one of the set
unfoldable pub strcspn : (ℕ → Bool) → Bytes → ℕ
strcspn stop [] = 0
strcspn stop (c ∷ p) = let rest = strcspn stop p in if stop c then 0 else rest + 1

-- `if (*p == c) ++p;`
unfoldable pub skip_one : ℕ → Bytes → Bytes
skip_one c [] = []
skip_one c (d ∷ p) = if d == c then p else d ∷ p

pub record Discovery : Type 0 where
  pub version : ℕ
  pub port : ℕ
  pub app_id : Bytes
  pub app_name : Bytes

abbrev pub int_max : ℕ
int_max = 2147483647

unfoldable pub is_empty : Bytes → Bool
is_empty [] = true
is_empty (_ ∷ _) = false

-- the name and the end of the line, from `name` on
unfoldable pub parse_name : ℕ → ℕ → ℕ → Bytes → Bytes → Option Discovery
parse_name name_size version port app_id name =
    let n = strcspn is_line_end name in
    if n == 0 || leb name_size n
    then none
    else if not (is_empty (skip_one b'\n' (skip_one b'\r' (drop n name))))
    then none
    else some (record { version = version; port = port; app_id = app_id; app_name = take n name })

-- the identifier, from `id` on
unfoldable pub parse_id : ℕ → ℕ → ℕ → ℕ → Bytes → Option Discovery
parse_id id_size name_size version port id =
    let n = strcspn is_stop id in
    if n == 0 || leb id_size n
    then none
    else if not (starts_blank (drop n id))
    then none
    else parse_name name_size version port (take n id) (skip_blanks (drop n id))

-- `IvyParseDiscovery`; `none` is the return of 0, which sets none of the results.
unfoldable pub parse_discovery : ℕ → ℕ → Bytes → Option Discovery
parse_discovery id_size name_size line = do
  (version, p) ← discovery_number int_max line
  (port, id) ← discovery_number 65535 p
  if port == 0 then none else parse_id id_size name_size version port id
