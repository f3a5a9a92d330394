-- ===== src/Discovery/Fields.antt =====
-- The text fields of a discovery message: `strcspn`, and the bounds of what is accepted.
use libivy.Base.{
  ℕ, ◌≤◌, ◌<◌, ◌≡◌, refl, Bool, true, false, not, ◌||◌, some, >>=-eq-some, refuse-eq-some,
  or-eq-false, some_inj, [], ◌∷◌, ◌++◌, length, leb, ◌==◌, Bytes, arith, take, drop, length-take,
  Bool-cases, inl, inr,
}
use libivy.Discovery.{
  is_line_end, is_stop, strcspn, starts_blank, skip_blanks, Discovery, parse_name, parse_id,
  parse_discovery, discovery_number, int_max, skip_one, is_empty,
}
use mathlib.Core.Path.{subst}
use native.Mathlib.Numerals.{add-one}
use libivy.Discovery.Numbers.{discovery_number-le}

-- no byte of the set
abbrev pub IsFree : (ℕ → Bool) → Bytes → Type 0
IsFree stop [] = Unit
IsFree stop (c ∷ p) = (stop c ≡ false) × IsFree stop p

-- the text ends here, or with a byte of the set
abbrev pub AtStop : (ℕ → Bool) → Bytes → Type 0
AtStop stop [] = Unit
AtStop stop (c ∷ p) = stop c ≡ true

pub strcspn-append :
    (stop : ℕ → Bool) (xs rest : Bytes)
    → IsFree stop xs
    → AtStop stop rest
    → strcspn stop (xs ++ rest) ≡ length xs
unfolding strcspn
strcspn-append stop [] [] f a = refl
strcspn-append stop [] (c ∷ rest) f a = rw a
strcspn-append stop (x ∷ xs) rest f a = rw f.0 (omega (arith, strcspn-append stop xs rest f.1 a))

pub strcspn-le : (stop : ℕ → Bool) (p : Bytes) → strcspn stop p ≤ length p
unfolding strcspn
strcspn-le stop [] = omega arith
strcspn-le stop (c ∷ p) = ground (arith, strcspn-le stop p)

pub take-strcspn-IsFree : (stop : ℕ → Bool) (p : Bytes) → IsFree stop (take (strcspn stop p) p)
unfolding strcspn
take-strcspn-IsFree stop [] = tt
take-strcspn-IsFree stop (c ∷ p) = elim (Bool-cases (stop c)) [
  | inl e ↦ rw e tt
  | inr e ↦ rw e (rw add-one (e, take-strcspn-IsFree stop p))
]

-- the fields that an accepted message has
pub record IsFit (id_size name_size : ℕ) (d : Discovery) : Type 0 where
  pub version_in : d.version ≤ int_max
  pub port_in : (0 < d.port) × (d.port ≤ 65535)
  pub id_length : (0 < length d.app_id) × (length d.app_id < id_size)
  pub id_free : IsFree is_stop d.app_id
  pub name_length : (0 < length d.app_name) × (length d.app_name < name_size)
  pub name_free : IsFree is_line_end d.app_name

parse_name-IsFit :
    (id_size name_size version port : ℕ) (app_id name : Bytes) {d : Discovery}
    → version ≤ int_max
    → (0 < port) × (port ≤ 65535)
    → (0 < length app_id) × (length app_id < id_size)
    → IsFree is_stop app_id
    → parse_name name_size version port app_id name ≡ some d
    → IsFit id_size name_size d
unfolding parse_name
parse_name-IsFit id_size name_size version port app_id name {d} v p i f e =
    let n : ℕ = strcspn is_line_end name in
    let g = refuse-eq-some (n == 0 || leb name_size n) _ e in
    let h = refuse-eq-some (not (is_empty (skip_one b'\n' (skip_one b'\r' (drop n name))))) _ g.1 in
    let o = or-eq-false (n == 0) (leb name_size n) g.0 in
    let l : length (take n name) ≡ n =
      omega (arith, length-take n name, strcspn-le is_line_end name) in
    let built : IsFit id_size name_size
        (record { version = version; port = port; app_id = app_id; app_name = take n name }) =
      record {
        version_in = v;
        port_in = p;
        id_length = i;
        id_free = f;
        name_length = (ground arith, ground arith);
        name_free = take-strcspn-IsFree is_line_end name;
      } in
    subst (IsFit id_size name_size) (some_inj h.1) built

parse_id-IsFit :
    (id_size name_size version port : ℕ) (id : Bytes) {d : Discovery}
    → version ≤ int_max
    → (0 < port) × (port ≤ 65535)
    → parse_id id_size name_size version port id ≡ some d
    → IsFit id_size name_size d
unfolding parse_id
parse_id-IsFit id_size name_size version port id v p e =
    let n : ℕ = strcspn is_stop id in
    let g = refuse-eq-some (n == 0 || leb id_size n) _ e in
    let h = refuse-eq-some (not (starts_blank (drop n id))) _ g.1 in
    let o = or-eq-false (n == 0) (leb id_size n) g.0 in
    let l : length (take n id) ≡ n = omega (arith, length-take n id, strcspn-le is_stop id) in
    parse_name-IsFit id_size name_size version port (take n id) (skip_blanks (drop n id)) v p
      (ground arith, ground arith) (take-strcspn-IsFree is_stop id) h.1

-- What `IvyParseDiscovery` accepts has a version of an `int`, a port that is not 0, and an
-- identifier and a name that are not empty, fit the caller's buffers with their NUL, and hold no
-- separator.
parse_discovery-IsFit :
    (id_size name_size : ℕ) (line : Bytes) {d : Discovery}
    → parse_discovery id_size name_size line ≡ some d
    → IsFit id_size name_size d
unfolding parse_discovery
parse_discovery-IsFit id_size name_size line e =
    let ((v, p), read_v, e1) = >>=-eq-some (discovery_number int_max line) _ e in
    let ((port, id), read_p, e2) = >>=-eq-some (discovery_number 65535 p) _ e1 in
    let g = refuse-eq-some (port == 0) _ e2 in
    parse_id-IsFit id_size name_size v port id
      (discovery_number-le int_max line (omega arith) (omega arith) read_v)
      (ground arith, discovery_number-le 65535 p (omega arith) (omega arith) read_p) g.1
