-- ===== src/Discovery/RoundTrip.antt =====
-- The message that an agent sends, `"%d %hu %s %s\n"`, read back by another.
use libivy.Base.{
  ℕ, ◌≤◌, ◌<◌, ◌≡◌, ◌≢◌, refl, sym, ap, ◌∙◌, true, false, ◌||◌, some, [], ◌∷◌, ◌++◌, length, leb,
  ◌==◌, Bytes, arith, Bool-cases, inl, inr, take-append-ge, drop-append-ge, append-nil,
}
use libivy.Discovery.{
  is_line_end, is_stop, starts_blank, skip_blanks, parse_name, parse_id, parse_discovery, int_max,
  skip_one, is_empty, is_blank,
}
use libivy.Discovery.Numbers.{
  IsDigits, value_from, discovery_number-digits, skip_blanks-digit, starts_digit-append,
}
use libivy.Discovery.Fields.{IsFree, AtStop, strcspn-append}

-- The arguments of the `%d %hu %s %s\n` of `IvyStart`, the numbers as their digits.
pub record Announcement : Type 0 where
  pub version : Bytes
  pub port : Bytes
  pub app_id : Bytes
  pub app_name : Bytes

-- the line that `SocketSendBroadcast` sends for them
pub announce : Announcement → Bytes
announce a =
    a.version ++ (b' ' ∷ (a.port ++ (b' ' ∷ (a.app_id ++ (b' ' ∷ (a.app_name ++ (b'\n' ∷ [])))))))

-- the line as `HandleSocket` hands it over, without its end of line
abbrev pub heard_line : Announcement → Bytes
heard_line a = a.version ++ (b' ' ∷ (a.port ++ (b' ' ∷ (a.app_id ++ (b' ' ∷ a.app_name)))))

pub record CanAnnounce (id_size name_size : ℕ) (a : Announcement) : Type 0 where
  pub version_digits : IsDigits a.version
  pub version_ne_nil : a.version ≢ []
  pub version_in : value_from 0 a.version ≤ int_max
  pub port_digits : IsDigits a.port
  pub port_ne_nil : a.port ≢ []
  pub port_in : (0 < value_from 0 a.port) × (value_from 0 a.port ≤ 65535)
  pub id_length : (0 < length a.app_id) × (length a.app_id < id_size)
  pub id_free : IsFree is_stop a.app_id
  pub name_length : (0 < length a.app_name) × (length a.app_name < name_size)
  pub name_free : IsFree is_line_end a.app_name
  pub name_unpadded : skip_blanks (a.app_name ++ (b'\n' ∷ [])) ≡ a.app_name ++ (b'\n' ∷ [])

parse_name-line :
    (name_size version port : ℕ) (app_id name ending : Bytes)
    → (0 < length name) × (length name < name_size)
    → IsFree is_line_end name
    → AtStop is_line_end ending
    → is_empty (skip_one b'\n' (skip_one b'\r' ending)) ≡ true
    → parse_name name_size version port app_id (name ++ ending)
      ≡ some (record { version = version; port = port; app_id = app_id; app_name = name })
unfolding parse_name skip_one is_empty
parse_name-line name_size version port app_id name ending l f z e = rw (
  strcspn-append is_line_end name ending f z,
  (let t : (length name == 0 || leb name_size (length name)) ≡ false = ground arith in t),
  drop-append-ge (length name) 0 name ending (omega arith),
  take-append-ge (length name) 0 name ending (omega arith),
  append-nil,
  e,
)

parse_id-line :
    (id_size name_size version port : ℕ) (id name : Bytes)
    → (0 < length id) × (length id < id_size)
    → IsFree is_stop id
    → parse_id id_size name_size version port (id ++ (b' ' ∷ name))
      ≡ parse_name name_size version port id (skip_blanks name)
unfolding parse_id starts_blank skip_blanks
parse_id-line id_size name_size version port id name l f = rw (
  strcspn-append is_stop id (b' ' ∷ name) f refl,
  (let t : (length id == 0 || leb id_size (length id)) ≡ false = ground arith in t),
  drop-append-ge (length id) 0 id (b' ' ∷ name) (omega arith),
  take-append-ge (length id) 0 id (b' ' ∷ name) (omega arith),
  append-nil,
)

skip_blanks-free :
    (xs rest : Bytes) → 0 < length xs → IsFree is_stop xs → skip_blanks (xs ++ rest) ≡ xs ++ rest
unfolding skip_blanks
skip_blanks-free [] rest l f = absurd (omega arith)
skip_blanks-free (c ∷ xs) rest l f = ground arith

skip_blanks-shorter : (p : Bytes) → length (skip_blanks p) ≤ length p
unfolding skip_blanks
skip_blanks-shorter [] = omega arith
skip_blanks-shorter (c ∷ p) = ground (arith, skip_blanks-shorter p)

-- a text with no blank in front has none with another text behind it
skip_blanks-unpadded :
    (name e : Bytes)
    → 0 < length name
    → skip_blanks (name ++ e) ≡ name ++ e
    → skip_blanks name ≡ name
unfolding skip_blanks
skip_blanks-unpadded [] e l u = absurd (omega arith)
skip_blanks-unpadded (c ∷ name) e l u = elim (Bool-cases (is_blank c)) [
  | inl t ↦
      let v : skip_blanks (name ++ e) ≡ c ∷ (name ++ e) = rw t at u in
      let le = skip_blanks-shorter (name ++ e) in absurd (omega (arith, ap length v))
  | inr t ↦ rw t refl
]

-- the line of an announcement up to its name, and what is left of it
parse_announcement :
    (id_size name_size : ℕ) (a : Announcement) (ending : Bytes)
    → CanAnnounce id_size name_size a
    → skip_blanks (a.app_name ++ ending) ≡ a.app_name ++ ending
    → AtStop is_line_end ending
    → is_empty (skip_one b'\n' (skip_one b'\r' ending)) ≡ true
    → parse_discovery id_size name_size
        (a.version ++ (b' ' ∷ (a.port ++ (b' ' ∷ (a.app_id ++ (b' ' ∷ (a.app_name ++ ending)))))))
      ≡ some (record {
        version = value_from 0 a.version;
        port = value_from 0 a.port;
        app_id = a.app_id;
        app_name = a.app_name;
      })
unfolding parse_discovery
parse_announcement id_size name_size a ending c u z e =
    let name = a.app_name ++ ending in
    let id = a.app_id ++ (b' ' ∷ name) in
    let port = a.port ++ (b' ' ∷ id) in
    rw
      (
        discovery_number-digits int_max a.version port (omega arith) (omega arith) c.version_digits
            c.version_ne_nil c.version_in,
        skip_blanks-digit port (starts_digit-append a.port (b' ' ∷ id) c.port_digits c.port_ne_nil),
        discovery_number-digits 65535 a.port id (omega arith) (omega arith) c.port_digits
            c.port_ne_nil c.port_in.1,
        (let t : (value_from 0 a.port == 0) ≡ false = ground arith in t),
        skip_blanks-free a.app_id (b' ' ∷ name) c.id_length.0 c.id_free,
        parse_id-line id_size name_size (value_from 0 a.version) (value_from 0 a.port) a.app_id name
            c.id_length c.id_free,
        u,
      )
      (parse_name-line name_size (value_from 0 a.version) (value_from 0 a.port) a.app_id a.app_name
        ending c.name_length c.name_free z e)

-- What an agent announces, with a version of an `int` and a port that is not 0 and has 16 bits,
-- both in digits, and with an identifier and a name that are not empty, fit, have no separator in
-- them and, the name, no blank in front, is read back as it was sent.
pub parse_discovery-announce :
    (id_size name_size : ℕ) (a : Announcement)
    → CanAnnounce id_size name_size a
    → parse_discovery id_size name_size (announce a)
      ≡ some (record {
        version = value_from 0 a.version;
        port = value_from 0 a.port;
        app_id = a.app_id;
        app_name = a.app_name;
      })
unfolding announce is_empty skip_one
parse_discovery-announce id_size name_size a c =
    parse_announcement id_size name_size a (b'\n' ∷ []) c c.name_unpadded refl refl

-- The same for the line without its end, which is what BroadcastReceive is given.
pub parse_discovery-heard :
    (id_size name_size : ℕ) (a : Announcement)
    → CanAnnounce id_size name_size a
    → parse_discovery id_size name_size (heard_line a)
      ≡ some (record {
        version = value_from 0 a.version;
        port = value_from 0 a.port;
        app_id = a.app_id;
        app_name = a.app_name;
      })
unfolding is_empty skip_one
parse_discovery-heard id_size name_size a c =
    let u = skip_blanks-unpadded a.app_name (b'\n' ∷ []) c.name_length.0 c.name_unpadded in
    ap
      (λ t.
        parse_discovery id_size name_size
          (a.version ++ (b' ' ∷ (a.port ++ (b' ' ∷ (a.app_id ++ (b' ' ∷ t)))))))
      (sym (append-nil a.app_name))
    ∙ parse_announcement id_size name_size a [] c (rw append-nil u) tt refl
