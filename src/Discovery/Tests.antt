-- ===== src/Discovery/Tests.antt =====
-- An announcement with a name of two words, and lines that are refused.
use libivy.Base.{◌≡◌, refl, none, some, [], ◌∷◌, Bytes, arith}
use libivy.Discovery.{
  skip_blanks, digits_from, starts_digit, starts_blank, discovery_number, strcspn, skip_one,
  Discovery, is_empty, parse_name, parse_id, parse_discovery,
}
use libivy.Discovery.RoundTrip.{Announcement, announce, CanAnnounce, parse_discovery-announce}

abbrev line : Bytes
line =
    (b'3' ∷ b' ' ∷ b'2' ∷ b'0' ∷ b'1' ∷ b'0' ∷ b' ' ∷ b'1' ∷ b'2' ∷ b':' ∷ b'3' ∷ b'4' ∷ b' ' ∷ b'm'
      ∷ b'y' ∷ b' ' ∷ b'a' ∷ b'p' ∷ b'p' ∷ b'\n' ∷ [])

abbrev found : Discovery
found = record {
  version = 3;
  port = 2010;
  app_id = (b'1' ∷ b'2' ∷ b':' ∷ b'3' ∷ b'4' ∷ []);
  app_name = (b'm' ∷ b'y' ∷ b' ' ∷ b'a' ∷ b'p' ∷ b'p' ∷ []);
}

parse_discovery-line : parse_discovery 16 16 line ≡ some found
unfolding parse_discovery discovery_number digits_from skip_blanks starts_digit starts_blank strcspn
    skip_one is_empty parse_name parse_id
parse_discovery-line = refl

-- a port of more than 16 bits, and a name that does not fit
parse_discovery-refused :
    (parse_discovery 16 16 (
        b'3' ∷ b' ' ∷ b'6' ∷ b'5' ∷ b'5' ∷ b'3' ∷ b'6' ∷ b' ' ∷ b'i' ∷ b'd' ∷ b' ' ∷ b'a' ∷ b'p'
        ∷ b'p' ∷ b'\n' ∷ [])
      ≡ none)
    × (parse_discovery 16 6 line ≡ none)
unfolding parse_discovery discovery_number digits_from skip_blanks starts_digit starts_blank strcspn
    skip_one is_empty parse_name parse_id
parse_discovery-refused = (refl, refl)

abbrev sent : Announcement
sent = record {
  version = (b'3' ∷ []);
  port = (b'2' ∷ b'0' ∷ b'1' ∷ b'0' ∷ []);
  app_id = (b'1' ∷ b'2' ∷ b':' ∷ b'3' ∷ b'4' ∷ []);
  app_name = (b'm' ∷ b'y' ∷ b' ' ∷ b'a' ∷ b'p' ∷ b'p' ∷ []);
}

sent-CanAnnounce : CanAnnounce 16 16 sent
unfolding skip_blanks
sent-CanAnnounce = record {
  version_digits = (refl, tt);
  version_ne_nil = λ e. cc;
  version_in = omega arith;
  port_digits = (refl, (refl, (refl, (refl, tt))));
  port_ne_nil = λ e. cc;
  port_in = (omega arith, omega arith);
  id_length = (omega arith, omega arith);
  id_free = (refl, (refl, (refl, (refl, (refl, tt)))));
  name_length = (omega arith, omega arith);
  name_free = (refl, (refl, (refl, (refl, (refl, (refl, tt))))));
  name_unpadded = refl;
}

parse_discovery-announce_example : parse_discovery 16 16 (announce sent) ≡ some found
parse_discovery-announce_example = parse_discovery-announce 16 16 sent sent-CanAnnounce
