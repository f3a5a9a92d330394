-- ===== src/Address/Tests.antt =====
-- Two networks, of which one has an element of 9 bits, whose low byte is that of class D.
use libivy.Base.{◌<◌, ◌≡◌, refl, some, none, [], ◌∷◌, ◌++◌, length, arith}
use libivy.Wire.{print_digits, print_int}
use libivy.Address.{
  add_member, broadcast_to, bad_address, scan_networks, scan_step, add_digit, end_element, set_byte,
  to_network, in_multicast, scan_start, start_networks,
}
use libivy.Address.Networks.{Address, print_addresses}
use libivy.Address.Start.{start_networks-given}

abbrev lan : Address
lan = (192, 168 ∷ 1 ∷ [])

abbrev wide : Address
wide = (480, [])

scan_networks-bad :
    scan_networks (b'1' ∷ b'x' ∷ b',' ∷ b'7' ∷ b'.' ∷ b'1' ∷ []) scan_start
    ≡ some (bad_address ∷ broadcast_to (7 ∷ 1 ∷ 255 ∷ 255 ∷ []) ∷ [])
unfolding scan_networks scan_step add_digit end_element set_byte to_network in_multicast
scan_networks-bad = refl

short_text : length (print_addresses lan (wide ∷ [])) < 1024
unfolding print_digits
short_text = omega arith

start_networks-given_example :
    start_networks (some (print_addresses lan (wide ∷ []) ++ (b':' ∷ print_int 2010))) none
    ≡ some (
      2010,
      broadcast_to (192 ∷ 168 ∷ 1 ∷ 255 ∷ [])
          ∷ add_member (224 ∷ 255 ∷ 255 ∷ 255 ∷ [])
          ∷ broadcast_to (224 ∷ 255 ∷ 255 ∷ 255 ∷ [])
          ∷ [],
    )
start_networks-given_example =
    start_networks-given lan (wide ∷ []) 2010 none (omega arith, omega arith) (omega arith)
      (omega arith) short_text
