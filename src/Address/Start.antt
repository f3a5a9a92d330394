-- ===== src/Address/Start.antt =====
-- `IvyStart` on the text of a bus.
use libivy.Base.{
  ℕ, ◌<◌, ◌≡◌, ◌≢◌, refl, sym, ap, ◌∙◌, true, false, Option, none, some, List, [], ◌∷◌, ◌++◌,
  append-nil, ◌==◌, Bytes, length, arith,
}
use libivy.Discovery.{starts_digit}
use libivy.Discovery.Fields.{IsFree}
use libivy.Wire.{print_int, scan_int}
use libivy.Wire.Numbers.{scan_int-print_int, print_int-IsFree}
use libivy.Address.{
  last_colon, port_of, supervision_port, network_text, addr_fits, bus_text, start_networks,
}
use libivy.Address.Networks.{
  Address, print_addresses, broadcasts, AllShort, addresses_scanned, print_addresses-ne-nil,
  append-ne-nil,
}

last_colon-none : (q : Bytes) → IsFree (λ c. c == b':') q → last_colon q ≡ none
unfolding last_colon
last_colon-none [] h = refl
last_colon-none (c ∷ q) h = rw (last_colon-none q h.1, h.0) refl

last_colon-append :
    (xs q : Bytes) → IsFree (λ c. c == b':') q → last_colon (xs ++ (b':' ∷ q)) ≡ some (xs, q)
unfolding last_colon
last_colon-append [] q h = rw (last_colon-none q h) refl
last_colon-append (x ∷ xs) q h = rw (last_colon-append xs q h) refl

-- a port of 16 bits
port_of-print : (port : ℕ) → port < 65536 → port_of (print_int port) ≡ port
unfolding port_of starts_digit
port_of-print port h =
    let e : scan_int (print_int port) ≡ some (port, []) =
      ap scan_int (sym (append-nil (print_int port)))
      ∙ scan_int-print_int port [] (omega arith) refl in
    rw (e, port_of) (omega arith)

bus_text-given : (xs : Bytes) (ivybus : Option Bytes) → xs ≢ [] → bus_text (some xs) ivybus ≡ xs
unfolding bus_text
bus_text-given [] ivybus h = absurd (h refl)
bus_text-given (x ∷ xs) ivybus h = refl

-- what is read of a text with a port
module _ (text : Bytes) (port : ℕ) (some_text : text ≢ []) (z : 0 < port) (h : port < 65536) where
  abbrev with_port : Bytes
  with_port = text ++ (b':' ∷ print_int port)

  colon_found : last_colon with_port ≡ some (text, print_int port)
  colon_found = last_colon-append text (print_int port) (print_int-IsFree b':' refl refl port)

  addr_fits-text : length text < 1024 → addr_fits with_port ≡ true
  unfolding addr_fits
  addr_fits-text f =
      let n : (port == 0) ≡ false = ground arith in
      rw (colon_found, addr_fits) (rw (port_of-print port h, n) (ground arith))

  supervision_port-text : supervision_port with_port ≡ port
  unfolding supervision_port
  supervision_port-text =
      let n : (port == 0) ≡ false = ground arith in
      rw (colon_found, supervision_port) (rw (port_of-print port h, n) refl)

network_text-some :
    (before behind p : Bytes)
    → before ≢ []
    → last_colon p ≡ some (before, behind)
    → network_text p ≡ p
unfolding network_text
network_text-some [] behind p h e = absurd (h refl)
network_text-some (c ∷ before) behind p h e = rw (e, network_text) refl

-- A text that starts with a list of addresses, of 4 elements at most, and ends with a port that is
-- not 0 and has 16 bits, with fewer than 1024 bytes before its colon: `IvyStart` announces the
-- agent on that port, in each network in the order of the text. A network is its elements, each
-- taken modulo 256, and ones where the address has no more. A
-- network of class D, 224 to 239 in its first element, is joined before.
pub start_networks-given :
    (a : Address) (l : List Address) (port : ℕ) (ivybus : Option Bytes)
    → AllShort a l
    → 0 < port
    → port < 65536
    → length (print_addresses a l) < 1024
    → start_networks (some (print_addresses a l ++ (b':' ∷ print_int port))) ivybus
      ≡ some (port, broadcasts a l)
unfolding start_networks
start_networks-given a l port ivybus s z h f =
    let text = print_addresses a l in
    let t = print_addresses-ne-nil a l in
    let p = text ++ (b':' ∷ print_int port) in
    let given = bus_text-given p ivybus (append-ne-nil text (b':' ∷ print_int port) t) in
    rw
      (
        given,
        addr_fits-text text port t z h f,
        network_text-some text (print_int port) p t (colon_found text port t z h),
        addresses_scanned a l (b':' ∷ print_int port) s refl,
        given,
        supervision_port-text text port t z h,
      )
      refl
