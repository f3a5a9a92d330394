-- ===== src/Address.antt =====
-- src/ivy.c, `IvyStart`: the address of a bus, a list of networks and a port, in the mode of IPv4.
pub mod Elements
pub mod Networks
pub mod Start
pub mod Tests
use Prim.Native.Nat.{bit_or, bit_xor}
use libivy.Base.{
  ℕ, zero, suc, ◌+◌, ◌-◌, ◌*◌, ◌/◌, ◌%◌, Bool, true, false, not, ◌&&◌, ◌||◌, Option, none, some,
  ◌>>=◌, List, [], ◌∷◌, ◌++◌, ◌==◌, ltb, leb, if◌then◌else◌, Bytes, length,
}
use libivy.Discovery.{is_digit}
use libivy.Wire.{scan_int}

-- `IVY_DEFAULT_BUS`, and `DefaultIvyBus` where it is 127.255.255.255
abbrev pub ivy_default_bus : ℕ
ivy_default_bus = 2010

abbrev pub default_ivy_bus : Bytes
default_ivy_bus =
    (b'1' ∷ b'2' ∷ b'7' ∷ b'.' ∷ b'2' ∷ b'5' ∷ b'5' ∷ b'.' ∷ b'2' ∷ b'5' ∷ b'5' ∷ b'.' ∷ b'2' ∷ b'5'
      ∷ b'5' ∷ b':' ∷ b'2' ∷ b'0' ∷ b'1' ∷ b'0' ∷ [])

-- The variables of the loop. A mask is its four bytes, the first one those of 0xff000000.
pub record Scan : Type 0 where
  pub mask : List ℕ
  pub elem_byte : ℕ
  pub numdigit : ℕ
  pub numelem : ℕ
  pub has_error : Bool

-- What the loop does: `SocketAddMember` and `SocketSendBroadcast` of a network, or the complaint.
pub data Broadcast : Type 0 where
  add_member broadcast_to : List ℕ → Broadcast
  bad_address : Broadcast

abbrev pub all_ones : List ℕ
all_ones = 255 ∷ 255 ∷ 255 ∷ 255 ∷ []

abbrev pub scan_start : Scan
scan_start = record { mask = all_ones; elem_byte = 0; numdigit = 0; numelem = 0; has_error = false }

-- `(mask ^ (0xff << (8*(3-numelem)))) | (elem << (8*(3-numelem)))`, for up to 3 elements before
unfoldable pub set_byte : ℕ → ℕ → List ℕ → List ℕ
set_byte k e [] = []
set_byte zero e (b ∷ mask) = bit_or (bit_xor b 255) e ∷ mask
set_byte (suc k) e (b ∷ mask) = b ∷ set_byte k e mask

-- a comma, a colon or the end
abbrev pub ends_address : ℕ → Bool
ends_address c = c == b',' || (c == b':' || c == 0)

-- a digit of an element, an `unsigned char`
unfoldable pub add_digit : ℕ → Scan → Scan
add_digit c s =
    if ltb s.numdigit 3 && ltb s.numelem 4
    then record s { elem_byte = (10 * s.elem_byte + (c - b'0')) % 256 }
    else record s { has_error = true }

-- `IN_MULTICAST`
unfoldable pub in_multicast : List ℕ → Bool
in_multicast [] = false
in_multicast (b ∷ _) = b / 16 == 14

-- the network of an address, which is joined if it is one of class D
unfoldable pub to_network : List ℕ → List Broadcast
to_network mask =
    (if in_multicast mask then add_member mask ∷ [] else []) ++ (broadcast_to mask ∷ [])

-- the end of an element, of which there are less than 4 before
unfoldable pub end_element : ℕ → Scan → Scan × List Broadcast
end_element c s =
    let mask = set_byte s.numelem s.elem_byte s.mask in
    if c == b'.'
    then (record s { mask = mask; numelem = s.numelem + 1; numdigit = 0; elem_byte = 0 }, [])
    else (record s { mask = all_ones; numelem = 0; numdigit = 0; elem_byte = 0 }, to_network mask)

-- The body of the loop. None is a shift by a negative number.
unfoldable pub scan_step : ℕ → Scan → Option (Scan × List Broadcast)
scan_step c s =
    if not s.has_error && is_digit c
    then some (add_digit c s, [])
    else if not s.has_error && (c == b'.' || ends_address c)
    then if ltb s.numelem 4 then some (end_element c s) else none
    else if ends_address c
    then some (scan_start, bad_address ∷ [])
    else if c == b' '
    then some (s, [])
    else some (record s { has_error = true }, [])

-- the loop, which ends with the text or with a colon
unfoldable pub scan_networks : Bytes → Scan → Option (List Broadcast)
scan_networks [] s = do (s', last) ← scan_step 0 s; some last
scan_networks (c ∷ p) s = do
  (s', first) ← scan_step c s
  later ← elim (c == b':') [ true ↦ some [] | false ↦ scan_networks p s' ]
  some (first ++ later)

-- `strrchr` for the colon: what stands before it and behind it
unfoldable pub last_colon : Bytes → Option (Bytes × Bytes)
last_colon [] = none
last_colon (c ∷ p) = elim (last_colon p) [
  | some (before, behind) ↦ some (c ∷ before, behind)
  | none ↦ if c == b':' then some ([], p) else none
]

-- `atoi`, as an `unsigned short`
unfoldable pub port_of : Bytes → ℕ
port_of q = elim (scan_int q) [ none ↦ 0 | some (n, rest) ↦ n % 65536 ]

-- `SupervisionPort`
unfoldable pub supervision_port : Bytes → ℕ
supervision_port p = elim (last_colon p) [
  | none ↦ ivy_default_bus
  | some (before, behind) ↦ if port_of behind == 0 then ivy_default_bus else port_of behind
]

-- the size of `addr`
abbrev pub addr_size : ℕ
addr_size = 1024

-- whether the copy of what stands before a port, with its NUL, stays in `addr`
unfoldable pub addr_fits : Bytes → Bool
addr_fits p = elim (last_colon p) [
  | none ↦ true
  | some (before, behind) ↦ if port_of behind == 0 then true else ltb (length before) addr_size
]

-- the first that is there and not empty: the argument, the variable IVYBUS, the default
unfoldable pub bus_text : Option Bytes → Option Bytes → Bytes
bus_text (some (c ∷ p)) ivybus = c ∷ p
bus_text _ (some (c ∷ p)) = c ∷ p
bus_text _ _ = default_ivy_bus

-- the list that the loop reads, the default where there is only a port
unfoldable pub network_text : Bytes → Bytes
network_text p = elim (last_colon p) [
  | none ↦ p
  | some ([], behind) ↦ default_ivy_bus
  | some (c ∷ before, behind) ↦ p
]

-- the port, and what is announced; none is a write past `addr`, or a shift by a negative number
unfoldable pub start_networks : Option Bytes → Option Bytes → Option (ℕ × List Broadcast)
start_networks bus ivybus =
    let p = bus_text bus ivybus in
    if addr_fits p
    then elim (scan_networks (network_text p) scan_start) [
      | none ↦ none
      | some announced ↦ some (supervision_port p, announced)
    ]
    else none
