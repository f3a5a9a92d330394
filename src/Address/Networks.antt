-- ===== src/Address/Networks.antt =====
-- The networks of a list of addresses.
use Prim.Native.Nat.{bit_or, bit_or-bitwise}
use libivy.Base.{
  ℕ, suc, ◌+◌, ◌%◌, ◌≤◌, ◌<◌, ◌≡◌, ◌≢◌, refl, ap, ◌∙◌, false, some, ◌>>=◌, List, [], ◌∷◌, ◌++◌,
  append_assoc, ◌&&◌, leb, if◌then◌else◌, Bytes, length, arith,
}
use libivy.Wire.{print_nat}
use libivy.Wire.Numbers.{print_digits-Prints}
use libivy.Address.{
  Scan, Broadcast, add_member, broadcast_to, in_multicast, to_network, scan_start, set_byte,
  scan_networks,
}
use libivy.Address.Elements.{
  print_elements, padded, padded, padded, IsLast, IsLast, with_elem, next_elem, number_scanned,
  dot_scanned, comma_scanned, last_scanned, last_scanned,
}

-- the state behind an address, before what ends it
abbrev address_state : ℕ → List ℕ → Scan → Scan
address_state n [] s = with_elem (n % 256) s
address_state n (m ∷ ns) s = address_state m ns (next_elem n s)

address_state-fields :
    (n : ℕ) (ns : List ℕ) (s : Scan)
    → ((address_state n ns s).has_error ≡ s.has_error)
      × ((address_state n ns s).numelem ≡ s.numelem + length ns)
address_state-fields n [] s = (refl, omega arith)
address_state-fields n (m ∷ ns) s =
    let f = address_state-fields m ns (next_elem n s) in (f.0, omega (arith, f.1))

address_scanned :
    (n : ℕ) (ns : List ℕ) (rest : Bytes) (s : Scan)
    → s.has_error ≡ false
    → s.numdigit ≡ 0
    → s.elem_byte ≡ 0
    → s.numelem + length ns < 4
    → scan_networks (print_elements n ns ++ rest) s ≡ scan_networks rest (address_state n ns s)
address_scanned n [] rest s e z h k = number_scanned n rest s e z (omega arith) h
address_scanned n (m ∷ ns) rest s e z h k =
    ap (λ t. scan_networks t s) (append_assoc (print_nat n) (b'.' ∷ print_elements m ns) rest)
    ∙ number_scanned n (b'.' ∷ (print_elements m ns ++ rest)) s e z (omega arith) h
    ∙ dot_scanned (print_elements m ns ++ rest) (with_elem (n % 256) s) e (omega arith)
    ∙ address_scanned m ns rest (next_elem n s) e refl refl (omega arith)

-- an address, and its mask from the state behind it
abbrev pub Address : Type 0
Address = ℕ × List ℕ

abbrev mask_behind : Scan → List ℕ
mask_behind s = set_byte s.numelem s.elem_byte s.mask

or_zero : (e : ℕ) → bit_or 0 e ≡ e
or_zero e = λ i. bit_or-bitwise 0 e i

mask_behind-padded :
    (n : ℕ) (ns : List ℕ)
    → length ns ≤ 3
    → mask_behind (address_state n ns scan_start) ≡ padded 4 (n ∷ ns)
unfolding set_byte
mask_behind-padded n [] h = simp or_zero refl
mask_behind-padded n (a ∷ []) h = simp or_zero refl
mask_behind-padded n (a ∷ b ∷ []) h = simp or_zero refl
mask_behind-padded n (a ∷ b ∷ c ∷ []) h = simp or_zero refl
mask_behind-padded n (a ∷ b ∷ c ∷ d ∷ ns) h = absurd (omega arith)

-- the text of a list of addresses, and what they announce
abbrev pub print_addresses : Address → List Address → Bytes
print_addresses (n, ns) [] = print_elements n ns
print_addresses (n, ns) (a ∷ l) = print_elements n ns ++ (b',' ∷ print_addresses a l)

-- an address of class D, 224 to 239 in its first byte, is joined before it is announced on
abbrev announced : Address → List Broadcast
announced (n, ns) =
    let network = padded 4 (n ∷ ns) in
    if leb 224 (n % 256) && leb (n % 256) 239
    then add_member network ∷ broadcast_to network ∷ []
    else broadcast_to network ∷ []

abbrev pub broadcasts : Address → List Address → List Broadcast
broadcasts a [] = announced a
broadcasts a (b ∷ l) = announced a ++ broadcasts b l

to_network-padded : (n : ℕ) (ns : List ℕ) → to_network (padded 4 (n ∷ ns)) ≡ announced (n, ns)
unfolding to_network in_multicast
to_network-padded n ns = ground arith

-- no address has more than 4 elements
abbrev pub AllShort : Address → List Address → Type 0
AllShort (n, ns) [] = length ns ≤ 3
AllShort (n, ns) (a ∷ l) = (length ns ≤ 3) × AllShort a l

pub addresses_scanned :
    (a : Address) (l : List Address) (rest : Bytes)
    → AllShort a l
    → IsLast rest
    → scan_networks (print_addresses a l ++ rest) scan_start ≡ some (broadcasts a l)
addresses_scanned (n, ns) [] rest h t =
    let f = address_state-fields n ns scan_start in
    address_scanned n ns rest scan_start refl refl refl (omega arith)
    ∙ last_scanned rest (address_state n ns scan_start) t f.0 (omega (arith, f.1))
    ∙ ap (λ m. some (to_network m)) (mask_behind-padded n ns h)
    ∙ ap some (to_network-padded n ns)
addresses_scanned (n, ns) (a ∷ l) rest h t =
    let s = address_state n ns scan_start in
    let f = address_state-fields n ns scan_start in
    let more = print_addresses a l ++ rest in
    ap (λ x. scan_networks x scan_start)
      (append_assoc (print_elements n ns) (b',' ∷ print_addresses a l) rest)
    ∙ address_scanned n ns (b',' ∷ more) scan_start refl refl refl (omega (arith, h.0))
    ∙ comma_scanned more s f.0 (omega (arith, f.1, h.0))
    ∙ ap
        (λ b. scan_networks more (record scan_start { has_error = b }) >>= λ later.
          some (to_network (mask_behind s) ++ later))
        f.0
    ∙ rw (addresses_scanned a l rest h.1 t) (
        ap (λ m. some (to_network m ++ broadcasts a l)) (mask_behind-padded n ns h.0)
        ∙ ap (λ t. some (t ++ broadcasts a l)) (to_network-padded n ns))

pub append-ne-nil : (xs ys : Bytes) → xs ≢ [] → xs ++ ys ≢ []
append-ne-nil [] ys h e = h refl
append-ne-nil (x ∷ xs) ys h e = cc

print_elements-ne-nil : (n : ℕ) (ns : List ℕ) → print_elements n ns ≢ []
print_elements-ne-nil n [] = (print_digits-Prints (suc n) n (omega arith)).some_digit
print_elements-ne-nil n (m ∷ ns) =
    append-ne-nil (print_nat n) (b'.' ∷ print_elements m ns)
      (print_digits-Prints (suc n) n (omega arith)).some_digit

pub print_addresses-ne-nil : (a : Address) (l : List Address) → print_addresses a l ≢ []
print_addresses-ne-nil (n, ns) [] = print_elements-ne-nil n ns
print_addresses-ne-nil (n, ns) (a ∷ l) =
    append-ne-nil (print_elements n ns) (b',' ∷ print_addresses a l) (print_elements-ne-nil n ns)
