-- ===== src/Address/Elements.antt =====
-- The elements of an address, and what ends it.
use libivy.Base.{
  ℕ, zero, suc, ◌+◌, ◌-◌, ◌*◌, ◌%◌, ◌<◌, ◌≡◌, refl, ap, ◌∙◌, true, false, not, ◌&&◌, ◌||◌, Option,
  none, some, ◌>>=◌, List, [], ◌∷◌, ◌++◌, append-nil, ◌==◌, ltb, Bytes, arith,
}
use libivy.Discovery.{is_digit}
use libivy.Wire.{print_nat}
use libivy.Discovery.Numbers.{IsDigits, value_from}
use libivy.Wire.Numbers.{print_digits-Prints}
use libivy.Address.{
  Scan, Broadcast, to_network, all_ones, set_byte, add_digit, end_element, scan_step, scan_networks,
  ends_address,
}

-- the text of an address, and of a list of them
abbrev pub print_elements : ℕ → List ℕ → Bytes
print_elements n [] = print_nat n
print_elements n (m ∷ ns) = print_nat n ++ (b'.' ∷ print_elements m ns)

-- the mask that up to 4 elements make: their lowest 8 bits, and ones where there are no more
abbrev pub padded : ℕ → List ℕ → List ℕ
padded zero ns = []
padded (suc k) [] = 255 ∷ padded k []
padded (suc k) (n ∷ ns) = n % 256 ∷ padded k ns

-- the text ends here, or with a colon
abbrev pub IsLast : Bytes → Type 0
IsLast [] = Unit
IsLast (c ∷ rest) = c ≡ b':'

bind_some : (o : Option (List Broadcast)) → (o >>= λ l. some l) ≡ o
bind_some none = refl
bind_some (some l) = refl

-- a byte with which nothing is announced
silent :
    (c : ℕ) (p : Bytes) (s s' : Scan)
    → scan_step c s ≡ some (s', [])
    → (c == b':') ≡ false
    → scan_networks (c ∷ p) s ≡ scan_networks p s'
unfolding scan_networks
silent c p s s' e n = rw (e, n) (bind_some (scan_networks p s'))

-- the state behind the digits of a number
abbrev pub with_elem : ℕ → Scan → Scan
with_elem e s = record s { elem_byte = e }

digit_step :
    (c : ℕ) (s : Scan)
    → is_digit c ≡ true
    → s.has_error ≡ false
    → s.numdigit ≡ 0
    → s.numelem < 4
    → scan_step c s ≡ some (with_elem ((10 * s.elem_byte + (c - b'0')) % 256) s, [])
unfolding scan_step add_digit
digit_step c s d e n k =
    let t : (not s.has_error && is_digit c) ≡ true = rw (e, d) refl in
    let u : (ltb s.numdigit 3 && ltb s.numelem 4) ≡ true = ground arith in rw (t, u) refl

digits_scanned :
    (v : ℕ) (ds rest : Bytes) (s : Scan)
    → IsDigits ds
    → s.has_error ≡ false
    → s.numdigit ≡ 0
    → s.numelem < 4
    → s.elem_byte ≡ v % 256
    → scan_networks (ds ++ rest) s ≡ scan_networks rest (with_elem (value_from v ds % 256) s)
digits_scanned v [] rest s d e n k h = ap (λ b. scan_networks rest (with_elem b s)) h
digits_scanned v (c ∷ ds) rest s d e n k h =
    silent c (ds ++ rest) s (with_elem ((v * 10 + (c - b'0')) % 256) s)
      (digit_step c s d.0 e n k ∙ ap (λ b. some (with_elem b s, [])) (omega (arith, h)))
      (ground (arith, d.0))
    ∙ digits_scanned (v * 10 + (c - b'0')) ds rest (with_elem ((v * 10 + (c - b'0')) % 256) s) d.1 e
        n k refl

-- behind an element that is not the last one, and behind the last one
abbrev pub next_elem : ℕ → Scan → Scan
next_elem n s = record s {
  mask = set_byte s.numelem (n % 256) s.mask;
  numelem = s.numelem + 1;
  numdigit = 0;
  elem_byte = 0;
}

pub number_scanned :
    (n : ℕ) (rest : Bytes) (s : Scan)
    → s.has_error ≡ false
    → s.numdigit ≡ 0
    → s.numelem < 4
    → s.elem_byte ≡ 0
    → scan_networks (print_nat n ++ rest) s ≡ scan_networks rest (with_elem (n % 256) s)
number_scanned n rest s e z k h =
    let p = print_digits-Prints (suc n) n (omega arith) in
    digits_scanned 0 (print_nat n) rest s p.all_digits e z k (h ∙ omega arith)
    ∙ ap (λ v. scan_networks rest (with_elem (v % 256) s)) p.value

-- a byte that ends an element
end_step :
    (c : ℕ) (s : Scan)
    → (c == b'.' || ends_address c) ≡ true
    → s.has_error ≡ false
    → s.numelem < 4
    → scan_step c s ≡ some (end_element c s)
unfolding scan_step
end_step c s d e k =
    let t : (not s.has_error && is_digit c) ≡ false = ground (arith, d) in
    let u : (not s.has_error && (c == b'.' || ends_address c)) ≡ true = rw (e, d) refl in
    let l : ltb s.numelem 4 ≡ true = ground arith in rw (t, u, l) refl

pub dot_scanned :
    (rest : Bytes) (s : Scan)
    → s.has_error ≡ false
    → s.numelem < 4
    → scan_networks (b'.' ∷ rest) s
      ≡ scan_networks rest (record s {
        mask = set_byte s.numelem s.elem_byte s.mask;
        numelem = s.numelem + 1;
        numdigit = 0;
        elem_byte = 0;
      })
unfolding end_element
dot_scanned rest s e k = silent b'.' rest s _ (end_step b'.' s refl e k) refl

pub comma_scanned :
    (rest : Bytes) (s : Scan)
    → s.has_error ≡ false
    → s.numelem < 4
    → scan_networks (b',' ∷ rest) s ≡ (
        scan_networks rest (record s { mask = all_ones; numelem = 0; numdigit = 0; elem_byte = 0 })
        >>= λ later. some (to_network (set_byte s.numelem s.elem_byte s.mask) ++ later))
unfolding scan_networks end_element
comma_scanned rest s e k = rw (end_step b',' s refl e k) refl

-- the end of the text, or a colon, with what stands behind it
pub last_scanned :
    (rest : Bytes) (s : Scan)
    → IsLast rest
    → s.has_error ≡ false
    → s.numelem < 4
    → scan_networks rest s ≡ some (to_network (set_byte s.numelem s.elem_byte s.mask))
unfolding scan_networks end_element
last_scanned [] s l e k = rw (end_step 0 s refl e k) refl
last_scanned (c ∷ rest) s l e k = rw l (
    rw (end_step b':' s refl e k)
      (ap some (append-nil (to_network (set_byte s.numelem s.elem_byte s.mask)))))
