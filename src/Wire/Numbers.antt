-- ===== src/Wire/Numbers.antt =====
-- An `int` as `printf` writes it and `sscanf` reads it.
use libivy.Base.{
  ℕ, zero, suc, ◌+◌, ◌-◌, ◌*◌, ◌/◌, ◌%◌, ◌^◌, ◌<◌, ◌≡◌, ◌≢◌, refl, ap, ◌∙◌, true, false, ◌&&◌, ◌||◌,
  some, [], ◌∷◌, ◌++◌, ◌==◌, ltb, leb, Bytes, arith, Bool-cases, inl, inr,
}
use libivy.Discovery.{is_digit, starts_digit}
use libivy.Discovery.Numbers.{IsDigits, value_from, starts_digit-append}
use libivy.Discovery.Fields.{IsFree}
use libivy.Wire.{
  print_digits, print_nat, print_int, skip_spaces, scan_digits, scan_unsigned, scan_signed,
  scan_int,
}

value_from-append :
    (acc : ℕ) (xs ys : Bytes) → value_from acc (xs ++ ys) ≡ value_from (value_from acc xs) ys
value_from-append acc [] ys = refl
value_from-append acc (x ∷ xs) ys = value_from-append (acc * 10 + (x - b'0')) xs ys

pub IsDigits-append : (xs ys : Bytes) → IsDigits xs → IsDigits ys → IsDigits (xs ++ ys)
IsDigits-append [] ys h k = k
IsDigits-append (x ∷ xs) ys h k = (h.0, IsDigits-append xs ys h.1 k)

-- the digits that stand for a number
pub record Prints (n : ℕ) (ds : Bytes) : Type 0 where
  pub all_digits : IsDigits ds
  pub value : value_from 0 ds ≡ n
  pub some_digit : ds ≢ []

snoc-ne-nil : (xs : Bytes) (y : ℕ) → xs ++ (y ∷ []) ≢ []
snoc-ne-nil [] y e = cc
snoc-ne-nil (x ∷ xs) y e = cc

pub print_digits-Prints : (fuel n : ℕ) → n < fuel → Prints n (print_digits fuel n)
unfolding print_digits
print_digits-Prints zero n h = absurd (omega arith)
print_digits-Prints (suc fuel) n h = elim (Bool-cases (ltb n 10)) [
  | inl e ↦
      rw e (record { all_digits = (ground arith, tt); value = ground arith; some_digit = λ q. cc })
  | inr e ↦
      let r = print_digits-Prints fuel (n / 10) (ground arith) in
      let ds = print_digits fuel (n / 10) in
      rw e (record {
        all_digits = IsDigits-append ds ((b'0' + n % 10) ∷ []) r.all_digits (ground arith, tt);
        value = value_from-append 0 ds ((b'0' + n % 10) ∷ []) ∙ omega (arith, r.value);
        some_digit = snoc-ne-nil ds (b'0' + n % 10);
      })
]

pub scan_digits-value :
    (acc : ℕ) (ds rest : Bytes)
    → IsDigits ds
    → starts_digit rest ≡ false
    → scan_digits acc (ds ++ rest) ≡ (value_from acc ds, rest)
unfolding scan_digits starts_digit
scan_digits-value acc [] [] d s = refl
scan_digits-value acc [] (c ∷ rest) d s = rw s
scan_digits-value acc (c ∷ ds) rest d s =
    rw d.0 (scan_digits-value (acc * 10 + (c - b'0')) ds rest d.1 s)

scan_unsigned-print :
    (sign : ℕ → ℕ) (n : ℕ) (rest : Bytes)
    → n < 2 ^ 32
    → starts_digit rest ≡ false
    → scan_unsigned sign (print_nat n ++ rest) ≡ some (sign n, rest)
unfolding scan_unsigned
scan_unsigned-print sign n rest h s =
    let p = print_digits-Prints (suc n) n (omega arith) in
    rw
      (
        starts_digit-append (print_nat n) rest p.all_digits p.some_digit,
        scan_digits-value 0 (print_nat n) rest p.all_digits s,
        p.value,
      )
      (ap (λ k. some (sign k, rest)) (omega arith))

-- a digit is neither a blank nor a sign
scan_signed-digit : (p : Bytes) → starts_digit p ≡ true → scan_int p ≡ scan_unsigned (λ n. n) p
unfolding scan_int scan_signed skip_spaces starts_digit
scan_signed-digit [] h = cc
scan_signed-digit (c ∷ p) h =
    rw
      (
        (let t : (c == b' ' || (leb 9 c && leb c 13)) ≡ false = ground arith in t),
        (let t : (c == b'-') ≡ false = ground arith in t),
        (let t : (c == b'+') ≡ false = ground arith in t),
      )
      refl

scan_int-print_nat :
    (n : ℕ) (rest : Bytes)
    → n < 2 ^ 32
    → starts_digit rest ≡ false
    → scan_int (print_nat n ++ rest) ≡ some (n, rest)
scan_int-print_nat n rest h s =
    let p = print_digits-Prints (suc n) n (omega arith) in
    scan_signed-digit (print_nat n ++ rest)
      (starts_digit-append (print_nat n) rest p.all_digits p.some_digit)
    ∙ scan_unsigned-print (λ k. k) n rest h s

scan_int-minus : (p : Bytes) → scan_int (b'-' ∷ p) ≡ scan_unsigned (λ n. (2 ^ 32 - n) % 2 ^ 32) p
unfolding scan_int scan_signed skip_spaces
scan_int-minus p = refl

-- A printed `int` is read as it was, up to what is no digit.
pub scan_int-print_int :
    (n : ℕ) (rest : Bytes)
    → n < 2 ^ 32
    → starts_digit rest ≡ false
    → scan_int (print_int n ++ rest) ≡ some (n, rest)
unfolding print_int
scan_int-print_int n rest h s = elim (Bool-cases (ltb n (2 ^ 31))) [
  | inl e ↦ rw e (scan_int-print_nat n rest h s)
  | inr e ↦ rw e (
      scan_int-minus (print_nat (2 ^ 32 - n) ++ rest)
      ∙ scan_unsigned-print (λ k. (2 ^ 32 - k) % 2 ^ 32) (2 ^ 32 - n) rest (ground arith) s
      ∙ ap (λ k. some (k, rest)) (ground arith))
]

pub scan_int-space : (p : Bytes) → scan_int (b' ' ∷ p) ≡ scan_int p
unfolding scan_int skip_spaces
scan_int-space p = refl

-- what is no digit and no sign is not printed
module _ (t : ℕ) (d : is_digit t ≡ false) (m : (b'-' == t) ≡ false) where
  IsDigits-IsFree : (ds : Bytes) → IsDigits ds → IsFree (λ c. c == t) ds
  IsDigits-IsFree [] h = tt
  IsDigits-IsFree (c ∷ ds) h = (ground arith, IsDigits-IsFree ds h.1)

  pub print_int-IsFree : (n : ℕ) → IsFree (λ c. c == t) (print_int n)
  unfolding print_int
  print_int-IsFree n =
      let p = print_digits-Prints (suc n) n (omega arith) in
      let q = print_digits-Prints (suc (2 ^ 32 - n)) (2 ^ 32 - n) (omega arith) in
      elim (Bool-cases (ltb n (2 ^ 31))) [
        | inl e ↦ rw e (IsDigits-IsFree (print_nat n) p.all_digits)
        | inr e ↦ rw e (m, IsDigits-IsFree (print_nat (2 ^ 32 - n)) q.all_digits)
      ]
