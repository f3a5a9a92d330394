-- ===== src/Interval/Written.antt =====
-- src/ivy.c: the intervals of a text, as `substituteInterval` finds them.
use libivy.Base.{
  ℕ, ◌-◌, ◌^◌, ◌<◌, ◌≤◌, ◌≡◌, refl, ap, ◌∙◌, Bool, true, false, not, none, some, [], ◌∷◌, ◌++◌,
  append_assoc, ◌==◌, Bytes, length, length-append, take_all, bytes_eq, ℤ, pos, negsuc, int_eq,
  int_ltb, arith,
}
use libivy.Discovery.{is_digit, starts_digit}
use libivy.Discovery.Fields.{IsFree}
use libivy.Wire.{print_int}
use libivy.Wire.Numbers.{scan_int-print_int, print_int-IsFree}
use libivy.Wire.Lines.{IsFree-append, memchr-append}
use libivy.Socket.Receive.{memchr}
use libivy.Interval.{returns, check_and_return, add_loc, print_long}
use libivy.Interval.Generator.{
  regexp_gen, regexp_gen_on, gen_branches, decimals, open_group, no_more_digits, buffer_size,
}
use libivy.Interval.Substitute.{mark, find_mark, int_of, skip_sharp, scan_interval}

abbrev pub is_open : ℕ → Bool
is_open c = c == b'('

pub find_mark-free : (s : Bytes) → IsFree is_open s → find_mark s ≡ none
unfolding find_mark bytes_eq
find_mark-free [] h = refl
find_mark-free (c ∷ s) h =
    let e : (b'(' == c) ≡ false = ground arith in rw e (rw (find_mark-free s h.1) refl)

pub find_mark-append :
    (before s : Bytes)
    → IsFree is_open before
    → find_mark (before ++ (mark ++ s)) ≡ some (before, mark ++ s)
unfolding find_mark bytes_eq
find_mark-append [] s h = refl
find_mark-append (c ∷ before) s h =
    let e : (b'(' == c) ≡ false = ground arith in rw e (rw (find_mark-append before s h.1) refl)

-- The text of an interval up to its `)`: two ends of 32 bits, and the mark of its kind.
pub record Written : Type 0 where
  pub low : ℕ
  pub high : ℕ
  pub kind : ℕ

abbrev pub IsWritten : Written → Type 0
IsWritten i =
    (i.low < 2 ^ 32) × (i.high < 2 ^ 32) × (is_digit i.kind ≡ false) × ((i.kind == b')') ≡ false)

abbrev pub text_of : Written → Bytes
text_of i = mark ++ (print_int i.low ++ (b'#' ∷ (print_int i.high ++ (i.kind ∷ []))))

abbrev pub is_decimal : Written → Bool
is_decimal i = not (i.kind == b'i')

text_of-append :
    (i : Written) (s : Bytes)
    → text_of i ++ s ≡ mark ++ (print_int i.low ++ (b'#' ∷ (print_int i.high ++ (i.kind ∷ s))))
text_of-append i s =
    ap (λ t. mark ++ t)
      (append_assoc (print_int i.low) (b'#' ∷ (print_int i.high ++ (i.kind ∷ []))) s
        ∙ ap (λ t. print_int i.low ++ (b'#' ∷ t)) (append_assoc (print_int i.high) (i.kind ∷ []) s))

pub scan_interval-text_of :
    (i : Written) (s : Bytes)
    → IsWritten i
    → scan_interval (text_of i ++ s)
      ≡ some (record { low = int_of i.low; high = int_of i.high; with_decimal = is_decimal i })
unfolding scan_interval skip_sharp starts_digit
scan_interval-text_of i s w = rw (text_of-append i s) (
    rw
      (scan_int-print_int i.low (b'#' ∷ (print_int i.high ++ (i.kind ∷ s))) w.0 refl, scan_interval)
      (rw (scan_int-print_int i.high (i.kind ∷ s) w.1 w.2, scan_interval) refl))

pub memchr-text_of :
    (i : Written) (behind : Bytes)
    → IsWritten i
    → memchr b')' (text_of i ++ (b')' ∷ behind)) ≡ some (text_of i, behind)
memchr-text_of i behind w =
    let free =
      IsFree-append (λ c. c == b')') (print_int i.high) (i.kind ∷ [])
        (print_int-IsFree b')' refl refl i.high) (w.3, tt) in
    memchr-append b')' (text_of i) behind (
      refl,
      (
        refl,
        (
          refl,
          IsFree-append (λ c. c == b')') (print_int i.low)
              (b'#' ∷ (print_int i.high ++ (i.kind ∷ []))) (print_int-IsFree b')' refl refl i.low)
              (refl, free),
        ),
      ),
    )

-- what stands for an interval of one number
abbrev pub single : Bool → ℤ → Bytes
single flottant n = open_group ++ (print_long n ++ ((decimals flottant).inside ++ no_more_digits))

int_eq_refl : (n : ℤ) → (int_eq n n ≡ true) × (int_ltb n n ≡ false)
int_eq_refl (pos n) = (ground arith, ground arith)
int_eq_refl (negsuc n) = (ground arith, ground arith)

add_loc-fits :
    (size : ℕ) (loc text : Bytes)
    → length (loc ++ text) < size
    → add_loc size loc text ≡ loc ++ text
unfolding add_loc
add_loc-fits size loc text h = take_all (size - 1) (loc ++ text) (omega arith)

pub check_and_return-fits :
    (buflen : ℕ) (loc : Bytes) → length loc < buflen → check_and_return loc buflen ≡ returns loc
unfolding check_and_return
check_and_return-fits buflen loc h = ground arith

pub regexp_gen-single :
    (old : Bytes) (flottant : Bool) (buflen : ℕ) (n : ℤ)
    → buflen ≤ buffer_size
    → length (single flottant n) < buflen
    → regexp_gen old flottant buflen n n ≡ returns (single flottant n)
unfolding regexp_gen regexp_gen_on gen_branches
regexp_gen-single old flottant buflen n k h =
    let e = int_eq_refl n in
    let number = print_long n ++ (decimals flottant).inside in
    let t : open_group ++ (number ++ no_more_digits) ≡ single flottant n =
      ap (λ t. open_group ++ t)
        (append_assoc (print_long n) (decimals flottant).inside no_more_digits) in
    let l = length-append number no_more_digits in
    rw e.1 (
      rw e.0 (
        rw (add_loc-fits buffer_size open_group number (omega (arith, l, ap length t))) (
          rw
            (add_loc-fits buffer_size (open_group ++ number) no_more_digits
              (omega (arith, ap length t)))
            (rw t (check_and_return-fits buflen (single flottant n) h)))))
