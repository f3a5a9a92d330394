-- ===== src/Interval/Substitution.antt =====
-- src/ivy.c: `substituteInterval` on a text of intervals with other texts between them.
use libivy.Base.{
  ℕ, zero, suc, ◌+◌, ◌-◌, ◌<◌, ◌≡◌, ◌≢◌, refl, ap, ◌∙◌, true, some, List, [], ◌∷◌, ◌++◌,
  append_assoc, leb, Bytes, length, length-append, arith,
}
use libivy.Discovery.Fields.{IsFree}
use libivy.Interval.{returns, faults}
use libivy.Interval.Generator.{buffer_size}
use libivy.Interval.Faults.{regexp_gen-faults}
use libivy.Interval.Substitute.{find_mark, int_of, put_interval, put_intervals, substitute_interval}
use libivy.Interval.Written.{
  Written, IsWritten, text_of, is_open, is_decimal, single, find_mark-free, find_mark-append,
  scan_interval-text_of, memchr-text_of, regexp_gen-single,
}

-- an interval with the text in front of it
abbrev pub Place : Type 0
Place = Bytes × Written

abbrev pub IsPlace : Place → Type 0
IsPlace p = IsFree is_open p.0 × IsWritten p.1

abbrev pub ArePlaces : List Place → Type 0
ArePlaces [] = Unit
ArePlaces (p ∷ places) = IsPlace p × ArePlaces places

-- the text of a place with what follows it, and the one that is to stand there
abbrev pub place_text : Place → Bytes → Bytes
place_text p behind = p.0 ++ (text_of p.1 ++ (b')' ∷ behind))

abbrev pub places_text : List Place → Bytes → Bytes
places_text [] behind = behind
places_text (p ∷ places) behind = place_text p (places_text places behind)

abbrev pub replaced : List Place → Bytes → Bytes
replaced [] behind = behind
replaced (p ∷ places) behind =
    p.0 ++ (single (is_decimal p.1) (int_of p.1.low) ++ replaced places behind)

-- the ends are the same number
abbrev pub AreSingle : List Place → Type 0
AreSingle [] = Unit
AreSingle (p ∷ places) = (p.1.high ≡ p.1.low) × AreSingle places

module _ (old : Bytes) where
  put_interval-single :
      (i : Written) (dst behind : Bytes)
      → IsWritten i
      → i.high ≡ i.low
      → length dst + length (single (is_decimal i) (int_of i.low)) < buffer_size
      → put_interval old dst (text_of i ++ (b')' ∷ behind))
        ≡ returns (dst ++ single (is_decimal i) (int_of i.low), behind)
  unfolding put_interval
  put_interval-single i dst behind w e h =
      rw (scan_interval-text_of i (b')' ∷ behind) w, put_interval)
        (rw e (
          rw
            (
              regexp_gen-single old (is_decimal i) (buffer_size - length dst) (int_of i.low)
                  (omega arith) (omega arith),
              put_interval,
            )
            (rw (memchr-text_of i behind w, put_interval) refl)))

  put_interval-faults :
      (i : Written) (dst behind : Bytes)
      → IsWritten i
      → int_of i.low ≢ int_of i.high
      → put_interval old dst (text_of i ++ (b')' ∷ behind)) ≡ faults
  unfolding put_interval
  put_interval-faults i dst behind w e =
      rw (scan_interval-text_of i (b')' ∷ behind) w, put_interval)
        (rw
          (
            regexp_gen-faults old (is_decimal i) (buffer_size - length dst) (int_of i.low)
                (int_of i.high) e,
            put_interval,
          )
          refl)

  find_mark-place :
      (p : Place) (behind : Bytes)
      → IsPlace p
      → find_mark (place_text p behind) ≡ some (p.0, text_of p.1 ++ (b')' ∷ behind))
  find_mark-place p behind h = find_mark-append p.0 _ h.0

  length-place_text : (p : Place) (behind : Bytes) → length behind < length (place_text p behind)
  length-place_text p behind = omega (
    arith,
    length-append p.0 (text_of p.1 ++ (b')' ∷ behind)),
    length-append (text_of p.1) (b')' ∷ behind),
  )

  length-replaced :
      (dst : Bytes) (p : Place) (rest : Bytes)
      → length dst + length (p.0 ++ (single (is_decimal p.1) (int_of p.1.low) ++ rest))
        ≡ length ((dst ++ p.0) ++ single (is_decimal p.1) (int_of p.1.low)) + length rest
  length-replaced dst p rest =
      let s = single (is_decimal p.1) (int_of p.1.low) in
      omega (
        arith,
        length-append p.0 (s ++ rest),
        length-append s rest,
        length-append (dst ++ p.0) s,
        length-append dst p.0,
      )

  put_intervals-replaced :
      (fuel : ℕ) (dst : Bytes) (places : List Place) (behind : Bytes)
      → length (places_text places behind) < fuel
      → ArePlaces places
      → AreSingle places
      → IsFree is_open behind
      → length dst + length (replaced places behind) < buffer_size
      → put_intervals fuel old dst (places_text places behind)
        ≡ returns (dst ++ replaced places behind)
  unfolding put_intervals
  put_intervals-replaced zero dst places behind f a o b r = absurd (omega arith)
  put_intervals-replaced (suc fuel) dst [] behind f a o b r =
      rw (find_mark-free behind b, put_intervals) (ground arith)
  put_intervals-replaced (suc fuel) dst (p ∷ places) behind f a o b r =
      let later = places_text places behind in
      let s = single (is_decimal p.1) (int_of p.1.low) in
      let rest = replaced places behind in
      let l = length-replaced dst p rest in
      let k = length-append dst p.0 in
      let j = length-append (dst ++ p.0) s in
      let fits : leb (length dst + length p.0) buffer_size ≡ true = ground arith in
      rw (find_mark-place p later a.0, put_intervals)
        (rw fits (
          rw (put_interval-single p.1 (dst ++ p.0) later a.0.1 o.0 (omega arith)) (
            put_intervals-replaced fuel ((dst ++ p.0) ++ s) places behind
              (omega (arith, length-place_text p later)) a.1 o.1 b (omega arith)
            ∙ ap returns (append_assoc (dst ++ p.0) s rest ∙ append_assoc dst p.0 (s ++ rest)))))

  put_intervals-faults :
      (fuel : ℕ) (dst : Bytes) (places : List Place) (p : Place) (behind : Bytes)
      → length (places_text places (place_text p behind)) < fuel
      → ArePlaces places
      → AreSingle places
      → IsPlace p
      → int_of p.1.low ≢ int_of p.1.high
      → length dst + length (replaced places p.0) < buffer_size
      → put_intervals fuel old dst (places_text places (place_text p behind)) ≡ faults
  unfolding put_intervals
  put_intervals-faults zero dst places p behind f a o b r m = absurd (omega arith)
  put_intervals-faults (suc fuel) dst [] p behind f a o b r m =
      rw (find_mark-place p behind b, put_intervals)
        (rw (put_interval-faults p.1 (dst ++ p.0) behind b.1 r) (ground arith))
  put_intervals-faults (suc fuel) dst (q ∷ places) p behind f a o b r m =
      let later = places_text places (place_text p behind) in
      let s = single (is_decimal q.1) (int_of q.1.low) in
      let l = length-replaced dst q (replaced places p.0) in
      let k = length-append dst q.0 in
      let j = length-append (dst ++ q.0) s in
      let fits : leb (length dst + length q.0) buffer_size ≡ true = ground arith in
      rw (find_mark-place q later a.0, put_intervals)
        (rw fits (
          rw (put_interval-single q.1 (dst ++ q.0) later a.0.1 o.0 (omega arith)) (
            put_intervals-faults fuel ((dst ++ q.0) ++ s) places p behind
              (omega (arith, length-place_text q later)) a.1 o.1 b r (omega arith))))

  -- In a text in which no `(` stands outside of the intervals, and every interval has the same
  -- number of 32 bits for its ends, each is replaced by the regexp of its number, and all else
  -- stays as it is, however many there are, if the outcome has fewer than 8192 bytes.
  pub substitute_interval-replaced :
      (places : List Place) (behind : Bytes)
      → ArePlaces places
      → AreSingle places
      → IsFree is_open behind
      → length (replaced places behind) < buffer_size
      → substitute_interval old (places_text places behind) ≡ returns (replaced places behind)
  unfolding substitute_interval
  substitute_interval-replaced [] behind a o b r =
      rw (find_mark-free behind b, substitute_interval) refl
  substitute_interval-replaced (p ∷ places) behind a o b r =
      rw (find_mark-place p (places_text places behind) a.0, substitute_interval)
        (put_intervals-replaced (suc (length (places_text (p ∷ places) behind))) [] (p ∷ places)
          behind (omega arith) a o b (omega arith))

  -- A text with an interval whose ends are not the same makes `substituteInterval` leave an array,
  -- whatever stands behind that interval, and also behind intervals whose ends are the same, as
  -- long as what is made of those has fewer than 8192 bytes.
  substitute_interval-faults :
      (places : List Place) (p : Place) (behind : Bytes)
      → ArePlaces places
      → AreSingle places
      → IsPlace p
      → int_of p.1.low ≢ int_of p.1.high
      → length (replaced places p.0) < buffer_size
      → substitute_interval old (places_text places (place_text p behind)) ≡ faults
  unfolding substitute_interval
  substitute_interval-faults [] p behind a o b r m =
      rw (find_mark-place p behind b, substitute_interval)
        (put_intervals-faults (suc (length (place_text p behind))) [] [] p behind (omega arith) a o
          b r (omega arith))
  substitute_interval-faults (q ∷ places) p behind a o b r m =
      rw (find_mark-place q (places_text places (place_text p behind)) a.0, substitute_interval)
        (put_intervals-faults (suc (length (places_text (q ∷ places) (place_text p behind)))) []
          (q ∷ places) p behind (omega arith) a o b r (omega arith))
