-- ===== src/Buffer/Tests.antt =====
-- A buffer that is too small.
use libivy.Base.{
  ℕ, suc, ◌+◌, refl, Option, none, some, [], ◌∷◌, Bytes, length, ltb, if◌then◌else◌, arith,
  Bool-cases, inl, inr,
}
use libivy.Buffer.{IvyBuffer, with_data, make_message}
use libivy.Buffer.Growth.{IsPrintf, IsBuffer, Printed, make_message-Printed}

-- a library that answers a negative number where there is no room
abbrev old : Bytes → ℕ → Option ℕ
old text room = if ltb (length text) room then some (length text) else none

old-IsPrintf : (text : Bytes) → IsPrintf text (old text)
old-IsPrintf text = record {
  counts = λ room. elim (Bool-cases (ltb (length text) room)) [
    | inl e ↦ rw e (inr refl)
    | inr e ↦ rw e (inl refl)
  ];
  fits = λ room h. ground (arith, h);
}

abbrev small : IvyBuffer
small = record { bytes = b'a' ∷ []; size = 2; offset = 1 }

abbrev greeting : Bytes
greeting = b'h' ∷ b'e' ∷ b'l' ∷ b'l' ∷ b'o' ∷ []

small-IsBuffer : IsBuffer (with_data small)
unfolding with_data
small-IsBuffer = record { counted = refl; has_room = omega arith }

make_message-Printed_example :
    Printed greeting (with_data small) (
      make_message greeting (old greeting) (suc ((with_data small).offset + length greeting)) small)
make_message-Printed_example =
    make_message-Printed greeting (old greeting) (old-IsPrintf greeting) small small-IsBuffer
      (unfold with_data in omega arith)
