-- ===== src/Registry/Mirror.antt =====
-- src/ivy.c, with OPENMP: the cache of the dictionary against the dictionary.
use libivy.Base.{
  ℕ, ◌+◌, ◌-◌, ◌*◌, ◌≤◌, ◌<◌, ◌≡◌, refl, ap, sym, ◌∙◌, Bool, true, false, ◌&&◌, some, ◌>>=◌, List,
  [], ◌∷◌, ◌++◌, append_assoc, append-nil, length, length-append, take, drop, leb, ltb, arith,
  take-append-ge, length-take, length-drop, ltb→lt, Bool-cases, inl, inr,
}
use libivy.Registry.Cache.{
  Cache, put_at, fill_from, counted, regenerate, add_reg, Change, changed, appended, change,
  change_all,
}

module _ {A : Type 0} where
  -- The entries that `IvySendMsg` runs over are those of the dictionary, and the array has room.
  pub record Mirrors (dict : List A) (c : Cache A) : Type 0 where
    pub entries : take c.num_ptr c.msg_ptr_array ≡ dict
    pub sized : length c.msg_ptr_array ≡ c.size
    pub counts : c.num_ptr ≡ length dict
    pub in_array : c.num_ptr ≤ c.size

  -- the array is as long as its size says, and mirrors the dictionary if nothing is amiss
  pub record Holds (fresh : Bool) (dict : List A) (c : Cache A) : Type 0 where
    pub in_size : length c.msg_ptr_array ≡ c.size
    pub mirrors : fresh ≡ true → Mirrors dict c

  length-put :
      (i : ℕ) (x : A) (a : List A)
      → i < length a
      → length (take i a ++ (x ∷ drop (i + 1) a)) ≡ length a
  length-put i x a h =
      omega (
        arith,
        length-append (take i a) (x ∷ drop (i + 1) a),
        length-take i a,
        length-drop (i + 1) a,
      )

  take-put :
      (i : ℕ) (x : A) (a : List A)
      → i < length a
      → take (i + 1) (take i a ++ (x ∷ drop (i + 1) a)) ≡ take i a ++ (x ∷ [])
  take-put i x a h = take-append-ge (i + 1) 1 (take i a) _ (omega (arith, length-take i a))

  -- the array after the loop: as long as it was, with the entries behind those in front of `count`
  pub record Fills (count : ℕ) (dict a out : List A) : Type 0 where
    pub entries : take (count + length dict) out ≡ take count a ++ dict
    pub same_length : length out ≡ length a

  fill_from-Fills :
      (count : ℕ) (dict a : List A)
      → count + length dict ≤ length a
      → (out : List A) × (fill_from count dict a ≡ some out) × Fills count dict a out
  unfolding fill_from put_at
  fill_from-Fills count [] a h = (
    a,
    refl,
    record {
      entries = ap (λ k. take k a) {y = count} (omega arith) ∙ sym (append-nil (take count a));
      same_length = refl;
    },
  )
  fill_from-Fills count (e ∷ dict) a h =
      let a' = take count a ++ (e ∷ drop (count + 1) a) in
      let l = length-put count e a (omega arith) in
      let (out, q, r) = fill_from-Fills (count + 1) dict a' (omega arith) in
      let t : ltb count (length a) ≡ true = ground arith in
      (
        out,
        rw t q,
        record {
          entries =
              ap (λ k. take k out) {y = count + 1 + length dict} (omega arith)
              ∙ r.entries
              ∙ ap (λ xs. xs ++ dict) (take-put count e a (omega arith))
              ∙ append_assoc (take count a) (e ∷ []) dict;
          same_length = r.same_length ∙ l;
        },
      )

  module _ (realloc : List A → ℕ → List A)
      (has_length : (a : List A) (n : ℕ) → length (realloc a n) ≡ n) where
    -- the cache as `counted` leaves it
    record Roomy (dict : List A) (c : Cache A) : Type 0 where
      sized : length c.msg_ptr_array ≡ c.size
      counts : c.num_ptr ≡ length dict
      in_array : length dict ≤ c.size

    counted-Roomy :
        (dict : List A) (c : Cache A)
        → length c.msg_ptr_array ≡ c.size
        → Roomy dict (counted realloc dict c)
    unfolding counted
    counted-Roomy dict c h = elim (Bool-cases (leb c.size (length dict))) [
      | inl t ↦ rw t (record {
        sized = has_length c.msg_ptr_array (length dict * 2 + 128);
        counts = refl;
        in_array = omega arith;
      })
      | inr t ↦ rw t (record { sized = h; counts = refl; in_array = ground arith })
    ]

    fills-Mirrors :
        (dict : List A) (c : Cache A)
        → Roomy dict c
        → (c' : Cache A) × ((fill_from 0 dict c.msg_ptr_array >>= λ a.
              some (record c { msg_ptr_array = a }))
            ≡ some c')
          × Mirrors dict c'
    fills-Mirrors dict c r =
        let (out, q, f) =
          fill_from-Fills 0 dict c.msg_ptr_array (omega (arith, r.sized, r.in_array)) in
        (
          record c { msg_ptr_array = out },
          rw q refl,
          record {
            entries =
                ap (λ k. take k out) {y = 0 + length dict} (omega (arith, r.counts)) ∙ f.entries;
            sized = f.same_length ∙ r.sized;
            counts = r.counts;
            in_array = omega (arith, r.counts, r.in_array);
          },
        )

    regenerate-Mirrors :
        (dict : List A) (c : Cache A)
        → length c.msg_ptr_array ≡ c.size
        → (c' : Cache A) × (regenerate realloc dict c ≡ some c') × Mirrors dict c'
    unfolding regenerate
    regenerate-Mirrors dict c h =
        fills-Mirrors dict (counted realloc dict c) (counted-Roomy dict c h)

    add_reg-Mirrors :
        (e : A) (dict : List A) (c : Cache A)
        → Mirrors dict c
        → (c' : Cache A) × (add_reg realloc e (dict ++ (e ∷ [])) c ≡ some c')
          × Mirrors (dict ++ (e ∷ [])) c'
    unfolding add_reg
    add_reg-Mirrors e dict c m =
        let d = dict ++ (e ∷ []) in
        let l = length-append dict (e ∷ []) in
        let a = c.msg_ptr_array in
        elim (Bool-cases (leb c.size (length d))) [
          | inl t ↦ rw t (fills-Mirrors d (counted realloc d c) (counted-Roomy d c m.sized))
          | inr t ↦
              let i = length d - 1 in
              let a' = take i a ++ (e ∷ drop (i + 1) a) in
              let kept : counted realloc d c ≡ record c { num_ptr = length d } =
                unfold counted in rw t refl in
              let inside : ltb i (length a) ≡ true = ground (arith, m.sized) in
              let written : put_at a i e ≡ some a' = unfold put_at in rw inside refl in
              let k = length-put i e a (omega (arith, m.sized, ltb→lt i (length a) inside)) in
              (
                record c { num_ptr = length d; msg_ptr_array = a' },
                rw t (rw kept (rw written refl)),
                record {
                  entries =
                      ap (λ j. take j a') {x = length d} {y = i + 1} (omega arith)
                      ∙ take-put i e a (omega (arith, ltb→lt i (length a) inside))
                      ∙ ap (λ j. take j a ++ (e ∷ [])) {x = i} {y = c.num_ptr}
                          (omega (arith, m.counts))
                      ∙ ap (λ xs. xs ++ (e ∷ [])) m.entries;
                  sized = k ∙ m.sized;
                  counts = refl;
                  in_array = ground arith;
                },
              )
        ]

    -- writes inside of the array, whether it mirrors the dictionary or not
    add_reg-returns :
        (e : A) (dict : List A) (c : Cache A)
        → length c.msg_ptr_array ≡ c.size
        → (c' : Cache A) × (add_reg realloc e (dict ++ (e ∷ [])) c ≡ some c')
          × (length c'.msg_ptr_array ≡ c'.size)
    unfolding add_reg
    add_reg-returns e dict c h =
        let d = dict ++ (e ∷ []) in
        let l = length-append dict (e ∷ []) in
        let a = c.msg_ptr_array in
        elim (Bool-cases (leb c.size (length d))) [
          | inl t ↦
              let (c', q, m) = fills-Mirrors d (counted realloc d c) (counted-Roomy d c h) in
              rw t (c', q, m.sized)
          | inr t ↦
              let i = length d - 1 in
              let a' = take i a ++ (e ∷ drop (i + 1) a) in
              let kept : counted realloc d c ≡ record c { num_ptr = length d } =
                unfold counted in rw t refl in
              let inside : ltb i (length a) ≡ true = ground (arith, h) in
              let written : put_at a i e ≡ some a' = unfold put_at in rw inside refl in
              (
                record c { num_ptr = length d; msg_ptr_array = a' },
                rw t (rw kept (rw written refl)),
                length-put i e a (omega (arith, ltb→lt i (length a) inside)) ∙ h,
              )
        ]

    -- the dictionary behind changes
    abbrev pub behind : List (Change A) → List A → List A
    behind [] dict = dict
    behind (changed d ∷ changes) dict = behind changes d
    behind (appended ended e ∷ changes) dict = behind changes (dict ++ (e ∷ []))

    -- no entry has been added, since the last regeneration, by a client that has not ended
    abbrev pub is_fresh : Bool → List (Change A) → Bool
    is_fresh fresh [] = fresh
    is_fresh fresh (changed d ∷ changes) = is_fresh true changes
    is_fresh fresh (appended ended e ∷ changes) = is_fresh (fresh && ended) changes

    add_reg-Holds :
        (fresh : Bool) (e : A) (dict : List A) (c : Cache A)
        → Holds fresh dict c
        → (c' : Cache A) × (add_reg realloc e (dict ++ (e ∷ [])) c ≡ some c')
          × Holds (fresh && true) (dict ++ (e ∷ [])) c'
    add_reg-Holds true e dict c h =
        let (c', q, m) = add_reg-Mirrors e dict c (h.mirrors refl) in
        (c', q, record { in_size = m.sized; mirrors = λ t. m })
    add_reg-Holds false e dict c h =
        let (c', q, l) = add_reg-returns e dict c h.in_size in
        (c', q, record { in_size = l; mirrors = λ t. cc })

    and_false : (b : Bool) → (b && false) ≡ true → ⊥
    and_false true t = cc
    and_false false t = cc

    -- However the dictionary changes, by clients that have sent their EndRegexp or have not, and
    -- with a regeneration behind each change but that of an entry added behind the others: the
    -- functions write inside of the array. What `IvySendMsg` runs over is the dictionary, in its
    -- order, if since the last regeneration no entry has been added by a client that has not sent
    -- its EndRegexp.
    pub change_all-Mirrors :
        (changes : List (Change A)) (fresh : Bool) (dict : List A) (c : Cache A)
        → Holds fresh dict c
        → (c' : Cache A) × (change_all realloc changes (dict, c) ≡ some (behind changes dict, c'))
          × Holds (is_fresh fresh changes) (behind changes dict) c'
    unfolding change_all change
    change_all-Mirrors [] fresh dict c h = (c, refl, h)
    change_all-Mirrors (changed d ∷ changes) fresh dict c h =
        let (c', q, m) = regenerate-Mirrors d c h.in_size in
        let (c'', r, k) =
          change_all-Mirrors changes true d c' (record { in_size = m.sized; mirrors = λ t. m }) in
        (c'', rw q r, k)
    change_all-Mirrors (appended true e ∷ changes) fresh dict c h =
        let (c', q, k) = add_reg-Holds fresh e dict c h in
        let (c'', r, k') = change_all-Mirrors changes (fresh && true) (dict ++ (e ∷ [])) c' k in
        (c'', rw q r, k')
    change_all-Mirrors (appended false e ∷ changes) fresh dict c h =
        let (c'', r, k) =
          change_all-Mirrors changes (fresh && false) (dict ++ (e ∷ [])) c
            (record { in_size = h.in_size; mirrors = λ t. absurd (and_false fresh t) }) in
        (c'', r, k)
