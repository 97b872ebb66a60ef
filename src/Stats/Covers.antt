-- ===== src/Stats/Covers.antt =====
-- What the statistics of a partition say about every payload that went into them.
use vdb_rs.Prelude.{
  ◌≤◌, ◌≡◌, true, false, List, [], ◌∷◌, some, length, arith, ◌⊎◌, inl, inr, Bool-cases,
  Option-cases, subst,
}
use vdb_rs.Prelude.Assoc.{
  Str, string_eq, lookup, contains, lookup-insert, eq_refl, str_eq_iff, str_eq,
}
use vdb_rs.Prelude.Float.{Float, fle}
use vdb_rs.Payload.{Value, Payload, IsFiniteValue, IsFinitePayload}
use vdb_rs.Stats.Defs.{
  PartitionStats, max_strings, new, add_string, widen, range_entry, string_entry, update_entry,
  update,
}

abbrev pub InOrFull : List Str → Str → Type 0
InOrFull set s = (contains set s ≡ true) ⊎ (max_strings ≤ length set)

add_string_keeps : (t s : Str) (set : List Str) → InOrFull set s → InOrFull (add_string t set) s
unfolding add_string contains
add_string_keeps t s set (inl h) = ground arith
add_string_keeps t s set (inr h) = ground arith

add_string_self : (s : Str) (set : List Str) → InOrFull (add_string s set) s
unfolding add_string contains
add_string_self s set = ground (arith, eq_refl s)

-- A set never holds more than the limit.
add_string-length-le :
    (s : Str) (set : List Str) → length set ≤ max_strings → length (add_string s set) ≤ max_strings
unfolding add_string
add_string-length-le s set h = ground arith

module _ {N : Type 0} ⦃fl : Float N⦄ where
  abbrev pub InRange : N × N → N → Type 0
  InRange r n = (fle r.0 n ≡ true) × (fle n r.1 ≡ true)

  -- The number lies in the range that the statistics hold for the field.
  abbrev pub CoversNumber : PartitionStats N → Str → N → Type 0
  CoversNumber st k n = (r : N × N) × (lookup k st.num_ranges ≡ some r) × InRange r n

  -- The string is in the set that the statistics hold for the field, or the set is full.
  abbrev pub CoversString : PartitionStats N → Str → Str → Type 0
  CoversString st k s = (set : List Str) × (lookup k st.string_values ≡ some set) × InOrFull set s

  -- Both ends of every range are numbers.
  abbrev pub IsRanged : PartitionStats N → Type 0
  IsRanged st =
      (k : Str) (r : N × N)
      → lookup k st.num_ranges ≡ some r
      → (fl.is_nan r.0 ≡ false) × (fl.is_nan r.1 ≡ false)

  widen_ordered :
      (n : N) (r : N × N)
      → (fl.is_nan r.0 ≡ false) × (fl.is_nan r.1 ≡ false)
      → (fl.is_nan (widen n r).0 ≡ false) × (fl.is_nan (widen n r).1 ≡ false)
  unfolding widen
  widen_ordered n (lo, hi) h = ground arith

  range_entry_ordered :
      (st : PartitionStats N) (k : Str)
      → IsRanged st
      → (fl.is_nan (range_entry st k).0 ≡ false) × (fl.is_nan (range_entry st k).1 ≡ false)
  range_entry_ordered st k h = elim (Option-cases (lookup k st.num_ranges)) [
    | inl e ↦ rw e (fl.max_ordered, fl.min_ordered)
    | inr (r, e) ↦ rw e (h k r e)
  ]

  pub new-IsRanged : IsRanged new
  unfolding new lookup
  new-IsRanged k r h = cc

  update_entry-IsRanged :
      (st : PartitionStats N) (e : Str × Value N) → IsRanged st → IsRanged (update_entry st e)
  unfolding update_entry
  update_entry-IsRanged st (j, Value.number n) h k r q = ground (
    arith,
    lookup-insert j k (widen n (range_entry st j)) st.num_ranges,
    h k r,
    widen_ordered n (range_entry st j) (range_entry_ordered st j h),
  )
  update_entry-IsRanged st (j, Value.string s) h k r q = h k r q
  update_entry-IsRanged st (j, _) h k r q = h k r q

  pub update-IsRanged :
      (st : PartitionStats N) (p : Payload N) → IsRanged st → IsRanged (update st p)
  unfolding update
  update-IsRanged st [] h = h
  update-IsRanged st (e ∷ p) h =
      update-IsRanged (update_entry st e) p (update_entry-IsRanged st e h)

  -- A wider range covers what the narrower one did, and the number that widened it.
  widen_keeps : (n m : N) (r : N × N) → InRange r n → InRange (widen m r) n
  unfolding widen
  widen_keeps n m (lo, hi) h = ground arith

  widen_self :
      (n : N) (r : N × N)
      → fl.is_nan n ≡ false
      → (fl.is_nan r.0 ≡ false) × (fl.is_nan r.1 ≡ false)
      → InRange (widen n r) n
  unfolding widen
  widen_self n (lo, hi) h k = ground arith

  update_entry-CoversNumber :
      (st : PartitionStats N) (e : Str × Value N) (k : Str) (n : N)
      → CoversNumber st k n
      → CoversNumber (update_entry st e) k n
  unfolding update_entry
  update_entry-CoversNumber st (j, Value.number m) k n (r, q, h) = elim (Bool-cases (str_eq j k)) [
    | inl same ↦
        let e : j ≡ k = (str_eq_iff j k).0 same in
        (
          widen m r,
          ground (arith, lookup-insert j k (widen m (range_entry st j)) st.num_ranges),
          widen_keeps n m r h,
        )
    | inr other ↦
        (r, ground (arith, lookup-insert j k (widen m (range_entry st j)) st.num_ranges), h)
  ]
  update_entry-CoversNumber st (j, Value.string s) k n h = h
  update_entry-CoversNumber st (j, _) k n h = h

  update_entry-CoversString :
      (st : PartitionStats N) (e : Str × Value N) (k s : Str)
      → CoversString st k s
      → CoversString (update_entry st e) k s
  unfolding update_entry
  update_entry-CoversString st (j, Value.string t) k s (set, q, h) =
      elim (Bool-cases (str_eq j k)) [
        | inl same ↦
            let e : j ≡ k = (str_eq_iff j k).0 same in
            (
              add_string t set,
              ground (arith, lookup-insert j k (add_string t (string_entry st j)) st.string_values),
              add_string_keeps t s set h,
            )
        | inr other ↦ (
          set,
          ground (arith, lookup-insert j k (add_string t (string_entry st j)) st.string_values),
          h,
        )
      ]
  update_entry-CoversString st (j, Value.number t) k s h = h
  update_entry-CoversString st (j, _) k s h = h

  update_entry-number :
      (st : PartitionStats N) (k : Str) (n : N)
      → IsRanged st
      → fl.is_nan n ≡ false
      → CoversNumber (update_entry st (k, Value.number n)) k n
  unfolding update_entry
  update_entry-number st k n h o = (
    widen n (range_entry st k),
    ground (arith, lookup-insert k k (widen n (range_entry st k)) st.num_ranges, eq_refl k),
    widen_self n (range_entry st k) o (range_entry_ordered st k h),
  )

  update_entry-string :
      (st : PartitionStats N) (k s : Str) → CoversString (update_entry st (k, Value.string s)) k s
  unfolding update_entry
  update_entry-string st k s = (
    add_string s (string_entry st k),
    ground
        (arith, lookup-insert k k (add_string s (string_entry st k)) st.string_values, eq_refl k),
    add_string_self s (string_entry st k),
  )

  pub update-keeps-CoversNumber :
      (st : PartitionStats N) (p : Payload N) (k : Str) (n : N)
      → CoversNumber st k n
      → CoversNumber (update st p) k n
  unfolding update
  update-keeps-CoversNumber st [] k n h = h
  update-keeps-CoversNumber st (e ∷ p) k n h =
      update-keeps-CoversNumber (update_entry st e) p k n (update_entry-CoversNumber st e k n h)

  pub update-keeps-CoversString :
      (st : PartitionStats N) (p : Payload N) (k s : Str)
      → CoversString st k s
      → CoversString (update st p) k s
  unfolding update
  update-keeps-CoversString st [] k s h = h
  update-keeps-CoversString st (e ∷ p) k s h =
      update-keeps-CoversString (update_entry st e) p k s (update_entry-CoversString st e k s h)

  -- After its payload went in, a number of it is in the range of its field.
  pub update-CoversNumber :
      (st : PartitionStats N) (p : Payload N) (k : Str) (n : N)
      → IsRanged st
      → IsFinitePayload p
      → lookup k p ≡ some (Value.number n)
      → CoversNumber (update st p) k n
  unfolding update lookup
  update-CoversNumber st [] k n h f q = cc
  update-CoversNumber st ((j, v) ∷ p) k n h f q = elim (Bool-cases (str_eq j k)) [
    | inl same ↦
        let v_eq : v ≡ Value.number n = ground arith in
        let j_eq : j ≡ k = (str_eq_iff j k).0 same in
        let o = fl.finite_ordered n (subst IsFiniteValue v_eq f.0) in
        rw (j_eq, v_eq) (update-keeps-CoversNumber _ p k n (update_entry-number st k n h o))
    | inr other ↦
        update-CoversNumber (update_entry st (j, v)) p k n (update_entry-IsRanged st (j, v) h) f.1
          (ground arith)
  ]

  pub update-CoversString :
      (st : PartitionStats N) (p : Payload N) (k s : Str)
      → lookup k p ≡ some (Value.string s)
      → CoversString (update st p) k s
  unfolding update lookup
  update-CoversString st [] k s q = cc
  update-CoversString st ((j, v) ∷ p) k s q = elim (Bool-cases (str_eq j k)) [
    | inl same ↦
        let v_eq : v ≡ Value.string s = ground arith in
        let j_eq : j ≡ k = (str_eq_iff j k).0 same in
        rw (j_eq, v_eq) (update-keeps-CoversString _ p k s (update_entry-string st k s))
    | inr other ↦ update-CoversString (update_entry st (j, v)) p k s (ground arith)
  ]

  -- The strings of every field are at most as many as the limit.
  abbrev pub IsBounded : PartitionStats N → Type 0
  IsBounded st =
      (k : Str) (set : List Str) → lookup k st.string_values ≡ some set → length set ≤ max_strings

  update_entry-IsBounded :
      (st : PartitionStats N) (e : Str × Value N) → IsBounded st → IsBounded (update_entry st e)
  unfolding update_entry lookup
  update_entry-IsBounded st (j, Value.string s) h k set q = ground (
    arith,
    lookup-insert j k (add_string s (string_entry st j)) st.string_values,
    h k set,
    h j (string_entry st j),
    add_string-length-le s (string_entry st j),
  )
  update_entry-IsBounded st (j, Value.number s) h k set q = h k set q
  update_entry-IsBounded st (j, _) h k set q = h k set q

  -- If no string set is over its limit, none is after a payload has been added.
  pub update-IsBounded :
      (st : PartitionStats N) (p : Payload N) → IsBounded st → IsBounded (update st p)
  unfolding update
  update-IsBounded st [] h = h
  update-IsBounded st (e ∷ p) h =
      update-IsBounded (update_entry st e) p (update_entry-IsBounded st e h)
