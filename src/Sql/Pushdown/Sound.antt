-- ===== src/Sql/Pushdown/Sound.antt =====
-- A partition that `can_partition_match` rules out holds no payload that the predicate accepts.
use vdb_rs.Prelude.{
  ◌<◌, ◌≡◌, refl, Bool, true, false, List, [], ◌∷◌, Option, none, some, length, arith, ◌⊎◌, inl,
  inr, any, All, or_cases, and_parts, and_intro, or_left, or_right,
}
use vdb_rs.Prelude.Assoc.{Str, string_eq, lookup, contains, str_eq_iff, str_cmp-eq_iff}
use vdb_rs.Prelude.Float.{Float}
use vdb_rs.Payload.{Value, Payload}
use vdb_rs.Stats.{PartitionStats, max_strings}
use vdb_rs.Stats.Covers.{InRange, CoversNumber, CoversString}
use vdb_rs.Sql.Predicate.{ScalarValue, SqlPredicate, IsLiteral}
use vdb_rs.Sql.Eval.{OrderingPred, matches, compare, value_partial_cmp, values_equal, eval}
use vdb_rs.Sql.Pushdown.{in_set, in_range, can_partition_match}

module _ {N : Type 0} ⦃fl : Float N⦄ where
  -- What the statistics owe to a payload of the partition.
  pub record Covers (st : PartitionStats N) (p : Payload N) : Type 0 where
    pub numbers : (k : Str) (n : N) → lookup k p ≡ some (Value.number n) → CoversNumber st k n
    pub strings : (k s : Str) → lookup k p ≡ some (Value.string s) → CoversString st k s

  -- The string set of the field, if there is one, has not reached its limit.
  abbrev pub HasRoom : PartitionStats N → Str → Type 0
  HasRoom st k = (set : List Str) → lookup k st.string_values ≡ some set → length set < max_strings

  -- No number and string share the field.
  abbrev pub IsUnmixed : PartitionStats N → Str → Type 0
  IsUnmixed st k = (lookup k st.string_values ≡ none) ⊎ (lookup k st.num_ranges ≡ none)

  -- The partition's statistics are complete for the fields that the predicate decides by strings:
  -- those sets have room, a field under `IN` is unmixed, and no literal under `IN` is a Boolean,
  -- which no parsed predicate has.
  abbrev pub IsDecidable : SqlPredicate N → PartitionStats N → Type 0
  IsDecidable (SqlPredicate.eq k (ScalarValue.string v)) st = HasRoom st k
  IsDecidable (SqlPredicate.in_list k values) st =
      HasRoom st k × IsUnmixed st k × All IsLiteral values
  IsDecidable (SqlPredicate.and a b) st = IsDecidable a st × IsDecidable b st
  IsDecidable (SqlPredicate.or a b) st = IsDecidable a st × IsDecidable b st
  IsDecidable _ st = Unit

  -- A comparison with a number that succeeds finds a number.
  number-of_compare :
      (p : Payload N) (k : Str) (v : N) (o : OrderingPred)
      → compare p k (ScalarValue.number v) o ≡ true
      → (n : N) × (lookup k p ≡ some (Value.number n))
  unfolding compare value_partial_cmp matches
  number-of_compare p k v o h = go (lookup k p) refl
    where
      go : (x : Option (Value N)) → lookup k p ≡ x → (n : N) × (lookup k p ≡ some (Value.number n))
      go none e = ground arith
      go (some (Value.number n)) e = (n, e)
      go (some _) e = ground arith

  -- One `IN` value after the other: what equals the payload's value passes the partition's test.
  any-in_set :
      (set : List Str) (s : Str) (values : List (ScalarValue N))
      → contains set s ≡ true
      → any (values_equal (some (Value.string s))) values ≡ true
      → any (in_set set) values ≡ true
  unfolding values_equal in_set
  any-in_set set s [] c h = h
  any-in_set set s (ScalarValue.string v ∷ vs) c h =
      ground (arith, str_eq_iff s v, any-in_set set s vs c)
  any-in_set set s (ScalarValue.number v ∷ vs) c h = any-in_set set s vs c h
  any-in_set set s (ScalarValue.bool v ∷ vs) c h = any-in_set set s vs c h

  any-in_range :
      (r : N × N) (n : N) (values : List (ScalarValue N))
      → InRange r n
      → any (values_equal (some (Value.number n))) values ≡ true
      → any (in_range r) values ≡ true
  unfolding values_equal in_range
  any-in_range r n [] c h = h
  any-in_range r n (ScalarValue.number v ∷ vs) c h = ground (arith, any-in_range r n vs c)
  any-in_range r n (ScalarValue.string v ∷ vs) c h = any-in_range r n vs c h
  any-in_range r n (ScalarValue.bool v ∷ vs) c h = any-in_range r n vs c h

  any-bool :
      (b : Bool) (values : List (ScalarValue N))
      → All IsLiteral values
      → any (values_equal (some (Value.bool b))) values ≡ false
  unfolding values_equal
  any-bool b [] h = refl
  any-bool b (ScalarValue.number v ∷ vs) h = any-bool b vs h.1
  any-bool b (ScalarValue.string v ∷ vs) h = any-bool b vs h.1
  any-bool b (ScalarValue.bool v ∷ vs) h = absurd h.0

  -- A value that is no number, string or Boolean equals no literal.
  any-other :
      (x : Option (Value N)) (values : List (ScalarValue N))
      → ((v : ScalarValue N) → values_equal x v ≡ false)
      → any (values_equal x) values ≡ false
  any-other x [] h = refl
  any-other x (v ∷ vs) h = rw (h v) (any-other x vs h)

  string-of_compare :
      (p : Payload N) (k v : Str)
      → compare p k (ScalarValue.string v) OrderingPred.eq ≡ true
      → lookup k p ≡ some (Value.string v)
  unfolding compare value_partial_cmp matches
  string-of_compare p k v h = go (lookup k p) refl
    where
      go : (x : Option (Value N)) → lookup k p ≡ x → lookup k p ≡ some (Value.string v)
      go none e = ground arith
      go (some (Value.string s)) e = ground (arith, str_cmp-eq_iff s v)
      go (some (Value.number n)) e = ground arith
      go (some _) e = ground arith

  module _ (st : PartitionStats N) (p : Payload N) (cov : Covers st p) where
    eq-string_sound :
        (k v : Str)
        → HasRoom st k
        → compare p k (ScalarValue.string v) OrderingPred.eq ≡ true
        → can_partition_match (SqlPredicate.eq k (ScalarValue.string v)) st ≡ true
    unfolding can_partition_match
    eq-string_sound k v room h =
        let (set, e, c) = cov.strings k v (string-of_compare p k v h) in
        let small = room set e in ground arith

    in_list_sound :
        (k : Str) (values : List (ScalarValue N))
        → HasRoom st k
        → IsUnmixed st k
        → All IsLiteral values
        → any (values_equal (lookup k p)) values ≡ true
        → can_partition_match (SqlPredicate.in_list k values) st ≡ true
    unfolding can_partition_match values_equal
    in_list_sound k values room unmixed plain h = go (lookup k p) refl
      where
        go :
            (x : Option (Value N))
            → lookup k p ≡ x
            → can_partition_match (SqlPredicate.in_list k values) st ≡ true
        go none q = cc (rw q at h, any-other none values (λ v. refl))
        go (some (Value.number n)) q =
            let (r, e, c) = cov.numbers k n q in
            let found = any-in_range r n values c (rw q at h) in ground arith
        go (some (Value.string s)) q =
            let (set, e, c) = cov.strings k s q in
            let small = room set e in
            let inside : contains set s ≡ true = ground arith in
            let found = any-in_set set s values inside (rw q at h) in ground arith
        go (some (Value.bool b)) q = cc (rw q at h, any-bool b values plain)
        go (some Value.null) q = cc (rw q at h, any-other (some Value.null) values (λ v. refl))
        go (some (Value.array a)) q =
            cc (rw q at h, any-other (some (Value.array a)) values (λ v. refl))
        go (some (Value.object o)) q =
            cc (rw q at h, any-other (some (Value.object o)) values (λ v. refl))

    -- If the payload is covered and passes the predicate, the partition is not ruled out.
    pub can_partition_match_sound :
        (pred : SqlPredicate N)
        → IsDecidable pred st
        → eval pred p ≡ true
        → can_partition_match pred st ≡ true
    unfolding eval can_partition_match
    can_partition_match_sound (SqlPredicate.eq k (ScalarValue.number v)) d h =
        let (n, q) = number-of_compare p k v OrderingPred.eq h in
        let (r, e, c) = cov.numbers k n q in
        unfold compare value_partial_cmp matches in ground arith
    can_partition_match_sound (SqlPredicate.eq k (ScalarValue.string v)) d h =
        eq-string_sound k v d h
    can_partition_match_sound (SqlPredicate.eq k (ScalarValue.bool v)) d h = refl
    can_partition_match_sound (SqlPredicate.ne k v) d h = refl
    can_partition_match_sound (SqlPredicate.lt k (ScalarValue.number v)) d h =
        let (n, q) = number-of_compare p k v OrderingPred.lt h in
        let (r, e, c) = cov.numbers k n q in
        unfold compare value_partial_cmp matches in ground arith
    can_partition_match_sound (SqlPredicate.lt k _) d h = refl
    can_partition_match_sound (SqlPredicate.le k (ScalarValue.number v)) d h =
        elim (or_cases _ _ h) [
          | inl a ↦
              let (n, q) = number-of_compare p k v OrderingPred.lt a in
              let (r, e, c) = cov.numbers k n q in
              unfold compare value_partial_cmp matches in ground arith
          | inr a ↦
              let (n, q) = number-of_compare p k v OrderingPred.eq a in
              let (r, e, c) = cov.numbers k n q in
              unfold compare value_partial_cmp matches in ground arith
        ]
    can_partition_match_sound (SqlPredicate.le k _) d h = refl
    can_partition_match_sound (SqlPredicate.gt k (ScalarValue.number v)) d h =
        let (n, q) = number-of_compare p k v OrderingPred.gt h in
        let (r, e, c) = cov.numbers k n q in
        unfold compare value_partial_cmp matches in ground arith
    can_partition_match_sound (SqlPredicate.gt k _) d h = refl
    can_partition_match_sound (SqlPredicate.ge k (ScalarValue.number v)) d h =
        elim (or_cases _ _ h) [
          | inl a ↦
              let (n, q) = number-of_compare p k v OrderingPred.gt a in
              let (r, e, c) = cov.numbers k n q in
              unfold compare value_partial_cmp matches in ground arith
          | inr a ↦
              let (n, q) = number-of_compare p k v OrderingPred.eq a in
              let (r, e, c) = cov.numbers k n q in
              unfold compare value_partial_cmp matches in ground arith
        ]
    can_partition_match_sound (SqlPredicate.ge k _) d h = refl
    can_partition_match_sound (SqlPredicate.in_list k values) d h =
        in_list_sound k values d.0 d.1 d.2 h
    can_partition_match_sound (SqlPredicate.and a b) d h =
        let (ha, hb) = and_parts _ _ h in
        and_intro _ _ (can_partition_match_sound a d.0 ha) (can_partition_match_sound b d.1 hb)
    can_partition_match_sound (SqlPredicate.or a b) d h = elim (or_cases _ _ h) [
      | inl ha ↦ or_left _ _ (can_partition_match_sound a d.0 ha)
      | inr hb ↦ or_right _ _ (can_partition_match_sound b d.1 hb)
    ]
