-- ===== src/Stats/Defs.antt =====
-- The record `PartitionStats` and its `update`, one payload at a time.
use vdb_rs.Prelude.{ℕ, List, [], ◌∷◌, Option, none, some, length, ltb, if◌then◌else◌}
use vdb_rs.Prelude.Assoc.{Str, string_eq, lookup, insert, contains}
use vdb_rs.Prelude.Float.{Float, flt}
use vdb_rs.Payload.{Value, Payload, as_f64, as_str}

pub record PartitionStats (N : Type 0) : Type 0 where
  pub num_ranges : List (Str × (N × N))
  pub string_values : List (Str × List Str)

abbrev pub get_or {ℓ} : {A : Type ℓ} → Option A → A → A
get_or none d = d
get_or (some a) d = a

-- A string set stops growing at this many strings.
abbrev pub max_strings : ℕ
max_strings = 64

-- The string branch of `update`: a full set is left as it is.
unfoldable pub add_string : Str → List Str → List Str
add_string s set =
    if ltb (length set) max_strings then (if contains set s then set else s ∷ set) else set

unfoldable pub new : {N : Type 0} → PartitionStats N
new = record { num_ranges = []; string_values = [] }

module _ {N : Type 0} ⦃fl : Float N⦄ where
  -- The number branch of `update`.
  unfoldable pub widen : N → N × N → N × N
  widen n (lo, hi) = (if flt n lo then n else lo, if flt hi n then n else hi)

  -- The entry that `or_insert` and `or_default` find or make.
  abbrev pub range_entry : PartitionStats N → Str → N × N
  range_entry st k = get_or (lookup k st.num_ranges) (fl.max_value, fl.min_value)

  abbrev pub string_entry : PartitionStats N → Str → List Str
  string_entry st k = get_or (lookup k st.string_values) []

  unfoldable pub update_entry : PartitionStats N → Str × Value N → PartitionStats N
  unfolding as_f64 as_str
  update_entry st (k, v) = elim (as_f64 v) [
    | some n ↦ record st { num_ranges = insert k (widen n (range_entry st k)) st.num_ranges }
    | none ↦ elim (as_str v) [
      | some s ↦ record st {
        string_values = insert k (add_string s (string_entry st k)) st.string_values;
      }
      | none ↦ st
    ]
  ]

  unfoldable pub update : PartitionStats N → Payload N → PartitionStats N
  update st [] = st
  update st (e ∷ p) = update (update_entry st e) p

  -- The statistics of a partition whose payloads were added in this order.
  unfoldable pub update_all : PartitionStats N → List (Payload N) → PartitionStats N
  update_all st [] = st
  update_all st (p ∷ ps) = update_all (update st p) ps
