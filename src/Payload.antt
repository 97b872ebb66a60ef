-- ===== src/Payload.antt =====
-- The scalar payload of a vector, `Payload = Map<String, serde_json::Value>` of
-- src/index_ivf_rq.rs. The JSON values have the constructors that the sources match on; a JSON
-- number is the `f64` that `as_f64` returns for it.
use vdb_rs.Prelude.{Bool, true, List, Option, none, some, ◌≡◌, All}
use vdb_rs.Prelude.Assoc.{Str}
use vdb_rs.Prelude.Float.{Float}

mutual
  pub data Value (N : Type 0) : Type 0 where
    null : Value N
    bool : Bool → Value N
    number : N → Value N
    string : Str → Value N
    array : Items N → Value N
    object : Fields N → Value N

  pub data Items (N : Type 0) : Type 0 where
    nil : Items N
    cons : Value N → Items N → Items N

  pub data Fields (N : Type 0) : Type 0 where
    end : Fields N
    field : Str → Value N → Fields N → Fields N

abbrev pub Payload : Type 0 → Type 0
Payload N = List (Str × Value N)

unfoldable pub as_f64 : {N : Type 0} → Value N → Option N
as_f64 (Value.number n) = some n
as_f64 _ = none

unfoldable pub as_str : {N : Type 0} → Value N → Option Str
as_str (Value.string s) = some s
as_str _ = none

-- serde_json holds no NaN and no infinity.
abbrev pub IsFiniteValue : {N : Type 0} ⦃fl : Float N⦄ → Value N → Type 0
IsFiniteValue ⦃fl⦄ (Value.number n) = fl.is_finite n ≡ true
IsFiniteValue _ = Unit

abbrev pub IsFinitePayload : {N : Type 0} ⦃fl : Float N⦄ → Payload N → Type 0
IsFinitePayload p = All (λ e. IsFiniteValue e.1) p
