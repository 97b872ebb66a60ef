-- ===== src/Nng/Stream.antt =====
-- The loop over a connection's bytes answers the requests in them, one by one.
use vdb_rs.Prelude.{
  ℕ, zero, suc, ◌^◌, ◌<◌, ◌≤◌, ◌≡◌, refl, ap, false, ◌||◌, List, [], ◌∷◌, ◌++◌, none, some, length,
  ltb, ◌==◌, arith, length-append, take-append, drop-append, All,
}
use vdb_rs.Prelude.Bytes.{to_le_bytes, from_le_bytes, length-to_le_bytes, from_le_bytes-to_le_bytes}
use vdb_rs.Prelude.Float.{Float}
use vdb_rs.Prelude.Panic.{Panics, ◌>>=◌}
use vdb_rs.Storage.Fields.{read_le}
use vdb_rs.Index.Defs.{IvfRabitqIndex}
use vdb_rs.Sql.Token.Lexer.{Lexis}
use vdb_rs.Prelude.Wire.{Wire}
use vdb_rs.Nng.Server.{Json, max_message, handle_message, connection_loop}

-- `[4 bytes: message length][message]`, for each message.
unfoldable pub frames : List (List ℕ) → List ℕ
frames [] = []
frames (m ∷ ms) = to_le_bytes 4 (length m) ++ (m ++ frames ms)

-- The lengths that the server admits.
abbrev pub IsMessage : List ℕ → Type 0
IsMessage m = (1 ≤ length m) × (length m ≤ max_message)

bind_cong {ℓ κ} :
    {A : Type ℓ} {B : Type κ} (r : Panics A) (f g : A → Panics B)
    → ((a : A) → f a ≡ g a)
    → (r >>= f) ≡ (r >>= g)
bind_cong none f g h = refl
bind_cong (some a) f g h = h a

module _ {F N : Type 0} ⦃fl : Float F⦄ ⦃fn : Float N⦄ (lx : Lexis N) (wire : Wire F)
    (json : Json F) where
  -- The messages handled in order, with their answers one after the other.
  unfoldable pub handle_all :
      IvfRabitqIndex F N → List (List ℕ) → Panics (IvfRabitqIndex F N × List ℕ)
  handle_all idx [] = some (idx, [])
  handle_all idx (m ∷ ms) = do
    (next, answer) ← handle_message lx wire json idx m
    (final, answers) ← handle_all next ms
    some (final, answer ++ answers)

  length-frames : (ms : List (List ℕ)) → All IsMessage ms → length ms ≤ length (frames ms)
  unfolding frames
  length-frames [] h = omega arith
  length-frames (m ∷ ms) h = omega (
    arith,
    length-append (to_le_bytes 4 (length m)) (m ++ frames ms),
    length-append m (frames ms),
    length-to_le_bytes 4 (length m),
    length-frames ms h.1,
  )

  front :
      (header rest : List ℕ) (n : ℕ)
      → length header ≡ 4
      → from_le_bytes header ≡ n
      → read_le 0 4 (header ++ rest) ≡ n
  unfolding read_le
  front header rest n h e = rw (take-append 4 header rest h) e

  connection_loop-frames_fuel :
      (fuel : ℕ) (idx : IvfRabitqIndex F N) (ms : List (List ℕ))
      → All IsMessage ms
      → length ms < fuel
      → connection_loop lx wire json fuel idx (frames ms) ≡ handle_all idx ms
  unfolding frames handle_all connection_loop
  connection_loop-frames_fuel zero idx ms h f = absurd (omega arith)
  connection_loop-frames_fuel (suc fuel) idx [] h f = refl
  connection_loop-frames_fuel (suc fuel) idx (m ∷ ms) h f =
      let four = length-to_le_bytes 4 (length m) in
      let header = to_le_bytes 4 (length m) in
      let input = header ++ (m ++ frames ms) in
      let long : ltb (length input) 4 ≡ false =
        ground (arith, length-append header (m ++ frames ms)) in
      let fits : length m < 256 ^ 4 = omega (arith, h.0.0, h.0.1) in
      let whole : ltb (length (m ++ frames ms)) (length m) ≡ false =
        ground (arith, length-append m (frames ms)) in
      let size : read_le 0 4 input ≡ length m =
        front header (m ++ frames ms) (length m) four
          (from_le_bytes-to_le_bytes 4 (length m) fits) in
      let admitted : (length m == 0 || ltb max_message (length m)) ≡ false =
        ground (arith, h.0.0, h.0.1) in
      rw
        (
          long,
          size,
          drop-append 4 header (m ++ frames ms) four,
          admitted,
          whole,
          take-append (length m) m (frames ms) refl,
          drop-append (length m) m (frames ms) refl,
        )
        (bind_cong (handle_message lx wire json idx m) _ _ λ r.
          ap (λ z. z >>= λ y. some (y.0, r.1 ++ y.1))
            (connection_loop-frames_fuel fuel r.0 ms h.1 (omega arith)))

  -- For requests of at least one byte and at most 16 MiB each, the loop over the connection's bytes
  -- ends, gives each request to its handler in order, passes the index on from one to the next, and
  -- sends the answers in the same order; if a handler panics, so does the loop.
  pub connection_loop-frames :
      (idx : IvfRabitqIndex F N) (ms : List (List ℕ))
      → All IsMessage ms
      → connection_loop lx wire json (suc (length (frames ms))) idx (frames ms) ≡ handle_all idx ms
  connection_loop-frames idx ms h =
      connection_loop-frames_fuel (suc (length (frames ms))) idx ms h
        (omega (arith, length-frames ms h))
