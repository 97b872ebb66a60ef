-- ===== src/Http/Batch.antt =====
-- What a batch of insertions makes of the index.
use vdb_rs.Prelude.{
  ℕ, zero, suc, ◌≡◌, refl, sym, ap, ◌∙◌, true, List, [], ◌∷◌, ◌++◌, Option, none, some, inr, length,
  replicate, All, All-map_pred, append-nil, append_assoc, arith, ◌==◌,
}
use vdb_rs.Prelude.Float.{Float}
use vdb_rs.Prelude.Panic.{Panics, ◌>>=◌}
use vdb_rs.Payload.{Payload}
use vdb_rs.Sql.Token.Lexer.{Lexis}
use vdb_rs.Index.Defs.{IvfRabitqIndex, add, add_with_payload}
use vdb_rs.Index.Add.{IsValid, add_with_payload_stores}
use vdb_rs.Http.Defs.{
  Body, BatchInsertRequest, Serde, add_pairs, add_each, insert_batch, answer_batch,
  handle_batch_insert,
}

-- So many identifiers from the first one.
abbrev pub numbered : ℕ → ℕ → List ℕ
numbered id zero = []
numbered id (suc n) = id ∷ numbered (suc id) n

bind_ap :
    {A B : Type 0} (m : Panics A) (f g : A → Panics B)
    → ((a : A) → f a ≡ g a)
    → (m >>= f) ≡ (m >>= g)
bind_ap none f g h = refl
bind_ap (some a) f g h = h a

module _ {F N : Type 0} where
  -- The payloads of a batch; a vector without one has an empty payload.
  abbrev pub payloads_of : BatchInsertRequest F N → List (Payload N)
  payloads_of req = elim req.payloads [
    | none ↦ replicate (length req.vectors) []
    | some payloads ↦ payloads
  ]

module _ {F N : Type 0} ⦃fl : Float F⦄ ⦃fn : Float N⦄ where
  add_each-pairs :
      (idx : IvfRabitqIndex F N) (vectors : List (List F))
      → add_each idx vectors ≡ add_pairs idx vectors (replicate (length vectors) [])
  unfolding add_each add_pairs add
  add_each-pairs idx [] = refl
  add_each-pairs idx (v ∷ vectors) =
      bind_ap (add_with_payload idx v []) _ _ (λ one. rw (add_each-pairs one.0 vectors) refl)

  add_pairs_stores :
      (idx : IvfRabitqIndex F N) (vectors : List (List F)) (payloads : List (Payload N))
      → IsValid idx
      → All (λ v. length v ≡ idx.config.dim) vectors
      → length payloads ≡ length vectors
      → (next : IvfRabitqIndex F N) × (add_pairs idx vectors payloads
          ≡ some (next, numbered idx.next_id (length vectors)))
        × IsValid next
        × (next.raw ≡ idx.raw ++ vectors)
        × (next.payloads ≡ idx.payloads ++ payloads)
  unfolding add_pairs
  add_pairs_stores idx [] [] valid h l =
      (idx, refl, valid, sym (append-nil idx.raw), sym (append-nil idx.payloads))
  add_pairs_stores idx [] (p ∷ payloads) valid h l = absurd (omega arith)
  add_pairs_stores idx (v ∷ vectors) [] valid h l = absurd (omega arith)
  add_pairs_stores idx (v ∷ vectors) (p ∷ payloads) valid h l =
      let (one, added, still, same, more, raw, stored) =
        add_with_payload_stores idx v p valid h.0 in
      let (out, rest, last, raws, all) =
        add_pairs_stores one vectors payloads still
          (All-map_pred _ _ vectors (λ w e. e ∙ sym (ap (λ c. c.dim) same)) h.1) (omega arith) in
      (
        out,
        rw (added, rest, more) refl,
        last,
        raws ∙ ap (λ r. r ++ vectors) raw ∙ append_assoc idx.raw (v ∷ []) vectors,
        all ∙ ap (λ r. r ++ payloads) stored ∙ append_assoc idx.payloads (p ∷ []) payloads,
      )

  handle_batch_insert_stores :
      (lx : Lexis N) (serde : Serde F N) (idx : IvfRabitqIndex F N) (body : List ℕ)
      (vectors : List (List F)) (payloads : Option (List (Payload N)))
      → let req : BatchInsertRequest F N = record { vectors = vectors; payloads = payloads } in
        serde.batch_request body ≡ inr req
        → IsValid idx
        → All (λ v. length v ≡ idx.config.dim) vectors
        → length (payloads_of req) ≡ length vectors
        → (next : IvfRabitqIndex F N) × (handle_batch_insert lx serde idx body
            ≡ some (next, (200, Body.batch_inserted (numbered idx.next_id (length vectors)))))
          × IsValid next
          × (next.raw ≡ idx.raw ++ vectors)
          × (next.payloads ≡ idx.payloads ++ payloads_of req)
  unfolding handle_batch_insert answer_batch insert_batch
  handle_batch_insert_stores lx serde idx body vectors none read valid h l =
      let (next, added, still, raw, stored) =
        add_pairs_stores idx vectors (replicate (length vectors) []) valid h l in
      (next, rw (read, add_each-pairs idx vectors, added) refl, still, raw, stored)
  handle_batch_insert_stores lx serde idx body vectors (some payloads) read valid h l =
      let (next, added, still, raw, stored) = add_pairs_stores idx vectors payloads valid h l in
      let same : (length payloads == length vectors) ≡ true = ground arith in
      (next, rw (read, same, added) refl, still, raw, stored)

  -- On a well-formed index, a batch of vectors of its dimension, with as many payloads or with none,
  -- is answered with status 200 and the identifiers from the next one on, in order; the index stays
  -- well formed, and the vectors and the payloads, empty ones where there are none, stand behind
  -- those it had.
  pub handle_batch_insert-IsValid :
      (lx : Lexis N) (serde : Serde F N) (idx : IvfRabitqIndex F N) (body : List ℕ)
      (req : BatchInsertRequest F N)
      → serde.batch_request body ≡ inr req
      → IsValid idx
      → All (λ v. length v ≡ idx.config.dim) req.vectors
      → length (payloads_of req) ≡ length req.vectors
      → (next : IvfRabitqIndex F N) × (handle_batch_insert lx serde idx body
          ≡ some (next, (200, Body.batch_inserted (numbered idx.next_id (length req.vectors)))))
        × IsValid next
        × (next.raw ≡ idx.raw ++ req.vectors)
        × (next.payloads ≡ idx.payloads ++ payloads_of req)
  handle_batch_insert-IsValid lx serde idx body req read valid h l =
      handle_batch_insert_stores lx serde idx body req.vectors req.payloads read valid h l
