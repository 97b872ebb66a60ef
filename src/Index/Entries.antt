-- ===== src/Index/Entries.antt =====
-- Which entries the loop of `build` leaves in each partition.
use vdb_rs.Prelude.{
  ℕ, zero, suc, ◌<◌, ◌≡◌, refl, sym, ap, ◌∙◌, List, [], ◌∷◌, ◌++◌, none, some, set, get_elem?,
  replicate, arith, append_assoc, append-nil, ◌==◌, ==_iff, if◌then◌else◌, Bool-cases, inl, inr,
}
use vdb_rs.Prelude.Float.{Float}
use vdb_rs.Prelude.Panic.{Panics, ◌>>=◌, traverse}
use vdb_rs.Stats.{update}
use vdb_rs.Quantizer.{RabitqCode, RabitqQuantizer, encode}
use vdb_rs.Index.Defs.{modify, nearest_partition}
use vdb_rs.Index.Build.{Filled, fill}

-- What a chain that returns has gone through.
pub bind_some :
    {A B : Type 0} (m : Panics A) (f : A → Panics B) (b : B)
    → (m >>= f) ≡ some b
    → (a : A) × (m ≡ some a) × (f a ≡ some b)
bind_some none f b h = cc
bind_some (some a) f b h = (a, refl, h)

traverse_cons :
    {A B : Type 0} (f : A → Panics B) (x : A) (xs : List A) (y : B) (ys : List B)
    → f x ≡ some y
    → traverse f xs ≡ some ys
    → traverse f (x ∷ xs) ≡ some (y ∷ ys)
traverse_cons f x xs y ys h k = rw (h, k) refl

pub get_elem?-replicate :
    {A : Type 0} (n i : ℕ) (a : A) → i < n → get_elem? (replicate n a) i ≡ some a
get_elem?-replicate zero i a h = absurd (omega arith)
get_elem?-replicate (suc n) zero a h = refl
get_elem?-replicate (suc n) (suc i) a h = get_elem?-replicate n i a (omega arith)

module _ {A : Type 0} where
  get_elem?-set :
      (xs : List A) (i j : ℕ) (new old : A)
      → get_elem? xs j ≡ some old
      → get_elem? (set xs i new) j ≡ some (if i == j then new else old)
  get_elem?-set [] i j new old h = cc
  get_elem?-set (x ∷ xs) zero zero new old h = ground arith
  get_elem?-set (x ∷ xs) zero (suc j) new old h = ground arith
  get_elem?-set (x ∷ xs) (suc i) zero new old h = ground arith
  get_elem?-set (x ∷ xs) (suc i) (suc j) new old h =
      get_elem?-set xs i j new old h ∙ ap (λ t. some (if t then new else old)) (same_test i j)
    where
      same_test : (a b : ℕ) → (a == b) ≡ (suc a == suc b)
      same_test a b = ground arith

  get_elem?-modify :
      (xs ys : List A) (i j : ℕ) (f : A → A) (old : A)
      → modify xs i f ≡ some ys
      → get_elem? xs j ≡ some old
      → get_elem? ys j ≡ some (if i == j then f old else old)
  unfolding modify
  get_elem?-modify xs ys i j f old h at =
      let (a, found, rest) = bind_some (get_elem? xs i) _ ys h in
      let same : set xs i (f a) ≡ ys = cc in
      ap (λ l. get_elem? l j) (sym same)
      ∙ get_elem?-set xs i j (f a) old at
      ∙ elim (Bool-cases (i == j)) [
        | inl t ↦
            let place : i ≡ j = (==_iff i j).0 t in
            let equal : some a ≡ some old = sym found ∙ ap (get_elem? xs) place ∙ at in
            let value : a ≡ old = cc in rw t (ap (λ b. some (f b)) value)
        | inr t ↦ rw t refl
      ]

module _ {F : Type 0} ⦃fl : Float F⦄ where
  -- The entry of a vector in a partition: its identifier and its code in the partition that is
  -- nearest, and nothing in another.
  abbrev pub filed : RabitqQuantizer F → List (List F) → ℕ → ℕ → List F → List (ℕ × RabitqCode F)
  filed quantizer centroids p id v = elim (nearest_partition centroids v) [
    | none ↦ []
    | some pid ↦ elim (encode quantizer v) [
      | none ↦ []
      | some code ↦ if pid == p then (id, code) ∷ [] else []
    ]
  ]

  -- The entries of the vectors in a partition, in the order of the identifiers, from one on.
  abbrev pub entries_in :
      RabitqQuantizer F → List (List F) → ℕ → ℕ → List (List F) → List (ℕ × RabitqCode F)
  entries_in quantizer centroids p id [] = []
  entries_in quantizer centroids p id (v ∷ vectors) =
      filed quantizer centroids p id v ++ entries_in quantizer centroids p (suc id) vectors

  filed_place :
      (q : RabitqQuantizer F) (centroids : List (List F)) (p n : ℕ) (v : List F) (pid : ℕ)
      (code : RabitqCode F)
      → nearest_partition centroids v ≡ some pid
      → encode q v ≡ some code
      → (entries rest : List (ℕ × RabitqCode F))
      → (if pid == p then entries ++ (n, code) ∷ [] else entries) ++ rest
        ≡ entries ++ (filed q centroids p n v ++ rest)
  filed_place q centroids p n v pid code near coded entries rest = elim (Bool-cases (pid == p)) [
    | inl t ↦ rw (filed, near, coded, t) (append_assoc entries ((n, code) ∷ []) rest)
    | inr t ↦ rw (filed, near, coded, t) refl
  ]

module _ {F N : Type 0} ⦃fl : Float F⦄ ⦃fn : Float N⦄ where
  pub fill_entries :
      (q : RabitqQuantizer F) (centroids : List (List F)) (n p : ℕ) (vectors : List (List F))
      (parts out : Filled F N) (entries : List (ℕ × RabitqCode F))
      → fill q centroids n vectors parts ≡ some out
      → get_elem? parts.partitions p ≡ some entries
      → get_elem? out.partitions p ≡ some (entries ++ entries_in q centroids p n vectors)
  unfolding fill
  fill_entries q centroids n p [] parts out entries h at =
      let same : parts ≡ out = cc in
      ap (λ (x : Filled F N). get_elem? x.partitions p) (sym same)
      ∙ at
      ∙ ap some (sym (append-nil entries))
  fill_entries q centroids n p (v ∷ vectors) parts out entries h at =
      let (pid, near, h1) = bind_some (nearest_partition centroids v) _ out h in
      let (code, coded, h2) = bind_some (encode q v) _ out h1 in
      let pushes : List (ℕ × RabitqCode F) → List (ℕ × RabitqCode F) = λ es. es ++ (n, code) ∷ [] in
      let (partitions, pushed, h3) = bind_some (modify parts.partitions pid pushes) _ out h2 in
      let (stats, updated, h4) =
        bind_some (modify parts.partition_stats pid (λ st. update st [])) _ out h3 in
      let here = get_elem?-modify parts.partitions partitions pid p pushes entries pushed at in
      let rest =
        fill_entries q centroids (suc n) p vectors _ out
          (if pid == p then pushes entries else entries) h4 here in
      rest ∙ ap some (filed_place q centroids p n v pid code near coded entries _)

  pub fill_ids :
      (q : RabitqQuantizer F) (centroids : List (List F)) (n : ℕ) (vectors : List (List F))
      (parts out : Filled F N)
      → fill q centroids n vectors parts ≡ some out
      → (pids : List ℕ) × (traverse (nearest_partition centroids) vectors ≡ some pids)
        × (out.id_to_partition ≡ parts.id_to_partition ++ pids)
  unfolding fill
  fill_ids q centroids n [] parts out h =
      let same : parts ≡ out = cc in
      (
        [],
        refl,
        ap (λ (x : Filled F N). x.id_to_partition) (sym same)
            ∙ sym (append-nil parts.id_to_partition),
      )
  fill_ids q centroids n (v ∷ vectors) parts out h =
      let (pid, near, h1) = bind_some (nearest_partition centroids v) _ out h in
      let (code, coded, h2) = bind_some (encode q v) _ out h1 in
      let (partitions, pushed, h3) =
        bind_some (modify parts.partitions pid (λ es. es ++ (n, code) ∷ [])) _ out h2 in
      let (stats, updated, h4) =
        bind_some (modify parts.partition_stats pid (λ st. update st [])) _ out h3 in
      let (pids, rest, same) = fill_ids q centroids (suc n) vectors _ out h4 in
      (
        pid ∷ pids,
        traverse_cons (nearest_partition centroids) v vectors pid pids near rest,
        same ∙ append_assoc parts.id_to_partition (pid ∷ []) pids,
      )
