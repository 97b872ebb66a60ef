-- ===== src/Http/Route.antt =====
-- Which requests change the index, and how many results a search may have.
use vdb_rs.Prelude.{
  ℕ, ◌≡◌, ◌≤◌, refl, Bool, true, false, List, [], Option, none, some, ◌⊎◌, inl, inr, length, take,
  min, length-take, arith, not, ◌==◌, subst, ◌||◌, if◌then◌else◌,
}
use vdb_rs.Prelude.Assoc.{Str, str_eq, str_eq_iff}
use vdb_rs.Prelude.Float.{Float}
use vdb_rs.Prelude.Panic.{Panics, ◌>>=◌, assert}
use vdb_rs.Payload.{Payload}
use vdb_rs.Sql.Token.Lexer.{Lexis}
use vdb_rs.Index.Defs.{IvfRabitqIndex}
use vdb_rs.Quantizer.{encode}
use vdb_rs.Search.{SearchOptions, search}
use vdb_rs.Search.Run.{
  arrange, filter_of, quantize_query, rerank, scan_all, scan_one, select_partitions,
}
use vdb_rs.Http.Defs.{
  Body, SearchRequest, InsertRequest, BatchInsertRequest, answer_search, answer_insert,
  answer_batch, insert_vector, insert_batch, add_each, add_pairs, health_path, root_path,
  app_js_path, style_css_path, stats_path, search_path, Serde, Method, route, handle_search,
  handle_insert, handle_batch_insert, insert_path, batch_insert_path, max_k, merged, unwrap_or,
  read_request_body,
}

-- What holds of a result, if there is one.
abbrev Ensures : {A : Type 0} → (A → Type 0) → Panics A → Type 0
Ensures P none = Unit
Ensures P (some a) = P a

Ensures-bind :
    {A B : Type 0} (P : B → Type 0) (m : Panics A) (f : A → Panics B)
    → ((a : A) → Ensures P (f a))
    → Ensures P (m >>= f)
Ensures-bind P none f h = tt
Ensures-bind P (some a) f h = h a

Ensures-some : {A : Type 0} (P : A → Type 0) (m : Panics A) (a : A) → Ensures P m → m ≡ some a → P a
Ensures-some P m a h e = subst (Ensures P) e h

Ensures-if :
    {A : Type 0} (P : A → Type 0) (t : Bool) (m n : Panics A)
    → Ensures P m
    → Ensures P n
    → Ensures P (if t then m else n)
Ensures-if P true m n h k = h
Ensures-if P false m n h k = k

Ensures-test :
    {A : Type 0} (P : A → Type 0) (t : Bool) (m n : Panics A)
    → (t ≡ true → Ensures P m)
    → Ensures P n
    → Ensures P (if t then m else n)
Ensures-test P true m n h k = h refl
Ensures-test P false m n h k = k

Ensures-ap :
    {A B : Type 0} (P : A → Type 0) (Q : B → Type 0) (m : Panics A) (f : A → B)
    → ((a : A) → P a → Q (f a))
    → Ensures P m
    → Ensures Q (m >>= λ a. some (f a))
Ensures-ap P Q none f h k = tt
Ensures-ap P Q (some a) f h k = h a k

-- A body without results, or with so many at most.
abbrev Few : {F : Type 0} → ℕ → Body F → Type 0
Few n (Body.results found) = length found ≤ n
Few n _ = Unit

-- What a request may have made of the index: nothing, or an insertion that has status 200.
abbrev Inserts :
    {F N : Type 0} → IvfRabitqIndex F N → Str → IvfRabitqIndex F N × (ℕ × Body F) → Type 0
Inserts idx uri r =
    (r.0 ≡ idx) ⊎ ((r.1.0 ≡ 200) × ((uri ≡ insert_path) ⊎ (uri ≡ batch_insert_path)))

module _ {F N : Type 0} ⦃fl : Float F⦄ ⦃fn : Float N⦄ where
  search-Ensures :
      (lx : Lexis N) (idx : IvfRabitqIndex F N) (query : List F) (options : SearchOptions)
      (pool : Option (List ℕ → List ℕ))
      → Ensures (λ found. length found ≤ options.k) (search lx idx query options pool)
  unfolding search
  search-Ensures lx idx query options pool =
      let P : List (ℕ × F) → Type 0 = λ found. length found ≤ options.k in
      let n = length idx.partitions in
      let nprobe = if options.nprobe == 0 then n else min options.nprobe n in
      let pred = filter_of lx options in
      let quantized = quantize_query idx query options.query_bits in
      let selection = select_partitions idx query pred nprobe in
      Ensures-bind P (assert (length query == idx.config.dim)) _ (λ _.
        Ensures-if P (length idx.raw == 0 || options.k == 0) (some []) _ (omega arith) (
          Ensures-bind P (encode idx.quantizer query) _ (λ code. Ensures-bind P quantized _ (λ qq.
            Ensures-bind P selection _ (λ pids.
              let scanned =
                scan_all (scan_one idx code qq pred options.fastscan) (arrange pool pids) in
              Ensures-bind P scanned _ (λ candidates.
                Ensures-if P (length candidates == 0) (some []) _ (omega arith)
                  (Ensures-bind P (rerank idx query options nprobe candidates) _ kept)))))))
    where
      kept : (refined : List (ℕ × F)) → length (take options.k refined) ≤ options.k
      kept refined = ground (arith, length-take options.k refined)

  answer_search-Few :
      (lx : Lexis N) (idx : IvfRabitqIndex F N) (defaults : SearchOptions)
      (request : Str ⊎ SearchRequest F)
      → Ensures (λ r. Few max_k r.1) (answer_search lx idx defaults request)
  unfolding answer_search merged
  answer_search-Few lx idx defaults (inl message) = tt
  answer_search-Few lx idx defaults (inr req) =
      let k = min (unwrap_or req.k defaults.k) max_k in
      Ensures-if (λ r. Few max_k r.1) (k == 0) _ _ tt
        (Ensures-ap (λ found. length found ≤ k) (λ r. Few max_k r.1)
          (search lx idx req.query (merged defaults req k) none)
          (λ found. (200, Body.results found)) (λ found le. omega (arith, le))
          (search-Ensures lx idx req.query (merged defaults req k) none))

  -- A search that is answered with results has 256 of them at most.
  pub handle_search-max_k :
      (lx : Lexis N) (serde : Serde F N) (idx : IvfRabitqIndex F N) (defaults : SearchOptions)
      (body : List ℕ) (status : ℕ) (found : List (ℕ × F))
      → handle_search lx serde idx defaults body ≡ some (status, Body.results found)
      → length found ≤ 256
  unfolding handle_search
  handle_search-max_k lx serde idx defaults body status found e =
      Ensures-some (λ r. Few max_k r.1) _ (status, Body.results found)
        (answer_search-Few lx idx defaults (serde.search_request body)) e

  answer_insert-Inserts :
      (idx : IvfRabitqIndex F N) (uri : Str) (request : Str ⊎ InsertRequest F N)
      → uri ≡ insert_path
      → Ensures (Inserts idx uri) (answer_insert idx request)
  unfolding answer_insert
  answer_insert-Inserts idx uri (inl message) at = inl refl
  answer_insert-Inserts idx uri (inr req) at =
      Ensures-bind (Inserts idx uri) (insert_vector idx req.vector req.payload) _
        (λ one. inr (refl, inl at))

  insert_batch-Inserts :
      (idx : IvfRabitqIndex F N) (uri : Str) (vectors : List (List F))
      (payloads : Option (List (Payload N)))
      → uri ≡ batch_insert_path
      → Ensures (Inserts idx uri) (insert_batch idx vectors payloads)
  unfolding insert_batch
  insert_batch-Inserts idx uri vectors none at =
      Ensures-bind (Inserts idx uri) (add_each idx vectors) _ (λ all. inr (refl, inr at))
  insert_batch-Inserts idx uri vectors (some payloads) at =
      Ensures-if (Inserts idx uri) (not (length payloads == length vectors)) _ _ (inl refl) (
        Ensures-bind (Inserts idx uri) (add_pairs idx vectors payloads) _
          (λ all. inr (refl, inr at)))

  answer_batch-Inserts :
      (idx : IvfRabitqIndex F N) (uri : Str) (request : Str ⊎ BatchInsertRequest F N)
      → uri ≡ batch_insert_path
      → Ensures (Inserts idx uri) (answer_batch idx request)
  unfolding answer_batch
  answer_batch-Inserts idx uri (inl message) at = inl refl
  answer_batch-Inserts idx uri (inr req) at =
      insert_batch-Inserts idx uri req.vectors req.payloads at

  route-Inserts :
      (lx : Lexis N) (serde : Serde F N) (idx : IvfRabitqIndex F N) (defaults : SearchOptions)
      (method : Method) (uri : Str) (bytes : List ℕ)
      → Ensures (Inserts idx uri) (route lx serde idx defaults method uri bytes)
  unfolding route handle_insert handle_batch_insert
  route-Inserts lx serde idx defaults Method.options uri bytes = inl refl
  route-Inserts lx serde idx defaults Method.get uri bytes =
      let P = Inserts idx uri in
      Ensures-if P (str_eq uri health_path) _ _ (inl refl) (
        Ensures-if P (str_eq uri root_path) _ _ (inl refl) (
          Ensures-if P (str_eq uri app_js_path) _ _ (inl refl) (
            Ensures-if P (str_eq uri style_css_path) _ _ (inl refl)
              (Ensures-if P (str_eq uri stats_path) _ _ (inl refl) (inl refl)))))
  route-Inserts lx serde idx defaults Method.post uri bytes =
      let P = Inserts idx uri in
      let body = read_request_body bytes in
      Ensures-if P (str_eq uri search_path) _ _
        (Ensures-bind P (handle_search lx serde idx defaults body) _ (λ reply. inl refl))
        (Ensures-test P (str_eq uri insert_path) _ _
          (λ t.
            answer_insert-Inserts idx uri (serde.insert_request body)
              ((str_eq_iff uri insert_path).0 t))
          (Ensures-test P (str_eq uri batch_insert_path) _ _
            (λ t.
              answer_batch-Inserts idx uri (serde.batch_request body)
                ((str_eq_iff uri batch_insert_path).0 t))
            (inl refl)))
  route-Inserts lx serde idx defaults Method.other uri bytes = inl refl

  -- A request that is answered leaves the index as it was, but for an insertion: its path is that of
  -- one, and its status is 200.
  pub route-insert_path :
      (lx : Lexis N) (serde : Serde F N) (idx next : IvfRabitqIndex F N) (defaults : SearchOptions)
      (method : Method) (uri : Str) (bytes : List ℕ) (status : ℕ) (reply : Body F)
      → route lx serde idx defaults method uri bytes ≡ some (next, (status, reply))
      → (next ≡ idx) ⊎ ((status ≡ 200) × ((uri ≡ insert_path) ⊎ (uri ≡ batch_insert_path)))
  route-insert_path lx serde idx next defaults method uri bytes status reply e =
      Ensures-some (Inserts idx uri) _ (next, (status, reply))
        (route-Inserts lx serde idx defaults method uri bytes) e
