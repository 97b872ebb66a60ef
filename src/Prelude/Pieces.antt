-- ===== src/Prelude/Pieces.antt =====
-- Lists written one after the other, and the place of each among them.
use vdb_rs.Prelude.{
  ℕ, zero, suc, ◌+◌, ◌*◌, ◌≤◌, ◌≡◌, refl, ap, sym, ◌∙◌, subst, List, [], ◌∷◌, ◌++◌, some, length,
  take, drop, get_elem?, arith, length-append, take-append, drop-append, append_assoc, append-nil,
  All, All-append, map,
}

module _ {ℓ} {A : Type ℓ} where
  abbrev pub join : List (List A) → List A
  join [] = []
  join (x ∷ xs) = x ++ join xs

  pub join-append : (xs ys : List (List A)) → join (xs ++ ys) ≡ join xs ++ join ys
  join-append [] ys = refl
  join-append (x ∷ xs) ys =
      ap (◌++◌ x) (join-append xs ys) ∙ sym (append_assoc x (join xs) (join ys))

  pub All-join {κ} : (P : A → Type κ) (xs : List (List A)) → All (All P) xs → All P (join xs)
  All-join P [] h = tt
  All-join P (x ∷ xs) h = All-append P x (join xs) h.0 (All-join P xs h.1)

  -- The part of a list at the place of one of the pieces it is made of is that piece, and lies
  -- within the list.
  pub take-drop-pieces :
      (front rest : List A) (pieces : List (List A)) (i offset : ℕ) (piece : List A)
      → get_elem? pieces i ≡ some piece
      → length front + length (join (take i pieces)) ≡ offset
      → (take (length piece) (drop offset (front ++ (join pieces ++ rest))) ≡ piece)
        × (offset + length piece ≤ length (front ++ (join pieces ++ rest)))
  take-drop-pieces front rest [] i offset piece e o = cc
  take-drop-pieces front rest (p ∷ ps) zero offset piece e o =
      let same : p ≡ piece = cc in
      let whole : front ++ ((p ++ join ps) ++ rest) ≡ front ++ (piece ++ (join ps ++ rest)) =
        ap (◌++◌ front) (append_assoc p (join ps) rest ∙ ap (λ q. q ++ (join ps ++ rest)) same) in
      (
        rw
            (
              whole,
              drop-append offset front (piece ++ (join ps ++ rest)) (omega arith),
              take-append (length piece) piece (join ps ++ rest) refl,
            )
            refl,
        rw whole (
            omega (
              arith,
              length-append front (piece ++ (join ps ++ rest)),
              length-append piece (join ps ++ rest),
            )),
      )
  take-drop-pieces front rest (p ∷ ps) (suc i) offset piece e o =
      let whole : (front ++ p) ++ (join ps ++ rest) ≡ front ++ ((p ++ join ps) ++ rest) =
        append_assoc front p (join ps ++ rest)
        ∙ ap (◌++◌ front) (sym (append_assoc p (join ps) rest)) in
      subst
        (λ l. (take (length piece) (drop offset l) ≡ piece) × (offset + length piece ≤ length l))
        whole
        (take-drop-pieces (front ++ p) rest ps i offset piece e
          (omega (arith, length-append front p, length-append p (join (take i ps)))))

  -- The same, of a list that is all pieces.
  pub take-drop-join :
      (pieces : List (List A)) (i offset : ℕ) (piece : List A)
      → get_elem? pieces i ≡ some piece
      → length (join (take i pieces)) ≡ offset
      → (take (length piece) (drop offset (join pieces)) ≡ piece)
        × (offset + length piece ≤ length (join pieces))
  take-drop-join pieces i offset piece e o =
      subst
        (λ l. (take (length piece) (drop offset l) ≡ piece) × (offset + length piece ≤ length l))
        (append-nil (join pieces))
        (take-drop-pieces [] [] pieces i offset piece e (omega (arith, o)))

  -- Pieces of one length.
  pub length-join_same :
      (size : ℕ) (pieces : List (List A))
      → All (λ p. length p ≡ size) pieces
      → length (join pieces) ≡ length pieces * size
  length-join_same size [] h = omega arith
  length-join_same size (p ∷ ps) h =
      omega (arith, length-append p (join ps), h.0, length-join_same size ps h.1)

  -- Appending the pieces one at a time.
  abbrev pub appended : List A → List (List A) → List A
  appended front [] = front
  appended front (p ∷ ps) = appended (front ++ p) ps

  pub appended-join :
      (front : List A) (pieces : List (List A)) → appended front pieces ≡ front ++ join pieces
  appended-join front [] = sym (append-nil front)
  appended-join front (p ∷ ps) = appended-join (front ++ p) ps ∙ append_assoc front p (join ps)

  pub length-appended :
      (front : List A) (pieces : List (List A)) (n : ℕ)
      → length front ≡ n
      → length (appended front pieces) ≡ n + length (join pieces)
  length-appended front pieces n h =
      ap length (appended-join front pieces)
      ∙ length-append front (join pieces)
      ∙ ap (λ m. m + length (join pieces)) h

  pub length-join-take :
      (pieces : List (List A)) (i : ℕ) (piece : List A)
      → get_elem? pieces i ≡ some piece
      → length (join (take (suc i) pieces)) ≡ length (join (take i pieces)) + length piece
  length-join-take [] i piece e = cc
  length-join-take (p ∷ ps) zero piece e =
      let same : p ≡ piece = cc in ap length (append-nil p) ∙ ap length same ∙ omega arith
  length-join-take (p ∷ ps) (suc i) piece e = omega (
    arith,
    length-append p (join (take (suc i) ps)),
    length-append p (join (take i ps)),
    length-join-take ps i piece e,
  )

  pub length-join-take_same :
      (size : ℕ) (pieces : List (List A)) (i : ℕ) (piece : List A)
      → All (λ p. length p ≡ size) pieces
      → get_elem? pieces i ≡ some piece
      → (length (join (take i pieces)) ≡ i * size) × (length piece ≡ size)
  length-join-take_same size [] i piece h e = cc
  length-join-take_same size (p ∷ ps) zero piece h e =
      let same : p ≡ piece = cc in (omega arith, ap length (sym same) ∙ h.0)
  length-join-take_same size (p ∷ ps) (suc i) piece h e =
      let rest = length-join-take_same size ps i piece h.1 e in
      (omega (arith, length-append p (join (take i ps)), h.0, rest.0), rest.1)

  -- What stands before one of the pieces, the piece, and what stands after it.
  pub pieces_split :
      (front rest : List A) (pieces : List (List A)) (i : ℕ) (piece : List A)
      → get_elem? pieces i ≡ some piece
      → front ++ (join pieces ++ rest)
        ≡ (front ++ join (take i pieces)) ++ (piece ++ (join (drop (suc i) pieces) ++ rest))
  pieces_split front rest [] i piece e = cc
  pieces_split front rest (p ∷ ps) zero piece e =
      let same : p ≡ piece = cc in
      ap (◌++◌ front) (append_assoc p (join ps) rest ∙ ap (λ q. q ++ (join ps ++ rest)) same)
      ∙ ap (λ f. f ++ (piece ++ (join ps ++ rest))) (sym (append-nil front))
  pieces_split front rest (p ∷ ps) (suc i) piece e =
      ap (◌++◌ front) (append_assoc p (join ps) rest)
      ∙ sym (append_assoc front p (join ps ++ rest))
      ∙ pieces_split (front ++ p) rest ps i piece e
      ∙ ap (λ f. f ++ (piece ++ (join (drop (suc i) ps) ++ rest)))
          (append_assoc front p (join (take i ps)))

module _ {ℓ κ} {A : Type ℓ} {B : Type κ} where
  pub get_elem?-map :
      (f : A → B) (xs : List A) (i : ℕ) (a : A)
      → get_elem? xs i ≡ some a
      → get_elem? (map f xs) i ≡ some (f a)
  get_elem?-map f [] i a e = cc
  get_elem?-map f (x ∷ xs) zero a e = let same : x ≡ a = cc in ap (λ y. some (f y)) same
  get_elem?-map f (x ∷ xs) (suc i) a e = get_elem?-map f xs i a e

  pub All-map {μ} :
      (P : B → Type μ) (f : A → B) (xs : List A) → All (λ x. P (f x)) xs → All P (map f xs)
  All-map P f [] h = tt
  All-map P f (x ∷ xs) h = (h.0, All-map P f xs h.1)

pub All-all {ℓ κ} : {A : Type ℓ} (P : A → Type κ) (xs : List A) → ((a : A) → P a) → All P xs
All-all P [] f = tt
All-all P (x ∷ xs) f = (f x, All-all P xs f)
