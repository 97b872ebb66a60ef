-- ===== src/Storage/Io.antt =====
-- Reading a file that is a list of bytes: an error of the source is a value, and so is a panic.
use vdb_rs.Prelude.{
  ℕ, zero, suc, ◌+◌, ◌-◌, ◌*◌, ◌≡◌, refl, ap, sym, ◌∙◌, Bool, true, false, ◌&&◌, List, [], ◌∷◌,
  ◌++◌, Option, none, some, length, take, drop, leb, if◌then◌else◌, ◌==◌, arith, All, get_elem?,
  Bool-cases, inl, inr, min, ◌≤◌, length-take, length-drop, drop-add, take-drop-take,
}
use vdb_rs.Prelude.Panic.{Panics}
use vdb_rs.Prelude.Pieces.{join, take-drop-pieces, take-drop-join, length-join-take_same}

-- The errors of `load_index`, `load_index_mmap` and `save_index`, each with its own message in the
-- source; `unexpected_eof` is that of `read_exact`, and `invalid_data` is that of the JSON text.
pub data IoError : Type 0 where
  unexpected_eof file_too_short bad_header bad_magic unsupported_version bad_meta : IoError
  invalid_data checksum_mismatch bad_manifest empty_file over_budget not_found : IoError

pub data Io {ℓ} (A : Type ℓ) : Type ℓ where
  ok : A → Io A
  err : IoError → Io A
  panic : Io A

infixl 5 ◌>>=◌ ◌>>◌
abbrev pub ◌>>=◌ {ℓ κ} : {A : Type ℓ} {B : Type κ} → Io A → (A → Io B) → Io B
Io.ok a >>= f = f a
Io.err e >>= f = Io.err e
Io.panic >>= f = Io.panic

abbrev pub ◌>>◌ {ℓ} : {B : Type ℓ} → Io (Unit {0}) → Io B → Io B
m >> k = m >>= λ _. k

-- `return Err(e)` unless the test passes.
abbrev pub ensure : Bool → IoError → Io (Unit {0})
ensure true e = Io.ok tt
ensure false e = Io.err e

abbrev pub or_err {ℓ} : {A : Type ℓ} → IoError → Option A → Io A
or_err e none = Io.err e
or_err e (some a) = Io.ok a

abbrev pub or_panic {ℓ} : {A : Type ℓ} → Panics A → Io A
or_panic none = Io.panic
or_panic (some a) = Io.ok a

module _ {ℓ} {A : Type ℓ} where
  -- `xs[start..end]`
  unfoldable pub slice : ℕ → ℕ → List A → Io (List A)
  slice start end xs =
      if leb start end && leb end (length xs)
      then Io.ok (take (end - start) (drop start xs))
      else Io.panic

  pub slice-join :
      (pieces : List (List A)) (i start end : ℕ) (piece : List A)
      → get_elem? pieces i ≡ some piece
      → length (join (take i pieces)) ≡ start
      → start + length piece ≡ end
      → slice start end (join pieces) ≡ Io.ok piece
  unfolding slice
  slice-join pieces i start end piece e s n =
      let (part, within) = take-drop-join pieces i start piece e s in
      let inside : (leb start end && leb end (length (join pieces))) ≡ true = ground arith in
      let size : end - start ≡ length piece = omega arith in rw (inside, size, part) refl

  -- The piece with number `i` among pieces of one length.
  pub slice-same :
      (size : ℕ) (pieces : List (List A)) (i : ℕ) (piece : List A)
      → All (λ p. length p ≡ size) pieces
      → get_elem? pieces i ≡ some piece
      → slice (i * size) (i * size + size) (join pieces) ≡ Io.ok piece
  slice-same size pieces i piece h e =
      let place = length-join-take_same size pieces i piece h e in
      slice-join pieces i (i * size) (i * size + size) piece e place.0 (omega (arith, place.1))

  slice_parts :
      (start end : ℕ) (xs part : List A)
      → slice start end xs ≡ Io.ok part
      → (start ≤ end) × (end ≤ length xs) × (take (end - start) (drop start xs) ≡ part)
  unfolding slice
  slice_parts start end xs part h = elim (Bool-cases (leb start end && leb end (length xs))) [
    | inl t ↦
        let same : Io.ok (take (end - start) (drop start xs)) ≡ Io.ok part = rw t at h in
        (ground arith, ground arith, cc)
    | inr t ↦ let no : Io.panic ≡ Io.ok part = rw t at h in cc
  ]

  -- A slice of a slice.
  pub slice_within :
      (start end a b s e : ℕ) (xs part piece : List A)
      → slice start end xs ≡ Io.ok part
      → slice a b part ≡ Io.ok piece
      → start + a ≡ s
      → start + b ≡ e
      → slice s e xs ≡ Io.ok piece
  unfolding slice
  slice_within start end a b s e xs part piece outer inner hs he =
      let (o1, o2, o3) = slice_parts start end xs part outer in
      let (i1, i2, i3) = slice_parts a b part piece inner in
      let size : length part ≡ min (end - start) (length xs - start) =
        ap length (sym o3)
        ∙ length-take (end - start) (drop start xs)
        ∙ ap (min (end - start)) (length-drop start xs) in
      let inside : (leb s e && leb e (length xs)) ≡ true = ground arith in
      let whole : take (e - s) (drop s xs) ≡ piece =
        (let q : e - s ≡ b - a = omega arith in ap (λ n. take n (drop s xs)) q)
        ∙ ap (take (b - a)) (drop-add start a s xs hs)
        ∙ sym (take-drop-take (b - a) a (end - start) (drop start xs) (omega (arith, size)))
        ∙ ap (λ l. take (b - a) (drop a l)) o3
        ∙ i3 in
      rw (inside, whole) refl

-- `seek` and `read_exact`: a read that passes the end is an error.
unfoldable pub read_at : ℕ → ℕ → List ℕ → Io (List ℕ)
read_at offset len file =
    let part = take len (drop offset file) in
    if length part == len then Io.ok part else Io.err IoError.unexpected_eof

pub read_at-pieces :
    (front rest : List ℕ) (pieces : List (List ℕ)) (i offset len : ℕ) (piece : List ℕ)
    → get_elem? pieces i ≡ some piece
    → length front + length (join (take i pieces)) ≡ offset
    → length piece ≡ len
    → read_at offset len (front ++ (join pieces ++ rest)) ≡ Io.ok piece
unfolding read_at
read_at-pieces front rest pieces i offset len piece e o n =
    let part = take-drop-pieces front rest pieces i offset piece e o in
    let size : (length piece == length piece) ≡ true = ground arith in rw (← n, part.0, size) refl

module _ {ℓ} {A : Type ℓ} where
  -- `for i in first..first + n`, with what each round pushes.
  abbrev pub each : (ℕ → Io A) → ℕ → ℕ → Io (List A)
  each f first zero = Io.ok []
  each f first (suc n) = f first >>= λ a. each f (suc first) n >>= λ rest. Io.ok (a ∷ rest)

  -- Rounds that each find their element.
  pub each-get_from :
      (f : ℕ → Io A) (xs : List A) (first : ℕ)
      → ((i : ℕ) (a : A) → get_elem? xs i ≡ some a → f (first + i) ≡ Io.ok a)
      → each f first (length xs) ≡ Io.ok xs
  each-get_from f [] first h = refl
  each-get_from f (x ∷ xs) first h =
      let here : f first ≡ Io.ok x =
        (let q : first ≡ first + 0 = omega arith in ap f q) ∙ h 0 x refl in
      rw
        (
          here,
          each-get_from f xs (suc first) (λ i a e.
              (let q : suc first + i ≡ first + suc i = omega arith in ap f q) ∙ h (suc i) a e),
        )
        refl

  pub each-get :
      (f : ℕ → Io A) (xs : List A)
      → ((i : ℕ) (a : A) → get_elem? xs i ≡ some a → f i ≡ Io.ok a)
      → each f 0 (length xs) ≡ Io.ok xs
  each-get f xs h =
      each-get_from f xs 0 (λ i a e. (let q : 0 + i ≡ i = omega arith in ap f q) ∙ h i a e)

module _ {ℓ κ} {A : Type ℓ} {B : Type κ} where
  -- The loop over the elements of a vector.
  abbrev pub for_each : (A → Io B) → List A → Io (List B)
  for_each f [] = Io.ok []
  for_each f (x ∷ xs) = f x >>= λ b. for_each f xs >>= λ rest. Io.ok (b ∷ rest)
