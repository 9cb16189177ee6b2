-- ===== src/Repository/Tables.antt =====
-- Rows of a table, selected by a test: the WHERE clauses of the SQL statements.
use mathlib.Core.Option
use dragon_market.Base.{
  Bool-cases, inl, inr, refl, false, ◌≡◌, Bool, true, Option, none, some, List, [], ◌∷◌, ◌++◌,
  arith, if◌then◌else◌,
}

module _ {ℓ} {A : Type ℓ} where
  -- SELECT … WHERE p, at the first row
  unfoldable pub find_row : (A → Bool) → List A → Option A
  find_row p [] = none
  find_row p (x ∷ xs) = if p x then some x else find_row p xs

  -- SELECT … WHERE p
  unfoldable pub select : (A → Bool) → List A → List A
  select p [] = []
  select p (x ∷ xs) = let rest = select p xs in if p x then x ∷ rest else rest

  -- UPDATE … SET f WHERE p
  unfoldable pub update_rows : (A → Bool) → (A → A) → List A → List A
  update_rows p f [] = []
  update_rows p f (x ∷ xs) = (if p x then f x else x) ∷ update_rows p f xs

  -- DELETE … WHERE p
  unfoldable pub delete_rows : (A → Bool) → List A → List A
  delete_rows p [] = []
  delete_rows p (x ∷ xs) = let rest = delete_rows p xs in if p x then rest else x ∷ rest

  -- A row that is found fits.
  pub find_row-fits : (p : A → Bool) (xs : List A) (x : A) → find_row p xs ≡ some x → p x ≡ true
  unfolding find_row
  find_row-fits p [] x h = cc
  find_row-fits p (y ∷ xs) x h = ground (arith, find_row-fits p xs x)

  -- An UPDATE seen by a query for the same rows, when it keeps the tested columns.
  pub find_row-update_rows_same :
      (p : A → Bool) (f : A → A) (xs : List A)
      → ((x : A) → p (f x) ≡ p x)
      → find_row p (update_rows p f xs) ≡ Option.map f (find_row p xs)
  unfolding find_row update_rows
  find_row-update_rows_same p f [] keeps = refl
  find_row-update_rows_same p f (x ∷ xs) keeps = elim (Bool-cases (p x)) [
    | inl e ↦ rw (e, keeps x, e)
    | inr e ↦ rw (e, e) (find_row-update_rows_same p f xs keeps)
  ]

  -- An UPDATE seen by a query for other rows.
  pub find_row-update_rows_other :
      (p q : A → Bool) (f : A → A) (xs : List A)
      → ((x : A) → p (f x) ≡ p x)
      → ((x : A) → p x ≡ true → q x ≡ false)
      → find_row p (update_rows q f xs) ≡ find_row p xs
  unfolding find_row update_rows
  find_row-update_rows_other p q f [] keeps apart = refl
  find_row-update_rows_other p q f (x ∷ xs) keeps apart =
      ground (arith, keeps x, apart x, find_row-update_rows_other p q f xs keeps apart)

  -- Where no row fits p, no row that any other query finds fits it.
  pub find_row-misses :
      (p q : A → Bool) (xs : List A) (x : A)
      → find_row p xs ≡ none
      → find_row q xs ≡ some x
      → p x ≡ false
  unfolding find_row
  find_row-misses p q [] x e h = cc
  find_row-misses p q (y ∷ xs) x e h = ground (arith, find_row-misses p q xs x)

  -- An UPDATE whose new rows do not fit p brings in no row that does.
  pub find_row-update_rows-none :
      (p q : A → Bool) (f : A → A) (xs : List A)
      → ((x : A) → q x ≡ true → p (f x) ≡ false)
      → find_row p xs ≡ none
      → find_row p (update_rows q f xs) ≡ none
  unfolding find_row update_rows
  find_row-update_rows-none p q f [] miss e = refl
  find_row-update_rows-none p q f (x ∷ xs) miss e =
      ground (arith, miss x, find_row-update_rows-none p q f xs miss)

  -- Of two UPDATEs of the same rows, where the second sets all that the first has set, the second
  -- counts.
  pub update_rows-twice :
      (p : A → Bool) (f g : A → A) (xs : List A)
      → ((x : A) → p (f x) ≡ p x)
      → ((x : A) → g (f x) ≡ g x)
      → update_rows p g (update_rows p f xs) ≡ update_rows p g xs
  unfolding update_rows
  update_rows-twice p f g [] same over = refl
  update_rows-twice p f g (x ∷ xs) same over =
      ground (arith, same x, over x, update_rows-twice p f g xs same over)

  -- A narrower query finds nothing where a wider one does not.
  pub find_row-narrower :
      (p q : A → Bool) (xs : List A)
      → ((x : A) → p x ≡ true → q x ≡ true)
      → find_row q xs ≡ none
      → find_row p xs ≡ none
  unfolding find_row
  find_row-narrower p q [] wider e = refl
  find_row-narrower p q (x ∷ xs) wider e = ground (arith, wider x, find_row-narrower p q xs wider)

  -- An INSERT of the first row that fits.
  pub find_row-append_new :
      (p : A → Bool) (xs : List A) (y : A)
      → find_row p xs ≡ none
      → p y ≡ true
      → find_row p (xs ++ y ∷ []) ≡ some y
  unfolding find_row
  find_row-append_new p [] y e h = ground arith
  find_row-append_new p (x ∷ xs) y e h = ground (arith, find_row-append_new p xs y)

  -- An INSERT after a row that fits.
  pub find_row-append_found :
      (p : A → Bool) (xs : List A) (y x : A)
      → find_row p xs ≡ some x
      → find_row p (xs ++ y ∷ []) ≡ some x
  unfolding find_row
  find_row-append_found p [] y x e = cc
  find_row-append_found p (z ∷ xs) y x e = ground (arith, find_row-append_found p xs y x)

  pub find_row-append-none :
      (p : A → Bool) (xs : List A) (y : A)
      → find_row p xs ≡ none
      → p y ≡ false
      → find_row p (xs ++ y ∷ []) ≡ none
  unfolding find_row
  find_row-append-none p [] y e h = ground arith
  find_row-append-none p (x ∷ xs) y e h = ground (arith, find_row-append-none p xs y)

  pub find_row-never : (p : A → Bool) (xs : List A) → ((x : A) → p x ≡ false) → find_row p xs ≡ none
  unfolding find_row
  find_row-never p [] never = refl
  find_row-never p (x ∷ xs) never = ground (arith, never x, find_row-never p xs never)

  -- What a query over selected rows misses is not among the rows that were selected.
  pub find_row-select :
      (p q r : A → Bool) (xs : List A) (x : A)
      → find_row p (select q xs) ≡ none
      → find_row r xs ≡ some x
      → q x ≡ true
      → p x ≡ false
  unfolding find_row select
  find_row-select p q r [] x miss found h = cc
  find_row-select p q r (y ∷ xs) x miss found h = elim (Bool-cases (q y)) [
    | inl hit ↦ ground (arith, find_row-select p q r xs x)
    | inr out ↦ ground (arith, find_row-select p q r xs x)
  ]

  pub find_row-select-none :
      (p q : A → Bool) (xs : List A) → find_row p xs ≡ none → find_row p (select q xs) ≡ none
  unfolding find_row select
  find_row-select-none p q [] miss = refl
  find_row-select-none p q (y ∷ xs) miss = ground (arith, find_row-select-none p q xs)
