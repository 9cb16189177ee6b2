-- ===== src/Repository/Keys.antt =====
-- Tables with a key (PRIMARY KEY and UNIQUE columns): rows of distinct keys, keys below a
-- sequence, and sums over the rows of a table, under each kind of statement.
use mathlib.Core.Option
use mathlib.Core.Path.{subst}
use dragon_market.Base.{
  ℕ, ◌≤◌, ◌<◌, ◌≡◌, refl, sym, ◌∙◌, inl, inr, ◌+◌, Bool, true, none, some, List, [], ◌∷◌, ◌++◌,
  ◌==◌, if◌then◌else◌, arith, Bool-cases, ==→eq,
}
use dragon_market.Repository.Tables.{find_row, select, update_rows, find_row-select-none}

abbrev pub sum_by {ℓ} : {A : Type ℓ} → (A → ℕ) → List A → ℕ
sum_by w [] = 0
sum_by w (x ∷ xs) = w x + sum_by w xs

pub sum_by-append {ℓ} :
    {A : Type ℓ} (w : A → ℕ) (xs : List A) (y : A) → sum_by w (xs ++ y ∷ []) ≡ sum_by w xs + w y
sum_by-append w [] y = omega arith
sum_by-append w (x ∷ xs) y = omega (arith, sum_by-append w xs y)

module _ {ℓ} {A : Type ℓ} (key : A → ℕ) where
  abbrev pub has_key : ℕ → A → Bool
  has_key k x = key x == k

  -- No two rows share a key.
  abbrev pub Distinct : List A → Type ℓ
  Distinct [] = Unit
  Distinct (x ∷ xs) = (find_row (has_key (key x)) xs ≡ none) × Distinct xs

  -- Every key is below n.
  abbrev pub Below : ℕ → List A → Type 0
  Below n [] = Unit
  Below n (x ∷ xs) = (key x < n) × Below n xs

  pub Below-mono : (m n : ℕ) (xs : List A) → m ≤ n → Below m xs → Below n xs
  Below-mono m n [] h v = tt
  Below-mono m n (x ∷ xs) h v = (omega arith, Below-mono m n xs h v.1)

  pub append-Below : (n : ℕ) (xs : List A) (y : A) → Below n xs → key y < n → Below n (xs ++ y ∷ [])
  append-Below n [] y v h = (h, tt)
  append-Below n (x ∷ xs) y v h = (v.0, append-Below n xs y v.1 h)

  pub find_row_above : (n : ℕ) (xs : List A) → Below n xs → find_row (has_key n) xs ≡ none
  unfolding find_row
  find_row_above n [] v = refl
  find_row_above n (x ∷ xs) v = ground (arith, find_row_above n xs v.1)

  find_row-append_ne :
      (k : ℕ) (xs : List A) (y : A)
      → k < key y
      → find_row (has_key k) xs ≡ none
      → find_row (has_key k) (xs ++ y ∷ []) ≡ none
  unfolding find_row
  find_row-append_ne k [] y h e = ground arith
  find_row-append_ne k (x ∷ xs) y h e = ground (arith, find_row-append_ne k xs y h)

  -- An INSERT under the next id of the sequence keeps the keys distinct.
  pub append-Distinct :
      (xs : List A) (y : A) → Distinct xs → Below (key y) xs → Distinct (xs ++ y ∷ [])
  unfolding find_row
  append-Distinct [] y v h = (refl, tt)
  append-Distinct (x ∷ xs) y v h =
      (find_row-append_ne (key x) xs y h.0 v.0, append-Distinct xs y v.1 h.1)

  -- What stands under the keys after an INSERT.
  pub find_row-append :
      (k : ℕ) (xs : List A) (y : A)
      → Below (key y) xs
      → find_row (has_key k) (xs ++ y ∷ [])
        ≡ (if key y == k then some y else find_row (has_key k) xs)
  unfolding find_row
  find_row-append k [] y v = refl
  find_row-append k (x ∷ xs) y v = ground (arith, find_row-append k xs y v.1)

  -- An UPDATE that keeps the keys.
  module _ (p : A → Bool) (f : A → A) (keeps : (x : A) → key (f x) ≡ key x) where
    pub update_rows-Below : (n : ℕ) (xs : List A) → Below n xs → Below n (update_rows p f xs)
    unfolding update_rows
    update_rows-Below n [] v = tt
    update_rows-Below n (x ∷ xs) v = (ground (arith, keeps x), update_rows-Below n xs v.1)

    pub find_row-update_rows-none :
        (k : ℕ) (xs : List A)
        → find_row (has_key k) xs ≡ none
        → find_row (has_key k) (update_rows p f xs) ≡ none
    unfolding find_row update_rows
    find_row-update_rows-none k [] e = refl
    find_row-update_rows-none k (x ∷ xs) e = ground (arith, keeps x, find_row-update_rows-none k xs)

    pub update_rows-Distinct : (xs : List A) → Distinct xs → Distinct (update_rows p f xs)
    unfolding update_rows
    update_rows-Distinct [] v = tt
    update_rows-Distinct (x ∷ xs) v =
        ground
          (arith, keeps x, find_row-update_rows-none (key x) xs v.0, update_rows-Distinct xs v.1)

  -- An UPDATE by key, seen through a query by key.
  pub find_row-update_rows :
      (k j : ℕ) (f : A → A) (xs : List A)
      → ((x : A) → key (f x) ≡ key x)
      → find_row (has_key j) (update_rows (has_key k) f xs)
        ≡ (if j == k then Option.map f (find_row (has_key j) xs) else find_row (has_key j) xs)
  unfolding find_row update_rows
  find_row-update_rows k j f [] keeps = ground arith
  find_row-update_rows k j f (x ∷ xs) keeps =
      ground (arith, keeps x, find_row-update_rows k j f xs keeps)

  -- Where no row has the key, an UPDATE by key changes nothing.
  pub update_rows-none :
      (k : ℕ) (f : A → A) (xs : List A)
      → find_row (has_key k) xs ≡ none
      → update_rows (has_key k) f xs ≡ xs
  unfolding find_row update_rows
  update_rows-none k f [] e = refl
  update_rows-none k f (x ∷ xs) e = ground (arith, update_rows-none k f xs)

  key_free :
      (k : ℕ) (y : A) (xs : List A)
      → (key y == k) ≡ true
      → find_row (has_key (key y)) xs ≡ none
      → find_row (has_key k) xs ≡ none
  key_free k y xs h e = subst (λ j. find_row (has_key j) xs ≡ none) (==→eq (key y) k h) e

  -- With distinct keys an UPDATE by key changes a sum by what its one row changes.
  pub sum_by-update_rows :
      (w : A → ℕ) (k : ℕ) (f : A → A) (xs : List A) (x : A)
      → Distinct xs
      → find_row (has_key k) xs ≡ some x
      → sum_by w (update_rows (has_key k) f xs) + w x ≡ sum_by w xs + w (f x)
  unfolding find_row update_rows
  sum_by-update_rows w k f [] x v e = cc
  sum_by-update_rows w k f (y ∷ xs) x v e = elim (Bool-cases (key y == k)) [
    | inl hit ↦ ground (arith, update_rows-none k f xs (key_free k y xs hit v.0))
    | inr miss ↦ ground (arith, sum_by-update_rows w k f xs x v.1)
  ]

  -- A row's weight is part of the sum.
  pub le-sum_by :
      (w : A → ℕ) (k : ℕ) (xs : List A) (x : A)
      → find_row (has_key k) xs ≡ some x
      → w x ≤ sum_by w xs
  unfolding find_row
  le-sum_by w k [] x e = cc
  le-sum_by w k (y ∷ xs) x e = ground (arith, le-sum_by w k xs x)

  -- With distinct keys an UPDATE by key depends on the values of one row only.
  pub update_rows_const :
      (k : ℕ) (f : A → A) (xs : List A) (x : A)
      → Distinct xs
      → find_row (has_key k) xs ≡ some x
      → update_rows (has_key k) f xs ≡ update_rows (has_key k) (λ _. f x) xs
  unfolding find_row update_rows
  update_rows_const k f [] x v e = cc
  update_rows_const k f (y ∷ xs) x v e = elim (Bool-cases (key y == k)) [
    | inl hit ↦
        (let free = key_free k y xs hit v.0 in
          ground (arith, update_rows-none k f xs free, update_rows-none k (λ _. f x) xs free))
    | inr miss ↦ ground (arith, update_rows_const k f xs x v.1)
  ]

  -- A row that any query finds is the one that stands under its key.
  pub find_row-key :
      (p : A → Bool) (xs : List A) (x : A)
      → Distinct xs
      → find_row p xs ≡ some x
      → find_row (has_key (key x)) xs ≡ some x
  unfolding find_row
  find_row-key p [] x v e = cc
  find_row-key p (y ∷ xs) x v e = elim (Bool-cases (p y)) [
    | inl hit ↦ ground arith
    | inr miss ↦ ground (arith, find_row-key p xs x v.1, key_free (key x) y xs)
  ]

  -- The same, for a row that is there.
  pub find_row-update_rows-some :
      (k j : ℕ) (f : A → A) (xs : List A) (x : A)
      → ((x : A) → key (f x) ≡ key x)
      → find_row (has_key k) xs ≡ some x
      → find_row (has_key j) (update_rows (has_key k) f xs)
        ≡ (if j == k then some (f x) else find_row (has_key j) xs)
  find_row-update_rows-some k j f xs x keeps e = elim (Bool-cases (j == k)) [
    | inl hit ↦
        find_row-update_rows k j f xs keeps
        ∙ rw (hit, subst (λ i. find_row (has_key i) xs ≡ some x) (sym (==→eq j k hit)) e)
    | inr miss ↦ find_row-update_rows k j f xs keeps ∙ rw miss
  ]

  pub select-Distinct : (p : A → Bool) (xs : List A) → Distinct xs → Distinct (select p xs)
  unfolding select
  select-Distinct p [] v = tt
  select-Distinct p (x ∷ xs) v =
      ground (arith, select-Distinct p xs v.1, find_row-select-none (has_key (key x)) p xs v.0)

  -- The rows of ys stand in xs under their keys.
  abbrev pub Within : List A → List A → Type ℓ
  Within xs [] = Unit
  Within xs (y ∷ ys) = (find_row (has_key (key y)) xs ≡ some y) × Within xs ys

  Within-more :
      (x : A) (xs ys : List A)
      → find_row (has_key (key x)) xs ≡ none
      → Within xs ys
      → Within (x ∷ xs) ys
  unfolding find_row
  Within-more x xs [] free v = tt
  Within-more x xs (y ∷ ys) free v =
      (ground (arith, v.0, key_free (key y) x xs), Within-more x xs ys free v.1)

  Within-self : (xs : List A) → Distinct xs → Within xs xs
  unfolding find_row
  Within-self [] v = tt
  Within-self (x ∷ xs) v = (ground arith, Within-more x xs xs v.0 (Within-self xs v.1))

  Within-select : (p : A → Bool) (xs ys : List A) → Within xs ys → Within xs (select p ys)
  unfolding select
  Within-select p xs [] v = tt
  Within-select p xs (y ∷ ys) v = ground (arith, v.0, Within-select p xs ys v.1)

  -- What is selected from a table of distinct keys stands in it.
  pub select-Within : (p : A → Bool) (xs : List A) → Distinct xs → Within xs (select p xs)
  select-Within p xs v = Within-select p xs xs (Within-self xs v)
