-- ===== src/Atomic.antt =====
-- Statements on how a transaction's body ends, and what run_tx makes of them.
pub mod Reads
use mathlib.Core.Path.{subst}
use dragon_market.Base.{
  sym, Option, none, some, ℕ, ◌≤◌, inl, inr, Bool-cases, ◌≡◌, refl, Bool, true, false, arith,
}
use dragon_market.Repository.Db.{
  Db, Tx, Error, Result, ok, err, Connection, run_tx, end_tx, rollback, ◌>>=◌, ◌>>◌, raise_if,
  or_raise, on_not_found,
}

-- A body that began at d ends well with P, or fails and has written nothing.
abbrev pub Atomic {ℓ} : {A : Type ℓ} → (A → Db → Type 0) → Db → Result A × Db → Type 0
Atomic P d (ok a, d') = P a d'
Atomic P d (err e, d') = d' ≡ d

-- The sequences have not been set back.
abbrev pub Later : Db → Db → Type 0
Later d d' = (d.next.bids ≤ d'.next.bids) × (d.next.auctions ≤ d'.next.auctions)

-- A body that began at d ends well with P, or fails, perhaps half way.
abbrev pub Ends {ℓ} : {A : Type ℓ} → (A → Db → Type 0) → Db → Result A × Db → Type 0
Ends P d (ok a, d') = P a d'
Ends P d (err e, d') = Later d d'

module _ {ℓ} {A : Type ℓ} (P : A → Db → Type 0) where
  pub weaken :
      (d : Db) (Q : A → Db → Type 0) (r : Result A × Db)
      → Atomic P d r
      → ((a : A) (d' : Db) → P a d' → Q a d')
      → Atomic Q d r
  weaken d Q (ok a, d') h f = f a d' h
  weaken d Q (err e, d') h f = h

  pub Atomic-Ends : (d d' : Db) (r : Result A × Db) → Later d d' → Atomic P d' r → Ends P d r
  Atomic-Ends d d' (ok a, x) l h = h
  Atomic-Ends d d' (err e, x) l h = ground (arith, h)

  pub weaken_Ends :
      (d : Db) (Q : A → Db → Type 0) (r : Result A × Db)
      → Ends P d r
      → ((a : A) (d' : Db) → P a d' → Q a d')
      → Ends Q d r
  weaken_Ends d Q (ok a, d') h f = f a d' h
  weaken_Ends d Q (err e, d') h f = h

  -- A part that began later than the body.
  pub Ends-from : (d x : Db) (r : Result A × Db) → Later d x → Ends P x r → Ends P d r
  Ends-from d x (ok a, y) l h = h
  Ends-from d x (err e, y) l h = omega arith

  -- One statement after another.
  pub bind-Ends {κ} :
      {B : Type κ} (Q : B → Db → Type 0) (d : Db) (m : Tx A) (f : A → Tx B) (t : ℕ) (x : Db)
      → Ends P d (m t x)
      → ((a : A) (y : Db) → P a y → Ends Q d (f a t y))
      → Ends Q d ((m >>= f) t x)
  bind-Ends Q d m f t x h k = follow (m t x) h
    where
      follow :
          (r : Result A × Db)
          → Ends P d r
          → Ends Q d (elim r.0 [ ok a ↦ f a t r.1 | err e ↦ (err e, r.1) ])
      follow (ok a, y) h = k a y h
      follow (err e, y) h = h

-- A query of at most one row, and what comes after it.
pub or_raise-Ends {ℓ κ} :
    {A : Type ℓ} {B : Type κ} (Q : B → Db → Type 0) (d : Db) (o : Option A) (e : Error)
    (f : A → Tx B) (t : ℕ) (x : Db)
    → Later d x
    → ((a : A) → o ≡ some a → Ends Q d (f a t x))
    → Ends Q d ((or_raise o e >>= f) t x)
or_raise-Ends Q d none e f t x l k = l
or_raise-Ends Q d (some a) e f t x l k = k a refl

-- The same, for a query whose absence of a row is translated.
pub query-Ends {ℓ κ} :
    {A : Type ℓ} {B : Type κ} (Q : B → Db → Type 0) (d : Db) (o : Option A) (e : Error)
    (f : A → Tx B) (t : ℕ) (x : Db)
    → Later d x
    → ((a : A) → o ≡ some a → Ends Q d (f a t x))
    → Ends Q d ((on_not_found e (or_raise o Error.not_found) >>= f) t x)
query-Ends Q d none e f t x l k = l
query-Ends Q d (some a) e f t x l k = k a refl

pub query-Atomic {ℓ κ} :
    {A : Type ℓ} {B : Type κ} (Q : B → Db → Type 0) (d : Db) (o : Option A) (e : Error)
    (f : A → Tx B) (t : ℕ)
    → ((a : A) → o ≡ some a → Atomic Q d (f a t d))
    → Atomic Q d ((on_not_found e (or_raise o Error.not_found) >>= f) t d)
query-Atomic Q d none e f t k = refl
query-Atomic Q d (some a) e f t k = k a refl

-- A guard, and what comes after it.
pub raise_if-Ends {κ} :
    {B : Type κ} (Q : B → Db → Type 0) (d : Db) (c : Bool) (e : Error) (f : Tx B) (t : ℕ) (x : Db)
    → Later d x
    → (c ≡ false → Ends Q d (f t x))
    → Ends Q d ((raise_if c e >> f) t x)
raise_if-Ends Q d true e f t x l k = l
raise_if-Ends Q d false e f t x l k = k refl

module _ {ℓ} {A : Type ℓ} (P : Db → Type 0) (d : Db) (before : P d)
    (restored : (d' : Db) → Later d d' → P (rollback d d')) where
  end_tx-keeps :
      (commits : Bool) (r : Result A × Db)
      → Ends (λ _ d'. P d' × Later d d') d r
      → P (end_tx commits d r).1
  unfolding end_tx
  end_tx-keeps true (ok a, d') h = h.0
  end_tx-keeps false (ok a, d') h = restored d' h.1
  end_tx-keeps true (err e, d') h = restored d' h
  end_tx-keeps false (err e, d') h = restored d' h

  -- What holds before a transaction, and after its body where that ends well, holds after it.
  pub run_tx-keeps :
      (c : Connection) (t : ℕ) (m : Tx A)
      → Ends (λ _ d'. P d' × Later d d') d (m t d)
      → P (run_tx c t m d).1
  unfolding run_tx
  run_tx-keeps c t m h = elim (Bool-cases c.begins) [
    | inl begins ↦ rw begins (end_tx-keeps c.commits (m t d) h)
    | inr fails ↦ rw fails before
  ]

  pub run_tx-keeps_atomic :
      (c : Connection) (t : ℕ) (m : Tx A)
      → Atomic (λ _ d'. P d' × Later d d') d (m t d)
      → P (run_tx c t m d).1
  run_tx-keeps_atomic c t m h =
      run_tx-keeps c t m
        (Atomic-Ends (λ _ d'. P d' × Later d d') d d (m t d) (omega arith, omega arith) h)

-- A transaction that ends well: so did its body, with the same result and state.
end_tx-ok {ℓ} :
    {A : Type ℓ} (commits : Bool) (d : Db) (r : Result A × Db) (a : A) (d' : Db)
    → end_tx commits d r ≡ (ok a, d')
    → r ≡ (ok a, d')
unfolding end_tx
end_tx-ok true d (ok x, y) a d' h = h
end_tx-ok false d (ok x, y) a d' h = ground (arith, h)
end_tx-ok true d (err x, y) a d' h = ground (arith, h)
end_tx-ok false d (err x, y) a d' h = ground (arith, h)

pub run_tx-ok {ℓ} :
    {A : Type ℓ} (c : Connection) (t : ℕ) (m : Tx A) (d : Db) (a : A) (d' : Db)
    → run_tx c t m d ≡ (ok a, d')
    → m t d ≡ (ok a, d')
unfolding run_tx
run_tx-ok c t m d a d' h = ground (arith, end_tx-ok c.commits d (m t d) a d')

pub end_ok {ℓ} :
    {A : Type ℓ} (P : A → Db → Type 0) (d : Db) (r : Result A × Db) (a : A) (d' : Db)
    → Atomic P d r
    → r ≡ (ok a, d')
    → P a d'
end_ok P d r a d' h e = subst (Atomic P d) e h

end_tx-Ends {ℓ} :
    {A : Type ℓ} (P : A → Db → Type 0) (commits : Bool) (d : Db) (r : Result A × Db)
    → ((a : A) (d' : Db) → P a d' → Later d d')
    → Ends P d r
    → Ends P d (end_tx commits d r)
unfolding end_tx
end_tx-Ends P true d (ok a, d') l h = h
end_tx-Ends P false d (ok a, d') l h = l a d' h
end_tx-Ends P true d (err e, d') l h = h
end_tx-Ends P false d (err e, d') l h = h

end_tx_commit {ℓ} : {A : Type ℓ} (d : Db) (r : Result A × Db) → (end_tx true d r).0 ≡ r.0
unfolding end_tx
end_tx_commit d (ok a, d') = refl
end_tx_commit d (err e, d') = refl

-- Over a working connection the answer is the body's.
pub run_tx-result {ℓ} :
    {A : Type ℓ} (c : Connection) (t : ℕ) (m : Tx A) (d : Db)
    → c.begins ≡ true
    → c.commits ≡ true
    → (run_tx c t m d).0 ≡ (m t d).0
unfolding run_tx
run_tx-result c t m d begins commits = rw (begins, commits) (end_tx_commit d (m t d))

-- A transaction as a part of a longer method.
pub run_tx-Ends {ℓ} :
    {A : Type ℓ} (P : A → Db → Type 0) (c : Connection) (t : ℕ) (m : Tx A) (d : Db)
    → ((a : A) (d' : Db) → P a d' → Later d d')
    → Ends P d (m t d)
    → Ends P d (run_tx c t m d)
unfolding run_tx
run_tx-Ends P c t m d l h = elim (Bool-cases c.begins) [
  | inl begins ↦ rw begins (end_tx-Ends P c.commits d (m t d) l h)
  | inr fails ↦ rw fails (omega arith, omega arith)
]
