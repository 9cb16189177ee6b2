-- ===== src/Atomic/Reads.antt =====
-- A method whose first steps only read: what holds of every refusal in the state that it began with,
-- and of the rest after those steps, holds of the method.
use dragon_market.Base.{inl, inr, Bool-cases, ℕ, ◌≡◌, refl, Bool, true, false, Option, none, some}
use dragon_market.Repository.Db.{
  Db, Tx, Error, Result, err, ◌>>=◌, ◌>>◌, raise_if, or_raise, on_not_found, Connection, run_tx,
  pure, end_tx, rollback,
}

module _ {κ} {B : Type κ} (R : Result B × Db → Type 0) (t : ℕ) (d : Db)
    (refused : (e : Error) → R (err e, d)) where
  pub or_raise-rule {ℓ} :
      {A : Type ℓ} (o : Option A) (e : Error) (f : A → Tx B)
      → ((a : A) → o ≡ some a → R (f a t d))
      → R ((or_raise o e >>= f) t d)
  or_raise-rule none e f k = refused e
  or_raise-rule (some a) e f k = k a refl

  pub raise_if-rule :
      (c : Bool) (e : Error) (f : Tx B) → (c ≡ false → R (f t d)) → R ((raise_if c e >> f) t d)
  raise_if-rule true e f k = refused e
  raise_if-rule false e f k = k refl

  pub query-rule {ℓ} :
      {A : Type ℓ} (o : Option A) (e : Error) (f : A → Tx B)
      → ((a : A) → o ≡ some a → R (f a t d))
      → R ((on_not_found e (or_raise o Error.not_found) >>= f) t d)
  query-rule none e f k = refused e
  query-rule (some a) e f k = k a refl

  pub lookup-rule {ℓ μ} :
      {A : Type ℓ} {C : Type μ} (o : Option A) (e : Error) (h : A → C) (f : C → Tx B)
      → ((a : A) → o ≡ some a → R (f (h a) t d))
      → R (((on_not_found e (or_raise o Error.not_found) >>= λ a. pure (h a)) >>= f) t d)
  lookup-rule none e h f k = refused e
  lookup-rule (some a) e h f k = k a refl

-- A call that fails has written nothing, but for the sequences.
abbrev pub Undone {ℓ} : {A : Type ℓ} → Db → Result A × Db → Type 0
Undone d (Result.ok a, d') = Unit
Undone d (err e, d') = rollback d d' ≡ d'

end_tx-Undone {ℓ} :
    {A : Type ℓ} (commits : Bool) (d : Db) (r : Result A × Db) → Undone d (end_tx commits d r)
unfolding end_tx
end_tx-Undone true d (Result.ok a, d') = tt
end_tx-Undone false d (Result.ok a, d') = refl
end_tx-Undone true d (err e, d') = refl
end_tx-Undone false d (err e, d') = refl

pub run_tx-Undone {ℓ} :
    {A : Type ℓ} (c : Connection) (t : ℕ) (m : Tx A) (d : Db) → Undone d (run_tx c t m d)
unfolding run_tx
run_tx-Undone c t m d = elim (Bool-cases c.begins) [
  | inl begins ↦ rw begins (end_tx-Undone c.commits d (m t d))
  | inr fails ↦ rw fails refl
]
