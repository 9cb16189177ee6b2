-- ===== src/Strconv/RoundTrip.antt =====
-- ParseInt reads back what FormatInt writes.
use mathlib.Core.WellFounded.{Acc}
use Prim.{Dec, yes, no, ¬◌}
use mathlib.Core.Logic.{dite}
use native.Mathlib.Decide.{dec_lt}
use dragon_market.Base.{
  ℕ, suc, ℤ, pos, negsuc, ◌+◌, ◌-◌, ◌*◌, sym, ◌/◌, ◌%◌, ◌<◌, ◌≤◌, ◌≡◌, refl, ap, ◌∙◌, true, false,
  none, [], ◌∷◌, arith,
}
use dragon_market.Strconv.{
  Text, max_uint64, max_int64, scan, parse_uint, parse_int, signed, write_digits, tenth_below,
  format_uint, format_int,
}

dite-cases {ℓ κ} :
    {P : Type ℓ} {A : Type κ} (C : A → Type 0) (d : Dec P) (t : P → A) (e : ¬ P → A)
    → ((p : P) → C (t p))
    → ((p : ¬ P) → C (e p))
    → C (dite d t e)
dite-cases C (yes p) t e h k = h p
dite-cases C (no p) t e h k = k p

scan-digit :
    (n : ℕ) (out : Text) → n ≤ max_uint64 → scan ((b'0' + n % 10) ∷ out) (n / 10) ≡ scan out n
unfolding scan
scan-digit n out h = ground arith

scan-first : (n : ℕ) (out : Text) → n ≤ 9 → scan ((b'0' + n) ∷ out) 0 ≡ scan out n
unfolding scan
scan-first n out h = ground arith

scan-write_digits :
    (n : ℕ) (a : Acc ◌<◌ n) (out : Text)
    → n ≤ max_uint64
    → scan (write_digits n a out) 0 ≡ scan out n
unfolding write_digits
scan-write_digits n (Acc.intro _ smaller) out h =
    dite-cases (λ x. scan x 0 ≡ scan out n) (dec_lt 9 n) _ _
      (λ more.
        scan-write_digits (n / 10) (smaller (n / 10) (tenth_below more)) ((b'0' + n % 10) ∷ out)
          (omega arith)
        ∙ scan-digit n out h)
      (λ last. scan-first n out (omega arith))

abbrev StartsDigit : Text → Type 0
StartsDigit [] = ⊥
StartsDigit (c ∷ s) = b'0' ≤ c

write_digits-StartsDigit : (n : ℕ) (a : Acc ◌<◌ n) (out : Text) → StartsDigit (write_digits n a out)
unfolding write_digits
write_digits-StartsDigit n (Acc.intro _ smaller) out =
    dite-cases StartsDigit (dec_lt 9 n) _ _
      (λ more.
        write_digits-StartsDigit (n / 10) (smaller (n / 10) (tenth_below more))
          ((b'0' + n % 10) ∷ out))
      (λ last. omega arith)

parse_uint-scan : (s : Text) → StartsDigit s → parse_uint s ≡ scan s 0
unfolding parse_uint
parse_uint-scan [] h = absurd h
parse_uint-scan (c ∷ s) h = refl

parse_int-unsigned : (s : Text) → StartsDigit s → parse_int s ≡ signed false (parse_uint s)
unfolding parse_int
parse_int-unsigned [] h = absurd h
parse_int-unsigned (c ∷ s) h = ground arith

parse_uint-format_uint : (n : ℕ) → n ≤ max_uint64 → parse_uint (format_uint n) ≡ (n, none)
unfolding scan
parse_uint-format_uint n h =
    parse_uint-scan (format_uint n) (write_digits-StartsDigit n _ []) ∙ scan-write_digits n _ [] h

-- The numbers of Go's int64.
abbrev pub IsInt64 : ℤ → Type 0
IsInt64 (pos n) = n ≤ max_int64
IsInt64 (negsuc n) = n ≤ max_int64

-- ParseInt reads every int64 back from what FormatInt writes.
pub parse_int-format_int : (v : ℤ) → IsInt64 v → parse_int (format_int v) ≡ (v, none)
unfolding parse_int format_int signed
parse_int-format_int (pos n) h =
    parse_int-unsigned (format_uint n) (write_digits-StartsDigit n _ [])
    ∙ ap (signed false) (parse_uint-format_uint n (omega arith))
    ∙ ground arith
parse_int-format_int (negsuc n) h =
    ap (signed true) (parse_uint-format_uint (suc n) (omega arith)) ∙ ground arith

-- The number that digits spell behind n, with no bound.
abbrev value : ℕ → Text → ℕ
value n [] = n
value n (c ∷ s) = value (n * 10 + (c - b'0')) s

value-write_digits :
    (n : ℕ) (a : Acc ◌<◌ n) (out : Text) → value 0 (write_digits n a out) ≡ value n out
unfolding write_digits
value-write_digits n (Acc.intro _ smaller) out =
    dite-cases (λ x. value 0 x ≡ value n out) (dec_lt 9 n) _ _
      (λ more.
        value-write_digits (n / 10) (smaller (n / 10) (tenth_below more)) ((b'0' + n % 10) ∷ out)
        ∙ ap (λ k. value k out) (omega arith))
      (λ last. ap (λ k. value k out) (omega arith))

-- Two numbers that are written alike are the same.
pub format_int-injective : (m n : ℕ) → format_int (pos m) ≡ format_int (pos n) → m ≡ n
unfolding format_int
format_int-injective m n e =
    sym (value-write_digits m _ []) ∙ ap (value 0) e ∙ value-write_digits n _ []
