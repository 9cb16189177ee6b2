-- ===== src/Strconv.antt =====
-- What the program uses of Go's package strconv: ParseInt in base 10 for 64 bits, which Atoi agrees
-- with, and FormatInt in base 10. A text is its bytes.
pub mod RoundTrip
use mathlib.Core.Logic.{dite}
use mathlib.Core.WellFounded.{Acc}
use native.Mathlib.Decide.{dec_lt}
use dragon_market.Base.{
  ℕ, zero, suc, ℤ, pos, negsuc, ◌+◌, ◌-◌, ◌*◌, ◌/◌, ◌%◌, ◌^◌, ◌<◌, Bool, true, false, ◌||◌, Option,
  none, some, List, [], ◌∷◌, ltb, leb, ◌==◌, if◌then◌else◌, arith,
}

abbrev pub Text : Type 0
Text = List ℕ

pub data NumError : Type 0 where
  syntax range : NumError

abbrev pub max_uint64 : ℕ
max_uint64 = 2 ^ 64 - 1

abbrev pub max_int64 : ℕ
max_int64 = 2 ^ 63 - 1

-- The loop of ParseUint over the digits that are left: `n*10` is computed where it is below 2 ^ 64,
-- the sum behind it wraps around.
unfoldable pub scan : Text → ℕ → ℕ × Option NumError
scan [] n = (n, none)
scan (c ∷ s) n =
    let d = c - b'0' in
    let n1 = (n * 10 + d) % 2 ^ 64 in
    if ltb c b'0' || ltb b'9' c
    then (0, some NumError.syntax)
    else if leb (max_uint64 / 10 + 1) n || ltb n1 (n * 10)
    then (max_uint64, some NumError.range)
    else scan s n1

unfoldable pub parse_uint : Text → ℕ × Option NumError
parse_uint [] = (0, some NumError.syntax)
parse_uint (c ∷ s) = scan (c ∷ s) 0

abbrev pub negative : ℕ → ℤ
negative zero = pos 0
negative (suc n) = negsuc n

-- The int64 that ParseInt makes of the number behind the sign.
unfoldable pub signed : Bool → ℕ × Option NumError → ℤ × Option NumError
signed neg (un, some NumError.syntax) = (pos 0, some NumError.syntax)
signed false (un, _) =
    if leb (2 ^ 63) un then (pos max_int64, some NumError.range) else (pos un, none)
signed true (un, _) =
    if ltb (2 ^ 63) un then (negative (2 ^ 63), some NumError.range) else (negative un, none)

unfoldable pub parse_int : Text → ℤ × Option NumError
parse_int [] = (pos 0, some NumError.syntax)
parse_int (c ∷ s) =
    if c == b'+'
    then signed false (parse_uint s)
    else if c == b'-'
    then signed true (parse_uint s)
    else signed false (parse_uint (c ∷ s))

pub tenth_below : {n : ℕ} → 9 < n → n / 10 < n
tenth_below h = omega arith

-- The loop of FormatInt: the last digit goes in front of those written already.
unfoldable pub write_digits : (n : ℕ) → Acc ◌<◌ n → Text → Text
write_digits n (Acc.intro _ smaller) out =
    dite (dec_lt 9 n)
      (λ h. write_digits (n / 10) (smaller (n / 10) (tenth_below h)) ((b'0' + n % 10) ∷ out))
      (λ _. (b'0' + n) ∷ out)

unfoldable pub smaller_Acc : (bound n : ℕ) → n < bound → Acc ◌<◌ n
smaller_Acc zero n h = absurd (omega arith)
smaller_Acc (suc bound) n h = Acc.intro n λ m lt. smaller_Acc bound m (omega arith)

abbrev pub format_uint : ℕ → Text
format_uint n = write_digits n (smaller_Acc (suc n) n (omega arith)) []

unfoldable pub format_int : ℤ → Text
format_int (pos n) = format_uint n
format_int (negsuc n) = b'-' ∷ format_uint (suc n)
