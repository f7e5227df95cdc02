-- ===== src/Text.antt =====
-- Texts as the services build and read them: decimal numbers, identifiers, order.
use Prim.Native.Nat.{◌%◌}
use Prim.Native.Char.{code}
use Prim.Native.String.{compare, [], ◌∷◌}
use text.Mathlib.Text.{is_lt}
use rgp.Prelude.{
  ℕ, zero, suc, ◌+◌, ◌-◌, ◌*◌, ◌/◌, String, ◌<>◌, Bool, ◌&&◌, List, Option, none, some, ltb, leb,
  ◌==◌, if◌then◌else◌,
}

digit : ℕ → String
digit n =
    if n == 0
    then "0"
    else if n == 1
    then "1"
    else if n == 2
    then "2"
    else if n == 3
    then "3"
    else if n == 4
    then "4"
    else if n == 5
    then "5"
    else if n == 6
    then "6"
    else if n == 7
    then "7"
    else if n == 8
    then "8"
    else "9"

decimal_digits : ℕ → ℕ → String
unfolding digit
decimal_digits zero n = digit n
decimal_digits (suc fuel) n =
    let rest = decimal_digits fuel (n / 10) in if ltb n 10 then digit n else rest <> digit (n % 10)

-- str(n): a number has fewer digits than its value, so the fuel is enough
unfoldable pub decimal : ℕ → String
unfolding decimal_digits
decimal n = decimal_digits n n

-- f"{n:03d}"
unfoldable pub decimal3 : ℕ → String
unfolding decimal
decimal3 n =
    if ltb n 10 then "00" <> decimal n else if ltb n 100 then "0" <> decimal n else decimal n

-- int(text) of a text of decimal digits, from a number already read
digits_from : ℕ → String → Option ℕ
digits_from n [] = some n
digits_from n (c ∷ rest) =
    if leb 48 (code c) && leb (code c) 57 then digits_from (n * 10 + (code c - 48)) rest else none

-- int(text) if text.isdigit()
unfoldable pub parse_digits : String → Option ℕ
unfolding digits_from
parse_digits [] = none
parse_digits (c ∷ rest) = digits_from 0 (c ∷ rest)

-- text.split("_", 1)[1], if there is one
unfoldable pub after_underscore : String → Option String
after_underscore [] = none
after_underscore (c ∷ rest) = if code c == 95 then some rest else after_underscore rest

unfoldable pub text_lt : String → String → Bool
text_lt s t = is_lt (compare s t)

-- ", ".join(texts)
unfoldable pub join : List String → String
join List.[] = ""
join (List.◌∷◌ t List.[]) = t
join (List.◌∷◌ t (List.◌∷◌ u us)) = t <> ", " <> join (List.◌∷◌ u us)
