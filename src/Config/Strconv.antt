-- ===== src/Config/Strconv.antt =====
-- The functions of the standard library's strconv package that config.go calls.
use zeropod.Base.{
  ℕ, ◌+◌, ◌-◌, ◌*◌, ◌^◌, Bool, true, false, ◌&&◌, ◌||◌, [], ◌∷◌, Text, codes, ltb, leb, ◌==◌,
  if◌then◌else◌, same, Result, ok, err, ◌>>=◌,
}
use zeropod.Base.Int.{ℤ, pos, negsuc}

pub data NumError : Type 0 where
  syntax range : NumError

abbrev pub is_digit : ℕ → Bool
is_digit c = leb 48 c && leb c 57

-- The loop of ParseUint in base 10, where `limit` is the largest value of the bit size.
unfoldable pub parse_digits : ℕ → ℕ → Text → Result NumError ℕ
parse_digits limit n [] = ok n
parse_digits limit n (c ∷ s) =
    let next = n * 10 + (c - 48) in
    let rest = parse_digits limit next s in
    if is_digit c then (if ltb limit next then err range else rest) else err syntax

-- strconv.ParseUint(s, 10, bits)
unfoldable pub parse_uint : ℕ → Text → Result NumError ℕ
unfolding parse_digits
parse_uint bits [] = err syntax
parse_uint bits (c ∷ s) = parse_digits (2 ^ bits - 1) 0 (c ∷ s)

-- A sign and a magnitude, where an int has 64 bits.
signed : Bool → ℕ → Result NumError ℤ
signed false n = if ltb n (2 ^ 63) then ok (pos n) else err range
signed true n = if leb n (2 ^ 63) then ok (if n == 0 then pos 0 else negsuc (n - 1)) else err range

-- strconv.Atoi
unfoldable pub atoi : Text → Result NumError ℤ
unfolding parse_uint signed ◌>>=◌
atoi [] = err syntax
atoi (c ∷ s) =
    if c == 45
    then (do n ← parse_uint 64 s; signed true n)
    else if c == 43
    then (do n ← parse_uint 64 s; signed false n)
    else (do n ← parse_uint 64 (c ∷ s); signed false n)

is_true_text : Text → Bool
is_true_text s =
    same s (codes "1")
    || same s (codes "t")
    || same s (codes "T")
    || same s (codes "true")
    || same s (codes "TRUE")
    || same s (codes "True")

is_false_text : Text → Bool
is_false_text s =
    same s (codes "0")
    || same s (codes "f")
    || same s (codes "F")
    || same s (codes "false")
    || same s (codes "FALSE")
    || same s (codes "False")

-- strconv.ParseBool
unfoldable pub parse_bool : Text → Result NumError Bool
unfolding is_true_text is_false_text
parse_bool s = if is_true_text s then ok true else if is_false_text s then ok false else err syntax
