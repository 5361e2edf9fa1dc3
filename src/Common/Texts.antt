-- ===== src/Common/Texts.antt =====
-- What the program uses of `str` and `char`. The length of a text is that of its UTF-8 bytes.
use Prim.Native.Nat.{ℕ, zero, suc, ◌+◌, ◌-◌, ◌*◌, ◌/◌, ◌%◌}
use mathlib.Core.Bool.{Bool, true, false, ◌&&◌, ◌||◌}
use mathlib.Core.List.{List, [], ◌∷◌, reverse}
use mathlib.Core.Option.{Option, none, some}
use limiteron.Common.Booleans.{ltb, leb, nat_beq, if◌then◌else◌}
use limiteron.Common.Keys.{Text}

abbrev pub utf8_width : ℕ → ℕ
utf8_width c = if ltb c 128 then 1 else if ltb c 2048 then 2 else if ltb c 65536 then 3 else 4

unfoldable pub len : Text → ℕ
len [] = 0
len (c ∷ rest) = utf8_width c + len rest

-- `is_empty`
abbrev pub is_empty : Text → Bool
is_empty [] = true
is_empty (c ∷ rest) = false

-- `char::is_control`: the general category `Cc`.
abbrev pub is_control : ℕ → Bool
is_control c = ltb c 32 || (leb 127 c && ltb c 160)

unfoldable pub has_control : Text → Bool
has_control [] = false
has_control (c ∷ rest) = is_control c || has_control rest

abbrev pub is_ascii_digit : ℕ → Bool
is_ascii_digit c = leb 48 c && leb c 57

abbrev pub is_ascii_hexdigit : ℕ → Bool
is_ascii_hexdigit c = is_ascii_digit c || ((leb 65 c && leb c 70) || (leb 97 c && leb c 102))

unfoldable pub all_hexdigits : Text → Bool
all_hexdigits [] = true
all_hexdigits (c ∷ rest) = is_ascii_hexdigit c && all_hexdigits rest

abbrev pub in_first : ℕ → List Text → List Text
in_first c [] = (c ∷ []) ∷ []
in_first c (part ∷ parts) = (c ∷ part) ∷ parts

-- `split` at a character.
unfoldable pub split : ℕ → Text → List Text
split sep [] = [] ∷ []
split sep (c ∷ rest) =
    let parts = split sep rest in if nat_beq c sep then [] ∷ parts else in_first c parts

-- `contains` of a character.
unfoldable pub has_char : ℕ → Text → Bool
has_char sep [] = false
has_char sep (c ∷ rest) = nat_beq c sep || has_char sep rest

-- `char::is_whitespace`: the property `White_Space`.
abbrev pub is_whitespace : ℕ → Bool
is_whitespace c =
    (leb 9 c && leb c 13)
    || (nat_beq c 32
        || nat_beq c 133
        || nat_beq c 160
        || nat_beq c 5760
        || (leb 8192 c && leb c 8202)
        || nat_beq c 8232
        || nat_beq c 8233
        || nat_beq c 8239
        || nat_beq c 8287
        || nat_beq c 12288)

unfoldable pub trim_start : Text → Text
trim_start [] = []
trim_start (c ∷ rest) = let later = trim_start rest in if is_whitespace c then later else c ∷ rest

unfoldable pub trim : Text → Text
unfolding trim_start
trim t = reverse (trim_start (reverse (trim_start t)))

unfoldable pub strip_prefix : Text → Text → Option Text
strip_prefix [] t = some t
strip_prefix (p ∷ prefix) [] = none
strip_prefix (p ∷ prefix) (c ∷ t) =
    let further = strip_prefix prefix t in if nat_beq p c then further else none

-- `str::parse` of an unsigned integer up to `max`: digits, with one `+` before them at most.
unfoldable pub digits_from : ℕ → ℕ → Text → Option ℕ
digits_from max n [] = some n
digits_from max n (c ∷ rest) =
    let next = n * 10 + (c - 48) in
    let further = digits_from max next rest in
    if is_ascii_digit c then (if ltb max next then none else further) else none

unfoldable pub parse_unsigned : ℕ → Text → Option ℕ
unfolding digits_from
parse_unsigned max [] = none
parse_unsigned max (c ∷ rest) =
    if nat_beq c 43
    then (if is_empty rest then none else digits_from max 0 rest)
    else digits_from max 0 (c ∷ rest)

-- `Display` of an unsigned integer; `n` steps are enough, since each leaves a tenth.
unfoldable pub digits_to : ℕ → ℕ → Text → Text
digits_to zero n later = later
digits_to (suc steps) n later =
    let further = digits_to steps (n / 10) ((48 + n % 10) ∷ later) in
    if ltb n 10 then (48 + n) ∷ later else further

unfoldable pub to_decimal : ℕ → Text
unfolding digits_to
to_decimal n = digits_to (suc n) n []
