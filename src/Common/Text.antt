-- ===== src/Common/Text.antt =====
-- The operations on text that the parser uses: those of Rust's `str`, character by character.
use Prim.Native.String.{String, len, slice}
use Prim.Native.Char.{Char, code}
use Prim.Native.Nat.{ℕ, ◌+◌, ◌-◌, ◌*◌}
use mathlib.Core.Path.{◌≡◌, refl}
use mathlib.Core.Bool.{Bool, true, false, ◌&&◌, ◌||◌}
use mathlib.Core.Option.{Option, none, some}
use mathlib.Core.List.{List, [], ◌∷◌}
use text.Mathlib.Text.{starts_with, find?}
use proxy_fleet.Common.Tests.{if◌then◌else◌, leb, ◌==◌, is_some}

-- `char::is_whitespace`
unfoldable pub is_whitespace : Char → Bool
is_whitespace c =
    let n = code c in
    leb 9 n && leb n 13
    || n == 32
    || n == 133
    || n == 160
    || n == 5760
    || leb 8192 n && leb n 8202
    || n == 8232
    || n == 8233
    || n == 8239
    || n == 8287
    || n == 12288

abbrev pub is_empty : String → Bool
is_empty String.[] = true
is_empty (String.◌∷◌ _ _) = false

-- `trim_start_matches`, `trim_end_matches` and `trim_matches` at a test of characters
unfoldable pub trim_start_matches : (Char → Bool) → String → String
trim_start_matches test String.[] = String.[]
trim_start_matches test (String.◌∷◌ c s) =
    let rest = trim_start_matches test s in if test c then rest else String.◌∷◌ c s

unfoldable pub trim_end_matches : (Char → Bool) → String → String
trim_end_matches test String.[] = String.[]
trim_end_matches test (String.◌∷◌ c s) =
    let rest = trim_end_matches test s in
    if test c && is_empty rest then String.[] else String.◌∷◌ c rest

unfoldable pub trim_matches : (Char → Bool) → String → String
unfolding trim_start_matches trim_end_matches
trim_matches test s = trim_end_matches test (trim_start_matches test s)

unfoldable pub trim : String → String
unfolding trim_matches is_whitespace
trim = trim_matches is_whitespace

abbrev pub is_upper : Char → Bool
is_upper c = leb 65 (code c) && leb (code c) 90

abbrev pub is_lower : Char → Bool
is_lower c = leb 97 (code c) && leb (code c) 122

-- `is_ascii_digit`, `is_ascii_hexdigit`, `is_ascii_alphanumeric` and `is_ascii_graphic`. A byte of a
-- character that is not ASCII passes none of them.
abbrev pub is_digit : Char → Bool
is_digit c = leb 48 (code c) && leb (code c) 57

abbrev pub is_hexdigit : Char → Bool
is_hexdigit c =
    is_digit c || leb 65 (code c) && leb (code c) 70 || leb 97 (code c) && leb (code c) 102

abbrev pub is_alphanumeric : Char → Bool
is_alphanumeric c = is_upper c || is_lower c || is_digit c

abbrev pub is_graphic : Char → Bool
is_graphic c = leb 33 (code c) && leb (code c) 126

abbrev pub all_chars : (Char → Bool) → String → Bool
all_chars test String.[] = true
all_chars test (String.◌∷◌ c s) = test c && all_chars test s

-- `to_ascii_lowercase`
translate : Char → String → String → Char
translate c (String.◌∷◌ x xs) (String.◌∷◌ y ys) =
    let rest = translate c xs ys in if code c == code x then y else rest
translate c _ _ = c

unfoldable pub to_lower : String → String
unfolding translate
to_lower String.[] = String.[]
to_lower (String.◌∷◌ c s) =
    String.◌∷◌ (translate c "ABCDEFGHIJKLMNOPQRSTUVWXYZ" "abcdefghijklmnopqrstuvwxyz") (to_lower s)

abbrev push_front : Char → List String → List String
push_front c [] = String.◌∷◌ c String.[] ∷ []
push_front c (part ∷ parts) = String.◌∷◌ c part ∷ parts

-- `split` at a character, given by its code
unfoldable pub split : ℕ → String → List String
split at String.[] = String.[] ∷ []
split at (String.◌∷◌ c s) =
    let rest = split at s in if code c == at then String.[] ∷ rest else push_front c rest

-- `split(at).next().unwrap_or(text)`
unfoldable pub before_first : ℕ → String → String
before_first at String.[] = String.[]
before_first at (String.◌∷◌ c s) =
    let rest = before_first at s in if code c == at then String.[] else String.◌∷◌ c rest

abbrev prepend : Char → Option (String × String) → Option (String × String)
prepend c none = none
prepend c (some (a, b)) = some (String.◌∷◌ c a, b)

-- `split_once` and `rsplit_once` at a character
unfoldable pub split_once : ℕ → String → Option (String × String)
split_once at String.[] = none
split_once at (String.◌∷◌ c s) =
    let rest = prepend c (split_once at s) in if code c == at then some (String.[], s) else rest

abbrev last_or : ℕ → Char → String → Option (String × String) → Option (String × String)
last_or at c s (some (a, b)) = some (String.◌∷◌ c a, b)
last_or at c s none = if code c == at then some (String.[], s) else none

unfoldable pub rsplit_once : ℕ → String → Option (String × String)
rsplit_once at String.[] = none
rsplit_once at (String.◌∷◌ c s) = last_or at c s (rsplit_once at s)

-- `contains`, `strip_prefix` and `split_once` at a text
abbrev pub contains_text : String → String → Bool
contains_text s t = is_some (find? s t)

abbrev pub strip_prefix : String → String → Option String
strip_prefix s t = if starts_with s t then some (slice s (len t) (len s)) else none

abbrev cut : String → String → Option ℕ → Option (String × String)
cut s t none = none
cut s t (some i) = some (slice s 0 i, slice s (i + len t) (len s))

abbrev pub split_at : String → String → Option (String × String)
split_at s t = cut s t (find? s t)

-- `str::parse::<u16>`: an optional `+`, then digits, within the range.
digits : String → ℕ → Option ℕ
digits String.[] n = some n
digits (String.◌∷◌ c s) n =
    let next = n * 10 + (code c - 48) in
    elim (is_digit c && leb next 65535) [ true ↦ digits s next | false ↦ none ]

abbrev number : String → Option ℕ
number String.[] = none
number (String.◌∷◌ c s) = digits (String.◌∷◌ c s) 0

unfoldable pub parse_u16 : String → Option ℕ
unfolding digits
parse_u16 String.[] = none
parse_u16 (String.◌∷◌ c s) = if code c == 43 then number s else number (String.◌∷◌ c s)

lowered : to_lower "Hello-World" ≡ "hello-world"
unfolding to_lower
lowered = refl

trimmed : trim " \ta b " ≡ "a b"
unfolding trim
trimmed = refl

parsed : parse_u16 "65535" ≡ some 65535
unfolding parse_u16
parsed = refl

too_large : parse_u16 "65536" ≡ none
unfolding parse_u16
too_large = refl
