-- ===== src/Base/Text.antt =====
-- Texts: `trim`, `split_once`, `split` and the character classes of Rust's standard library.
use Prim.Native.Nat.{ℕ, zero, suc, ◌+◌, ◌-◌, ◌*◌, ◌/◌, ◌%◌}
use Prim.Native.Char.{Char, code}
use Prim.Native.String.{String, [], ◌∷◌, ◌++◌}
use mathlib.Core.Bool.{Bool, true, false, ◌&&◌, ◌||◌}
use mathlib.Core.Option.{Option, none, some}
use mathlib.Core.List.{List}
use execgo_runtime.Base.Tests.{leb, ◌==◌, if◌then◌else◌, map_option}
use execgo_runtime.Base.Words.{u64_max}

-- `char::is_whitespace`, the Unicode property White_Space.
pub is_whitespace : ℕ → Bool
is_whitespace c =
    (leb 9 c && leb c 13)
    || c == 32
    || c == 0x85
    || c == 0xa0
    || c == 0x1680
    || (leb 0x2000 c && leb c 0x200a)
    || c == 0x2028
    || c == 0x2029
    || c == 0x202f
    || c == 0x205f
    || c == 0x3000

-- `char::is_ascii_alphanumeric`.
unfoldable pub is_ascii_alphanumeric : ℕ → Bool
is_ascii_alphanumeric c =
    (leb b'0' c && leb c b'9') || (leb b'A' c && leb c b'Z') || (leb b'a' c && leb c b'z')

abbrev pub is_empty : String → Bool
is_empty [] = true
is_empty (c ∷ s) = false

unfoldable pub trim_start : String → String
unfolding is_whitespace
trim_start [] = []
trim_start (c ∷ s) = if is_whitespace (code c) then trim_start s else c ∷ s

unfoldable pub trim_end : String → String
unfolding is_whitespace
trim_end [] = []
trim_end (c ∷ s) =
    let rest = trim_end s in if is_empty rest && is_whitespace (code c) then [] else c ∷ rest

-- `str::trim`.
unfoldable pub trim : String → String
unfolding trim_start trim_end
trim s = trim_end (trim_start s)

-- `s.chars().all(p)`, `s.chars().any(p)`.
abbrev pub all_chars : (ℕ → Bool) → String → Bool
all_chars p [] = true
all_chars p (c ∷ s) = p (code c) && all_chars p s

abbrev pub any_char : (ℕ → Bool) → String → Bool
any_char p [] = false
any_char p (c ∷ s) = p (code c) || any_char p s

abbrev pub first_is : ℕ → String → Bool
first_is k [] = false
first_is k (c ∷ s) = code c == k

abbrev pub last_is : ℕ → String → Bool
last_is k [] = false
last_is k (c ∷ s) = if is_empty s then code c == k else last_is k s

-- `s.starts_with(p)`, `s.contains(p)` for a text `p`.
abbrev pub starts_with : String → String → Bool
starts_with [] s = true
starts_with (c ∷ p) [] = false
starts_with (c ∷ p) (d ∷ s) = code c == code d && starts_with p s

abbrev pub contains : String → String → Bool
contains p [] = is_empty p
contains p (c ∷ s) = starts_with p (c ∷ s) || contains p s

-- Puts a character in front of the first text of a list.
abbrev push_front : Char → List String → List String
push_front c List.[] = List.◌∷◌ (c ∷ []) List.[]
push_front c (List.◌∷◌ s rest) = List.◌∷◌ (c ∷ s) rest

-- `s.split(k)` for a character `k`: the texts between its occurrences, empty ones included.
unfoldable pub split : ℕ → String → List String
split k [] = List.◌∷◌ [] List.[]
split k (c ∷ s) =
    let rest = split k s in if code c == k then List.◌∷◌ [] rest else push_front c rest

-- `s.split_once(k)` for a character `k`.
unfoldable pub split_once : ℕ → String → Option (String × String)
split_once k [] = none
split_once k (c ∷ s) =
    let rest = split_once k s in
    if code c == k then some ([], s) else map_option (λ p. (c ∷ p.0, p.1)) rest

abbrev digit : ℕ → String
digit n =
    if n == 0
    then "0"
    else if n == 1
    then "1"
    else if n == 2
    then "2"
    else if n == 3
    then "3"
    else if n == 4
    then "4"
    else if n == 5
    then "5"
    else if n == 6
    then "6"
    else if n == 7
    then "7"
    else if n == 8
    then "8"
    else "9"

decimal_digits : ℕ → ℕ → String → String
decimal_digits zero n rest = rest
decimal_digits (suc fuel) n rest =
    let more = decimal_digits fuel (n / 10) (digit (n % 10) ++ rest) in
    if n / 10 == 0 then digit (n % 10) ++ rest else more

-- `n.to_string()` of a `u64`, which has at most twenty digits.
unfoldable pub decimal : ℕ → String
unfolding decimal_digits
decimal n = decimal_digits 20 n []

-- `str::parse::<u64>`: an optional plus sign and one or more digits, whose value fits.
digits : ℕ → String → Option ℕ
digits n [] = some n
digits n (c ∷ s) =
    let rest = digits (n * 10 + (code c - b'0')) s in
    if leb b'0' (code c) && leb (code c) b'9' && leb (n * 10 + (code c - b'0')) u64_max
    then rest
    else none

abbrev digits_only : String → Option ℕ
digits_only [] = none
digits_only (c ∷ s) = digits 0 (c ∷ s)

unfoldable pub parse_u64 : String → Option ℕ
unfolding digits
parse_u64 [] = none
parse_u64 (c ∷ s) = if code c == b'+' then digits_only s else digits_only (c ∷ s)

-- `s.trim_end_matches(k)` for a character `k`.
unfoldable pub trim_end_matches : ℕ → String → String
trim_end_matches k [] = []
trim_end_matches k (c ∷ s) =
    let rest = trim_end_matches k s in if is_empty rest && code c == k then [] else c ∷ rest

-- The path without the characters after its last slash.
abbrev drop_component : String → String
drop_component [] = []
drop_component (c ∷ s) =
    let rest = c ∷ drop_component s in if any_char (λ k. k == b'/') (c ∷ s) then rest else []

-- A directory without the slashes at its end, which the root keeps.
abbrev directory : String → String
directory [] = []
directory (c ∷ s) =
    if is_empty (trim_end_matches b'/' (c ∷ s)) then "/" else trim_end_matches b'/' (c ∷ s)

-- `Path::parent`, for a path whose last component is not `.`.
unfoldable pub parent : String → Option String
unfolding trim_end_matches
parent path =
    if is_empty (trim_end_matches b'/' path)
    then none
    else some (directory (drop_component (trim_end_matches b'/' path)))

abbrev keep_filled : List String → List String
keep_filled List.[] = List.[]
keep_filled (List.◌∷◌ s rest) =
    let more = keep_filled rest in if is_empty s then more else List.◌∷◌ s more

-- The texts between the whitespace of a text.
pieces : String → List String
unfolding is_whitespace
pieces [] = List.◌∷◌ [] List.[]
pieces (c ∷ s) =
    let rest = pieces s in if is_whitespace (code c) then List.◌∷◌ [] rest else push_front c rest

-- `s.split_whitespace()`
unfoldable pub split_whitespace : String → List String
unfolding pieces
split_whitespace s = keep_filled (pieces s)

-- A line without a carriage return at its end.
abbrev without_return : String → String
without_return [] = []
without_return (c ∷ s) =
    let rest = c ∷ without_return s in if is_empty s && code c == 13 then [] else rest

-- Lines, of which an empty one at the end is none.
abbrev to_lines : List String → List String
to_lines List.[] = List.[]
to_lines (List.◌∷◌ s List.[]) = if is_empty s then List.[] else List.◌∷◌ s List.[]
to_lines (List.◌∷◌ s (List.◌∷◌ t rest)) = List.◌∷◌ (without_return s) (to_lines (List.◌∷◌ t rest))

-- `s.lines()`
unfoldable pub lines : String → List String
unfolding split
lines s = to_lines (split 10 s)

-- `.map(str::trim).filter(|s| !s.is_empty())`
abbrev pub filter_filled : Option String → Option String
filter_filled none = none
filter_filled (some s) = if is_empty (trim s) then none else some (trim s)
