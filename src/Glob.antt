-- ===== src/Glob.antt =====
-- src/acl/glob.rs: the memoized glob matcher.
pub mod Spec
pub mod Loops
pub mod Correct
pub mod Tests
use bole.Base.{
  ℕ, zero, suc, ◌+◌, Bool, true, false, ◌||◌, Option, none, some, List, [], ◌∷◌, Bytes, ◌==◌,
  nat_eq, pair_eq, contains, length, if◌then◌else◌, ltb,
}

abbrev pub max_glob_len : ℕ
max_glob_len = 8192

abbrev pub slash : ℕ
slash = b'/'

-- The slice patterns of the `match`: the empty pattern, `**/`, `**`, `*`, and any other byte first.
pub data Shape : Type 0 where
  empty : Shape
  deep_slash : Bytes → Shape
  deep : Bytes → Shape
  wild : Bytes → Shape
  literal : ℕ → Bytes → Shape

unfoldable pub deep_shape : Bytes → Shape
deep_shape [] = deep []
deep_shape (c ∷ rest) = if c == slash then deep_slash rest else deep (c ∷ rest)

unfoldable pub star_shape : Bytes → Shape
unfolding deep_shape
star_shape [] = wild []
star_shape (c ∷ rest) = if c == b'*' then deep_shape rest else wild (c ∷ rest)

unfoldable pub shape : Bytes → Shape
unfolding star_shape
shape [] = empty
shape (c ∷ rest) = if c == b'*' then star_shape rest else literal c rest

-- `false_memo`: the lengths of the pattern and of the path of the calls that failed.
abbrev pub Memo : Type 0
Memo = List (ℕ × ℕ)

-- An answer and the memo after it. `none` is the end of the fuel.
abbrev pub Run : Type 0
Run = Option (Bool × Memo)

-- Stop at a match, else go on with the memo of the failed call.
abbrev pub or_else : Run → (Memo → Run) → Run
or_else none next = none
or_else (some (true, memo)) next = some (true, memo)
or_else (some (false, memo)) next = next memo

-- The loop of `**/`: the text behind each separator, by `call`.
pub after_slashes : (Bytes → Memo → Run) → Bytes → Memo → Run
after_slashes call [] memo = some (false, memo)
after_slashes call (c ∷ s) memo =
    let next = after_slashes call s in if c == slash then or_else (call s memo) next else next memo

-- The loop of `**`: the text behind each separator, and at last the empty one.
pub segment_tails : (Bytes → Memo → Run) → Bytes → Memo → Run
segment_tails call [] memo = call [] memo
segment_tails call (c ∷ s) memo =
    let next = segment_tails call s in if c == slash then or_else (call s memo) next else next memo

-- The loop of `*`: the text from each byte up to the next separator.
pub within_segment : (Bytes → Memo → Run) → Bytes → Memo → Run
within_segment call [] memo = call [] memo
within_segment call (c ∷ s) memo =
    let next = within_segment call s in
    or_else (call (c ∷ s) memo) (λ memo'. if c == slash then some (false, memo') else next memo')

pub first_byte : (Bytes → Memo → Run) → ℕ → Bytes → Memo → Run
first_byte call p [] memo = some (false, memo)
first_byte call p (c ∷ s) memo = if p == c then call s memo else some (false, memo)

abbrev pub is_empty : Bytes → Bool
is_empty [] = true
is_empty (c ∷ s) = false

-- The `match` of `matches`, with `call` for its recursive calls.
pub by_shape : (Bytes → Bytes → Memo → Run) → Shape → Bytes → Bytes → Memo → Run
by_shape call empty pat s memo = some (is_empty s, memo)
by_shape call (deep_slash rest) pat s memo = or_else (call rest s memo) (after_slashes (call pat) s)
by_shape call (deep rest) pat s memo = or_else (call rest s memo) (segment_tails (call rest) s)
by_shape call (wild rest) pat s memo = within_segment (call rest) s memo
by_shape call (literal p rest) pat s memo = first_byte (call rest) p s memo

-- `if !result { false_memo.insert(key); }`
abbrev pub remember : ℕ × ℕ → Run → Run
remember key none = none
remember key (some (true, memo)) = some (true, memo)
remember key (some (false, memo)) = some (false, key ∷ memo)

pub matches : ℕ → Bytes → Bytes → Memo → Run
matches zero pat s memo = none
matches (suc fuel) pat s memo =
    let key : ℕ × ℕ = (length pat, length s) in
    if contains memo key
    then some (false, memo)
    else remember key (by_shape (matches fuel) (shape pat) pat s memo)

abbrev pub answer : Run → Bool
answer none = false
answer (some (b, memo)) = b

-- Every call shortens the pattern or the path, which bounds the depth of the calls.
unfoldable pub glob_matches : Bytes → Bytes → Bool
unfolding matches by_shape after_slashes segment_tails within_segment first_byte shape
glob_matches pattern path =
    if ltb max_glob_len (length pattern) || ltb max_glob_len (length path)
    then false
    else answer (matches (length pattern + length path + 1) pattern path [])
