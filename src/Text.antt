-- ===== src/Text.antt =====
-- The operations of Rust's `str` that the program uses on names and arguments. A text is a native
-- `String`, a sequence of characters; every pattern that the program searches for is ASCII.
pub mod Laws
use Prim.Native.Char.{Char, code}
use rust_compile_time_instru.Prelude.{
  ℕ, String, Bool, true, false, ◌&&◌, ◌||◌, Option, none, some, ◌==◌, leb, str_eq, if◌then◌else◌,
  ◌≢◌,
}

-- `s.strip_prefix(p)`
unfoldable pub strip_prefix : String → String → Option String
strip_prefix s String.[] = some s
strip_prefix String.[] (String.◌∷◌ b p) = none
strip_prefix (String.◌∷◌ a s) (String.◌∷◌ b p) = if code a == code b then strip_prefix s p else none

abbrev pub is_some {ℓ} : {A : Type ℓ} → Option A → Bool
is_some none = false
is_some (some a) = true

-- `s.starts_with(p)`
unfoldable pub starts_with : String → String → Bool
starts_with s p = is_some (strip_prefix s p)

-- `s.ends_with(t)`
unfoldable pub ends_with : String → String → Bool
ends_with String.[] t = str_eq String.[] t
ends_with (String.◌∷◌ a s) t = str_eq (String.◌∷◌ a s) t || ends_with s t

-- `s.contains(t)`
unfoldable pub contains : String → String → Bool
contains String.[] t = starts_with String.[] t
contains (String.◌∷◌ a s) t = starts_with (String.◌∷◌ a s) t || contains s t

-- `s.split(c).next().unwrap_or(s)`: what stands before the first `c`.
unfoldable pub before : ℕ → String → String
before c String.[] = String.[]
before c (String.◌∷◌ a s) = if code a == c then String.[] else String.◌∷◌ a (before c s)

-- `s.split_once(c)`: what stands before and behind the first `c`.
unfoldable pub split_once : ℕ → String → Option (String × String)
split_once c String.[] = none
split_once c (String.◌∷◌ a s) =
    let rest = split_once c s in
    if code a == c
    then some (String.[], s)
    else elim rest [ none ↦ none | some (l, r) ↦ some (String.◌∷◌ a l, r) ]

-- `s.rsplit(c).next().unwrap_or(s)`: what stands behind the last `c`.
unfoldable pub after_last : ℕ → String → String → String
after_last c String.[] acc = acc
after_last c (String.◌∷◌ a s) acc = after_last c s (if code a == c then s else acc)

unfoldable pub behind : ℕ → String → String
behind c s = after_last c s s

unfoldable pub dash_to_underscore : Char → Char
dash_to_underscore a = if code a == b'-' then "_" else a

-- `s.replace('-', "_")`
unfoldable pub normalize : String → String
normalize String.[] = String.[]
normalize (String.◌∷◌ a s) = String.◌∷◌ (dash_to_underscore a) (normalize s)

-- No character of the text is `c`.
abbrev pub Lacks : ℕ → String → Type 0
Lacks c String.[] = Unit
Lacks c (String.◌∷◌ a s) = (code a ≢ c) × Lacks c s

-- `b.is_ascii_alphanumeric() || b == b'_'`
abbrev pub is_word : ℕ → Bool
is_word c =
    (leb b'0' c && leb c b'9')
    || ((leb b'A' c && leb c b'Z') || ((leb b'a' c && leb c b'z') || c == b'_'))

-- `s.bytes().all(is_word)`: a character outside ASCII has no byte that passes.
unfoldable pub all_words : String → Bool
all_words String.[] = true
all_words (String.◌∷◌ a s) = is_word (code a) && all_words s
