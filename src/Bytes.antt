-- ===== src/Bytes.antt =====
-- Source text as its UTF-8 bytes, where the program counts byte offsets: the operations of Rust's
-- `str` that it uses there.
pub mod Slices
pub mod Replace
use Prim.Native.Char.{code}
use Prim.Native.Nat.{compare, Ordering}
use rust_compile_time_instru.Prelude.{
  ℕ, zero, suc, ◌-◌, String, Bool, true, false, not, ◌&&◌, ◌||◌, Option, none, some, List, [], ◌∷◌,
  length, take, drop, leb, ltb, ◌==◌, if◌then◌else◌,
}

abbrev pub Bytes : Type 0
Bytes = List ℕ

-- The bytes of a literal, which is ASCII wherever the program writes one.
abbrev pub codes : String → Bytes
codes String.[] = []
codes (String.◌∷◌ c s) = code c ∷ codes s

-- `s.as_bytes()[i]`, for an index that the caller has tested.
abbrev pub byte_at : Bytes → ℕ → ℕ
byte_at [] i = 0
byte_at (b ∷ s) zero = b
byte_at (b ∷ s) (suc i) = byte_at s i

-- A byte of the form 10xxxxxx continues a character.
abbrev pub is_continuation : ℕ → Bool
is_continuation b = leb 128 b && ltb b 192

-- `s.is_char_boundary(i)`
unfoldable pub is_char_boundary : Bytes → ℕ → Bool
is_char_boundary s i =
    if i == 0
    then true
    else if leb (length s) i
    then i == length s
    else not (is_continuation (byte_at s i))

-- `&s[a..b]`; `none` is the panic on a range that is reversed, too long or inside a character.
unfoldable pub slice : Bytes → ℕ → ℕ → Option Bytes
slice s a b =
    if leb a b && (leb b (length s) && (is_char_boundary s a && is_char_boundary s b))
    then some (take (b - a) (drop a s))
    else none

-- `s.starts_with(p)` and `s.strip_prefix(p)`
unfoldable pub strip_prefix : Bytes → Bytes → Option Bytes
strip_prefix s [] = some s
strip_prefix [] (b ∷ p) = none
strip_prefix (a ∷ s) (b ∷ p) = if a == b then strip_prefix s p else none

abbrev is_found : Option Bytes → Bool
is_found none = false
is_found (some r) = true

-- `s.contains(t)`
unfoldable pub contains : Bytes → Bytes → Bool
contains [] t = is_found (strip_prefix [] t)
contains (a ∷ s) t = is_found (strip_prefix (a ∷ s) t) || contains s t

-- White space of one byte, then the characters of two and three bytes with the Unicode property
-- `White_Space`: U+0085, U+00A0; U+1680, U+2000 to U+200A, U+2028, U+2029, U+202F, U+205F, U+3000.
abbrev is_space1 : ℕ → Bool
is_space1 a = (leb 9 a && leb a 13) || a == 32

abbrev is_space2 : ℕ → ℕ → Bool
is_space2 a b = a == 0xC2 && (b == 0x85 || b == 0xA0)

abbrev is_space3 : ℕ → ℕ → ℕ → Bool
is_space3 a b c =
    (a == 0xE1 && (b == 0x9A && c == 0x80))
    || ((a == 0xE2
          && ((b == 0x80 && ((leb 0x80 c && leb c 0x8A) || (c == 0xA8 || (c == 0xA9 || c == 0xAF))))
              || (b == 0x81 && c == 0x9F)))
        || (a == 0xE3 && (b == 0x80 && c == 0x80)))

-- `s.trim_start()`
unfoldable pub trim_start : Bytes → Bytes
trim_start [] = []
trim_start (a ∷ []) = if is_space1 a then [] else a ∷ []
trim_start (a ∷ b ∷ []) =
    let one = trim_start (b ∷ []) in
    if is_space1 a then one else if is_space2 a b then [] else a ∷ b ∷ []
trim_start (a ∷ b ∷ c ∷ s) =
    let one = trim_start (b ∷ c ∷ s) in
    let two = trim_start (c ∷ s) in
    let three = trim_start s in
    if is_space1 a
    then one
    else if is_space2 a b
    then two
    else if is_space3 a b c
    then three
    else a ∷ b ∷ c ∷ s

-- `a.cmp(b)` on strings compares them byte by byte.
unfoldable pub compare_bytes : Bytes → Bytes → Ordering
compare_bytes [] [] = Ordering.eq
compare_bytes [] (b ∷ t) = Ordering.lt
compare_bytes (a ∷ s) [] = Ordering.gt
compare_bytes (a ∷ s) (b ∷ t) = elim (compare a b) [
  | Ordering.lt ↦ Ordering.lt
  | Ordering.eq ↦ compare_bytes s t
  | Ordering.gt ↦ Ordering.gt
]
