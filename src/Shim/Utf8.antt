-- ===== src/Shim/Utf8.antt =====
-- `str::from_utf8`, as Rust's documentation defines well-formed text: Table 3-7 of the Unicode
-- standard, one byte at a time.
use rust_compile_time_instru.Prelude.{
  ℕ, ◌-◌, Bool, false, ◌&&◌, Option, none, some, [], ◌∷◌, ltb, leb, ◌==◌, if◌then◌else◌,
}
use rust_compile_time_instru.Bytes.{Bytes}

-- How many bytes of the character are to come, and the bounds on the next one.
pub record Pending : Type 0 where
  pub remaining : ℕ
  pub low : ℕ
  pub high : ℕ

abbrev pub between : ℕ → ℕ → ℕ → Bool
between a b x = leb a x && leb x b

abbrev pub lead : ℕ → Option Pending
lead b =
    if ltb b 128
    then some (record { remaining = 0; low = 0; high = 0 })
    else if between 194 223 b
    then some (record { remaining = 1; low = 128; high = 191 })
    else if b == 224
    then some (record { remaining = 2; low = 160; high = 191 })
    else if b == 237
    then some (record { remaining = 2; low = 128; high = 159 })
    else if between 225 239 b
    then some (record { remaining = 2; low = 128; high = 191 })
    else if b == 240
    then some (record { remaining = 3; low = 144; high = 191 })
    else if between 241 243 b
    then some (record { remaining = 3; low = 128; high = 191 })
    else if b == 244
    then some (record { remaining = 3; low = 128; high = 143 })
    else none

abbrev pub next_byte : Pending → ℕ → Option Pending
next_byte p b =
    if p.remaining == 0
    then lead b
    else if between p.low p.high b
    then some (record { remaining = p.remaining - 1; low = 128; high = 191 })
    else none

abbrev pub decode : Option Pending → Bytes → Bool
decode none s = false
decode (some p) [] = p.remaining == 0
decode (some p) (b ∷ s) = decode (next_byte p b) s

unfoldable pub is_utf8 : Bytes → Bool
is_utf8 s = decode (some (record { remaining = 0; low = 0; high = 0 })) s
