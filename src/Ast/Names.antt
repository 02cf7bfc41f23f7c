-- ===== src/Ast/Names.antt =====
-- cargo-instrument/src/ast.rs: `normalize_type_str`.
pub mod Stable
use Prim.Native.Nat.{Ordering}
use rust_compile_time_instru.Prelude.{
  ℕ, zero, suc, Bool, true, false, [], ◌∷◌, if◌then◌else◌, length,
}
use rust_compile_time_instru.Bytes.{Bytes, codes, trim_start, compare_bytes}
use rust_compile_time_instru.Bytes.Replace.{replace}
use rust_compile_time_instru.Ast.{is_blank}

abbrev trim_end : Bytes → Bytes
trim_end [] = []
trim_end (a ∷ s) = let rest = trim_end s in if is_blank (a ∷ s) then [] else a ∷ rest

-- The body of the loop.
unfoldable pub collapse : Bytes → Bytes
collapse s =
    let a = replace (codes " :: ") (codes "::") s in
    let b = replace (codes ":: ") (codes "::") a in
    let c = replace (codes " ::") (codes "::") b in
    let d = replace (codes " < ") (codes "<") c in
    let e = replace (codes " <") (codes "<") d in
    let f = replace (codes "< ") (codes "<") e in
    let g = replace (codes " >>") (codes ">>") f in
    let h = replace (codes " >") (codes ">") g in
    let i = replace (codes " , ") (codes ", ") h in replace (codes " ,") (codes ",") i

abbrev same_bytes : Bytes → Bytes → Bool
same_bytes s t = elim (compare_bytes s t) [ Ordering.eq ↦ true | _ ↦ false ]

-- The loop until nothing changes.
unfoldable pub collapse_all : ℕ → Bytes → Bytes → Bytes
collapse_all zero prev out = out
collapse_all (suc fuel) prev out =
    let more = collapse_all fuel out (collapse out) in if same_bytes prev out then out else more

-- With fuel for a pass that removes each byte, and for the last one.
unfoldable pub normalize_type_str : Bytes → Bytes
normalize_type_str s =
    let out = trim_end (trim_start s) in collapse_all (suc (suc (length out))) [] out
