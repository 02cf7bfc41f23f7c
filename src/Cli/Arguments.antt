-- ===== src/Cli/Arguments.antt =====
-- What becomes of the arguments of the command line.
use rust_compile_time_instru.Prelude.{
  String, ◌≡◌, refl, sym, ap, ◌∙◌, inl, inr, Bool, true, false, List, [], ◌∷◌, ◌++◌, append_assoc,
  append-nil, eq_iff, str_eq, Bool-cases, All,
}
use rust_compile_time_instru.Strips.{Strips, done, kept, with_value, without_value, joined}
use rust_compile_time_instru.Text.{starts_with}
use rust_compile_time_instru.Cli.{
  CliInvocation, scan_cli, step_cli, default_to_build, skip_leading, start, finish,
  parse_cli_invocation, skip_message_format, without_message_format,
}

append_cons : (xs ys : List String) (a : String) → (xs ++ a ∷ []) ++ ys ≡ xs ++ a ∷ ys
append_cons xs ys a = append_assoc xs (a ∷ []) ys

scan_app :
    (args : List String) (s : CliInvocation)
    → scan_cli true args s ≡ record s { app_args = s.app_args ++ args }
unfolding scan_cli
scan_app [] s = ap (λ l. record s { app_args = l }) (sym (append-nil s.app_args))
scan_app (a ∷ args) s =
    scan_app args (record s { app_args = s.app_args ++ a ∷ [] })
    ∙ ap (λ l. record s { app_args = l }) (append_cons s.app_args args a)

-- An argument that is Cargo's own.
abbrev IsPlain : String → Type 0
IsPlain a = (str_eq a "--" ≡ false) × (str_eq a "--with-dependencies" ≡ false)

step_plain :
    (a : String) (s : CliInvocation)
    → IsPlain a
    → step_cli a s ≡ (false, record s { cargo_args = s.cargo_args ++ a ∷ [] })
unfolding step_cli
step_plain a s p = rw (p.0, p.1) refl

scan_plain :
    (xs rest : List String) (s : CliInvocation)
    → All IsPlain xs
    → scan_cli false (xs ++ rest) s
      ≡ scan_cli false rest (record s { cargo_args = s.cargo_args ++ xs })
unfolding scan_cli
scan_plain [] rest s p =
    ap (λ l. scan_cli false rest (record s { cargo_args = l })) (sym (append-nil s.cargo_args))
scan_plain (x ∷ xs) rest s p =
    ap (λ r. scan_cli (r.0) (xs ++ rest) (r.1)) (step_plain x s p.0)
    ∙ scan_plain xs rest (record s { cargo_args = s.cargo_args ++ x ∷ [] }) p.1
    ∙ ap (λ l. scan_cli false rest (record s { cargo_args = l })) (append_cons s.cargo_args xs x)

scan_separated :
    (a : String) (before ys : List String) (s : CliInvocation)
    → scan_cli false ("--" ∷ ys) (record s { cargo_args = a ∷ before }) ≡ record s {
      cargo_args = a ∷ before;
      has_app_args_separator = true;
      app_args = s.app_args ++ ys;
    }
unfolding scan_cli step_cli
scan_separated a before ys s =
    scan_app ys (record s { cargo_args = a ∷ before; has_app_args_separator = true })

-- Arguments of Cargo's own, at least one, then `--`, then anything: the first are handed to Cargo and
-- the others to the application, each in order and unchanged, `--` and `--with-dependencies` among the
-- others included.
pub app_args_verbatim :
    (dependencies : Bool) (x : String) (xs ys : List String)
    → All IsPlain (x ∷ xs)
    → parse_cli_invocation dependencies (x ∷ xs ++ "--" ∷ ys) ≡ record {
      cargo_args = x ∷ xs;
      app_args = ys;
      has_app_args_separator = true;
      with_dependencies = dependencies;
    }
unfolding parse_cli_invocation default_to_build
app_args_verbatim dependencies x xs ys p =
    let first : skip_leading (x ∷ xs ++ "--" ∷ ys) ≡ x ∷ xs ++ "--" ∷ ys = rw (p.0.0) refl in
    ap (λ l. finish (scan_cli false l (start dependencies))) first
    ∙ ap finish (
        scan_plain (x ∷ xs) ("--" ∷ ys) (start dependencies) p
        ∙ scan_separated x xs ys (start dependencies))

abbrev pub ChoosesOutput : String → Type 0
ChoosesOutput a = a ≡ "--message-format"

abbrev pub ChoosesOutputJoined : String → Type 0
ChoosesOutputJoined a = starts_with a "--message-format=" ≡ true

mutual
  unfolding skip_message_format

  flags-Strips :
      (args : List String)
      → Strips ChoosesOutput ChoosesOutputJoined args (skip_message_format false args)
  flags-Strips [] = done
  flags-Strips (a ∷ args) = elim (Bool-cases (str_eq a "--message-format")) [
    | inl e ↦ rw e (value-Strips a args ((eq_iff a "--message-format").0 e))
    | inr n ↦
        let rest = flags-Strips args in
        elim (Bool-cases (starts_with a "--message-format=")) [
          | inl j ↦ rw (n, j) (joined a args _ j rest)
          | inr k ↦
              rw (n, k)
                (kept a args _ (λ q. cc (n, (eq_iff a "--message-format").1 q)) (λ q. cc (q, k))
                  rest)
        ]
  ]

  value-Strips :
      (a : String) (args : List String)
      → ChoosesOutput a
      → Strips ChoosesOutput ChoosesOutputJoined (a ∷ args) (skip_message_format true args)
  value-Strips a [] f = without_value a f
  value-Strips a (value ∷ args) f = with_value a value args _ f (flags-Strips args)

-- Every use of the flag for the message format is taken out of the arguments, in either form:
-- `--message-format` with the argument behind it, if there is one, and the form with `=`. All other
-- arguments are kept, in order.
pub message_format_removed :
    (args : List String)
    → Strips ChoosesOutput ChoosesOutputJoined args (without_message_format args)
unfolding without_message_format
message_format_removed args = flags-Strips args
