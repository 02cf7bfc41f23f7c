-- ===== src/Ast/Stands.antt =====
-- Where the functions of a syntax tree stand, and which methods their traits let be instrumented.
use rust_compile_time_instru.Prelude.{
  String, ◌≡◌, ◌≢◌, false, Option, none, some, List, [], ◌∷◌, All,
}
use rust_compile_time_instru.Semantics.{is_polling_adapter_method}
use rust_compile_time_instru.Ast.{Attribute, is_cfg_test}
use rust_compile_time_instru.Ast.Tree.{
  Function, EnclosingImpl, Call, MethodCall, Item, item_fn, impl_item_fn, item_impl, inline_mod,
  expr_call, expr_method_call, other, Items, cons,
}

-- Where a function stands, with its body and the `impl` block around it: outside every other function's
-- body and every test module.
mutual
  pub data InItem (imp : Option EnclosingImpl) (f : Function) (body : Items)
      : Option EnclosingImpl → Item → Type 0 where
    as_fn : (around : Option EnclosingImpl) → imp ≡ none → InItem imp f body around (item_fn f body)
    as_method : InItem imp f body imp (impl_item_fn f body)
    in_impl :
        (around : Option EnclosingImpl) (head : EnclosingImpl) (items : Items)
        → InItems imp f body (some head) items
        → InItem imp f body around (item_impl head items)
    in_mod :
        (around : Option EnclosingImpl) (attrs : List Attribute) (items : Items)
        → is_cfg_test attrs ≡ false
        → InItems imp f body around items
        → InItem imp f body around (inline_mod attrs items)
    in_call :
        (around : Option EnclosingImpl) (call : Call) (inner : Items)
        → InItems imp f body around inner
        → InItem imp f body around (expr_call call inner)
    in_method_call :
        (around : Option EnclosingImpl) (call : MethodCall) (inner : Items)
        → InItems imp f body around inner
        → InItem imp f body around (expr_method_call call inner)
    in_other :
        (around : Option EnclosingImpl) (inner : Items)
        → InItems imp f body around inner
        → InItem imp f body around (other inner)

  pub data InItems (imp : Option EnclosingImpl) (f : Function) (body : Items)
      : Option EnclosingImpl → Items → Type 0 where
    in_first :
        (around : Option EnclosingImpl) (i : Item) (items : Items)
        → InItem imp f body around i
        → InItems imp f body around (cons i items)
    in_later :
        (around : Option EnclosingImpl) (i : Item) (items : Items)
        → InItems imp f body around items
        → InItems imp f body around (cons i items)

-- A method that its trait does not exclude: it polls nothing, and is neither `Drop::drop` nor of a trait
-- of conversions.
abbrev pub IsPlainMethod : Option EnclosingImpl → String → Type 0
IsPlainMethod none ident = Unit
IsPlainMethod (some imp) ident =
    (t : String)
    → imp.trait_ident ≡ some t
    → (is_polling_adapter_method t ident ≡ false)
      × ((t ≡ "Drop") → ident ≢ "drop")
      × All (λ conversion. t ≢ conversion)
          ("Deref" ∷ "DerefMut" ∷ "AsRef" ∷ "AsMut" ∷ "Borrow" ∷ "BorrowMut" ∷ [])
