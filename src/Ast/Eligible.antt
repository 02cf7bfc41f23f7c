-- ===== src/Ast/Eligible.antt =====
-- What the walk over a file takes as a candidate.
use rust_compile_time_instru.Prelude.{
  ◌≡◌, refl, sym, ◌∙◌, subst, ◌≢◌, inl, inr, Bool, true, false, Option, none, some, [], ◌∷◌, arith,
  eq_iff, Bool-cases, All, All-append,
}
use rust_compile_time_instru.Candidate.{Candidate}
use rust_compile_time_instru.Ast.{is_cfg_test, has_inline_attribute, has_instrument_attribute}
use rust_compile_time_instru.Ast.Tree.{
  Function, EnclosingImpl, Call, Item, item_fn, impl_item_fn, item_impl, inline_mod, file_mod,
  foreign_item_fn, expr_call, expr_method_call, other, Items, nil, cons, is_directly_self_recursive,
  body_has_handwritten_otel,
}
use rust_compile_time_instru.Ast.Visit.{
  Found, FileFacts, Skip, skip_of, method_skip_of, candidate_of, note_function, note_call,
  visit_item, visit_items, visit_file, note_symbol,
}
use rust_compile_time_instru.Ast.Stands.{
  InItem, as_fn, as_method, in_impl, in_mod, in_call, in_method_call, in_other, InItems, in_first,
  in_later, IsPlainMethod,
}

module _ (file : FileFacts) where
  method_unskipped :
      (inside : Bool) (imp : Option EnclosingImpl) (f : Function) (body : Items)
      → method_skip_of file.file_has_otel inside imp f body ≡ none
      → skip_of file.file_has_otel inside f body ≡ none
  unfolding method_skip_of
  method_unskipped inside imp f body h = ground arith

  call_inside : (call : Call) (v : Found) → (note_call file call v).candidates ≡ v.candidates
  unfolding note_call
  call_inside call v = ground arith

  note_inside :
      (k : Option Skip) (c : Candidate) (v : Found)
      → (k ≢ none)
      → (note_function k c v).candidates ≡ v.candidates
  unfolding note_function
  note_inside none c v some_skip = absurd (some_skip refl)
  note_inside (some k) c v some_skip = refl

  nested : (f : Function) (body : Items) → skip_of file.file_has_otel true f body ≢ none
  unfolding skip_of
  nested f body e = absurd cc

  nested_method :
      (imp : Option EnclosingImpl) (f : Function) (body : Items)
      → method_skip_of file.file_has_otel true imp f body ≢ none
  unfolding method_skip_of
  nested_method imp f body e = nested f body (method_unskipped true imp f body e)

  -- Inside a function body no candidate is found.
  mutual
    unfolding visit_item visit_items

    item_inside :
        (imp : Option EnclosingImpl) (i : Item) (v : Found)
        → (visit_item file imp true i v).candidates ≡ v.candidates
    item_inside imp (item_fn f body) v =
        items_inside imp body _
        ∙ note_inside (skip_of file.file_has_otel true f body) _ _ (nested f body)
    item_inside imp (impl_item_fn f body) v =
        items_inside imp body _
        ∙ note_inside (method_skip_of file.file_has_otel true imp f body) _ _
            (nested_method imp f body)
    item_inside imp (item_impl head items) v = items_inside (some head) items v
    item_inside imp (inline_mod attrs items) v =
        let r = items_inside imp items v in
        elim (Bool-cases (is_cfg_test attrs)) [ inl t ↦ rw t refl | inr t ↦ rw t r ]
    item_inside imp (file_mod attrs functions) v = ground arith
    item_inside imp (foreign_item_fn ident attrs) v = refl
    item_inside imp (expr_call call inner) v =
        items_inside imp inner (note_call file call v) ∙ call_inside call v
    item_inside imp (expr_method_call call inner) v = items_inside imp inner v
    item_inside imp (other inner) v = items_inside imp inner v

    items_inside :
        (imp : Option EnclosingImpl) (items : Items) (v : Found)
        → (visit_items file imp true items v).candidates ≡ v.candidates
    items_inside imp nil v = refl
    items_inside imp (cons i items) v =
        items_inside imp items (visit_item file imp true i v) ∙ item_inside imp i v

  method_unskipped_plain :
      (imp : EnclosingImpl) (f : Function) (body : Items)
      → method_skip_of file.file_has_otel false (some imp) f body ≡ none
      → IsPlainMethod (some imp) f.ident
  unfolding method_skip_of
  method_unskipped_plain imp f body h t e =
      let d = (eq_iff t "Drop").1 in
      let g = (eq_iff f.ident "drop").1 in
      let c1 = (eq_iff t "Deref").1 in
      let c2 = (eq_iff t "DerefMut").1 in
      let c3 = (eq_iff t "AsRef").1 in
      let c4 = (eq_iff t "AsMut").1 in
      let c5 = (eq_iff t "Borrow").1 in let c6 = (eq_iff t "BorrowMut").1 in ground arith

  method_plain :
      (imp : Option EnclosingImpl) (f : Function) (body : Items)
      → method_skip_of file.file_has_otel false imp f body ≡ none
      → IsPlainMethod imp f.ident
  method_plain none f body h = tt
  method_plain (some imp) f body h = method_unskipped_plain imp f body h

  module _ (whole : Items) where
    -- A function that stands in the items, with its body, that no early return applies to.
    pub record IsEligible (c : Candidate) : Type 0 where
      pub function : Function
      pub body : Items
      pub imp : Option EnclosingImpl
      pub stands : InItems imp function body none whole
      pub is_its : c ≡ candidate_of file.source_path imp function
      pub not_test : is_cfg_test function.attrs ≡ false
      pub not_const : function.is_const ≡ false
      pub not_extern : function.has_abi ≡ false
      pub not_inline : has_inline_attribute function.attrs ≡ false
      pub not_instrumented : has_instrument_attribute function.attrs ≡ false
      pub not_recursive : is_directly_self_recursive function.ident body ≡ false
      pub not_handwritten : body_has_handwritten_otel body file.file_has_otel ≡ false
      pub is_plain : IsPlainMethod imp function.ident

    unskipped-IsEligible :
        (imp : Option EnclosingImpl) (f : Function) (body : Items)
        → skip_of file.file_has_otel false f body ≡ none
        → IsPlainMethod imp f.ident
        → InItems imp f body none whole
        → IsEligible (candidate_of file.source_path imp f)
    unfolding skip_of
    unskipped-IsEligible imp f body h plain place = record {
      function = f;
      body = body;
      imp = imp;
      stands = place;
      is_its = refl;
      not_test = ground arith;
      not_const = ground arith;
      not_extern = ground arith;
      not_inline = ground arith;
      not_instrumented = ground arith;
      not_recursive = ground arith;
      not_handwritten = ground arith;
      is_plain = plain;
    }

    abbrev pub Holds : Found → Type 0
    Holds v = All IsEligible v.candidates

    noted-Holds :
        (k : Option Skip) (c : Candidate) (v : Found)
        → (k ≡ none → IsEligible c)
        → Holds v
        → Holds (note_function k c v)
    unfolding note_function
    noted-Holds none c v fine h = All-append IsEligible v.candidates (c ∷ []) h (fine refl, tt)
    noted-Holds (some k) c v fine h = h

    call-Holds : (call : Call) (v : Found) → Holds v → Holds (note_call file call v)
    call-Holds call v h = subst (All IsEligible) (sym (call_inside call v)) h

    body-Holds :
        (imp : Option EnclosingImpl) (body : Items) (v : Found)
        → Holds v
        → Holds (visit_items file imp true body v)
    body-Holds imp body v h = subst (All IsEligible) (sym (items_inside imp body v)) h

    -- What stands in a part stands in the whole.
    abbrev ItemPlaced : Option EnclosingImpl → Item → Type 0
    ItemPlaced around i =
        (imp : Option EnclosingImpl) (f : Function) (body : Items)
        → InItem imp f body around i
        → InItems imp f body none whole

    abbrev ItemsPlaced : Option EnclosingImpl → Items → Type 0
    ItemsPlaced around items =
        (imp : Option EnclosingImpl) (f : Function) (body : Items)
        → InItems imp f body around items
        → InItems imp f body none whole

    mutual
      unfolding visit_item visit_items

      item-Holds :
          (imp : Option EnclosingImpl) (i : Item) (v : Found)
          → ItemPlaced imp i
          → Holds v
          → Holds (visit_item file imp false i v)
      item-Holds imp (item_fn f body) v p h = body-Holds imp body _ (
          noted-Holds (skip_of file.file_has_otel false f body) _ (note_symbol f.ident f.attrs v)
            (λ e. unskipped-IsEligible none f body e tt (p none f body (as_fn imp refl))) h)
      item-Holds imp (impl_item_fn f body) v p h = body-Holds imp body _ (
          noted-Holds (method_skip_of file.file_has_otel false imp f body) _
            (note_symbol f.ident f.attrs v)
            (λ e.
              unskipped-IsEligible imp f body (method_unskipped false imp f body e)
                (method_plain imp f body e) (p imp f body as_method))
            h)
      item-Holds imp (item_impl head items) v p h =
          items-Holds (some head) items v (λ j f b k. p j f b (in_impl imp head items k)) h
      item-Holds imp (inline_mod attrs items) v p h = elim (Bool-cases (is_cfg_test attrs)) [
        | inl t ↦ rw t h
        | inr t ↦ rw t (items-Holds imp items v (λ j f b k. p j f b (in_mod imp attrs items t k)) h)
      ]
      item-Holds imp (file_mod attrs functions) v p h = elim (Bool-cases (is_cfg_test attrs)) [
        | inl t ↦ rw t h
        | inr t ↦ rw t h
      ]
      item-Holds imp (foreign_item_fn ident attrs) v p h = h
      item-Holds imp (expr_call call inner) v p h =
          items-Holds imp inner (note_call file call v)
            (λ j f b k. p j f b (in_call imp call inner k)) (call-Holds call v h)
      item-Holds imp (expr_method_call call inner) v p h =
          items-Holds imp inner v (λ j f b k. p j f b (in_method_call imp call inner k)) h
      item-Holds imp (other inner) v p h =
          items-Holds imp inner v (λ j f b k. p j f b (in_other imp inner k)) h

      items-Holds :
          (imp : Option EnclosingImpl) (items : Items) (v : Found)
          → ItemsPlaced imp items
          → Holds v
          → Holds (visit_items file imp false items v)
      items-Holds imp nil v p h = h
      items-Holds imp (cons i items) v p h =
          items-Holds imp items (visit_item file imp false i v)
            (λ j f b k. p j f b (in_later imp i items k))
            (item-Holds imp i v (λ j f b k. p j f b (in_first imp i items k)) h)

  -- The candidates of a file are eligible, and bodies that are walked add none.
  abbrev pub AllEligible : Items → Type 0
  AllEligible items =
      All (IsEligible items) ((visit_file file items).candidates)
      × ((imp : Option EnclosingImpl) (body : Items) (v : Found)
          → (visit_items file imp true body v).candidates ≡ v.candidates)
