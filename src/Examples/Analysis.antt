-- ===== src/Examples/Analysis.antt =====
-- A file with a function that has another inside it, and a test module in a file of its own.
use rust_compile_time_instru.Prelude.{String, false, [], ◌∷◌}
use rust_compile_time_instru.Bytes.{codes}
use rust_compile_time_instru.Ast.{Attribute, list}
use rust_compile_time_instru.Ast.Tree.{Function, Items, nil, cons, item_fn, file_mod}
use rust_compile_time_instru.Ast.Visit.{FileFacts}

abbrev function : String → Function
function name = record {
  ident = name;
  attrs = [];
  is_const = false;
  has_abi = false;
  byte_range = record { start = 0; stop = 40 };
  body_byte_range = record { start = 10; stop = 40 };
  is_async = false;
  is_generic = false;
  returns_result = false;
  returns_mut_reference = false;
  returns_reference_or_lifetime = false;
}

abbrev cfg_test : Attribute
cfg_test = record { is_inner = false; segments = "cfg" ∷ []; meta = list "test" }

abbrev items : Items
items =
    cons (item_fn (function "load") (cons (item_fn (function "inner") nil) nil))
      (cons (file_mod (cfg_test ∷ []) 3) nil)

abbrev file : FileFacts
file = record {
  source_path = codes "src/lib.rs";
  file_has_otel = false;
  file_shadows_tokio = false;
}
