-- ===== src/Candidate.antt =====
-- cargo-instrument/src/candidate.rs: what source analysis reports of one compilation unit.
use rust_compile_time_instru.Prelude.{ℕ, ◌+◌, Bool, List}
use rust_compile_time_instru.Bytes.{Bytes}

pub data UnsafePolicy : Type 0 where
  allowed : UnsafePolicy
  denied : UnsafePolicy
  forbidden : UnsafePolicy

pub data FunctionKind : Type 0 where
  free : FunctionKind
  inherent_method : (type_name : Bytes) → FunctionKind
  trait_method : (trait_name type_name : Bytes) → FunctionKind

-- `start..stop`, as byte offsets.
pub record Range : Type 0 where
  pub start : ℕ
  pub stop : ℕ

pub record Candidate : Type 0 where
  pub function_name : Bytes
  pub source_file : Bytes
  pub byte_range : Range
  pub body_byte_range : Range
  pub kind : FunctionKind
  pub is_async : Bool
  pub is_generic : Bool
  pub has_enclosing_generics : Bool
  pub returns_result : Bool
  pub returns_mut_reference : Bool
  pub returns_reference_or_lifetime : Bool

pub record SkippedStats : Type 0 where
  pub inline_attribute : ℕ
  pub adapter_trait : ℕ
  pub drop_implementation : ℕ
  pub cfg_test : ℕ
  pub const_fn : ℕ
  pub extern_abi : ℕ
  pub self_recursive : ℕ
  pub handwritten_otel : ℕ
  pub nested_function : ℕ

-- The sum over all categories.
unfoldable pub total : SkippedStats → ℕ
total s =
    s.inline_attribute + s.adapter_trait + s.drop_implementation + s.cfg_test + s.const_fn
    + s.extern_abi + s.self_recursive + s.handwritten_otel + s.nested_function

pub record SpawnSite : Type 0 where
  pub source_file : Bytes
  pub arg_byte_range : Range

pub record DiscoveryReport : Type 0 where
  pub crate_name : Bytes
  pub source_file : Bytes
  pub unsafe_policy : UnsafePolicy
  pub is_no_std : Bool
  pub has_colliding_symbols : Bool
  pub skipped_stats : SkippedStats
  pub candidates : List Candidate
  pub spawn_sites : List SpawnSite
