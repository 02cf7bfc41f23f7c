-- ===== src/Transform/Emit/Boxed.antt =====
-- `Box<dyn Emitter>`: one of the three emitters, as the wrapper and the library's helpers choose it.
use rust_compile_time_instru.Prelude.{false, Option, ◌≡◌}
use rust_compile_time_instru.Bytes.{Bytes}
use rust_compile_time_instru.Transform.{Emitter}
use rust_compile_time_instru.Transform.Emit.{sentinel_emitter}
use rust_compile_time_instru.Transform.Emit.Native.{NativeOtelEmitter, native_emitter}
use rust_compile_time_instru.Transform.Emit.Trampoline.{TrampolineEmitter, trampoline_emitter}

pub data BoxedEmitter : Type 0 where
  sentinel : BoxedEmitter
  native : NativeOtelEmitter → BoxedEmitter
  trampoline : TrampolineEmitter → BoxedEmitter

-- The dynamic dispatch; the parameters are those of the trampoline.
abbrev pub dispatch : (Bytes → Option Bytes) → (Bytes → Bytes) → BoxedEmitter → Emitter
dispatch read_to_string debug sentinel = sentinel_emitter
dispatch read_to_string debug (native self) = native_emitter self
dispatch read_to_string debug (trampoline self) = trampoline_emitter read_to_string debug self

-- The generated text names the unversioned runtime symbols.
abbrev pub IsUnversioned : BoxedEmitter → Type 0
IsUnversioned (trampoline self) = self.metadata_v2 ≡ false
IsUnversioned _ = Unit
