-- ===== src/Base/Result.antt =====
-- A value or the text of an error, as the Go functions return them.
pub use Prim.Native.String.{String}
use mathlib.Core.Bool.{Bool, true, false}

pub data Result (A : Type 0) : Type 0 where
  ok : A → Result A
  failed : String → Result A

abbrev pub is_failed : {A : Type 0} → Result A → Bool
is_failed (ok a) = false
is_failed (failed e) = true
