-- ===== src/Base/Texts.antt =====
-- Equality of texts, as a test.
use Prim.Native.String.{String}
use mathlib.Core.Bool.{Bool}
use text.Mathlib.Text.{◌==◌}

abbrev pub same_text : String → String → Bool
same_text a b = a == b
