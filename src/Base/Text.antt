-- ===== src/Base/Text.antt =====
-- Texts as the numbers of their characters.
use Prim.Native.String.{String, [], ◌∷◌}
use Prim.Native.Char.{code}
use Prim.Native.Nat.{ℕ}
use mathlib.Core.List.{List}
use bpfilter_study.Base.Lists.{no_bytes, put}

abbrev pub text : String → List ℕ
text [] = no_bytes
text (c ∷ s) = put (code c) (text s)
