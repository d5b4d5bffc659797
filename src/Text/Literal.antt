-- ===== src/Text/Literal.antt =====
-- The bytes of a literal of the sources, and `==` of std::string.
use Prim.Native.Char.{code}
use Prim.Native.String.{String}
use libpreempt.Prelude.{Bool, true, false, ◌&&◌, [], ◌∷◌, ◌==◌}
use libpreempt.Text.{Text}

abbrev pub codes : String → Text
codes String.[] = []
codes (String.◌∷◌ c s) = code c ∷ codes s

abbrev pub same_text : Text → Text → Bool
same_text [] [] = true
same_text [] (d ∷ ds) = false
same_text (c ∷ cs) [] = false
same_text (c ∷ cs) (d ∷ ds) = (c == d) && same_text cs ds
