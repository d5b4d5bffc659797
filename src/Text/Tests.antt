-- ===== src/Text/Tests.antt =====
-- Runs of the text functions, and their theorems at concrete texts. 32 is the blank.
use libpreempt.Prelude.{◌+◌, ◌≡◌, ◌≢◌, refl, some, [], ◌∷◌, ◌++◌, length, arith}
use libpreempt.Text.{
  Text, find, join_loop, join, split_loop, split, is_quoted, unquote, overwrite, sprintf,
}
use libpreempt.Text.Fields.{fields, kept}
use libpreempt.Text.Split.{split-kept}
use libpreempt.Text.Join.{intercalate, join-ne-intercalate, split-intercalate}
use libpreempt.Text.Quotes.{Unquoted, unquote-Unquoted, sprintf-nul}

abbrev ab : Text
ab = b'a' ∷ b'b' ∷ []

abbrev cd : Text
cd = b'c' ∷ b'd' ∷ []

-- " ab  cd "
abbrev spaced : Text
spaced = 32 ∷ b'a' ∷ b'b' ∷ 32 ∷ 32 ∷ b'c' ∷ b'd' ∷ 32 ∷ []

spaced_runs : split spaced 32 ≡ some (ab ∷ cd ∷ [] ∷ [])
unfolding split split_loop find
spaced_runs = refl

empty_runs : split [] 32 ≡ some ([] ∷ [])
unfolding split split_loop find
empty_runs = refl

join_runs : join (ab ∷ cd ∷ []) 32 ≡ b'a' ∷ b'b' ∷ b'c' ∷ b'd' ∷ 32 ∷ []
unfolding join join_loop
join_runs = refl

lone_quote : unquote (b'"' ∷ []) b'"' b'"' ≡ []
unfolding unquote is_quoted
lone_quote = refl

sprintf_runs : sprintf ab ≡ b'a' ∷ b'b' ∷ 0 ∷ []
unfolding sprintf overwrite
sprintf_runs = refl

split-kept_example : split spaced 32 ≡ some (kept (fields spaced 32))
split-kept_example = split-kept spaced 32 (omega arith)

join-ne-intercalate_example : join (ab ∷ cd ∷ []) 32 ≢ intercalate 32 (ab ∷ cd ∷ [])
join-ne-intercalate_example = join-ne-intercalate ab (b'd' ∷ []) b'c' [] 32 (omega arith)

split-intercalate_example : split (intercalate 32 (ab ∷ cd ∷ [])) 32 ≡ some (ab ∷ cd ∷ [])
split-intercalate_example =
    split-intercalate 32 ab (cd ∷ []) ((refl, omega arith), ((refl, omega arith), tt)) (omega arith)

unquote-Unquoted_example :
    Unquoted (b'"' ∷ b'a' ∷ b'"' ∷ []) b'"' b'"' (unquote (b'"' ∷ b'a' ∷ b'"' ∷ []) b'"' b'"')
unquote-Unquoted_example = unquote-Unquoted (b'"' ∷ b'a' ∷ b'"' ∷ []) b'"' b'"' (omega arith)

sprintf-nul_example : (sprintf ab ≡ ab ++ 0 ∷ []) × (length (sprintf ab) ≡ length ab + 1)
sprintf-nul_example = sprintf-nul ab
