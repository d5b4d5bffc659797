-- ===== src/Compiler/Tokens.antt =====
-- The macros that paste tokens: TOKEN_PASTE and TOKEN_CAT of include/base/details/cc.h, and
-- BASE_LINE_VAR of include/base/utility.h. An argument beside `##` is pasted as it is spelled; any other
-- argument is expanded first.
use libpreempt.Prelude.{ℕ, ◌≡◌, ◌≢◌, refl, List, [], ◌∷◌, ◌++◌, arith}

-- An identifier, or `__LINE__`.
data Token : Type 0 where
  name : List ℕ → Token
  line : Token

abbrev spelled : Token → List ℕ
spelled (name text) = text
spelled line = b'_' ∷ b'_' ∷ b'L' ∷ b'I' ∷ b'N' ∷ b'E' ∷ b'_' ∷ b'_' ∷ []

-- `number` is what `__LINE__` expands to.
abbrev expanded : List ℕ → Token → List ℕ
expanded number (name text) = text
expanded number line = number

-- `a##b`
unfoldable token_paste : Token → Token → List ℕ
token_paste a b = spelled a ++ spelled b

-- The arguments are expanded before TOKEN_PASTE gets them.
unfoldable token_cat : List ℕ → Token → Token → List ℕ
unfolding token_paste
token_cat number a b = token_paste (name (expanded number a)) (name (expanded number b))

-- `var ## __LINE__`
unfoldable base_line_var : Token → List ℕ
unfolding token_paste
base_line_var var = token_paste var line

append_inj : (xs ys zs : List ℕ) → xs ++ ys ≡ xs ++ zs → ys ≡ zs
append_inj [] ys zs h = h
append_inj (x ∷ xs) ys zs h = append_inj xs ys zs (ground (arith, h))

-- The variable of BASE_STD_GUARD has the same name on every line, so that two guards cannot stand in
-- one scope; made by TOKEN_CAT, the names would differ where the numbers of the lines do.
line_names :
    (var m n : List ℕ)
    → m ≢ n
    → (base_line_var (name var) ≡ var ++ spelled line)
      × (token_cat m (name var) line ≢ token_cat n (name var) line)
unfolding base_line_var token_cat
line_names var m n h = (refl, λ e. h (append_inj var m n e))
