-- ===== src/Text.antt =====
-- include/base/string.h over texts as lists of bytes: `join`, `split`, `sprintf`, `is_quoted`,
-- `unquote`. `size_t` has 64 bits, and `npos` is its greatest value.
pub mod Fields
pub mod Split
pub mod Join
pub mod Quotes
pub mod Literal
mod Tests
use libpreempt.Prelude.{
  ℕ, zero, suc, ◌+◌, ◌-◌, ◌%◌, ◌^◌, Bool, true, false, ◌&&◌, Option, none, some, List, [], ◌∷◌,
  ◌++◌, length, take, drop, replicate, ◌==◌, if◌then◌else◌,
}

abbrev pub Text : Type 0
Text = List ℕ

abbrev pub size_mod : ℕ
size_mod = 2 ^ 64

abbrev pub npos : ℕ
npos = 2 ^ 64 - 1

abbrev pub is_empty {ℓ} : {A : Type ℓ} → List A → Bool
is_empty [] = true
is_empty (x ∷ xs) = false

-- `std::string::find(sep, pos)`: the scan of what stands behind `pos`, from index `i` on.
unfoldable pub index_of : Text → ℕ → ℕ → ℕ
index_of [] sep i = npos
index_of (c ∷ cs) sep i = if c == sep then i else index_of cs sep (i + 1)

unfoldable pub find : Text → ℕ → ℕ → ℕ
unfolding index_of
find str sep pos = index_of (drop pos str) sep pos

-- `std::string::substr(pos, n)` for `pos` in range.
abbrev pub substr : Text → ℕ → ℕ → Text
substr str pos n = take n (drop pos str)

-- The loop of `join`: the last text is the one behind which nothing is left.
pub join_loop : Text → List Text → ℕ → Text
join_loop r [] sep = r
join_loop r (s ∷ rest) sep =
    join_loop (if is_empty rest then (r ++ s) ++ sep ∷ [] else r ++ s) rest sep

pub join : List Text → ℕ → Text
join v sep = join_loop [] v sep

-- The loop of `split` with fuel, and the test behind it. `none` means that the fuel ran out.
pub split_loop : ℕ → Text → ℕ → ℕ → List Text → Option (List Text)
split_loop zero str sep pos result = none
split_loop (suc fuel) str sep pos result =
    let stop = find str sep pos in
    let result' = if stop == pos then result else result ++ substr str pos (stop - pos) ∷ [] in
    let rest = split_loop fuel str sep (stop + 1) result' in
    if stop == npos
    then some (if stop == pos then result else result ++ drop pos str ∷ [])
    else rest

-- A round consumes at least the separator, so `length str + 1` rounds are enough.
pub split : Text → ℕ → Option (List Text)
split str sep = split_loop (length str + 1) str sep 0 []

-- What `std::sprintf` writes to the front of the buffer.
pub overwrite : Text → Text → Text
overwrite [] buffer = buffer
overwrite (c ∷ cs) [] = []
overwrite (c ∷ cs) (b ∷ buffer) = c ∷ overwrite cs buffer

-- `base::sprintf`, for the text that `std::snprintf` makes of the format and the arguments.
pub sprintf : Text → Text
sprintf text = overwrite (text ++ 0 ∷ []) (replicate (length text + 1) 0)

-- `std::string::back`.
abbrev pub last_or : ℕ → Text → ℕ
last_or d [] = d
last_or d (c ∷ cs) = last_or c cs

pub is_quoted : Text → ℕ → ℕ → Bool
is_quoted [] front back = false
is_quoted (c ∷ cs) front back = c == front && last_or c cs == back

-- The length of the inner part is computed in `size_t`.
pub unquote : Text → ℕ → ℕ → Text
unquote str front back =
    if is_quoted str front back then substr str 1 ((length str + size_mod - 2) % size_mod) else str
