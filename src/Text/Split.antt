-- ===== src/Text/Split.antt =====
-- `base::split` of include/base/string.h returns exactly the kept fields of its text.
use native.Mathlib.Nat.{add-zero}
use libpreempt.Prelude.{
  ℕ, zero, suc, ◌+◌, ◌-◌, ◌<◌, ◌≢◌, ◌≡◌, ◌∙◌, ap, true, false, some, List, [], ◌∷◌, ◌++◌, length,
  length-append, drop-append, take-append, append_assoc, ◌==◌, if◌then◌else◌, arith,
}
use libpreempt.Text.{Text, npos, is_empty, index_of, find, split_loop, split}
use libpreempt.Text.Fields.{fields, kept, last, more, cut, kept-cons}

ne→==_false : (a b : ℕ) → a ≢ b → (a == b) ≡ false
ne→==_false a b h = ground arith

==_self : (a : ℕ) → (a == a) ≡ true
==_self a = ground arith

add_sub_left : (a b : ℕ) → a + b - a ≡ b
add_sub_left a b = omega arith

-- What the loop does at position `length pre` of `pre ++ rest`, by the next separator.
split_loop-last :
    (fuel : ℕ) (pre rest : Text) (sep : ℕ) (result : List Text)
    → length (pre ++ rest) < npos
    → index_of rest sep (length pre) ≡ npos
    → split_loop (suc fuel) (pre ++ rest) sep (length pre) result ≡ some (result ++ rest ∷ [])
unfolding split_loop find
split_loop-last fuel pre rest sep result h e =
    rw (drop-append pre rest, e) (ground (arith, length-append pre rest))

split_loop-more :
    (fuel : ℕ) (pre token rest : Text) (sep : ℕ) (result : List Text)
    → length (pre ++ (token ++ sep ∷ rest)) < npos
    → index_of (token ++ sep ∷ rest) sep (length pre) ≡ length pre + length token
    → split_loop (suc fuel) (pre ++ (token ++ sep ∷ rest)) sep (length pre) result
      ≡ split_loop fuel
          (pre ++ (token ++ sep ∷ rest))
          sep
          (length pre + length token + 1)
          (if is_empty token then result else result ++ token ∷ [])
unfolding split_loop find
split_loop-more fuel pre [] rest sep result h e = rw (
  drop-append pre (sep ∷ rest),
  e,
  add-zero (length pre),
  ne→==_false (length pre) npos (omega (arith, h, length-append pre (sep ∷ rest))),
  ==_self (length pre),
)
split_loop-more fuel pre (t ∷ token) rest sep result h e = rw (
  drop-append pre (t ∷ token ++ sep ∷ rest),
  e,
  ne→==_false (length pre + suc (length token)) npos (
      omega
        (arith, h, length-append pre (t ∷ token ++ sep ∷ rest), length-append token (sep ∷ rest))),
  ne→==_false (length pre + suc (length token)) (length pre) (omega arith),
  add_sub_left (length pre) (suc (length token)),
  take-append (t ∷ token) (sep ∷ rest),
)

regroup :
    (pre token rest : Text) (sep : ℕ)
    → (pre ++ (token ++ sep ∷ [])) ++ rest ≡ pre ++ (token ++ sep ∷ rest)
regroup pre token rest sep = simp append_assoc

length-regroup :
    (pre token : Text) (sep : ℕ)
    → length (pre ++ (token ++ sep ∷ [])) ≡ length pre + length token + 1
length-regroup pre token sep =
    omega (arith, length-append pre (token ++ sep ∷ []), length-append token (sep ∷ []))

push_kept :
    (result : List Text) (token rest : Text) (sep : ℕ)
    → (if is_empty token then result else result ++ token ∷ []) ++ kept (fields rest sep)
      ≡ result ++ kept (token ∷ fields rest sep)
push_kept result [] rest sep = rw kept-cons
push_kept result (t ∷ token) rest sep =
    rw kept-cons (append_assoc result ((t ∷ token) ∷ []) (kept (fields rest sep)))

split_loop-kept :
    (fuel : ℕ) (pre rest : Text) (sep : ℕ) (result : List Text)
    → length (pre ++ rest) < npos
    → length rest < fuel
    → split_loop fuel (pre ++ rest) sep (length pre) result
      ≡ some (result ++ kept (fields rest sep))
unfolding kept
split_loop-kept zero pre rest sep result h k = absurd (omega arith)
split_loop-kept (suc fuel) pre rest sep result h k = elim (cut sep rest (length pre)) [
  | last e f ↦ rw (f, kept) (split_loop-last fuel pre rest sep result h e)
  | more token rest' p q r ↦
      rw (r, p)
        (split_loop-more fuel pre token rest' sep result (rw p at h) (rw p at q)
          ∙ rw
              (
                regroup pre token rest' sep,
                length-regroup pre token sep,
                push_kept result token rest' sep,
              )
              at
              (split_loop-kept fuel (pre ++ (token ++ sep ∷ [])) rest' sep
                (if is_empty token then result else result ++ token ∷ [])
                (rw (regroup pre token rest' sep) (rw p at h))
                (omega (arith, ap length p, length-append token (sep ∷ rest'), k))))
]

-- `split` ends for every text that `std::string` can hold, and returns the fields of the text
-- without the empty ones, except that the last field is returned even if it is empty.
pub split-kept :
    (str : Text) (sep : ℕ) → length str < npos → split str sep ≡ some (kept (fields str sep))
unfolding split
split-kept str sep h = split_loop-kept (length str + 1) [] str sep [] h (omega arith)
