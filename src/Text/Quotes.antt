-- ===== src/Text/Quotes.antt =====
-- `base::is_quoted`, `base::unquote` and `base::sprintf` of include/base/string.h.
use libpreempt.Prelude.{
  ℕ, suc, ◌+◌, ◌-◌, ◌%◌, ◌<◌, ◌≡◌, ◌≢◌, refl, inl, inr, ◌∙◌, sym, ap, true, false, Bool-cases, [],
  ◌∷◌, ◌++◌, length, length-append, take, take-append, replicate, length-replicate, ◌==◌, ◌&&◌,
  arith,
}
use libpreempt.Text.{Text, size_mod, last_or, is_quoted, unquote, overwrite, sprintf}

-- What `unquote` makes of a text: of the three cases only one can hold.
pub data Unquoted (str : Text) (front back : ℕ) (result : Text) : Type 0 where
  inside : (s : Text) → str ≡ front ∷ (s ++ back ∷ []) → result ≡ s → Unquoted str front back result
  single : str ≡ front ∷ [] → front ≡ back → result ≡ [] → Unquoted str front back result
  plain :
      ((s : Text) → str ≢ front ∷ (s ++ back ∷ []))
      → (str ≡ front ∷ [] → front ≢ back)
      → result ≡ str
      → Unquoted str front back result

last_or-snoc : (d : ℕ) (s : Text) (b : ℕ) → last_or d (s ++ b ∷ []) ≡ b
last_or-snoc d [] b = refl
last_or-snoc d (c ∷ s) b = last_or-snoc c s b

snoc_of : (d c : ℕ) (cs : Text) → (s : Text) × (c ∷ cs ≡ s ++ last_or d (c ∷ cs) ∷ [])
snoc_of d c [] = ([], refl)
snoc_of d c (e ∷ cs) = let (s, p) = snoc_of c e cs in (c ∷ s, ap (◌∷◌ c) p)

inner_length :
    (s : Text) (b : ℕ)
    → suc (length (s ++ b ∷ [])) < size_mod
    → (suc (length (s ++ b ∷ [])) + size_mod - 2) % size_mod ≡ length s
inner_length s b h = omega (arith, length-append s (b ∷ []))

take_inner :
    (s xs : Text) (b : ℕ)
    → xs ≡ s ++ b ∷ []
    → suc (length xs) < size_mod
    → take ((suc (length xs) + size_mod - 2) % size_mod) xs ≡ s
take_inner s xs b e h = rw (e, inner_length s b (rw e at h)) (take-append s (b ∷ []))

quoted-eq : (c d b f : ℕ) → (c == f && d == b) ≡ true → (c ≡ f) × (d ≡ b)
quoted-eq c d b f h = ground arith

abbrev drop_one : Text → Text
drop_one [] = []
drop_one (c ∷ cs) = cs

not_quoted :
    (c d : ℕ) (cs t : Text) (front back : ℕ)
    → (c == front && last_or d cs == back) ≡ false
    → c ∷ d ∷ cs ≡ front ∷ (t ++ back ∷ [])
    → ⊥
not_quoted c d cs t front back e p =
    let same : last_or d cs ≡ back = ap (last_or 0) (ap drop_one p) ∙ last_or-snoc 0 t back in
    let head : c ≡ front = cc in ground arith

lone : (c front back : ℕ) → (c == front && c == back) ≡ false → c ≡ front → front ≡ back → ⊥
lone c front back e p q = ground arith

-- `unquote` removes one quote from either end of a quoted text, makes the empty text of a lone byte
-- that is both quotes, and leaves every other text as it is.
pub unquote-Unquoted :
    (str : Text) (front back : ℕ)
    → length str < size_mod
    → Unquoted str front back (unquote str front back)
unfolding unquote is_quoted
unquote-Unquoted [] front back h = plain (λ s e. cc) (λ e. cc) refl
unquote-Unquoted (c ∷ []) front back h = elim (Bool-cases (c == front && c == back)) [
  | inl e ↦
      let (p, q) = quoted-eq c c back front e in
      single (ap (λ (x : ℕ). x ∷ []) p) (sym p ∙ q) (rw e)
  | inr e ↦
      plain (λ s p. absurd (omega (arith, ap length p, length-append s (back ∷ []))))
        (λ p q. absurd (lone c front back e (ap (last_or 0) p) q)) (rw e)
]
unquote-Unquoted (c ∷ d ∷ cs) front back h =
    let (s, q) = snoc_of c d cs in
    elim (Bool-cases (c == front && last_or d cs == back)) [
      | inl e ↦
          let (p, r) = quoted-eq c (last_or d cs) back front e in
          inside s (cc (p, q, r)) (rw e (take_inner s (d ∷ cs) (last_or d cs) q h))
      | inr e ↦
          plain (λ t p. not_quoted c d cs t front back e p)
            (λ p. absurd (omega (arith, ap length p))) (rw e)
    ]

overwrite_same : (s t : Text) → length s ≡ length t → overwrite s t ≡ s
unfolding overwrite
overwrite_same [] [] e = refl
overwrite_same [] (b ∷ t) e = absurd (omega arith)
overwrite_same (c ∷ s) [] e = absurd (omega arith)
overwrite_same (c ∷ s) (b ∷ t) e = ap (◌∷◌ c) (overwrite_same s t (omega arith))

sprintf-eq : (text : Text) → sprintf text ≡ text ++ 0 ∷ []
unfolding sprintf
sprintf-eq text =
    overwrite_same (text ++ 0 ∷ []) (replicate (length text + 1) 0)
      (omega (arith, length-append text (0 ∷ []), length-replicate {A = ℕ} (length text + 1) 0))

-- The text that `sprintf` returns is one byte longer than the formatted text: its last byte is the
-- terminating NUL.
pub sprintf-nul :
    (text : Text) → (sprintf text ≡ text ++ 0 ∷ []) × (length (sprintf text) ≡ length text + 1)
unfolding sprintf
sprintf-nul text = (sprintf-eq text, rw (sprintf-eq text) (length-append text (0 ∷ [])))
