-- ===== src/Text/Fields.antt =====
-- The fields of a text, and which of them `base::split` (include/base/string.h) returns: an
-- independent description without positions.
use libpreempt.Prelude.{
  ℕ, ◌+◌, ◌≡◌, ◌≢◌, refl, inl, inr, ap, false, Bool-cases, List, [], ◌∷◌, ◌++◌, length, ◌==◌,
  ==_iff, if◌then◌else◌, arith,
}
use libpreempt.Text.{Text, is_empty, index_of, npos}

-- One more byte in front of the first field.
pub extend : ℕ → List Text → List Text
extend c [] = (c ∷ []) ∷ []
extend c (f ∷ fs) = (c ∷ f) ∷ fs

-- All that stands between separators, empty or not.
unfoldable pub fields : Text → ℕ → List Text
unfolding extend
fields [] sep = [] ∷ []
fields (c ∷ cs) sep = if c == sep then [] ∷ fields cs sep else extend c (fields cs sep)

-- Without the empty fields; but the last field stays as it is.
unfoldable pub kept : List Text → List Text
kept [] = []
kept (f ∷ []) = f ∷ []
kept (f ∷ g ∷ fs) = if is_empty f then kept (g ∷ fs) else f ∷ kept (g ∷ fs)

abbrev pub IsFree : ℕ → Text → Type 0
IsFree sep [] = Unit
IsFree sep (c ∷ cs) = (c ≢ sep) × IsFree sep cs

-- Where the next separator is.
pub data Cut (sep : ℕ) (rest : Text) (i : ℕ) : Type 0 where
  last : index_of rest sep i ≡ npos → fields rest sep ≡ rest ∷ [] → Cut sep rest i
  more :
      (token rest' : Text)
      → rest ≡ token ++ sep ∷ rest'
      → index_of rest sep i ≡ i + length token
      → fields rest sep ≡ token ∷ fields rest' sep
      → Cut sep rest i

Cut-cons :
    (sep c : ℕ) (cs : Text) (i : ℕ) → (c == sep) ≡ false → Cut sep cs (i + 1) → Cut sep (c ∷ cs) i
unfolding index_of fields
Cut-cons sep c cs i e (last a b) = last (rw e a) (rw (e, b))
Cut-cons sep c cs i e (more token rest' p q r) =
    more (c ∷ token) rest' (ap (◌∷◌ c) p) (rw e (omega (arith, q))) (rw (e, r))

pub cut : (sep : ℕ) (rest : Text) (i : ℕ) → Cut sep rest i
unfolding index_of fields
cut sep [] i = last refl refl
cut sep (c ∷ cs) i = elim (Bool-cases (c == sep)) [
  | inl e ↦ more [] cs (ap (λ (x : ℕ). x ∷ cs) ((==_iff c sep).0 e)) (ground arith) (rw e)
  | inr e ↦ Cut-cons sep c cs i e (cut sep cs (i + 1))
]

pub fields-cons : (s : Text) (sep : ℕ) → (f : Text) × (fs : List Text) × (fields s sep ≡ f ∷ fs)
unfolding fields
fields-cons [] sep = ([], [], refl)
fields-cons (c ∷ cs) sep =
    let (f, fs, e) = fields-cons cs sep in
    elim (Bool-cases (c == sep)) [
      | inl t ↦ ([], fields cs sep, rw t)
      | inr t ↦ (c ∷ f, fs, rw (t, e))
    ]

pub kept-cons :
    (f : Text) (s : Text) (sep : ℕ)
    → kept (f ∷ fields s sep)
      ≡ (if is_empty f then kept (fields s sep) else f ∷ kept (fields s sep))
unfolding kept
kept-cons f s sep = let (g, gs, e) = fields-cons s sep in rw e

pub fields-free : (sep : ℕ) (t : Text) → IsFree sep t → fields t sep ≡ t ∷ []
unfolding fields
fields-free sep [] h = refl
fields-free sep (c ∷ t) h = ground (arith, fields-free sep t h.1)

pub fields-append :
    (sep : ℕ) (t rest : Text) → IsFree sep t → fields (t ++ sep ∷ rest) sep ≡ t ∷ fields rest sep
unfolding fields
fields-append sep [] rest h = ground arith
fields-append sep (c ∷ t) rest h = ground (arith, fields-append sep t rest h.1)
