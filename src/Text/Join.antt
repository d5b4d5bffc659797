-- ===== src/Text/Join.antt =====
-- `base::join` of include/base/string.h, and its way through `base::split`.
use libpreempt.Prelude.{
  ℕ, ◌<◌, ◌≡◌, ◌≢◌, refl, ◌∙◌, sym, ap, ◌==◌, Bool-cases, inl, inr, false, some, List, [], ◌∷◌,
  ◌++◌, length, append_assoc, append-nil, if◌then◌else◌, arith,
}
use libpreempt.Text.{Text, npos, is_empty, join_loop, join, split}
use libpreempt.Text.Fields.{fields, kept, IsFree, fields-cons, fields-free, fields-append}
use libpreempt.Text.Split.{split-kept}

abbrev pub concat : List Text → Text
concat [] = []
concat (t ∷ ts) = t ++ concat ts

-- The texts with the separator between each two.
abbrev pub intercalate : ℕ → List Text → Text
intercalate sep [] = []
intercalate sep (t ∷ []) = t
intercalate sep (t ∷ u ∷ ts) = t ++ sep ∷ intercalate sep (u ∷ ts)

-- Every text is non-empty and has no separator in it.
abbrev pub Tokens : ℕ → List Text → Type 0
Tokens sep [] = Unit
Tokens sep (t ∷ ts) = ((is_empty t ≡ false) × IsFree sep t) × Tokens sep ts

abbrev pub AllFree : ℕ → List Text → Type 0
AllFree sep [] = Unit
AllFree sep (t ∷ ts) = IsFree sep t × AllFree sep ts

join_loop-concat :
    (r : Text) (v : List Text) (sep : ℕ)
    → join_loop r v sep ≡ r ++ (concat v ++ (if is_empty v then [] else sep ∷ []))
unfolding join_loop
join_loop-concat r [] sep = rw (append-nil r)
join_loop-concat r (s ∷ []) sep = simp (append_assoc, append-nil)
join_loop-concat r (s ∷ t ∷ v) sep = join_loop-concat (r ++ s) (t ∷ v) sep ∙ simp append_assoc

-- `join` puts the texts together with nothing between them; the separator stands once, at the end,
-- if there is any text.
pub join-concat :
    (v : List Text) (sep : ℕ) → join v sep ≡ concat v ++ (if is_empty v then [] else sep ∷ [])
unfolding join
join-concat v sep = join_loop-concat [] v sep

same_head : (s : Text) (a b : ℕ) (x y : Text) → s ++ a ∷ x ≡ s ++ b ∷ y → a ≡ b
same_head [] a b x y e = cc
same_head (c ∷ s) a b x y e = same_head s a b x y (cc)

-- So `join` is not what it is named after: where the second text begins with another byte than the
-- separator, the result is not the texts with the separator between each two.
pub join-ne-intercalate :
    (s t : Text) (c : ℕ) (v : List Text) (sep : ℕ)
    → c ≢ sep
    → join (s ∷ (c ∷ t) ∷ v) sep ≢ intercalate sep (s ∷ (c ∷ t) ∷ v)
join-ne-intercalate s t c v sep h e =
    h (same_head s c sep _ _ (simp append_assoc at (sym (join-concat (s ∷ (c ∷ t) ∷ v) sep) ∙ e)))

fields-intercalate :
    (sep : ℕ) (t : Text) (ts : List Text)
    → Tokens sep (t ∷ ts)
    → fields (intercalate sep (t ∷ ts)) sep ≡ t ∷ ts
fields-intercalate sep t [] h = fields-free sep t h.0.1
fields-intercalate sep t (u ∷ ts) h =
    fields-append sep t (intercalate sep (u ∷ ts)) h.0.1
    ∙ ap (◌∷◌ t) (fields-intercalate sep u ts h.1)

kept-Tokens : (sep : ℕ) (ts : List Text) → Tokens sep ts → kept ts ≡ ts
unfolding kept
kept-Tokens sep [] h = refl
kept-Tokens sep (t ∷ []) h = refl
kept-Tokens sep (t ∷ u ∷ ts) h = rw (h.0.0, kept-Tokens sep (u ∷ ts) h.1)

-- `split` gives back any non-empty tokens that stand with one separator between each two.
pub split-intercalate :
    (sep : ℕ) (t : Text) (ts : List Text)
    → Tokens sep (t ∷ ts)
    → length (intercalate sep (t ∷ ts)) < npos
    → split (intercalate sep (t ∷ ts)) sep ≡ some (t ∷ ts)
split-intercalate sep t ts h l =
    split-kept (intercalate sep (t ∷ ts)) sep l
    ∙ rw (fields-intercalate sep t ts h, kept-Tokens sep (t ∷ ts) h)

IsFree-append : (sep : ℕ) (s t : Text) → IsFree sep s → IsFree sep t → IsFree sep (s ++ t)
IsFree-append sep [] t h k = k
IsFree-append sep (c ∷ s) t h k = (h.0, IsFree-append sep s t h.1 k)

concat-IsFree : (sep : ℕ) (v : List Text) → AllFree sep v → IsFree sep (concat v)
concat-IsFree sep [] h = tt
concat-IsFree sep (t ∷ v) h = IsFree-append sep t (concat v) h.0 (concat-IsFree sep v h.1)

-- `split` does not undo `join`: from texts with no separator in them, not all empty, it makes two
-- tokens, the texts put together and an empty one.
split-join :
    (s : Text) (v : List Text) (sep : ℕ)
    → AllFree sep (s ∷ v)
    → is_empty (concat (s ∷ v)) ≡ false
    → length (join (s ∷ v) sep) < npos
    → split (join (s ∷ v) sep) sep ≡ some (concat (s ∷ v) ∷ [] ∷ [])
unfolding fields kept
split-join s v sep free full l =
    split-kept (join (s ∷ v) sep) sep l
    ∙ rw (
      join-concat (s ∷ v) sep,
      fields-append sep (concat (s ∷ v)) [] (concat-IsFree sep (s ∷ v) free),
      full,
    )

-- The fields that are not empty.
abbrev pub full : List Text → List Text
full [] = []
full (f ∷ fs) = if is_empty f then full fs else f ∷ full fs

fields-snoc : (sep : ℕ) (s : Text) → fields (s ++ sep ∷ []) sep ≡ fields s sep ++ [] ∷ []
unfolding fields
fields-snoc sep [] = ground arith
fields-snoc sep (c ∷ s) =
    let (f, fs, e) = fields-cons s sep in
    elim (Bool-cases (c == sep)) [
      | inl t ↦ rw (t, fields-snoc sep s)
      | inr t ↦ rw (t, fields-snoc sep s, e)
    ]

kept-snoc : (fs : List Text) → kept (fs ++ [] ∷ []) ≡ full fs ++ [] ∷ []
unfolding kept
kept-snoc [] = refl
kept-snoc (f ∷ []) = ground arith
kept-snoc (f ∷ g ∷ fs) = ground (arith, kept-snoc (g ∷ fs))

-- A separator at the end of the text makes an empty token at the end of the result, behind all the
-- fields that are not empty.
pub split-trailing :
    (s : Text) (sep : ℕ)
    → length (s ++ sep ∷ []) < npos
    → split (s ++ sep ∷ []) sep ≡ some (full (fields s sep) ++ [] ∷ [])
split-trailing s sep l =
    split-kept (s ++ sep ∷ []) sep l ∙ rw (fields-snoc sep s, kept-snoc (fields s sep))
