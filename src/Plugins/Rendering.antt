-- ===== src/Plugins/Rendering.antt =====
-- packages/plugins/src/dice-check.ts: what a template is rendered to, apart from the scan of its units.
use mathlib.Core.Path.{subst}
use sandboxengine.Prelude.{
  ℕ, zero, suc, ◌+◌, ◌≤◌, ◌≡◌, refl, sym, ap, ◌∙◌, true, ◌&&◌, ◌<◌, some, [], ◌∷◌, ◌++◌, ◌==◌,
  length, all, inl, inr, Bool-cases, Option-cases, arith,
}
use sandboxengine.Prelude.Text.{Text}
use sandboxengine.Plugins.Narrative.{
  is_word_unit, word_of, closes, closed_key, placeholder, replace_placeholders,
}

-- A key is a text of letters, digits and low lines.
abbrev pub IsKey : Text → Type 0
IsKey k = (1 ≤ length k) × (all is_word_unit k ≡ true)

-- `{{key}}` before other text
abbrev pub braced : Text → Text → Text
braced k rest = 123 ∷ 123 ∷ (k ++ 125 ∷ 125 ∷ rest)

-- From the left, each key in its braces is replaced by its text, and a unit at which none begins is kept.
pub data Rendered (texts : Text → Text) : Text → Text → Type 0 where
  ended : Rendered texts [] []
  filled :
      (k rest out : Text)
      → IsKey k
      → Rendered texts rest out
      → Rendered texts (braced k rest) (texts k ++ out)
  kept :
      (c : ℕ) (rest out : Text)
      → ((k after : Text) → IsKey k → ¬ (c ∷ rest ≡ braced k after))
      → Rendered texts rest out
      → Rendered texts (c ∷ rest) (c ∷ out)

word_of-parts :
    (s : Text) → (s ≡ (word_of s).0 ++ (word_of s).1) × (all is_word_unit (word_of s).0 ≡ true)
word_of-parts [] = (refl, refl)
word_of-parts (c ∷ cs) = elim (Bool-cases (is_word_unit c)) [
  | inl e ↦ let (parts, word) = word_of-parts cs in rw e (ap (λ z. c ∷ z) parts, rw e word)
  | inr e ↦ rw e (refl, refl)
]

word_of-key :
    (k rest : Text) → all is_word_unit k ≡ true → word_of (k ++ 125 ∷ rest) ≡ (k, 125 ∷ rest)
word_of-key [] rest h = refl
word_of-key (c ∷ k) rest h =
    let (first, others) : (is_word_unit c ≡ true) × (all is_word_unit k ≡ true) = ground arith in
    rw (first, word_of-key k rest others) refl

closes-parts : (s : Text) → closes s ≡ true → (rest : Text) × (s ≡ 125 ∷ 125 ∷ rest)
closes-parts [] h = cc
closes-parts (c ∷ []) h = cc
closes-parts (c ∷ d ∷ cs) h =
    let (a, b) : (c ≡ 125) × (d ≡ 125) = ground arith in (cs, rw (a, b) refl)

closed_key-parts :
    (word after k : Text)
    → closed_key (word, after) ≡ some k
    → (word ≡ k) × (1 ≤ length k) × ((rest : Text) × (after ≡ 125 ∷ 125 ∷ rest))
closed_key-parts [] after k h = cc
closed_key-parts (c ∷ cs) after k h = elim (Bool-cases (closes after)) [
  | inl e ↦
      let same : c ∷ cs ≡ k = ground arith in
      (same, subst (λ z. 1 ≤ length z) same (ground arith), closes-parts after e)
  | inr e ↦ let bad = rw e at h in cc
]

placeholder-some :
    (s k : Text) → placeholder s ≡ some k → IsKey k × ((rest : Text) × (s ≡ braced k rest))
placeholder-some [] k h = cc
placeholder-some (c ∷ []) k h = cc
placeholder-some (c ∷ d ∷ cs) k h = elim (Bool-cases (c == 123 && d == 123)) [
  | inr e ↦ let bad = rw e at h in cc
  | inl e ↦
      let (a, b) : (c ≡ 123) × (d ≡ 123) = ground arith in
      let (parts, word) = word_of-parts cs in
      let (same, some_units, (rest, closed)) =
        closed_key-parts (word_of cs).0 (word_of cs).1 k (rw e at h) in
      (
        (some_units, subst (λ z. all is_word_unit z ≡ true) same word),
        (rest, rw (a, b) (ap (λ z. 123 ∷ 123 ∷ z) (parts ∙ rw (same, closed) refl))),
      )
]

placeholder-braced : (k rest : Text) → IsKey k → placeholder (braced k rest) ≡ some k
placeholder-braced [] rest h = absurd (omega (arith, h.0))
placeholder-braced (c ∷ k) rest h = rw (word_of-key (c ∷ k) (125 ∷ rest) h.1) refl

-- The scan skips the rest of a key and its closing braces.
skip_key :
    (f : Text → Text) (k rest : Text)
    → replace_placeholders f (length k + 2) (k ++ 125 ∷ 125 ∷ rest) ≡ replace_placeholders f 0 rest
unfolding replace_placeholders
skip_key f [] rest = refl
skip_key f (c ∷ k) rest =
    let one_more : suc (length k) + 2 ≡ suc (length k + 2) = omega arith in
    rw one_more (skip_key f k rest)

replace-filled :
    (f : Text → Text) (k rest : Text)
    → IsKey k
    → replace_placeholders f 0 (braced k rest) ≡ f k ++ replace_placeholders f 0 rest
unfolding replace_placeholders
replace-filled f k rest key =
    let one_more : length k + 3 ≡ suc (length k + 2) = omega arith in
    rw (placeholder-braced k rest key, one_more, replace_placeholders)
      (ap (λ z. f k ++ z) (skip_key f k rest))

shorter : (k rest : Text) → length rest < length (braced k rest)
shorter [] rest = omega arith
shorter (c ∷ k) rest = let before = shorter k rest in omega (arith, before)

render :
    (f : Text → Text) (fuel : ℕ) (s : Text)
    → length s ≤ fuel
    → Rendered f s (replace_placeholders f 0 s)
unfolding replace_placeholders
render f fuel [] h = ended
render f zero (c ∷ cs) h = absurd (omega (arith, h))
render f (suc fuel) (c ∷ cs) h = elim (Option-cases (placeholder (c ∷ cs))) [
  | inl e ↦
      rw (e, replace_placeholders)
        (kept c cs (replace_placeholders f 0 cs)
          (λ k after key same.
            let bad = sym e ∙ ap placeholder same ∙ placeholder-braced k after key in cc)
          (render f fuel cs (omega (arith, h))))
  | inr (k, e) ↦
      let (key, (rest, same)) = placeholder-some (c ∷ cs) k e in
      let less = shorter k rest in
      let short : length rest ≤ fuel =
        let whole : length (braced k rest) ≤ suc fuel = subst (λ z. length z ≤ suc fuel) same h in
        omega (arith, less, whole) in
      subst (λ z. Rendered f z (replace_placeholders f 0 z)) (sym same)
        (subst (λ z. Rendered f (braced k rest) z) (sym (replace-filled f k rest key))
          (filled k rest (replace_placeholders f 0 rest) key (render f fuel rest short)))
]

pub replace_placeholders-Rendered :
    (f : Text → Text) (s : Text) → Rendered f s (replace_placeholders f 0 s)
replace_placeholders-Rendered f s = render f (length s) s (omega arith)
