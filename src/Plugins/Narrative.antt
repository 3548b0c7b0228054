-- ===== src/Plugins/Narrative.antt =====
-- packages/plugins/src/dice-check.ts: isNarrativeTemplate, and the replacement of placeholders.
use sandboxengine.Prelude.{
  ℕ, zero, suc, ◌+◌, ◌/◌, ◌%◌, Bool, false, not, ◌&&◌, ◌||◌, Option, none, some, List, [], ◌∷◌,
  ◌++◌, leb, ltb, ◌==◌, length, all, any, if◌then◌else◌,
}
use sandboxengine.Prelude.Int.{ℤ, pos, negsuc}
use sandboxengine.Prelude.Text.{Text, lit, text_eq}

-- [A-Za-z0-9_]
abbrev pub is_word_unit : ℕ → Bool
is_word_unit c =
    (leb b'A' c && leb c b'Z')
    || (leb b'a' c && leb c b'z')
    || (leb b'0' c && leb c b'9')
    || c == b'_'

-- The longest run of word units that a text begins with, and what follows it.
abbrev pub word_of : Text → Text × Text
word_of [] = ([], [])
word_of (c ∷ cs) =
    let rest = word_of cs in if is_word_unit c then (c ∷ rest.0, rest.1) else ([], c ∷ cs)

abbrev pub closes : Text → Bool
closes (c ∷ d ∷ cs) = c == 125 && d == 125
closes _ = false

abbrev pub closed_key : Text × Text → Option Text
closed_key ([], after) = none
closed_key (c ∷ cs, after) = if closes after then some (c ∷ cs) else none

-- /{{([A-Za-z0-9_]+)}}/ at the beginning of a text: the key
abbrev pub placeholder : Text → Option Text
placeholder (c ∷ d ∷ cs) = if c == 123 && d == 123 then closed_key (word_of cs) else none
placeholder _ = none

-- `replace(/{{([A-Za-z0-9_]+)}}/g, ...)` from the left, with a number of units still to be skipped: a
-- placeholder is its key and four braces, of which the first is at hand.
unfoldable pub replace_placeholders : (Text → Text) → ℕ → Text → Text
replace_placeholders f skip [] = []
replace_placeholders f (suc skip) (c ∷ cs) = replace_placeholders f skip cs
replace_placeholders f zero (c ∷ cs) = elim (placeholder (c ∷ cs)) [
  | none ↦ c ∷ replace_placeholders f zero cs
  | some k ↦ f k ++ replace_placeholders f (length k + 3) cs
]

-- The keys of the placeholders that a replacement meets.
unfoldable pub placeholder_keys : ℕ → Text → List Text
placeholder_keys skip [] = []
placeholder_keys (suc skip) (c ∷ cs) = placeholder_keys skip cs
placeholder_keys zero (c ∷ cs) = elim (placeholder (c ∷ cs)) [
  | none ↦ placeholder_keys zero cs
  | some k ↦ k ∷ placeholder_keys (length k + 3) cs
]

-- text.includes of two equal units
unfoldable pub has_pair : ℕ → Text → Bool
has_pair u [] = false
has_pair u (c ∷ []) = false
has_pair u (c ∷ d ∷ cs) = (c == u && d == u) || has_pair u (d ∷ cs)

abbrev pub is_known_key : Text → Bool
is_known_key k =
    text_eq k (lit "roll")
    || text_eq k (lit "modifier")
    || text_eq k (lit "total")
    || text_eq k (lit "difficulty")
    || text_eq k (lit "outcome")

-- isNarrativeTemplate
unfoldable pub is_narrative_template : Text → Bool
is_narrative_template s =
    let stripped = replace_placeholders (λ k. []) 0 s in
    leb 1 (length s)
    && leb (length s) 500
    && not (any (λ c. c == b'<' || c == b'>') s)
    && all is_known_key (placeholder_keys 0 s)
    && not (has_pair 123 stripped)
    && not (has_pair 125 stripped)

-- String of an integer, its digits from the last, on as many rounds as the number
unfoldable pub digits : ℕ → ℕ → Text → Text
digits zero n after = (48 + n % 10) ∷ after
digits (suc fuel) n after =
    let more = digits fuel (n / 10) ((48 + n % 10) ∷ after) in
    if ltb n 10 then (48 + n) ∷ after else more

unfoldable pub integer_text : ℤ → Text
integer_text (pos n) = digits n n []
integer_text (negsuc n) = b'-' ∷ digits (suc n) (suc n) []
