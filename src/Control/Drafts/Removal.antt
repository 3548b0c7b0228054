-- ===== src/Control/Drafts/Removal.antt =====
-- The removal of a block from a draft whose references are valid.
use sandboxengine.Prelude.{
  ℕ, ◌≡◌, refl, sym, ap, ◌∙◌, true, false, ◌&&◌, Option, none, List, [], ◌∷◌, ◌==◌, length, all,
  inl, inr, Bool-cases, arith, if◌then◌else◌,
}
use sandboxengine.Prelude.Text.{Text, text_eq, text_eq_iff, text_eq_refl}
use sandboxengine.Contracts.World.{distinct, has}
use sandboxengine.Contracts.Authoring.{
  Block, find_block, ids, is_kind, is_location_data, block_resolves,
  has_valid_quest_release_references,
}
use sandboxengine.Control.Drafts.{remove_block, make_release}

-- The search without the blocks of one id.
abbrev pub without : Text → (Text → Option Block) → Text → Option Block
without t find k = if text_eq k t then none else find k

pub find_missing : (bs : List Block) (k : Text) → has (ids bs) k ≡ false → find_block bs k ≡ none
unfolding has
find_missing [] k h = refl
find_missing (b ∷ bs) k h =
    let other : text_eq b.id k ≡ false = ground arith in
    let rest : has (ids bs) k ≡ false = ground arith in rw other (find_missing bs k rest)

pub distinct-head :
    (b : Block) (bs : List Block) → distinct (ids (b ∷ bs)) ≡ true → has (ids bs) b.id ≡ false
unfolding distinct
distinct-head b bs h = ground arith

pub distinct-tail :
    (b : Block) (bs : List Block) → distinct (ids (b ∷ bs)) ≡ true → distinct (ids bs) ≡ true
unfolding distinct
distinct-tail b bs h = ground arith

text_eq_swap : (j k : Text) → text_eq j k ≡ false → text_eq k j ≡ false
text_eq_swap j k h = elim (Bool-cases (text_eq k j)) [
  | inr e ↦ e
  | inl e ↦ let bad = sym ((text_eq_iff j k).1 (sym ((text_eq_iff k j).0 e))) ∙ h in cc
]

pub find_block-remove_block :
    (bs : List Block) (t k : Text)
    → distinct (ids bs) ≡ true
    → find_block (remove_block t bs) k ≡ without t (find_block bs) k
find_block-remove_block [] t k h = elim (Bool-cases (text_eq k t)) [
  | inl e ↦ rw e refl
  | inr e ↦ rw e refl
]
find_block-remove_block (b ∷ bs) t k h = elim (Bool-cases (text_eq b.id t)) [
  | inl e ↦
      let b_t = (text_eq_iff b.id t).0 e in
      elim (Bool-cases (text_eq k t)) [
        | inl f ↦
            let k_b = (text_eq_iff k t).0 f ∙ sym b_t in
            let gone : find_block bs k ≡ none =
              rw k_b (find_missing bs b.id (distinct-head b bs h)) in
            rw (e, f) gone
        | inr f ↦
            let other : text_eq b.id k ≡ false = rw b_t (text_eq_swap k t f) in
            rw (e, f, other) refl
      ]
  | inr e ↦ elim (Bool-cases (text_eq b.id k)) [
    | inl f ↦
        let other : text_eq k t ≡ false = rw (sym ((text_eq_iff b.id k).0 f)) e in
        rw (e, f, other) refl
    | inr f ↦ rw (e, f) (find_block-remove_block bs t k (distinct-tail b bs h))
  ]
]

pub has-remove_block :
    (bs : List Block) (t k : Text)
    → has (ids bs) k ≡ false
    → has (ids (remove_block t bs)) k ≡ false
unfolding has
has-remove_block [] t k h = refl
has-remove_block (b ∷ bs) t k h =
    let other : text_eq b.id k ≡ false = ground arith in
    let rest : has (ids bs) k ≡ false = ground arith in
    elim (Bool-cases (text_eq b.id t)) [
      | inl e ↦ rw e rest
      | inr e ↦ rw (e, other) (has-remove_block bs t k rest)
    ]

pub distinct-remove_block :
    (bs : List Block) (t : Text)
    → distinct (ids bs) ≡ true
    → distinct (ids (remove_block t bs)) ≡ true
unfolding distinct
distinct-remove_block [] t h = refl
distinct-remove_block (b ∷ bs) t h = elim (Bool-cases (text_eq b.id t)) [
  | inl e ↦ rw e (distinct-tail b bs h)
  | inr e ↦
      let new = has-remove_block bs t b.id (distinct-head b bs h) in
      let rest = distinct-remove_block bs t (distinct-tail b bs h) in rw (e, new, rest) refl
]

-- A release that lists the ids of its blocks.
all_has-cons :
    (j : Text) (ks xs : List Text) → all (has ks) xs ≡ true → all (has (j ∷ ks)) xs ≡ true
unfolding has
all_has-cons j ks [] h = refl
all_has-cons j ks (x ∷ xs) h =
    let here : has ks x ≡ true = ground arith in
    let rest : all (has ks) xs ≡ true = ground arith in
    let later = all_has-cons j ks xs rest in
    elim (Bool-cases (text_eq j x)) [
      | inl e ↦ rw (e, later) refl
      | inr e ↦ rw (e, here, later) refl
    ]

all_has_self : (ks : List Text) → all (has ks) ks ≡ true
unfolding has
all_has_self [] = refl
all_has_self (k ∷ ks) =
    let same = text_eq_refl k in
    let rest = all_has-cons k ks ks (all_has_self ks) in rw (same, rest) refl

length-ids : (bs : List Block) → length (ids bs) ≡ length bs
length-ids [] = refl
length-ids (b ∷ bs) = ap ℕ.suc (length-ids bs)

eq_refl : (n : ℕ) → (n == n) ≡ true
eq_refl n = ground arith

pub made_valid :
    (quest_id title entry : Text) (bs : List Block)
    → has_valid_quest_release_references (make_release quest_id title entry bs) bs ≡ (
        distinct (ids bs)
        && is_kind is_location_data (find_block bs entry)
        && all (block_resolves (find_block bs)) bs)
unfolding has_valid_quest_release_references
made_valid quest_id title entry bs =
    let self = all_has_self (ids bs) in
    let same : (length (ids bs) == length bs) ≡ true = rw (length-ids bs) (eq_refl (length bs)) in
    elim (Bool-cases (distinct (ids bs))) [
      | inl e ↦ rw (self, same, e) refl
      | inr e ↦ rw (self, same, e) refl
    ]
