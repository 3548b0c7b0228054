-- ===== src/Control/Drafts/Safety.antt =====
-- The analysis of a block's references against the references that are left when it is removed.
use mathlib.Core.Path.{subst}
use sandboxengine.Prelude.{
  ◌≡◌, refl, sym, ◌∙◌, Bool, true, false, not, ◌&&◌, Option, none, some, List, [], ◌∷◌, ◌++◌, all,
  inl, inr, Bool-cases, arith, if◌then◌else◌,
}
use sandboxengine.Prelude.Sort.{sort_by, insert_by}
use sandboxengine.Prelude.Int.{ℤ}
use sandboxengine.Prelude.Results.{ok, err}
use sandboxengine.Contracts.Value.{is_id}
use sandboxengine.Prelude.Text.{Text, text_eq, text_eq_iff}
use sandboxengine.Contracts.World.{distinct, has}
use sandboxengine.Contracts.Authoring.{
  Block, BlockData, location, character, resource, action, find_block, ids, is_kind,
  is_location_data, is_resource_data, resolves, block_resolves, is_positive_safe,
  has_valid_quest_release_references,
}
use sandboxengine.Control.Drafts.{
  DraftReference, data_references, block_references, entry_references, is_empty, reference_le,
  analyze_draft_block_references, remove_block, has_block, make_release, Trial, block_remove,
  apply_trial_change, change_block_referenced,
}
use sandboxengine.Control.Drafts.Removal.{
  without, distinct-head, distinct-tail, find_block-remove_block, distinct-remove_block, made_valid,
}

is_empty-insert_by :
    (le : DraftReference → DraftReference → Bool) (x : DraftReference) (xs : List DraftReference)
    → is_empty (insert_by le x xs) ≡ false
is_empty-insert_by le x [] = refl
is_empty-insert_by le x (y ∷ ys) = elim (Bool-cases (le x y)) [
  | inl e ↦ rw e refl
  | inr e ↦ rw e refl
]

is_empty-sort_by :
    (le : DraftReference → DraftReference → Bool) (xs : List DraftReference)
    → is_empty (sort_by le xs) ≡ is_empty xs
is_empty-sort_by le [] = refl
is_empty-sort_by le (x ∷ xs) = is_empty-insert_by le x (sort_by le xs)

is_empty-append : (xs ys : List DraftReference) → is_empty (xs ++ ys) ≡ (is_empty xs && is_empty ys)
is_empty-append [] ys = refl
is_empty-append (x ∷ xs) ys = refl

and_rest : (a b c : Bool) → (a && b && c) ≡ true → (b && c) ≡ true
and_rest a b c h = ground arith

module _ (t : Text) (find : Text → Option Block) where
  -- What is found is still found when another id is left out.
  is_kind-without :
      (p : BlockData → Bool) (k : Text)
      → is_kind p (find k) ≡ true
      → is_kind p (without t find k) ≡ not (text_eq k t)
  is_kind-without p k h = elim (Bool-cases (text_eq k t)) [ inl e ↦ rw e refl | inr e ↦ rw e h ]

  data_references-resolves :
      (id : Text) (d : BlockData)
      → resolves find d ≡ true
      → is_empty (data_references id d t) ≡ resolves (without t find) d
  data_references-resolves id location h = refl
  data_references-resolves id (character none status) h = refl
  data_references-resolves id (character (some l) status) h =
      rw (is_kind-without is_location_data l h)
        (elim (Bool-cases (text_eq l t)) [ inl e ↦ rw e refl | inr e ↦ rw e refl ])
  data_references-resolves id (resource unit initial min max) h = sym h
  data_references-resolves id (action r units seconds partly) h =
      let found : is_kind is_resource_data (find r) ≡ true = ground arith in
      let rest = and_rest (is_kind is_resource_data (find r)) (is_positive_safe units) _ h in
      rw (is_kind-without is_resource_data r found)
        (elim (Bool-cases (text_eq r t)) [ inl e ↦ rw e refl | inr e ↦ rw e (sym rest) ])

  -- No block of the list has the id.
  block_references-absent :
      (bs : List Block)
      → has (ids bs) t ≡ false
      → all (block_resolves find) bs ≡ true
      → is_empty (block_references bs t) ≡ all (block_resolves (without t find)) bs
  unfolding has block_references
  block_references-absent [] h fine = refl
  block_references-absent (b ∷ bs) h fine =
      let other : text_eq b.id t ≡ false = ground arith in
      let absent : has (ids bs) t ≡ false = ground arith in
      let here : resolves find b.data_of ≡ true = ground arith in
      let rest : all (block_resolves find) bs ≡ true = ground arith in
      rw
        (
          other,
          is_empty-append (data_references b.id b.data_of t) (block_references bs t),
          data_references-resolves b.id b.data_of here,
          block_references-absent bs absent rest,
        )
        refl

  block_references-remove_block :
      (bs : List Block)
      → distinct (ids bs) ≡ true
      → all (block_resolves find) bs ≡ true
      → is_empty (block_references bs t) ≡ all (block_resolves (without t find)) (remove_block t bs)
  unfolding block_references
  block_references-remove_block [] h fine = refl
  block_references-remove_block (b ∷ bs) h fine =
      let here : resolves find b.data_of ≡ true = ground arith in
      let rest : all (block_resolves find) bs ≡ true = ground arith in
      elim (Bool-cases (text_eq b.id t)) [
        | inl e ↦
            let absent =
              subst (λ z. has (ids bs) z ≡ false) ((text_eq_iff b.id t).0 e)
                (distinct-head b bs h) in
            rw e (block_references-absent bs absent rest)
        | inr e ↦
            rw
              (
                e,
                is_empty-append (data_references b.id b.data_of t) (block_references bs t),
                data_references-resolves b.id b.data_of here,
                block_references-remove_block bs (distinct-tail b bs h) rest,
              )
              refl
      ]

entry_references-without :
    (quest_id entry t : Text) (find : Text → Option Block)
    → is_kind is_location_data (find entry) ≡ true
    → is_empty (entry_references quest_id entry t) ≡ is_kind is_location_data (without t find entry)
entry_references-without quest_id entry t find h =
    rw (is_kind-without t find is_location_data entry h)
      (elim (Bool-cases (text_eq entry t)) [ inl e ↦ rw e refl | inr e ↦ rw e refl ])

-- In a draft with valid references, the analysis of a block that is there says that it is safe to
-- delete just when the draft without it has valid references.
safe_to_delete-valid :
    (locale_compare : Text → Text → ℤ) (quest_id title entry : Text) (bs : List Block) (t : Text)
    → has_valid_quest_release_references (make_release quest_id title entry bs) bs ≡ true
    → has_block bs t ≡ true
    → (analyze_draft_block_references locale_compare quest_id entry bs t).safe_to_delete
      ≡ has_valid_quest_release_references
          (make_release quest_id title entry (remove_block t bs))
          (remove_block t bs)
unfolding analyze_draft_block_references
safe_to_delete-valid locale_compare quest_id title entry bs t valid there =
    let parts : (distinct (ids bs)
          && is_kind is_location_data (find_block bs entry)
          && all (block_resolves (find_block bs)) bs)
        ≡ true =
      sym (made_valid quest_id title entry bs) ∙ valid in
    let separate : distinct (ids bs) ≡ true = ground arith in
    let entered : is_kind is_location_data (find_block bs entry) ≡ true = ground arith in
    let resolved : all (block_resolves (find_block bs)) bs ≡ true = ground arith in
    let left : find_block (remove_block t bs) ≡ without t (find_block bs) =
      λ i k. find_block-remove_block bs t k separate i in
    let at_entry = find_block-remove_block bs t entry separate in
    let entry_part = entry_references-without quest_id entry t (find_block bs) entered in
    let rest_part = block_references-remove_block t (find_block bs) bs separate resolved in
    let still = distinct-remove_block bs t separate in
    let order =
      is_empty-sort_by (reference_le locale_compare)
        (entry_references quest_id entry t ++ block_references bs t) in
    rw
      (
        there,
        order,
        is_empty-append (entry_references quest_id entry t) (block_references bs t),
        entry_part,
        rest_part,
        made_valid quest_id title entry (remove_block t bs),
        still,
        at_entry,
        left,
      )
      refl

-- A removal, by a valid id, of a block that is there from a draft with valid references: it is done just
-- when the draft without the block has valid references, and refused with the references otherwise.
pub apply_trial_change-removal :
    (locale_compare : Text → Text → ℤ) (quest_id entry : Text) (trial : Trial) (k : Text)
    → has_valid_quest_release_references
        (make_release quest_id trial.title entry trial.blocks)
        trial.blocks
      ≡ true
    → is_id k ≡ true
    → has_block trial.blocks k ≡ true
    → apply_trial_change locale_compare quest_id entry (block_remove k) trial ≡ (
        if has_valid_quest_release_references
          (make_release quest_id trial.title entry (remove_block k trial.blocks))
          (remove_block k trial.blocks)
        then ok (record trial { blocks = remove_block k trial.blocks })
        else err (
            change_block_referenced
              (analyze_draft_block_references locale_compare quest_id entry trial.blocks
                k).references))
unfolding apply_trial_change
apply_trial_change-removal locale_compare quest_id entry trial k valid named there =
    let bs = trial.blocks in
    let safe = safe_to_delete-valid locale_compare quest_id trial.title entry bs k valid there in
    elim (Bool-cases (
      has_valid_quest_release_references
        (make_release quest_id trial.title entry (remove_block k bs)) (remove_block k bs))) [
          | inl e ↦ rw (named, there, safe, e) refl
          | inr e ↦ rw (named, there, safe, e) refl
        ]
