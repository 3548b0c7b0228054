-- ===== src/Control/Drafts/Changes.antt =====
-- What every change of a draft keeps.
use mathlib.Core.Path.{subst}
use sandboxengine.Prelude.{
  ℕ, suc, ◌≡◌, refl, sym, ap, ◌∙◌, true, false, ◌&&◌, ◌||◌, List, [], ◌∷◌, ◌++◌, all, all-append,
  update_first, inl, inr, Bool-cases, arith,
}
use sandboxengine.Prelude.Int.{ℤ}
use sandboxengine.Prelude.Results.{ok, Result-cases, ok-injective}
use sandboxengine.Prelude.Text.{Text, text_eq, text_eq_iff}
use sandboxengine.Contracts.Value.{is_bounded_text, is_id}
use sandboxengine.Contracts.World.{distinct, has}
use sandboxengine.Contracts.Authoring.{Block, is_block, ids}
use sandboxengine.Control.Drafts.{
  DraftChange, quest_title_set, block_add, block_replace, block_remove, Trial, has_block,
  remove_block, apply_trial_change, try_changes, analyze_draft_block_references,
}
use sandboxengine.Control.Drafts.Removal.{distinct-head, distinct-tail, distinct-remove_block}

-- A title of 1 to 200 units, and valid blocks of distinct ids.
pub record IsTrial (t : Trial) : Type 0 where
  pub titled : is_bounded_text 200 t.title ≡ true
  pub separate : distinct (ids t.blocks) ≡ true
  pub blocks_ok : all is_block t.blocks ≡ true

has-ids : (bs : List Block) (k : Text) → has (ids bs) k ≡ has_block bs k
unfolding has
has-ids [] k = refl
has-ids (b ∷ bs) k = ap (λ z. text_eq b.id k || z) (has-ids bs k)

has-append :
    (bs : List Block) (b : Block) (k : Text)
    → has (ids (bs ++ b ∷ [])) k ≡ (has (ids bs) k || text_eq b.id k)
unfolding has
has-append [] b k = ground arith
has-append (x ∷ bs) b k = ground (arith, has-append bs b k)

distinct-append :
    (bs : List Block) (b : Block)
    → distinct (ids bs) ≡ true
    → has (ids bs) b.id ≡ false
    → distinct (ids (bs ++ b ∷ [])) ≡ true
unfolding distinct has
distinct-append [] b h new = refl
distinct-append (x ∷ bs) b h new =
    let other : text_eq x.id b.id ≡ false = ground arith in
    let absent : has (ids bs) b.id ≡ false = ground arith in
    let swapped : text_eq b.id x.id ≡ false = elim (Bool-cases (text_eq b.id x.id)) [
      | inr e ↦ e
      | inl e ↦
          let bad = sym ((text_eq_iff x.id b.id).1 (sym ((text_eq_iff b.id x.id).0 e))) ∙ other in
          cc
    ] in
    let head = has-append bs b x.id in
    let first = distinct-head x bs h in
    let rest = distinct-append bs b (distinct-tail x bs h) absent in
    rw (head, first, swapped, rest) refl

-- A block is replaced by one of the same id.
ids-update_first :
    (bs : List Block) (b : Block) (k : Text)
    → b.id ≡ k
    → ids (update_first (λ x. text_eq x.id k) (λ x. b) bs) ≡ ids bs
ids-update_first [] b k same = refl
ids-update_first (x ∷ bs) b k same = elim (Bool-cases (text_eq x.id k)) [
  | inl e ↦ rw e (ap (λ z. z ∷ ids bs) (same ∙ sym ((text_eq_iff x.id k).0 e)))
  | inr e ↦ rw e (ap (◌∷◌ x.id) (ids-update_first bs b k same))
]

all-update_first :
    (bs : List Block) (b : Block) (k : Text)
    → is_block b ≡ true
    → all is_block bs ≡ true
    → all is_block (update_first (λ x. text_eq x.id k) (λ x. b) bs) ≡ true
all-update_first [] b k new h = refl
all-update_first (x ∷ bs) b k new h =
    let here : is_block x ≡ true = ground arith in
    let rest : all is_block bs ≡ true = ground arith in
    elim (Bool-cases (text_eq x.id k)) [
      | inl e ↦ rw (e, new, rest) refl
      | inr e ↦ rw (e, here, all-update_first bs b k new rest) refl
    ]

all-remove_block :
    (bs : List Block) (k : Text) → all is_block bs ≡ true → all is_block (remove_block k bs) ≡ true
all-remove_block [] k h = refl
all-remove_block (x ∷ bs) k h =
    let here : is_block x ≡ true = ground arith in
    let rest : all is_block bs ≡ true = ground arith in
    elim (Bool-cases (text_eq x.id k)) [
      | inl e ↦ rw e rest
      | inr e ↦ rw (e, here, all-remove_block bs k rest) refl
    ]

module _ (locale_compare : Text → Text → ℤ) (quest_id entry : Text) where
  apply_trial_change-IsTrial :
      (c : DraftChange) (t t' : Trial)
      → IsTrial t
      → apply_trial_change locale_compare quest_id entry c t ≡ ok t'
      → IsTrial t'
  unfolding apply_trial_change
  apply_trial_change-IsTrial (quest_title_set title) t t' good h =
      elim (Bool-cases (is_bounded_text 200 title)) [
        | inr e ↦ let bad = rw (e, apply_trial_change) at h in cc
        | inl e ↦
            subst IsTrial (ok-injective (rw (e, apply_trial_change) at h))
              (record { titled = e; separate = good.separate; blocks_ok = good.blocks_ok })
      ]
  apply_trial_change-IsTrial (block_add b) t t' good h = elim (Bool-cases (is_block b)) [
    | inr e ↦ let bad = rw (e, apply_trial_change) at h in cc
    | inl e ↦ elim (Bool-cases (has_block t.blocks b.id)) [
      | inl f ↦ let bad = rw (e, f, apply_trial_change) at h in cc
      | inr f ↦
          let fine = good.blocks_ok in
          subst IsTrial (ok-injective (rw (e, f, apply_trial_change) at h)) (record {
            titled = good.titled;
            separate = distinct-append t.blocks b good.separate (has-ids t.blocks b.id ∙ f);
            blocks_ok = all-append is_block t.blocks (b ∷ []) ∙ (rw (fine, e) refl);
          })
    ]
  ]
  apply_trial_change-IsTrial (block_replace k b) t t' good h =
      elim (Bool-cases (is_id k && is_block b)) [
        | inr e ↦ let bad = rw (e, apply_trial_change) at h in cc
        | inl e ↦ elim (Bool-cases (text_eq b.id k)) [
          | inr f ↦ let bad = rw (e, f, apply_trial_change) at h in cc
          | inl f ↦ elim (Bool-cases (has_block t.blocks k)) [
            | inr g ↦ let bad = rw (e, f, g, apply_trial_change) at h in cc
            | inl g ↦
                let valid : is_block b ≡ true = ground arith in
                subst IsTrial (ok-injective (rw (e, f, g, apply_trial_change) at h)) (record {
                  titled = good.titled;
                  separate =
                      ap distinct (ids-update_first t.blocks b k ((text_eq_iff b.id k).0 f))
                      ∙ good.separate;
                  blocks_ok = all-update_first t.blocks b k valid good.blocks_ok;
                })
          ]
        ]
      ]
  apply_trial_change-IsTrial (block_remove k) t t' good h = elim (Bool-cases (is_id k)) [
    | inr e ↦ let bad = rw (e, apply_trial_change) at h in cc
    | inl e ↦ elim (Bool-cases (has_block t.blocks k)) [
      | inr f ↦ let bad = rw (e, f, apply_trial_change) at h in cc
      | inl f ↦
          elim (Bool-cases
            (analyze_draft_block_references locale_compare quest_id entry t.blocks
              k).safe_to_delete) [
                | inr g ↦ let bad = rw (e, f, g, apply_trial_change) at h in cc
                | inl g ↦
                    subst IsTrial (ok-injective (rw (e, f, g, apply_trial_change) at h)) (record {
                      titled = good.titled;
                      separate = distinct-remove_block t.blocks k good.separate;
                      blocks_ok = all-remove_block t.blocks k good.blocks_ok;
                    })
              ]
    ]
  ]

-- Whatever changes are tried on a draft with a valid title and valid blocks of distinct ids, what is
-- left is such a draft.
pub try_changes-IsTrial :
    (locale_compare : Text → Text → ℤ) (quest_id entry : Text) (index : ℕ) (cs : List DraftChange)
    (t : Trial)
    → IsTrial t
    → IsTrial (try_changes locale_compare quest_id entry index cs t).0
unfolding try_changes
try_changes-IsTrial locale_compare quest_id entry index [] t good = good
try_changes-IsTrial locale_compare quest_id entry index (c ∷ cs) t good =
    elim (Result-cases (apply_trial_change locale_compare quest_id entry c t)) [
      | inl (t', e) ↦
          rw (e, try_changes)
            (try_changes-IsTrial locale_compare quest_id entry (suc index) cs t'
              (apply_trial_change-IsTrial locale_compare quest_id entry c t t' good e))
      | inr (x, e) ↦
          rw (e, try_changes)
            (try_changes-IsTrial locale_compare quest_id entry (suc index) cs t good)
    ]
