-- ===== src/Contracts/Effect/Guard.antt =====
-- packages/contracts/src/gameplay-effect.ts: isGameplayEffect against the form of the objects.
use mathlib.Core.Path.{subst}
use mathlib.Core.Option.{some-injective}
use sandboxengine.Prelude.{◌≡◌, refl, some, inl, inr, ◌↔◌, Bool-cases}
use sandboxengine.Prelude.Text.{Text, lit, text_eq}
use sandboxengine.Prelude.Results.{require, bind-eq_some}
use sandboxengine.Contracts.Value.{
  Value, null, bool, num, str, arr, obj, Fields, keys, get, has_only_keys, as_integer, is_text,
  schema_version,
}
use sandboxengine.Contracts.Effect.{
  GameplayEffect, resource_change, item_transfer, entity_move, as_id, as_source_id,
  as_item_position, as_resource_change, as_item_transfer, as_entity_move, as_gameplay_effect_fields,
  as_gameplay_effect,
}
use sandboxengine.Contracts.Effect.Form.{
  change_keys, transfer_keys, move_keys, HasText, IsHeader, IsEffect, all_keys, is_text_iff,
}
use sandboxengine.Contracts.Effect.Parts.{
  as_id_iff, as_source_id_iff, as_integer_iff, require-only, as_item_position_iff,
}

-- An object of the version.
module _ (fs : Fields) (version : HasText fs (lit "schemaVersion") (lit "1.0")) where
  header :
      (s : Text) {type : Text}
      → as_source_id (get (lit "sourceId") fs) ≡ some s
      → HasText fs (lit "type") type
      → IsHeader fs type s
  header s read type =
      let (there, low, high) = (as_source_id_iff (get (lit "sourceId") fs) s).0 read in
      (version, type, there, low, high)

  as_resource_change-IsEffect :
      (e : GameplayEffect)
      → HasText fs (lit "type") (lit "resource.change")
      → as_resource_change fs ≡ some e
      → IsEffect fs e
  as_resource_change-IsEffect e type h =
      let ks = change_keys in
      let (_, only, h1) = bind-eq_some (require (has_only_keys fs ks)) _ h in
      let (s, s_read, h2) = bind-eq_some (as_source_id (get (lit "sourceId") fs)) _ h1 in
      let (r, r_read, h3) = bind-eq_some (as_id (get (lit "resourceId") fs)) _ h2 in
      let (d, d_read, h4) = bind-eq_some (as_integer (get (lit "delta") fs)) _ h3 in
      subst (λ z. IsEffect fs z) (some-injective _ _ h4)
        (
          header s s_read type,
          require-only fs ks only,
          (as_id_iff (get (lit "resourceId") fs) r).0 r_read,
          (as_integer_iff (get (lit "delta") fs) d).0 d_read,
        )

  as_item_transfer-IsEffect :
      (e : GameplayEffect)
      → HasText fs (lit "type") (lit "item.transfer")
      → as_item_transfer fs ≡ some e
      → IsEffect fs e
  as_item_transfer-IsEffect e type h =
      let ks = transfer_keys in
      let (_, only, h1) = bind-eq_some (require (has_only_keys fs ks)) _ h in
      let (s, s_read, h2) = bind-eq_some (as_source_id (get (lit "sourceId") fs)) _ h1 in
      let (i, i_read, h3) = bind-eq_some (as_id (get (lit "itemId") fs)) _ h2 in
      let (p, p_read, h4) = bind-eq_some (as_item_position (get (lit "destination") fs)) _ h3 in
      subst (λ z. IsEffect fs z) (some-injective _ _ h4)
        (
          header s s_read type,
          require-only fs ks only,
          (as_id_iff (get (lit "itemId") fs) i).0 i_read,
          (as_item_position_iff (get (lit "destination") fs) p).0 p_read,
        )

  as_entity_move-IsEffect :
      (e : GameplayEffect)
      → HasText fs (lit "type") (lit "entity.move")
      → as_entity_move fs ≡ some e
      → IsEffect fs e
  as_entity_move-IsEffect e type h =
      let ks = move_keys in
      let (_, only, h1) = bind-eq_some (require (has_only_keys fs ks)) _ h in
      let (s, s_read, h2) = bind-eq_some (as_source_id (get (lit "sourceId") fs)) _ h1 in
      let (i, i_read, h3) = bind-eq_some (as_id (get (lit "entityId") fs)) _ h2 in
      let (l, l_read, h4) = bind-eq_some (as_id (get (lit "locationId") fs)) _ h3 in
      subst (λ z. IsEffect fs z) (some-injective _ _ h4)
        (
          header s s_read type,
          require-only fs ks only,
          (as_id_iff (get (lit "entityId") fs) i).0 i_read,
          (as_id_iff (get (lit "locationId") fs) l).0 l_read,
        )

as_gameplay_effect_fields-IsEffect :
    (fs : Fields) (e : GameplayEffect) → as_gameplay_effect_fields fs ≡ some e → IsEffect fs e
unfolding as_gameplay_effect_fields
as_gameplay_effect_fields-IsEffect fs e h =
    let type = get (lit "type") fs in
    elim (Bool-cases (is_text (get (lit "schemaVersion") fs) schema_version)) [
      | inr f ↦ let bad = rw f at h in cc
      | inl f ↦
          let version = (is_text_iff (get (lit "schemaVersion") fs) schema_version).0 f in
          elim (Bool-cases (is_text type (lit "resource.change"))) [
            | inl g ↦
                as_resource_change-IsEffect fs version e
                  ((is_text_iff type (lit "resource.change")).0 g) (rw (f, g) at h)
            | inr g ↦ elim (Bool-cases (is_text type (lit "item.transfer"))) [
              | inl i ↦
                  as_item_transfer-IsEffect fs version e
                    ((is_text_iff type (lit "item.transfer")).0 i) (rw (f, g, i) at h)
              | inr i ↦ elim (Bool-cases (is_text type (lit "entity.move"))) [
                | inl j ↦
                    as_entity_move-IsEffect fs version e
                      ((is_text_iff type (lit "entity.move")).0 j) (rw (f, g, i, j) at h)
                | inr j ↦ let bad = rw (f, g, i, j) at h in cc
              ]
            ]
          ]
    ]

as_gameplay_effect_fields-some :
    (fs : Fields) (e : GameplayEffect) → IsEffect fs e → as_gameplay_effect_fields fs ≡ some e
unfolding as_gameplay_effect_fields text_eq
as_gameplay_effect_fields-some fs (resource_change s r d)
      ((version, type, there, low, high), only, of, by) =
    let keys_ok = all_keys (keys fs) change_keys only in
    let s_read = (as_source_id_iff (get (lit "sourceId") fs) s).1 (there, low, high) in
    let r_read = (as_id_iff (get (lit "resourceId") fs) r).1 of in
    rw (version, type, keys_ok, s_read, r_read, by) refl
as_gameplay_effect_fields-some fs (item_transfer s i p)
      ((version, type, there, low, high), only, of, to) =
    let keys_ok = all_keys (keys fs) transfer_keys only in
    let s_read = (as_source_id_iff (get (lit "sourceId") fs) s).1 (there, low, high) in
    let i_read = (as_id_iff (get (lit "itemId") fs) i).1 of in
    let p_read = (as_item_position_iff (get (lit "destination") fs) p).1 to in
    rw (version, type, keys_ok, s_read, i_read, p_read) refl
as_gameplay_effect_fields-some fs (entity_move s i l)
      ((version, type, there, low, high), only, of, to) =
    let keys_ok = all_keys (keys fs) move_keys only in
    let s_read = (as_source_id_iff (get (lit "sourceId") fs) s).1 (there, low, high) in
    let i_read = (as_id_iff (get (lit "entityId") fs) i).1 of in
    let l_read = (as_id_iff (get (lit "locationId") fs) l).1 to in
    rw (version, type, keys_ok, s_read, i_read, l_read) refl

as_gameplay_effect-IsEffect :
    (v : Value) (e : GameplayEffect)
    → as_gameplay_effect v ≡ some e
    → (fs : Fields) × (v ≡ obj fs) × IsEffect fs e
unfolding as_gameplay_effect
as_gameplay_effect-IsEffect (obj fs) e h = (fs, refl, as_gameplay_effect_fields-IsEffect fs e h)
as_gameplay_effect-IsEffect null e h = let bad = h in cc
as_gameplay_effect-IsEffect (bool b) e h = let bad = h in cc
as_gameplay_effect-IsEffect (num n) e h = let bad = h in cc
as_gameplay_effect-IsEffect (str s) e h = let bad = h in cc
as_gameplay_effect-IsEffect (arr vs) e h = let bad = h in cc

-- The guard accepts a value as an effect just when the value is an object of the version 1.0 with the
-- type of that effect, with no other keys than the five of its type, with a source of 1 to 200 units and
-- ids of 1 to 200 units that match the pattern of ids, with an integer for a change of a resource, and
-- for a transfer with an object that is a position, which has its kind, one id and no other keys; and
-- these are the parts of the effect.
pub as_gameplay_effect_iff :
    (v : Value) (e : GameplayEffect)
    → (as_gameplay_effect v ≡ some e) ↔ ((fs : Fields) × (v ≡ obj fs) × IsEffect fs e)
unfolding as_gameplay_effect
as_gameplay_effect_iff v e = (
  as_gameplay_effect-IsEffect v e,
  λ (fs, is_obj, form). rw is_obj (as_gameplay_effect_fields-some fs e form),
)
