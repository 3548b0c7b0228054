-- ===== src/Runtime/Keys.antt =====
-- The key of an operation is made of its session and its idempotency key in one way only.
use sandboxengine.Prelude.{ℕ, ◌≡◌, refl, ap, Bool, true, not, List, [], ◌∷◌, ◌++◌, ◌==◌, all, arith}
use sandboxengine.Prelude.Text.{Text}
use sandboxengine.Contracts.Value.{is_id, is_id_unit, is_bounded_text}
use sandboxengine.Runtime.Storage.{operation_key}

abbrev has_no_zero : Text → Bool
has_no_zero = all (λ c. not (c == 0))

id_units-has_no_zero : (cs : Text) → all is_id_unit cs ≡ true → has_no_zero cs ≡ true
id_units-has_no_zero [] h = refl
id_units-has_no_zero (c ∷ cs) h = ground (arith, id_units-has_no_zero cs)

is_id-has_no_zero : (s : Text) → is_id s ≡ true → has_no_zero s ≡ true
unfolding is_id is_bounded_text
is_id-has_no_zero [] h = refl
is_id-has_no_zero (c ∷ cs) h = ground (arith, id_units-has_no_zero cs)

first : List ℕ → ℕ
first [] = 0
first (c ∷ cs) = c

rest : List ℕ → List ℕ
rest [] = []
rest (c ∷ cs) = cs

key-injective :
    (s t k l : Text) → has_no_zero s ≡ true → has_no_zero t ≡ true → s ++ 0 ∷ k ≡ t ++ 0 ∷ l → s ≡ t
unfolding first rest
key-injective [] [] k l a b e = refl
key-injective [] (c ∷ t) k l a b e = let f = ap first e in ground (arith, f)
key-injective (c ∷ s) [] k l a b e = let f = ap first e in ground (arith, f)
key-injective (c ∷ s) (d ∷ t) k l a b e =
    let same : c ≡ d = ap first e in
    let more : s ≡ t = key-injective s t k l (ground arith) (ground arith) (ap rest e) in cc

pub operation_key-session :
    (s t k l : Text)
    → is_id s ≡ true
    → is_id t ≡ true
    → operation_key s k ≡ operation_key t l
    → s ≡ t
unfolding operation_key
operation_key-session s t k l a b e =
    key-injective s t k l (is_id-has_no_zero s a) (is_id-has_no_zero t b) e
