-- ===== src/Prelude/Sorting.antt =====
-- What the sort guarantees: the same elements, in order, and the same result from any order of the
-- input when no two elements tie.
use mathlib.Core.Path.{◌≡◌, refl, sym, ap, ap₂, ◌∙◌, subst}
use mathlib.Core.Logic.{inl, inr}
use mathlib.Core.Bool.{Bool, true, false, not}
use mathlib.Core.List.{List, [], ◌∷◌, ◌++◌, Permᴰ}
use mathlib.Core.List.Permᴰ
use sandboxengine.Prelude.Tests.{Bool-cases}
use sandboxengine.Prelude.Lists.{All, keep}
use sandboxengine.Prelude.Sort.{insert_by, sort_by}

-- Each pair of elements, the earlier one first, is related.
module _ {A : Type 0} (R : A → A → Type 0) where
  abbrev pub Pairs : List A → Type 0
  Pairs [] = Unit
  Pairs (x ∷ xs) = All (R x) xs × Pairs xs

module _ {A : Type 0} where
  pub All-perm : (P : A → Type 0) {xs ys : List A} → Permᴰ xs ys → All P xs → All P ys
  All-perm P Permᴰ.nil h = tt
  All-perm P (Permᴰ.cons e d) h = (subst P e h.0, All-perm P d h.1)
  All-perm P (Permᴰ.swap e f) h = (subst P f h.1.0, (subst P e h.0, h.1.1))
  All-perm P (Permᴰ.trans c d) h = All-perm P d (All-perm P c h)

  pub All-map : (P Q : A → Type 0) → ((x : A) → P x → Q x) → (xs : List A) → All P xs → All Q xs
  All-map P Q f [] h = tt
  All-map P Q f (x ∷ xs) h = (f x h.0, All-map P Q f xs h.1)

  pub All-keep : (P : A → Type 0) (p : A → Bool) (xs : List A) → All P xs → All P (keep p xs)
  All-keep P p [] h = tt
  All-keep P p (x ∷ xs) h = elim (Bool-cases (p x)) [
    | inl e ↦ rw e (h.0, All-keep P p xs h.1)
    | inr e ↦ rw e (All-keep P p xs h.1)
  ]

  pub keep-holds : (p : A → Bool) (xs : List A) → All (λ x. p x ≡ true) (keep p xs)
  keep-holds p [] = tt
  keep-holds p (x ∷ xs) = elim (Bool-cases (p x)) [
    | inl e ↦ rw e (e, keep-holds p xs)
    | inr e ↦ rw e (keep-holds p xs)
  ]

  pub Pairs-keep :
      (R : A → A → Type 0) (p : A → Bool) (xs : List A) → Pairs R xs → Pairs R (keep p xs)
  Pairs-keep R p [] h = tt
  Pairs-keep R p (x ∷ xs) h = elim (Bool-cases (p x)) [
    | inl e ↦ rw e (All-keep (R x) p xs h.0, Pairs-keep R p xs h.1)
    | inr e ↦ rw e (Pairs-keep R p xs h.1)
  ]

  -- Two complementary selections make up the list.
  pub keep-perm :
      (p q : A → Bool)
      → ((x : A) → q x ≡ not (p x))
      → (xs : List A) → Permᴰ (keep p xs ++ keep q xs) xs
  keep-perm p q n [] = Permᴰ.nil
  keep-perm p q n (x ∷ xs) = elim (Bool-cases (p x)) [
    | inl e ↦ let f : q x ≡ false = rw (n x, e) in rw (e, f) (Permᴰ.cons refl (keep-perm p q n xs))
    | inr e ↦
        let f : q x ≡ true = rw (n x, e) in
        rw (e, f)
          (Permᴰ.trans (Permᴰ.middle x (keep p xs) (keep q xs))
            (Permᴰ.cons refl (keep-perm p q n xs)))
  ]

  pub Pairs-perm :
      (R : A → A → Type 0)
      → ((x y : A) → R x y → R y x)
      → {xs ys : List A} → Permᴰ xs ys
      → Pairs R xs
      → Pairs R ys
  Pairs-perm R s Permᴰ.nil h = tt
  Pairs-perm R s (Permᴰ.cons {l₂ = l₂} e d) h =
      (subst (λ z. All (R z) l₂) e (All-perm (R _) d h.0), Pairs-perm R s d h.1)
  Pairs-perm R s (Permᴰ.swap {a} {b} {a'} {b'} {l} e f) h = (
    (subst (λ z. R a' z) e (subst (λ z. R z a) f (s a b h.0.0)), subst (λ z. All (R z) l) f h.1.0),
    (subst (λ z. All (R z) l) e h.0.1, h.1.1),
  )
  Pairs-perm R s (Permᴰ.trans c d) h = Pairs-perm R s d (Pairs-perm R s c h)

module _ {A : Type 0} (le : A → A → Bool) where
  pub All-insert_by :
      (P : A → Type 0) (x : A) (xs : List A) → P x → All P xs → All P (insert_by le x xs)
  All-insert_by P x [] p h = (p, tt)
  All-insert_by P x (y ∷ ys) p h = elim (Bool-cases (le x y)) [
    | inl e ↦ rw e (p, h)
    | inr e ↦ rw e (h.0, All-insert_by P x ys p h.1)
  ]

  pub insert_by-perm : (x : A) (xs : List A) → Permᴰ (insert_by le x xs) (x ∷ xs)
  insert_by-perm x [] = Permᴰ.refl (x ∷ [])
  insert_by-perm x (y ∷ ys) = elim (Bool-cases (le x y)) [
    | inl e ↦ rw e (Permᴰ.refl (x ∷ y ∷ ys))
    | inr e ↦ rw e (Permᴰ.trans (Permᴰ.cons refl (insert_by-perm x ys)) (Permᴰ.swap refl refl))
  ]

  pub sort_by-perm : (xs : List A) → Permᴰ (sort_by le xs) xs
  sort_by-perm [] = Permᴰ.nil
  sort_by-perm (x ∷ xs) =
      Permᴰ.trans (insert_by-perm x (sort_by le xs)) (Permᴰ.cons refl (sort_by-perm xs))

  pub All-sort_by : (P : A → Type 0) (xs : List A) → All P xs → All P (sort_by le xs)
  All-sort_by P [] h = tt
  All-sort_by P (x ∷ xs) h = All-insert_by P x (sort_by le xs) h.0 (All-sort_by P xs h.1)

  -- Two elements that the order tells apart.
  abbrev pub Strict : A → A → Type 0
  Strict x y = le x y ≡ true → le y x ≡ true → ⊥

  abbrev pub Before : A → A → Type 0
  Before x y = le x y ≡ true

module _ {A : Type 0} (le : A → A → Bool) (total : (x y : A) → le x y ≡ false → le y x ≡ true)
    (trans : (x y z : A) → le x y ≡ true → le y z ≡ true → le x z ≡ true) where
  insert_by-sorted :
      (x : A) (xs : List A) → Pairs (Before le) xs → Pairs (Before le) (insert_by le x xs)
  insert_by-sorted x [] h = (tt, tt)
  insert_by-sorted x (y ∷ ys) h = elim (Bool-cases (le x y)) [
    | inl e ↦ rw e ((e, All-map (Before le y) (Before le x) (λ z k. trans x y z e k) ys h.0), h)
    | inr e ↦
        rw e (All-insert_by le (Before le y) x ys (total x y e) h.0, insert_by-sorted x ys h.1)
  ]

  pub sort_by-sorted : (xs : List A) → Pairs (Before le) (sort_by le xs)
  sort_by-sorted [] = tt
  sort_by-sorted (x ∷ xs) = insert_by-sorted x (sort_by le xs) (sort_by-sorted xs)

  insert_by_comm_lt :
      (x y : A) (xs : List A)
      → le x y ≡ true
      → le y x ≡ false
      → insert_by le x (insert_by le y xs) ≡ insert_by le y (insert_by le x xs)
  insert_by_comm_lt x y [] e f = rw (e, f)
  insert_by_comm_lt x y (z ∷ zs) e f = elim (Bool-cases (le y z)) [
    | inl g ↦ rw (g, e) (rw (trans x y z e g) (rw f (rw g)))
    | inr g ↦ elim (Bool-cases (le x z)) [
      | inl h ↦ rw g (rw h (rw f (rw g)))
      | inr h ↦ rw g (rw h (rw g (ap (◌∷◌ z) (insert_by_comm_lt x y zs e f))))
    ]
  ]

  insert_by_comm :
      (x y : A) (xs : List A)
      → Strict le x y
      → insert_by le x (insert_by le y xs) ≡ insert_by le y (insert_by le x xs)
  insert_by_comm x y xs s = elim (Bool-cases (le x y)) [
    | inr e ↦ sym (insert_by_comm_lt y x xs (total x y e) e)
    | inl e ↦ elim (Bool-cases (le y x)) [
      | inl f ↦ absurd (s e f)
      | inr f ↦ insert_by_comm_lt x y xs e f
    ]
  ]

  -- Where no two elements tie, the sort does not see the order of its input.
  pub sort_by-eq_of_perm :
      {xs ys : List A} → Permᴰ xs ys → Pairs (Strict le) xs → sort_by le xs ≡ sort_by le ys
  sort_by-eq_of_perm Permᴰ.nil h = refl
  sort_by-eq_of_perm (Permᴰ.cons e d) h = ap₂ (insert_by le) e (sort_by-eq_of_perm d h.1)
  sort_by-eq_of_perm (Permᴰ.swap {a} {b} {l} e f) h =
      insert_by_comm a b (sort_by le l) h.0.0
      ∙ ap₂ (λ u v. insert_by le u (insert_by le v (sort_by le l))) f e
  sort_by-eq_of_perm (Permᴰ.trans c d) h =
      sort_by-eq_of_perm c h
      ∙ sort_by-eq_of_perm d (Pairs-perm (Strict le) (λ x y s k l. s l k) c h)
