-- ===== src/Base/Sort.antt =====
-- sort.Slice and sort.Strings: a stable insertion by a strict order. On elements that the order
-- tells apart every sort gives the same list.
use mathlib.Core.List.{Permᴰ, Mem, mem-cons_self, mem-cons_of_mem}
use mathlib.Core.List.Permᴰ
use gpuid.Base.Tests.{
  ◌≡◌, refl, ap₂, ◌∙◌, Bool-cases, sym, Bool, true, false, List, [], ◌∷◌, arith, if◌then◌else◌, ◌⊎◌,
  inl, inr,
}
use gpuid.Base.Strings.{Text, text_ltb, text_ltb_trans, text_ltb_asymm, text_ltb_total}

-- A strict order, as the `less` of a sort has to be.
pub record IsOrder {ℓ} {A : Type ℓ} (less : A → A → Bool) : Type ℓ where
  pub trans : (x y z : A) → less x y ≡ true → less y z ≡ true → less x z ≡ true
  pub asymm : (x y : A) → less x y ≡ true → less y x ≡ false

module _ {ℓ} {A : Type ℓ} (less : A → A → Bool) where
  unfoldable pub insert : A → List A → List A
  insert x [] = x ∷ []
  insert x (y ∷ ys) = if less y x then y ∷ insert x ys else x ∷ y ∷ ys

  unfoldable pub sort : List A → List A
  unfolding insert
  sort [] = []
  sort (x ∷ xs) = insert x (sort xs)

  -- Equal, or told apart by the order.
  abbrev pub AreApart : A → A → Type ℓ
  AreApart x y = (less x y ≡ true) ⊎ ((less y x ≡ true) ⊎ (x ≡ y))

  -- Every two members are equal or told apart.
  abbrev pub TellsApart : List A → Type ℓ
  TellsApart l = (x y : A) → Mem x l → Mem y l → AreApart x y

  module _ (o : IsOrder less) where
    insert_lt :
        (x y : A) (l : List A) → less x y ≡ true → insert x (insert y l) ≡ insert y (insert x l)
    unfolding insert
    insert_lt x y [] h = ground (arith, o.asymm x y)
    insert_lt x y (z ∷ zs) h = ground (arith, o.asymm x y, o.trans z x y, insert_lt x y zs h)

    insert_comm :
        (x y : A) (l : List A) → AreApart x y → insert x (insert y l) ≡ insert y (insert x l)
    insert_comm x y l (inl h) = insert_lt x y l h
    insert_comm x y l (inr (inl h)) = sym (insert_lt y x l h)
    insert_comm x y l (inr (inr e)) = rw e

    -- The order in which the elements come does not matter.
    pub sort-permᴰ : {l r : List A} → Permᴰ l r → TellsApart l → sort l ≡ sort r
    unfolding sort
    sort-permᴰ Permᴰ.nil h = refl
    sort-permᴰ (Permᴰ.cons e p) h =
        ap₂ insert e
          (sort-permᴰ p (λ x y mx my. h x y (mem-cons_of_mem _ mx) (mem-cons_of_mem _ my)))
    sort-permᴰ (Permᴰ.swap {a = a} {b = b} {l = l} e f) h =
        insert_comm a b (sort l) (h a b mem-cons_self (mem-cons_of_mem _ mem-cons_self))
        ∙ (λ i. insert (f i) (insert (e i) (sort l)))
    sort-permᴰ (Permᴰ.trans p q) h =
        sort-permᴰ p h
        ∙ sort-permᴰ q
            (λ x y mx my. h x y (Permᴰ.mem (Permᴰ.symm p) mx) (Permᴰ.mem (Permᴰ.symm p) my))

  insert-permᴰ : (x : A) (l : List A) → Permᴰ (insert x l) (x ∷ l)
  unfolding insert
  insert-permᴰ x [] = Permᴰ.refl _
  insert-permᴰ x (y ∷ ys) = elim (Bool-cases (less y x)) [
    | inl e ↦
        rw (e, insert) (Permᴰ.trans (Permᴰ.cons refl (insert-permᴰ x ys)) (Permᴰ.swap refl refl))
    | inr e ↦ rw (e, insert) (Permᴰ.refl _)
  ]

  -- A sort loses and invents nothing.
  pub sort_permᴰ : (l : List A) → Permᴰ (sort l) l
  unfolding sort
  sort_permᴰ [] = Permᴰ.nil
  sort_permᴰ (x ∷ xs) = Permᴰ.trans (insert-permᴰ x (sort xs)) (Permᴰ.cons refl (sort_permᴰ xs))

text-IsOrder : IsOrder text_ltb
text-IsOrder = record { trans = text_ltb_trans; asymm = text_ltb_asymm }

-- sort.Strings
abbrev pub sort_strings : List Text → List Text
sort_strings = sort text_ltb

pub sort_strings-permᴰ : {l r : List Text} → Permᴰ l r → sort_strings l ≡ sort_strings r
sort_strings-permᴰ p = sort-permᴰ text_ltb text-IsOrder p (λ x y _ _. text_ltb_total x y)
