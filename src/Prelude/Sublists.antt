-- ===== src/Prelude/Sublists.antt =====
-- Lists with some items left out, and the ends of appended and reversed lists.
use mathlib.Core.Path.{◌≡◌, refl, sym, ap, subst, ◌∙◌}
use mathlib.Core.List.{
  List, [], ◌∷◌, ◌++◌, map, Sublistᴰ, reverse, reverse-cons, head-eq_of_cons-eq, tail-eq_of_cons-eq,
}
use native.Mathlib.Omega.{arith}
use sandi.Prelude.Lists.{length, length-append}

module _ {ℓ} {A : Type ℓ} where
  pub Sublist-snoc :
      (xs ys : List A) (a : A) → Sublistᴰ xs ys → Sublistᴰ (xs ++ a ∷ []) (ys ++ a ∷ [])
  Sublist-snoc xs ys a Sublistᴰ.slnil = Sublistᴰ.cons-cons refl Sublistᴰ.slnil
  Sublist-snoc xs ys a (Sublistᴰ.cons {l₂ = ys'} s) = Sublistᴰ.cons (Sublist-snoc xs ys' a s)
  Sublist-snoc xs ys a (Sublistᴰ.cons-cons {l₁ = xs'} {l₂ = ys'} e s) =
      Sublistᴰ.cons-cons e (Sublist-snoc xs' ys' a s)

  -- One item more is left out.
  pub Sublist-drop :
      (front : List A) (a : A) (back xs ys : List A)
      → Sublistᴰ xs ys
      → xs ≡ front ++ a ∷ back
      → Sublistᴰ (front ++ back) ys
  Sublist-drop [] a back xs ys Sublistᴰ.slnil e = cc
  Sublist-drop (x ∷ front) a back xs ys Sublistᴰ.slnil e = cc
  Sublist-drop front a back xs ys (Sublistᴰ.cons {l₁ = xs'} {l₂ = ys'} s) e =
      Sublistᴰ.cons (Sublist-drop front a back xs' ys' s e)
  Sublist-drop [] a back xs ys (Sublistᴰ.cons-cons {l₂ = ys'} same s) e =
      Sublistᴰ.cons (subst (λ zs. Sublistᴰ zs ys') (tail-eq_of_cons-eq e) s)
  Sublist-drop (x ∷ front) a back xs ys (Sublistᴰ.cons-cons {l₁ = xs'} {l₂ = ys'} same s) e =
      Sublistᴰ.cons-cons (sym (head-eq_of_cons-eq e) ∙ same)
        (Sublist-drop front a back xs' ys' s (tail-eq_of_cons-eq e))

  pub append-nil : (xs : List A) → xs ++ [] ≡ xs
  append-nil [] = refl
  append-nil (x ∷ xs) = ap (◌∷◌ x) (append-nil xs)

  pub length-reverse : (xs : List A) → length (reverse xs) ≡ length xs
  length-reverse [] = refl
  length-reverse (x ∷ xs) =
      ap length (reverse-cons x xs)
      ∙ length-append (reverse xs) (x ∷ [])
      ∙ omega (arith, length-reverse xs)

module _ {ℓ κ} {A : Type ℓ} {B : Type κ} where
  pub map-snoc : (f : A → B) (xs : List A) (x : A) → map f (xs ++ x ∷ []) ≡ map f xs ++ f x ∷ []
  map-snoc f [] x = refl
  map-snoc f (y ∷ xs) x = ap (◌∷◌ (f y)) (map-snoc f xs x)
