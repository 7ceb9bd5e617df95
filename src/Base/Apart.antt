-- ===== src/Base/Apart.antt =====
-- Lists of numbers that are all different.
use Prim.Native.Nat.{ℕ}
use mathlib.Core.Path.{sym}
use mathlib.Core.Logic.{◌≢◌}
use mathlib.Core.List.{List, [], ◌∷◌, ◌++◌}
use libixp.Base.Lists.{All}

abbrev pub IsApart : ℕ → List ℕ → Type 0
IsApart r xs = All (λ x. x ≢ r) xs

abbrev pub AllApart : List ℕ → Type 0
AllApart [] = Unit {0}
AllApart (x ∷ xs) = IsApart x xs × AllApart xs

module _ {A : Type 0} where
  pub All-map : {P Q : A → Type 0} (xs : List A) → ((x : A) → P x → Q x) → All P xs → All Q xs
  All-map [] f h = tt
  All-map (x ∷ xs) f (p, h) = (f x p, All-map xs f h)

  pub All-without :
      (P : A → Type 0) (xs : List A) (r : A) (ys : List A) → All P (xs ++ r ∷ ys) → All P (xs ++ ys)
  All-without P [] r ys (p, h) = h
  All-without P (x ∷ xs) r ys (p, h) = (p, All-without P xs r ys h)

  pub All-here : (P : A → Type 0) (xs : List A) (r : A) (ys : List A) → All P (xs ++ r ∷ ys) → P r
  All-here P [] r ys (p, h) = p
  All-here P (x ∷ xs) r ys (p, h) = All-here P xs r ys h

module _ (q r : ℕ) where
  pub IsApart-left : (xs ys : List ℕ) → IsApart q (xs ++ r ∷ ys) → IsApart q xs
  IsApart-left [] ys h = tt
  IsApart-left (x ∷ xs) ys (p, h) = (p, IsApart-left xs ys h)

  pub IsApart-here : (xs ys : List ℕ) → IsApart q (xs ++ r ∷ ys) → r ≢ q
  IsApart-here [] ys (p, h) = p
  IsApart-here (x ∷ xs) ys (p, h) = IsApart-here xs ys h

  pub IsApart-right : (xs ys : List ℕ) → IsApart q (xs ++ r ∷ ys) → IsApart q ys
  IsApart-right [] ys (p, h) = h
  IsApart-right (x ∷ xs) ys (p, h) = IsApart-right xs ys h

  pub IsApart-without : (xs ys : List ℕ) → IsApart q (xs ++ r ∷ ys) → IsApart q (xs ++ ys)
  IsApart-without [] ys (p, h) = h
  IsApart-without (x ∷ xs) ys (p, h) = (p, IsApart-without xs ys h)

pub AllApart-without : (r : ℕ) (xs ys : List ℕ) → AllApart (xs ++ r ∷ ys) → AllApart (xs ++ ys)
AllApart-without r [] ys (h, d) = d
AllApart-without r (x ∷ xs) ys (h, d) = (IsApart-without x r xs ys h, AllApart-without r xs ys d)

pub IsApart-behind : (r : ℕ) (xs ys : List ℕ) → AllApart (xs ++ r ∷ ys) → IsApart r ys
IsApart-behind r [] ys (h, d) = h
IsApart-behind r (x ∷ xs) ys (h, d) = IsApart-behind r xs ys d

pub IsApart-others : (r : ℕ) (xs ys : List ℕ) → AllApart (xs ++ r ∷ ys) → IsApart r (xs ++ ys)
IsApart-others r [] ys (h, d) = h
IsApart-others r (x ∷ xs) ys (h, d) =
    (λ e. IsApart-here x r xs ys h (sym e), IsApart-others r xs ys d)
