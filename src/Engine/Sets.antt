-- ===== src/Engine/Sets.antt =====
-- Laws of the set of unresolved incidents.
use safe2go.Base.{ℕ, suc, ◌+◌, ◌<◌, ◌≡◌, refl, true, false, List, [], ◌∷◌, arith, All, length}
use safe2go.Engine.State.{has, discard}

abbrev pub Distinct : List ℕ → Type 0
Distinct [] = Unit
Distinct (x ∷ xs) = (has x xs ≡ false) × Distinct xs

abbrev pub AllBelow : ℕ → List ℕ → Type 0
AllBelow n xs = All (λ x. x < n) xs

pub has_fresh : (n : ℕ) (xs : List ℕ) → AllBelow n xs → has n xs ≡ false
unfolding has
has_fresh n [] h = refl
has_fresh n (x ∷ xs) h = ground (arith, has_fresh n xs h.1)

pub AllBelow-suc : (n : ℕ) (xs : List ℕ) → AllBelow n xs → AllBelow (suc n) xs
AllBelow-suc n [] h = tt
AllBelow-suc n (x ∷ xs) h = (omega arith, AllBelow-suc n xs h.1)

discard_absent : (x : ℕ) (xs : List ℕ) → has x xs ≡ false → discard x xs ≡ xs
unfolding has discard
discard_absent x [] h = refl
discard_absent x (y ∷ ys) h = ground (arith, discard_absent x ys)

pub length-discard :
    (x : ℕ) (xs : List ℕ) → Distinct xs → has x xs ≡ true → length (discard x xs) + 1 ≡ length xs
unfolding has discard
length-discard x [] d h = ground arith
length-discard x (y ∷ ys) d h = ground (arith, length-discard x ys d.1, discard_absent x ys)

has-discard : (x y : ℕ) (xs : List ℕ) → has y xs ≡ false → has y (discard x xs) ≡ false
unfolding has discard
has-discard x y [] h = refl
has-discard x y (z ∷ zs) h = ground (arith, has-discard x y zs)

pub Distinct-discard : (x : ℕ) (xs : List ℕ) → Distinct xs → Distinct (discard x xs)
unfolding discard
Distinct-discard x [] d = tt
Distinct-discard x (y ∷ ys) d = ground (arith, Distinct-discard x ys d.1, has-discard x y ys d.0)

pub AllBelow-discard : (x n : ℕ) (xs : List ℕ) → AllBelow n xs → AllBelow n (discard x xs)
unfolding discard
AllBelow-discard x n [] h = tt
AllBelow-discard x n (y ∷ ys) h = ground (arith, AllBelow-discard x n ys h.1)
