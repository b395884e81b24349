-- ===== src/Util/Functional/Sorted.antt =====
-- Sets kept as sorted lists: membership and order under the operations of functional.py.
use su_pa.Base.{
  ℕ, zero, suc, ◌+◌, ◌≤◌, ◌<◌, ◌≡◌, refl, Bool, false, ◌&&◌, ◌||◌, List, [], ◌∷◌, ◌++◌, arith, ltb,
  leb, ◌==◌,
}
use su_pa.Util.Functional.{count_up, add, update}

-- `k in xs`.
unfoldable pub mem : ℕ → List ℕ → Bool
mem k [] = false
mem k (x ∷ xs) = k == x || mem k xs

-- Strictly increasing, with every element at least `lo`.
abbrev pub From : ℕ → List ℕ → Type 0
From lo [] = Unit
From lo (x ∷ xs) = (lo ≤ x) × From (suc x) xs

abbrev pub IsSorted : List ℕ → Type 0
IsSorted xs = From 0 xs

pub From-mono : (lo hi : ℕ) (xs : List ℕ) → lo ≤ hi → From hi xs → From lo xs
From-mono lo hi [] h s = tt
From-mono lo hi (x ∷ xs) h s = (omega arith, s.1)

pub mem-append : (k : ℕ) (xs ys : List ℕ) → mem k (xs ++ ys) ≡ (mem k xs || mem k ys)
unfolding mem
mem-append k [] ys = refl
mem-append k (x ∷ xs) ys = ground (arith, mem-append k xs ys)

pub mem-count_up : (k a n : ℕ) → mem k (count_up a n) ≡ (leb a k && ltb k (a + n))
unfolding mem
mem-count_up k a zero = ground arith
mem-count_up k a (suc n) = ground (arith, mem-count_up k (suc a) n)

pub mem-add : (k v : ℕ) (s : List ℕ) → mem k (add v s) ≡ (k == v || mem k s)
unfolding mem add
mem-add k v [] = refl
mem-add k v (x ∷ s) = ground (arith, mem-add k v s)

pub mem-update : (k : ℕ) (vs s : List ℕ) → mem k (update vs s) ≡ (mem k vs || mem k s)
unfolding mem update
mem-update k [] s = refl
mem-update k (v ∷ vs) s = ground (arith, mem-update k vs (add v s), mem-add k v s)

pub add-From : (lo v : ℕ) (s : List ℕ) → lo ≤ v → From lo s → From lo (add v s)
unfolding add
add-From lo v [] h f = (h, tt)
add-From lo v (x ∷ s) h f = ground (arith, add-From (suc x) v s)

pub update-IsSorted : (vs s : List ℕ) → IsSorted s → IsSorted (update vs s)
unfolding update
update-IsSorted [] s f = f
update-IsSorted (v ∷ vs) s f = update-IsSorted vs (add v s) (add-From 0 v s (omega arith) f)

pub mem_below : (k lo : ℕ) (xs : List ℕ) → k < lo → From lo xs → mem k xs ≡ false
unfolding mem
mem_below k lo [] h f = refl
mem_below k lo (x ∷ xs) h f = ground (arith, mem_below k (suc x) xs)

-- A set is determined by its elements: two sorted lists with the same ones are equal.
pub sorted_unique :
    (lo : ℕ) (xs ys : List ℕ) → From lo xs → From lo ys → ((k : ℕ) → mem k xs ≡ mem k ys) → xs ≡ ys
unfolding mem
sorted_unique lo [] [] f g h = refl
sorted_unique lo [] (y ∷ ys) f g h = ground (arith, h y)
sorted_unique lo (x ∷ xs) [] f g h = ground (arith, h x)
sorted_unique lo (x ∷ xs) (y ∷ ys) f g h =
    let heads : x ≡ y = ground (arith, h x, h y, mem_below x (suc y) ys, mem_below y (suc x) xs) in
    let tails : xs ≡ ys =
      sorted_unique (suc x) xs ys f.1 (ground arith)
        λ k. ground (arith, h k, mem_below k (suc x) xs, mem_below k (suc y) ys) in
    cc
