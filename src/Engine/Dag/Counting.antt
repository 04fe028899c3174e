-- ===== src/Engine/Dag/Counting.antt =====
-- Counting texts in lists: what the proof of the topological sort needs.
use tailflow_agent.Prelude.{
  suc, ◌+◌, ◌≤◌, ◌<◌, String, ◌≡◌, refl, List, [], ◌∷◌, arith, length, contains, count, IsNodup,
  if◌then◌else◌, ◌==◌, eq_iff,
}

-- The list without the first occurrence of the text.
unfoldable pub remove : String → List String → List String
remove k [] = []
remove k (x ∷ xs) = let rest = remove k xs in if x == k then xs else x ∷ rest

pub count-remove :
    (k j : String) (xs : List String)
    → 0 < count k xs
    → count j (remove k xs) + (if k == j then 1 else 0) ≡ count j xs
unfolding remove
count-remove k j [] h = absurd (omega arith)
count-remove k j (x ∷ xs) h =
    ground (arith, eq_iff x k, eq_iff x j, eq_iff k j, count-remove k j xs)

pub length-remove :
    (k : String) (xs : List String) → 0 < count k xs → suc (length (remove k xs)) ≡ length xs
unfolding remove
length-remove k [] h = absurd (omega arith)
length-remove k (x ∷ xs) h = ground (arith, length-remove k xs)

abbrev pub CountLe : List String → List String → Type 0
CountLe xs ys = (k : String) → count k xs ≤ count k ys

pub count_head : (x : String) (xs : List String) → count x (x ∷ xs) ≡ suc (count x xs)
count_head x xs = ground (arith, eq_iff x x)

CountLe-remove : (x : String) (xs ys : List String) → CountLe (x ∷ xs) ys → CountLe xs (remove x ys)
CountLe-remove x xs ys h k =
    omega (arith, count-remove x k ys (omega (arith, h x, count_head x xs)), h k)

-- A list that counts no text more often than another is no longer.
pub length_le_of_CountLe : (xs ys : List String) → CountLe xs ys → length xs ≤ length ys
length_le_of_CountLe [] ys h = omega arith
length_le_of_CountLe (x ∷ xs) ys h = omega (
  arith,
  length-remove x ys (omega (arith, h x, count_head x xs)),
  length_le_of_CountLe xs (remove x ys) (CountLe-remove x xs ys h),
)

-- With the same length it counts each text as often.
pub count_eq_of_length :
    (xs ys : List String)
    → CountLe xs ys
    → length xs ≡ length ys
    → (k : String) → count k xs ≡ count k ys
count_eq_of_length [] [] h e k = refl
count_eq_of_length [] (y ∷ ys) h e k = absurd (omega arith)
count_eq_of_length (x ∷ xs) ys h e k =
    let here : 0 < count x ys = omega (arith, h x, count_head x xs) in
    omega (
      arith,
      count-remove x k ys here,
      count_eq_of_length xs (remove x ys) (CountLe-remove x xs ys h)
          (omega (arith, length-remove x ys here)) k,
    )

-- In a list without repetition a text stands once or not at all.
pub count_of_IsNodup :
    (xs : List String) → IsNodup xs → (k : String) → count k xs ≡ (if contains k xs then 1 else 0)
count_of_IsNodup [] h k = refl
count_of_IsNodup (x ∷ xs) h k = ground (arith, count_of_IsNodup xs h.1 k, eq_iff x k)
