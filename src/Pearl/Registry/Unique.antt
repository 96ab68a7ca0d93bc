-- ===== src/Pearl/Registry/Unique.antt =====
-- squids/pearl-transactions/src/logic.ts, `pushUnique` and `mergeUnique`: lists without repetition.
use autonolas_subgraph.Prelude.{
  ℕ, ◌≡◌, refl, ◌||◌, ◌&&◌, not, Bool, true, false, List, [], ◌∷◌, ◌++◌, ◌==◌, arith,
}
use autonolas_subgraph.Pearl.Registry.{includes, push_unique, merge_unique}

-- No value stands twice in the list.
unfoldable pub is_unique : List ℕ → Bool
is_unique [] = true
is_unique (x ∷ l) = not (includes l x) && is_unique l

includes-append : (l : List ℕ) (v w : ℕ) → includes (l ++ v ∷ []) w ≡ (includes l w || v == w)
unfolding includes
includes-append [] v w = ground arith
includes-append (x ∷ l) v w = ground (arith, includes-append l v w)

is_unique-append :
    (l : List ℕ) (v : ℕ)
    → includes l v ≡ false
    → is_unique l ≡ true
    → is_unique (l ++ v ∷ []) ≡ true
unfolding includes is_unique
is_unique-append [] v new h = refl
is_unique-append (x ∷ l) v new h = ground (arith, includes-append l v x, is_unique-append l v)

includes-push_unique :
    (l : List ℕ) (v w : ℕ) → includes (push_unique l v) w ≡ (includes l w || v == w)
unfolding push_unique
includes-push_unique l v w = ground (arith, includes-append l v w)

is_unique-push_unique :
    (l : List ℕ) (v : ℕ) → is_unique l ≡ true → is_unique (push_unique l v) ≡ true
unfolding push_unique
is_unique-push_unique l v h = ground (arith, is_unique-append l v)

-- Merging into a list without repetition leaves none, and the result holds a value exactly if one
-- of the two lists does.
pub merge_unique-is_unique :
    (l extra : List ℕ) (w : ℕ)
    → is_unique l ≡ true
    → (is_unique (merge_unique l extra) ≡ true)
      × (includes (merge_unique l extra) w ≡ (includes l w || includes extra w))
unfolding merge_unique includes
merge_unique-is_unique l [] w h = (h, ground arith)
merge_unique-is_unique l (v ∷ extra) w h =
    let (unique, members) =
      merge_unique-is_unique (push_unique l v) extra w (is_unique-push_unique l v h) in
    (unique, ground (arith, members, includes-push_unique l v w))
