-- ===== src/Keyed.antt =====
-- The standard `Map` (insertion order, a set of a key that is there keeps its place) and the stable
-- `Array.prototype.sort` by a numeric field, as price-chart.tsx uses them.
pub mod Put
pub mod Sort
pub mod Count
pub mod Unique
use stock_anomoly_detection.Prelude.{
  ℕ, ◌≡◌, refl, Bool, true, false, List, [], ◌∷◌, ◌++◌, map, leb, ltb, ◌==◌, if◌then◌else◌,
}

-- `m.set(k, v)`, with the test of keys that the program's key type has
unfoldable pub map_set : {K V : Type 0} → (K → K → Bool) → K → V → List (K × V) → List (K × V)
map_set eq k v [] = (k, v) ∷ []
map_set eq k v ((j, w) ∷ m) = if eq j k then (k, v) ∷ m else (j, w) ∷ map_set eq k v m

-- a loop of `m.set(key(x), value(x))` over an array
unfoldable pub map_set_all :
    {A K V : Type 0} → (K → K → Bool) → (A → K) → (A → V) → List (K × V) → List A → List (K × V)
unfolding map_set
map_set_all eq key value m [] = m
map_set_all eq key value m (x ∷ xs) = map_set_all eq key value (map_set eq (key x) (value x) m) xs

-- `Array.from(m.values())`
abbrev pub values : {K V : Type 0} → List (K × V) → List V
values m = map (λ e. e.1) m

module _ {A : Type 0} (rank : A → ℕ) where
  -- `x` put before the first element that is not below it
  unfoldable pub insert_sorted : A → List A → List A
  insert_sorted x [] = x ∷ []
  insert_sorted x (y ∷ ys) = if leb (rank x) (rank y) then x ∷ y ∷ ys else y ∷ insert_sorted x ys

  -- `xs.sort((a, b) => rank(a) - rank(b))`: ascending, equal elements in their old order
  unfoldable pub sort_by : List A → List A
  unfolding insert_sorted
  sort_by [] = []
  sort_by (x ∷ xs) = insert_sorted x (sort_by xs)

map_set_example : map_set {V = ℕ} ◌==◌ 1 9 ((1, 5) ∷ (2, 6) ∷ []) ≡ (1, 9) ∷ (2, 6) ∷ []
unfolding map_set
map_set_example = refl
