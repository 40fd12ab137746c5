-- ===== src/Manager/Pool.antt =====
-- `BTreeMap<pid_t, _>` as src/manager.rs uses it: an association list in ascending order of pids.
pub mod Laws
use polychrome_php.Prelude.{
  ℕ, Bool, List, [], ◌∷◌, map, Option, none, some, ltb, ◌==◌, if◌then◌else◌,
}

abbrev pub Pool : Type 0 → Type 0
Pool V = List (ℕ × V)

module _ {V : Type 0} where
  unfoldable pub insert : ℕ → V → Pool V → Pool V
  insert k v [] = (k, v) ∷ []
  insert k v ((j, w) ∷ m) =
      if ltb k j then (k, v) ∷ (j, w) ∷ m else if k == j then (k, v) ∷ m else (j, w) ∷ insert k v m

  unfoldable pub lookup : ℕ → Pool V → Option V
  lookup k [] = none
  lookup k ((j, w) ∷ m) = if j == k then some w else lookup k m

  unfoldable pub remove : ℕ → Pool V → Pool V
  remove k [] = []
  remove k ((j, w) ∷ m) = if j == k then m else (j, w) ∷ remove k m

  abbrev pub keys : Pool V → List ℕ
  keys = map λ e. e.0

  abbrev pub elements : Pool V → List V
  elements = map λ e. e.1

-- `for (pid, worker) in &mut workers`, where the body changes the worker alone.
abbrev pub map_values : {V W : Type 0} → (ℕ → V → W) → Pool V → Pool W
map_values f [] = []
map_values f ((k, v) ∷ m) = (k, f k v) ∷ map_values f m
