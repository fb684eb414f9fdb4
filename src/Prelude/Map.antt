-- ===== src/Prelude/Map.antt =====
-- Go maps with text keys: the keys that `range` visits, and the value at each key.
use Prim.Native.String.{String}
use text.Mathlib.Text.{◌==◌}
use text.Mathlib.TextEquality.{eq_iff}
use mathlib.Core.Path.{◌≡◌, refl}
use mathlib.Core.Bool.{Bool, true, false, not, ◌||◌}
use mathlib.Core.List.{List, [], ◌∷◌}
use mathlib.Core.Option.{Option, none, some}
use native.Mathlib.Omega.{arith}
use popcon_sc.Prelude.Tests.{if◌then◌else◌}
use popcon_sc.Prelude.Lists.{keep_if}

pub record GoMap {ℓ} (V : Type ℓ) : Type ℓ where
  pub keys : List String
  pub at : String → Option V

abbrev pub elem : String → List String → Bool
elem k [] = false
elem k (j ∷ rest) = let others = elem k rest in j == k || others

module _ {ℓ} {V : Type ℓ} where
  -- `make(map[string]V)`.
  abbrev pub make : GoMap V
  make = record { keys = []; at = λ k. none }

  -- `m[k] = v`.
  unfoldable pub insert : String → V → GoMap V → GoMap V
  insert k v m = record {
    keys = if elem k m.keys then m.keys else k ∷ m.keys;
    at = λ j. if k == j then some v else m.at j;
  }

  -- `delete(m, k)`.
  unfoldable pub delete : String → GoMap V → GoMap V
  delete k m = record {
    keys = keep_if (λ j. not (k == j)) m.keys;
    at = λ j. if k == j then none else m.at j;
  }

  -- `delete(m, k)` for each key of a list.
  unfoldable pub delete_all : List String → GoMap V → GoMap V
  delete_all [] m = m
  delete_all (k ∷ ks) m = delete_all ks (delete k m)

  pub at-insert :
      (k j : String) (v : V) (m : GoMap V)
      → (insert k v m).at j ≡ (if k == j then some v else m.at j)
  unfolding insert
  at-insert k j v m = refl

  pub at-delete :
      (k j : String) (m : GoMap V) → (delete k m).at j ≡ (if k == j then none else m.at j)
  unfolding delete
  at-delete k j m = refl

  -- One round of deletions reads as one test.
  pub at-delete_all :
      (ks : List String) (j : String) (m : GoMap V)
      → (delete_all ks m).at j ≡ (if elem j ks then none else m.at j)
  unfolding delete_all delete
  at-delete_all [] j m = refl
  at-delete_all (k ∷ ks) j m = ground (arith, at-delete_all ks j (delete k m))

-- A key of a filtered list passed the test and stood in the list.
pub elem-keep_if :
    (p : String → Bool) (k : String) (ks : List String)
    → elem k (keep_if p ks) ≡ true
    → (p k ≡ true) × (elem k ks ≡ true)
elem-keep_if p k [] h = cc
elem-keep_if p k (j ∷ ks) h = ground (arith, elem-keep_if p k ks, eq_iff j k)
