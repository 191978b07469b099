-- ===== src/Base/Dict.antt =====
-- A BTreeMap with text keys as the list of its entries, in the order in which the keys came. Code
-- that iterates over a map reads `entries`, which has them in the order of the keys.
use execgo_runtime.Base.Tests.{if◌then◌else◌}
use mathlib.Core.Path.{◌≡◌, refl, ◌∙◌}
use mathlib.Core.Option.{Option, none, some}
use mathlib.Core.List.{List, [], ◌∷◌}
use native.Mathlib.Omega.{arith}
use text.Mathlib.Text.{◌==◌}
use text.Mathlib.TextEquality.{eq_iff}
use Prim.Native.String.{String, compare}
use Prim.Native.Nat.{Ordering}
use execgo_runtime.Base.Lists.{sort_by, insert_by}
use text.Mathlib.TextPositions.{eq_refl}
use mathlib.Core.Bool.{Bool, true, false}

abbrev pub Dict {ℓ} : Type ℓ → Type ℓ
Dict V = List (String × V)

-- The order of texts, by code points.
abbrev pub key_le : String → String → Bool
key_le a b = elim (compare a b) [ Ordering.gt ↦ false | _ ↦ true ]

key_le_refl : (k : String) → key_le k k ≡ true
key_le_refl k = ground (arith, eq_refl k)

module _ {ℓ} {V : Type ℓ} where
  -- `map.iter()`
  abbrev pub entries : Dict V → List (String × V)
  entries = sort_by λ a b. key_le a.0 b.0

  -- `map.get(k)`
  unfoldable pub get : Dict V → String → Option V
  get [] k = none
  get ((j, v) ∷ d) k = if j == k then some v else get d k

  -- `map.insert(k, v)`, and the effect of a write through `map.entry(k)`.
  unfoldable pub put : Dict V → String → V → Dict V
  put [] k v = (k, v) ∷ []
  put ((j, w) ∷ d) k v = if j == k then (j, v) ∷ d else (j, w) ∷ put d k v

  pub get-put :
      (d : Dict V) (k j : String) (v : V) → get (put d k v) j ≡ (if k == j then some v else get d j)
  unfolding get put
  get-put [] k j v = refl
  get-put ((i, w) ∷ d) k j v = ground (arith, eq_iff k j, eq_iff i k, eq_iff i j, get-put d k j v)

  get-insert_by :
      (x : String × V) (d : Dict V) (k : String)
      → get (insert_by (λ a b. key_le a.0 b.0) x d) k ≡ (if x.0 == k then some x.1 else get d k)
  unfolding get
  get-insert_by x [] k = refl
  get-insert_by (i, v) ((j, w) ∷ d) k =
      ground (arith, eq_iff i k, eq_iff j k, eq_iff i j, key_le_refl k, get-insert_by (i, v) d k)

  -- The order of the entries does not matter to a look-up.
  pub get-entries : (d : Dict V) (k : String) → get (entries d) k ≡ get d k
  unfolding get
  get-entries [] k = refl
  get-entries ((j, v) ∷ d) k = get-insert_by (j, v) (entries d) k ∙ ground (arith, get-entries d k)
