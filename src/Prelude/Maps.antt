-- ===== src/Prelude/Maps.antt =====
-- Python's `dict` with string keys, in insertion order, and `set`. An assignment to a key that is
-- there keeps its place; an `OrderedDict` moves a key to the end by `remove` and `put`.
use Prim.Native.Nat.{suc, ◌≤◌}
use Prim.Native.String.{String}
use mathlib.Core.Path.{◌≡◌, refl}
use mathlib.Core.Bool.{Bool, false, ◌||◌}
use mathlib.Core.Option.{Option, none, some}
use mathlib.Core.List.{List, [], ◌∷◌, ◌++◌}
use native.Mathlib.Omega.{arith}
use text.Mathlib.Text.{◌==◌ as str_eq}
use text.Mathlib.TextEquality.{eq_iff}
use semblend_vllm_connector.Prelude.Tests.{if◌then◌else◌}
use semblend_vllm_connector.Prelude.Lists.{length}

abbrev pub Dict {ℓ} : Type ℓ → Type ℓ
Dict V = List (String × V)

module _ {ℓ} {V : Type ℓ} where
  -- d.get(k)
  unfoldable pub get : String → Dict V → Option V
  get k [] = none
  get k ((j, v) ∷ d) = if str_eq j k then some v else get k d

  -- d[k] = v
  unfoldable pub put : String → V → Dict V → Dict V
  put k v [] = (k, v) ∷ []
  put k v ((j, w) ∷ d) = if str_eq j k then (j, v) ∷ d else (j, w) ∷ put k v d

  -- d.pop(k, None)
  unfoldable pub remove : String → Dict V → Dict V
  remove k [] = []
  remove k ((j, w) ∷ d) = let rest = remove k d in if str_eq j k then rest else (j, w) ∷ rest

  pub get-put :
      (k j : String) (v : V) (d : Dict V)
      → get j (put k v d) ≡ (if str_eq k j then some v else get j d)
  unfolding get put
  get-put k j v [] = refl
  get-put k j v ((i, w) ∷ d) = ground (arith, eq_iff k j, eq_iff i k, eq_iff i j, get-put k j v d)

  pub get-remove :
      (k j : String) (d : Dict V) → get j (remove k d) ≡ (if str_eq k j then none else get j d)
  unfolding get remove
  get-remove k j [] = ground arith
  get-remove k j ((i, w) ∷ d) = ground (arith, eq_iff k j, eq_iff i k, eq_iff i j, get-remove k j d)

  pub length-put : (k : String) (v : V) (d : Dict V) → length (put k v d) ≤ suc (length d)
  unfolding put
  length-put k v [] = omega arith
  length-put k v ((i, w) ∷ d) = ground (arith, length-put k v d)

  pub length-remove : (k : String) (d : Dict V) → length (remove k d) ≤ length d
  unfolding remove
  length-remove k [] = omega arith
  length-remove k ((i, w) ∷ d) = ground (arith, length-remove k d)

  pub get-put_self : (k : String) (v : V) (d : Dict V) → get k (put k v d) ≡ some v
  get-put_self k v d = ground (arith, get-put k k v d, eq_iff k k)

  pub get-remove_self : (k : String) (d : Dict V) → get k (remove k d) ≡ none
  get-remove_self k d = ground (arith, get-remove k k d, eq_iff k k)

  -- What stands under the other keys.
  pub remove-put : (k : String) (v : V) (d : Dict V) → remove k (put k v d) ≡ remove k d
  unfolding remove put
  remove-put k v [] = ground (arith, eq_iff k k)
  remove-put k v ((i, w) ∷ d) = ground (arith, eq_iff i k, remove-put k v d)

  pub remove-remove : (k : String) (d : Dict V) → remove k (remove k d) ≡ remove k d
  unfolding remove
  remove-remove k [] = refl
  remove-remove k ((i, w) ∷ d) = ground (arith, remove-remove k d)

  pub length-put_of_get :
      (k : String) (v x : V) (d : Dict V) → get k d ≡ some v → length (put k x d) ≡ length d
  unfolding get put
  length-put_of_get k v x [] h = cc
  length-put_of_get k v x ((i, w) ∷ d) h = ground (arith, h, length-put_of_get k v x d)

  pub length-remove_of_get :
      (k : String) (v : V) (d : Dict V) → get k d ≡ some v → suc (length (remove k d)) ≤ length d
  unfolding get remove
  length-remove_of_get k v [] h = cc
  length-remove_of_get k v ((i, w) ∷ d) h =
      ground (arith, h, length-remove_of_get k v d, length-remove k d)

  -- A new key at the end.
  pub get-append_new :
      (k : String) (v : V) (d : Dict V) → get k d ≡ none → get k (d ++ (k, v) ∷ []) ≡ some v
  unfolding get
  get-append_new k v [] h = ground (arith, eq_iff k k)
  get-append_new k v ((i, w) ∷ d) h = ground (arith, h, get-append_new k v d)

unfoldable pub contains : String → List String → Bool
contains k [] = false
contains k (j ∷ rest) = str_eq j k || contains k rest

unfoldable pub add : String → List String → List String
unfolding contains
add k set = if contains k set then set else k ∷ set

unfoldable pub discard : String → List String → List String
discard k [] = []
discard k (j ∷ rest) = let others = discard k rest in if str_eq j k then others else j ∷ others

pub contains-discard_self : (k : String) (set : List String) → contains k (discard k set) ≡ false
unfolding contains discard
contains-discard_self k [] = refl
contains-discard_self k (j ∷ rest) = ground (arith, contains-discard_self k rest)
