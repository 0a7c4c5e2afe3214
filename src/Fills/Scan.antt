-- ===== src/Fills/Scan.antt =====
-- What a scan of a fill's blocks selects.
use semblend_vllm_connector.Prelude.{ℕ, ◌≡◌, refl, Bool, ◌&&◌, ◌||◌, List, [], ◌∷◌, arith}
use semblend_vllm_connector.Fills.{member, union, select}

pub member-union :
    (block : ℕ) (xs ys : List ℕ) → member block (union xs ys) ≡ (member block xs || member block ys)
member-union block [] ys = refl
member-union block (x ∷ xs) ys = ground (arith, member-union block xs ys, member-union x xs ys)

pub member-select :
    (test : ℕ → Bool) (block : ℕ) (xs : List ℕ)
    → member block (select test xs) ≡ (test block && member block xs)
unfolding select
member-select test block [] = ground arith
member-select test block (x ∷ xs) =
    ground (arith, member-select test block xs, member-select test x xs)
