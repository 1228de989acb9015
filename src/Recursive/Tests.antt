-- ===== src/Recursive/Tests.antt =====
-- A hierarchy with a cycle and a diamond, walked down. (recursive.ts)
use Prim.Native.Nat.{max}
use zero_datafabric.Common.{
  true, ltb, nothing, one, many, ℕ, suc, ◌≤◌, ◌≡◌, refl, false, not, List, [], ◌∷◌, none, some, pos,
  negsuc, Option, Value, null, num, Row, get, has, is_present, keep, In-keep, length, All, inl, inr,
}
use zero_datafabric.Recursive.{
  Condition, depth_is_exact, clamp, whole, between, Spec, Tagged, LevelFetch, run, whole_walk,
  depth_limit, row_limit, seed_where, node_key,
}
use zero_datafabric.Recursive.Unique.{DistinctNodes, run-DistinctNodes}
use zero_datafabric.Recursive.Bounds.{run-rows_bounded, seed_rows}
use zero_datafabric.Recursive.Reach.{Answers, Descends, root, child, run-Descends}
use zero_datafabric.Recursive.Absorbed.{Returned}
use zero_datafabric.Recursive.Closure.{run_complete}

abbrev staff : ℕ → Value → Row
staff id manager = ("id", num (pos id)) ∷ ("manager_id", manager) ∷ []

-- 1 leads 2 and 3, and both lead 4, which is listed twice; 5 and 6 lead each other.
abbrev people : List Row
people =
    staff 1 null
    ∷ staff 2 (num (pos 1))
    ∷ staff 3 (num (pos 1))
    ∷ staff 4 (num (pos 2))
    ∷ staff 4 (num (pos 3))
    ∷ staff 5 (num (pos 6))
    ∷ staff 6 (num (pos 5))
    ∷ []

-- A source that understands the two conditions of the walk.
abbrev answer : List Row → Condition → List Row
answer table c = elim (c.value) [
  | many keys ↦ keep (λ r. has (get c.column r) keys) table
  | nothing ↦ keep (λ r. not (is_present (get c.column r))) table
  | one v ↦ []
]

abbrev source : LevelFetch
source n [] = []
source n (c ∷ cs) = answer people c

abbrev spec : Spec
spec = record {
  parent = "manager_id";
  child = "id";
  anchor = [];
  start_with = [];
  direction = none;
  max_depth = none;
  max_rows = none;
  path_column = some "id";
}

answers : Answers people source
answers n column keys r = In-keep (λ q. has (get column q) keys) r people

abbrev summary : List Tagged → List (Value × ℕ × Option (List Value))
summary [] = []
summary (t ∷ ts) = (node_key spec t.row, t.depth, t.path) ∷ summary ts

walked :
    (summary (run spec source).rows
      ≡ (num (pos 1), 0, some (num (pos 1) ∷ []))
        ∷ (num (pos 2), 1, some (num (pos 1) ∷ num (pos 2) ∷ []))
        ∷ (num (pos 3), 1, some (num (pos 1) ∷ num (pos 3) ∷ []))
        ∷ (num (pos 4), 2, some (num (pos 1) ∷ num (pos 2) ∷ num (pos 4) ∷ []))
        ∷ [])
    × ((run spec source).levels ≡ 4)
    × ((run spec source).truncated_by_depth ≡ false)
    × ((run spec source).truncated_by_rows ≡ false)
unfolding whole_walk
walked = (refl, refl, refl, refl)

-- Three seed rows against a limit of one: the limit does not reach the seeds.
abbrev small : Spec
small = record {
  parent = "id";
  child = "id";
  anchor = [];
  start_with =
      record {
        column = "manager_id";
        operator = "IN";
        value = many (num (pos 1) ∷ num (pos 2) ∷ []);
      }
      ∷ [];
  direction = none;
  max_depth = some (whole (negsuc 3));
  max_rows = some (whole (pos 1));
  path_column = none;
}

seeds_uncut : (length (run small source).rows ≡ 3) × (row_limit small ≡ 1) × (depth_limit small ≡ 1)
unfolding whole_walk
seeds_uncut = (refl, refl, refl)

run-DistinctNodes_example : DistinctNodes spec (run spec source).rows
run-DistinctNodes_example = run-DistinctNodes spec source

run-rows_bounded_example :
    length (run small source).rows ≤ max (row_limit small) (suc (length (seed_rows small source)))
run-rows_bounded_example = run-rows_bounded small source

run-Descends_example :
    All
      (λ t. Descends spec people (source 0 (seed_where spec)) t.depth t.row)
      (run spec source).rows
run-Descends_example = run-Descends spec people source answers

fourth : Descends spec people (source 0 (seed_where spec)) 2 (staff 4 (num (pos 3)))
unfolding whole_walk
fourth =
    child
      (child (root (inl refl))
        (record { listed = inr (inr (inl refl)); linked = refl; keyed = refl }))
      (record { listed = inr (inr (inr (inr (inl refl)))); linked = refl; keyed = refl })

-- With a `maxDepth` of 1.5 a level is missing, and no flag says so.
abbrev halfway : Spec
halfway = record {
  parent = "manager_id";
  child = "id";
  anchor = [];
  start_with = [];
  direction = none;
  max_depth = some (between (pos 1));
  max_rows = none;
  path_column = none;
}

halfway_cut :
    ((run halfway source).truncated_by_depth ≡ false)
    × (ltb (length (run halfway source).rows) (length (run spec source).rows) ≡ true)
unfolding whole_walk
halfway_cut = (refl, refl)

run_complete_example : Returned spec (node_key spec (staff 4 (num (pos 3)))) (run spec source).rows
unfolding depth_is_exact clamp
run_complete_example = run_complete spec people source answers refl refl walked.2 walked.3 fourth
