-- ===== src/Recursive.antt =====
-- backend/src/modules/query-engine/recursive.ts: the level-by-level walk of a hierarchy.
-- A row's internal `__depth` and `__path` are the fields of `Tagged`; no column has these names.
pub mod Induct
pub mod Unique
pub mod Bounds
mod Keys
pub mod Reach
pub mod Absorbed
pub mod Closure
mod Tests
use zero_datafabric.Common.{
  ℕ, zero, suc, ◌+◌, String, Bool, true, false, not, ◌&&◌, Option, none, some, List, [], ◌∷◌, ◌++◌,
  map, if◌then◌else◌, leb, text_eq, value_eq, is_present, or_else, length, keep, ℤ, pos, negsuc,
  Value, null, str, Row, get, has, Operand, nothing, many,
}
use Prim.Native.Nat.{min, max}

pub record Condition : Type 0 where
  pub column : String
  pub operator : String
  pub value : Operand

-- A number: an integer, or one that lies between an integer and the next.
pub data Amount : Type 0 where
  whole : ℤ → Amount
  between : ℤ → Amount

pub record Spec : Type 0 where
  pub parent : String
  pub child : String
  pub anchor : List Condition
  pub start_with : List Condition
  pub direction : Option String
  pub max_depth : Option Amount
  pub max_rows : Option Amount
  pub path_column : Option String

pub record Tagged : Type 0 where
  pub row : Row
  pub depth : ℕ
  pub path : Option (List Value)

-- One entry of the trace, its time left out.
pub record Level : Type 0 where
  pub depth : ℕ
  pub frontier : ℕ
  pub fetched : ℕ
  pub added : ℕ

pub record RecursiveResult : Type 0 where
  pub rows : List Tagged
  pub levels : ℕ
  pub trace : List Level
  pub truncated_by_depth : Bool
  pub truncated_by_rows : Bool

-- The `n`-th call of the source, counted from 0, with its condition.
abbrev pub LevelFetch : Type 0
LevelFetch = ℕ → List Condition → List Row

-- A limit: `n` itself, or a number between `n` and `n + 1`.
pub data Limit : Type 0 where
  exactly : ℕ → Limit
  above : ℕ → Limit

-- `Math.max(1, Math.min(Number(given) || fallback, cap))`; `none` is a value that is not a number.
unfoldable pub clamp : ℕ → ℕ → Option Amount → Limit
clamp fallback cap none = exactly (max 1 (min fallback cap))
clamp fallback cap (some (whole (pos zero))) = exactly (max 1 (min fallback cap))
clamp fallback cap (some (whole (pos (suc n)))) = exactly (max 1 (min (suc n) cap))
clamp fallback cap (some (whole (negsuc n))) = exactly 1
clamp fallback cap (some (between (pos zero))) = exactly 1
clamp fallback cap (some (between (pos (suc n)))) =
    if leb cap (suc n) then exactly (max 1 cap) else above (suc n)
clamp fallback cap (some (between (negsuc n))) = exactly 1

abbrev pub floor_of : Limit → ℕ
floor_of (exactly n) = n
floor_of (above n) = n

abbrev pub ceiling_of : Limit → ℕ
ceiling_of (exactly n) = n
ceiling_of (above n) = suc n

abbrev pub is_exact : Limit → Bool
is_exact (exactly n) = true
is_exact (above n) = false

-- The last depth for which `depth <= maxDepth`, and whether `depth === maxDepth` holds there.
unfoldable pub depth_limit : Spec → ℕ
depth_limit spec = floor_of (clamp 25 100 spec.max_depth)

unfoldable pub depth_is_exact : Spec → Bool
depth_is_exact spec = is_exact (clamp 25 100 spec.max_depth)

-- The first length for which `out.length >= maxRows`.
unfoldable pub row_limit : Spec → ℕ
row_limit spec = ceiling_of (clamp 50000 200000 spec.max_rows)

abbrev pub is_down : Option String → Bool
is_down none = true
is_down (some d) = not (text_eq d "up")

abbrev pub next_filter_col : Spec → String
next_filter_col spec = if is_down spec.direction then spec.parent else spec.child

abbrev pub frontier_key_col : Spec → String
frontier_key_col spec = if is_down spec.direction then spec.child else spec.parent

abbrev pub or_nonempty : {A : Type 0} → List A → List A → List A
or_nonempty [] ys = ys
or_nonempty (x ∷ xs) ys = x ∷ xs

unfoldable pub seed_where : Spec → List Condition
seed_where spec = or_nonempty spec.start_with (
    or_nonempty spec.anchor
      (record { column = spec.parent; operator = "IS_NULL"; value = nothing } ∷ []))

abbrev pub parent_path : Option Tagged → List Value
parent_path none = []
parent_path (some p) = or_else p.path []

-- `tag` of one row.
unfoldable pub tag : Spec → ℕ → Option Tagged → Row → Tagged
tag spec depth parent row = record {
  row = row;
  depth = depth;
  path = elim (spec.path_column) [
    | none ↦ none
    | some c ↦ some (parent_path parent ++ get c row ∷ [])
  ];
}

-- The variables of the walk that outlive a level.
pub record Walk : Type 0 where
  pub seen : List Value
  pub out : List Tagged

abbrev pub node_key : Spec → Row → Value
node_key spec row = get spec.child row

-- `seen.add(k); out.push(r)`
abbrev pub add_row : Spec → Walk → Tagged → Walk
add_row spec w t = record { seen = node_key spec t.row ∷ w.seen; out = w.out ++ t ∷ [] }

-- The loop over the seed rows.
unfoldable pub add_seeds : Spec → List Tagged → Walk → Walk
add_seeds spec [] w = w
add_seeds spec (r ∷ rs) w =
    add_seeds spec rs (if has (node_key spec r.row) w.seen then w else add_row spec w r)

-- The distinct values of a list, in order of first occurrence: `Array.from(new Set(xs))`.
unfoldable pub distinct_from : List Value → List Value → List Value
distinct_from seen [] = []
distinct_from seen (x ∷ xs) =
    if has x seen then distinct_from seen xs else x ∷ distinct_from (x ∷ seen) xs

unfoldable pub frontier_keys : Spec → List Tagged → List Value
frontier_keys spec frontier =
    distinct_from [] (keep is_present (map (λ r. get (frontier_key_col spec) r.row) frontier))

-- `parentByKey.get(k)`: of several rows under one key the map keeps the last.
unfoldable pub parent_by_key : Spec → Value → List Tagged → Option Tagged
parent_by_key spec k [] = none
parent_by_key spec k (r ∷ rs) = elim (parent_by_key spec k rs) [
  | some later ↦ some later
  | none ↦ if value_eq (get (frontier_key_col spec) r.row) k then some r else none
]

-- What the loop over one level's rows leaves: the walk, the next frontier, and `truncatedByRows`.
pub record Expanded : Type 0 where
  pub walk : Walk
  pub next : List Tagged
  pub full : Bool

-- A child with its depth, and the path of the frontier row that it hangs under.
unfoldable pub tag_child : Spec → ℕ → List Tagged → Row → Tagged
tag_child spec depth frontier c =
    tag spec depth (parent_by_key spec (get (next_filter_col spec) c) frontier) c

-- The loop over the fetched children, with its `continue` and its `break`.
unfoldable pub absorb : Spec → ℕ → List Tagged → List Row → Walk → List Tagged → Expanded
absorb spec depth frontier [] w next = record { walk = w; next = next; full = false }
absorb spec depth frontier (c ∷ cs) w next =
    let t = tag_child spec depth frontier c in
    let w' = add_row spec w t in
    let next' = next ++ t ∷ [] in
    let skipped = absorb spec depth frontier cs w next in
    let added = absorb spec depth frontier cs w' next' in
    let stopped : Expanded = record { walk = w'; next = next'; full = true } in
    if has (node_key spec c) w.seen
    then skipped
    else if leb (row_limit spec) (length w'.out)
    then stopped
    else added

-- The state when the loop over the levels ends.
pub record Finished : Type 0 where
  pub walk : Walk
  pub trace : List Level
  pub by_depth : Bool
  pub by_rows : Bool

abbrev pub level : ℕ → List Tagged → List Row → List Tagged → Level
level depth frontier fetched next = record {
  depth = depth;
  frontier = length frontier;
  fetched = length fetched;
  added = length next;
}

abbrev pub is_nil : {A : Type 0} → List A → Bool
is_nil [] = true
is_nil (x ∷ xs) = false

abbrev pub key_in : String → List Value → List Condition
key_in column keys = record { column = column; operator = "IN"; value = many keys } ∷ []

-- One level: the fetch under the frontier's keys, and the loop over what it returns.
abbrev pub fetched_at : Spec → LevelFetch → ℕ → List Tagged → List Row
fetched_at spec fetch depth frontier =
    fetch depth (key_in (next_filter_col spec) (frontier_keys spec frontier))

abbrev pub expand : Spec → LevelFetch → ℕ → List Tagged → Walk → Expanded
expand spec fetch depth frontier w =
    absorb spec depth frontier (fetched_at spec fetch depth frontier) w []

-- `for (depth = 1; depth <= maxDepth; depth++)`, on the number of levels left.
-- When the loop ends, a frontier that is not empty has set `truncatedByDepth` if the last depth was
-- `maxDepth` itself.
unfoldable pub levels : Spec → LevelFetch → ℕ → ℕ → List Tagged → Walk → List Level → Finished
levels spec fetch zero depth frontier w trace = record {
  walk = w;
  trace = trace;
  by_depth = depth_is_exact spec && not (is_nil frontier);
  by_rows = false;
}
levels spec fetch (suc left) depth frontier w trace =
    let e = expand spec fetch depth frontier w in
    let trace' = trace ++ level depth frontier (fetched_at spec fetch depth frontier) e.next ∷ [] in
    let rest = levels spec fetch left (suc depth) e.next e.walk trace' in
    if is_nil (frontier_keys spec frontier)
    then record { walk = w; trace = trace; by_depth = false; by_rows = false }
    else if e.full
    then record { walk = e.walk; trace = trace'; by_depth = false; by_rows = true }
    else rest

abbrev pub no_walk : Walk
no_walk = record { seen = []; out = [] }

unfoldable pub seeds : Spec → LevelFetch → List Tagged
seeds spec fetch = map (tag spec 0 none) (fetch 0 (seed_where spec))

unfoldable pub walk_from_seeds : Spec → LevelFetch → Finished
walk_from_seeds spec fetch =
    levels spec fetch (depth_limit spec) 1 (seeds spec fetch)
      (add_seeds spec (seeds spec fetch) no_walk)
      (level 0 [] (fetch 0 (seed_where spec)) (seeds spec fetch) ∷ [])

unfoldable pub run : Spec → LevelFetch → RecursiveResult
run spec fetch =
    let f = walk_from_seeds spec fetch in
    record {
      rows = f.walk.out;
      levels = length f.trace;
      trace = f.trace;
      truncated_by_depth = f.by_depth;
      truncated_by_rows = f.by_rows;
    }

-- All of the walk, for tests.
unfoldable pub whole_walk : Unit {0}
unfolding run walk_from_seeds levels absorb tag_child parent_by_key frontier_keys distinct_from
    seeds seed_where add_seeds tag row_limit depth_limit depth_is_exact clamp has get
whole_walk = tt
