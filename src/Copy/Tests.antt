-- ===== src/Copy/Tests.antt =====
-- Runs of a paged copy. (copy_util.ts)
use zero_datafabric.Common.{
  ℕ, ◌≡◌, ◌≢◌, refl, arith, Bool, true, false, some, List, [], ◌∷◌, ◌++◌, ltb, take, keep, pos,
  negsuc, Value, undefined, null, bool, num, str, Row, get, drop, ◌==◌,
}
use zero_datafabric.Copy.{
  Limits, default_limits, resolve_opts, positive_or, last_key, PageQuery, by_key, by_offset,
  page_query, advance, Surroundings, paused, out_of_fuel, copy_from, paged_read,
}
use zero_datafabric.Copy.Ending.{paged_read-ends}
use zero_datafabric.Copy.Pages.{StrictOrder, is_after, remaining, Ascending, Answers}
use zero_datafabric.Copy.Resume.{paged_read-resumes, paged_read-copies_all}

-- The order of numbers; other values are not compared.
abbrev gt : Value → Value → Bool
gt (num (pos a)) (num (pos b)) = ltb b a
gt _ _ = false

gt-StrictOrder : StrictOrder gt
gt-StrictOrder = record { irreflexive = irreflexive; transitive = transitive }
  where
    irreflexive : (a : Value) → gt a a ≡ false
    irreflexive (num (pos a)) = ground arith
    irreflexive (num (negsuc a)) = refl
    irreflexive undefined = refl
    irreflexive null = refl
    irreflexive (bool b) = refl
    irreflexive (str s) = refl

    transitive : (a b c : Value) → gt a b ≡ true → gt b c ≡ true → gt a c ≡ true
    transitive (num (pos a)) (num (pos b)) (num (pos c)) h k = ground arith
    transitive a b c h k = ground arith

abbrev item : ℕ → Row
item n = ("id", num (pos n)) ∷ []

abbrev items : List Row
items = item 1 ∷ item 4 ∷ item 6 ∷ item 7 ∷ item 9 ∷ []

abbrev read : PageQuery → List Row
read (by_key key after n) = take n (keep (is_after gt key after) items)
read (by_offset from n) = take n (drop from items)

-- The pause is asked for before the third page.
abbrev store : Surroundings
store = record {
  should_stop = λ i. i == 2;
  over_ceiling = λ i. false;
  query = λ i q. read q;
  batch_fails = λ i. false;
  save_fails = λ i. false;
}

abbrev pages : Limits
pages = record { batch_size = 2; max_rows = 100 }

-- All of the copy, for tests.
copying : Unit {0}
unfolding paged_read copy_from advance page_query get resolve_opts positive_or
copying = tt

copied_pages : paged_read "id" pages store 0 (last_key undefined) ≡ record {
  outcome = paused;
  total = 4;
  cursor = last_key (num (pos 7));
  saved = item 1 ∷ item 4 ∷ item 6 ∷ item 7 ∷ [];
  unsaved = [];
}
unfolding copying
copied_pages = refl

resumed_pages : (paged_read "id" pages store 4 (last_key (num (pos 7)))).saved ≡ item 9 ∷ []
unfolding copying
resumed_pages = refl

default_opts :
    resolve_opts default_limits (record { batch_size = some (pos 0); max_rows = some (pos 20) })
    ≡ record { batch_size = 1000; max_rows = 20 }
unfolding copying
default_opts = refl

items-Ascending : Ascending gt "id" items
unfolding copying
items-Ascending = (
  refl,
  (refl, (refl, (refl, (refl, tt)))),
  (
    refl,
    (refl, (refl, (refl, tt))),
    (refl, (refl, (refl, tt)), (refl, (refl, tt), (refl, tt, tt))),
  ),
)

paged_read-ends_example : (paged_read "id" pages store 0 (last_key undefined)).outcome ≢ out_of_fuel
paged_read-ends_example = paged_read-ends "id" pages store 0 (last_key undefined)

answers : Answers gt "id" items store
answers i n after = refl

paged_read-resumes_example :
    ((paged_read "id" pages store 0 (last_key undefined)).saved
        ++ remaining gt "id" (paged_read "id" pages store 0 (last_key undefined)).cursor items
      ≡ remaining gt "id" (last_key undefined) items)
    × ((n : ℕ) × ((paged_read "id" pages store 0 (last_key undefined)).unsaved
          ≡ take n (
              remaining gt "id" (paged_read "id" pages store 0 (last_key undefined)).cursor items)))
paged_read-resumes_example =
    paged_read-resumes gt "id" gt-StrictOrder items items-Ascending pages store answers
      (omega arith) 0 undefined

paged_read-copies_all_example :
    (paged_read "id" pages store 4 (last_key (num (pos 7)))).saved
    ≡ remaining gt "id" (last_key (num (pos 7))) items
unfolding copying
paged_read-copies_all_example =
    paged_read-copies_all gt "id" gt-StrictOrder items items-Ascending pages store answers
      (omega arith) 4 (num (pos 7)) refl
