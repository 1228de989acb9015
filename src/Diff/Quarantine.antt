-- ===== src/Diff/Quarantine.antt =====
-- Which tables a comparison flags as high risk. (diff_engine.ts)
use zero_datafabric.Common.{
  ℕ, ◌≡◌, ◌≢◌, refl, sym, ap, subst, ◌↔◌, inl, inr, Bool-cases, String, Bool, true, false, not,
  ◌&&◌, ◌||◌, Option, none, some, Option-cases, or_else, List, [], ◌∷◌, ◌++◌, map, keep, In,
  In-append_left, In-append_right, In-append_cases, In-All, In-map, In-keep, All, All-append,
  has_prefix,
}
use zero_datafabric.Diff.Engines.{Registry}
use zero_datafabric.Diff.Model.{Resource, Schema, Downstream, Manifest, Catalog, high, Diff, Target}
use zero_datafabric.Diff.Resources.{contains, process_resource_diff}
use zero_datafabric.Diff.Compare.{
  process_all, sort_resources, schema_diff, declared_tables, is_retired, quarantine, detect_retired,
  target_of, compare_schema, compare_schemas, relationship_diff, provision_missing, extension_diff,
  downstream_diff, compare_manifest,
}
use zero_datafabric.Diff.Entries.{stage_of, is_lacking, Entry, process_resource_diff-Entry}

abbrev LowRisk : Diff → Type 0
LowRisk d = d.risk ≢ some high

Entry-LowRisk : (n : ℕ) (l : Bool) (ds : List Diff) → All (Entry n l) ds → All LowRisk ds
Entry-LowRisk n l [] h = tt
Entry-LowRisk n l (d ∷ ds) (p, h) = ((λ e. let own = p.low_risk in cc), Entry-LowRisk n l ds h)

module _ (cat : Catalog) where
  process_all-LowRisk : (t : Target) (rs : List Resource) → All LowRisk (process_all cat t rs)
  unfolding process_all
  process_all-LowRisk t [] = tt
  process_all-LowRisk t (r ∷ rs) =
      All-append LowRisk (process_resource_diff cat t r) (process_all cat t rs)
        (Entry-LowRisk (stage_of r.kind) (is_lacking t.caps r) (process_resource_diff cat t r)
          (process_resource_diff-Entry cat t r))
        (process_all-LowRisk t rs)

  schema_diff-LowRisk : (t : Target) (s : Schema) → All LowRisk (schema_diff cat t s)
  unfolding schema_diff
  schema_diff-LowRisk t s = elim (Bool-cases t.caps.supports_schemas) [
    | inl e ↦ elim (Bool-cases (t.caps.catalog_introspection && cat.schema_exists t.schema_name)) [
      | inl f ↦ rw (e, f) tt
      | inr f ↦ rw (e, f) ((λ h. cc), tt)
    ]
    | inr e ↦ rw e tt
  ]

  relationships-LowRisk : (rs : List String) → All LowRisk (map relationship_diff rs)
  relationships-LowRisk [] = tt
  relationships-LowRisk (r ∷ rs) = ((λ e. cc), relationships-LowRisk rs)

  provision_missing-LowRisk : (es : List String) → All LowRisk (provision_missing es)
  provision_missing-LowRisk [] = tt
  provision_missing-LowRisk (e ∷ es) = ((λ e. cc), tt)

  extension_diff-LowRisk : (o : Option (List String)) → All LowRisk (extension_diff cat o)
  unfolding extension_diff
  extension_diff-LowRisk none = tt
  extension_diff-LowRisk (some es) =
      provision_missing-LowRisk (keep (λ e. not (contains e cat.live_extensions)) es)

  downstream_diff-LowRisk : (ds : List Downstream) → All LowRisk (downstream_diff cat ds)
  unfolding downstream_diff
  downstream_diff-LowRisk [] = tt
  downstream_diff-LowRisk (d ∷ ds) =
      elim (Bool-cases (not (cat.downstream_registered d.target_type) || d.enabled)) [
        | inl e ↦ rw e ((λ h. cc), downstream_diff-LowRisk ds)
        | inr e ↦ rw e (downstream_diff-LowRisk ds)
      ]

-- A live table of an introspected engine, in a schema that lists its resources, none of which
-- declares it, and that is not marked as deleted.
pub record Retired (sources : Registry) (cat : Catalog) (m : Manifest) (s : Schema) (name : String)
    : Type 0 where
  pub listed : In s m.schemas
  pub introspected : (target_of sources m s).caps.catalog_introspection ≡ true
  pub live : In name (cat.live_tables s.physical)
  pub resources : List Resource
  pub given : s.resources ≡ some resources
  pub undeclared : contains name (declared_tables resources) ≡ false
  pub unmarked : has_prefix "__deleted" name ≡ false

In-map_back :
    {A B : Type 0} (f : A → B) (b : B) (xs : List A)
    → In b (map f xs)
    → (a : A) × In a xs × (b ≡ f a)
In-map_back f b [] h = absurd h
In-map_back f b (x ∷ xs) (inl e) = (x, inl refl, e)
In-map_back f b (x ∷ xs) (inr h) = let (a, m, e) = In-map_back f b xs h in (a, inr m, e)

not_both : (a b : Bool) → not a && not b ≡ true → (a ≡ false) × (b ≡ false)
not_both true b h = cc
not_both false true h = cc
not_both false false h = (refl, refl)

module _ (sources : Registry) (cat : Catalog) (m : Manifest) where
  In-detect_listed :
      (s : Schema) (rs : List Resource) (d : Diff)
      → In s m.schemas
      → s.resources ≡ some rs
      → In d (detect_retired cat (target_of sources m s) (some rs))
      → (name : String) × (d ≡ quarantine name) × Retired sources cat m s name
  unfolding detect_retired target_of
  In-detect_listed s rs d listed given h =
      elim (Bool-cases (target_of sources m s).caps.catalog_introspection) [
        | inl e ↦
            let h' : In d (
                map quarantine
                  (keep (is_retired (declared_tables rs)) (cat.live_tables s.physical))) =
              rw e at h in
            let (name, k, same) =
              In-map_back quarantine d
                (keep (is_retired (declared_tables rs)) (cat.live_tables s.physical)) h' in
            let (live, retired) =
              (In-keep (is_retired (declared_tables rs)) name (cat.live_tables s.physical)).0 k in
            let (undeclared, unmarked) =
              not_both (contains name (declared_tables rs)) (has_prefix "__deleted" name) retired in
            (
              name,
              same,
              record {
                listed = listed;
                introspected = e;
                live = live;
                resources = rs;
                given = given;
                undeclared = undeclared;
                unmarked = unmarked;
              },
            )
        | inr e ↦ let h' : In d [] = rw e at h in absurd h'
      ]

  In-detect_retired :
      (s : Schema) (d : Diff)
      → In s m.schemas
      → In d (detect_retired cat (target_of sources m s) s.resources)
      → (name : String) × (d ≡ quarantine name) × Retired sources cat m s name
  unfolding detect_retired
  In-detect_retired s d listed h =
      let found : Option (List Resource) → Type 0 =
        λ o. In d (detect_retired cat (target_of sources m s) o) in
      elim (Option-cases s.resources) [
        | inl e ↦ let h' : In d [] = subst found e h in absurd h'
        | inr (rs, e) ↦ In-detect_listed s rs d listed e (subst found e h)
      ]

  detect_retired-In :
      (s : Schema) (name : String)
      → Retired sources cat m s name
      → In (quarantine name) (detect_retired cat (target_of sources m s) s.resources)
  unfolding detect_retired target_of
  detect_retired-In s name r =
      let rs = r.resources in
      let found : In (quarantine name) (detect_retired cat (target_of sources m s) (some rs)) =
        rw r.introspected (
          In-map quarantine name
            (keep (is_retired (declared_tables rs)) (cat.live_tables s.physical))
            ((In-keep (is_retired (declared_tables rs)) name (cat.live_tables s.physical)).1
              (r.live, rw (r.undeclared, r.unmarked) refl))) in
      subst (λ o. In (quarantine name) (detect_retired cat (target_of sources m s) o)) (sym r.given)
        found

  In-compare_schema :
      (s : Schema) (d : Diff)
      → d.risk ≡ some high
      → In d (compare_schema cat (target_of sources m s) s)
      → In d (detect_retired cat (target_of sources m s) s.resources)
  unfolding compare_schema
  In-compare_schema s d risky h =
      let t = target_of sources m s in
      elim (In-append_cases d (schema_diff cat t s)
        (process_all cat t (sort_resources (or_else s.resources []))
          ++ detect_retired cat t s.resources)
        h) [
          | inl early ↦
              absurd
                (In-All LowRisk d (schema_diff cat t s) (schema_diff-LowRisk cat t s) early risky)
          | inr later ↦
              elim (In-append_cases d (process_all cat t (sort_resources (or_else s.resources [])))
                (detect_retired cat t s.resources) later) [
                  | inl early ↦ absurd (
                      In-All LowRisk d (process_all cat t (sort_resources (or_else s.resources [])))
                        (process_all-LowRisk cat t (sort_resources (or_else s.resources []))) early
                        risky)
                  | inr last ↦ last
                ]
        ]

  compare_schema-In :
      (s : Schema) (d : Diff)
      → In d (detect_retired cat (target_of sources m s) s.resources)
      → In d (compare_schema cat (target_of sources m s) s)
  unfolding compare_schema
  compare_schema-In s d h =
      let t = target_of sources m s in
      In-append_right d (schema_diff cat t s)
        (process_all cat t (sort_resources (or_else s.resources []))
          ++ detect_retired cat t s.resources)
        (In-append_right d (process_all cat t (sort_resources (or_else s.resources [])))
          (detect_retired cat t s.resources) h)

  In-compare_schemas :
      (ss : List Schema) (d : Diff)
      → d.risk ≡ some high
      → In d (compare_schemas sources m cat ss)
      → (s : Schema) × In s ss × In d (detect_retired cat (target_of sources m s) s.resources)
  unfolding compare_schemas
  In-compare_schemas [] d risky h = absurd h
  In-compare_schemas (s ∷ ss) d risky h =
      elim (In-append_cases d (compare_schema cat (target_of sources m s) s)
        (compare_schemas sources m cat ss) h) [
          | inl here ↦ (s, inl refl, In-compare_schema s d risky here)
          | inr there ↦
              let (s', k, found) = In-compare_schemas ss d risky there in (s', inr k, found)
        ]

  compare_schemas-In :
      (ss : List Schema) (s : Schema) (d : Diff)
      → In s ss
      → In d (detect_retired cat (target_of sources m s) s.resources)
      → In d (compare_schemas sources m cat ss)
  unfolding compare_schemas
  compare_schemas-In [] s d k h = absurd k
  compare_schemas-In (x ∷ ss) s d (inl e) h =
      let h' : In d (compare_schema cat (target_of sources m s) s) = compare_schema-In s d h in
      In-append_left d (compare_schema cat (target_of sources m x) x)
        (compare_schemas sources m cat ss)
        (subst (λ y. In d (compare_schema cat (target_of sources m y) y)) e h')
  compare_schemas-In (x ∷ ss) s d (inr k) h =
      In-append_right d (compare_schema cat (target_of sources m x) x)
        (compare_schemas sources m cat ss) (compare_schemas-In ss s d k h)

  rest_of_manifest : List Diff
  unfolding extension_diff downstream_diff
  rest_of_manifest =
      map relationship_diff m.relationships
      ++ (extension_diff cat m.extensions ++ downstream_diff cat m.downstream)

  rest-LowRisk : All LowRisk rest_of_manifest
  unfolding rest_of_manifest
  rest-LowRisk =
      All-append LowRisk (map relationship_diff m.relationships)
        (extension_diff cat m.extensions ++ downstream_diff cat m.downstream)
        (relationships-LowRisk cat m.relationships)
        (All-append LowRisk (extension_diff cat m.extensions) (downstream_diff cat m.downstream)
          (extension_diff-LowRisk cat m.extensions) (downstream_diff-LowRisk cat m.downstream))

  -- The entries of high risk are the quarantines of retired tables, and no others: a comparison
  -- flags a table exactly where it is live in a declared schema of an engine whose catalog is read,
  -- the schema lists its resources, none of these is a table of its name, and the name does not
  -- begin with `__deleted`.
  pub compare_manifest-Retired :
      (d : Diff)
      → (In d (compare_manifest sources cat m) × (d.risk ≡ some high))
        ↔ ((s : Schema) × (name : String) × (d ≡ quarantine name) × Retired sources cat m s name)
  unfolding compare_manifest rest_of_manifest
  compare_manifest-Retired d = (to, from)
    where
      to :
          In d (compare_manifest sources cat m) × (d.risk ≡ some high)
          → (s : Schema) × (name : String) × (d ≡ quarantine name) × Retired sources cat m s name
      to (h, risky) =
          elim (In-append_cases d (compare_schemas sources m cat m.schemas) rest_of_manifest h) [
            | inl early ↦
                let (s, k, found) = In-compare_schemas m.schemas d risky early in
                let (name, same, retired) = In-detect_retired s d k found in
                (s, name, same, retired)
            | inr later ↦ absurd (In-All LowRisk d rest_of_manifest rest-LowRisk later risky)
          ]

      from :
          ((s : Schema) × (name : String) × (d ≡ quarantine name) × Retired sources cat m s name)
          → In d (compare_manifest sources cat m) × (d.risk ≡ some high)
      from (s, name, same, retired) =
          let found : In d (detect_retired cat (target_of sources m s) s.resources) =
            subst (λ e. In e (detect_retired cat (target_of sources m s) s.resources)) (sym same)
              (detect_retired-In s name retired) in
          (
            In-append_left d (compare_schemas sources m cat m.schemas) rest_of_manifest
                (compare_schemas-In m.schemas s d retired.listed found),
            ap (λ e. e.risk) same,
          )
