-- ===== src/Planner/Resolved.antt =====
-- What the loop over the references leaves: each has a leg, and each leg is one's. (planner.ts)
use zero_datafabric.Common.{
  ◌≡◌, refl, sym, ap, subst, ◌∙◌, ◌⊎◌, inl, inr, Bool-cases, Option-cases, String, true, none, some,
  List, [], ◌∷◌, ◌++◌, In, In-append_left, In-append_right, All, All-append, All-In, In-All,
  append-nil, append_assoc, text_eq, text_eq_iff, Assoc, lookup,
}
use zero_datafabric.Planner.Syntax.{Ast, Ref, cte_names, collect_refs}
use zero_datafabric.Planner.Legs.{SourceCatalog, ResolvedLeg, resolve_leg}
use zero_datafabric.Planner.{leg_key, is_logical, resolve_ref, resolve_refs, values}
use zero_datafabric.Planner.Mentioned.{Mentions, collect_refs-Mentions}

module _ (catalog : SourceCatalog) (refs : List Ref) where
  -- An entry of the map: the key of a reference of the query, and what that resolves to.
  abbrev Entry : String × ResolvedLeg → Type 0
  Entry e = (s : Ref) × In s refs × (leg_key s ≡ e.0) × (resolve_leg catalog s ≡ some e.1)

  abbrev Keyed : Ref → Assoc ResolvedLeg → Type 0
  Keyed r m = (leg : ResolvedLeg) × In (leg_key r, leg) m

  -- What one round leaves of the map, for the reference that it reads.
  abbrev Grown : List String → Ref → Assoc ResolvedLeg → Assoc ResolvedLeg → Type 0
  Grown names r found next =
      All Entry next
      × ((more : Assoc ResolvedLeg) × (next ≡ found ++ more))
      × ((is_logical names r ≡ true) ⊎ Keyed r next)

  lookup-In :
      (k : String) (m : Assoc ResolvedLeg) (leg : ResolvedLeg)
      → lookup k m ≡ some leg
      → In (k, leg) m
  unfolding lookup
  lookup-In k [] leg h = cc
  lookup-In k ((j, v) ∷ m) leg h = elim (Bool-cases (text_eq j k)) [
    | inl e ↦
        let same : some v ≡ some leg = rw e at h in
        let own : v ≡ leg = ap (λ o. elim o [ none ↦ v | some x ↦ x ]) same in
        let key : j ≡ k = (text_eq_iff j k).0 e in
        inl (sym (ap (λ x. (x, v)) key ∙ ap (λ x. (k, x)) own))
    | inr e ↦ inr (lookup-In k m leg (rw e at h))
  ]

  next_same : (a b : Assoc ResolvedLeg) → some a ≡ some b → a ≡ b
  next_same a b h = ap (λ o. elim o [ none ↦ a | some x ↦ x ]) h

  resolve_ref-Grown :
      (names : List String) (r : Ref) (found next : Assoc ResolvedLeg)
      → In r refs
      → All Entry found
      → resolve_ref catalog names r found ≡ some next
      → Grown names r found next
  resolve_ref-Grown names r found next m ok h = elim (Bool-cases (is_logical names r)) [
    | inl e ↦
        subst (Grown names r found) (next_same found next (rw e at h))
          (ok, ([], sym (append-nil found)), inl e)
    | inr e ↦ elim (Option-cases (lookup (leg_key r) found)) [
      | inr (leg, k) ↦
          subst (Grown names r found) (next_same found next (rw (e, k) at h))
            (ok, ([], sym (append-nil found)), inr (leg, lookup-In (leg_key r) found leg k))
      | inl k ↦ elim (Option-cases (resolve_leg catalog r)) [
        | inl gone ↦ let wrong : none ≡ some next = rw (e, k, gone) at h in cc
        | inr (leg, l) ↦
            let added : List (String × ResolvedLeg) = (leg_key r, leg) ∷ [] in
            subst (Grown names r found) (next_same (found ++ added) next (rw (e, k, l) at h)) (
              All-append Entry found added ok ((r, m, refl, l), tt),
              (added, refl),
              inr (leg, In-append_right (leg_key r, leg) found added (inl refl)),
            )
      ]
    ]
  ]

  abbrev Read : List String → Assoc ResolvedLeg → Ref → Type 0
  Read names m r = (is_logical names r ≡ true) ⊎ Keyed r m

  -- What the loop leaves for the references that are still to be read.
  abbrev Done : List String → List Ref → Assoc ResolvedLeg → Assoc ResolvedLeg → Type 0
  Done names left found done =
      All Entry done
      × ((more : Assoc ResolvedLeg) × (done ≡ found ++ more))
      × All (Read names done) left

  kept : (r : Ref) (a b more : Assoc ResolvedLeg) → b ≡ a ++ more → Keyed r a → Keyed r b
  kept r a b more e (leg, m) =
      (leg, subst (In (leg_key r, leg)) (sym e) (In-append_left (leg_key r, leg) a more m))

  resolve_refs-Done :
      (names : List String) (left : List Ref) (found done : Assoc ResolvedLeg)
      → All (λ r. In r refs) left
      → All Entry found
      → resolve_refs catalog names left (some found) ≡ some done
      → Done names left found done
  unfolding resolve_refs
  resolve_refs-Done names [] found done m ok h =
      subst (Done names [] found) (next_same found done h) (ok, ([], sym (append-nil found)), tt)
  resolve_refs-Done names (r ∷ left) found done (here, later) ok h =
      elim (Option-cases (resolve_ref catalog names r found)) [
        | inl gone ↦
            let wrong : resolve_refs catalog names left none ≡ some done =
              ap (resolve_refs catalog names left) (sym gone) ∙ h in
            absurd (stuck left done wrong)
        | inr (next, e) ↦
            let (fine, (more, grown), own) = resolve_ref-Grown names r found next here ok e in
            let (all_fine, (rest, more_grown), others) =
              resolve_refs-Done names left next done later fine
                (ap (resolve_refs catalog names left) (sym e) ∙ h) in
            (
              all_fine,
              (more ++ rest, more_grown ∙ ap (λ x. x ++ rest) grown ∙ append_assoc found more rest),
              (
                elim own [ inl l ↦ inl l | inr k ↦ inr (kept r next done rest more_grown k) ],
                others,
              ),
            )
      ]
    where
      stuck :
          (rs : List Ref) (m : Assoc ResolvedLeg) → resolve_refs catalog names rs none ≡ some m → ⊥
      stuck [] m e = cc
      stuck (s ∷ rs) m e = cc

In_all : (rs : List Ref) → All (λ r. In r rs) rs
In_all rs = All-In (λ r. In r rs) rs (λ r m. m)

In-values :
    (k : String) (leg : ResolvedLeg) (m : Assoc ResolvedLeg) → In (k, leg) m → In leg (values m)
In-values k leg [] m = absurd m
In-values k leg ((j, v) ∷ rest) (inl e) = inl (ap (λ x. x.1) e)
In-values k leg ((j, v) ∷ rest) (inr m) = inr (In-values k leg rest m)

-- A leg is what some reference of the query resolves to.
abbrev pub LegOf : SourceCatalog → Ast → ResolvedLeg → Type 0
LegOf catalog ast leg = (s : Ref) × In s (collect_refs ast) × (resolve_leg catalog s ≡ some leg)

-- The legs are those of the query's tables: each comes from one, and each table that stands in the
-- query and is no CTE has one, that of a table with its key `source::resource`.
pub record Covers (catalog : SourceCatalog) (ast : Ast) (legs : List ResolvedLeg) : Type 0 where
  pub only : All (LegOf catalog ast) legs
  pub each_table :
      (r : Ref)
      → Mentions r ast
      → (is_logical (cte_names ast) r ≡ true)
        ⊎ ((s : Ref) × (leg : ResolvedLeg) × (leg_key s ≡ leg_key r)
            × (resolve_leg catalog s ≡ some leg)
            × In leg legs)

legs_only :
    (catalog : SourceCatalog) (ast : Ast) (m : Assoc ResolvedLeg)
    → All (Entry catalog (collect_refs ast)) m
    → All (LegOf catalog ast) (values m)
legs_only catalog ast [] h = tt
legs_only catalog ast ((k, leg) ∷ m) ((s, i, e, l), h) = ((s, i, l), legs_only catalog ast m h)

pub resolve_refs-Covers :
    (catalog : SourceCatalog) (ast : Ast) (found : Assoc ResolvedLeg)
    → resolve_refs catalog (cte_names ast) (collect_refs ast) (some []) ≡ some found
    → Covers catalog ast (values found)
resolve_refs-Covers catalog ast found h =
    let refs : List Ref = collect_refs ast in
    let (fine, grown, all_read) =
      resolve_refs-Done catalog refs (cte_names ast) refs [] found (In_all refs) tt h in
    record {
      only = legs_only catalog ast found fine;
      each_table = λ r m.
          elim (In-All (Read catalog refs (cte_names ast) found) r refs all_read
            (collect_refs-Mentions m)) [
              | inl logical ↦ inl logical
              | inr (leg, i) ↦
                  let (s, is_ref, key, resolved) =
                    In-All (Entry catalog refs) (leg_key r, leg) found fine i in
                  inr (s, leg, key, resolved, In-values (leg_key r) leg found i)
            ];
    }
