-- ===== src/Planner/Databases.antt =====
-- What the planner's counts say of the tables of a query. (planner.ts)
use zero_datafabric.Common.{
  suc, ◌≤◌, ◌≡◌, refl, sym, ap, ◌∙◌, inl, inr, Bool-cases, arith, String, true, false, ◌||◌, List,
  [], ◌∷◌, map, length, keep, In, All, In-map, In-keep, text_eq, text_eq_iff, subst,
}
use zero_datafabric.Policy.{is_member}
use zero_datafabric.Planner.Syntax.{Ast}
use zero_datafabric.Planner.Legs.{ResolvedLeg, norm_engine, is_relational, conn_fingerprint}
use zero_datafabric.Planner.{
  distinct, is_named, engine_token, leg_source, first_engine, connectors, named_sources,
  co_locatable, has_set_ops, has_joins,
}

is_member-distinct : (x : String) (xs : List String) → In x xs → is_member x (distinct xs) ≡ true
is_member-distinct x [] m = absurd m
is_member-distinct x (y ∷ ys) (inl e) = elim (Bool-cases (is_member y (distinct ys))) [
  | inl h ↦ rw h (ap (λ z. is_member z (distinct ys)) e ∙ h)
  | inr h ↦ rw h (let same = (text_eq_iff y x).1 (sym e) in rw same refl)
]
is_member-distinct x (y ∷ ys) (inr m) =
    let later = is_member-distinct x ys m in
    elim (Bool-cases (is_member y (distinct ys))) [
      | inl h ↦ rw h later
      | inr h ↦ rw h (ground (arith, later))
    ]

member_of_one :
    (x y : String) (zs : List String)
    → length zs ≤ 1
    → is_member x zs ≡ true
    → is_member y zs ≡ true
    → x ≡ y
member_of_one x y [] n h k = cc
member_of_one x y (z ∷ []) n h k = ground (arith, text_eq_iff z x, text_eq_iff z y)
member_of_one x y (z ∷ w ∷ zs) n h k = absurd (omega arith)

-- A set of at most one text holds one text.
distinct_one :
    (x y : String) (xs : List String) → length (distinct xs) ≤ 1 → In x xs → In y xs → x ≡ y
distinct_one x y xs n m k =
    member_of_one x y (distinct xs) n (is_member-distinct x xs m) (is_member-distinct y xs k)

abbrev pub Remote : ResolvedLeg → Type 0
Remote l = l.reachable_in_pg ≡ false

abbrev pub Reachable : ResolvedLeg → Type 0
Reachable l = l.reachable_in_pg ≡ true

keep_at_most : (ls : List ResolvedLeg) → length (connectors ls) ≤ length ls
keep_at_most [] = omega arith
keep_at_most (l ∷ ls) = elim (Bool-cases l.reachable_in_pg) [
  | inl e ↦ rw e (omega (arith, keep_at_most ls))
  | inr e ↦ rw e (omega (arith, keep_at_most ls))
]

every_connector :
    (ls : List ResolvedLeg)
    → length (connectors ls) ≡ length ls
    → All Remote ls × (connectors ls ≡ ls)
every_connector [] h = (tt, refl)
every_connector (l ∷ ls) h = elim (Bool-cases l.reachable_in_pg) [
  | inl e ↦ absurd (
      let k : length (connectors ls) ≡ suc (length ls) = rw e at h in
      omega (arith, keep_at_most ls))
  | inr e ↦
      let k : suc (length (connectors ls)) ≡ suc (length ls) = rw e at h in
      let (remote, same) = every_connector ls (omega arith) in
      ((e, remote), simp e (ap (λ r. l ∷ r) same))
]

pub no_connector : (ls : List ResolvedLeg) → length (connectors ls) ≡ 0 → All Reachable ls
no_connector [] h = tt
no_connector (l ∷ ls) h = elim (Bool-cases l.reachable_in_pg) [
  | inl e ↦ (e, no_connector ls (rw e at h))
  | inr e ↦ absurd (let k : suc (length (connectors ls)) ≡ 0 = rw e at h in omega arith)
]

-- All tables stand in one database of an engine that runs whole statements.
pub record OneDatabase (legs : List ResolvedLeg) : Type 0 where
  pub remote : All Remote legs
  pub one_database :
      (l m : ResolvedLeg) → In l legs → In m legs → conn_fingerprint l ≡ conn_fingerprint m
  pub one_engine : (l m : ResolvedLeg) → In l legs → In m legs → engine_token l ≡ engine_token m
  pub supported :
      is_relational (norm_engine (first_engine legs))
        || text_eq (norm_engine (first_engine legs)) "MONGODB"
      ≡ true

pub co_locatable-OneDatabase :
    (legs : List ResolvedLeg) → co_locatable legs ≡ true → OneDatabase legs
unfolding co_locatable
co_locatable-OneDatabase legs h =
    let n : length (connectors legs) ≡ length legs = ground arith in
    let (remote, same) = every_connector legs n in
    let prints : length (distinct (map conn_fingerprint (connectors legs))) ≡ 1 = ground arith in
    let tokens : length (distinct (map engine_token (connectors legs))) ≡ 1 = ground arith in
    let prints' : length (distinct (map conn_fingerprint legs)) ≡ 1 =
      subst (λ r. length (distinct (map conn_fingerprint r)) ≡ 1) same prints in
    let tokens' : length (distinct (map engine_token legs)) ≡ 1 =
      subst (λ r. length (distinct (map engine_token r)) ≡ 1) same tokens in
    let fits : is_relational (norm_engine (first_engine (connectors legs)))
          || text_eq (norm_engine (first_engine (connectors legs))) "MONGODB"
        ≡ true =
      ground arith in
    record {
      remote = remote;
      one_database = λ l m i j.
          distinct_one (conn_fingerprint l) (conn_fingerprint m) (map conn_fingerprint legs)
            (omega arith) (In-map conn_fingerprint l legs i) (In-map conn_fingerprint m legs j);
      one_engine = λ l m i j.
          distinct_one (engine_token l) (engine_token m) (map engine_token legs) (omega arith)
            (In-map engine_token l legs i) (In-map engine_token m legs j);
      supported =
          subst
            (λ r.
              is_relational (norm_engine (first_engine r))
                || text_eq (norm_engine (first_engine r)) "MONGODB"
              ≡ true)
            same fits;
    }

-- No table needs a connector, and the named sources are one at most.
pub record OneStatement (legs : List ResolvedLeg) : Type 0 where
  pub reachable : All Reachable legs
  pub one_source :
      (l m : ResolvedLeg)
      → In l legs
      → In m legs
      → is_named l ≡ true
      → is_named m ≡ true
      → l.source ≡ m.source

pub named-OneStatement :
    (legs : List ResolvedLeg)
    → length (connectors legs) ≡ 0
    → length (named_sources legs) ≤ 1
    → OneStatement legs
named-OneStatement legs h n = record {
  reachable = no_connector legs h;
  one_source = λ l m i j a b.
      distinct_one l.source m.source (map leg_source (keep is_named legs)) n
        (In-map leg_source l (keep is_named legs) ((In-keep is_named l legs).1 (i, a)))
        (In-map leg_source m (keep is_named legs) ((In-keep is_named m legs).1 (j, b)));
}

-- The query is one table of one connector, without a join or a set operation.
pub record OneTable (ast : Ast) (legs : List ResolvedLeg) : Type 0 where
  pub only : ResolvedLeg
  pub alone : legs ≡ only ∷ []
  pub remote : Remote only
  pub no_joins : has_joins ast ≡ false
  pub no_set_ops : has_set_ops ast ≡ false

pub alone-OneTable :
    (ast : Ast) (legs : List ResolvedLeg)
    → length (connectors legs) ≡ 1
    → length legs ≡ 1
    → has_joins ast ≡ false
    → has_set_ops ast ≡ false
    → OneTable ast legs
alone-OneTable ast [] h n j o = cc
alone-OneTable ast (l ∷ []) h n j o =
    let (remote, same) = every_connector (l ∷ []) h in
    record { only = l; alone = refl; remote = remote.0; no_joins = j; no_set_ops = o }
alone-OneTable ast (l ∷ m ∷ ls) h n j o = absurd (omega arith)
