-- ===== src/Aggregates/Groups.antt =====
-- backend/src/modules/query-engine/aggregate.ts: rows gathered in groups by a key, as both of its
-- loops do with a Map: a group is made by its first row, and each row steps its group.
use zero_datafabric.Common.{
  ◌≡◌, refl, sym, ap, ◌∙◌, inl, inr, Bool-cases, Bool, true, false, ◌&&◌, Option, none, some, List,
  [], ◌∷◌, arith, if◌then◌else◌, or_else, Value, value_eq, value_eq_sound, value_eq_refl, Row,
}

abbrev pub Key : Type 0
Key = List Value

abbrev pub same_key : Key → Key → Bool
same_key [] [] = true
same_key (v ∷ vs) (w ∷ ws) = value_eq v w && same_key vs ws
same_key _ _ = false

same_key_sound : (k l : Key) → same_key k l ≡ true → k ≡ l
same_key_sound [] [] h = refl
same_key_sound [] (w ∷ ws) h = cc
same_key_sound (v ∷ vs) [] h = cc
same_key_sound (v ∷ vs) (w ∷ ws) h =
    let e : v ≡ w = value_eq_sound v w (ground arith) in
    let es : vs ≡ ws = same_key_sound vs ws (ground arith) in cc

pub same_key_refl : (k : Key) → same_key k k ≡ true
same_key_refl [] = refl
same_key_refl (v ∷ vs) = rw (value_eq_refl v) (same_key_refl vs)

pub record Group (A : Type 0) : Type 0 where
  pub key : Key
  pub acc : A

module _ {A : Type 0} (key : Row → Key) (start : Row → A) (step : Row → A → A) where
  -- One row: into its group, or into a new one at the end.
  unfoldable pub into_groups : Row → List (Group A) → List (Group A)
  into_groups row [] = record { key = key row; acc = step row (start row) } ∷ []
  into_groups row (g ∷ gs) =
      let rest = into_groups row gs in
      if same_key g.key (key row)
      then record { key = g.key; acc = step row g.acc } ∷ gs
      else g ∷ rest

  unfoldable pub gather : List Row → List (Group A) → List (Group A)
  unfolding into_groups
  gather [] gs = gs
  gather (r ∷ rs) gs = gather rs (into_groups r gs)

-- What a group of that key holds.
unfoldable pub acc_at : {A : Type 0} → Key → List (Group A) → Option A
acc_at k [] = none
acc_at k (g ∷ gs) = if same_key g.key k then some g.acc else acc_at k gs

module _ {A : Type 0} (key : Row → Key) (start : Row → A) (step : Row → A → A) where
  -- What the rows of one key leave, one by one.
  unfoldable pub steps : Key → List Row → Option A → Option A
  steps k [] o = o
  steps k (r ∷ rs) o =
      steps k rs (if same_key (key r) k then some (step r (or_else o (start r))) else o)

  acc_at-into_groups :
      (k : Key) (r : Row) (gs : List (Group A))
      → acc_at k (into_groups key start step r gs) ≡ (
          if same_key (key r) k
          then some (step r (or_else (acc_at k gs) (start r)))
          else acc_at k gs)
  unfolding acc_at into_groups
  acc_at-into_groups k r [] = refl
  acc_at-into_groups k r (g ∷ gs) = elim (Bool-cases (same_key g.key (key r))) [
    | inl e ↦
        let same : g.key ≡ key r = same_key_sound g.key (key r) e in
        rw (e, sym (ap (λ x. same_key x k) same)) (cases (same_key g.key k))
    | inr apart ↦ elim (Bool-cases (same_key g.key k)) [
      | inl here ↦
          let other : same_key (key r) k ≡ false = elim (Bool-cases (same_key (key r) k)) [
            | inr no_match ↦ no_match
            | inl match ↦
                let same : key r ≡ g.key =
                  same_key_sound (key r) k match ∙ sym (same_key_sound g.key k here) in
                let both : same_key g.key (key r) ≡ true =
                  ap (same_key g.key) same ∙ same_key_refl g.key in
                cc
          ] in
          rw (apart, here, other) refl
      | inr there ↦ rw (apart, there) (acc_at-into_groups k r gs)
    ]
  ]
    where
      cases :
          (b : Bool)
          → (if b then some (step r g.acc) else acc_at k gs) ≡ (
              if b
              then some (step r (or_else (if b then some g.acc else acc_at k gs) (start r)))
              else (if b then some g.acc else acc_at k gs))
      cases true = refl
      cases false = refl

  -- The group of a key holds what the rows of that key leave, in their order.
  pub acc_at-gather :
      (k : Key) (rs : List Row) (gs : List (Group A))
      → acc_at k (gather key start step rs gs) ≡ steps k rs (acc_at k gs)
  unfolding gather steps
  acc_at-gather k [] gs = refl
  acc_at-gather k (r ∷ rs) gs =
      acc_at-gather k rs (into_groups key start step r gs)
      ∙ ap (steps k rs) (acc_at-into_groups k r gs)
