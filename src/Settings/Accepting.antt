-- ===== src/Settings/Accepting.antt =====
-- What an accepted section holds. (validate.ts)
use zero_datafabric.Common.{
  trim, ◌≡◌, refl, ap, subst, ◌∙◌, inl, inr, Bool-cases, Option-cases, String, Bool, true, false,
  ◌&&◌, Option, none, some, List, [], ◌∷◌, arith, leb, length, all, any, ◌==◌, ℕ, ◌≢◌, sym, In,
  size, units, undefined, z_leb, Value, null, bool, num, str, text_eq, text_eq_iff, has, Assoc,
  lookup, insert, ◌≤◌, All,
}
use zero_datafabric.Recursive.{distinct_from}
use zero_datafabric.Tenants.{has_nul}
use Prim.Native.Char.{code}
use zero_datafabric.Settings.{
  FieldSpec, boolean_field, int_field, string_field, string_list, SectionSpec, Setting, scalar,
  array, passes_test, is_listed, fits, entry_ok, when_true, check_field, valid, not_an_object,
  unknown_settings, bad_field, unknown_keys, check_entries, unless_unknown, validate_section,
}

-- No character of the text has the code 0.
abbrev pub NoNul : String → Type 0
NoNul String.[] = Unit
NoNul (String.◌∷◌ c s) = (code c ≢ 0) × NoNul s

abbrev pub Passes : Option (String → Bool) → String → Type 0
Passes none s = Unit
Passes (some test) s = test s ≡ true

abbrev pub Listed : Option (List String) → String → Type 0
Listed none s = Unit
Listed (some texts) s = In s texts

-- A text of at most so many units, without a NUL, that passes the test and stands in the list.
abbrev pub TextOk : ℕ → Option (String → Bool) → Option (List String) → String → Type 0
TextOk max_len test texts s = (units s ≤ max_len) × NoNul s × Passes test s × Listed texts s

-- An entry of a list: such a text, and not the empty one.
abbrev pub EntryOk : ℕ → Option (String → Bool) → Option (List String) → Value → Type 0
EntryOk max_len item allowed (str s) = (s ≢ "") × TextOk max_len item allowed s
EntryOk max_len item allowed _ = ⊥

-- What a field's type asks of a value that is kept.
abbrev pub FieldOk : FieldSpec → Setting → Type 0
FieldOk boolean_field (scalar (bool b)) = Unit
FieldOk (int_field least most) (scalar (num n)) = (z_leb least n ≡ true) × (z_leb n most ≡ true)
FieldOk (string_field max_len pattern nullable listed) (scalar null) = nullable ≡ true
FieldOk (string_field max_len pattern nullable listed) (scalar (str t)) =
    (s : String) × (t ≡ trim s) × TextOk max_len pattern listed s
FieldOk (string_list max_items max_len item allowed) (array vs) =
    (length vs ≤ max_items) × All (EntryOk max_len item allowed) vs
FieldOk _ _ = ⊥

has_nul-NoNul : (s : String) → has_nul s ≡ false → NoNul s
has_nul-NoNul String.[] h = tt
has_nul-NoNul (String.◌∷◌ c s) h = (
  λ e. let zero_code : (code c == 0) ≡ true = rw e refl in ground arith,
  has_nul-NoNul s (ground arith),
)

is_listed-In : (s : String) (texts : List String) → any (λ t. text_eq t s) texts ≡ true → In s texts
is_listed-In s [] h = cc
is_listed-In s (t ∷ texts) h = elim (Bool-cases (text_eq t s)) [
  | inl e ↦ inl (sym ((text_eq_iff t s).0 e))
  | inr e ↦ inr (is_listed-In s texts (ground arith))
]

is_listed-Listed :
    (texts : Option (List String)) (s : String) → is_listed texts s ≡ true → Listed texts s
is_listed-Listed none s h = tt
is_listed-Listed (some texts) s h = is_listed-In s texts h

passes_test-Passes :
    (test : Option (String → Bool)) (s : String) → passes_test test s ≡ true → Passes test s
passes_test-Passes none s h = tt
passes_test-Passes (some test) s h = h

text-TextOk :
    (max_len : ℕ) (test : Option (String → Bool)) (texts : Option (List String)) (s : String)
    → fits max_len s ≡ true
    → passes_test test s ≡ true
    → is_listed texts s ≡ true
    → TextOk max_len test texts s
text-TextOk max_len test texts s h p l = (
  ground arith,
  has_nul-NoNul s (ground arith),
  passes_test-Passes test s p,
  is_listed-Listed texts s l,
)

entry_ok-EntryOk :
    (max_len : ℕ) (item : Option (String → Bool)) (allowed : Option (List String)) (v : Value)
    → entry_ok max_len item allowed v ≡ true
    → EntryOk max_len item allowed v
entry_ok-EntryOk max_len item allowed (str s) h = (
  λ e. let empty : size s ≡ 0 = ap size e in ground arith,
  text-TextOk max_len item allowed s (ground arith) (ground arith) (ground arith),
)
entry_ok-EntryOk max_len item allowed undefined h = cc
entry_ok-EntryOk max_len item allowed null h = cc
entry_ok-EntryOk max_len item allowed (bool b) h = cc
entry_ok-EntryOk max_len item allowed (num n) h = cc

All-EntryOk :
    (max_len : ℕ) (item : Option (String → Bool)) (allowed : Option (List String)) (vs : List Value)
    → All (λ v. entry_ok max_len item allowed v ≡ true) vs
    → All (EntryOk max_len item allowed) vs
All-EntryOk max_len item allowed [] h = tt
All-EntryOk max_len item allowed (v ∷ vs) (p, h) =
    (entry_ok-EntryOk max_len item allowed v p, All-EntryOk max_len item allowed vs h)

length-distinct_from : (seen vs : List Value) → length (distinct_from seen vs) ≤ length vs
unfolding distinct_from
length-distinct_from seen [] = omega arith
length-distinct_from seen (v ∷ vs) =
    ground (arith, length-distinct_from seen vs, length-distinct_from (v ∷ seen) vs)

All-distinct_from :
    (p : Value → Bool) (seen vs : List Value)
    → all p vs ≡ true
    → All (λ v. p v ≡ true) (distinct_from seen vs)
unfolding distinct_from
All-distinct_from p seen [] h = tt
All-distinct_from p seen (v ∷ vs) h = elim (Bool-cases (has v seen)) [
  | inl e ↦ rw e (All-distinct_from p seen vs (ground arith))
  | inr e ↦ rw e (ground arith, All-distinct_from p (v ∷ seen) vs (ground arith))
]

-- The value that `when_true` gives.
when_true-some : (b : Bool) (v w : Setting) → when_true b v ≡ some w → (b ≡ true) × (v ≡ w)
when_true-some true v w h = (refl, ap (λ o. elim o [ none ↦ v | some x ↦ x ]) h)
when_true-some false v w h = cc

check_field-FieldOk : (f : FieldSpec) (v w : Setting) → check_field f v ≡ some w → FieldOk f w
unfolding check_field
check_field-FieldOk boolean_field (scalar (bool b)) w h =
    subst (FieldOk boolean_field) (ap (λ o. elim o [ none ↦ scalar (bool b) | some x ↦ x ]) h) tt
check_field-FieldOk (int_field least most) (scalar (num n)) w h =
    let (t, e) = when_true-some (z_leb least n && z_leb n most) (scalar (num n)) w h in
    subst (FieldOk (int_field least most)) e (ground arith, ground arith)
check_field-FieldOk (string_field max_len pattern nullable listed) (scalar null) w h =
    let (t, e) = when_true-some nullable (scalar null) w h in
    subst (FieldOk (string_field max_len pattern nullable listed)) e t
check_field-FieldOk (string_field max_len pattern nullable listed) (scalar (str s)) w h =
    let (t, e) =
      when_true-some (fits max_len s && passes_test pattern s && is_listed listed s)
        (scalar (str (trim s))) w h in
    subst (FieldOk (string_field max_len pattern nullable listed)) e
      (s, refl, text-TextOk max_len pattern listed s (ground arith) (ground arith) (ground arith))
check_field-FieldOk (string_list max_items max_len item allowed) (array vs) w h =
    let (t, e) =
      when_true-some (leb (length vs) max_items && all (entry_ok max_len item allowed) vs)
        (array (distinct_from [] vs)) w h in
    subst (FieldOk (string_list max_items max_len item allowed)) e (
      ground (arith, length-distinct_from [] vs),
      All-EntryOk max_len item allowed (distinct_from [] vs)
          (All-distinct_from (entry_ok max_len item allowed) [] vs (ground arith)),
    )
check_field-FieldOk f v w h = cc

-- Each entry has the key of a field and what its type asks.
abbrev pub EntriesOk : SectionSpec → Assoc Setting → Type 0
EntriesOk spec [] = Unit
EntriesOk spec ((k, v) ∷ out) =
    ((f : FieldSpec) × (lookup k spec ≡ some f) × FieldOk f v) × EntriesOk spec out

insert-EntriesOk :
    (spec : SectionSpec) (k : String) (f : FieldSpec) (v : Setting) (out : Assoc Setting)
    → lookup k spec ≡ some f
    → FieldOk f v
    → EntriesOk spec out
    → EntriesOk spec (insert k v out)
unfolding insert
insert-EntriesOk spec k f v [] e ok rest = ((f, e, ok), tt)
insert-EntriesOk spec k f v ((j, w) ∷ out) e ok (here, rest) = elim (Bool-cases (text_eq j k)) [
  | inl same ↦
      let at_j : lookup j spec ≡ some f = ap (λ x. lookup x spec) ((text_eq_iff j k).0 same) ∙ e in
      rw same ((f, at_j, ok), rest)
  | inr apart ↦ rw apart (here, insert-EntriesOk spec k f v out e ok rest)
]

valid_same : (a b : Assoc Setting) → valid a ≡ valid b → a ≡ b
valid_same a b e =
    ap (λ c. elim c [ valid x ↦ x | not_an_object ↦ a | unknown_settings ks ↦ a | bad_field k ↦ a ])
      e

check_entries-EntriesOk :
    (spec : SectionSpec) (body out done : Assoc Setting)
    → EntriesOk spec out
    → check_entries spec body out ≡ valid done
    → EntriesOk spec done
unfolding check_entries
check_entries-EntriesOk spec [] out done ok h = subst (EntriesOk spec) (valid_same out done h) ok
check_entries-EntriesOk spec ((k, v) ∷ body) out done ok h = elim (Option-cases (lookup k spec)) [
  | inl missing ↦ let wrong : bad_field k ≡ valid done = rw (missing, check_entries) at h in cc
  | inr (f, e) ↦ elim (Option-cases (check_field f v)) [
    | inl refused ↦ let wrong : bad_field k ≡ valid done = rw (e, refused, check_entries) at h in cc
    | inr (w, kept) ↦
        check_entries-EntriesOk spec body (insert k w out) done
          (insert-EntriesOk spec k f w out e (check_field-FieldOk f v w kept) ok)
          (rw (e, kept, check_entries) at h)
  ]
]

-- Each entry of a section that is accepted has a key of the spec and a value of its field's type,
-- within the field's bounds: integers between the two; texts the trimmed form of one that has at
-- most the allowed number of UTF-16 units and no NUL, passes the pattern and stands in the list if
-- these are given; lists of at most so many entries, each a text of that kind that is not empty.
pub validate_section-EntriesOk :
    (spec : SectionSpec) (body : Option (Assoc Setting)) (done : Assoc Setting)
    → validate_section spec body ≡ valid done
    → EntriesOk spec done
unfolding validate_section
validate_section-EntriesOk spec none done h = cc
validate_section-EntriesOk spec (some body) done h = known (unknown_keys spec body) h
  where
    known :
        (ks : List String)
        → unless_unknown ks (check_entries spec body []) ≡ valid done
        → EntriesOk spec done
    known [] e = check_entries-EntriesOk spec body [] done tt e
    known (k ∷ ks) e = cc
