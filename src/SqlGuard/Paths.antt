-- ===== src/SqlGuard/Paths.antt =====
-- Quoting a dotted path loses nothing. (sqlGuard.ts)
use zero_datafabric.Common.{
  map, all, ◌≡◌, refl, sym, ap, subst, ◌∙◌, inl, inr, Bool-cases, String, Bool, true, false, not,
  ◌&&◌, ◌||◌, Option, none, some, List, [], ◌∷◌, arith, if◌then◌else◌, ◌==◌, ltb, length, concat,
  text_eq, text_eq_iff,
}
use zero_datafabric.NetGuard.Addresses.{split}
use zero_datafabric.Tenants.{all_word, is_ident, assert_ident}
use text.Mathlib.TextEquality.{Char-path}
use Prim.Native.Char.{Char, code}
use zero_datafabric.SqlGuard.Names.{
  is_plain, parts_ok, is_dotted_ident, join_dots, quote_part, quote_parts, joined, quote_dotted,
}

-- The text without its double quotes.
abbrev pub unquoted : String → String
unquoted String.[] = String.[]
unquoted (String.◌∷◌ c s) = if code c == 34 then unquoted s else String.◌∷◌ c (unquoted s)

unquoted-concat : (s t : String) → unquoted (concat s t) ≡ concat (unquoted s) (unquoted t)
unquoted-concat String.[] t = refl
unquoted-concat (String.◌∷◌ c s) t = elim (Bool-cases (code c == 34)) [
  | inl e ↦ rw e (unquoted-concat s t)
  | inr e ↦ rw e (ap (λ x. String.◌∷◌ c x) (unquoted-concat s t))
]

join_dots-add :
    (x : Char) (ps : List String)
    → join_dots (elim ps [ [] ↦ String.◌∷◌ x "" ∷ [] | p ∷ qs ↦ String.◌∷◌ x p ∷ qs ])
      ≡ String.◌∷◌ x (join_dots ps)
join_dots-add x [] = refl
join_dots-add x (p ∷ []) = refl
join_dots-add x (p ∷ q ∷ ps) = refl

split-cons : (c : Char) (s : String) → (p : String) × (ps : List String) × (split c s ≡ p ∷ ps)
unfolding split
split-cons c String.[] = ("", [], refl)
split-cons c (String.◌∷◌ x s) = elim (Bool-cases (code x == code c)) [
  | inl e ↦ ("", split c s, rw e refl)
  | inr e ↦ let (p, ps, k) = split-cons c s in (String.◌∷◌ x p, ps, rw (e, k, split) refl)
]

same_char : (c d : Char) → (code c == code d) ≡ true → c ≡ d
same_char c d h = Char-path c d (ground arith)

join_dots-split : (s : String) → join_dots (split "." s) ≡ s
unfolding split
join_dots-split String.[] = refl
join_dots-split (String.◌∷◌ x s) = elim (Bool-cases (code x == 46)) [
  | inl e ↦
      let (p, ps, k) = split-cons "." s in
      let rest : join_dots (p ∷ ps) ≡ s = ap join_dots (sym k) ∙ join_dots-split s in
      let dot : x ≡ "." = same_char x "." e in
      rw (e, k, split) (ap (λ t. String.◌∷◌ "." t) rest ∙ ap (λ c. String.◌∷◌ c s) (sym dot))
  | inr e ↦ rw e (join_dots-add x (split "." s) ∙ ap (λ t. String.◌∷◌ x t) (join_dots-split s))
]

unquoted-all_word : (s : String) → all_word s ≡ true → unquoted s ≡ s
unquoted-all_word String.[] h = refl
unquoted-all_word (String.◌∷◌ c s) h =
    let no_quote : (code c == 34) ≡ false = ground arith in
    let later : all_word s ≡ true = ground arith in
    rw no_quote (ap (λ t. String.◌∷◌ c t) (unquoted-all_word s later))

-- A part of a path as it is written: a star as it is, a name between quotes.
abbrev pub in_quotes : String → String
in_quotes p = if text_eq p "*" then "*" else concat "\"" (concat p "\"")

abbrev pub all_in_quotes : List String → List String
all_in_quotes ps = map in_quotes ps

-- The text has no dot.
abbrev no_dot : String → Bool
no_dot String.[] = true
no_dot (String.◌∷◌ c s) = not (code c == 46) && no_dot s

split-no_dot : (s : String) → no_dot s ≡ true → split "." s ≡ s ∷ []
unfolding split
split-no_dot String.[] h = refl
split-no_dot (String.◌∷◌ c s) h =
    let here : (code c == 46) ≡ false = ground arith in
    let rest : split "." s ≡ s ∷ [] = split-no_dot s (ground arith) in rw (here, rest, split) refl

split-concat :
    (p s : String) → no_dot p ≡ true → split "." (concat p (concat "." s)) ≡ p ∷ split "." s
unfolding split
split-concat String.[] s h = refl
split-concat (String.◌∷◌ c p) s h =
    let here : (code c == 46) ≡ false = ground arith in
    let rest : split "." (concat p (concat "." s)) ≡ p ∷ split "." s =
      split-concat p s (ground arith) in
    rw (here, rest, split) refl

split-join_dots :
    (p : String) (ps : List String)
    → all no_dot (p ∷ ps) ≡ true
    → split "." (join_dots (p ∷ ps)) ≡ p ∷ ps
split-join_dots p [] h = split-no_dot p (ground arith)
split-join_dots p (q ∷ ps) h =
    split-concat p (join_dots (q ∷ ps)) (ground arith)
    ∙ ap (λ t. p ∷ t) (split-join_dots q ps (ground arith))

no_dot-concat : (s t : String) → no_dot s ≡ true → no_dot t ≡ true → no_dot (concat s t) ≡ true
no_dot-concat String.[] t h k = k
no_dot-concat (String.◌∷◌ c s) t h k =
    let rest : no_dot (concat s t) ≡ true = no_dot-concat s t (ground arith) k in ground arith

no_dot-in_quotes : (p : String) → no_dot p ≡ true → no_dot (in_quotes p) ≡ true
no_dot-in_quotes p h = elim (Bool-cases (text_eq p "*")) [
  | inl e ↦ rw e refl
  | inr e ↦ rw e (no_dot-concat p "\"" h refl)
]

no_dot-all : (ps : List String) → all no_dot ps ≡ true → all no_dot (all_in_quotes ps) ≡ true
no_dot-all [] h = refl
no_dot-all (p ∷ ps) h =
    ground (arith, no_dot-in_quotes p (ground arith), no_dot-all ps (ground arith))

parts_without_dots : (s : String) → all no_dot (split "." s) ≡ true
unfolding split
parts_without_dots String.[] = refl
parts_without_dots (String.◌∷◌ x s) = elim (Bool-cases (code x == 46)) [
  | inl e ↦ rw e (parts_without_dots s)
  | inr e ↦
      let (p, ps, k) = split-cons "." s in
      let rest : all no_dot (p ∷ ps) ≡ true =
        subst (λ r. all no_dot r ≡ true) k (parts_without_dots s) in
      rw (e, k, split) (ground arith)
]

plain_is_ident : (p : String) → is_plain p ≡ true → is_ident p ≡ true
plain_is_ident String.[] h = cc
plain_is_ident (String.◌∷◌ c s) h = h

plain_all_word : (p : String) → is_plain p ≡ true → all_word p ≡ true
plain_all_word String.[] h = cc
plain_all_word (String.◌∷◌ c s) h = ground arith

concat-nil : (t : String) → concat t "" ≡ t
concat-nil String.[] = refl
concat-nil (String.◌∷◌ d t) = ap (λ x. String.◌∷◌ d x) (concat-nil t)

-- A part that may stand is written, and its quotes are all that is added.
part_lem :
    (several : Bool) (p : String)
    → is_plain p || (text_eq p "*" && several) ≡ true
    → (quote_part p ≡ some (in_quotes p)) × (unquoted (in_quotes p) ≡ p)
unfolding assert_ident
part_lem several p h = elim (Bool-cases (text_eq p "*")) [
  | inl e ↦ (rw e refl, rw e (sym ((text_eq_iff p "*").0 e)))
  | inr e ↦
      let plain : is_plain p ≡ true = ground arith in
      (
        rw (e, plain_is_ident p plain) refl,
        rw e (
            unquoted-concat p "\""
            ∙ ap (λ t. concat t "") (unquoted-all_word p (plain_all_word p plain))
            ∙ concat-nil p),
      )
]

parts_lem :
    (several : Bool) (p : String) (ps : List String)
    → parts_ok several (p ∷ ps) ≡ true
    → (quote_parts (p ∷ ps) ≡ some (all_in_quotes (p ∷ ps)))
      × (unquoted (join_dots (all_in_quotes (p ∷ ps))) ≡ join_dots (p ∷ ps))
unfolding quote_parts
parts_lem several p [] h = let (e, u) = part_lem several p h in (rw e refl, u)
parts_lem several p (p' ∷ ps) h =
    let first : is_plain p || (text_eq p "*" && several) ≡ true = ground arith in
    let others : parts_ok several (p' ∷ ps) ≡ true = ground arith in
    let (e, u) = part_lem several p first in
    let (e', u') = parts_lem several p' ps others in
    let rest : String = join_dots (all_in_quotes (p' ∷ ps)) in
    (
      rw (quote_parts, e, e') refl,
      unquoted-concat (in_quotes p) (concat "." rest)
          ∙ ap (λ t. concat t (String.◌∷◌ "." (unquoted rest))) u
          ∙ ap (λ t. concat p (String.◌∷◌ "." t)) u',
    )

-- The path as it is written.
abbrev pub written : String → String
written v = join_dots (all_in_quotes (split "." v))

path_lem :
    (several : Bool) (v : String)
    → parts_ok several (split "." v) ≡ true
    → (quote_parts (split "." v) ≡ some (all_in_quotes (split "." v))) × (unquoted (written v) ≡ v)
path_lem several v h =
    let (p, ps, k) = split-cons "." v in
    let (e, u) = parts_lem several p ps (subst (λ x. parts_ok several x ≡ true) k h) in
    (
      ap quote_parts k ∙ e ∙ ap (λ x. some (all_in_quotes x)) (sym k),
      ap (λ x. unquoted (join_dots (all_in_quotes x))) k
          ∙ u
          ∙ ap join_dots (sym k)
          ∙ join_dots-split v,
    )

split-written : (v : String) → split "." (written v) ≡ all_in_quotes (split "." v)
split-written v =
    let (p, ps, k) = split-cons "." v in
    let free : all no_dot (p ∷ ps) ≡ true =
      subst (λ x. all no_dot x ≡ true) k (parts_without_dots v) in
    ap (λ x. split "." (join_dots (all_in_quotes x))) k
    ∙ split-join_dots (in_quotes p) (all_in_quotes ps) (no_dot-all (p ∷ ps) free)
    ∙ ap all_in_quotes (sym k)

-- A dotted path is written part by part: the parts of the result, between its dots, are those of the
-- path in order, each name between two quotes and a star as it is; without the quotes the result is
-- the path again.
pub quote_dotted-written :
    (v : String)
    → is_dotted_ident v ≡ true
    → (quote_dotted v ≡ some (written v))
      × (split "." (written v) ≡ all_in_quotes (split "." v))
      × (unquoted (written v) ≡ v)
unfolding quote_dotted is_dotted_ident split
quote_dotted-written v h = elim (Bool-cases (text_eq v "*")) [
  | inl e ↦
      let star : v ≡ "*" = (text_eq_iff v "*").0 e in
      (
        rw (h, e) (ap (λ x. some (written x)) (sym star)),
        split-written v,
        ap (λ x. unquoted (written x)) star ∙ sym star,
      )
  | inr e ↦
      let several : Bool = ltb 1 (length (split "." v)) in
      let fine : parts_ok (ltb 1 (length (split "." v))) (split "." v) ≡ true = ground arith in
      let (quoted_all, same) = path_lem several v fine in
      (
        taken (is_dotted_ident v) (text_eq v "*") (joined (quote_parts (split "." v))) h e
            ∙ ap joined quoted_all,
        split-written v,
        same,
      )
]
  where
    taken :
        (dotted star : Bool) (o : Option String)
        → dotted ≡ true
        → star ≡ false
        → (if not dotted then none else if star then some "*" else o) ≡ o
    taken true false o h e = refl
    taken true true o h e = cc
    taken false star o h e = cc
