-- ===== src/Policy/Blanking/Merges.antt =====
-- The merges of policies into a filter, without its texts. (policy.service.ts)
use zero_datafabric.Common.{
  ◌≡◌, refl, sym, ap, ◌∙◌, inl, inr, Bool-cases, String, true, false, Option, none, some, List, [],
  ◌∷◌, undefined, null, bool, num, str, Operand, nothing, one, many, lookup, if_some, map_values,
  map_values-insert, map_values-assign, lookup-map_values, insert, assign,
}
use zero_datafabric.Policy.{
  Session, StoredPolicy, Conditions, Filter, UserCondition, bare, operators, UserFilter,
  role_matches, conditions_of, compile_filter, merge_fragment, Resolved, apply_policy, resolve_from,
  resolve, is_void, combine, merge_into_filter,
}
use zero_datafabric.Policy.Blanking.{
  blank, blank_filter, blank_condition, blank_user, blank_session, blank-lookup, blank-compile_from,
}

blank-merge_fragment :
    (f g : Filter)
    → blank_filter (merge_fragment f g) ≡ merge_fragment (blank_filter f) (blank_filter g)
unfolding merge_fragment
blank-merge_fragment f [] = refl
blank-merge_fragment f ((column, c) ∷ g) =
    blank-merge_fragment (insert column (assign (conditions_of (lookup column f)) c) f) g
    ∙ ap (λ r. merge_fragment r (blank_filter g))
        (map_values-insert (map_values blank) column (assign (conditions_of (lookup column f)) c) f
          ∙ ap (λ x. insert column x (blank_filter f))
              (map_values-assign blank (conditions_of (lookup column f)) c
                ∙ ap (λ x. assign x (map_values blank c)) (blank-lookup column f)))

same_role :
    (roles : List String) (s : Session)
    → role_matches roles (blank_session s) ≡ role_matches roles s
unfolding role_matches
same_role [] s = refl
same_role (r ∷ rs) s = refl

blank-apply_policy :
    (s : Session) (r t : Resolved) (p : StoredPolicy)
    → blank_filter r.filter ≡ blank_filter t.filter
    → blank_filter (apply_policy s r p).filter
      ≡ blank_filter (apply_policy (blank_session s) t p).filter
unfolding apply_policy compile_filter
blank-apply_policy s r t p e = elim (Bool-cases (role_matches p.roles s)) [
  | inl h ↦
      let also : role_matches p.roles (blank_session s) ≡ true = same_role p.roles s ∙ h in
      rw (h, also)
        (blank-merge_fragment r.filter (compile_filter p.row_filter s)
          ∙ ap (λ f. merge_fragment f (blank_filter (compile_filter p.row_filter s))) e
          ∙ ap (merge_fragment (blank_filter t.filter))
              (blank-compile_from p.row_filter s [] [] refl)
          ∙ sym (blank-merge_fragment t.filter (compile_filter p.row_filter (blank_session s))))
  | inr h ↦
      let also : role_matches p.roles (blank_session s) ≡ false = same_role p.roles s ∙ h in
      rw (h, also) e
]

blank-resolve_from :
    (s : Session) (r t : Resolved) (ps : List StoredPolicy)
    → blank_filter r.filter ≡ blank_filter t.filter
    → blank_filter (resolve_from s r ps).filter
      ≡ blank_filter (resolve_from (blank_session s) t ps).filter
unfolding resolve_from
blank-resolve_from s r t [] e = e
blank-resolve_from s r t (p ∷ ps) e =
    blank-resolve_from s (apply_policy s r p) (apply_policy (blank_session s) t p) ps
      (blank-apply_policy s r t p e)

is_void-blank : (o : Operand) → is_void (blank o) ≡ is_void o
is_void-blank nothing = refl
is_void-blank (many vs) = refl
is_void-blank (one undefined) = refl
is_void-blank (one null) = refl
is_void-blank (one (bool b)) = refl
is_void-blank (one (num n)) = refl
is_void-blank (one (str t)) = refl

blank-combine :
    (previous : Option UserCondition) (c : Conditions)
    → map_values blank (combine previous c)
      ≡ combine (if_some blank_condition previous) (map_values blank c)
unfolding combine
blank-combine none c = refl
blank-combine (some (operators cs)) c = map_values-assign blank cs c
blank-combine (some (bare v)) c = elim (Bool-cases (is_void v)) [
  | inl e ↦ rw (e, is_void-blank v ∙ e) refl
  | inr e ↦ rw (e, is_void-blank v ∙ e) (map_values-assign blank (("$eq", v) ∷ []) c)
]

blank-merge_into_filter :
    (out : UserFilter) (policy : Filter)
    → blank_user (merge_into_filter out policy)
      ≡ merge_into_filter (blank_user out) (blank_filter policy)
unfolding merge_into_filter
blank-merge_into_filter out [] = refl
blank-merge_into_filter out ((column, c) ∷ policy) =
    blank-merge_into_filter (insert column (operators (combine (lookup column out) c)) out) policy
    ∙ ap (λ r. merge_into_filter r (blank_filter policy))
        (map_values-insert blank_condition column (operators (combine (lookup column out) c)) out
          ∙ ap (λ x. insert column (operators x) (blank_user out))
              (blank-combine (lookup column out) c
                ∙ ap (λ x. combine x (map_values blank c))
                    (sym (lookup-map_values blank_condition column out))))

-- The caller's filter under the policies of a session.
abbrev pub governed : UserFilter → List StoredPolicy → Session → UserFilter
governed u ps s = merge_into_filter u (resolve s ps).filter

pub blank-governed :
    (u : UserFilter) (ps : List StoredPolicy) (s : Session)
    → blank_user (governed u ps s) ≡ blank_user (governed u ps (blank_session s))
unfolding resolve
blank-governed u ps s =
    let none_yet : Resolved = record { filter = []; masks = []; applied = [] } in
    blank-merge_into_filter u (resolve s ps).filter
    ∙ ap (merge_into_filter (blank_user u)) (blank-resolve_from s none_yet none_yet ps refl)
    ∙ sym (blank-merge_into_filter u (resolve (blank_session s) ps).filter)
