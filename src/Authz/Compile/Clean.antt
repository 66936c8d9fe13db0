-- ===== src/Authz/Compile/Clean.antt =====
-- What the checks of crates/saffui-core/src/authz/relations/schema.rs let pass without a fault.
use saffui.Base.{
  ℕ, ◌≡◌, refl, subst, String, Bool, true, false, none, some, List, [], ◌∷◌, text_keys, option_keys,
  arith, if◌then◌else◌, inl, inr, Option-cases, All, is_empty,
}
use saffui.Authz.Schema.{Rules, nil}
use saffui.Authz.Compile.{
  Message, no_member, no_relation, no_object, SchemaFaults, note, Expression, Expressions, no_terms,
  term, Definition, Subject, has_member, find_relation, objects_of, lacks_member, note_lacking,
  check_objects, check_arrow, check_member, compile_expression, compile_terms, has_rule, push_rule,
}

-- No fault was noted.
abbrev pub Clean : SchemaFaults → Type 0
Clean faults = faults.shown ≡ []

pub note-Clean :
    (faults : SchemaFaults) (line : ℕ) (message : Message) → Clean (note faults line message) → ⊥
unfolding note
note-Clean faults line message e = absurd (shown faults.shown refl)
  where
    shown : (fs : List _) → faults.shown ≡ fs → ⊥
    shown [] s = ground (arith, e, s)
    shown (f ∷ fs) s = ground (arith, e, s)

-- A check that notes nothing when its test is true.
pub unless-Clean :
    (b : Bool) (faults : SchemaFaults) (line : ℕ) (message : Message)
    → Clean (if b then faults else note faults line message)
    → Clean faults × (b ≡ true)
unless-Clean true faults line message e = (e, refl)
unless-Clean false faults line message e = absurd (note-Clean faults line message e)

pub when-Clean :
    (b : Bool) (faults : SchemaFaults) (line : ℕ) (message : Message)
    → Clean (if b then note faults line message else faults)
    → Clean faults × (b ≡ false)
when-Clean false faults line message e = (e, refl)
when-Clean true faults line message e = absurd (note-Clean faults line message e)

module _ (definitions : List Definition) where
  -- A walk through a relation: it names an object to walk to, and each of those has the member.
  pub record IsWalk (d : Definition) (name through : String) : Type 0 where
    pub subjects : List Subject
    pub relation : find_relation d.declarations through ≡ some subjects
    pub some_object : is_empty (objects_of subjects) ≡ false
    pub members : All (λ t. lacks_member definitions t name ≡ false) (objects_of subjects)

  mutual
    -- Every member an expression names is there to be named.
    pub AllNamed : Definition → Expression → Type 0
    AllNamed d (Expression.member name line) = has_member d.declarations name ≡ true
    AllNamed d (Expression.arrow name through line) = IsWalk d name through
    AllNamed d (Expression.union terms) = TermsNamed d terms
    AllNamed d (Expression.intersection terms) = TermsNamed d terms

    TermsNamed : Definition → Expressions → Type 0
    TermsNamed d no_terms = Unit
    TermsNamed d (term t ts) = AllNamed d t × TermsNamed d ts

  note_lacking-Clean :
      (objects : List String) (name : String) (line : ℕ) (faults : SchemaFaults)
      → Clean (note_lacking definitions objects name line faults)
      → Clean faults × All (λ t. lacks_member definitions t name ≡ false) objects
  unfolding note_lacking
  note_lacking-Clean [] name line faults e = (e, tt)
  note_lacking-Clean (t ∷ ts) name line faults e =
      let rest =
        note_lacking-Clean ts name line
          (if lacks_member definitions t name then note faults line (no_member t name) else faults)
          e in
      let here =
        when-Clean (lacks_member definitions t name) faults line (no_member t name) rest.0 in
      (here.0, (here.1, rest.1))

  check_arrow-Clean :
      (d : Definition) (name through : String) (line : ℕ) (faults : SchemaFaults)
      → Clean (check_arrow definitions d name through line faults)
      → Clean faults × IsWalk d name through
  unfolding check_arrow check_objects
  check_arrow-Clean d name through line faults e =
      elim (Option-cases (find_relation d.declarations through)) [
        | inl n ↦ absurd (
            note-Clean faults line (no_relation d.name through) (
              subst
                (λ o. Clean (elim o [
                  | none ↦ note faults line (no_relation d.name through)
                  | some subjects ↦
                      check_objects definitions (objects_of subjects) name through line faults
                ]))
                n e))
        | inr s ↦
            let objects = objects_of s.0 in
            let walked =
              note_lacking-Clean objects name line
                (if is_empty objects then note faults line (no_object through) else faults)
                (subst
                  (λ o. Clean (elim o [
                    | none ↦ note faults line (no_relation d.name through)
                    | some subjects ↦
                        check_objects definitions (objects_of subjects) name through line faults
                  ]))
                  s.1 e) in
            let named = when-Clean (is_empty objects) faults line (no_object through) walked.0 in
            (
              named.0,
              record { subjects = s.0; relation = s.1; some_object = named.1; members = walked.1 },
            )
      ]

  mutual
    unfolding compile_expression check_member AllNamed

    pub compile_expression-Clean :
        (d : Definition) (x : Expression) (faults : SchemaFaults)
        → Clean (compile_expression definitions d x faults).1
        → Clean faults × AllNamed d x
    compile_expression-Clean d (Expression.member name line) faults e =
        unless-Clean (has_member d.declarations name) faults line (no_member d.name name) e
    compile_expression-Clean d (Expression.arrow name through line) faults e =
        check_arrow-Clean d name through line faults e
    compile_expression-Clean d (Expression.union terms) faults e =
        compile_terms-Clean d terms nil faults e
    compile_expression-Clean d (Expression.intersection terms) faults e =
        compile_terms-Clean d terms nil faults e

    compile_terms-Clean :
        (d : Definition) (ts : Expressions) (rules : Rules) (faults : SchemaFaults)
        → Clean (compile_terms definitions d ts rules faults).1
        → Clean faults × TermsNamed d ts
    compile_terms-Clean d no_terms rules faults e = (e, tt)
    compile_terms-Clean d (term t ts) rules faults e =
        let compiled = compile_expression definitions d t faults in
        let rest =
          compile_terms-Clean d ts
            (if has_rule rules compiled.0 then rules else push_rule rules compiled.0) compiled.1
            e in
        let here = compile_expression-Clean d t faults rest.0 in (here.0, (here.1, rest.1))
