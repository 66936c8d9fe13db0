-- ===== src/Authz/Check/Goals.antt =====
-- The goals that the walks of a rule of crates/saffui-core/src/authz/relations/check.rs are for.
use mathlib.Core.List.{Memᴰ}
use saffui.Base.{
  String, ◌≡◌, refl, none, some, List, [], ◌∷◌, inl, inr, Option-cases, pair_keys, text_keys,
}
use saffui.Authz.Schema.{ObjectRef, SubjectRef, Rule, Rules, nil, cons, object_keys}
use saffui.Authz.Check.Spec.{Goal, rule_list}

-- The goals of the members that the subjects name.
abbrev pub named_goals : List SubjectRef → List Goal
named_goals [] = []
named_goals (named ∷ rest) = elim named.member [
  | some member ↦ Goal.member named.object member ∷ named_goals rest
  | none ↦ named_goals rest
]

pub named_goals-mem :
    (s : SubjectRef) (n : String) (ss : List SubjectRef)
    → Memᴰ s ss
    → s.member ≡ some n
    → Memᴰ (Goal.member s.object n) (named_goals ss)
named_goals-mem s n [] m e = elim m [ ]
named_goals-mem s n (x ∷ ss) (Memᴰ.head q) e =
    let e' : x.member ≡ some n = cc in rw (e', named_goals) (Memᴰ.head (cc))
named_goals-mem s n (x ∷ ss) (Memᴰ.tail m) e = elim (Option-cases x.member) [
  | inl q ↦ rw (q, named_goals) (named_goals-mem s n ss m e)
  | inr (k, q) ↦ rw (q, named_goals) (Memᴰ.tail (named_goals-mem s n ss m e))
]

abbrev Named : List SubjectRef → Goal → Type 0
Named ss g =
    (s : SubjectRef) × (n : String) × Memᴰ s ss × (s.member ≡ some n) × (g ≡ Goal.member s.object n)

Named-later : (x : SubjectRef) (ss : List SubjectRef) (g : Goal) → Named ss g → Named (x ∷ ss) g
Named-later x ss g (s, n, m, e, q) = (s, n, Memᴰ.tail m, e, q)

Named-first :
    (x : SubjectRef) (n : String) (ss : List SubjectRef) (g : Goal)
    → x.member ≡ some n
    → (Memᴰ g (named_goals ss) → Named ss g)
    → Memᴰ g (Goal.member x.object n ∷ named_goals ss)
    → Named (x ∷ ss) g
Named-first x n ss g e ih (Memᴰ.head q) = (x, n, Memᴰ.head refl, e, q)
Named-first x n ss g e ih (Memᴰ.tail m) = Named-later x ss g (ih m)

pub mem-named_goals : (ss : List SubjectRef) (g : Goal) → Memᴰ g (named_goals ss) → Named ss g
mem-named_goals [] g m = elim m [ ]
mem-named_goals (x ∷ ss) g m = elim (Option-cases x.member) [
  | inl q ↦ Named-later x ss g (mem-named_goals ss g (rw (q, named_goals) at m))
  | inr (n, q) ↦ Named-first x n ss g q (mem-named_goals ss g) (rw (q, named_goals) at m)
]

abbrev pub object_goals : String → List SubjectRef → List Goal
object_goals m [] = []
object_goals m (s ∷ ss) = Goal.member s.object m ∷ object_goals m ss

pub object_goals-mem :
    (m : String) (s : SubjectRef) (ss : List SubjectRef)
    → Memᴰ s ss
    → Memᴰ (Goal.member s.object m) (object_goals m ss)
object_goals-mem m s [] k = elim k [ ]
object_goals-mem m s (x ∷ ss) (Memᴰ.head e) = Memᴰ.head (cc)
object_goals-mem m s (x ∷ ss) (Memᴰ.tail k) = Memᴰ.tail (object_goals-mem m s ss k)

pub mem-object_goals :
    (m : String) (g : Goal) (ss : List SubjectRef)
    → Memᴰ g (object_goals m ss)
    → (s : SubjectRef) × Memᴰ s ss × (g ≡ Goal.member s.object m)
mem-object_goals m g [] k = elim k [ ]
mem-object_goals m g (x ∷ ss) (Memᴰ.head e) = (x, Memᴰ.head refl, e)
mem-object_goals m g (x ∷ ss) (Memᴰ.tail k) =
    let (s, h, e) = mem-object_goals m g ss k in (s, Memᴰ.tail h, e)

abbrev pub rule_goals : ObjectRef → Rules → List Goal
rule_goals o nil = []
rule_goals o (cons r rs) = Goal.rule o r ∷ rule_goals o rs

pub rule_goals-mem :
    (o : ObjectRef) (r : Rule) (rs : Rules)
    → Memᴰ r (rule_list rs)
    → Memᴰ (Goal.rule o r) (rule_goals o rs)
rule_goals-mem o r nil k = elim k [ ]
rule_goals-mem o r (cons x rs) (Memᴰ.head e) = Memᴰ.head (cc)
rule_goals-mem o r (cons x rs) (Memᴰ.tail k) = Memᴰ.tail (rule_goals-mem o r rs k)

pub mem-rule_goals :
    (o : ObjectRef) (g : Goal) (rs : Rules)
    → Memᴰ g (rule_goals o rs)
    → (r : Rule) × Memᴰ r (rule_list rs) × (g ≡ Goal.rule o r)
mem-rule_goals o g nil k = elim k [ ]
mem-rule_goals o g (cons x rs) (Memᴰ.head e) = (x, Memᴰ.head refl, e)
mem-rule_goals o g (cons x rs) (Memᴰ.tail k) =
    let (r, h, e) = mem-rule_goals o g rs k in (r, Memᴰ.tail h, e)
