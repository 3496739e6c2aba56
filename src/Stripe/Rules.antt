-- ===== src/Stripe/Rules.antt =====
-- packages/stripe/src/index.ts: what the translator grants, and for how long a persisted state may serve.
use authorization_core.Common.{
  Bool, true, false, not, ◌&&◌, ◌||◌, Option, none, some, List, [], ◌∷◌, ◌≡◌, refl, sym, ◌∙◌, subst,
  ap, arith, any, if◌then◌else◌, inl, inr, Bool-cases, ok, >>=-eq-ok, >>-eq-ok, guard-eq-ok,
  ok-injective,
}
use authorization_core.Text.{Text, text, same, includes, distinct}
use authorization_core.Text.Order.{same_refl, eq_of_same}
use authorization_core.Text.Sorting.{
  IsSorted, sort-IsSorted, distinct-IsDistinct, includes-sort, includes-distinct,
}
use authorization_core.Core.Sets.{includes-append}
use authorization_core.Js.{Value}
use authorization_core.Stripe.{
  Kind, feature, price, same_kind, CompiledRule, compile_rules, compile_from, check_duplicates,
  ids_of, refused_unless, namespace_get, or_nothing, granted_by, translate, read_active_facts,
  read_dense_array,
}

-- Whether a rule of the kind gives an entitlement for the identifier.
pub gives : List CompiledRule → Kind → Text → Text → Bool
gives rules kind id p =
    any (λ rule. same_kind rule.kind kind && same rule.id id && includes rule.entitlements p) rules

-- What follows when no identifier is repeated.
checked_head :
    (fs ps : List Text) (rule : CompiledRule) (rules : List CompiledRule)
    → check_duplicates fs ps (rule ∷ rules) ≡ ok tt
    → (includes (ids_of rule.kind fs ps) rule.id ≡ false)
      × ((elim rule.kind [
        | feature ↦ check_duplicates (rule.id ∷ fs) ps rules
        | price ↦ check_duplicates fs (rule.id ∷ ps) rules
      ])
          ≡ ok tt)
unfolding check_duplicates refused_unless
checked_head fs ps rule rules h =
    let (new, rest) = guard-eq-ok (not (includes (ids_of rule.kind fs ps) rule.id)) _ _ h in
    (ground arith, rest)

-- The rest is checked with what was seen before and the identifier of the rule.
rest_checked :
    (fs ps : List Text) (rk : Kind) (rid : Text) (rules : List CompiledRule)
    → (elim rk [
      | feature ↦ check_duplicates (rid ∷ fs) ps rules
      | price ↦ check_duplicates fs (rid ∷ ps) rules
    ])
      ≡ ok tt
    → (fs' ps' : List Text) × (check_duplicates fs' ps' rules ≡ ok tt)
      × (includes (ids_of rk fs' ps') rid ≡ true)
      × ((kind : Kind) (id : Text)
          → includes (ids_of kind fs ps) id ≡ true
          → includes (ids_of kind fs' ps') id ≡ true)
unfolding ids_of includes
rest_checked fs ps feature rid rules h = (rid ∷ fs, ps, h, ground (arith, same_refl rid), kept)
  where
    kept :
        (kind : Kind) (id : Text)
        → includes (ids_of kind fs ps) id ≡ true
        → includes (ids_of kind (rid ∷ fs) ps) id ≡ true
    kept feature id k = ground arith
    kept price id k = k
rest_checked fs ps price rid rules h = (fs, rid ∷ ps, h, ground (arith, same_refl rid), kept)
  where
    kept :
        (kind : Kind) (id : Text)
        → includes (ids_of kind fs ps) id ≡ true
        → includes (ids_of kind fs (rid ∷ ps)) id ≡ true
    kept feature id k = k
    kept price id k = ground arith

-- A rule for the identifier of the kind.
abbrev is_for : Kind → Text → CompiledRule → Bool
is_for kind id rule = same_kind rule.kind kind && same rule.id id

not_for :
    (fs ps : List Text) (rk kind : Kind) (rid id : Text)
    → includes (ids_of rk fs ps) rid ≡ false
    → includes (ids_of kind fs ps) id ≡ true
    → (same_kind rk kind && same rid id) ≡ false
unfolding ids_of same_kind
not_for fs ps feature feature rid id h k = ground (arith, eq_of_same rid id)
not_for fs ps feature price rid id h k = refl
not_for fs ps price feature rid id h k = refl
not_for fs ps price price rid id h k = ground (arith, eq_of_same rid id)

-- An identifier that was seen is the identifier of no later rule of its kind.
none_for :
    (fs ps : List Text) (rules : List CompiledRule) (kind : Kind) (id : Text)
    → check_duplicates fs ps rules ≡ ok tt
    → includes (ids_of kind fs ps) id ≡ true
    → any (is_for kind id) rules ≡ false
none_for fs ps [] kind id h k = refl
none_for fs ps (rule ∷ rules) kind id h k =
    let (new, rest) = checked_head fs ps rule rules h in
    let (fs', ps', checked, mine, kept) = rest_checked fs ps rule.kind rule.id rules rest in
    let here = not_for fs ps rule.kind kind rule.id id new k in
    let later = none_for fs' ps' rules kind id checked (kept kind id k) in rw (here, later)

unnamed :
    (rules : List CompiledRule) (kind : Kind) (id p : Text)
    → any (is_for kind id) rules ≡ false
    → (namespace_get rules kind id ≡ none) × (gives rules kind id p ≡ false)
unfolding namespace_get gives
unnamed [] kind id p h = (refl, refl)
unnamed (rule ∷ rules) kind id p h =
    let (nothing, ungiven) = unnamed rules kind id p (ground arith) in
    let not_here : is_for kind id rule ≡ false = ground arith in
    (rw (nothing, not_here), rw (ungiven, not_here))

same_kind-eq : (k l : Kind) → same_kind k l ≡ true → k ≡ l
unfolding same_kind
same_kind-eq feature feature h = refl
same_kind-eq price price h = refl
same_kind-eq feature price h = absurd (cc)
same_kind-eq price feature h = absurd (cc)

or_false : (b : Bool) → (b || false) ≡ b
or_false true = refl
or_false false = refl

-- A rule for another identifier changes nothing.
not_here :
    (rule : CompiledRule) (found : Option (List Text)) (kind : Kind) (id p : Text)
    → is_for kind id rule ≡ false
    → includes
        (or_nothing (elim found [
          | some entitlements ↦ some entitlements
          | none ↦ if is_for kind id rule then some rule.entitlements else none
        ]))
        p
      ≡ includes (or_nothing found) p
not_here rule none kind id p h = rw h
not_here rule (some es) kind id p h = refl

given_elsewhere :
    (rule : CompiledRule) (kind : Kind) (id p : Text) (later : Bool)
    → is_for kind id rule ≡ false
    → (same_kind rule.kind kind && same rule.id id && includes rule.entitlements p || later) ≡ later
given_elsewhere rule kind id p later h = ground arith

-- Without repeated identifiers, what a lookup finds is what some rule gives.
namespace_get-gives :
    (fs ps : List Text) (rules : List CompiledRule) (kind : Kind) (id p : Text)
    → check_duplicates fs ps rules ≡ ok tt
    → includes (or_nothing (namespace_get rules kind id)) p ≡ gives rules kind id p
unfolding namespace_get gives or_nothing includes
namespace_get-gives fs ps [] kind id p h = refl
namespace_get-gives fs ps (rule ∷ rules) kind id p h =
    let (new, rest) = checked_head fs ps rule rules h in
    let (fs', ps', checked, mine, kept) = rest_checked fs ps rule.kind rule.id rules rest in
    let ih = namespace_get-gives fs' ps' rules kind id p checked in
    elim (Bool-cases (is_for kind id rule)) [
      | inl here ↦
          let k = same_kind-eq rule.kind kind (ground arith) in
          let i = eq_of_same rule.id id (ground arith) in
          let seen_id =
            subst (λ l. includes (ids_of l fs' ps') id ≡ true) k
              (subst (λ t. includes (ids_of rule.kind fs' ps') t ≡ true) i mine) in
          let (nothing, ungiven) =
            unnamed rules kind id p (none_for fs' ps' rules kind id checked seen_id) in
          let a : same_kind rule.kind kind ≡ true = ground arith in
          let b : same rule.id id ≡ true = ground arith in
          rw (nothing, a, b, ungiven) (sym (or_false (includes rule.entitlements p)))
      | inr elsewhere ↦
          not_here rule (namespace_get rules kind id) kind id p elsewhere
          ∙ (ih ∙ sym (given_elsewhere rule kind id p (gives rules kind id p) elsewhere))
    ]

-- What the active identifiers grant is what the rules give for some of them.
granted_by-gives :
    (rules : List CompiledRule) (kind : Kind) (ids : List Text) (p : Text)
    → check_duplicates [] [] rules ≡ ok tt
    → includes (granted_by rules kind ids) p ≡ any (λ id. gives rules kind id p) ids
unfolding granted_by includes
granted_by-gives rules kind [] p h = refl
granted_by-gives rules kind (id ∷ ids) p h =
    includes-append (or_nothing (namespace_get rules kind id)) (granted_by rules kind ids) p
    ∙ rw (namespace_get-gives [] [] rules kind id p h, granted_by-gives rules kind ids p h)

-- Compiled rules repeat no identifier.
compiled_checked :
    (value : Value) (rules : List CompiledRule)
    → compile_rules value ≡ ok rules
    → check_duplicates [] [] rules ≡ ok tt
unfolding compile_rules
compiled_checked value rules h =
    let (supplied, read, more) = >>=-eq-ok (read_dense_array value (text "rules")) _ h in
    let (compiled, made, more) = >>=-eq-ok (compile_from 0 supplied) _ more in
    let (checked, last) = >>-eq-ok (check_duplicates [] [] compiled) _ more in
    subst (λ rs. check_duplicates [] [] rs ≡ ok tt) (ok-injective last) checked

-- The translator with compiled rules answers a sorted list, in which an entitlement stands exactly if
-- some rule gives it for one of the active identifiers and their kind.
pub translate_grants :
    (value facts : Value) (rules : List CompiledRule) (entitlements : List Text)
    → compile_rules value ≡ ok rules
    → translate rules facts ≡ ok entitlements
    → (kind : Kind) × (ids : List Text) × (read_active_facts facts ≡ ok (kind, ids))
      × IsSorted entitlements
      × ((p : Text) → includes entitlements p ≡ any (λ id. gives rules kind id p) ids)
unfolding translate
translate_grants value facts rules entitlements compiled h =
    let ((kind, ids), read, last) = >>=-eq-ok (read_active_facts facts) _ h in
    let granted = granted_by rules kind ids in
    let e = ok-injective last in
    (
      kind,
      ids,
      read,
      subst IsSorted e (sort-IsSorted (distinct granted) (distinct-IsDistinct granted)),
      λ p.
          ap (λ l. includes l p) (sym e)
          ∙ (includes-sort (distinct granted) p
              ∙ (includes-distinct granted p
                  ∙ granted_by-gives rules kind ids p (compiled_checked value rules compiled))),
    )
