-- ===== src/Chain/Features.antt =====
-- What a chain's flags and indices say of its rules, and what validation promises.
use bpfilter_study.Base.{
  ℕ, Bool, List, ◌||◌, false, get_elem?, true, ◌≡◌, ◌<◌, not, refl, some, sym, ◌∷◌, ◌%◌, ◌&&◌, ◌+◌,
  [], ◌^◌, arith, suc, zero, Option, ap, ◌∙◌, none,
}
use bpfilter_study.Chain.{
  Flavor, chain_new, chain_validate, hook_to_flavor, index_rules, matcher_features, rule_mark_get,
  rules_features, ChainFlags, Hook, Rule, chain_update_features, rule_mark_set, Verdict,
  rule_mark_is_set, Set, no_flags, tc_flavor, cgroup_flavor, is_xdp, is_nf, tc_ingress, tc_egress,
  cgroup_ingress, cgroup_egress, Chain, filled_chain,
}
use bpfilter_study.Matcher.{Matcher}
use mathlib.Core.Path.{subst}

abbrev pub any_mark : List Rule → Bool
any_mark [] = false
any_mark (r ∷ rs) = rule_mark_is_set r || any_mark rs

matcher-set_mark :
    (f : ChainFlags) (ms : List Matcher) → (matcher_features f ms).set_mark ≡ f.set_mark
unfolding matcher_features
matcher-set_mark f [] = refl
matcher-set_mark f (m ∷ ms) = matcher-set_mark _ ms

or_false : (b : Bool) → (b || false) ≡ b
or_false true = refl
or_false false = refl

or_assoc : (a b c : Bool) → ((a || b) || c) ≡ (a || (b || c))
or_assoc true b c = refl
or_assoc false b c = refl

rules-set_mark :
    (f : ChainFlags) (rs : List Rule) → (rules_features f rs).set_mark ≡ (f.set_mark || any_mark rs)
unfolding rules_features chain_update_features
rules-set_mark f [] = sym (or_false f.set_mark)
rules-set_mark f (r ∷ rs) =
    rules-set_mark (chain_update_features f r) rs
    ∙ ap (λ b. b || any_mark rs) (matcher-set_mark _ r.matchers)
    ∙ or_assoc f.set_mark (rule_mark_is_set r) (any_mark rs)

-- The flavor has an operation to set the mark, or no rule sets one.
abbrev pub marks_supported : Flavor → List Rule → Bool
marks_supported tc_flavor rs = true
marks_supported cgroup_flavor rs = true
marks_supported _ rs = not (any_mark rs)

by_hook :
    (h : Hook) (b g : Bool) (rs : List Rule)
    → b ≡ any_mark rs
    → (not (b && (is_xdp h || is_nf h)) && not (g && is_xdp h)) ≡ true
    → marks_supported (hook_to_flavor h) rs ≡ true
unfolding hook_to_flavor
by_hook tc_ingress b g rs e v = refl
by_hook tc_egress b g rs e v = refl
by_hook cgroup_ingress b g rs e v = refl
by_hook cgroup_egress b g rs e v = refl
by_hook _ true g rs e v = cc
by_hook _ false g rs e v = rw (← e) refl

-- The chain that there was memory for.
new-filled_chain :
    (o n : Bool) (h : Hook) (policy : Verdict) (sets : List Set) (rs : List Rule) (c : Chain)
    → chain_new o n h policy sets rs ≡ some c
    → filled_chain h policy sets rs ≡ c
unfolding chain_new
new-filled_chain true true h policy sets rs c e =
    ap (λ m. elim m [ none ↦ filled_chain h policy sets rs | some d ↦ d ]) e
new-filled_chain true false h policy sets rs c e = cc
new-filled_chain false n h policy sets rs c e = cc

-- A chain that `bf_chain_new()` has made and `bf_chain_validate()` accepts sets marks only for a
-- flavor that can.
pub chain_validate-marks_supported :
    (o n : Bool) (h : Hook) (policy : Verdict) (sets : List Set) (rs : List Rule) (c : Chain)
    → chain_new o n h policy sets rs ≡ some c
    → chain_validate c ≡ true
    → marks_supported (hook_to_flavor h) rs ≡ true
unfolding chain_validate
chain_validate-marks_supported o n h policy sets rs c e v =
    filled
      (subst (λ d. chain_validate d ≡ true) (sym (new-filled_chain o n h policy sets rs c e)) v)
  where
    filled :
        chain_validate (filled_chain h policy sets rs) ≡ true
        → marks_supported (hook_to_flavor h) rs ≡ true
    filled w = by_hook h _ _ rs (rules-set_mark no_flags rs) w

abbrev with_index : ℕ → Option Rule → Option Rule
with_index n (some r) = some (record r { index = n })
with_index n none = none

index-at :
    (n : ℕ) (rs : List Rule) (i : ℕ) (r : Rule)
    → get_elem? rs i ≡ some r
    → get_elem? (index_rules n rs) i ≡ some (record r { index = (n + i) % 2 ^ 32 })
unfolding index_rules
index-at n [] i r h = cc
index-at n (x ∷ rs) zero r h =
    let e : n + 0 ≡ n = omega arith in rw e (ap (with_index (n % 2 ^ 32)) h)
index-at n (x ∷ rs) (suc i) r h =
    let e : n + 1 + i ≡ n + suc i = omega arith in rw e at (index-at (n + 1) rs i r h)

-- The rules of a new chain are the rules given, each with its position as its index.
pub chain_new-index :
    (o n : Bool) (h : Hook) (policy : Verdict) (sets : List Set) (rs : List Rule) (c : Chain)
    (i : ℕ) (r : Rule)
    → chain_new o n h policy sets rs ≡ some c
    → get_elem? rs i ≡ some r
    → get_elem? c.rules i ≡ some (record r { index = i % 2 ^ 32 })
chain_new-index o n h policy sets rs c i r e f =
    let z : 0 + i ≡ i = omega arith in
    let at : get_elem? (index_rules 0 rs) i ≡ some (record r { index = i % 2 ^ 32 }) =
      rw z at (index-at 0 rs i r f) in
    subst (λ (d : Chain). get_elem? d.rules i ≡ some (record r { index = i % 2 ^ 32 }))
      (new-filled_chain o n h policy sets rs c e) at

-- The mark that has been set is the mark that is read, and counts as set.
pub rule_mark_get-set :
    (r : Rule) (mark : ℕ)
    → mark < 2 ^ 32
    → (rule_mark_get (rule_mark_set r mark) ≡ mark)
      × (rule_mark_is_set (rule_mark_set r mark) ≡ true)
unfolding rule_mark_get rule_mark_set rule_mark_is_set
rule_mark_get-set r mark h = (omega arith, ground arith)
