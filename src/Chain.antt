-- ===== src/Chain.antt =====
-- src/libbpfilter/rule.c, set.c, chain.c, verdict.c and hook.c: what a program is generated from.
pub mod Features
use bpfilter_study.Base.{
  ℕ, suc, ◌+◌, ◌/◌, ◌%◌, ◌^◌, ◌-◌, Bool, true, false, not, ◌||◌, ◌&&◌, Option, none, some, List, [],
  ◌∷◌, ◌++◌, ◌==◌, length, get_elem?, if◌then◌else◌,
}
use bpfilter_study.Matcher.{MatcherType, ip6_nexthdr, meta_mark, set, Matcher, payload_u32}

-- enum bf_verdict
pub data Verdict : Type 0 where
  accept drop continue : Verdict

-- enum bf_hook
pub data Hook : Type 0 where
  xdp tc_ingress nf_pre_routing nf_local_in cgroup_ingress cgroup_egress nf_forward nf_local_out
        nf_post_routing tc_egress :
      Hook

-- enum bf_flavor
pub data Flavor : Type 0 where
  tc_flavor nf_flavor xdp_flavor cgroup_flavor : Flavor

unfoldable pub hook_to_flavor : Hook → Flavor
hook_to_flavor xdp = xdp_flavor
hook_to_flavor tc_ingress = tc_flavor
hook_to_flavor nf_pre_routing = nf_flavor
hook_to_flavor nf_local_in = nf_flavor
hook_to_flavor cgroup_ingress = cgroup_flavor
hook_to_flavor cgroup_egress = cgroup_flavor
hook_to_flavor nf_forward = nf_flavor
hook_to_flavor nf_local_out = nf_flavor
hook_to_flavor nf_post_routing = nf_flavor
hook_to_flavor tc_egress = tc_flavor

-- struct bf_rule
pub record Rule : Type 0 where
  pub index : ℕ
  pub matchers : List Matcher
  pub log : ℕ
  pub mark : ℕ
  pub counters : Bool
  pub verdict : Verdict

-- `~BF_RULE_MARK_MASK | mark`, with a mark of 32 bits.
unfoldable pub rule_mark_set : Rule → ℕ → Rule
rule_mark_set r mark = record r { mark = 2 ^ 64 - 2 ^ 32 + mark }

unfoldable pub rule_mark_get : Rule → ℕ
rule_mark_get r = r.mark % 2 ^ 32

unfoldable pub rule_mark_is_set : Rule → Bool
rule_mark_is_set r = not (r.mark / 2 ^ 32 == 0)

-- struct bf_set; an element is the list of its bytes.
pub record Set : Type 0 where
  pub name : Option ℕ
  pub key : List MatcherType
  pub elems : List (List ℕ)
  pub elem_size : ℕ
  pub use_trie : Bool

-- enum bf_chain_flags, a bit mask in the source.
pub record ChainFlags : Type 0 where
  pub logs : Bool
  pub store_nexthdr : Bool
  pub set_mark : Bool
  pub get_mark : Bool

-- struct bf_chain, without its name
pub record Chain : Type 0 where
  pub flags : ChainFlags
  pub hook : Hook
  pub policy : Verdict
  pub sets : List Set
  pub rules : List Rule

abbrev pub is_nexthdr : MatcherType → Bool
is_nexthdr ip6_nexthdr = true
is_nexthdr _ = false

abbrev pub is_mark : MatcherType → Bool
is_mark meta_mark = true
is_mark _ = false

abbrev pub is_set : MatcherType → Bool
is_set set = true
is_set _ = false

-- The loop of `_bf_chain_update_features()` over the matchers.
unfoldable pub matcher_features : ChainFlags → List Matcher → ChainFlags
matcher_features f [] = f
matcher_features f (m ∷ ms) =
    matcher_features
      (record f {
        store_nexthdr = f.store_nexthdr || is_nexthdr m.type;
        get_mark = f.get_mark || is_mark m.type;
      })
      ms

unfoldable pub chain_update_features : ChainFlags → Rule → ChainFlags
unfolding rule_mark_is_set matcher_features
chain_update_features f rule =
    matcher_features
      (record f {
        logs = f.logs || not (rule.log == 0);
        set_mark = f.set_mark || rule_mark_is_set rule;
      })
      rule.matchers

abbrev pub no_flags : ChainFlags
no_flags = record { logs = false; store_nexthdr = false; set_mark = false; get_mark = false }

-- The loop of `bf_chain_new()` over the rules: `rule->index = ridx++`.
unfoldable pub index_rules : ℕ → List Rule → List Rule
index_rules i [] = []
index_rules i (r ∷ rs) = record r { index = i % 2 ^ 32 } ∷ index_rules (i + 1) rs

unfoldable pub rules_features : ChainFlags → List Rule → ChainFlags
unfolding chain_update_features
rules_features f [] = f
rules_features f (r ∷ rs) = rules_features (chain_update_features f r) rs

abbrev pub filled_chain : Hook → Verdict → List Set → List Rule → Chain
filled_chain hook policy sets rules = record {
  flags = rules_features no_flags rules;
  hook = hook;
  policy = policy;
  sets = sets;
  rules = index_rules 0 rules;
}

-- `object` and `name` say whether there is memory for the chain and for the copy of its name; if not
-- the result is ENOMEM.
unfoldable pub chain_new : Bool → Bool → Hook → Verdict → List Set → List Rule → Option Chain
chain_new object name hook policy sets rules =
    if object && name then some (filled_chain hook policy sets rules) else none

-- `node` says whether there is memory for the node of the list. The result says whether the rule is
-- in the chain; if it is not, that is ENOMEM, the chain has its features all the same.
unfoldable pub chain_add_rule : Bool → Chain → Rule → Bool × Chain
unfolding chain_update_features
chain_add_rule node c rule =
    let flags = chain_update_features c.flags rule in
    if node
    then (
      true,
      record c {
        flags = flags;
        rules = c.rules ++ record rule { index = length c.rules % 2 ^ 32 } ∷ [];
      },
    )
    else (false, record c { flags = flags })

unfoldable pub chain_get_set_for_matcher : Chain → Matcher → Option Set
chain_get_set_for_matcher c m = elim (is_set m.type) [
  | true ↦ get_elem? c.sets (payload_u32 m 0)
  | false ↦ none
]

abbrev pub is_xdp : Hook → Bool
is_xdp xdp = true
is_xdp _ = false

abbrev pub is_nf : Hook → Bool
is_nf nf_pre_routing = true
is_nf nf_post_routing = true
is_nf nf_forward = true
is_nf nf_local_in = true
is_nf nf_local_out = true
is_nf _ = false

unfoldable pub chain_validate : Chain → Bool
chain_validate c =
    not (c.flags.set_mark && (is_xdp c.hook || is_nf c.hook))
    && not (c.flags.get_mark && is_xdp c.hook)
