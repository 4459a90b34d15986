-- ===== src/Daemon/Hookopts.antt =====
-- src/libbpfilter/hook.c: which options a hook requires and supports.
use bpfilter_study.Base.{
  ℕ, List, Option, Bool, none, ◌∷◌, [], false, if◌then◌else◌, true, ◌||◌, ◌&&◌, some, not,
}
use bpfilter_study.Chain.{
  Flavor, Hook, hook_to_flavor, xdp_flavor, tc_flavor, nf_flavor, cgroup_flavor,
}
use bpfilter_study.Daemon.{HookOpts, einval, enotsup}

-- enum bf_hookopts_type
pub data HookoptsType : Type 0 where
  ifindex_opt cgpath_opt family_opt priorities_opt : HookoptsType

abbrev pub all_types : List HookoptsType
all_types = ifindex_opt ∷ cgpath_opt ∷ family_opt ∷ priorities_opt ∷ []

-- The table `_bf_hookopts_ops`, whose `supported_by` is 0 in every entry.
unfoldable pub required_by : HookoptsType → Flavor → Bool
required_by ifindex_opt xdp_flavor = true
required_by ifindex_opt tc_flavor = true
required_by ifindex_opt nf_flavor = false
required_by ifindex_opt cgroup_flavor = false
required_by cgpath_opt cgroup_flavor = true
required_by cgpath_opt xdp_flavor = false
required_by cgpath_opt tc_flavor = false
required_by cgpath_opt nf_flavor = false
required_by family_opt nf_flavor = true
required_by family_opt xdp_flavor = false
required_by family_opt tc_flavor = false
required_by family_opt cgroup_flavor = false
required_by priorities_opt nf_flavor = true
required_by priorities_opt xdp_flavor = false
required_by priorities_opt tc_flavor = false
required_by priorities_opt cgroup_flavor = false

abbrev pub supported_by : HookoptsType → Flavor → Bool
supported_by t f = false

abbrev pub is_supported : HookoptsType → Flavor → Bool
is_supported t f = supported_by t f || required_by t f

abbrev is_given {ℓ} : {A : Type ℓ} → Option A → Bool
is_given none = false
is_given (some _) = true

unfoldable pub hookopts_is_used : HookOpts → HookoptsType → Bool
hookopts_is_used o ifindex_opt = is_given o.ifindex
hookopts_is_used o cgpath_opt = is_given o.cgpath
hookopts_is_used o family_opt = is_given o.family
hookopts_is_used o priorities_opt = is_given o.priorities

-- The loop of `bf_hookopts_validate()`; the result is the negation of the error code.
unfoldable pub validate_types : HookOpts → Flavor → List HookoptsType → Option ℕ
validate_types o f [] = none
validate_types o f (t ∷ ts) =
    if required_by t f && not (hookopts_is_used o t)
    then some einval
    else if hookopts_is_used o t && not (is_supported t f || required_by t f)
    then some enotsup
    else validate_types o f ts

unfoldable pub hookopts_validate : HookOpts → Hook → Option ℕ
unfolding validate_types
hookopts_validate o hook = validate_types o (hook_to_flavor hook) all_types
