-- ===== src/Daemon/Options.antt =====
-- What bf_hookopts_validate() of src/libbpfilter/hook.c accepts.
use bpfilter_study.Base.{
  ℕ, ◌≡◌, Bool, true, false, Option, none, some, List, [], ◌∷◌, ◌&&◌, ◌||◌, not, if◌then◌else◌, ◌↔◌,
  refl,
}
use bpfilter_study.Daemon.{HookOpts, einval, enotsup}
use bpfilter_study.Daemon.Hookopts.{
  HookoptsType, ifindex_opt, cgpath_opt, family_opt, priorities_opt, hookopts_validate,
  validate_types, hookopts_is_used, required_by, all_types,
}
use bpfilter_study.Chain.{Flavor, Hook, hook_to_flavor}

-- Each option of a list is used exactly if the flavor requires it.
abbrev AsRequired : HookOpts → Flavor → List HookoptsType → Type 0
AsRequired o f [] = Unit
AsRequired o f (t ∷ ts) = (hookopts_is_used o t ≡ required_by t f) × AsRequired o f ts

step_none :
    (used required : Bool) (rest : Option ℕ)
    → (if required && not used
        then some einval
        else if used && not ((false || required) || required)
        then some enotsup
        else rest)
      ≡ none
    → (used ≡ required) × (rest ≡ none)
step_none true true rest e = (refl, e)
step_none true false rest e = absurd (cc)
step_none false true rest e = absurd (cc)
step_none false false rest e = (refl, e)

none_step :
    (used required : Bool) (rest : Option ℕ)
    → used ≡ required
    → rest ≡ none
    → (if required && not used
        then some einval
        else if used && not ((false || required) || required)
        then some enotsup
        else rest)
      ≡ none
none_step true true rest e f = f
none_step true false rest e f = absurd (cc)
none_step false true rest e f = absurd (cc)
none_step false false rest e f = f

validate_types-none :
    (o : HookOpts) (f : Flavor) (ts : List HookoptsType)
    → (validate_types o f ts ≡ none) ↔ AsRequired o f ts
unfolding validate_types
validate_types-none o f [] = (λ _. tt, λ _. refl)
validate_types-none o f (t ∷ ts) =
    let (there, back) = validate_types-none o f ts in
    (
      λ e.
          let (a, b) =
            step_none (hookopts_is_used o t) (required_by t f) (validate_types o f ts) e in
          (a, there b),
      λ a.
          none_step (hookopts_is_used o t) (required_by t f) (validate_types o f ts) a.0 (back a.1),
    )

-- bf_hookopts_validate() accepts hook options exactly if the options that are used are those that
-- the hook's flavor requires.
pub hookopts_validate-none :
    (o : HookOpts) (hook : Hook)
    → (hookopts_validate o hook ≡ none)
      ↔ ((t : HookoptsType) → hookopts_is_used o t ≡ required_by t (hook_to_flavor hook))
unfolding hookopts_validate
hookopts_validate-none o hook =
    let (there, back) = validate_types-none o (hook_to_flavor hook) all_types in
    (
      λ e. all (there e),
      λ h. back (h ifindex_opt, (h cgpath_opt, (h family_opt, (h priorities_opt, tt)))),
    )
  where
    all :
        AsRequired o (hook_to_flavor hook) all_types
        → (t : HookoptsType) → hookopts_is_used o t ≡ required_by t (hook_to_flavor hook)
    all a ifindex_opt = a.0
    all a cgpath_opt = a.1.0
    all a family_opt = a.1.1.0
    all a priorities_opt = a.1.1.1.0
