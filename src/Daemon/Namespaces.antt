-- ===== src/Daemon/Namespaces.antt =====
-- The namespaces that bf_cgen_set() of src/bpfilter/cgen/cgen.c attaches a program in.
use bpfilter_study.Base.{ℕ, ◌≡◌, refl, Option, none, some, List, [], ◌∷◌, ◌∙◌, ap}
use bpfilter_study.Chain.{
  Hook, Flavor, tc_flavor, nf_flavor, xdp_flavor, cgroup_flavor, hook_to_flavor,
}
use bpfilter_study.Daemon.{
  Call, Namespace, own, client, set_ns, Daemon, Run, ok, stop, crash, M, Env, Answer, done, failed,
  HookOpts, Link, BfProgram, and_then, value_of, pure, ◌>>=◌, ask, call, run_call, open_cgroup,
  link_create,
}
use bpfilter_study.Daemon.Codegen.{attach_in_client, or_abort}
use bpfilter_study.Daemon.Programs.{link_attach, program_attach, value_or_zero}

abbrev ns_of : Call → Option Namespace
ns_of (set_ns n) = some n
ns_of _ = none

abbrev or_before : Option Namespace → Namespace → Namespace
or_before none n = n
or_before (some m) n = m

-- The namespaces that were asked for last; the daemon starts in its own.
abbrev pub last_ns : List Call → Namespace
last_ns [] = own
last_ns (c ∷ cs) = or_before (ns_of c) (last_ns cs)

data SameNs (d : Daemon) {A : Type 0} : Run A → Type 0 where
  same_ok : {a : A} {d' : Daemon} → last_ns d'.calls ≡ last_ns d.calls → SameNs d (ok a d')
  same_stop : {e : ℕ} {d' : Daemon} → last_ns d'.calls ≡ last_ns d.calls → SameNs d (stop e d')
  same_crash : SameNs d crash

record Stays {A : Type 0} (m : M A) : Type 0 where
  run : (env : Env) (d : Daemon) → SameNs d (m env d)

SameNs-trans :
    {A : Type 0} {d e : Daemon} {r : Run A}
    → last_ns e.calls ≡ last_ns d.calls
    → SameNs e r
    → SameNs d r
SameNs-trans p (same_ok q) = same_ok (q ∙ p)
SameNs-trans p (same_stop q) = same_stop (q ∙ p)
SameNs-trans p same_crash = same_crash

and_then-SameNs :
    {A B : Type 0} {d : Daemon} {r : Run A} (k : A → Daemon → Run B)
    → SameNs d r
    → ((a : A) (e : Daemon) → SameNs e (k a e))
    → SameNs d (and_then r k)
and_then-SameNs k (same_ok {a} {d'} p) h = SameNs-trans p (h a d')
and_then-SameNs k (same_stop p) h = same_stop p
and_then-SameNs k same_crash h = same_crash

Stays->>= :
    {A B : Type 0} {m : M A} {k : A → M B} → Stays m → ((a : A) → Stays (k a)) → Stays (m >>= k)
Stays->>= {k} s t = record {
  run = λ env d. and_then-SameNs (λ a. k a env) (s.run env d) (λ a e. (t a).run env e);
}

pure-Stays : {A : Type 0} (a : A) → Stays (pure a)
pure-Stays a = record { run = λ env d. same_ok refl }

value_of-Stays : (a : Answer) → Stays (value_of a)
value_of-Stays (done v) = pure-Stays v
value_of-Stays (failed e) = record { run = λ env d. same_stop refl }

ask-Stays : (c : Call) → ns_of c ≡ none → Stays (ask c)
unfolding ask
ask-Stays c e = record { run = λ env d. same_ok (ap (λ o. or_before o (last_ns d.calls)) e) }

call-Stays : (c : Call) → ns_of c ≡ none → Stays (call c)
unfolding call
call-Stays c e = Stays->>= (ask-Stays c e) value_of-Stays

run_call-Stays : (c : Call) → ns_of c ≡ none → Stays (run_call c)
unfolding run_call
run_call-Stays c e = Stays->>= (call-Stays c e) (λ _. pure-Stays tt)

link_attach-Stays :
    (l : Link) (h : Hook) (o : HookOpts) (fd : Option ℕ) → Stays (link_attach l h o fd)
unfolding link_attach
link_attach-Stays l h o fd = Stays->>= (before (hook_to_flavor h)) (λ _.
    Stays->>= (call-Stays (link_create fd o) refl)
      (λ n. pure-Stays (record { hookopts = some o; fd = some n })))
  where
    before :
        (f : Flavor)
        → Stays {A = Unit {0}} (elim f [
          | cgroup_flavor ↦ run_call (open_cgroup (value_or_zero o.cgpath))
          | _ ↦ pure tt
        ])
    before cgroup_flavor = run_call-Stays (open_cgroup (value_or_zero o.cgpath)) refl
    before tc_flavor = pure-Stays tt
    before nf_flavor = pure-Stays tt
    before xdp_flavor = pure-Stays tt

program_attach-Stays : (p : BfProgram) (o : HookOpts) → Stays (program_attach p o)
unfolding program_attach
program_attach-Stays p o =
    Stays->>= (link_attach-Stays p.link p.hook o p.prog_fd)
      (λ l. pure-Stays (record p { link = l }))

-- The namespaces asked for last are the daemon's own after a success, the client's after a failure.
pub data Switched {A : Type 0} : Run A → Type 0 where
  back : {a : A} {d : Daemon} → last_ns d.calls ≡ own → Switched (ok a d)
  left : {e : ℕ} {d : Daemon} → last_ns d.calls ≡ client → Switched (stop e d)
  aborted : Switched crash

return_to :
    (p : BfProgram) (env : Env) (d : Daemon)
    → Switched (and_then (ask (set_ns own) env d) (λ a. or_abort p a env))
unfolding ask
return_to p env d = by_answer (env.host d.calls (set_ns own))
  where
    by_answer :
        (a : Answer) → Switched (or_abort p a env (record d { calls = set_ns own ∷ d.calls }))
    by_answer (done v) = back refl
    by_answer (failed e) = aborted

attached :
    {d : Daemon} {r : Run BfProgram} (env : Env)
    → last_ns d.calls ≡ client
    → SameNs d r
    → Switched (and_then r (λ p e. and_then (ask (set_ns own) env e) (λ a. or_abort p a env)))
attached env c (same_ok {a} {d'} p) = return_to a env d'
attached env c (same_stop p) = left (p ∙ c)
attached env c same_crash = aborted

-- When a program is attached in the client's namespaces, the namespaces asked for last are the
-- daemon's own if this succeeds; if it fails they are the client's, so the daemon does not go back.
-- A run that aborts is not spoken of.
pub attach_in_client-Switched :
    (p : BfProgram) (opts : HookOpts) (env : Env) (d : Daemon)
    → Switched (attach_in_client p opts env d)
unfolding attach_in_client run_call call ask
attach_in_client-Switched p opts env d = by_answer (env.host d.calls (set_ns client))
  where
    there : Daemon
    there = record d { calls = set_ns client ∷ d.calls }

    by_answer :
        (a : Answer)
        → Switched (
            and_then (and_then (value_of a env there) (λ v. ok tt)) (λ _ e.
              and_then
                (program_attach p opts env e)
                (λ p e. and_then (ask (set_ns own) env e) (λ a. or_abort p a env))))
    by_answer (done v) = attached env refl ((program_attach-Stays p opts).run env there)
    by_answer (failed e) = left refl
