-- ===== src/Daemon/Answered.antt =====
-- The request handler: every request is answered, and the stored codegens stay valid.
use bpfilter_study.Base.{ℕ, Option, none, some, inl, inr, ◌⊎◌, List, ◌≡◌, ◌∷◌, refl}
use bpfilter_study.Daemon.{
  Cgen, BfProgram, HookOpts, cli, pure, error, ◌>>=◌, ebusy, ◌>>◌, set_ns, client, einval, own, pin,
  link_pin, Env, Daemon, Run, run_call, and_then, call, ok, ask, Call, allocate, Answer, value_of,
  done, failed, stop, crash,
}
use bpfilter_study.Daemon.Handlers.{
  Request, Response, Reply, ruleset_flush, ruleset_set, ruleset_get, chain_set, chain_get,
  chain_prog_fd, chain_logs_fd, chain_flush, chain_load, chain_attach, chain_update, unsupported,
  malformed, success_response, failure_response, empty, cli_chain_attach, dispatch, request_handler,
  cli_ruleset_flush, check, respond, chain_reply, ruleset_reply,
}
use bpfilter_study.Daemon.Rules.{
  Store, Does, Does->>=, Steady, Does-pure, Does-attempt, pure-Steady, Steady-Does, error-Steady,
  Steady-then, Does-weaken, Does-error, deref-Steady, when_persist-Steady, run_call-Steady,
  ask-Steady, when_persist-Does, attempt-Steady, After, after_ok, after_stop, after_crash,
}
use bpfilter_study.Daemon.Codegen.{cgen_attach, set_program}
use bpfilter_study.Daemon.Stored.{Survives, ctx_flush-Does, Valid-Survives, set_program-Does}
use bpfilter_study.Daemon.Valid.{Valid}
use bpfilter_study.Daemon.Programs.{program_detach}
use bpfilter_study.Daemon.Names.{ruleset_set-Does, chain_set-Does, chain_load-Does}
use bpfilter_study.Daemon.Readers.{
  ruleset_get-Steady, ctx_get_cgen-Steady, or_enoent-Steady, chain_get-Steady, chain_prog_fd-Steady,
  chain_logs_fd-Steady,
}
use bpfilter_study.Daemon.Steady.{
  program_detach-Steady, chain_pindir-Steady, program_attach-Steady, or_abort-Steady,
}
use bpfilter_study.Daemon.Hookopts.{hookopts_validate}
use bpfilter_study.Daemon.Update.{chain_update-Does}
use bpfilter_study.Daemon.Flush.{chain_flush-Does}

cgen_attach-Does :
    {P : Store} (s : Survives P) (c : Cgen) (opts : HookOpts)
    → Does P (cgen_attach c opts) (λ _. P) P
unfolding cgen_attach
cgen_attach-Does {P} s c opts =
    Steady-then (λ _ _ x. x) (when_persist-Steady (chain_pindir-Steady c.chain.name))
      (λ _.
        Steady-then (λ _ _ x. x) (run_call-Steady (set_ns client))
          (λ _.
            Steady-then (λ _ _ x. x) (deref-Steady c.program)
              (λ p.
                Steady-then (λ _ _ x. x) (program_attach-Steady p opts)
                  (λ p. Does->>= (set_program-Does s c.address p) (λ _.
                    Steady-then (λ _ _ x. x) (ask-Steady (set_ns own))
                      (λ back.
                        Steady-then (λ _ _ x. x) (or_abort-Steady p back)
                          (λ p. when_persist-Does (
                            Steady-then (λ _ _ x. x)
                              (attempt-Steady (run_call-Steady (pin c.chain.name link_pin)))
                              (by_result p)))))))))
  where
    by_result :
        (p : BfProgram) (r : Unit {0} ⊎ ℕ)
        → Does {A = Unit {0}} P
            (elim r [
              | inl _ ↦ pure tt
              | inr e ↦ (do p ← program_detach p; set_program c.address p; error e)
            ])
            (λ _. P)
            P
    by_result p (inl u) = Does-pure tt (λ _ _ x. x)
    by_result p (inr e) =
        Steady-then (λ _ _ x. x) (program_detach-Steady p)
          (λ p. Does->>= (set_program-Does s c.address p) (λ _. Does-error e (λ _ _ x. x)))

chain_attach-Does :
    (name : ℕ) (opts : HookOpts) → Does Valid (cli_chain_attach name opts) (λ _. Valid) Valid
unfolding cli_chain_attach
chain_attach-Does name opts =
    Steady-then (λ _ _ x. x) (ctx_get_cgen-Steady name)
      (λ o.
        Steady-then (λ _ _ x. x) (or_enoent-Steady o)
          (λ c.
            Steady-then (λ _ _ x. x) (deref-Steady c.program)
              (λ p.
                Steady-then (λ _ _ x. x) (not_linked p.link.hookopts)
                  (λ _.
                    Steady-then (λ _ _ x. x)
                      (check-Steady (hookopts_validate opts c.chain.body.hook))
                      (λ _.
                        Does->>= (cgen_attach-Does Valid-Survives c opts)
                          (λ _. Does-pure empty (λ _ _ x. x)))))))
  where
    not_linked :
        (o : Option HookOpts)
        → Steady {A = Unit {0}} (elim o [ none ↦ pure tt | some _ ↦ error ebusy ])
    not_linked none = pure-Steady tt
    not_linked (some o) = error-Steady ebusy

    check-Steady : (o : Option ℕ) → Steady (check o)
    check-Steady none = pure-Steady tt
    check-Steady (some e) = error-Steady e

dispatch-Does : (req : Request) → Does Valid (dispatch req) (λ _. Valid) Valid
unfolding dispatch cli_ruleset_flush
dispatch-Does ruleset_flush =
    Does->>= (ctx_flush-Does Valid-Survives cli) (λ _. Does-pure empty (λ _ _ x. x))
dispatch-Does (ruleset_set items) = ruleset_set-Does items
dispatch-Does ruleset_get = Steady-Does (λ _ _ x. x) ruleset_get-Steady
dispatch-Does (chain_set chain opts) =
    Does-weaken (λ _ _ _ x. x.0) (λ _ _ x. x) (chain_set-Does chain opts)
dispatch-Does (chain_get name) = Steady-Does (λ _ _ x. x) (chain_get-Steady name)
dispatch-Does (chain_prog_fd name) = Steady-Does (λ _ _ x. x) (chain_prog_fd-Steady name)
dispatch-Does (chain_logs_fd name) = Steady-Does (λ _ _ x. x) (chain_logs_fd-Steady name)
dispatch-Does (chain_load chain) = Does-weaken (λ _ _ _ x. x.0) (λ _ _ x. x) (chain_load-Does chain)
dispatch-Does (chain_attach name opts) = chain_attach-Does name opts
dispatch-Does (chain_update chain) = chain_update-Does chain
dispatch-Does (chain_flush name) = Does-weaken (λ _ _ _ x. x.0) (λ _ _ x. x) (chain_flush-Does name)
dispatch-Does unsupported = Does-error einval (λ _ _ x. x)
dispatch-Does (malformed e) = Does-error e (λ _ _ x. x)

abbrev Never : Store
Never cs n = ⊥

-- What becomes of a request: a response; or none, because the last call, which allocates the
-- response, has failed; or a crash.
pub data Responds (env : Env) : Run Response → Type 0 where
  responded : {a : Response} {d : Daemon} → Valid d.cgens d.fresh → Responds env (ok a d)
  no_response :
      {e : ℕ} {d : Daemon} {h : List Call}
      → Valid d.cgens d.fresh
      → d.calls ≡ allocate ∷ h
      → env.host h allocate ≡ failed e
      → Responds env (stop e d)
  crashed : Responds env crash

allocated-Responds :
    (a : Response) (env : Env) (d : Daemon)
    → Valid d.cgens d.fresh
    → Responds env ((do run_call allocate; pure a) env d)
unfolding run_call call ask
allocated-Responds a env d v = by_answer (env.host d.calls allocate) refl
  where
    by_answer :
        (w : Answer)
        → env.host d.calls allocate ≡ w
        → Responds env (
            and_then
              (and_then (value_of w env (record d { calls = allocate ∷ d.calls })) (λ v. ok tt))
              (λ _. ok a))
    by_answer (done x) e = responded v
    by_answer (failed x) e = no_response v refl e

respond-Responds :
    (r : Reply ⊎ ℕ) (env : Env) (d : Daemon)
    → Valid d.cgens d.fresh
    → Responds env (respond r env d)
unfolding respond
respond-Responds (inl empty) env d v = allocated-Responds (success_response empty) env d v
respond-Responds (inl (chain_reply a b c)) env d v = responded v
respond-Responds (inl (ruleset_reply a b c)) env d v = responded v
respond-Responds (inr e) env d v = allocated-Responds (failure_response e) env d v

abbrev caught_Valid : Reply ⊎ ℕ → Store
caught_Valid r = elim r [ inl a ↦ Valid | inr e ↦ Valid ]

then-Responds :
    (env : Env) {r : Run (Reply ⊎ ℕ)}
    → After caught_Valid Never r
    → Responds env (and_then r (λ a. respond a env))
then-Responds env (after_ok {a = inl a} {d} v) = respond-Responds (inl a) env d v
then-Responds env (after_ok {a = inr e} {d} v) = respond-Responds (inr e) env d v
then-Responds env (after_stop s) = absurd s
then-Responds env after_crash = crashed

-- A request is answered, unless the daemon crashes, or the last call, which allocates the response,
-- fails. With an answer or without, the stored codegens then have different names and addresses and
-- each has a program, if this held before.
pub request_handler-Responds :
    (req : Request) (env : Env) (d : Daemon)
    → Valid d.cgens d.fresh
    → Responds env (request_handler req env d)
unfolding request_handler
request_handler-Responds req env d v =
    then-Responds env ((Does-attempt (dispatch-Does req)).run env d v)
