-- ===== src/Daemon/Readers.antt =====
-- The requests of src/bpfilter/xlate/cli.c that only read leave the stored codegens alone.
use bpfilter_study.Base.{
  ℕ, Option, none, some, List, [], ◌∷◌, Bool, true, false, if◌then◌else◌, refl,
}
use bpfilter_study.Daemon.{
  Cgen, BfProgram, Front, cli, get_cgens, enodev, enoent, pure, ◌>>◌, allocate, run_call, send_fd,
  ◌>>=◌,
}
use bpfilter_study.Daemon.Handlers.{
  Reply, ruleset_reply, chain_reply, empty, cli_chain_get, cli_chain_logs_fd, cli_chain_prog_fd,
  cli_ruleset_get, rulesets_of, fd_or, or_enoent, log_fd_of, prog_fd_of,
}
use bpfilter_study.Daemon.Rules.{
  Steady, Steady->>=, pure-Steady, error-Steady, same_ok, deref-Steady, run_call-Steady,
}
use bpfilter_study.Daemon.Context.{
  cgens_for_front, ctx_get_cgen, ctx_get_cgens_for_front, find_cgen, same_front,
}
use bpfilter_study.Daemon.Steady.{cgen_get_counters-Steady}

pub or_enoent-Steady : (o : Option Cgen) → Steady (or_enoent o)
or_enoent-Steady none = error-Steady enoent
or_enoent-Steady (some c) = pure-Steady c

fd_or-Steady : (e : ℕ) (o : Option ℕ) → Steady (fd_or e o)
fd_or-Steady e none = error-Steady e
fd_or-Steady e (some fd) = pure-Steady fd

get_cgens-Steady : Steady get_cgens
get_cgens-Steady = record { run = λ env d. same_ok refl refl }

pub ctx_get_cgen-Steady : (name : ℕ) → Steady (ctx_get_cgen name)
unfolding ctx_get_cgen
ctx_get_cgen-Steady name = Steady->>= get_cgens-Steady (λ cs. pure-Steady (find_cgen name cs))

pub chain_get-Steady : (name : ℕ) → Steady (cli_chain_get name)
unfolding cli_chain_get
chain_get-Steady name = Steady->>= (ctx_get_cgen-Steady name) (λ o.
    Steady->>= (or_enoent-Steady o) (λ c. Steady->>= (cgen_get_counters-Steady c) (λ l.
      Steady->>= (run_call-Steady allocate) (λ _. Steady->>= (deref-Steady c.program) (λ p.
        Steady->>= (run_call-Steady allocate)
          (λ _. pure-Steady (chain_reply c.chain p.link.hookopts l)))))))

pub chain_prog_fd-Steady : (name : ℕ) → Steady (cli_chain_prog_fd name)
unfolding cli_chain_prog_fd
chain_prog_fd-Steady name = Steady->>= (ctx_get_cgen-Steady name) (λ o.
    Steady->>= (or_enoent-Steady o) (λ c.
      Steady->>= (fd_or-Steady enodev (prog_fd_of c.program))
        (λ fd. Steady->>= (run_call-Steady (send_fd fd)) (λ _. pure-Steady empty))))

pub chain_logs_fd-Steady : (name : ℕ) → Steady (cli_chain_logs_fd name)
unfolding cli_chain_logs_fd
chain_logs_fd-Steady name = Steady->>= (ctx_get_cgen-Steady name) (λ o.
    Steady->>= (or_enoent-Steady o) (λ c.
      Steady->>= (fd_or-Steady enoent (log_fd_of c.program))
        (λ fd. Steady->>= (run_call-Steady (send_fd fd)) (λ _. pure-Steady empty))))

cgens_for_front-Steady : (front : Front) (cs : List Cgen) → Steady (cgens_for_front front cs)
unfolding cgens_for_front
cgens_for_front-Steady front [] = pure-Steady []
cgens_for_front-Steady front (c ∷ cs) =
    by_front (cgens_for_front-Steady front cs) (same_front c.front front)
  where
    by_front :
        Steady (cgens_for_front front cs)
        → (b : Bool)
        → Steady {A = List Cgen} (
            if b
            then (do run_call allocate; l ← cgens_for_front front cs; pure (c ∷ l))
            else cgens_for_front front cs)
    by_front rest true =
        Steady->>= (run_call-Steady allocate) (λ _. Steady->>= rest (λ l. pure-Steady (c ∷ l)))
    by_front rest false = rest

rulesets_of-Steady : (cs : List Cgen) → Steady (rulesets_of cs)
unfolding rulesets_of
rulesets_of-Steady [] = pure-Steady (ruleset_reply [] [] [])
rulesets_of-Steady (c ∷ cs) = Steady->>= (run_call-Steady allocate) (λ _.
    Steady->>= (deref-Steady c.program) (λ p. Steady->>= (run_call-Steady allocate) (λ _.
      Steady->>= (run_call-Steady allocate) (λ _. Steady->>= (cgen_get_counters-Steady c) (λ l.
        Steady->>= (run_call-Steady allocate)
          (λ _. Steady->>= (rulesets_of-Steady cs) (added p l)))))))
  where
    added :
        (p : BfProgram) (l : List ℕ) (r : Reply)
        → Steady {A = Reply} (elim r [
          | ruleset_reply chains opts lists ↦
              pure (ruleset_reply (c.chain ∷ chains) (p.link.hookopts ∷ opts) (l ∷ lists))
          | other ↦ pure other
        ])
    added p l (ruleset_reply chains opts lists) = pure-Steady _
    added p l empty = pure-Steady _
    added p l (chain_reply a b d) = pure-Steady _

pub ruleset_get-Steady : Steady cli_ruleset_get
unfolding cli_ruleset_get ctx_get_cgens_for_front
ruleset_get-Steady = Steady->>= (run_call-Steady allocate) (λ _.
    Steady->>= (Steady->>= get_cgens-Steady (cgens_for_front-Steady cli)) (λ cs.
      Steady->>= (rulesets_of-Steady cs)
        (λ reply. Steady->>= (run_call-Steady allocate) (λ _. pure-Steady reply))))
