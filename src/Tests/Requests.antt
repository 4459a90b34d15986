-- ===== src/Tests/Requests.antt =====
-- Runs of the theorems about the daemon's requests.
use bpfilter_study.Base.{◌≡◌, refl, none, some, [], ◌∷◌, true, false, arith, ◌↔◌}
use bpfilter_study.Chain.{xdp, accept, hook_to_flavor}
use bpfilter_study.Daemon.{NamedChain, HookOpts, Env, Daemon, done, Cgen, BfProgram, cli}
use bpfilter_study.Daemon.Handlers.{
  chain_set, cli_chain_set, cli_chain_flush, cli_chain_load, request_handler,
}
use bpfilter_study.Daemon.Rules.{After}
use bpfilter_study.Daemon.Valid.{Valid}
use bpfilter_study.Daemon.Codegen.{cgen_get_counters, attach_in_client}
use bpfilter_study.Daemon.Hookopts.{hookopts_validate, HookoptsType, hookopts_is_used, required_by}
use bpfilter_study.Daemon.Flush.{Gone, cli_chain_flush-Gone}
use bpfilter_study.Daemon.Requests.{Holds}
use bpfilter_study.Daemon.Answered.{Responds, request_handler-Responds}
use bpfilter_study.Daemon.Counters.{lookups, cgen_get_counters-lookups}
use bpfilter_study.Daemon.Names.{cli_chain_set-Holds, cli_chain_load-Holds}
use bpfilter_study.Daemon.Options.{hookopts_validate-none}
use bpfilter_study.Daemon.Namespaces.{Switched, attach_in_client-Switched}

abbrev web : NamedChain
web = record {
  name = 1;
  body = record {
    flags = record { logs = false; store_nexthdr = false; set_mark = false; get_mark = false };
    hook = xdp;
    policy = accept;
    sets = [];
    rules = [];
  };
}

abbrev on_interface : HookOpts
on_interface = record { ifindex = some 2; cgpath = none; family = none; priorities = none }

-- Every call succeeds, with the value 7.
abbrev quiet_env : Env
quiet_env = record { host = λ calls c. done 7; persist = true }

abbrev web_program : BfProgram
web_program = record {
  name = 1;
  hook = xdp;
  sets = 0;
  link = record { hookopts = some on_interface; fd = some 7 };
  prog_fd = some 7;
  log_fd = 7;
}

abbrev web_cgen : Cgen
web_cgen = record { address = 0; front = cli; chain = web; program = some web_program }

abbrev web_daemon : Daemon
web_daemon = record { cgens = web_cgen ∷ []; calls = []; fresh = 1 }

web_daemon-Valid : Valid web_daemon.cgens web_daemon.fresh
web_daemon-Valid = (omega arith, tt, tt, (web_program, refl), tt)

request_handler-Responds_example :
    Responds quiet_env (request_handler (chain_set web (some on_interface)) quiet_env web_daemon)
request_handler-Responds_example =
    request_handler-Responds (chain_set web (some on_interface)) quiet_env web_daemon
      web_daemon-Valid

cli_chain_set-Holds_example :
    After (λ _. Holds web) Valid (cli_chain_set web (some on_interface) quiet_env web_daemon)
cli_chain_set-Holds_example =
    cli_chain_set-Holds web (some on_interface) quiet_env web_daemon web_daemon-Valid

cli_chain_load-Holds_example :
    After (λ _. Holds web) Valid (cli_chain_load web quiet_env web_daemon)
cli_chain_load-Holds_example = cli_chain_load-Holds web quiet_env web_daemon web_daemon-Valid

cli_chain_flush-Gone_example : After (λ _. Gone 1) Valid (cli_chain_flush 1 quiet_env web_daemon)
cli_chain_flush-Gone_example = cli_chain_flush-Gone 1 quiet_env web_daemon web_daemon-Valid

hookopts_validate-none_example :
    (hookopts_validate on_interface xdp ≡ none)
    ↔ ((t : HookoptsType) → hookopts_is_used on_interface t ≡ required_by t (hook_to_flavor xdp))
hookopts_validate-none_example = hookopts_validate-none on_interface xdp

cgen_get_counters-lookups_example : cgen_get_counters web_cgen ≡ lookups web_program 2 0
cgen_get_counters-lookups_example = cgen_get_counters-lookups web_cgen web_program refl

attach_in_client-Switched_example :
    Switched (attach_in_client web_program on_interface quiet_env web_daemon)
attach_in_client-Switched_example =
    attach_in_client-Switched web_program on_interface quiet_env web_daemon
