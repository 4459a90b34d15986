-- ===== src/Daemon.antt =====
-- The daemon's state and its calls of the system: src/bpfilter/cgen/cgen.h, src/bpfilter/ctx.c,
-- src/bpfilter/cgen/prog/link.c and the options of src/libbpfilter/hook.c.
pub mod Hookopts
pub mod Programs
pub mod Codegen
pub mod Context
pub mod Handlers
pub mod Rules
pub mod Steady
pub mod Valid
pub mod Stored
pub mod Requests
pub mod Names
pub mod Readers
pub mod Update
pub mod Flush
pub mod Answered
pub mod Options
pub mod Known
pub mod Renew
pub mod Namespaces
pub mod Counters
use bpfilter_study.Base.{ℕ, ◌+◌, List, Option, if◌then◌else◌, ◌∷◌, ◌⊎◌, Bool, inl, some, inr, none}
use bpfilter_study.Chain.{Chain, Hook}

-- enum bf_front
pub data Front : Type 0 where
  ipt nft cli : Front

-- struct bf_hookopts: an option is `none` where its bit in `used_opts` is clear.
pub record HookOpts : Type 0 where
  pub ifindex : Option ℕ
  pub cgpath : Option ℕ
  pub family : Option ℕ
  pub priorities : Option (ℕ × ℕ)

-- struct bf_chain with its name; names are only compared.
pub record NamedChain : Type 0 where
  pub name : ℕ
  pub body : Chain

-- struct bf_link; a descriptor of -1 is `none`.
pub record Link : Type 0 where
  pub hookopts : Option HookOpts
  pub fd : Option ℕ

-- struct bf_program, as the daemon sees it: the chain's name and hook, the number of its sets, the
-- link, and the descriptors of the program and of the log map.
pub record BfProgram : Type 0 where
  pub name : ℕ
  pub hook : Hook
  pub sets : ℕ
  pub link : Link
  pub prog_fd : Option ℕ
  pub log_fd : ℕ

-- struct bf_cgen, with the address that stands for it
pub record Cgen : Type 0 where
  pub address : ℕ
  pub front : Front
  pub chain : NamedChain
  pub program : Option BfProgram

-- The objects of a chain in the kernel, which are created and pinned.
pub data Pinned : Type 0 where
  prog_pin counters_pin printer_pin log_pin link_pin : Pinned
  set_pin : ℕ → Pinned

-- The two namespaces that the daemon switches between.
pub data Namespace : Type 0 where
  own client : Namespace

-- Calls of the system, of the allocator, and of the part that generates the program. To create a map
-- is one call, with its elements and the fixups of its descriptor.
pub data Call : Type 0 where
  allocate pindir_root : Call
  open_pindir remove_pindir generate load_program : ℕ → Call
  set_ns : Namespace → Call
  open_cgroup : ℕ → Call
  link_create : Option ℕ → HookOpts → Call
  update_link : Option ℕ → Option ℕ → Call
  detach_link : Option ℕ → Call
  create_map pin unpin : ℕ → Pinned → Call
  send_fd : ℕ → Call
  lookup_counter : ℕ → ℕ → Call

-- The answer to a call: a value, such as a descriptor, or the negation of an error code.
pub data Answer : Type 0 where
  done failed : ℕ → Answer

-- The answer may depend on all the calls before, the last one first. `persist` is the negation of
-- the option --transient.
pub record Env : Type 0 where
  pub host : List Call → Call → Answer
  pub persist : Bool

-- struct bf_ctx, with the calls made so far, the last one first, and the address of the next object
pub record Daemon : Type 0 where
  pub cgens : List Cgen
  pub calls : List Call
  pub fresh : ℕ

-- A function returns, stops with a negative error code, or the daemon crashes at a NULL pointer.
pub data Run (A : Type 0) : Type 0 where
  ok : A → Daemon → Run A
  stop : ℕ → Daemon → Run A
  crash : Run A

abbrev pub M : Type 0 → Type 0
M A = Env → Daemon → Run A

abbrev pub pure : {A : Type 0} → A → M A
pure a env = ok a

abbrev pub error : {A : Type 0} → ℕ → M A
error e env = stop e

abbrev pub and_then : {A B : Type 0} → Run A → (A → Daemon → Run B) → Run B
and_then (ok a d) k = k a d
and_then (stop e d) k = stop e d
and_then crash k = crash

infixl 5 ◌>>=◌ ◌>>◌
abbrev pub ◌>>=◌ : {A B : Type 0} → M A → (A → M B) → M B
◌>>=◌ m k env d = and_then (m env d) (λ a. k a env)

abbrev pub ◌>>◌ : {B : Type 0} → M (Unit {0}) → M B → M B
m >> k = m >>= λ _. k

-- The result of a function, or its error code, for a caller that goes on behind an error.
abbrev pub caught : {A : Type 0} → Run A → Run (A ⊎ ℕ)
caught (ok a d) = ok (inl a) d
caught (stop e d) = ok (inr e) d
caught crash = crash

abbrev pub attempt : {A : Type 0} → M A → M (A ⊎ ℕ)
attempt m env d = caught (m env d)

unfoldable pub ask : Call → M Answer
ask c env d = ok (env.host d.calls c) (record d { calls = c ∷ d.calls })

abbrev pub value_of : Answer → M ℕ
value_of (done v) = pure v
value_of (failed e) = error e

unfoldable pub call : Call → M ℕ
unfolding ask
call c = do a ← ask c; value_of a

unfoldable pub run_call : Call → M (Unit {0})
unfolding call
run_call c = do v ← call c; pure tt

abbrev pub get_cgens : M (List Cgen)
get_cgens env d = ok d.cgens d

abbrev pub set_cgens : List Cgen → M (Unit {0})
set_cgens l env d = ok tt (record d { cgens = l })

abbrev pub new_address : M ℕ
new_address env d = ok d.fresh (record d { fresh = d.fresh + 1 })

abbrev pub when_persist : M (Unit {0}) → M (Unit {0})
when_persist m env d = if env.persist then m env d else ok tt d

-- `cgen->program`, which is dereferenced
abbrev pub deref : Option BfProgram → M BfProgram
deref (some p) env = ok p
deref none env = λ _. crash

-- Error codes of errno.h.
abbrev pub enoent : ℕ
enoent = 2

abbrev pub enomem : ℕ
enomem = 12

abbrev pub ebusy : ℕ
ebusy = 16

abbrev pub eexist : ℕ
eexist = 17

abbrev pub enodev : ℕ
enodev = 19

abbrev pub einval : ℕ
einval = 22

abbrev pub enotsup : ℕ
enotsup = 95
