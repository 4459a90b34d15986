-- ===== src/Lib.antt =====
-- bpfilter turns chains of filtering rules into BPF programs. This library models the generator of
-- these programs, the meaning of the code that it generates, and the daemon that keeps the chains.
--
-- The parts and their files:
-- - Chain: rules, sets, chains and hooks (src/libbpfilter/chain.c, set.c, hook.c and their headers):
--   `bf_chain_new()`, `bf_chain_add_rule()`, `bf_chain_validate()` and what they are made of.
-- - Matcher, Matcher/Metas: matchers, their payloads, and the table of header fields
--   (src/libbpfilter/matcher.c).
-- - Program: `struct bf_program` and the operations that append to it (src/bpfilter/cgen/program.c,
--   program.h, fixup.c, jmp.c), as functions from a program to a result and a program. The macros
--   that return from their caller on an error are the bind of this monad. Fixup has the types.
-- - Swich and Printer: src/bpfilter/cgen/swich.c and printer.c.
-- - Runtime: the layout of `struct bf_runtime` (src/bpfilter/cgen/runtime.h).
-- - Cgen/Ip4, Ip6, Tcp, Udp, Icmp, Meta, Set: src/bpfilter/cgen/matcher/; Cgen/Compare has what
--   these share. Cgen/Stub: the code that parses headers (src/bpfilter/cgen/stub.c). Cgen/Flavor
--   and Cgen/Prologue: tc.c, nf.c, xdp.c and cgroup.c of src/bpfilter/cgen.
-- - Cgen/Resolve, Cgen/Rule, Cgen/Generate: the resolution of fixups, the code of a rule and of a
--   whole program (src/bpfilter/cgen/program.c). `_bf_program_generate_rule()` runs the generators
--   of the matchers and of the actions, then resolves the jumps to the next rule.
-- - Sets: sets from text (src/libbpfilter/set.c), with strtok_r() and bf_trim() in Sets/Strings;
--   Matcher/Ops has the sizes of payloads (src/libbpfilter/matcher.c).
-- - Dynbuf: the buffer that grows (src/libbpfilter/dynbuf.c); its rounding is Program's.
-- - BfList: the doubly linked list (src/libbpfilter/list.c) on a heap of nodes. BfList/Links says when
--   a heap holds a list; Add, Walk and Delete have the operations.
-- - Daemon: `struct bf_ctx` and what it holds (src/bpfilter/ctx.c). Daemon/Hookopts: the hook options
--   (src/libbpfilter/hook.c). Daemon/Programs: links and the program's life in the kernel
--   (src/bpfilter/cgen/prog/link.c, program.c). Daemon/Codegen: src/bpfilter/cgen/cgen.c.
--   Daemon/Context: the stored codegens. Daemon/Handlers: the requests of the command line tool
--   (src/bpfilter/xlate/cli.c), which call all of these. Daemon/Rules has the rules by which the
--   proofs about these functions are put together, Daemon/Known those in which results of calls matter.
-- - Insn: the instruction macros (src/external/include/filter.h). Machine: what the instructions
--   do, after the kernel's instruction set document.
--
-- A generator is described by the cells that it appends: instructions, each with the fixup pending
-- on it (Program/Emits, Program/Extends, Program/At). `Implements` (Cgen/Implements) says that a
-- generator appends code that decides a test of the packet; Cgen/Rule/Effects says what the actions
-- of a rule do to the machine.
--
-- Numbers are natural numbers; a w-bit value has its wrap-around written out, and a negative
-- offset or immediate is its two's complement. The host is little-endian. Jumps of generated code
-- go forward, so a run is one pass over the code and needs no fuel. An error ends a generator, and
-- the program is then of no use. The loop that copies a set's key has the remaining size as fuel:
-- each turn copies at least one byte. A walk over a linked list has fuel, which is enough if it is
-- more than the list's length.
--
-- The daemon calls the system through a function from the calls made so far to an answer (`Env` of
-- Daemon), so a proof holds whatever the system answers. The daemon serves one request at a time.
-- Requests are taken after their unpacking, and one that cannot be unpacked carries its error. The
-- objects of the stored list are values with an address; the list of codegens is a list of these,
-- as BfList shows that it may be.
--
-- What is taken from elsewhere is an argument: whether an allocation succeeds, the kernel's type
-- information, the compiled stubs and the verbosity (`Env`), and what calls of the kernel and of
-- the stubs do (`Kernel`). Not modelled: the creation of maps and the loading of a program beyond the
-- order of their calls, serialisation, dumping, the sockets, the iptables and nftables front ends,
-- and the command line tool, which are input and output or calls of other libraries.
pub mod Base
pub mod BfList
pub mod Cgen
pub mod Chain
pub mod Daemon
pub mod Dynbuf
pub mod Fixup
pub mod Insn
pub mod Machine
pub mod Matcher
pub mod Printer
pub mod Program
pub mod Runtime
pub mod Sets
pub mod Swich
pub mod Tests
