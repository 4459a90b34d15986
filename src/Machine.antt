-- ===== src/Machine.antt =====
-- The BPF machine that runs generated code: the target language's meaning, after the kernel's
-- instruction set document. Jumps of generated code go forward, so a run is one pass over the code
-- with a count of instructions to skip. What the kernel does for a call is a parameter. A pending
-- fixup has the meaning that it gets once it is resolved: a taken jump to the next rule leaves the
-- rule, a map load loads the map's address, a stub call runs the stub.
pub mod Link
pub mod Seq
pub mod Decides
use bpfilter_study.Base.{
  ℕ, zero, suc, ◌+◌, ◌-◌, ◌*◌, ◌/◌, ◌%◌, ◌^◌, bit_and, bit_or, Bool, true, false, not, Option, none,
  some, List, [], ◌∷◌, ◌==◌, ltb, leb, if◌then◌else◌, sext16, sext32, little_endian, htobe16, ◌<◌,
  arith,
}
use bpfilter_study.Insn.{
  Size, byte, half, word, dword, AluOp, alu_add, alu_sub, alu_and, alu_or, alu_lsh, alu_mov, JmpOp,
  jeq, jne, jgt, jge, jlt, Opcode, ldx, stx, st, alu64_reg, alu64_imm, alu32_reg, alu32_imm, bswap,
  jmp_reg, jmp_imm, jmp_a, call, call_rel, call_kfunc, exit, ld_imm64, ld_imm64_high, Insn,
}
use bpfilter_study.Fixup.{FixupType, jmp_next_rule, elfstub_call, Cell}

-- Registers by number, memory by address.
pub record Machine : Type 0 where
  pub reg : ℕ → ℕ
  pub mem : ℕ → ℕ

abbrev pub update : (ℕ → ℕ) → ℕ → ℕ → ℕ → ℕ
update f a v x = if x == a then v else f x

abbrev pub set_reg : Machine → ℕ → ℕ → Machine
set_reg m r v = record m { reg = update m.reg r v }

-- What a call leaves behind: registers 0 to 5 and memory. The others are the caller's.
pub record Reply : Type 0 where
  pub reg : ℕ → ℕ
  pub mem : ℕ → ℕ

pub record Kernel : Type 0 where
  pub helper : ℕ → Machine → Reply
  pub kfunc : ℕ → Machine → Reply
  pub subprog : ℕ → Machine → Reply
  pub stub : ℕ → Machine → Reply
  pub fd_address : ℕ → ℕ
  pub map_address : FixupType → ℕ → ℕ

abbrev pub after : Machine → Reply → Machine
after m r = record m { reg = λ x. if leb x 5 then r.reg x else m.reg x; mem = r.mem }

abbrev pub bytes_at : (ℕ → ℕ) → ℕ → ℕ → List ℕ
bytes_at mem a zero = []
bytes_at mem a (suc n) = mem a % 256 ∷ bytes_at mem (a + 1) n

abbrev pub size_bytes : Size → ℕ
size_bytes byte = 1
size_bytes half = 2
size_bytes word = 4
size_bytes dword = 8

unfoldable pub load : Size → (ℕ → ℕ) → ℕ → ℕ
load s mem a = little_endian (bytes_at mem a (size_bytes s))

store_bytes : ℕ → ℕ → ℕ → (ℕ → ℕ) → ℕ → ℕ
store_bytes zero a v mem = mem
store_bytes (suc n) a v mem = store_bytes n (a + 1) (v / 256) (update mem a (v % 256))

unfoldable pub store : Size → (ℕ → ℕ) → ℕ → ℕ → ℕ → ℕ
unfolding store_bytes
store s mem a v = store_bytes (size_bytes s) a v mem

abbrev pub address : ℕ → ℕ → ℕ
address base off = (base + sext16 off) % 2 ^ 64

unfoldable pub alu64 : AluOp → ℕ → ℕ → ℕ
alu64 alu_add a v = (a + v) % 2 ^ 64
alu64 alu_sub a v = (a + 2 ^ 64 - v) % 2 ^ 64
alu64 alu_and a v = bit_and a v
alu64 alu_or a v = bit_or a v
alu64 alu_lsh a v = a * 2 ^ (v % 64) % 2 ^ 64
alu64 alu_mov a v = v

unfoldable pub alu32 : AluOp → ℕ → ℕ → ℕ
alu32 alu_add a v = (a + v) % 2 ^ 32
alu32 alu_sub a v = (a % 2 ^ 32 + 2 ^ 32 - v % 2 ^ 32) % 2 ^ 32
alu32 alu_and a v = bit_and (a % 2 ^ 32) (v % 2 ^ 32)
alu32 alu_or a v = bit_or (a % 2 ^ 32) (v % 2 ^ 32)
alu32 alu_lsh a v = a * 2 ^ (v % 32) % 2 ^ 32
alu32 alu_mov a v = v % 2 ^ 32

abbrev pub taken : JmpOp → ℕ → ℕ → Bool
taken jeq a v = a == v
taken jne a v = not (a == v)
taken jgt a v = ltb v a
taken jge a v = leb v a
taken jlt a v = ltb a v

-- `hop n` skips `n` instructions, `leave` jumps to the next rule.
pub data Step : Type 0 where
  hop : ℕ → Machine → Step
  leave halt : Machine → Step
  stuck : Step

abbrev pub hop_by : Option (FixupType × ℕ) → ℕ → Machine → Step
hop_by (some (jmp_next_rule, _)) off m = leave m
hop_by _ off m = if ltb off (2 ^ 15) then hop off m else stuck

abbrev pub branch : Bool → Option (FixupType × ℕ) → ℕ → Machine → Step
branch true p off m = hop_by p off m
branch false p off m = hop 0 m

abbrev pub imm64 : Kernel → Option (FixupType × ℕ) → Insn → ℕ
imm64 k (some (t, a)) i = k.map_address t a
imm64 k none i = if i.src_reg == 0 then i.imm else k.fd_address i.imm

abbrev pub run_stub : Kernel → Option (FixupType × ℕ) → Insn → Machine → Reply
run_stub k (some (t, a)) i m = k.stub a m
run_stub k none i m = k.subprog i.imm m

abbrev pub step_op : Opcode → Kernel → Option (FixupType × ℕ) → Insn → Machine → Step
step_op (ldx s) k p i m =
    hop 0 (set_reg m i.dst_reg (load s m.mem (address (m.reg i.src_reg) i.off)))
step_op (stx s) k p i m =
    hop 0 (record m { mem = store s m.mem (address (m.reg i.dst_reg) i.off) (m.reg i.src_reg) })
step_op (st s) k p i m =
    hop 0 (record m { mem = store s m.mem (address (m.reg i.dst_reg) i.off) (sext32 i.imm) })
step_op (alu64_reg op) k p i m =
    hop 0 (set_reg m i.dst_reg (alu64 op (m.reg i.dst_reg) (m.reg i.src_reg)))
step_op (alu64_imm op) k p i m =
    hop 0 (set_reg m i.dst_reg (alu64 op (m.reg i.dst_reg) (sext32 i.imm)))
step_op (alu32_reg op) k p i m =
    hop 0 (set_reg m i.dst_reg (alu32 op (m.reg i.dst_reg) (m.reg i.src_reg)))
step_op (alu32_imm op) k p i m = hop 0 (set_reg m i.dst_reg (alu32 op (m.reg i.dst_reg) i.imm))
step_op bswap k p i m =
    if i.imm == 16 then hop 0 (set_reg m i.dst_reg (htobe16 (m.reg i.dst_reg))) else stuck
step_op (jmp_reg op) k p i m = branch (taken op (m.reg i.dst_reg) (m.reg i.src_reg)) p i.off m
step_op (jmp_imm op) k p i m = branch (taken op (m.reg i.dst_reg) (sext32 i.imm)) p i.off m
step_op jmp_a k p i m = hop_by p i.off m
step_op call k p i m = hop 0 (after m (k.helper i.imm m))
step_op call_kfunc k p i m = hop 0 (after m (k.kfunc i.imm m))
step_op call_rel k p i m = hop 0 (after m (run_stub k p i m))
step_op exit k p i m = halt m
step_op ld_imm64 k p i m = hop 1 (set_reg m i.dst_reg (imm64 k p i))
step_op ld_imm64_high k p i m = stuck

abbrev pub step : Kernel → Cell → Machine → Step
step k c m = step_op c.insn.code k c.pending c.insn m

-- `fell n m`: the code has ended with `n` instructions still to skip. `next m`: a jump to the next
-- rule was taken. `exited m`: the verdict is in register 0.
pub data Outcome : Type 0 where
  fell : ℕ → Machine → Outcome
  next exited : Machine → Outcome
  faulted : Outcome

-- What a step does, with the run of the rest of the code.
abbrev pub follow : (ℕ → Machine → Outcome) → Step → Outcome
follow f (hop n m) = f n m
follow f (leave m) = next m
follow f (halt m) = exited m
follow f stuck = faulted

unfoldable pub exec : Kernel → List Cell → ℕ → Machine → Outcome
exec k [] n m = fell n m
exec k (c ∷ cs) (suc n) m = exec k cs n m
exec k (c ∷ cs) zero m = follow (exec k cs) (step k c m)

-- The machine behind code that does not jump.
abbrev pub ran : Kernel → List Cell → Machine → Machine
ran k [] m = m
ran k (c ∷ cs) m = elim (step k c m) [ hop n m' ↦ ran k cs m' | _ ↦ m ]

-- What one load can give.
abbrev pub size_bound : Size → ℕ
size_bound byte = 2 ^ 8
size_bound half = 2 ^ 16
size_bound word = 2 ^ 32
size_bound dword = 2 ^ 64

pub load-lt : (s : Size) (mem : ℕ → ℕ) (a : ℕ) → load s mem a < size_bound s
unfolding load
load-lt byte mem a = omega arith
load-lt half mem a = omega arith
load-lt word mem a = omega arith
load-lt dword mem a = omega arith
