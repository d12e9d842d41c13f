-- ===== src/Cpu/Access.antt =====
-- The trait `OperandAccess` (src/cpu/operand_access.rs): how an instruction reads and writes its
-- operands of each kind, and the two loads of a far pointer.
use riapyx.Common.{ℕ, add16, Bool, true, false, Result, ok, panic, ◌>>=◌}
use riapyx.Common.Int.{sign_extend}
use riapyx.Cpu.Instruction.{BReg, WReg, BOperand, WOperand, FlowControlOperand}
use riapyx.Cpu.State.{Cpu, Core, ImplicitBOperand, ImplicitWOperand}
use riapyx.Cpu.Registers.{get_breg, set_breg, get_wreg, set_wreg, get_segreg, set_segreg}
use riapyx.Cpu.Address.{
  apply_segment_override, store_memory_u16, load_memory_u16, store_memory_u8, load_memory_u8,
  store_memory_u16_noov, load_memory_u16_noov, store_memory_u8_noov, load_memory_u8_noov,
  get_ireg_addr, get_ireg_u16_value, get_ireg_u8d_u16_value, get_ireg_u16d_u16_value,
  get_ireg_u8_value, get_ireg_u8d_u8_value, get_ireg_u16d_u8_value, set_ireg_u8_value,
  set_ireg_u8d_u8_value, set_ireg_u16d_u8_value, set_ireg_u16_value, set_ireg_u8d_u16_value,
  set_ireg_u16d_u16_value,
}
use riapyx.Cpu.Operand.{Operand, u8_operand, u16_operand}

-- The accumulator and the auxiliary register go by the size of the value alone.
pub record OperandAccess (T : Type 0) : Type 0 where
  pub value : Operand
  pub load_operand : Core → T → ℕ
  pub store_operand : T → ℕ → Core → Result Core
  pub get_acc : Cpu → ℕ
  pub set_acc : Cpu → ℕ → Cpu
  pub get_aux : Cpu → ℕ
  pub set_aux : Cpu → ℕ → Cpu

unfoldable pub load_boperand : Core → BOperand → ℕ
load_boperand s (BOperand.reg br) = get_breg s.cpu br
load_boperand s (BOperand.immediate imm) = imm
load_boperand s (BOperand.indirect ir) = get_ireg_u8_value s.cpu s.mem ir
load_boperand s (BOperand.indirect_8i_dis ir dis) = get_ireg_u8d_u8_value s.cpu s.mem ir dis
load_boperand s (BOperand.indirect_16u_dis ir dis) = get_ireg_u16d_u8_value s.cpu s.mem ir dis
load_boperand s (BOperand.direct addr) = load_memory_u8 s.cpu s.mem s.cpu.ds addr

unfoldable pub store_boperand : BOperand → ℕ → Core → Result Core
store_boperand (BOperand.reg br) val s = ok (record s { cpu = set_breg s.cpu br val })
store_boperand (BOperand.indirect ir) val s =
    ok (record s { mem = set_ireg_u8_value s.cpu s.mem ir val })
store_boperand (BOperand.indirect_8i_dis ir dis) val s =
    ok (record s { mem = set_ireg_u8d_u8_value s.cpu s.mem ir dis val })
store_boperand (BOperand.indirect_16u_dis ir dis) val s =
    ok (record s { mem = set_ireg_u16d_u8_value s.cpu s.mem ir dis val })
store_boperand (BOperand.direct addr) val s =
    ok (record s { mem = store_memory_u8 s.cpu s.mem s.cpu.ds addr val })
store_boperand (BOperand.immediate _) val s = panic

unfoldable pub load_woperand : Core → WOperand → ℕ
load_woperand s (WOperand.reg wr) = get_wreg s.cpu wr
load_woperand s (WOperand.seg_reg sr) = get_segreg s.cpu sr
load_woperand s (WOperand.immediate imm) = imm
load_woperand s (WOperand.direct addr) = load_memory_u16 s.cpu s.mem s.cpu.ds addr
load_woperand s (WOperand.indirect ir) = get_ireg_u16_value s.cpu s.mem ir
load_woperand s (WOperand.indirect_8i_dis ir dis) = get_ireg_u8d_u16_value s.cpu s.mem ir dis
load_woperand s (WOperand.indirect_16u_dis ir dis) = get_ireg_u16d_u16_value s.cpu s.mem ir dis

unfoldable pub store_woperand : WOperand → ℕ → Core → Result Core
store_woperand (WOperand.reg wr) val s = ok (record s { cpu = set_wreg s.cpu wr val })
store_woperand (WOperand.seg_reg sr) val s = ok (record s { cpu = set_segreg s.cpu sr val })
store_woperand (WOperand.direct addr) val s =
    ok (record s { mem = store_memory_u16 s.cpu s.mem s.cpu.ds addr val })
store_woperand (WOperand.indirect ir) val s =
    ok (record s { mem = set_ireg_u16_value s.cpu s.mem ir val })
store_woperand (WOperand.indirect_8i_dis ir dis) val s =
    ok (record s { mem = set_ireg_u8d_u16_value s.cpu s.mem ir dis val })
store_woperand (WOperand.indirect_16u_dis ir dis) val s =
    ok (record s { mem = set_ireg_u16d_u16_value s.cpu s.mem ir dis val })
store_woperand (WOperand.immediate _) val s = panic

unfoldable pub load_implicit_b : Core → ImplicitBOperand → ℕ
load_implicit_b s ImplicitBOperand.dssi = load_memory_u8 s.cpu s.mem s.cpu.ds s.cpu.si
load_implicit_b s ImplicitBOperand.esdi = load_memory_u8_noov s.mem s.cpu.es s.cpu.di

unfoldable pub store_implicit_b : ImplicitBOperand → ℕ → Core → Result Core
store_implicit_b ImplicitBOperand.dssi val s =
    ok (record s { mem = store_memory_u8 s.cpu s.mem s.cpu.ds s.cpu.si val })
store_implicit_b ImplicitBOperand.esdi val s =
    ok (record s { mem = store_memory_u8_noov s.mem s.cpu.es s.cpu.di val })

unfoldable pub load_implicit_w : Core → ImplicitWOperand → ℕ
load_implicit_w s ImplicitWOperand.dssi = load_memory_u16 s.cpu s.mem s.cpu.ds s.cpu.si
load_implicit_w s ImplicitWOperand.esdi = load_memory_u16_noov s.mem s.cpu.es s.cpu.di

unfoldable pub store_implicit_w : ImplicitWOperand → ℕ → Core → Result Core
store_implicit_w ImplicitWOperand.dssi val s =
    ok (record s { mem = store_memory_u16 s.cpu s.mem s.cpu.ds s.cpu.si val })
store_implicit_w ImplicitWOperand.esdi val s =
    ok (record s { mem = store_memory_u16_noov s.mem s.cpu.es s.cpu.di val })

instance abbrev pub b_access : OperandAccess BOperand
b_access = record {
  value = u8_operand;
  load_operand = load_boperand;
  store_operand = store_boperand;
  get_acc = λ c. get_breg c BReg.al;
  set_acc = λ c val. set_breg c BReg.al val;
  get_aux = λ c. get_breg c BReg.ah;
  set_aux = λ c val. set_breg c BReg.ah val;
}

instance abbrev pub w_access : OperandAccess WOperand
w_access = record {
  value = u16_operand;
  load_operand = load_woperand;
  store_operand = store_woperand;
  get_acc = λ c. get_wreg c WReg.ax;
  set_acc = λ c val. set_wreg c WReg.ax val;
  get_aux = λ c. get_wreg c WReg.dx;
  set_aux = λ c val. set_wreg c WReg.dx val;
}

instance abbrev pub implicit_b_access : OperandAccess ImplicitBOperand
implicit_b_access = record {
  value = u8_operand;
  load_operand = load_implicit_b;
  store_operand = store_implicit_b;
  get_acc = λ c. get_breg c BReg.al;
  set_acc = λ c val. set_breg c BReg.al val;
  get_aux = λ c. get_breg c BReg.ah;
  set_aux = λ c val. set_breg c BReg.ah val;
}

instance abbrev pub implicit_w_access : OperandAccess ImplicitWOperand
implicit_w_access = record {
  value = u16_operand;
  load_operand = load_implicit_w;
  store_operand = store_implicit_w;
  get_acc = λ c. get_wreg c WReg.ax;
  set_acc = λ c val. set_wreg c WReg.ax val;
  get_aux = λ c. get_wreg c WReg.dx;
  set_aux = λ c val. set_wreg c WReg.dx val;
}

-- The segment and the offset of a 32-bit operand.
unfoldable pub woperand_32_addr : Cpu → WOperand → Result (ℕ × ℕ)
woperand_32_addr c (WOperand.indirect ir) = ok (get_ireg_addr c ir)
woperand_32_addr c (WOperand.direct addr) = ok (apply_segment_override c c.ds, addr)
woperand_32_addr c (WOperand.indirect_8i_dis ir dis) =
    let (seg, addr) = get_ireg_addr c ir in ok (seg, add16 addr (sign_extend dis))
woperand_32_addr c (WOperand.indirect_16u_dis ir dis) =
    let (seg, addr) = get_ireg_addr c ir in ok (seg, add16 addr dis)
woperand_32_addr c (WOperand.immediate _) = panic
woperand_32_addr c (WOperand.reg _) = panic
woperand_32_addr c (WOperand.seg_reg _) = panic

unfoldable pub load_woperand_32 : Core → WOperand → Result (ℕ × ℕ)
unfolding woperand_32_addr
load_woperand_32 s src = do
  (seg, addr) ← woperand_32_addr s.cpu src
  ok (load_memory_u16 s.cpu s.mem seg addr, load_memory_u16 s.cpu s.mem seg (add16 addr 2))

-- Whether the target is in another segment, its segment and its offset.
unfoldable pub load_fcoperand : Core → FlowControlOperand → Result (Bool × ℕ × ℕ)
load_fcoperand s (FlowControlOperand.direct_seg inc) = ok (false, s.cpu.cs, add16 s.cpu.ip inc)
load_fcoperand s (FlowControlOperand.indirect_seg op) = ok (false, s.cpu.cs, load_woperand s op)
load_fcoperand s (FlowControlOperand.direct_inter_seg cs ip) = ok (true, cs, ip)
load_fcoperand s (FlowControlOperand.indirect_inter_seg op) = do
  (addr, seg) ← load_woperand_32 s op
  ok (true, seg, addr)
