-- ===== src/Tests/Instructions.antt =====
-- Whole instructions.
use riapyx.Common.{◌≡◌, arith, Returns, ◌>>=◌, true, false}
use riapyx.Cpu.Instruction.{WReg, WOperand, TwoOperandsOpCode, SingleBImmOperandOpCode}
use riapyx.Cpu.State.{flag_c}
use riapyx.Cpu.Registers.{get_wreg, has_flag}
use riapyx.Cpu.Access.{load_woperand}
use riapyx.Cpu.Exec.TwoOperands.{run_twop_ins}
use riapyx.Cpu.Exec.TwoOperands.Sums.{Leaves, add_result, sub_result, adc_result, sbb_result}
use riapyx.Cpu.Exec.Stack.{stack_push, stack_pop}
use riapyx.Cpu.Exec.Stack.Interrupts.{stack_pop-stack_push}
use riapyx.Cpu.Branch.{run_sbiop_ins}
use riapyx.Cpu.Branch.Compare.{Relation, compare_jump}
use riapyx.Tests.Sample.{sample, sample_cpu, sample_hw}

compare_jump_example :
    Returns
      (λ r. r.0.cpu.ip ≡ 0x00f0)
      (run_twop_ins TwoOperandsOpCode.cmp (WOperand.reg WReg.bx) (WOperand.reg WReg.ax) sample
        >>= λ s₁. run_sbiop_ins SingleBImmOperandOpCode.jnle 0xf0 s₁ sample_hw)
unfolding load_woperand get_wreg
compare_jump_example =
    compare_jump Relation.greater (WOperand.reg WReg.bx) (WOperand.reg WReg.ax) 0xf0 sample
      sample_hw (omega arith) (omega arith)

add_result_example :
    Returns
      (Leaves WReg.ax 0x1232 (false, true, true))
      (run_twop_ins TwoOperandsOpCode.add (WOperand.reg WReg.bx) (WOperand.reg WReg.ax) sample)
unfolding load_woperand get_wreg
add_result_example = add_result WReg.ax (WOperand.reg WReg.bx) sample (omega arith) (omega arith)

sub_result_example :
    Returns
      (Leaves WReg.ax 0x1236 (false, true, true))
      (run_twop_ins TwoOperandsOpCode.sub (WOperand.reg WReg.bx) (WOperand.reg WReg.ax) sample)
unfolding load_woperand get_wreg
sub_result_example = sub_result WReg.ax (WOperand.reg WReg.bx) sample (omega arith) (omega arith)

adc_result_example :
    Returns
      (λ t. (get_wreg t.cpu WReg.ax ≡ 0x1233) × (has_flag t.cpu flag_c ≡ true))
      (run_twop_ins TwoOperandsOpCode.adc (WOperand.reg WReg.bx) (WOperand.reg WReg.ax) sample)
unfolding load_woperand get_wreg
adc_result_example = adc_result WReg.ax (WOperand.reg WReg.bx) sample (omega arith) (omega arith)

sbb_result_example :
    Returns
      (λ t. (get_wreg t.cpu WReg.ax ≡ 0x1235) × (has_flag t.cpu flag_c ≡ true))
      (run_twop_ins TwoOperandsOpCode.sbb (WOperand.reg WReg.bx) (WOperand.reg WReg.ax) sample)
unfolding load_woperand get_wreg
sbb_result_example = sbb_result WReg.ax (WOperand.reg WReg.bx) sample (omega arith) (omega arith)

stack_pop-stack_push_example :
    stack_pop (stack_push 0xbeef sample).mem (stack_push 0xbeef sample).cpu ≡ (0xbeef, sample_cpu)
stack_pop-stack_push_example = stack_pop-stack_push sample 0xbeef (omega arith) (omega arith)
