-- ===== src/Tests/Decoder.antt =====
-- The decoder.
use riapyx.Common.{◌==◌, if◌then◌else◌, Slice}
use riapyx.Cpu.Parser.Iced.{IcedInstruction, IcedCode, IcedOpKind}

-- `ADD AX, 0x55aa` as `81 c0 aa 55`, and zeros.
abbrev add_bytes : Slice
add_bytes = record {
  len = 6;
  byte = λ i.
      if i == 0
      then 0x81
      else if i == 1
      then 0xc0
      else if i == 2
      then 0xaa
      else if i == 3
      then 0x55
      else 0;
}

-- A decoder that knows `AAM` alone, behind six prefixes that the tables do not know.
abbrev aam_decoder : Slice → IcedInstruction
aam_decoder _ = record {
  code = IcedCode.aam_imm8;
  op0_kind = IcedOpKind.immediate8;
  immediate8 = 10;
  memory_displacement64 = 0;
  len = 8;
}
