-- ===== src/Tests/Storage.antt =====
-- A drive over an image in memory.
use riapyx.Common.{
  ℕ, [], ◌+◌, ◌/◌, ◌%◌, ◌<◌, ◌≡◌, ◌↔◌, refl, arith, false, some, Returns, ok, ◌>>=◌,
}
use riapyx.Cpu.State.{phys_addr}
use riapyx.Hw.Storage.{
  DriveParameters, HardDiskParameters, heads, sectors_per_track, cylinders, floppy_320kb,
}
use riapyx.Hw.Storage.Disk.{Storage, lba_of, is_invalid_chs, read_chs, write_chs, new_floppy}
use riapyx.Hw.Storage.Geometry.{IsSector, lba_of_lem, is_invalid_chs_iff}
use riapyx.Hw.Storage.Transfer.{IsFile, IsTransferred, write_chs-read_chs}
use riapyx.Bios.Boot.{boot_storage}
use riapyx.Mem
use riapyx.Bios.{BiosState, BootDrive, Bios}
use riapyx.Bios.Disk.{read_sectors, write_sectors}
use riapyx.Bios.Failures.{HasFailed, interrupted, transfers-HasFailed}
use riapyx.Cpu.Registers.{get_breg, get_wreg}
use riapyx.Cpu.Step.{System, step}
use riapyx.Cpu.State
use riapyx.Bios.Trap.{cpu_trap}
use riapyx.Bios.Booting.{IsBooted, step-IsBooted}
use riapyx.Tests.Sample.{
  Image, image_ops, blank, sample_cpu, sample_cpu-IsCpu, sample_hw, no_decoder,
}
use riapyx.Mem.{addr_max}

abbrev byte_of : Image → ℕ → ℕ
byte_of f b = f.byte b

abbrev position_of : Image → ℕ
position_of f = f.position

image_ops-IsFile : IsFile image_ops byte_of position_of 368640
image_ops-IsFile = record {
  seek_result = λ f n. refl;
  seek_position = λ f n. refl;
  seek_contents = λ f n b. refl;
  read_result = λ f n h. refl;
  read_contents = λ f n b. refl;
  write_result = λ f s h. refl;
  write_contents = λ f s b h. refl;
}

abbrev pub floppy : Storage Image
floppy = new_floppy blank

abbrev pub disk : DriveParameters
disk = DriveParameters.hard_disk (record {
  cylinders = 615;
  heads = 16;
  control_byte = 0xc8;
  landing_zone_cylinder = 615;
  sectors_per_track = 63;
})

lba_of_lem_example :
    let lba = lba_of disk 614 15 63 in
    (lba < 619920) × (lba / 63 / 16 ≡ 614) × (lba / 63 % 16 ≡ 15) × (lba % 63 + 1 ≡ 63)
unfolding heads sectors_per_track cylinders
lba_of_lem_example =
    lba_of_lem disk 614 15 63
      (record { heads_fit = omega arith; sectors_fit = omega arith; cylinders_fit = omega arith })
      (omega arith, omega arith, omega arith, omega arith)

is_invalid_chs_iff_example : (is_invalid_chs disk 614 15 64 ≡ false) ↔ IsSector disk 614 15 64
is_invalid_chs_iff_example = is_invalid_chs_iff disk 614 15 64

-- A drive with other parameters.
abbrev stale : HardDiskParameters
stale = record {
  cylinders = 0;
  heads = 0;
  control_byte = 0;
  landing_zone_cylinder = 0;
  sectors_per_track = 0;
}

write_chs-read_chs_example : Returns (IsTransferred 2 Mem.new 0x10010 0x20020) (
    write_chs image_ops floppy Mem.new 2 39 1 8 0x1000 0x10 >>= λ (w, st₁).
    read_chs image_ops st₁ Mem.new 2 39 1 8 0x2000 0x20 >>= λ r. ok (w, r))
unfolding new_floppy floppy_320kb heads sectors_per_track cylinders phys_addr lba_of
write_chs-read_chs_example =
    write_chs-read_chs image_ops byte_of position_of 368640 image_ops-IsFile floppy Mem.new Mem.new
      2 39 1 8 0x1000 0x10 0x2000 0x20 refl (omega arith) (omega arith) (omega arith) (omega arith)

-- DH asks for head 128, which a diskette does not have.
abbrev bad_call : System Image Bios
bad_call = record {
  cpu = sample_cpu;
  mem = Mem.new;
  hw = record sample_hw { floppy = some floppy };
  bios = record { state = BiosState.good; boot_drive = BootDrive.floppy };
}

transfers-HasFailed_example :
    Returns (HasFailed sample_cpu) (read_sectors image_ops 0 floppy (interrupted 0x13 bad_call))
    × Returns (HasFailed sample_cpu) (write_sectors image_ops 0 floppy (interrupted 0x13 bad_call))
unfolding get_breg get_wreg new_floppy floppy_320kb heads sectors_per_track cylinders
transfers-HasFailed_example =
    transfers-HasFailed image_ops 0 floppy bad_call 0x13 sample_cpu-IsCpu refl

-- A machine that starts with a diskette.
abbrev new_machine : System Image Bios
new_machine = record {
  cpu = State.new 0xf000 0xfff0;
  mem = Mem.new;
  hw = record sample_hw { floppy = some floppy };
  bios = record { state = BiosState.good; boot_drive = BootDrive.floppy };
}

step-IsBooted_example :
    Returns
      (IsBooted new_machine.cpu 0 blank.byte)
      (step no_decoder (cpu_trap image_ops []) 1 new_machine)
unfolding State.new boot_storage new_floppy
step-IsBooted_example =
    step-IsBooted image_ops byte_of position_of 368640 image_ops-IsFile (omega arith) no_decoder []
      0 new_machine 0 floppy refl refl refl
