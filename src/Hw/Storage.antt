-- ===== src/Hw/Storage.antt =====
-- The parameters of a drive (src/hw/storage.rs): its geometry, and the tables that hold it in the
-- guest's memory.
pub mod Disk
pub mod Geometry
pub mod Transfer
use riapyx.Common.{ℕ, ◌+◌, ◌*◌, ◌/◌, ltb, u16, Result, ok, assert, ◌>>=◌, ◌>>◌}
use riapyx.Cpu.State.{phys_addr}
use riapyx.Mem.{Memory, read_u8, read_u16, write_u8, write_u16}

abbrev pub diskette_parameters_irq : ℕ
diskette_parameters_irq = 0x1E

abbrev pub hdd_parameters_irq : ℕ
hdd_parameters_irq = 0x41

pub record DisketteParameters : Type 0 where
  pub step_rate_hi_head_unload_time_lo : ℕ
  pub head_load_time_hi7b_non_dma_lo : ℕ
  pub delay_until_motor_off : ℕ
  pub bytes_per_sector : ℕ
  pub sectors_per_track : ℕ
  pub gap_len_between_sectors : ℕ
  pub data_length : ℕ
  pub gap_length : ℕ
  pub format_filler : ℕ
  pub head_settle_time : ℕ
  pub motor_start_time : ℕ

pub record HardDiskParameters : Type 0 where
  pub cylinders : ℕ
  pub heads : ℕ
  pub control_byte : ℕ
  pub landing_zone_cylinder : ℕ
  pub sectors_per_track : ℕ

pub data DriveParameters : Type 0 where
  floppy : DisketteParameters → DriveParameters
  hard_disk : HardDiskParameters → DriveParameters

pub data Status : Type 0 where
  success sector_not_found : Status

unfoldable pub store_diskette : DisketteParameters → Memory → ℕ → Memory
store_diskette p mem addr =
    let m₀ = write_u8 mem (addr + 0x0) p.step_rate_hi_head_unload_time_lo in
    let m₁ = write_u8 m₀ (addr + 0x1) p.head_load_time_hi7b_non_dma_lo in
    let m₂ = write_u8 m₁ (addr + 0x2) p.delay_until_motor_off in
    let m₃ = write_u8 m₂ (addr + 0x3) p.bytes_per_sector in
    let m₄ = write_u8 m₃ (addr + 0x4) p.sectors_per_track in
    let m₅ = write_u8 m₄ (addr + 0x5) p.gap_len_between_sectors in
    let m₆ = write_u8 m₅ (addr + 0x6) p.data_length in
    let m₇ = write_u8 m₆ (addr + 0x7) p.gap_length in
    let m₈ = write_u8 m₇ (addr + 0x8) p.format_filler in
    let m₉ = write_u8 m₈ (addr + 0x9) p.head_settle_time in
    write_u8 m₉ (addr + 0xa) p.motor_start_time

unfoldable pub load_diskette : Memory → ℕ → DisketteParameters
load_diskette mem addr = record {
  step_rate_hi_head_unload_time_lo = read_u8 mem (addr + 0x0);
  head_load_time_hi7b_non_dma_lo = read_u8 mem (addr + 0x1);
  delay_until_motor_off = read_u8 mem (addr + 0x2);
  bytes_per_sector = read_u8 mem (addr + 0x3);
  sectors_per_track = read_u8 mem (addr + 0x4);
  gap_len_between_sectors = read_u8 mem (addr + 0x5);
  data_length = read_u8 mem (addr + 0x6);
  gap_length = read_u8 mem (addr + 0x7);
  format_filler = read_u8 mem (addr + 0x8);
  head_settle_time = read_u8 mem (addr + 0x9);
  motor_start_time = read_u8 mem (addr + 0xa);
}

unfoldable pub floppy_1_44mb : DisketteParameters
floppy_1_44mb = record {
  step_rate_hi_head_unload_time_lo = 0xff;
  head_load_time_hi7b_non_dma_lo = 0x02;
  delay_until_motor_off = 0x00;
  bytes_per_sector = 0x02;
  sectors_per_track = 0x12;
  gap_len_between_sectors = 0x1b;
  data_length = 0x00;
  gap_length = 0x6c;
  format_filler = 0xf6;
  head_settle_time = 0x00;
  motor_start_time = 0x00;
}

unfoldable pub floppy_320kb : DisketteParameters
floppy_320kb = record {
  step_rate_hi_head_unload_time_lo = 0xff;
  head_load_time_hi7b_non_dma_lo = 0x02;
  delay_until_motor_off = 0x00;
  bytes_per_sector = 0x02;
  sectors_per_track = 0x09;
  gap_len_between_sectors = 0x1b;
  data_length = 0x00;
  gap_length = 0x6c;
  format_filler = 0xf6;
  head_settle_time = 0x00;
  motor_start_time = 0x00;
}

-- `HardDiskParameters::new`
unfoldable pub new_hard_disk : ℕ → ℕ → ℕ → Result HardDiskParameters
new_hard_disk cylinders heads sectors_per_track =
    assert (ltb 8 heads)
    >> ok (record {
      cylinders = cylinders;
      heads = heads;
      control_byte = 0xc8;
      landing_zone_cylinder = cylinders;
      sectors_per_track = sectors_per_track;
    })

unfoldable pub load_hard_disk : Memory → ℕ → HardDiskParameters
load_hard_disk mem addr = record {
  cylinders = read_u16 mem (addr + 0x0);
  heads = read_u8 mem (addr + 0x2);
  control_byte = read_u8 mem (addr + 0x8);
  landing_zone_cylinder = read_u16 mem (addr + 0xc);
  sectors_per_track = read_u8 mem (addr + 0xe);
}

unfoldable pub store_hard_disk : HardDiskParameters → Memory → ℕ → Memory
store_hard_disk p mem addr =
    let m₀ = write_u16 mem (addr + 0x0) p.cylinders in
    let m₁ = write_u8 m₀ (addr + 0x2) p.heads in
    let m₂ = write_u8 m₁ (addr + 0x8) p.control_byte in
    let m₃ = write_u16 m₂ (addr + 0xc) p.landing_zone_cylinder in
    let m₄ = write_u8 m₃ (addr + 0xe) p.sectors_per_track in write_u8 m₄ (addr + 0xf) 0

abbrev irq_of : DriveParameters → ℕ
irq_of (DriveParameters.floppy _) = diskette_parameters_irq
irq_of (DriveParameters.hard_disk _) = hdd_parameters_irq

unfoldable pub params_addr : DriveParameters → Memory → ℕ
unfolding phys_addr
params_addr p mem =
    let irq = irq_of p in
    let addr = read_u16 mem (irq * 4) in let seg = read_u16 mem (irq * 4 + 2) in phys_addr seg addr

unfoldable pub load : DriveParameters → Memory → DriveParameters
unfolding load_diskette load_hard_disk
load (DriveParameters.floppy p) mem =
    DriveParameters.floppy (load_diskette mem (params_addr (DriveParameters.floppy p) mem))
load (DriveParameters.hard_disk p) mem =
    DriveParameters.hard_disk (load_hard_disk mem (params_addr (DriveParameters.hard_disk p) mem))

unfoldable pub heads : DriveParameters → ℕ
heads (DriveParameters.floppy _) = 2
heads (DriveParameters.hard_disk p) = p.heads

unfoldable pub sectors_per_track : DriveParameters → ℕ
sectors_per_track (DriveParameters.floppy p) = p.sectors_per_track
sectors_per_track (DriveParameters.hard_disk p) = p.sectors_per_track

unfoldable pub cylinders : DriveParameters → ℕ
cylinders (DriveParameters.floppy _) = 80
cylinders (DriveParameters.hard_disk p) = p.cylinders

unfoldable pub get_bios_code : Status → ℕ
get_bios_code Status.success = 0x00
get_bios_code Status.sector_not_found = 0x04

-- The size of the image, in bytes, gives the number of cylinders.
unfoldable pub hdd_geometry : ℕ → Result HardDiskParameters
unfolding new_hard_disk
hdd_geometry hdd_size = new_hard_disk (u16 (hdd_size / 63 / 16 / 512)) 16 63
