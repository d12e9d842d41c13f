-- ===== src/Hw/Storage/Disk.antt =====
-- A drive (`Storage` of src/hw/storage.rs): sectors are read from its image into memory and written
-- from memory to the image. The image is a file of the operating system, a parameter.
use riapyx.Common.{
  ℕ, zero, suc, ◌+◌, ◌-◌, ◌*◌, ◌/◌, ltb, leb, ◌==◌, ◌!=◌, ◌||◌, if◌then◌else◌, u8, u32, Bool,
  Option, none, some, Slice, Result, ok, panic, assert, ◌>>=◌, ◌>>◌,
}
use riapyx.Cpu.State.{phys_addr}
use riapyx.Mem.{Memory, write_u8, slice}
use riapyx.Hw.Storage.{
  DriveParameters, Status, heads, sectors_per_track, cylinders, load, store_diskette,
  store_hard_disk, diskette_parameters_irq, hdd_parameters_irq, floppy_320kb, hdd_geometry,
}

-- What the standard library's files do: `seek` from the start gives the new position, `read` gives
-- as many bytes as it found, at most the buffer's size, and `write` the number of bytes it wrote.
-- `none` is an error.
pub record FileOps (F : Type 0) : Type 0 where
  pub seek : F → ℕ → Option ℕ × F
  pub read_into : F → ℕ → Option Slice × F
  pub write_from : F → Slice → Option ℕ × F

pub record Storage (F : Type 0) : Type 0 where
  pub file : F
  pub parameters : DriveParameters

-- `unwrap`, and a match of which the other arm is `panic!`.
abbrev pub unwrap {ℓ} : {A : Type ℓ} → Option A → Result A
unwrap none = panic
unwrap (some a) = ok a

-- `for i in 0..read { mem.write_u8(to + i, buf[i]) }`, from `i` on, `n` times.
unfoldable pub copy_from : Slice → ℕ → ℕ → ℕ → Memory → Memory
copy_from buf zero i to mem = mem
copy_from buf (suc n) i to mem =
    copy_from buf n (i + 1) to (write_u8 mem (u32 (to + i)) (buf.byte i))

-- A cylinder, a head or a sector that the drive does not have.
abbrev pub is_invalid_chs : DriveParameters → ℕ → ℕ → ℕ → Bool
is_invalid_chs p cylinder head sector =
    leb (heads p) head
    || ltb (sectors_per_track p) sector
    || sector == 0
    || leb (cylinders p) cylinder

unfoldable pub lba_of : DriveParameters → ℕ → ℕ → ℕ → ℕ
unfolding heads sectors_per_track
lba_of p cylinder head sector =
    u32 (u32 (u32 (cylinder * heads p) + head) * sectors_per_track p + (sector - 1))

module _ {F : Type 0} where
  unfoldable pub new_floppy : F → Storage F
  new_floppy file = record { file = file; parameters = DriveParameters.floppy floppy_320kb }

  -- The file and its size in bytes.
  unfoldable pub new_hdd : F → ℕ → Result (Storage F)
  unfolding hdd_geometry
  new_hdd file hdd_size = do
    p ← hdd_geometry hdd_size
    ok (record { file = file; parameters = DriveParameters.hard_disk p })

  unfoldable pub reset : Storage F → Memory → Status × Storage F
  unfolding load
  reset st mem = (Status.success, record st { parameters = load st.parameters mem })

  -- The vector to overwrite and what it points at.
  unfoldable pub init : Storage F → Memory → (ℕ × ℕ × ℕ) × Memory
  unfolding store_diskette store_hard_disk
  init st mem = elim st.parameters [
    | DriveParameters.floppy p ↦
        ((diskette_parameters_irq, 0xf000, 0xEFC7), store_diskette p mem (phys_addr 0xf000 0xEFC7))
    | DriveParameters.hard_disk p ↦
        ((hdd_parameters_irq, 0xf000, 0xE401), store_hard_disk p mem (phys_addr 0xf000 0xE401))
  ]

  module _ (ops : FileOps F) where
    unfoldable pub read :
        Storage F → Memory → ℕ → ℕ → ℕ → Result ((Status × ℕ) × (Storage F × Memory))
    unfolding copy_from
    read st mem from to len = do
      let (pos, f₁) = ops.seek st.file from
      at ← unwrap pos
      let (got, f₂) = ops.read_into f₁ len
      let transfer : Result ((Status × ℕ) × (Storage F × Memory)) = unwrap got >>= λ buf.
          assert (leb buf.len len)
          >> assert (leb len buf.len)
          >> ok
              ((Status.success, buf.len), (record st { file = f₂ }, copy_from buf buf.len 0 to mem))
      (if at != from
          then ok ((Status.sector_not_found, 0), (record st { file = f₁ }, mem))
          else transfer)

    unfoldable pub write : Storage F → Memory → ℕ → ℕ → ℕ → Result ((Status × ℕ) × Storage F)
    write st mem to from len = do
      let (pos, f₁) = ops.seek st.file to
      at ← unwrap pos
      let transfer : Result ((Status × ℕ) × Storage F) = slice mem from len >>= λ input_buf.
          (let (done, f₂) = ops.write_from f₁ input_buf in
            unwrap done >>= λ written.
            assert (leb written len)
            >> assert (leb len written)
            >> ok ((Status.success, written), record st { file = f₂ }))
      (if at != to then ok ((Status.sector_not_found, 0), record st { file = f₁ }) else transfer)

    unfoldable pub read_chs :
        Storage F → Memory → ℕ → ℕ → ℕ → ℕ → ℕ → ℕ → Result ((Status × ℕ) × (Storage F × Memory))
    unfolding read lba_of phys_addr
    read_chs st mem sector_count cylinder head sector data_seg data_addr =
        if is_invalid_chs st.parameters cylinder head sector
        then ok ((Status.sector_not_found, 0), (st, mem))
        else (do
          let lba = lba_of st.parameters cylinder head sector
          ((status, n), after) ←
              read st mem (u32 (lba * 512)) (phys_addr data_seg data_addr) (sector_count * 512)
          ok ((status, u8 (n / 512)), after))

    unfoldable pub write_chs :
        Storage F → Memory → ℕ → ℕ → ℕ → ℕ → ℕ → ℕ → Result ((Status × ℕ) × Storage F)
    unfolding write lba_of phys_addr
    write_chs st mem sector_count cylinder head sector data_seg data_addr =
        if is_invalid_chs st.parameters cylinder head sector
        then ok ((Status.sector_not_found, 0), st)
        else (do
          let lba = lba_of st.parameters cylinder head sector
          ((status, n), after) ←
              write st mem (u32 (lba * 512)) (phys_addr data_seg data_addr) (sector_count * 512)
          ok ((status, u8 (n / 512)), after))
