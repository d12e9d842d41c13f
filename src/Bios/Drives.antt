-- ===== src/Bios/Drives.antt =====
-- The parameters of a drive that booting leaves in memory are those that a reset of it reads.
use riapyx.Common.{IsU16}
use riapyx.Hw.Storage.{DisketteParameters, HardDiskParameters, DriveParameters}
use riapyx.Hw.Storage.Disk.{Storage}

-- What the types of the fields guarantee.
pub data Fits : DriveParameters → Type 0 where
  floppy : (p : DisketteParameters) → Fits (DriveParameters.floppy p)
  hard_disk :
      (p : HardDiskParameters)
      → IsU16 p.cylinders
      → IsU16 p.landing_zone_cylinder
      → Fits (DriveParameters.hard_disk p)

-- The two are of one kind, a floppy disk or a hard disk.
pub data IsAlike : DriveParameters → DriveParameters → Type 0 where
  floppies :
      (p q : DisketteParameters) → IsAlike (DriveParameters.floppy p) (DriveParameters.floppy q)
  hard_disks :
      (p q : HardDiskParameters)
      → IsAlike (DriveParameters.hard_disk p) (DriveParameters.hard_disk q)
