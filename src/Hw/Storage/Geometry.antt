-- ===== src/Hw/Storage/Geometry.antt =====
-- Sectors and their numbers.
use riapyx.Common.{
  ℕ, suc, ◌+◌, ◌-◌, ◌*◌, ◌/◌, ◌%◌, ◌^◌, ◌<◌, ◌≤◌, ◌≡◌, ◌↔◌, ap, ◌∙◌, arith, false, u32,
}
use native.Mathlib.Nat
use riapyx.Hw.Storage.{DriveParameters, heads, sectors_per_track, cylinders}
use riapyx.Hw.Storage.Disk.{is_invalid_chs, lba_of}

-- What the types of the fields guarantee.
pub record IsGeometry (p : DriveParameters) : Type 0 where
  pub heads_fit : heads p < 256
  pub sectors_fit : sectors_per_track p < 256
  pub cylinders_fit : cylinders p < 65536

-- A sector that the drive has, counted from one.
abbrev pub IsSector : DriveParameters → ℕ → ℕ → ℕ → Type 0
IsSector p cylinder head sector =
    (cylinder < cylinders p) × (head < heads p) × (0 < sector) × (sector ≤ sectors_per_track p)

abbrev pub capacity : DriveParameters → ℕ
capacity p = cylinders p * heads p * sectors_per_track p

below : (a m : ℕ) → a < m → suc a ≤ m
below a m h = h

row_bound : (a b m n : ℕ) → a < m → b < n → a * n + b < m * n
row_bound a b m n h k = omega (arith, Nat.mul-le-mul_right n (below a m h), Nat.suc-mul a n, k)

fits : (a n : ℕ) → a < n + 1 → a ≤ n
fits a n h = omega (arith, h)

small : (a : ℕ) → a < 2 ^ 32 → u32 a ≡ a
small a h = omega (arith, h)

-- The number of the sector, without the wrap-around.
abbrev number : DriveParameters → ℕ → ℕ → ℕ → ℕ
number p cylinder head sector = (cylinder * heads p + head) * sectors_per_track p + (sector - 1)

number-lt : (p : DriveParameters) (c h s : ℕ) → IsSector p c h s → number p c h s < capacity p
number-lt p c h s (a, b, d, e) =
    row_bound (c * heads p + h) (s - 1) (cylinders p * heads p) (sectors_per_track p)
      (row_bound c h (cylinders p) (heads p) a b) (omega arith)

capacity-lt : (p : DriveParameters) → IsGeometry p → capacity p < 2 ^ 32
capacity-lt p g = omega (
  arith,
  Nat.mul-le-mul
      (Nat.mul-le-mul (fits (cylinders p) 65535 g.cylinders_fit) (fits (heads p) 255 g.heads_fit))
      (fits (sectors_per_track p) 255 g.sectors_fit),
)

quotient : (a b n : ℕ) → b < n → (a * n + b) / n ≡ a
quotient a b n h = Nat.mul-add-div_right (omega (arith, h)) a b ∙ omega (arith, Nat.div-eq_of_lt h)

remainder : (a b n : ℕ) → b < n → (a * n + b) % n ≡ b
remainder a b n h = Nat.mul-add-mod_self_right a n b ∙ Nat.mod-eq_of_lt h

module _ (p : DriveParameters) (c h s : ℕ) (g : IsGeometry p) (k : IsSector p c h s) where
  track_small : c * heads p + h < 2 ^ 32
  track_small = omega (
    arith,
    row_bound c h (cylinders p) (heads p) k.0 k.1,
    Nat.mul-le-mul (fits (cylinders p) 65535 g.cylinders_fit) (fits (heads p) 255 g.heads_fit),
  )

  lba_of-number : lba_of p c h s ≡ number p c h s
  unfolding lba_of
  lba_of-number =
      rw (small (c * heads p) (omega (arith, track_small)), small (c * heads p + h) track_small)
        (small (number p c h s) (omega (arith, number-lt p c h s k, capacity-lt p g)))

-- Where the fields of the drive fit their types, a sector of the drive has a number below the
-- drive's capacity, computed without overflow, from which its cylinder, head and sector come back.
pub lba_of_lem :
    (p : DriveParameters) (cylinder head sector : ℕ)
    → IsGeometry p
    → IsSector p cylinder head sector
    → let lba = lba_of p cylinder head sector in
      (lba < capacity p)
      × (lba / sectors_per_track p / heads p ≡ cylinder)
      × (lba / sectors_per_track p % heads p ≡ head)
      × (lba % sectors_per_track p + 1 ≡ sector)
lba_of_lem p c h s g k =
    let q = quotient (c * heads p + h) (s - 1) (sectors_per_track p) (omega (arith, k)) in
    rw (lba_of-number p c h s g k) (
      number-lt p c h s k,
      ap (λ z. z / heads p) q ∙ quotient c h (heads p) k.1,
      ap (λ z. z % heads p) q ∙ remainder c h (heads p) k.1,
      ap (λ z. z + 1) (remainder (c * heads p + h) (s - 1) (sectors_per_track p) (omega (arith, k)))
          ∙ omega (arith, k),
    )

-- The test in front of every transfer is exactly whether the drive has the sector.
pub is_invalid_chs_iff :
    (p : DriveParameters) (cylinder head sector : ℕ)
    → (is_invalid_chs p cylinder head sector ≡ false) ↔ IsSector p cylinder head sector
is_invalid_chs_iff p c h s = (
  λ e. (ground (arith, e), ground (arith, e), ground (arith, e), ground (arith, e)),
  λ k. ground (arith, k),
)
