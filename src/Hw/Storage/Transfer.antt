-- ===== src/Hw/Storage/Transfer.antt =====
-- What is written to a disk is read from it.
use riapyx.Common.{
  ℕ, zero, suc, ◌+◌, ◌-◌, ◌*◌, ◌/◌, ◌<◌, ◌≤◌, ◌≡◌, ◌!=◌, refl, sym, ap, ◌∙◌, arith, ltb, leb, ◌&&◌,
  if◌then◌else◌, true, false, u8, u32, some, Slice, ok, ◌>>=◌, Returns,
}
use riapyx.Cpu.State.{phys_addr}
use riapyx.Mem.{Memory, addr_max, read_u8, write_u8, slice}
use riapyx.Mem.Access.{read_u8-write_u8}
use riapyx.Hw.Storage.{Status}
use riapyx.Hw.Storage.Disk.{
  FileOps, Storage, copy_from, is_invalid_chs, lba_of, read, write, read_chs, write_chs,
}

-- What a file of the operating system does, as long as it stays within its `size` bytes: it has
-- contents and a position.
pub record IsFile {F : Type 0} (ops : FileOps F) (contents : F → ℕ → ℕ) (position : F → ℕ)
    (size : ℕ) : Type 0 where
  pub seek_result : (f : F) (n : ℕ) → (ops.seek f n).0 ≡ some n
  pub seek_position : (f : F) (n : ℕ) → position (ops.seek f n).1 ≡ n
  pub seek_contents : (f : F) (n b : ℕ) → contents (ops.seek f n).1 b ≡ contents f b
  pub read_result :
      (f : F) (n : ℕ)
      → position f + n ≤ size
      → (ops.read_into f n).0 ≡ some (record { len = n; byte = λ i. contents f (position f + i) })
  pub read_contents : (f : F) (n b : ℕ) → contents (ops.read_into f n).1 b ≡ contents f b
  pub write_result :
      (f : F) (s : Slice) → position f + s.len ≤ size → (ops.write_from f s).0 ≡ some s.len
  pub write_contents :
      (f : F) (s : Slice) (b : ℕ)
      → position f + s.len ≤ size
      → contents (ops.write_from f s).1 b ≡ (
          if leb (position f) b && ltb b (position f + s.len)
          then s.byte (b - position f)
          else contents f b)

pub copy_from_lem :
    (buf : Slice) (n i to : ℕ) (m : Memory) (b : ℕ)
    → to + i + n ≤ addr_max
    → b < addr_max
    → read_u8 (copy_from buf n i to m) b
      ≡ (if leb (to + i) b && ltb b (to + i + n) then buf.byte (b - to) else read_u8 m b)
unfolding copy_from
copy_from_lem buf zero i to m b h k = ground arith
copy_from_lem buf (suc n) i to m b h k = ground (
  arith,
  copy_from_lem buf n (i + 1) to (write_u8 m (u32 (to + i)) (buf.byte i)) b (omega arith) k,
  read_u8-write_u8 m (u32 (to + i)) b (buf.byte i),
)

neq_self : (n : ℕ) → (n != n) ≡ false
neq_self n = ground arith

leb_self : (n : ℕ) → leb n n ≡ true
leb_self n = ground arith

pub in_block :
    (byte : ℕ → ℕ) (p i n old : ℕ)
    → i < n
    → (if leb (p + 0) (p + i) && ltb (p + i) (p + 0 + n) then byte (p + i - p) else old) ≡ byte i
in_block byte p i n old h = ground (arith, h)

ram_byte : (m : Memory) (a : ℕ) → a < addr_max → read_u8 m a ≡ m.ram a
unfolding read_u8
ram_byte m a h = ap m.ram (omega (arith, h))

in_ram : (a n : ℕ) → a + n ≤ addr_max → leb (a + n) addr_max ≡ true
in_ram a n h = ground (arith, h)

module _ {F : Type 0} (ops : FileOps F) (contents : F → ℕ → ℕ) (position : F → ℕ) (size : ℕ)
    (file : IsFile ops contents position size) where
  after_seek : (f : F) (n k : ℕ) → n + k ≤ size → position (ops.seek f n).1 + k ≤ size
  after_seek f n k h = rw (file.seek_position f n) h

  -- The bytes that a read finds.
  abbrev pub found : F → ℕ → ℕ → Slice
  found f from len =
      let f₁ = (ops.seek f from).1 in
      record { len = len; byte = λ i. contents f₁ (position f₁ + i) }

  pub read_lem :
      (st : Storage F) (m : Memory) (from to len : ℕ)
      → from + len ≤ size
      → read ops st m from to len
        ≡ ok (
          (Status.success, len),
          (
            record st { file = (ops.read_into (ops.seek st.file from).1 len).1 },
            copy_from (found st.file from len) len 0 to m,
          ),
        )
  unfolding read
  read_lem st m from to len h =
      rw
        (
          file.seek_result st.file from,
          neq_self from,
          file.read_result (ops.seek st.file from).1 len (after_seek st.file from len h),
          leb_self len,
        )
        refl

  -- The bytes that a write takes.
  abbrev taken : Memory → ℕ → ℕ → Slice
  taken m from len = record { len = len; byte = λ i. m.ram (from + i) }

  write_lem :
      (st : Storage F) (m : Memory) (to from len : ℕ)
      → to + len ≤ size
      → from + len ≤ addr_max
      → write ops st m to from len
        ≡ ok (
          (Status.success, len),
          record st { file = (ops.write_from (ops.seek st.file to).1 (taken m from len)).1 },
        )
  unfolding write slice
  write_lem st m to from len h k =
      rw
        (
          file.seek_result st.file to,
          neq_self to,
          in_ram from len k,
          file.write_result (ops.seek st.file to).1 (taken m from len)
              (after_seek st.file to len h),
          leb_self len,
        )
        refl

  written :
      (f : F) (m : Memory) (to from len i : ℕ)
      → to + len ≤ size
      → i < len
      → contents (ops.write_from (ops.seek f to).1 (taken m from len)).1 (to + i) ≡ m.ram (from + i)
  written f m to from len i h k =
      file.write_contents (ops.seek f to).1 (taken m from len) (to + i) (after_seek f to len h)
      ∙ rw (file.seek_position f to) (ground (arith, k))

  pub found_byte : (f : F) (from len i : ℕ) → (found f from len).byte i ≡ contents f (from + i)
  found_byte f from len i = file.seek_contents f from _ ∙ rw (file.seek_position f from) refl

sectors_of : (n : ℕ) → n < 256 → u8 (n * 512 / 512) ≡ n
sectors_of n h = omega arith

module _ {F : Type 0} (ops : FileOps F) (contents : F → ℕ → ℕ) (position : F → ℕ) (size : ℕ)
    (file : IsFile ops contents position size) (st : Storage F) (count c h s : ℕ)
    (valid : is_invalid_chs st.parameters c h s ≡ false)
    (fits : u32 (lba_of st.parameters c h s * 512) + count * 512 ≤ size) (byte : count < 256) where
  abbrev pos : ℕ
  pos = u32 (lba_of st.parameters c h s * 512)

  read_chs_lem :
      (f : F) (m : Memory) (seg addr : ℕ)
      → read_chs ops (record st { file = f }) m count c h s seg addr
        ≡ ok (
          (Status.success, count),
          (
            record st { file = (ops.read_into (ops.seek f pos).1 (count * 512)).1 },
            copy_from
                (found ops contents position size file f pos (count * 512))
                (count * 512)
                0
                (phys_addr seg addr)
                m,
          ),
        )
  unfolding read_chs
  read_chs_lem f m seg addr =
      rw
        (
          valid,
          read_lem ops contents position size file (record st { file = f }) m pos
              (phys_addr seg addr) (count * 512) fits,
          sectors_of count byte,
        )
        refl

  write_chs_lem :
      (m : Memory) (seg addr : ℕ)
      → phys_addr seg addr + count * 512 ≤ addr_max
      → write_chs ops st m count c h s seg addr
        ≡ ok (
          (Status.success, count),
          record st {
            file =
                (ops.write_from
                  (ops.seek st.file pos).1
                  (taken ops contents position size file m (phys_addr seg addr) (count * 512))).1;
          },
        )
  unfolding write_chs
  write_chs_lem m seg addr k =
      rw
        (
          valid,
          write_lem ops contents position size file st m pos (phys_addr seg addr) (count * 512) fits
              k,
          sectors_of count byte,
        )
        refl

-- Both transfers succeeded, and the bytes at `p₁` are those that were at `p₀`.
abbrev pub IsTransferred {ℓ} :
    {F : Type ℓ} → ℕ → Memory → ℕ → ℕ → (Status × ℕ) × ((Status × ℕ) × (F × Memory)) → Type 0
IsTransferred count m₀ p₀ p₁ (w, (r, (_, m))) =
    (w ≡ (Status.success, count))
    × (r ≡ (Status.success, count))
    × ((i : ℕ) → i < count * 512 → read_u8 m (p₁ + i) ≡ read_u8 m₀ (p₀ + i))

-- On a drive whose image behaves as a file and holds the sectors that are asked for: sectors that
-- are written from one place in memory and then read to another arrive there byte by byte, and both
-- calls report success and the number of sectors.
pub write_chs-read_chs :
    {F : Type 0} (ops : FileOps F) (contents : F → ℕ → ℕ) (position : F → ℕ) (size : ℕ)
    → IsFile ops contents position size
    → (st : Storage F) (m₀ m₁ : Memory) (count cylinder head sector seg₀ addr₀ seg₁ addr₁ : ℕ)
    → is_invalid_chs st.parameters cylinder head sector ≡ false
    → u32 (lba_of st.parameters cylinder head sector * 512) + count * 512 ≤ size
    → count < 256
    → phys_addr seg₀ addr₀ + count * 512 ≤ addr_max
    → phys_addr seg₁ addr₁ + count * 512 ≤ addr_max
    → Returns (IsTransferred count m₀ (phys_addr seg₀ addr₀) (phys_addr seg₁ addr₁)) (
        write_chs ops st m₀ count cylinder head sector seg₀ addr₀ >>= λ (w, st₁).
        read_chs ops st₁ m₁ count cylinder head sector seg₁ addr₁ >>= λ r. ok (w, r))
write_chs-read_chs ops contents position size file st m₀ m₁ count c h s seg₀ addr₀ seg₁ addr₁ valid
      fits byte k₀ k₁ =
    let pos = u32 (lba_of st.parameters c h s * 512) in
    let p₀ = phys_addr seg₀ addr₀ in
    let p₁ = phys_addr seg₁ addr₁ in
    let f =
      (ops.write_from (ops.seek st.file pos).1
        (taken ops contents position size file m₀ p₀ (count * 512))).1 in
    rw
      (
        write_chs_lem ops contents position size file st count c h s valid fits byte m₀ seg₀ addr₀
            k₀,
        read_chs_lem ops contents position size file st count c h s valid fits byte f m₁ seg₁ addr₁,
      )
      (
        refl,
        refl,
        λ i u.
            copy_from_lem (found ops contents position size file f pos (count * 512)) (count * 512)
              0 p₁ m₁ (p₁ + i) (omega arith) (omega arith)
            ∙ in_block (found ops contents position size file f pos (count * 512)).byte p₁ i
                (count * 512) (read_u8 m₁ (p₁ + i)) u
            ∙ found_byte ops contents position size file f pos (count * 512) i
            ∙ written ops contents position size file st.file m₀ pos p₀ (count * 512) i fits u
            ∙ sym (ram_byte m₀ (p₀ + i) (omega arith)),
      )
