-- ===== src/Core/Fs/Sizes.antt =====
-- How the sizes of a file system fit together.
use native.Mathlib.Nat.{mod-eq_of_lt, mul-le-mul_right}
use prostometrics_agent.Metrics.{whole, label, Emission, value_sparse}
use prostometrics_agent.Base.{
  ℕ, List, [], ◌∷◌, some, Bytes, codes, ◌-◌, ◌+◌, ◌*◌, ◌/◌, ◌^◌, ◌≤◌, ◌<◌, ◌≡◌, refl, arith,
}
use prostometrics_agent.Core.Fs.{Statfs, fs_sizes, used_of, emit_fs_stat}

-- What is answered of a file system whose size in bytes fits into 64 bits, and of which no more is
-- free than there is.
abbrev pub IsSound : Statfs → Type 0
IsSound st = (st.blocks * st.bsize < 2 ^ 64) × (st.bfree ≤ st.blocks) × (st.ffree ≤ st.files)

kilobytes :
    (t f : ℕ)
    → f ≤ t
    → (used_of t f / 1024 + f / 1024 ≤ t / 1024) × (t / 1024 ≤ used_of t f / 1024 + f / 1024 + 1)
kilobytes t f h = ground arith

inodes : (all free : ℕ) → free ≤ all → used_of all free ≡ all - free
inodes all free h = ground arith

-- One number is sent of the mount, with its kind.
abbrev IsSent : Bytes → Bytes → Bytes → Bytes → ℕ → Emission → Type 0
IsSent metric device mount typ v e =
    e
    ≡ value_sparse metric (whole v) (
        label (codes "mount") mount ∷ label (codes "device") device ∷ label (codes "type") typ ∷ [])

-- The six calls, in this order, with these used and free kilobytes.
abbrev pub SendsSizes : Bytes → Bytes → Statfs → ℕ → ℕ → List Emission → Type 0
SendsSizes device mount st used free (a ∷ b ∷ c ∷ d ∷ e ∷ f ∷ []) =
    IsSent (codes "host.fs.capacity_kb") device mount (codes "total") (st.blocks * st.bsize / 1024)
      a
    × IsSent (codes "host.fs.capacity_kb") device mount (codes "used") used b
    × IsSent (codes "host.fs.capacity_kb") device mount (codes "free") free c
    × IsSent (codes "host.fs.inodes_count") device mount (codes "total") st.files d
    × IsSent (codes "host.fs.inodes_count") device mount (codes "used") (st.files - st.ffree) e
    × IsSent (codes "host.fs.inodes_count") device mount (codes "free") st.ffree f
SendsSizes device mount st used free _ = ⊥

-- Of a file system whose size in bytes fits into 64 bits, and of which no more blocks and inodes are
-- free than there are, six numbers are sent: the whole size, the used and the free kilobytes, and the
-- inodes, the used ones being those that are not free. The free kilobytes are those of the free
-- blocks, and with the used ones add up to the whole size but for the one that rounding may lose.
pub fs_sizes_lem :
    (device mount : Bytes) (st : Statfs)
    → IsSound st
    → (used : ℕ) × (free : ℕ) × (SendsSizes device mount st used free
          (emit_fs_stat device mount (some st))
        × (free ≡ st.bfree * st.bsize / 1024)
        × (used + free ≤ st.blocks * st.bsize / 1024)
        × (st.blocks * st.bsize / 1024 ≤ used + free + 1))
unfolding fs_sizes
fs_sizes_lem device mount st (h, k, j) =
    let le = mul-le-mul_right st.bsize k in
    let whole_size = mod-eq_of_lt {n = st.blocks * st.bsize} {m = 2 ^ 64} h in
    let part = mod-eq_of_lt {n = st.bfree * st.bsize} {m = 2 ^ 64} (omega arith) in
    let (p, q) = kilobytes (st.blocks * st.bsize) (st.bfree * st.bsize) le in
    (
      used_of (st.blocks * st.bsize) (st.bfree * st.bsize) / 1024,
      st.bfree * st.bsize / 1024,
      (
        rw (whole_size, part, inodes st.files st.ffree j) (refl, refl, refl, refl, refl, refl),
        refl,
        p,
        q,
      ),
    )
