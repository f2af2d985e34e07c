-- ===== src/Core/Fs.antt =====
-- internal/collectors/core/fs.go: `collectFSProc`, on the lines of the file. What `Statfs` answers of
-- a mount is given.
pub mod Sizes
use prostometrics_agent.Base.{
  ℕ, ◌+◌, ◌-◌, ◌*◌, ◌/◌, ◌%◌, ◌^◌, Bool, true, false, ◌||◌, List, [], ◌∷◌, ◌++◌, Option, none, some,
  Bytes, codes, if◌then◌else◌, ◌===◌, leb, elem_bytes,
}
use prostometrics_agent.Metrics.{whole, label, Emission, value_sparse}
use prostometrics_agent.Text.Search.{has_prefix}
use prostometrics_agent.Text.Space.{fields}

-- The fields of `syscall.Statfs_t` that are read, as uint64.
pub record Statfs : Type 0 where
  pub blocks : ℕ
  pub bsize : ℕ
  pub bfree : ℕ
  pub files : ℕ
  pub ffree : ℕ

abbrev pub skipped_fs_types : List Bytes
skipped_fs_types =
    codes "proc"
    ∷ codes "sysfs"
    ∷ codes "tmpfs"
    ∷ codes "devtmpfs"
    ∷ codes "devpts"
    ∷ codes "cgroup"
    ∷ codes "cgroup2"
    ∷ codes "overlay"
    ∷ codes "squashfs"
    ∷ codes "debugfs"
    ∷ codes "mqueue"
    ∷ codes "rpc_pipefs"
    ∷ codes "nsfs"
    ∷ codes "tracefs"
    ∷ codes "autofs"
    ∷ codes "binfmt_misc"
    ∷ codes "pstore"
    ∷ codes "fusectl"
    ∷ codes "configfs"
    ∷ []

unfoldable pub skip_fs_type : Bytes → Bool
unfolding elem_bytes
skip_fs_type fs_type = elem_bytes fs_type skipped_fs_types

unfoldable pub skip_mountpoint : Bytes → Bool
skip_mountpoint mount =
    (mount === codes "/proc")
    || (mount === codes "/sys")
    || (mount === codes "/dev")
    || has_prefix mount (codes "/run")

-- `a * b` of uint64 numbers.
abbrev pub bytes_of : ℕ → ℕ → ℕ
bytes_of blocks size = (blocks * size) % 2 ^ 64

abbrev pub used_of : ℕ → ℕ → ℕ
used_of all free = if leb free all then all - free else 0

-- What is sent of a mount: kilobytes and inodes, each as total, used and free.
pub record FsSizes : Type 0 where
  pub total_kb : ℕ
  pub used_kb : ℕ
  pub free_kb : ℕ
  pub total_inodes : ℕ
  pub used_inodes : ℕ
  pub free_inodes : ℕ

unfoldable pub fs_sizes : Statfs → FsSizes
fs_sizes st =
    let total_bytes = bytes_of st.blocks st.bsize in
    let free_bytes = bytes_of st.bfree st.bsize in
    record {
      total_kb = total_bytes / 1024;
      used_kb = used_of total_bytes free_bytes / 1024;
      free_kb = free_bytes / 1024;
      total_inodes = st.files;
      used_inodes = used_of st.files st.ffree;
      free_inodes = st.ffree;
    }

abbrev sized : Bytes → Bytes → Bytes → Bytes → ℕ → Emission
sized metric device mount typ v =
    value_sparse metric (whole v)
      (label (codes "mount") mount ∷ label (codes "device") device ∷ label (codes "type") typ ∷ [])

abbrev emit_sizes : Bytes → Bytes → FsSizes → List Emission
emit_sizes device mount s =
    let space = sized (codes "host.fs.capacity_kb") device mount in
    let inodes = sized (codes "host.fs.inodes_count") device mount in
    space (codes "total") s.total_kb
    ∷ space (codes "used") s.used_kb
    ∷ space (codes "free") s.free_kb
    ∷ inodes (codes "total") s.total_inodes
    ∷ inodes (codes "used") s.used_inodes
    ∷ inodes (codes "free") s.free_inodes
    ∷ []

abbrev pub emit_fs_stat : Bytes → Bytes → Option Statfs → List Emission
emit_fs_stat device mount none = []
emit_fs_stat device mount (some st) = emit_sizes device mount (fs_sizes st)

module _ (statfs : Bytes → Option Statfs) where
  abbrev emit_mount : Bytes → Bytes → Bytes → List Emission
  emit_mount device mount fs_type =
      if skip_fs_type fs_type || skip_mountpoint mount
      then []
      else emit_fs_stat device mount (statfs mount)

  abbrev mount_line : List Bytes → List Emission
  mount_line (device ∷ mount ∷ fs_type ∷ fs) = emit_mount device mount fs_type
  mount_line fs = []

  -- The lines as far as the scanner got; what was sent before an error stays sent.
  unfoldable pub collect_fs_proc : List Bytes → List Emission
  collect_fs_proc [] = []
  collect_fs_proc (line ∷ lines) = mount_line (fields line) ++ collect_fs_proc lines
