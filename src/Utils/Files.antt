-- ===== src/Utils/Files.antt =====
-- sprintutils/files.go: files that are created, removed and copied. A file system maps paths to
-- nodes; what the system denies and how much fits on the disk are parameters.
pub mod Copies
use sprintframework.Common.{ℕ, ◌+◌, arith}
use sprintframework.Common.{Bool, Option, none, some, [], ◌++◌}
use sprintframework.Common.{
  Bytes, codes, nat_eq, bytes_eq, if◌then◌else◌, ltb, length, take, Result, ok, err,
}
use sprintframework.Common.Dict
use sprintframework.Common.Dict.{Dict}

pub record File : Type 0 where
  pub content : Bytes
  pub mode : ℕ

pub data Node : Type 0 where
  file : File → Node
  dir : ℕ → Node

abbrev pub Fs : Type 0
Fs = Dict Bytes Node

pub data Access : Type 0 where
  reading creating changing removing making appending : Access

pub data FileError : Type 0 where
  refused : Access → Bytes → FileError
  not_readable short_write : Bytes → FileError

-- `fits` is how many bytes can be written to a path, if there is a limit; `umask` is what the
-- system makes of the mode of a new node.
pub record Disk : Type 0 where
  pub denied : Access → Bytes → Bool
  pub fits : Bytes → Option ℕ
  pub umask : ℕ → ℕ

unfoldable pub with_mode : ℕ → Node → Node
with_mode perm (file f) = file (record f { mode = perm })
with_mode perm (dir m) = dir perm

unfoldable pub set_content : Bytes → Bytes → Fs → Fs
set_content path bytes fs = elim (Dict.lookup path fs) [
  | none ↦ fs
  | some n ↦ elim n [
    | dir m ↦ fs
    | file f ↦ Dict.insert path (file (record f { content = bytes })) fs
  ]
]

module _ (d : Disk) where
  -- `os.OpenFile` with O_RDWR, O_CREATE and O_TRUNC.
  unfoldable pub open_truncated : Bytes → ℕ → Fs → Result FileError Fs
  open_truncated path perm fs =
      if d.denied creating path then err (refused creating path) else elim (Dict.lookup path fs) [
        | none ↦ ok (Dict.insert path (file (record { content = []; mode = d.umask perm })) fs)
        | some n ↦ elim n [
          | dir m ↦ err (refused creating path)
          | file f ↦ ok (Dict.insert path (file (record f { content = [] })) fs)
        ]
      ]

  -- `os.Chmod`
  unfoldable pub chmod : Bytes → ℕ → Fs → Option FileError × Fs
  unfolding with_mode
  chmod path perm fs = elim (Dict.lookup path fs) [
    | none ↦ (some (refused changing path), fs)
    | some n ↦
        if d.denied changing path
        then (some (refused changing path), fs)
        else (none, Dict.insert path (with_mode perm n) fs)
  ]

  -- `CreateFileIfNeeded`
  unfoldable pub create_file_if_needed : Bytes → ℕ → Fs → Option FileError × Fs
  create_file_if_needed path perm fs = elim (Dict.lookup path fs) [
    | some n ↦ (none, fs)
    | none ↦ elim (open_truncated path perm fs) [ err e ↦ (some e, fs) | ok g ↦ chmod path perm g ]
  ]

  -- `CreateDirIfNeeded`
  unfoldable pub create_dir_if_needed : Bytes → ℕ → Fs → Option FileError × Fs
  create_dir_if_needed path perm fs = elim (Dict.lookup path fs) [
    | some n ↦ (none, fs)
    | none ↦
        if d.denied making path
        then (some (refused making path), fs)
        else chmod path perm (Dict.insert path (dir (d.umask perm)) fs)
  ]

  -- `RemoveFileIfExist`
  unfoldable pub remove_file_if_exist : Bytes → Fs → Option FileError × Fs
  remove_file_if_exist path fs = elim (Dict.lookup path fs) [
    | none ↦ (none, fs)
    | some n ↦
        if d.denied removing path
        then (some (refused removing path), fs)
        else (none, Dict.erase path fs)
  ]

  -- `io.Copy` of the data into the open file: what does not fit is not written.
  unfoldable pub write_all : Bytes → Bytes → Fs → Result FileError ℕ × Fs
  unfolding set_content
  write_all path bytes fs = elim (d.fits path) [
    | none ↦ (ok (length bytes), set_content path bytes fs)
    | some n ↦
        if ltb n (length bytes)
        then (err (short_write path), set_content path (take n bytes) fs)
        else (ok (length bytes), set_content path bytes fs)
  ]

  -- What is read of the source once the destination is truncated, which may be the same file.
  unfoldable pub copy_content : Bytes → Bytes → Fs → Result FileError ℕ × Fs
  copy_content src dst fs = elim (Dict.lookup src fs) [
    | none ↦ (err (not_readable src), fs)
    | some n ↦ elim n [ dir m ↦ (err (not_readable src), fs) | file f ↦ write_all dst f.content fs ]
  ]

  -- `copyFile`
  unfoldable pub copy_raw : Bytes → Bytes → ℕ → Fs → Result FileError ℕ × Fs
  unfolding copy_content
  copy_raw src dst perm fs = elim (Dict.lookup src fs) [
    | none ↦ (err (refused reading src), fs)
    | some n ↦
        if d.denied reading src
        then (err (refused reading src), fs)
        else elim (open_truncated dst perm fs) [
          | err e ↦ (err e, fs)
          | ok g ↦ copy_content src dst g
        ]
  ]

  unfoldable pub finished : Bytes → ℕ → Result FileError ℕ × Fs → ℕ × Option FileError × Fs
  finished dst perm (err e, fs) = (0, some e, fs)
  finished dst perm (ok count, fs) = let (e, g) = chmod dst perm fs in (count, e, g)

  -- `CopyFile`: the count, and the error.
  unfoldable pub copy_file : Bytes → Bytes → ℕ → Fs → ℕ × Option FileError × Fs
  unfolding finished
  copy_file src dst perm fs = finished dst perm (copy_raw src dst perm fs)

  -- `BackupFile`
  unfoldable pub backup_file : Bytes → ℕ → Fs → ℕ × Option FileError × Fs
  backup_file path perm fs = elim (Dict.lookup path fs) [
    | none ↦ (0, none, fs)
    | some n ↦ copy_file path (path ++ codes ".bak") perm fs
  ]
