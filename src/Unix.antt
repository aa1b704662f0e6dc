-- ===== src/Unix.antt =====
-- unix_nifat32.c: the callbacks that a host gives to the file system, over the file of a volume.
use ni_fat.Base.{ℕ, ◌+◌, ◌*◌, ◌==◌, if◌then◌else◌, List, length, u32}
use ni_fat.State.{Driver}
use ni_fat.Formatter.Files.{Posix}

-- a test of C
abbrev is_some : ℕ → ℕ
is_some n = if n == 0 then 0 else 1

module _ {S : Type 0} (f : Posix S) (sector_size : ℕ) where
  -- `_mock_sector_read_`, with the bytes that it puts into the buffer
  unfoldable pub mock_sector_read : S → ℕ → ℕ → ℕ → ℕ × List ℕ
  mock_sector_read t sa offset size =
      let bytes = f.pread t (u32 (sa * sector_size + offset)) size in
      (is_some (length bytes), bytes)

  -- `_mock_sector_write_`
  unfoldable pub mock_sector_write : S → ℕ → ℕ → List ℕ → ℕ × S
  mock_sector_write t sa offset bytes =
      let (n, t') = f.pwrite t (u32 (sa * sector_size + offset)) bytes in (is_some n, t')

  abbrev pub disk_io : Driver S
  disk_io = record { read_sector = mock_sector_read; write_sector = mock_sector_write }
