-- ===== src/Posix.antt =====
-- The operating system as the block store of src/blockstore/fileblockstore.cc sees it: an
-- interface with the documented behaviour that the store relies on. A file name is a byte string
-- with no null byte, and a descriptor is named by the path that it was opened for.
use rawdishfs.Base.{
  Bool, Bytes, List, Option, if◌then◌else◌, length, some, take, true, ℕ, ◌+◌, ◌-◌, ◌≡◌, ◌≤◌,
}

-- What `readdir` returns: `d_name`, and whether `d_type` is `DT_REG`.
pub record Entry : Type 0 where
  pub name : Bytes
  pub regular : Bool

pub record Posix : Type 1 where
  pub World : Type 0
  -- `open(path, O_CREAT|O_TRUNC|O_WRONLY, 0777)` and `open(path, O_RDONLY)`; `false` is -1.
  pub open_write : World → Bytes → World × Bool
  pub open_read : World → Bytes → World × Bool
  -- `write` and `read`; `none` is -1.
  pub write : World → Bytes → Bytes → World × Option ℕ
  pub read : World → Bytes → ℕ → Option Bytes
  pub close : World → World
  -- `true` is 0.
  pub unlink : World → Bytes → World × Bool
  -- `f_bavail` and `f_bsize`
  pub statfs : World → Bytes → Option (ℕ × ℕ)
  -- `opendir`, and what `readdir` returns up to the null pointer
  pub entries : World → Bytes → Option (List Entry)
  -- the open descriptors
  pub open_files : World → ℕ
  pub write_bound :
      (w : World) (path content : Bytes) (n : ℕ)
      → (write w path content).1 ≡ some n
      → n ≤ length content
  pub read-write :
      (w : World) (path content : Bytes) (n : ℕ)
      → (open_write w path).1 ≡ true
      → (write (open_write w path).0 path content).1 ≡ some (length content)
      → (open_read (close (write (open_write w path).0 path content).0) path).1 ≡ true
      → read (open_read (close (write (open_write w path).0 path content).0) path).0 path n
        ≡ some (take n content)
  pub open_write_files :
      (w : World) (path : Bytes)
      → open_files (open_write w path).0 ≡ open_files w + (if (open_write w path).1 then 1 else 0)
  pub open_read_files :
      (w : World) (path : Bytes)
      → open_files (open_read w path).0 ≡ open_files w + (if (open_read w path).1 then 1 else 0)
  pub write_files :
      (w : World) (path content : Bytes) → open_files (write w path content).0 ≡ open_files w
  pub close_files : (w : World) → open_files (close w) ≡ open_files w - 1
