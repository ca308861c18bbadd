-- ===== src/FileBlockStore/MemFs.antt =====
-- A file system in memory: the interface `Posix` can be met.
use rawdishfs.Base.{
  Bool, Bytes, List, Option, [], arith, drop, false, if◌then◌else◌, length, map, none, refl, some,
  take, true, ℕ, ◌+◌, ◌-◌, ◌≡◌, ◌≤◌,
}
use rawdishfs.Base.Keys.{bytes_key}
use rawdishfs.Base.OrdMap.{OrdMap, lookup, insert, erase, lookup-insert_self}
use rawdishfs.Posix.{Entry, Posix}

pub record Disk : Type 0 where
  pub files : OrdMap Bytes Bytes
  pub fds : ℕ

abbrev contents : Option Bytes → ℕ → Option Bytes
contents none n = none
contents (some bs) n = some (take n bs)

abbrev is_there : Option Bytes → Bool
is_there none = false
is_there (some bs) = true

unfoldable pub open_write : Disk → Bytes → Disk × Bool
unfolding insert
open_write d path = (record { files = insert path [] d.files; fds = d.fds + 1 }, true)

unfoldable pub open_read : Disk → Bytes → Disk × Bool
unfolding lookup
open_read d path =
    if is_there (lookup path d.files) then (record d { fds = d.fds + 1 }, true) else (d, false)

unfoldable pub write : Disk → Bytes → Bytes → Disk × Option ℕ
unfolding insert
write d path content = (record d { files = insert path content d.files }, some (length content))

unfoldable pub read : Disk → Bytes → ℕ → Option Bytes
unfolding lookup
read d path n = contents (lookup path d.files) n

unfoldable pub unlink : Disk → Bytes → Disk × Bool
unfolding lookup erase
unlink d path =
    if is_there (lookup path d.files)
    then (record d { files = erase path d.files }, true)
    else (d, false)

-- The names of the files below a directory whose name ends with a slash.
unfoldable pub entries : Disk → Bytes → Option (List Entry)
entries d dir = some (map (λ f. record { name = drop (length dir) f.0; regular = true }) d.files)

pub write_bound :
    (d : Disk) (path content : Bytes) (n : ℕ)
    → (write d path content).1 ≡ some n
    → n ≤ length content
unfolding write
write_bound d path content n e = ground arith

pub read-write :
    (d : Disk) (path content : Bytes) (n : ℕ)
    → (open_write d path).1 ≡ true
    → (write (open_write d path).0 path content).1 ≡ some (length content)
    → (open_read
        (record (write (open_write d path).0 path content).0 {
          fds = (write (open_write d path).0 path content).0.fds - 1;
        })
        path).1
      ≡ true
    → read
        (open_read
          (record (write (open_write d path).0 path content).0 {
            fds = (write (open_write d path).0 path content).0.fds - 1;
          })
          path).0
        path
        n
      ≡ some (take n content)
unfolding open_write open_read write read
read-write d path content n h k l =
    rw (lookup-insert_self path content (insert path [] d.files))
      (rw (lookup-insert_self path content (insert path [] d.files)) refl)

pub open_read_files :
    (d : Disk) (path : Bytes)
    → (open_read d path).0.fds ≡ d.fds + (if (open_read d path).1 then 1 else 0)
unfolding open_read
open_read_files d path = ground arith

pub open_write_files :
    (d : Disk) (path : Bytes)
    → (open_write d path).0.fds ≡ d.fds + (if (open_write d path).1 then 1 else 0)
unfolding open_write
open_write_files d path = refl

pub write_files : (d : Disk) (path content : Bytes) → (write d path content).0.fds ≡ d.fds
unfolding write
write_files d path content = refl

abbrev pub mem_fs : Posix
mem_fs = record {
  World = Disk;
  open_write = open_write;
  open_read = open_read;
  write = write;
  read = read;
  close = λ d. record d { fds = d.fds - 1 };
  unlink = unlink;
  statfs = λ d path. some (10, 4096);
  entries = entries;
  open_files = λ d. d.fds;
  write_bound = write_bound;
  read-write = read-write;
  open_write_files = open_write_files;
  open_read_files = open_read_files;
  write_files = write_files;
  close_files = λ d. refl;
}
