-- ===== src/Tests/Files.antt =====
-- The theorems on directories, locks and offsets, each at one call.
use luaposix.Base.{
  Bytes, Every, List, Option, [], ap, arith, lit, none, pos, refl, some, ℕ, ◌-◌, ◌^◌, ◌↔◌, ◌∷◌, ◌≡◌,
}
use luaposix.Dirent.Bindings.{DirCalls, iterator_of, p_dir, p_files}
use luaposix.Dirent.Streams.{Lists, Streams, dir_returns_all, files_closes_once, visit}
use luaposix.Fcntl.Bindings.{FcntlCalls, Flock, lock_call}
use luaposix.Fcntl.Locks.{lock_call_fields}
use luaposix.Helpers.Fields.{checkfieldnames, table_entries}
use luaposix.Helpers.Known.{IsKnown, checkfieldnames_iff}
use luaposix.Lua.{Machine, Value, empty, entry, get_field, integer, nil, ok, string, table, ◌>>=◌}
use luaposix.Tests.Fixtures.{Ledger, calm_unistd, idle, lua54}
use luaposix.Unistd.Calls.{UnistdCalls}
use luaposix.Unistd.Descriptors.{p_lseek}
use luaposix.Unistd.Offsets.{lseek_of_wide_offset}

-- a directory: the names that are still to be read, and the streams that are open
abbrev Disk : Type 0
Disk = List Bytes × List ℕ

abbrev open_streams : Disk → List ℕ
open_streams k = k.1

abbrev next_name : Machine Disk → List Bytes → Option Bytes × Machine Disk
next_name m [] = (none, m)
next_name m (name ∷ names) = (some name, record m { kernel = (names, m.kernel.1) })

abbrev without_latest : List ℕ → List ℕ
without_latest [] = []
without_latest (d ∷ ds) = ds

abbrev disk : DirCalls Disk
disk = record {
  opendir = λ path m. (some 5, record m { kernel = (m.kernel.0, 5 ∷ m.kernel.1) });
  readdir = λ d m. next_name m m.kernel.0;
  closedir = λ d m. (tt, record m { kernel = (m.kernel.0, without_latest m.kernel.1) });
}

next_name-open_streams :
    (m : Machine Disk) (names : List Bytes)
    → open_streams (next_name m names).1.kernel ≡ open_streams m.kernel
next_name-open_streams m [] = refl
next_name-open_streams m (name ∷ names) = refl

disk-Streams : Streams open_streams disk
disk-Streams = record {
  granted = λ path d w w' e. cc e;
  reading = λ d w. next_name-open_streams w w.kernel.0;
  closed = λ d others w e. ap without_latest e;
}

abbrev two_files : Machine Disk
two_files = record { errno = pos 0; kernel = (lit "a" ∷ lit "b" ∷ [], []) }

dir_returns_all_example : p_dir ⦃lua = lua54⦄ disk 3 (string (lit "/tmp") ∷ []) two_files ≡ (
  ok (
      some (
        entry
          (integer (pos 1))
          (string (lit "a"))
          (entry (integer (pos 2)) (string (lit "b")) empty))),
  record { errno = pos 0; kernel = ([], []) },
)
dir_returns_all_example =
    dir_returns_all ⦃lua = lua54⦄ disk (lit "/tmp") (lit "a" ∷ lit "b" ∷ []) 3 5 two_files _ _ refl
      (Lists.next refl (Lists.next refl (Lists.last refl))) (omega arith)

files_closes_once_example :
    open_streams
      (visit ⦃lua = lua54⦄ disk 4
        (some 5)
        (p_files ⦃lua = lua54⦄ disk (string (lit "/tmp") ∷ []) two_files).1).1.kernel
    ≡ []
unfolding p_files iterator_of ◌>>=◌
files_closes_once_example =
    files_closes_once ⦃lua = lua54⦄ open_streams disk disk-Streams (lit "/tmp") 4 5 two_files _ refl

abbrev some_lock : Flock
some_lock = record {
  l_type = pos 1;
  l_whence = pos 0;
  l_start = pos 10;
  l_len = pos 20;
  l_pid = pos 100;
}

abbrev locks : FcntlCalls Ledger
locks = record {
  fcntl_lock = λ fd cmd type whence start len m. ((pos 0, some_lock), m);
  fcntl_int = λ fd cmd n m. (pos 0, m);
  open_file = λ path flags mode m. (pos 3, m);
  posix_fadvise = λ fd offset len advice m. (pos 9, m);
  f_setlk = pos 6;
  f_setlkw = pos 7;
  f_getlk = pos 5;
}

lock_call_fields_example :
    (after : Value) × (lock_call ⦃lua = lua54⦄ locks (pos 3) (pos 5) (table [] empty) idle
      ≡ (ok (pos 0, after), idle))
    × (get_field (lit "l_type") after ≡ integer some_lock.l_type)
    × (get_field (lit "l_whence") after ≡ integer some_lock.l_whence)
    × (get_field (lit "l_start") after ≡ integer some_lock.l_start)
    × (get_field (lit "l_len") after ≡ integer some_lock.l_len)
    × (get_field (lit "l_pid") after ≡ integer some_lock.l_pid)
    × (get_field (lit "name") after ≡ get_field (lit "name") (table [] empty))
lock_call_fields_example =
    lock_call_fields ⦃lua = lua54⦄ locks (pos 3) (pos 5) [] empty idle idle (pos 0) some_lock
      (lit "name") refl refl

-- a file whose offset is 2 ^ 32 - 1
abbrev far_file : UnistdCalls Ledger
far_file = record calm_unistd { lseek = λ fd offset whence m. (pos (2 ^ 32 - 1), m) }

lseek_of_wide_offset_example :
    p_lseek ⦃lua = lua54⦄ far_file (integer (pos 3) ∷ integer (pos 0) ∷ integer (pos 1) ∷ []) idle
    ≡ (ok (nil ∷ string (lit "error") ∷ integer (pos 0) ∷ []), idle)
lseek_of_wide_offset_example =
    lseek_of_wide_offset ⦃lua = lua54⦄ far_file (pos 3) (pos 0) (pos 1) (2 ^ 32 - 1) idle idle refl

checkfieldnames_iff_example :
    (checkfieldnames ⦃lua = lua54⦄ (table [] empty) 1 (lit "tv_sec" ∷ []) ≡ ok tt)
    ↔ Every (IsKnown ⦃lua = lua54⦄ (lit "tv_sec" ∷ [])) (table_entries (table [] empty))
checkfieldnames_iff_example =
    checkfieldnames_iff ⦃lua = lua54⦄ (table [] empty) 1 (lit "tv_sec" ∷ [])
