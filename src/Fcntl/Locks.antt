-- ===== src/Fcntl/Locks.antt =====
-- ext/posix/fcntl.c: what a table says after fcntl with a lock.
use luaposix.Base.{
  Bytes, List, [], arith, cast_short, eq_bytes, eq_bytes_iff, false, lit, refl, ℤ, ◌∷◌, ◌≡◌,
}
use luaposix.Fcntl.Bindings.{FcntlCalls, Flock, lock_call, lock_fields, with_lock}
use luaposix.Helpers.Args.{tointeger}
use luaposix.Helpers.Fields.{is_listed}
use luaposix.Helpers.Results.{set_fields}
use luaposix.Lua.{
  Host, Machine, Table, Value, get_entry, get_entry-set_field, get_field, integer, ok, set_field,
  table,
}

abbrev pub names_of : List (Bytes × Value) → List Bytes
names_of [] = []
names_of ((k, v) ∷ fields) = k ∷ names_of fields

eq_bytes_swap : (j k : Bytes) → eq_bytes k j ≡ false → eq_bytes j k ≡ false
eq_bytes_swap j k h = ground (arith, eq_bytes_iff j k, eq_bytes_iff k j)

-- Fields that are set leave every other field as it was.
get_entry-set_fields :
    (k : Bytes) (fields : List (Bytes × Value)) (t : Table)
    → is_listed k (names_of fields) ≡ false
    → get_entry k (set_fields t fields) ≡ get_entry k t
unfolding set_fields
get_entry-set_fields k [] t h = refl
get_entry-set_fields k ((j, v) ∷ fields) t h = ground (
  arith,
  get_entry-set_fields k fields (set_field j v t),
  get_entry-set_field j k v t,
  eq_bytes_swap k j,
)

module _ ⦃lua : Host⦄ {W : Type 0} (os : FcntlCalls W) where
  -- After a call with a lock, the table has in l_type, l_whence, l_start, l_len and l_pid the members
  -- of the lock that the system answered, and a field with another name as it was; the result is
  -- that of the call.
  pub lock_call_fields :
      (fd cmd : ℤ) (type : Bytes) (t : Table) (w w' : Machine W) (r : ℤ) (l : Flock) (k : Bytes)
      → is_listed k (lit "l_type" ∷ lit "l_whence" ∷ lit "l_start" ∷ lit "l_len" ∷ lit "l_pid" ∷ [])
        ≡ false
      → (os.fcntl_lock fd cmd
            (cast_short (tointeger (get_field (lit "l_type") (table type t))))
            (cast_short (tointeger (get_field (lit "l_whence") (table type t))))
            (tointeger (get_field (lit "l_start") (table type t)))
            (tointeger (get_field (lit "l_len") (table type t)))
            w
          ≡ ((r, l), w'))
      → (after : Value) × (lock_call os fd cmd (table type t) w ≡ (ok (r, after), w'))
        × (get_field (lit "l_type") after ≡ integer l.l_type)
        × (get_field (lit "l_whence") after ≡ integer l.l_whence)
        × (get_field (lit "l_start") after ≡ integer l.l_start)
        × (get_field (lit "l_len") after ≡ integer l.l_len)
        × (get_field (lit "l_pid") after ≡ integer l.l_pid)
        × (get_field k after ≡ get_field k (table type t))
  unfolding lock_call get_field
  lock_call_fields fd cmd type t w w' r l k h e = (
    with_lock (table type t) l,
    rw e,
    simp get_entry-set_field,
    simp get_entry-set_field,
    simp get_entry-set_field,
    simp get_entry-set_field,
    simp get_entry-set_field,
    get_entry-set_fields k (lock_fields l) t h,
  )
