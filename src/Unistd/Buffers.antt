-- ===== src/Unistd/Buffers.antt =====
-- ext/posix/unistd.c: Pwrite and the bounds of its buffer.
use luaposix.Base.{
  Bool-cases, Bytes, InInt, InLong, List, [], ap, arith, cast_int, cast_int_id, cast_long,
  cast_long_id, eq_ℤ, inl, inr, length, negsuc, none, pos, refl, ℕ, ℤ, ◌+ℤ◌, ◌+◌, ◌<ℤ◌, ◌<◌, ◌^◌,
  ◌∙◌, ◌∷◌, ◌≡◌, ◌≢◌, ◌≤ℤ◌, ◌≤◌, ◌⊎◌,
}
use luaposix.Helpers.Results.{pushresult}
use luaposix.Lua.{Host, Machine, Value, call, integer, nil, ok, string, ◌>>=◌}
use luaposix.Unistd.Calls.{UnistdCalls}
use luaposix.Unistd.Transfer.{Plan, follow_plan, invalid, nothing, p_write, window, write_plan}

-- the part of a buffer that starts at `offset` and has `nbytes` bytes, at least one
abbrev pub InBuffer : ℕ → ℤ → ℤ → Type 0
InBuffer len nbytes offset = (pos 0 ≤ℤ offset) × (pos 0 <ℤ nbytes) × (offset +ℤ nbytes ≤ℤ pos len)

plan_window :
    (len : ℕ) (nbytes offset start size : ℤ)
    → InLong (offset +ℤ nbytes)
    → write_plan (pos len) nbytes offset ≡ window start size
    → (start ≡ offset) × (size ≡ nbytes) × InBuffer len nbytes offset
unfolding write_plan
plan_window len (pos n) (pos o) start size h e = ground (arith, cast_long_id (pos o +ℤ pos n) h)
plan_window len (negsuc n) (pos o) start size h e =
    ground (arith, cast_long_id (pos o +ℤ negsuc n) h)
plan_window len (pos n) (negsuc o) start size h e =
    ground (arith, cast_long_id (negsuc o +ℤ pos n) h)
plan_window len (negsuc n) (negsuc o) start size h e =
    ground (arith, cast_long_id (negsuc o +ℤ negsuc n) h)

plan_nothing :
    (len : ℕ) (nbytes offset : ℤ) → write_plan (pos len) nbytes offset ≡ nothing → nbytes ≡ pos 0
unfolding write_plan
plan_nothing len (pos n) offset e = ground arith
plan_nothing len (negsuc n) offset e = ground arith

plan_of_zero :
    (len : ℕ) (nbytes offset : ℤ) → nbytes ≡ pos 0 → write_plan (pos len) nbytes offset ≡ nothing
unfolding write_plan
plan_of_zero len nbytes offset z = rw z

plan_of_InBuffer :
    (len : ℕ) (nbytes offset : ℤ)
    → InLong (offset +ℤ nbytes)
    → InBuffer len nbytes offset
    → write_plan (pos len) nbytes offset ≡ window offset nbytes
unfolding write_plan
plan_of_InBuffer len (pos n) (pos o) l h = ground (arith, cast_long_id (pos o +ℤ pos n) l)
plan_of_InBuffer len (negsuc n) offset l h = absurd (omega arith)
plan_of_InBuffer len (pos n) (negsuc o) l h = absurd (omega arith)

plan_overflow :
    (len n o : ℕ)
    → 0 < n
    → n < 2 ^ 63
    → o < 2 ^ 63
    → 2 ^ 63 ≤ o + n
    → write_plan (pos len) (pos n) (pos o) ≡ window (pos o) (pos n)
unfolding write_plan cast_long
plan_overflow len n o n_pos hn ho h = ground arith

not-InBuffer : (len n o : ℕ) → InInt (pos len) → 2 ^ 63 ≤ o + n → ¬ InBuffer len (pos n) (pos o)
not-InBuffer len n o i h b = ground arith

module _ ⦃lua : Host⦄ {W : Type 0} (os : UnistdCalls W) where
  p_write-follow_plan :
      (fd nbytes offset : ℤ) (buf : Bytes) (w : Machine W)
      → InInt (pos (length buf))
      → p_write os (integer fd ∷ string buf ∷ integer nbytes ∷ integer offset ∷ []) w
        ≡ follow_plan os
            (cast_int fd)
            buf
            (pos (length buf))
            (write_plan (pos (length buf)) nbytes offset)
            w
  unfolding p_write
  p_write-follow_plan fd nbytes offset buf w i =
      rw (cast_int_id (pos (length buf)) i)
        (elim (Bool-cases (eq_ℤ offset (pos 0))) [ inl e ↦ rw e | inr e ↦ rw e ])

  -- Where the length fits an int and offset + nbytes fits 64 bits, `write (fd, buf, nbytes, offset)`
  -- writes exactly the bytes from `offset` on if they lie in the buffer; if not, it makes no call:
  -- it returns 0 for a count of 0, and otherwise nil, a message and EINVAL, with errno set to EINVAL.
  pub write_in_bounds :
      (fd nbytes offset : ℤ) (buf : Bytes) (w : Machine W)
      → InInt (pos (length buf))
      → InLong (offset +ℤ nbytes)
      → let args = integer fd ∷ string buf ∷ integer nbytes ∷ integer offset ∷ [] in
        (InBuffer (length buf) nbytes offset
          × (p_write os args w
              ≡ (call (os.write (cast_int fd) buf offset nbytes) >>= λ r. pushresult r none) w))
        ⊎ ((nbytes ≡ pos 0) × (p_write os args w ≡ (ok (integer (pos 0) ∷ []), w)))
        ⊎ ((nbytes ≢ pos 0)
            × (¬ InBuffer (length buf) nbytes offset)
            × ((message : Bytes) × (p_write os args w ≡ (
              ok (nil ∷ string message ∷ integer os.einval ∷ []),
              record w { errno = os.einval },
            ))))
  unfolding follow_plan
  write_in_bounds fd nbytes offset buf w i l =
      by_plan (write_plan (pos (length buf)) nbytes offset) refl
    where
      args : List Value
      args = integer fd ∷ string buf ∷ integer nbytes ∷ integer offset ∷ []

      followed :
          {p : Plan}
          → write_plan (pos (length buf)) nbytes offset ≡ p
          → p_write os args w ≡ follow_plan os (cast_int fd) buf (pos (length buf)) p w
      followed e =
          p_write-follow_plan fd nbytes offset buf w i
          ∙ ap (λ q. follow_plan os (cast_int fd) buf (pos (length buf)) q w) e

      by_plan :
          (p : Plan)
          → write_plan (pos (length buf)) nbytes offset ≡ p
          → (InBuffer (length buf) nbytes offset
              × (p_write os args w
                  ≡ (call (os.write (cast_int fd) buf offset nbytes) >>= λ r. pushresult r none) w))
            ⊎ ((nbytes ≡ pos 0) × (p_write os args w ≡ (ok (integer (pos 0) ∷ []), w)))
            ⊎ ((nbytes ≢ pos 0)
                × (¬ InBuffer (length buf) nbytes offset)
                × ((message : Bytes) × (p_write os args w ≡ (
                  ok (nil ∷ string message ∷ integer os.einval ∷ []),
                  record w { errno = os.einval },
                ))))
      by_plan nothing e = inr (inl (plan_nothing (length buf) nbytes offset e, followed e))
      by_plan (window start size) e =
          let inside = (plan_window (length buf) nbytes offset start size l e).2 in
          inl (inside, followed (plan_of_InBuffer (length buf) nbytes offset l inside))
      by_plan (invalid at) e = inr (
          inr (
            (λ z. let k = plan_of_zero (length buf) nbytes offset z in cc),
            (λ h. let k = plan_of_InBuffer (length buf) nbytes offset l h in cc),
            (_, followed e),
          ))

  -- Where the length fits an int, and a positive count and an offset, both below 2^63, have a sum
  -- of 2^63 or more, the check of bounds passes: write is called on bytes that do not lie in the
  -- buffer.
  pub write_out_of_bounds :
      (fd : ℤ) (n o : ℕ) (buf : Bytes) (w : Machine W)
      → InInt (pos (length buf))
      → 0 < n
      → n < 2 ^ 63
      → o < 2 ^ 63
      → 2 ^ 63 ≤ o + n
      → (p_write os (integer fd ∷ string buf ∷ integer (pos n) ∷ integer (pos o) ∷ []) w
          ≡ (call (os.write (cast_int fd) buf (pos o) (pos n)) >>= λ r. pushresult r none) w)
        × ¬ InBuffer (length buf) (pos n) (pos o)
  unfolding follow_plan
  write_out_of_bounds fd n o buf w i n_pos hn ho h = (
    p_write-follow_plan fd (pos n) (pos o) buf w i
        ∙ ap (λ q. follow_plan os (cast_int fd) buf (pos (length buf)) q w)
            (plan_overflow (length buf) n o n_pos hn ho h),
    λ b. not-InBuffer (length buf) n o i h b,
  )
