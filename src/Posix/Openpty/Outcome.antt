-- ===== src/Posix/Openpty/Outcome.antt =====
-- lib/posix/init.lua: openpty opens both ends of a terminal, or nothing.
use luaposix.Base.{Bytes, Option, [], arith, cast_int, inl, inr, lit, refl, ℕ, ℤ, ◌∷◌, ◌≡◌}
use luaposix.Lua.{Host, Machine, integer, nil, string}
use luaposix.Posix.Openpty.{PtyCalls, grant_slave, name_slave, open_slave, p_openpty, unlock_slave}
use luaposix.Posix.Openpty.Answers.{
  granting, master_call, naming, opening_master, opening_slave, slave_call, unlocking,
}
use luaposix.Posix.Openpty.Descriptors.{
  EndsWell, HasMaster, KeepsPty, close_master-EndsWell, on_master, still-HasMaster,
}
use luaposix.Posix.Script.{give, ◌>>=◌}
use luaposix.Stdlib.Bindings.{p_grantpt, p_ptsname, p_unlockpt}

module _ ⦃lua : Host⦄ {W : Type 0} (files : W → ℤ → Option ℕ) (os : PtyCalls W)
    (law : KeepsPty files os) where
  open_slave-EndsWell :
      (master : ℤ) (f : ℕ) (name : Bytes) (k : W) (w : Machine W)
      → HasMaster files k w.kernel master f
      → EndsWell files k (open_slave os (integer master) (string name) w)
  unfolding open_slave give ◌>>=◌
  open_slave-EndsWell master f name k w h =
      let o = law.opens_slave name (cast_int os.rdwr_noctty) 511 w in
      let (results, c, split) = opening_slave os name w o.fits in
      elim split [
        | inl (reason, code, e, q) ↦
            rw (c, e)
              (close_master-EndsWell files os law master f reason code k (slave_call os name w).1 (
                still-HasMaster files k w.kernel (slave_call os name w).1.kernel master f h
                  (o.failed q)))
        | inr (e, q) ↦
            rw (c, e)
              (inl (
                master,
                (slave_call os name w).0,
                string name,
                f,
                o.file,
                refl,
                h.free,
                ground (arith, o.free q, h.only (slave_call os name w).0, h.free),
                ground (arith, o.free q, h.only (slave_call os name w).0),
                λ n. ground (arith, o.opened q n, h.only n),
              ))
      ]

  name_slave-EndsWell :
      (master : ℤ) (f : ℕ) (k : W) (w : Machine W)
      → HasMaster files k w.kernel master f
      → EndsWell files k (name_slave os (integer master) w)
  unfolding name_slave
  name_slave-EndsWell master f k w h =
      let u = (os.stdlib.ptsname master w).1 in
      let h' = still-HasMaster files k w.kernel u.kernel master f h (λ n. law.names master n w) in
      elim (naming os master w h.fits) [
        | inl (reason, code, c) ↦
            on_master files os law (p_ptsname os.stdlib) (open_slave os (integer master))
              (nil ∷ reason ∷ code ∷ []) master f k w u c (inl (reason, code, refl)) h'
              (λ v e. absurd cc)
        | inr (name, c) ↦
            on_master files os law (p_ptsname os.stdlib) (open_slave os (integer master))
              (string name ∷ []) master f k w u c (inr (string name, refl, refl)) h'
              (λ v e.
                let q : v ≡ string name = cc in rw q (open_slave-EndsWell master f name k u h'))
      ]

  unlock_slave-EndsWell :
      (master : ℤ) (f : ℕ) (k : W) (w : Machine W)
      → HasMaster files k w.kernel master f
      → EndsWell files k (unlock_slave os (integer master) w)
  unfolding unlock_slave
  unlock_slave-EndsWell master f k w h =
      let (results, c, a) = unlocking os master w h.fits in
      let u = (os.stdlib.unlockpt master w).1 in
      let h' = still-HasMaster files k w.kernel u.kernel master f h (λ n. law.unlocks master n w) in
      on_master files os law (p_unlockpt os.stdlib) (λ v. name_slave os (integer master)) results
        master f k w u c a h' (λ v e. name_slave-EndsWell master f k u h')

  grant_slave-EndsWell :
      (master : ℤ) (f : ℕ) (k : W) (w : Machine W)
      → HasMaster files k w.kernel master f
      → EndsWell files k (grant_slave os (integer master) w)
  unfolding grant_slave
  grant_slave-EndsWell master f k w h =
      let (results, c, a) = granting os master w h.fits in
      let u = (os.stdlib.grantpt master w).1 in
      let h' = still-HasMaster files k w.kernel u.kernel master f h (λ n. law.grants master n w) in
      on_master files os law (p_grantpt os.stdlib) (λ v. unlock_slave os (integer master)) results
        master f k w u c a h' (λ v e. unlock_slave-EndsWell master f k u h')

  -- `openpty` returns. It gives two different descriptors that were not open, and opens those two
  -- alone, or it gives nil with a reason and a code, and each descriptor is on the file that it was
  -- on before.
  pub openpty_leaks_nothing : (w : Machine W) → EndsWell files w.kernel (p_openpty os w)
  unfolding p_openpty give ◌>>=◌
  openpty_leaks_nothing w =
      let o = law.opens_master (lit "/dev/ptmx") (cast_int os.rdwr_noctty) w in
      let (results, c, split) = opening_master os w o.fits in
      elim split [
        | inl (reason, code, e, q) ↦ rw (c, e) (inr (reason, code, refl, o.failed q))
        | inr (e, q) ↦
            rw (c, e)
              (grant_slave-EndsWell (master_call os w).0 o.file w.kernel (master_call os w).1
                record { fits = o.fits; free = o.free q; only = o.opened q })
      ]
