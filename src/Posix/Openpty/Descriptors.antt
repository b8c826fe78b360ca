-- ===== src/Posix/Openpty/Descriptors.antt =====
-- lib/posix/init.lua: the descriptors that openpty opens, and closes where it fails.
use luaposix.Base.{
  Bytes, InInt, List, Option, [], arith, eq_ℤ, eq_ℤ_iff, false, if◌then◌else◌, inl, inr, minus_one,
  none, refl, some, ℕ, ℤ, ◌∙◌, ◌∷◌, ◌≡◌, ◌≢◌, ◌⊎◌,
}
use luaposix.Helpers.Args.{arg}
use luaposix.Lua.{Binding, Host, Machine, Value, integer, nil, to_boolean}
use luaposix.Posix.Closing.{closing}
use luaposix.Posix.Openpty.{PtyCalls, close_master}
use luaposix.Posix.Openpty.Answers.{Answer}
use luaposix.Posix.Script.{Ending, Script, call_binding, give, returned, ◌>>=◌}

-- what a call of open does to the descriptors: it fails, or opens one that was free
pub record Opening (before after : ℤ → Option ℕ) (r : ℤ) : Type 0 where
  pub fits : InInt r
  pub failed : r ≡ minus_one → (n : ℤ) → after n ≡ before n
  pub file : ℕ
  pub free : r ≢ minus_one → before r ≡ none
  pub opened : r ≢ minus_one → (n : ℤ) → after n ≡ (if eq_ℤ n r then some file else before n)

module _ {W : Type 0} (files : W → ℤ → Option ℕ) where
  pub record KeepsPty (os : PtyCalls W) : Type 0 where
    pub opens_master :
        (path : Bytes) (flags : ℤ) (w : Machine W)
        → Opening
            (files w.kernel)
            (files (os.stdlib.open_file path flags w).1.kernel)
            (os.stdlib.open_file path flags w).0
    pub opens_slave :
        (path : Bytes) (flags : ℤ) (mode : ℕ) (w : Machine W)
        → Opening
            (files w.kernel)
            (files (os.fcntl.open_file path flags mode w).1.kernel)
            (os.fcntl.open_file path flags mode w).0
    pub grants :
        (fd n : ℤ) (w : Machine W) → files (os.stdlib.grantpt fd w).1.kernel n ≡ files w.kernel n
    pub unlocks :
        (fd n : ℤ) (w : Machine W) → files (os.stdlib.unlockpt fd w).1.kernel n ≡ files w.kernel n
    pub names :
        (fd n : ℤ) (w : Machine W) → files (os.stdlib.ptsname fd w).1.kernel n ≡ files w.kernel n
    pub closes :
        (fd n : ℤ) (w : Machine W)
        → files (os.unistd.close fd w).1.kernel n ≡ (if eq_ℤ n fd then none else files w.kernel n)

  -- Two different descriptors are open that were free, or none.
  abbrev pub EndsWell : W → Ending (List Value) × Machine W → Type 0
  EndsWell k (e, w) =
      ((master : ℤ) × (slave : ℤ) × (name : Value) × (f : ℕ) × (g : ℕ) × (e
          ≡ returned (integer master ∷ integer slave ∷ name ∷ []))
        × (files k master ≡ none)
        × (files k slave ≡ none)
        × (eq_ℤ slave master ≡ false)
        × ((n : ℤ)
            → files w.kernel n
              ≡ (if eq_ℤ n slave then some g else if eq_ℤ n master then some f else files k n)))
      ⊎ ((reason : Value) × (code : Value) × (e ≡ returned (nil ∷ reason ∷ code ∷ []))
          × ((n : ℤ) → files w.kernel n ≡ files k n))

  -- the master is open, and nothing else is different
  pub record HasMaster (k k' : W) (master : ℤ) (f : ℕ) : Type 0 where
    pub fits : InInt master
    pub free : files k master ≡ none
    pub only : (n : ℤ) → files k' n ≡ (if eq_ℤ n master then some f else files k n)

  pub still-HasMaster :
      (k k' k'' : W) (master : ℤ) (f : ℕ)
      → HasMaster k k' master f
      → ((n : ℤ) → files k'' n ≡ files k' n)
      → HasMaster k k'' master f
  still-HasMaster k k' k'' master f h same = record {
    fits = h.fits;
    free = h.free;
    only = λ n. same n ∙ h.only n;
  }

module _ ⦃lua : Host⦄ {W : Type 0} (files : W → ℤ → Option ℕ) (os : PtyCalls W)
    (law : KeepsPty files os) where
  pub close_master-EndsWell :
      (master : ℤ) (f : ℕ) (reason code : Value) (k : W) (w : Machine W)
      → HasMaster files k w.kernel master f
      → EndsWell files k (close_master os (integer master) (nil ∷ reason ∷ code ∷ []) w)
  unfolding close_master give ◌>>=◌
  close_master-EndsWell master f reason code k w h =
      let (results, c) = closing os.unistd master w h.fits in
      rw c (
        inr (
          reason,
          code,
          refl,
          λ n. ground (arith, law.closes master n w, h.only n, h.free, eq_ℤ_iff n master),
        ))

  -- one step on the master
  pub on_master :
      (b : Binding W) (next : Value → Script W (List Value)) (results : List Value) (master : ℤ)
      (f : ℕ) (k : W) (w u : Machine W)
      → call_binding b (integer master ∷ []) w ≡ (returned results, u)
      → Answer results
      → HasMaster files k u.kernel master f
      → ((v : Value) → results ≡ v ∷ [] → EndsWell files k (next v u))
      → EndsWell files k (
          (call_binding b (integer master ∷ []) >>= λ answer.
          if to_boolean (arg answer 1)
          then next (arg answer 1)
          else close_master os (integer master) answer)
            w)
  unfolding ◌>>=◌
  on_master b next results master f k w u c (inl (reason, code, e)) h l =
      rw (c, e) (close_master-EndsWell master f reason code k u h)
  on_master b next results master f k w u c (inr (v, e, t)) h l = rw (c, e, t) (l v e)
