-- ===== src/Memory/Balance.antt =====
-- The allocator as a ledger of the blocks that are out with their sizes, and rules for actions that
-- leave the ledger as they found it.
use luaposix.Base.{
  Bool, Bool-cases, Bytes, List, Option, false, if◌then◌else◌, inl, inr, none, refl, some, true, ℕ,
  ℤ, ◌∙◌, ◌∷◌, ◌≡◌,
}
use luaposix.Helpers.Results.{pusherror, pushresult}
use luaposix.Lua.{
  Call, Exec, Host, Machine, Outcome, call, err, lift, ok, onward, pure, read_errno, write_errno,
  ◌>>=◌,
}
use luaposix.Memory.{Allocator, allocate, release}

module _ {W : Type 0} (live : W → List (ℕ × ℕ)) where
  -- the ledger is as it was, however the action ends
  pub record Balanced {A : Type 0} (m : Exec W A) : Type 0 where
    pub same : (w : Machine W) → live (m w).1.kernel ≡ live w.kernel

  -- a call of the system that knows nothing of the allocator
  pub record Quiet {A : Type 0} (c : Call W A) : Type 0 where
    pub same : (w : Machine W) → live (c w).1.kernel ≡ live w.kernel

  pub record Accounts (mem : Allocator W) : Type 0 where
    pub refused :
        (n : ℕ) (w : Machine W)
        → (mem.alloc n w).0 ≡ none
        → live (mem.alloc n w).1.kernel ≡ live w.kernel
    pub granted :
        (n p : ℕ) (w : Machine W)
        → (mem.alloc n w).0 ≡ some p
        → live (mem.alloc n w).1.kernel ≡ (p, n) ∷ live w.kernel
    -- a block is given back with the size that it was taken with
    pub freed :
        (n p : ℕ) (rest : List (ℕ × ℕ)) (w : Machine W)
        → live w.kernel ≡ (p, n) ∷ rest
        → live (mem.free p n w).1.kernel ≡ rest

  module _ {A : Type 0} where
    pub Balanced-pure : (a : A) → Balanced (pure a)
    unfolding pure
    Balanced-pure a = record { same = λ w. refl }

    pub Balanced-lift : (r : Outcome A) → Balanced (lift r)
    unfolding lift
    Balanced-lift r = record { same = λ w. refl }

    pub Balanced-call : (c : Call W A) → Quiet c → Balanced (call c)
    unfolding call
    Balanced-call c q = record { same = q.same }

    pub Balanced-if :
        (b : Bool) (m n : Exec W A) → Balanced m → Balanced n → Balanced (if b then m else n)
    Balanced-if true m n hm hn = hm
    Balanced-if false m n hm hn = hn

  pub Balanced-read_errno : Balanced read_errno
  unfolding read_errno
  Balanced-read_errno = record { same = λ w. refl }

  pub Balanced-write_errno : (n : ℤ) → Balanced (write_errno n)
  unfolding write_errno
  Balanced-write_errno n = record { same = λ w. refl }

  module _ {A B : Type 0} where
    onward_same :
        (f : A → Exec W B) (h : (a : A) → Balanced (f a)) (r : Outcome A) (w : Machine W)
        → live (onward r f w).1.kernel ≡ live w.kernel
    onward_same f h (ok a) w = (h a).same w
    onward_same f h (err e) w = refl

    pub Balanced-bind :
        (m : Exec W A) (f : A → Exec W B)
        → Balanced m
        → ((a : A) → Balanced (f a))
        → Balanced (m >>= f)
    unfolding ◌>>=◌
    Balanced-bind m f hm hf = record { same = λ w. onward_same f hf (m w).0 (m w).1 ∙ hm.same w }

  module _ {A B : Type 0} where
    pub Balanced-check :
        (r : Outcome A) (f : A → Exec W B) → ((a : A) → Balanced (f a)) → Balanced (lift r >>= f)
    Balanced-check r f h = Balanced-bind _ _ (Balanced-lift r) h

  module _ ⦃lua : Host⦄ where
    pub Balanced-pusherror : (info : Option Bytes) → Balanced (pusherror info)
    unfolding pusherror
    Balanced-pusherror info = Balanced-bind _ _ Balanced-read_errno (λ n. Balanced-pure _)

    pub Balanced-pushresult : (z : ℤ) (info : Option Bytes) → Balanced (pushresult z info)
    unfolding pushresult
    Balanced-pushresult z info = Balanced-if _ _ _ (Balanced-pusherror info) (Balanced-pure _)

  -- A block that is taken, used by one call and given back with its size.
  module _ (mem : Allocator W) (law : Accounts mem) {A B : Type 0} where
    abbrev with_block : ℕ → Call W A → (A → Exec W B) → Option ℕ → Exec W B
    with_block n c finish block = call c >>= λ a. release mem block n >>= λ u. finish a

    module _ (n : ℕ) (c : Call W A) (refuse : Exec W B) (finish : A → Exec W B)
        (b : Option ℕ → Bool) (quiet : Quiet c) (refused : Balanced refuse)
        (finished : (a : A) → Balanced (finish a)) (taken : (p : ℕ) → b (some p) ≡ false) where
      after_alloc :
          (o : Option ℕ) (ledger : List (ℕ × ℕ)) (w : Machine W)
          → (o ≡ none → live w.kernel ≡ ledger)
          → ((p : ℕ) → o ≡ some p → live w.kernel ≡ (p, n) ∷ ledger)
          → live ((if b o then refuse else with_block n c finish o) w).1.kernel ≡ ledger
      unfolding ◌>>=◌
      after_alloc none ledger w h k = elim (Bool-cases (b none)) [
        | inl e ↦ rw e (refused.same w ∙ h refl)
        | inr e ↦ rw e ((finished (c w).0).same (c w).1 ∙ (quiet.same w ∙ h refl))
      ]
      after_alloc (some p) ledger w h k = rw (taken p) (
          (finished (c w).0).same (mem.free p n (c w).1).1
          ∙ law.freed n p ledger (c w).1 (quiet.same w ∙ k p refl))

      pub Balanced-block :
          Balanced
            (allocate mem n >>= λ block. if b block then refuse else with_block n c finish block)
      unfolding ◌>>=◌
      Balanced-block = record {
        same = λ w.
            after_alloc (mem.alloc n w).0 (live w.kernel) (mem.alloc n w).1 (law.refused n w)
              (λ p. law.granted n p w);
      }
