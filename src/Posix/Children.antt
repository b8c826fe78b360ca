-- ===== src/Posix/Children.antt =====
-- lib/posix/init.lua: Ppopen and the stages of a pipeline as the child sees them, up to the task.
use luaposix.Base.{Bool-cases, Bytes, List, inl, inr, refl, ◌∙◌, ◌≡◌}
use luaposix.Lua.{Host, Machine, Value}
use luaposix.Posix.Processes.{
  ProcessCalls, Task, action, command, exit, give_up, leave_if_replaced, missing, p_execx,
}
use luaposix.Posix.Script.{Ending, Script, gone, lua_error, onward, returned, thrown, vanish, ◌>>=◌}

module _ {W A B C : Type 0} where
  onward_assoc :
      (e : Ending A) (f : A → Script W B) (g : B → Script W C) (v : Machine W)
      → onward (onward e f v).0 g (onward e f v).1 ≡ onward e (λ a. f a >>= g) v
  unfolding ◌>>=◌
  onward_assoc (returned a) f g v = refl
  onward_assoc (thrown e) f g v = refl
  onward_assoc gone f g v = refl

  pub >>=_assoc :
      (m : Script W A) (f : A → Script W B) (g : B → Script W C) (w : Machine W)
      → ((m >>= f) >>= g) w ≡ (m >>= λ a. f a >>= g) w
  unfolding ◌>>=◌
  >>=_assoc m f g w = onward_assoc (m w).0 f g (m w).1

module _ {W A B : Type 0} where
  onward_cong :
      (e : Ending A) (f g : A → Script W B) (v : Machine W)
      → ((a : A) (u : Machine W) → f a u ≡ g a u)
      → onward e f v ≡ onward e g v
  onward_cong (returned a) f g v h = h a v
  onward_cong (thrown e) f g v h = refl
  onward_cong gone f g v h = refl

  >>=_cong :
      (m : Script W A) (f g : A → Script W B) (w : Machine W)
      → ((a : A) (u : Machine W) → f a u ≡ g a u)
      → (m >>= f) w ≡ (m >>= g) w
  unfolding ◌>>=◌
  >>=_cong m f g w h = onward_cong (m w).0 f g (m w).1 h

  pub >>=_returned :
      (m : Script W A) (f : A → Script W B) (w : Machine W) {a : A} {v : Machine W}
      → m w ≡ (returned a, v)
      → (m >>= f) w ≡ f a v
  unfolding ◌>>=◌
  >>=_returned m f w e = rw e refl

  vanish-absorbs : (f : A → Script W B) (w : Machine W) → (vanish >>= f) w ≡ vanish w
  unfolding vanish ◌>>=◌
  vanish-absorbs f w = refl

module _ ⦃lua : Host⦄ {W : Type 0} (os : ProcessCalls W) where
  give_up-absorbs :
      (A B : Type 0) (f : A → Script W B) (w : Machine W)
      → (give_up os {A = A} >>= f) w ≡ give_up os {A = B} w
  unfolding give_up
  give_up-absorbs A B f w =
      >>=_assoc _ _ f w
      ∙ >>=_cong _ _ _ w
          (λ reason u. >>=_assoc _ _ f u ∙ >>=_cong _ _ _ u (λ r v. vanish-absorbs f v))

  leave-absorbs :
      (A B : Type 0) (f : A → Script W B) (w : Machine W)
      → (leave_if_replaced os (give_up os {A = A}) >>= f) w
        ≡ leave_if_replaced os (give_up os {A = B}) w
  unfolding leave_if_replaced ◌>>=◌
  leave-absorbs A B f w = elim (Bool-cases (os.is_replaced w.kernel)) [
    | inl e ↦ rw e refl
    | inr e ↦ rw e (give_up-absorbs A B f w)
  ]

  exit-absorbs :
      (A B : Type 0) (code : Value) (f : A → Script W B) (w : Machine W)
      → (exit os {A = A} code >>= f) w ≡ exit os {A = B} code w
  unfolding exit ◌>>=◌
  exit-absorbs A B code f w = refl

  error-absorbs :
      (A B : Type 0) (msg : Bytes) (f : A → Script W B) (w : Machine W)
      → (lua_error {A = A} msg >>= f) w ≡ lua_error {A = B} msg w
  unfolding lua_error ◌>>=◌
  error-absorbs A B msg f w = refl

  -- What comes behind a task is never reached.
  pub p_execx-absorbs :
      (A B : Type 0) (task : Task W) (args : List Value) (f : A → Script W B) (w : Machine W)
      → (p_execx os {A = A} task args >>= f) w ≡ p_execx os {A = B} task args w
  unfolding p_execx
  p_execx-absorbs A B (command t) args f w =
      >>=_assoc _ _ f w ∙ >>=_cong _ _ _ w (λ r u. leave-absorbs A B f u)
  p_execx-absorbs A B (action g) args f w =
      >>=_assoc _ _ f w ∙ >>=_cong _ _ _ w (λ r u. exit-absorbs A B _ f u)
  p_execx-absorbs A B missing args f w = error-absorbs A B _ f w
