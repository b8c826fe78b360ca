-- ===== src/Blocks.antt =====
-- The functions that work in a block of Lua's allocator: ext/posix/unistd.c, sys/msg.c, sys/socket.c,
-- stdlib.c and libgen.c.
use luaposix.Base.{Bytes, List, [], lit, ℕ, ℤ, ◌∷◌}
use luaposix.Libgen.{LibgenCalls, p_basename, p_dirname}
use luaposix.Lua.{Binding, Host}
use luaposix.Memory.{Allocator}
use luaposix.Memory.Balance.{Quiet}
use luaposix.Stdlib.Templates.{TemplateCalls, p_mkdtemp, p_mkstemp}
use luaposix.Sys.Msg.{MsgCalls}
use luaposix.Sys.Msg.Transfer.{p_msgrcv, p_msgsnd}
use luaposix.Sys.Socket.{Families}
use luaposix.Sys.Socket.Bindings.{SocketCalls, p_recv, p_recvfrom}
use luaposix.Unistd.Calls.{UnistdCalls}
use luaposix.Unistd.Transfer.{p_getcwd, p_read}

pub record Systems (W : Type 0) : Type 0 where
  pub unistd : UnistdCalls W
  pub msg : MsgCalls W
  pub sockets : SocketCalls W
  pub families : Families
  pub templates : TemplateCalls W
  pub libgen : LibgenCalls W

unfoldable pub block_functions :
    ⦃lua : Host⦄ → {W : Type 0} → Systems W → Allocator W → List (Bytes × Binding W)
block_functions systems mem =
    (lit "read", p_read systems.unistd mem)
    ∷ (lit "getcwd", p_getcwd systems.unistd mem)
    ∷ (lit "msgsnd", p_msgsnd systems.msg mem)
    ∷ (lit "msgrcv", p_msgrcv systems.msg mem)
    ∷ (lit "recv", p_recv systems.sockets mem)
    ∷ (lit "recvfrom", p_recvfrom systems.sockets systems.families mem)
    ∷ (lit "mkdtemp", p_mkdtemp systems.templates mem)
    ∷ (lit "mkstemp", p_mkstemp systems.templates mem)
    ∷ (lit "basename", p_basename mem systems.libgen)
    ∷ (lit "dirname", p_dirname mem systems.libgen)
    ∷ []

module _ {W : Type 0} (live : W → List (ℕ × ℕ)) (systems : Systems W) where
  -- the calls that these functions make leave the allocator alone
  pub record QuietSystems : Type 0 where
    pub read : (fd : ℤ) (n : ℕ) → Quiet live (systems.unistd.read fd n)
    pub pathconf : (path : Bytes) (name : ℤ) → Quiet live (systems.unistd.pathconf path name)
    pub getcwd : (n : ℕ) → Quiet live (systems.unistd.getcwd n)
    pub msgsnd :
        (id ty : ℤ) (text : Bytes) (n : ℕ) (flags : ℤ)
        → Quiet live (systems.msg.msgsnd id ty text n flags)
    pub msgrcv : (id : ℤ) (n : ℕ) (typ flags : ℤ) → Quiet live (systems.msg.msgrcv id n typ flags)
    pub overrun : (n : ℕ) → Quiet live (systems.msg.overrun n)
    pub recv : (fd : ℤ) (n : ℕ) → Quiet live (systems.sockets.recv fd n)
    pub recvfrom : (fd : ℤ) (n : ℕ) → Quiet live (systems.sockets.recvfrom fd n)
    pub mkdtemp : (template : Bytes) → Quiet live (systems.templates.mkdtemp template)
    pub mkstemp : (template : Bytes) → Quiet live (systems.templates.mkstemp template)
    pub basename : (path : Bytes) → Quiet live (systems.libgen.basename path)
    pub dirname : (path : Bytes) → Quiet live (systems.libgen.dirname path)
