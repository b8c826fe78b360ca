-- ===== src/Sys/Socket/Resolve.antt =====
-- ext/posix/sys/socket.c: Pgetaddrinfo.
use luaposix.Base.{
  Bytes, List, Option, [], if◌then◌else◌, lit, none, pos, some, suc, ℕ, ℤ, ◌++◌, ◌∷◌,
}
use luaposix.Helpers.Args.{arg, arg_type, argtypeerror, is_none_or_nil, tolstring}
use luaposix.Helpers.Fields.{checkfieldnames, optintfield}
use luaposix.Helpers.Results.{set_fields}
use luaposix.Lua.{
  Args, Call, Host, LuaType, Outcome, Table, Value, empty, entry, eq_type, integer, ok, string,
  table,
}
use luaposix.Lua.Checks.{◌>>=◌, ◌>>◌}
use luaposix.Sys.Socket.{Families, SockAddr}
use luaposix.Sys.Socket.Address.{pushsockaddrinfo}

pub record AddrInfo : Type 0 where
  pub ai_family : ℤ
  pub ai_addr : SockAddr
  pub ai_socktype : ℤ
  -- none is NULL
  pub ai_canonname : Option Bytes
  pub ai_protocol : ℤ

pub record Hints : Type 0 where
  pub family : ℤ
  pub socktype : ℤ
  pub protocol : ℤ
  pub flags : ℤ

pub record ResolveCalls (W : Type 0) : Type 0 where
  -- host and service, where none is NULL; the result, and the list as ai_next links it
  pub getaddrinfo : Option Bytes → Option Bytes → Hints → Call W (ℤ × List AddrInfo)
  pub freeaddrinfo : List AddrInfo → Call W (Unit {0})
  pub gai_strerror : ℤ → Bytes
  pub pf_unspec : ℤ

abbrev pub ai_fields : List Bytes
ai_fields = lit "family" ∷ lit "socktype" ∷ lit "protocol" ∷ lit "flags" ∷ []

-- pushstringfield: NULL sets no field
abbrev pub canonname_field : Option Bytes → List (Bytes × Value)
canonname_field none = []
canonname_field (some name) = (lit "canonname", string name) ∷ []

abbrev pub add_fields : Value → List (Bytes × Value) → Value
add_fields (table type t) fields = table type (set_fields t fields)
add_fields v fields = v

-- one turn of the loop over the results
unfoldable pub pushaddrinfo : Families → AddrInfo → Value
unfolding pushsockaddrinfo set_fields
pushaddrinfo af p = add_fields (pushsockaddrinfo af p.ai_family p.ai_addr) (
    (lit "socktype", integer p.ai_socktype)
    ∷ (canonname_field p.ai_canonname ++ ((lit "protocol", integer p.ai_protocol) ∷ [])))

unfoldable pub address_list : Families → ℕ → List AddrInfo → Table
unfolding pushaddrinfo
address_list af n [] = empty
address_list af n (p ∷ res) =
    entry (integer (pos n)) (pushaddrinfo af p) (address_list af (suc n) res)

module _ ⦃lua : Host⦄ where
  -- without a service there must be a host
  unfoldable pub no_service : Args → Option Bytes → Outcome (Option Bytes)
  unfolding argtypeerror
  no_service args none = argtypeerror args 2 (lit "integer or string")
  no_service args (some host) = ok none

  -- the switch on the type of the second argument, under the host
  unfoldable pub read_service : Args → Option Bytes → Outcome (Option Bytes)
  unfolding argtypeerror no_service
  read_service args host = elim (arg_type args 2) [
    | LuaType.tnone ↦ no_service args host
    | LuaType.tnil ↦ no_service args host
    | LuaType.tnumber ↦ ok (tolstring (arg args 2))
    | LuaType.tstring ↦ ok (tolstring (arg args 2))
    | _ ↦ argtypeerror args 2 (lit "integer, nil or string")
  ]

  module _ {W : Type 0} (os : ResolveCalls W) where
    abbrev pub no_hints : Hints
    no_hints = record { family = os.pf_unspec; socktype = pos 0; protocol = pos 0; flags = pos 0 }

    -- the switch on the type of the third argument
    unfoldable pub read_hints : Args → Outcome Hints
    unfolding argtypeerror checkfieldnames optintfield
    read_hints args =
        if is_none_or_nil args 3
        then ok no_hints
        else if eq_type (arg_type args 3) LuaType.ttable
        then (do
          let t = arg args 3
          checkfieldnames t 3 ai_fields
          family ← optintfield t 3 (lit "family") os.pf_unspec
          socktype ← optintfield t 3 (lit "socktype") (pos 0)
          protocol ← optintfield t 3 (lit "protocol") (pos 0)
          flags ← optintfield t 3 (lit "flags") (pos 0)
          ok (record { family = family; socktype = socktype; protocol = protocol; flags = flags }))
        else argtypeerror args 3 (lit "nil or table")
