-- ===== src/Block/Global.antt =====
-- bfe_modules/mod_block: loadGlobalIPTable with GlobalIPTableLoad (global_ip_table_load.go), and the
-- connections that globalBlockHandler refuses after it.
use bfe.Common.{
  ℕ, ◌+◌, ◌<◌, ◌≡◌, refl, Bool, true, false, Option, none, some, List, [], Bytes, if◌then◌else◌,
  Bool-cases, inl, inr,
}
use bfe.Module.{Verdict, go_on, handler_close}
use bfe.IpDict.{Ip, IpPair, IpSet, IpItems, to16, address_bound, search}
use bfe.IpDict.Count.{All}
use bfe.IpDict.Load.{IpNet, MetaInfo, Loaded, loaded, max_line_exceeded, not_loaded, check_and_load}
use bfe.IpDict.Entries.{any_entry, IsPlain}
use bfe.IpDict.Search.{IsSort}
use bfe.IpDict.Answers.{check_and_load-search, file_entries}
use bfe.Block.{ModuleBlockState, Session, global_block_handler}

-- The table after the load, and whether it has succeeded.
unfoldable pub update_table :
    {S : Type 0} → Option (IpItems S) → Loaded S → Option (IpItems S) × Bool
update_table ip_table (loaded items) = (some items, true)
update_table ip_table (max_line_exceeded items) = (ip_table, false)
update_table ip_table (not_loaded e) = (ip_table, false)

-- What becomes of a connection, by whether it is refused.
abbrev pub screened : Bool → ModuleBlockState → Session → ModuleBlockState × Session × Verdict
screened refused m session =
    if refused
    then (
      record m { conn_total = m.conn_total + 1; conn_refuse = m.conn_refuse + 1 },
      record session { is_refused = true },
      handler_close,
    )
    else (
      record m { conn_total = m.conn_total + 1; conn_accept = m.conn_accept + 1 },
      session,
      go_on,
    )

module _ (parse_ip : Bytes → Option Ip) (parse_cidr : Bytes → Option IpNet) {S : Type 0}
    (set : IpSet S) (sort : List IpPair → List IpPair) where
  unfoldable pub load_global_ip_table :
      MetaInfo → Bool → List Bytes → Option (IpItems S) → Option (IpItems S) × Bool
  unfolding check_and_load update_table
  load_global_ip_table info scan_ok lines ip_table =
      update_table ip_table
        (check_and_load parse_ip parse_cidr set sort none (some info) scan_ok lines [])

  handler-screened :
      (ip_table : Option (IpItems S)) (m : ModuleBlockState) (session : Session)
      → global_block_handler set ip_table m session
        ≡ screened (search set ip_table session.remote_ip) m session
  unfolding global_block_handler
  handler-screened ip_table m session = elim (Bool-cases (search set ip_table session.remote_ip)) [
    | inl e ↦ rw e refl
    | inr e ↦ rw e refl
  ]

  update_table-ok :
      (ip_table : Option (IpItems S)) (l : Loaded S)
      → (update_table ip_table l).1 ≡ true
      → (t : IpItems S) × (l ≡ loaded t) × ((update_table ip_table l).0 ≡ some t)
  unfolding update_table
  update_table-ok ip_table (loaded t) h = (t, refl, refl)
  update_table-ok ip_table (max_line_exceeded t) h = cc
  update_table-ok ip_table (not_loaded e) h = cc

  -- After a load that has succeeded, with a set of single addresses that keeps its interface and any
  -- order that sort.Sort gives to equal starts, a connection from an address of less than 2^128 is
  -- closed exactly if the address lies within one of the file's lines, when every line starts above ::
  -- and none ends at 0.0.0.0; the connection is counted once as checked, and once as refused or as
  -- let pass.
  pub global_block_handler-file :
      IsSort sort
      → (info : MetaInfo) (scan_ok : Bool) (lines : List Bytes) (ip_table : Option (IpItems S))
      → All IsPlain (file_entries parse_ip parse_cidr lines)
      → (load_global_ip_table info scan_ok lines ip_table).1 ≡ true
      → (m : ModuleBlockState) (session : Session) (ip : ℕ) → to16 session.remote_ip ≡ some ip
      → ip < address_bound
      → global_block_handler set (load_global_ip_table info scan_ok lines ip_table).0 m session
        ≡ screened (any_entry ip (file_entries parse_ip parse_cidr lines)) m session
  unfolding load_global_ip_table
  global_block_handler-file v info scan_ok lines ip_table p h m session ip e b =
      let (t, f, g) =
        update_table-ok ip_table
          (check_and_load parse_ip parse_cidr set sort none (some info) scan_ok lines []) h in
      let s =
        check_and_load-search parse_ip parse_cidr set sort v none info scan_ok lines [] t p f
          (session.remote_ip) ip e b in
      let k = handler-screened (some t) m session in rw g (rw s at k)
