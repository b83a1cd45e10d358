-- ===== src/Driver/NetTools.antt =====
-- pkg/driver/nettools.go: links, addresses and routes. The package netlink, which asks the kernel, and
-- the parsers of package net are parameters.
use swu_go.Prelude.{ℕ, zero, suc, ◌+◌, ◌/◌, ◌%◌, Option, none, some, ◌==◌, if◌then◌else◌, shorter}
use swu_go.Prelude.Bytes.{Bytes}

pub record Addr : Type 0 where
  pub prefix : Bytes
  pub flags : ℕ

pub record Route : Type 0 where
  pub dst : Bytes
  pub gw : Option Bytes
  pub link_index : ℕ

-- The calls of package netlink on a kernel, each with the number of its error or `none`; a link is known by
-- its index. ParseAddr of that package, and ParseCIDR and ParseIP of package net.
pub record Netlink (K : Type 0) : Type 0 where
  pub link_by_name : K → Bytes → Option ℕ
  pub link_set_up : K → ℕ → K × Option ℕ
  pub link_set_down : K → ℕ → K × Option ℕ
  pub link_set_mtu : K → ℕ → ℕ → K × Option ℕ
  pub addr_add : K → ℕ → Addr → K × Option ℕ
  pub addr_del : K → ℕ → Addr → K × Option ℕ
  pub route_add : K → Route → K × Option ℕ
  pub route_del : K → Route → K × Option ℕ
  pub parse_addr : Bytes → Option Addr
  pub parse_cidr : Bytes → Option Bytes
  pub parse_ip : Bytes → Option Bytes

-- NetToolError, without the text.
pub data NetToolError : Type 0 where
  no_link : NetToolError
  bad_address : NetToolError
  bad_destination : NetToolError
  bad_gateway : NetToolError
  errno : ℕ → NetToolError

-- The route that is asked for, or the error that prevents it.
pub data RouteOrError : Type 0 where
  made : Route → RouteOrError
  failed : NetToolError → RouteOrError

-- syscall.EEXIST and syscall.ESRCH, and unix.IFA_F_NODAD.
abbrev pub eexist : ℕ
eexist = 17

abbrev pub esrch : ℕ
esrch = 3

-- `addr.Flags | unix.IFA_F_NODAD`
abbrev pub without_dad : Addr → Addr
without_dad a = record a { flags = if a.flags / 2 % 2 == 1 then a.flags else a.flags + 2 }

module _ {K : Type 0} where
  abbrev pub wrap_err : K × Option ℕ → K × Option NetToolError
  wrap_err (k, none) = (k, none)
  wrap_err (k, some e) = (k, some (errno e))

  -- An error with this number is none.
  abbrev pub wrap_but : ℕ → K × Option ℕ → K × Option NetToolError
  wrap_but n (k, none) = (k, none)
  wrap_but n (k, some e) = if e == n then (k, none) else (k, some (errno e))

  abbrev pub with_route :
      K → RouteOrError → (Route → K × Option NetToolError) → K × Option NetToolError
  with_route k (made r) call = call r
  with_route k (failed e) call = (k, some e)

  -- Once more if it failed.
  abbrev pub succeeded : K × Option ℕ → (K → K × Option NetToolError) → K × Option NetToolError
  succeeded (k, none) again = (k, none)
  succeeded (k, some e) again = again k

module _ {K : Type 0} (net : Netlink K) where
  unfoldable pub set_link_up : K → Bytes → K × Option NetToolError
  set_link_up k iface = elim (net.link_by_name k iface) [
    | none ↦ (k, some no_link)
    | some link ↦ wrap_err (net.link_set_up k link)
  ]

  unfoldable pub set_link_down : K → Bytes → K × Option NetToolError
  set_link_down k iface = elim (net.link_by_name k iface) [
    | none ↦ (k, some no_link)
    | some link ↦ wrap_err (net.link_set_down k link)
  ]

  unfoldable pub set_mtu : K → Bytes → ℕ → K × Option NetToolError
  set_mtu k iface mtu = elim (net.link_by_name k iface) [
    | none ↦ (k, some no_link)
    | some link ↦ wrap_err (net.link_set_mtu k link mtu)
  ]

  unfoldable pub add_address : K → Bytes → Bytes → K × Option NetToolError
  add_address k iface cidr = elim (net.link_by_name k iface) [
    | none ↦ (k, some no_link)
    | some link ↦ elim (net.parse_addr cidr) [
      | none ↦ (k, some bad_address)
      | some addr ↦ wrap_err (net.addr_add k link addr)
    ]
  ]

  unfoldable pub del_address : K → Bytes → Bytes → K × Option NetToolError
  del_address k iface cidr = elim (net.link_by_name k iface) [
    | none ↦ (k, some no_link)
    | some link ↦ elim (net.parse_addr cidr) [
      | none ↦ (k, some bad_address)
      | some addr ↦ wrap_err (net.addr_del k link addr)
    ]
  ]

  -- The loop of AddAddress6, with `left` attempts behind this one; it sleeps between two.
  unfoldable pub try_address : ℕ → K → ℕ → Addr → K × Option NetToolError
  try_address zero k link addr = wrap_err (net.addr_add k link addr)
  try_address (suc left) k link addr =
      succeeded (net.addr_add k link addr) (λ k'. try_address left k' link addr)

  unfoldable pub add_address6 : K → Bytes → Bytes → K × Option NetToolError
  add_address6 k iface cidr = elim (net.link_by_name k iface) [
    | none ↦ (k, some no_link)
    | some link ↦ elim (net.parse_addr cidr) [
      | none ↦ (k, some bad_address)
      | some addr ↦ try_address 4 k link (without_dad addr)
    ]
  ]

  unfoldable pub del_address6 : K → Bytes → Bytes → K × Option NetToolError
  del_address6 k iface cidr = del_address k iface cidr

  -- The device of a route, which may be left out.
  unfoldable pub on_device : K → Bytes → Route → RouteOrError
  on_device k iface route =
      if shorter iface 1 then made route else elim (net.link_by_name k iface) [
        | none ↦ failed no_link
        | some link ↦ made (record route { link_index = link })
      ]

  -- So may its gateway, which AddRoute refuses if it cannot be read, and DelRoute leaves out then.
  unfoldable pub route_to_add : K → Bytes → Bytes → Bytes → RouteOrError
  route_to_add k cidr gw iface = elim (net.parse_cidr cidr) [
    | none ↦ failed bad_destination
    | some dst ↦
        if shorter gw 1
        then on_device k iface (record { dst = dst; gw = none; link_index = 0 })
        else elim (net.parse_ip gw) [
          | none ↦ failed bad_gateway
          | some ip ↦ on_device k iface (record { dst = dst; gw = some ip; link_index = 0 })
        ]
  ]

  unfoldable pub route_to_del : K → Bytes → Bytes → Bytes → RouteOrError
  route_to_del k cidr gw iface = elim (net.parse_cidr cidr) [
    | none ↦ failed bad_destination
    | some dst ↦
        on_device k iface (record {
          dst = dst;
          gw = if shorter gw 1 then none else net.parse_ip gw;
          link_index = 0;
        })
  ]

  unfoldable pub add_route : K → Bytes → Bytes → Bytes → K × Option NetToolError
  add_route k cidr gw iface =
      with_route k (route_to_add k cidr gw iface) (λ r. wrap_but eexist (net.route_add k r))

  unfoldable pub del_route : K → Bytes → Bytes → Bytes → K × Option NetToolError
  del_route k cidr gw iface =
      with_route k (route_to_del k cidr gw iface) (λ r. wrap_but esrch (net.route_del k r))

  unfoldable pub add_route6 : K → Bytes → Bytes → Bytes → K × Option NetToolError
  add_route6 k cidr gw iface = add_route k cidr gw iface

  unfoldable pub del_route6 : K → Bytes → Bytes → Bytes → K × Option NetToolError
  del_route6 k cidr gw iface = del_route k cidr gw iface
