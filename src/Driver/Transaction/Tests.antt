-- ===== src/Driver/Transaction/Tests.antt =====
-- Witnesses for transaction.go.
use swu_go.Prelude.{ℕ, ◌≡◌, refl, Bool, true, false, Option, none, some, List, [], ◌∷◌}
use swu_go.Prelude.Bytes.{Bytes}
use swu_go.Driver.NetTools.{
  set_mtu, set_link_up, set_link_down, add_address, del_address, add_route, del_route, route_to_del,
  Netlink, Addr, Route, eexist, route_to_add, set_link_up, add_address, on_device,
}
use swu_go.Driver.Transaction.{TxnCall, link_up, mtu, address, route, rollback, txn_call, txn_run}
use swu_go.Driver.Transaction.Rollback.{
  last_first, apply_calls, done_calls, take_back_all, rollback-txn_run, rollback-add_route_existing,
}

-- A kernel of one link: whether it is up, how many addresses it has, and how many routes.
abbrev Kernel : Type 0
Kernel = Bool × List Bytes × List Bytes

abbrev set_up : Kernel → Kernel × Option ℕ
set_up (up, addrs, routes) = ((true, addrs, routes), none)

abbrev set_down : Kernel → Kernel × Option ℕ
set_down (up, addrs, routes) = ((false, addrs, routes), none)

-- One route is there at most.
abbrev add_one : Route → Kernel → Kernel × Option ℕ
add_one r (up, addrs, []) = ((up, addrs, r.dst ∷ []), none)
add_one r (up, addrs, x ∷ routes) = ((up, addrs, x ∷ routes), some eexist)

abbrev del_one : Kernel → Kernel × Option ℕ
del_one (up, addrs, []) = ((up, addrs, []), some 3)
del_one (up, addrs, x ∷ routes) = ((up, addrs, routes), none)

abbrev push_address : Addr → Kernel → Kernel × Option ℕ
push_address a (up, addrs, routes) = ((up, a.prefix ∷ addrs, routes), none)

abbrev pop_address : Kernel → Kernel × Option ℕ
pop_address (up, [], routes) = ((up, [], routes), some 99)
pop_address (up, x ∷ addrs, routes) = ((up, addrs, routes), none)

abbrev one_link : Netlink Kernel
one_link = record {
  link_by_name = λ k iface. some 7;
  link_set_up = λ k link. set_up k;
  link_set_down = λ k link. set_down k;
  link_set_mtu = λ k link n. (k, none);
  addr_add = λ k link a. push_address a k;
  addr_del = λ k link a. pop_address k;
  route_add = λ k r. add_one r k;
  route_del = λ k r. del_one k;
  parse_addr = λ text. some (record { prefix = text; flags = 0 });
  parse_cidr = λ text. some text;
  parse_ip = λ text. some text;
}

abbrev empty : Kernel
empty = (false, [], [])

-- A link is set up, and gets an address, an MTU and a route.
abbrev calls : List TxnCall
calls =
    link_up (1 ∷ [])
    ∷ address (1 ∷ []) (10 ∷ [])
    ∷ mtu (1 ∷ []) 1400
    ∷ route (20 ∷ []) [] (1 ∷ [])
    ∷ []

rollback-txn_run_example :
    rollback (txn_run one_link calls empty []).0 (txn_run one_link calls empty []).1
    ≡ take_back_all one_link
        (apply_calls one_link calls empty)
        (last_first (done_calls one_link calls empty))
rollback-txn_run_example = rollback-txn_run one_link calls empty

-- Here nothing is left.
taken_back :
    take_back_all one_link
      (apply_calls one_link calls empty)
      (last_first (done_calls one_link calls empty))
    ≡ (empty, [])
unfolding set_link_up set_mtu add_address add_route route_to_add route_to_del on_device del_route
    del_address set_link_down
taken_back = refl

abbrev busy : Kernel
busy = (true, [], (20 ∷ []) ∷ [])

rollback-add_route_existing_example :
    let (j, undos, e) = txn_call one_link (route (20 ∷ []) [] (1 ∷ [])) busy [] in
    (e ≡ none) × (j ≡ busy) × ((rollback j undos).0 ≡ (true, [], []))
unfolding route_to_add on_device
rollback-add_route_existing_example =
    rollback-add_route_existing one_link busy (20 ∷ []) [] (1 ∷ [])
      (record { dst = 20 ∷ []; gw = none; link_index = 7 }) refl refl
