-- ===== src/Driver/Transaction/Rollback.antt =====
-- transaction.go: what a rollback does.
use swu_go.Prelude.{
  ℕ, ◌≡◌, refl, sym, ap, subst, ◌∙◌, Bool, true, false, Option, none, some, List, [], ◌∷◌, ◌++◌,
  append_assoc, append-nil, ◌==◌, if◌then◌else◌, shorter,
}
use swu_go.Prelude.Bytes.{Bytes}
use swu_go.Driver.NetTools.{
  Netlink, NetToolError, Route, RouteOrError, bad_destination, bad_gateway, made, failed, errno,
  eexist, esrch, wrap_but, set_link_up, set_link_down, set_mtu, add_address, del_address, add_route,
  del_route, add_address6, del_address6, add_route6, del_route6, on_device, route_to_add,
  route_to_del,
}
use swu_go.Driver.Transaction.{
  TxnCall, link_up, mtu, address, route, address6, route6, Undos, errors_of, record_undo, rollback,
  txn_call, txn_run,
}

abbrev pub last_first : List TxnCall → List TxnCall
last_first [] = []
last_first (c ∷ cs) = last_first cs ++ (c ∷ [])

module _ {K : Type 0} (net : Netlink K) where
  -- The tool behind each method, and the one that takes it back, which an MTU does not have.
  abbrev pub apply_call : TxnCall → K → K × Option NetToolError
  apply_call (link_up iface) k = set_link_up net k iface
  apply_call (mtu iface n) k = set_mtu net k iface n
  apply_call (address iface cidr) k = add_address net k iface cidr
  apply_call (route cidr gw iface) k = add_route net k cidr gw iface
  apply_call (address6 iface cidr) k = add_address6 net k iface cidr
  apply_call (route6 cidr gw iface) k = add_route6 net k cidr gw iface

  abbrev pub take_back : TxnCall → K → K × Option NetToolError
  take_back (link_up iface) k = set_link_down net k iface
  take_back (mtu iface n) k = (k, none)
  take_back (address iface cidr) k = del_address net k iface cidr
  take_back (route cidr gw iface) k = del_route net k cidr gw iface
  take_back (address6 iface cidr) k = del_address6 net k iface cidr
  take_back (route6 cidr gw iface) k = del_route6 net k cidr gw iface

  -- The kernel behind some calls, and those of them that gave no error.
  abbrev pub apply_calls : List TxnCall → K → K
  apply_calls [] k = k
  apply_calls (c ∷ cs) k = apply_calls cs (apply_call c k).0

  abbrev pub keep_if_done : Option NetToolError → TxnCall → List TxnCall → List TxnCall
  keep_if_done none c cs = c ∷ cs
  keep_if_done (some e) c cs = cs

  abbrev pub done_calls : List TxnCall → K → List TxnCall
  done_calls [] k = []
  done_calls (c ∷ cs) k = keep_if_done (apply_call c k).1 c (done_calls cs (apply_call c k).0)

  -- Calls taken back one after the other, with their errors.
  abbrev pub take_back_all : K → List TxnCall → K × List NetToolError
  take_back_all k [] = (k, [])
  take_back_all k (c ∷ cs) =
      let (k', e) = take_back c k in
      let (k'', errors) = take_back_all k' cs in (k'', errors_of e ++ errors)

  take_back_all-append :
      (k : K) (cs : List TxnCall) (c : TxnCall)
      → take_back_all k (cs ++ (c ∷ [])) ≡ (
          let (k', errors) = take_back_all k cs in
          let (k'', e) = take_back c k' in (k'', errors ++ errors_of e))
  take_back_all-append k [] c =
      ap (λ es. ((take_back c k).0, es)) (append-nil (errors_of (take_back c k).1))
  take_back_all-append k (d ∷ cs) c =
      let (k', e) = take_back d k in
      let (k'', errors) = take_back_all k' cs in
      ap (λ q. (q.0, errors_of e ++ q.1)) (take_back_all-append k' cs c)
      ∙ ap (λ es. ((take_back c k'').0, es))
          (sym (append_assoc (errors_of e) errors (errors_of (take_back c k'').1)))

  -- The functions that the transaction adds for a call that is done.
  abbrev undos_of : TxnCall → Undos K
  undos_of (mtu iface n) = []
  undos_of c = take_back c ∷ []

  abbrev all_undos : List TxnCall → Undos K
  all_undos [] = []
  all_undos (c ∷ cs) = undos_of c ++ all_undos cs

  txn_call-record_undo :
      (c : TxnCall) (k : K) (undos : Undos K)
      → txn_call net c k undos ≡ record_undo undos (undos_of c) (apply_call c k)
  unfolding txn_call
  txn_call-record_undo (link_up iface) k undos = refl
  txn_call-record_undo (mtu iface n) k undos = refl
  txn_call-record_undo (address iface cidr) k undos = refl
  txn_call-record_undo (route cidr gw iface) k undos = refl
  txn_call-record_undo (address6 iface cidr) k undos = refl
  txn_call-record_undo (route6 cidr gw iface) k undos = refl

  recorded :
      (undos : Undos K) (c : TxnCall) (rest : List TxnCall) (p : K × Option NetToolError)
      → (record_undo undos (undos_of c) p).1 ++ all_undos rest
        ≡ undos ++ all_undos (keep_if_done p.1 c rest)
  recorded undos c rest (k, none) = append_assoc undos (undos_of c) (all_undos rest)
  recorded undos c rest (k, some e) = refl

  recorded_kernel :
      (undos new : Undos K) (p : K × Option NetToolError) → (record_undo undos new p).0 ≡ p.0
  recorded_kernel undos new (k, none) = refl
  recorded_kernel undos new (k, some e) = refl

  txn_run-all_undos :
      (cs : List TxnCall) (k : K) (undos : Undos K)
      → txn_run net cs k undos ≡ (apply_calls cs k, undos ++ all_undos (done_calls cs k))
  unfolding txn_run
  txn_run-all_undos [] k undos = ap (λ us. (k, us)) (sym (append-nil undos))
  txn_run-all_undos (c ∷ cs) k undos =
      let q = record_undo undos (undos_of c) (apply_call c k) in
      ap (λ p. txn_run net cs p.0 p.1) (txn_call-record_undo c k undos)
      ∙ ap (λ j. txn_run net cs j q.1) (recorded_kernel undos (undos_of c) (apply_call c k))
      ∙ txn_run-all_undos cs (apply_call c k).0 q.1
      ∙ ap (λ us. (apply_calls cs (apply_call c k).0, us))
          (recorded undos c (done_calls cs (apply_call c k).0) (apply_call c k))

  rollback-one :
      (c : TxnCall) (k : K) (undos : Undos K)
      → rollback k (undos_of c ++ undos) ≡ (
          let (k', errors) = rollback k undos in
          let (k'', e) = take_back c k' in (k'', errors ++ errors_of e))
  unfolding rollback
  rollback-one (mtu iface n) k undos =
      ap (λ es. ((rollback k undos).0, es)) (sym (append-nil (rollback k undos).1))
  rollback-one (link_up iface) k undos = refl
  rollback-one (address iface cidr) k undos = refl
  rollback-one (route cidr gw iface) k undos = refl
  rollback-one (address6 iface cidr) k undos = refl
  rollback-one (route6 cidr gw iface) k undos = refl

  rollback-all_undos :
      (cs : List TxnCall) (k : K) → rollback k (all_undos cs) ≡ take_back_all k (last_first cs)
  unfolding rollback
  rollback-all_undos [] k = refl
  rollback-all_undos (c ∷ cs) k =
      rollback-one c k (all_undos cs)
      ∙ ap (λ p. let (k'', e) = take_back c p.0 in (k'', p.1 ++ errors_of e))
          (rollback-all_undos cs k)
      ∙ sym (take_back_all-append k (last_first cs) c)

  -- Calls are made one after the other, whether they succeed or not. Whatever the kernel does on each, Rollback
  -- then takes back those that gave no error, each once, the last first, by the tool that is the opposite:
  -- SetLinkDown, DelAddress or DelRoute with the same arguments, and nothing for an MTU. It goes on
  -- behind an error, and gives the errors of all in this order.
  pub rollback-txn_run :
      (cs : List TxnCall) (k : K)
      → rollback (txn_run net cs k []).0 (txn_run net cs k []).1
        ≡ take_back_all (apply_calls cs k) (last_first (done_calls cs k))
  rollback-txn_run cs k =
      ap (λ p. rollback p.0 p.1) (txn_run-all_undos cs k [])
      ∙ rollback-all_undos (done_calls cs k) (apply_calls cs k)

module _ {K : Type 0} (net : Netlink K) where
  module _ (k j : K) (cidr gw iface : Bytes) (r : Route)
      (names : net.link_by_name j iface ≡ net.link_by_name k iface) where
    on_device_same : (x : Route) → on_device net j iface x ≡ on_device net k iface x
    unfolding on_device
    on_device_same x = rw (names, on_device) refl

    -- The route that DelRoute makes is the one that AddRoute made.
    route_to_del_same :
        route_to_add net k cidr gw iface ≡ made r → route_to_del net j cidr gw iface ≡ made r
    unfolding route_to_add route_to_del
    route_to_del_same = pick (net.parse_cidr cidr) (shorter gw 1) (net.parse_ip gw)
      where
        pick :
            (o : Option Bytes) (b : Bool) (p : Option Bytes)
            → ◌≡◌ {A = RouteOrError}
                (elim o [
                  | none ↦ failed bad_destination
                  | some dst ↦
                      if b
                      then on_device net k iface (record { dst = dst; gw = none; link_index = 0 })
                      else elim p [
                        | none ↦ failed bad_gateway
                        | some ip ↦
                            on_device net k iface
                              (record { dst = dst; gw = some ip; link_index = 0 })
                      ]
                ])
                (made r)
            → ◌≡◌ {A = RouteOrError}
                (elim o [
                  | none ↦ failed bad_destination
                  | some dst ↦
                      on_device net j iface
                        (record { dst = dst; gw = if b then none else p; link_index = 0 })
                ])
                (made r)
        pick none b p h = cc
        pick (some dst) true p h = on_device_same _ ∙ h
        pick (some dst) false none h = cc
        pick (some dst) false (some ip) h = on_device_same _ ∙ h

module _ {K : Type 0} (net : Netlink K) (k : K) (cidr gw iface : Bytes) (r : Route)
    (asked : route_to_add net k cidr gw iface ≡ made r) where
  wrap_but-same : (n : ℕ) (p : K × Option ℕ) → (wrap_but n p).0 ≡ p.0
  wrap_but-same n (j, none) = refl
  wrap_but-same n (j, some e) = found (e == n)
    where
      found :
          (b : Bool)
          → (if◌then◌else◌ {A = K × Option NetToolError} b (j, none) (j, some (errno e))).0 ≡ j
      found true = refl
      found false = refl

  del_route_lem : del_route net k cidr gw iface ≡ wrap_but esrch (net.route_del k r)
  unfolding del_route
  del_route_lem = rw (route_to_del_same net k k cidr gw iface r refl asked) refl

  add_route_existing :
      net.route_add k r ≡ (k, some eexist) → add_route net k cidr gw iface ≡ (k, none)
  unfolding add_route
  add_route_existing h = rw (asked, add_route) (rw (h) refl)

  txn_call_existing :
      net.route_add k r ≡ (k, some eexist)
      → txn_call net (route cidr gw iface) k []
        ≡ (k, (λ j. del_route net j cidr gw iface) ∷ [], none)
  unfolding txn_call
  txn_call_existing h =
      ap (record_undo [] ((λ j. del_route net j cidr gw iface) ∷ [])) (add_route_existing h)

-- Adding a route that is already there is no error and changes nothing, and Rollback then deletes it: what is
-- left is what the kernel leaves when it is told to delete that route.
pub rollback-add_route_existing :
    {K : Type 0} (net : Netlink K) (k : K) (cidr gw iface : Bytes) (r : Route)
    → route_to_add net k cidr gw iface ≡ made r
    → net.route_add k r ≡ (k, some eexist)
    → let (j, undos, e) = txn_call net (route cidr gw iface) k [] in
      (e ≡ none) × (j ≡ k) × ((rollback j undos).0 ≡ (net.route_del k r).0)
unfolding rollback
rollback-add_route_existing net k cidr gw iface r asked h =
    subst (λ p. (p.2 ≡ none) × (p.0 ≡ k) × ((rollback p.0 p.1).0 ≡ (net.route_del k r).0))
      (sym (txn_call_existing net k cidr gw iface r asked h))
      (
        refl,
        refl,
        ap (λ p. p.0) (del_route_lem net k cidr gw iface r asked)
            ∙ wrap_but-same net k cidr gw iface r asked esrch (net.route_del k r),
      )
