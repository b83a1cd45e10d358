-- ===== src/Driver/Transaction.antt =====
-- pkg/driver/transaction.go: changes that can be taken back together.
pub mod Rollback
mod Tests
use swu_go.Prelude.{ℕ, Option, none, some, List, [], ◌∷◌, ◌++◌}
use swu_go.Prelude.Bytes.{Bytes}
use swu_go.Driver.NetTools.{
  Netlink, NetToolError, set_link_up, set_link_down, set_mtu, add_address, del_address, add_route,
  del_route, add_address6, del_address6, add_route6, del_route6,
}

-- The methods that change something.
pub data TxnCall : Type 0 where
  link_up : Bytes → TxnCall
  mtu : Bytes → ℕ → TxnCall
  address : Bytes → Bytes → TxnCall
  route : Bytes → Bytes → Bytes → TxnCall
  address6 : Bytes → Bytes → TxnCall
  route6 : Bytes → Bytes → Bytes → TxnCall

-- The functions to undo what was done, the oldest first.
abbrev pub Undos : Type 0 → Type 0
Undos K = List (K → K × Option NetToolError)

abbrev pub errors_of : Option NetToolError → List NetToolError
errors_of none = []
errors_of (some e) = e ∷ []

module _ {K : Type 0} where
  -- A call that succeeds adds a function, if there is one.
  abbrev pub record_undo :
      Undos K
      → List (K → K × Option NetToolError)
      → K × Option NetToolError
      → K × Undos K × Option NetToolError
  record_undo undos undo (k, none) = (k, undos ++ undo, none)
  record_undo undos undo (k, some e) = (k, undos, some e)

  -- Rollback: from the last function to the first, and the errors of all.
  unfoldable pub rollback : K → Undos K → K × List NetToolError
  rollback k [] = (k, [])
  rollback k (undo ∷ undos) =
      let (k', errors) = rollback k undos in let (k'', e) = undo k' in (k'', errors ++ errors_of e)

module _ {K : Type 0} (net : Netlink K) where
  unfoldable pub txn_call : TxnCall → K → Undos K → K × Undos K × Option NetToolError
  txn_call (link_up iface) k undos =
      record_undo undos ((λ j. set_link_down net j iface) ∷ []) (set_link_up net k iface)
  txn_call (mtu iface n) k undos = record_undo undos [] (set_mtu net k iface n)
  txn_call (address iface cidr) k undos =
      record_undo undos ((λ j. del_address net j iface cidr) ∷ []) (add_address net k iface cidr)
  txn_call (route cidr gw iface) k undos =
      record_undo undos ((λ j. del_route net j cidr gw iface) ∷ []) (add_route net k cidr gw iface)
  txn_call (address6 iface cidr) k undos =
      record_undo undos ((λ j. del_address6 net j iface cidr) ∷ []) (add_address6 net k iface cidr)
  txn_call (route6 cidr gw iface) k undos =
      record_undo undos ((λ j. del_route6 net j cidr gw iface) ∷ [])
        (add_route6 net k cidr gw iface)

  -- Calls one after the other, whether they succeed or not.
  unfoldable pub txn_run : List TxnCall → K → Undos K → K × Undos K
  txn_run [] k undos = (k, undos)
  txn_run (c ∷ cs) k undos = let (k', undos', e) = txn_call c k undos in txn_run cs k' undos'
