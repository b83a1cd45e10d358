-- ===== src/Swu/Selector/Choice.antt =====
-- selector.go: the association whose selectors cover the packet is the one that is chosen.
use swu_go.Prelude.{ℕ, ◌≡◌, ◌⊎◌, List, [], ◌∷◌, ◌++◌, Option, none, some, All}
use swu_go.Prelude.Bytes.{Bytes}
use swu_go.Ikev2.Ts.{TrafficSelector}
use swu_go.Swu.Selector.{ChildOutPolicy}
use swu_go.Swu.Selector.Covers.{Covers, AddrBytes}

-- One of the selectors covers the destination.
abbrev pub AnyCovers : Bytes → ℕ → ℕ → List (Option TrafficSelector) → Type 0
AnyCovers dst proto port [] = ⊥
AnyCovers dst proto port (none ∷ ts) = AnyCovers dst proto port ts
AnyCovers dst proto port (some t ∷ ts) = Covers dst proto port t ⊎ AnyCovers dst proto port ts

abbrev pub AllAddrBytes : List (Option TrafficSelector) → Type 0
AllAddrBytes [] = Unit {0}
AllAddrBytes (none ∷ ts) = AllAddrBytes ts
AllAddrBytes (some t ∷ ts) = AddrBytes t × AllAddrBytes ts

module _ (dst : Bytes) (proto port : ℕ) {Sa : Type 0} where
  -- The policy has an association, and a selector that covers the destination.
  abbrev pub Applies : ChildOutPolicy Sa → Type 0
  Applies pol = (sa : Sa) × (pol.sa_out ≡ some sa) × AnyCovers dst proto port pol.tsr

  abbrev pub FirstThatApplies : List (ChildOutPolicy Sa) → Sa → Type 0
  FirstThatApplies policies sa =
      (before : List (ChildOutPolicy Sa)) × (pol : ChildOutPolicy Sa) × (after : List
        (ChildOutPolicy Sa))
      × (policies ≡ before ++ (pol ∷ after))
      × All (λ q. ¬ (Applies q)) before
      × (pol.sa_out ≡ some sa)
      × AnyCovers dst proto port pol.tsr

  -- The first policy that applies gives the association, and if there is none ChildSAOut is it.
  abbrev pub Outcome : Sa → List (ChildOutPolicy Sa) → Sa → Type 0
  Outcome child policies sa =
      FirstThatApplies policies sa ⊎ (All (λ q. ¬ (Applies q)) policies × (sa ≡ child))
