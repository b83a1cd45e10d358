-- ===== src/Swu/AuthFinal/Established.antt =====
-- handleIKEAuthFinalResp: the tunnel that a good response makes.
use swu_go.Prelude.{
  map, none, [], false, ◌∷◌, ℕ, ◌+◌, ◌*◌, ◌≤◌, ◌≡◌, ◌≢◌, false, some, List, ◌∷◌, ◌++◌, Result, ok,
  ◌>>=◌, ◌==◌, length, take, if◌then◌else◌,
}
use swu_go.Prelude.Bytes.{Bytes, u32_at}
use swu_go.Prelude.Map.{get}
use swu_go.Ikev2.Sa.{Proposal}
use swu_go.Ikev2.Payload.{Payload}
use swu_go.Crypto.Choice.{Algorithms}
use swu_go.Crypto.Prf.Stream.{full_stream}
use swu_go.Swu.Rekey.{
  Found, nothing_found, find_transforms, Suite, choose_suite, ChildKeys, cut_keys, ChildSa,
}
use swu_go.Swu.Rekey.Keymat.{IsOutbound, IsInbound}
use swu_go.Ikev2.Body.{Ke}
use swu_go.Ikev2.Cp.{Cp}
use swu_go.Ikev2.Cp.Config.{parse_cp_config}
use swu_go.Ikev2.Ts.{TrafficSelector}
use swu_go.Crypto.DiffieHellman.{DiffieHellman, compute_shared_secret}
use swu_go.Swu.AuthFinal.{AuthState, AuthError, AuthFound, dh_of, secret_of}
use swu_go.Swu.AuthFinal.Kept.{Core}

-- The seed is made of what makes the tunnel.
abbrev seed_from : Core → AuthFound → ℕ → Result AuthError Bytes
seed_from c f dh_id =
    if dh_id == 0
    then ok (c.ni ++ c.nr)
    else (do secret ← secret_of c.child_dh f.ke_payload; ok ((c.ni ++ c.nr) ++ secret))

abbrev key_count : Suite → ℕ
key_count u = 2 * (u.enc_len + u.integ_len)

abbrev stream_of : Core → Bytes → Bytes
stream_of c seed = full_stream c.tunnel.prf_alg c.tunnel.session.keys.sk_d seed

abbrev numbers_of : Proposal → Found
numbers_of p = find_transforms nothing_found p.transforms

-- The state `r` is what a response with the proposal `p` makes of the state `c`.
pub record IsEstablished (algs : Algorithms) (c : Core) (f : AuthFound) (p : Proposal)
    (seed : Bytes) (m : List (ℕ × ChildSa)) (r : AuthState × Result AuthError Unit) : Type 0 where
  pub new_out : ChildSa
  pub new_in : ChildSa
  pub inbound : List (ℕ × ChildSa)
  pub answered : r.1 ≡ ok tt
  pub out_made : r.0.tunnel.child_sa_out ≡ some new_out
  pub in_made : r.0.tunnel.child_sa_in ≡ some new_in
  pub outbound_keys :
      IsOutbound algs (numbers_of p) (stream_of c seed) (u32_at 0 p.spi) c.child_spi new_out
  pub inbound_keys :
      IsInbound algs (numbers_of p) (stream_of c seed) c.child_spi (u32_at 0 p.spi) new_in
  pub inbound_of : r.0.tunnel.child_sas_in ≡ some inbound
  pub one_inserted : (j : ℕ) → get j inbound ≡ (if c.child_spi == j then some new_in else get j m)
  pub plain_seed : dh_of 0 p.transforms ≡ 0 → seed ≡ c.ni ++ c.nr
  pub secret_seed :
      (dh : DiffieHellman) (k : Ke) (secret : Bytes)
      → dh_of 0 p.transforms ≢ 0
      → c.child_dh ≡ some dh
      → f.ke_payload ≡ some k
      → compute_shared_secret dh k.ke_data ≡ some secret
      → seed ≡ (c.ni ++ c.nr) ++ secret
  pub selectors_kept : f.tsr_payload ≡ none → r.0.tunnel.tsr ≡ c.tunnel.tsr
  pub selectors_taken :
      (xs : List TrafficSelector) → f.tsr_payload ≡ some xs → r.0.tunnel.tsr ≡ map some xs
  pub own_selectors_kept : f.tsi_payload ≡ none → r.0.tsi ≡ c.tsi
  pub own_selectors_taken :
      (xs : List TrafficSelector) → f.tsi_payload ≡ some xs → r.0.tsi ≡ map some xs
  pub no_policy : r.0.tunnel.tsr ≡ [] → r.0.tunnel.child_out_policies ≡ c.tunnel.child_out_policies
  pub policy_added :
      r.0.tunnel.tsr ≢ []
      → r.0.tunnel.child_out_policies
        ≡ c.tunnel.child_out_policies
          ++ (record { sa_out = some new_out; tsr = r.0.tunnel.tsr } ∷ [])
  pub addresses_kept : f.cp_payload ≡ none → r.0.cp_config ≡ c.cp_config
  pub addresses_taken : (x : Cp) → f.cp_payload ≡ some x → r.0.cp_config ≡ some (parse_cp_config x)
  pub numbers :
      (r.0.child_encr_id ≡ (numbers_of p).encr_id)
      × (r.0.child_integ_id ≡ (numbers_of p).integ_id)
      × (r.0.child_encr_key_len_bits ≡ (numbers_of p).encr_key_len_bits)

module _ (algs : Algorithms) (f : AuthFound) (p : Proposal) (u : Suite) (seed : Bytes)
    (m : List (ℕ × ChildSa)) (encrypted : (find_transforms nothing_found p.transforms).encr_id ≢ 0)
    (chosen : choose_suite algs (find_transforms nothing_found p.transforms) ≡ ok u) where
  -- What is asked of the state.
  record Ready (c : Core) : Type 0 where
    seeded : seed_from c f (dh_of 0 p.transforms) ≡ ok seed
    own_spi : c.child_spi ≢ 0
    inbound : c.tunnel.child_sas_in ≡ some m
    long : key_count u ≤ length (stream_of c seed)

  abbrev cut_from : Core → ChildKeys
  cut_from c = cut_keys u.enc_len u.integ_len (take (key_count u) (stream_of c seed))
