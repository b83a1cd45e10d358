-- ===== src/Eap/Reauth.antt =====
-- pkg/eap/reauth.go: fast re-authentication.
use swu_go.Prelude.{
  ℕ, ◌≡◌, refl, Bool, true, false, ◌&&◌, not, [], ◌∷◌, ◌++◌, ok, shorter, replicate,
}
use swu_go.Prelude.Bytes.{Bytes, be16}
use swu_go.Prelude.Map.{put}
use swu_go.Eap.Attributes.{parse_attributes, parse_from, attribute_of}

abbrev at_mac : ℕ
at_mac = 11

abbrev at_counter : ℕ
at_counter = 19

pub record FastReauthContext : Type 0 where
  pub enabled : Bool
  pub reauth_id : Bytes
  pub counter : ℕ
  pub nonce_s : Bytes
  pub counter_small : Bool
  pub k_encr : Bytes
  pub k_aut : Bytes
  pub mk : Bytes

unfoldable pub new_fast_reauth_context : FastReauthContext
new_fast_reauth_context = record {
  enabled = false;
  reauth_id = [];
  counter = 0;
  nonce_s = [];
  counter_small = false;
  k_encr = [];
  k_aut = [];
  mk = [];
}

unfoldable pub save_reauth_data :
    FastReauthContext → Bytes → Bytes → Bytes → Bytes → FastReauthContext
save_reauth_data ctx next_reauth_id mk k_encr k_aut = record ctx {
  reauth_id = next_reauth_id;
  mk = mk;
  k_encr = k_encr;
  k_aut = k_aut;
  enabled = true;
  counter = 0;
}

unfoldable pub can_use_reauth : FastReauthContext → Bool
can_use_reauth ctx = ctx.enabled && not (shorter ctx.reauth_id 1)

-- BuildReauthResponse: the attributes, with room for the MAC, and the context after the call.
unfoldable pub build_reauth_response : FastReauthContext → Bytes → ℕ → Bytes × FastReauthContext
build_reauth_response ctx nonce_s counter = (
  (at_counter ∷ 1 ∷ be16 counter) ++ ((at_mac ∷ 5 ∷ 0 ∷ 0 ∷ []) ++ replicate 16 0),
  record ctx { nonce_s = nonce_s; counter = counter },
)

-- ParseAttributes finds in the answer AT_COUNTER with the two bytes of the server's counter, and AT_MAC
-- with two reserved bytes and 16 zeros in the place of the MAC; and the context takes over the counter,
-- whatever its own was: a counter that is too small is never noticed.
parse_attributes-build_reauth_response :
    (ctx : FastReauthContext) (nonce_s : Bytes) (counter : ℕ)
    → (parse_attributes (build_reauth_response ctx nonce_s counter).0
        ≡ ok (
            (at_counter, record { attr_type = at_counter; attr_length = 1; value = be16 counter })
            ∷ (at_mac, record { attr_type = at_mac; attr_length = 5; value = replicate 18 0 })
            ∷ []))
      × ((build_reauth_response ctx nonce_s counter).1.counter ≡ counter)
      × ((build_reauth_response ctx nonce_s counter).1.counter_small ≡ ctx.counter_small)
unfolding build_reauth_response parse_attributes parse_from attribute_of put
parse_attributes-build_reauth_response ctx nonce_s counter = (refl, refl, refl)
