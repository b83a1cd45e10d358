-- ===== src/Swu/Rekey/Switch.antt =====
-- state_rekey.go: what an answer to the request changes.
use swu_go.Prelude.{
  ℕ, ◌≡◌, ◌≢◌, false, refl, Option, none, some, List, [], ◌∷◌, Result, ok, err, panic, stuck, ◌++◌,
  ◌==◌, if◌then◌else◌,
}
use swu_go.Prelude.Bytes.{Bytes, be32}
use swu_go.Prelude.Map.{get}
use swu_go.Crypto.Prf.Stream.{full_stream}
use swu_go.Crypto.Choice.{Algorithms}
use swu_go.Ikev2.Payload.{Payload, delete}
use swu_go.Swu.Error.{SwuError}
use swu_go.Swu.Message.{decrypt_and_parse, encrypt_and_wrap}
use swu_go.Swu.Rekey.Keymat.{IsOutbound, IsInbound}
use swu_go.Swu.Selector.{ChildOutPolicy}
use swu_go.Swu.Rekey.{
  Tunnel, RekeyError, ChildSa, no_message, Found, report, finish_rekey, handle_payloads_of_rekey,
  handle_create_child_sa_resp,
}

-- Behind an error the tunnel is as it was.
abbrev Kept : Tunnel → Tunnel × Result RekeyError (Option Bytes) → RekeyError → Type 0
Kept c p e = p.1 ≡ err e → p.0 ≡ c

report-ne-err :
    (c : Tunnel) (r : Result SwuError (Option Bytes)) (e : RekeyError) → (report c r).1 ≢ err e
report-ne-err c (ok packet) e h = cc
report-ne-err c (err x) e h = cc
report-ne-err c panic e h = cc
report-ne-err c stuck e h = cc

report-answer :
    (c d : Tunnel) (r : Result SwuError (Option Bytes)) → (report c r).1 ≡ (report d r).1
report-answer c d (ok packet) = refl
report-answer c d (err x) = refl
report-answer c d panic = refl
report-answer c d stuck = refl

finish_rekey-Kept :
    (c : Tunnel) (new_spi : ℕ) (random : Option Bytes) (new : ChildSa × ChildSa × ℕ)
    (e : RekeyError)
    → Kept c (finish_rekey c new_spi random new) e
unfolding finish_rekey
finish_rekey-Kept c new_spi random (new_out, new_in, old_out) e h = absurd (report-ne-err _ _ e h)

handle_payloads_of_rekey-Kept :
    (algs : Algorithms) (c : Tunnel) (ni_nonce : Bytes) (new_spi : ℕ) (random : Option Bytes)
    (payloads : List Payload) (e : RekeyError)
    → Kept c (handle_payloads_of_rekey algs c ni_nonce new_spi random payloads) e
unfolding handle_payloads_of_rekey
handle_payloads_of_rekey-Kept algs c ni_nonce new_spi random payloads e = outcome _
  where
    outcome :
        (r : Result RekeyError (ChildSa × ChildSa × ℕ))
        → Kept c
            (elim r [
              | ok new ↦ finish_rekey c new_spi random new
              | err x ↦ (c, err x)
              | panic ↦ (c, panic)
              | stuck ↦ (c, stuck)
            ])
            e
    outcome (ok new) h = finish_rekey-Kept c new_spi random new e h
    outcome (err x) h = refl
    outcome panic h = refl
    outcome stuck h = refl

-- If the answer is refused, whatever it was, the associations, the policies and the selectors are as they
-- were, and of the session only what the decryption changes.
pub handle_create_child_sa_resp-Kept :
    (algs : Algorithms) (c : Tunnel) (packet ni_nonce : Bytes) (new_spi : ℕ) (random : Option Bytes)
    (e : RekeyError)
    → (handle_create_child_sa_resp algs c packet ni_nonce new_spi random).1 ≡ err e
    → (handle_create_child_sa_resp algs c packet ni_nonce new_spi random).0
      ≡ record c { session = (decrypt_and_parse c.session packet).0 }
unfolding handle_create_child_sa_resp
handle_create_child_sa_resp-Kept algs c packet ni_nonce new_spi random e = outcome _
  where
    c' : Tunnel
    c' = record c { session = (decrypt_and_parse c.session packet).0 }

    outcome :
        (r : Result SwuError (ℕ × List Payload))
        → Kept c'
            (elim r [
              | ok (id, payloads) ↦
                  handle_payloads_of_rekey algs c' ni_nonce new_spi random payloads
              | err x ↦ (c', err (no_message x))
              | panic ↦ (c', panic)
              | stuck ↦ (c', stuck)
            ])
            e
    outcome (ok (id, payloads)) h =
        handle_payloads_of_rekey-Kept algs c' ni_nonce new_spi random payloads e h
    outcome (err x) h = refl
    outcome panic h = refl
    outcome stuck h = refl

-- The packet, or none behind an error.
abbrev sent_or_none : Result SwuError Bytes → Result RekeyError (Option Bytes)
sent_or_none (ok packet) = ok (some packet)
sent_or_none (err e) = ok none
sent_or_none panic = panic
sent_or_none stuck = stuck

module _ (algs : Algorithms) (c : Tunnel) (ni nr : Bytes) (new_spi : ℕ)
    (random : Option Bytes) where
  abbrev new_stream : Bytes
  new_stream = full_stream c.prf_alg c.session.keys.sk_d (ni ++ nr)

  -- A Delete for ESP that names one SPI.
  abbrev delete_one : ℕ → Payload
  delete_one spi = delete (record { protocol_id = 3; spi_size = 4; num_spis = 1; spis = be32 spi })

  -- The tunnel behind a good answer, and the packet that is sent.
  pub record IsRekeyed (f : Found) (old_spi : ℕ) (m : List (ℕ × ChildSa))
      (p : Tunnel × Result RekeyError (Option Bytes)) : Type 0 where
    pub new_out : ChildSa
    pub new_in : ChildSa
    pub inbound : List (ℕ × ChildSa)
    pub out_replaced : p.0.child_sa_out ≡ some new_out
    pub in_replaced : p.0.child_sa_in ≡ some new_in
    pub outbound_keys : IsOutbound algs f new_stream f.resp_spi new_spi new_out
    pub inbound_keys : IsInbound algs f new_stream new_spi f.resp_spi new_in
    pub inbound_of : p.0.child_sas_in ≡ some inbound
    pub one_inserted : (j : ℕ) → get j inbound ≡ (if new_spi == j then some new_in else get j m)
    pub first_policy :
        (pol : ChildOutPolicy ChildSa) (rest : List (ChildOutPolicy ChildSa))
        → c.child_out_policies ≡ pol ∷ rest
        → p.0.child_out_policies ≡ record { sa_out = some new_out; tsr = pol.tsr } ∷ rest
    pub deleted :
        p.1 ≡ sent_or_none (encrypt_and_wrap c.session (delete_one old_spi ∷ []) 37 false random).1
