-- ===== src/Swu/Control/Sequence.antt =====
-- ike_control.go: a request never turns the message IDs of the session back.
use swu_go.Prelude.{
  ℕ, ◌≤◌, ◌<◌, ◌≡◌, refl, ap, ◌∙◌, subst, ◌⊎◌, inl, inr, Bool, true, false, ◌||◌, not, Bool-cases,
  Option-cases, List, [], ◌∷◌, ltb, ltb→lt, ◌==◌, eq_of_test, if◌then◌else◌, shorter, shorter→le,
  length,
}
use swu_go.Prelude.Bytes.{u32_at}
use swu_go.Ikev2.Types.{proto_ike, proto_esp}
use swu_go.Ikev2.Body.{Notify, Delete}
use swu_go.Ikev2.Payload.{Payload, notify, delete}
use swu_go.Swu.Control.{
  Control, Effect, Step, go_on, respond, ikev2_message_id_sync, update_sa_addresses, redirect,
  sync_message_id, handle_notify, delete_spi, delete_spis, spis_of, confirm, handle_delete,
  handle_payload, after_step, handle_payloads,
}

-- A complete IKEV2_MESSAGE_ID_SYNC that expects the ID `n` next.
abbrev pub AsksFor : ℕ → Payload → Type 0
AsksFor n (notify p) =
    (p.notify_type ≡ ikev2_message_id_sync)
    × (12 ≤ length p.notify_data)
    × (u32_at 8 p.notify_data ≡ n)
AsksFor n p = ⊥

abbrev pub Asks : ℕ → List Payload → Type 0
Asks n [] = ⊥
Asks n (p ∷ ps) = AsksFor n p ⊎ Asks n ps

-- The sequence number stays, or is raised to what one of the payloads asks for.
abbrev pub StaysOrRises : ℕ → ℕ → List Payload → Type 0
StaysOrRises old new ps = (new ≡ old) ⊎ ((old < new) × Asks new ps)

-- A step that goes on leaves the session; one that returns raises the number at most.
AllowedStep : Control → Payload → Step → Type 0
AllowedStep c p (go_on c' effects) = c'.session ≡ c.session
AllowedStep c p (respond c' effects answer) =
    StaysOrRises c.session.sequence_number c'.session.sequence_number (p ∷ [])

if_AllowedStep :
    (c : Control) (p : Payload) (b : Bool) (x y : Step)
    → (b ≡ true → AllowedStep c p x)
    → (b ≡ false → AllowedStep c p y)
    → AllowedStep c p (if b then x else y)
if_AllowedStep c p true x y h k = h refl
if_AllowedStep c p false x y h k = k refl

raised :
    (now wanted : ℕ) (n : Notify)
    → n.notify_type ≡ ikev2_message_id_sync
    → 12 ≤ length n.notify_data
    → u32_at 8 n.notify_data ≡ wanted
    → StaysOrRises now (if ltb now wanted then wanted else now) (notify n ∷ [])
raised now wanted n ty long e = elim (Bool-cases (ltb now wanted)) [
  | inl more ↦ rw more (inr (ltb→lt now wanted more, inl (ty, long, e)))
  | inr less ↦ rw less (inl refl)
]

handle_notify-AllowedStep :
    (payloads : List Payload) (msg_id : ℕ) (c : Control) (n : Notify)
    → AllowedStep c (notify n) (handle_notify payloads msg_id c n)
unfolding handle_notify sync_message_id AllowedStep
handle_notify-AllowedStep payloads msg_id c n =
    if_AllowedStep c (notify n) (n.notify_type == ikev2_message_id_sync) _ _
      (λ is_sync.
        if_AllowedStep c (notify n) (shorter n.notify_data 12) _ _ (λ _. refl)
          (λ long.
            raised c.session.sequence_number (u32_at 8 n.notify_data) n
              (eq_of_test n.notify_type ikev2_message_id_sync is_sync)
              (shorter→le n.notify_data 12 long) refl))
      (λ _.
        if_AllowedStep c (notify n) (n.notify_type == update_sa_addresses) _ _
          (λ _. if_AllowedStep c (notify n) c.mobike_supported _ _ (λ _. inl refl) (λ _. refl))
          (λ _.
            if_AllowedStep c (notify n) (n.notify_type == redirect) _ _ (λ _. refl) (λ _. refl)))

delete_spi_session : (c : Control) (spi : ℕ) → (delete_spi c spi).0.session ≡ c.session
unfolding delete_spi
delete_spi_session c spi = elim (Option-cases c.child_sa_out) [
  | inl none_out ↦ rw none_out refl
  | inr (out, e) ↦ elim (Bool-cases (out == spi)) [
    | inl same ↦ rw (e, same) refl
    | inr other ↦ rw (e, other) refl
  ]
]

delete_spis_session : (c : Control) (spis : List ℕ) → (delete_spis c spis).0.session ≡ c.session
unfolding delete_spis
delete_spis_session c [] = refl
delete_spis_session c (spi ∷ spis) =
    delete_spis_session (delete_spi c spi).0 spis ∙ delete_spi_session c spi

confirm-AllowedStep :
    (c : Control) (p : Payload) (r : Control × List ℕ)
    → r.0.session ≡ c.session
    → AllowedStep c p (confirm r)
unfolding AllowedStep
confirm-AllowedStep c p (c', []) e = e
confirm-AllowedStep c p (c', (spi ∷ spis)) e = inl (ap (λ s. s.sequence_number) e)

handle_delete-AllowedStep :
    (c : Control) (d : Delete) → AllowedStep c (delete d) (handle_delete c d)
unfolding handle_delete AllowedStep
handle_delete-AllowedStep c d =
    if_AllowedStep c (delete d) (d.protocol_id == proto_ike) _ _ (λ _. refl)
      (λ _.
        if_AllowedStep c (delete d) (not (d.protocol_id == proto_esp) || not (d.spi_size == 4)) _ _
          (λ _. refl)
          (λ _.
            confirm-AllowedStep c (delete d) (delete_spis c (spis_of d.spis))
              (delete_spis_session c (spis_of d.spis))))

handle_payload-AllowedStep :
    (payloads : List Payload) (msg_id : ℕ) (c : Control) (p : Payload)
    → AllowedStep c p (handle_payload payloads msg_id c p)
unfolding AllowedStep
handle_payload-AllowedStep payloads msg_id c (notify n) =
    handle_notify-AllowedStep payloads msg_id c n
handle_payload-AllowedStep payloads msg_id c (delete d) = handle_delete-AllowedStep c d
handle_payload-AllowedStep payloads msg_id c p = refl

later :
    (old new : ℕ) (p : Payload) (ps : List Payload)
    → StaysOrRises old new ps
    → StaysOrRises old new (p ∷ ps)
later old new p ps (inl same) = inl same
later old new p ps (inr (more, asks)) = inr (more, inr asks)

first_only :
    (old new : ℕ) (p : Payload) (ps : List Payload)
    → StaysOrRises old new (p ∷ [])
    → StaysOrRises old new (p ∷ ps)
first_only old new p ps (inl same) = inl same
first_only old new p ps (inr (more, inl asks)) = inr (more, inl asks)
first_only old new p ps (inr (more, inr none_left)) = absurd none_left

after_step-StaysOrRises :
    (c : Control) (p : Payload) (ps : List Payload) (r : Step)
    (rest : Control → Control × List Effect × List Payload)
    → AllowedStep c p r
    → ((c' : Control)
        → StaysOrRises c'.session.sequence_number (rest c').0.session.sequence_number ps)
    → StaysOrRises c.session.sequence_number (after_step r rest).0.session.sequence_number (p ∷ ps)
unfolding AllowedStep
after_step-StaysOrRises c p ps (respond c' effects answer) rest allowed h =
    first_only c.session.sequence_number c'.session.sequence_number p ps allowed
after_step-StaysOrRises c p ps (go_on c' effects) rest allowed h =
    later c.session.sequence_number (rest c').0.session.sequence_number p ps (
      subst (λ s. StaysOrRises s.sequence_number (rest c').0.session.sequence_number ps) allowed
        (h c'))

-- Whatever payloads a request has, the sequence number, the ID of the session's next request, stays as it
-- is, or is raised, and then to the ID that one of the payloads, an IKEV2_MESSAGE_ID_SYNC with 12 bytes of
-- data at least, says that the gateway expects.
pub handle_payloads-StaysOrRises :
    (payloads : List Payload) (msg_id : ℕ) (c : Control) (ps : List Payload)
    → StaysOrRises c.session.sequence_number
        (handle_payloads payloads msg_id c ps).0.session.sequence_number
        ps
unfolding handle_payloads
handle_payloads-StaysOrRises payloads msg_id c [] = inl refl
handle_payloads-StaysOrRises payloads msg_id c (p ∷ ps) =
    after_step-StaysOrRises c p ps (handle_payload payloads msg_id c p)
      (λ c'. handle_payloads payloads msg_id c' ps) (handle_payload-AllowedStep payloads msg_id c p)
      (λ c'. handle_payloads-StaysOrRises payloads msg_id c' ps)
