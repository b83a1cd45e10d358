-- ===== src/Swu/Mobike/Changed.antt =====
-- mobike.go: what the cookie confirms, and when the socket changes.
use swu_go.Prelude.{
  ℕ, ◌≡◌, ◌≢◌, refl, ap, ◌∙◌, Bool, true, false, Option, none, some, List, [], ◌∷◌, ◌++◌, Result,
  ok, err, panic, stuck, ◌==◌, subst, eq_of_test, if◌then◌else◌, shorter, length, arith,
}
use swu_go.Prelude.Bytes.{Bytes}
use swu_go.Ikev2.Body.{Notify}
use swu_go.Ikev2.Payload.{Payload, sa, ke, nonce, identity, auth, eap, notify, delete, ts, cp, raw}
use swu_go.Swu.Control.{cookie2}
use swu_go.Swu.Session.{Session}
use swu_go.Swu.Message.{decrypt_and_parse}
use swu_go.Swu.Mobike.{
  MobikeError, not_supported, not_bound, cookie_differs, cookie_length, same_bytes, compare_cookie2,
  check_cookie2, check_message, verify_cookie2_response, Mobile, send_mobike_update, use_socket,
  confirmed, update_addresses,
}

if_ok :
    (b : Bool) (x : Result MobikeError Unit) (e : MobikeError)
    → (if b then x else err e) ≡ ok tt
    → (b ≡ true) × (x ≡ ok tt)
if_ok true x e h = (refl, h)
if_ok false x e h = cc

if_true : (b c : Bool) → (if b then c else false) ≡ true → (b ≡ true) × (c ≡ true)
if_true true c h = (refl, h)
if_true false c h = cc

if_false : (b c : Bool) → (if b then true else c) ≡ false → (b ≡ false) × (c ≡ false)
if_false true c h = cc
if_false false c h = (refl, h)

equal_of_same_bytes : (xs ys : Bytes) → length ys ≡ length xs → same_bytes xs ys ≡ true → ys ≡ xs
unfolding same_bytes
equal_of_same_bytes [] [] h e = refl
equal_of_same_bytes [] (y ∷ ys) h e = absurd (omega arith)
equal_of_same_bytes (x ∷ xs) [] h e = cc
equal_of_same_bytes (x ∷ xs) (y ∷ ys) h e =
    let (head, tail) = if_true (y == x) (same_bytes xs ys) e in
    ap (λ z. z ∷ ys) (eq_of_test y x head)
    ∙ ap (λ z. x ∷ z) (equal_of_same_bytes xs ys (omega arith) tail)

compared : (expected data' : Bytes) → compare_cookie2 expected data' ≡ ok tt → data' ≡ expected
compared expected data' h =
    let (size, same) = if_ok (length data' == length expected) _ cookie_length h in
    equal_of_same_bytes expected data' (eq_of_test _ _ size)
      (if_ok (same_bytes expected data') (ok tt) cookie_differs same).0

pub has_cookie2 : List Payload → Bool
has_cookie2 [] = false
has_cookie2 (notify n ∷ ps) = if n.notify_type == cookie2 then true else has_cookie2 ps
has_cookie2 (p ∷ ps) = has_cookie2 ps

checked :
    (expected : Bytes) (n : Notify) (xs ys : List Payload)
    → has_cookie2 xs ≡ false
    → n.notify_type ≡ cookie2
    → check_cookie2 expected (xs ++ (notify n ∷ ys)) ≡ ok tt
    → n.notify_data ≡ expected
unfolding has_cookie2 check_cookie2
checked expected n [] ys h t e = compared expected n.notify_data (
    subst
      (λ k.
        (if k == cookie2 then compare_cookie2 expected n.notify_data else check_cookie2 expected ys)
        ≡ ok tt)
      t e)
checked expected n (notify m ∷ xs) ys h t e =
    let (other, rest) = if_false (m.notify_type == cookie2) (has_cookie2 xs) h in
    checked expected n xs ys rest t (
      subst
        (λ b.
          (if b
            then compare_cookie2 expected m.notify_data
            else check_cookie2 expected (xs ++ (notify n ∷ ys)))
          ≡ ok tt)
        other e)
checked expected n (sa ps ∷ xs) ys h t e = checked expected n xs ys h t e
checked expected n (ke p ∷ xs) ys h t e = checked expected n xs ys h t e
checked expected n (nonce p ∷ xs) ys h t e = checked expected n xs ys h t e
checked expected n (identity p ∷ xs) ys h t e = checked expected n xs ys h t e
checked expected n (auth p ∷ xs) ys h t e = checked expected n xs ys h t e
checked expected n (eap p ∷ xs) ys h t e = checked expected n xs ys h t e
checked expected n (delete p ∷ xs) ys h t e = checked expected n xs ys h t e
checked expected n (ts b p ∷ xs) ys h t e = checked expected n xs ys h t e
checked expected n (cp p ∷ xs) ys h t e = checked expected n xs ys h t e
checked expected n (raw k p ∷ xs) ys h t e = checked expected n xs ys h t e

-- A response that is accepted, that is not empty and that can be read: if it has a COOKIE2, then the data of
-- the first one is what was sent.
pub verify_cookie2_response-same :
    (s : Session) (response expected : Bytes) (id : ℕ) (n : Notify) (xs ys : List Payload)
    → shorter response 1 ≡ false
    → (decrypt_and_parse s response).1 ≡ ok (id, xs ++ (notify n ∷ ys))
    → has_cookie2 xs ≡ false
    → n.notify_type ≡ cookie2
    → (verify_cookie2_response s response expected).1 ≡ ok tt
    → n.notify_data ≡ expected
unfolding verify_cookie2_response
verify_cookie2_response-same s response expected id n xs ys long read h t e =
    let (s', r) = decrypt_and_parse s response in
    let answered : check_message expected r ≡ ok tt =
      subst
        (λ b.
          (if◌then◌else◌ {A = Session × Result MobikeError Unit} b (s, ok tt)
            (s', check_message expected r)).1
          ≡ ok tt)
        long e in
    checked expected n xs ys h t (subst (λ m. check_message expected m ≡ ok tt) read answered)

module _ {Socket : Type 0} where
  -- What an error leaves: the sockets, and the address of the gateway unless there was no new socket.
  pub record StaysPut (s : Mobile Socket) (p : Mobile Socket × Result MobikeError Unit)
      (e : MobikeError) : Type 0 where
    pub socket_same : p.0.socket ≡ s.socket
    pub started_same : p.0.started ≡ s.started
    pub stopped_same : p.0.stopped ≡ s.stopped
    pub address_same : e ≢ not_bound → p.0.ep_dg_addr ≡ s.ep_dg_addr

  confirmed-StaysPut :
      (bind : Bytes → ℕ → Bytes → ℕ → Option Socket) (a b : Bytes) (s : Mobile Socket)
      (r : Result MobikeError Unit) (e : MobikeError)
      → (confirmed bind a b s r).1 ≡ err e
      → StaysPut s (confirmed bind a b s r) e
  confirmed-StaysPut bind a b s (ok u) e h =
      outcome (bind a s.local_port b (if s.ep_dg_port == 0 then 4500 else s.ep_dg_port)) h
    where
      outcome :
          (o : Option Socket)
          → (use_socket (record s { ep_dg_addr = b }) o).1 ≡ err e
          → StaysPut s (use_socket (record s { ep_dg_addr = b }) o) e
      outcome none h = record {
        socket_same = refl;
        started_same = refl;
        stopped_same = refl;
        address_same = λ other. absurd (other cc);
      }
      outcome (some new) h = cc
  confirmed-StaysPut bind a b s (err x) e h = record {
    socket_same = refl;
    started_same = refl;
    stopped_same = refl;
    address_same = λ other. refl;
  }
  confirmed-StaysPut bind a b s panic e h = cc
  confirmed-StaysPut bind a b s stuck e h = cc

  -- If the update fails, whatever fails, then the old socket stays in use and no socket was started or
  -- stopped, and the address of the gateway is the old one unless it is the new socket that failed.
  pub update_addresses-StaysPut :
      (exchange : Session → List Payload → Session × Option Bytes)
      (bind : Bytes → ℕ → Bytes → ℕ → Option Socket) (s : Mobile Socket) (cookie : Bytes)
      (nat_detection : List Payload) (local_addr remote_addr : Bytes) (e : MobikeError)
      → (update_addresses exchange bind s cookie nat_detection local_addr remote_addr).1 ≡ err e
      → StaysPut s (update_addresses exchange bind s cookie nat_detection local_addr remote_addr) e
  unfolding update_addresses
  update_addresses-StaysPut exchange bind s cookie nat_detection a b e =
      by_support s.mobike_supported
    where
      session' : Session
      session' = (send_mobike_update exchange s.session cookie nat_detection).0

      sent : Mobile Socket × Result MobikeError Unit
      sent =
          confirmed bind a b (record s { session = session' })
            (send_mobike_update exchange s.session cookie nat_detection).1

      by_support :
          (c : Bool)
          → (if c then sent else (s, err not_supported)).1 ≡ err e
          → StaysPut s (if c then sent else (s, err not_supported)) e
      by_support true h =
          let put = confirmed-StaysPut bind a b (record s { session = session' }) _ e h in
          record {
            socket_same = put.socket_same;
            started_same = put.started_same;
            stopped_same = put.stopped_same;
            address_same = put.address_same;
          }
      by_support false h = record {
        socket_same = refl;
        started_same = refl;
        stopped_same = refl;
        address_same = λ other. refl;
      }
