-- ===== src/Swu/Mobike.antt =====
-- pkg/swu/mobike.go: the change of addresses. The exchange of messages and the new socket are arguments,
-- and so are the payloads for NAT detection; the update of the kernel's state, whose failure is only
-- logged, is left out.
pub mod Changed
mod Tests
use swu_go.Prelude.{
  ℕ, Bool, true, false, Option, none, some, List, [], ◌∷◌, ◌++◌, Result, ok, err, panic, stuck,
  ◌==◌, if◌then◌else◌, shorter, length,
}
use swu_go.Prelude.Bytes.{Bytes}
use swu_go.Ikev2.Body.{Notify}
use swu_go.Ikev2.Payload.{Payload, notify}
use swu_go.Swu.Error.{SwuError}
use swu_go.Swu.Control.{cookie2, update_sa_addresses}
use swu_go.Swu.Session.{Session}
use swu_go.Swu.Message.{decrypt_and_parse}

pub data MobikeError : Type 0 where
  not_supported : MobikeError
  not_sent : MobikeError
  no_message : SwuError → MobikeError
  cookie_length : MobikeError
  cookie_differs : MobikeError
  not_bound : MobikeError

-- The bytes of `expected` against those of the data, one by one.
unfoldable pub same_bytes : Bytes → Bytes → Bool
same_bytes [] data' = true
same_bytes (e ∷ es) [] = false
same_bytes (e ∷ es) (d ∷ ds) = if d == e then same_bytes es ds else false

abbrev pub compare_cookie2 : Bytes → Bytes → Result MobikeError Unit
compare_cookie2 expected data' =
    if length data' == length expected
    then (if same_bytes expected data' then ok tt else err cookie_differs)
    else err cookie_length

-- The first COOKIE2 decides, and a response without one is accepted.
unfoldable pub check_cookie2 : Bytes → List Payload → Result MobikeError Unit
check_cookie2 expected [] = ok tt
check_cookie2 expected (notify n ∷ ps) =
    if n.notify_type == cookie2
    then compare_cookie2 expected n.notify_data
    else check_cookie2 expected ps
check_cookie2 expected (p ∷ ps) = check_cookie2 expected ps

abbrev pub check_message : Bytes → Result SwuError (ℕ × List Payload) → Result MobikeError Unit
check_message expected (ok (id, ps)) = check_cookie2 expected ps
check_message expected (err e) = err (no_message e)
check_message expected panic = panic
check_message expected stuck = stuck

-- verifyCookie2Response; an empty response is accepted.
unfoldable pub verify_cookie2_response : Session → Bytes → Bytes → Session × Result MobikeError Unit
verify_cookie2_response s response expected =
    if shorter response 1
    then (s, ok tt)
    else (let (s', r) = decrypt_and_parse s response in (s', check_message expected r))

-- The fields of a session that change, and the sockets that were started and stopped so far.
pub record Mobile (Socket : Type 0) : Type 0 where
  pub session : Session
  pub mobike_supported : Bool
  pub ep_dg_addr : Bytes
  pub ep_dg_port : ℕ
  pub local_port : ℕ
  pub socket : Option Socket
  pub started : List Socket
  pub stopped : List Socket

abbrev notify_of : ℕ → Bytes → Payload
notify_of t data' =
    notify (record {
      protocol_id = 0;
      spi = [];
      notify_type = t;
      notify_data = data';
      override_type = 0;
    })

-- The payloads of sendMOBIKEUpdate.
abbrev pub update_payloads : Bytes → List Payload → List Payload
update_payloads cookie nat_detection =
    notify_of update_sa_addresses [] ∷ notify_of cookie2 cookie ∷ nat_detection

-- sendMOBIKEUpdate; an exchange without an answer is an error.
unfoldable pub send_mobike_update :
    (Session → List Payload → Session × Option Bytes)
    → Session
    → Bytes
    → List Payload
    → Session × Result MobikeError Unit
send_mobike_update exchange s cookie nat_detection =
    let (s', r) = exchange s (update_payloads cookie nat_detection) in
    elim r [
      | none ↦ (s', err not_sent)
      | some response ↦ verify_cookie2_response s' response cookie
    ]

module _ {Socket : Type 0} where
  abbrev pub stop_old : Option Socket → List Socket → List Socket
  stop_old none stopped = stopped
  stop_old (some old) stopped = stopped ++ (old ∷ [])

  abbrev pub use_socket : Mobile Socket → Option Socket → Mobile Socket × Result MobikeError Unit
  use_socket s none = (s, err not_bound)
  use_socket s (some new) = (
    record s {
      socket = some new;
      started = s.started ++ (new ∷ []);
      stopped = stop_old s.socket s.stopped;
    },
    ok tt,
  )

  abbrev pub confirmed :
      (Bytes → ℕ → Bytes → ℕ → Option Socket)
      → Bytes
      → Bytes
      → Mobile Socket
      → Result MobikeError Unit
      → Mobile Socket × Result MobikeError Unit
  confirmed bind local_addr remote_addr s (ok u) =
      let port = if s.ep_dg_port == 0 then 4500 else s.ep_dg_port in
      use_socket (record s { ep_dg_addr = remote_addr })
        (bind local_addr s.local_port remote_addr port)
  confirmed bind local_addr remote_addr s (err e) = (s, err e)
  confirmed bind local_addr remote_addr s panic = (s, panic)
  confirmed bind local_addr remote_addr s stuck = (s, stuck)

  -- UpdateAddresses
  unfoldable pub update_addresses :
      (Session → List Payload → Session × Option Bytes)
      → (Bytes → ℕ → Bytes → ℕ → Option Socket)
      → Mobile Socket
      → Bytes
      → List Payload
      → Bytes
      → Bytes
      → Mobile Socket × Result MobikeError Unit
  update_addresses exchange bind s cookie nat_detection local_addr remote_addr =
      if s.mobike_supported
      then (let (session', r) = send_mobike_update exchange s.session cookie nat_detection in
          confirmed bind local_addr remote_addr (record s { session = session' }) r)
      else (s, err not_supported)
