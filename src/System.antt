-- ===== src/System.antt =====
-- What the threads of the program share (the globals of src/main.cpp, src/addrpool.h and
-- src/structure.h), and what they ask of the operating system. A thread's loop body runs as one
-- step, but for its loops over a full ring, where each try is a step of its own.
pub mod Inv
pub mod Events
pub mod Closing
pub mod Preserves
pub mod Frame
pub mod Told
pub mod Samples
use natporte.Base.{
  ℕ, ◌/◌, ◌%◌, bit_and, bit_or, Option, some, none, List, [], ◌∷◌, Bool, true, false, Bytes, ltb,
  if◌then◌else◌,
}
use natporte.Base.Int.{ℤ}
use natporte.Ring.{Status, ok, err, over, empty, Slot, Handler}
use natporte.Alias.{Globals}

-- AP_LOW, AP_HIGH and the flags of a block that the threads use.
abbrev pub ap_low : ℕ
ap_low = 0x00000000ffffffff

abbrev pub ap_high : ℕ
ap_high = 0xffffffff00000000

abbrev pub ap_send_req : ℕ
ap_send_req = 0x01

abbrev pub ap_send_rel : ℕ
ap_send_rel = 0x04

abbrev pub ap_rel_l2w : ℕ
ap_rel_l2w = 0x10

abbrev pub ap_rel_w2l : ℕ
ap_rel_w2l = 0x20

abbrev pub ap_timeout : ℕ
ap_timeout = 0x40

abbrev pub ap_addrpool : ℕ
ap_addrpool = 0x0000000100000000

-- What the `buffer` of a block points to: a packet, or an entry of the table.
pub data Payload : Type 0 where
  packet : Bytes → Payload
  entry : ℕ → Payload

-- A step is over, waits on a condition variable, ends the process, or reads through a pointer
-- that is null or of another type.
pub data Outcome (A : Type 0) : Type 0 where
  done : A → Outcome A
  waits exits fault : Outcome A

infixl 5 ◌>>=◌
abbrev pub ◌>>=◌ : {A B : Type 0} → Outcome A → (A → Outcome B) → Outcome B
done a >>= f = f a
waits >>= f = waits
exits >>= f = exits
fault >>= f = fault

-- What `sendto` answers: success, EHOSTDOWN, EHOSTUNREACH or another error.
pub data Answer : Type 0 where
  success host_down host_unreach other_error : Answer

-- What the operating system answers in one step: to `sendto`, to the last `kevent`, to `send`.
-- `true` is success.
pub record Kernel : Type 0 where
  pub sendto : Answer
  pub kevent : Bool
  pub send : Bool

-- `struct sockaddr_in` of a divert socket; the interface's name lies in `sin_zero`.
pub record Sin : Type 0 where
  pub port : ℕ
  pub addr : ℕ
  pub ifname : ℕ

-- A packet handed to `sendto`.
pub record Datagram : Type 0 where
  pub buf : Bytes
  pub size : ℕ
  pub sin : Sin

-- A change to the timers, as `EV_SET` describes it; the time is in milliseconds.
pub data Kev : Type 0 where
  ev_add : ℕ → ℤ → Kev
  ev_delete : ℕ → Kev

-- The members of a message to or from the pool, in host order; `src` is the LAN end.
pub record Ends : Type 0 where
  pub protocol : ℕ
  pub lan_ip : ℕ
  pub wan_ip : ℕ
  pub lan_port : ℕ
  pub wan_port : ℕ

-- The messages that `addrpool_sender` prints. The first of a request's ends is the sender's.
pub data Notice : Type 0 where
  request : ℕ → Ends → Notice
  release : ℕ → Ends → Notice

-- `sent`, `kevs` and `notices` are what has gone to the system, the last first. `divert` and
-- `timer` are the blocks that these threads try to push, `sender` that of the sender with the
-- flags it was taken with, and `mesg` its text buffer. `pending` are the lines that the receiver
-- has still to handle, `text` the rest of its string buffer.
-- `dangling` are the entries that were freed while the table had them.
pub record System : Type 0 where
  pub globals : Globals
  pub fn_id : ℕ
  pub timeout_tcp : ℤ
  pub timeout_udp : ℤ
  pub h_send : Handler Payload
  pub h_recv : Handler Payload
  pub sent : List Datagram
  pub kevs : List Kev
  pub notices : List Notice
  pub mesg : Option Notice
  pub divert : Option (Slot Payload)
  pub timer : Option (Slot Payload)
  pub sender : Option (Slot Payload × ℕ)
  pub pending : List (List ℕ)
  pub text : List ℕ
  pub dangling : List ℕ

-- `sendto` with the test of `errno`: a host that is down or unreachable is no error.
unfoldable pub send_packet : Answer → Datagram → System → Outcome System
send_packet other_error d s = exits
send_packet a d s = done (record s { sent = d ∷ s.sent })

-- A call of `kevent` whose failure ends the process.
unfoldable pub kevent : Bool → Kev → System → Outcome System
kevent true e s = done (record s { kevs = e ∷ s.kevs })
kevent false e s = exits

-- `ret == RING_OK`.
unfoldable pub is_ok : Status → Bool
is_ok ok = true
is_ok s = false
