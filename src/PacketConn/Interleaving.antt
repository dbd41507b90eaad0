-- ===== src/PacketConn/Interleaving.antt =====
-- Writers of one connection, each of which tests `opened` before it takes the mutex.
pub mod Outcome
pub mod Order
pub mod Lost
use sing_ewp.Crypto.{Primitives}
use sing_ewp.SecureStream.{SecureStream, SendEnv}
use sing_ewp.Frame.{udp_data, udp_new}
use sing_ewp.Prelude.{replicate, List, ◌++◌, ◌≡◌, length, if◌then◌else◌, ℕ, [], ◌==◌}
use sing_ewp.Errors.{Result}
use sing_ewp.PacketConn.{PacketConn, write_opening, write_data, must_open, Written}
use sing_ewp.Address.{Address}

-- A goroutine in WriteToAddress: before the test, behind it in either branch, or returned.
pub data Pc : Type 0 where
  ready : Pc
  opening : List ℕ → Pc
  sending : List ℕ → Address → Pc
  returned : Result ℕ → Pc

-- `sent` has the messages that the writers gave to the transport, in order.
pub record System : Type 0 where
  pub conn : PacketConn
  pub pc : ℕ → Pc
  pub sent : List (List ℕ)

abbrev pub set_pc : ℕ → Pc → (ℕ → Pc) → ℕ → Pc
set_pc i x pc j = if j == i then x else pc j

-- The test, with no mutex.
abbrev pub after_test : PacketConn → List ℕ → Address → Pc
after_test c b target = if must_open c then opening b else sending b target

-- The system after a write that goroutine `i` finishes.
abbrev pub written_by : ℕ → Written → System → System
written_by i (c, msgs, r) s = record {
  conn = c;
  pc = set_pc i (returned r) s.pc;
  sent = s.sent ++ msgs;
}

module _ (p : Primitives) where
  -- One step of one goroutine. Other calls, such as reads and the cover traffic, may change the stream
  -- at any time.
  pub data Step (s t : System) : Type 0 where
    call :
        (i : ℕ) (b : List ℕ) (target : Address)
        → s.pc i ≡ ready
        → t ≡ record s { pc = set_pc i (after_test s.conn b target) s.pc }
        → Step s t
    open_session :
        (i : ℕ) (env : SendEnv) (b : List ℕ)
        → s.pc i ≡ opening b
        → t ≡ written_by i (write_opening p env b s.conn) s
        → Step s t
    send_datagram :
        (i : ℕ) (env : SendEnv) (b : List ℕ) (target : Address)
        → s.pc i ≡ sending b target
        → t ≡ written_by i (write_data p env b target s.conn) s
        → Step s t
    call_again :
        (i : ℕ) (r : Result ℕ)
        → s.pc i ≡ returned r
        → t ≡ record s { pc = set_pc i ready s.pc }
        → Step s t
    other_call :
        (stream : SecureStream)
        → t ≡ record s { conn = record s.conn { stream = stream } }
        → Step s t

  pub data Reach (s : System) : System → Type 0 where
    at_start : Reach s s
    then_step : {t u : System} → Reach s t → Step t u → Reach s u

-- A connection before its first write, and its goroutines.
abbrev pub initial : PacketConn → System
initial c = record { conn = c; pc = λ i. ready; sent = [] }
