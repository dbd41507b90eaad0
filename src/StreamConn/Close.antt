-- ===== src/StreamConn/Close.antt =====
-- Close of a stream connection on a LengthFramer: both close the same net.Conn.
-- The fields that Close reads or writes, and how often the net.Conn was closed.
use sing_ewp.Prelude.{zero, true, ℕ, suc, if◌then◌else◌, Bool, some, Option, none, ◌+◌}
use sing_ewp.Errors.{Error}

pub record CloseState : Type 0 where
  pub stream_closed : Bool
  pub has_underlying : Bool
  pub done : Bool
  pub close_err : Option Error
  pub calls : ℕ

-- What the i-th Close of the net.Conn returns.
abbrev pub NetClose : Type 0
NetClose = ℕ → Option Error

abbrev pub Closing : Type 0
Closing = CloseState × Option Error

-- Close of the net.Conn, also by LengthFramer.Close
abbrev pub close_net : NetClose → CloseState → Closing
close_net net s = (record s { calls = suc s.calls }, net s.calls)

-- SecureStream.Close, whose `closeOnce` is done when `closed` is set.
unfoldable pub close_secure : NetClose → CloseState → Closing
close_secure net s =
    if s.stream_closed then (s, none) else close_net net (record s { stream_closed = true })

-- `if err != nil && c.closeErr == nil`
abbrev pub first_error : Option Error → Option Error → Option Error
first_error none later = later
first_error (some e) later = some e

-- streamConn.Close
unfoldable pub close_stream_conn : NetClose → CloseState → Closing
close_stream_conn net s =
    if s.done
    then (s, s.close_err)
    else (let (s1, e1) = close_secure net s in
        let (s2, e2) = if s1.has_underlying then close_net net s1 else (s1, none) in
        (record s2 { done = true; close_err = first_error e1 e2 }, first_error e1 e2))

-- The calls of the net.Conn that the first Close makes.
unfoldable pub closes_of : CloseState → ℕ
closes_of s = (if s.stream_closed then 0 else 1) + (if s.has_underlying then 1 else 0)

-- The first error of the closes of the net.Conn from the n-th on, `k` of them.
unfoldable pub error_of : NetClose → ℕ → ℕ → Option Error
error_of net n zero = none
error_of net n (suc k) = first_error (net n) (error_of net (suc n) k)
