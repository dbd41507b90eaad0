-- ===== src/PacketConn/Close.antt =====
-- The end of a session, at both sides.
use sing_ewp.PacketConn.Quiet.{Quiet}
use sing_ewp.Prelude.Int.{negsuc}
use sing_ewp.SecureStream.Lifecycle.{closed-IsFinal}
use sing_ewp.SecureStream.UdpMeta.{build_udp_meta}
use sing_ewp.Errors.{eof, err, closed_pipe, ok, Result-cases, Error}
use sing_ewp.Frame.{udp_data, udp_new}
use sing_ewp.Crypto.{Primitives}
use sing_ewp.SecureStream.{SecureStream, SendEnv}
use sing_ewp.Prelude.{◌≡◌, true, none, List, arith, ℕ, [], refl, false, ◌∷◌, Bool-cases, inl, inr}
use sing_ewp.PacketConn.{
  PacketConn, close_conn, read_from, read_loop, write_opening, must_open, report, write_data,
  ensure_open, write_to_address,
}
use sing_ewp.Address.{Address}

module _ (p : Primitives) where
  close_conn-closed :
      (env : SendEnv) (c : PacketConn)
      → c.closed ≡ false
      → ((close_conn p env c).0.closed ≡ true) × ((close_conn p env c).0.stream.closed ≡ true)
  unfolding close_conn
  close_conn-closed env c h = rw h (refl, refl)

  close_again : (env : SendEnv) (c : PacketConn) → c.closed ≡ true → close_conn p env c ≡ (c, [])
  unfolding close_conn
  close_again env c h = rw h refl

  -- Every write fails, sends nothing and leaves the connection as it is.
  closed_write :
      (env : SendEnv) (b : List ℕ) (target : Address) (c : PacketConn)
      → c.stream.closed ≡ true
      → (e : Error) × (write_to_address p env b target c ≡ (c, [], err e))
  unfolding write_to_address write_opening ensure_open write_data report
  closed_write env b target c h =
      let no = (closed-IsFinal p c.stream h).no_send in
      elim (Bool-cases (must_open c)) [
        | inl o ↦ elim (Result-cases (build_udp_meta c.global_id c.default_dst)) [
          | inl (m, q) ↦ (closed_pipe, ground (arith, o, q, no env udp_new m b (negsuc 0)))
          | inr (e, q) ↦ (e, ground (arith, o, q))
        ]
        | inr o ↦ elim (Result-cases (build_udp_meta c.global_id target)) [
          | inl (m, q) ↦ (closed_pipe, ground (arith, o, q, no env udp_data m b (negsuc 0)))
          | inr (e, q) ↦ (e, ground (arith, o, q))
        ]
      ]

  closed_read :
      (k : ℕ) (msgs : List (List ℕ)) (c : PacketConn)
      → c.stream.closed ≡ true
      → c.pending_first ≡ none
      → read_from p k msgs c ≡ (c, msgs, err closed_pipe)
  unfolding read_from read_loop
  closed_read k [] c h none_first =
      ground (arith, none_first, h, (closed-IsFinal p c.stream h).no_recv (err eof))
  closed_read k (m ∷ ms) c h none_first =
      ground (arith, none_first, h, (closed-IsFinal p c.stream h).no_recv (ok m))

  -- After Close, of a connection that was not closed: a second Close sends and changes nothing, every
  -- write returns an error and sends and changes nothing, and a read returns ErrClosedPipe and takes
  -- nothing once the pending first datagram is read.
  pub close_conn_final :
      (env : SendEnv) (c : PacketConn)
      → c.closed ≡ false
      → let c' = (close_conn p env c).0 in
        ((env' : SendEnv) → close_conn p env' c' ≡ (c', []))
        × ((env' : SendEnv) (b : List ℕ) (target : Address)
            → (e : Error) × (write_to_address p env' b target c' ≡ (c', [], err e)))
        × (c'.pending_first ≡ none
            → (k : ℕ) (msgs : List (List ℕ)) → read_from p k msgs c' ≡ (c', msgs, err closed_pipe))
  close_conn_final env c h =
      let ended = close_conn-closed env c h in
      let c' = (close_conn p env c).0 in
      (
        λ env'. close_again env' c' ended.0,
        λ env' b target. closed_write env' b target c' ended.1,
        λ none_first k msgs. closed_read k msgs c' ended.1 none_first,
      )
