-- ===== src/SecureStream/Lifecycle.antt =====
-- What ends a stream.
use sing_ewp.Address.{Address}
use sing_ewp.SecureStream.UdpMeta.{build_udp_meta}
use sing_ewp.SecureStream.Delivery.{count_received}
use sing_ewp.Frame.Integrity.{decode_frame_replay}
use sing_ewp.Crypto.{Primitives}
use sing_ewp.Address.{Address}
use sing_ewp.Prelude.Int.{ℤ, negsuc}
use sing_ewp.Errors.{Error, Result-cases, counter_mismatch, closed_pipe, Result, ok, err}
use sing_ewp.Frame.{DecodedFrame, decode_frame, FrameAead, tcp_data}
use sing_ewp.Prelude.{
  refl, zero, inl, some, true, arith, ℕ, ap, false, ◌≡◌, [], List, Bool-cases, inr, ◌∙◌, length,
  leb, suc, ◌∷◌, refl, ◌<◌, zero, ◌≤◌, take,
}
use sing_ewp.SecureStream.{
  send_frame, close, recv_event, SecureStream, Event, deliver, event_of, SendEnv, send_with_meta,
  send_chunks, reshape_threshold, chunk_size, send_tcp_data,
}

-- The error of a send on a closed stream whose meta is built first.
abbrev pub meta_error : Result (List ℕ) → Error
meta_error (err e) = e
meta_error (ok meta) = closed_pipe

module _ (p : Primitives) where
  -- Recv and the sends on a closed stream.
  pub record IsFinal (s : SecureStream) : Type 0 where
    pub no_recv : (m : Result (List ℕ)) → recv_event p m s ≡ (s, err closed_pipe)
    pub no_send :
        (env : SendEnv) (t : ℕ) (meta payload : List ℕ) (pad : ℤ)
        → send_frame p env t meta payload pad s ≡ (s, [], some closed_pipe)
    pub no_datagram :
        (env : SendEnv) (t : ℕ) (gid : List ℕ) (target : Address) (payload : List ℕ)
        → send_with_meta p env t (build_udp_meta gid target) payload s
          ≡ (s, [], some (meta_error (build_udp_meta gid target)))
    pub no_data :
        (env : ℕ → SendEnv) (payload : List ℕ)
        → send_tcp_data p env payload s ≡ (s, [], some closed_pipe)

  closed_frame :
      (s : SecureStream) (env : SendEnv) (t : ℕ) (meta payload : List ℕ) (pad : ℤ)
      → s.closed ≡ true
      → send_frame p env t meta payload pad s ≡ (s, [], some closed_pipe)
  unfolding send_frame
  closed_frame s env t meta payload pad h = rw h refl

  closed_datagram :
      (s : SecureStream) (env : SendEnv) (t : ℕ) (m : Result (List ℕ)) (payload : List ℕ)
      → s.closed ≡ true
      → send_with_meta p env t m payload s ≡ (s, [], some (meta_error m))
  closed_datagram s env t (err e) payload h = refl
  closed_datagram s env t (ok meta) payload h = closed_frame s env t meta payload (negsuc 0) h

  closed_chunks :
      (fuel : ℕ) (env : ℕ → SendEnv) (payload : List ℕ) (s : SecureStream)
      → s.closed ≡ true
      → 0 < length payload
      → length payload ≤ fuel
      → send_chunks p fuel 0 env payload s ≡ (s, [], some closed_pipe)
  unfolding send_chunks
  closed_chunks fuel env [] s h some_bytes enough = absurd (omega arith)
  closed_chunks zero env (b ∷ bs) s h some_bytes enough = absurd (omega (arith, enough))
  closed_chunks (suc fuel) env (b ∷ bs) s h some_bytes enough =
      let n = chunk_size (env 0).cut (length (b ∷ bs)) in
      let first = closed_frame s (env 0) tcp_data [] (take n (b ∷ bs)) (negsuc 0) h in
      ground (arith, first)

  closed_data :
      (s : SecureStream) (env : ℕ → SendEnv) (payload : List ℕ)
      → s.closed ≡ true
      → send_tcp_data p env payload s ≡ (s, [], some closed_pipe)
  unfolding send_tcp_data
  closed_data s env payload h = elim (Bool-cases (leb (length payload) reshape_threshold)) [
    | inl e ↦ rw e (closed_frame s (env 0) tcp_data [] payload (negsuc 0) h)
    | inr e ↦
        rw e (closed_chunks (length payload) env payload s h (ground (arith, e)) (omega arith))
  ]

  pub closed-IsFinal : (s : SecureStream) → s.closed ≡ true → IsFinal s
  unfolding recv_event
  closed-IsFinal s h = record {
    no_recv = λ m. rw h refl;
    no_send = λ env t meta payload pad. closed_frame s env t meta payload pad h;
    no_datagram =
        λ env t gid target payload. closed_datagram s env t (build_udp_meta gid target) payload h;
    no_data = λ env payload. closed_data s env payload h;
  }

  deliver_error :
      (s s' : SecureStream) (fr : DecodedFrame) (e : Error)
      → deliver p s fr ≡ (s', err e)
      → s'.closed ≡ true
  unfolding deliver
  deliver_error s s' fr e h = ground (arith, h)

  recv_error :
      (m : Result (List ℕ)) (s s' : SecureStream) (e : Error)
      → recv_event p m s ≡ (s', err e)
      → s'.closed ≡ true
  unfolding recv_event
  recv_error (err x) s s' e h = ground (arith, h)
  recv_error (ok wire) s s' e h =
      let d = decode_frame p wire s.recv in
      elim (Result-cases d.2) [
        | inr (x, q) ↦ ground (arith, q, h)
        | inl (fr, q) ↦ ground (arith, q, h, deliver_error (count_received d.0 wire s) s' fr e)
      ]

  -- After a Recv that returns an error, of the transport, of the frame or of its meta, the stream is
  -- closed: each later Recv, each later send of a frame and of TCP data returns ErrClosedPipe, and so does
  -- each later send with an address, except that it returns the error of its meta where that cannot be
  -- built. None of them sends or changes anything.
  pub recv_error-IsFinal :
      (m : Result (List ℕ)) (s s' : SecureStream) (e : Error)
      → recv_event p m s ≡ (s', err e)
      → IsFinal s'
  recv_error-IsFinal m s s' e h = closed-IsFinal s' (recv_error m s s' e h)

  -- A Recv that returns an event.
  pub record Delivered (wire : List ℕ) (s s' : SecureStream) (ev : Event) : Type 0 where
    pub was_open : s.closed ≡ false
    pub f : FrameAead
    pub rest : List ℕ
    pub fr : DecodedFrame
    pub decoded : decode_frame p wire s.recv ≡ (f, rest, ok fr)
    pub state : s' ≡ count_received f wire s
    pub event : event_of fr ≡ ok ev

  pub recv_inv :
      (wire : List ℕ) (s s' : SecureStream) (ev : Event)
      → recv_event p (ok wire) s ≡ (s', ok ev)
      → Delivered wire s s' ev
  unfolding recv_event deliver
  recv_inv wire s s' ev h =
      let d = decode_frame p wire s.recv in
      elim (Bool-cases s.closed) [
        | inl o ↦ absurd (ground (arith, o, h))
        | inr o ↦ elim (Result-cases d.2) [
          | inr (e, q) ↦ absurd (ground (arith, o, q, h))
          | inl (fr, q) ↦ record {
            was_open = o;
            f = d.0;
            rest = d.1;
            fr = fr;
            decoded = ground (arith, q);
            state = ground (arith, o, q, h);
            event = ground (arith, o, q, h);
          }
        ]
      ]

  refuse :
      (wire : List ℕ) (s : SecureStream) (f : FrameAead) (rest : List ℕ) (e : Error)
      → s.closed ≡ false
      → decode_frame p wire s.recv ≡ (f, rest, err e)
      → recv_event p (ok wire) s ≡ (close (record s { recv = f }), err e)
  unfolding recv_event
  refuse wire s f rest e o h = ground (arith, o, h)

  -- A message that was count_received once and comes again closes the stream, with a counter mismatch.
  pub recv_replay :
      (wire : List ℕ) (s s' : SecureStream) (ev : Event)
      → recv_event p (ok wire) s ≡ (s', ok ev)
      → recv_event p (ok wire) s' ≡ (close s', err counter_mismatch)
  recv_replay wire s s' ev h =
      let d = recv_inv wire s s' ev h in
      let again = decode_frame_replay p wire s.recv d.f d.rest d.fr d.decoded in
      let moved : s'.recv ≡ d.f = ap (λ (x : SecureStream). x.recv) d.state in
      let open' : s'.closed ≡ false = ap (λ (x : SecureStream). x.closed) d.state ∙ d.was_open in
      let refused : decode_frame p wire s'.recv ≡ (s'.recv, d.rest, err counter_mismatch) =
        rw moved again in
      refuse wire s' s'.recv d.rest counter_mismatch open' refused
