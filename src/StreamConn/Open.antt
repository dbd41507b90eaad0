-- ===== src/StreamConn/Open.antt =====
-- A Recv or a Read without an error leaves the stream open, and silent frames are read past.
use sing_ewp.Crypto.{Primitives}
use sing_ewp.Prelude.{
  false, refl, Option-cases, length, inl, inr, ◌==◌, ◌∙◌, true, ap, ◌++◌, ◌≡◌, List, arith, sym,
  Bool-cases, [], ℕ, All, subst, none, ◌∷◌,
}
use sing_ewp.SecureStream.Lifecycle.{recv_inv}
use sing_ewp.SecureStream.{SecureStream, Event, recv_event}
use sing_ewp.StreamConn.{StreamConn, fill_buffer, read, is_dropped}
use sing_ewp.SecureStream.Tcp.{recv_all}
use sing_ewp.StreamConn.Reads.{is_stream_type, bytes_of, tcp_bytes, append_nil_left}
use sing_ewp.Frame.{tcp_data}
use sing_ewp.Errors.{Result-cases, ok, err, Error, >>=-eq-ok, eof, closed_pipe}

module _ (p : Primitives) where
  pub recv_open :
      (m : List ℕ) (s s' : SecureStream) (ev : Event)
      → s.closed ≡ false
      → recv_event p (ok m) s ≡ (s', ok ev)
      → s'.closed ≡ false
  recv_open m s s' ev o h =
      let d = recv_inv p m s s' ev h in ap (λ (x : SecureStream). x.closed) d.state ∙ o

  recv_end : (s : SecureStream) → (e : Error) × ((recv_event p (err eof) s).1 ≡ err e)
  unfolding recv_event
  recv_end s = elim (Bool-cases s.closed) [
    | inl o ↦ (closed_pipe, ground (arith, o))
    | inr o ↦ (eof, ground (arith, o))
  ]

  fill_open :
      (msgs left : List (List ℕ)) (c c' : StreamConn)
      → c.stream.closed ≡ false
      → fill_buffer p msgs c ≡ (c', left, none)
      → c'.stream.closed ≡ false
  unfolding fill_buffer
  fill_open [] left c c' o h = let (e, q) = recv_end c.stream in absurd (ground (arith, q, h))
  fill_open (m ∷ ms) left c c' o h =
      let x = recv_event p (ok m) c.stream in
      elim (Result-cases x.1) [
        | inr (e, q) ↦ absurd (ground (arith, q, h))
        | inl (ev, q) ↦
            let o1 = recv_open m c.stream x.0 ev o (ground (arith, q)) in
            elim (Bool-cases (ev.type == tcp_data)) [
              | inl t ↦ elim (Bool-cases (length ev.payload == 0)) [
                | inl z ↦
                    fill_open ms left (record c { stream = x.0 }) c' o1 (ground (arith, q, t, z, h))
                | inr z ↦ ground (arith, q, t, z, h, o1)
              ]
              | inr t ↦ elim (Bool-cases (is_dropped ev.type)) [
                | inl z ↦
                    fill_open ms left (record c { stream = x.0 }) c' o1 (ground (arith, q, t, z, h))
                | inr z ↦ absurd (ground (arith, q, t, z, h))
              ]
            ]
      ]

  pub read_open :
      (n : ℕ) (msgs left : List (List ℕ)) (c c' : StreamConn) (got : List ℕ)
      → c.stream.closed ≡ false
      → read p n msgs c ≡ (c', left, ok got)
      → c'.stream.closed ≡ false
  unfolding read
  read_open n msgs left c c' got o h =
      let f = fill_buffer p msgs c in
      elim (Bool-cases (length c.read_buf == 0)) [
        | inr e ↦ ground (arith, e, h, o)
        | inl e ↦ elim (Option-cases f.2) [
          | inr (x, q) ↦ absurd (ground (arith, e, q, h))
          | inl q ↦
              let o1 = fill_open msgs f.1 c f.0 o (ground (arith, q)) in ground (arith, e, q, h, o1)
        ]
      ]

  skip_event :
      (m : List ℕ) (ms : List (List ℕ)) (c : StreamConn) (s1 : SecureStream) (ev : Event)
      → recv_event p (ok m) c.stream ≡ (s1, ok ev)
      → is_stream_type ev.type ≡ true
      → length (bytes_of ev) ≡ 0
      → fill_buffer p (m ∷ ms) c ≡ fill_buffer p ms (record c { stream = s1 })
  unfolding fill_buffer
  skip_event m ms c s1 ev got kind empty = ground (arith, got, kind, empty)

  fill_past :
      (msgs rest : List (List ℕ)) (c : StreamConn) (events : List Event) (s' : SecureStream)
      → recv_all p msgs c.stream ≡ ok (events, s')
      → All (λ (ev : Event). is_stream_type ev.type ≡ true) events
      → tcp_bytes events ≡ []
      → fill_buffer p (msgs ++ rest) c ≡ fill_buffer p rest (record c { stream = s' })
  unfolding recv_all tcp_bytes
  fill_past [] rest c events s' h kinds empty =
      let same : c.stream ≡ s' = ground (arith, h) in rw (← same) refl
  fill_past (m ∷ ms) rest c events s' h kinds empty =
      let x = recv_event p (ok m) c.stream in
      let (ev, e1, h1) = >>=-eq-ok x.1 _ h in
      let (tail, e2, h2) = >>=-eq-ok (recv_all p ms x.0) _ h1 in
      let same : ev ∷ tail.0 ≡ events = ground (arith, h2) in
      let last : tail.1 ≡ s' = ground (arith, h2) in
      let each : All (λ (e : Event). is_stream_type e.type ≡ true) (ev ∷ tail.0) =
        subst (All (λ (e : Event). is_stream_type e.type ≡ true)) (sym same) kinds in
      let none_here =
        append_nil_left (bytes_of ev) (tcp_bytes tail.0) (ap tcp_bytes same ∙ empty) in
      skip_event m (ms ++ rest) c x.0 ev (ground (arith, e1)) each.0 (ap length none_here.0)
      ∙ fill_past ms rest (record c { stream = x.0 }) tail.0 s' (ground (arith, e2, last)) each.1
          none_here.1

  -- A Read behind messages without bytes.
  pub read_past :
      (msgs rest : List (List ℕ)) (k : ℕ) (c : StreamConn) (events : List Event) (s' : SecureStream)
      → recv_all p msgs c.stream ≡ ok (events, s')
      → All (λ (ev : Event). is_stream_type ev.type ≡ true) events
      → tcp_bytes events ≡ []
      → c.read_buf ≡ []
      → read p k (msgs ++ rest) c ≡ read p k rest (record c { stream = s' })
  unfolding read
  read_past msgs rest k c events s' h kinds empty nil =
      ground (arith, nil, fill_past msgs rest c events s' h kinds empty)
