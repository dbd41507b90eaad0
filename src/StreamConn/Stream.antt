-- ===== src/StreamConn/Stream.antt =====
-- A stream from its writes to its reads.
use sing_ewp.StreamConn.Open.{read_open, recv_open}
use sing_ewp.StreamConn.Transcript.{Transcript-Arrives, Transcript}
use sing_ewp.SecureStream.Delivery.{Linked}
use sing_ewp.Crypto.{Primitives, IsLawful}
use sing_ewp.SecureStream.{recv_event, SecureStream, close}
use sing_ewp.StreamConn.Reads.{
  fill_skip, length-zero, read-InOrder, Incoming, Incoming-cons, append_nil_left, bytes_of,
}
use sing_ewp.StreamConn.{StreamConn, read, fill_buffer}
use sing_ewp.Errors.{ok, eof, err, Error}
use sing_ewp.Prelude.{
  ◌==◌, inr, zero, subst, some, length, ◌<◌, ◌∷◌, length-append, suc, ℕ, ◌∙◌, List, refl, sym, ◌++◌,
  ◌≡◌, [], inl, arith, ap, Bool-cases, false, Option, none,
}

-- Reads until one fails, the i-th into a slice of `sizes i` bytes: what they return together, and the
-- error, which is none where the fuel runs out before a Read fails.
unfoldable pub drain :
    (p : Primitives) → ℕ → ℕ → (ℕ → ℕ) → List (List ℕ) → StreamConn → List ℕ × Option Error
drain p zero i sizes msgs c = ([], none)
drain p (suc fuel) i sizes msgs c =
    let (c', left, r) = read p (sizes i) msgs c in
    let (more, e) = drain p fuel (suc i) sizes left c' in
    elim r [ ok bytes ↦ (bytes ++ more, e) | err x ↦ ([], some x) ]

module _ (p : Primitives) where
  drain_step :
      (fuel i : ℕ) (sizes : ℕ → ℕ) (msgs left : List (List ℕ)) (c c' : StreamConn)
      (got more : List ℕ) (e : Option Error)
      → read p (sizes i) msgs c ≡ (c', left, ok got)
      → drain p fuel (suc i) sizes left c' ≡ (more, e)
      → drain p (suc fuel) i sizes msgs c ≡ (got ++ more, e)
  unfolding drain
  drain_step fuel i sizes msgs left c c' got more e h k = ground (arith, h, k)

  drain_end :
      (fuel i : ℕ) (sizes : ℕ → ℕ) (msgs left : List (List ℕ)) (c c' : StreamConn) (e : Error)
      → read p (sizes i) msgs c ≡ (c', left, err e)
      → drain p (suc fuel) i sizes msgs c ≡ ([], some e)
  unfolding drain
  drain_end fuel i sizes msgs left c c' e h = ground (arith, h)

  -- With no bytes to come the loop ends with the end of the transport.
  fill_nothing :
      (msgs : List (List ℕ)) (c : StreamConn)
      → c.stream.closed ≡ false
      → Incoming p msgs c.stream []
      → (c1 : StreamConn) × (left : List (List ℕ)) × (fill_buffer p msgs c ≡ (c1, left, some eof))
  unfolding fill_buffer recv_event
  fill_nothing [] c o h = (record c { stream = close c.stream }, [], rw o refl)
  fill_nothing (m ∷ ms) c o h =
      let f = Incoming-cons p m ms c.stream [] h in
      let none_here = append_nil_left (bytes_of f.ev) f.later f.joined in
      let (c1, left, w) =
        fill_nothing ms (record c { stream = f.s1 }) (recv_open p m c.stream f.s1 f.ev o f.got)
          (subst (Incoming p ms f.s1) (none_here.1) f.rest) in
      (c1, left, fill_skip p m ms c [] f (ap length none_here.0) ∙ w)

  read_nothing :
      (n : ℕ) (msgs : List (List ℕ)) (c : StreamConn)
      → c.stream.closed ≡ false
      → c.read_buf ≡ []
      → Incoming p msgs c.stream []
      → (c1 : StreamConn) × (left : List (List ℕ)) × (read p n msgs c ≡ (c1, left, err eof))
  unfolding read
  read_nothing n msgs c o empty h =
      let (c1, left, w) = fill_nothing msgs c o h in (c1, left, ground (arith, empty, w))

  drain-Incoming :
      (fuel i : ℕ) (sizes : ℕ → ℕ) (msgs : List (List ℕ)) (c : StreamConn) (bytes : List ℕ)
      → ((j : ℕ) → 0 < sizes j)
      → c.stream.closed ≡ false
      → Incoming p msgs c.stream bytes
      → length (c.read_buf ++ bytes) < fuel
      → drain p fuel i sizes msgs c ≡ (c.read_buf ++ bytes, some eof)
  drain-Incoming zero i sizes msgs c bytes hn o h enough = absurd (omega (arith, enough))
  drain-Incoming (suc fuel) i sizes msgs c bytes hn o h enough =
      elim (Bool-cases (length (c.read_buf ++ bytes) == 0)) [
        | inl e ↦
            let nil = length-zero (c.read_buf ++ bytes) (ground (arith, e)) in
            let both = append_nil_left c.read_buf bytes nil in
            let (c1, left, w) =
              read_nothing (sizes i) msgs c o both.0 (subst (Incoming p msgs c.stream) both.1 h) in
            drain_end fuel i sizes msgs left c c1 eof w
            ∙ ap (λ (x : List ℕ). (x, some eof)) (sym nil)
        | inr e ↦
            let w = read-InOrder p (sizes i) msgs c bytes (hn i) h (ground (arith, e)) in
            let size = length-append w.got (w.c'.read_buf ++ w.more) in
            let total = ap length w.order in
            let o' = read_open p (sizes i) msgs w.left c w.c' w.got o w.result in
            let rest =
              drain-Incoming fuel (suc i) sizes w.left w.c' w.more hn o' w.rest
                (omega (arith, size, total, w.progress, enough)) in
            drain_step fuel i sizes msgs w.left c w.c' w.got (w.c'.read_buf ++ w.more) (some eof)
              w.result rest
            ∙ ap (λ (x : List ℕ). (x, some eof)) w.order
      ]

module _ (p : Primitives) (lawful : IsLawful p) where
  -- A stream connection carries a byte stream. Let one side make any number of Writes of any length
  -- that return no error, with pings, pongs and cover traffic between them, over a link that delivers its
  -- messages in order and then ends. Then the Reads of the other side, which is open, into slices of
  -- any sizes above zero, return together exactly the bytes of the Writes in order, behind what its
  -- buffer held; then one returns io.EOF, and at most as many Reads succeed before it as there are
  -- bytes.
  pub drain-Transcript :
      {s s' : SecureStream} {bytes : List ℕ} {msgs : List (List ℕ)} (fuel : ℕ) (sizes : ℕ → ℕ)
      (c : StreamConn)
      → Transcript p s bytes msgs s'
      → Linked s c.stream
      → c.stream.closed ≡ false
      → ((j : ℕ) → 0 < sizes j)
      → length (c.read_buf ++ bytes) < fuel
      → drain p fuel 0 sizes msgs c ≡ (c.read_buf ++ bytes, some eof)
  drain-Transcript {bytes = bytes} {msgs = msgs} fuel sizes c t link o hn enough =
      let w = Transcript-Arrives p lawful t c.stream link in
      drain-Incoming p fuel 0 sizes msgs c bytes hn o
        (record { events = w.events; s' = w.r'; all = w.all; kinds = w.kinds; whole = w.whole })
        enough
