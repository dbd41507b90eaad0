-- ===== src/PacketConn/Reads.antt =====
-- ReadFrom behind frames that it skips.
use sing_ewp.Errors.{ok}
use sing_ewp.SecureStream.{SendEnv, SecureStream}
use sing_ewp.Address.{Address}
use sing_ewp.PacketConn.Quiet.{Quiet}
use sing_ewp.PacketConn.Skips.{Ignored, Quiet-Ignored}
use sing_ewp.PacketConn.{read_from, PacketConn, write_to_address}
use sing_ewp.Crypto.{Primitives, IsLawful}
use sing_ewp.Prelude.{ℕ, refl, take, List, ◌∙◌, ◌++◌, length, ◌≡◌, none, sym, [], ◌∷◌}
use sing_ewp.PacketConn.Datagrams.{read_loop_lem, datagram_arrives, source, IsSession}
use sing_ewp.Address.Wire.{IsAddress, wire}
use sing_ewp.Crypto.Random.{FillsBuffer}

module _ (p : Primitives) where
  -- Quiet frames leave a session open.
  pub Quiet-IsSession :
      (c d : PacketConn) (s : SecureStream) (pre : List (List ℕ))
      → IsSession c d
      → (g : Ignored p d s pre) → IsSession (record c { stream = s }) (record d { stream = g.r })
  Quiet-IsSession c d s pre w g = record {
    same_id = w.same_id;
    id_size = w.id_size;
    there = g.link;
    back = g.back;
    writable = w.writable;
    peer_writable = w.peer_writable;
  }

  -- A read goes on behind the frames that are read past.
  pub read_behind :
      (d : PacketConn) (s : SecureStream) (pre : List (List ℕ)) (g : Ignored p d s pre) (k : ℕ)
      (rest : List (List ℕ))
      → d.pending_first ≡ none
      → read_from p k (pre ++ rest) d ≡ read_from p k rest (record d { stream = g.r })
  read_behind d s pre g k rest h =
      read_loop_lem p k (pre ++ rest) d h
      ∙ g.past k rest
      ∙ sym (read_loop_lem p k rest (record d { stream = g.r }) h)

module _ (p : Primitives) (lawful : IsLawful p) where
  -- A datagram on an open session, behind any number of pings, pongs, cover traffic, probes and
  -- frames of other sessions that the sender put on the stream before it. A write that returns no error
  -- has sent one message and reports all its bytes; the other side's next read skips the frames before
  -- it, takes that message and returns as many of the bytes as fit, with the part of the target that
  -- is sent as their source, or the session's default destination where there is no target. The
  -- session stays open in both directions.
  pub read_from-write_to_address :
      (env : SendEnv) (b : List ℕ) (target : Address) (c c' d : PacketConn) (s : SecureStream)
      (pre msgs : List (List ℕ)) (n : ℕ)
      → FillsBuffer env.fill
      → IsSession c d
      → Quiet p d.global_id c.stream pre s
      → IsAddress target
      → d.pending_first ≡ none
      → write_to_address p env b target (record c { stream = s }) ≡ (c', msgs, ok n)
      → (wire : List ℕ) × (d' : PacketConn) × (msgs ≡ wire ∷ [])
        × ((k : ℕ) (rest : List (List ℕ))
            → read_from p k (pre ++ (wire ∷ rest)) d ≡ (d', rest, ok (take k b, source d target)))
        × IsSession c' d'
        × (n ≡ length b)
  read_from-write_to_address env b target c c' d s pre msgs n fills w quiet ha none_first h =
      let g = Quiet-Ignored p lawful d.global_id quiet d refl w.there w.back in
      let e = record d { stream = g.r } in
      let (wire, d', one, got, session, count) =
        datagram_arrives p lawful env b target (record c { stream = s }) c' e msgs n fills
          (Quiet-IsSession p c d s pre w g) ha none_first h in
      (
        wire,
        d',
        one,
        λ k rest. read_behind p d s pre g k (wire ∷ rest) none_first ∙ got k rest,
        session,
        count,
      )
