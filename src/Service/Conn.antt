-- ===== src/Service/Conn.antt =====
-- A service on a byte stream.
use sing_ewp.Kdf.{max_frame_size}
use sing_ewp.Handshake.Asymmetric.{KeyExchange}
use sing_ewp.Handshake.{ServerTimes}
use sing_ewp.Crypto.{Primitives}
use sing_ewp.Bytes.{put_uint32}
use sing_ewp.Framer.Order.{read_messages-send_messages, read_framed, sent_framed, send_messages}
use sing_ewp.Framer.{Writer, read_message, send_message}
use sing_ewp.StreamConn.{read}
use sing_ewp.Service.{handle_transport, Service, handle_conn}
use sing_ewp.Errors.{ok, Result}
use sing_ewp.Prelude.{
  ◌∷◌, arith, [], append_assoc, length, true, Option-cases, ap, refl, List, ◌≤◌, ℕ, ◌∙◌, Bool, ◌≡◌,
  none, inr, Option, inl, ◌++◌,
}

-- A message and its length, as LengthFramer sends them.
framed : List ℕ → List ℕ
framed m = put_uint32 (length m) ++ m

read-framed :
    (m rest : List ℕ) → length m ≤ max_frame_size → read_message (framed m ++ rest) ≡ (rest, ok m)
unfolding framed
read-framed m rest h =
    ap read_message (append_assoc (put_uint32 (length m)) m rest) ∙ read_framed m rest h

module _ (w : Writer) where
  send_next :
      (m : List ℕ) (ms : List (List ℕ)) (out out' : List ℕ)
      → send_messages w (m ∷ ms) out ≡ (out', none)
      → (length m ≤ max_frame_size) × (send_messages w ms (out ++ framed m) ≡ (out', none))
  unfolding send_messages framed
  send_next m ms out out' h =
      let first = send_message w m out in
      elim (Option-cases first.1) [
        | inr (x, e) ↦ absurd (ground (arith, e, h))
        | inl e ↦
            let (small, cut) = sent_framed w m out first.0 (ground (arith, e)) in
            (small, rw (← cut) (ground (arith, e, h)))
      ]

module _ (p : Primitives) (kx : KeyExchange) where
  handle_two :
      (times : ServerTimes) (key : Option (List ℕ)) (coins : List ℕ) (delivers : List ℕ → Bool)
      (input left left' : List ℕ) (hello first : Result (List ℕ)) (s : Service)
      → read_message input ≡ (left, hello)
      → read_message left ≡ (left', first)
      → handle_conn p kx times key coins delivers input s
        ≡ handle_transport p kx times key coins delivers true hello first s
  unfolding handle_conn
  handle_two times key coins delivers input left left' hello first s h k = rw (h, k) refl

  -- HandleConn on the bytes that a LengthFramer wrote for a sequence of messages without an error does
  -- what HandleMessageTransport does on the first two of the messages.
  pub handle_conn-send_messages :
      (times : ServerTimes) (key : Option (List ℕ)) (coins : List ℕ) (delivers : List ℕ → Bool)
      (w : Writer) (hello first : List ℕ) (more : List (List ℕ)) (bytes : List ℕ) (s : Service)
      → send_messages w (hello ∷ first ∷ more) [] ≡ (bytes, none)
      → handle_conn p kx times key coins delivers bytes s
        ≡ handle_transport p kx times key coins delivers true (ok hello) (ok first) s
  handle_conn-send_messages times key coins delivers w hello first more bytes s h =
      let (small, h1) = send_next w hello (first ∷ more) [] bytes h in
      let (small', h2) = send_next w first more (framed hello) bytes h1 in
      let (b, whole, read) =
        read_messages-send_messages w more (framed hello ++ framed first) bytes [] h2 in
      let cut : bytes ≡ framed hello ++ (framed first ++ b) =
        whole ∙ append_assoc (framed hello) (framed first) b in
      rw cut (
        handle_two times key coins delivers (framed hello ++ (framed first ++ b))
          (framed first ++ b) b (ok hello) (ok first) s
          (read-framed hello (framed first ++ b) small) (read-framed first b small'))
