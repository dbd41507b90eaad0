-- ===== src/SecureStream/Delivery.antt =====
-- A message that one side sends, at the other side.
-- The receiver expects what the sender sends next.
use sing_ewp.Errors.{ok}
use sing_ewp.Frame.RoundTrip.{decode_frame-encode}
use sing_ewp.Crypto.Random.{FillsBuffer}
use sing_ewp.Prelude.Int.{ℤ}
use sing_ewp.Frame.Encode.{length-encode_frame_append}
use sing_ewp.SecureStream.{
  deliver, choose_pad, count_sent, transmit, new_server_stream, SendEnv, new_client_stream,
  recv_event, send_frame, SecureStream,
}
use sing_ewp.Kdf.{SessionKeys}
use sing_ewp.Crypto.{IsLawful, Primitives}
use sing_ewp.Frame.{
  aead_tag_len, encode_frame_append, FrameAead, decode_frame, frame_header_size, DecodedFrame,
}
use sing_ewp.Prelude.{
  none, arith, ◌+◌, length, ◌<◌, List, [], ◌^◌, inl, Bool-cases, ap, ℕ, refl, ◌≡◌, ◌%◌, append-nil,
  inr, Option-cases, false, ◌∷◌,
}

pub record Linked (s r : SecureStream) : Type 0 where
  pub same : s.send ≡ r.recv
  pub in_range : s.send.counter < 2 ^ 64
  pub opened : r.closed ≡ false

-- The streams of the two ends of a session are linked in both directions.
pub new_streams-Linked :
    (keys : SessionKeys)
    → Linked (new_client_stream keys) (new_server_stream keys)
      × Linked (new_server_stream keys) (new_client_stream keys)
new_streams-Linked keys = (
  record { same = refl; in_range = omega arith; opened = refl },
  record { same = refl; in_range = omega arith; opened = refl },
)

-- The receiver after a frame was decoded and before its event.
abbrev pub count_received : FrameAead → List ℕ → SecureStream → SecureStream
count_received f wire r = record r {
  recv = f;
  bytes_in = (r.bytes_in + length wire) % 2 ^ 64;
  frames_in = (r.frames_in + 1) % 2 ^ 64;
}

abbrev pub frame_of : SecureStream → ℕ → List ℕ → List ℕ → DecodedFrame
frame_of s t meta payload = record {
  counter = s.send.counter;
  type = t;
  meta = meta;
  payload = payload;
}

module _ (p : Primitives) where
  -- A send that returns no error.
  pub record Transmitted (env : SendEnv) (t : ℕ) (meta payload : List ℕ) (pad : ℤ)
      (s s' : SecureStream) (msgs : List (List ℕ)) : Type 0 where
    pub raw_pad : ℤ
    pub f : FrameAead
    pub wire : List ℕ
    pub was_open : s.closed ≡ false
    pub encoded : encode_frame_append p env.fill [] s.send t meta payload raw_pad ≡ (f, wire, none)
    pub state : s' ≡ count_sent env t wire (record s { send = f })
    pub messages : msgs ≡ wire ∷ []

  transmit_inv :
      (env : SendEnv) (t : ℕ) (wire : List ℕ) (s s' : SecureStream) (msgs : List (List ℕ))
      → transmit p env t wire s ≡ (s', msgs, none)
      → (s' ≡ count_sent env t wire s) × (msgs ≡ wire ∷ [])
  unfolding transmit
  transmit_inv env t wire s s' msgs h = ground arith

  pub send_frame_inv :
      (env : SendEnv) (t : ℕ) (meta payload : List ℕ) (pad : ℤ) (s s' : SecureStream)
      (msgs : List (List ℕ))
      → send_frame p env t meta payload pad s ≡ (s', msgs, none)
      → Transmitted env t meta payload pad s s' msgs
  unfolding send_frame
  send_frame_inv env t meta payload pad s s' msgs h =
      let raw_wire = frame_header_size + length meta + length payload + aead_tag_len in
      let pad' = choose_pad env s raw_wire pad in
      let r = encode_frame_append p env.fill [] s.send t meta payload pad' in
      elim (Bool-cases s.closed) [
        | inl e ↦ absurd (ground (arith, e, h))
        | inr e ↦ elim (Option-cases r.2) [
          | inl q ↦
              let sent : transmit p env t r.1 (record s { send = r.0 }) ≡ (s', msgs, none) =
                ground (arith, e, q, h) in
              let i = transmit_inv env t r.1 (record s { send = r.0 }) s' msgs sent in
              record {
                raw_pad = pad';
                f = r.0;
                wire = r.1;
                was_open = e;
                encoded = ground (arith, q);
                state = i.0;
                messages = i.1;
              }
          | inr (x, q) ↦ absurd (ground (arith, e, q, h))
        ]
      ]

  recv_decoded :
      (wire : List ℕ) (r : SecureStream) (f : FrameAead) (rest : List ℕ) (fr : DecodedFrame)
      → r.closed ≡ false
      → decode_frame p wire r.recv ≡ (f, rest, ok fr)
      → recv_event p (ok wire) r ≡ deliver p (count_received f wire r) fr
  unfolding recv_event
  recv_decoded wire r f rest fr o h = ground (arith, o, h)

module _ (p : Primitives) (lawful : IsLawful p) where
  -- A send that returns no error has given the transport one message, and a linked receiver that gets
  -- the message goes on with the frame of that type, meta and payload; the two stay linked in their
  -- counters.
  pub frame_arrives :
      (env : SendEnv) (t : ℕ) (meta payload : List ℕ) (pad : ℤ) (s s' r : SecureStream)
      (msgs : List (List ℕ))
      → FillsBuffer env.fill
      → Linked s r
      → send_frame p env t meta payload pad s ≡ (s', msgs, none)
      → (wire : List ℕ) × (msgs ≡ wire ∷ [])
        × (recv_event p (ok wire) r
            ≡ deliver p (count_received s'.send wire r) (frame_of s t meta payload))
        × Linked s' (count_received s'.send wire r)
  frame_arrives env t meta payload pad s s' r msgs fills link h =
      let i = send_frame_inv p env t meta payload pad s s' msgs h in
      let (w, cut, read) =
        decode_frame-encode p lawful env.fill fills [] s.send t meta payload i.raw_pad i.f i.wire []
          link.in_range i.encoded in
      let moved : s'.send ≡ i.f = ap (λ (x : SecureStream). x.send) i.state in
      let at_receiver : decode_frame p i.wire r.recv ≡ (i.f, [], ok (frame_of s t meta payload)) =
        rw (cut, ← link.same) (rw append-nil at read) in
      let size =
        length-encode_frame_append p lawful env.fill fills [] s.send t meta payload i.raw_pad i.f
          i.wire i.encoded in
      (
        i.wire,
        i.messages,
        rw moved
            (recv_decoded p i.wire r i.f [] (frame_of s t meta payload) link.opened at_receiver),
        record { same = refl; in_range = rw moved (omega (arith, size)); opened = link.opened },
      )
