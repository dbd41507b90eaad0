-- ===== src/Framer/Order.antt =====
-- Messages come out of the byte stream as they went in.
-- Messages sent one after the other, until one fails.
use sing_ewp.Kdf.{max_frame_size}
use sing_ewp.Errors.{Result, ok, err, Error, ◌>>=◌}
use sing_ewp.Frame.Read.{read_full-append}
use sing_ewp.Bytes.{put_uint32, uint32, put_uint32-IsArray, uint32-put_uint32}
use sing_ewp.Framer.{write, Writer, read_message, send_message}
use sing_ewp.Prelude.{
  sym, Option-cases, ℕ, ap, zero, ◌++◌, List, ◌≤◌, none, arith, [], suc, Option, inr, refl, length,
  inl, ◌≡◌, ◌∷◌, append_assoc, ◌∙◌, some, append-nil,
}

unfoldable pub send_messages : Writer → List (List ℕ) → List ℕ → List ℕ × Option Error
send_messages w [] out = (out, none)
send_messages w (m ∷ ms) out =
    let (out', failure) = send_message w m out in
    let rest = send_messages w ms out' in elim failure [ some e ↦ (out', some e) | none ↦ rest ]

-- That many messages, read one after the other.
unfoldable pub read_messages : ℕ → List ℕ → List ℕ × Result (List (List ℕ))
read_messages zero src = (src, ok [])
read_messages (suc n) src =
    let (src', r) = read_message src in
    let (rest, more) = read_messages n src' in
    elim r [ err e ↦ (src', err e) | ok m ↦ (rest, more >>= λ ms. ok (m ∷ ms)) ]

pub read_framed :
    (msg rest : List ℕ)
    → length msg ≤ max_frame_size
    → read_message (put_uint32 (length msg) ++ (msg ++ rest)) ≡ (rest, ok msg)
unfolding read_message
read_framed msg rest h =
    let hdr = put_uint32 (length msg) in
    let number : uint32 hdr ≡ length msg = uint32-put_uint32 (length msg) (omega arith) in
    ground (
      arith,
      read_full-append 4 hdr (msg ++ rest) (put_uint32-IsArray (length msg)).0,
      number,
      read_full-append (length msg) msg rest refl,
      h,
    )

pub sent_framed :
    (w : Writer) (msg out out' : List ℕ)
    → send_message w msg out ≡ (out', none)
    → (length msg ≤ max_frame_size) × (out' ≡ out ++ (put_uint32 (length msg) ++ msg))
unfolding send_message write
sent_framed w msg out out' h =
    let hdr = put_uint32 (length msg) in
    elim (Option-cases (w hdr)) [
      | inr (k, e) ↦ absurd (ground (arith, e, h))
      | inl e ↦ elim (Option-cases (w msg)) [
        | inr (k, q) ↦ absurd (ground (arith, e, q, h))
        | inl q ↦
            let written : (out ++ hdr) ++ msg ≡ out' = ground (arith, e, q, h) in
            (ground (arith, h), sym written ∙ append_assoc out hdr msg)
      ]
    ]

-- A sequence of messages that are sent without an error is read back from the bytes that were written,
-- whatever follows them, one message for each, in order, and what follows is left.
pub read_messages-send_messages :
    (w : Writer) (msgs : List (List ℕ)) (out out' rest : List ℕ)
    → send_messages w msgs out ≡ (out', none)
    → (b : List ℕ) × (out' ≡ out ++ b) × (read_messages (length msgs) (b ++ rest) ≡ (rest, ok msgs))
unfolding send_messages read_messages
read_messages-send_messages w [] out out' rest h = ([], rw append-nil (ground (arith, h)), refl)
read_messages-send_messages w (m ∷ ms) out out' rest h =
    let first = send_message w m out in
    elim (Option-cases first.1) [
      | inr (x, e) ↦ absurd (ground (arith, e, h))
      | inl e ↦
          let (small, cut) = sent_framed w m out first.0 (ground (arith, e)) in
          let (b, whole, read) =
            read_messages-send_messages w ms first.0 out' rest (ground (arith, e, h)) in
          let frame = put_uint32 (length m) ++ m in
          let joined : (frame ++ b) ++ rest ≡ put_uint32 (length m) ++ (m ++ (b ++ rest)) =
            simp append_assoc in
          (
            frame ++ b,
            whole ∙ (ap (λ (x : List ℕ). x ++ b) cut ∙ append_assoc out frame b),
            rw joined (ground (arith, read_framed m (b ++ rest) small, read)),
          )
    ]
