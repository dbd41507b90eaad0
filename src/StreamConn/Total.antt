-- ===== src/StreamConn/Total.antt =====
-- streamConn.Write on an open stream ends.
use sing_ewp.Crypto.{Primitives}
use sing_ewp.SecureStream.{send_tcp_data, SecureStream, SendEnv}
use sing_ewp.Prelude.{
  zero, ◌≡◌, List, arith, length, none, false, ◌≤◌, [], ℕ, suc, drop, take, ◌∷◌, length-take, ◌+◌,
  length-drop,
}
use sing_ewp.StreamConn.{write_chunks, write_bytes, max_payload}
use sing_ewp.SecureStream.Total.{Works, send_tcp_data_total, drop_fits}

module _ (p : Primitives) where
  writes_total :
      (fuel i : ℕ) (env : ℕ → ℕ → SendEnv) (bytes : List ℕ) (s : SecureStream)
      → ((j k : ℕ) → Works (env j k))
      → s.closed ≡ false
      → length bytes ≤ fuel
      → let r = write_chunks p fuel i env bytes s in
        (r.3 ≡ none) × (r.2 ≡ length bytes) × (r.0.closed ≡ false)
  unfolding write_chunks
  writes_total fuel i env [] s w o enough = (ground arith, ground arith, ground (arith, o))
  writes_total zero i env (b ∷ bs) s w o enough = absurd (omega (arith, enough))
  writes_total (suc fuel) i env (b ∷ bs) s w o enough =
      let chunk = take max_payload (b ∷ bs) in
      let sent = send_tcp_data_total p (env i) chunk s (w i) o in
      let first = send_tcp_data p (env i) chunk s in
      let fits = drop_fits max_payload (b ∷ bs) fuel (omega arith) (omega arith) enough in
      let rest = writes_total fuel (suc i) env (drop max_payload (b ∷ bs)) first.0 w sent.1 fits in
      let whole : length chunk + length (drop max_payload (b ∷ bs)) ≡ length (b ∷ bs) =
        omega (arith, length-take max_payload (b ∷ bs), length-drop max_payload (b ∷ bs)) in
      (ground (arith, sent, rest), ground (arith, sent, rest, whole), ground (arith, sent, rest))

  -- With a working crypto/rand and transport, Write on an open stream ends for any number of bytes,
  -- reports all of them without an error, and leaves the stream open: its loop makes at most as many
  -- turns as there are bytes.
  pub write_bytes_total :
      (env : ℕ → ℕ → SendEnv) (bytes : List ℕ) (s : SecureStream)
      → ((j k : ℕ) → Works (env j k))
      → s.closed ≡ false
      → let r = write_bytes p env bytes s in
        (r.3 ≡ none) × (r.2 ≡ length bytes) × (r.0.closed ≡ false)
  unfolding write_bytes
  write_bytes_total env bytes s w o = writes_total (length bytes) 0 env bytes s w o (omega arith)
