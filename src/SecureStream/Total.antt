-- ===== src/SecureStream/Total.antt =====
-- Sends on an open stream with a working crypto/rand and transport succeed.
-- The reads of crypto/rand fill the padding, and the transport takes the message.
use sing_ewp.Crypto.Random.{NeverFails}
use sing_ewp.Crypto.{Primitives}
use sing_ewp.SecureStream.Tcp.{chunk_size_bounds}
use sing_ewp.PaddingPolicy.Bounds.{suggest_stream_pad-Fits}
use sing_ewp.Frame.Encode.{encode_frame_append_ok_iff, Fits}
use sing_ewp.PaddingPolicy.{suggest_stream_pad, max_wire}
use sing_ewp.Kdf.{max_meta_len}
use sing_ewp.Prelude.Int.{pos, negsuc}
use sing_ewp.SecureStream.{
  send_chunks, chunk_size, reshape_threshold, SecureStream, transmit, send_frame, phase_index,
  SendEnv, choose_pad, send_tcp_data,
}
use sing_ewp.Prelude.{
  ◌+◌, suc, arith, false, ◌≡◌, drop, Bool-cases, inl, length-take, length, [], ℕ, leb, none, List,
  zero, ◌∷◌, ◌≤◌, true, inr, refl, take, length-drop, ◌<◌,
}
use sing_ewp.Frame.{tcp_data, frame_header_size, encode_frame_append, valid, aead_tag_len}

pub record Works (env : SendEnv) : Type 0 where
  pub fills : NeverFails env.fill
  pub delivers : (m : List ℕ) → env.delivers m ≡ true

-- A chunk that is not empty leaves less.
pub drop_fits :
    (n : ℕ) (xs : List ℕ) (fuel : ℕ)
    → 0 < n
    → 0 < length xs
    → length xs ≤ suc fuel
    → length (drop n xs) ≤ fuel
drop_fits n xs fuel some_taken some_left enough =
    omega (arith, length-drop n xs, some_taken, some_left, enough)

module _ (p : Primitives) where
  transmit_total :
      (env : SendEnv) (t : ℕ) (wire : List ℕ) (s : SecureStream)
      → Works env
      → ((transmit p env t wire s).2 ≡ none) × ((transmit p env t wire s).0.closed ≡ s.closed)
  unfolding transmit
  transmit_total env t wire s w = rw (w.delivers wire) (refl, refl)

  -- A frame of a known type, with at most 1024 bytes of meta, whose unpadded size is at most 65532
  -- bytes, is sent without an error on an open stream, which stays open.
  pub send_frame_total :
      (env : SendEnv) (t : ℕ) (meta payload : List ℕ) (s : SecureStream)
      → Works env
      → s.closed ≡ false
      → valid t ≡ true
      → length meta ≤ max_meta_len
      → frame_header_size + length meta + length payload + aead_tag_len ≤ max_wire
      → ((send_frame p env t meta payload (negsuc 0) s).2 ≡ none)
        × ((send_frame p env t meta payload (negsuc 0) s).0.closed ≡ false)
  unfolding send_frame choose_pad
  send_frame_total env t meta payload s w o hv hm hw =
      let raw_wire = frame_header_size + length meta + length payload + aead_tag_len in
      let pad = suggest_stream_pad env.pick raw_wire (phase_index s.frames_out) in
      let fits : Fits t meta payload pad =
        suggest_stream_pad-Fits env.pick (phase_index s.frames_out) t meta payload hv hm hw in
      let r = encode_frame_append p env.fill [] s.send t meta payload (pos pad) in
      let done : r.2 ≡ none =
        (encode_frame_append_ok_iff p env.fill w.fills [] s.send t meta payload (pos pad)).1 fits in
      let sent = transmit_total env t r.1 (record s { send = r.0 }) w in
      ground (arith, o, done, sent)

  chunks_total :
      (fuel i : ℕ) (env : ℕ → SendEnv) (payload : List ℕ) (s : SecureStream)
      → ((j : ℕ) → Works (env j))
      → s.closed ≡ false
      → length payload ≤ fuel
      → ((send_chunks p fuel i env payload s).2 ≡ none)
        × ((send_chunks p fuel i env payload s).0.closed ≡ false)
  unfolding send_chunks
  chunks_total fuel i env [] s w o enough = (ground arith, ground (arith, o))
  chunks_total zero i env (b ∷ bs) s w o enough = absurd (omega (arith, enough))
  chunks_total (suc fuel) i env (b ∷ bs) s w o enough =
      let n = chunk_size (env i).cut (length (b ∷ bs)) in
      let bounds = chunk_size_bounds (env i).cut (length (b ∷ bs)) (omega arith) in
      let first = send_frame p (env i) tcp_data [] (take n (b ∷ bs)) (negsuc 0) s in
      let sent =
        send_frame_total (env i) tcp_data [] (take n (b ∷ bs)) s (w i) o (unfold valid in refl)
          (omega arith) (omega (arith, bounds, length-take n (b ∷ bs))) in
      let fits = drop_fits n (b ∷ bs) fuel bounds.0 (omega arith) enough in
      let rest = chunks_total fuel (suc i) env (drop n (b ∷ bs)) first.0 w sent.1 fits in
      (ground (arith, sent, rest), ground (arith, sent, rest))

  -- With a working crypto/rand and transport, SendTCPData on an open stream ends for a payload of any
  -- length, without an error, and leaves the stream open: its loop makes at most as many turns as there
  -- are bytes.
  pub send_tcp_data_total :
      (env : ℕ → SendEnv) (payload : List ℕ) (s : SecureStream)
      → ((j : ℕ) → Works (env j))
      → s.closed ≡ false
      → ((send_tcp_data p env payload s).2 ≡ none)
        × ((send_tcp_data p env payload s).0.closed ≡ false)
  unfolding send_tcp_data
  send_tcp_data_total env payload s w o =
      elim (Bool-cases (leb (length payload) reshape_threshold)) [
        | inl e ↦
            let sent =
              send_frame_total (env 0) tcp_data [] payload s (w 0) o (unfold valid in refl)
                (omega arith) (ground (arith, e)) in
            (ground (arith, e, sent), ground (arith, e, sent))
        | inr e ↦
            let sent = chunks_total (length payload) 0 env payload s w o (omega arith) in
            (ground (arith, e, sent), ground (arith, e, sent))
      ]
