-- ===== src/StreamConn/Tests.antt =====
-- A payload of 20000 bytes that a client wrote, read by the server.
use sing_ewp.StreamConn.Total.{write_bytes_total}
use sing_ewp.StreamConn.Close.{CloseState, NetClose, close_stream_conn, close_secure}
use sing_ewp.Prelude.Int.{negsuc}
use sing_ewp.StreamConn.Stream.{drain, drain-Transcript}
use sing_ewp.StreamConn.Transcript.{Received-Arrives, Transcript, wrote, dropped, nothing}
use sing_ewp.Frame.{ping, valid}
use sing_ewp.StreamConn.Writes.{write_bytes-Received}
use sing_ewp.StreamConn.{StreamConn, write_chunks, write_bytes}
use sing_ewp.SecureStream.Delivery.{new_streams-Linked}
use sing_ewp.Errors.{Error, transport, eof}
use sing_ewp.StreamConn.Reads.{Incoming}
use sing_ewp.Crypto.Toy.{toy, toy-IsLawful}
use sing_ewp.SecureStream.{
  send_tcp_data, Sent, new_client_stream, new_server_stream, SendEnv, SecureStream, send_frame,
}
use sing_ewp.SecureStream.Total.{send_tcp_data_total, Works, send_frame_total}
use sing_ewp.Prelude.{
  arith, ap, ℕ, refl, ◌∷◌, length-replicate, Option, replicate, [], ◌≡◌, none, List, true, length,
  drop, take, ◌++◌, false, some, ◌==◌, if◌then◌else◌, suc,
}
use sing_ewp.Kdf.{SessionKeys}
use sing_ewp.Crypto.Random.{zeros, zeros-NeverFails, zeros-FillsBuffer}
use sing_ewp.SecureStream.Tcp.{tcp_data_arrives, Received}

abbrev keys : SessionKeys
keys = record { c2s_key = 1 ∷ []; s2c_key = 2 ∷ []; c2s_nonce = 1 ∷ []; s2c_nonce = 2 ∷ [] }

abbrev env_1 : SendEnv
env_1 = record { cut = zeros; pick = zeros; fill = zeros; now = 5; delivers = λ _. true }

abbrev upload : List ℕ
upload = replicate 20000 7

abbrev sent : Sent
sent = send_tcp_data toy (λ _. env_1) upload (new_client_stream keys)

env_1-Works : Works env_1
env_1-Works = record { fills = zeros-NeverFails; delivers = λ m. refl }

sent-ok : sent ≡ (sent.0, sent.1, none)
sent-ok =
    ap (λ (e : Option Error). (sent.0, sent.1, e))
      (send_tcp_data_total toy (λ _. env_1) upload (new_client_stream keys) (λ _. env_1-Works)
        refl).0

abbrev conn : StreamConn
conn = record { stream = new_server_stream keys; read_buf = 1 ∷ 2 ∷ [] }

upload-Incoming : Incoming toy sent.1 conn.stream upload
upload-Incoming =
    let w = Received-Arrives toy toy-IsLawful upload sent.1 sent.0 (new_server_stream keys) (
      tcp_data_arrives toy toy-IsLawful (λ _. env_1) upload (new_client_stream keys) sent.0
        (new_server_stream keys) sent.1 (λ _. zeros-FillsBuffer) (new_streams-Linked keys).0
        sent-ok) in
    record { events = w.events; s' = w.r'; all = w.all; kinds = w.kinds; whole = w.whole }

abbrev idle : StreamConn
idle = record conn { read_buf = [] }

length-upload : length upload ≡ 20000
length-upload = length-replicate 20000 7

abbrev note : List ℕ
note = 104 ∷ 105 ∷ []

abbrev written : SecureStream × List (List ℕ) × ℕ × Option Error
written = write_bytes toy (λ _ _. env_1) note (new_client_stream keys)

note-sent : (send_tcp_data toy (λ _. env_1) note (new_client_stream keys)).2 ≡ none
note-sent =
    (send_tcp_data_total toy (λ _. env_1) note (new_client_stream keys) (λ _. env_1-Works) refl).0

written-ok : written ≡ (written.0, written.1, written.2, none)
unfolding write_bytes write_chunks take drop
written-ok = ground (arith, note-sent)

write_bytes-Received_example :
    Received toy note written.1 written.0 (new_server_stream keys) × (written.2 ≡ 2)
write_bytes-Received_example =
    write_bytes-Received toy toy-IsLawful (λ _ _. env_1) note (new_client_stream keys) written.0
      (new_server_stream keys) written.1 written.2 (λ _ _. zeros-FillsBuffer)
      (new_streams-Linked keys).0 written-ok

write_bytes_total_example :
    (written.3 ≡ none) × (written.2 ≡ length note) × (written.0.closed ≡ false)
write_bytes_total_example =
    write_bytes_total toy (λ _ _. env_1) note (new_client_stream keys) (λ _ _. env_1-Works) refl

-- The note behind a ping.
abbrev pinged : Sent
pinged = send_frame toy env_1 ping [] (1 ∷ []) (negsuc 0) (new_client_stream keys)

ping-sent : (pinged.2 ≡ none) × (pinged.0.closed ≡ false)
ping-sent =
    send_frame_total toy env_1 ping [] (1 ∷ []) (new_client_stream keys) env_1-Works refl
      (unfold valid in refl) (omega arith) (omega arith)

abbrev written_2 : SecureStream × List (List ℕ) × ℕ × Option Error
written_2 = write_bytes toy (λ _ _. env_1) note pinged.0

note-sent_2 : (send_tcp_data toy (λ _. env_1) note pinged.0).2 ≡ none
note-sent_2 = (send_tcp_data_total toy (λ _. env_1) note pinged.0 (λ _. env_1-Works) ping-sent.1).0

written-ok_2 : written_2 ≡ (written_2.0, written_2.1, written_2.2, none)
unfolding write_bytes write_chunks take drop
written-ok_2 = ground (arith, note-sent_2)

note-Transcript :
    Transcript toy
      (new_client_stream keys)
      (note ++ [])
      (pinged.1 ++ (written_2.1 ++ []))
      written_2.0
note-Transcript =
    dropped env_1 ping (1 ∷ []) (negsuc 0) zeros-FillsBuffer refl
      (ap (λ (e : Option Error). (pinged.0, pinged.1, e)) ping-sent.0)
      (wrote (λ _ _. env_1) note written_2.2 (λ _ _. zeros-FillsBuffer) written-ok_2 nothing)

drain-Transcript_example :
    drain toy 9 0 suc (pinged.1 ++ (written_2.1 ++ [])) conn ≡ (1 ∷ 2 ∷ 104 ∷ 105 ∷ [], some eof)
drain-Transcript_example =
    drain-Transcript toy toy-IsLawful 9 suc conn note-Transcript (new_streams-Linked keys).0 refl
      (λ j. omega arith) (omega arith)

-- A connection that reports an error from its second Close on.
abbrev net_close : NetClose
net_close n = if n == 0 then none else some transport

abbrev healthy : CloseState
healthy = record {
  stream_closed = false;
  has_underlying = true;
  done = false;
  close_err = none;
  calls = 0;
}

closed_twice : (close_stream_conn net_close healthy).1 ≡ some transport
unfolding close_stream_conn close_secure
closed_twice = refl
