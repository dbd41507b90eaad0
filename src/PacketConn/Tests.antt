-- ===== src/PacketConn/Tests.antt =====
-- Runs of packet connections with the concrete primitives.
use sing_ewp.PacketConn.Interleaving.Outcome.{IsFrame}
use sing_ewp.PacketConn.Interleaving.Order.{udp_new_once_first}
use sing_ewp.Prelude.Int.{negsuc}
use sing_ewp.PacketConn.Reads.{read_from-write_to_address}
use sing_ewp.PacketConn.Close.{close_conn_final}
use sing_ewp.PacketConn.Interleaving.{System, initial, returned, Reach}
use sing_ewp.PacketConn.Interleaving.Lost.{second_first_write_lost}
use sing_ewp.PacketConn.Datagrams.{write_data_total, source, IsSession}
use sing_ewp.PacketConn.Quiet.{Quiet, quiet_control, quiet_done}
use sing_ewp.SecureStream.Total.{Works, send_frame_total}
use sing_ewp.Kdf.{SessionKeys}
use sing_ewp.Crypto.Toy.{toy, toy-IsLawful}
use sing_ewp.Errors.{ok, err, Error, closed_pipe}
use sing_ewp.SecureStream.Delivery.{Linked, new_streams-Linked}
use sing_ewp.Frame.{udp_new, valid, udp_data, ping}
use sing_ewp.PacketConn.Opening.{first_write_total, first_write_to_default, first_write}
use sing_ewp.Hello.Toy.{place-IsAddress, place}
use sing_ewp.Bytes.{IsByte, IsArray}
use sing_ewp.Address.{zero_address, Address}
use sing_ewp.PacketConn.{
  new_client_packet_conn, PacketConn, write_to_address, close_conn, new_server_packet_conn,
  read_from, write_opening,
}
use sing_ewp.SecureStream.UdpMeta.{has_target}
use sing_ewp.Crypto.Random.{zeros, zeros-NeverFails, zeros-FillsBuffer}
use sing_ewp.Prelude.{
  List, ◌≡◌, ℕ, length-replicate, ◌∷◌, arith, true, length, All-replicate, replicate, [], refl, ap,
  ◌∙◌, none, All, sym, Option, ◌⊎◌, take, ◌++◌, false,
}
use sing_ewp.SecureStream.{
  recv_event, SecureStream, SendEnv, new_server_stream, new_client_stream, send_frame, Sent,
}
use sing_ewp.Address.Wire.{on_wire, IsAddress}

abbrev keys : SessionKeys
keys = record {
  c2s_key = 1 ∷ [];
  s2c_key = 2 ∷ [];
  c2s_nonce = 1 ∷ 2 ∷ 3 ∷ 4 ∷ [];
  s2c_nonce = 5 ∷ 6 ∷ 7 ∷ 8 ∷ [];
}

abbrev env_1 : SendEnv
env_1 = record { cut = zeros; pick = zeros; fill = zeros; now = 5; delivers = λ _. true }

env_1-Works : Works env_1
env_1-Works = record { fills = zeros-NeverFails; delivers = λ m. refl }

abbrev id_1 : List ℕ
id_1 = replicate 8 3

id_1-IsArray : IsArray 8 id_1
id_1-IsArray = (length-replicate 8 3, All-replicate IsByte 8 3 (omega arith))

-- A client before its first write.
abbrev fresh : PacketConn
fresh = new_client_packet_conn (new_client_stream keys) true id_1 place

abbrev elsewhere : Address
elsewhere = record zero_address { domain = 104 ∷ []; port = 53 }

elsewhere-IsAddress : IsAddress elsewhere
elsewhere-IsAddress = record {
  ip = tt;
  ip_port = omega arith;
  name = (omega arith, tt);
  name_port = omega arith;
}

first_sent :
    (c : PacketConn) × (msgs : List (List ℕ)) × (write_to_address toy env_1 (9 ∷ []) elsewhere fresh
      ≡ (c, msgs, ok 1))
first_sent =
    first_write_total toy toy-IsLawful env_1 (9 ∷ []) elsewhere fresh env_1-Works refl refl
      id_1-IsArray place-IsAddress (omega arith) (omega arith)

first_write_to_default_example :
    (wire : List ℕ) × (r' : SecureStream) × (first_sent.1 ≡ wire ∷ [])
    × (recv_event toy (ok wire) (new_server_stream keys) ≡ (
      r',
      ok (record {
        type = udp_new;
        global_id = id_1;
        address = on_wire place;
        has_addr = has_target place;
        payload = 9 ∷ [];
      }),
    ))
    × Linked first_sent.0.stream r'
    × (first_sent.0.opened ≡ true)
    × (1 ≡ length {A = ℕ} (9 ∷ []))
first_write_to_default_example =
    first_write_to_default toy toy-IsLawful env_1 (9 ∷ []) elsewhere fresh first_sent.0
      (new_server_stream keys) first_sent.1 1 zeros-FillsBuffer (new_streams-Linked keys).0 refl
      id_1-IsArray place-IsAddress first_sent.2

-- The two sides of an open session.
abbrev opened_client : PacketConn
opened_client = record fresh { opened = true }

abbrev server : PacketConn
server = new_server_packet_conn (new_server_stream keys) true id_1 place []

open_session_1 : IsSession opened_client server
open_session_1 = record {
  same_id = refl;
  id_size = id_1-IsArray;
  there = (new_streams-Linked keys).0;
  back = (new_streams-Linked keys).1;
  writable = refl;
  peer_writable = refl;
}

-- A ping of the client.
abbrev pinged : Sent
pinged = send_frame toy env_1 ping [] (1 ∷ []) (negsuc 0) (new_client_stream keys)

ping_total : (pinged.2 ≡ none) × (pinged.0.closed ≡ false)
ping_total =
    send_frame_total toy env_1 ping [] (1 ∷ []) (new_client_stream keys) env_1-Works refl
      (unfold valid in refl) (omega arith) (omega arith)

ping-Quiet : Quiet toy id_1 (new_client_stream keys) (pinged.1 ++ []) pinged.0
ping-Quiet =
    quiet_control env_1 ping (1 ∷ []) (negsuc 0) zeros-FillsBuffer refl
      (ap (λ (e : Option Error). (pinged.0, pinged.1, e)) ping_total.0) quiet_done

after_ping :
    (c' : PacketConn) × (msgs : List (List ℕ)) × (write_to_address toy env_1
        (7 ∷ 8 ∷ [])
        elsewhere
        (record opened_client { stream = pinged.0 })
      ≡ (c', msgs, ok 2))
after_ping =
    write_data_total toy toy-IsLawful env_1 (7 ∷ 8 ∷ []) elsewhere
      (record opened_client { stream = pinged.0 }) env_1-Works ping_total.1 refl id_1-IsArray
      elsewhere-IsAddress (omega arith) (omega arith)

read_from-write_to_address_example :
    (wire : List ℕ) × (d' : PacketConn) × (after_ping.1 ≡ wire ∷ [])
    × ((k : ℕ) (rest : List (List ℕ))
        → read_from toy k ((pinged.1 ++ []) ++ (wire ∷ rest)) server
          ≡ (d', rest, ok (take k (7 ∷ 8 ∷ []), source server elsewhere)))
    × IsSession after_ping.0 d'
    × (2 ≡ length {A = ℕ} (7 ∷ 8 ∷ []))
read_from-write_to_address_example =
    read_from-write_to_address toy toy-IsLawful env_1 (7 ∷ 8 ∷ []) elsewhere opened_client
      after_ping.0 server pinged.0 (pinged.1 ++ []) after_ping.1 2 zeros-FillsBuffer open_session_1
      ping-Quiet elsewhere-IsAddress refl after_ping.2

close_conn_final_example :
    let c' = (close_conn toy env_1 opened_client).0 in
    ((env' : SendEnv) → close_conn toy env' c' ≡ (c', []))
    × ((env' : SendEnv) (b : List ℕ) (target : Address)
        → (e : Error) × (write_to_address toy env' b target c' ≡ (c', [], err e)))
    × (c'.pending_first ≡ none
        → (k : ℕ) (msgs : List (List ℕ)) → read_from toy k msgs c' ≡ (c', msgs, err closed_pipe))
close_conn_final_example = close_conn_final toy env_1 opened_client refl

opening_sent_1 :
    (c : PacketConn) × (msgs : List (List ℕ)) × (write_opening toy env_1 (9 ∷ []) fresh
      ≡ (c, msgs, ok 1))
opening_sent_1 = (
  first_sent.0,
  first_sent.1,
  sym (first_write toy env_1 (9 ∷ []) elsewhere fresh refl) ∙ first_sent.2,
)

second_first_write_lost_example :
    (t : System) × (wire : List ℕ) × (r' : SecureStream) × Reach toy (initial fresh) t
    × (t.pc 0 ≡ returned (ok 1))
    × (t.pc 1 ≡ returned (ok 2))
    × (t.sent ≡ wire ∷ [])
    × (t.conn ≡ opening_sent_1.0)
    × (recv_event toy (ok wire) (new_server_stream keys) ≡ (
      r',
      ok (record {
        type = udp_new;
        global_id = id_1;
        address = on_wire fresh.default_dst;
        has_addr = has_target fresh.default_dst;
        payload = 9 ∷ [];
      }),
    ))
second_first_write_lost_example =
    second_first_write_lost toy toy-IsLawful env_1 (9 ∷ []) (7 ∷ 8 ∷ []) place elsewhere fresh
      opening_sent_1.0 (new_server_stream keys) opening_sent_1.1 1 zeros-FillsBuffer
      (new_streams-Linked keys).0 refl id_1-IsArray place-IsAddress opening_sent_1.2

lost_run : (t : System) × Reach toy (initial fresh) t
lost_run =
    let r =
      second_first_write_lost toy toy-IsLawful env_1 (9 ∷ []) (7 ∷ 8 ∷ []) place elsewhere fresh
        opening_sent_1.0 (new_server_stream keys) opening_sent_1.1 1 zeros-FillsBuffer
        (new_streams-Linked keys).0 refl id_1-IsArray place-IsAddress opening_sent_1.2 in
    (r.0, r.3)

udp_new_once_first_example :
    (lost_run.0.conn.opened ≡ false × lost_run.0.sent ≡ [])
    ⊎ (lost_run.0.conn.opened ≡ true
        × (first : List ℕ) × (later : List (List ℕ)) × (lost_run.0.sent ≡ first ∷ later)
        × IsFrame toy udp_new id_1 first
        × All (IsFrame toy udp_data id_1) later)
udp_new_once_first_example = udp_new_once_first toy fresh lost_run.0 refl lost_run.1
