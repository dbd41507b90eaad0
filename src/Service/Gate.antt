-- ===== src/Service/Gate.antt =====
-- Which hellos lead to a call of the handler.
use sing_ewp.Handshake.Toy.{users}
use sing_ewp.Service.Dispatched.{
  metadata_of, is_stream, dispatch-metadata, respond_hello, accept_inv, handle_inv,
}
use sing_ewp.Uuid.{parse_uuid}
use sing_ewp.Service.Users.{IsService, remove_user_refines}
use sing_ewp.Handshake.Asymmetric.{KeyExchange}
use sing_ewp.Crypto.{Primitives}
use sing_ewp.Handshake.{ServerTimes, check_replay, make_uuid_lookup}
use sing_ewp.Hello.{command_tcp, ClientHello}
use sing_ewp.Handshake.Accept.{Authentic, signature, unsigned, authenticate_iff}
use sing_ewp.Errors.{Result, ok, err}
use sing_ewp.Handshake.Lookup.{FirstMatch, make_uuid_lookup_first, Found}
use sing_ewp.Prelude.{
  ◌==◌, ◌≡◌, [], arith, refl, true, Bool, subst, ◌++◌, ℕ, ◌∷◌, false, List, bytes_eq_refl, Option,
  ap, bytes_eq, bytes_eq_iff,
}
use sing_ewp.Service.{Metadata, Dispatch, Service, listed, handle_transport, remove_user}

-- A hello for which the handler was called.
pub record IsAdmitted (p : Primitives) (times : ServerTimes) (s : Service) (msg : List ℕ)
    (d : Dispatch) : Type 0 where
  pub ch : ClientHello
  pub authentic : Authentic p s.lookup times.checked msg ch
  pub member : listed ch.uuid s.users ≡ true
  pub fresh : (check_replay times.marked ch s.replay).1 ≡ true
  pub metadata : metadata_of d ≡ record { user_uuid = ch.uuid; destination = ch.address }
  pub kind : is_stream d ≡ (ch.command == command_tcp)

listed-mid : (u : List ℕ) (before after : List (List ℕ)) → listed u (before ++ (u ∷ after)) ≡ true
unfolding listed
listed-mid u [] after = rw (bytes_eq_refl u) refl
listed-mid u (v ∷ vs) after = ground (arith, listed-mid u vs after)

found-listed :
    (p : Primitives) (users : List (List ℕ)) (msg mac u : List ℕ)
    → make_uuid_lookup p users msg mac ≡ ok u
    → listed u users ≡ true
found-listed p users msg mac u h =
    let f : FirstMatch p users msg mac u =
      subst (Found p users msg mac) h (make_uuid_lookup_first p users msg mac) in
    rw (f.listed) (listed-mid u f.before f.after)

module _ (p : Primitives) (kx : KeyExchange) where
  -- The handler is called for admitted hellos only. If handleTransport of a service with an up to
  -- date lookup calls the handler, the transport gave a message with a hello that the server takes for
  -- authentic: its MAC, its decryption, its command and its time are right. Its UUID is in the
  -- list of users, the replay cache had no live entry for it, the metadata has that UUID and the
  -- hello's address, and the call is the one for its command.
  pub handle_transport-IsAdmitted :
      (times : ServerTimes) (key : Option (List ℕ)) (coins : List ℕ) (delivers : List ℕ → Bool)
      (underlying : Bool) (hello first : Result (List ℕ)) (s s' : Service) (d : Dispatch)
      (sent : List (List ℕ))
      → IsService p s
      → handle_transport p kx times key coins delivers underlying hello first s ≡ (s', ok d, sent)
      → (msg : List ℕ) × (hello ≡ ok msg) × IsAdmitted p times s msg d
  unfolding handle_transport
  handle_transport-IsAdmitted times key coins delivers underlying (err e) first s s' d sent w h =
      absurd (ground (arith, h))
  handle_transport-IsAdmitted times key coins delivers underlying (ok msg) first s s' d sent w h =
      let (out, res, ch, e0, e1, e2, e3) =
        handle_inv p kx times key coins delivers underlying msg first s s' d sent h in
      let (ch', good, fresh, answer) =
        accept_inv p kx s.lookup times key coins msg out s.replay res e0 in
      let same : ch' ≡ ch =
        ground (arith, respond_hello p kx key coins times.stamped ch' out res answer, e2) in
      let authentic = (authenticate_iff p s.lookup times.checked msg ch).0 (rw same at good) in
      let m = dispatch-metadata p underlying ch res.keys first d e3 in
      (
        msg,
        refl,
        record {
          ch = ch;
          authentic = authentic;
          member =
              found-listed p s.users (unsigned msg) (signature msg) ch.uuid
                (rw (← w.current) authentic.user);
          fresh = rw (← same) fresh;
          metadata = m.0;
          kind = m.1;
        },
      )

  -- A removed user is not served: a call of handleTransport that takes its lookup after a RemoveUser
  -- calls the handler for no hello with the UUID of the argument, whatever the message is.
  pub removed_user_not_served :
      (uuid_str u : List ℕ) (times : ServerTimes) (key : Option (List ℕ)) (coins : List ℕ)
      (delivers : List ℕ → Bool) (underlying : Bool) (hello first : Result (List ℕ))
      (s s' : Service) (d : Dispatch) (sent : List (List ℕ))
      → IsService p s
      → parse_uuid uuid_str ≡ ok u
      → handle_transport p kx times key coins delivers underlying hello first
          (remove_user p uuid_str s).0
        ≡ (s', ok d, sent)
      → bytes_eq (metadata_of d).user_uuid u ≡ false
  removed_user_not_served uuid_str u times key coins delivers underlying hello first s s' d sent w h
        e =
      let s1 = (remove_user p uuid_str s).0 in
      let kept = (remove_user_refines p uuid_str u u s w h).1 in
      let (msg, from, a) =
        handle_transport-IsAdmitted times key coins delivers underlying hello first s1 s' d sent
          kept e in
      let gone = remove_user_refines p uuid_str u a.ch.uuid s w h in
      let owner : (metadata_of d).user_uuid ≡ a.ch.uuid =
        ap (λ (m : Metadata). m.user_uuid) a.metadata in
      ground (arith, owner, gone, a.member, bytes_eq_iff u a.ch.uuid, bytes_eq_iff a.ch.uuid u)
