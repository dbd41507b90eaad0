-- ===== src/Service/History.antt =====
-- Sequences of the calls of a Service, from NewService on: AddUser, RemoveUser, SetReplayCache and
-- HandleMessageTransport, each of which takes `usersMu` for the state that it reads or changes.
mod Tests
use sing_ewp.Service.Gate.{handle_transport-IsAdmitted}
use sing_ewp.Service.Dispatched.{metadata_of}
use sing_ewp.Prelude.{
  refl, ◌&&◌, Option, bytes_eq, arith, ℕ, ◌∙◌, List, ◌||◌, ◌≡◌, inl, ◌∷◌, not, inr, false, Bool, [],
  true, sym, ap,
}
use sing_ewp.Service.{
  Service, new_service, add_user, remove_user, set_replay_cache, handle_transport, listed, Dispatch,
  Metadata, offer, Handled,
}
use sing_ewp.Service.Users.{IsService, add_user_refines, remove_user_refines}
use sing_ewp.Handshake.{ServerTimes}
use sing_ewp.Handshake.Asymmetric.{KeyExchange}
use sing_ewp.Crypto.{Primitives}
use sing_ewp.AntiReplay.{ReplayCache}
use sing_ewp.Uuid.{parse_uuid}
use sing_ewp.Errors.{err, ok, Result, Result-cases}

-- What a flow meets.
pub record Flow : Type 0 where
  pub times : ServerTimes
  pub x25519_key : Option (List ℕ)
  pub coins : List ℕ
  pub delivers : List ℕ → Bool
  pub underlying : Bool
  pub hello : Result (List ℕ)
  pub first : Result (List ℕ)

pub data Operation : Type 0 where
  adds : List ℕ → Operation
  removes : List ℕ → Operation
  replaces_cache : Option ReplayCache → Operation
  serves : Flow → Operation

module _ (p : Primitives) (kx : KeyExchange) where
  abbrev pub serve : Flow → Service → Handled
  serve f s =
      handle_transport p kx f.times f.x25519_key f.coins f.delivers f.underlying f.hello f.first s

  abbrev pub operate : Operation → Service → Service
  operate (adds uuid_str) s = (add_user p uuid_str s).0
  operate (removes uuid_str) s = (remove_user p uuid_str s).0
  operate (replaces_cache cache) s = set_replay_cache p cache s
  operate (serves f) s = (serve f s).0

  -- The service after a history, whose last operation stands first.
  unfoldable pub service_after : List Operation → Service
  service_after [] = new_service p
  service_after (op ∷ earlier) = operate op (service_after earlier)

-- The set of users, as the history alone gives it: an operation on text that is no UUID changes nothing.
abbrev is_uuid : List ℕ → List ℕ → Bool
is_uuid uuid_str v = elim (parse_uuid uuid_str) [ err e ↦ false | ok u ↦ bytes_eq u v ]

unfoldable pub is_user : List Operation → List ℕ → Bool
is_user [] v = false
is_user (adds uuid_str ∷ earlier) v = is_user earlier v || is_uuid uuid_str v
is_user (removes uuid_str ∷ earlier) v = is_user earlier v && not (is_uuid uuid_str v)
is_user (replaces_cache cache ∷ earlier) v = is_user earlier v
is_user (serves f ∷ earlier) v = is_user earlier v

pub record Tracks (p : Primitives) (s : Service) (ops : List Operation) : Type 0 where
  pub valid : IsService p s
  pub same : (v : List ℕ) → listed v s.users ≡ is_user ops v

module _ (p : Primitives) where
  added :
      (uuid_str : List ℕ) (s : Service) (ops : List Operation)
      → Tracks p s ops
      → Tracks p (add_user p uuid_str s).0 (adds uuid_str ∷ ops)
  unfolding add_user is_user
  added uuid_str s ops t = elim (Result-cases (parse_uuid uuid_str)) [
    | inr (e, q) ↦
        let kept : (add_user p uuid_str s).0 ≡ s = ground (arith, q) in
        rw kept (record { valid = t.valid; same = λ v. ground (arith, q, t.same v) })
    | inl (u, q) ↦ record {
      valid = (add_user_refines p uuid_str u u s t.valid q).1;
      same = λ v. (add_user_refines p uuid_str u v s t.valid q).2 ∙ ground (arith, q, t.same v);
    }
  ]

  removed :
      (uuid_str : List ℕ) (s : Service) (ops : List Operation)
      → Tracks p s ops
      → Tracks p (remove_user p uuid_str s).0 (removes uuid_str ∷ ops)
  unfolding remove_user is_user
  removed uuid_str s ops t = elim (Result-cases (parse_uuid uuid_str)) [
    | inr (e, q) ↦
        let kept : (remove_user p uuid_str s).0 ≡ s = ground (arith, q) in
        rw kept (record { valid = t.valid; same = λ v. ground (arith, q, t.same v) })
    | inl (u, q) ↦ record {
      valid = (remove_user_refines p uuid_str u u s t.valid q).1;
      same = λ v. (remove_user_refines p uuid_str u v s t.valid q).2 ∙ ground (arith, q, t.same v);
    }
  ]

  -- A flow changes at most the cache.
  served_users :
      (kx : KeyExchange) (f : Flow) (s : Service)
      → ((serve p kx f s).0.users ≡ s.users) × ((serve p kx f s).0.lookup ≡ s.lookup)
  unfolding handle_transport offer
  served_users kx f s = elim (Result-cases f.hello) [
    | inr (e, q) ↦ rw q (refl, refl)
    | inl (m, q) ↦ rw q (refl, refl)
  ]

  module _ (kx : KeyExchange) where
    -- After any sequence of AddUser, RemoveUser, SetReplayCache and flows from NewService on, whether they
    -- fail or not, the users are distinct, the lookup is that of the users, and the users are those
    -- that the sequence added and did not remove afterwards.
    pub service_after-Tracks : (ops : List Operation) → Tracks p (service_after p kx ops) ops
    unfolding service_after is_user listed
    service_after-Tracks [] = record {
      valid = record { distinct = tt; current = refl };
      same = λ v. refl;
    }
    service_after-Tracks (adds uuid_str ∷ ops) =
        added uuid_str (service_after p kx ops) ops (service_after-Tracks ops)
    service_after-Tracks (removes uuid_str ∷ ops) =
        removed uuid_str (service_after p kx ops) ops (service_after-Tracks ops)
    service_after-Tracks (replaces_cache cache ∷ ops) =
        let t = service_after-Tracks ops in
        record {
          valid = record { distinct = t.valid.distinct; current = t.valid.current };
          same = t.same;
        }
    service_after-Tracks (serves f ∷ ops) =
        let t = service_after-Tracks ops in
        let kept = served_users kx f (service_after p kx ops) in
        record {
          valid = record {
            distinct = rw (kept.0) (t.valid.distinct);
            current = rw (kept.0, kept.1) (t.valid.current);
          };
          same = λ v. rw (kept.0) (t.same v);
        }

    -- Only users are served: after any sequence of AddUser, RemoveUser, SetReplayCache and flows from
    -- NewService on, a flow whose handler is called has in its metadata a UUID that the sequence added
    -- and did not remove afterwards.
    pub served_is_user :
        (ops : List Operation) (f : Flow) (s' : Service) (d : Dispatch) (sent : List (List ℕ))
        → serve p kx f (service_after p kx ops) ≡ (s', ok d, sent)
        → is_user ops (metadata_of d).user_uuid ≡ true
    served_is_user ops f s' d sent h =
        let t = service_after-Tracks ops in
        let (msg, from, a) =
          handle_transport-IsAdmitted p kx f.times f.x25519_key f.coins f.delivers f.underlying
            f.hello f.first (service_after p kx ops) s' d sent t.valid h in
        let owner : (metadata_of d).user_uuid ≡ a.ch.uuid =
          ap (λ (m : Metadata). m.user_uuid) a.metadata in
        rw owner (sym (t.same a.ch.uuid) ∙ a.member)
