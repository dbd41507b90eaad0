-- ===== src/Service/History/Tests.antt =====
-- A history: the client's user is added, then another is removed, which was never there.
use sing_ewp.Kdf.{uuid_len}
use sing_ewp.Crypto.Toy.{toy}
use sing_ewp.Prelude.{
  bytes_eq, ap, All-replicate, replicate, ◌≡◌, List, arith, true, false, ◌∷◌, ℕ, length-replicate,
  refl, Bool, [], Option, some,
}
use sing_ewp.Service.History.{
  Operation, adds, removes, service_after, service_after-Tracks, served_is_user, Tracks, is_user,
}
use sing_ewp.Service.Users.{add_user_new, remove_user_unknown}
use sing_ewp.Service.Toy.{toy_service, served, served-ok}
use sing_ewp.Service.Dispatched.{metadata_of}
use sing_ewp.Service.{Service, new_service, listed}
use sing_ewp.Uuid.Canonical.{canonical, parse_uuid-canonical}
use sing_ewp.Handshake.Toy.{times_1, toy_exchange}
use sing_ewp.Hello.Toy.{msg_1, accept_all, user, user-IsArray}
use sing_ewp.Errors.{err, ok, eof, Error}
use sing_ewp.Bytes.{IsArray, IsByte}

abbrev other_user : List ℕ
other_user = replicate 16 171

other_user-IsArray : IsArray uuid_len other_user
other_user-IsArray = (length-replicate 16 171, All-replicate IsByte 16 171 (omega arith))

abbrev ops : List Operation
ops = removes (canonical other_user) ∷ adds (canonical user) ∷ []

user_added : service_after toy toy_exchange (adds (canonical user) ∷ []) ≡ toy_service
unfolding service_after listed
user_added =
    ap (λ (r : Service × Option Error). r.0)
      (add_user_new toy (canonical user) user (new_service toy)
        (parse_uuid-canonical user user-IsArray) refl)

other_removed : service_after toy toy_exchange ops ≡ toy_service
unfolding service_after listed bytes_eq replicate
other_removed = rw user_added (
    ap (λ (r : Service × Bool). r.0)
      (remove_user_unknown toy (canonical other_user) other_user toy_service
        (parse_uuid-canonical other_user other_user-IsArray) refl))

service_after-Tracks_example : Tracks toy (service_after toy toy_exchange ops) ops
service_after-Tracks_example = service_after-Tracks toy toy_exchange ops

served_is_user_example : is_user ops (metadata_of served-ok.0).user_uuid ≡ true
served_is_user_example =
    served_is_user toy toy_exchange ops
      (record {
        times = times_1;
        x25519_key = some (3 ∷ []);
        coins = 4 ∷ [];
        delivers = accept_all;
        underlying = false;
        hello = ok msg_1;
        first = err eof;
      })
      served.0 served-ok.0 served.2
      (rw other_removed (ap (λ r. (served.0, r, served.2)) served-ok.1))
