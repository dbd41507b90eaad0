-- ===== src/SecureStream/Back.antt =====
-- The direction back: what a send and a receive leave as it was.
use sing_ewp.Errors.{ok, Result}
use sing_ewp.SecureStream.Lifecycle.{recv_inv}
use sing_ewp.SecureStream.Datagrams.{meta_built}
use sing_ewp.Prelude.Int.{ℤ, negsuc}
use sing_ewp.SecureStream.{send_with_meta, SecureStream, recv_event, send_frame, Event, SendEnv}
use sing_ewp.Crypto.{Primitives}
use sing_ewp.SecureStream.Delivery.{Linked, send_frame_inv}
use sing_ewp.Prelude.{false, ℕ, sym, none, List, ◌∙◌, ◌≡◌, ap}

module _ (p : Primitives) where
  pub send_keeps :
      (env : SendEnv) (t : ℕ) (meta payload : List ℕ) (pad : ℤ) (s s' : SecureStream)
      (msgs : List (List ℕ))
      → send_frame p env t meta payload pad s ≡ (s', msgs, none)
      → (s'.recv ≡ s.recv) × (s'.closed ≡ false)
  send_keeps env t meta payload pad s s' msgs h =
      let i = send_frame_inv p env t meta payload pad s s' msgs h in
      (
        ap (λ (x : SecureStream). x.recv) i.state,
        ap (λ (x : SecureStream). x.closed) i.state ∙ i.was_open,
      )

  pub recv_keeps :
      (wire : List ℕ) (r r' : SecureStream) (ev : Event)
      → recv_event p (ok wire) r ≡ (r', ok ev)
      → r'.send ≡ r.send
  recv_keeps wire r r' ev h =
      let d = recv_inv p wire r r' ev h in ap (λ (x : SecureStream). x.send) d.state

  -- A frame that was sent and received leaves the streams linked in the other direction.
  pub back-Linked :
      (env : SendEnv) (t : ℕ) (meta payload : List ℕ) (pad : ℤ) (s s' r r' : SecureStream)
      (msgs : List (List ℕ)) (wire : List ℕ) (ev : Event)
      → Linked r s
      → send_frame p env t meta payload pad s ≡ (s', msgs, none)
      → recv_event p (ok wire) r ≡ (r', ok ev)
      → Linked r' s'
  back-Linked env t meta payload pad s s' r r' msgs wire ev link h g =
      let k = send_keeps env t meta payload pad s s' msgs h in
      let e = recv_keeps wire r r' ev g in
      record { same = e ∙ (link.same ∙ sym (k.0)); in_range = rw e link.in_range; opened = k.1 }

  -- The same for a frame with a meta that is built first.
  pub back-Linked_meta :
      (env : SendEnv) (t : ℕ) (m : Result (List ℕ)) (payload : List ℕ) (s s' r r' : SecureStream)
      (msgs : List (List ℕ)) (wire : List ℕ) (ev : Event)
      → Linked r s
      → send_with_meta p env t m payload s ≡ (s', msgs, none)
      → recv_event p (ok wire) r ≡ (r', ok ev)
      → Linked r' s'
  back-Linked_meta env t m payload s s' r r' msgs wire ev link h g =
      let (meta, built, sent) = meta_built p env t m payload s s' msgs h in
      back-Linked env t meta payload (negsuc 0) s s' r r' msgs wire ev link sent g
