-- ===== src/PacketConn/Interleaving/Order.antt =====
-- The order of the frames of concurrent writers.
use sing_ewp.Errors.{err}
use sing_ewp.SecureStream.{SendEnv}
use sing_ewp.Crypto.{Primitives}
use sing_ewp.PacketConn.Interleaving.Outcome.{
  IsFrame, write_opening-cases, write_data-keeps, Opening, was_open, failed, opens,
}
use sing_ewp.PacketConn.{PacketConn, must_open, write_data, Written}
use sing_ewp.Frame.{udp_new, udp_data}
use sing_ewp.Address.{Address}
use sing_ewp.PacketConn.Interleaving.{
  sending, Pc, set_pc, after_test, System, Step, returned, Reach, written_by, initial, ready, call,
  open_session, send_datagram, call_again, other_call, then_step, at_start,
}
use sing_ewp.Prelude.{
  ◌≡◌, ◌∷◌, ℕ, refl, inr, inl, [], false, Bool-cases, ◌==◌, List, ◌++◌, arith, true, Bool, ◌⊎◌, All,
  All-append, ap, append-nil, ◌∙◌, subst,
}

-- One UDP_NEW of the session comes first, once it is open, and then UDP_DATA of the session only.
abbrev IsOrder : Primitives → List ℕ → Bool → List (List ℕ) → Type 0
IsOrder p gid opened sent =
    (opened ≡ false × sent ≡ [])
    ⊎ (opened ≡ true
        × (first : List ℕ) × (later : List (List ℕ)) × (sent ≡ first ∷ later)
        × IsFrame p udp_new gid first
        × All (IsFrame p udp_data gid) later)

record IsOrdered (p : Primitives) (gid : List ℕ) (s : System) : Type 0 where
  client : s.conn.is_server ≡ false
  own : s.conn.global_id ≡ gid
  order : IsOrder p gid s.conn.opened s.sent
  senders :
      (i : ℕ) (b : List ℕ) (target : Address) → s.pc i ≡ sending b target → s.conn.opened ≡ true

-- Only goroutine `i` moves.
set_pc-sending :
    (i j : ℕ) (x : Pc) (pc : ℕ → Pc) (b : List ℕ) (target : Address)
    → set_pc i x pc j ≡ sending b target
    → (x ≡ sending b target) ⊎ (pc j ≡ sending b target)
set_pc-sending i j x pc b target h = elim (Bool-cases (j == i)) [
  | inl e ↦ inl (ground (arith, e, h))
  | inr e ↦ inr (ground (arith, e, h))
]

after_test-sending :
    (c : PacketConn) (b b' : List ℕ) (target target' : Address)
    → c.is_server ≡ false
    → after_test c b target ≡ sending b' target'
    → c.opened ≡ true
after_test-sending c b b' target target' client h = ground (arith, client, h)

IsOrder-new :
    (p : Primitives) (gid wire : List ℕ) (o : Bool) (sent : List (List ℕ))
    → o ≡ false
    → IsFrame p udp_new gid wire
    → IsOrder p gid o sent
    → IsOrder p gid true (sent ++ (wire ∷ []))
IsOrder-new p gid wire o sent h frame (inl (e, w)) = inr (refl, wire, [], rw w refl, frame, tt)
IsOrder-new p gid wire o sent h frame (inr (e, first, later, w, new, all)) =
    absurd (ground (arith, e, h))

IsOrder-data :
    (p : Primitives) (gid : List ℕ) (o : Bool) (sent msgs : List (List ℕ))
    → o ≡ true
    → All (IsFrame p udp_data gid) msgs
    → IsOrder p gid o sent
    → IsOrder p gid o (sent ++ msgs)
IsOrder-data p gid o sent msgs h frames (inl (e, w)) = absurd (ground (arith, e, h))
IsOrder-data p gid o sent msgs h frames (inr (e, first, later, w, new, all)) = inr (
  e,
  first,
  later ++ msgs,
  rw w refl,
  new,
  All-append (IsFrame p udp_data gid) later msgs all frames,
)

module _ (p : Primitives) (gid : List ℕ) where
  -- A goroutine that comes out of the mutex.
  opened_by :
      (i : ℕ) (s : System) (w : Written)
      → Opening p s.conn w
      → IsOrdered p gid s
      → IsOrdered p gid (written_by i w s)
  opened_by i s w (was_open n o e) k = rw e (record {
    client = k.client;
    own = k.own;
    order = rw append-nil k.order;
    senders = λ j b target h. o;
  })
  opened_by i s w (failed stream x o e) k = rw e (record {
    client = k.client;
    own = k.own;
    order = rw append-nil k.order;
    senders = λ j b target h. elim (set_pc-sending i j (returned (err x)) s.pc b target h) [
      | inl q ↦ absurd (ground arith)
      | inr q ↦ k.senders j b target q
    ];
  })
  opened_by i s w (opens stream wire n o frame e) k = rw e (record {
    client = k.client;
    own = k.own;
    order =
        IsOrder-new p gid wire s.conn.opened s.sent o
          (subst (λ g. IsFrame p udp_new g wire) k.own frame) k.order;
    senders = λ j b target h. refl;
  })

  sent_by :
      (i : ℕ) (env : SendEnv) (b : List ℕ) (target : Address) (s : System)
      → s.pc i ≡ sending b target
      → IsOrdered p gid s
      → IsOrdered p gid (written_by i (write_data p env b target s.conn) s)
  sent_by i env b target s h k =
      let (stream, e, frames) = write_data-keeps p env b target s.conn in
      let o = k.senders i b target h in
      let w = write_data p env b target s.conn in
      let same : w.0.opened ≡ s.conn.opened = ap (λ (c : PacketConn). c.opened) e in
      let role : w.0.is_server ≡ s.conn.is_server = ap (λ (c : PacketConn). c.is_server) e in
      let id : w.0.global_id ≡ s.conn.global_id = ap (λ (c : PacketConn). c.global_id) e in
      record {
        client = role ∙ k.client;
        own = id ∙ k.own;
        order = rw same (
            IsOrder-data p gid s.conn.opened s.sent w.1 o
              (subst (λ g. All (IsFrame p udp_data g) w.1) k.own frames) k.order);
        senders = λ j b' target' q. same ∙ o;
      }

  Step-IsOrdered : {s t : System} → Step p s t → IsOrdered p gid s → IsOrdered p gid t
  Step-IsOrdered {s} (call i b target h e) k = rw e (record {
    client = k.client;
    own = k.own;
    order = k.order;
    senders = λ j b' target' q.
        elim (set_pc-sending i j (after_test s.conn b target) s.pc b' target' q) [
          | inl x ↦ after_test-sending s.conn b b' target target' k.client x
          | inr x ↦ k.senders j b' target' x
        ];
  })
  Step-IsOrdered {s} (open_session i env b h e) k =
      rw e (opened_by i s _ (write_opening-cases p env b s.conn) k)
  Step-IsOrdered {s} (send_datagram i env b target h e) k = rw e (sent_by i env b target s h k)
  Step-IsOrdered {s} (call_again i r h e) k = rw e (record {
    client = k.client;
    own = k.own;
    order = k.order;
    senders = λ j b target q. elim (set_pc-sending i j ready s.pc b target q) [
      | inl x ↦ absurd (ground arith)
      | inr x ↦ k.senders j b target x
    ];
  })
  Step-IsOrdered {s} (other_call stream e) k =
      rw e (record { client = k.client; own = k.own; order = k.order; senders = k.senders })

  Reach-IsOrdered : {s t : System} → Reach p s t → IsOrdered p gid s → IsOrdered p gid t
  Reach-IsOrdered at_start k = k
  Reach-IsOrdered (then_step r m) k = Step-IsOrdered m (Reach-IsOrdered r k)

module _ (p : Primitives) where
  -- However the writers of a fresh client interleave with each other and with other calls that change
  -- the stream, the messages that they give to the transport are none, as long as the session is not
  -- open, or one UDP_NEW of the session and then UDP_DATA of the session only.
  pub udp_new_once_first :
      (c : PacketConn) (t : System)
      → must_open c ≡ true
      → Reach p (initial c) t
      → (t.conn.opened ≡ false × t.sent ≡ [])
        ⊎ (t.conn.opened ≡ true
            × (first : List ℕ) × (later : List (List ℕ)) × (t.sent ≡ first ∷ later)
            × IsFrame p udp_new c.global_id first
            × All (IsFrame p udp_data c.global_id) later)
  udp_new_once_first c t h r =
      (Reach-IsOrdered p c.global_id r (record {
        client = ground (arith, h);
        own = refl;
        order = inl (ground (arith, h), refl);
        senders = λ i b target q. absurd (ground (arith, q));
      })).order
