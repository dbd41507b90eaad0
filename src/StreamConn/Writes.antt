-- ===== src/StreamConn/Writes.antt =====
-- What a write on a stream connection sends.
use sing_ewp.Frame.{tcp_data}
use sing_ewp.Crypto.{IsLawful, Primitives}
use sing_ewp.SecureStream.Delivery.{Linked}
use sing_ewp.Crypto.Random.{FillsBuffer}
use sing_ewp.SecureStream.Tcp.{
  Received, payloads, recv_all, tcp_data_arrives, recv_all-more, nothing_Received,
}
use sing_ewp.Errors.{>>=-eq-ok, ok}
use sing_ewp.SecureStream.{recv_event, SecureStream, Event, send_tcp_data, SendEnv}
use sing_ewp.StreamConn.{write_chunks, max_payload, write_bytes}
use sing_ewp.Prelude.{
  ℕ, length, zero, ◌+◌, suc, ◌∙◌, arith, List, append_assoc, ◌≤◌, none, Option-cases, take, ◌≡◌, ap,
  inr, drop, ◌++◌, length-drop, [], sym, inl, All-append, length-take, ◌∷◌, refl, take-append-drop,
  subst,
}

payloads-append : (xs ys : List Event) → payloads (xs ++ ys) ≡ payloads xs ++ payloads ys
unfolding payloads
payloads-append [] ys = refl
payloads-append (x ∷ xs) ys =
    ap (λ (b : List ℕ). x.payload ++ b) (payloads-append xs ys)
    ∙ sym (append_assoc x.payload (payloads xs) (payloads ys))

module _ (p : Primitives) (lawful : IsLawful p) where
  pub recv_all-append :
      (ms more : List (List ℕ)) (r r1 r2 : SecureStream) (evs later : List Event)
      → recv_all p ms r ≡ ok (evs, r1)
      → recv_all p more r1 ≡ ok (later, r2)
      → recv_all p (ms ++ more) r ≡ ok (evs ++ later, r2)
  unfolding recv_all
  recv_all-append [] more r r1 r2 evs later h k =
      let nil : [] ≡ evs = ground (arith, h) in
      let same : r ≡ r1 = ground (arith, h) in rw (← nil, same) k
  recv_all-append (m ∷ ms) more r r1 r2 evs later h k =
      let x = recv_event p (ok m) r in
      let (ev, e1, h1) = >>=-eq-ok x.1 _ h in
      let (tail, e2, h2) = >>=-eq-ok (recv_all p ms x.0) _ h1 in
      let front : ev ∷ tail.0 ≡ evs = ground (arith, h2) in
      let last : tail.1 ≡ r1 = ground (arith, h2) in
      let rest = recv_all-append ms more x.0 tail.1 r2 tail.0 later e2 (rw last k) in
      rw (← front) (
        recv_all-more p lawful m (ms ++ more) r x.0 r2 ev (tail.0 ++ later) (ground (arith, e1))
          rest)

  Received-append :
      (front back : List ℕ) (msgs more : List (List ℕ)) (s1 s' r : SecureStream)
      → Received p front msgs s1 r
      → ((r1 : SecureStream) → Linked s1 r1 → Received p back more s' r1)
      → Received p (front ++ back) (msgs ++ more) s' r
  Received-append front back msgs more s1 s' r w next =
      let v = next w.r' w.link in
      record {
        events = w.events ++ v.events;
        r' = v.r';
        all = recv_all-append msgs more r w.r' v.r' w.events v.events w.all v.all;
        whole = payloads-append w.events v.events ∙ rw (w.whole, v.whole) refl;
        tcp = All-append (λ (ev : Event). ev.type ≡ tcp_data) w.events v.events w.tcp v.tcp;
        link = v.link;
      }

  chunks-Received :
      (fuel i : ℕ) (env : ℕ → ℕ → SendEnv) (bytes : List ℕ) (s s' r : SecureStream)
      (msgs : List (List ℕ)) (n : ℕ)
      → ((j k : ℕ) → FillsBuffer (env j k).fill)
      → length bytes ≤ fuel
      → Linked s r
      → write_chunks p fuel i env bytes s ≡ (s', msgs, n, none)
      → Received p bytes msgs s' r
  unfolding write_chunks
  chunks-Received fuel i env [] s s' r msgs n fills enough link h =
      let same : s ≡ s' = ground (arith, h) in
      let nothing : msgs ≡ [] = ground (arith, h) in
      rw (nothing, ← same) (nothing_Received p lawful s r link)
  chunks-Received zero i env (b ∷ bs) s s' r msgs n fills enough link h = absurd (omega arith)
  chunks-Received (suc fuel) i env (b ∷ bs) s s' r msgs n fills enough link h =
      let front = take max_payload (b ∷ bs) in
      let back = drop max_payload (b ∷ bs) in
      let first = send_tcp_data p (env i) front s in
      let rest = write_chunks p fuel (suc i) env back first.0 in
      let left = length-drop max_payload (b ∷ bs) in
      elim (Option-cases first.2) [
        | inr (x, q) ↦ absurd (ground (arith, q, h))
        | inl q ↦
            let both : msgs ≡ first.1 ++ rest.1 = ground (arith, q, h) in
            let later : rest ≡ (s', rest.1, rest.2, none) = ground (arith, q, h) in
            let sent : first ≡ (first.0, first.1, none) = ground (arith, q) in
            let arrived =
              tcp_data_arrives p lawful (env i) front s first.0 r first.1 (fills i) link sent in
            let whole = Received-append front back first.1 rest.1 first.0 s' r arrived (λ r1 link1.
              chunks-Received fuel (suc i) env back first.0 s' r1 rest.1 rest.2 fills
                (omega (arith, left)) link1 later) in
            rw both (
              subst (λ x. Received p x (first.1 ++ rest.1) s' r)
                (take-append-drop max_payload (b ∷ bs)) whole)
      ]

module _ (p : Primitives) where
  chunks_count :
      (fuel i : ℕ) (env : ℕ → ℕ → SendEnv) (bytes : List ℕ) (s s' : SecureStream)
      (msgs : List (List ℕ)) (n : ℕ)
      → length bytes ≤ fuel
      → write_chunks p fuel i env bytes s ≡ (s', msgs, n, none)
      → n ≡ length bytes
  unfolding write_chunks
  chunks_count fuel i env [] s s' msgs n enough h = ground (arith, h)
  chunks_count zero i env (b ∷ bs) s s' msgs n enough h = absurd (omega arith)
  chunks_count (suc fuel) i env (b ∷ bs) s s' msgs n enough h =
      let front = take max_payload (b ∷ bs) in
      let back = drop max_payload (b ∷ bs) in
      let first = send_tcp_data p (env i) front s in
      let rest = write_chunks p fuel (suc i) env back first.0 in
      let left = length-drop max_payload (b ∷ bs) in
      let size = length-take max_payload (b ∷ bs) in
      elim (Option-cases first.2) [
        | inr (x, q) ↦ absurd (ground (arith, q, h))
        | inl q ↦
            let count : length front + rest.2 ≡ n = ground (arith, q, h) in
            let later : rest ≡ (s', rest.1, rest.2, none) = ground (arith, q, h) in
            let tail =
              chunks_count fuel (suc i) env back first.0 s' rest.1 rest.2 (omega (arith, left))
                later in
            omega (arith, count, tail, left, size)
      ]

module _ (p : Primitives) (lawful : IsLawful p) where
  -- A Write of any length that returns no error has written all its bytes, and a linked receiver that
  -- gets the messages in order has exactly these bytes in TCP events; the two stay linked.
  pub write_bytes-Received :
      (env : ℕ → ℕ → SendEnv) (bytes : List ℕ) (s s' r : SecureStream) (msgs : List (List ℕ))
      (n : ℕ)
      → ((j k : ℕ) → FillsBuffer (env j k).fill)
      → Linked s r
      → write_bytes p env bytes s ≡ (s', msgs, n, none)
      → Received p bytes msgs s' r × (n ≡ length bytes)
  unfolding write_bytes
  write_bytes-Received env bytes s s' r msgs n fills link h = (
    chunks-Received p lawful (length bytes) 0 env bytes s s' r msgs n fills (omega arith) link h,
    chunks_count p (length bytes) 0 env bytes s s' msgs n (omega arith) h,
  )
