-- ===== src/SecureStream/Tcp.antt =====
-- SendTCPData: the chunks of a payload, and what the other side puts together from them.
-- Recv of each message in turn, until one fails: the events, and the stream after them.
use sing_ewp.Prelude.Int.{negsuc}
use sing_ewp.Crypto.Random.{FillsBuffer, Reader}
use sing_ewp.SecureStream.Delivery.{frame_arrives, frame_of, Linked, count_received}
use sing_ewp.PaddingPolicy.Bounds.{secure_rand_intn-lt}
use sing_ewp.Frame.{tcp_data}
use sing_ewp.Prelude.{
  refl, length, ◌-◌, ℕ, ◌∷◌, arith, All, none, ◌++◌, [], ◌+◌, List, zero, ◌≤◌, ◌∙◌, ◌≡◌, suc, ◌<◌,
  Bool-cases, append-nil, inr, take-append-drop, take, inl, drop, length-drop, Option-cases, leb,
  subst,
}
use sing_ewp.Errors.{Result, ok, ◌>>=◌}
use sing_ewp.SecureStream.Datagrams.{deliver_ok}
use sing_ewp.Crypto.{Primitives, IsLawful}
use sing_ewp.SecureStream.{
  bare_event, reshape_min, reshape_max, chunk_size, send_frame, send_chunks, SecureStream, Event,
  event_of, SendEnv, recv_event, reshape_threshold, send_tcp_data,
}

unfoldable pub recv_all :
    (p : Primitives) → List (List ℕ) → SecureStream → Result (List Event × SecureStream)
recv_all p [] r = ok ([], r)
recv_all p (m ∷ ms) r =
    let (r', x) = recv_event p (ok m) r in
    let rest = recv_all p ms r' in x >>= λ ev. rest >>= λ (evs, r''). ok (ev ∷ evs, r'')

-- The bytes that a reader of the stream gets.
unfoldable pub payloads : List Event → List ℕ
payloads [] = []
payloads (ev ∷ evs) = ev.payload ++ payloads evs

-- The receiver gets exactly these bytes, in TCP frames, and the streams are linked after it.
pub record Received (p : Primitives) (payload : List ℕ) (msgs : List (List ℕ)) (s' r : SecureStream)
    : Type 0 where
  pub events : List Event
  pub r' : SecureStream
  pub all : recv_all p msgs r ≡ ok (events, r')
  pub whole : payloads events ≡ payload
  pub tcp : All (λ (ev : Event). ev.type ≡ tcp_data) events
  pub link : Linked s' r'

-- A chunk is not empty, at most 12288 bytes long, and no longer than what is left.
pub chunk_size_bounds :
    (cut : Reader) (n : ℕ)
    → 0 < n
    → (0 < chunk_size cut n) × (chunk_size cut n ≤ n) × (chunk_size cut n ≤ reshape_max)
unfolding chunk_size
chunk_size_bounds cut n h =
    ground (arith, secure_rand_intn-lt cut (reshape_max - reshape_min + 1) (omega arith))

event_of_tcp :
    (s : SecureStream) (payload : List ℕ)
    → event_of (frame_of s tcp_data [] payload) ≡ ok (bare_event (frame_of s tcp_data [] payload))
unfolding event_of
event_of_tcp s payload = refl

module _ (p : Primitives) (lawful : IsLawful p) where
  pub recv_all-more :
      (wire : List ℕ) (more : List (List ℕ)) (r r' r'' : SecureStream) (ev : Event)
      (evs : List Event)
      → recv_event p (ok wire) r ≡ (r', ok ev)
      → recv_all p more r' ≡ ok (evs, r'')
      → recv_all p (wire ∷ more) r ≡ ok (ev ∷ evs, r'')
  unfolding recv_all
  recv_all-more wire more r r' r'' ev evs h k = rw (h, k)

  pub nothing_Received : (s r : SecureStream) → Linked s r → Received p [] [] s r
  unfolding recv_all payloads
  nothing_Received s r link = record {
    events = [];
    r' = r;
    all = refl;
    whole = refl;
    tcp = tt;
    link = link;
  }

  frame_Received :
      (env : SendEnv) (payload : List ℕ) (s s' r : SecureStream) (msgs : List (List ℕ))
      → FillsBuffer env.fill
      → Linked s r
      → send_frame p env tcp_data [] payload (negsuc 0) s ≡ (s', msgs, none)
      → (wire : List ℕ) × (r' : SecureStream) × (ev : Event) × (msgs ≡ wire ∷ [])
        × (recv_event p (ok wire) r ≡ (r', ok ev))
        × (ev.payload ≡ payload)
        × (ev.type ≡ tcp_data)
        × Linked s' r'
  frame_Received env payload s s' r msgs fills link h =
      let (wire, one, got, link') =
        frame_arrives p lawful env tcp_data [] payload (negsuc 0) s s' r msgs fills link h in
      let r' = count_received s'.send wire r in
      let fr = frame_of s tcp_data [] payload in
      (
        wire,
        r',
        bare_event fr,
        one,
        got ∙ deliver_ok p r' fr (bare_event fr) (event_of_tcp s payload),
        refl,
        refl,
        link',
      )

  -- The first chunk arrives, and so does the rest.
  join_Received :
      (env : SendEnv) (front back : List ℕ) (s s1 s' r : SecureStream) (msgs more : List (List ℕ))
      → FillsBuffer env.fill
      → Linked s r
      → send_frame p env tcp_data [] front (negsuc 0) s ≡ (s1, msgs, none)
      → ((r1 : SecureStream) → Linked s1 r1 → Received p back more s' r1)
      → Received p (front ++ back) (msgs ++ more) s' r
  unfolding payloads
  join_Received env front back s s1 s' r msgs more fills link h rest =
      let (wire, r1, ev, one, got, bytes, kind, link1) =
        frame_Received env front s s1 r msgs fills link h in
      let tail = rest r1 link1 in
      record {
        events = ev ∷ tail.events;
        r' = tail.r';
        all = rw one (recv_all-more wire more r r1 tail.r' ev tail.events got tail.all);
        whole = rw (bytes, tail.whole);
        tcp = (kind, tail.tcp);
        link = tail.link;
      }

  chunks_Received :
      (fuel i : ℕ) (env : ℕ → SendEnv) (payload : List ℕ) (s s' r : SecureStream)
      (msgs : List (List ℕ))
      → ((j : ℕ) → FillsBuffer (env j).fill)
      → length payload ≤ fuel
      → Linked s r
      → send_chunks p fuel i env payload s ≡ (s', msgs, none)
      → Received p payload msgs s' r
  unfolding send_chunks
  chunks_Received fuel i env [] s s' r msgs fills enough link h =
      let same : s ≡ s' = ground (arith, h) in
      let nothing : msgs ≡ [] = ground (arith, h) in
      rw (nothing, ← same) (nothing_Received s r link)
  chunks_Received zero i env (b ∷ bs) s s' r msgs fills enough link h = absurd (omega arith)
  chunks_Received (suc fuel) i env (b ∷ bs) s s' r msgs fills enough link h =
      let n = chunk_size (env i).cut (length (b ∷ bs)) in
      let first = send_frame p (env i) tcp_data [] (take n (b ∷ bs)) (negsuc 0) s in
      let rest = send_chunks p fuel (suc i) env (drop n (b ∷ bs)) first.0 in
      let bounds = chunk_size_bounds (env i).cut (length (b ∷ bs)) (omega arith) in
      let left = length-drop n (b ∷ bs) in
      elim (Option-cases first.2) [
        | inr (x, q) ↦ absurd (ground (arith, q, h))
        | inl q ↦
            let both : msgs ≡ first.1 ++ rest.1 = ground (arith, q, h) in
            let later : rest ≡ (s', rest.1, none) = ground (arith, q, h) in
            let sent : first ≡ (first.0, first.1, none) = ground (arith, q) in
            let whole =
              join_Received (env i) (take n (b ∷ bs)) (drop n (b ∷ bs)) s first.0 s' r first.1
                rest.1 (fills i) link sent
                (λ r1 link1.
                  chunks_Received fuel (suc i) env (drop n (b ∷ bs)) first.0 s' r1 rest.1 fills
                    (omega (arith, left, bounds)) link1 later) in
            rw both (
              subst (λ bytes. Received p bytes (first.1 ++ rest.1) s' r)
                (take-append-drop n (b ∷ bs)) whole)
      ]

  -- A payload of any length that SendTCPData sends without an error arrives whole: a linked receiver
  -- that gets the messages in order returns TCP events whose payloads, joined, are the payload, and
  -- the two stay linked.
  pub tcp_data_arrives :
      (env : ℕ → SendEnv) (payload : List ℕ) (s s' r : SecureStream) (msgs : List (List ℕ))
      → ((j : ℕ) → FillsBuffer (env j).fill)
      → Linked s r
      → send_tcp_data p env payload s ≡ (s', msgs, none)
      → Received p payload msgs s' r
  unfolding send_tcp_data
  tcp_data_arrives env payload s s' r msgs fills link h =
      elim (Bool-cases (leb (length payload) reshape_threshold)) [
        | inl e ↦
            let sent : send_frame p (env 0) tcp_data [] payload (negsuc 0) s ≡ (s', msgs, none) =
              ground (arith, e, h) in
            rw (← append-nil payload, ← append-nil msgs)
              (join_Received (env 0) payload [] s s' s' r msgs [] (fills 0) link sent
                (λ r1 link1. nothing_Received s' r1 link1))
        | inr e ↦
            chunks_Received (length payload) 0 env payload s s' r msgs fills (omega arith) link
              (ground (arith, e, h))
      ]
