-- ===== src/StreamConn/Reads.antt =====
-- What the reads of a stream connection return.
use sing_ewp.StreamConn.{read, StreamConn, fill_buffer, is_dropped}
use sing_ewp.Crypto.{Primitives}
use sing_ewp.Errors.{ok, >>=-eq-ok}
use sing_ewp.Prelude.{
  ◌≡◌, All, ◌++◌, List, ℕ, ◌∷◌, ◌<◌, sym, ◌==◌, ap, [], arith, take-append-drop, drop, none, ◌≤◌,
  length-take, subst, inl, inr, refl, Bool-cases, append_assoc, ◌∙◌, length, take, if◌then◌else◌,
  true, Bool, ◌||◌,
}
use sing_ewp.Frame.{tcp_data}
use sing_ewp.SecureStream.Tcp.{recv_all}
use sing_ewp.SecureStream.{Event, recv_event, SecureStream}

pub length-zero : (xs : List ℕ) → length xs ≡ 0 → xs ≡ []
length-zero [] h = refl
length-zero (x ∷ xs) h = absurd (omega arith)

pub append_nil_left : (xs ys : List ℕ) → xs ++ ys ≡ [] → (xs ≡ []) × (ys ≡ [])
append_nil_left [] ys h = (refl, h)
append_nil_left (x ∷ xs) ys h = cc

split_order : (n : ℕ) (xs ys : List ℕ) → take n xs ++ (drop n xs ++ ys) ≡ xs ++ ys
split_order n xs ys =
    sym (append_assoc (take n xs) (drop n xs) ys)
    ∙ ap (λ (x : List ℕ). x ++ ys) (take-append-drop n xs)

-- The types of the events that Read takes or drops.
abbrev pub is_stream_type : ℕ → Bool
is_stream_type t = t == tcp_data || is_dropped t

-- The bytes of an event that Read hands out.
abbrev pub bytes_of : Event → List ℕ
bytes_of ev = if ev.type == tcp_data then ev.payload else []

unfoldable pub tcp_bytes : List Event → List ℕ
tcp_bytes [] = []
tcp_bytes (ev ∷ evs) = bytes_of ev ++ tcp_bytes evs

-- The transport has messages that Recv turns into events that Read takes or drops, with these bytes in
-- all.
pub record Incoming (p : Primitives) (msgs : List (List ℕ)) (s : SecureStream) (bytes : List ℕ)
    : Type 0 where
  pub events : List Event
  pub s' : SecureStream
  pub all : recv_all p msgs s ≡ ok (events, s')
  pub kinds : All (λ (ev : Event). is_stream_type ev.type ≡ true) events
  pub whole : tcp_bytes events ≡ bytes

-- A first message that is received, and the rest.
pub record FirstOf (p : Primitives) (m : List ℕ) (ms : List (List ℕ)) (s : SecureStream)
    (bytes : List ℕ) : Type 0 where
  pub s1 : SecureStream
  pub ev : Event
  pub later : List ℕ
  pub got : recv_event p (ok m) s ≡ (s1, ok ev)
  pub kind : is_stream_type ev.type ≡ true
  pub joined : bytes_of ev ++ later ≡ bytes
  pub rest : Incoming p ms s1 later

pub Incoming-cons :
    (p : Primitives) (m : List ℕ) (ms : List (List ℕ)) (s : SecureStream) (bytes : List ℕ)
    → Incoming p (m ∷ ms) s bytes
    → FirstOf p m ms s bytes
unfolding recv_all tcp_bytes
Incoming-cons p m ms s bytes h =
    let x = recv_event p (ok m) s in
    let (ev, e1, h1) = >>=-eq-ok x.1 _ h.all in
    let (tail, e2, h2) = >>=-eq-ok (recv_all p ms x.0) _ h1 in
    let same : ev ∷ tail.0 ≡ h.events = ground (arith, h2) in
    let kinds : All (λ (e : Event). is_stream_type e.type ≡ true) (ev ∷ tail.0) =
      subst (All (λ (e : Event). is_stream_type e.type ≡ true)) (sym same) h.kinds in
    record {
      s1 = x.0;
      ev = ev;
      later = tcp_bytes tail.0;
      got = ground (arith, e1);
      kind = kinds.0;
      joined = ap tcp_bytes same ∙ h.whole;
      rest = record { events = tail.0; s' = tail.1; all = e2; kinds = kinds.1; whole = refl };
    }

Incoming-nil :
    (p : Primitives) (s : SecureStream) (bytes : List ℕ) → Incoming p [] s bytes → bytes ≡ []
unfolding recv_all tcp_bytes
Incoming-nil p s bytes h =
    let none_left : [] ≡ h.events = ground (arith, h.all) in
    sym h.whole ∙ sym (ap tcp_bytes none_left)

module _ (p : Primitives) where
  -- The buffer is filled from the messages: it has bytes, and what it has comes first.
  pub record Filled (msgs : List (List ℕ)) (c : StreamConn) (bytes : List ℕ) : Type 0 where
    pub c1 : StreamConn
    pub left : List (List ℕ)
    pub more : List ℕ
    pub result : fill_buffer p msgs c ≡ (c1, left, none)
    pub some_bytes : 0 < length c1.read_buf
    pub order : c1.read_buf ++ more ≡ bytes
    pub rest : Incoming p left c1.stream more

  fill_next :
      (m : List ℕ) (ms : List (List ℕ)) (c : StreamConn) (bytes : List ℕ)
      (f : FirstOf p m ms c.stream bytes)
      → 0 < length (bytes_of f.ev)
      → fill_buffer p (m ∷ ms) c ≡ (record { stream = f.s1; read_buf = bytes_of f.ev }, ms, none)
  unfolding fill_buffer
  fill_next m ms c bytes f h = ground (arith, f.got, f.kind, h)

  pub fill_skip :
      (m : List ℕ) (ms : List (List ℕ)) (c : StreamConn) (bytes : List ℕ)
      (f : FirstOf p m ms c.stream bytes)
      → length (bytes_of f.ev) ≡ 0
      → fill_buffer p (m ∷ ms) c ≡ fill_buffer p ms (record c { stream = f.s1 })
  unfolding fill_buffer
  fill_skip m ms c bytes f h = ground (arith, f.got, f.kind, h)

  fill-Filled :
      (msgs : List (List ℕ)) (c : StreamConn) (bytes : List ℕ)
      → Incoming p msgs c.stream bytes
      → 0 < length bytes
      → Filled msgs c bytes
  fill-Filled [] c bytes h nonempty =
      let nothing = ap length (Incoming-nil p c.stream bytes h) in absurd (omega (arith, nothing))
  fill-Filled (m ∷ ms) c bytes h nonempty =
      let f = Incoming-cons p m ms c.stream bytes h in
      elim (Bool-cases (length (bytes_of f.ev) == 0)) [
        | inl e ↦
            let empty : length (bytes_of f.ev) ≡ 0 = ground (arith, e) in
            let same : f.later ≡ bytes =
              ap (λ (x : List ℕ). x ++ f.later) (sym (length-zero (bytes_of f.ev) empty))
              ∙ f.joined in
            let w = fill-Filled ms (record c { stream = f.s1 }) f.later f.rest (rw same nonempty) in
            record {
              c1 = w.c1;
              left = w.left;
              more = w.more;
              result = fill_skip m ms c bytes f empty ∙ w.result;
              some_bytes = w.some_bytes;
              order = w.order ∙ same;
              rest = w.rest;
            }
        | inr e ↦
            let full : 0 < length (bytes_of f.ev) = ground (arith, e) in
            record {
              c1 = record { stream = f.s1; read_buf = bytes_of f.ev };
              left = ms;
              more = f.later;
              result = fill_next m ms c bytes f full;
              some_bytes = full;
              order = f.joined;
              rest = f.rest;
            }
      ]

  -- A read that returns bytes: at least one, no more than asked for, and the first of those that are
  -- still to come.
  pub record InOrder (n : ℕ) (msgs : List (List ℕ)) (c : StreamConn) (bytes : List ℕ) : Type 0 where
    pub c' : StreamConn
    pub left : List (List ℕ)
    pub got : List ℕ
    pub more : List ℕ
    pub result : read p n msgs c ≡ (c', left, ok got)
    pub progress : 0 < length got
    pub within : length got ≤ n
    pub order : got ++ (c'.read_buf ++ more) ≡ c.read_buf ++ bytes
    pub rest : Incoming p left c'.stream more

  read_buffered :
      (n : ℕ) (msgs : List (List ℕ)) (c : StreamConn)
      → 0 < length c.read_buf
      → read p n msgs c ≡ (record c { read_buf = drop n c.read_buf }, msgs, ok (take n c.read_buf))
  unfolding read
  read_buffered n msgs c h = ground (arith, h)

  read_filled :
      (n : ℕ) (msgs left : List (List ℕ)) (c c1 : StreamConn)
      → length c.read_buf ≡ 0
      → fill_buffer p msgs c ≡ (c1, left, none)
      → read p n msgs c
        ≡ (record c1 { read_buf = drop n c1.read_buf }, left, ok (take n c1.read_buf))
  unfolding read
  read_filled n msgs left c c1 h f = ground (arith, h, f)

  -- While bytes are still to come, in the buffer or in TCP frames that the transport has, each Read
  -- into a slice that is not empty returns at least one byte and at most as many as the slice has, and
  -- these are the first of the bytes to come: none is lost, repeated or reordered. Empty frames, pings,
  -- pongs and cover traffic between them are skipped.
  pub read-InOrder :
      (n : ℕ) (msgs : List (List ℕ)) (c : StreamConn) (bytes : List ℕ)
      → 0 < n
      → Incoming p msgs c.stream bytes
      → 0 < length (c.read_buf ++ bytes)
      → InOrder n msgs c bytes
  read-InOrder n msgs c bytes hn h some_left = elim (Bool-cases (length c.read_buf == 0)) [
    | inl e ↦
        let empty : length c.read_buf ≡ 0 = ground (arith, e) in
        let nil : c.read_buf ≡ [] = length-zero c.read_buf empty in
        let w = fill-Filled msgs c bytes h (rw nil at some_left) in
        record {
          c' = record w.c1 { read_buf = drop n w.c1.read_buf };
          left = w.left;
          got = take n w.c1.read_buf;
          more = w.more;
          result = read_filled n msgs w.left c w.c1 empty w.result;
          progress = omega (arith, length-take n w.c1.read_buf, w.some_bytes);
          within = omega (arith, length-take n w.c1.read_buf);
          order =
              split_order n w.c1.read_buf w.more
              ∙ (w.order ∙ sym (ap (λ (x : List ℕ). x ++ bytes) nil));
          rest = w.rest;
        }
    | inr e ↦
        let full : 0 < length c.read_buf = ground (arith, e) in
        record {
          c' = record c { read_buf = drop n c.read_buf };
          left = msgs;
          got = take n c.read_buf;
          more = bytes;
          result = read_buffered n msgs c full;
          progress = omega (arith, length-take n c.read_buf, full);
          within = omega (arith, length-take n c.read_buf);
          order = split_order n c.read_buf bytes;
          rest = h;
        }
  ]
