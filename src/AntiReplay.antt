-- ===== src/AntiReplay.antt =====
-- anti_replay.go: the cache of (UUID, nonce) pairs of recent ClientHellos. The mutex makes each call
-- atomic, so a run of the cache is a sequence of calls. Times are Unix seconds, not negative; a Go map
-- is an association list, whose order the code never reads.
pub mod Entries
pub mod Remember
pub mod Live
mod Tests
use sing_ewp.Kdf.{handshake_timestamp_window}
use sing_ewp.Prelude.{
  some, Bool, ltb, bytes_eq, ◌++◌, ◌^◌, ℕ, if◌then◌else◌, ◌∷◌, false, ◌+◌, Option, length, List,
  none, leb, true, [], ◌%◌,
}

-- ReplayWindow, in seconds
abbrev pub replay_window : ℕ
replay_window = handshake_timestamp_window + 60

abbrev pub gc_interval : ℕ
gc_interval = 1024

unfoldable pub make_replay_key : List ℕ → List ℕ → List ℕ
make_replay_key uuid nonce = uuid ++ nonce

-- map[replayKey]int64, from a key to its expiry
abbrev pub Entries : Type 0
Entries = List (List ℕ × ℕ)

unfoldable pub lookup : List ℕ → Entries → Option ℕ
lookup k [] = none
lookup k ((j, e) ∷ m) = if bytes_eq j k then some e else lookup k m

-- `c.entries[key] = expiry`
unfoldable pub insert : List ℕ → ℕ → Entries → Entries
insert k e [] = (k, e) ∷ []
insert k e ((j, d) ∷ m) = if bytes_eq j k then (k, e) ∷ m else (j, d) ∷ insert k e m

-- gcLocked: expired entries are deleted.
unfoldable pub gc_locked : ℕ → Entries → Entries
gc_locked now [] = []
gc_locked now ((k, e) ∷ m) = let rest = gc_locked now m in if leb e now then rest else (k, e) ∷ rest

pub record ReplayCache : Type 0 where
  pub entries : Entries
  -- int64(c.window / time.Second)
  pub window : ℕ
  pub gc_counter : ℕ

abbrev pub new_replay_cache : ℕ → ReplayCache
new_replay_cache window = record { entries = []; window = window; gc_counter = 0 }

-- `if exp, ok := c.entries[key]; ok && exp > now`
unfoldable pub seen : ℕ → List ℕ → Entries → Bool
seen now k m = elim (lookup k m) [ none ↦ false | some e ↦ ltb now e ]

-- The admission of a new pair, with the sweep on every 1024th.
unfoldable pub admit : ℕ → List ℕ → ReplayCache → ReplayCache
admit now key c =
    let entries = insert key (now + c.window) c.entries in
    let count = (c.gc_counter + 1) % 2 ^ 32 in
    if leb gc_interval count
    then record c { entries = gc_locked now entries; gc_counter = 0 }
    else record c { entries = entries; gc_counter = count }

unfoldable pub mark_seen_or_reject : ℕ → List ℕ → List ℕ → ReplayCache → ReplayCache × Bool
unfolding make_replay_key
mark_seen_or_reject now uuid nonce c =
    let key = make_replay_key uuid nonce in
    if seen now key c.entries then (c, false) else (admit now key c, true)

-- Len
abbrev pub len : ReplayCache → ℕ
len c = length c.entries

-- A call of MarkSeenOrReject: the time, the UUID and the nonce.
pub record Call : Type 0 where
  pub now : ℕ
  pub uuid : List ℕ
  pub nonce : List ℕ

-- The cache after a sequence of calls.
unfoldable pub run : List Call → ReplayCache → ReplayCache
run [] c = c
run (r ∷ rs) c = run rs (mark_seen_or_reject r.now r.uuid r.nonce c).0
