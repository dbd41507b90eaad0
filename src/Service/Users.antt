-- ===== src/Service/Users.antt =====
-- The users of a service are a set, and its lookup is the lookup of that set.
-- No user is listed twice.
use sing_ewp.Crypto.{Primitives}
use sing_ewp.Uuid.{parse_uuid}
use sing_ewp.Errors.{ok}
use sing_ewp.Handshake.{make_uuid_lookup}
use sing_ewp.Service.{listed, remove_first, Service, add_user, remove_user, rebuild_lookup}
use sing_ewp.Prelude.{
  ◌∷◌, bytes_eq, List, ◌≡◌, ◌||◌, none, bytes_eq_iff, inr, inl, not, ◌++◌, [], false, ℕ, ◌&&◌,
  arith, refl, Bool-cases, bytes_eq_refl, true, ◌∙◌, sym,
}

abbrev pub NoDuplicates : List (List ℕ) → Type 0
NoDuplicates [] = Unit
NoDuplicates (u ∷ us) = (listed u us ≡ false) × NoDuplicates us

-- The users differ and the lookup is up to date.
pub record IsService (p : Primitives) (s : Service) : Type 0 where
  pub distinct : NoDuplicates s.users
  pub current : s.lookup ≡ make_uuid_lookup p s.users

listed-append :
    (v u : List ℕ) (us : List (List ℕ)) → listed v (us ++ (u ∷ [])) ≡ (listed v us || bytes_eq u v)
unfolding listed
listed-append v u [] = ground arith
listed-append v u (w ∷ us) = ground (arith, listed-append v u us)

bytes_eq_sym : (xs ys : List ℕ) → bytes_eq xs ys ≡ bytes_eq ys xs
bytes_eq_sym xs ys = ground (arith, bytes_eq_iff xs ys, bytes_eq_iff ys xs)

NoDuplicates-append :
    (u : List ℕ) (us : List (List ℕ))
    → NoDuplicates us
    → listed u us ≡ false
    → NoDuplicates (us ++ (u ∷ []))
unfolding listed
NoDuplicates-append u [] d h = (refl, tt)
NoDuplicates-append u (w ∷ us) d h = (
  ground (arith, listed-append w u us, d.0, h, bytes_eq_sym u w),
  NoDuplicates-append u us d.1 (ground (arith, h)),
)

removed_here :
    (v u w : List ℕ) (us : List (List ℕ))
    → w ≡ u
    → listed w us ≡ false
    → listed v (remove_first u (w ∷ us)) ≡ (listed v (w ∷ us) && not (bytes_eq u v))
unfolding listed remove_first
removed_here v u w us same once = elim (Bool-cases (bytes_eq u v)) [
  | inl e ↦
      let equal : w ≡ v = same ∙ (bytes_eq_iff u v).0 e in
      let gone : listed v us ≡ false = rw equal at once in
      ground (arith, e, same, gone, bytes_eq_refl u)
  | inr e ↦ ground (arith, e, same, bytes_eq_refl u)
]

listed-remove_first :
    (v u : List ℕ) (us : List (List ℕ))
    → NoDuplicates us
    → listed v (remove_first u us) ≡ (listed v us && not (bytes_eq u v))
unfolding listed remove_first
listed-remove_first v u [] d = refl
listed-remove_first v u (w ∷ us) d =
    let first = bytes_eq_iff w u in
    let second = bytes_eq_iff u v in
    let third = bytes_eq_iff w v in
    elim (Bool-cases (bytes_eq w u)) [
      | inl e ↦ removed_here v u w us (first.0 e) d.0
      | inr e ↦ ground (arith, e, listed-remove_first v u us d.1, first, second, third)
    ]

NoDuplicates-remove_first :
    (u : List ℕ) (us : List (List ℕ)) → NoDuplicates us → NoDuplicates (remove_first u us)
unfolding remove_first
NoDuplicates-remove_first u [] d = tt
NoDuplicates-remove_first u (w ∷ us) d = elim (Bool-cases (bytes_eq w u)) [
  | inl e ↦ rw e d.1
  | inr e ↦
      rw e (ground (arith, listed-remove_first w u us d.1, d.0), NoDuplicates-remove_first u us d.1)
]

already :
    (v u : List ℕ) (us : List (List ℕ))
    → listed u us ≡ true
    → listed v us ≡ (listed v us || bytes_eq u v)
already v u us h = elim (Bool-cases (bytes_eq u v)) [
  | inl e ↦
      let found : listed v us ≡ true = rw ((bytes_eq_iff u v).0 e) at h in ground (arith, e, found)
  | inr e ↦ ground (arith, e)
]

absent :
    (v u : List ℕ) (us : List (List ℕ))
    → listed u us ≡ false
    → listed v us ≡ (listed v us && not (bytes_eq u v))
absent v u us h = elim (Bool-cases (bytes_eq u v)) [
  | inl e ↦
      let missing : listed v us ≡ false = rw ((bytes_eq_iff u v).0 e) at h in
      ground (arith, e, missing)
  | inr e ↦ ground (arith, e)
]

add_user_known :
    (p : Primitives) (str u : List ℕ) (s : Service)
    → parse_uuid str ≡ ok u
    → listed u s.users ≡ true
    → add_user p str s ≡ (s, none)
unfolding add_user
add_user_known p str u s h e = ground (arith, h, e)

pub add_user_new :
    (p : Primitives) (str u : List ℕ) (s : Service)
    → parse_uuid str ≡ ok u
    → listed u s.users ≡ false
    → add_user p str s ≡ (rebuild_lookup p (record s { users = s.users ++ (u ∷ []) }), none)
unfolding add_user
add_user_new p str u s h e = ground (arith, h, e)

remove_user_known :
    (p : Primitives) (str u : List ℕ) (s : Service)
    → parse_uuid str ≡ ok u
    → listed u s.users ≡ true
    → remove_user p str s ≡ (rebuild_lookup p (record s { users = remove_first u s.users }), true)
unfolding remove_user
remove_user_known p str u s h e = ground (arith, h, e)

pub remove_user_unknown :
    (p : Primitives) (str u : List ℕ) (s : Service)
    → parse_uuid str ≡ ok u
    → listed u s.users ≡ false
    → remove_user p str s ≡ (s, false)
unfolding remove_user
remove_user_unknown p str u s h e = ground (arith, h, e)

-- AddUser adds the UUID of its argument to the set of users, and no other; it keeps the users distinct
-- and the lookup up to date.
pub add_user_refines :
    (p : Primitives) (uuid_str u v : List ℕ) (s : Service)
    → IsService p s
    → parse_uuid uuid_str ≡ ok u
    → let r = add_user p uuid_str s in
      (r.1 ≡ none) × IsService p r.0 × (listed v r.0.users ≡ (listed v s.users || bytes_eq u v))
add_user_refines p uuid_str u v s w h = elim (Bool-cases (listed u s.users)) [
  | inl e ↦ rw (add_user_known p uuid_str u s h e) (refl, w, already v u s.users e)
  | inr e ↦ rw (add_user_new p uuid_str u s h e) (
    refl,
    record { distinct = NoDuplicates-append u s.users w.distinct e; current = refl },
    listed-append v u s.users,
  )
]

-- RemoveUser takes the UUID of its argument out of the set of users, and no other, and says whether it
-- was there; it keeps the users distinct and the lookup up to date.
pub remove_user_refines :
    (p : Primitives) (uuid_str u v : List ℕ) (s : Service)
    → IsService p s
    → parse_uuid uuid_str ≡ ok u
    → let r = remove_user p uuid_str s in
      (r.1 ≡ listed u s.users)
      × IsService p r.0
      × (listed v r.0.users ≡ (listed v s.users && not (bytes_eq u v)))
remove_user_refines p uuid_str u v s w h = elim (Bool-cases (listed u s.users)) [
  | inl e ↦ rw (remove_user_known p uuid_str u s h e) (
    sym e,
    record { distinct = NoDuplicates-remove_first u s.users w.distinct; current = refl },
    listed-remove_first v u s.users w.distinct,
  )
  | inr e ↦ rw (remove_user_unknown p uuid_str u s h e) (sym e, w, absent v u s.users e)
]
