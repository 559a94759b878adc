-- ===== src/Browser/RateLimit/Windows.antt =====
-- authorize_rate_limiter.go: the limit holds in every window, over any calls in order of time.
use Prim.Native.Nat.{min}
use agentnexus.Base.{
  ℕ, ◌+◌, ◌≤◌, ◌<◌, Bool, true, false, not, ◌&&◌, List, [], ◌∷◌, ◌≡◌, refl, ◌∙◌, ap, arith,
  Bool-cases, inl, inr, ◌⊎◌, ◌=ₛ◌, ◌==◌, ltb, eq_iff, if◌then◌else◌,
}
use agentnexus.Runtime.Types.{Time}
use agentnexus.Browser.RateLimit.{
  RateKey, same_key, Counts, RateCall, window_of, key_of, purged, admit, allow_authorize,
  canonical_sha256_hex, refuses,
}

abbrev allows : ℕ → RateCall → Counts → Bool
allows limit c counts = not (refuses (allow_authorize limit c counts).0.1)

-- how many of the calls are allowed for the key
abbrev pub allowed : ℕ → RateKey → List RateCall → Counts → ℕ
allowed limit key [] counts = 0
allowed limit key (c ∷ cs) counts =
    (if allows limit c counts && same_key (key_of c) key then 1 else 0)
    + allowed limit key cs (allow_authorize limit c counts).1

-- a call that is well formed, and whose context is not done
abbrev pub is_proper : RateCall → Bool
is_proper c =
    not (c.enterprise_id =ₛ "")
    && not (c.client_id =ₛ "")
    && canonical_sha256_hex c.source_hash
    && not (refuses c.ctx)

-- how many proper calls the key gets
abbrev pub asked : RateKey → List RateCall → ℕ
asked key [] = 0
asked key (c ∷ cs) = (if is_proper c && same_key (key_of c) key then 1 else 0) + asked key cs

-- The clock never goes back, from a first reading on.
abbrev pub IsTimely : Time → List RateCall → Type 0
IsTimely t [] = Unit
IsTimely t (c ∷ cs) = (t ≤ c.now) × IsTimely c.now cs

window-le : (t u : Time) → t ≤ u → window_of t ≤ window_of u
window-le t u h = omega arith

same_key-≡ : (a b : RateKey) → same_key a b ≡ true → a ≡ b
same_key-≡ a b h = ground (
  arith,
  eq_iff a.enterprise_id b.enterprise_id,
  eq_iff a.client_id b.client_id,
  eq_iff a.source_hash b.source_hash,
)

module _ (limit : ℕ) (key : RateKey) where
  elsewhere :
      (c : RateCall) (t : Time)
      → key.window_start < window_of t
      → t ≤ c.now
      → same_key (key_of c) key ≡ false
  elsewhere c t past later =
      let le = window-le t c.now later in
      let w = window_of c.now in
      let lt : key.window_start < w = omega arith in
      elim (Bool-cases (same_key (key_of c) key)) [ inl e ↦ absurd (clash w lt e) | inr e ↦ e ]
    where
      clash :
          (w : Time)
          → key.window_start < w
          → (c.enterprise_id =ₛ key.enterprise_id
              && c.client_id =ₛ key.client_id
              && c.source_hash =ₛ key.source_hash
              && w == key.window_start)
            ≡ true
          → ⊥
      clash w lt e = ground arith

  -- A window that is over gets no further call.
  over :
      (t : Time) (cs : List RateCall) (counts : Counts)
      → key.window_start < window_of t
      → IsTimely t cs
      → (allowed limit key cs counts ≡ 0) × (asked key cs ≡ 0)
  over t [] counts past timely = (refl, refl)
  over t (c ∷ cs) counts past (later, timely) =
      let e = elsewhere c t past later in
      let le = window-le t c.now later in
      let rest = over c.now cs (allow_authorize limit c counts).1 (omega arith) timely in
      ground arith

  -- A proper call of the key is counted below the limit and refused at it; no other call counts.
  Counted : Bool → Bool → ℕ → ℕ → Type 0
  Counted asks answer before after =
      ((asks ≡ false) × (answer ≡ false) × (after ≡ before))
      ⊎ ((asks ≡ true) × (answer ≡ false) × (after ≡ before) × (limit ≤ before))
      ⊎ ((asks ≡ true) × (answer ≡ true) × (after ≡ before + 1) × (before < limit))

  admitted : (c : RateCall) → Counts → Bool
  admitted c counts = not (refuses (admit limit c counts).0.1)

  kept_key :
      (c : RateCall) (counts : Counts)
      → window_of c.now ≤ key.window_start
      → purged (window_of c.now) counts key ≡ counts key
  kept_key c counts h = ground arith

  admit_effect :
      (c : RateCall) (counts : Counts)
      → window_of c.now ≤ key.window_start
      → Counted
          (same_key (key_of c) key)
          (admitted c counts && same_key (key_of c) key)
          (counts key)
          ((admit limit c counts).1 key)
  unfolding admit admitted Counted
  admit_effect c counts h = elim (Bool-cases (same_key (key_of c) key)) [
    | inl e ↦
        let own =
          ap (purged (window_of c.now) counts) (same_key-≡ (key_of c) key e)
          ∙ kept_key c counts h in
        ground arith
    | inr e ↦ ground arith
  ]

  allow_effect :
      (c : RateCall) (counts : Counts)
      → window_of c.now ≤ key.window_start
      → Counted
          (is_proper c && same_key (key_of c) key)
          (allows limit c counts && same_key (key_of c) key)
          (counts key)
          ((allow_authorize limit c counts).1 key)
  unfolding allow_authorize Counted admitted
  allow_effect c counts h = let admits = admit_effect c counts h in ground arith

  counted_up :
      (t : Time) (cs : List RateCall) (counts : Counts)
      → counts key ≤ limit
      → IsTimely t cs
      → allowed limit key cs counts + counts key ≡ min limit (asked key cs + counts key)
  unfolding Counted
  counted_up t [] counts h timely = omega arith
  counted_up t (c ∷ cs) counts h (later, timely) =
      elim (Bool-cases (ltb key.window_start (window_of c.now))) [
        | inl past ↦
            let none_left = over c.now (c ∷ cs) counts (ground arith) (omega arith, timely) in
            ground arith
        | inr present ↦
            let one = allow_effect c counts (ground arith) in
            let rest =
              counted_up c.now cs (allow_authorize limit c counts).1 (ground arith) timely in
            ground arith
      ]

-- Of calls in order of time, from no counts: for every key, which names a window of one minute,
-- the limiter allows exactly the proper calls of the key up to its limit, whatever calls of other
-- keys stand between them.
pub allowed-min :
    (limit : ℕ) (key : RateKey) (t : Time) (cs : List RateCall)
    → IsTimely t cs
    → allowed limit key cs (λ k. 0) ≡ min limit (asked key cs)
allowed-min limit key t cs timely =
    let all = counted_up limit key t cs (λ k. 0) (omega arith) timely in omega arith
