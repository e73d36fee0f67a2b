-- ===== src/Ratelimit/Bounds.antt =====
-- How many buckets a limiter holds (internal/ratelimit/limiter.go).
use bsystem_integration_core.Base.{
  ℕ, suc, ◌≤◌, ◌≡◌, refl, inl, inr, arith, Bool, true, false, ◌||◌, ◌&&◌, not, leb, ltb, Bool-cases,
  Option-cases, some, List, [], ◌∷◌, length, length-keep, keep, any, All, subst, ◌∙◌,
}
use bsystem_integration_core.Base.Int.{ℤ, pos}
use bsystem_integration_core.Base.Text.{str_eq, str_eq_iff, is_empty}
use bsystem_integration_core.Base.Clock.{Time}
use bsystem_integration_core.Ratelimit.{
  Floats, Bucket, Limiter, new_limiter, find_bucket, is_idle, drop_idle, stalest_key, delete_key,
  evict, sweep_locked, set_bucket, take_token, allow, limit, limit_all, is_enabled, refill, tracked,
}
use Prim.Native.String.{String}

module _ {A : Type 0} (P : A → Type 0) where
  All-keep : (p : A → Bool) (xs : List A) → All P xs → All P (keep p xs)
  All-keep p [] h = tt
  All-keep p (x ∷ xs) (px, h) = elim (Bool-cases (p x)) [
    | inl kept ↦ rw (kept, keep) (px, All-keep p xs h)
    | inr dropped ↦ rw (dropped, keep) (All-keep p xs h)
  ]

module _ (f : Floats) where
  abbrev IsNamed : Bucket f → Type 0
  IsNamed b = is_empty b.key ≡ false

  abbrev has_key : String → List (Bucket f) → Bool
  has_key k = any (λ b. str_eq b.key k)

  set_bucket-All :
      (b : Bucket f) (bs : List (Bucket f))
      → IsNamed b
      → All IsNamed bs
      → All IsNamed (set_bucket f b bs)
  unfolding set_bucket
  set_bucket-All b [] n h = (n, tt)
  set_bucket-All b (c ∷ cs) n (nc, h) = elim (Bool-cases (str_eq c.key b.key)) [
    | inl same ↦ rw (same, set_bucket) (n, h)
    | inr other ↦ rw (other, set_bucket) (nc, set_bucket-All b cs n h)
  ]

  length-set_bucket :
      (b : Bucket f) (bs : List (Bucket f)) → length (set_bucket f b bs) ≤ suc (length bs)
  unfolding set_bucket
  length-set_bucket b [] = omega arith
  length-set_bucket b (c ∷ cs) = ground (arith, length-set_bucket b cs)

  length-set_found :
      (b old : Bucket f) (bs : List (Bucket f))
      → find_bucket f b.key bs ≡ some old
      → length (set_bucket f b bs) ≡ length bs
  unfolding set_bucket find_bucket
  length-set_found b old [] h = absurd (cc)
  length-set_found b old (c ∷ cs) h = elim (Bool-cases (str_eq c.key b.key)) [
    | inl same ↦ ground (arith, same)
    | inr other ↦ ground (arith, other, length-set_found b old cs (ground (arith, h, other)))
  ]

  length-delete_key :
      (k : String) (bs : List (Bucket f))
      → has_key k bs ≡ true
      → suc (length (delete_key f k bs)) ≤ length bs
  length-delete_key k [] h = absurd (cc)
  length-delete_key k (b ∷ bs) h = elim (Bool-cases (str_eq b.key k)) [
    | inl same ↦ ground (arith, same, length-keep (λ c. not (str_eq c.key k)) bs)
    | inr other ↦ ground (arith, other, length-delete_key k bs (ground (arith, h, other)))
  ]

  stalest-has_key :
      (key : String) (t : Time) (b : Bucket f) (bs : List (Bucket f))
      → b.key ≡ key
      → has_key (stalest_key f key t bs) (b ∷ bs) ≡ true
  unfolding stalest_key
  stalest-has_key key t b [] e = ground (arith, (str_eq_iff b.key key).1 e)
  stalest-has_key key t b (c ∷ cs) e =
      ground (arith, stalest-has_key c.key c.seen c cs refl, stalest-has_key key t b cs e)

  stalest-IsNamed :
      (key : String) (t : Time) (bs : List (Bucket f))
      → is_empty key ≡ false
      → All IsNamed bs
      → is_empty (stalest_key f key t bs) ≡ false
  unfolding stalest_key
  stalest-IsNamed key t [] n h = n
  stalest-IsNamed key t (c ∷ cs) n (nc, h) =
      ground (arith, stalest-IsNamed c.key c.seen cs nc h, stalest-IsNamed key t cs n h)

  -- A full table whose stalest key is deleted has room again.
  evict_room :
      (m : ℕ) (bs : List (Bucket f))
      → 1 ≤ m
      → length bs ≤ m
      → All IsNamed bs
      → suc (length (evict f m (stalest_key f "" 0 bs) bs)) ≤ m
  unfolding stalest_key
  evict_room m [] some_room h n = ground (arith, some_room)
  evict_room m (b ∷ bs) some_room h (nb, n) = ground (
    arith,
    h,
    stalest-IsNamed b.key b.seen bs nb n,
    length-delete_key (stalest_key f b.key b.seen bs) (b ∷ bs)
        (stalest-has_key b.key b.seen b bs refl),
  )

  -- There is room, and every key is a principal's.
  pub record IsBounded (l : Limiter f) : Type 0 where
    pub within : length l.buckets ≤ l.max_keys
    pub room : 1 ≤ l.max_keys
    pub named : All IsNamed l.buckets

  sweep_room :
      (l : Limiter f) (now : Time) → IsBounded l → suc (length (sweep_locked f l now)) ≤ l.max_keys
  unfolding sweep_locked
  sweep_room l now h =
      let kept = length-keep (λ b. not (is_idle f l now b)) l.buckets in
      elim (Bool-cases (ltb (length l.buckets) l.max_keys)) [
        | inl below ↦ rw (below, sweep_locked) (ground (arith, below, kept))
        | inr full ↦
            rw (full, sweep_locked)
              (evict_room l.max_keys (drop_idle f l now) h.room (omega (arith, kept, h.within))
                (All-keep IsNamed (λ b. not (is_idle f l now b)) l.buckets h.named))
      ]

  evict-All :
      (m : ℕ) (k : String) (bs : List (Bucket f)) → All IsNamed bs → All IsNamed (evict f m k bs)
  evict-All m k bs n = elim (Bool-cases (leb m (length bs) && not (is_empty k))) [
    | inl gone ↦ rw gone (All-keep IsNamed (λ b. not (str_eq b.key k)) bs n)
    | inr stays ↦ rw stays n
  ]

  sweep-All :
      (l : Limiter f) (now : Time) → All IsNamed l.buckets → All IsNamed (sweep_locked f l now)
  unfolding sweep_locked
  sweep-All l now h =
      let live = All-keep IsNamed (λ b. not (is_idle f l now b)) l.buckets h in
      elim (Bool-cases (ltb (length l.buckets) l.max_keys)) [
        | inl below ↦ rw (below, sweep_locked) live
        | inr full ↦ rw (full, sweep_locked) (evict-All l.max_keys _ _ live)
      ]

  take_token-IsBounded :
      (l : Limiter f) (now : Time) (key : String) (tokens : f.Float) (bs : List (Bucket f))
      → 1 ≤ l.max_keys
      → is_empty key ≡ false
      → All IsNamed bs
      → ((t : f.Float)
          → length (set_bucket f (record { key = key; tokens = t; seen = now }) bs) ≤ l.max_keys)
      → IsBounded (take_token f l now key tokens bs).0
  take_token-IsBounded l now key tokens bs r n named within =
      elim (Bool-cases (f.at_least tokens (f.of_int (pos 1)))) [
        | inl enough ↦
            rw enough (record { within = within _; room = r; named = set_bucket-All _ bs n named })
        | inr short ↦
            rw short (record { within = within _; room = r; named = set_bucket-All _ bs n named })
      ]

  allow-IsBounded :
      (l : Limiter f) (now : Time) (key : String)
      → is_empty key ≡ false
      → IsBounded l
      → IsBounded (allow f l now key).0
  unfolding allow
  allow-IsBounded l now key n h = elim (Bool-cases (is_enabled f l)) [
    | inr off ↦ rw (off, allow) h
    | inl on ↦ elim (Option-cases (find_bucket f key l.buckets)) [
      | inl new ↦
          rw (on, allow)
            (rw new (
              take_token-IsBounded l now key l.burst (sweep_locked f l now) h.room n
                (sweep-All l now h.named)
                (λ t. omega (
                  arith,
                  length-set_bucket (record { key = key; tokens = t; seen = now })
                      (sweep_locked f l now),
                  sweep_room l now h,
                ))))
      | inr (old, there) ↦
          rw (on, allow)
            (rw there (
              take_token-IsBounded l now key (refill f l now old) l.buckets h.room n h.named (λ t.
                omega (
                  arith,
                  length-set_found (record { key = key; tokens = t; seen = now }) old l.buckets
                      there,
                  h.within,
                ))))
    ]
  ]

  limit-IsBounded :
      (l : Limiter f) (now : Time) (key : String) → IsBounded l → IsBounded (limit f l now key).0
  unfolding limit
  limit-IsBounded l now key h = elim (Bool-cases (not (is_enabled f l) || is_empty key)) [
    | inl passed ↦ rw (passed, limit) h
    | inr asked ↦ rw (asked, limit) (allow-IsBounded l now key (ground (arith, asked)) h)
  ]

  limit_all-IsBounded :
      (l : Limiter f) (rs : List (Time × String)) → IsBounded l → IsBounded (limit_all f l rs)
  unfolding limit_all
  limit_all-IsBounded l [] h = h
  limit_all-IsBounded l ((now, key) ∷ rs) h =
      limit_all-IsBounded (limit f l now key).0 rs (limit-IsBounded l now key h)

  allow-max_keys :
      (l : Limiter f) (now : Time) (key : String) → (allow f l now key).0.max_keys ≡ l.max_keys
  unfolding allow
  allow-max_keys l now key = ground arith

  limit-max_keys :
      (l : Limiter f) (now : Time) (key : String) → (limit f l now key).0.max_keys ≡ l.max_keys
  unfolding limit
  limit-max_keys l now key = ground (arith, allow-max_keys l now key)

  limit_all-max_keys :
      (l : Limiter f) (rs : List (Time × String)) → (limit_all f l rs).max_keys ≡ l.max_keys
  unfolding limit_all
  limit_all-max_keys l [] = refl
  limit_all-max_keys l ((now, key) ∷ rs) =
      limit_all-max_keys (limit f l now key).0 rs ∙ limit-max_keys l now key

  -- Whatever requests come, of however many principals, at whatever times and whatever the rate and
  -- the burst, a limiter never holds more than ten thousand buckets.
  pub requests_are_bounded :
      (per_minute burst : ℤ) (rs : List (Time × String))
      → tracked f (limit_all f (new_limiter f per_minute burst) rs) ≤ 10000
  unfolding new_limiter
  requests_are_bounded per_minute burst rs =
      let start = new_limiter f per_minute burst in
      let h =
        limit_all-IsBounded start rs
          (record { within = omega arith; room = omega arith; named = tt }) in
      subst (λ m. tracked f (limit_all f start rs) ≤ m) (limit_all-max_keys start rs) h.within
