-- ===== src/Middleware/Session/Fresh.antt =====
-- No call returns a version from before the last invalidation.
use orkai.Prelude.{
  ℕ, ◌+◌, ◌%◌, ◌^◌, ◌≤◌, ◌<◌, ◌≡◌, refl, sym, subst, Option, none, some, List, [], ◌∷◌, length,
  ◌==◌, ==_iff, ==_refl, Bool-cases, inl, inr, arith,
}
use orkai.Middleware.Session.{
  CacheEntry, Call, idle, reading, read, State, set, Event, bump, invalidate, look, fetch, fail,
  store, hit, look_in, fetch_in, store_in, step, run, answer, answer_hit, answer_read, start, ttl,
}

module _ (u floor : ℕ) where
  -- A call for the user holds a counter of the past, and a version that is new enough if the counter
  -- still stands.
  abbrev CallOk : ℕ → Call → Type 0
  CallOk inv idle = Unit {0}
  CallOk inv (reading user gen now) = user ≡ u → gen ≤ inv
  CallOk inv (read user gen now v) = user ≡ u → (gen ≤ inv) × (inv ≡ gen → floor ≤ v)

  abbrev EntryOk : Option CacheEntry → Type 0
  EntryOk none = Unit {0}
  EntryOk (some e) = floor ≤ e.version

  record Fresh (s : State) : Type 0 where
    in_db : floor ≤ s.versions u
    entry : EntryOk (s.cache u)
    calls : (c : ℕ) → CallOk (s.invalidations u) (s.calls c)

set-all :
    {A : Type 0} (P : A → Type 0) (k : ℕ) (a : A) (f : ℕ → A)
    → P a
    → ((j : ℕ) → P (f j))
    → (j : ℕ) → P (set k a f j)
set-all P k a f h all j = elim (Bool-cases (j == k)) [ inl e ↦ rw e h | inr e ↦ rw e (all j) ]

set-at :
    {A : Type 0} (P : A → Type 0) (k : ℕ) (a : A) (f : ℕ → A) (j : ℕ)
    → (j ≡ k → P a)
    → P (f j)
    → P (set k a f j)
set-at P k a f j h other = elim (Bool-cases (j == k)) [
  | inl e ↦ rw e (h ((==_iff j k).0 e))
  | inr e ↦ rw e other
]

module _ (u floor : ℕ) where
  bump-Fresh : (user : ℕ) (s : State) → Fresh u floor s → Fresh u floor (step (bump user) s)
  unfolding step
  bump-Fresh user s h = record {
    in_db =
        set-at (λ v. floor ≤ v) user (s.versions user + 1) s.versions u
          (λ e. omega (arith, (rw e at h.in_db))) h.in_db;
    entry = h.entry;
    calls = h.calls;
  }

  look-Fresh :
      (c user now : ℕ) (o : Option ℕ) (s : State)
      → Fresh u floor s
      → Fresh u floor (look_in c user now o s)
  look-Fresh c user now (some v) s h = h
  look-Fresh c user now none s h = record {
    in_db = h.in_db;
    entry = h.entry;
    calls =
        set-all (CallOk u floor (s.invalidations u)) c (reading user (s.invalidations user) now)
          s.calls (λ e. rw e (omega arith)) h.calls;
  }

  fetch-Fresh :
      (c : ℕ) (k : Call) (s : State)
      → CallOk u floor (s.invalidations u) k
      → Fresh u floor s
      → Fresh u floor (fetch_in c k s)
  fetch-Fresh c idle s k h = h
  fetch-Fresh c (read user gen now v) s k h = h
  fetch-Fresh c (reading user gen now) s k h = record {
    in_db = h.in_db;
    entry = h.entry;
    calls =
        set-all (CallOk u floor (s.invalidations u)) c (read user gen now (s.versions user)) s.calls
          (λ e. (k e, λ _. rw e h.in_db)) h.calls;
  }

  store-Fresh :
      (c : ℕ) (k : Call) (s : State)
      → CallOk u floor (s.invalidations u) k
      → Fresh u floor s
      → Fresh u floor (store_in c k s)
  store-Fresh c idle s k h = h
  store-Fresh c (reading user gen now) s k h = h
  store-Fresh c (read user gen now v) s k h =
      let done = set-all (CallOk u floor (s.invalidations u)) c idle s.calls tt h.calls in
      elim (Bool-cases (s.invalidations user == gen)) [
        | inl b ↦ rw b (record {
          in_db = h.in_db;
          entry =
              set-at (EntryOk u floor) user (some (record { version = v; expires = now + ttl }))
                s.cache u
                (λ e. (k (sym e)).1 (rw (sym e) at ((==_iff (s.invalidations user) gen).0 b)))
                h.entry;
          calls = done;
        })
        | inr b ↦ rw b (record { in_db = h.in_db; entry = h.entry; calls = done })
      ]

at_most : (n : ℕ) → n % 2 ^ 64 ≤ n
at_most n = omega arith

no_wrap : (n : ℕ) → n + 1 < 2 ^ 64 → (n + 1) % 2 ^ 64 ≡ n + 1
no_wrap n h = omega arith

module _ (u old floor : ℕ) where
  -- After an invalidation no call in flight can store what it has read.
  renewed :
      (inv : ℕ) (k : Call)
      → inv + 1 < 2 ^ 64
      → CallOk u old inv k
      → CallOk u floor ((inv + 1) % 2 ^ 64) k
  renewed inv idle b h = tt
  renewed inv (reading user gen now) b h = λ e. rw (no_wrap inv b) (omega (arith, h e))
  renewed inv (read user gen now v) b h =
      λ e. rw (no_wrap inv b) (omega (arith, (h e).0), λ p. absurd (omega (arith, p, (h e).0)))

  invalidate-calls :
      (user : ℕ) (s : State)
      → s.invalidations u + 1 < 2 ^ 64
      → (u ≡ user)
      → ((c : ℕ) → CallOk u old (s.invalidations u) (s.calls c))
      → (c : ℕ) → CallOk u floor ((s.invalidations user + 1) % 2 ^ 64) (s.calls c)
  invalidate-calls user s b e h c =
      subst (λ x. CallOk u floor ((s.invalidations x + 1) % 2 ^ 64) (s.calls c)) e
        (renewed (s.invalidations u) (s.calls c) b (h c))

module _ (u floor : ℕ) where
  invalidate-Fresh :
      (user : ℕ) (s : State)
      → s.invalidations u + 1 < 2 ^ 64
      → Fresh u floor s
      → Fresh u floor (step (invalidate user) s)
  unfolding step
  invalidate-Fresh user s b h = record {
    in_db = h.in_db;
    entry = set-at (EntryOk u floor) user none s.cache u (λ _. tt) h.entry;
    calls = λ c.
        set-at (λ i. CallOk u floor i (s.calls c)) user ((s.invalidations user + 1) % 2 ^ 64)
          s.invalidations u (λ e. invalidate-calls u floor floor user s b e h.calls c) (h.calls c);
  }

  step-Fresh :
      (ev : Event) (s : State)
      → s.invalidations u + 1 < 2 ^ 64
      → Fresh u floor s
      → Fresh u floor (step ev s)
  unfolding step
  step-Fresh (bump user) s b h = bump-Fresh u floor user s h
  step-Fresh (invalidate user) s b h = invalidate-Fresh user s b h
  step-Fresh (look c user now) s b h = look-Fresh u floor c user now (hit (s.cache user) now) s h
  step-Fresh (fetch c) s b h = fetch-Fresh u floor c (s.calls c) s (h.calls c) h
  step-Fresh (fail c) s b h = record {
    in_db = h.in_db;
    entry = h.entry;
    calls = set-all (CallOk u floor (s.invalidations u)) c idle s.calls tt h.calls;
  }
  step-Fresh (store c) s b h = store-Fresh u floor c (s.calls c) s (h.calls c) h

  -- Invalidation of the user: what is in the database then is the least that is left.
  invalidated :
      (s : State)
      → s.invalidations u + 1 < 2 ^ 64
      → Fresh u 0 s
      → Fresh u (s.versions u) (step (invalidate u) s)
  unfolding step
  invalidated s b h = record {
    in_db = omega arith;
    entry = rw (==_refl u) tt;
    calls = λ c. rw (==_refl u) (invalidate-calls u 0 (s.versions u) u s b refl h.calls c);
  }

  look-invalidations :
      (c user now : ℕ) (o : Option ℕ) (s : State)
      → (look_in c user now o s).invalidations u ≡ s.invalidations u
  look-invalidations c user now none s = refl
  look-invalidations c user now (some v) s = refl

  fetch-invalidations :
      (c : ℕ) (k : Call) (s : State) → (fetch_in c k s).invalidations u ≡ s.invalidations u
  fetch-invalidations c idle s = refl
  fetch-invalidations c (reading user gen now) s = refl
  fetch-invalidations c (read user gen now v) s = refl

  store-invalidations :
      (c : ℕ) (k : Call) (s : State) → (store_in c k s).invalidations u ≡ s.invalidations u
  store-invalidations c idle s = refl
  store-invalidations c (reading user gen now) s = refl
  store-invalidations c (read user gen now v) s = elim (Bool-cases (s.invalidations user == gen)) [
    | inl b ↦ rw b refl
    | inr b ↦ rw b refl
  ]

  invalidations-step :
      (ev : Event) (s : State) → (step ev s).invalidations u ≤ s.invalidations u + 1
  unfolding step
  invalidations-step (bump user) s = omega arith
  invalidations-step (invalidate user) s =
      set-at (λ i. i ≤ s.invalidations u + 1) user ((s.invalidations user + 1) % 2 ^ 64)
        s.invalidations u (λ e. rw e (at_most (s.invalidations user + 1))) (omega arith)
  invalidations-step (look c user now) s =
      omega (arith, look-invalidations c user now (hit (s.cache user) now) s)
  invalidations-step (fetch c) s = omega (arith, fetch-invalidations c (s.calls c) s)
  invalidations-step (fail c) s = omega arith
  invalidations-step (store c) s = omega (arith, store-invalidations c (s.calls c) s)

  answer_hit_sound :
      (user v : ℕ) (o : Option ℕ) → answer_hit user o ≡ some (u, v) → (user ≡ u) × (o ≡ some v)
  answer_hit_sound user v none e = cc
  answer_hit_sound user v (some x) e = (cc, cc)

  hit_sound :
      (now v : ℕ) (o : Option CacheEntry) → EntryOk u floor o → hit o now ≡ some v → floor ≤ v
  hit_sound now v none k e = cc
  hit_sound now v (some x) k e = ground arith

  same_answer :
      (user v' v : ℕ)
      → ◌≡◌ {A = Option (ℕ × ℕ)} (some (user, v')) (some (u, v))
      → (user ≡ u) × (v' ≡ v)
  same_answer user v' v e = (cc, cc)

  answer_read_sound :
      (v : ℕ) (k : Call) (s : State)
      → CallOk u floor (s.invalidations u) k
      → answer_read k s ≡ some (u, v)
      → floor ≤ v
  answer_read_sound v idle s k e = cc
  answer_read_sound v (reading user gen now) s k e = cc
  answer_read_sound v (read user gen now v') s k e =
      elim (Bool-cases (s.invalidations user == gen)) [
        | inr b ↦ cc (rw b at e)
        | inl b ↦
            let (same, v_of) = same_answer user v' v (rw b at e) in
            omega (arith, v_of, (k same).1 (rw same at ((==_iff (s.invalidations user) gen).0 b)))
      ]

  answer-Fresh :
      (ev : Event) (s : State) (v : ℕ) → Fresh u floor s → answer ev s ≡ some (u, v) → floor ≤ v
  unfolding answer
  answer-Fresh (bump user) s v h e = cc
  answer-Fresh (invalidate user) s v h e = cc
  answer-Fresh (look c user now) s v h e =
      let (same, v_of) = answer_hit_sound user v (hit (s.cache user) now) e in
      hit_sound now v (s.cache u) h.entry (rw same at v_of)
  answer-Fresh (fetch c) s v h e = cc
  answer-Fresh (fail c) s v h e = cc
  answer-Fresh (store c) s v h e = answer_read_sound v (s.calls c) s (h.calls c) e

  run-Fresh :
      (evs : List Event) (s : State)
      → s.invalidations u + length evs < 2 ^ 64
      → Fresh u floor s
      → Fresh u floor (run evs s)
  unfolding run
  run-Fresh [] s b h = h
  run-Fresh (ev ∷ evs) s b h =
      run-Fresh evs (step ev s) (omega (arith, b, invalidations-step ev s))
        (step-Fresh ev s (omega (arith, b)) h)

  invalidations-run :
      (evs : List Event) (s : State) → (run evs s).invalidations u ≤ s.invalidations u + length evs
  unfolding run
  invalidations-run [] s = omega arith
  invalidations-run (ev ∷ evs) s =
      omega (arith, invalidations-run evs (step ev s), invalidations-step ev s)

start-Fresh : (u : ℕ) (versions : ℕ → ℕ) → Fresh u 0 (start versions)
start-Fresh u versions = record { in_db = omega arith; entry = tt; calls = λ c. tt }

-- However the steps of the calls in one server come between each other, and between bumps of
-- versions and invalidations, no step after `Invalidate(user)` returns a version of the user older
-- than the database had at that point, if there are fewer than 2^64 events.
pub answer-fresh :
    (u : ℕ) (versions : ℕ → ℕ) (before after : List Event) (last : Event) (v : ℕ)
    → length before + 1 + length after < 2 ^ 64
    → let s = run before (start versions) in
      answer last (run after (step (invalidate u) s)) ≡ some (u, v) → s.versions u ≤ v
answer-fresh u versions before after last v bound e =
    let s = run before (start versions) in
    let seen = invalidations-run u 0 before (start versions) in
    let s0 =
      run-Fresh u 0 before (start versions) (omega (arith, bound)) (start-Fresh u versions) in
    let s1 = invalidated u 0 s (omega (arith, bound, seen)) s0 in
    let s2 =
      run-Fresh u (s.versions u) after (step (invalidate u) s)
        (omega (arith, bound, seen, invalidations-step u 0 (invalidate u) s)) s1 in
    answer-Fresh u (s.versions u) last (run after (step (invalidate u) s)) v s2 e
