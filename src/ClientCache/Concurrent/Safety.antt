-- ===== src/ClientCache/Concurrent/Safety.antt =====
-- Mutual exclusion under the mutex, and what it is for.
use cluster_api_provider_clo.World.Types.{VcdClient, ok}
use cluster_api_provider_clo.Api.{ℤ}
use cluster_api_provider_clo.ClientCache.{cache_key, Credentials}
use cluster_api_provider_clo.ClientCache.Concurrent.Moves.{
  two_holders, Move-Fits-other, Move-Owned, Move-holder, Move-Fits, Fits-Inside,
}
use cluster_api_provider_clo.ClientCache.Concurrent.Invariant.{Fits, Inv, Inside, LoggedIn}
use cluster_api_provider_clo.World.{World}
use cluster_api_provider_clo.Base.{
  ℕ, ◌≢◌, ◌≡◌, ==_iff, Bool-cases, ◌⊎◌, none, ◌==◌, Option-cases, some, refl, inl, inr, sym, ◌∙◌,
}
use mathlib.Core.Bool.{true≢false}
use mathlib.Core.Path.{subst}
use mathlib.Core.Option.{none-ne-some}
use cluster_api_provider_clo.ClientCache.Concurrent.{
  outside, waiting, looking, logging, dating, adding, leaving, pick, pass, start, later, Pc,
  ExpireCache, update, Shared, System, Step, Move, Reach,
}

pub update_self : (f : ℕ → Pc) (i : ℕ) (p : Pc) → update f i p i ≡ p
update_self f i p = rw ((==_iff i i).1 refl) refl

pub update-other : (f : ℕ → Pc) (i j : ℕ) (p : Pc) → i ≢ j → update f i p j ≡ f j
update-other f i j p h = elim (Bool-cases (i == j)) [
  | inl e ↦ absurd (h ((==_iff i j).0 e))
  | inr e ↦ rw (e) refl
]

-- The next program counters: the mover's, and the others'.
update-cases :
    (f : ℕ → Pc) (i j : ℕ) (p : Pc)
    → ((i ≡ j) × (update f i p j ≡ p)) ⊎ ((i ≢ j) × (update f i p j ≡ f j))
update-cases f i j p = elim (Bool-cases (i == j)) [
  | inl e ↦ inl ((==_iff i j).0 e, rw (e) refl)
  | inr e ↦
      let h = λ (q : i ≡ j). true≢false (sym ((==_iff i j).1 q) ∙ e) in
      inr (h, update-other f i j p h)
]

module _ {C : Type 0} (lru : ExpireCache C) where
  Later-none : (c d : C) (k : ℕ) → lru.Later c d → lru.get k c ≡ none → lru.get k d ≡ none
  Later-none c d k h e = elim (Option-cases (lru.get k d)) [
    | inl e' ↦ e'
    | inr (v, e') ↦ absurd (none-ne-some v (sym e ∙ lru.get-Later h e'))
  ]

  pass-Fits :
      (m : Shared C) (d : C) (i : ℕ) (p : Pc)
      → lru.Later m.cache d
      → Fits lru i m p
      → Fits lru i (record m { cache = d }) p
  pass-Fits m d i (outside none) h f = f
  pass-Fits m d i (outside (some (c, r))) h f = f
  pass-Fits m d i (waiting c) h f = f
  pass-Fits m d i (looking c) h f = f
  pass-Fits m d i (logging c) h (f, g) = (f, Later-none m.cache d (cache_key c) h g)
  pass-Fits m d i (dating c token) h (f, g, a) = (f, Later-none m.cache d (cache_key c) h g, a)
  pass-Fits m d i (adding c ttl) h (f, g, a) = (f, Later-none m.cache d (cache_key c) h g, a)
  pass-Fits m d i (leaving c r) h f = f

module _ {W : World} {C : Type 0} {lru : ExpireCache C} where
  pick-holder :
      {i : ℕ} {s : System C} {m : Shared C} {p : Pc}
      → Move W lru i s.shared (s.pc i) m p
      → Inv lru s
      → (j : ℕ) → m.mutex ≡ some j
      → Inside (update s.pc i p j)
  pick-holder {i} {s} {m} {p} mv inv j e = elim (update-cases s.pc i j p) [
    | inl (q, u) ↦ elim (Move-holder mv j e) [
      | inl (w, a) ↦ rw (u) a
      | inr (w, a) ↦ rw (u) (a (rw (q) (inv.holder j w)))
    ]
    | inr (h, u) ↦ elim (Move-holder mv j e) [
      | inl (w, a) ↦ absurd (h w)
      | inr (w, a) ↦ rw (u) (inv.holder j w)
    ]
  ]

  Step-Inv : {s t : System C} → Step W lru s t → Inv lru s → Inv lru t
  Step-Inv {s} (pick i {m} {p} mv) inv = record {
    fits = λ j. elim (update-cases s.pc i j p) [
      | inl (e, u) ↦ rw (u) (subst (λ k. Fits lru k m p) e (Move-Fits mv inv.owned (inv.fits i)))
      | inr (h, u) ↦ rw (u) (Move-Fits-other (s.pc j) mv (inv.fits i) h (inv.fits j))
    ];
    owned = Move-Owned mv (inv.fits i) inv.owned;
    holder = pick-holder {s = s} mv inv;
  }
  Step-Inv {s} (pass c h) inv = record {
    fits = λ i. pass-Fits lru s.shared c i (s.pc i) h (inv.fits i);
    owned = λ k v e. inv.owned k v (lru.get-Later h e);
    holder = inv.holder;
  }

  module _ (c : C) (empty : (k : ℕ) → lru.get k c ≡ none) where
    pub Reach-Inv : {s : System C} → Reach W lru c s → Inv lru s
    Reach-Inv start = record {
      fits = λ i. tt;
      owned = λ k v e. absurd (none-ne-some v (sym (empty k) ∙ e));
      holder = λ i e. absurd (none-ne-some i e);
    }
    Reach-Inv (later r st) = Step-Inv st (Reach-Inv r)

    -- From an empty cache, whatever goroutines call, and however their steps and the expiry of
    -- entries interleave: two goroutines that are between the lock and the unlock are one.
    pub Reach-exclusive :
        {s : System C} → Reach W lru c s → (i j : ℕ) → Inside (s.pc i) → Inside (s.pc j) → i ≡ j
    Reach-exclusive {s} r i j a b =
        let inv = Reach-Inv r in
        two_holders (Fits-Inside lru i s.shared (s.pc i) a (inv.fits i))
          (Fits-Inside lru j s.shared (s.pc j) b (inv.fits j))

    -- From an empty cache, in whatever order steps and expiry come: a goroutine that comes to store
    -- its client finds no entry for its key, so that it replaces no client that is in the cache.
    pub Reach-adding :
        {s : System C}
        → Reach W lru c s
        → (i : ℕ) (d : Credentials) (ttl : ℤ) → s.pc i ≡ adding d ttl
        → lru.get (cache_key d) s.shared.cache ≡ none
    Reach-adding {s} r i d ttl e = (subst (Fits lru i s.shared) e ((Reach-Inv r).fits i)).1

    -- From an empty cache, in whatever order steps and expiry come: a client that a call has
    -- returned is that of an earlier login under the same key.
    pub Reach-returned :
        {s : System C}
        → Reach W lru c s
        → (i : ℕ) (d : Credentials) (v : VcdClient) → s.pc i ≡ outside (some (d, ok v))
        → LoggedIn s.shared.logins (cache_key d) v
    Reach-returned {s} r i d v e = subst (Fits lru i s.shared) e ((Reach-Inv r).fits i)
