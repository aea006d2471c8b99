-- ===== src/DeepCopy/Memory.antt =====
-- Memory with pointers, and what it means to copy an object in it. A region is a range of addresses.
use cluster_api_provider_clo.Base.{
  ℕ, Option, ◌≡◌, refl, arith, ◌<◌, ◌≤◌, ◌∙◌, if◌then◌else◌, ◌==◌, ◌+◌,
}

-- `next` is the first address that is free.
pub record Memory (C : Type 0) : Type 0 where
  pub next : ℕ
  pub cell : ℕ → Option C

abbrev pub Act : Type 0 → Type 0 → Type 0
Act C A = Memory C → A × Memory C

-- How an object is read: with all its addresses in the region, as a value.
abbrev pub Reading : Type 0 → Type 0 → Type 0 → Type 1
Reading C S A = ℕ → ℕ → Memory C → S → A → Type 0

module _ {C A B : Type 0} where
  infixl 10 ◌>>=◌
  abbrev pub ◌>>=◌ : Act C A → (A → Act C B) → Act C B
  ◌>>=◌ m f h = let (a, h') = m h in f a h'

abbrev pub give : {C A : Type 0} → A → Act C A
give a h = (a, h)

module _ {C : Type 0} where
  abbrev pub with_cell : ℕ → Option C → (ℕ → Option C) → ℕ → Option C
  with_cell p c cell q = if q == p then c else cell q

  -- `new` and `make`
  unfoldable pub new : Option C → Act C ℕ
  new c h = (h.next, record { next = h.next + 1; cell = with_cell h.next c h.cell })

  -- The addresses of a region hold the same.
  abbrev pub Agree : ℕ → ℕ → Memory C → Memory C → Type 0
  Agree lo hi h h' = (p : ℕ) → lo ≤ p → p < hi → h'.cell p ≡ h.cell p

  -- Everything that was there is still there.
  pub record Grows (h h' : Memory C) : Type 0 where
    pub later : h.next ≤ h'.next
    pub old : Agree 0 h.next h h'

  pub Grows-refl : (h : Memory C) → Grows h h
  Grows-refl h = record { later = ground arith; old = λ p a b. refl }

  pub Grows-trans : (h h' h'' : Memory C) → Grows h h' → Grows h' h'' → Grows h h''
  Grows-trans h h' h'' g g' = record {
    later = omega (arith, g.later, g'.later);
    old = λ p a b. g'.old p a (omega (arith, b, g.later)) ∙ g.old p a b;
  }

  pub Grows-new : (c : Option C) (h : Memory C) → Grows h (new c h).1
  unfolding new
  Grows-new c h = record { later = ground arith; old = λ p a b. ground arith }

  pub new-cell : (c : Option C) (h : Memory C) → (new c h).1.cell h.next ≡ c
  unfolding new
  new-cell c h = ground arith

  -- What is read depends on the region only.
  pub record Framed {S A : Type 0} (reads : Reading C S A) : Type 0 where
    pub frame :
        (lo hi lo' hi' : ℕ) (h h' : Memory C) (s : S) (a : A)
        → lo' ≤ lo
        → hi ≤ hi'
        → Agree lo hi h h'
        → reads lo hi h s a
        → reads lo' hi' h' s a

  -- A deep copy: nothing that was there changes, and the copy reads the same, all in addresses that
  -- were free.
  pub record Copies {S A : Type 0} (reads : Reading C S A) (copy : S → Act C S) : Type 0 where
    pub grows : (s : S) (h : Memory C) → Grows h (copy s h).1
    pub copied :
        (s : S) (a : A) (lo hi : ℕ) (h : Memory C)
        → hi ≤ h.next
        → reads lo hi h s a
        → reads h.next (copy s h).1.next (copy s h).1 (copy s h).0 a
