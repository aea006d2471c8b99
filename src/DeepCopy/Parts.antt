-- ===== src/DeepCopy/Parts.antt =====
-- Copies of pointers, of slices, and of one part after the other.
use cluster_api_provider_clo.Base.{ℕ, Option, none, some, ◌≡◌, refl, arith, ◌<◌, ◌≤◌, ◌∙◌}
use cluster_api_provider_clo.DeepCopy.Memory.{
  Memory, Act, ◌>>=◌, give, new, Agree, Grows, Grows-refl, Grows-trans, Grows-new, new-cell,
  Reading, Framed, Copies,
}

-- A nil pointer, or a nil slice, is `none`.
module _ {C : Type 0} where
  -- `*out = new(T); **out = **in`, and `*out = make([]T, len(*in)); copy(*out, *in)`
  unfoldable pub copy_pointer : Option ℕ → Act C (Option ℕ)
  copy_pointer none = give none
  copy_pointer (some p) = λ h. (do q ← new (h.cell p); give (some q)) h

  -- `into` makes the content of the cell.
  unfoldable pub reads_pointer : {V : Type 0} → (V → C) → Reading C (Option ℕ) (Option V)
  reads_pointer into lo hi h none none = Unit
  reads_pointer into lo hi h none (some v) = ⊥
  reads_pointer into lo hi h (some p) none = ⊥
  reads_pointer into lo hi h (some p) (some v) = (lo ≤ p) × (p < hi) × (h.cell p ≡ some (into v))

  pub Framed-pointer : {V : Type 0} (into : V → C) → Framed (reads_pointer into)
  unfolding reads_pointer
  Framed-pointer into = record { frame = go }
    where
      go :
          (lo hi lo' hi' : ℕ) (h h' : Memory C) (s : Option ℕ) (a : Option _)
          → lo' ≤ lo
          → hi ≤ hi'
          → Agree lo hi h h'
          → reads_pointer into lo hi h s a
          → reads_pointer into lo' hi' h' s a
      go lo hi lo' hi' h h' none none l u e r = tt
      go lo hi lo' hi' h h' none (some v) l u e r = r
      go lo hi lo' hi' h h' (some p) none l u e r = r
      go lo hi lo' hi' h h' (some p) (some v) l u e (b, c, d) =
          (omega (arith, b, l), omega (arith, c, u), e p b c ∙ d)

  pub Copies-pointer : {V : Type 0} (into : V → C) → Copies (reads_pointer into) copy_pointer
  unfolding reads_pointer copy_pointer new
  Copies-pointer into = record { grows = grows; copied = copied }
    where
      grows : (s : Option ℕ) (h : Memory C) → Grows h (copy_pointer s h).1
      grows none h = Grows-refl h
      grows (some p) h = Grows-new (h.cell p) h

      copied :
          (s : Option ℕ) (a : Option _) (lo hi : ℕ) (h : Memory C)
          → hi ≤ h.next
          → reads_pointer into lo hi h s a
          → reads_pointer into h.next
              (copy_pointer s h).1.next
              (copy_pointer s h).1
              (copy_pointer s h).0
              a
      copied none none lo hi h u r = tt
      copied none (some v) lo hi h u r = r
      copied (some p) none lo hi h u r = r
      copied (some p) (some v) lo hi h u (b, c, d) =
          (ground arith, ground arith, new-cell (h.cell p) h ∙ d)

-- One copy after the other.
module _ {C S A : Type 0} (reads : Reading C S A) (copy : S → Act C S) (copies : Copies reads copy)
    (framed : Framed reads) (s : S) (a : A) (lo hi : ℕ) (h : Memory C) (u : hi ≤ h.next) where
  -- The first copy stays when memory grows.
  pub first_stays :
      (h' : Memory C)
      → Grows (copy s h).1 h'
      → reads lo hi h s a
      → reads h.next h'.next h' (copy s h).0 a
  first_stays h' g r =
      framed.frame _ _ _ _ (copy s h).1 h' _ _ (ground arith) g.later
        (λ p b c. g.old p (ground arith) c) (copies.copied s a lo hi h u r)

-- What has not been copied yet is read as before.
pub later_reads :
    {C T B : Type 0} (reads : Reading C T B) (framed : Framed reads) (t : T) (b : B) (lo hi : ℕ)
    (h h' : Memory C)
    → hi ≤ h.next
    → Grows h h'
    → reads lo hi h t b
    → reads lo hi h' t b
later_reads reads framed t b lo hi h h' u g r =
    framed.frame lo hi lo hi h h' t b (ground arith) (ground arith)
      (λ p x y. g.old p (ground arith) (omega (arith, y, u))) r

module _ {C S T A B : Type 0} (reads : Reading C S A) (copy : S → Act C S) (reads' : Reading C T B)
    (copy' : T → Act C T) where
  abbrev pub reads_pair : Reading C (S × T) (A × B)
  reads_pair lo hi h (s, t) (a, b) = reads lo hi h s a × reads' lo hi h t b

  abbrev pub copy_pair : S × T → Act C (S × T)
  copy_pair (s, t) = do s' ← copy s; t' ← copy' t; give (s', t')

  pub Framed-pair : Framed reads → Framed reads' → Framed reads_pair
  Framed-pair f f' = record {
    frame = λ lo hi lo' hi' h h' x y l u e r. (
      f.frame lo hi lo' hi' h h' x.0 y.0 l u e r.0,
      f'.frame lo hi lo' hi' h h' x.1 y.1 l u e r.1,
    );
  }

  pub Copies-pair :
      Copies reads copy
      → Framed reads
      → Copies reads' copy'
      → Framed reads'
      → Copies reads_pair copy_pair
  Copies-pair c f c' f' = record {
    grows = λ x h. Grows-trans _ _ _ (c.grows x.0 h) (c'.grows x.1 (copy x.0 h).1);
    copied = λ x y lo hi h u r.
        let h' = (copy x.0 h).1 in
        let g' = c'.grows x.1 h' in
        let g = c.grows x.0 h in
        let r' =
          c'.copied x.1 y.1 lo hi h' (omega (arith, u, g.later))
            (later_reads reads' f' x.1 y.1 lo hi h h' u g r.1) in
        (
          first_stays reads copy c f x.0 y.0 lo hi h u (copy' x.1 h').1 g' r.0,
          f'.frame _ _ _ _ (copy' x.1 h').1 (copy' x.1 h').1 _ _ g.later (ground arith)
              (λ p b d. refl) r',
        );
  }

-- A value without pointers.
abbrev pub reads_value : {C A : Type 0} → Reading C A A
reads_value lo hi h s a = s ≡ a

pub Framed-value : {C A : Type 0} → Framed {C = C} (reads_value {A = A})
Framed-value = record { frame = λ lo hi lo' hi' h h' s a l u e r. r }

pub Copies-value : {C A : Type 0} → Copies {C = C} (reads_value {A = A}) give
Copies-value = record { grows = λ s h. Grows-refl h; copied = λ s a lo hi h u r. r }

-- The original and the copy can be changed without regard to each other: what is written at the
-- addresses of one leaves the other as it reads.
abbrev pub Apart : {C S A : Type 0} → Reading C S A → (S → Act C S) → Type 0
Apart {C} {S} {A} reads copy =
    (s : S) (a : A) (h : Memory C)
    → reads 0 h.next h s a
    → (reads h.next (copy s h).1.next (copy s h).1 (copy s h).0 a)
      × ((h' : Memory C)
          → (Agree 0 h.next (copy s h).1 h' → reads 0 h.next h' s a)
            × (Agree h.next (copy s h).1.next (copy s h).1 h'
                → reads h.next (copy s h).1.next h' (copy s h).0 a))

pub Copies-Apart :
    {C S A : Type 0} (reads : Reading C S A) (copy : S → Act C S)
    → Copies reads copy
    → Framed reads
    → Apart reads copy
Copies-Apart reads copy c f s a h r =
    let r' = c.copied s a 0 h.next h (ground arith) r in
    (
      r',
      λ h'. (
        λ e.
            f.frame 0 h.next 0 h.next h h' s a (ground arith) (ground arith)
              (λ p x y. e p x y ∙ (c.grows s h).old p x y) r,
        λ e. f.frame _ _ _ _ (copy s h).1 h' _ _ (ground arith) (ground arith) e r',
      ),
    )

-- Both, for a part of an object.
pub record Exact {C S A : Type 0} (reads : Reading C S A) (copy : S → Act C S) : Type 0 where
  pub copies : Copies reads copy
  pub framed : Framed reads

pub Exact-pointer : {C V : Type 0} (into : V → C) → Exact (reads_pointer into) copy_pointer
Exact-pointer into = record { copies = Copies-pointer into; framed = Framed-pointer into }

pub Exact-value : {C A : Type 0} → Exact {C = C} (reads_value {A = A}) give
Exact-value = record { copies = Copies-value; framed = Framed-value }

pub Exact-pair :
    {C S T A B : Type 0} {reads : Reading C S A} {copy : S → Act C S} {reads' : Reading C T B}
    {copy' : T → Act C T}
    → Exact reads copy
    → Exact reads' copy'
    → Exact (reads_pair reads copy reads' copy') (copy_pair reads copy reads' copy')
Exact-pair {C} {S} {T} {A} {B} {reads} {copy} {reads'} {copy'} e e' = record {
  copies = Copies-pair _ _ _ _ e.copies e.framed e'.copies e'.framed;
  framed = Framed-pair reads copy reads' copy' e.framed e'.framed;
}
