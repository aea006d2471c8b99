-- ===== src/DeepCopy/Slices.antt =====
-- Copies of slices whose elements are copied one by one.
use cluster_api_provider_clo.Base.{
  ℕ, Option, List, none, some, [], ◌∷◌, ◌≡◌, refl, arith, ◌<◌, ◌≤◌, ◌∙◌, ap, sym,
}
use cluster_api_provider_clo.DeepCopy.Memory.{
  Memory, Act, ◌>>=◌, give, new, Agree, Grows, Grows-refl, Grows-trans, Grows-new, new-cell,
  Reading, Framed, Copies,
}
use cluster_api_provider_clo.DeepCopy.Parts.{Exact, first_stays, later_reads}
use mathlib.Core.Path.{subst}

module _ {C S : Type 0} where
  -- `for i := range *in { (*in)[i].DeepCopyInto(&(*out)[i]) }`
  unfoldable pub copy_items : (S → Act C S) → List S → Act C (List S)
  copy_items copy [] = give []
  copy_items copy (s ∷ ss) = do s' ← copy s; ss' ← copy_items copy ss; give (s' ∷ ss')

module _ {C S A : Type 0} where
  unfoldable pub reads_items : Reading C S A → Reading C (List S) (List A)
  reads_items reads lo hi h [] [] = Unit
  reads_items reads lo hi h [] (a ∷ xs) = ⊥
  reads_items reads lo hi h (s ∷ ss) [] = ⊥
  reads_items reads lo hi h (s ∷ ss) (a ∷ xs) = reads lo hi h s a × reads_items reads lo hi h ss xs

  module _ (reads : Reading C S A) (copy : S → Act C S) (copies : Copies reads copy)
      (framed : Framed reads) where
    frame_items :
        (lo hi lo' hi' : ℕ) (h h' : Memory C) (ss : List S) (xs : List A)
        → lo' ≤ lo
        → hi ≤ hi'
        → Agree lo hi h h'
        → reads_items reads lo hi h ss xs
        → reads_items reads lo' hi' h' ss xs
    unfolding reads_items
    frame_items lo hi lo' hi' h h' [] [] l u e r = tt
    frame_items lo hi lo' hi' h h' [] (a ∷ xs) l u e r = r
    frame_items lo hi lo' hi' h h' (s ∷ ss) [] l u e r = r
    frame_items lo hi lo' hi' h h' (s ∷ ss) (a ∷ xs) l u e (r, rs) =
        (framed.frame lo hi lo' hi' h h' s a l u e r, frame_items lo hi lo' hi' h h' ss xs l u e rs)

    pub Framed-items : Framed (reads_items reads)
    Framed-items = record { frame = frame_items }

    Grows-items : (ss : List S) (h : Memory C) → Grows h (copy_items copy ss h).1
    unfolding copy_items
    Grows-items [] h = Grows-refl h
    Grows-items (s ∷ ss) h = Grows-trans _ _ _ (copies.grows s h) (Grows-items ss (copy s h).1)

    copied_items :
        (ss : List S) (xs : List A) (lo hi : ℕ) (h : Memory C)
        → hi ≤ h.next
        → reads_items reads lo hi h ss xs
        → reads_items reads h.next
            (copy_items copy ss h).1.next
            (copy_items copy ss h).1
            (copy_items copy ss h).0
            xs
    unfolding copy_items reads_items
    copied_items [] [] lo hi h u r = tt
    copied_items [] (a ∷ xs) lo hi h u r = r
    copied_items (s ∷ ss) [] lo hi h u r = r
    copied_items (s ∷ ss) (a ∷ xs) lo hi h u (r, rs) =
        let h' = (copy s h).1 in
        let g = copies.grows s h in
        let rest = (copy_items copy ss h').1 in
        (
          first_stays reads copy copies framed s a lo hi h u rest (Grows-items ss h') r,
          frame_items _ _ _ _ rest rest _ _ g.later (ground arith) (λ p b d. refl)
              (copied_items ss xs lo hi h' (omega (arith, u, g.later))
                (later_reads (reads_items reads) Framed-items ss xs lo hi h h' u g rs)),
        )

    pub Copies-items : Copies (reads_items reads) (copy_items copy)
    Copies-items = record { grows = Grows-items; copied = copied_items }

-- An array is the content of a cell: `array` makes it, `items` takes its elements out.
pub record Arrays (C S : Type 0) : Type 0 where
  pub array : List S → C
  pub items : C → List S
  pub items-array : (ss : List S) → items (array ss) ≡ ss

module _ {C S : Type 0} (arrays : Arrays C S) where
  abbrev pub elements : Option C → List S
  elements none = []
  elements (some c) = arrays.items c

  -- `*out = make([]T, len(*in))` and the loop; the array is written when its elements are known.
  unfoldable pub copy_slice : (S → Act C S) → Option ℕ → Act C (Option ℕ)
  copy_slice copy none = give none
  copy_slice copy (some p) = λ h.
      (do
        ss ← copy_items copy (elements (h.cell p))
        q ← new (some (arrays.array ss))
        give (some q))
        h

module _ {C S A : Type 0} (arrays : Arrays C S) where
  unfoldable pub reads_slice : Reading C S A → Reading C (Option ℕ) (List A)
  reads_slice reads lo hi h none [] = Unit
  reads_slice reads lo hi h none (a ∷ xs) = ⊥
  reads_slice reads lo hi h (some p) xs =
      (ss : List S) × (lo ≤ p)
      × (p < hi)
      × (h.cell p ≡ some (arrays.array ss))
      × reads_items reads lo hi h ss xs

  module _ (reads : Reading C S A) (copy : S → Act C S) (copies : Copies reads copy)
      (framed : Framed reads) where
    frame_slice :
        (lo hi lo' hi' : ℕ) (h h' : Memory C) (s : Option ℕ) (xs : List A)
        → lo' ≤ lo
        → hi ≤ hi'
        → Agree lo hi h h'
        → reads_slice reads lo hi h s xs
        → reads_slice reads lo' hi' h' s xs
    unfolding reads_slice
    frame_slice lo hi lo' hi' h h' none [] l u e r = tt
    frame_slice lo hi lo' hi' h h' none (a ∷ xs) l u e r = r
    frame_slice lo hi lo' hi' h h' (some p) xs l u e (ss, b, c, d, r) = (
      ss,
      omega (arith, b, l),
      omega (arith, c, u),
      e p b c ∙ d,
      (Framed-items reads copy copies framed).frame lo hi lo' hi' h h' ss xs l u e r,
    )

    pub Framed-slice : Framed (reads_slice reads)
    Framed-slice = record { frame = frame_slice }

    Grows-slice : (s : Option ℕ) (h : Memory C) → Grows h (copy_slice arrays copy s h).1
    unfolding copy_slice
    Grows-slice none h = Grows-refl h
    Grows-slice (some p) h =
        Grows-trans _ _ _
          ((Copies-items reads copy copies framed).grows (elements arrays (h.cell p)) h)
          (Grows-new _ (copy_items copy (elements arrays (h.cell p)) h).1)

    copied_slice :
        (s : Option ℕ) (xs : List A) (lo hi : ℕ) (h : Memory C)
        → hi ≤ h.next
        → reads_slice reads lo hi h s xs
        → reads_slice reads h.next
            (copy_slice arrays copy s h).1.next
            (copy_slice arrays copy s h).1
            (copy_slice arrays copy s h).0
            xs
    unfolding copy_slice reads_slice copy_items new
    copied_slice none [] lo hi h u r = tt
    copied_slice none (a ∷ xs) lo hi h u r = r
    copied_slice (some p) xs lo hi h u (ss, b, c, d, r) =
        let es = elements arrays (h.cell p) in
        let h' = (copy_items copy es h).1 in
        let h'' = (new (some (arrays.array (copy_items copy es h).0)) h').1 in
        let g = (Copies-items reads copy copies framed).grows es h in
        let g' = Grows-new (some (arrays.array (copy_items copy es h).0)) h' in
        let same = sym (ap (elements arrays) d ∙ arrays.items-array ss) in
        let rs =
          (Copies-items reads copy copies framed).copied es xs lo hi h u
            (subst (λ ts. reads_items reads lo hi h ts xs) same r) in
        (
          (copy_items copy es h).0,
          g.later,
          ground arith,
          new-cell _ h',
          (Framed-items reads copy copies framed).frame h.next h'.next h.next h''.next h' h'' _ _
              (ground arith) g'.later (λ q x y. g'.old q (ground arith) y) rs,
        )

    pub Copies-slice : Copies (reads_slice reads) (copy_slice arrays copy)
    Copies-slice = record { grows = Grows-slice; copied = copied_slice }

pub Exact-slice :
    {C S A : Type 0} (arrays : Arrays C S) {reads : Reading C S A} {copy : S → Act C S}
    → Exact reads copy
    → Exact (reads_slice arrays reads) (copy_slice arrays copy)
Exact-slice arrays e = record {
  copies = Copies-slice arrays _ _ e.copies e.framed;
  framed = Framed-slice arrays _ _ e.copies e.framed;
}
