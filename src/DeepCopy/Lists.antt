-- ===== src/DeepCopy/Lists.antt =====
-- Deep copies of templates, of lists, and of what a pointer may not point to.
use cluster_api_provider_clo.Api.Conditions.{Condition}
use cluster_api_provider_clo.Base.{Option, none, some, ℕ, ◌≤◌, ◌≡◌, refl}
use cluster_api_provider_clo.DeepCopy.Memory.{
  Memory, Act, ◌>>=◌, give, Agree, Grows, Grows-refl, Reading,
}
use cluster_api_provider_clo.DeepCopy.Copy.{
  copy_template_resource, copy_template_spec, copy_template, deep_copy, deep_copy_object,
}
use cluster_api_provider_clo.DeepCopy.Exact.{Exact-machine_spec, Exact-meta}
use cluster_api_provider_clo.DeepCopy.Objects.{Items, Cell}
use cluster_api_provider_clo.DeepCopy.Parts.{Exact, Exact-pair, Apart, Copies-Apart}
use cluster_api_provider_clo.DeepCopy.Reads.{
  DeepCopies, reads_template_resource, reads_template_spec, reads_template, reads_list,
}
use cluster_api_provider_clo.DeepCopy.Slices.{Arrays, Exact-slice, copy_slice}

-- A pointer to an object, by the object.
unfoldable pub reads_nilable : {C S A : Type 0} → Reading C S A → Reading C (Option S) (Option A)
reads_nilable reads lo hi h none none = Unit
reads_nilable reads lo hi h none (some a) = ⊥
reads_nilable reads lo hi h (some s) none = ⊥
reads_nilable reads lo hi h (some s) (some a) = reads lo hi h s a

module _ {C S A : Type 0} {reads : Reading C S A} {copy : S → Act C S}
    (exact : Exact reads copy) where
  frame_nilable :
      (lo hi lo' hi' : ℕ) (h h' : Memory C) (s : Option S) (a : Option A)
      → lo' ≤ lo
      → hi ≤ hi'
      → Agree lo hi h h'
      → reads_nilable reads lo hi h s a
      → reads_nilable reads lo' hi' h' s a
  unfolding reads_nilable
  frame_nilable lo hi lo' hi' h h' none none l u e r = tt
  frame_nilable lo hi lo' hi' h h' none (some a) l u e r = r
  frame_nilable lo hi lo' hi' h h' (some s) none l u e r = r
  frame_nilable lo hi lo' hi' h h' (some s) (some a) l u e r =
      exact.framed.frame lo hi lo' hi' h h' s a l u e r

  Grows-deep_copy : (s : Option S) (h : Memory C) → Grows h (deep_copy copy s h).1
  unfolding deep_copy
  Grows-deep_copy none h = Grows-refl h
  Grows-deep_copy (some s) h = exact.copies.grows s h

  copied_deep_copy :
      (s : Option S) (a : Option A) (lo hi : ℕ) (h : Memory C)
      → hi ≤ h.next
      → reads_nilable reads lo hi h s a
      → reads_nilable reads h.next
          (deep_copy copy s h).1.next
          (deep_copy copy s h).1
          (deep_copy copy s h).0
          a
  unfolding deep_copy reads_nilable
  copied_deep_copy none none lo hi h u r = tt
  copied_deep_copy none (some a) lo hi h u r = r
  copied_deep_copy (some s) none lo hi h u r = r
  copied_deep_copy (some s) (some a) lo hi h u r = exact.copies.copied s a lo hi h u r

  pub deep_copy-Apart : Apart (reads_nilable reads) (deep_copy copy)
  deep_copy-Apart =
      Copies-Apart (reads_nilable reads) (deep_copy copy)
        (record { grows = Grows-deep_copy; copied = copied_deep_copy })
        (record { frame = frame_nilable })

module _ {Meta L X : Type 0} {copy_meta : Meta → Act (Cell Meta X) Meta}
    {copy_list_meta : L → Act (Cell Meta X) L}
    {copy_condition : Condition → Act (Cell Meta X) Condition}
    (library : DeepCopies copy_meta copy_list_meta copy_condition) where
  pub Exact-template_resource :
      Exact (reads_template_resource library) (copy_template_resource copy_meta)
  unfolding copy_template_resource
  Exact-template_resource =
      let parts = Exact-pair (Exact-meta library) (Exact-machine_spec library) in
      record {
        copies = record {
          grows = λ s h. parts.copies.grows (s.metadata, s.spec) h;
          copied = λ s a. parts.copies.copied (s.metadata, s.spec) (a.metadata, a.spec);
        };
        framed = record {
          frame = λ lo hi lo' hi' h h' s a.
              parts.framed.frame lo hi lo' hi' h h' (s.metadata, s.spec) (a.metadata, a.spec);
        };
      }

  pub Exact-template_spec : Exact (reads_template_spec library) (copy_template_spec copy_meta)
  unfolding copy_template_spec
  Exact-template_spec =
      let part = Exact-template_resource in
      record {
        copies = record {
          grows = λ s h. part.copies.grows s.template h;
          copied = λ s a. part.copies.copied s.template a.template;
        };
        framed = record {
          frame =
              λ lo hi lo' hi' h h' s a. part.framed.frame lo hi lo' hi' h h' s.template a.template;
        };
      }

  pub Exact-template : Exact (reads_template library) (copy_template copy_meta)
  unfolding copy_template
  Exact-template =
      let parts = Exact-pair (Exact-meta library) Exact-template_spec in
      record {
        copies = record {
          grows = λ s h. parts.copies.grows (s.metadata, s.spec) h;
          copied = λ s a. parts.copies.copied (s.metadata, s.spec) (a.metadata, a.spec);
        };
        framed = record {
          frame = λ lo hi lo' hi' h h' s a.
              parts.framed.frame lo hi lo' hi' h h' (s.metadata, s.spec) (a.metadata, a.spec);
        };
      }

  -- The copy of a list, with the copy of an element.
  abbrev pub copy_list :
      {S : Type 0}
      → Arrays (Cell Meta X) S
      → (S → Act (Cell Meta X) S)
      → Items L
      → Act (Cell Meta X) (Items L)
  copy_list arrays copy xs = do
    metadata ← copy_list_meta xs.metadata
    items ← copy_slice arrays copy xs.items
    give (record { metadata = metadata; items = items })

  pub Exact-list :
      {S A : Type 0} (arrays : Arrays (Cell Meta X) S) {reads : Reading (Cell Meta X) S A}
      {copy : S → Act (Cell Meta X) S}
      → Exact reads copy
      → Exact (reads_list library arrays reads) (copy_list arrays copy)
  Exact-list arrays exact =
      let parts =
        Exact-pair (record { copies = library.list_meta; framed = library.list_meta_framed })
          (Exact-slice arrays exact) in
      record {
        copies = record {
          grows = λ s h. parts.copies.grows (s.metadata, s.items) h;
          copied = λ s a. parts.copies.copied (s.metadata, s.items) (a.metadata, a.items);
        };
        framed = record {
          frame = λ lo hi lo' hi' h h' s a.
              parts.framed.frame lo hi lo' hi' h h' (s.metadata, s.items) (a.metadata, a.items);
        };
      }

-- `DeepCopyObject` copies the same.
pub deep_copy_object-deep_copy :
    {C S : Type 0} (copy : S → Act C S) (s : Option S) (h : Memory C)
    → deep_copy_object copy s h ≡ deep_copy copy s h
unfolding deep_copy_object deep_copy
deep_copy_object-deep_copy copy none h = refl
deep_copy_object-deep_copy copy (some s) h = refl
