-- ===== src/Tests/Memory/Writes.antt =====
-- The cluster in memory makes no object up.
use disk_manager.Base.{
  ◌≡◌, refl, sym, ap, subst, ◌∙◌, not, none, some, List, [], ◌∷◌, arith, Bool-cases, Option-cases,
  ◌⊎◌, inl, inr, keep_if,
}
use disk_manager.Text.{Text}
use disk_manager.Text.Prefix.{equals_iff}
use disk_manager.Labels.{includes}
use disk_manager.Api.{BlockDevice, BlockDeviceStatus}
use disk_manager.Cluster.Laws.{SamePayload, OnlyWrites}
use disk_manager.Tests.Memory.{
  memory, memory-IsLawful, has_key, update_in, update_status_in, find_object, find_object-key,
  current, current-object, kept-Memᴰ, deleted_object,
}

pub first_only :
    (bd e : BlockDevice) (s : List BlockDevice) (ns n : Text)
    → find_object ns n (bd ∷ s) ≡ some e
    → (find_object ns n s ≡ some e) ⊎ (e ≡ bd)
first_only bd e s ns n at = elim (Bool-cases (has_key ns n bd)) [
  | inl here ↦ inr (ground arith)
  | inr other ↦ inl (ground arith)
]

payload_self : (e bd : BlockDevice) → e ≡ bd → SamePayload e bd
payload_self e bd same = ground arith

written_only :
    (bd e : BlockDevice) (s : List BlockDevice) (ns n : Text)
    → find_object ns n (bd ∷ s) ≡ some e
    → (find_object ns n s ≡ some e) ⊎ SamePayload e bd
written_only bd e s ns n at = elim (first_only bd e s ns n at) [
  | inl old ↦ inl old
  | inr new ↦ inr (payload_self e bd new)
]

updated_only :
    (bd e : BlockDevice) (s : List BlockDevice) (ns n : Text)
    → find_object ns n (update_in bd s).1 ≡ some e
    → (find_object ns n s ≡ some e) ⊎ SamePayload e bd
updated_only bd e s ns n at =
    elim (Option-cases (find_object bd.object_meta.namespace bd.object_meta.name s)) [
      | inl missing ↦ inl (ground arith)
      | inr (o, found) ↦ written_only bd e s ns n (ground arith)
    ]

abbrev SameButStatus : BlockDevice → BlockDevice → Type 0
SameButStatus e o =
    (e.object_meta.name ≡ o.object_meta.name)
    × (e.object_meta.labels ≡ o.object_meta.labels)
    × (e.spec ≡ o.spec)

status_written :
    (o : BlockDevice) (st : BlockDeviceStatus) (s : List BlockDevice) (at_ns at_n ns n : Text)
    (e : BlockDevice)
    → find_object at_ns at_n s ≡ some o
    → find_object ns n (record o { status = st } ∷ s) ≡ some e
    → (old : BlockDevice) × (find_object ns n s ≡ some old) × SameButStatus e old
status_written o st s at_ns at_n ns n e found at = elim (Bool-cases (has_key ns n o)) [
  | inr other ↦ (e, ground arith, (refl, refl, refl))
  | inl here ↦
      let (in_ns, named) = find_object-key at_ns at_n s o found in
      let same_ns : o.object_meta.namespace ≡ ns =
        ground (arith, equals_iff o.object_meta.namespace ns) in
      let same_name : o.object_meta.name ≡ n = ground (arith, equals_iff o.object_meta.name n) in
      let new : record o { status = st } ≡ e = ground arith in
      (
        o,
        subst (λ k. find_object ns k s ≡ some o) (sym named ∙ same_name)
            (subst (λ k. find_object k at_n s ≡ some o) (sym in_ns ∙ same_ns) found),
        (
          ap (λ x. x.object_meta.name) (sym new),
          ap (λ x. x.object_meta.labels) (sym new),
          ap (λ x. x.spec) (sym new),
        ),
      )
]

status_only :
    (bd : BlockDevice) (s : List BlockDevice) (ns n : Text) (e : BlockDevice)
    → find_object ns n (update_status_in bd s).1 ≡ some e
    → (o : BlockDevice) × (find_object ns n s ≡ some o) × SameButStatus e o
status_only bd s ns n e at =
    elim (Option-cases (find_object bd.object_meta.namespace bd.object_meta.name s)) [
      | inl missing ↦ (e, ground arith, (refl, refl, refl))
      | inr (o, found) ↦
          status_written o bd.status s bd.object_meta.namespace bd.object_meta.name ns n e found
            (ground arith)
    ]

deleted_only :
    (ns n : Text) (s : List BlockDevice) (ns' n' : Text) (e : BlockDevice)
    → find_object ns' n' (keep_if (λ o. not (has_key ns n o)) s) ≡ some e
    → find_object ns' n' s ≡ some e
deleted_only ns n [] ns' n' e at = at
deleted_only ns n (x ∷ s) ns' n' e at = elim (Bool-cases (has_key ns n x)) [
  | inr kept ↦ elim (Bool-cases (has_key ns' n' x)) [
    | inl here ↦ ground arith
    | inr other ↦ ground (arith, deleted_only ns n s ns' n' e (ground arith))
  ]
  | inl removed ↦ elim (Bool-cases (has_key ns' n' x)) [
    | inr other ↦ ground (arith, deleted_only ns n s ns' n' e (ground arith))
    | inl here ↦
        let later : find_object ns' n' (keep_if (λ o. not (has_key ns n o)) s) ≡ some e =
          ground arith in
        let same_ns : ns ≡ ns' =
          ground (
            arith,
            equals_iff x.object_meta.namespace ns,
            equals_iff x.object_meta.namespace ns',
          ) in
        let same_name : n ≡ n' =
          ground (arith, equals_iff x.object_meta.name n, equals_iff x.object_meta.name n') in
        let gone : find_object ns' n' (keep_if (λ o. not (has_key ns n o)) s) ≡ none =
          subst (λ k. find_object ns' k (keep_if (λ o. not (has_key ns n o)) s) ≡ none) same_name
            (subst (λ k. find_object k n (keep_if (λ o. not (has_key ns n o)) s) ≡ none) same_ns
              (deleted_object ns n s)) in
        absurd (cc)
  ]
]

pub memory-OnlyWrites : OnlyWrites memory memory-IsLawful
unfolding memory-IsLawful
memory-OnlyWrites = record {
  create-only = λ bd s ns n e at. written_only bd e s ns n at;
  update-only = λ bd s ns n e at. updated_only bd e s ns n at;
  update_status-only = λ bd s ns n e at.
      let (o, old, (name, labels, spec)) = status_only bd s ns n e at in
      (o, old, name, labels, spec);
  delete-only = λ ns n s ns' n' e at. deleted_only ns n s ns' n' e at;
  cache_get-keeps = λ ns n s ns' n'. refl;
  listed-only = λ ns set s e m.
      current-object ns s e
        (kept-Memᴰ (λ o. includes set o.object_meta.labels) e (current ns s) m).0;
}
