-- ===== src/Tests/Memory.antt =====
-- A cluster in memory: a list of objects, the newest first, in which a name's first object counts.
pub mod Crowded
pub mod Writes
use mathlib.Core.List.{Memᴰ}
use disk_manager.Base.{
  ◌≡◌, ◌≢◌, refl, sym, ap, subst, ◌∙◌, Bool, true, false, not, ◌&&◌, Option, none, some, List, [],
  ◌∷◌, arith, Bool-cases, Option-cases, ◌⊎◌, inl, inr, keep_if, find_first, if◌then◌else◌,
}
use disk_manager.Text.{Text, codes, equals}
use disk_manager.Text.Prefix.{equals_iff, equals_self, equals_sym}
use disk_manager.Labels.{includes}
use disk_manager.Api.{BlockDevice, BlockDeviceStatus}
use disk_manager.Cluster.{Cluster, ApiError, Reply}
use disk_manager.Cluster.Laws.{IsLawful, Holds, SamePayload, OnlyWrites}

abbrev pub has_key : Text → Text → BlockDevice → Bool
has_key ns n e = equals e.object_meta.namespace ns && equals e.object_meta.name n

abbrev pub find_object : Text → Text → List BlockDevice → Option BlockDevice
find_object ns n s = find_first (has_key ns n) s

abbrev named_otherwise : Text → BlockDevice → Bool
named_otherwise n e = not (equals e.object_meta.name n)

-- The objects of a namespace that count.
abbrev pub current : Text → List BlockDevice → List BlockDevice
current ns [] = []
current ns (e ∷ s) =
    let rest = current ns s in
    if equals e.object_meta.namespace ns
    then e ∷ keep_if (named_otherwise e.object_meta.name) rest
    else rest

abbrev pub not_found : ApiError
not_found = record { not_found = true; conflict = false; message = codes "not found" }

abbrev pub update_in : BlockDevice → List BlockDevice → Reply BlockDevice × List BlockDevice
update_in bd s = elim (find_object bd.object_meta.namespace bd.object_meta.name s) [
  | none ↦ (record { value = bd; error = some not_found }, s)
  | some e ↦ (record { value = bd; error = none }, bd ∷ s)
]

-- Only the status of the stored object is written.
abbrev pub update_status_in : BlockDevice → List BlockDevice → Reply BlockDevice × List BlockDevice
update_status_in bd s = elim (find_object bd.object_meta.namespace bd.object_meta.name s) [
  | none ↦ (record { value = bd; error = some not_found }, s)
  | some e ↦
      let e' = record e { status = bd.status } in (record { value = e'; error = none }, e' ∷ s)
]

abbrev pub memory : Cluster
memory = record {
  State = List BlockDevice;
  create = λ bd s. (record { value = bd; error = none }, bd ∷ s);
  update = update_in;
  update_status = update_status_in;
  delete = λ ns n s. (none, keep_if (λ e. not (has_key ns n e)) s);
  list = λ ns s. (record { value = current ns s; error = none }, s);
  cache_get = λ ns n s. (record { value = find_object ns n s; error = none }, s);
  cache_list = λ ns set s. (
    record {
      value = keep_if (λ e. includes set e.object_meta.labels) (current ns s);
      error = none;
    },
    s,
  );
}

module _ (p : BlockDevice → Bool) (e : BlockDevice) where
  pub kept-Memᴰ : (s : List BlockDevice) → Memᴰ e (keep_if p s) → Memᴰ e s × (p e ≡ true)
  kept-Memᴰ [] m = elim m [ ]
  kept-Memᴰ (x ∷ s) m = by_test (λ k. kept-Memᴰ s k) (p x) refl m
    where
      by_test :
          (Memᴰ e (keep_if p s) → Memᴰ e s × (p e ≡ true))
          → (b : Bool) → p x ≡ b
          → Memᴰ e (if b then x ∷ keep_if p s else keep_if p s)
          → Memᴰ e (x ∷ s) × (p e ≡ true)
      by_test rest true h (Memᴰ.head q) = (Memᴰ.head q, subst (λ o. p o ≡ true) (sym q) h)
      by_test rest true h (Memᴰ.tail k) = let (a, t) = rest k in (Memᴰ.tail a, t)
      by_test rest false h k = let (a, t) = rest k in (Memᴰ.tail a, t)

  Memᴰ-kept : (s : List BlockDevice) → Memᴰ e s → p e ≡ true → Memᴰ e (keep_if p s)
  Memᴰ-kept [] m h = elim m [ ]
  Memᴰ-kept (x ∷ s) (Memᴰ.head q) h = rw (ap p (sym q) ∙ h) (Memᴰ.head q)
  Memᴰ-kept (x ∷ s) (Memᴰ.tail m) h = elim (Bool-cases (p x)) [
    | inl t ↦ rw t (Memᴰ.tail (Memᴰ-kept s m h))
    | inr f ↦ rw f (Memᴰ-kept s m h)
  ]

pub find_object-key :
    (ns n : Text) (s : List BlockDevice) (e : BlockDevice)
    → find_object ns n s ≡ some e
    → (e.object_meta.namespace ≡ ns) × (e.object_meta.name ≡ n)
find_object-key ns n [] e h = absurd (cc)
find_object-key ns n (x ∷ s) e h = elim (Bool-cases (has_key ns n x)) [
  | inl t ↦
      let same : x ≡ e = ground arith in
      subst (λ o. (o.object_meta.namespace ≡ ns) × (o.object_meta.name ≡ n)) same
        (
          ground (arith, equals_iff x.object_meta.namespace ns),
          ground (arith, equals_iff x.object_meta.name n),
        )
  | inr f ↦ find_object-key ns n s e (ground arith)
]

pub deleted_object :
    (ns n : Text) (s : List BlockDevice)
    → find_object ns n (keep_if (λ e. not (has_key ns n e)) s) ≡ none
deleted_object ns n [] = refl
deleted_object ns n (x ∷ s) = ground (arith, deleted_object ns n s)

pub deleted_other :
    (ns n ns' n' : Text) (s : List BlockDevice)
    → n' ≢ n
    → find_object ns' n' (keep_if (λ e. not (has_key ns n e)) s) ≡ find_object ns' n' s
deleted_other ns n ns' n' [] h = refl
deleted_other ns n ns' n' (x ∷ s) h = ground (
  arith,
  deleted_other ns n ns' n' s h,
  equals_iff x.object_meta.name n,
  equals_iff x.object_meta.name n',
)

pub current-object :
    (ns : Text) (s : List BlockDevice) (e : BlockDevice)
    → Memᴰ e (current ns s)
    → find_object ns e.object_meta.name s ≡ some e
current-object ns [] e m = elim m [ ]
current-object ns (x ∷ s) e m =
    by_test (λ k. current-object ns s e k) (equals x.object_meta.namespace ns) refl m
  where
    by_test :
        (Memᴰ e (current ns s) → find_object ns e.object_meta.name s ≡ some e)
        → (b : Bool) → equals x.object_meta.namespace ns ≡ b
        → Memᴰ e (
            if b
            then x ∷ keep_if (named_otherwise x.object_meta.name) (current ns s)
            else current ns s)
        → find_object ns e.object_meta.name (x ∷ s) ≡ some e
    by_test rest true h (Memᴰ.head q) =
        subst (λ o. find_object ns o.object_meta.name (x ∷ s) ≡ some o) (sym q)
          (ground (arith, equals_self x.object_meta.name))
    by_test rest true h (Memᴰ.tail k) =
        let (m', other) = kept-Memᴰ (named_otherwise x.object_meta.name) e (current ns s) k in
        ground (arith, rest m', equals_sym e.object_meta.name x.object_meta.name)
    by_test rest false h k = ground (arith, rest k)

current-complete :
    (ns n : Text) (s : List BlockDevice) (e : BlockDevice)
    → find_object ns n s ≡ some e
    → Memᴰ e (current ns s)
current-complete ns n [] e h = absurd (cc)
current-complete ns n (x ∷ s) e h = elim (Bool-cases (equals x.object_meta.namespace ns)) [
  | inr f ↦ rw f (current-complete ns n s e (ground arith))
  | inl t ↦ rw t (elim (Bool-cases (equals x.object_meta.name n)) [
    | inl same ↦ Memᴰ.head (ground arith)
    | inr other ↦
        let later : find_object ns n s ≡ some e = ground arith in
        let (in_ns, named) = find_object-key ns n s e later in
        Memᴰ.tail (
          Memᴰ-kept (named_otherwise x.object_meta.name) e (current ns s)
            (current-complete ns n s e later) (ground (arith, equals_sym n x.object_meta.name)))
  ])
]

pub found_first :
    (bd : BlockDevice) (s : List BlockDevice)
    → find_object bd.object_meta.namespace bd.object_meta.name (bd ∷ s) ≡ some bd
found_first bd s =
    ground (arith, equals_self bd.object_meta.namespace, equals_self bd.object_meta.name)

pub skip_first :
    (bd : BlockDevice) (s : List BlockDevice) (ns n : Text)
    → n ≢ bd.object_meta.name
    → find_object ns n (bd ∷ s) ≡ find_object ns n s
skip_first bd s ns n h = ground (arith, equals_iff bd.object_meta.name n)

pub updated_object :
    (bd : BlockDevice) (s : List BlockDevice)
    → (update_in bd s).0.error ≡ none
    → find_object bd.object_meta.namespace bd.object_meta.name (update_in bd s).1 ≡ some bd
updated_object bd s ok = ground (arith, found_first bd s)

pub updated_other :
    (bd : BlockDevice) (s : List BlockDevice) (ns n : Text)
    → n ≢ bd.object_meta.name
    → find_object ns n (update_in bd s).1 ≡ find_object ns n s
updated_other bd s ns n h = ground (arith, skip_first bd s ns n h)

pub Holds-self : (bd : BlockDevice) (o : Option BlockDevice) → o ≡ some bd → Holds o bd
Holds-self bd o h = (bd, h, ground arith)

-- The memory keeps the laws of the interface.
pub memory-IsLawful : IsLawful memory
memory-IsLawful = record {
  object = λ s ns n. find_object ns n s;
  object-key = λ s ns n e h. find_object-key ns n s e h;
  create-object = λ bd s ok. Holds-self bd _ (found_first bd s);
  create-other = λ bd s ns n h. skip_first bd s ns n h;
  update-object = λ bd s ok. Holds-self bd _ (updated_object bd s ok);
  update-other = λ bd s ns n h. updated_other bd s ns n h;
  delete-object = λ ns n s ok e at. absurd (let h = sym (deleted_object ns n s) ∙ at in cc);
  delete-other = λ ns n s ns' n' h. deleted_other ns n ns' n' s h;
  list-object = λ ns s e ok m. current-object ns s e m;
  list-keeps = λ ns s ns' n. refl;
  cached = λ s ns n. find_object ns n s;
  cached-key = λ s ns n e h. (find_object-key ns n s e h).1;
  cache_list-object = λ ns set s e ok m.
      let (a, t) = kept-Memᴰ (λ o. includes set o.object_meta.labels) e (current ns s) m in
      (current-object ns s e a, t);
  cache_list-complete = λ ns set s n e ok h t.
      Memᴰ-kept (λ o. includes set o.object_meta.labels) e (current ns s)
        (current-complete ns n s e h) t;
  cache_list-keeps = λ ns set s ns' n. refl;
}

pub memory-object :
    (s : List BlockDevice) (ns n : Text) → memory-IsLawful.object s ns n ≡ find_object ns n s
unfolding memory-IsLawful
memory-object s ns n = refl

-- The same memory, in which a name that is stored cannot be created.
abbrev already_exists : ApiError
already_exists = record { not_found = false; conflict = false; message = codes "already exists" }

abbrev create_in : BlockDevice → List BlockDevice → Reply BlockDevice × List BlockDevice
create_in bd s = elim (find_object bd.object_meta.namespace bd.object_meta.name s) [
  | none ↦ (record { value = bd; error = none }, bd ∷ s)
  | some e ↦ (record { value = bd; error = some already_exists }, s)
]

abbrev pub strict : Cluster
strict = record memory { create = create_in }

created_object :
    (bd : BlockDevice) (s : List BlockDevice)
    → (create_in bd s).0.error ≡ none
    → find_object bd.object_meta.namespace bd.object_meta.name (create_in bd s).1 ≡ some bd
created_object bd s ok = ground (arith, found_first bd s)

created_other :
    (bd : BlockDevice) (s : List BlockDevice) (ns n : Text)
    → n ≢ bd.object_meta.name
    → find_object ns n (create_in bd s).1 ≡ find_object ns n s
created_other bd s ns n h = ground (arith, skip_first bd s ns n h)

pub strict-IsLawful : IsLawful strict
unfolding memory-IsLawful
strict-IsLawful = record {
  object = λ s ns n. find_object ns n s;
  object-key = λ s ns n e h. find_object-key ns n s e h;
  create-object = λ bd s ok. Holds-self bd _ (created_object bd s ok);
  create-other = λ bd s ns n h. created_other bd s ns n h;
  update-object = memory-IsLawful.update-object;
  update-other = memory-IsLawful.update-other;
  delete-object = memory-IsLawful.delete-object;
  delete-other = memory-IsLawful.delete-other;
  list-object = memory-IsLawful.list-object;
  list-keeps = λ ns s ns' n. refl;
  cached = memory-IsLawful.cached;
  cached-key = memory-IsLawful.cached-key;
  cache_list-object = memory-IsLawful.cache_list-object;
  cache_list-complete = memory-IsLawful.cache_list-complete;
  cache_list-keeps = λ ns set s ns' n. refl;
}

pub strict-object :
    (s : List BlockDevice) (ns n : Text) → strict-IsLawful.object s ns n ≡ find_object ns n s
unfolding strict-IsLawful
strict-object s ns n = refl
