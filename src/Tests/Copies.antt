-- ===== src/Tests/Copies.antt =====
-- A memory of other modules that is a list of values, and its copies.
mod Reading
use disk_manager.Base.{
  ℕ, ◌≡◌, refl, sym, Option, none, some, List, [], ◌∷◌, ◌++◌, length, Option-cases, inl, inr, subst,
  arith,
}
use disk_manager.Text.{Text, codes}
use disk_manager.Api.{Time, ObjectMeta, BlockDevice, Condition}
use disk_manager.DeepCopy.{Copier, Library, State, BlockDeviceCell, copy_block_device}
use disk_manager.DeepCopy.Heap.{
  get_elem?, set_elem, get_elem?-append, get_elem?-last, get_elem?-length, get_elem?-set_elem,
}
use disk_manager.DeepCopy.Reading.{
  CopierLaws, IsSeparate, KeepsState, DeviceReads, DeviceReads-Keeps,
}
use disk_manager.DeepCopy.Lists.{BlockDeviceList, copy_block_device_list}
use disk_manager.DeepCopy.Items.{ListReads, copy_block_device_list-ListReads}
use disk_manager.DeepCopy.Separate.{
  Write, write_meta, write_conditions, write_time, write_all, copy_block_device-DeviceReads,
}
use disk_manager.Tests.Node.{everything}
use disk_manager.Controller.Change.{set_conditions, set_file_system}
use disk_manager.Tests.Controller.{parent}

data Value : Type 0 where
  meta : ObjectMeta → Value
  time : Time → Value
  text : Text → Value

abbrev as_meta : Value → Option ObjectMeta
as_meta (meta m) = some m
as_meta (time t) = none
as_meta (text t) = none

abbrev as_time : Value → Option Time
as_time (meta m) = none
as_time (time t) = some t
as_time (text t) = none

abbrev as_text : Value → Option Text
as_text (meta m) = none
as_text (time t) = none
as_text (text t) = some t

abbrev Keeps : List Value → List Value → Type 0
Keeps s t = (a : ℕ) (x : Value) → get_elem? a s ≡ some x → get_elem? a t ≡ some x

module _ {V : Type 0} (inject : V → Value) (project : Value → Option V) where
  abbrev read_at : ℕ → List Value → Option V
  read_at r s = elim (get_elem? r s) [ none ↦ none | some x ↦ project x ]

  -- A copy is behind the others; there is none of what is not there.
  abbrev copy_at : ℕ → List Value → ℕ × List Value
  copy_at r s = elim (get_elem? r s) [ none ↦ (length s, s) | some x ↦ (length s, s ++ x ∷ []) ]

  abbrev cells : Copier (List Value) V
  cells = record {
    Ref = ℕ;
    read = read_at;
    write = λ r v s. set_elem r (inject v) s;
    copy = copy_at;
  }

  read_at-Keeps :
      (s t : List Value) (r : ℕ) (v : V) → Keeps s t → read_at r s ≡ some v → read_at r t ≡ some v
  read_at-Keeps s t r v k h = elim (Option-cases (get_elem? r s)) [
    | inl missing ↦ absurd (ground arith)
    | inr (x, there) ↦ ground (arith, k r x there)
  ]

  copy_at-Keeps : (r : ℕ) (s : List Value) → Keeps s (copy_at r s).1
  copy_at-Keeps r s a x h = elim (Option-cases (get_elem? r s)) [
    | inl missing ↦ ground arith
    | inr (y, there) ↦ ground (arith, get_elem?-append a s (y ∷ []) x h)
  ]

  copy_at-read :
      (r : ℕ) (s : List Value) (v : V)
      → read_at r s ≡ some v
      → read_at (copy_at r s).0 (copy_at r s).1 ≡ some v
  copy_at-read r s v h = elim (Option-cases (get_elem? r s)) [
    | inl missing ↦ absurd (ground arith)
    | inr (y, there) ↦ ground (arith, get_elem?-last s y)
  ]

  copy_at-length : (r : ℕ) (s : List Value) → (copy_at r s).0 ≡ length s
  copy_at-length r s = ground arith

  copy_at-New : (q s : List Value) (r : ℕ) → Keeps q s → get_elem? (copy_at r s).0 q ≡ none
  copy_at-New q s r k = elim (Option-cases (get_elem? (copy_at r s).0 q)) [
    | inl new ↦ new
    | inr (x, old) ↦
        let there : get_elem? (copy_at r s).0 s ≡ some x = k (copy_at r s).0 x old in
        let past : get_elem? (copy_at r s).0 s ≡ none =
          subst (λ n. get_elem? n s ≡ none) (sym (copy_at-length r s)) (get_elem?-length s) in
        absurd (cc)
  ]

  cells-CopierLaws : CopierLaws cells Keeps
  cells-CopierLaws = record {
    New = λ s r. get_elem? r s ≡ none;
    read-Keeps = read_at-Keeps;
    copy-Keeps = copy_at-Keeps;
    copy-read = copy_at-read;
    copy-New = copy_at-New;
    write-Keeps = λ s t r v k new a x h.
        get_elem?-set_elem a r (inject v) x t
          (λ same.
            let old : get_elem? r s ≡ some x = subst (λ n. get_elem? n s ≡ some x) same h in
            absurd (cc))
          (k a x h);
  }

abbrev library : Library
library = record {
  Memory = List Value;
  ListMeta = Text;
  NodeSpec = Text;
  NodeStatus = Text;
  object_meta = cells meta as_meta;
  time = cells time as_time;
  list_meta = cells text as_text;
  node_spec = cells text as_text;
  node_status = cells text as_text;
}

library-IsSeparate : IsSeparate library
library-IsSeparate = record {
  Keeps = Keeps;
  Keeps-self = λ m a x h. h;
  Keeps-trans = λ m n o k l a x h. l a x (k a x h);
  object_meta = cells-CopierLaws meta as_meta;
  time = cells-CopierLaws time as_time;
  list_meta = cells-CopierLaws text as_text;
  node_spec = cells-CopierLaws text as_text;
  node_status = cells-CopierLaws text as_text;
}
